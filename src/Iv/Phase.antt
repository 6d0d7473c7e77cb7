-- ===== src/Iv/Phase.antt =====
-- The phases of the IV update procedure: an IV index in progress is phase 2n, the same index in
-- normal operation is phase 2n + 1.
use meshx.Base.{
  ℕ, ◌+◌, ◌-◌, ◌*◌, ◌/◌, ◌%◌, ◌^◌, ◌≤◌, ◌<◌, ◌≡◌, Bool, true, false, not, ◌&&◌, ◌||◌, some, List,
  replicate, ltb, leb, ◌==◌, if◌then◌else◌, arith,
}
use meshx.Base.Errno.{Ret, success, inval, max, timing}
use meshx.Seq
use meshx.Seq.{Seqs, clear}
use meshx.Seq.Inv
use meshx.Seq.Uses.{clear_lem}
use meshx.Iv.{State, UpdateState, in_progress, is_normal, tick_96h, max_diff, Iv, distance, steps}

-- The sequence module is initialised, the index is 32 bits wide, and index 0 is never in progress.
pub record IsValid (s : State) : Type 0 where
  pub seqs : Seq.Inv.IsValid s.seqs
  pub array : List ℕ
  pub present : s.seqs.seq_array ≡ some array
  pub word : s.iv.iv_index < 2 ^ 32
  pub started : s.iv.update_state ≡ in_progress → 0 < s.iv.iv_index

abbrev pub cleared : Seqs → Seqs
cleared q = record q { seq_array = some (replicate q.element_num 0) }

pub clear_seqs : (s : State) → IsValid s → Seq.clear s.seqs ≡ some (cleared s.seqs)
clear_seqs s v = clear_lem s.seqs v.array v.seqs v.present

abbrev pub phase : Iv → ℕ
phase v = v.iv_index * 2 + is_normal v.update_state

-- The abstract procedure: from phase `p`, with `t` ticks on the counter, asked for phase `q`.
abbrev pub advance : Bool → ℕ → Bool → ℕ → ℕ → Ret × ℕ
advance test t busy p q =
    if ltb (q / 2) (p / 2)
    then (inval, p)
    else if ltb max_diff (q / 2 - p / 2)
    then (max, p)
    else if leb q p
    then (success, p)
    else if not test && ltb t ((q - p) * tick_96h)
    then (timing, p)
    else if (q == p + 1) && (q % 2 == 1) && busy
    then (success, p)
    else (success, q)

pub distance_lem : (n : ℕ) (v : Iv) → v.iv_index ≤ n → n < 2 ^ 32 → distance n v ≡ n - v.iv_index
unfolding distance
distance_lem n v h w = omega arith

pub steps_lem :
    (n : ℕ) (u : UpdateState) (v : Iv)
    → v.iv_index ≤ n
    → n < 2 ^ 32
    → n - v.iv_index ≤ max_diff
    → phase v < n * 2 + is_normal u
    → steps n u v ≡ n * 2 + is_normal u - phase v
unfolding steps
steps_lem n u v h w near up = ground (arith, distance_lem n v h w)

pub not_above :
    (n : ℕ) (v : Iv)
    → v.iv_index ≤ n
    → n < 2 ^ 32
    → n - v.iv_index ≤ max_diff
    → (ltb (distance n v) (2 ^ 31) && ltb max_diff (distance n v)) ≡ false
not_above n v h w near = ground (arith, distance_lem n v h w)

pub above :
    (n : ℕ) (v : Iv)
    → v.iv_index ≤ n
    → n < 2 ^ 32
    → n - v.iv_index < 2 ^ 31
    → max_diff < n - v.iv_index
    → (ltb (distance n v) (2 ^ 31) && ltb max_diff (distance n v)) ≡ true
above n v h w near far = ground (arith, distance_lem n v h w)

pub steps_down :
    (n : ℕ) (u : UpdateState) (v : Iv)
    → v.iv_index ≤ n
    → n < 2 ^ 32
    → n - v.iv_index ≤ max_diff
    → n * 2 + is_normal u ≤ phase v
    → ((steps n u v == 0) || leb (2 ^ 31) (steps n u v)) ≡ true
unfolding steps
steps_down n u v h w near down = ground (arith, distance_lem n v h w)

pub steps_up :
    (n : ℕ) (u : UpdateState) (v : Iv)
    → v.iv_index ≤ n
    → n < 2 ^ 32
    → n - v.iv_index ≤ max_diff
    → phase v < n * 2 + is_normal u
    → (((steps n u v == 0) || leb (2 ^ 31) (steps n u v)) ≡ false)
steps_up n u v h w near up = ground (arith, steps_lem n u v h w near up)
