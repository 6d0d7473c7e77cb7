-- ===== src/LowerTrans/Rx/Receive/Bits.antt =====
-- What the two words of bits of a receive task say.
use meshx.Base.{
  ℕ, zero, suc, ◌+◌, ◌-◌, ◌*◌, ◌/◌, ◌%◌, ◌^◌, ◌≤◌, ◌<◌, ◌≡◌, refl, sym, ap, ◌∙◌, ◌≢◌, ◌⊎◌, inl, inr,
  Option, some, List, [], ◌∷◌, ◌==◌, ◌>>=◌, if◌then◌else◌, arith, Bool-cases, Option-cases,
}
use meshx.Base.Memory.{copy}
use meshx.Base.Bits.{
  bit, set_bit, clear_bit, bit-set_self, bit-set_ne, bit-clear_self, bit-clear_ne, bit-zero,
}
use meshx.LowerTrans.Pdu.{MsgCtx}
use meshx.LowerTrans.Segment.{max_seg_size}
use meshx.LowerTrans.Rx.{RxTask, set_ones, set_up}
use meshx.LowerTrans.Rx.Receive.{Segment, store_segment}

pub bit-set_ones_lt : (n m j : ℕ) → j < n → bit (set_ones n m) j ≡ 1
unfolding set_ones
bit-set_ones_lt zero m j h = absurd (omega arith)
bit-set_ones_lt (suc n) m j h = elim (Bool-cases (n == j)) [
  | inl e ↦ let same : n ≡ j = ground arith in rw same (bit-set_self (set_ones j m) j)
  | inr e ↦ bit-set_ne (set_ones n m) n j (λ p. ground arith) ∙ bit-set_ones_lt n m j (ground arith)
]

pub bit-set_ones_le : (n m j : ℕ) → n ≤ j → bit (set_ones n m) j ≡ bit m j
unfolding set_ones
bit-set_ones_le zero m j h = refl
bit-set_ones_le (suc n) m j h =
    bit-set_ne (set_ones n m) n j (λ p. omega (arith, h, p))
    ∙ bit-set_ones_le n m j (omega (arith, h))

-- One of the segments is the one with this number.
abbrev pub Stored : ℕ → List (ℕ × Segment) → Type 0
Stored j [] = ⊥
Stored j ((len, g) ∷ gs) = (g.sego ≡ j) ⊎ Stored j gs

-- Segments stored one after another, each with the length of its PDU.
unfoldable pub store_all : List (ℕ × Segment) → RxTask → Option RxTask
store_all [] t = some t
store_all ((len, g) ∷ gs) t = store_segment len g t >>= λ u. store_all gs u

store_segment-words :
    (len : ℕ) (g : Segment) (t u : RxTask)
    → store_segment len g t ≡ some u
    → (u.not_received_seg ≡ clear_bit t.not_received_seg g.sego)
      × (u.block_ack ≡ set_bit t.block_ack g.sego)
unfolding store_segment
store_segment-words len g t u h =
    let size = max_seg_size g.ctx.ctl in
    elim (Option-cases (
      copy (g.sego * size) (if g.sego == g.segn then (len + 2 ^ 8 - 4) % 2 ^ 8 else size) g.bytes
        t.pdu)) [ inl e ↦ absurd (ground arith) | inr (block, e) ↦ ground arith ]

bit-clear_at : (m i j : ℕ) → i ≡ j → bit (clear_bit m i) j ≡ 0
bit-clear_at m i j e = rw e (bit-clear_self m j)

bit-set_at : (m i j : ℕ) → i ≡ j → bit (set_bit m i) j ≡ 1
bit-set_at m i j e = rw e (bit-set_self m j)

-- Each bit below `n` is either missing or acknowledged, and each acknowledged one was stored.
Tracks : ℕ → (ℕ → Type 0) → RxTask → Type 0
Tracks n stored t =
    (j : ℕ)
    → (j < n → bit t.not_received_seg j + bit t.block_ack j ≡ 1)
      × (bit t.block_ack j ≡ 1 → stored j)

set_up-Tracks :
    (max_pdu_len : ℕ) (ctx : MsgCtx) (block : List ℕ) (t : RxTask) (stored : ℕ → Type 0)
    → Tracks (max_pdu_len / max_seg_size ctx.ctl % 256) stored (set_up max_pdu_len ctx block t)
unfolding set_up Tracks
set_up-Tracks max_pdu_len ctx block t stored j =
    let n = max_pdu_len / max_seg_size ctx.ctl % 256 in
    (
      λ h. omega (arith, bit-set_ones_lt n t.not_received_seg j h, bit-zero j),
      λ h. absurd (omega (arith, h, bit-zero j)),
    )

stored-Tracks :
    (n len : ℕ) (g : Segment) (stored : ℕ → Type 0) (t u : RxTask)
    → store_segment len g t ≡ some u
    → Tracks n stored t
    → Tracks n (λ j. (g.sego ≡ j) ⊎ stored j) u
unfolding Tracks
stored-Tracks n len g stored t u h all j =
    let v = all j in
    let w = store_segment-words len g t u h in
    elim (Bool-cases (g.sego == j)) [
      | inl e ↦
          let same : g.sego ≡ j = ground arith in
          let missing : bit u.not_received_seg j ≡ 0 =
            ap (λ x. bit x j) w.0 ∙ bit-clear_at t.not_received_seg g.sego j same in
          let acked : bit u.block_ack j ≡ 1 =
            ap (λ x. bit x j) w.1 ∙ bit-set_at t.block_ack g.sego j same in
          (λ l. omega (arith, missing, acked), λ l. inl same)
      | inr e ↦
          let ne : g.sego ≢ j = λ p. ground arith in
          let missing : bit u.not_received_seg j ≡ bit t.not_received_seg j =
            ap (λ x. bit x j) w.0 ∙ bit-clear_ne t.not_received_seg g.sego j ne in
          let acked : bit u.block_ack j ≡ bit t.block_ack j =
            ap (λ x. bit x j) w.1 ∙ bit-set_ne t.block_ack g.sego j ne in
          (λ l. omega (arith, missing, acked, v.0 l), λ l. inr (v.1 (sym acked ∙ l)))
    ]

shift : (A B C : Type 0) → (A ⊎ B) ⊎ C → B ⊎ (A ⊎ C)
shift A B C (inl (inl a)) = inr (inl a)
shift A B C (inl (inr b)) = inl b
shift A B C (inr c) = inr (inr c)

store_all-Tracks :
    (n : ℕ) (stored : ℕ → Type 0) (gs : List (ℕ × Segment)) (t u : RxTask)
    → store_all gs t ≡ some u
    → Tracks n stored t
    → Tracks n (λ j. stored j ⊎ Stored j gs) u
unfolding Tracks store_all
store_all-Tracks n stored [] t u h v j =
    let same : t ≡ u = ground arith in rw (sym same) ((v j).0, λ l. inl ((v j).1 l))
store_all-Tracks n stored ((len, g) ∷ gs) t u h v j = elim (Option-cases (store_segment len g t)) [
  | inl e ↦ absurd (ground arith)
  | inr (t', e) ↦
      let h' : store_all gs t' ≡ some u = ground arith in
      let r =
        store_all-Tracks n (λ i. (g.sego ≡ i) ⊎ stored i) gs t' u h'
          (stored-Tracks n len g stored t t' e v) j in
      (r.0, λ l. shift (g.sego ≡ j) (stored j) (Stored j gs) (r.1 l))
]

from_none : (A : Type 0) → ⊥ ⊎ A → A
from_none A (inl b) = absurd b
from_none A (inr a) = a

-- A receive task, whatever its fields were before, that meshx_lower_trans_rx_task_request sets up and
-- that stores any segments in any order, has no missing segment left only if every segment of the
-- message was among them, and then it acknowledges every one.
pub all_received :
    (max_pdu_len : ℕ) (ctx : MsgCtx) (block : List ℕ) (t u : RxTask) (gs : List (ℕ × Segment))
    → store_all gs (set_up max_pdu_len ctx block t) ≡ some u
    → u.not_received_seg ≡ 0
    → (j : ℕ) → j < max_pdu_len / max_seg_size ctx.ctl % 256
    → Stored j gs × (bit u.block_ack j ≡ 1)
unfolding Tracks
all_received max_pdu_len ctx block t u gs h none_missing j small =
    let n = max_pdu_len / max_seg_size ctx.ctl % 256 in
    let v =
      store_all-Tracks n (λ i. ⊥) gs (set_up max_pdu_len ctx block t) u h
        (set_up-Tracks max_pdu_len ctx block t (λ i. ⊥)) j in
    let clear : bit u.not_received_seg j ≡ 0 = ap (λ x. bit x j) none_missing ∙ bit-zero j in
    let acked : bit u.block_ack j ≡ 1 = omega (arith, v.0 small, clear) in
    (from_none (Stored j gs) (v.1 acked), acked)

store_all-kept :
    (j : ℕ) (gs : List (ℕ × Segment)) (t u : RxTask)
    → store_all gs t ≡ some u
    → ¬ Stored j gs
    → bit u.not_received_seg j ≡ bit t.not_received_seg j
unfolding store_all
store_all-kept j [] t u h other = ap (λ x. bit x j) (ground arith)
store_all-kept j ((len, g) ∷ gs) t u h other = elim (Option-cases (store_segment len g t)) [
  | inl e ↦ absurd (ground arith)
  | inr (t', e) ↦
      let h' : store_all gs t' ≡ some u = ground arith in
      let word = (store_segment-words len g t t' e).0 in
      store_all-kept j gs t' u h' (λ x. other (inr x))
      ∙ ap (λ x. bit x j) word
      ∙ bit-clear_ne t.not_received_seg g.sego j (λ x. other (inl x))
]

-- A task that still misses segment `j` of an earlier message, and is set up for a message that has
-- no segment `j`, is never complete: whatever segments it stores, if none of them is numbered `j`,
-- some bit of its missing segments stays set.
pub stale_bit :
    (max_pdu_len : ℕ) (ctx : MsgCtx) (block : List ℕ) (t u : RxTask) (gs : List (ℕ × Segment))
    (j : ℕ)
    → max_pdu_len / max_seg_size ctx.ctl % 256 ≤ j
    → bit t.not_received_seg j ≡ 1
    → ¬ Stored j gs
    → store_all gs (set_up max_pdu_len ctx block t) ≡ some u
    → u.not_received_seg ≢ 0
unfolding set_up
stale_bit max_pdu_len ctx block t u gs j beyond stale other h done =
    let kept = store_all-kept j gs (set_up max_pdu_len ctx block t) u h other in
    let old =
      bit-set_ones_le (max_pdu_len / max_seg_size ctx.ctl % 256) t.not_received_seg j beyond in
    let clear : bit u.not_received_seg j ≡ 0 = ap (λ x. bit x j) done ∙ bit-zero j in
    omega (arith, kept, old, stale, clear)
