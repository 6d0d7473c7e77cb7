-- ===== src/Seq.antt =====
-- mesh/node/meshx_seq.c: the sequence numbers of the node's elements.
-- `none` in a result is an abort by MESHX_ASSERT or an access out of bounds of the array.
pub mod Inv
pub mod Uses
mod Tests
use meshx.Base.{
  ℕ, zero, suc, ◌+◌, Bool, Option, none, some, List, get_elem?, set?, replicate, ltb, leb, ◌==◌,
  if◌then◌else◌, ◌>>=◌,
}
use meshx.Base.Errno.{Ret, success, mem, already}

abbrev pub seq_max : ℕ
seq_max = 0xFFFFFF

abbrev pub seq_invalid : ℕ
seq_invalid = 0xFFFFFFFF

-- `seq_array` and `meshx_element_num`.
pub record Seqs : Type 0 where
  pub seq_array : Option (List ℕ)
  pub element_num : ℕ

-- `allocated` is whether meshx_malloc returned memory. An old array, if any, is left alone.
pub init : Bool → ℕ → Seqs → Ret × Seqs
init allocated n s = elim (s.seq_array) [
  | some xs ↦ (already, s)
  | none ↦
      if allocated
      then (success, record { seq_array = some (replicate n 0); element_num = n })
      else (mem, s)
]

pub deinit : Seqs → Seqs
deinit s = record { seq_array = none; element_num = 0 }

pub get : ℕ → Seqs → Option ℕ
get i s = do xs ← s.seq_array; if leb s.element_num i then some seq_invalid else get_elem? xs i

-- The value that is stored, at most `seq_max`.
clamp : ℕ → ℕ
clamp seq = if ltb seq_max seq then seq_max else seq

pub set : ℕ → ℕ → Seqs → Option (ℕ × Seqs)
unfolding clamp
set i seq s = do
  xs ← s.seq_array
  if leb s.element_num i
      then some (seq_invalid, s)
      else (set? xs i (clamp seq) >>= λ ys. some (clamp seq, record s { seq_array = some ys }))

unfoldable pub use_seq : ℕ → Seqs → Option (ℕ × Seqs)
use_seq i s = do
  xs ← s.seq_array
  if leb s.element_num i
      then some (seq_invalid, s)
      else (get_elem? xs i >>= λ seq.
          if seq_max == seq
          then some (seq, s)
          else (set? xs i (seq + 1) >>= λ ys. some (seq, record s { seq_array = some ys })))

-- The loop of meshx_seq_clear, with `n` rounds left, at index `i`.
clear_from : ℕ → ℕ → List ℕ → Option (List ℕ)
clear_from zero i xs = some xs
clear_from (suc n) i xs = elim (set? xs i 0) [ none ↦ none | some ys ↦ clear_from n (suc i) ys ]

pub clear : Seqs → Option Seqs
unfolding clear_from
clear s = do
  xs ← s.seq_array
  ys ← clear_from s.element_num 0 xs
  some (record s { seq_array = some ys })
