-- ===== src/Nmc.antt =====
-- mesh/network/meshx_nmc.c: the network message cache.
-- `none` in a result is an access out of bounds of the array or through a null pointer.
pub mod Ring
mod Tests
use meshx.Base.{
  ℕ, zero, suc, ◌+◌, ◌%◌, ◌^◌, Bool, true, false, not, ◌&&◌, Option, none, some, List, get_elem?,
  set?, replicate, ◌==◌, if◌then◌else◌, ◌>>=◌,
}
use meshx.Base.Errno.{Ret, success, already, inval}

-- `meshx_nmc_t`
pub record Msg : Type 0 where
  pub src : ℕ
  pub seq : ℕ

abbrev pub zero_msg : Msg
zero_msg = record { src = 0; seq = 0 }

-- `nmc_array`, `nmc_index`, `nmc_circle`, `nmc_size`.
pub record Nmc : Type 0 where
  pub nmc_array : Option (List Msg)
  pub nmc_index : ℕ
  pub nmc_circle : Bool
  pub nmc_size : ℕ

-- `allocated` is whether meshx_malloc returned memory; it is cleared before the pointer is tested.
pub init : Bool → ℕ → Nmc → Option (Ret × Nmc)
init allocated config_size s = elim (s.nmc_array) [
  | some xs ↦ some (already, s)
  | none ↦
      if allocated
      then some (
        success,
        record {
          nmc_array = some (replicate config_size zero_msg);
          nmc_index = 0;
          nmc_circle = false;
          nmc_size = config_size;
        },
      )
      else none
]

pub deinit : Nmc → Nmc
deinit s = record { nmc_array = none; nmc_index = 0; nmc_circle = false; nmc_size = 0 }

-- Before the write a full array starts again at its first slot.
wrap : Nmc → Nmc
wrap s = if s.nmc_index == s.nmc_size then record s { nmc_index = 0; nmc_circle = true } else s

unfoldable pub add : Msg → Nmc → Option (Ret × Nmc)
unfolding wrap
add nmc s = elim (s.nmc_array) [
  | none ↦ some (inval, s)
  | some xs ↦ set? xs (wrap s).nmc_index nmc >>= λ ys. some (
    success,
    record (wrap s) { nmc_array = some ys; nmc_index = ((wrap s).nmc_index + 1) % 2 ^ 32 },
  )
]

pub clear : Nmc → Nmc
clear s = elim (s.nmc_array) [
  | none ↦ record s { nmc_index = 0; nmc_circle = false }
  | some xs ↦ record s {
    nmc_array = some (replicate s.nmc_size zero_msg);
    nmc_index = 0;
    nmc_circle = false;
  }
]

-- memcmp of two entries, taken field by field (the padding of `meshx_nmc_t` is not modelled).
abbrev pub same : Msg → Msg → Bool
same a b = a.src == b.src && a.seq == b.seq

-- The loop of meshx_nmc_check; the `break` stands behind the `if`, so it ends after one round.
check_from : ℕ → ℕ → Msg → List Msg → Option Bool
check_from zero i nmc xs = some true
check_from (suc n) i nmc xs = get_elem? xs i >>= λ m. some (if same m nmc then false else true)

unfoldable pub check : Msg → Nmc → Option Bool
unfolding check_from
check nmc s = elim (s.nmc_array) [
  | none ↦ some false
  | some xs ↦ check_from (if s.nmc_circle then s.nmc_size else s.nmc_index) 0 nmc xs
]
