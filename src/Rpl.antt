-- ===== src/Rpl.antt =====
-- mesh/node/meshx_rpl.c: the replay protection list.
-- `none` in a result is an abort by MESHX_ASSERT, an access out of bounds of the array, or a loop
-- that does not end.
pub mod Inv
pub mod Replay
mod Tests
use meshx.Base.{
  ℕ, zero, suc, ◌+◌, ◌%◌, ◌^◌, Bool, true, false, ◌||◌, Option, none, some, List, get_elem?, set?,
  replicate, ltb, leb, ◌==◌, if◌then◌else◌, ◌>>=◌,
}
use meshx.Base.Errno.{Ret, success, already, resource}

-- `meshx_rpl_t`
pub record Entry : Type 0 where
  pub src : ℕ
  pub seq : ℕ
  pub iv_index : ℕ

abbrev pub zero_entry : Entry
zero_entry = record { src = 0; seq = 0; iv_index = 0 }

-- `rpl_array`, `rpl_index`, `rpl_size`.
pub record Rpl : Type 0 where
  pub rpl_array : Option (List Entry)
  pub rpl_index : ℕ
  pub rpl_size : ℕ

-- `allocated` is whether meshx_malloc returned memory. The memory is cleared before the pointer is
-- tested, so a failed allocation is a write through the null pointer.
pub init : Bool → ℕ → Rpl → Option (Ret × Rpl)
init allocated config_size s = elim (s.rpl_array) [
  | some xs ↦ some (already, s)
  | none ↦
      if allocated
      then some (
        success,
        record {
          rpl_array = some (replicate config_size zero_entry);
          rpl_index = 0;
          rpl_size = config_size;
        },
      )
      else none
]

-- The loop of meshx_rpl_update from the `uint8_t` counter `i`. It reads the slot at `rpl_index` in
-- each round; `some none` is that the loop ended, `some (some e)` that this slot had the source.
unfoldable pub search : ℕ → ℕ → ℕ → List Entry → ℕ → Option (Option Entry)
search zero src index xs i = none
search (suc fuel) src index xs i = elim (ltb i index) [
  | false ↦ some none
  | true ↦ elim (get_elem? xs index) [
    | none ↦ none
    | some e ↦ elim (e.src == src) [
      | true ↦ some (some e)
      | false ↦ search fuel src index xs ((i + 1) % 256)
    ]
  ]
]

-- The counter has 256 values, so a loop that is not over after 257 rounds is never over.
abbrev rounds : ℕ
rounds = 257

-- What meshx_rpl_update does after its loop.
unfoldable pub store : Entry → Rpl → List Entry → Option Entry → Option (Ret × Rpl)
store rpl s xs (some e) =
    set? xs s.rpl_index (record e { seq = rpl.seq; iv_index = rpl.iv_index }) >>= λ ys.
    some (success, record s { rpl_array = some ys })
store rpl s xs none =
    if s.rpl_index == s.rpl_size
    then some (resource, s)
    else (set? xs s.rpl_index rpl >>= λ ys.
        some (success, record s { rpl_array = some ys; rpl_index = (s.rpl_index + 1) % 2 ^ 32 }))

unfoldable pub update : Entry → Rpl → Option (Ret × Rpl)
update rpl s = do
  xs ← s.rpl_array
  found ← search rounds rpl.src s.rpl_index xs 0
  store rpl s xs found

-- meshx_rpl_clear and meshx_rpl_deinit.
pub clear : Rpl → Rpl
clear s = elim (s.rpl_array) [
  | none ↦ record s { rpl_index = 0 }
  | some xs ↦ record s { rpl_array = some (replicate s.rpl_size zero_entry); rpl_index = 0 }
]

pub deinit : Rpl → Rpl
deinit s = record { rpl_array = none; rpl_index = 0; rpl_size = 0 }

-- Whether a message is refused by the entry of its source.
abbrev pub is_old : Entry → Entry → Bool
is_old rpl e = leb rpl.seq e.seq || ltb rpl.iv_index e.iv_index

-- The loop of meshx_rpl_check, with `n` rounds left, at index `i`.
unfoldable pub check_from : ℕ → ℕ → Entry → List Entry → Option Bool
check_from zero i rpl xs = some true
check_from (suc n) i rpl xs = elim (get_elem? xs i) [
  | none ↦ none
  | some e ↦ elim (e.src == rpl.src) [
    | true ↦ some (if is_old rpl e then false else true)
    | false ↦ check_from n (suc i) rpl xs
  ]
]

unfoldable pub check : Entry → Rpl → Option Bool
check rpl s = do xs ← s.rpl_array; check_from s.rpl_index 0 rpl xs

pub is_full : Rpl → Option Bool
is_full s = do xs ← s.rpl_array; some (leb s.rpl_size s.rpl_index)
