-- ===== src/Base/Memory.antt =====
-- memcpy of a block of memory.
use Prim.Native.Nat.{ℕ, ◌+◌, ◌<◌, ◌≤◌}
use mathlib.Core.Path.{◌≡◌, refl, sym, ap, ◌∙◌}
use mathlib.Core.Bool.{true, ◌&&◌}
use mathlib.Core.Option.{Option, none, some}
use mathlib.Core.List.{List, ◌++◌, append_assoc}
use native.Mathlib.Omega.{arith}
use meshx.Base.Bools.{leb, if◌then◌else◌}
use meshx.Base.Lists.{length, take, drop, length-append, length-take, length-drop, take-append}

-- memcpy of `n` bytes to an offset of a block.
unfoldable pub copy : ℕ → ℕ → List ℕ → List ℕ → Option (List ℕ)
copy offset n bytes block =
    if leb n (length bytes) && leb (offset + n) (length block)
    then some (take offset block ++ (take n bytes ++ drop (offset + n) block))
    else none

-- What a copy within bounds does.
pub record Copied (offset n : ℕ) (bytes block : List ℕ) : Type 0 where
  pub after : List ℕ
  pub eq : copy offset n bytes block ≡ some after
  pub same_length : length after ≡ length block
  pub start : take (offset + n) after ≡ take offset block ++ take n bytes

pub copy-Copied :
    (offset n : ℕ) (bytes block : List ℕ)
    → n ≤ length bytes
    → offset + n ≤ length block
    → Copied offset n bytes block
unfolding copy
copy-Copied offset n bytes block h room =
    let head = take offset block ++ take n bytes in
    let tail = drop (offset + n) block in
    let l : length head ≡ offset + n = omega (
      arith,
      length-append (take offset block) (take n bytes),
      length-take offset block,
      length-take n bytes,
      h,
      room,
    ) in
    let whole : take offset block ++ (take n bytes ++ tail) ≡ head ++ tail =
      sym (append_assoc (take offset block) (take n bytes) tail) in
    let in_bytes : leb n (length bytes) ≡ true = ground arith in
    let in_block : leb (offset + n) (length block) ≡ true = ground arith in
    record {
      after = take offset block ++ (take n bytes ++ tail);
      eq = rw (in_bytes, in_block, copy) refl;
      same_length =
          ap length whole
          ∙ omega (arith, length-append head tail, l, length-drop (offset + n) block, room);
      start = ap (take (offset + n)) whole ∙ take-append (offset + n) head tail (sym l);
    }

pub copy-none :
    (offset n : ℕ) (bytes block : List ℕ)
    → length block < offset + n
    → copy offset n bytes block ≡ none
unfolding copy
copy-none offset n bytes block h = ground arith
