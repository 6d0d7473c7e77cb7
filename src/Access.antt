-- ===== src/Access.antt =====
-- mesh/access/meshx_access.c: operation codes, and the checks before a message is sent.
mod Tests
use meshx.Base.{
  ℕ, ◌+◌, ◌-◌, ◌*◌, ◌/◌, ◌%◌, ◌^◌, ◌<◌, ◌≤◌, ◌≡◌, ◌⊎◌, inl, inr, refl, sym, ap, ◌∙◌, Bool, true,
  false, not, ◌&&◌, ◌||◌, Option, none, some, List, [], ◌∷◌, ◌++◌, length, ltb, leb, ◌==◌,
  if◌then◌else◌, arith,
}
use meshx.Base.Errno.{Ret, inval, length as bad_length, key as bad_key}
use meshx.LowerTrans.Pdu.{is_valid_address}

abbrev pub unseg_max : ℕ
unseg_max = 11

abbrev pub access_max : ℕ
access_max = 380

-- MESHX_ACCESS_OPCODE_SIZE
abbrev pub opcode_size : ℕ → ℕ
opcode_size op = if leb 0xC00000 op then 3 else if leb 0x8000 op then 2 else 1

-- meshx_access_opcode_to_buf, with the bytes that are written.
pub opcode_to_buf : ℕ → List ℕ
opcode_to_buf op =
    if opcode_size op == 1
    then op % 2 ^ 8 ∷ []
    else if opcode_size op == 2
    then op / 2 ^ 8 % 2 ^ 8 ∷ op % 2 ^ 8 ∷ []
    else op / 2 ^ 16 % 2 ^ 8 ∷ op / 2 ^ 8 % 2 ^ 8 ∷ op % 2 ^ 8 ∷ []

-- meshx_access_buf_to_opcode of a buffer; `none` is a read behind its end. Bits 7 and 6 of the first
-- byte tell the length.
pub buf_to_opcode : List ℕ → Option ℕ
buf_to_opcode [] = none
buf_to_opcode (a ∷ rest) = if a / 0x80 % 2 == 0 then some a else elim rest [
  | [] ↦ none
  | b ∷ rest' ↦
      if a / 0x40 % 2 == 0
      then some (a * 2 ^ 8 + b)
      else elim rest' [ [] ↦ none | c ∷ _ ↦ some (a * 2 ^ 16 + b * 2 ^ 8 + c) ]
]

-- The fields of `meshx_msg_ctx_t` that the checks use; a key is there or null.
pub record AccessCtx : Type 0 where
  pub src : ℕ
  pub dst : ℕ
  pub net_key : Bool
  pub app_key : Bool
  pub akf : Bool
  pub aid : ℕ
  pub seg : Bool
  pub szmic : Bool

-- meshx_access_send: the answer, and whether the upper transport is called. `upper` is what that answers.
pub access_send : Ret → ℕ → AccessCtx → Ret × Bool
access_send upper len m =
    if not (is_valid_address m.src) || not (is_valid_address m.dst)
    then (inval, false)
    else if not m.net_key || not m.app_key
    then (bad_key, false)
    else if (m.akf && (m.aid == 0)) || (not m.akf && not (m.aid == 0))
    then (inval, false)
    else if (leb len unseg_max && not m.seg) && m.szmic
    then (inval, false)
    else if m.szmic && ltb (access_max - 4) len
    then (bad_length, false)
    else if not m.szmic && ltb access_max len
    then (bad_length, false)
    else (upper, true)

-- The numbers that are operation codes of one, two and three bytes.
abbrev pub IsOpcode : ℕ → Type 0
IsOpcode op = (op < 0x80) ⊎ ((0x8000 ≤ op) × (op < 0xC000)) ⊎ ((0xC00000 ≤ op) × (op < 2 ^ 24))

buf-one : (op : ℕ) (rest : List ℕ) → op < 0x80 → buf_to_opcode (opcode_to_buf op ++ rest) ≡ some op
unfolding buf_to_opcode opcode_to_buf
buf-one op rest h =
    let size : opcode_size op ≡ 1 = ground arith in
    let byte : op % 2 ^ 8 ≡ op = omega (arith, h) in
    let low : (op / 0x80 % 2 == 0) ≡ true = ground arith in
    rw (opcode_to_buf, size, byte, buf_to_opcode, low) refl

buf-two :
    (op : ℕ) (rest : List ℕ)
    → 0x8000 ≤ op
    → op < 0xC000
    → buf_to_opcode (opcode_to_buf op ++ rest) ≡ some op
unfolding buf_to_opcode opcode_to_buf
buf-two op rest least most =
    let size : opcode_size op ≡ 2 = ground arith in
    let high : (op / 2 ^ 8 % 2 ^ 8 / 0x80 % 2 == 0) ≡ false = ground arith in
    let low : (op / 2 ^ 8 % 2 ^ 8 / 0x40 % 2 == 0) ≡ true = ground arith in
    let whole : op / 2 ^ 8 % 2 ^ 8 * 2 ^ 8 + op % 2 ^ 8 ≡ op = omega (arith, most) in
    rw (opcode_to_buf, size, buf_to_opcode, high, low, whole) refl

buf-three :
    (op : ℕ) (rest : List ℕ)
    → 0xC00000 ≤ op
    → op < 2 ^ 24
    → buf_to_opcode (opcode_to_buf op ++ rest) ≡ some op
unfolding buf_to_opcode opcode_to_buf
buf-three op rest least most =
    let size : opcode_size op ≡ 3 = ground arith in
    let high : (op / 2 ^ 16 % 2 ^ 8 / 0x80 % 2 == 0) ≡ false = ground arith in
    let low : (op / 2 ^ 16 % 2 ^ 8 / 0x40 % 2 == 0) ≡ false = ground arith in
    let whole : op / 2 ^ 16 % 2 ^ 8 * 2 ^ 16 + op / 2 ^ 8 % 2 ^ 8 * 2 ^ 8 + op % 2 ^ 8 ≡ op =
      omega (arith, most) in
    rw (opcode_to_buf, size, buf_to_opcode, high, low, whole) refl

-- An operation code of one, two or three bytes is read back from the bytes that are written for it,
-- whatever bytes follow them.
pub buf_to_opcode-opcode_to_buf :
    (op : ℕ) (rest : List ℕ) → IsOpcode op → buf_to_opcode (opcode_to_buf op ++ rest) ≡ some op
buf_to_opcode-opcode_to_buf op rest (inl one) = buf-one op rest one
buf_to_opcode-opcode_to_buf op rest (inr (inl (least, most))) = buf-two op rest least most
buf_to_opcode-opcode_to_buf op rest (inr (inr (least, most))) = buf-three op rest least most
