-- ===== src/Prov/Auth.antt =====
-- The authentication value, and whether a start message may be accepted.
use meshx.Base.{
  ℕ, zero, suc, ◌/◌, ◌%◌, ◌^◌, Bool, true, false, not, ◌&&◌, ◌||◌, Option, some, List, [], ◌∷◌,
  get_elem?, set, replicate, ltb, leb, ◌==◌, if◌then◌else◌, ◌>>=◌,
}
use meshx.Base.Bits.{bit}
use meshx.Prov.{ProvDev, Capabilites, ProvStart}

-- `meshx_prov_auth_value_oob_t`. The number and the text share their memory in the C code; each is
-- here what is read there as such.
pub record Oob : Type 0 where
  pub auth_action : ℕ
  pub auth_value_numeric : ℕ
  pub auth_value_alpha : List ℕ
  pub auth_value_alpha_len : ℕ

-- `meshx_prov_auth_value_t`, by its method.
pub data AuthValue : Type 0 where
  no_oob : AuthValue
  static_oob : List ℕ → AuthValue
  output_oob input_oob : Oob → AuthValue
  other_method : AuthValue

-- The loop for a number, with `n` indices left: index `n` is written, and index 0 is not.
unfoldable pub numeric_from : ℕ → ℕ → List ℕ → List ℕ
numeric_from zero value auth = auth
numeric_from (suc n) value auth = numeric_from n (value / 2 ^ 8) (set auth (suc n) (value % 2 ^ 8))

-- The loop for a text, with `n` of its rounds left and the next index. A text is read out of its
-- array when its length is more than the array's.
unfoldable pub alpha_from : ℕ → ℕ → ℕ → List ℕ → Option (List ℕ)
alpha_from zero i len alpha = some []
alpha_from (suc n) i len alpha = (if ltb i len then get_elem? alpha i else some 0) >>= λ b.
    alpha_from n (suc i) len alpha >>= λ bs. some (b ∷ bs)

-- The part of meshx_prov_set_auth_value that output and input share.
unfoldable pub oob_value : Oob → List ℕ → Option (List ℕ)
oob_value o auth =
    if leb o.auth_action 3
    then some (numeric_from 15 o.auth_value_numeric auth)
    else alpha_from 16 0 o.auth_value_alpha_len o.auth_value_alpha

-- meshx_prov_set_auth_value
unfoldable pub set_auth_value : AuthValue → ProvDev → Option ProvDev
set_auth_value no_oob p = some (record p { auth_value = replicate 16 0 })
set_auth_value (static_oob bytes) p = some (record p { auth_value = bytes })
set_auth_value (output_oob o) p =
    oob_value o p.auth_value >>= λ v. some (record p { auth_value = v })
set_auth_value (input_oob o) p =
    oob_value o p.auth_value >>= λ v. some (record p { auth_value = v })
set_auth_value other_method p = some p

-- meshx_prov_validate_capabilites
unfoldable pub validate_capabilites : Capabilites → Bool
validate_capabilites c = not (c.element_nums == 0)

-- meshx_prov_validate_start. The methods are 0 for none, 1 for static, 2 for output, 3 for input.
unfoldable pub validate_start : ProvStart → Bool
validate_start s =
    if ltb 1 s.algorithm
    then false
    else if ltb 1 s.public_key_type
    then false
    else if leb 4 s.auth_method
    then false
    else if (s.auth_method == 2) && leb 5 s.auth_action
    then false
    else if (s.auth_method == 3) && leb 4 s.auth_action
    then false
    else if (s.auth_method == 2) || (s.auth_method == 3)
    then not (ltb s.auth_size 1 || ltb 8 s.auth_size)
    else true

-- The branches for output and for input of the function below.
abbrev pub is_oob_supported : ProvStart → ℕ → ℕ → Bool
is_oob_supported s size action =
    if size == 0
    then false
    else if ltb size s.auth_size
    then false
    else not (bit action s.auth_action == 0)

-- meshx_prov_is_start_supported, with the capabilites that the device has.
unfoldable pub is_start_supported : Capabilites → ProvStart → Bool
is_start_supported c s =
    if not (s.public_key_type == c.public_key_type)
    then false
    else if s.auth_method == 1
    then not (c.static_oob_type == 0)
    else if s.auth_method == 2
    then is_oob_supported s c.output_oob_size c.output_oob_action
    else if s.auth_method == 3
    then is_oob_supported s c.input_oob_size c.input_oob_action
    else true
