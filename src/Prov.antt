-- ===== src/Prov.antt =====
-- mesh/provision/meshx_prov.c: the provisioning protocol, above its bearer.
-- `none` in a result is an access out of bounds. The pointers that are tested for NULL are given.
pub mod Auth
pub mod Confirm
pub mod Send
pub mod Process
pub mod Notify
pub mod Ensures
pub mod Events
pub mod Faults
pub mod AuthValue
pub mod Order
mod Tests
pub mod Data
pub mod Handshake
use meshx.Base.{
  ℕ, ◌+◌, ◌*◌, ◌/◌, ◌%◌, Bool, true, false, Option, none, some, List, [], ◌∷◌, ◌++◌, length, take,
  drop, ltb, if◌then◌else◌,
}
use meshx.Base.Bytes.{be16, be32, of_be16, of_be32}
use meshx.PbAdv.{State, Role, Contents, Device}

-- MESHX_BEARER_TYPE_ADV, MESHX_BEARER_TYPE_GATT and any other value.
pub data BearerType : Type 0 where
  adv_bearer gatt_bearer other_bearer : BearerType

-- meshx_ecc_validate_public_key, and meshx_ecc_shared_secret of a public and a private key.
pub record Ecc : Type 0 where
  pub validate : List ℕ → Bool
  pub shared_secret : List ℕ → List ℕ → List ℕ

-- `struct _meshx_prov_dev`. It is the first member of the bearer's device, which has those of its
-- fields that the bearer reads; the parts of PDUs are kept there as the bytes that are sent.
pub record ProvDev : Type 0 where
  pub dev : Device
  pub bearer_type : BearerType
  pub share_secret : List ℕ
  pub public_key_remote : List ℕ
  pub confirmation_salt : List ℕ
  pub session_key : List ℕ
  pub session_nonce : List ℕ
  pub device_key : List ℕ
  pub auth_value : List ℕ
  pub confirmation_remote : List ℕ
  pub random_remote : List ℕ

-- `meshx_prov_capabilites_t`, with its words in the host's order.
pub record Capabilites : Type 0 where
  pub element_nums : ℕ
  pub algorithms : ℕ
  pub public_key_type : ℕ
  pub static_oob_type : ℕ
  pub output_oob_size : ℕ
  pub output_oob_action : ℕ
  pub input_oob_size : ℕ
  pub input_oob_action : ℕ

-- `meshx_prov_start_t`
pub record ProvStart : Type 0 where
  pub algorithm : ℕ
  pub public_key_type : ℕ
  pub auth_method : ℕ
  pub auth_action : ℕ
  pub auth_size : ℕ

-- `meshx_prov_data_t`, with its words in the host's order.
pub record ProvData : Type 0 where
  pub net_key : List ℕ
  pub key_index : ℕ
  pub key_refresh_flag : ℕ
  pub iv_update_flag : ℕ
  pub rfu : ℕ
  pub iv_index : ℕ
  pub unicast_address : ℕ
  pub mic : List ℕ

-- The structures as the bytes of a PDU, the words converted by MESHX_HOST_TO_BE16 and _BE32, and back.
abbrev pub capabilites_bytes : Capabilites → List ℕ
capabilites_bytes p =
    p.element_nums
    ∷ (be16 p.algorithms
        ++ (p.public_key_type
            ∷ p.static_oob_type
            ∷ p.output_oob_size
            ∷ (be16 p.output_oob_action ++ (p.input_oob_size ∷ be16 p.input_oob_action))))

abbrev pub of_capabilites : List ℕ → Option Capabilites
of_capabilites (n ∷ a ∷ a' ∷ k ∷ s ∷ o ∷ b ∷ b' ∷ i ∷ c ∷ c' ∷ _) = some (record {
  element_nums = n;
  algorithms = of_be16 a a';
  public_key_type = k;
  static_oob_type = s;
  output_oob_size = o;
  output_oob_action = of_be16 b b';
  input_oob_size = i;
  input_oob_action = of_be16 c c';
})
of_capabilites _ = none

abbrev pub start_bytes : ProvStart → List ℕ
start_bytes s = s.algorithm ∷ s.public_key_type ∷ s.auth_method ∷ s.auth_action ∷ s.auth_size ∷ []

abbrev pub of_start : List ℕ → Option ProvStart
of_start (a ∷ k ∷ m ∷ c ∷ s ∷ _) =
    some (record {
      algorithm = a;
      public_key_type = k;
      auth_method = m;
      auth_action = c;
      auth_size = s;
    })
of_start _ = none

-- The part of `meshx_prov_data_t` that is encrypted; the flags share a byte.
abbrev pub data_text : ProvData → List ℕ
data_text d =
    d.net_key
    ++ (be16 d.key_index
        ++ ((d.key_refresh_flag + 2 * d.iv_update_flag + 4 * d.rfu)
            ∷ (be32 d.iv_index ++ be16 d.unicast_address)))

abbrev pub of_data_after : List ℕ → List ℕ → Option ProvData
of_data_after net_key (k ∷ k' ∷ f ∷ a ∷ b ∷ c ∷ d ∷ u ∷ u' ∷ mic) = some (record {
  net_key = net_key;
  key_index = of_be16 k k';
  key_refresh_flag = f % 2;
  iv_update_flag = f / 2 % 2;
  rfu = f / 4;
  iv_index = of_be32 a b c d;
  unicast_address = of_be16 u u';
  mic = mic;
})
of_data_after net_key _ = none

abbrev pub of_data : List ℕ → Option ProvData
of_data bytes = of_data_after (take 16 bytes) (drop 16 bytes)

-- The first `n` bytes of what is received.
abbrev pub slice : ℕ → List ℕ → Option (List ℕ)
slice n bytes = if ltb (length bytes) n then none else some (take n bytes)

-- The sample data of mesh/common/meshx_sample_data.c, which take the place of the application's when
-- MESHX_USE_SAMPLE_DATA is set.
pub record Samples : Type 0 where
  pub capabilites : Capabilites
  pub start : ProvStart
  pub prov_data : ProvData

-- What other code answers: the absolute value of meshx_rand, meshx_malloc, and which of the two
-- settings of MESHX_USE_SAMPLE_DATA the program is built with.
pub record ProvEnv : Type 0 where
  pub rand : ℕ
  pub allocated : Bool
  pub samples : Option Samples

-- The state and the contents of PDUs are assigned.
abbrev pub moved : State → Contents → ProvDev → ProvDev
moved s t p = record p { dev = record (p.dev) { state = s; contents = t } }
