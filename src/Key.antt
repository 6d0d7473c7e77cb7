-- ===== src/Key.antt =====
-- mesh/node/meshx_key.c: network keys, and the types of all keys.
-- A key is known by a number that stands for its address, since application keys point to network keys.
pub mod App
pub mod Dev
pub mod Refresh
mod Tests
use meshx.Base.{
  ℕ, ◌≤◌, Bool, true, false, not, Option, none, some, List, [], ◌∷◌, ◌++◌, length, leb, ◌==◌,
  if◌then◌else◌,
}
use meshx.Base.Bytes.{bytes_eq}
use meshx.Base.Errno.{Ret, success, inval, mem, resource, already, state as bad_state, not_found}
use meshx.Security.{Ciphers, s1, k1, k2, k3}

-- `meshx_key_state_t`
pub data KeyState : Type 0 where
  normal phase1 phase2 : KeyState

-- `meshx_net_key_value_t`
pub record NetKeyValue : Type 0 where
  pub net_key : List ℕ
  pub identity_key : List ℕ
  pub beacon_key : List ℕ
  pub nid : ℕ
  pub encryption_key : List ℕ
  pub privacy_key : List ℕ
  pub net_id : List ℕ

-- `meshx_net_key_info_t`, with the two elements of `key_value`.
pub record NetKey : Type 0 where
  pub addr : ℕ
  pub key_state : KeyState
  pub key_index : ℕ
  pub value0 : NetKeyValue
  pub value1 : NetKeyValue

-- meshx_find_net_key: when no key has the index, the last one.
unfoldable pub find_net_key : ℕ → List NetKey → Option NetKey
find_net_key i [] = none
find_net_key i (k ∷ ks) =
    if k.key_index == i then some k else elim ks [ [] ↦ some k | _ ↦ find_net_key i ks ]

-- meshx_net_key_get
unfoldable pub net_key_get : ℕ → List NetKey → Option NetKey
net_key_get i [] = none
net_key_get i (k ∷ ks) = if k.key_index == i then some k else net_key_get i ks

-- The key that messages are sent with.
abbrev pub tx_value : NetKey → NetKeyValue
tx_value k = elim k.key_state [ phase2 ↦ k.value1 | _ ↦ k.value0 ]

-- meshx_net_key_tx_get
unfoldable pub net_key_tx_get : ℕ → List NetKey → Option NetKeyValue
net_key_tx_get i ks = elim (net_key_get i ks) [ none ↦ none | some k ↦ some (tx_value k) ]

-- meshx_net_key_traverse_start and _continue. A key that is in no list is not looked for.
unfoldable pub net_key_traverse_start : List NetKey → Option NetKey
net_key_traverse_start [] = none
net_key_traverse_start (k ∷ ks) = some k

unfoldable pub net_key_traverse_continue : ℕ → List NetKey → Option NetKey
net_key_traverse_continue a [] = none
net_key_traverse_continue a (k ∷ ks) =
    if k.addr == a then net_key_traverse_start ks else net_key_traverse_continue a ks

-- meshx_net_key_derive. Without memory for meshx_k2 its three results stay as they were.
unfoldable pub net_key_derive : Ciphers → Bool → NetKeyValue → NetKeyValue
net_key_derive c k2_memory v =
    let p = 0x69 ∷ 0x64 ∷ 0x31 ∷ 0x32 ∷ 0x38 ∷ 1 ∷ [] in
    let v' : NetKeyValue = record v {
      identity_key = k1 c v.net_key (s1 c (0x6e ∷ 0x6b ∷ 0x69 ∷ 0x6b ∷ [])) p;
      beacon_key = k1 c v.net_key (s1 c (0x6e ∷ 0x6b ∷ 0x62 ∷ 0x6b ∷ [])) p;
      net_id = k3 c v.net_key;
    } in
    elim (k2 c k2_memory v.net_key (0 ∷ [])) [
      | none ↦ v'
      | some (nid, encryption, privacy) ↦ record v' {
        nid = nid;
        encryption_key = encryption;
        privacy_key = privacy;
      }
    ]

-- What malloc gives: the new key's address and the contents of its memory, if any, and whether
-- meshx_k2 gets memory.
pub record Env : Type 0 where
  pub fresh : Option NetKey
  pub k2_memory : Bool

-- meshx_net_key_add
unfoldable pub net_key_add : Ciphers → Env → ℕ → ℕ → List ℕ → List NetKey → Ret × List NetKey
net_key_add c env net_key_num i key ks = elim (net_key_get i ks) [
  | some k ↦ (already, ks)
  | none ↦ if leb net_key_num (length ks) then (resource, ks) else elim env.fresh [
    | none ↦ (mem, ks)
    | some m ↦
        let value = net_key_derive c env.k2_memory (record (m.value0) { net_key = key }) in
        (success, ks ++ (record m { key_state = normal; key_index = i; value0 = value } ∷ []))
  ]
]

-- meshx_net_key_update of the key that is found.
unfoldable pub update_key : Ciphers → Bool → List ℕ → NetKey → Ret × NetKey
update_key c k2_memory key k = elim k.key_state [
  | phase2 ↦ (bad_state, k)
  | phase1 ↦ (if bytes_eq k.value1.net_key key then success else inval, k)
  | normal ↦ (
    success,
    record k {
      key_state = phase1;
      value1 = net_key_derive c k2_memory (record (k.value1) { net_key = key });
    },
  )
]

unfoldable pub net_key_update : Ciphers → Bool → ℕ → List ℕ → List NetKey → Ret × List NetKey
net_key_update c k2_memory i key [] = (not_found, [])
net_key_update c k2_memory i key (k ∷ ks) =
    let (r, ks') = net_key_update c k2_memory i key ks in
    let (r', k') = update_key c k2_memory key k in
    if k.key_index == i then (r', k' ∷ ks) else (r, k ∷ ks')

-- meshx_net_key_delete, which frees the key.
unfoldable pub net_key_delete : ℕ → List NetKey → Ret × List NetKey
net_key_delete i [] = (not_found, [])
net_key_delete i (k ∷ ks) =
    let (r, ks') = net_key_delete i ks in if k.key_index == i then (success, ks) else (r, k ∷ ks')

-- A read through a pointer to a network key; `none` if it has been freed.
unfoldable pub net_key_at : ℕ → List NetKey → Option NetKey
net_key_at a [] = none
net_key_at a (k ∷ ks) = if k.addr == a then some k else net_key_at a ks
