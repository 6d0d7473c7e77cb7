-- ===== src/Key/App.antt =====
-- Application keys, each of which points to the network key it is bound to.
use meshx.Base.{ℕ, Option, none, some, List, [], ◌∷◌, ◌++◌, length, leb, ◌==◌, if◌then◌else◌, ◌>>=◌}
use meshx.Base.Bytes.{bytes_eq}
use meshx.Base.Errno.{Ret, success, inval, mem, resource, already, state as bad_state, not_found}
use meshx.Security.{Ciphers, k4}
use meshx.Key.{KeyState, normal, phase1, phase2, NetKey, find_net_key, net_key_at}

-- `meshx_app_key_value_t`
pub record AppKeyValue : Type 0 where
  pub app_key : List ℕ
  pub aid : ℕ

-- `meshx_app_key_info_t`; `pnet_key_bind` is the address of the network key.
pub record AppKey : Type 0 where
  pub addr : ℕ
  pub key_state : KeyState
  pub key_index : ℕ
  pub value0 : AppKeyValue
  pub value1 : AppKeyValue
  pub pnet_key_bind : ℕ

unfoldable pub app_key_get : ℕ → List AppKey → Option AppKey
app_key_get i [] = none
app_key_get i (k ∷ ks) = if k.key_index == i then some k else app_key_get i ks

abbrev pub app_tx_value : AppKey → AppKeyValue
app_tx_value k = elim k.key_state [ phase2 ↦ k.value1 | _ ↦ k.value0 ]

unfoldable pub app_key_tx_get : ℕ → List AppKey → Option AppKeyValue
app_key_tx_get i ks = elim (app_key_get i ks) [ none ↦ none | some k ↦ some (app_tx_value k) ]

-- meshx_app_key_traverse_start and _continue.
unfoldable pub app_key_traverse_start : List AppKey → Option AppKey
app_key_traverse_start [] = none
app_key_traverse_start (k ∷ ks) = some k

unfoldable pub app_key_traverse_continue : ℕ → List AppKey → Option AppKey
app_key_traverse_continue a [] = none
app_key_traverse_continue a (k ∷ ks) =
    if k.addr == a then app_key_traverse_start ks else app_key_traverse_continue a ks

unfoldable pub app_key_derive : Ciphers → AppKeyValue → AppKeyValue
app_key_derive c v = record v { aid = k4 c v.app_key }

-- meshx_app_key_add, with what malloc gives.
unfoldable pub app_key_add :
    Ciphers → Option AppKey → ℕ → ℕ → ℕ → List ℕ → List NetKey → List AppKey → Ret × List AppKey
app_key_add c fresh app_key_num net_i i key nets ks = elim (app_key_get i ks) [
  | some k ↦ (already, ks)
  | none ↦ if leb app_key_num (length ks) then (resource, ks) else elim (find_net_key net_i nets) [
    | none ↦ (not_found, ks)
    | some net ↦ elim fresh [
      | none ↦ (mem, ks)
      | some m ↦
          let value = app_key_derive c (record (m.value0) { app_key = key }) in
          (
            success,
            ks
                ++ (record m {
                  key_state = normal;
                  key_index = i;
                  value0 = value;
                  pnet_key_bind = net.addr;
                }
                    ∷ []),
          )
    ]
  ]
]

-- meshx_app_key_update of the key that is found, with the state of the network key it points to. The
-- new value is stored in `value1`, and the identifier of `value0` is derived again.
unfoldable pub update_app_key : Ciphers → List ℕ → KeyState → AppKey → Ret × AppKey
update_app_key c key net_state k = elim net_state [
  | phase1 ↦ elim k.key_state [
    | phase1 ↦ (if bytes_eq k.value1.app_key key then success else inval, k)
    | _ ↦ (
      success,
      record k {
        key_state = phase1;
        value1 = record (k.value1) { app_key = key };
        value0 = app_key_derive c k.value0;
      },
    )
  ]
  | _ ↦ (bad_state, k)
]

-- `none` is a read of a network key that has been freed. The index of the network key is not used.
unfoldable pub app_key_update :
    Ciphers → ℕ → List ℕ → List NetKey → List AppKey → Option (Ret × List AppKey)
app_key_update c i key nets [] = some (not_found, [])
app_key_update c i key nets (k ∷ ks) =
    let rest = app_key_update c i key nets ks in
    if k.key_index == i
    then (net_key_at k.pnet_key_bind nets >>= λ net.
        (let (r, k') = update_app_key c key net.key_state k in some (r, k' ∷ ks)))
    else (rest >>= λ (r, ks'). some (r, k ∷ ks'))

-- One round of meshx_app_key_state_transit for a key that is bound to the network key.
unfoldable pub transit_key : KeyState → AppKey → Ret × AppKey
transit_key s k = elim k.key_state [
  | normal ↦ (bad_state, k)
  | _ ↦ (success, record k { key_state = s })
]

-- meshx_app_key_state_transit, with the answer so far.
unfoldable pub transit_from :
    Ret → ℕ → KeyState → List NetKey → List AppKey → Option (Ret × List AppKey)
transit_from r net_i s nets [] = some (r, [])
transit_from r net_i s nets (k ∷ ks) = net_key_at k.pnet_key_bind nets >>= λ net.
    (let (r', k') = if net.key_index == net_i then transit_key s k else (r, k) in
      transit_from r' net_i s nets ks >>= λ (r'', ks'). some (r'', k' ∷ ks'))

unfoldable pub app_key_state_transit :
    ℕ → KeyState → List NetKey → List AppKey → Option (Ret × List AppKey)
app_key_state_transit net_i s nets ks = transit_from not_found net_i s nets ks
