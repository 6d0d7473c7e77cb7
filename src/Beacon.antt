-- ===== src/Beacon.antt =====
-- mesh/beacon/meshx_beacon.c: the beacons of unprovisioned devices and of networks.
-- `none` in a result is an access out of bounds, or what it is for a function that is called.
pub mod Secure
mod Tests
use meshx.Base.{
  ℕ, ◌*◌, ◌/◌, ◌%◌, Bool, true, false, not, ◌&&◌, Option, none, some, List, [], ◌∷◌, ◌++◌, length,
  take, drop, map, ltb, ◌==◌, if◌then◌else◌, ◌>>=◌,
}
use meshx.Base.Bytes.{bytes_eq}
use meshx.Base.Errno.{Ret, success, inval, state as bad_state, key as bad_key}
use meshx.Security.{Ciphers}
use meshx.Key.{KeyState, normal, phase2, NetKeyValue, NetKey, tx_value}
use meshx.Key.App.{AppKey, app_key_state_transit}
use meshx.Iv
use meshx.Iv.{Iv, UpdateState, in_progress}

-- The bytes of a 32-bit word in the host's order, and the word of four bytes: the code converts neither.
pub record Host : Type 0 where
  pub word_bytes : ℕ → List ℕ
  pub word_of : List ℕ → ℕ

-- The keys of the node, and what an update of the IV index changes.
pub record BeaconNode : Type 0 where
  pub net_keys : List NetKey
  pub app_keys : List AppKey
  pub iv_state : Iv.State

-- `beacon_timer`, with its period (`none` is NULL), and the other static variables.
pub record BeaconTimer : Type 0 where
  pub beacon_timer : Option ℕ
  pub oob_info : List ℕ
  pub uri_hash : Option (List ℕ)

-- `meshx_udb_t` as meshx_beacon_send_udb sends it, and `meshx_snb_t` up to its authentication value.
unfoldable pub udb_bytes : List ℕ → BeaconTimer → List ℕ
udb_bytes uuid t = 0 ∷ (uuid ++ (t.oob_info ++ elim (t.uri_hash) [ none ↦ [] | some hash ↦ hash ]))

abbrev pub update_bit : UpdateState → ℕ
update_bit u = elim u [ Iv.normal ↦ 0 | in_progress ↦ 1 ]

abbrev pub snb_text : Host → Iv → NetKeyValue → List ℕ
snb_text host v key = 2 * update_bit v.update_state ∷ (key.net_id ++ host.word_bytes v.iv_index)

unfoldable pub snb_bytes : Ciphers → Host → Iv → NetKeyValue → List ℕ
snb_bytes c host v key =
    let text = snb_text host v key in 1 ∷ (text ++ take 8 (c.cmac key.beacon_key text))

-- meshx_beacon_send_snb: a beacon for each network key.
unfoldable pub send_snb : Ciphers → Host → Iv → List NetKey → List (List ℕ)
send_snb c host v ks = map (λ k. snb_bytes c host v (tx_value k)) ks

-- meshx_beacon_async_handle_timeout: what is sent, for the node's address and UUID.
unfoldable pub beacon_timeout :
    Ciphers → Host → ℕ → List ℕ → BeaconTimer → BeaconNode → List (List ℕ)
beacon_timeout c host addr uuid t n =
    if addr == 0 then udb_bytes uuid t ∷ [] else send_snb c host n.iv_state.iv n.net_keys

-- The switch on the type of a beacon, 0 for unprovisioned devices and 1 for networks.
abbrev pub allowed : ℕ → ℕ → Ret
allowed addr beacon_type =
    if beacon_type == 0
    then (if addr == 0 then success else bad_state)
    else if beacon_type == 1
    then (if addr == 0 then bad_state else success)
    else inval

-- meshx_beacon_send on a bearer, which is an advertising one or not.
unfoldable pub beacon_send :
    Ciphers → Host → Bool → ℕ → List ℕ → ℕ → BeaconTimer → BeaconNode → Ret × List (List ℕ)
beacon_send c host adv addr uuid beacon_type t n =
    if not adv then (inval, []) else elim (allowed addr beacon_type) [
      | success ↦ (success, beacon_timeout c host addr uuid t n)
      | other ↦ (other, [])
    ]

-- meshx_beacon_start and meshx_beacon_stop. `created` is what meshx_timer_create answers.
unfoldable pub beacon_start : Ret → Bool → ℕ → ℕ → ℕ → BeaconTimer → Ret × BeaconTimer
beacon_start created adv addr beacon_type interval t =
    if not adv then (inval, t) else elim (allowed addr beacon_type) [
      | success ↦ elim (t.beacon_timer) [
        | some _ ↦ (success, record t { beacon_timer = some interval })
        | none ↦ elim created [
          | success ↦ (success, record t { beacon_timer = some interval })
          | other ↦ (other, t)
        ]
      ]
      | other ↦ (other, t)
    ]

unfoldable pub beacon_stop : BeaconTimer → BeaconTimer
beacon_stop t = record t { beacon_timer = none }

-- The values that a network beacon is compared with, and whether a value is the second one of its key.
abbrev pub candidates_of : NetKey → List (NetKey × Bool × NetKeyValue)
candidates_of k = elim k.key_state [
  | normal ↦ (k, false, k.value0) ∷ []
  | _ ↦ (k, false, k.value0) ∷ (k, true, k.value1) ∷ []
]

abbrev pub candidates : List NetKey → List (NetKey × Bool × NetKeyValue)
candidates [] = []
candidates (k ∷ ks) = candidates_of k ++ candidates ks

-- The loops of meshx_beacon_receive: the first value with the network's identifier that authenticates.
unfoldable pub find_snb :
    Ciphers → List ℕ → List ℕ → List ℕ → List (NetKey × Bool × NetKeyValue) → Option (NetKey × Bool)
find_snb c net_id text auth [] = none
find_snb c net_id text auth ((k, second, v) ∷ vs) =
    if bytes_eq v.net_id net_id && bytes_eq auth (take 8 (c.cmac v.beacon_key text))
    then some (k, second)
    else find_snb c net_id text auth vs

-- Assignments through the pointer to a key in the list.
abbrev pub put_net_key : NetKey → List NetKey → List NetKey
put_net_key u [] = []
put_net_key u (k ∷ ks) = if k.addr == u.addr then u ∷ ks else k ∷ put_net_key u ks

-- A key changes, and the application keys that are bound to it follow.
unfoldable pub change_key : KeyState → NetKey → BeaconNode → Option BeaconNode
change_key s k n =
    let nets = put_net_key k n.net_keys in
    app_key_state_transit k.key_index s nets n.app_keys >>= λ (r, apps).
    some (record n { net_keys = nets; app_keys = apps })

-- What the key refresh flag does, with the key that the beacon is of: the answer is an error in the
-- normal state, where the IV index is not looked at.
unfoldable pub refresh_key : ℕ → NetKey → Bool → BeaconNode → Option (Ret × BeaconNode)
refresh_key flag k second n =
    if flag % 2 == 1
    then elim k.key_state [
      | normal ↦ some (bad_state, n)
      | _ ↦ change_key phase2 (record k { key_state = phase2 }) n >>= λ n'. some (success, n')
    ]
    else if second
    then (change_key normal (record k { key_state = normal; value0 = k.value1 }) n >>= λ n'.
        some (success, n'))
    else some (success, n)

-- The part of meshx_beacon_receive for a network beacon after its type; `busy` is
-- meshx_is_lower_trans_busy. The answer of meshx_iv_index_update is not looked at.
unfoldable pub receive_snb : Ciphers → Host → Bool → List ℕ → BeaconNode → Option (Ret × BeaconNode)
receive_snb c host busy bytes n =
    if ltb (length bytes) 21
    then none
    else elim (find_snb c (take 8 (drop 1 bytes)) (take 13 bytes) (take 8 (drop 13 bytes))
        (candidates n.net_keys)) [
          | none ↦ some (bad_key, n)
          | some (k, second) ↦ elim bytes [
            | [] ↦ none
            | flag ∷ rest ↦ refresh_key flag k second n >>= λ (r, n'). elim r [
              | success ↦
                  Iv.update busy (host.word_of (take 4 (drop 8 rest)))
                    (if flag / 2 % 2 == 1 then in_progress else Iv.normal) n'.iv_state
                  >>= λ (r', iv'). some (success, record n' { iv_state = iv' })
              | other ↦ some (other, n')
            ]
          ]
        ]

-- What is notified of an unprovisioned device: its UUID, its OOB information and the hash of its URI.
pub record Udb : Type 0 where
  pub dev_uuid : List ℕ
  pub oob_info : List ℕ
  pub uri_hash : Option (List ℕ)

unfoldable pub receive_udb : List ℕ → Option Udb
receive_udb bytes =
    if ltb (length bytes) 18
    then none
    else some (record {
      dev_uuid = take 16 bytes;
      oob_info = take 2 (drop 16 bytes);
      uri_hash = if length bytes == 22 then some (drop 18 bytes) else none;
    })

-- meshx_beacon_receive of all the bytes of a beacon.
unfoldable pub beacon_receive :
    Ciphers → Host → Bool → List ℕ → BeaconNode → Option (Ret × BeaconNode × List Udb)
beacon_receive c host busy [] n = none
beacon_receive c host busy (t ∷ bytes) n =
    if t == 0
    then (receive_udb bytes >>= λ u. some (success, n, u ∷ []))
    else if t == 1
    then (receive_snb c host busy bytes n >>= λ (r, n'). some (r, n', []))
    else some (success, n, [])
