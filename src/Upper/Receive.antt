-- ===== src/Upper/Receive.antt =====
-- meshx_upper_trans_decrypt and meshx_upper_trans_receive.
use meshx.Base.{
  ℕ, ◌-◌, ◌%◌, ◌&&◌, Option, none, some, List, [], ◌∷◌, ◌++◌, length, take, drop, ltb, ◌==◌,
  if◌then◌else◌,
}
use meshx.Base.Errno.{Ret, success, key as bad_key}
use meshx.Security.{Ciphers}
use meshx.Key.{normal}
use meshx.Key.App.{AppKey, AppKeyValue}
use meshx.Key.Dev.{DeviceKey, dev_key_get}
use meshx.Upper.{UpperMsg, trans_nonce}

-- The keys of the node, and its address.
pub record NodeKeys : Type 0 where
  pub app_keys : List AppKey
  pub dev_keys : List DeviceKey
  pub node_addr : ℕ

-- The values of a key that are tried.
abbrev pub app_values : AppKey → List AppKeyValue
app_values k = elim k.key_state [ normal ↦ k.value0 ∷ [] | _ ↦ k.value0 ∷ k.value1 ∷ [] ]

-- One round of the loop over the values: the key, if it decrypts the text, and what is then in the buffer.
unfoldable pub try_app_value :
    Ciphers → UpperMsg → List ℕ → AppKeyValue → List ℕ → Option (List ℕ) × List ℕ
try_app_value c m mic v text =
    if v.aid == m.aid
    then (let (ok, text') = c.ccm_decrypt v.app_key (trans_nonce m) text mic in
        (if ok then some v.app_key else none, text'))
    else (none, text)

-- The loops over the values and over the keys.
unfoldable pub try_app_values :
    Ciphers → UpperMsg → List ℕ → List AppKeyValue → List ℕ → Option (List ℕ) × List ℕ
try_app_values c m mic [] text = (none, text)
try_app_values c m mic (v ∷ vs) text =
    let (o, text') = try_app_value c m mic v text in
    elim o [ some k ↦ (some k, text') | none ↦ try_app_values c m mic vs text' ]

unfoldable pub try_app_keys :
    Ciphers → UpperMsg → List ℕ → List AppKey → List ℕ → Option (List ℕ) × List ℕ
try_app_keys c m mic [] text = (none, text)
try_app_keys c m mic (k ∷ ks) text =
    let (o, text') = try_app_values c m mic (app_values k) text in
    elim o [ some found ↦ (some found, text') | none ↦ try_app_keys c m mic ks text' ]

-- The two halves of meshx_upper_trans_decrypt: the answer, the message with its key, and the buffer.
-- `refused` is what meshx_aes_ccm_decrypt answers when it does not decrypt.
unfoldable pub app_decrypt :
    Ciphers → NodeKeys → UpperMsg → List ℕ → List ℕ → Ret × UpperMsg × List ℕ
app_decrypt c n m text mic =
    let (o, text') = try_app_keys c m mic n.app_keys text in
    elim o [ none ↦ (bad_key, m, text') | some k ↦ (success, record m { trans_key = k }, text') ]

unfoldable pub dev_decrypt :
    Ciphers → Ret → NodeKeys → UpperMsg → List ℕ → List ℕ → Ret × UpperMsg × List ℕ
dev_decrypt c refused n m text mic = elim (dev_key_get n.node_addr n.dev_keys) [
  | none ↦ (bad_key, m, text)
  | some k ↦
      let (ok, text') = c.ccm_decrypt k.dev_key (trans_nonce m) text mic in
      (if ok then success else refused, record m { trans_key = k.dev_key }, text')
]

unfoldable pub upper_decrypt :
    Ciphers → Ret → NodeKeys → UpperMsg → List ℕ → List ℕ → Ret × UpperMsg × List ℕ
upper_decrypt c refused n m text mic =
    if m.akf then app_decrypt c n m text mic else dev_decrypt c refused n m text mic

-- meshx_upper_trans_receive: the answer, the message, and the data of the call of meshx_access_receive,
-- if there is one, which answers `access`. The length goes to the decryption and to the access layer as a
-- byte. `none` is a PDU that is shorter than its check value.
unfoldable pub upper_receive :
    Ciphers → Ret → Ret → NodeKeys → UpperMsg → List ℕ → Option (Ret × UpperMsg × Option (List ℕ))
upper_receive c refused access n m pdata =
    let size : ℕ = if m.seg && m.szmic then 8 else 4 in
    let len = length pdata - size in
    if m.ctl
    then some (success, m, none)
    else if ltb (length pdata) size
    then none
    else (let (r, m', text) =
          upper_decrypt c refused n m (take (len % 256) pdata) (drop len pdata) in
        some (elim r [
          | success ↦
              (access, m', some (take (len % 256) (text ++ drop (len % 256) (take len pdata))))
          | other ↦ (other, m', none)
        ]))
