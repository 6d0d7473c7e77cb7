-- ===== src/Net.antt =====
-- mesh/network/meshx_net.c: network PDUs, their encryption and their way in and out.
-- `none` in a result is an access out of bounds or through a null pointer.
pub mod Send
pub mod Undone
pub mod Parts
pub mod RoundTrip
pub mod Short
pub mod Transfer
mod Tests
use meshx.Base.{
  ℕ, suc, ◌+◌, ◌-◌, ◌*◌, ◌/◌, ◌%◌, ◌^◌, ◌≤◌, ◌<◌, Bool, true, false, not, ◌&&◌, ◌||◌, Option, none,
  some, List, [], ◌∷◌, ◌++◌, length, take, drop, replicate, ltb, leb, ◌==◌, if◌then◌else◌, ◌>>=◌,
}
use meshx.Base.Bytes.{be16, be32, of_be16, xor}
use meshx.Base.Errno.{
  Ret, success, fail, inval, length as bad_length, filter, key, connect as no_connect,
  inval_net_iface,
}
use meshx.Security.{Ciphers}
use meshx.Key.{KeyState, normal, NetKeyValue, NetKey}
use meshx.Nmc.{Nmc, check, add}
use meshx.NetIface.{
  Ifaces, Iface, loopback, find_iface, find_bearer, iface_ifilter, iface_ofilter, iface_get,
}
use meshx.LowerTrans.Pdu.{is_valid_address}

abbrev pub trans_pdu_max_len : ℕ
trans_pdu_max_len = 20

-- `meshx_net_pdu_t`: the first byte, the six bytes that are obfuscated, and the 22 bytes of the
-- destination and the transport PDU with its check value.
pub record Pdu : Type 0 where
  pub first : ℕ
  pub header : List ℕ
  pub body : List ℕ

-- The control bit, and the length of the check value.
abbrev pub ctl_of : List ℕ → Bool
ctl_of [] = false
ctl_of (b ∷ bs) = leb 0x80 b

abbrev pub mic_len : Bool → ℕ
mic_len ctl = if ctl then 8 else 4

-- `meshx_net_nonce_t`
abbrev pub nonce : ℕ → List ℕ → List ℕ
nonce iv_index header = 0 ∷ (header ++ (0 ∷ 0 ∷ be32 iv_index))

-- meshx_net_encrypt
unfoldable pub net_encrypt : Ciphers → NetKeyValue → ℕ → ℕ → Pdu → Pdu
net_encrypt c v iv_index n p =
    let mic_size = mic_len (ctl_of p.header) in
    let (text, mic) =
      c.ccm_encrypt v.encryption_key (nonce iv_index p.header) (take (2 + n) p.body) mic_size in
    record p { body = text ++ (mic ++ drop (2 + n + mic_size) p.body) }

-- The loop of meshx_net_obfuscation.
unfoldable pub xor_all : List ℕ → List ℕ → List ℕ
xor_all [] ps = []
xor_all (h ∷ hs) [] = h ∷ hs
xor_all (h ∷ hs) (p ∷ ps) = xor h p ∷ xor_all hs ps

-- meshx_net_obfuscation
unfoldable pub net_obfuscation : Ciphers → NetKeyValue → ℕ → Pdu → Pdu
net_obfuscation c v iv_index p = record p {
  header =
      xor_all p.header (c.aes128 v.privacy_key (replicate 5 0 ++ (be32 iv_index ++ take 7 p.body)));
}

-- meshx_net_decrypt. The buffer is changed also when the check fails.
unfoldable pub net_decrypt : Ciphers → NetKeyValue → ℕ → ℕ → Pdu → Option (Bool × Pdu)
net_decrypt c v iv_index n p =
    let mic_size = mic_len (ctl_of p.header) in
    let (good, text) =
      c.ccm_decrypt v.encryption_key (nonce iv_index p.header) (take (2 + n) p.body)
        (take mic_size (drop (2 + n) p.body)) in
    if leb (2 + n + mic_size) (length p.body)
    then some (good, record p { body = text ++ drop (2 + n) p.body })
    else none

-- One round of the loop over a key's values: the length of the transport PDU if it could be decrypted.
unfoldable pub try_value : Ciphers → ℕ → ℕ → NetKeyValue → Pdu → Option (Option ℕ × Pdu)
try_value c iv_index len v p =
    if v.nid == p.first % 0x80
    then (let p' = net_obfuscation c v iv_index p in
        let n = (len + 256 - 9 - mic_len (ctl_of p'.header)) % 256 in
        net_decrypt c v iv_index n p' >>= λ (good, p''). some (if good then some n else none, p''))
    else some (none, p)

-- The values of a key that are tried.
abbrev pub values : NetKey → List NetKeyValue
values k = elim k.key_state [ normal ↦ k.value0 ∷ [] | _ ↦ k.value0 ∷ k.value1 ∷ [] ]

-- The loops: the value that decrypts the PDU and the length of the transport PDU. What a value has
-- done to the PDU stays when the next one is tried.
unfoldable pub try_values :
    Ciphers → ℕ → ℕ → List NetKeyValue → Pdu → Option (Option (NetKeyValue × ℕ) × Pdu)
try_values c iv_index len [] p = some (none, p)
try_values c iv_index len (v ∷ vs) p = try_value c iv_index len v p >>= λ (o, p'). (elim o [
  | some n ↦ some (some (v, n), p')
  | none ↦ try_values c iv_index len vs p'
])

unfoldable pub try_keys :
    Ciphers → ℕ → ℕ → List NetKey → Pdu → Option (Option (NetKeyValue × ℕ) × Pdu)
try_keys c iv_index len [] p = some (none, p)
try_keys c iv_index len (k ∷ ks) p = try_values c iv_index len (values k) p >>= λ (o, p'). (elim o [
  | some found ↦ some (some found, p')
  | none ↦ try_keys c iv_index len ks p'
])

-- A message with the fields of `meshx_msg_ctx_t` that this file uses.
pub record NetMsg : Type 0 where
  pub ctl : Bool
  pub ttl : ℕ
  pub seq : ℕ
  pub src : ℕ
  pub dst : ℕ
  pub iv_index : ℕ
  pub net_key : NetKeyValue
  pub net_iface : Option ℕ
  pub trans_pdu : List ℕ

-- What is called: meshx_lower_trans_receive, meshx_bearer_adv_send and meshx_proxy_send.
pub data Out : Type 0 where
  lower_trans_receive : NetMsg → Out
  bearer_adv_send : ℕ → List ℕ → Out
  proxy_send : ℕ → List ℕ → Out

pub record State : Type 0 where
  pub ifaces : Ifaces
  pub nmc : Nmc

-- The node: its IV index and address, its keys, and what the lower transport and a bearer answer.
pub record Node : Type 0 where
  pub node_iv_index : ℕ
  pub node_addr : ℕ
  pub net_keys : List NetKey
  pub lower : Ret
  pub bearer_answer : ℕ → Ret

-- The PDU when it has been decrypted, as a message.
unfoldable pub msg_of : ℕ → ℕ → NetKeyValue → ℕ → Pdu → Option NetMsg
msg_of iface iv_index v n p = elim p.header [
  | t ∷ s0 ∷ s1 ∷ s2 ∷ a ∷ b ∷ _ ↦ elim p.body [
    | d ∷ e ∷ rest ↦ some (record {
      ctl = leb 0x80 t;
      ttl = t % 0x80;
      seq = s0 * 2 ^ 16 + s1 * 2 ^ 8 + s2;
      src = of_be16 a b;
      dst = of_be16 d e;
      iv_index = iv_index;
      net_key = v;
      net_iface = some iface;
      trans_pdu = take n rest;
    })
    | _ ↦ none
  ]
  | _ ↦ none
]

-- The part of meshx_net_receive after the decryption.
unfoldable pub deliver : Node → NetMsg → State → Option (Ret × State × List Out)
deliver node m s =
    let entry : meshx.Nmc.Msg = record { src = m.src; seq = m.seq } in
    if not (is_valid_address m.src) || not (is_valid_address m.dst)
    then some (inval, s, [])
    else (check entry s.nmc >>= λ new. (elim new [
      | false ↦ some (fail, s, [])
      | true ↦ add entry s.nmc >>= λ (r, nmc').
          (let s' : State = record s { nmc = nmc' } in
            if m.dst == node.node_addr
            then some (node.lower, s', lower_trans_receive m ∷ [])
            else some (success, s', []))
    ]))

-- The index that a received PDU was sent with.
abbrev pub choose_iv_index : ℕ → ℕ → ℕ
choose_iv_index iv_index first =
    if iv_index % 2 == first / 0x80 then iv_index else (iv_index + 2 ^ 32 - 1) % 2 ^ 32

-- meshx_net_receive from the copy of the PDU on: 29 bytes are read, whatever `len` is.
unfoldable pub receive_pdu :
    Ciphers → Node → ℕ → ℕ → List ℕ → State → Option (Ret × State × List Out)
receive_pdu c node iface len pdata s = elim pdata [
  | [] ↦ none
  | first ∷ rest ↦
      if ltb (length rest) 28
      then none
      else (let iv_index = choose_iv_index node.node_iv_index first in
          try_keys c iv_index len node.net_keys
            (record { first = first; header = take 6 rest; body = take 22 (drop 6 rest) })
          >>= λ (o, p). (elim o [
            | none ↦ some (key, s, [])
            | some (v, n) ↦ msg_of iface iv_index v n p >>= λ m. deliver node m s
          ]))
]

-- meshx_net_receive. `pdata` is what is readable from the pointer on.
unfoldable pub net_receive :
    Ciphers → Node → Option ℕ → ℕ → List ℕ → State → Option (Ret × State × List Out)
net_receive c node none len pdata s = some (inval, s, [])
net_receive c node (some iface) len pdata s = iface_ifilter iface s.ifaces >>= λ (pass, ifaces').
    (let s' : State = record s { ifaces = ifaces' } in
      if pass then receive_pdu c node iface len pdata s' else some (filter, s', []))
