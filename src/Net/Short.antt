-- ===== src/Net/Short.antt =====
-- PDUs that are too short.
use meshx.Base.{
  ℕ, ◌+◌, ◌-◌, ◌%◌, ◌≤◌, ◌<◌, ◌≡◌, refl, ap, ◌∙◌, inl, inr, true, false, none, List, [], ◌∷◌,
  length, take, drop, length-take, ltb, leb, ◌==◌, arith, Bool-cases,
}
use meshx.Security.{Ciphers}
use meshx.Key.{KeyState, normal, phase1, phase2, NetKeyValue, NetKey}
use meshx.Net.{
  Pdu, ctl_of, mic_len, net_obfuscation, net_decrypt, try_value, try_values, try_keys, values,
  State, Node, choose_iv_index, receive_pdu,
}

net_decrypt-none :
    (c : Ciphers) (v : NetKeyValue) (iv n : ℕ) (p : Pdu)
    → length p.body < 2 + n + mic_len (ctl_of p.header)
    → net_decrypt c v iv n p ≡ none
unfolding net_decrypt
net_decrypt-none c v iv n p long =
    let out : leb (2 + n + mic_len (ctl_of p.header)) (length p.body) ≡ false = ground arith in
    rw (net_decrypt, out) refl

net_obfuscation-body :
    (c : Ciphers) (v : NetKeyValue) (iv : ℕ) (p : Pdu) → (net_obfuscation c v iv p).body ≡ p.body
unfolding net_obfuscation
net_obfuscation-body c v iv p = refl

try_value-short :
    (c : Ciphers) (iv len : ℕ) (v : NetKeyValue) (p : Pdu)
    → v.nid ≡ p.first % 0x80
    → len < 13
    → length p.body ≤ 22
    → try_value c iv len v p ≡ none
unfolding try_value
try_value-short c iv len v p nid short body =
    let q = net_obfuscation c v iv p in
    let size = mic_len (ctl_of q.header) in
    let n = (len + 256 - 9 - size) % 256 in
    let known : (v.nid == p.first % 0x80) ≡ true = ground arith in
    let wraps : 22 < 2 + n + size = elim (Bool-cases (ctl_of q.header)) [
      | inl e ↦ rw e (omega (arith, short))
      | inr e ↦ rw e (omega (arith, short))
    ] in
    let len_body = ap length (net_obfuscation-body c v iv p) in
    rw (try_value, known, net_decrypt-none c v iv n q (omega (arith, len_body, body, wraps))) refl

values-first :
    (s : KeyState) (a b : NetKeyValue)
    → (vs : List NetKeyValue) × ((elim s [ normal ↦ a ∷ [] | _ ↦ a ∷ b ∷ [] ]) ≡ a ∷ vs)
values-first normal a b = ([], refl)
values-first phase1 a b = (b ∷ [], refl)
values-first phase2 a b = (b ∷ [], refl)

try_values-none :
    (c : Ciphers) (iv len : ℕ) (v : NetKeyValue) (vs : List NetKeyValue) (p : Pdu)
    → try_value c iv len v p ≡ none
    → try_values c iv len (v ∷ vs) p ≡ none
unfolding try_values
try_values-none c iv len v vs p h = rw (try_values, h) refl

try_keys-short :
    (c : Ciphers) (iv len : ℕ) (k : NetKey) (ks : List NetKey) (p : Pdu)
    → try_value c iv len k.value0 p ≡ none
    → try_keys c iv len (k ∷ ks) p ≡ none
unfolding try_keys
try_keys-short c iv len k ks p h =
    let (vs, e) = values-first k.key_state k.value0 k.value1 in
    let nothing : try_values c iv len (values k) p ≡ none =
      ap (λ l. try_values c iv len l p) e ∙ try_values-none c iv len k.value0 vs p h in
    rw (try_keys, nothing) refl

-- A PDU of less than 13 bytes whose first byte names the network identifier of the first key makes
-- meshx_net_receive read out of bounds: the length of the transport PDU wraps round below 0.
pub receive_pdu-short :
    (c : Ciphers) (node : Node) (iface len first : ℕ) (rest : List ℕ) (k : NetKey)
    (ks : List NetKey) (s : State)
    → len < 13
    → node.net_keys ≡ k ∷ ks
    → k.value0.nid ≡ first % 0x80
    → receive_pdu c node iface len (first ∷ rest) s ≡ none
unfolding receive_pdu
receive_pdu-short c node iface len first rest k ks s short keys nid =
    elim (Bool-cases (ltb (length rest) 28)) [
      | inl e ↦ rw (receive_pdu, e) refl
      | inr e ↦
          let iv = choose_iv_index node.node_iv_index first in
          let p : Pdu = record {
            first = first;
            header = take 6 rest;
            body = take 22 (drop 6 rest);
          } in
          let tried =
            try_value-short c iv len k.value0 p nid short
              (omega (arith, length-take 22 (drop 6 rest))) in
          let nothing : try_keys c iv len node.net_keys p ≡ none =
            rw keys (try_keys-short c iv len k ks p tried) in
          rw (receive_pdu, e, nothing) refl
    ]
