-- ===== src/Net/RoundTrip.antt =====
-- A PDU of meshx_net_send, received by a node that has its key.
use meshx.Base.{
  ◌⊎◌, ℕ, ◌+◌, ◌-◌, ◌*◌, ◌/◌, ◌%◌, ◌^◌, ◌≤◌, ◌<◌, ◌≡◌, refl, sym, ap, ◌∙◌, inl, inr, true, false,
  none, some, List, [], ◌∷◌, ◌++◌, append_assoc, length, take, drop, take-append, length-append,
  replicate, ltb, ◌==◌, if◌then◌else◌, ◌>>=◌, All, arith, Bool-cases,
}
use meshx.Base.Bytes.{be32}
use meshx.Base.Errno.{Ret}
use meshx.Security.{Ciphers}
use meshx.Key.{NetKeyValue, NetKey, normal}
use meshx.Nmc.{Nmc, check, add}
use meshx.LowerTrans.Pdu.{is_valid_address}
use meshx.Net.{
  Pdu, ctl_of, mic_len, nonce, net_obfuscation, try_value, values, try_values, try_keys, NetMsg,
  net_receive, lower_trans_receive, State, Node, msg_of, deliver, choose_iv_index, receive_pdu,
}
use meshx.Net.Send.{plain_pdu, net_pdu, to_bytes}
use meshx.Net.Undone.{IsSound, length-xor_all}
use meshx.NetIface.{Ifaces, iface_ifilter}
use meshx.Net.Parts.{
  IsSendable, text_of, cut_of, plain_ctl, net_encrypt-plain, sent, take-parts, body_of_rest,
  try_value-encrypted,
}

plain_bytes : (m : NetMsg) → All (λ h. h < 256) (plain_pdu m).header
unfolding plain_pdu
plain_bytes m = (
  elim (Bool-cases m.ctl) [ inl e ↦ rw e (omega arith) | inr e ↦ rw e (omega arith) ],
  (omega arith, (omega arith, (omega arith, (omega arith, (omega arith, tt))))),
)

plain_six : (m : NetMsg) → length (plain_pdu m).header ≡ 6
unfolding plain_pdu
plain_six m = refl

length-net_obfuscation :
    (c : Ciphers) (v : NetKeyValue) (iv : ℕ) (p : Pdu)
    → length (net_obfuscation c v iv p).header ≡ length p.header
unfolding net_obfuscation
length-net_obfuscation c v iv p =
    length-xor_all p.header (c.aes128 v.privacy_key (replicate 5 0 ++ (be32 iv ++ take 7 p.body)))

-- The bytes that are sent: the first one, the header and the encrypted part.
sent-parts :
    (c : Ciphers) (m : NetMsg)
    → IsSound c
    → IsSendable m
    → (junk : List ℕ) × (sent c m
        ≡ (plain_pdu m).first
          ∷ ((net_obfuscation c m.net_key m.iv_index (record {
            first = (plain_pdu m).first;
            header = (plain_pdu m).header;
            body = (cut_of c m).0 ++ ((cut_of c m).1 ++ junk);
          })).header
              ++ ((cut_of c m).0 ++ (cut_of c m).1)))
      × (length ((cut_of c m).0 ++ (cut_of c m).1) ≡ 2 + length m.trans_pdu + mic_len m.ctl)
unfolding sent net_pdu net_obfuscation
sent-parts c m sound fits =
    let (junk, e) = net_encrypt-plain c m fits in
    let n = length m.trans_pdu in
    let size = mic_len (ctl_of (plain_pdu m).header) in
    let v = m.net_key in
    let cut = cut_of c m in
    let H = (plain_pdu m).header in
    let p : Pdu = record {
      first = (plain_pdu m).first;
      header = H;
      body = cut.0 ++ (cut.1 ++ junk);
    } in
    let ct_len = sound.text_length v.encryption_key (nonce m.iv_index H) (text_of m) size in
    let mic_size =
      sound.mic_length v.encryption_key (nonce m.iv_index H) (text_of m) size
      ∙ ap mic_len (plain_ctl m) in
    let len : length (cut.0 ++ cut.1) ≡ 2 + n + mic_len m.ctl =
      omega (arith, length-append cut.0 cut.1, ct_len, mic_size) in
    let q = net_obfuscation c v m.iv_index p in
    let assoc : q.header ++ (cut.0 ++ (cut.1 ++ junk)) ≡ q.header ++ ((cut.0 ++ cut.1) ++ junk) =
      ap (λ l. q.header ++ l) (sym (append_assoc cut.0 cut.1 junk)) in
    (
      junk,
      ap (λ x. take (9 + n + mic_len m.ctl) (to_bytes (net_obfuscation c v m.iv_index x))) e
          ∙ ap (λ l. take (9 + n + mic_len m.ctl) (p.first ∷ l)) assoc
          ∙ take-parts p.first (9 + n + mic_len m.ctl) q.header (cut.0 ++ cut.1) junk
              (length-net_obfuscation c m.net_key m.iv_index p ∙ plain_six m) (omega (arith, len)),
      len,
    )

pub length-sent :
    (c : Ciphers) (m : NetMsg)
    → IsSound c
    → IsSendable m
    → length (sent c m) ≡ 9 + length m.trans_pdu + mic_len m.ctl
length-sent c m sound fits =
    let (junk, e, len) = sent-parts c m sound fits in
    let part = (cut_of c m).0 ++ (cut_of c m).1 in
    let q = net_obfuscation c m.net_key m.iv_index (record {
      first = (plain_pdu m).first;
      header = (plain_pdu m).header;
      body = (cut_of c m).0 ++ ((cut_of c m).1 ++ junk);
    }) in
    let l = ap length e in
    let six =
      length-net_obfuscation c m.net_key m.iv_index (record {
        first = (plain_pdu m).first;
        header = (plain_pdu m).header;
        body = (cut_of c m).0 ++ ((cut_of c m).1 ++ junk);
      })
      ∙ plain_six m in
    omega (arith, l, six, len, length-append q.header part)

msg_of-plain :
    (iface : ℕ) (m : NetMsg) (junk : List ℕ)
    → IsSendable m
    → msg_of iface m.iv_index m.net_key (length m.trans_pdu) (record {
      first = (plain_pdu m).first;
      header = (plain_pdu m).header;
      body = text_of m ++ junk;
    })
      ≡ some (record m { net_iface = some iface })
unfolding msg_of plain_pdu
msg_of-plain iface m junk fits =
    let ctl = plain_ctl m in
    let ttl : ((if m.ctl then 0x80 else 0) + m.ttl % 0x80) % 0x80 ≡ m.ttl =
      elim (Bool-cases m.ctl) [
        | inl e ↦ rw e (omega (arith, fits.ttl_fits))
        | inr e ↦ rw e (omega (arith, fits.ttl_fits))
      ] in
    let seq : m.seq / 2 ^ 16 % 2 ^ 8 * 2 ^ 16 + m.seq / 2 ^ 8 % 2 ^ 8 * 2 ^ 8 + m.seq % 2 ^ 8
        ≡ m.seq =
      omega (arith, fits.seq_fits) in
    let src : m.src / 2 ^ 8 % 2 ^ 8 * 2 ^ 8 + m.src % 2 ^ 8 ≡ m.src =
      omega (arith, fits.src_fits) in
    let dst : m.dst / 2 ^ 8 % 2 ^ 8 * 2 ^ 8 + m.dst % 2 ^ 8 ≡ m.dst =
      omega (arith, fits.dst_fits) in
    let pdu : take (length m.trans_pdu) (m.trans_pdu ++ junk) ≡ m.trans_pdu =
      take-append (length m.trans_pdu) m.trans_pdu junk refl in
    rw (msg_of, ctl, ttl, seq, src, dst, pdu) refl

try_keys-first :
    (c : Ciphers) (iv len n : ℕ) (k : NetKey) (ks : List NetKey) (v : NetKeyValue) (p q : Pdu)
    → k.key_state ≡ normal
    → k.value0 ≡ v
    → try_value c iv len v p ≡ some (some n, q)
    → try_keys c iv len (k ∷ ks) p ≡ some (some (v, n), q)
unfolding try_keys try_values
try_keys-first c iv len n k ks v p q state is_v e =
    let only : values k ≡ v ∷ [] =
      ap (λ s. elim s [ normal ↦ k.value0 ∷ [] | _ ↦ k.value0 ∷ k.value1 ∷ [] ]) state
      ∙ ap (λ x. x ∷ []) is_v in
    let found : try_values c iv len (v ∷ []) p ≡ some (some (v, n), q) = rw (try_values, e) refl in
    ap
      (λ t.
        t >>= λ (o, p'). (elim o [ some f ↦ some (some f, p') | none ↦ try_keys c iv len ks p' ]))
      (ap (λ vs. try_values c iv len vs p) only ∙ found)

receive_pdu-found :
    (c : Ciphers) (node : Node) (iface len first iv n : ℕ) (rest header body : List ℕ)
    (v : NetKeyValue) (q : Pdu) (m : NetMsg) (s : State)
    → 28 ≤ length rest
    → choose_iv_index node.node_iv_index first ≡ iv
    → take 6 rest ≡ header
    → take 22 (drop 6 rest) ≡ body
    → try_keys c iv len node.net_keys (record { first = first; header = header; body = body })
      ≡ some (some (v, n), q)
    → msg_of iface iv v n q ≡ some m
    → receive_pdu c node iface len (first ∷ rest) s ≡ deliver node m s
unfolding receive_pdu
receive_pdu-found c node iface len first iv n rest header body v q m s room index h b found msg =
    let long : ltb (length rest) 28 ≡ false = ground arith in
    rw (receive_pdu, long, index, h, b, found, index, msg) refl

deliver-new :
    (node : Node) (m : NetMsg) (s : State) (nmc' : Nmc) (r : Ret)
    → is_valid_address m.src ≡ true
    → is_valid_address m.dst ≡ true
    → m.dst ≡ node.node_addr
    → check (record { src = m.src; seq = m.seq }) s.nmc ≡ some true
    → add (record { src = m.src; seq = m.seq }) s.nmc ≡ some (r, nmc')
    → deliver node m s ≡ some (node.lower, record s { nmc = nmc' }, lower_trans_receive m ∷ [])
unfolding deliver
deliver-new node m s nmc' r src_ok dst_ok mine new stored =
    let to_me : (m.dst == node.node_addr) ≡ true = ground arith in
    rw (deliver, src_ok, dst_ok, new, stored, to_me) refl

choose-sent :
    (now iv nid : ℕ)
    → (now ≡ iv) ⊎ (now ≡ iv + 1)
    → now < 2 ^ 32
    → nid < 0x80
    → choose_iv_index now (iv % 2 * 0x80 + nid % 0x80) ≡ iv
choose-sent now iv nid h fits small = ground arith

plain_nid : (m : NetMsg) → IsSendable m → m.net_key.nid ≡ (plain_pdu m).first % 0x80
unfolding plain_pdu
plain_nid m fits = omega (arith, fits.nid_fits)

plain_choose :
    (now : ℕ) (m : NetMsg)
    → IsSendable m
    → (now ≡ m.iv_index) ⊎ (now ≡ m.iv_index + 1)
    → now < 2 ^ 32
    → choose_iv_index now (plain_pdu m).first ≡ m.iv_index
unfolding plain_pdu
plain_choose now m fits near word = choose-sent now m.iv_index m.net_key.nid near word fits.nid_fits

-- A message whose fields fit is encrypted by a node and its bytes, followed by any others, arrive at
-- another one that has the same key first and whose IV index is the sender's or one more. If its
-- address is the destination, the addresses are valid, its interface lets the PDU pass and its message
-- cache has not seen it, then the lower transport gets exactly this message; the ciphers are relied on
-- for undoing themselves and for the lengths of their results.
pub net_receive-sent :
    (c : Ciphers) (node : Node) (iface : ℕ) (m : NetMsg) (junk : List ℕ) (s : State) (k : NetKey)
    (ks : List NetKey) (ifaces' : Ifaces) (nmc' : Nmc) (r : Ret)
    → IsSound c
    → IsSendable m
    → 29 ≤ length (sent c m ++ junk)
    → node.net_keys ≡ k ∷ ks
    → k.key_state ≡ normal
    → k.value0 ≡ m.net_key
    → (node.node_iv_index ≡ m.iv_index) ⊎ (node.node_iv_index ≡ m.iv_index + 1)
    → node.node_iv_index < 2 ^ 32
    → is_valid_address m.src ≡ true
    → is_valid_address m.dst ≡ true
    → m.dst ≡ node.node_addr
    → iface_ifilter iface s.ifaces ≡ some (true, ifaces')
    → check (record { src = m.src; seq = m.seq }) s.nmc ≡ some true
    → add (record { src = m.src; seq = m.seq }) s.nmc ≡ some (r, nmc')
    → net_receive c node (some iface) (9 + length m.trans_pdu + mic_len m.ctl) (sent c m ++ junk) s
      ≡ some (
        node.lower,
        record { ifaces = ifaces'; nmc = nmc' },
        lower_trans_receive (record m { net_iface = some iface }) ∷ [],
      )
unfolding net_receive
net_receive-sent c node iface m junk s k ks ifaces' nmc' r sound fits room keys state is_v near word
      src_ok dst_ok mine pass new stored =
    let n = length m.trans_pdu in
    let len = 9 + n + mic_len m.ctl in
    let H = (plain_pdu m).header in
    let F = (plain_pdu m).first in
    let cut = cut_of c m in
    let part = cut.0 ++ cut.1 in
    let (junk0, parts, part_len) = sent-parts c m sound fits in
    let header =
      (net_obfuscation c m.net_key m.iv_index
        (record { first = F; header = H; body = cut.0 ++ (cut.1 ++ junk0) })).header in
    let rest = header ++ (part ++ junk) in
    let whole : sent c m ++ junk ≡ F ∷ rest =
      ap (λ l. l ++ junk) parts ∙ ap (λ l. F ∷ l) (append_assoc header part junk) in
    let junk1 = take (22 - length part) junk in
    let (h, b) =
      body_of_rest header part junk (length-net_obfuscation c m.net_key m.iv_index _ ∙ plain_six m)
        (omega (arith, part_len, fits.most)) in
    let body : take 22 (drop 6 rest) ≡ cut.0 ++ (cut.1 ++ junk1) =
      b ∙ append_assoc cut.0 cut.1 junk1 in
    let long : 28 ≤ length rest = let w = ap length whole in omega (arith, w, room) in
    let size = ap mic_len (plain_ctl m) in
    let tried =
      try_value-encrypted c m.net_key m.iv_index n len F H (text_of m) junk0 junk1 sound
        (plain_bytes m) (omega arith) fits.least (omega (arith, size, fits.most))
        (omega (arith, size)) (plain_nid m fits) in
    let s' : State = record s { ifaces = ifaces' } in
    let m' : NetMsg = record m { net_iface = some iface } in
    let found =
      receive_pdu-found c node iface len F m.iv_index n rest header (cut.0 ++ (cut.1 ++ junk1))
        m.net_key (record { first = F; header = H; body = text_of m ++ (cut.1 ++ junk1) }) m' s'
        long (plain_choose node.node_iv_index m fits near word) h body
        (rw keys (try_keys-first c m.iv_index len n k ks m.net_key _ _ state is_v tried))
        (msg_of-plain iface m (cut.1 ++ junk1) fits) in
    rw (net_receive, pass)
      (ap (λ l. receive_pdu c node iface len l s') whole
        ∙ found
        ∙ deliver-new node m' s' nmc' r src_ok dst_ok mine new stored)
