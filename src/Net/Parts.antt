-- ===== src/Net/Parts.antt =====
-- The parts of a PDU of meshx_net_send, and its decryption.
use meshx.Base.{
  ℕ, ◌+◌, ◌-◌, ◌%◌, ◌^◌, ◌≤◌, ◌<◌, ◌≡◌, refl, sym, ap, ◌∙◌, inl, inr, true, some, List, ◌∷◌, ◌++◌,
  append_assoc, length, take, drop, take-append, take-append_le, take-append_ge, drop-append,
  length-append, replicate, ◌==◌, All, arith, Bool-cases,
}
use meshx.Base.Bytes.{be16}
use meshx.Security.{Ciphers}
use meshx.Key.{NetKeyValue}
use meshx.Net.{ctl_of, mic_len, nonce, net_encrypt, net_obfuscation, try_value, NetMsg}
use meshx.Net.Send.{plain_pdu, net_pdu, to_bytes}
use meshx.Net.Undone.{IsSound, net_obfuscation-twice, net_decrypt-encrypted}

-- The fields of a message that fit the PDU.
pub record IsSendable (m : NetMsg) : Type 0 where
  pub ttl_fits : m.ttl < 0x80
  pub seq_fits : m.seq < 2 ^ 24
  pub src_fits : m.src < 2 ^ 16
  pub dst_fits : m.dst < 2 ^ 16
  pub nid_fits : m.net_key.nid < 0x80
  pub least : 0 < length m.trans_pdu
  pub most : length m.trans_pdu + mic_len m.ctl ≤ 20

-- The parts of the encrypted PDU.
abbrev pub text_of : NetMsg → List ℕ
text_of m = be16 m.dst ++ m.trans_pdu

abbrev pub cut_of : Ciphers → NetMsg → List ℕ × List ℕ
cut_of c m =
    c.ccm_encrypt m.net_key.encryption_key (nonce m.iv_index (plain_pdu m).header) (text_of m)
      (mic_len (ctl_of (plain_pdu m).header))

pub plain_ctl : (m : NetMsg) → ctl_of (plain_pdu m).header ≡ m.ctl
unfolding plain_pdu
plain_ctl m = elim (Bool-cases m.ctl) [ inl e ↦ rw e (ground arith) | inr e ↦ rw e (ground arith) ]

pub net_encrypt-plain :
    (c : Ciphers) (m : NetMsg)
    → IsSendable m
    → (junk : List ℕ) × (net_encrypt c m.net_key m.iv_index (length m.trans_pdu) (plain_pdu m)
        ≡ record {
          first = (plain_pdu m).first;
          header = (plain_pdu m).header;
          body = (cut_of c m).0 ++ ((cut_of c m).1 ++ junk);
        })
unfolding net_encrypt plain_pdu
net_encrypt-plain c m fits =
    let n = length m.trans_pdu in
    let body = (plain_pdu m).body in
    let size = mic_len (ctl_of (plain_pdu m).header) in
    let text : take (2 + n) body ≡ text_of m =
      take-append (2 + n) (text_of m) (replicate (20 - n) 0) (omega arith) in
    (drop (2 + n + size) body, rw (net_encrypt, text) refl)

-- The bytes that are handed to a bearer.
unfoldable pub sent : Ciphers → NetMsg → List ℕ
sent c m = take (9 + length m.trans_pdu + mic_len m.ctl) (to_bytes (net_pdu c m))

pub take-parts :
    (first n : ℕ) (header part zeros : List ℕ)
    → length header ≡ 6
    → n ≡ 7 + length part
    → take n (first ∷ (header ++ (part ++ zeros))) ≡ first ∷ (header ++ part)
take-parts first n header part zeros six len =
    let whole : first ∷ (header ++ (part ++ zeros)) ≡ (first ∷ (header ++ part)) ++ zeros =
      ap (λ l. first ∷ l) (sym (append_assoc header part zeros)) in
    ap (take n) whole
    ∙ take-append n (first ∷ (header ++ part)) zeros
        (omega (arith, len, six, length-append header part))

pub body_of_rest :
    (header part junk : List ℕ)
    → length header ≡ 6
    → length part ≤ 22
    → (take 6 (header ++ (part ++ junk)) ≡ header)
      × (take 22 (drop 6 (header ++ (part ++ junk))) ≡ part ++ take (22 - length part) junk)
body_of_rest header part junk six short = (
  take-append 6 header (part ++ junk) (sym six),
  ap (take 22) (drop-append 6 header (part ++ junk) (sym six)) ∙ take-append_le 22 part junk short,
)

take_seven :
    (ct mic junk : List ℕ)
    → 7 ≤ length ct + length mic
    → take 7 (ct ++ (mic ++ junk)) ≡ take 7 (ct ++ mic)
take_seven ct mic junk h =
    ap (take 7) (sym (append_assoc ct mic junk))
    ∙ take-append_ge 7 (ct ++ mic) junk (omega (arith, h, length-append ct mic))

-- A value decrypts what was encrypted with it, whatever follows the check value.
pub try_value-encrypted :
    (c : Ciphers) (v : NetKeyValue) (iv n len first : ℕ) (header text junk junk' : List ℕ)
    → IsSound c
    → All (λ h. h < 256) header
    → length text ≡ 2 + n
    → 0 < n
    → n + mic_len (ctl_of header) ≤ 20
    → len ≡ 9 + n + mic_len (ctl_of header)
    → v.nid ≡ first % 0x80
    → let (ct, mic) =
        c.ccm_encrypt v.encryption_key (nonce iv header) text (mic_len (ctl_of header)) in
      try_value c iv len v (record {
        first = first;
        header =
            (net_obfuscation c v iv
              (record { first = first; header = header; body = ct ++ (mic ++ junk) })).header;
        body = ct ++ (mic ++ junk');
      })
      ≡ some (some n, record { first = first; header = header; body = text ++ (mic ++ junk') })
unfolding try_value
try_value-encrypted c v iv n len first header text junk junk' sound bytes text_len least most len_is
      nid =
    let size = mic_len (ctl_of header) in
    let cut = c.ccm_encrypt v.encryption_key (nonce iv header) text size in
    let ct_len = sound.text_length v.encryption_key (nonce iv header) text size in
    let mic_size = sound.mic_length v.encryption_key (nonce iv header) text size in
    let four : 4 ≤ size = elim (Bool-cases (ctl_of header)) [
      | inl e ↦ rw e (omega arith)
      | inr e ↦ rw e (omega arith)
    ] in
    let seven : 7 ≤ length cut.0 + length cut.1 =
      omega (arith, ct_len, mic_size, text_len, least, four) in
    let same : take 7 (cut.0 ++ (cut.1 ++ junk)) ≡ take 7 (cut.0 ++ (cut.1 ++ junk')) =
      take_seven cut.0 cut.1 junk seven ∙ sym (take_seven cut.0 cut.1 junk' seven) in
    let clear =
      net_obfuscation-twice c v iv first header (cut.0 ++ (cut.1 ++ junk))
        (cut.0 ++ (cut.1 ++ junk')) bytes same in
    let known : (v.nid == first % 0x80) ≡ true = ground arith in
    let back : (len + 256 - 9 - size) % 256 ≡ n = omega (arith, len_is, most) in
    rw
      (
        try_value,
        known,
        clear,
        back,
        net_decrypt-encrypted c v iv n first header text junk' sound text_len,
      )
      refl
