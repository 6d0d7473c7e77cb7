-- ===== src/Upper/Plain.antt =====
-- The part of a long access message that is not encrypted.
use meshx.Base.{
  ℕ, ◌%◌, ◌≤◌, ◌≡◌, refl, sym, ap, ◌∙◌, true, false, some, List, ◌++◌, length, take, drop,
  take-append, drop-append, length-append, length-take, length-drop, if◌then◌else◌, arith,
}
use meshx.Base.Errno.{Ret}
use meshx.Security.{Ciphers}
use meshx.Seq.{Seqs, use_seq}
use meshx.Net.Undone.{IsSound}
use meshx.Upper.{UpperMsg, trans_nonce, upper_encrypt, upper_send}

-- The numbered message.
abbrev pub numbered : UpperMsg → ℕ → UpperMsg
numbered m seq = record m { seq = seq; seq_auth = seq }

upper_encrypt-plain :
    (c : Ciphers) (m : UpperMsg) (size : ℕ) (bytes : List ℕ)
    → IsSound c
    → let (text, mic) = upper_encrypt c m size bytes in
      drop (length bytes % 256) (take (length bytes) (text ++ mic))
      ≡ drop (length bytes % 256) bytes
unfolding upper_encrypt
upper_encrypt-plain c m size bytes sound =
    let n = length bytes % 256 in
    let cut = c.ccm_encrypt m.trans_key (trans_nonce m) (take n bytes) size in
    let rest = drop n bytes in
    let ct_len : length cut.0 ≡ n =
      sound.text_length m.trans_key (trans_nonce m) (take n bytes) size
      ∙ omega (arith, length-take n bytes) in
    let whole : length bytes ≡ length (cut.0 ++ rest) =
      omega (arith, length-append cut.0 rest, ct_len, length-drop n bytes) in
    ap (drop n) (take-append (length bytes) (cut.0 ++ rest) cut.1 whole)
    ∙ drop-append n cut.0 rest (sym ct_len)

-- The length of an access message goes to the encryption as a byte. A message of 256 bytes or more is
-- therefore sent with at least 256 of its bytes in plain: those from the length's remainder modulo 256
-- on stand unchanged in the PDU that the lower transport gets. The cipher is relied on for the length
-- of its text.
pub upper_send-plain :
    (c : Ciphers) (lower : Ret) (element seq : ℕ) (bytes : List ℕ) (m : UpperMsg) (q q' : Seqs)
    → IsSound c
    → m.ctl ≡ false
    → 256 ≤ length bytes
    → use_seq element q ≡ some (seq, q')
    → (pdu : List ℕ) × (upper_send c true true lower element bytes m q
        ≡ some (lower, some (numbered m seq, pdu), q'))
      × (256 ≤ length (drop (length bytes % 256) bytes))
      × (drop (length bytes % 256) (take (length bytes) pdu) ≡ drop (length bytes % 256) bytes)
unfolding upper_send
upper_send-plain c lower element seq bytes m q q' sound access long used =
    let size : ℕ = if m.szmic then 8 else 4 in
    let cut : List ℕ × List ℕ = upper_encrypt c (numbered m seq) size bytes in
    let plenty : 256 ≤ length (drop (length bytes % 256) bytes) =
      omega (arith, long, length-drop (length bytes % 256) bytes) in
    (
      cut.0 ++ cut.1,
      simp (upper_send, access, used) refl,
      plenty,
      upper_encrypt-plain c (numbered m seq) size bytes sound,
    )
