-- ===== src/Net/Undone.antt =====
-- Obfuscation and encryption are undone.
use meshx.Base.{
  ℕ, suc, ◌+◌, ◌<◌, ◌≡◌, refl, sym, ap, ◌∙◌, true, some, List, [], ◌∷◌, ◌++◌, length, take, drop,
  take-append, drop-append, length-append, replicate, leb, All, arith,
}
use meshx.Base.Bytes.{be32, xor_twice}
use meshx.Security.{Ciphers}
use meshx.Key.{NetKeyValue}
use meshx.Net.{ctl_of, mic_len, nonce, xor_all, net_obfuscation, net_decrypt}

-- What the ciphers are relied on for: AES-CCM is undone under the same key and nonce, and keeps the
-- length of the text; the check value has the length that is asked for.
pub record IsSound (c : Ciphers) : Type 0 where
  pub undone :
      (key nonce text : List ℕ) (n : ℕ)
      → c.ccm_decrypt key nonce
          (c.ccm_encrypt key nonce text n).0
          (c.ccm_encrypt key nonce text n).1
        ≡ (true, text)
  pub text_length :
      (key nonce text : List ℕ) (n : ℕ) → length (c.ccm_encrypt key nonce text n).0 ≡ length text
  pub mic_length : (key nonce text : List ℕ) (n : ℕ) → length (c.ccm_encrypt key nonce text n).1 ≡ n

-- The exclusive or with the same bytes, twice.
xor_all-twice : (hs ps : List ℕ) → All (λ h. h < 256) hs → xor_all (xor_all hs ps) ps ≡ hs
unfolding xor_all
xor_all-twice [] ps v = refl
xor_all-twice (h ∷ hs) [] v = refl
xor_all-twice (h ∷ hs) (p ∷ ps) v = rw (xor_twice h p v.0, xor_all-twice hs ps v.1) refl

pub length-xor_all : (hs ps : List ℕ) → length (xor_all hs ps) ≡ length hs
unfolding xor_all
length-xor_all [] ps = refl
length-xor_all (h ∷ hs) [] = refl
length-xor_all (h ∷ hs) (p ∷ ps) = ap suc (length-xor_all hs ps)

-- The obfuscation is undone by another one, as long as the first 7 bytes of the body are the same.
pub net_obfuscation-twice :
    (c : Ciphers) (v : NetKeyValue) (iv first : ℕ) (header body body' : List ℕ)
    → All (λ h. h < 256) header
    → take 7 body ≡ take 7 body'
    → net_obfuscation c v iv (record {
      first = first;
      header =
          (net_obfuscation c v iv (record { first = first; header = header; body = body })).header;
      body = body';
    })
      ≡ record { first = first; header = header; body = body' }
unfolding net_obfuscation
net_obfuscation-twice c v iv first header body body' bytes same =
    let pecb = c.aes128 v.privacy_key (replicate 5 0 ++ (be32 iv ++ take 7 body')) in
    ap
      (λ b. record {
        first = first;
        header =
            xor_all (xor_all header (c.aes128 v.privacy_key (replicate 5 0 ++ (be32 iv ++ b))))
              pecb;
        body = body';
      })
      same
    ∙ ap (λ h. record { first = first; header = h; body = body' }) (xor_all-twice header pecb bytes)

-- What was encrypted is decrypted, whatever bytes follow.
pub net_decrypt-encrypted :
    (c : Ciphers) (v : NetKeyValue) (iv n first : ℕ) (header text junk : List ℕ)
    → IsSound c
    → length text ≡ 2 + n
    → let (ct, mic) =
        c.ccm_encrypt v.encryption_key (nonce iv header) text (mic_len (ctl_of header)) in
      net_decrypt c v iv n (record { first = first; header = header; body = ct ++ (mic ++ junk) })
      ≡ some (true, record { first = first; header = header; body = text ++ (mic ++ junk) })
unfolding net_decrypt
net_decrypt-encrypted c v iv n first header text junk sound len =
    let size = mic_len (ctl_of header) in
    let key = v.encryption_key in
    let ct = (c.ccm_encrypt key (nonce iv header) text size).0 in
    let mic = (c.ccm_encrypt key (nonce iv header) text size).1 in
    let ct_len = sound.text_length key (nonce iv header) text size ∙ len in
    let mic_size = sound.mic_length key (nonce iv header) text size in
    let t : take (2 + n) (ct ++ (mic ++ junk)) ≡ ct =
      take-append (2 + n) ct (mic ++ junk) (sym ct_len) in
    let d : drop (2 + n) (ct ++ (mic ++ junk)) ≡ mic ++ junk =
      drop-append (2 + n) ct (mic ++ junk) (sym ct_len) in
    let m : take size (mic ++ junk) ≡ mic = take-append size mic junk (sym mic_size) in
    let long : leb (2 + n + size) (length (ct ++ (mic ++ junk))) ≡ true =
      ground (arith, length-append ct (mic ++ junk), length-append mic junk, ct_len, mic_size) in
    rw (net_decrypt, long, t, d, m, sound.undone key (nonce iv header) text size) refl
