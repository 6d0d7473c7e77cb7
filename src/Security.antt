-- ===== src/Security.antt =====
-- mesh/security/meshx_security.c: the key derivation functions.
use meshx.Base.{ℕ, ◌%◌, Bool, true, false, Option, none, some, List, [], ◌∷◌, ◌++◌, drop, replicate}

-- The ciphers of other projects: meshx_aes_cmac of a key and data, meshx_aes128_encrypt of a key and
-- a block, meshx_aes_ccm_encrypt of a key, a nonce, a text and the length of the check value, with the
-- encrypted text and the check value, and meshx_aes_ccm_decrypt of a key, a nonce, an encrypted text
-- and a check value, with its success and what is in the buffer afterwards.
pub record Ciphers : Type 0 where
  pub cmac : List ℕ → List ℕ → List ℕ
  pub aes128 : List ℕ → List ℕ → List ℕ
  pub ccm_encrypt : List ℕ → List ℕ → List ℕ → ℕ → List ℕ × List ℕ
  pub ccm_decrypt : List ℕ → List ℕ → List ℕ → List ℕ → Bool × List ℕ

-- The last byte of a block.
unfoldable pub last_byte : List ℕ → ℕ
last_byte [] = 0
last_byte (x ∷ xs) = elim xs [ [] ↦ x | _ ↦ last_byte xs ]

-- meshx_s1
unfoldable pub s1 : Ciphers → List ℕ → List ℕ
s1 c m = c.cmac (replicate 16 0) m

-- meshx_k1 of N, the salt and P.
unfoldable pub k1 : Ciphers → List ℕ → List ℕ → List ℕ → List ℕ
k1 c n salt p = c.cmac (c.cmac salt n) p

-- meshx_k2 of N and P: the identifier, the encryption key and the privacy key. It needs memory.
unfoldable pub k2 : Ciphers → Bool → List ℕ → List ℕ → Option (ℕ × List ℕ × List ℕ)
k2 c false n p = none
k2 c true n p =
    let t = c.cmac (s1 c (0x73 ∷ 0x6d ∷ 0x6b ∷ 0x32 ∷ [])) n in
    let t1 = c.cmac t (p ++ (1 ∷ [])) in
    let t2 = c.cmac t (t1 ++ (p ++ (2 ∷ []))) in
    let t3 = c.cmac t (t2 ++ (p ++ (3 ∷ []))) in some (last_byte t1 % 0x80, t2, t3)

-- meshx_k3
unfoldable pub k3 : Ciphers → List ℕ → List ℕ
k3 c n =
    drop 8 (
      c.cmac (c.cmac (s1 c (0x73 ∷ 0x6d ∷ 0x6b ∷ 0x33 ∷ [])) n)
        (0x69 ∷ 0x64 ∷ 0x36 ∷ 0x34 ∷ 1 ∷ []))

-- meshx_k4
unfoldable pub k4 : Ciphers → List ℕ → ℕ
k4 c n =
    last_byte
      (c.cmac (c.cmac (s1 c (0x73 ∷ 0x6d ∷ 0x6b ∷ 0x34 ∷ [])) n) (0x69 ∷ 0x64 ∷ 0x36 ∷ 1 ∷ []))
    % 0x40
