-- ===== src/Prov/AuthValue.antt =====
-- What the authentication value is.
use meshx.Base.{
  ℕ, zero, suc, ◌+◌, ◌-◌, ◌/◌, ◌%◌, ◌^◌, ◌<◌, ◌≤◌, ◌≡◌, refl, true, false, none, some, List, [],
  ◌∷◌, ◌++◌, length, take, drop, get_elem?-out, replicate, get_elem?, ltb, leb, Bool-cases, inl,
  inr, arith,
}
use meshx.Base.Bytes.{be32}
use meshx.Prov.{ProvDev}
use meshx.Prov.Auth.{
  Oob, output_oob, input_oob, numeric_from, alpha_from, oob_value, set_auth_value,
}

numeric_from_lem :
    (v : ℕ) (auth : List ℕ)
    → v < 4294967296
    → length auth ≡ 16
    → numeric_from 15 v auth ≡ take 1 auth ++ (replicate 11 0 ++ be32 v)
unfolding numeric_from
numeric_from_lem v
      (x ∷ x1 ∷ x2 ∷ x3 ∷ x4 ∷ x5 ∷ x6 ∷ x7 ∷ x8 ∷ x9 ∷ xa ∷ xb ∷ xc ∷ xd ∷ xe ∷ xf ∷ []) small h =
    let z : v / 2 ^ 8 / 2 ^ 8 / 2 ^ 8 / 2 ^ 8 ≡ 0 = omega (arith, small) in
    let a : v / 2 ^ 8 / 2 ^ 8 / 2 ^ 8 % 2 ^ 8 ≡ v / 2 ^ 24 % 2 ^ 8 = omega arith in
    let b : v / 2 ^ 8 / 2 ^ 8 % 2 ^ 8 ≡ v / 2 ^ 16 % 2 ^ 8 = omega arith in rw (z, a, b) refl
numeric_from_lem v auth small h = absurd (omega (arith, h))

drop-get_elem? :
    (i : ℕ) (xs : List ℕ)
    → i < length xs
    → (a : ℕ) × (get_elem? xs i ≡ some a) × (drop i xs ≡ a ∷ drop (suc i) xs)
drop-get_elem? i [] h = absurd (omega (arith, h))
drop-get_elem? zero (x ∷ xs) h = (x, refl, refl)
drop-get_elem? (suc i) (x ∷ xs) h = drop-get_elem? i xs (omega (arith, h))

alpha_from_lem :
    (n i len : ℕ) (alpha : List ℕ)
    → len ≤ length alpha
    → len ≤ i + n
    → alpha_from n i len alpha ≡ some (take (len - i) (drop i alpha) ++ replicate (n - (len - i)) 0)
unfolding alpha_from
alpha_from_lem zero i len alpha h k = let e : len - i ≡ 0 = omega (arith, k) in rw e refl
alpha_from_lem (suc n) i len alpha h k = elim (Bool-cases (ltb i len)) [
  | inl t ↦
      let more : len - i ≡ suc (len - suc i) = ground (arith, t) in
      let (a, e, f) = drop-get_elem? i alpha (ground (arith, t, h)) in
      let one : suc n - suc (len - suc i) ≡ n - (len - suc i) = omega arith in
      rw (t, e, alpha_from_lem n (suc i) len alpha h (omega (arith, k)), more, one, f) refl
  | inr t ↦
      let none_left : len - i ≡ 0 = ground (arith, t) in
      let whole : suc n - 0 ≡ suc n = omega arith in
      let whole' : n - 0 ≡ n = omega arith in
      let none_left' : len - suc i ≡ 0 = ground (arith, t) in
      rw
        (
          t,
          alpha_from_lem n (suc i) len alpha h (omega (arith, k)),
          none_left,
          none_left',
          whole,
          whole',
        )
        refl
]

alpha_from-none :
    (n i len : ℕ) (alpha : List ℕ)
    → length alpha < len
    → i ≤ length alpha
    → length alpha < i + n
    → alpha_from n i len alpha ≡ none
unfolding alpha_from
alpha_from-none zero i len alpha h k l = absurd (omega (arith, k, l))
alpha_from-none (suc n) i len alpha h k l =
    let t : ltb i len ≡ true = ground (arith, h, k) in
    elim (Bool-cases (ltb i (length alpha))) [
      | inl m ↦
          let (a, e, f) = drop-get_elem? i alpha (ground (arith, m)) in
          rw (t, e, alpha_from-none n (suc i) len alpha h (ground (arith, m)) (omega (arith, l)))
            refl
      | inr m ↦ rw (t, get_elem?-out alpha i (ground (arith, m))) refl
    ]

-- For the actions 0 to 3 of output and of input, where 3 is the alphanumeric input: the value's last four
-- bytes are the number, big-endian, eleven are zero, and the first byte stays as it was.
pub set_auth_value-numeric :
    (o : Oob) (p : ProvDev)
    → o.auth_action ≤ 3
    → o.auth_value_numeric < 4294967296
    → length p.auth_value ≡ 16
    → let q : ProvDev = record p {
      auth_value = take 1 p.auth_value ++ (replicate 11 0 ++ be32 o.auth_value_numeric);
    } in
      (set_auth_value (output_oob o) p ≡ some q) × (set_auth_value (input_oob o) p ≡ some q)
unfolding set_auth_value oob_value
set_auth_value-numeric o p h small len =
    let t : leb o.auth_action 3 ≡ true = ground (arith, h) in
    let e = numeric_from_lem o.auth_value_numeric p.auth_value small len in
    (rw (t, e) refl, rw (t, e) refl)

-- For the other actions the value is the text, if that is within its array, and zeros up to 16 bytes.
pub set_auth_value-alpha :
    (o : Oob) (p : ProvDev)
    → 3 < o.auth_action
    → o.auth_value_alpha_len ≤ length o.auth_value_alpha
    → o.auth_value_alpha_len ≤ 16
    → set_auth_value (output_oob o) p
      ≡ some (record p {
        auth_value =
            take o.auth_value_alpha_len o.auth_value_alpha
            ++ replicate (16 - o.auth_value_alpha_len) 0;
      })
unfolding set_auth_value oob_value
set_auth_value-alpha o p h room fits =
    let t : leb o.auth_action 3 ≡ false = ground (arith, h) in
    let e =
      alpha_from_lem 16 0 o.auth_value_alpha_len o.auth_value_alpha room (omega (arith, fits)) in
    let all : o.auth_value_alpha_len - 0 ≡ o.auth_value_alpha_len = omega arith in
    rw (t, e, all) refl

-- A length of more than the array's 8 bytes is read out of bounds.
pub set_auth_value-alpha_none :
    (o : Oob) (p : ProvDev)
    → 3 < o.auth_action
    → length o.auth_value_alpha ≡ 8
    → 8 < o.auth_value_alpha_len
    → set_auth_value (output_oob o) p ≡ none
unfolding set_auth_value oob_value
set_auth_value-alpha_none o p h len long =
    let t : leb o.auth_action 3 ≡ false = ground (arith, h) in
    let e =
      alpha_from-none 16 0 o.auth_value_alpha_len o.auth_value_alpha (omega (arith, long, len))
        (omega arith) (omega (arith, len)) in
    rw (t, e) refl
