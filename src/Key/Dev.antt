-- ===== src/Key/Dev.antt =====
-- Device keys, each for the addresses of a node's elements.
use meshx.Base.{
  ℕ, ◌+◌, ◌-◌, ◌%◌, ◌^◌, ◌≤◌, ◌<◌, ◌≡◌, inl, inr, refl, ap, ◌∙◌, Bool, true, false, ◌&&◌, ◌||◌,
  Option, none, some, List, [], ◌∷◌, ◌++◌, length, ltb, leb, ◌==◌, if◌then◌else◌, All, arith,
  Bool-cases,
}
use meshx.Base.Errno.{Ret, success, inval, mem, resource, already}

-- `meshx_device_key_t`
pub record DeviceKey : Type 0 where
  pub primary_addr : ℕ
  pub element_num : ℕ
  pub dev_key : List ℕ

-- `a` is an address of the `n` elements from `first` on.
abbrev pub in_range : ℕ → ℕ → ℕ → Bool
in_range first n a = leb first a && ltb a (first + n)

-- The loop of meshx_dev_key_get. The sums are `int` in C; an element number is at least 1.
unfoldable pub dev_key_find : ℕ → List DeviceKey → Option DeviceKey
dev_key_find a [] = none
dev_key_find a (k ∷ ks) =
    if in_range k.primary_addr k.element_num a then some k else dev_key_find a ks

-- meshx_dev_key_get, of an address that is passed as a `uint16_t`.
unfoldable pub dev_key_get : ℕ → List DeviceKey → Option DeviceKey
dev_key_get a ks = dev_key_find (a % 2 ^ 16) ks

-- The test for an overlap, with `addr_end` in a `uint16_t`: the first or the last new address is in
-- the range of a key that is there.
unfoldable pub overlaps : ℕ → ℕ → List DeviceKey → Bool
overlaps first n [] = false
overlaps first n (k ∷ ks) =
    let last = (k.primary_addr + k.element_num - 1) % 2 ^ 16 in
    if (leb k.primary_addr first && leb first last)
      || (leb k.primary_addr (first + n - 1) && leb (first + n - 1) last)
    then true
    else overlaps first n ks

-- meshx_dev_key_add
unfoldable pub dev_key_add : Bool → ℕ → ℕ → ℕ → List ℕ → List DeviceKey → Ret × List DeviceKey
dev_key_add allocated dev_key_num first n key ks =
    if (first == 0) || (n == 0)
    then (inval, ks)
    else if leb dev_key_num (length ks)
    then (resource, ks)
    else if overlaps first n ks
    then (already, ks)
    else if allocated
    then (success, ks ++ (record { primary_addr = first; element_num = n; dev_key = key } ∷ []))
    else (mem, ks)

-- Element numbers are not 0 and no range passes the last address.
abbrev pub IsRange : DeviceKey → Type 0
IsRange k = (0 < k.element_num) × (k.primary_addr + k.element_num ≤ 2 ^ 16)

overlaps-none :
    (first n : ℕ) (ks : List DeviceKey)
    → 0 < n
    → All IsRange ks
    → overlaps first n ks ≡ false
    → (dev_key_find first ks ≡ none) × (dev_key_find (first + n - 1) ks ≡ none)
unfolding overlaps dev_key_find
overlaps-none first n [] pos v h = (refl, refl)
overlaps-none first n (k ∷ ks) pos v h =
    let last : (k.primary_addr + k.element_num - 1) % 2 ^ 16 ≡ k.primary_addr + k.element_num - 1 =
      let b = v.0 in omega arith in
    let h1 : (if (leb k.primary_addr first && leb first (k.primary_addr + k.element_num - 1))
            || (leb k.primary_addr (first + n - 1)
                && leb (first + n - 1) (k.primary_addr + k.element_num - 1))
          then true
          else overlaps first n ks)
        ≡ false =
      rw last at h in
    let b = v.0 in
    let out_first : in_range k.primary_addr k.element_num first ≡ false = ground arith in
    let out_last : in_range k.primary_addr k.element_num (first + n - 1) ≡ false = ground arith in
    let rest : overlaps first n ks ≡ false = ground arith in
    let (f, l) = overlaps-none first n ks pos v.1 rest in
    (rw (dev_key_find, out_first) f, rw (dev_key_find, out_last) l)

dev_key_find-append_some :
    (a : ℕ) (k u : DeviceKey) (ks : List DeviceKey)
    → dev_key_find a ks ≡ some k
    → dev_key_find a (ks ++ (u ∷ [])) ≡ some k
unfolding dev_key_find
dev_key_find-append_some a k u [] h = absurd (ground arith)
dev_key_find-append_some a k u (x ∷ xs) h =
    elim (Bool-cases (in_range x.primary_addr x.element_num a)) [
      | inl e ↦ rw (dev_key_find, e) (rw (dev_key_find, e) at h)
      | inr e ↦ rw (dev_key_find, e) (dev_key_find-append_some a k u xs (rw (dev_key_find, e) at h))
    ]

dev_key_find-append_none :
    (a : ℕ) (u : DeviceKey) (ks : List DeviceKey)
    → dev_key_find a ks ≡ none
    → in_range u.primary_addr u.element_num a ≡ true
    → dev_key_find a (ks ++ (u ∷ [])) ≡ some u
unfolding dev_key_find
dev_key_find-append_none a u [] h e = rw (dev_key_find, e) refl
dev_key_find-append_none a u (x ∷ xs) h e =
    elim (Bool-cases (in_range x.primary_addr x.element_num a)) [
      | inl f ↦ let g = rw (dev_key_find, f) at h in absurd (ground arith)
      | inr f ↦ rw (dev_key_find, f) (dev_key_find-append_none a u xs (rw (dev_key_find, f) at h) e)
    ]

dev_key_add-success :
    (m : Bool) (num first n : ℕ) (key : List ℕ) (ks ks' : List DeviceKey)
    → dev_key_add m num first n key ks ≡ (success, ks')
    → (0 < n)
      × (overlaps first n ks ≡ false)
      × (ks' ≡ ks ++ (record { primary_addr = first; element_num = n; dev_key = key } ∷ []))
unfolding dev_key_add
dev_key_add-success m num first n key ks ks' h = (ground arith, ground arith, ground arith)

-- When a device key has been added for addresses of 16 bits, and the keys that were there have elements
-- and such addresses, the new key is found for the first and for the last address of its node, and every
-- address that had a key before still has the same one.
pub dev_key_add-dev_key_get :
    (m : Bool) (num first n : ℕ) (key : List ℕ) (ks ks' : List DeviceKey)
    → All IsRange ks
    → first + n ≤ 2 ^ 16
    → dev_key_add m num first n key ks ≡ (success, ks')
    → let new : DeviceKey = record { primary_addr = first; element_num = n; dev_key = key } in
      (dev_key_get first ks' ≡ some new)
      × (dev_key_get (first + n - 1) ks' ≡ some new)
      × ((a : ℕ) (k : DeviceKey) → dev_key_get a ks ≡ some k → dev_key_get a ks' ≡ some k)
unfolding dev_key_get
dev_key_add-dev_key_get m num first n key ks ks' ranges narrow h =
    let new : DeviceKey = record { primary_addr = first; element_num = n; dev_key = key } in
    let (pos, apart, after) = dev_key_add-success m num first n key ks ks' h in
    let low : first % 2 ^ 16 ≡ first = omega (arith, pos, narrow) in
    let high : (first + n - 1) % 2 ^ 16 ≡ first + n - 1 = omega (arith, pos, narrow) in
    let (f, l) = overlaps-none first n ks pos ranges apart in
    (
      ap (λ a. dev_key_find a ks') low
          ∙ ap (dev_key_find first) after
          ∙ dev_key_find-append_none first new ks f (ground arith),
      ap (λ a. dev_key_find a ks') high
          ∙ ap (dev_key_find (first + n - 1)) after
          ∙ dev_key_find-append_none (first + n - 1) new ks l (ground arith),
      λ a k e.
          ap (dev_key_find (a % 2 ^ 16)) after ∙ dev_key_find-append_some (a % 2 ^ 16) k new ks e,
    )
