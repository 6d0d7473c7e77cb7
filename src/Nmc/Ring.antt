-- ===== src/Nmc/Ring.antt =====
-- The network message cache as a ring: the messages that it holds, and what its check sees of them.
use meshx.Base.{
  ℕ, zero, suc, ◌-◌, ◌≤◌, ◌<◌, ◌≡◌, refl, ◌∙◌, ap, true, false, some, List, [], ◌∷◌, ◌++◌,
  get_elem?, set, take, drop, length, arith, if◌then◌else◌, set?-in, length-set, length-take,
  length-drop, length-append, append_assoc, get_elem?-set_self, get_elem?-set_ne, Bool-cases, ◌⊎◌,
  inl, inr,
}
use meshx.Base.Errno.{success}
use native.Mathlib.Decide.{dec_lt}
use meshx.Nmc.{Msg, Nmc, wrap, add, check, same, check_from}

-- The cache is initialised over the array `xs`, which has at least one slot.
pub record IsValid (s : Nmc) (xs : List Msg) : Type 0 where
  pub present : s.nmc_array ≡ some xs
  pub size : length xs ≡ s.nmc_size
  pub used : s.nmc_index ≤ s.nmc_size
  pub positive : 0 < s.nmc_size
  pub small : s.nmc_size < 65536

-- The messages held, oldest first.
abbrev pub contents : Nmc → List Msg → List Msg
contents s xs =
    if s.nmc_circle then drop s.nmc_index xs ++ take s.nmc_index xs else take s.nmc_index xs

-- The last `n` elements.
abbrev pub last : ℕ → List Msg → List Msg
last n xs = drop (length xs - n) xs

take-set :
    (xs : List Msg) (n : ℕ) (e : Msg)
    → n < length xs
    → take (suc n) (set xs n e) ≡ take n xs ++ (e ∷ [])
take-set [] n e h = absurd (omega arith)
take-set (x ∷ xs) zero e h = refl
take-set (x ∷ xs) (suc n) e h = ap (λ l. x ∷ l) (take-set xs n e (omega arith))

drop-set : (xs : List Msg) (n : ℕ) (e : Msg) → drop (suc n) (set xs n e) ≡ drop (suc n) xs
drop-set [] n e = refl
drop-set (x ∷ xs) zero e = refl
drop-set (x ∷ xs) (suc n) e = drop-set xs n e

drop-append : (xs ys : List Msg) (n : ℕ) → n ≤ length xs → drop n (xs ++ ys) ≡ drop n xs ++ ys
drop-append xs ys zero h = refl
drop-append [] ys (suc n) h = absurd (omega arith)
drop-append (x ∷ xs) ys (suc n) h = drop-append xs ys n (omega arith)

drop-drop : (xs : List Msg) (n : ℕ) → drop 1 (drop n xs) ≡ drop (suc n) xs
drop-drop xs zero = refl
drop-drop [] (suc n) = refl
drop-drop (x ∷ xs) (suc n) = drop-drop xs n

take-length : (xs : List Msg) (n : ℕ) → length xs ≤ n → take n xs ≡ xs
take-length [] zero h = refl
take-length [] (suc n) h = refl
take-length (x ∷ xs) zero h = absurd (omega arith)
take-length (x ∷ xs) (suc n) h = ap (λ l. x ∷ l) (take-length xs n (omega arith))

drop-length : (xs : List Msg) (n : ℕ) → length xs ≤ n → drop n xs ≡ []
drop-length [] zero h = refl
drop-length [] (suc n) h = refl
drop-length (x ∷ xs) zero h = absurd (omega arith)
drop-length (x ∷ xs) (suc n) h = drop-length xs n (omega arith)

check_from-first :
    (n : ℕ) (m : Msg) (xs : List Msg) (x : Msg)
    → 0 < n
    → get_elem? xs 0 ≡ some x
    → same x m ≡ false
    → check_from n 0 m xs ≡ some true
unfolding check_from
check_from-first zero m xs x pos h e = absurd (omega arith)
check_from-first (suc n) m xs x pos h e = ground arith

module _ (s : Nmc) (xs : List Msg) (m : Msg) (v : IsValid s xs) where
  -- The state after `add`.
  added : Nmc
  added = record (wrap s) {
    nmc_array = some (set xs (wrap s).nmc_index m);
    nmc_index = suc (wrap s).nmc_index;
  }

  wrap_inside : (wrap s).nmc_index < length xs
  unfolding wrap
  wrap_inside = ground (arith, v.size, v.used, v.positive)

  add_run : add m s ≡ some (success, added)
  unfolding add added
  add_run =
      ground (
        arith,
        v.present,
        set?-in xs (wrap s).nmc_index m wrap_inside,
        wrap_inside,
        v.small,
        v.size,
      )

  add-IsValid : IsValid added (set xs (wrap s).nmc_index m)
  unfolding added wrap
  add-IsValid =
      ground (arith, v.size, v.used, v.positive, v.small, length-set xs (wrap s).nmc_index m)

  -- A slot is free and the ring has not gone round.
  contents_growing :
      s.nmc_index < s.nmc_size
      → s.nmc_circle ≡ false
      → contents added (set xs (wrap s).nmc_index m) ≡ last s.nmc_size (contents s xs ++ (m ∷ []))
  unfolding added wrap
  contents_growing h c =
      let i = s.nmc_index in
      let inside : i < length xs = omega (arith, v.size) in
      let short : length (take i xs ++ (m ∷ [])) - s.nmc_size ≡ 0 =
        omega (arith, length-append (take i xs) (m ∷ []), length-take i xs) in
      ground (arith, take-set xs i m inside, short)

  -- A slot in the middle of a full ring.
  contents_turning :
      s.nmc_index < s.nmc_size
      → s.nmc_circle ≡ true
      → contents added (set xs (wrap s).nmc_index m) ≡ last s.nmc_size (contents s xs ++ (m ∷ []))
  unfolding added wrap
  contents_turning h c =
      let i = s.nmc_index in
      let inside : i < length xs = omega (arith, v.size) in
      let front : 1 ≤ length (drop i xs) = omega (arith, length-drop i xs) in
      let whole : length ((drop i xs ++ take i xs) ++ (m ∷ [])) - s.nmc_size ≡ 1 = omega (
        arith,
        v.size,
        length-append (drop i xs ++ take i xs) (m ∷ []),
        length-append (drop i xs) (take i xs),
        length-take i xs,
        length-drop i xs,
      ) in
      ground (
        arith,
        take-set xs i m inside,
        drop-set xs i m,
        whole,
        append_assoc (drop i xs) (take i xs) (m ∷ []),
        drop-append (drop i xs) (take i xs ++ (m ∷ [])) 1 front,
        drop-drop xs i,
      )

  -- The index has reached the end of the array.
  contents_wrapping :
      s.nmc_index ≡ s.nmc_size
      → contents added (set xs (wrap s).nmc_index m) ≡ last s.nmc_size (contents s xs ++ (m ∷ []))
  unfolding added wrap
  contents_wrapping e =
      let i = s.nmc_index in
      let whole : take i xs ≡ xs = take-length xs i (omega (arith, v.size)) in
      let rest : drop i xs ≡ [] = drop-length xs i (omega (arith, v.size)) in
      let inside : 0 < length xs = omega (arith, v.size, v.positive) in
      let one : length (xs ++ (m ∷ [])) - s.nmc_size ≡ 1 =
        omega (arith, v.size, length-append xs (m ∷ [])) in
      ground (
        arith,
        whole,
        rest,
        one,
        take-set xs 0 m inside,
        drop-set xs 0 m,
        drop-append xs (m ∷ []) 1 inside,
      )

  -- meshx_nmc_add writes inside the array, succeeds, keeps the invariant, and leaves the cache
  -- holding the last `nmc_size` of the messages it held followed by the new one, in order.
  pub add_lem :
      (t : Nmc) × (ys : List Msg) × (add m s ≡ some (success, t))
      × IsValid t ys
      × (contents t ys ≡ last s.nmc_size (contents s xs ++ (m ∷ [])))
  unfolding added wrap
  add_lem = (
    added,
    set xs (wrap s).nmc_index m,
    add_run,
    add-IsValid,
    kept (dec_lt s.nmc_index s.nmc_size) (Bool-cases s.nmc_circle),
  )
    where
      kept :
          Dec (s.nmc_index < s.nmc_size)
          → (s.nmc_circle ≡ true) ⊎ (s.nmc_circle ≡ false)
          → contents added (set xs (wrap s).nmc_index m)
            ≡ last s.nmc_size (contents s xs ++ (m ∷ []))
      kept (yes h) (inl c) = contents_turning h c
      kept (yes h) (inr c) = contents_growing h c
      kept (no h) c = contents_wrapping (omega (arith, v.used))

  -- A message that is added while slot 0 holds another one is in the cache as the newest, and
  -- meshx_nmc_check does not find it: it still answers that the message is new.
  pub check_misses :
      (x : Msg)
      → get_elem? xs 0 ≡ some x
      → same x m ≡ false
      → 0 < s.nmc_index
      → s.nmc_index < s.nmc_size
      → (t : Nmc) × (ys : List Msg) × (add m s ≡ some (success, t))
        × (get_elem? ys s.nmc_index ≡ some m)
        × (check m t ≡ some true)
  unfolding added wrap check
  check_misses x first other pos room = (
    added,
    set xs s.nmc_index m,
    add_run,
    get_elem?-set_self xs s.nmc_index m (omega (arith, v.size)),
    unseen (Bool-cases s.nmc_circle),
  )
    where
      slot : get_elem? (set xs s.nmc_index m) 0 ≡ some x
      slot = get_elem?-set_ne xs s.nmc_index 0 m (omega arith) ∙ first

      unseen : (s.nmc_circle ≡ true) ⊎ (s.nmc_circle ≡ false) → check m added ≡ some true
      unseen c = ground (
        arith,
        c,
        check_from-first s.nmc_size m (set xs s.nmc_index m) x,
        check_from-first (suc s.nmc_index) m (set xs s.nmc_index m) x,
        slot,
      )
