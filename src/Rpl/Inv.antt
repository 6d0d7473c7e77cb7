-- ===== src/Rpl/Inv.antt =====
-- What holds of the replay protection list between two calls, and what its operations do to the
-- entries in use.
use meshx.Base.{
  ℕ, zero, suc, ◌+◌, ◌%◌, ◌≤◌, ◌<◌, ◌≡◌, refl, ◌≢◌, ◌⊎◌, inl, inr, sym, Bool, Bool-cases, Option,
  true, false, none, some, List, [], ◌∷◌, ◌++◌, get_elem?, set, take, length, arith, if◌then◌else◌,
  ◌==◌, ap, ◌^◌, ◌∙◌, set?-in, length-set, get_elem?-out,
}
use meshx.Base.Errno.{success}
use meshx.Rpl.{Entry, Rpl, is_old, search, store, update, check_from, check}

abbrev SpareFree : List Entry → ℕ → Type 0
SpareFree [] n = Unit
SpareFree (e ∷ xs) zero = (e.src ≡ 0) × SpareFree xs zero
SpareFree (e ∷ xs) (suc n) = SpareFree xs n

-- The list is initialised over the array `xs`, whose slots from `rpl_index` on have no source.
pub record IsValid (s : Rpl) (xs : List Entry) : Type 0 where
  pub present : s.rpl_array ≡ some xs
  pub size : length xs ≡ s.rpl_size
  pub used : s.rpl_index ≤ s.rpl_size
  pub small : s.rpl_size < 65536
  pub spare : SpareFree xs s.rpl_index

-- The entries in use, oldest first.
abbrev pub entries : Rpl → List Entry → List Entry
entries s xs = take s.rpl_index xs

-- The decision of meshx_rpl_check over a list: the first entry of the source decides.
abbrev pub accepts : Entry → List Entry → Bool
accepts m [] = true
accepts m (e ∷ es) = if e.src == m.src then (if is_old m e then false else true) else accepts m es

-- The first entry of a source.
abbrev pub last_heard : ℕ → List Entry → Option Entry
last_heard src [] = none
last_heard src (e ∷ es) = if e.src == src then some e else last_heard src es

-- What a source may send after an entry: a higher sequence number under an IV index that is no lower.
abbrev pub Newer : Entry → Entry → Type 0
Newer m e = (e.seq < m.seq) × (e.iv_index ≤ m.iv_index)

-- The replay rule, as a proposition: there is no entry of the source, or the first one is older.
abbrev pub Accepted : Entry → List Entry → Type 0
Accepted m es =
    (last_heard m.src es ≡ none) ⊎ ((e : Entry) × (last_heard m.src es ≡ some e) × Newer m e)

check_from-cons :
    (m x : Entry) (xs : List Entry) (n i : ℕ)
    → check_from n (suc i) m (x ∷ xs) ≡ check_from n i m xs
unfolding check_from
check_from-cons m x xs zero i = refl
check_from-cons m x xs (suc n) i = ground (arith, check_from-cons m x xs n (suc i))

check_from_lem :
    (m : Entry) (xs : List Entry) (n : ℕ)
    → n ≤ length xs
    → check_from n 0 m xs ≡ some (accepts m (take n xs))
unfolding check_from
check_from_lem m xs zero h = refl
check_from_lem m [] (suc n) h = absurd (omega arith)
check_from_lem m (x ∷ xs) (suc n) h =
    ground (arith, check_from-cons m x xs n 0, check_from_lem m xs n (omega arith))

pub check-accepts :
    (s : Rpl) (xs : List Entry) (m : Entry)
    → IsValid s xs
    → check m s ≡ some (accepts m (entries s xs))
unfolding check
check-accepts s xs m v =
    ground (arith, check_from_lem m xs s.rpl_index (omega (arith, v.size, v.used)))

accepts-Accepted : (m : Entry) (es : List Entry) → accepts m es ≡ true → Accepted m es
accepts-Accepted m [] h = inl refl
accepts-Accepted m (e ∷ es) h = elim (Bool-cases (e.src == m.src)) [
  | inl here ↦
      let newer : (if is_old m e then false else true) ≡ true =
        sym (ap (λ b. if b then (if is_old m e then false else true) else accepts m es) here) ∙ h in
      inr
        (e, ap (λ b. if b then some e else last_heard m.src es) here, (ground arith, ground arith))
  | inr there ↦
      let skip : last_heard m.src (e ∷ es) ≡ last_heard m.src es =
        ap (λ b. if b then some e else last_heard m.src es) there in
      let later : accepts m es ≡ true =
        sym (ap (λ b. if b then (if is_old m e then false else true) else accepts m es) there)
        ∙ h in
      elim (accepts-Accepted m es later) [
        | inl k ↦ inl (skip ∙ k)
        | inr (u, k, newer) ↦ inr (u, skip ∙ k, newer)
      ]
]

Accepted-accepts : (m : Entry) (es : List Entry) → Accepted m es → accepts m es ≡ true
Accepted-accepts m [] h = refl
Accepted-accepts m (e ∷ es) h = elim (Bool-cases (e.src == m.src)) [
  | inl here ↦
      let found : last_heard m.src (e ∷ es) ≡ some e =
        ap (λ b. if b then some e else last_heard m.src es) here in
      elim h [
        | inl k ↦ let never : some e ≡ none = sym found ∙ k in absurd (cc never)
        | inr (u, k, newer) ↦
            let both : some e ≡ some u = sym found ∙ k in
            let same : e ≡ u = cc both in
            let seq : e.seq ≡ u.seq = ap (λ (x : Entry). x.seq) same in
            let index : e.iv_index ≡ u.iv_index = ap (λ (x : Entry). x.iv_index) same in
            ground (arith, newer.0, newer.1)
      ]
  | inr there ↦
      let skip : last_heard m.src (e ∷ es) ≡ last_heard m.src es =
        ap (λ b. if b then some e else last_heard m.src es) there in
      let rest : Accepted m es = elim h [
        | inl k ↦ inl (sym skip ∙ k)
        | inr (u, k, newer) ↦ inr (u, sym skip ∙ k, newer)
      ] in
      ap (λ b. if b then (if is_old m e then false else true) else accepts m es) there
      ∙ Accepted-accepts m es rest
]

-- meshx_rpl_check on an initialised list neither aborts nor reads out of bounds, and accepts a message
-- exactly if its source has no entry, or the sequence number is higher than that of the first entry of
-- its source and the IV index not lower.
pub check_lem :
    (s : Rpl) (xs : List Entry) (m : Entry)
    → IsValid s xs
    → (b : Bool) × (check m s ≡ some b)
      × (b ≡ true → Accepted m (entries s xs))
      × (Accepted m (entries s xs) → b ≡ true)
check_lem s xs m v = (
  accepts m (entries s xs),
  check-accepts s xs m v,
  accepts-Accepted m (entries s xs),
  Accepted-accepts m (entries s xs),
)

spare-get_elem? :
    (xs : List Entry) (n : ℕ)
    → SpareFree xs n
    → n < length xs
    → (e : Entry) × (get_elem? xs n ≡ some e) × (e.src ≡ 0)
spare-get_elem? [] n f h = absurd (omega arith)
spare-get_elem? (x ∷ xs) zero f h = (x, refl, f.0)
spare-get_elem? (x ∷ xs) (suc n) f h = spare-get_elem? xs n f (omega arith)

-- With a source that is not 0 the loop of meshx_rpl_update finds nothing and ends, if the counter
-- reaches `index`: it looks at the spare slot only.
search-spare :
    (src index : ℕ) (xs : List Entry) (i fuel : ℕ)
    → SpareFree xs index
    → index < length xs
    → src ≢ 0
    → index < 256
    → i ≤ index
    → index < i + fuel
    → search fuel src index xs i ≡ some none
unfolding search
search-spare src index xs i zero f h ne small le enough = absurd (omega arith)
search-spare src index xs i (suc fuel) f h ne small le enough =
    let (e, here, none_yet) = spare-get_elem? xs index f h in
    ground (arith, search-spare src index xs ((i + 1) % 256) fuel f h ne small)

-- Past 255 entries the `uint8_t` counter never reaches `index`: no number of rounds ends the loop.
pub search-forever :
    (s : Rpl) (xs : List Entry) (src i fuel : ℕ)
    → IsValid s xs
    → src ≢ 0
    → 255 < s.rpl_index
    → s.rpl_index < s.rpl_size
    → i < 256
    → search fuel src s.rpl_index xs i ≡ none
unfolding search
search-forever s xs src i zero v ne many room small = refl
search-forever s xs src i (suc fuel) v ne many room small =
    let (e, here, none_yet) = spare-get_elem? xs s.rpl_index v.spare (omega (arith, v.size)) in
    ground (arith, search-forever s xs src ((i + 1) % 256) fuel v ne many room (omega arith))

take-set :
    (xs : List Entry) (n : ℕ) (e : Entry)
    → n < length xs
    → take (suc n) (set xs n e) ≡ take n xs ++ (e ∷ [])
take-set [] n e h = absurd (omega arith)
take-set (x ∷ xs) zero e h = refl
take-set (x ∷ xs) (suc n) e h = ap (λ l. x ∷ l) (take-set xs n e (omega arith))

spare-set : (xs : List Entry) (n : ℕ) (e : Entry) → SpareFree xs n → SpareFree (set xs n e) (suc n)
spare-set [] n e f = tt
spare-set (x ∷ []) zero e f = tt
spare-set (x ∷ y ∷ xs) zero e f = f.1
spare-set (x ∷ xs) (suc n) e f = spare-set xs n e f

-- What meshx_rpl_update does to a list with room.
pub record Appended (s : Rpl) (xs : List Entry) (m : Entry) : Type 0 where
  pub after : Rpl
  pub slots : List Entry
  pub run : update m s ≡ some (success, after)
  pub valid : IsValid after slots
  pub appended : entries after slots ≡ entries s xs ++ (m ∷ [])

-- With room for one more and less than 256 entries, meshx_rpl_update of a message with a source
-- succeeds and appends the message as a new entry, also where its source already has one.
pub update-Appended :
    (s : Rpl) (xs : List Entry) (m : Entry)
    → IsValid s xs
    → m.src ≢ 0
    → s.rpl_index < s.rpl_size
    → s.rpl_index < 256
    → Appended s xs m
unfolding update store
update-Appended s xs m v ne room small =
    let inside : s.rpl_index < length xs = omega (arith, v.size) in
    let missed =
      search-spare m.src s.rpl_index xs 0 257 v.spare inside ne small (omega arith) (omega arith) in
    let next : (s.rpl_index + 1) % 2 ^ 32 ≡ suc s.rpl_index = omega arith in
    record {
      after = record s { rpl_array = some (set xs s.rpl_index m); rpl_index = suc s.rpl_index };
      slots = set xs s.rpl_index m;
      run = ground (arith, v.present, missed, set?-in xs s.rpl_index m inside, next);
      valid = record {
        present = refl;
        size = length-set xs s.rpl_index m ∙ v.size;
        used = room;
        small = v.small;
        spare = spare-set xs s.rpl_index m v.spare;
      };
      appended = take-set xs s.rpl_index m inside;
    }

-- On a full list meshx_rpl_update reads the slot behind the array, before it can answer that the
-- list is full.
pub update_full :
    (s : Rpl) (xs : List Entry) (m : Entry)
    → IsValid s xs
    → 0 < s.rpl_size
    → s.rpl_index ≡ s.rpl_size
    → update m s ≡ none
unfolding update search
update_full s xs m v some_room full =
    ground (arith, v.present, get_elem?-out xs s.rpl_index (omega (arith, v.size)))
