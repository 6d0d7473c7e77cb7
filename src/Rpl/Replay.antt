-- ===== src/Rpl/Replay.antt =====
-- What meshx_rpl_check answers after meshx_rpl_update.
use meshx.Base.{
  ℕ, ◌<◌, ◌≡◌, refl, ◌∙◌, ap, ◌≢◌, true, false, Option, none, some, List, [], ◌∷◌, ◌++◌, arith,
  if◌then◌else◌, ◌==◌,
}
use meshx.Base.Errno.{success}
use meshx.Rpl.{Entry, Rpl, is_old, update, check}
use meshx.Rpl.Inv.{IsValid, entries, accepts, check-accepts, update-Appended}

-- The first entry of a source.
unfoldable pub first_of : ℕ → List Entry → Option Entry
first_of src [] = none
first_of src (e ∷ es) = if e.src == src then some e else first_of src es

accepts-first :
    (m e : Entry) (es : List Entry)
    → first_of m.src es ≡ some e
    → accepts m es ≡ (if is_old m e then false else true)
unfolding first_of
accepts-first m e [] h = ground arith
accepts-first m e (x ∷ es) h = ground (arith, accepts-first m e es)

first_of-append :
    (src : ℕ) (e m : Entry) (es : List Entry)
    → first_of src es ≡ some e
    → first_of src (es ++ (m ∷ [])) ≡ some e
unfolding first_of
first_of-append src e m [] h = ground arith
first_of-append src e m (x ∷ es) h = ground (arith, first_of-append src e m es)

first_of-append_new :
    (src : ℕ) (m : Entry) (es : List Entry)
    → first_of src es ≡ none
    → m.src ≡ src
    → first_of src (es ++ (m ∷ [])) ≡ some m
unfolding first_of
first_of-append_new src m [] h e = ground arith
first_of-append_new src m (x ∷ es) h e = ground (arith, first_of-append_new src m es)

module _ (s : Rpl) (xs : List Entry) (m : Entry) (valid : IsValid s xs) (sourced : m.src ≢ 0)
    (room : s.rpl_index < s.rpl_size) (small : s.rpl_index < 256) where
  -- A source with no entry: once its message is recorded, a later message of the source is accepted
  -- exactly if its sequence number is higher and its IV index is not lower.
  pub first_message :
      (m' : Entry)
      → m'.src ≡ m.src
      → first_of m.src (entries s xs) ≡ none
      → (t : Rpl) × (update m s ≡ some (success, t))
        × (check m' t ≡ some (if is_old m' m then false else true))
  first_message m' same new =
      let a = update-Appended s xs m valid sourced room small in
      let first = first_of-append_new m.src m (entries s xs) new refl in
      let there : first_of m'.src (entries a.after a.slots) ≡ some m =
        rw (same, a.appended) first in
      (
        a.after,
        a.run,
        check-accepts a.after a.slots m' a.valid
            ∙ ap some (accepts-first m' m (entries a.after a.slots) there),
      )

  -- A source with an entry: a message that meshx_rpl_check accepts and meshx_rpl_update records is
  -- accepted again when it is replayed, since the first entry of its source is never changed.
  pub replay_accepted :
      (e : Entry)
      → first_of m.src (entries s xs) ≡ some e
      → check m s ≡ some true
      → (t : Rpl) × (update m s ≡ some (success, t)) × (check m t ≡ some true)
  replay_accepted e old passed =
      let a = update-Appended s xs m valid sourced room small in
      let kept = first_of-append m.src e m (entries s xs) old in
      let there : first_of m.src (entries a.after a.slots) ≡ some e = rw a.appended kept in
      let before = check-accepts s xs m valid ∙ ap some (accepts-first m e (entries s xs) old) in
      let later =
        check-accepts a.after a.slots m a.valid
        ∙ ap some (accepts-first m e (entries a.after a.slots) there) in
      (a.after, a.run, cc (before, later))
