-- ===== src/Key/Refresh.antt =====
-- Key refresh: updating keys and changing over to them.
use meshx.Base.{
  ℕ, ◌≡◌, inl, inr, refl, sym, ap, ◌∙◌, Bool, true, false, some, All, ◌>>=◌, List, [], ◌∷◌, ◌==◌,
  if◌then◌else◌, arith, Bool-cases,
}
use meshx.Base.Errno.{Ret, success, inval, not_found}
use meshx.Base.Bytes.{bytes_eq}
use meshx.Security.{Ciphers}
use meshx.Key.{
  KeyState, normal, phase1, phase2, NetKey, net_key_get, tx_value, net_key_tx_get, update_key,
  net_key_update, net_key_at,
}
use meshx.Key.App.{
  AppKey, app_key_get, app_key_tx_get, app_key_derive, update_app_key, app_key_update, transit_key,
  transit_from, app_key_state_transit,
}

with_state : KeyState → NetKey → NetKey
with_state s k = record k { key_state = s }

update_key-with_state :
    (c : Ciphers) (m : Bool) (key : List ℕ) (k : NetKey) (s : KeyState)
    → (tx_value (update_key c m key (with_state s k)).1 ≡ tx_value (with_state s k))
      × ((update_key c m key (with_state s k)).1.key_index ≡ k.key_index)
unfolding update_key with_state
update_key-with_state c m key k normal = (refl, refl)
update_key-with_state c m key k phase1 = (refl, refl)
update_key-with_state c m key k phase2 = (refl, refl)

update_key-tx_value :
    (c : Ciphers) (m : Bool) (key : List ℕ) (k : NetKey)
    → (tx_value (update_key c m key k).1 ≡ tx_value k)
      × ((update_key c m key k).1.key_index ≡ k.key_index)
unfolding with_state
update_key-tx_value c m key k = update_key-with_state c m key k k.key_state

net_key_tx_get-cons :
    (j : ℕ) (k : NetKey) (ks : List NetKey)
    → net_key_tx_get j (k ∷ ks)
      ≡ (if k.key_index == j then some (tx_value k) else net_key_tx_get j ks)
unfolding net_key_tx_get net_key_get
net_key_tx_get-cons j k ks = elim (Bool-cases (k.key_index == j)) [
  | inl e ↦ rw (net_key_tx_get, net_key_get, e) refl
  | inr e ↦ rw (net_key_tx_get, net_key_get, e) refl
]

-- Whatever network key is updated with whatever value, accepted or refused, the value that messages
-- are sent with stays the same for every index: a new key is only received with at first.
pub net_key_update-tx_get :
    (c : Ciphers) (m : Bool) (i j : ℕ) (key : List ℕ) (ks : List NetKey)
    → net_key_tx_get j (net_key_update c m i key ks).1 ≡ net_key_tx_get j ks
unfolding net_key_update
net_key_update-tx_get c m i j key [] = refl
net_key_update-tx_get c m i j key (k ∷ ks) = elim (Bool-cases (k.key_index == i)) [
  | inl e ↦
      let k' = (update_key c m key k).1 in
      let (tx, index) = update_key-tx_value c m key k in
      let here : net_key_tx_get j (k' ∷ ks) ≡ net_key_tx_get j (k ∷ ks) =
        net_key_tx_get-cons j k' ks ∙ rw (tx, index) (sym (net_key_tx_get-cons j k ks)) in
      rw (net_key_update, e) here
  | inr e ↦
      let ks' = (net_key_update c m i key ks).1 in
      let there : net_key_tx_get j (k ∷ ks') ≡ net_key_tx_get j (k ∷ ks) =
        net_key_tx_get-cons j k ks'
        ∙ rw (net_key_update-tx_get c m i j key ks) (sym (net_key_tx_get-cons j k ks)) in
      rw (net_key_update, e) there
]

net_key_at_self : (net : NetKey) (nets : List NetKey) → net_key_at net.addr (net ∷ nets) ≡ some net
unfolding net_key_at
net_key_at_self net nets =
    let same : (net.addr == net.addr) ≡ true = ground arith in rw (net_key_at, same) refl

update_app_key-normal :
    (c : Ciphers) (key : List ℕ) (k : AppKey) (s : KeyState)
    → s ≡ phase1
    → k.key_state ≡ normal
    → update_app_key c key s k ≡ (
      success,
      record k {
        key_state = phase1;
        value1 = record (k.value1) { app_key = key };
        value0 = app_key_derive c k.value0;
      },
    )
unfolding update_app_key
update_app_key-normal c key k s updating before =
    ap (λ s. update_app_key c key s k) updating
    ∙ ap
        (λ t. elim t [
          | phase1 ↦ (if bytes_eq k.value1.app_key key then success else inval, k)
          | _ ↦ (
            success,
            record k {
              key_state = phase1;
              value1 = record (k.value1) { app_key = key };
              value0 = app_key_derive c k.value0;
            },
          )
        ])
        before

-- Every application key points to a network key that is there.
abbrev pub IsBound : List NetKey → AppKey → Type 0
IsBound nets k = (net : NetKey) × (net_key_at k.pnet_key_bind nets ≡ some net)

app_key_get-here :
    (i : ℕ) (k : AppKey) (ks : List AppKey)
    → (k.key_index == i) ≡ true
    → app_key_get i (k ∷ ks) ≡ some k
unfolding app_key_get
app_key_get-here i k ks e = rw (app_key_get, e) refl

app_key_get-there :
    (i : ℕ) (k : AppKey) (ks : List AppKey)
    → (k.key_index == i) ≡ false
    → app_key_get i (k ∷ ks) ≡ app_key_get i ks
unfolding app_key_get
app_key_get-there i k ks e = rw (app_key_get, e) refl

-- One key is moved or left alone, with its index.
transit_key-index : (s : KeyState) (k : AppKey) → (transit_key s k).1.key_index ≡ k.key_index
unfolding transit_key
transit_key-index s k = ground arith

module _ (nets : List NetKey) (i : ℕ) where
  transit_from-head :
      (r : Ret) (s : KeyState) (a : AppKey)
      → IsBound nets a
      → (a' : AppKey) × (r1 : Ret) × ((ks : List AppKey)
          → transit_from r i s nets (a ∷ ks)
            ≡ (transit_from r1 i s nets ks >>= λ (r2, ks'). some (r2, a' ∷ ks')))
        × (a'.key_index ≡ a.key_index)
  unfolding transit_from
  transit_from-head r s a (net, at) = elim (Bool-cases (net.key_index == i)) [
    | inl e ↦ (
      (transit_key s a).1,
      (transit_key s a).0,
      λ ks. rw (transit_from, at, e) refl,
      transit_key-index s a,
    )
    | inr e ↦ (a, r, λ ks. rw (transit_from, at, e) refl, refl)
  ]

  transit_from-total :
      (r : Ret) (s : KeyState) (ks : List AppKey)
      → All (IsBound nets) ks
      → (r' : Ret) × (ks' : List AppKey) × (transit_from r i s nets ks ≡ some (r', ks'))
  unfolding transit_from
  transit_from-total r s [] all = (r, [], refl)
  transit_from-total r s (a ∷ ks) all =
      let (a', r1, step, index) = transit_from-head r s a all.0 in
      let (r', ks', run) = transit_from-total r1 s ks all.1 in (r', a' ∷ ks', step ks ∙ rw run refl)

module _ (c : Ciphers) (key : List ℕ) (i : ℕ) (nets : List NetKey) (net : NetKey) (k : AppKey)
    (updating : net.key_state ≡ phase1) (before : k.key_state ≡ normal)
    (bound : net_key_at k.pnet_key_bind nets ≡ some net) where
  abbrev updated : AppKey
  updated = record k {
    key_state = phase1;
    value1 = record (k.value1) { app_key = key };
    value0 = app_key_derive c k.value0;
  }

  -- Only the key that is found changes.
  app_key_update-found :
      (ks : List AppKey)
      → app_key_get i ks ≡ some k
      → All (IsBound nets) ks
      → (ks1 : List AppKey) × (app_key_update c i key nets ks ≡ some (success, ks1))
        × (app_key_get i ks1 ≡ some updated)
        × All (IsBound nets) ks1
  unfolding app_key_update
  app_key_update-found [] found all = absurd (unfold app_key_get in cc found)
  app_key_update-found (a ∷ ks) found all = elim (Bool-cases (a.key_index == i)) [
    | inl e ↦
        let first : some a ≡ some k = sym (app_key_get-here i a ks e) ∙ found in
        let same : a ≡ k = cc first in
        let at : net_key_at a.pnet_key_bind nets ≡ some net =
          ap (λ (x : AppKey). net_key_at x.pnet_key_bind nets) same ∙ bound in
        let upd : update_app_key c key net.key_state a ≡ (success, updated) =
          ap (update_app_key c key net.key_state) same
          ∙ update_app_key-normal c key k net.key_state updating before in
        let index : (updated.key_index == i) ≡ true =
          ap (λ (x : AppKey). x.key_index == i) (sym same) ∙ e in
        (
          updated ∷ ks,
          rw (app_key_update, e, at, upd) refl,
          app_key_get-here i updated ks index,
          ((net, bound), all.1),
        )
    | inr e ↦
        let (ks1, run, got, all1) =
          app_key_update-found ks (sym (app_key_get-there i a ks e) ∙ found) all.1 in
        (
          a ∷ ks1,
          rw (app_key_update, e, run) refl,
          app_key_get-there i a ks1 e ∙ got,
          (all.0, all1),
        )
  ]

  -- All keys of the network key that are being updated change their state.
  transit_from-found :
      (r : Ret) (s : KeyState) (ks : List AppKey)
      → app_key_get i ks ≡ some updated
      → All (IsBound nets) ks
      → (r' : Ret) × (ks2 : List AppKey) × (transit_from r net.key_index s nets ks ≡ some (r', ks2))
        × (app_key_get i ks2 ≡ some (record updated { key_state = s }))
  unfolding transit_from
  transit_from-found r s [] found all = absurd (unfold app_key_get in cc found)
  transit_from-found r s (a ∷ ks) found all = elim (Bool-cases (a.key_index == i)) [
    | inl e ↦
        let first : some a ≡ some updated = sym (app_key_get-here i a ks e) ∙ found in
        let same : a ≡ updated = cc first in
        let at : net_key_at a.pnet_key_bind nets ≡ some net =
          ap (λ (x : AppKey). net_key_at x.pnet_key_bind nets) same ∙ bound in
        let own : (net.key_index == net.key_index) ≡ true = ground arith in
        let moved : transit_key s a ≡ (success, record updated { key_state = s }) =
          ap (transit_key s) same ∙ (unfold transit_key in refl) in
        let (r', ks2, run) = transit_from-total nets net.key_index success s ks all.1 in
        let index : (updated.key_index == i) ≡ true =
          ap (λ (x : AppKey). x.key_index == i) (sym same) ∙ e in
        (
          r',
          record updated { key_state = s } ∷ ks2,
          rw (transit_from, at, own, moved, run) refl,
          app_key_get-here i (record updated { key_state = s }) ks2 index,
        )
    | inr e ↦
        let (a', r1, step, index) = transit_from-head nets net.key_index r s a all.0 in
        let (r', ks2, run, got) =
          transit_from-found r1 s ks (sym (app_key_get-there i a ks e) ∙ found) all.1 in
        (
          r',
          a' ∷ ks2,
          step ks ∙ rw run refl,
          app_key_get-there i a' ks2 (ap (λ (x : ℕ). x == i) index ∙ e) ∙ got,
        )
  ]

-- An application key that is found with an index and whose network key is being updated is updated with a
-- new key, while every application key points to a network key that is there. When
-- meshx_app_key_state_transit then moves the application keys of that network key to phase 2, messages are
-- sent with the new key, but under the identifier that was in the second place before: it is never derived
-- from the new key.
pub app_key_update-stale :
    (c : Ciphers) (key : List ℕ) (i : ℕ) (nets : List NetKey) (ks : List AppKey) (net : NetKey)
    (k : AppKey)
    → app_key_get i ks ≡ some k
    → All (IsBound nets) ks
    → net_key_at k.pnet_key_bind nets ≡ some net
    → net.key_state ≡ phase1
    → k.key_state ≡ normal
    → (ks1 ks2 : List AppKey) × (r : Ret) × (app_key_update c i key nets ks ≡ some (success, ks1))
      × (app_key_state_transit net.key_index phase2 nets ks1 ≡ some (r, ks2))
      × (app_key_tx_get i ks2 ≡ some (record { app_key = key; aid = k.value1.aid }))
unfolding app_key_state_transit app_key_tx_get
app_key_update-stale c key i nets ks net k found all bound updating before =
    let (ks1, run, got, all1) =
      app_key_update-found c key i nets net k updating before bound ks found all in
    let (r, ks2, moved, after) =
      transit_from-found c key i nets net k updating before bound not_found phase2 ks1 got all1 in
    (ks1, ks2, r, run, moved, rw (app_key_tx_get, after) refl)
