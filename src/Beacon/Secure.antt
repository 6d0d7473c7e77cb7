-- ===== src/Beacon/Secure.antt =====
-- A network beacon that a node sends and another one receives.
use meshx.Base.{
  ℕ, suc, ◌*◌, ◌/◌, ◌%◌, ◌≡◌, inl, inr, refl, sym, ap, ◌∙◌, true, false, Bool, Bool-cases,
  Option-cases, Option, none, some, List, [], ◌∷◌, ◌++◌, length, take, drop, ltb, ◌==◌, ◌>>=◌,
  take-append, take_all, drop-append, length-append, length-take, append_assoc, min, if◌then◌else◌,
  arith,
}
use meshx.Base.Bytes.{bytes_eq, bytes_eq_refl}
use meshx.Base.Errno.{Ret, success}
use meshx.Security.{Ciphers}
use meshx.Key.{normal, NetKeyValue, NetKey}
use meshx.Iv
use meshx.Iv.{Iv, UpdateState, in_progress}
use meshx.Beacon.{
  Host, BeaconNode, Udb, update_bit, snb_text, snb_bytes, candidates, find_snb, change_key,
  refresh_key, receive_snb, beacon_receive,
}

-- The first value with an identifier, and whether it is the second one of its key.
abbrev pub first_value :
    List ℕ → List (NetKey × Bool × NetKeyValue) → Option (NetKey × Bool × NetKeyValue)
first_value net_id [] = none
first_value net_id ((k, second, v) ∷ vs) =
    if bytes_eq v.net_id net_id then some (k, second, v) else first_value net_id vs

find_snb-first :
    (c : Ciphers) (net_id text key : List ℕ) (k : NetKey) (second : Bool) (v : NetKeyValue)
    (vs : List (NetKey × Bool × NetKeyValue))
    → first_value net_id vs ≡ some (k, second, v)
    → v.beacon_key ≡ key
    → find_snb c net_id text (take 8 (c.cmac key text)) vs ≡ some (k, second)
unfolding find_snb
find_snb-first c net_id text key k second v [] h same = absurd (cc h)
find_snb-first c net_id text key k second v ((k', second', v') ∷ vs) h same =
    elim (Bool-cases (bytes_eq v'.net_id net_id)) [
      | inl e ↦
          let found : some (k', second', v') ≡ some (k, second, v) =
            sym (ap (λ b. if b then some (k', second', v') else first_value net_id vs) e) ∙ h in
          let same' : v'.beacon_key ≡ key =
            let w : v' ≡ v = cc found in ap (λ (u : NetKeyValue). u.beacon_key) w ∙ same in
          let good : bytes_eq (take 8 (c.cmac key text)) (take 8 (c.cmac v'.beacon_key text))
              ≡ true =
            ap (λ b. bytes_eq (take 8 (c.cmac key text)) (take 8 (c.cmac b text))) same'
            ∙ bytes_eq_refl (take 8 (c.cmac key text)) in
          rw (find_snb, e, good)
            (let r : ◌≡◌ {A = NetKey × Bool} (k', second') (k, second) = cc found in ap some r)
      | inr e ↦
          let later : first_value net_id vs ≡ some (k, second, v) =
            sym (ap (λ b. if b then some (k', second', v') else first_value net_id vs) e) ∙ h in
          rw (find_snb, e) (find_snb-first c net_id text key k second v vs later same)
    ]

-- What is relied on for the host's words, for one word, and the sizes of what a beacon is made of.
pub record Measured (c : Ciphers) (host : Host) (v : Iv) (key : NetKeyValue) : Type 0 where
  pub id_length : length key.net_id ≡ 8
  pub word_length : length (host.word_bytes v.iv_index) ≡ 4
  pub word_back : host.word_of (host.word_bytes v.iv_index) ≡ v.iv_index
  pub mac_length : (text : List ℕ) → length (c.cmac key.beacon_key text) ≡ 16

-- What a beacon whose key refresh flag is not set does to a key, and the effect of a beacon of the sender's
-- IV index.
abbrev pub refreshed : NetKey → Bool → BeaconNode → Option BeaconNode
refreshed k second n =
    if second
    then change_key normal (record k { key_state = normal; value0 = k.value1 }) n
    else some n

abbrev pub updated : Bool → Iv → BeaconNode → Option (Ret × BeaconNode × List Udb)
updated busy v n = Iv.update busy v.iv_index v.update_state n.iv_state >>= λ (r, iv').
    some (success, record n { iv_state = iv' }, [])

refresh_key-unset :
    (b : ℕ) (k : NetKey) (second : Bool) (n : BeaconNode)
    → refresh_key (2 * b) k second n ≡ (refreshed k second n >>= λ n'. some (success, n'))
unfolding refresh_key
refresh_key-unset b k true n =
    let even : (2 * b % 2 == 1) ≡ false = ground arith in rw (refresh_key, even) refl
refresh_key-unset b k false n =
    let even : (2 * b % 2 == 1) ≡ false = ground arith in rw (refresh_key, even) refl

module _ (c : Ciphers) (host : Host) (v : Iv) (key : NetKeyValue) (m : Measured c host v key) where
  abbrev text_of : List ℕ
  text_of = snb_text host v key

  abbrev auth_of : List ℕ
  auth_of = take 8 (c.cmac key.beacon_key text_of)

  auth_length : length auth_of ≡ 8
  auth_length = length-take 8 (c.cmac key.beacon_key text_of) ∙ ap (min 8) (m.mac_length text_of)

  text_length : length text_of ≡ 13
  text_length =
      ap suc (length-append key.net_id (host.word_bytes v.iv_index))
      ∙ omega (arith, m.id_length, m.word_length)

  net_id_back : take 8 (drop 1 (text_of ++ auth_of)) ≡ key.net_id
  net_id_back =
      ap (take 8) (append_assoc key.net_id (host.word_bytes v.iv_index) auth_of)
      ∙ take-append 8 key.net_id (host.word_bytes v.iv_index ++ auth_of) (sym m.id_length)

  word_back_again :
      take 4 (drop 8 ((key.net_id ++ host.word_bytes v.iv_index) ++ auth_of))
      ≡ host.word_bytes v.iv_index
  word_back_again =
      ap (λ t. take 4 (drop 8 t)) (append_assoc key.net_id (host.word_bytes v.iv_index) auth_of)
      ∙ ap (take 4)
          (drop-append 8 key.net_id (host.word_bytes v.iv_index ++ auth_of) (sym m.id_length))
      ∙ take-append 4 (host.word_bytes v.iv_index) auth_of (sym m.word_length)

  auth_back : take 8 (drop 13 (text_of ++ auth_of)) ≡ auth_of
  auth_back =
      ap (take 8) (drop-append 13 text_of auth_of (sym text_length))
      ∙ take_all 8 auth_of (omega (arith, auth_length))

  state_back :
      (if 2 * update_bit v.update_state / 2 % 2 == 1 then in_progress else Iv.normal)
      ≡ v.update_state
  state_back = ground arith

  -- A network beacon that is sent with the IV index v and a key, received by a node of which a value with
  -- the same beacon key is the first one with the network's identifier: if it is the second value of its
  -- key, the refresh of that key ends, and then meshx_iv_index_update gets the sender's IV index and update
  -- state. The result is these two, with an abort in one of them the result's. Identifiers have 8 bytes,
  -- words 4 and check values 16, and the word of the sender's IV index comes back from its bytes.
  pub snb_bytes-beacon_receive :
      (busy : Bool) (n : BeaconNode) (k : NetKey) (second : Bool) (w : NetKeyValue)
      → first_value key.net_id (candidates n.net_keys) ≡ some (k, second, w)
      → w.beacon_key ≡ key.beacon_key
      → beacon_receive c host busy (snb_bytes c host v key) n
        ≡ (refreshed k second n >>= updated busy v)
  unfolding beacon_receive receive_snb snb_bytes
  snb_bytes-beacon_receive busy n k second w first same =
      let enough : ltb (length (text_of ++ auth_of)) 21 ≡ false =
        ground (arith, length-append text_of auth_of, text_length, auth_length) in
      let found =
        find_snb-first c key.net_id text_of key.beacon_key k second w (candidates n.net_keys) first
          same in
      let word : host.word_of
            (take 4 (drop 8 ((key.net_id ++ host.word_bytes v.iv_index) ++ auth_of)))
          ≡ v.iv_index =
        ap host.word_of word_back_again ∙ m.word_back in
      simp
        (
          beacon_receive,
          snb_bytes,
          receive_snb,
          enough,
          net_id_back,
          take-append 13 text_of auth_of (sym text_length),
          auth_back,
          found,
          refresh_key-unset (update_bit v.update_state) k second n,
        )
        (elim (Option-cases (refreshed k second n)) [
          | inl e ↦ rw e refl
          | inr (n', e) ↦ rw e (
              simp (word, state_back)
                (elim (Option-cases (Iv.update busy v.iv_index v.update_state n'.iv_state)) [
                  | inl e' ↦ rw e' refl
                  | inr (u, e') ↦ rw e' refl
                ]))
        ])
