-- ===== src/Upper/RoundTrip.antt =====
-- A message that is sent by one node and received by another.
use mathlib.Core.Path.{subst}
use meshx.Base.{
  ℕ, ◌+◌, ◌-◌, ◌%◌, ◌≡◌, ◌⊎◌, refl, sym, ap, ◌∙◌, inl, inr, true, false, not, ◌&&◌, Option, none,
  some, List, [], ◌∷◌, ◌++◌, length, take, drop, ltb, ◌==◌, ◌>>=◌, take-append, drop-append,
  length-append, length-take, length-drop, take-append-drop, append_assoc, if◌then◌else◌,
  Bool-cases, Option-cases, arith,
}
use meshx.Base.Errno.{Ret, success}
use meshx.Security.{Ciphers}
use meshx.Key.App.{AppKey, AppKeyValue}
use meshx.Key.Dev.{dev_key_get}
use meshx.Seq.{Seqs, use_seq}
use meshx.Net.Undone.{IsSound}
use meshx.Upper.{UpperMsg, trans_nonce, upper_encrypt, upper_send}
use meshx.Upper.Plain.{numbered}
use meshx.Upper.Receive.{
  NodeKeys, app_values, try_app_value, try_app_values, try_app_keys, app_decrypt, dev_decrypt,
  upper_decrypt, upper_receive,
}

-- The first of the values with an identifier.
abbrev pub first_with : ℕ → List AppKeyValue → Option (List ℕ)
first_with aid [] = none
first_with aid (v ∷ vs) = if v.aid == aid then some v.app_key else first_with aid vs

abbrev pub all_values : List AppKey → List AppKeyValue
all_values [] = []
all_values (k ∷ ks) = app_values k ++ all_values ks

abbrev pub dev_key_for : NodeKeys → Option (List ℕ)
dev_key_for n = dev_key_get n.node_addr n.dev_keys >>= λ k. some k.dev_key

-- The key that a node tries first for a message.
abbrev pub key_for : NodeKeys → UpperMsg → Option (List ℕ)
key_for n m = if m.akf then first_with m.aid (all_values n.app_keys) else dev_key_for n

module _ (c : Ciphers) (m : UpperMsg) (mic text plain key : List ℕ)
    (opens : c.ccm_decrypt key (trans_nonce m) text mic ≡ (true, plain)) where
  try_app_values-first :
      (vs rest : List AppKeyValue)
      → first_with m.aid (vs ++ rest) ≡ some key
      → (try_app_values c m mic vs text ≡ (some key, plain))
        ⊎ ((try_app_values c m mic vs text ≡ (none, text)) × (first_with m.aid rest ≡ some key))
  unfolding try_app_values try_app_value
  try_app_values-first [] rest h = inr (refl, h)
  try_app_values-first (v ∷ vs) rest h = elim (Bool-cases (v.aid == m.aid)) [
    | inl e ↦
        let same : v.app_key ≡ key = ground (arith, e, h) in
        let one : try_app_value c m mic v text ≡ (some key, plain) =
          simp (try_app_value, e, same, opens) refl in
        inl (simp (try_app_values, one) refl)
    | inr e ↦
        let one : try_app_value c m mic v text ≡ (none, text) = simp (try_app_value, e) refl in
        simp (try_app_values, one)
          (try_app_values-first vs rest (
            subst (λ b. (if b then some v.app_key else first_with m.aid (vs ++ rest)) ≡ some key) e
              h))
  ]

  try_app_keys-first :
      (ks : List AppKey)
      → first_with m.aid (all_values ks) ≡ some key
      → try_app_keys c m mic ks text ≡ (some key, plain)
  unfolding try_app_keys
  try_app_keys-first [] h = absurd (cc h)
  try_app_keys-first (k ∷ ks) h = elim (try_app_values-first (app_values k) (all_values ks) h) [
    | inl e ↦ simp (try_app_keys, e) refl
    | inr (e, later) ↦ simp (try_app_keys, e) (try_app_keys-first ks later)
  ]

  app_decrypt-opens :
      (n : NodeKeys)
      → first_with m.aid (all_values n.app_keys) ≡ some key
      → app_decrypt c n m text mic ≡ (success, record m { trans_key = key }, plain)
  unfolding app_decrypt
  app_decrypt-opens n h = simp (app_decrypt, try_app_keys-first n.app_keys h) refl

  dev_decrypt-opens :
      (refused : Ret) (n : NodeKeys)
      → dev_key_for n ≡ some key
      → dev_decrypt c refused n m text mic ≡ (success, record m { trans_key = key }, plain)
  unfolding dev_decrypt
  dev_decrypt-opens refused n h = elim (Option-cases (dev_key_get n.node_addr n.dev_keys)) [
    | inl f ↦
        let never : none ≡ some key = sym (ap (λ o. o >>= λ k. some k.dev_key) f) ∙ h in
        absurd (cc never)
    | inr (k, f) ↦
        let found : some k.dev_key ≡ some key = sym (ap (λ o. o >>= λ k. some k.dev_key) f) ∙ h in
        let same : k.dev_key ≡ key = cc found in simp (dev_decrypt, f, same, opens) refl
  ]

  upper_decrypt-opens :
      (refused : Ret) (n : NodeKeys)
      → key_for n m ≡ some key
      → upper_decrypt c refused n m text mic ≡ (success, record m { trans_key = key }, plain)
  unfolding upper_decrypt
  upper_decrypt-opens refused n h = elim (Bool-cases m.akf) [
    | inl e ↦
        ap (λ b. if b then app_decrypt c n m text mic else dev_decrypt c refused n m text mic) e
        ∙ app_decrypt-opens n (
            sym (ap (λ b. if b then first_with m.aid (all_values n.app_keys) else dev_key_for n) e)
            ∙ h)
    | inr e ↦
        ap (λ b. if b then app_decrypt c n m text mic else dev_decrypt c refused n m text mic) e
        ∙ dev_decrypt-opens refused n (
            sym (ap (λ b. if b then first_with m.aid (all_values n.app_keys) else dev_key_for n) e)
            ∙ h)
  ]

-- The length of the check value.
abbrev pub mic_size : UpperMsg → ℕ
mic_size m = if m.seg && m.szmic then 8 else 4

upper_receive-cut :
    (c : Ciphers) (refused answer : Ret) (n : NodeKeys) (m m' : UpperMsg)
    (text rest mic plain : List ℕ)
    → m.ctl ≡ false
    → length text ≡ length (text ++ rest) % 256
    → length mic ≡ mic_size m
    → upper_decrypt c refused n m text mic ≡ (success, m', plain)
    → upper_receive c refused answer n m ((text ++ rest) ++ mic)
      ≡ some (answer, m', some (take (length (text ++ rest) % 256) (plain ++ rest)))
unfolding upper_receive
upper_receive-cut c refused answer n m m' text rest mic plain access_msg text_len mic_len opened =
    let whole = text ++ rest in
    let len : length (whole ++ mic) - mic_size m ≡ length whole =
      omega (arith, length-append whole mic, mic_len) in
    let enough : ltb (length (whole ++ mic)) (mic_size m) ≡ false =
      ground (arith, length-append whole mic, mic_len) in
    let first : take (length whole % 256) (whole ++ mic) ≡ text =
      ap (take (length whole % 256)) (append_assoc text rest mic)
      ∙ take-append (length whole % 256) text (rest ++ mic) (sym text_len) in
    simp
      (
        upper_receive,
        access_msg,
        enough,
        len,
        first,
        drop-append (length whole) whole mic refl,
        take-append (length whole) whole mic refl,
        drop-append (length whole % 256) text rest (sym text_len),
        opened,
      )
      refl

-- An access message with a long check value only if it is segmented, for which the receiver has the sender's
-- key, tried before all others with its identifier: the PDU that the sender's upper transport makes is
-- the message and its check value long, and the receiver's upper transport, told the same fields, gives the
-- access layer the key and the first bytes of the message, as many as its length modulo 256: exactly the
-- message if it has at most 255 bytes. The ciphers are relied on to be sound.
pub upper_send-upper_receive :
    (c : Ciphers) (lower refused answer : Ret) (element seq : ℕ) (bytes key : List ℕ) (m : UpperMsg)
    (n : NodeKeys) (q q' : Seqs)
    → IsSound c
    → m.ctl ≡ false
    → (m.szmic && not m.seg) ≡ false
    → key_for n m ≡ some m.trans_key
    → use_seq element q ≡ some (seq, q')
    → (pdu : List ℕ) × (upper_send c true true lower element bytes m q
        ≡ some (lower, some (numbered m seq, pdu), q'))
      × (length pdu ≡ length bytes + mic_size m)
      × (upper_receive c refused answer n (record (numbered m seq) { trans_key = key }) pdu
          ≡ some (answer, numbered m seq, some (take (length bytes % 256) bytes)))
unfolding upper_send upper_encrypt
upper_send-upper_receive c lower refused answer element seq bytes key m n q q' sound access_msg long
      known used =
    let size : ℕ = if m.szmic then 8 else 4 in
    let k = length bytes % 256 in
    let m' : UpperMsg = numbered m seq in
    let r : UpperMsg = record m' { trans_key = key } in
    let cut : List ℕ × List ℕ = c.ccm_encrypt m.trans_key (trans_nonce m') (take k bytes) size in
    let text_len : length cut.0 ≡ k =
      sound.text_length m.trans_key (trans_nonce m') (take k bytes) size
      ∙ omega (arith, length-take k bytes) in
    let whole_len : length (cut.0 ++ drop k bytes) ≡ length bytes =
      omega (arith, length-append cut.0 (drop k bytes), length-drop k bytes, text_len) in
    let same_size : size ≡ mic_size m = ground (arith, long) in
    (
      (cut.0 ++ drop k bytes) ++ cut.1,
      simp (upper_send, upper_encrypt, access_msg, used) refl,
      length-append (cut.0 ++ drop k bytes) cut.1
          ∙ omega (
            arith,
            whole_len,
            sound.mic_length m.trans_key (trans_nonce m') (take k bytes) size,
            same_size,
          ),
      upper_receive-cut c refused answer n r m' cut.0 (drop k bytes) cut.1 (take k bytes) access_msg
            (text_len ∙ ap (λ (l : ℕ). l % 256) (sym whole_len))
            (sound.mic_length m.trans_key (trans_nonce m') (take k bytes) size ∙ same_size)
            (upper_decrypt-opens c r cut.1 cut.0 (take k bytes) m.trans_key
              (sound.undone m.trans_key (trans_nonce m') (take k bytes) size) refused n known)
          ∙ ap (λ (l : ℕ). some (answer, m', some (take (l % 256) (take k bytes ++ drop k bytes))))
              whole_len
          ∙ ap (λ b. some (answer, m', some (take k b))) (take-append-drop k bytes),
    )
