-- ===== src/Prov/Faults.antt =====
-- What a device takes that it should not.
use meshx.Base.{
  ℕ, ◌≡◌, ◌≤◌, refl, ap, ◌∙◌, true, false, some, List, [], ◌∷◌, ◌++◌, length, drop, replicate, ltb,
  arith,
}
use meshx.Base.Bytes.{bytes_eq, bytes_eq_refl}
use meshx.Base.Errno.{success}
use meshx.Security.{Ciphers}
use meshx.Net.Undone.{IsSound}
use meshx.PbAdv.{rank, complete, prov_data, random, Contents}
use meshx.PbAdv.Timer.{request_complete, start_delay, dev_require_trans_num}
use meshx.Prov.Send.{prov_complete}
use meshx.Prov.{Ecc, ProvDev, ProvData, ProvEnv, data_text, moved, of_data}
use meshx.Prov.Data.{slice-append, process_data-opened, Sized, length-data_text, of_data-data_text}
use meshx.Prov.Confirm.{generate_confirmation, verify_confirmation, calculate_session_device_key}
use meshx.Prov.Process.{notify_data, notify_random, answer_random, pdu_process, process_random}

-- The data PDU under a key and a nonce of zeros.
abbrev pub zero_sealed : Ciphers → ProvData → List ℕ
zero_sealed c d =
    let (text, mic) = c.ccm_encrypt (replicate 16 0) (replicate 13 0) (data_text d) 8 in text ++ mic

prov_complete-contents :
    (env : ProvEnv) (q : ProvDev) → (prov_complete env q).1.dev.contents ≡ q.dev.contents
unfolding prov_complete request_complete start_delay dev_require_trans_num
prov_complete-contents env q = ground arith

prov_complete-complete :
    (env : ProvEnv) (t : Contents) (q : ProvDev)
    → (prov_complete env (moved prov_data t q)).1.dev.state ≡ complete
unfolding prov_complete request_complete start_delay dev_require_trans_num
prov_complete-complete env t q = ground arith

-- As long as the session key and nonce of a device are zeros, and in any state up to DATA, a data PDU
-- encrypted under these zeros is taken: the application is told its data, and the state is COMPLETE. The
-- ciphers are relied on to be sound.
pub zero_key-data :
    (c : Ciphers) (e : Ecc) (env : ProvEnv) (after : List ℕ) (d : ProvData) (p : ProvDev)
    → IsSound c
    → Sized d
    → p.session_key ≡ replicate 16 0
    → p.session_nonce ≡ replicate 16 0
    → rank p.dev.state ≤ 10
    → (p' : ProvDev) × (pdu_process c e env p (7 ∷ (zero_sealed c d ++ after)) 34
        ≡ some (success, p', notify_data (record d { mic = drop 25 p.dev.contents.data_pdu }) ∷ []))
      × (p'.dev.state ≡ complete)
unfolding pdu_process
zero_key-data c e env after d p sound sized key nonce early =
    let cut : List ℕ × List ℕ = c.ccm_encrypt (replicate 16 0) (replicate 13 0) (data_text d) 8 in
    let contents : Contents = record (p.dev.contents) {
      data_pdu = data_text d ++ drop 25 p.dev.contents.data_pdu;
    } in
    (
      _,
      process_data-opened c env p after cut.0 cut.1 (data_text d) _
          (sound.text_length (replicate 16 0) (replicate 13 0) (data_text d) 8
            ∙ length-data_text d sized)
          (sound.mic_length (replicate 16 0) (replicate 13 0) (data_text d) 8)
          (ground (arith, early))
          (ap (λ k. c.ccm_decrypt k (drop 3 p.session_nonce) cut.0 cut.1) key
            ∙ ap (λ n. c.ccm_decrypt (replicate 16 0) (drop 3 n) cut.0 cut.1) nonce
            ∙ sound.undone (replicate 16 0) (replicate 13 0) (data_text d) 8)
          (ap (λ t. of_data t.data_pdu) (prov_complete-contents env (moved prov_data contents p))
            ∙ of_data-data_text d (drop 25 p.dev.contents.data_pdu) sized),
      prov_complete-complete env contents p,
    )

verify_confirmation-stale :
    (c : Ciphers) (q : ProvDev)
    → q.confirmation_remote ≡ q.dev.contents.confirmation_pdu
    → (verify_confirmation c false q).0 ≡ true
unfolding verify_confirmation generate_confirmation
verify_confirmation-stale c q h =
    ap (bytes_eq q.dev.contents.confirmation_pdu) h ∙ bytes_eq_refl q.dev.contents.confirmation_pdu

-- Without memory for the inputs of a confirmation, and in a state up to RANDOM: if the confirmation that
-- was received is the one that is stored as the own one, any 16 bytes are taken as the peer's random number.
pub no_memory-random :
    (c : Ciphers) (e : Ecc) (env : ProvEnv) (after rnd : List ℕ) (p : ProvDev)
    → env.allocated ≡ false
    → p.confirmation_remote ≡ p.dev.contents.confirmation_pdu
    → length rnd ≡ 16
    → rank p.dev.state ≤ 9
    → (p' : ProvDev) × (pdu_process c e env p (6 ∷ (rnd ++ after)) 17
        ≡ some (success, p', notify_random rnd ∷ []))
unfolding pdu_process process_random
no_memory-random c e env after rnd p none_left reflected len early =
    let q : ProvDev = record p { random_remote = rnd } in
    let v = (verify_confirmation c env.allocated q).1 in
    let on_time : ltb 9 (rank p.dev.state) ≡ false = ground (arith, early) in
    (
      calculate_session_device_key c (answer_random env (moved random v.dev.contents v)),
      rw
          (
            on_time,
            slice-append 16 rnd after len,
            ap (λ b. (verify_confirmation c b q).0) none_left
                ∙ verify_confirmation-stale c q reflected,
          )
          refl,
    )
