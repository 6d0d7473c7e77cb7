-- ===== src/Prov/Handshake/Steps.antt =====
-- Each of the messages of the run is taken by its receiver.
use meshx.Base.{
  ℕ, suc, ◌%◌, ◌≡◌, refl, ap, ◌∙◌, true, false, some, List, [], ◌∷◌, ◌++◌, length, drop, ltb,
  length-append, ◌>>=◌, arith,
}
use meshx.Base.Errno.{success}
use meshx.Security.{Ciphers}
use meshx.PbAdv.{rank, public_key, confirmation, random, prov_data, complete}
use meshx.PbAdv.Send.{pdu_of}
use meshx.Prov.{Ecc, ProvDev, ProvData, ProvEnv, moved, of_data}
use meshx.Prov.Confirm.{verify_confirmation, calculate_session_device_key}
use meshx.Prov.Send.{prov_complete}
use meshx.Prov.Process.{
  Notify, notify_public_key, notify_confirmation, notify_random, notify_data, notify_complete,
  answer_confirmation, answer_random, process_public_key, process_confirmation, process_random,
  process_complete, pdu_process,
}
use meshx.Prov.Data.{slice-append, process_data-opened}
use meshx.Prov.Handshake.{deliver, succeeded}

deliver_by :
    (c : Ciphers) (e : Ecc) (env : ProvEnv) (after : List ℕ) (p q : ProvDev) (t n : ℕ)
    (body : List ℕ) (q' : ProvDev) (out : List Notify)
    → pdu_of p.dev p.dev.state ≡ some (t ∷ body)
    → length body ≡ n
    → pdu_process c e env q (t ∷ (body ++ after)) (suc n % 256) ≡ some (success, q', out)
    → deliver c e env after p q ≡ some (q', out)
unfolding deliver
deliver_by c e env after p q t n body q' out sent len run =
    ap (λ o. o >>= λ pdu. pdu_process c e env q (pdu ++ after) (length pdu % 256) >>= succeeded)
      sent
    ∙ ap (λ (k : ℕ). pdu_process c e env q (t ∷ (body ++ after)) (suc k % 256) >>= succeeded) len
    ∙ ap (λ o. o >>= succeeded) run

module _ (c : Ciphers) (e : Ecc) (env : ProvEnv) (after : List ℕ) (p q : ProvDev) where
  pub deliver-public_key :
      (key : List ℕ)
      → pdu_of p.dev p.dev.state ≡ some (3 ∷ key)
      → length key ≡ 64
      → e.validate key ≡ true
      → ltb 6 (rank q.dev.state) ≡ false
      → deliver c e env after p q
        ≡ some (
          record (moved public_key q.dev.contents q) {
            share_secret = e.shared_secret key q.dev.private_key;
            public_key_remote = key;
          },
          notify_public_key key ∷ [],
        )
  unfolding pdu_process process_public_key
  deliver-public_key key sent len valid early =
      deliver_by c e env after p q 3 64 key _ _ sent len
        (rw (early, slice-append 64 key after len, valid) refl)

  pub deliver-confirmation :
      (cfm : List ℕ)
      → pdu_of p.dev p.dev.state ≡ some (5 ∷ cfm)
      → length cfm ≡ 16
      → ltb 8 (rank q.dev.state) ≡ false
      → deliver c e env after p q
        ≡ some (
          answer_confirmation env
              (record (moved confirmation q.dev.contents q) { confirmation_remote = cfm }),
          notify_confirmation cfm ∷ [],
        )
  unfolding pdu_process process_confirmation
  deliver-confirmation cfm sent len early =
      deliver_by c e env after p q 5 16 cfm _ _ sent len
        (rw (early, slice-append 16 cfm after len) refl)

  pub deliver-random :
      (rnd : List ℕ)
      → pdu_of p.dev p.dev.state ≡ some (6 ∷ rnd)
      → length rnd ≡ 16
      → ltb 9 (rank q.dev.state) ≡ false
      → (verify_confirmation c env.allocated (record q { random_remote = rnd })).0 ≡ true
      → deliver c e env after p q
        ≡ some (
          let v = (verify_confirmation c env.allocated (record q { random_remote = rnd })).1 in
              calculate_session_device_key c (answer_random env (moved random v.dev.contents v)),
          notify_random rnd ∷ [],
        )
  unfolding pdu_process process_random
  deliver-random rnd sent len early ok =
      deliver_by c e env after p q 6 16 rnd _ _ sent len
        (rw (early, slice-append 16 rnd after len, ok) refl)

  pub deliver-complete :
      pdu_of p.dev p.dev.state ≡ some (8 ∷ [])
      → ltb 11 (rank q.dev.state) ≡ false
      → deliver c e env after p q ≡ some (moved complete q.dev.contents q, notify_complete ∷ [])
  unfolding pdu_process process_complete
  deliver-complete sent early = deliver_by c e env after p q 8 0 [] _ _ sent refl (rw early refl)

  pub deliver-data :
      (text mic plain : List ℕ) (d : ProvData)
      → pdu_of p.dev p.dev.state ≡ some (7 ∷ (text ++ mic))
      → length text ≡ 25
      → length mic ≡ 8
      → ltb 10 (rank q.dev.state) ≡ false
      → c.ccm_decrypt q.session_key (drop 3 q.session_nonce) text mic ≡ (true, plain)
      → let q' =
          (prov_complete env (
            moved prov_data
              (record (q.dev.contents) { data_pdu = plain ++ drop 25 q.dev.contents.data_pdu })
              q)).1 in
        of_data q'.dev.contents.data_pdu ≡ some d
        → deliver c e env after p q ≡ some (q', notify_data d ∷ [])
  unfolding pdu_process
  deliver-data text mic plain d sent text_len mic_len early undone fits =
      deliver_by c e env after p q 7 33 (text ++ mic) _ _ sent
        (length-append text mic ∙ omega (arith, text_len, mic_len))
        (process_data-opened c env q after text mic plain d text_len mic_len early undone fits)
