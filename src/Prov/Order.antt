-- ===== src/Prov/Order.antt =====
-- How each type of PDU is answered: the states are taken in their order, and an error ends the provisioning.
use mathlib.Core.Path.{subst}
use meshx.Base.{
  ℕ, ◌≤◌, min, ◌≡◌, ◌≢◌, refl, true, false, not, Bool, Bool-cases, inl, inr, none, some, List, [],
  ◌∷◌, take, drop, ◌==◌, ◌%◌, ltb, arith,
}
use meshx.Base.Errno.{Ret, success, fail}
use meshx.Security.{Ciphers}
use meshx.PbAdv.{State, rank, failed, prov_data}
use meshx.PbAdv.Timer.{
  start_delay, request_failed, request_random, request_confirmation, request_complete,
  dev_require_trans_num, role_require_trans_num, prov_require_trans_num,
}
use meshx.Prov.{ProvDev, ProvEnv, Ecc, moved, of_start, of_data, of_capabilites, slice}
use meshx.Prov.Auth.{validate_capabilites, validate_start, is_start_supported}
use meshx.Prov.Confirm.{generate_confirmation, verify_confirmation, calculate_session_device_key}
use meshx.Prov.Send.{prov_failed, prov_random, prov_confirmation, prov_complete}
use meshx.Prov.Ensures.{Ensures, if-Ensures, bind-Ensures}
use meshx.Prov.Process.{
  ProcessResult, Notify, checked, process_invite, process_capabilites, process_start,
  process_public_key, process_input_complete, process_confirmation, process_random, process_data,
  process_complete, process_failed, open_data, pdu_process,
}

-- The states are taken in their order, except that a closing link may still fail.
abbrev pub Later : State → State → Type 0
Later s t = min (rank s) 12 ≤ rank t

-- The outcome of a PDU that is received in state `s`.
pub record Answered (s : State) (r : Ret) (p : ProvDev) (out : List Notify) : Type 0 where
  pub later : Later s p.dev.state
  pub refused : r ≢ success → 3 ≤ rank s → rank s ≢ 11 → (p.dev.state ≡ failed) × (out ≡ [])

pub prov_failed-Later :
    (env : ProvEnv) (p : ProvDev) (err : ℕ) → Later p.dev.state (prov_failed env p err).1.dev.state
unfolding prov_failed request_failed start_delay dev_require_trans_num
prov_failed-Later env p err = ground arith

prov_failed-failed :
    (env : ProvEnv) (p : ProvDev) (err : ℕ)
    → 3 ≤ rank p.dev.state
    → rank p.dev.state ≢ 11
    → (prov_failed env p err).1.dev.state ≡ failed
unfolding prov_failed request_failed start_delay dev_require_trans_num
prov_failed-failed env p err h k = ground arith

prov_failed-Answered :
    (env : ProvEnv) (p : ProvDev) (err : ℕ) (r : Ret)
    → Answered p.dev.state r (prov_failed env p err).1 []
prov_failed-Answered env p err r = record {
  later = prov_failed-Later env p err;
  refused = λ e h k. (prov_failed-failed env p err h k, refl);
}

accepted :
    {s : State} {p : ProvDev} {out : List Notify} → Later s p.dev.state → Answered s success p out
accepted h = record { later = h; refused = λ e. absurd (e refl) }

checked-Answered :
    (env : ProvEnv) (size last : ℕ) (p : ProvDev) (len : ℕ) (rest : ProcessResult)
    → (rank p.dev.state ≤ last → Ensures (Answered p.dev.state) rest)
    → Ensures (Answered p.dev.state) (checked env size last p len rest)
checked-Answered env size last p len rest h =
    if-Ensures (ltb len size) (Answered p.dev.state) _ _ (λ e. prov_failed-Answered env p 2 _)
      (λ e.
        if-Ensures (ltb last (rank p.dev.state)) (Answered p.dev.state) _ _
          (λ e. prov_failed-Answered env p 3 _) (λ e. h (ground (arith, e))))

verify_confirmation-state :
    (c : Ciphers) (a : Bool) (q : ProvDev) → (verify_confirmation c a q).1.dev.state ≡ q.dev.state
unfolding verify_confirmation generate_confirmation
verify_confirmation-state c true q = refl
verify_confirmation-state c false q = refl

module _ (env : ProvEnv) (p : ProvDev) (len : ℕ) (bytes : List ℕ) where
  process_invite-Answered : Ensures (Answered p.dev.state) (process_invite env p len bytes)
  unfolding process_invite
  process_invite-Answered =
      checked-Answered env 2 3 p len _
        (λ h. bind-Ensures (slice 1 bytes) (Answered p.dev.state) _ (λ b. accepted (ground arith)))

  process_capabilites-Answered :
      Ensures (Answered p.dev.state) (process_capabilites env p len bytes)
  unfolding process_capabilites
  process_capabilites-Answered = checked-Answered env 12 4 p len _ (λ h.
      bind-Ensures (slice 11 bytes) (Answered p.dev.state) _ (λ b.
        bind-Ensures (of_capabilites b) (Answered p.dev.state) _ (λ caps.
          if-Ensures (not (validate_capabilites caps)) (Answered p.dev.state) _ _
            (λ e. prov_failed-Answered env p 2 _) (λ e. accepted (ground arith)))))

  process_start-Answered : Ensures (Answered p.dev.state) (process_start env p len bytes)
  unfolding process_start
  process_start-Answered = checked-Answered env 6 5 p len _ (λ h.
      bind-Ensures (slice 5 bytes) (Answered p.dev.state) _ (λ b.
        bind-Ensures (of_start b) (Answered p.dev.state) _ (λ s.
          if-Ensures (not (validate_start s)) (Answered p.dev.state) _ _
            (λ e. prov_failed-Answered env p 2 _)
            (λ e.
              bind-Ensures (of_capabilites p.dev.contents.capabilites_pdu) (Answered p.dev.state) _
                (λ caps.
                  if-Ensures (not (is_start_supported caps s)) (Answered p.dev.state) _ _
                    (λ e. prov_failed-Answered env p 5 _) (λ e. accepted (ground arith)))))))

  process_public_key-Answered :
      (e : Ecc) → Ensures (Answered p.dev.state) (process_public_key e env p len bytes)
  unfolding process_public_key
  process_public_key-Answered e = checked-Answered env 65 6 p len _ (λ h.
      bind-Ensures (slice 64 bytes) (Answered p.dev.state) _ (λ b.
        if-Ensures (not (e.validate b)) (Answered p.dev.state) _ _
          (λ e. prov_failed-Answered env p 2 _) (λ e. accepted (ground arith))))

  process_confirmation-Answered :
      Ensures (Answered p.dev.state) (process_confirmation env p len bytes)
  unfolding process_confirmation prov_random request_random prov_confirmation request_confirmation
      start_delay role_require_trans_num dev_require_trans_num prov_require_trans_num
  process_confirmation-Answered =
      checked-Answered env 17 8 p len _
        (λ h. bind-Ensures (slice 16 bytes) (Answered p.dev.state) _ (λ b. accepted (ground arith)))

  process_random-Answered :
      (c : Ciphers) → Ensures (Answered p.dev.state) (process_random c env p len bytes)
  unfolding process_random prov_random request_random start_delay role_require_trans_num
      dev_require_trans_num prov_require_trans_num calculate_session_device_key
  process_random-Answered c = checked-Answered env 17 9 p len _ (λ h.
      bind-Ensures (slice 16 bytes) (Answered p.dev.state) _ (λ b.
        let v = verify_confirmation c env.allocated (record p { random_remote = b }) in
        if-Ensures (not v.0) (Answered p.dev.state) _ _
          (λ e.
            let same = verify_confirmation-state c env.allocated (record p { random_remote = b }) in
            subst (λ s. Answered s fail (prov_failed env v.1 4).1 []) same
              (prov_failed-Answered env v.1 4 fail))
          (λ e. accepted (ground arith))))

  process_data-Answered :
      (c : Ciphers) → Ensures (Answered p.dev.state) (process_data c env p len bytes)
  unfolding process_data prov_complete request_complete start_delay dev_require_trans_num
  process_data-Answered c = checked-Answered env 34 10 p len _ (λ h.
      bind-Ensures (slice 33 bytes) (Answered p.dev.state) _ (λ b.
        let o = open_data c p (take 25 b) (drop 25 b) in
        if-Ensures (not o.0) (Answered p.dev.state) _ _ (λ e. prov_failed-Answered env o.1 6 _)
          (λ e.
            bind-Ensures
              (of_data
                (prov_complete env (moved prov_data o.1.dev.contents o.1)).1.dev.contents.data_pdu)
              (Answered p.dev.state) _ (λ d. accepted (ground arith)))))

  process_input_complete-Answered :
      Ensures (Answered p.dev.state) (process_input_complete env p len)
  unfolding process_input_complete
  process_input_complete-Answered = checked-Answered env 1 7 p len _ (λ h. accepted (ground arith))

  process_complete-Answered : Ensures (Answered p.dev.state) (process_complete env p len)
  unfolding process_complete
  process_complete-Answered = checked-Answered env 1 11 p len _ (λ h. accepted (ground arith))

  process_failed-Later :
      Ensures (λ r p' out. Later p.dev.state p'.dev.state) (process_failed p len bytes)
  unfolding process_failed
  process_failed-Later = ground arith

-- The type of a PDU.
abbrev pub type_of : List ℕ → ℕ
type_of [] = 9
type_of (t ∷ bytes) = t % 64

pub pdu_process-Answered :
    (c : Ciphers) (e : Ecc) (env : ProvEnv) (p : ProvDev) (bytes : List ℕ) (len : ℕ)
    → (type_of bytes == 9) ≡ false
    → Ensures (Answered p.dev.state) (pdu_process c e env p bytes len)
unfolding pdu_process
pdu_process-Answered c e env p [] len other = tt
pdu_process-Answered c e env p (t ∷ bytes) len other =
    if-Ensures (t % 64 == 0) (Answered p.dev.state) _ _
      (λ h. process_invite-Answered env p len bytes)
      (λ h.
        if-Ensures (t % 64 == 1) (Answered p.dev.state) _ _
          (λ h. process_capabilites-Answered env p len bytes)
          (λ h.
            if-Ensures (t % 64 == 2) (Answered p.dev.state) _ _
              (λ h. process_start-Answered env p len bytes)
              (λ h.
                if-Ensures (t % 64 == 3) (Answered p.dev.state) _ _
                  (λ h. process_public_key-Answered env p len bytes e)
                  (λ h.
                    if-Ensures (t % 64 == 4) (Answered p.dev.state) _ _
                      (λ h. process_input_complete-Answered env p len bytes)
                      (λ h.
                        if-Ensures (t % 64 == 5) (Answered p.dev.state) _ _
                          (λ h. process_confirmation-Answered env p len bytes)
                          (λ h.
                            if-Ensures (t % 64 == 6) (Answered p.dev.state) _ _
                              (λ h. process_random-Answered env p len bytes c)
                              (λ h.
                                if-Ensures (t % 64 == 7) (Answered p.dev.state) _ _
                                  (λ h. process_data-Answered env p len bytes c)
                                  (λ h.
                                    if-Ensures (t % 64 == 8) (Answered p.dev.state) _ _
                                      (λ h. process_complete-Answered env p len bytes)
                                      (λ h.
                                        if-Ensures (t % 64 == 9) (Answered p.dev.state) _ _
                                          (λ h. absurd (ground (arith, h, other)))
                                          (λ h. prov_failed-Answered env p 1 _))))))))))

Ensures-Later :
    (s : State) (x : ProcessResult)
    → Ensures (Answered s) x
    → Ensures (λ r p out. Later s p.dev.state) x
Ensures-Later s none h = tt
Ensures-Later s (some (r, p, out)) h = h.later

pdu_process-failed :
    (c : Ciphers) (e : Ecc) (env : ProvEnv) (p : ProvDev) (bytes : List ℕ) (len : ℕ)
    → (type_of bytes == 9) ≡ true
    → Ensures (λ r p' out. Later p.dev.state p'.dev.state) (pdu_process c e env p bytes len)
unfolding pdu_process
pdu_process-failed c e env p [] len h = tt
pdu_process-failed c e env p (t ∷ bytes) len h =
    let last : t % 64 ≡ 9 = ground (arith, h) in rw last (process_failed-Later env p len bytes)

pub pdu_process-Later :
    (c : Ciphers) (e : Ecc) (env : ProvEnv) (p : ProvDev) (bytes : List ℕ) (len : ℕ)
    → Ensures (λ r p' out. Later p.dev.state p'.dev.state) (pdu_process c e env p bytes len)
pdu_process-Later c e env p bytes len = elim (Bool-cases (type_of bytes == 9)) [
  | inl h ↦ pdu_process-failed c e env p bytes len h
  | inr h ↦ Ensures-Later p.dev.state _ (pdu_process-Answered c e env p bytes len h)
]

-- A PDU other than a failure that is answered with an error, once the provisioning has begun and as long as
-- it is not complete: the provisioning has failed, and the application is told nothing of the PDU.
pub pdu_process-failed_state :
    (c : Ciphers) (e : Ecc) (env : ProvEnv) (p p' : ProvDev) (bytes : List ℕ) (len : ℕ) (r : Ret)
    (out : List Notify)
    → pdu_process c e env p bytes len ≡ some (r, p', out)
    → r ≢ success
    → type_of bytes ≢ 9
    → 3 ≤ rank p.dev.state
    → rank p.dev.state ≢ 11
    → (p'.dev.state ≡ failed) × (out ≡ [])
pdu_process-failed_state c e env p p' bytes len r out run wrong other begun going =
    let t : (type_of bytes == 9) ≡ false = ground (arith, other) in
    (subst (Ensures (Answered p.dev.state)) run
        (pdu_process-Answered c e env p bytes len t)).refused
      wrong begun going
