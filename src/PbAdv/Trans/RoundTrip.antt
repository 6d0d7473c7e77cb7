-- ===== src/PbAdv/Trans/RoundTrip.antt =====
-- The segments of pb_adv_send_trans received in order.
use meshx.Base.{
  ℕ, ◌-◌, ◌<◌, ◌≤◌, ◌≡◌, refl, ap, ◌∙◌, ◌⊎◌, inl, inr, true, some, List, [], ◌∷◌, ◌++◌, length,
  take, drop, take_all, take-append_drop, length-slice, length-append, length-take, leb, arith,
  Bool-cases,
}
use meshx.Base.Bits.{bit, ones, clear_bit}
use meshx.Base.Errno.{Ret, success}
use meshx.Crc.{crc}
use meshx.PbAdv.{Device, Out, adv, Env}
use meshx.PbAdv.Send.{send_trans}
use meshx.PbAdv.Timer.{request_trans_ack}
use meshx.PbAdv.Trans.{required_len}
use meshx.PbAdv.Trans.Seen.{
  Ready, at, start_pdu, continue_pdu, receive-start_pdu, start-Seen, continue-Seen,
}
use meshx.PbAdv.Trans.Sent.{
  accepted, sent_one, sent_two, sent_three, send_one, send_two, send_three,
}
use meshx.PbAdv.Trans.Arrive.{
  receive_all, receive_all-next, Received, finish-all, request_trans_ack-Received, Arrives,
  first_arrives, next_arrives, last_arrives,
}

Arrives-one :
    (env : Env) (refused : Ret) (bearer link tn : ℕ) (bytes : List ℕ) (d : Device)
    → Ready link tn d
    → 0 < length bytes
    → length bytes ≤ 20
    → Arrives env refused tn bytes (sent_one bearer link tn bytes) d
unfolding clear_bit ones receive_all
Arrives-one env refused bearer link tn bytes d ready least most =
    let n = length bytes in
    let s =
      start-Seen env link tn 0 n (crc bytes) bytes d ready least (omega arith) (ground arith) refl
        (omega arith) in
    let v = at tn 0 n (crc bytes) 0 s.block d in
    let u = request_trans_ack env.rand v in
    let received = request_trans_ack-Received env.rand link tn 0 s.block bytes d s.start in
    let eq =
      s.eq
      ∙ ap (λ x. some (success, x, [])) (finish-all env link tn 0 s.block bytes d ready s.start) in
    let e =
      receive-start_pdu env refused bearer link tn 0 n (crc bytes) bytes d u success []
        ready.link_word (omega arith) ready.same_link received.same_addr eq in
    (
      u,
      receive_all-next env refused bearer (start_pdu link tn 0 n (crc bytes) bytes) [] (d ∷ [])
          (u ∷ []) success [] e,
      received,
    )

Arrives-two :
    (env : Env) (refused : Ret) (bearer link tn : ℕ) (bytes : List ℕ) (d : Device)
    → Ready link tn d
    → 20 < length bytes
    → length bytes ≤ 43
    → Arrives env refused tn bytes (sent_two bearer link tn bytes) d
unfolding clear_bit ones bit required_len
Arrives-two env refused bearer link tn bytes d ready least most =
    let n = length bytes in
    let c = crc bytes in
    let part1 = take 20 bytes in
    let part2 = take (n - 20) (drop 20 bytes) in
    let len1 : length part1 ≡ 20 = omega (arith, least, length-take 20 bytes) in
    let len2 : length part2 ≡ n - 20 = length-slice 20 (n - 20) bytes (omega (arith, least)) in
    let whole : part1 ++ part2 ≡ bytes =
      take-append_drop 20 (n - 20) n bytes (omega (arith, least))
      ∙ take_all n bytes (omega arith) in
    let s1 =
      start-Seen env link tn 1 n c part1 d ready (omega (arith, least)) (omega (arith, most))
        (ground arith) len1 (omega (arith, len1)) in
    let need : length part2 ≡ required_len 1 (at tn 1 n c 2 s1.block d) =
      omega (arith, len2, least, most) in
    let s2 =
      continue-Seen env link tn 1 n c 2 0 part1 part2 s1.block d ready (omega (arith, least))
        (omega arith) refl len1 need (omega (arith, len1, len2, least, most)) s1.room s1.start in
    let (u, e, received) =
      last_arrives env refused bearer link tn 1 2 1 s1.block (part1 ++ part2) part2 bytes d ready
        whole s2 in
    let e1 =
      first_arrives env refused bearer link tn 1 n c 2 part1
        (adv bearer (continue_pdu link tn 1 part2) ∷ []) d ready (omega (arith, most)) refl s1 in
    (u, e1 ∙ e, received)

Arrives-three :
    (env : Env) (refused : Ret) (bearer link tn : ℕ) (bytes : List ℕ) (d : Device)
    → Ready link tn d
    → 43 < length bytes
    → length bytes ≤ 65
    → Arrives env refused tn bytes (sent_three bearer link tn bytes) d
unfolding clear_bit ones bit required_len
Arrives-three env refused bearer link tn bytes d ready least most =
    let n = length bytes in
    let c = crc bytes in
    let part1 = take 20 bytes in
    let part2 = take 23 (drop 20 bytes) in
    let part3 = take (n - 43) (drop 43 bytes) in
    let len1 : length part1 ≡ 20 = omega (arith, least, length-take 20 bytes) in
    let len2 : length part2 ≡ 23 = length-slice 20 23 bytes (omega (arith, least)) in
    let len3 : length part3 ≡ n - 43 = length-slice 43 (n - 43) bytes (omega (arith, least)) in
    let two : part1 ++ part2 ≡ take 43 bytes = take-append_drop 20 23 43 bytes refl in
    let len12 : length (part1 ++ part2) ≡ 43 =
      omega (arith, length-append part1 part2, len1, len2) in
    let whole : (part1 ++ part2) ++ part3 ≡ bytes =
      ap (λ l. l ++ part3) two
      ∙ take-append_drop 43 (n - 43) n bytes (omega (arith, least))
      ∙ take_all n bytes (omega arith) in
    let s1 =
      start-Seen env link tn 2 n c part1 d ready (omega (arith, least)) (omega (arith, most))
        (ground arith) len1 (omega (arith, len1)) in
    let s2 =
      continue-Seen env link tn 2 n c 6 0 part1 part2 s1.block d ready (omega (arith, least))
        (omega arith) refl len1 len2 (omega (arith, len1, len2)) s1.room s1.start in
    let need : length part3 ≡ required_len 2 (at tn 2 n c 4 s2.block d) =
      omega (arith, len3, least, most) in
    let s3 =
      continue-Seen env link tn 2 n c 4 1 (part1 ++ part2) part3 s2.block d ready
        (omega (arith, least)) (omega arith) refl len12 need
        (omega (arith, len12, len3, least, most)) s2.room s2.start in
    let (u, e, received) =
      last_arrives env refused bearer link tn 2 4 2 s2.block ((part1 ++ part2) ++ part3) part3 bytes
        d ready whole s3 in
    let last = adv bearer (continue_pdu link tn 2 part3) ∷ [] in
    let e1 =
      first_arrives env refused bearer link tn 2 n c 6 part1
        (adv bearer (continue_pdu link tn 1 part2) ∷ last) d ready (omega (arith, most)) refl s1 in
    let e2 =
      next_arrives env refused bearer link tn 2 n c 6 4 1 s1.block (part1 ++ part2) part2 last d
        ready refl s2 in
    (u, e1 ∙ e2 ∙ e, received)

le-cases : (a b : ℕ) → (a ≤ b) ⊎ (b < a)
le-cases a b = elim (Bool-cases (leb a b)) [
  | inl h ↦ inl (ground arith)
  | inr h ↦ inr (ground arith)
]

-- A PDU of 1 to 65 bytes is sent on a bearer that refuses nothing, and every segment is received in
-- order by a device of the link that waits for a transaction and has not acknowledged this number.
-- Then the device holds exactly those bytes under that number and waits for the time to acknowledge.
pub send_trans-receive :
    (env : Env) (refused : Ret) (bearer link tn : ℕ) (bytes : List ℕ) (d : Device)
    → Ready link tn d
    → 0 < length bytes
    → length bytes ≤ 65
    → (out : List Out) × (u : Device) × (send_trans accepted bearer link tn bytes
        ≡ some (true, out))
      × (receive_all env refused out (d ∷ []) ≡ some (u ∷ []))
      × Received tn bytes d u
send_trans-receive env refused bearer link tn bytes d ready least most =
    elim (le-cases (length bytes) 20) [
      | inl h ↦
          let (u, e, r) = Arrives-one env refused bearer link tn bytes d ready least h in
          (sent_one bearer link tn bytes, u, send_one bearer link tn bytes h, e, r)
      | inr h ↦ elim (le-cases (length bytes) 43) [
        | inl h' ↦
            let (u, e, r) = Arrives-two env refused bearer link tn bytes d ready h h' in
            (sent_two bearer link tn bytes, u, send_two bearer link tn bytes h h', e, r)
        | inr h' ↦
            let (u, e, r) = Arrives-three env refused bearer link tn bytes d ready h' most in
            (sent_three bearer link tn bytes, u, send_three bearer link tn bytes h' most, e, r)
      ]
    ]
