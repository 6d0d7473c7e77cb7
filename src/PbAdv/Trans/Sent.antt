-- ===== src/PbAdv/Trans/Sent.antt =====
-- What pb_adv_send_trans sends, by the number of segments.
use meshx.Base.{
  ℕ, ◌+◌, ◌-◌, ◌%◌, ◌^◌, ◌<◌, ◌≤◌, ◌≡◌, refl, Bool, true, some, List, [], ◌∷◌, length, take, drop,
  take_all, arith,
}
use meshx.Crc.{crc}
use meshx.PbAdv.{Out, adv, calc_seg_num}
use meshx.PbAdv.Send.{send_from, send_trans}
use meshx.PbAdv.Trans.Seen.{start_pdu, continue_pdu}

-- What pb_adv_send_trans sends.
abbrev pub accepted : ℕ → Bool
accepted n = true

abbrev pub sent_one : ℕ → ℕ → ℕ → List ℕ → List Out
sent_one bearer link tn bytes =
    adv bearer (start_pdu link tn 0 (length bytes) (crc bytes) bytes) ∷ []

pub send_one :
    (bearer link tn : ℕ) (bytes : List ℕ)
    → length bytes ≤ 20
    → send_trans accepted bearer link tn bytes ≡ some (true, sent_one bearer link tn bytes)
unfolding send_trans send_from
send_one bearer link tn bytes most =
    let segs : calc_seg_num (length bytes) ≡ 1 = ground arith in
    let whole : take (length bytes % 256) bytes ≡ bytes =
      take_all (length bytes % 256) bytes (omega (arith, most)) in
    rw (segs, whole) refl

abbrev pub sent_two : ℕ → ℕ → ℕ → List ℕ → List Out
sent_two bearer link tn bytes =
    adv bearer (start_pdu link tn 1 (length bytes) (crc bytes) (take 20 bytes))
    ∷ adv bearer (continue_pdu link tn 1 (take (length bytes - 20) (drop 20 bytes)))
    ∷ []

pub send_two :
    (bearer link tn : ℕ) (bytes : List ℕ)
    → 20 < length bytes
    → length bytes ≤ 43
    → send_trans accepted bearer link tn bytes ≡ some (true, sent_two bearer link tn bytes)
unfolding send_trans send_from
send_two bearer link tn bytes least most =
    let segs : calc_seg_num (length bytes) ≡ 2 = ground arith in
    let rest : (length bytes + 2 ^ 16 - 20) % 256 ≡ length bytes - 20 =
      omega (arith, least, most) in
    rw (segs, rest) refl

abbrev pub sent_three : ℕ → ℕ → ℕ → List ℕ → List Out
sent_three bearer link tn bytes =
    adv bearer (start_pdu link tn 2 (length bytes) (crc bytes) (take 20 bytes))
    ∷ adv bearer (continue_pdu link tn 1 (take 23 (drop 20 bytes)))
    ∷ adv bearer (continue_pdu link tn 2 (take (length bytes - 43) (drop 43 bytes)))
    ∷ []

pub send_three :
    (bearer link tn : ℕ) (bytes : List ℕ)
    → 43 < length bytes
    → length bytes ≤ 65
    → send_trans accepted bearer link tn bytes ≡ some (true, sent_three bearer link tn bytes)
unfolding send_trans send_from
send_three bearer link tn bytes least most =
    let segs : calc_seg_num (length bytes) ≡ 3 = ground arith in
    let rest : (length bytes + 2 ^ 16 - 43) % 256 ≡ length bytes - 43 =
      omega (arith, least, most) in
    rw (segs, rest) refl
