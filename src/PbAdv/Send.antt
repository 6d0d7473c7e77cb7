-- ===== src/PbAdv/Send.antt =====
-- The PDUs that are sent.
use meshx.Base.{
  ℕ, zero, suc, ◌+◌, ◌-◌, ◌*◌, ◌%◌, ◌^◌, Bool, true, false, Option, none, some, List, [], ◌∷◌, ◌++◌,
  length, take, drop, leb, ◌==◌, if◌then◌else◌, ◌>>=◌,
}
use meshx.Base.Bytes.{be16, be32}
use meshx.Crc.{crc}
use meshx.PbAdv.{
  State, idle, link_opening, link_opened, invite, capabilites, start, public_key, input_complete,
  confirmation, random, prov_data, complete, failed, link_closing, Device, Out, adv, seg_num_max,
  start_max, continue_max, calc_seg_num,
}

-- The PDUs of bearer control and the acknowledgement of a transaction.
abbrev pub link_open_pdu : ℕ → List ℕ → List ℕ
link_open_pdu link uuid = be32 link ++ (0 ∷ 3 ∷ uuid)

abbrev pub link_ack_pdu : ℕ → List ℕ
link_ack_pdu link = be32 link ++ (0 ∷ 7 ∷ [])

abbrev pub link_close_pdu : ℕ → ℕ → List ℕ
link_close_pdu link reason = be32 link ++ (0 ∷ 11 ∷ reason ∷ [])

abbrev pub trans_ack_pdu : ℕ → ℕ → List ℕ
trans_ack_pdu link trans_num = be32 link ++ (trans_num ∷ 1 ∷ [])

-- Segment `index` of a transaction, and the length of its data.
abbrev pub seg_len : ℕ → ℕ → ℕ → ℕ → ℕ
seg_len index seg_num offset len =
    if index == 0
    then (if seg_num == 1 then len % 256 else start_max)
    else if seg_num == index + 1
    then (len + 2 ^ 16 - offset) % 256
    else continue_max

abbrev pub seg_header : ℕ → ℕ → List ℕ → List ℕ
seg_header index seg_num pdu =
    if index == 0
    then ((seg_num - 1) % 64 * 4 ∷ (be16 (length pdu) ++ (crc pdu ∷ [])))
    else ((2 + index % 64 * 4) ∷ [])

-- The loop of pb_adv_send_trans, with `n` rounds left. It stops when the bearer refuses a segment,
-- and the flag says that it did not.
unfoldable pub send_from : (ℕ → Bool) → ℕ → ℕ → ℕ → ℕ → ℕ → ℕ → ℕ → List ℕ → Bool × List Out
send_from adv_ok zero index seg_num offset bearer link trans_num pdu = (true, [])
send_from adv_ok (suc n) index seg_num offset bearer link trans_num pdu =
    let len = seg_len index seg_num offset (length pdu) in
    let bytes =
      be32 link ++ (trans_num ∷ (seg_header index seg_num pdu ++ take len (drop offset pdu))) in
    elim (adv_ok index) [
      | false ↦ (false, adv bearer bytes ∷ [])
      | true ↦
          let (done, out) =
            send_from adv_ok n (suc index) seg_num ((offset + len) % 256) bearer link trans_num
              pdu in
          (done, adv bearer bytes ∷ out)
    ]

-- pb_adv_send_trans
unfoldable pub send_trans : (ℕ → Bool) → ℕ → ℕ → ℕ → List ℕ → Option (Bool × List Out)
send_trans adv_ok bearer link trans_num pdu =
    let seg_num = calc_seg_num (length pdu) in
    if leb seg_num seg_num_max
    then some (send_from adv_ok seg_num 0 seg_num 0 bearer link trans_num pdu)
    else none

-- The provisioning PDU of a state: pb_adv_invite, pb_adv_capabilites, pb_adv_start, pb_adv_public_key,
-- pb_adv_input_complete, pb_adv_confirmation, pb_adv_random, pb_adv_data, pb_adv_complete and
-- pb_adv_failed. Any other state is an assertion.
unfoldable pub pdu_of : Device → State → Option (List ℕ)
pdu_of d invite = some (0 ∷ d.contents.invite_pdu)
pdu_of d capabilites = some (1 ∷ d.contents.capabilites_pdu)
pdu_of d start = some (2 ∷ d.contents.start_pdu)
pdu_of d public_key = some (3 ∷ d.contents.public_key_pdu)
pdu_of d input_complete = some (4 ∷ [])
pdu_of d confirmation = some (5 ∷ d.contents.confirmation_pdu)
pdu_of d random = some (6 ∷ d.contents.random_pdu)
pdu_of d prov_data = some (7 ∷ d.contents.data_pdu)
pdu_of d complete = some (8 ∷ [])
pdu_of d failed = some (9 ∷ d.contents.err_code ∷ [])
pdu_of d idle = none
pdu_of d link_opening = none
pdu_of d link_opened = none
pdu_of d link_closing = none

-- The PDU of the device's state, under its current transaction number.
unfoldable pub send_state_pdu : (ℕ → Bool) → Device → Option (List Out)
send_state_pdu adv_ok d = pdu_of d d.state >>= λ pdu.
    send_trans adv_ok d.bearer d.link_id d.tx_trans_num pdu >>= λ (done, out). some out
