-- ===== src/PbAdv/Trans/Faults.antt =====
-- What a start segment of a wrong length leads to: its fields are stored before the length is checked.
use meshx.Base.{
  ℕ, ◌+◌, ◌-◌, ◌*◌, ◌%◌, ◌^◌, ◌<◌, ◌≡◌, ◌≢◌, refl, ap, ◌∙◌, true, false, ◌||◌, none, some, List, [],
  length, ltb, ◌==◌, if◌then◌else◌, arith,
}
use meshx.Base.Bits.{bit, ones, bit-ones_lt}
use meshx.Base.Memory.{copy-none}
use meshx.Base.Errno.{length as bad_length}
use meshx.PbAdv.{rank, Device, Env, start_max, continue_max, calc_seg_num}
use meshx.PbAdv.Trans.{
  Start, prepare, store_start, recv_start, store_continue, required_len, recv_continue,
}

abbrev pub with_fields : Start → Device → Device
with_fields p d = record d {
  trans_data_len = p.total_len;
  rx_trans_num = p.trans_num;
  last_seg_num = p.last_seg_num;
  fcs = p.fcs;
}

-- The device after a start segment of a wrong length.
abbrev pub spoiled : Start → Device → Device
spoiled p d = record d {
  recv_seg = ones (p.last_seg_num + 1);
  trans_data_len = p.total_len;
  rx_trans_num = p.trans_num;
  last_seg_num = p.last_seg_num;
  fcs = p.fcs;
}

-- A start segment that a device in a link takes, but for the number of its bytes.
pub record Taken (p : Start) (d : Device) : Type 0 where
  pub opened : ltb (rank d.state) 2 ≡ false
  pub new : (d.acked_trans_num == p.trans_num) ≡ false
  pub total : ((p.total_len == 0) || ltb 65 p.total_len) ≡ false
  pub segments : (calc_seg_num p.total_len == p.last_seg_num + 1) ≡ true

pub first-ones : (n : ℕ) → (bit (ones (n + 1)) 0 == 0) ≡ false
first-ones n = ground (arith, bit-ones_lt (n + 1) 0 (omega arith))

pub prepare-fresh :
    (p : Start) (d : Device)
    → d.trans_data_len ≡ 0
    → prepare p d ≡ record d { recv_seg = ones (p.last_seg_num + 1) }
unfolding prepare
prepare-fresh p d fresh =
    let none_yet : (d.trans_data_len == 0) ≡ true = ground arith in simp (none_yet, prepare) refl

-- The checks of a taken segment pass if the first segment is missing.
pub recv_start-Taken :
    (env : Env) (p : Start) (d : Device)
    → Taken p d
    → (bit (prepare p d).recv_seg 0 == 0) ≡ false
    → recv_start env p d ≡ store_start env p (prepare p d)
unfolding recv_start
recv_start-Taken env p d t first = rw (t.opened, t.new, t.total, t.segments, first, recv_start) refl

store_start-spoiled :
    (env : Env) (p : Start) (d : Device)
    → length p.bytes ≢ (if p.last_seg_num == 0 then p.total_len else start_max)
    → store_start env p d ≡ some (bad_length, with_fields p d, [])
unfolding store_start
store_start-spoiled env p d wrong =
    let differs : (length p.bytes == (if p.last_seg_num == 0 then p.total_len else start_max))
        ≡ false =
      ground arith in
    rw (differs, store_start) refl

pub recv_start-spoiled :
    (env : Env) (p : Start) (d : Device)
    → Taken p d
    → d.trans_data_len ≡ 0
    → length p.bytes ≢ (if p.last_seg_num == 0 then p.total_len else start_max)
    → recv_start env p d ≡ some (bad_length, spoiled p d, [])
recv_start-spoiled env p d t fresh wrong =
    let prep = prepare-fresh p d fresh in
    let first : (bit (prepare p d).recv_seg 0 == 0) ≡ false = rw prep (first-ones p.last_seg_num) in
    recv_start-Taken env p d t first
    ∙ store_start-spoiled env p (prepare p d) wrong
    ∙ ap (λ x. some (bad_length, with_fields p x, [])) prep

store_first-none :
    (env : Env) (bytes : List ℕ) (d : Device)
    → length d.rx_pdu ≡ 65
    → store_continue env 0 bytes d ≡ none
unfolding store_continue
store_first-none env bytes d room =
    rw
      (
        copy-none ((start_max + continue_max * 0 + 2 ^ 16 - continue_max) % 2 ^ 16) (length bytes)
            bytes d.rx_pdu (omega (arith, room)),
        store_continue,
      )
      refl

required_len-first : (d : Device) → 0 < d.last_seg_num → required_len 0 d ≡ continue_max
unfolding required_len
required_len-first d more =
    let before : ltb 0 d.last_seg_num ≡ true = ground arith in rw (before, required_len) refl

recv_first-none :
    (env : Env) (p : Start) (d : Device) (bytes : List ℕ)
    → Taken p d
    → 0 < p.last_seg_num
    → length bytes ≡ continue_max
    → length d.rx_pdu ≡ 65
    → recv_continue env p.trans_num 0 bytes (spoiled p d) ≡ none
unfolding recv_continue
recv_first-none env p d bytes t more whole room =
    let u = spoiled p d in
    let same : (p.trans_num == p.trans_num) ≡ true = ground arith in
    let some_data : (p.total_len == 0) ≡ false = let h = t.total in ground arith in
    let within : ltb p.last_seg_num 0 ≡ false = ground arith in
    let fits : (length bytes == required_len 0 u) ≡ true =
      rw (required_len-first u more) (ground arith) in
    rw (t.opened, t.new, same, some_data, within, first-ones p.last_seg_num, fits, recv_continue)
      (store_first-none env bytes u room)

-- Two PDUs that anyone in the link may send make a device write behind its buffer: the first segment
-- of a transaction of several segments with a wrong number of bytes, which is refused but leaves its
-- fields behind, and then a continuation with index 0 and 23 bytes, whose offset wraps round below 0.
pub first_overflow :
    (env : Env) (p : Start) (bytes : List ℕ) (d : Device)
    → Taken p d
    → d.trans_data_len ≡ 0
    → 0 < p.last_seg_num
    → length p.bytes ≢ start_max
    → length bytes ≡ continue_max
    → length d.rx_pdu ≡ 65
    → (u : Device) × (recv_start env p d ≡ some (bad_length, u, []))
      × (recv_continue env p.trans_num 0 bytes u ≡ none)
first_overflow env p bytes d t fresh more wrong whole room =
    let several : (p.last_seg_num == 0) ≡ false = ground arith in
    (
      spoiled p d,
      recv_start-spoiled env p d t fresh (rw several wrong),
      recv_first-none env p d bytes t more whole room,
    )
