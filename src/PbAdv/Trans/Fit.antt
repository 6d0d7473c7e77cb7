-- ===== src/PbAdv/Trans/Fit.antt =====
-- Segments that stay inside the buffer.
use meshx.Base.{
  ℕ, ◌+◌, ◌-◌, ◌*◌, ◌%◌, ◌^◌, ◌<◌, ◌≤◌, ◌≡◌, refl, ◌∙◌, inl, inr, true, false, ◌||◌, some, List, [],
  ◌∷◌, length, ltb, ◌==◌, if◌then◌else◌, arith, Bool-cases,
}
use meshx.Base.Bits.{bit, clear_bit}
use meshx.Base.Memory.{copy-Copied}
use meshx.Base.Errno.{
  Ret, success, inval, already, diff, timing, length as bad_length, state as bad_state,
}
use meshx.PbAdv.Send.{trans_ack_pdu}
use meshx.PbAdv.{rank, Device, Out, adv, Env, start_max, continue_max, calc_seg_num}
use meshx.PbAdv.Timer.{request_trans_ack, start_delay}
use meshx.PbAdv.Trans.{
  Start, DeviceResult, recv_prov_pdu, finish_segment, prepare, store_start, recv_start,
  store_continue, required_len, recv_continue,
}

-- The buffer has its 65 bytes, and the length and the last segment of a transaction fit each other.
pub record IsValid (d : Device) : Type 0 where
  pub room : length d.rx_pdu ≡ 65
  pub short : d.trans_data_len ≤ 65
  pub segments :
      ((d.trans_data_len == 0) || (calc_seg_num d.trans_data_len == d.last_seg_num + 1)) ≡ true

-- A result that is no access out of bounds, with a device in such a state.
pub record Safe (r : DeviceResult) : Type 0 where
  pub ret : Ret
  pub after : Device
  pub out : List Out
  pub eq : r ≡ some (ret, after, out)
  pub valid : IsValid after

finish_segment-IsValid : (env : Env) (d : Device) → IsValid d → IsValid (finish_segment env d)
unfolding finish_segment recv_prov_pdu request_trans_ack start_delay
finish_segment-IsValid env d v = ground arith

store_start-Safe :
    (env : Env) (p : Start) (d : Device)
    → length d.rx_pdu ≡ 65
    → 0 < p.total_len
    → p.total_len ≤ 65
    → calc_seg_num p.total_len ≡ p.last_seg_num + 1
    → Safe (store_start env p d)
unfolding store_start
store_start-Safe env p d room pos short segs =
    let recv_len = length p.bytes in
    let need = if p.last_seg_num == 0 then p.total_len else start_max in
    let d' : Device = record d {
      trans_data_len = p.total_len;
      rx_trans_num = p.trans_num;
      last_seg_num = p.last_seg_num;
      fcs = p.fcs;
    } in
    let v : IsValid d' = record { room = room; short = short; segments = ground arith } in
    elim (Bool-cases (recv_len == need)) [
      | inr e ↦ record {
        ret = bad_length;
        after = d';
        out = [];
        eq = rw (e, store_start) refl;
        valid = v;
      }
      | inl e ↦
          let small : recv_len ≤ 65 = ground arith in
          let c =
            copy-Copied 0 recv_len p.bytes d.rx_pdu (omega arith) (omega (arith, small, room)) in
          let u : Device = record d' { recv_seg = clear_bit d.recv_seg 0; rx_pdu = c.after } in
          record {
            ret = success;
            after = finish_segment env u;
            out = [];
            eq = rw (e, c.eq, store_start) refl;
            valid =
                finish_segment-IsValid env u
                  (record { room = c.same_length ∙ room; short = short; segments = v.segments });
          }
    ]

-- A segment other than the first ends inside the data.
pub segment_end :
    (len last index : ℕ)
    → 0 < len
    → len ≤ 65
    → calc_seg_num len ≡ last + 1
    → index ≤ last
    → 0 < index
    → (start_max + continue_max * index + 2 ^ 16 - continue_max) % 2 ^ 16
        + (if ltb index last
            then continue_max
            else (len + 2 ^ 16 + continue_max - start_max - continue_max * last) % 256)
      ≤ 65
segment_end len last index pos short segs within first = ground arith

prepare-IsValid : (p : Start) (d : Device) → IsValid d → IsValid (prepare p d)
unfolding prepare
prepare-IsValid p d v = elim (Bool-cases (d.trans_data_len == 0)) [
  | inl e ↦ rw (e, prepare) (record { room = v.room; short = v.short; segments = v.segments })
  | inr e ↦ rw (e, prepare) v
]

required_end :
    (d : Device) (index : ℕ)
    → IsValid d
    → (d.trans_data_len == 0) ≡ false
    → ltb d.last_seg_num index ≡ false
    → 0 < index
    → (start_max + continue_max * index + 2 ^ 16 - continue_max) % 2 ^ 16 + required_len index d
      ≤ 65
unfolding required_len
required_end d index v some_data within first =
    segment_end d.trans_data_len d.last_seg_num index (ground arith) v.short (ground arith)
      (ground arith) first

-- Whatever start segment arrives, nothing is written out of bounds.
pub recv_start-Safe : (env : Env) (p : Start) (d : Device) → IsValid d → Safe (recv_start env p d)
unfolding recv_start
recv_start-Safe env p d v =
    let w = prepare-IsValid p d v in
    elim (Bool-cases (ltb (rank d.state) 2)) [
      | inl a ↦ record {
        ret = bad_state;
        after = d;
        out = [];
        eq = rw (a, recv_start) refl;
        valid = v;
      }
      | inr a ↦ elim (Bool-cases (d.acked_trans_num == p.trans_num)) [
        | inl b ↦ record {
          ret = success;
          after = d;
          out = adv d.bearer (trans_ack_pdu d.link_id d.acked_trans_num) ∷ [];
          eq = simp (a, b, recv_start) refl;
          valid = v;
        }
        | inr b ↦ elim (Bool-cases ((p.total_len == 0) || ltb 65 p.total_len)) [
          | inl c ↦ record {
            ret = bad_length;
            after = d;
            out = [];
            eq = rw (a, b, c, recv_start) refl;
            valid = v;
          }
          | inr c ↦ elim (Bool-cases (calc_seg_num p.total_len == p.last_seg_num + 1)) [
            | inr e ↦ record {
              ret = bad_length;
              after = d;
              out = [];
              eq = rw (a, b, c, e, recv_start) refl;
              valid = v;
            }
            | inl e ↦ elim (Bool-cases (bit (prepare p d).recv_seg 0 == 0)) [
              | inl f ↦ record {
                ret = already;
                after = prepare p d;
                out = [];
                eq = rw (a, b, c, e, f, recv_start) refl;
                valid = w;
              }
              | inr f ↦
                  let r =
                    store_start-Safe env p (prepare p d) w.room (ground arith) (ground arith)
                      (ground arith) in
                  record {
                    ret = r.ret;
                    after = r.after;
                    out = r.out;
                    eq = rw (a, b, c, e, f, recv_start) r.eq;
                    valid = r.valid;
                  }
            ]
          ]
        ]
      ]
    ]

store_continue-Safe :
    (env : Env) (index : ℕ) (bytes : List ℕ) (d : Device)
    → IsValid d
    → (start_max + continue_max * index + 2 ^ 16 - continue_max) % 2 ^ 16 + length bytes ≤ 65
    → Safe (store_continue env index bytes d)
unfolding store_continue
store_continue-Safe env index bytes d v fits =
    let c =
      copy-Copied ((start_max + continue_max * index + 2 ^ 16 - continue_max) % 2 ^ 16)
        (length bytes) bytes d.rx_pdu (omega arith) (omega (arith, fits, v.room)) in
    let u : Device = record d { recv_seg = clear_bit d.recv_seg index; rx_pdu = c.after } in
    record {
      ret = success;
      after = finish_segment env u;
      out = [];
      eq = rw (c.eq, store_continue) refl;
      valid =
          finish_segment-IsValid env u
            (record { room = c.same_length ∙ v.room; short = v.short; segments = v.segments });
    }

-- Nor by a segment with an index other than 0.
pub recv_continue-Safe :
    (env : Env) (trans_num index : ℕ) (bytes : List ℕ) (d : Device)
    → IsValid d
    → 0 < index
    → Safe (recv_continue env trans_num index bytes d)
unfolding recv_continue
recv_continue-Safe env trans_num index bytes d v first = elim (Bool-cases (ltb (rank d.state) 2)) [
  | inl a ↦ record {
    ret = bad_state;
    after = d;
    out = [];
    eq = rw (a, recv_continue) refl;
    valid = v;
  }
  | inr a ↦ elim (Bool-cases (d.acked_trans_num == trans_num)) [
    | inl b ↦ record {
      ret = success;
      after = d;
      out = adv d.bearer (trans_ack_pdu d.link_id d.acked_trans_num) ∷ [];
      eq = simp (a, b, recv_continue) refl;
      valid = v;
    }
    | inr b ↦ elim (Bool-cases (d.rx_trans_num == trans_num)) [
      | inr c ↦ record {
        ret = diff;
        after = d;
        out = [];
        eq = rw (a, b, c, recv_continue) refl;
        valid = v;
      }
      | inl c ↦ elim (Bool-cases (d.trans_data_len == 0)) [
        | inl e ↦ record {
          ret = timing;
          after = d;
          out = [];
          eq = simp (a, b, c, e, recv_continue) refl;
          valid = v;
        }
        | inr e ↦ elim (Bool-cases (ltb d.last_seg_num index)) [
          | inl f ↦ record {
            ret = inval;
            after = d;
            out = [];
            eq = rw (a, b, c, e, f, recv_continue) refl;
            valid = v;
          }
          | inr f ↦ elim (Bool-cases (bit d.recv_seg index == 0)) [
            | inl g ↦ record {
              ret = already;
              after = d;
              out = [];
              eq = rw (a, b, c, e, f, g, recv_continue) refl;
              valid = v;
            }
            | inr g ↦ elim (Bool-cases (length bytes == required_len index d)) [
              | inr h ↦ record {
                ret = bad_length;
                after = d;
                out = [];
                eq = rw (a, b, c, e, f, g, h, recv_continue) refl;
                valid = v;
              }
              | inl h ↦
                  let same : length bytes ≡ required_len index d = ground arith in
                  let fits = required_end d index v e f first in
                  let r = store_continue-Safe env index bytes d v (omega (arith, same, fits)) in
                  record {
                    ret = r.ret;
                    after = r.after;
                    out = r.out;
                    eq = rw (a, b, c, e, f, g, h, recv_continue) r.eq;
                    valid = r.valid;
                  }
            ]
          ]
        ]
      ]
    ]
  ]
]
