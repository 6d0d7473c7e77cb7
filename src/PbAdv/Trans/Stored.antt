-- ===== src/PbAdv/Trans/Stored.antt =====
-- A segment of the right length that fits is stored.
use meshx.Base.{
  ℕ, ◌+◌, ◌-◌, ◌*◌, ◌%◌, ◌^◌, ◌≤◌, ◌≡◌, refl, ap, ◌∙◌, true, some, List, [], ◌++◌, length, take,
  take_all, ◌==◌, if◌then◌else◌, ◌>>=◌, arith,
}
use meshx.Base.Bits.{clear_bit}
use meshx.Base.Memory.{copy, copy-Copied}
use meshx.Base.Errno.{success}
use meshx.PbAdv.{Device, Env, start_max, continue_max}
use meshx.PbAdv.Trans.{Start, DeviceResult, finish_segment, store_start, store_continue}
use meshx.PbAdv.Trans.Faults.{with_fields}

-- The answer is a success, with the bytes at `offset`, and bit `index` is cleared in the device `d`
-- that has the new fields.
pub record Stored (env : Env) (index offset : ℕ) (bytes : List ℕ) (d : Device)
    (answer : DeviceResult) : Type 0 where
  pub block : List ℕ
  pub same_length : length block ≡ length d.rx_pdu
  pub start : take (offset + length bytes) block ≡ take offset d.rx_pdu ++ bytes
  pub eq :
      answer
      ≡ some (
        success,
        finish_segment env (record d { recv_seg = clear_bit d.recv_seg index; rx_pdu = block }),
        [],
      )

pub store_start-Stored :
    (env : Env) (p : Start) (d : Device)
    → length p.bytes ≡ (if p.last_seg_num == 0 then p.total_len else start_max)
    → length p.bytes ≤ length d.rx_pdu
    → Stored env 0 0 p.bytes (with_fields p d) (store_start env p d)
unfolding store_start
store_start-Stored env p d right room =
    let n = length p.bytes in
    let c = copy-Copied 0 n p.bytes d.rx_pdu (omega arith) (omega (arith, room)) in
    let same : (n == (if p.last_seg_num == 0 then p.total_len else start_max)) ≡ true =
      ground arith in
    record {
      block = c.after;
      same_length = c.same_length;
      start =
          ap (λ (n : ℕ). take n c.after) (omega arith)
          ∙ c.start
          ∙ take_all (length p.bytes) p.bytes (omega arith);
      eq = rw (same, c.eq, store_start) refl;
    }

pub store_continue-Stored :
    (env : Env) (index offset : ℕ) (bytes : List ℕ) (d : Device)
    → (start_max + continue_max * index + 2 ^ 16 - continue_max) % 2 ^ 16 ≡ offset
    → offset + length bytes ≤ length d.rx_pdu
    → Stored env index offset bytes d (store_continue env index bytes d)
unfolding store_continue
store_continue-Stored env index offset bytes d at room =
    let c = copy-Copied offset (length bytes) bytes d.rx_pdu (omega arith) room in
    record {
      block = c.after;
      same_length = c.same_length;
      start =
          c.start
          ∙ ap (λ l. take offset d.rx_pdu ++ l) (take_all (length bytes) bytes (omega arith));
      eq =
          ap
            (λ o. o >>= λ buf. some (
              success,
              finish_segment env (record d { recv_seg = clear_bit d.recv_seg index; rx_pdu = buf }),
              [],
            ))
            (ap (λ (x : ℕ). copy x (length bytes) bytes d.rx_pdu) at ∙ c.eq);
    }
