-- ===== src/PbAdv/Trans.antt =====
-- Receiving the segments of a transaction.
pub mod Fit
pub mod Faults
pub mod Stored
pub mod Stuck
pub mod Unmoved
pub mod Bounds
pub mod Seen
pub mod Sent
pub mod Arrive
pub mod RoundTrip
use meshx.Base.{
  ℕ, ◌+◌, ◌-◌, ◌*◌, ◌%◌, ◌^◌, ◌<◌, Bool, true, false, not, ◌&&◌, ◌||◌, Option, none, some, List, [],
  ◌∷◌, length, take, ltb, leb, ◌==◌, if◌then◌else◌, ◌>>=◌,
}
use meshx.Base.Bits.{bit, ones, clear_bit}
use meshx.Base.Bytes.{of_be16}
use meshx.Base.Memory.{copy}
use meshx.Base.Errno.{
  Ret, success, inval, length as bad_length, already, diff, timing, state as bad_state,
}
use meshx.Crc.{crc}
use meshx.PbAdv.{
  failed, rank, Device, Out, adv, link_monitor, trans_acked, Env, Pkt, parse, start_max,
  continue_max, link_loss_time, trans_data_valid_max_len, calc_seg_num, timer_start,
  find_by_link_id, put,
}
use meshx.PbAdv.Send.{trans_ack_pdu}
use meshx.PbAdv.Timer.{request_trans_ack}
use meshx.PbAdv.Link.{Result, recv_bearer_ctl}

-- meshx_pb_adv_recv_prov_pdu, whose answer is not looked at.
unfoldable pub recv_prov_pdu : Env → Device → Device
recv_prov_pdu env d =
    if rank d.state == 12
    then d
    else if not (crc (take d.trans_data_len d.rx_pdu) == d.fcs)
    then record d { trans_data_len = 0 }
    else request_trans_ack env.rand d

-- meshx_pb_adv_is_recv_all_trans_seg, and what follows it.
unfoldable pub finish_segment : Env → Device → Device
finish_segment env d = if d.recv_seg == 0 then recv_prov_pdu env d else d

-- Handling a PDU for one device: the answer, the device and what is sent.
abbrev pub DeviceResult : Type 0
DeviceResult = Option (Ret × Device × List Out)

-- The fields of a start segment.
pub record Start : Type 0 where
  pub trans_num : ℕ
  pub last_seg_num : ℕ
  pub total_len : ℕ
  pub fcs : ℕ
  pub bytes : List ℕ

-- meshx_pb_adv_recv_trans_start from the copying of the fields on; the lengths are checked after it.
unfoldable pub store_start : Env → Start → Device → DeviceResult
store_start env p d =
    let recv_len = length p.bytes in
    let d' : Device = record d {
      trans_data_len = p.total_len;
      rx_trans_num = p.trans_num;
      last_seg_num = p.last_seg_num;
      fcs = p.fcs;
    } in
    if not (recv_len == (if p.last_seg_num == 0 then p.total_len else start_max))
    then some (bad_length, d', [])
    else (copy 0 recv_len p.bytes d.rx_pdu >>= λ buf. some (
      success,
      finish_segment env (record d' { recv_seg = clear_bit d.recv_seg 0; rx_pdu = buf }),
      [],
    ))

-- The bits of all segments are set when no data have been received.
unfoldable pub prepare : Start → Device → Device
prepare p d = if d.trans_data_len == 0 then record d { recv_seg = ones (p.last_seg_num + 1) } else d

-- The part of meshx_pb_adv_recv_trans_start that is about the device.
unfoldable pub recv_start : Env → Start → Device → DeviceResult
recv_start env p d =
    if ltb (rank d.state) 2
    then some (bad_state, d, [])
    else if d.acked_trans_num == p.trans_num
    then some (success, d, adv d.bearer (trans_ack_pdu d.link_id d.acked_trans_num) ∷ [])
    else if (p.total_len == 0) || ltb trans_data_valid_max_len p.total_len
    then some (bad_length, d, [])
    else if not (calc_seg_num p.total_len == p.last_seg_num + 1)
    then some (bad_length, d, [])
    else if bit (prepare p d).recv_seg 0 == 0
    then some (already, prepare p d, [])
    else store_start env p (prepare p d)

-- The part of meshx_pb_adv_recv_trans_continue after its checks. The offset is a `uint16_t`.
unfoldable pub store_continue : Env → ℕ → List ℕ → Device → DeviceResult
store_continue env index bytes d =
    copy ((start_max + continue_max * index + 2 ^ 16 - continue_max) % 2 ^ 16) (length bytes) bytes
      d.rx_pdu
    >>= λ buf. some (
      success,
      finish_segment env (record d { recv_seg = clear_bit d.recv_seg index; rx_pdu = buf }),
      [],
    )

-- The length that segment `index` must have; that of the last one is a `uint8_t`.
unfoldable pub required_len : ℕ → Device → ℕ
required_len index d =
    if ltb index d.last_seg_num
    then continue_max
    else (d.trans_data_len + 2 ^ 16 + continue_max - start_max - continue_max * d.last_seg_num)
      % 256

unfoldable pub recv_continue : Env → ℕ → ℕ → List ℕ → Device → DeviceResult
recv_continue env trans_num index bytes d =
    if ltb (rank d.state) 2
    then some (bad_state, d, [])
    else if d.acked_trans_num == trans_num
    then some (success, d, adv d.bearer (trans_ack_pdu d.link_id d.acked_trans_num) ∷ [])
    else if not (d.rx_trans_num == trans_num)
    then some (diff, d, [])
    else if d.trans_data_len == 0
    then some (timing, d, [])
    else if ltb d.last_seg_num index
    then some (inval, d, [])
    else if bit d.recv_seg index == 0
    then some (already, d, [])
    else if not (length bytes == required_len index d)
    then some (bad_length, d, [])
    else store_continue env index bytes d

-- The part of meshx_pb_adv_recv_trans_ack that is about the device.
unfoldable pub recv_ack : ℕ → Device → DeviceResult
recv_ack trans_num d =
    if not (d.tx_trans_num == trans_num)
    then some (diff, d, [])
    else some (
      success,
      timer_start link_loss_time (record d { retry_time = 0; timer_state = link_monitor }),
      trans_acked d.addr d.state ∷ [],
    )

-- A PDU for the device with the link.
unfoldable pub for_device : ℕ → (Device → DeviceResult) → List Device → Result
for_device link f ds = elim (find_by_link_id link ds) [
  | none ↦ some (inval, ds, [])
  | some d ↦ f d >>= λ (r, d', out). some (r, put d' ds, out)
]

unfoldable pub recv_trans_start : Env → Pkt → List Device → Result
recv_trans_start env p ds = elim p.rest [
  | h ∷ l ∷ c ∷ bytes ↦
      for_device p.link_id
        (recv_start env (record {
          trans_num = p.trans_num;
          last_seg_num = p.field;
          total_len = of_be16 h l;
          fcs = c;
          bytes = bytes;
        }))
        ds
  | _ ↦ some (bad_length, ds, [])
]

unfoldable pub recv_trans_continue : Env → Pkt → List Device → Result
recv_trans_continue env p ds =
    for_device p.link_id (recv_continue env p.trans_num p.field p.rest) ds

unfoldable pub recv_trans_ack : Pkt → List Device → Result
recv_trans_ack p ds = for_device p.link_id (recv_ack p.trans_num) ds

-- meshx_pb_adv_receive of a PDU on an advertising bearer.
unfoldable pub receive : Env → Ret → ℕ → List ℕ → List Device → Result
receive env refused bearer pdata ds = parse pdata >>= λ p.
    if p.gpcf == 0
    then recv_trans_start env p ds
    else if p.gpcf == 1
    then recv_trans_ack p ds
    else if p.gpcf == 2
    then recv_trans_continue env p ds
    else recv_bearer_ctl env refused bearer (length pdata) p ds
