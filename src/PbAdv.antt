-- ===== src/PbAdv.antt =====
-- mesh/provision/meshx_pb_adv.c: provisioning over the advertising bearer.
-- `none` in a result is an abort by MESHX_ASSERT or an access out of bounds.
pub mod Send
pub mod Timer
pub mod Link
pub mod Trans
mod Tests
use meshx.Base.{
  ℕ, ◌+◌, ◌-◌, ◌*◌, ◌/◌, ◌%◌, ◌<◌, Bool, true, false, ◌&&◌, Option, none, some, List, [], ◌∷◌, ltb,
  leb, ◌==◌, if◌then◌else◌,
}
use meshx.Base.Bytes.{of_be32, bytes_eq}

-- `meshx_prov_state_t`; the C code compares its values by their order.
pub data State : Type 0 where
  idle link_opening link_opened invite capabilites start public_key input_complete confirmation
        random prov_data complete failed link_closing :
      State

abbrev pub rank : State → ℕ
rank idle = 0
rank link_opening = 1
rank link_opened = 2
rank invite = 3
rank capabilites = 4
rank start = 5
rank public_key = 6
rank input_complete = 7
rank confirmation = 8
rank random = 9
rank prov_data = 10
rank complete = 11
rank failed = 12
rank link_closing = 13

pub data Role : Type 0 where
  device provisioner : Role

-- MESHX_PB_ADV_TIMER_STATE_* and MESHX_PB_ADV_TIMER_DELAY_TYPE_*.
pub data TimerState : Type 0 where
  delay link_monitor retry : TimerState

pub data DelayType : Type 0 where
  trans_ack prov_pdu : DelayType

-- The parts of a provisioning PDU that the layer above fills in, as bytes.
pub record Contents : Type 0 where
  pub invite_pdu : List ℕ
  pub capabilites_pdu : List ℕ
  pub start_pdu : List ℕ
  pub public_key_pdu : List ℕ
  pub confirmation_pdu : List ℕ
  pub random_pdu : List ℕ
  pub data_pdu : List ℕ
  pub err_code : ℕ

-- `meshx_pb_adv_dev_t`. `addr` stands for its address, `timer` is the period of the running timer (0
-- if it is stopped), and `recv_seg` is the word whose bits are those of the bit field.
pub record Device : Type 0 where
  pub addr : ℕ
  pub id : ℕ
  pub role : Role
  pub dev_uuid : List ℕ
  pub bearer : ℕ
  pub state : State
  pub private_key : List ℕ
  pub contents : Contents
  pub link_id : ℕ
  pub tx_trans_num : ℕ
  pub rx_trans_num : ℕ
  pub acked_trans_num : ℕ
  pub retry_time : ℕ
  pub timer : ℕ
  pub timer_state : TimerState
  pub timer_delay_type : DelayType
  pub link_close_reason : ℕ
  pub last_seg_num : ℕ
  pub fcs : ℕ
  pub recv_seg : ℕ
  pub trans_data_len : ℕ
  pub rx_pdu : List ℕ

-- What a handler calls, in order: meshx_bearer_adv_send, meshx_prov_handle_notify with the three
-- types of notification, and meshx_prov_pdu_process with its data and their length.
pub data Out : Type 0 where
  adv : ℕ → List ℕ → Out
  link_open_result : ℕ → Bool → Out
  link_closed : ℕ → ℕ → Out
  trans_acked : ℕ → State → Out
  pdu_process : ℕ → List ℕ → ℕ → Out

-- What other code answers: meshx_bearer_adv_send for its n-th call in a handler, the absolute value
-- of meshx_rand, the node's UUID, meshx_malloc with the address, meshx_timer_create, and the
-- generators of keys and random numbers.
pub record Env : Type 0 where
  pub adv_ok : ℕ → Bool
  pub rand : ℕ
  pub node_uuid : List ℕ
  pub allocated : Bool
  pub new_addr : ℕ
  pub timer_created : Bool
  pub new_public_key : List ℕ
  pub new_private_key : List ℕ
  pub new_random : List ℕ

abbrev pub seg_num_max : ℕ
seg_num_max = 0x40

abbrev pub link_loss_time : ℕ
link_loss_time = 600000

abbrev pub link_open_retry_period : ℕ
link_open_retry_period = 200

abbrev pub link_close_retry_period : ℕ
link_close_retry_period = 20

abbrev pub link_close_time : ℕ
link_close_time = 90

abbrev pub trans_loss_time : ℕ
trans_loss_time = 30000

abbrev pub trans_retry_period : ℕ
trans_retry_period = 300

abbrev pub trans_data_valid_max_len : ℕ
trans_data_valid_max_len = 65

-- MESHX_PB_ADV_TRANS_START_PDU_MAX_LEN and MESHX_PB_ADV_TRANS_CONTINUE_PDU_MAX_LEN.
abbrev pub start_max : ℕ
start_max = 20

abbrev pub continue_max : ℕ
continue_max = 23

abbrev pub is_valid_device_trans_num : ℕ → Bool
is_valid_device_trans_num n = leb 0x80 n && leb n 0xff

abbrev pub is_valid_provisioner_trans_num : ℕ → Bool
is_valid_provisioner_trans_num n = leb n 0x7f

-- meshx_pb_adv_rand, with the result in a `uint8_t`.
abbrev pub delay_period : ℕ → ℕ
delay_period r = if ltb (r % 50) 20 then r % 50 + 20 else r % 50

abbrev pub calc_seg_num : ℕ → ℕ
calc_seg_num len =
    if leb len start_max then 1 else ((len - start_max + continue_max - 1) / continue_max + 1) % 256

-- meshx_timer_start
abbrev pub timer_start : ℕ → Device → Device
timer_start period d = record d { timer = period }

-- A received PDU: the link, the transaction, the two fields of the third part's first byte and what
-- follows. A PDU of less than six bytes is read out of bounds.
pub record Pkt : Type 0 where
  pub link_id : ℕ
  pub trans_num : ℕ
  pub gpcf : ℕ
  pub field : ℕ
  pub rest : List ℕ

pub parse : List ℕ → Option Pkt
parse (a ∷ b ∷ c ∷ d ∷ t ∷ g ∷ rest) =
    some (record {
      link_id = of_be32 a b c d;
      trans_num = t;
      gpcf = g % 4;
      field = g / 4;
      rest = rest;
    })
parse _ = none

-- meshx_find_prov_dev_by_link_id: when no device has the link, the last one.
unfoldable pub find_by_link_id : ℕ → List Device → Option Device
find_by_link_id l [] = none
find_by_link_id l (d ∷ ds) =
    if d.link_id == l then some d else elim ds [ [] ↦ some d | _ ↦ find_by_link_id l ds ]

-- meshx_pb_adv_find_device
unfoldable pub find_device : ℕ → List ℕ → List Device → Option Device
find_device bearer uuid [] = none
find_device bearer uuid (d ∷ ds) =
    if bytes_eq d.dev_uuid uuid && (d.bearer == bearer) then some d else find_device bearer uuid ds

-- Assignments through the pointer to a device in the list.
unfoldable pub put : Device → List Device → List Device
put u [] = []
put u (d ∷ ds) = if d.addr == u.addr then u ∷ ds else d ∷ put u ds

-- meshx_pb_adv_is_device_valid, with the device.
pub find : ℕ → List Device → Option Device
find a [] = none
find a (d ∷ ds) = if d.addr == a then some d else find a ds
