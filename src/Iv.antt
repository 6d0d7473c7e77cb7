-- ===== src/Iv.antt =====
-- mesh/node/meshx_iv_index.c: the IV index, its update procedure, and the clearing of the sequence
-- numbers and of the replay protection list that goes with it.
-- `none` in a result is an abort by MESHX_ASSERT in meshx_seq_clear.
pub mod Phase
pub mod Branches
pub mod Update
pub mod Timing
pub mod Trace
pub mod Nonce
mod Tests
use meshx.Base.{
  ℕ, ◌+◌, ◌-◌, ◌*◌, ◌/◌, ◌%◌, ◌^◌, Bool, true, false, not, ◌&&◌, ◌||◌, Option, none, some, ltb, leb,
  ◌==◌, if◌then◌else◌, ◌>>=◌,
}
use meshx.Base.Errno.{Ret, success, inval, max, resource, timing}
use meshx.Seq
use meshx.Seq.{Seqs}
use meshx.Rpl
use meshx.Rpl.{Rpl}

-- `meshx_iv_update_state_t`
pub data UpdateState : Type 0 where
  normal in_progress : UpdateState

-- MESHX_IV_OPERATE_TICK_PERIOD and the times counted in ticks.
abbrev pub tick_period : ℕ
tick_period = 1200

abbrev pub tick_96h : ℕ
tick_96h = 288

abbrev pub tick_144h : ℕ
tick_144h = 432

abbrev pub tick_48w : ℕ
tick_48w = 24192

abbrev pub max_diff : ℕ
max_diff = 42

-- The static variables of the file; `has_timer` is that the tick timer exists.
pub record Iv : Type 0 where
  pub iv_index : ℕ
  pub update_state : UpdateState
  pub test_mode : Bool
  pub transit_pending : Bool
  pub tick_time : ℕ
  pub has_timer : Bool

-- The IV index with the two modules that it clears.
pub record State : Type 0 where
  pub iv : Iv
  pub seqs : Seqs
  pub rpl : Rpl

-- `created` is whether meshx_timer_create made a timer.
pub init : Bool → Iv → Ret × Iv
init created v =
    if created
    then (success, record v { has_timer = true })
    else (resource, record v { has_timer = false })

pub deinit : Iv → Iv
deinit v = record {
  iv_index = 0;
  update_state = normal;
  test_mode = false;
  transit_pending = false;
  tick_time = 0;
  has_timer = false;
}

-- `!state` on the enumeration.
abbrev pub is_normal : UpdateState → ℕ
is_normal normal = 1
is_normal in_progress = 0

abbrev pub is_in_progress : UpdateState → Bool
is_in_progress normal = false
is_in_progress in_progress = true

-- "return to normal state"
to_normal : State → Option State
to_normal s = Seq.clear s.seqs >>= λ q. some (record s {
  iv = record (s.iv) { update_state = normal; tick_time = 0 };
  seqs = q;
  rpl = Rpl.clear s.rpl;
})

pend : State → State
pend s = record s { iv = record (s.iv) { transit_pending = true } }

-- The tick counter stops at 48 weeks.
next_tick : ℕ → ℕ
next_tick t = if ltb t tick_48w then t + 1 else t

-- meshx_iv_index_async_handle_timeout; `busy` is the answer of meshx_is_lower_trans_busy.
pub tick : Bool → State → Option State
unfolding to_normal pend next_tick
tick busy s =
    let s' : State = record s { iv = record (s.iv) { tick_time = next_tick s.iv.tick_time } } in
    if leb tick_144h (next_tick s.iv.tick_time) && is_in_progress s.iv.update_state
    then (if busy then some (pend s') else to_normal s')
    else some s'

-- meshx_iv_index_tx_get: `uint32_t`.
pub tx_get : Iv → ℕ
tx_get v = if is_in_progress v.update_state then (v.iv_index + 2 ^ 32 - 1) % 2 ^ 32 else v.iv_index

pub index_set : ℕ → Iv → Iv
index_set n v = record v { iv_index = n }

pub update_state_set : UpdateState → Iv → Iv
update_state_set u v = record v { update_state = u }

pub operate_time_set : ℕ → Iv → Iv
operate_time_set time v = record v { tick_time = time / tick_period }

pub test_mode_enable : Bool → Iv → Iv
test_mode_enable flag v = record v { test_mode = flag }

-- `int32_t distance = iv_index - meshx_iv_index`, as its 32-bit pattern.
pub distance : ℕ → Iv → ℕ
distance n v = (n + 2 ^ 32 - v.iv_index) % 2 ^ 32

-- `(distance << 1) + !state - !meshx_iv_update_state`, in two's complement.
pub steps : ℕ → UpdateState → Iv → ℕ
steps n u v = (distance n v * 2 + is_normal u + 2 ^ 32 - is_normal v.update_state) % 2 ^ 32

-- Signed comparisons on 32-bit patterns: above the constant 42, and not above 0.
abbrev above_max_diff : ℕ → Bool
above_max_diff d = ltb d (2 ^ 31) && ltb max_diff d

abbrev not_positive : ℕ → Bool
not_positive d = d == 0 || leb (2 ^ 31) d

-- "iv recovery procedure"
recover : UpdateState → State → Option State
recover u s = Seq.clear s.seqs >>= λ q. some (record s {
  iv = record (s.iv) { update_state = u; tick_time = tick_96h };
  seqs = q;
  rpl = Rpl.clear s.rpl;
})

-- The end of meshx_iv_index_update, behind the assignment of the index.
pub apply : Bool → ℕ → UpdateState → State → Option State
unfolding to_normal pend recover
apply busy d u s = elim (d == 1) [
  | true ↦ elim u [
    | normal ↦ if busy then some (pend s) else to_normal s
    | in_progress ↦ some (record s { iv = record (s.iv) { update_state = in_progress } })
  ]
  | false ↦ recover u s
]

-- meshx_iv_index_update. The comparison of the tick counter with the time needed is unsigned.
pub update : Bool → ℕ → UpdateState → State → Option (Ret × State)
unfolding apply distance steps
update busy n u s =
    if ltb n s.iv.iv_index
    then some (inval, s)
    else if above_max_diff (distance n s.iv)
    then some (max, s)
    else if not_positive (steps n u s.iv)
    then some (success, s)
    else if not s.iv.test_mode && ltb s.iv.tick_time (steps n u s.iv * tick_96h % 2 ^ 32)
    then some (timing, s)
    else (apply busy (steps n u s.iv) u (record s { iv = record (s.iv) { iv_index = n } }) >>= λ t.
        some (success, t))

-- What meshx_lower_trans_tx_task_finish does to the IV index.
unfoldable pub transit : Iv → Iv
unfolding update_state_set
transit v = if v.transit_pending then update_state_set normal v else v
