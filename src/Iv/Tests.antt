-- ===== src/Iv/Tests.antt =====
-- Runs of the IV index at concrete states.
use meshx.Base.{◌≡◌, refl, true, false, none, some, List, [], ◌∷◌, arith}
use meshx.Base.Errno.{success, resource}
use meshx.Seq.{Seqs}
use meshx.Rpl
use meshx.Rpl.{Rpl}
use meshx.Iv.{
  State, normal, in_progress, init, deinit, tx_get, index_set, operate_time_set, test_mode_enable,
  transit, tick, next_tick,
}
use meshx.Iv.Phase.{IsValid, cleared}
use meshx.Iv.Update.{Advanced, update_refines}
use meshx.Iv.Timing.{idle_ticks, returns_to_normal}
use meshx.Iv.Trace.{Event, beacon, timer, acknowledge, send, finish, step, run}
use meshx.Iv.Trace.Pending.{pending_ends_updates}
use meshx.Iv.Nonce.Run.{Ran, run-Ran}

abbrev seqs : Seqs
seqs = record { seq_array = some (4 ∷ 9 ∷ []); element_num = 2 }

abbrev rpl : Rpl
rpl = record { rpl_array = none; rpl_index = 0; rpl_size = 0 }

-- IV index 5 in normal operation, with 48 weeks on the counter.
abbrev settled : State
settled = record {
  iv = record {
    iv_index = 5;
    update_state = normal;
    test_mode = false;
    transit_pending = false;
    tick_time = 24192;
    has_timer = true;
  };
  seqs = seqs;
  rpl = rpl;
}

-- Two ticks before the end of an update.
abbrev updating : State
updating = record settled {
  iv = record (settled.iv) { update_state = in_progress; tick_time = 430 };
}

settled-IsValid : IsValid settled
settled-IsValid = record {
  seqs = (refl, omega arith);
  array = 4 ∷ 9 ∷ [];
  present = refl;
  word = omega arith;
  started = λ e. cc;
}

updating-IsValid : IsValid updating
updating-IsValid = record {
  seqs = (refl, omega arith);
  array = 4 ∷ 9 ∷ [];
  present = refl;
  word = omega arith;
  started = λ e. omega arith;
}

tx_get_tests : (tx_get settled.iv ≡ 5) × (tx_get updating.iv ≡ 4)
unfolding tx_get
tx_get_tests = (refl, refl)

setters :
    test_mode_enable true (operate_time_set 2400 (index_set 7 (deinit settled.iv)))
    ≡ record (deinit settled.iv) { iv_index = 7; tick_time = 2; test_mode = true }
unfolding test_mode_enable operate_time_set index_set deinit
setters = refl

init_tests : ((init true settled.iv).0 ≡ success) × ((init false settled.iv).0 ≡ resource)
unfolding init
init_tests = (refl, refl)

update_refines_example : Advanced true 6 in_progress settled
update_refines_example =
    update_refines true 6 in_progress settled settled-IsValid (omega arith) (omega arith)

returns_to_normal_example :
    idle_ticks 2 updating
    ≡ some (record updating {
      iv = record (updating.iv) { update_state = normal; tick_time = 0 };
      seqs = cleared seqs;
      rpl = Rpl.clear rpl;
    })
returns_to_normal_example = returns_to_normal 1 updating updating-IsValid refl refl

abbrev script : List Event
script =
    acknowledge 0
    ∷ beacon false 6 in_progress
    ∷ send 0 5
    ∷ timer true
    ∷ beacon false 6 normal
    ∷ send 0 5
    ∷ acknowledge 0
    ∷ finish
    ∷ []

run-Ran_example : Ran 0 script settled
run-Ran_example = run-Ran 0 script settled settled-IsValid (omega arith) (omega arith)

-- The lower transport was busy when the update was due.
abbrev pending : State
pending = record updating { iv = record (updating.iv) { transit_pending = true } }

-- A tick and the end of a transmission later, in the next update.
abbrev later : State
later = record pending { iv = record (pending.iv) { update_state = normal; tick_time = 431 } }

later_run : run 0 (timer true ∷ finish ∷ []) pending ≡ some ([], later)
unfolding run step tick next_tick transit
later_run = refl

pending_ends_updates_example : transit later.iv ≡ record (later.iv) { update_state = normal }
pending_ends_updates_example =
    pending_ends_updates 0 (timer true ∷ finish ∷ []) pending later [] refl later_run
