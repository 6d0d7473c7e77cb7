-- ===== src/Iv/Trace/Pending.antt =====
-- The flag for a pending transition, which a busy lower transport leaves.
use meshx.Base.{ℕ, ◌≡◌, Bool, true, some, List, [], ◌∷◌, arith, Option-cases, inl, inr}
use meshx.Base.Errno.{Ret}
use meshx.Iv.{
  State, UpdateState, normal, in_progress, tick, update, apply, transit, update_state_set,
}
use meshx.Iv.Trace.{Event, beacon, timer, acknowledge, send, finish, Nonce, step, run}

apply-pending :
    (busy : Bool) (d : ℕ) (u : UpdateState) (s t : State)
    → s.iv.transit_pending ≡ true
    → apply busy d u s ≡ some t
    → t.iv.transit_pending ≡ true
unfolding apply
apply-pending busy d normal s t p e = ground arith
apply-pending busy d in_progress s t p e = ground arith

update-pending :
    (busy : Bool) (n : ℕ) (u : UpdateState) (s t : State) (r : Ret)
    → s.iv.transit_pending ≡ true
    → update busy n u s ≡ some (r, t)
    → t.iv.transit_pending ≡ true
unfolding update
update-pending busy n normal s t r p e = ground arith
update-pending busy n in_progress s t r p e = ground arith

tick-pending :
    (busy : Bool) (s t : State)
    → s.iv.transit_pending ≡ true
    → tick busy s ≡ some t
    → t.iv.transit_pending ≡ true
unfolding tick
tick-pending busy s t p e = ground arith

step-pending :
    (i : ℕ) (e : Event) (s t : State) (out : List Nonce)
    → s.iv.transit_pending ≡ true
    → step i e s ≡ some (out, t)
    → t.iv.transit_pending ≡ true
unfolding step
step-pending i (beacon busy n u) s t out p e = elim (Option-cases (update busy n u s)) [
  | inl none_yet ↦ ground (arith)
  | inr ((r, t'), f) ↦ ground (arith, update-pending busy n u s t' r p f)
]
step-pending i (timer busy) s t out p e = elim (Option-cases (tick busy s)) [
  | inl none_yet ↦ ground (arith)
  | inr (t', f) ↦ ground (arith, tick-pending busy s t' p f)
]
step-pending i (acknowledge j) s t out p e = ground arith
step-pending i (send j n) s t out p e = ground arith
step-pending i finish s t out p e = unfold transit update_state_set in ground arith

run-pending :
    (i : ℕ) (es : List Event) (s t : State) (out : List Nonce)
    → s.iv.transit_pending ≡ true
    → run i es s ≡ some (out, t)
    → t.iv.transit_pending ≡ true
unfolding run
run-pending i [] s t out p e = ground arith
run-pending i (x ∷ es) s t out p e = elim (Option-cases (step i x s)) [
  | inl stuck ↦ ground arith
  | inr ((o, s'), f) ↦ elim (Option-cases (run i es s')) [
    | inl stuck ↦ ground arith
    | inr ((o', t'), g) ↦ ground (arith, run-pending i es s' t' o' (step-pending i x s s' o p f) g)
  ]
]

-- Once the flag for a pending transition is set, no sequence of events takes it back: whatever has
-- happened since, the next end of a transmission makes the state NORMAL, and changes nothing else.
pub pending_ends_updates :
    (i : ℕ) (es : List Event) (s t : State) (out : List Nonce)
    → s.iv.transit_pending ≡ true
    → run i es s ≡ some (out, t)
    → transit t.iv ≡ record (t.iv) { update_state = normal }
unfolding transit
pending_ends_updates i es s t out p e = ground (arith, run-pending i es s t out p e)
