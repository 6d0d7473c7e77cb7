-- ===== src/LowerTrans/Rx/Receive/Faults.antt =====
-- What the missing segments of an earlier message lead to.
use meshx.Base.{
  ℕ, ◌+◌, ◌*◌, ◌/◌, ◌%◌, ◌<◌, ◌≡◌, refl, ◌∙◌, inl, inr, Bool, true, false, none, some, List, [],
  ◌∷◌, ◌++◌, length, ◌==◌, arith, Bool-cases,
}
use meshx.Base.Bits.{bit, bit-ne_zero}
use meshx.Base.Memory.{copy-none}
use meshx.LowerTrans.Pdu.{MsgCtx}
use meshx.LowerTrans.Segment.{Config, max_seg_size}
use meshx.LowerTrans.Rx.{RxTask, Rx, Env, find_src, request, request_new, set_up}
use meshx.LowerTrans.Rx.Receive.{
  Segment, parse, matches, store_segment, receive_multiple, receive_checked, receive_parsed,
  receive_seg_msg,
}
use meshx.LowerTrans.Rx.Receive.Bits.{bit-set_ones_le}

matches_refl : (c : MsgCtx) → matches c c ≡ true
matches_refl c = elim (Bool-cases c.ctl) [
  | inl e ↦ rw e (ground arith)
  | inr e ↦ rw e (ground arith)
]

seg_count_back :
    (ctl : Bool) (segn : ℕ)
    → segn < 32
    → (segn + 1) * max_seg_size ctl / max_seg_size ctl % 256 ≡ segn + 1
seg_count_back true segn h = omega (arith, h)
seg_count_back false segn h = omega (arith, h)

seg_end :
    (ctl : Bool) (segn sego : ℕ)
    → segn < sego
    → (segn + 1) * max_seg_size ctl < sego * max_seg_size ctl + max_seg_size ctl
seg_end true segn sego h = omega (arith, h)
seg_end false segn sego h = omega (arith, h)

-- A segment behind the last one does not fit the block.
store_segment-none :
    (len : ℕ) (g : Segment) (t : RxTask)
    → g.segn < g.sego
    → length t.pdu ≡ (g.segn + 1) * max_seg_size g.ctx.ctl
    → store_segment len g t ≡ none
unfolding store_segment
store_segment-none len g t behind room =
    let other : (g.sego == g.segn) ≡ false = ground arith in
    let size = max_seg_size g.ctx.ctl in
    let far : length t.pdu < g.sego * size + size =
      rw room (seg_end g.ctx.ctl g.segn g.sego behind) in
    rw (other, copy-none (g.sego * size) size g.bytes t.pdu far) refl

-- The checks let a segment of the task's message pass if its bit is missing.
receive_checked-none :
    (cfg : Config) (len : ℕ) (g : Segment) (t : RxTask) (s : Rx)
    → matches t.ctx g.ctx ≡ true
    → t.max_pdu_len ≡ (g.segn + 1) * max_seg_size g.ctx.ctl
    → bit t.not_received_seg g.sego ≡ 1
    → 0 < g.segn
    → store_segment len g t ≡ none
    → receive_checked cfg len g t s ≡ none
unfolding receive_checked receive_multiple
receive_checked-none cfg len g t s same size missing several full =
    let some_missing = bit-ne_zero t.not_received_seg g.sego missing in
    let this_missing : (bit t.not_received_seg g.sego == 0) ≡ false = ground arith in
    let more : (g.segn == 0) ≡ false = ground arith in
    let fits : (t.max_pdu_len == (g.segn + 1) * max_seg_size g.ctx.ctl) ≡ true = ground arith in
    rw (same, fits, some_missing, this_missing, more, full) refl

request-new :
    (env : Env) (max_pdu_len : ℕ) (ctx : MsgCtx) (s : Rx) (t : RxTask) (rest : List RxTask)
    (block : List ℕ)
    → find_src ctx.src s.active ≡ none
    → s.idle ≡ t ∷ rest
    → env ≡ record { ack_timer = true; incomplete_timer = true; memory = some block }
    → request env max_pdu_len ctx s ≡ (
      some (set_up max_pdu_len ctx block t),
      record s { idle = rest; active = s.active ++ (set_up max_pdu_len ctx block t ∷ []) },
    )
unfolding request request_new
request-new env max_pdu_len ctx s t rest block new task e =
    rw e (simp (new, task, request, request_new) refl)

-- A segment of a new message, for which a task is taken that still misses a segment of an earlier
-- message with the same number, above the new message's last: the bit is not reset, so that the
-- segment passes every check and is written behind the end of the block.
pub stale_overflow :
    (cfg : Config) (env : Env) (behind pdata : List ℕ) (ctx : MsgCtx) (s : Rx) (g : Segment)
    (t : RxTask) (rest : List RxTask) (block : List ℕ)
    → parse behind pdata ctx ≡ some g
    → find_src g.ctx.src s.active ≡ none
    → s.idle ≡ t ∷ rest
    → env ≡ record { ack_timer = true; incomplete_timer = true; memory = some block }
    → length block ≡ (g.segn + 1) * max_seg_size g.ctx.ctl
    → 0 < g.segn
    → g.segn < g.sego
    → g.sego < 32
    → bit t.not_received_seg g.sego ≡ 1
    → receive_seg_msg cfg env behind pdata ctx s ≡ none
unfolding receive_seg_msg receive_parsed set_up
stale_overflow cfg env behind pdata ctx s g t rest block p new task e room several beyond small
      stale =
    let u = set_up ((g.segn + 1) * max_seg_size g.ctx.ctl) g.ctx block t in
    let back = seg_count_back g.ctx.ctl g.segn (omega (arith, beyond, small)) in
    let missing : bit u.not_received_seg g.sego ≡ 1 =
      rw back
        (bit-set_ones_le (g.segn + 1) t.not_received_seg g.sego (omega (arith, beyond)) ∙ stale) in
    let full : store_segment (length pdata) g u ≡ none =
      store_segment-none (length pdata) g u beyond room in
    let asked =
      request-new env ((g.segn + 1) * max_seg_size g.ctx.ctl) g.ctx s t rest block new task e in
    let s' : Rx = (request env ((g.segn + 1) * max_seg_size g.ctx.ctl) g.ctx s).1 in
    let checked =
      receive_checked-none cfg (length pdata) g u s' (matches_refl g.ctx) refl missing several
        full in
    let parsed : receive_parsed cfg env (length pdata) s g ≡ none =
      rw (asked, receive_parsed) checked in
    rw (p, receive_seg_msg) parsed
