-- ===== src/LowerTrans/Rx/Receive/Order.antt =====
-- The segments of a message, stored in order in a new task.
use meshx.Base.{
  ℕ, zero, suc, ◌+◌, ◌-◌, ◌*◌, ◌%◌, ◌^◌, ◌≤◌, ◌<◌, ◌≡◌, refl, ap, ◌∙◌, Bool, true, false, Option,
  some, List, [], ◌∷◌, ◌++◌, length, take, drop, ◌==◌, if◌then◌else◌, arith, length-take,
  length-drop, take-append-drop, append_assoc, take_all,
}
use meshx.Base.Bits.{set_bit, clear_bit}
use meshx.Base.Memory.{copy-Copied}
use meshx.LowerTrans.Pdu.{MsgCtx}
use meshx.LowerTrans.Segment.{max_seg_size}
use meshx.LowerTrans.Rx.{RxTask, set_up}
use meshx.LowerTrans.Rx.Receive.{Segment, store_segment}
use meshx.LowerTrans.Rx.Receive.Bits.{store_all}

-- The segments that meshx_lower_trans_send_seg_msg cuts a message into, from segment `i` on, with
-- `n` more after it. The length is that of the PDU, four bytes more than the data.
pub cut : MsgCtx → ℕ → ℕ → ℕ → List ℕ → List (ℕ × Segment)
cut ctx segn zero i rest =
    (length rest + 4, record { ctx = ctx; sego = i; segn = segn; bytes = rest }) ∷ []
cut ctx segn (suc n) i rest =
    (
      max_seg_size ctx.ctl + 4,
      record { ctx = ctx; sego = i; segn = segn; bytes = take (max_seg_size ctx.ctl) rest },
    )
    ∷ cut ctx segn n (suc i) (drop (max_seg_size ctx.ctl) rest)

-- What storing `n` bytes of a segment does.
record Written (n len : ℕ) (g : Segment) (t : RxTask) : Type 0 where
  after : RxTask
  eq : store_segment len g t ≡ some after
  same_length : length after.pdu ≡ length t.pdu
  start :
      take (g.sego * max_seg_size g.ctx.ctl + n) after.pdu
      ≡ take (g.sego * max_seg_size g.ctx.ctl) t.pdu ++ take n g.bytes
  pdu_len : after.pdu_len ≡ t.pdu_len + n

store_segment-Written :
    (n len : ℕ) (g : Segment) (t : RxTask)
    → (if g.sego == g.segn then (len + 2 ^ 8 - 4) % 2 ^ 8 else max_seg_size g.ctx.ctl) ≡ n
    → n ≤ length g.bytes
    → g.sego * max_seg_size g.ctx.ctl + n ≤ length t.pdu
    → t.pdu_len + n < 2 ^ 16
    → Written n len g t
unfolding store_segment
store_segment-Written n len g t size fits room short =
    let c = copy-Copied (g.sego * max_seg_size g.ctx.ctl) n g.bytes t.pdu fits room in
    record {
      after = record t {
        pdu = c.after;
        not_received_seg = clear_bit t.not_received_seg g.sego;
        block_ack = set_bit t.block_ack g.sego;
        pdu_len = (t.pdu_len + n) % 2 ^ 16;
      };
      eq = rw (size, c.eq, store_segment) refl;
      same_length = c.same_length;
      start = c.start;
      pdu_len = omega (arith, short);
    }

size_bounds : (ctl : Bool) → (0 < max_seg_size ctl) × (max_seg_size ctl ≤ 12)
size_bounds true = (omega arith, omega arith)
size_bounds false = (omega arith, omega arith)

suc_size : (ctl : Bool) (n : ℕ) → suc n * max_seg_size ctl ≡ n * max_seg_size ctl + max_seg_size ctl
suc_size true n = omega arith
suc_size false n = omega arith

suc_size_add :
    (ctl : Bool) (n : ℕ) → (n + 1) * max_seg_size ctl ≡ n * max_seg_size ctl + max_seg_size ctl
suc_size_add true n = omega arith
suc_size_add false n = omega arith

below : (ctl : Bool) (n k : ℕ) → n < 32 → k ≤ (n + 1) * max_seg_size ctl → k ≤ 384
below true n k h l = omega (arith, h, l)
below false n k h l = omega (arith, h, l)

-- Bytes written behind those that are there, twice.
join-start :
    (offset size next : ℕ) (rest old mid new : List ℕ)
    → next ≡ offset + size
    → size ≤ length rest
    → take (offset + size) mid ≡ take offset old ++ take size (take size rest)
    → take (next + length (drop size rest)) new ≡ take next mid ++ drop size rest
    → take (offset + length rest) new ≡ take offset old ++ rest
join-start offset size next rest old mid new place long first second =
    let ends : offset + length rest ≡ next + length (drop size rest) =
      omega (arith, length-drop size rest, place, long) in
    let bytes : take size (take size rest) ≡ take size rest =
      take_all size (take size rest) (omega (arith, length-take size rest)) in
    ap (λ k. take k new) ends
    ∙ second
    ∙ ap (λ l. l ++ drop size rest) (ap (λ k. take k mid) place ∙ first)
    ∙ append_assoc (take offset old) (take size (take size rest)) (drop size rest)
    ∙ ap (λ l. take offset old ++ l)
        (ap (λ l. l ++ drop size rest) bytes ∙ take-append-drop size rest)

zero_size : (ctl : Bool) → 0 * max_seg_size ctl ≡ 0
zero_size true = refl
zero_size false = refl

-- The rest of a message, stored behind what is there.
record Joined (offset : ℕ) (rest : List ℕ) (t : RxTask) (r : Option RxTask) : Type 0 where
  after : RxTask
  eq : r ≡ some after
  start : take (offset + length rest) after.pdu ≡ take offset t.pdu ++ rest
  pdu_len : after.pdu_len ≡ t.pdu_len + length rest

store_all-Joined :
    (ctx : MsgCtx) (segn n i : ℕ) (rest : List ℕ) (t : RxTask)
    → i + n ≡ segn
    → n * max_seg_size ctx.ctl ≤ length rest
    → length rest ≤ n * max_seg_size ctx.ctl + max_seg_size ctx.ctl
    → i * max_seg_size ctx.ctl + length rest ≤ length t.pdu
    → t.pdu_len + length rest < 2 ^ 16
    → Joined (i * max_seg_size ctx.ctl) rest t (store_all (cut ctx segn n i rest) t)
unfolding store_all cut
store_all-Joined ctx segn zero i rest t place low high room short =
    let b = size_bounds ctx.ctl in
    let g : Segment = record { ctx = ctx; sego = i; segn = segn; bytes = rest } in
    let last : (i == segn) ≡ true = ground arith in
    let w =
      store_segment-Written (length rest) (length rest + 4) g t (rw last (omega (arith, high, b.1)))
        (omega arith) room short in
    record {
      after = w.after;
      eq = rw (w.eq, store_all) refl;
      start =
          w.start
          ∙ ap (λ l. take (i * max_seg_size ctx.ctl) t.pdu ++ l)
              (take_all (length rest) rest (omega arith));
      pdu_len = w.pdu_len;
    }
store_all-Joined ctx segn (suc n) i rest t place low high room short =
    let b = size_bounds ctx.ctl in
    let size = max_seg_size ctx.ctl in
    let bytes = take size rest in
    let g : Segment = record { ctx = ctx; sego = i; segn = segn; bytes = bytes } in
    let early : (i == segn) ≡ false = ground arith in
    let full : length bytes ≡ size =
      omega (arith, length-take size rest, suc_size ctx.ctl n, low) in
    let left : length (drop size rest) ≡ length rest - size = length-drop size rest in
    let w =
      store_segment-Written size (size + 4) g t (rw early refl) (omega (arith, full))
        (omega (arith, room, suc_size ctx.ctl n, low))
        (omega (arith, short, suc_size ctx.ctl n, low)) in
    let j =
      store_all-Joined ctx segn n (suc i) (drop size rest) w.after (omega (arith, place))
        (omega (arith, left, suc_size ctx.ctl n, low))
        (omega (arith, left, suc_size ctx.ctl n, high))
        (omega (arith, left, w.same_length, suc_size ctx.ctl i, suc_size ctx.ctl n, low, room))
        (omega (arith, left, w.pdu_len, short, suc_size ctx.ctl n, low)) in
    record {
      after = j.after;
      eq = rw (w.eq, store_all) j.eq;
      start =
          join-start (i * size) size (suc i * size) rest t.pdu w.after.pdu j.after.pdu
            (suc_size ctx.ctl i) (omega (arith, suc_size ctx.ctl n, low)) w.start j.start;
      pdu_len = omega (arith, j.pdu_len, w.pdu_len, left, suc_size ctx.ctl n, low);
    }

-- The segments that a message is cut into, stored in order in a task that meshx_lower_trans_rx_task_request
-- has set up with a block for all of them, give the message back at the start of the block, and its
-- length, provided that the task's pdu_len was 0.
pub in_order :
    (ctx : MsgCtx) (segn : ℕ) (pdu block : List ℕ) (t : RxTask)
    → segn < 32
    → segn * max_seg_size ctx.ctl < length pdu
    → length pdu ≤ (segn + 1) * max_seg_size ctx.ctl
    → length block ≡ (segn + 1) * max_seg_size ctx.ctl
    → t.pdu_len ≡ 0
    → (u : RxTask) × (store_all
          (cut ctx segn segn 0 pdu)
          (set_up ((segn + 1) * max_seg_size ctx.ctl) ctx block t)
        ≡ some u)
      × (take (length pdu) u.pdu ≡ pdu)
      × (u.pdu_len ≡ length pdu)
unfolding set_up
in_order ctx segn pdu block t small low high room start =
    let more : (segn + 1) * max_seg_size ctx.ctl
        ≡ segn * max_seg_size ctx.ctl + max_seg_size ctx.ctl =
      suc_size_add ctx.ctl segn in
    let wide : length pdu ≤ 384 = below ctx.ctl segn (length pdu) small high in
    let none_yet = zero_size ctx.ctl in
    let u = set_up ((segn + 1) * max_seg_size ctx.ctl) ctx block t in
    let j =
      store_all-Joined ctx segn segn 0 pdu u (omega arith) (omega (arith, low))
        (omega (arith, high, more)) (omega (arith, room, high, none_yet))
        (omega (arith, start, wide)) in
    let whole : length pdu ≡ 0 * max_seg_size ctx.ctl + length pdu = omega (arith, none_yet) in
    (
      j.after,
      j.eq,
      ap (λ k. take k j.after.pdu) whole ∙ j.start ∙ ap (λ k. take k block ++ pdu) none_yet,
      omega (arith, j.pdu_len, start),
    )
