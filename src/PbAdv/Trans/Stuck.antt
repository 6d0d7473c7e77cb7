-- ===== src/PbAdv/Trans/Stuck.antt =====
-- A device that can take no segment any more.
use meshx.Base.{
  ℕ, ◌+◌, ◌-◌, ◌*◌, ◌%◌, ◌^◌, ◌<◌, ◌≤◌, ◌≡◌, ◌≢◌, refl, sym, ap, ◌∙◌, ◌⊎◌, inl, inr, true, false,
  ◌||◌, Option, some, List, [], ◌∷◌, length, ltb, ◌==◌, if◌then◌else◌, ◌>>=◌, arith, Option-cases,
}
use meshx.Base.Bits.{
  bit, ones, clear_bit, bit-ones_lt, bit-clear_self, bit-clear_ne, bit-clear_first, bit-ne_zero,
}
use meshx.Base.Memory.{copy}
use meshx.Base.Errno.{Ret, success, length as bad_length}
use meshx.PbAdv.{Device, Out, Env, start_max, continue_max}
use meshx.PbAdv.Trans.{
  Start, DeviceResult, finish_segment, prepare, store_start, recv_start, store_continue,
  recv_continue,
}
use meshx.PbAdv.Trans.Faults.{
  Taken, spoiled, with_fields, first-ones, recv_start-Taken, recv_start-spoiled,
}
use meshx.PbAdv.Trans.Stored.{store_start-Stored}

-- The first segment is there, and a segment behind the last one is missing.
pub record IsStuck (j : ℕ) (d : Device) : Type 0 where
  pub got : (d.trans_data_len == 0) ≡ false
  pub first : (bit d.recv_seg 0 == 0) ≡ true
  pub beyond : ltb d.last_seg_num j ≡ true
  pub missing : bit d.recv_seg j ≡ 1

prepare-IsStuck : (j : ℕ) (p : Start) (d : Device) → IsStuck j d → prepare p d ≡ d
unfolding prepare
prepare-IsStuck j p d s = rw (s.got, prepare) refl

-- A start segment changes nothing.
recv_start-IsStuck :
    (env : Env) (j : ℕ) (p : Start) (d u : Device) (r : Ret) (out : List Out)
    → IsStuck j d
    → recv_start env p d ≡ some (r, u, out)
    → u ≡ d
unfolding recv_start
recv_start-IsStuck env j p d u r out s h =
    let same = prepare-IsStuck j p d s in
    let first : (bit (prepare p d).recv_seg 0 == 0) ≡ true = rw same s.first in
    ground (arith, same, first)

recv_continue-cases :
    (env : Env) (trans_num index : ℕ) (bytes : List ℕ) (d u : Device) (r : Ret) (out : List Out)
    → recv_continue env trans_num index bytes d ≡ some (r, u, out)
    → (u ≡ d) ⊎ ((index ≤ d.last_seg_num) × (store_continue env index bytes d ≡ some (r, u, out)))
unfolding recv_continue
recv_continue-cases env trans_num index bytes d u r out h = ground arith

-- What a step of a stuck device keeps.
abbrev Kept : ℕ → Device → Device → Type 0
Kept j d u = IsStuck j u × (u.timer_state ≡ d.timer_state)

store_continue-IsStuck :
    (env : Env) (j index : ℕ) (bytes : List ℕ) (d u : Device) (r : Ret) (out : List Out)
    → IsStuck j d
    → index ≤ d.last_seg_num
    → store_continue env index bytes d ≡ some (r, u, out)
    → Kept j d u
unfolding store_continue finish_segment
store_continue-IsStuck env j index bytes d u r out s within h =
    let ne : index ≢ j = λ e. let b = s.beyond in ground arith in
    let bits : bit (clear_bit d.recv_seg index) j ≡ 1 =
      bit-clear_ne d.recv_seg index j ne ∙ s.missing in
    let rest : (clear_bit d.recv_seg index == 0) ≡ false =
      bit-ne_zero (clear_bit d.recv_seg index) j bits in
    elim (Option-cases (
      copy ((start_max + continue_max * index + 2 ^ 16 - continue_max) % 2 ^ 16) (length bytes)
        bytes d.rx_pdu)) [
          | inl e ↦ absurd (ground arith)
          | inr (block, e) ↦
              let v : Device = record d { recv_seg = clear_bit d.recv_seg index; rx_pdu = block } in
              let same : v ≡ u = ground arith in
              let no_first : bit (clear_bit d.recv_seg index) 0 ≡ 0 =
                let f = s.first in bit-clear_first d.recv_seg index (ground arith) in
              rw (sym same) (
                record { got = s.got; first = ground arith; beyond = s.beyond; missing = bits },
                refl,
              )
        ]

-- The two kinds of segments.
pub data Segment : Type 0 where
  start : Start → Segment
  continue : ℕ → ℕ → List ℕ → Segment

unfoldable pub receive_segment : Env → Segment → Device → DeviceResult
receive_segment env (start p) d = recv_start env p d
receive_segment env (continue trans_num index bytes) d = recv_continue env trans_num index bytes d

unfoldable pub receive_segments : Env → List Segment → Device → Option Device
receive_segments env [] d = some d
receive_segments env (g ∷ gs) d =
    receive_segment env g d >>= λ (r, d', out). receive_segments env gs d'

receive_segment-IsStuck :
    (env : Env) (j : ℕ) (g : Segment) (d u : Device) (r : Ret) (out : List Out)
    → IsStuck j d
    → receive_segment env g d ≡ some (r, u, out)
    → Kept j d u
unfolding receive_segment
receive_segment-IsStuck env j (start p) d u r out s h =
    let same = recv_start-IsStuck env j p d u r out s h in rw same (s, refl)
receive_segment-IsStuck env j (continue trans_num index bytes) d u r out s h =
    elim (recv_continue-cases env trans_num index bytes d u r out h) [
      | inl same ↦ rw same (s, refl)
      | inr (within, e) ↦ store_continue-IsStuck env j index bytes d u r out s within e
    ]

receive_segments-IsStuck :
    (env : Env) (j : ℕ) (gs : List Segment) (d u : Device)
    → IsStuck j d
    → receive_segments env gs d ≡ some u
    → Kept j d u
unfolding receive_segments
receive_segments-IsStuck env j [] d u s h = let same : u ≡ d = ground arith in rw same (s, refl)
receive_segments-IsStuck env j (g ∷ gs) d u s h = elim (Option-cases (receive_segment env g d)) [
  | inl e ↦ absurd (ground arith)
  | inr ((r, d', out), e) ↦
      let h' : receive_segments env gs d' ≡ some u = ground arith in
      let k = receive_segment-IsStuck env j g d d' r out s e in
      let more = receive_segments-IsStuck env j gs d' u k.0 h' in (more.0, more.1 ∙ k.1)
]

-- The single segment `q` after the spoiled start `p`: the bits are those of `p`, the fields those of `q`.
mixed : Start → Start → List ℕ → Device → Device
mixed p q block d = record (with_fields q (spoiled p d)) {
  recv_seg = clear_bit (ones (p.last_seg_num + 1)) 0;
  rx_pdu = block;
}

mixed-IsStuck :
    (p q : Start) (block : List ℕ) (d : Device)
    → 0 < p.last_seg_num
    → q.last_seg_num ≡ 0
    → (q.total_len == 0) ≡ false
    → IsStuck p.last_seg_num (mixed p q block d)
unfolding mixed
mixed-IsStuck p q block d more single nonzero =
    let k = p.last_seg_num in
    record {
      got = nonzero;
      first = ground (arith, bit-clear_self (ones (k + 1)) 0);
      beyond = ground arith;
      missing = bit-clear_ne (ones (k + 1)) 0 k (omega arith) ∙ bit-ones_lt (k + 1) k (omega arith);
    }

recv_mixed :
    (env : Env) (p q : Start) (d : Device)
    → Taken q (spoiled p d)
    → 0 < p.last_seg_num
    → (p.total_len == 0) ≡ false
    → q.last_seg_num ≡ 0
    → length q.bytes ≡ q.total_len
    → length d.rx_pdu ≡ 65
    → (block : List ℕ) × (recv_start env q (spoiled p d) ≡ some (success, mixed p q block d, []))
unfolding finish_segment prepare mixed
recv_mixed env p q d t more nonzero single right room =
    let k = p.last_seg_num in
    let v = spoiled p d in
    let prep : prepare q v ≡ v = rw (nonzero, prepare) refl in
    let first : (bit (prepare q v).recv_seg 0 == 0) ≡ false = rw prep (first-ones k) in
    let total = t.total in
    let whole : length q.bytes ≡ (if q.last_seg_num == 0 then q.total_len else start_max) =
      ground arith in
    let st = store_start-Stored env q v whole (ground arith) in
    let bits : bit (clear_bit (ones (k + 1)) 0) k ≡ 1 =
      bit-clear_ne (ones (k + 1)) 0 k (omega arith) ∙ bit-ones_lt (k + 1) k (omega arith) in
    let rest : (clear_bit (ones (k + 1)) 0 == 0) ≡ false =
      bit-ne_zero (clear_bit (ones (k + 1)) 0) k bits in
    let unfinished : finish_segment env (mixed p q st.block d) ≡ mixed p q st.block d =
      rw (rest, finish_segment) refl in
    (
      st.block,
      recv_start-Taken env q v t first
          ∙ ap (store_start env q) prep
          ∙ st.eq
          ∙ ap (λ x. some (success, x, [])) unfinished,
    )

receive_segments-next :
    (env : Env) (g : Segment) (gs : List Segment) (d d' : Device) (r : Ret) (out : List Out)
    → receive_segment env g d ≡ some (r, d', out)
    → receive_segments env (g ∷ gs) d ≡ receive_segments env gs d'
unfolding receive_segments
receive_segments-next env g gs d d' r out e =
    ap (λ o. o >>= λ (r, d', out). receive_segments env gs d') e

nonzero_total : (n : ℕ) → ((n == 0) || ltb 65 n) ≡ false → (n == 0) ≡ false
nonzero_total n h = ground arith

-- A device takes a start segment of several segments with a wrong number of bytes, which it refuses,
-- and then the only segment of another transaction, which it stores. Whatever segments follow, from
-- anyone, and unless one of them is written out of bounds, no transaction is ever finished: a length
-- of received data stays set, and the timer is never the one of an acknowledgement if it was not.
pub spoiled-IsStuck :
    (env : Env) (p q : Start) (gs : List Segment) (d u : Device)
    → Taken p d
    → Taken q d
    → d.trans_data_len ≡ 0
    → length d.rx_pdu ≡ 65
    → 0 < p.last_seg_num
    → length p.bytes ≢ start_max
    → q.last_seg_num ≡ 0
    → length q.bytes ≡ q.total_len
    → receive_segments env (start p ∷ start q ∷ gs) d ≡ some u
    → (u.trans_data_len ≢ 0) × (u.recv_seg ≢ 0) × (u.timer_state ≡ d.timer_state)
unfolding receive_segment mixed
spoiled-IsStuck env p q gs d u tp tq fresh room more wrong single right h =
    let several : (p.last_seg_num == 0) ≡ false = ground arith in
    let spoil = recv_start-spoiled env p d tp fresh (rw several wrong) in
    let tq' : Taken q (spoiled p d) = record {
      opened = tq.opened;
      new = tq.new;
      total = tq.total;
      segments = tq.segments;
    } in
    let (block, e) =
      recv_mixed env p q d tq' more (nonzero_total p.total_len tp.total) single right room in
    let h' : receive_segments env gs (mixed p q block d) ≡ some u =
      sym (
        receive_segments-next env (start p) (start q ∷ gs) d (spoiled p d) bad_length [] spoil
        ∙ receive_segments-next env (start q) gs (spoiled p d) (mixed p q block d) success [] e)
      ∙ h in
    let stuck = mixed-IsStuck p q block d more single (nonzero_total q.total_len tq.total) in
    let k = receive_segments-IsStuck env p.last_seg_num gs (mixed p q block d) u stuck h' in
    let got = k.0.got in
    let rest = bit-ne_zero u.recv_seg p.last_seg_num k.0.missing in
    (ground arith, ground arith, k.1)
