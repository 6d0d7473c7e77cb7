-- ===== src/PbAdv/Trans/Seen.antt =====
-- The receiver of a transaction after each of its segments, and the PDUs of the segments.
use meshx.Base.{
  ℕ, suc, ◌+◌, ◌*◌, ◌/◌, ◌%◌, ◌^◌, ◌<◌, ◌≤◌, ◌≡◌, refl, ap, ◌∙◌, true, false, some, List, [], ◌∷◌,
  ◌++◌, length, take, length-append, ltb, ◌==◌, if◌then◌else◌, arith,
}
use meshx.Base.Bits.{bit, ones, clear_bit}
use meshx.Base.Bytes.{be16, be32, of_be32}
use meshx.Base.Errno.{Ret, success}
use meshx.PbAdv.{
  rank, Device, Out, Env, parse, find_by_link_id, put, start_max, continue_max, calc_seg_num,
}
use meshx.PbAdv.Trans.{
  Start, DeviceResult, finish_segment, prepare, store_start, recv_start, required_len,
  recv_continue, for_device, recv_trans_start, recv_trans_continue, receive,
}
use meshx.PbAdv.Trans.Faults.{Taken, prepare-fresh, first-ones, recv_start-Taken}
use meshx.PbAdv.Trans.Stored.{store_start-Stored, store_continue-Stored}

-- A receiver of the link that waits for a transaction with a new number.
pub record Ready (link tn : ℕ) (d : Device) : Type 0 where
  pub same_link : d.link_id ≡ link
  pub link_word : link < 2 ^ 32
  pub opened : ltb (rank d.state) 2 ≡ false
  pub running : (rank d.state == 12) ≡ false
  pub new : (d.acked_trans_num == tn) ≡ false
  pub fresh : d.trans_data_len ≡ 0
  pub room : length d.rx_pdu ≡ 65

-- The receiver in a transaction.
abbrev pub at : ℕ → ℕ → ℕ → ℕ → ℕ → List ℕ → Device → Device
at tn k n c m block d = record d {
  trans_data_len = n;
  rx_trans_num = tn;
  last_seg_num = k;
  fcs = c;
  recv_seg = m;
  rx_pdu = block;
}

be32-of_be32 :
    (l : ℕ)
    → l < 2 ^ 32
    → of_be32 (l / 2 ^ 24 % 2 ^ 8) (l / 2 ^ 16 % 2 ^ 8) (l / 2 ^ 8 % 2 ^ 8) (l % 2 ^ 8) ≡ l
be32-of_be32 l h = omega (arith, h)

for_device_self :
    (link : ℕ) (f : Device → DeviceResult) (d u : Device) (r : Ret) (out : List Out)
    → d.link_id ≡ link
    → u.addr ≡ d.addr
    → f d ≡ some (r, u, out)
    → for_device link f (d ∷ []) ≡ some (r, u ∷ [], out)
unfolding for_device find_by_link_id put
for_device_self link f d u r out same addr h =
    let found : (d.link_id == link) ≡ true = ground arith in
    let placed : (d.addr == u.addr) ≡ true = ground arith in
    rw (for_device, find_by_link_id, found, h, put, placed) refl

-- A PDU with a start segment, and one with a continuation.
abbrev pub start_pdu : ℕ → ℕ → ℕ → ℕ → ℕ → List ℕ → List ℕ
start_pdu link tn k n c bytes = be32 link ++ (tn ∷ ((k * 4 ∷ (be16 n ++ (c ∷ []))) ++ bytes))

pub receive-start_pdu :
    (env : Env) (refused : Ret) (bearer link tn k n c : ℕ) (bytes : List ℕ) (d u : Device) (r : Ret)
    (out : List Out)
    → link < 2 ^ 32
    → n < 2 ^ 16
    → d.link_id ≡ link
    → u.addr ≡ d.addr
    → recv_start env
        (record { trans_num = tn; last_seg_num = k; total_len = n; fcs = c; bytes = bytes })
        d
      ≡ some (r, u, out)
    → receive env refused bearer (start_pdu link tn k n c bytes) (d ∷ []) ≡ some (r, u ∷ [], out)
unfolding receive parse recv_trans_start
receive-start_pdu env refused bearer link tn k n c bytes d u r out word len_word same addr h =
    let kind : k * 4 % 4 ≡ 0 = omega arith in
    let field : k * 4 / 4 ≡ k = omega arith in
    let total : n / 2 ^ 8 % 2 ^ 8 * 2 ^ 8 + n % 2 ^ 8 ≡ n = omega (arith, len_word) in
    rw (kind, field, total, be32-of_be32 link word)
      (for_device_self link
        (recv_start env
          (record { trans_num = tn; last_seg_num = k; total_len = n; fcs = c; bytes = bytes }))
        d u r out same addr h)

abbrev pub continue_pdu : ℕ → ℕ → ℕ → List ℕ → List ℕ
continue_pdu link tn index bytes = be32 link ++ (tn ∷ ((2 + index * 4) ∷ bytes))

pub receive-continue_pdu :
    (env : Env) (refused : Ret) (bearer link tn index : ℕ) (bytes : List ℕ) (d u : Device) (r : Ret)
    (out : List Out)
    → link < 2 ^ 32
    → d.link_id ≡ link
    → u.addr ≡ d.addr
    → recv_continue env tn index bytes d ≡ some (r, u, out)
    → receive env refused bearer (continue_pdu link tn index bytes) (d ∷ []) ≡ some (r, u ∷ [], out)
unfolding receive parse recv_trans_continue
receive-continue_pdu env refused bearer link tn index bytes d u r out word same addr h =
    let kind : (2 + index * 4) % 4 ≡ 2 = omega arith in
    let field : (2 + index * 4) / 4 ≡ index = omega arith in
    rw (kind, field, be32-of_be32 link word)
      (for_device_self link (recv_continue env tn index bytes) d u r out same addr h)

Ready-Taken :
    (tn link : ℕ) (p : Start) (d : Device)
    → Ready link tn d
    → p.trans_num ≡ tn
    → 0 < p.total_len
    → p.total_len ≤ 65
    → calc_seg_num p.total_len ≡ p.last_seg_num + 1
    → Taken p d
Ready-Taken tn link p d ready num some_data most segs = record {
  opened = ready.opened;
  new = rw num ready.new;
  total = ground arith;
  segments = ground arith;
}

-- The receiver after segments whose bytes are `seen`.
pub record Seen (env : Env) (tn k n c m : ℕ) (seen : List ℕ) (d : Device) (answer : DeviceResult)
    : Type 0 where
  pub block : List ℕ
  pub room : length block ≡ 65
  pub start : take (length seen) block ≡ seen
  pub eq : answer ≡ some (success, finish_segment env (at tn k n c m block d), [])

pub start-Seen :
    (env : Env) (link tn k n c : ℕ) (bytes : List ℕ) (d : Device)
    → Ready link tn d
    → 0 < n
    → n ≤ 65
    → calc_seg_num n ≡ k + 1
    → length bytes ≡ (if k == 0 then n else start_max)
    → length bytes ≤ 65
    → Seen env tn k n c (clear_bit (ones (k + 1)) 0) bytes d (
        recv_start env
          (record { trans_num = tn; last_seg_num = k; total_len = n; fcs = c; bytes = bytes })
          d)
start-Seen env link tn k n c bytes d ready some_data most segs len fits =
    let p : Start = record {
      trans_num = tn;
      last_seg_num = k;
      total_len = n;
      fcs = c;
      bytes = bytes;
    } in
    let t = Ready-Taken tn link p d ready refl some_data most segs in
    let prep = prepare-fresh p d ready.fresh in
    let first : (bit (prepare p d).recv_seg 0 == 0) ≡ false = rw prep (first-ones k) in
    let v : Device = record d { recv_seg = ones (k + 1) } in
    let st = store_start-Stored env p v len (omega (arith, fits, ready.room)) in
    record {
      block = st.block;
      room = st.same_length ∙ ready.room;
      start = ap (λ (i : ℕ). take i st.block) (omega arith) ∙ st.start;
      eq = recv_start-Taken env p d t first ∙ ap (store_start env p) prep ∙ st.eq;
    }

pub continue-Seen :
    (env : Env) (link tn k n c m index : ℕ) (seen bytes block : List ℕ) (d : Device)
    → Ready link tn d
    → 0 < n
    → suc index ≤ k
    → bit m (suc index) ≡ 1
    → length seen ≡ start_max + continue_max * index
    → length bytes ≡ required_len (suc index) (at tn k n c m block d)
    → length seen + length bytes ≤ 65
    → length block ≡ 65
    → take (length seen) block ≡ seen
    → Seen env tn k n c
        (clear_bit m (suc index))
        (seen ++ bytes)
        d
        (recv_continue env tn (suc index) bytes (at tn k n c m block d))
unfolding recv_continue
continue-Seen env link tn k n c m index seen bytes block d ready some_data within missing at_seen
      len fits room start =
    let v = at tn k n c m block d in
    let s =
      store_continue-Stored env (suc index) (length seen) bytes v (omega (arith, at_seen, fits))
        (omega (arith, fits, room)) in
    let opened = ready.opened in
    let new = ready.new in
    let same : (tn == tn) ≡ true = ground arith in
    let nonzero : (n == 0) ≡ false = ground arith in
    let known : ltb k (suc index) ≡ false = ground arith in
    let wanted : (bit m (suc index) == 0) ≡ false = ground (arith, missing) in
    let right : (length bytes == required_len (suc index) v) ≡ true = ground arith in
    record {
      block = s.block;
      room = s.same_length ∙ room;
      start =
          ap (λ (i : ℕ). take i s.block) (length-append seen bytes)
          ∙ s.start
          ∙ ap (λ l. l ++ bytes) start;
      eq = rw (opened, new, same, nonzero, known, wanted, right, recv_continue) s.eq;
    }
