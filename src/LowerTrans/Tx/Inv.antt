-- ===== src/LowerTrans/Tx/Inv.antt =====
-- The invariant of the transmit tasks.
use meshx.Base.{
  ℕ, ◌+◌, ◌<◌, ◌≡◌, ◌∙◌, ap, ◌⊎◌, inl, inr, true, false, some, List, [], ◌∷◌, ◌++◌, All, ◌==◌,
  arith,
}
use meshx.Seq
use meshx.Seq.Inv
use meshx.Seq.{Seqs}
use meshx.Iv.{Iv}
use meshx.LowerTrans.Segment.{Config, element_of}
use meshx.LowerTrans.Tx.{TxTask, Tx, dst_active, remove, find, release}
use meshx.LowerTrans.Tx.Lists.{
  Apart, one_if, count, count_ids, count-append, count_ids-append, dst_active-append, Apart-append,
  count-remove, dst_active-remove, Apart-remove, All-remove, All-append, All-map,
}

-- The message comes from an element of this node.
abbrev pub Own : Config → ℕ → TxTask → Type 0
Own cfg k t = element_of cfg t.ctx < k

-- Nothing waits for a destination that is not in use.
abbrev pub Served : List TxTask → TxTask → Type 0
Served active t = dst_active t.ctx.dst active ≡ true

-- Where every task is: `ids i` tasks have address `i`.
abbrev pub Places : (ℕ → ℕ) → Tx → Type 0
Places ids s = (i : ℕ) → count_ids i s.idle + count i s.active + count i s.pending ≡ ids i

pub record IsSound (cfg : Config) (k : ℕ) (ids : ℕ → ℕ) (s : Tx) : Type 0 where
  pub valid : Seq.Inv.IsValid s.seqs
  pub number : s.seqs.element_num ≡ k
  pub apart : Apart s.active
  pub served : All (Served s.active) s.pending
  pub own : All (Own cfg k) s.active
  pub own_pending : All (Own cfg k) s.pending
  pub places : Places ids s

-- Waiting for the destination `d`, or for one in use.
abbrev pub Waits : ℕ → List TxTask → TxTask → Type 0
Waits d active t = (d ≡ t.ctx.dst) ⊎ Served active t

-- The state while the task `t` is in no list and is about to start.
pub record Ready (cfg : Config) (k : ℕ) (ids : ℕ → ℕ) (t : TxTask) (s : Tx) : Type 0 where
  pub valid : Seq.Inv.IsValid s.seqs
  pub number : s.seqs.element_num ≡ k
  pub apart : Apart s.active
  pub free : dst_active t.ctx.dst s.active ≡ false
  pub waits : All (Waits t.ctx.dst s.active) s.pending
  pub mine : Own cfg k t
  pub own : All (Own cfg k) s.active
  pub own_pending : All (Own cfg k) s.pending
  pub places :
      (i : ℕ)
      → one_if (t.id == i) + (count_ids i s.idle + count i s.active + count i s.pending) ≡ ids i

Served-append :
    (active : List TxTask) (u : TxTask) (d : ℕ)
    → u.ctx.dst ≡ d
    → (p : TxTask) → Waits d active p
    → Served (active ++ (u ∷ [])) p
Served-append active u d e p (inl h) = ground (arith, dst_active-append p.ctx.dst u active)
Served-append active u d e p (inr h) = ground (arith, dst_active-append p.ctx.dst u active)

-- Starting a task.
pub start-IsSound :
    {cfg : Config} {k : ℕ} {ids : ℕ → ℕ} (t u : TxTask) (s : Tx) (q : Seqs)
    → Ready cfg k ids t s
    → u.id ≡ t.id
    → u.ctx.dst ≡ t.ctx.dst
    → Own cfg k u
    → Seq.Inv.IsValid q
    → q.element_num ≡ s.seqs.element_num
    → IsSound cfg k ids (record s { active = s.active ++ (u ∷ []); seqs = q })
start-IsSound {cfg = cfg} {k = k} t u s q r same_id same_dst mine v n = record {
  valid = v;
  number = n ∙ r.number;
  apart = Apart-append u s.active r.apart (rw same_dst r.free);
  served = All-map (Served-append s.active u t.ctx.dst same_dst) s.pending r.waits;
  own = All-append (Own cfg k) u s.active r.own mine;
  own_pending = r.own_pending;
  places = λ i.
      let same : one_if (u.id == i) ≡ one_if (t.id == i) = ap (λ x. one_if (x == i)) same_id in
      omega (arith, r.places i, same, count-append i u s.active);
}

-- Releasing a task: the others that wait for its destination are not served any more.
released-Waits :
    (i : ℕ) (t : TxTask) (active : List TxTask)
    → find i active ≡ some t
    → (p : TxTask) → Served active p
    → Waits t.ctx.dst (remove i active) p
released-Waits i t active f p served = dst_active-remove i p.ctx.dst t active f served

pub record Released (cfg : Config) (k : ℕ) (ids : ℕ → ℕ) (t : TxTask) (s : Tx) : Type 0 where
  pub valid : Seq.Inv.IsValid s.seqs
  pub number : s.seqs.element_num ≡ k
  pub apart : Apart s.active
  pub waits : All (Waits t.ctx.dst s.active) s.pending
  pub own : All (Own cfg k) s.active
  pub own_pending : All (Own cfg k) s.pending
  pub places : Places ids s

pub release-Released :
    {cfg : Config} {k : ℕ} {ids : ℕ → ℕ} (i : ℕ) (t : TxTask) (s : Tx)
    → IsSound cfg k ids s
    → find i s.active ≡ some t
    → (iv : Iv) → Released cfg k ids t (record (release i s) { iv = iv })
unfolding release
release-Released {cfg = cfg} {k = k} i t s v f iv = record {
  valid = v.valid;
  number = v.number;
  apart = Apart-remove i s.active v.apart;
  waits = All-map (released-Waits i t s.active f) s.pending v.served;
  own = All-remove (Own cfg k) i s.active v.own;
  own_pending = v.own_pending;
  places =
      λ j. omega (arith, v.places j, count_ids-append j i s.idle, count-remove i j t s.active f);
}
