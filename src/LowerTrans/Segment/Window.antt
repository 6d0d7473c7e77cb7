-- ===== src/LowerTrans/Segment/Window.antt =====
-- Every segment is sent in the window of its SeqAuth.
use meshx.Base.{
  ℕ, zero, suc, ◌<◌, ◌-◌, ◌/◌, ◌%◌, get_elem?, ◌>>=◌, ap, ◌^◌, ◌≡◌, refl, true, Option, some, List,
  [], ◌∷◌, length, drop, take, All, ◌==◌, arith, Bool-cases, inl, inr, ◌∙◌,
}
use meshx.Base.Errno.{Ret, success, inval}
use meshx.Base.Bits.{bit}
use meshx.Seq
use meshx.Seq.{Seqs}
use meshx.Seq.Inv
use meshx.Seq.Inv.{use_seq-Used}
use meshx.LowerTrans.Pdu.{
  MsgCtx, is_seq_auth_valid, word_of, seg_misc, pack_misc, misc_seq_zero, seq_zero_of, seq_auth_of,
  seq_auth_of-seq_zero,
}
use meshx.LowerTrans.Segment.{
  Config, Sent, element_of, seg_count, seg_len, seg_pdu, send_from, send_seg_msg,
}

-- The three bytes of pack_misc read as a word again.
abbrev packed_word : ℕ → ℕ → ℕ → ℕ → ℕ
packed_word szmic seq_zero sego segn =
    let v = seg_misc szmic seq_zero sego segn in
    word_of (v / 2 ^ 16) (v / 2 ^ 8 % 2 ^ 8) (v % 2 ^ 8)

packed_word-seq_zero :
    (szmic seq_zero sego segn : ℕ)
    → szmic < 2
    → seq_zero < 2 ^ 13
    → sego < 32
    → segn < 32
    → misc_seq_zero (packed_word szmic seq_zero sego segn) ≡ seq_zero
packed_word-seq_zero szmic seq_zero sego segn h1 h2 h3 h4 = ground arith

-- The word of the second to the fourth byte of a PDU.
abbrev pub misc_word : List ℕ → Option ℕ
misc_word pdu =
    get_elem? pdu 1 >>= λ b. get_elem? pdu 2 >>= λ c. get_elem? pdu 3 >>= λ d. some (word_of b c d)

-- A PDU that goes out with a sequence number in the window of the message's SeqAuth, which a receiver
-- gets back from its bytes and that number.
abbrev pub InWindow : ℕ → Sent → Type 0
InWindow seq_auth o =
    (is_seq_auth_valid o.ctx.seq seq_auth ≡ true)
    × (w : ℕ) × (misc_word o.pdu ≡ some w)
    × (seq_auth_of (misc_seq_zero w) o.ctx.seq ≡ seq_auth)

seg_pdu-InWindow :
    (ctx : MsgCtx) (i seg_num : ℕ) (bytes : List ℕ)
    → ctx.seq < 2 ^ 24
    → is_seq_auth_valid ctx.seq ctx.seq_auth ≡ true
    → InWindow ctx.seq_auth (record { pdu = seg_pdu ctx i seg_num bytes; ctx = ctx })
unfolding seg_pdu pack_misc
seg_pdu-InWindow ctx i seg_num bytes small valid =
    let back = seq_auth_of-seq_zero ctx.seq ctx.seq_auth small valid in
    elim (Bool-cases ctx.ctl) [
      | inl e ↦
          let zero_part : misc_seq_zero
                (packed_word 0 (seq_zero_of ctx.seq_auth) (i % 32) ((seg_num - 1) % 32))
              ≡ seq_zero_of ctx.seq_auth =
            packed_word-seq_zero 0 (seq_zero_of ctx.seq_auth) (i % 32) ((seg_num - 1) % 32)
              (omega arith) (omega arith) (omega arith) (omega arith) in
          (
            valid,
            packed_word 0 (seq_zero_of ctx.seq_auth) (i % 32) ((seg_num - 1) % 32),
            rw (seg_pdu, e) refl,
            ap (λ (z : ℕ). seq_auth_of z ctx.seq) zero_part ∙ back,
          )
      | inr e ↦
          let zero_part =
            packed_word-seq_zero (ctx.szmic % 2) (seq_zero_of ctx.seq_auth) (i % 32)
              ((seg_num - 1) % 32) (omega arith) (omega arith) (omega arith) (omega arith) in
          (
            valid,
            packed_word (ctx.szmic % 2) (seq_zero_of ctx.seq_auth) (i % 32) ((seg_num - 1) % 32),
            rw (seg_pdu, e) refl,
            ap (λ (z : ℕ). seq_auth_of z ctx.seq) zero_part ∙ back,
          )
    ]

-- How the transmission of a message ends.
pub record Transmitted (cfg : Config) (ctx : MsgCtx) (seqs : Seqs)
    (r : Option (Ret × MsgCtx × Seqs × List Sent)) : Type 0 where
  pub ret : Ret
  pub ctx' : MsgCtx
  pub seqs' : Seqs
  pub out : List Sent
  pub run : r ≡ some (ret, ctx', seqs', out)
  pub valid : Seq.Inv.IsValid seqs'
  pub count : seqs'.element_num ≡ seqs.element_num
  pub window : All (InWindow ctx.seq_auth) out
  pub kept :
      (ctx'.dst ≡ ctx.dst)
      × (ctx'.src ≡ ctx.src)
      × (ctx'.seq_auth ≡ ctx.seq_auth)
      × (ctx'.ctl ≡ ctx.ctl)

send_from-Transmitted :
    (cfg : Config) (n i seg_num block_ack : ℕ) (rest : List ℕ) (ctx : MsgCtx) (seqs : Seqs)
    → Seq.Inv.IsValid seqs
    → element_of cfg ctx < seqs.element_num
    → Transmitted cfg ctx seqs (send_from cfg n i seg_num block_ack rest ctx seqs)
unfolding send_from
send_from-Transmitted cfg zero i seg_num block_ack rest ctx seqs v inside = record {
  ret = success;
  ctx' = ctx;
  seqs' = seqs;
  out = [];
  run = refl;
  valid = v;
  count = refl;
  window = tt;
  kept = (refl, refl, refl, refl);
}
send_from-Transmitted cfg (suc n) i seg_num block_ack rest ctx seqs v inside =
    let len = seg_len ctx i seg_num rest in
    elim (Bool-cases (bit block_ack i == 1)) [
      | inl skip ↦
          let ih =
            send_from-Transmitted cfg n (suc i) seg_num block_ack (drop len rest) ctx seqs v
              inside in
          record {
            ret = ih.ret;
            ctx' = ih.ctx';
            seqs' = ih.seqs';
            out = ih.out;
            run = rw (skip, send_from) ih.run;
            valid = ih.valid;
            count = ih.count;
            window = ih.window;
            kept = ih.kept;
          }
      | inr go ↦
          let u = use_seq-Used seqs (element_of cfg ctx) v inside in
          let ctx' : MsgCtx = record ctx { seq = u.seq % 2 ^ 24 } in
          elim (Bool-cases (is_seq_auth_valid (u.seq % 2 ^ 24) ctx.seq_auth)) [
            | inr late ↦ record {
              ret = inval;
              ctx' = ctx';
              seqs' = u.after;
              out = [];
              run = rw (go, u.run, late, send_from);
              valid = u.valid;
              count = u.count;
              window = tt;
              kept = (refl, refl, refl, refl);
            }
            | inl good ↦
                let ih =
                  send_from-Transmitted cfg n (suc i) seg_num block_ack (drop len rest) ctx' u.after
                    u.valid (omega (arith, u.count)) in
                record {
                  ret = ih.ret;
                  ctx' = ih.ctx';
                  seqs' = ih.seqs';
                  out =
                      record { pdu = seg_pdu ctx' i seg_num (take len rest); ctx = ctx' } ∷ ih.out;
                  run = rw (go, u.run, good, ih.run, send_from);
                  valid = ih.valid;
                  count = ih.count ∙ u.count;
                  window = (
                    seg_pdu-InWindow ctx' i seg_num (take len rest) (omega arith) good,
                    ih.window,
                  );
                  kept = ih.kept;
                }
          ]
    ]

-- With an initialised sequence module and a source address of this node,
-- meshx_lower_trans_send_seg_msg never aborts, and every segment that it hands to the network layer has
-- a sequence number at most 8191 after the message's SeqAuth, and a SeqZero field from which, with that
-- number, MESHX_LOWER_TRANS_SEQ_AUTH of a receiver gives back the message's SeqAuth. The context keeps the
-- message's SeqAuth, source and destination.
pub send_seg_msg-Transmitted :
    (cfg : Config) (pdu : List ℕ) (block_ack : ℕ) (ctx : MsgCtx) (seqs : Seqs)
    → Seq.Inv.IsValid seqs
    → element_of cfg ctx < seqs.element_num
    → Transmitted cfg ctx seqs (send_seg_msg cfg pdu block_ack ctx seqs)
unfolding send_seg_msg
send_seg_msg-Transmitted cfg pdu block_ack ctx seqs v inside =
    send_from-Transmitted cfg (seg_count ctx.ctl (length pdu)) 0 (seg_count ctx.ctl (length pdu))
      block_ack pdu ctx seqs v inside
