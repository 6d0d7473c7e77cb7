-- ===== src/LowerTrans/Incoming/Whole.antt =====
-- A short access message from one node's upper transport to the other's.
use meshx.Base.{
  ℕ, suc, ◌+◌, ◌-◌, ◌/◌, ◌%◌, ◌^◌, ◌<◌, ◌≤◌, ◌≡◌, refl, sym, ap, ◌∙◌, true, false, Bool, Bool-cases,
  inl, inr, some, List, [], ◌∷◌, ◌++◌, ◌==◌, ◌||◌, ◌&&◌, length, take, take_all, take-append,
  if◌then◌else◌, ltb, not, arith,
}
use meshx.Base.Errno.{Ret, success}
use meshx.Security.{Ciphers}
use meshx.Seq.{Seqs, use_seq}
use meshx.Rpl.{Rpl}
use meshx.Net.Undone.{IsSound}
use meshx.Upper.{UpperMsg, upper_send}
use meshx.Upper.Plain.{numbered}
use meshx.Upper.Receive.{NodeKeys, upper_receive}
use meshx.Upper.RoundTrip.{key_for, upper_send-upper_receive}
use meshx.LowerTrans.Pdu.{MsgCtx, is_valid_address, access_header}
use meshx.LowerTrans.Segment.{Config, Sent}
use meshx.LowerTrans.Tx as Tx
use meshx.LowerTrans.Tx.{Tx}
use meshx.LowerTrans.Rx.{rpl_check}
use meshx.LowerTrans.Rx.Receive.{Delivered, entry_of}
use meshx.LowerTrans.Send.{send}
use meshx.LowerTrans.Incoming.{Lower, Env, Result, receive_ctl, receive_access, lower_receive}

abbrev bit_of : Bool → ℕ
bit_of true = 1
bit_of false = 0

-- The one C structure behind the contexts of the two layers: what the upper layer has set in `rest`, and
-- what it finds, with a key that is still to be found.
abbrev pub to_lower : MsgCtx → UpperMsg → MsgCtx
to_lower rest m = record rest {
  src = m.src;
  dst = m.dst;
  ctl = m.ctl;
  seq = m.seq;
  iv_index = m.iv_index;
  seq_auth = m.seq_auth;
  seg = m.seg;
  akf = bit_of m.akf;
  szmic = bit_of m.szmic;
  aid = m.aid;
}

abbrev pub to_upper : List ℕ → MsgCtx → UpperMsg
to_upper key c = record {
  ctl = c.ctl;
  akf = c.akf == 1;
  aid = c.aid;
  seg = c.seg;
  szmic = c.szmic == 1;
  src = c.src;
  dst = c.dst;
  seq = c.seq;
  seq_auth = c.seq_auth;
  iv_index = c.iv_index;
  trans_key = key;
}

-- What the network layer tells of the message.
abbrev pub arrived : MsgCtx → UpperMsg → MsgCtx
arrived rest m = record rest {
  src = m.src;
  dst = m.dst;
  ctl = m.ctl;
  seq = m.seq;
  iv_index = m.iv_index;
}

-- A short access message: its identifier is 0 under a device key, and is in six bits.
pub record IsShort (m : UpperMsg) (bytes : List ℕ) : Type 0 where
  pub access : m.ctl ≡ false
  pub one_pdu : m.seg ≡ false
  pub small_mic : m.szmic ≡ false
  pub aid_bits : m.aid < 64
  pub no_aid : (if m.akf then m.aid else 0) ≡ m.aid
  pub valid : is_valid_address m.dst ≡ true
  pub fits : length bytes ≤ 11

-- What reaches the receiver's upper transport.
abbrev delivered_ctx : MsgCtx → UpperMsg → ℕ → MsgCtx
delivered_ctx rest m h = record (arrived rest m) {
  akf = h / 64 % 2;
  aid = h % 64;
  seg = false;
  szmic = 0;
  seq_auth = m.seq;
}

abbrev header_of : UpperMsg → ℕ
header_of m = access_header 0 (bit_of m.akf) (if bit_of m.akf == 1 then m.aid else 0)

header_akf : (m : UpperMsg) → m.aid < 64 → (header_of m / 64 % 2 == 1) ≡ m.akf
header_akf m h = elim (Bool-cases m.akf) [ inl e ↦ ground arith | inr e ↦ ground arith ]

header_aid :
    (m : UpperMsg) → m.aid < 64 → (if m.akf then m.aid else 0) ≡ m.aid → header_of m % 64 ≡ m.aid
header_aid m h k = elim (Bool-cases m.akf) [ inl e ↦ ground arith | inr e ↦ ground arith ]

to_upper-delivered :
    (rest : MsgCtx) (m : UpperMsg) (seq : ℕ) (bytes key : List ℕ)
    → IsShort m bytes
    → to_upper key (delivered_ctx rest (numbered m seq) (header_of m))
      ≡ record (numbered m seq) { trans_key = key }
to_upper-delivered rest m seq bytes key short = λ i. record (numbered m seq) {
  trans_key = key;
  akf = header_akf m short.aid_bits i;
  aid = header_aid m short.aid_bits short.no_aid i;
  seg = sym short.one_pdu i;
  szmic = sym short.small_mic i;
}

numbered-IsShort :
    (m : UpperMsg) (seq : ℕ) (bytes : List ℕ) → IsShort m bytes → IsShort (numbered m seq) bytes
numbered-IsShort m seq bytes h = record {
  access = h.access;
  one_pdu = h.one_pdu;
  small_mic = h.small_mic;
  aid_bits = h.aid_bits;
  no_aid = h.no_aid;
  valid = h.valid;
  fits = h.fits;
}

send-whole :
    (sent : Ret) (env : Tx.Env) (cfg : Config) (pdu bytes : List ℕ) (rest : MsgCtx) (m : UpperMsg)
    (tx : Tx)
    → IsShort m bytes
    → length pdu ≡ length bytes + 4
    → send sent env cfg pdu (to_lower rest m) tx
      ≡ some (sent, tx, record { pdu = header_of m ∷ pdu; ctx = to_lower rest m } ∷ [])
unfolding send
send-whole sent env cfg pdu bytes rest m tx short len =
    let some_bytes : (length pdu == 0) ≡ false = ground (arith, len) in
    let one : (m.seg || ltb 15 (length pdu)) ≡ false =
      ground (arith, len, short.fits, short.one_pdu) in
    simp (send, some_bytes, short.valid, one, short.access) refl

lower_receive-whole :
    (cfg : Config) (env : Env) (pdu bytes : List ℕ) (rest : MsgCtx) (m : UpperMsg) (s : Lower)
    (rpl' : Rpl)
    → IsShort m bytes
    → length pdu ≡ length bytes + 4
    → rpl_check (entry_of (arrived rest m)) s.rx.rpl ≡ some (true, rpl')
    → lower_receive cfg env (header_of m ∷ pdu) (arrived rest m) s
      ≡ some (
        success,
        record s { rx = record (s.rx) { rpl = rpl' } },
        [],
        record {
          pdu = pdu ++ env.behind;
          pdu_len = length pdu;
          ctx = delivered_ctx rest m (header_of m);
        }
            ∷ [],
      )
unfolding lower_receive receive_access
lower_receive-whole cfg env pdu bytes rest m s rpl' short len fresh =
    let unsegmented : (header_of m / 128 % 2 == 1) ≡ false = elim (Bool-cases m.akf) [
      | inl e ↦ ground arith
      | inr e ↦ ground arith
    ] in
    let size : (suc (length pdu) + 2 ^ 8 - 1) % 2 ^ 8 ≡ length pdu =
      omega (arith, len, short.fits) in
    let h = header_of m in
    let ctx = arrived rest m in
    let whole : receive_access cfg env (h ∷ pdu) h (pdu ++ env.behind) ctx s
        ≡ some (
          success,
          record s { rx = record (s.rx) { rpl = rpl' } },
          [],
          record { pdu = pdu ++ env.behind; pdu_len = length pdu; ctx = delivered_ctx rest m h }
              ∷ [],
        ) =
      simp (receive_access, unsegmented, fresh)
        (λ i. some (
          success,
          record s { rx = record (s.rx) { rpl = rpl' } },
          [],
          record { pdu = pdu ++ env.behind; pdu_len = size i; ctx = delivered_ctx rest m h } ∷ [],
        )) in
    ap
      (λ b. elim b as (λ x. Result) [
        | true ↦ receive_ctl cfg env (h ∷ pdu) h (pdu ++ env.behind) ctx s
        | false ↦ receive_access cfg env (h ∷ pdu) h (pdu ++ env.behind) ctx s
      ])
      short.access
    ∙ whole

-- A short access message from node to node, the network layer left out, for which the receiver has the
-- sender's key, tried before all others with its identifier, and which passes the receiver's replay check:
-- the sender's upper and lower transport make one PDU of it, the receiver's lower transport hands it on
-- with no acknowledgement, and its upper transport gives the access layer exactly the sent bytes. What
-- stands behind the PDU in memory and in the other fields of the contexts does not matter. The ciphers
-- are relied on to be sound.
pub short_message :
    (c : Ciphers) (lower refused answer sent : Ret) (element seq : ℕ) (bytes key : List ℕ)
    (m : UpperMsg) (n : NodeKeys) (q q' : Seqs) (tx_env : Tx.Env) (env : Env) (cfg cfg' : Config)
    (rest rest' : MsgCtx) (tx : Tx) (s : Lower) (rpl' : Rpl)
    → IsSound c
    → IsShort m bytes
    → key_for n m ≡ some m.trans_key
    → use_seq element q ≡ some (seq, q')
    → rpl_check (entry_of (arrived rest' (numbered m seq))) s.rx.rpl ≡ some (true, rpl')
    → (pdu : List ℕ) × (out : Sent) × (call : Delivered) × (upper_send c true true lower element
          bytes m q
        ≡ some (lower, some (numbered m seq, pdu), q'))
      × (send sent tx_env cfg pdu (to_lower rest (numbered m seq)) tx ≡ some (sent, tx, out ∷ []))
      × (lower_receive cfg' env out.pdu (arrived rest' (numbered m seq)) s
          ≡ some (success, record s { rx = record (s.rx) { rpl = rpl' } }, [], call ∷ []))
      × (upper_receive c refused answer n (to_upper key call.ctx) (take call.pdu_len call.pdu)
          ≡ some (answer, numbered m seq, some bytes))
short_message c lower refused answer sent element seq bytes key m n q q' tx_env env cfg cfg' rest
      rest' tx s rpl' sound short known used fresh =
    let no_long : (m.szmic && not m.seg) ≡ false = ground (arith, short.small_mic) in
    let (pdu, up, len, down) =
      upper_send-upper_receive c lower refused answer element seq bytes key m n q q' sound
        short.access no_long known used in
    let m' : UpperMsg = numbered m seq in
    let short' : IsShort m' bytes = numbered-IsShort m seq bytes short in
    let size : length pdu ≡ length bytes + 4 =
      len ∙ ap (λ (k : ℕ). length bytes + k) (ground (arith, short.small_mic)) in
    let whole : take (length bytes % 256) bytes ≡ bytes =
      take_all (length bytes % 256) bytes (omega (arith, short.fits)) in
    (
      pdu,
      _,
      _,
      up,
      send-whole sent tx_env cfg pdu bytes rest m' tx short' size,
      lower_receive-whole cfg' env pdu bytes rest' m' s rpl' short' size fresh,
      ap
            (λ b.
              upper_receive c refused answer n
                (to_upper key (delivered_ctx rest' m' (header_of m'))) b)
            (take-append (length pdu) pdu env.behind refl)
          ∙ ap (λ r. upper_receive c refused answer n r pdu)
              (to_upper-delivered rest' m seq bytes key short)
          ∙ down
          ∙ ap (λ b. some (answer, numbered m seq, some b)) whole,
    )
