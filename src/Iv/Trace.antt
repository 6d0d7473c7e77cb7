-- ===== src/Iv/Trace.antt =====
-- The events that move the IV index and the sequence numbers, in any order.
pub mod Pending
use meshx.Base.{ℕ, Bool, Option, none, some, List, [], ◌∷◌, ◌++◌, ◌==◌, ◌&&◌, if◌then◌else◌, ◌>>=◌}
use meshx.Seq
use meshx.Iv.{State, UpdateState, tick, update, transit, tx_get}

pub data Event : Type 0 where
  -- A secure network beacon, by meshx_iv_index_update.
  beacon : Bool → ℕ → UpdateState → Event
  -- The timer, by meshx_iv_index_async_handle_timeout.
  timer : Bool → Event
  -- Element `j` sends an acknowledgement, for which meshx_lower_trans_seg_ack takes the transmit IV index
  -- and a sequence number.
  acknowledge : ℕ → Event
  -- Element `j` sends a message or a segment (meshx_upper_trans_send, meshx_lower_trans_send_seg_msg): it
  -- takes a sequence number, and the IV index is the one that stands in the message's context.
  send : ℕ → ℕ → Event
  -- A segmented transmission ends.
  finish : Event

-- The IV index and the sequence number that go into the nonce of one message.
abbrev pub Nonce : Type 0
Nonce = ℕ × ℕ

-- One event, with the nonce that element `i` uses in it, but for a nonce of another IV index than the
-- transmit IV index of the time.
unfoldable pub step : ℕ → Event → State → Option (List Nonce × State)
step i (beacon busy n u) s = update busy n u s >>= λ (r, t). some ([], t)
step i (timer busy) s = tick busy s >>= λ t. some ([], t)
step i (acknowledge j) s = Seq.use_seq j s.seqs >>= λ (q, qs).
    some ((if j == i then (tx_get s.iv, q) ∷ [] else []), record s { seqs = qs })
step i (send j n) s = Seq.use_seq j s.seqs >>= λ (q, qs).
    some ((if (j == i) && (n == tx_get s.iv) then (n, q) ∷ [] else []), record s { seqs = qs })
step i finish s = some ([], record s { iv = transit s.iv })

-- Those nonces that element `i` uses in a sequence of events, oldest first.
unfoldable pub run : ℕ → List Event → State → Option (List Nonce × State)
run i [] s = some ([], s)
run i (e ∷ es) s = step i e s >>= λ (out, t). run i es t >>= λ (outs, u). some (out ++ outs, u)
