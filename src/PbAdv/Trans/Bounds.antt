-- ===== src/PbAdv/Trans/Bounds.antt =====
-- Any sequence of segments, from anyone.
use meshx.Base.{◌<◌, ◌≡◌, refl, ap, ◌∙◌, some, List, [], ◌∷◌, ◌>>=◌, All}
use meshx.PbAdv.{Device, Env}
use meshx.PbAdv.Trans.Fit.{IsValid, Safe, recv_start-Safe, recv_continue-Safe}
use meshx.PbAdv.Trans.Stuck.{Segment, start, continue, receive_segment, receive_segments}

-- A continuation has a number of 1 or more in its header.
abbrev pub IsNumbered : Segment → Type 0
IsNumbered (start p) = Unit
IsNumbered (continue trans_num index bytes) = 0 < index

receive_segment-Safe :
    (env : Env) (g : Segment) (d : Device)
    → IsValid d
    → IsNumbered g
    → Safe (receive_segment env g d)
unfolding receive_segment
receive_segment-Safe env (start p) d v h = recv_start-Safe env p d v
receive_segment-Safe env (continue trans_num index bytes) d v h =
    recv_continue-Safe env trans_num index bytes d v h

-- Whatever segments arrive in whatever order at a device in a valid state, as long as no
-- continuation has the number 0, nothing is written out of the buffer's bounds, and the state is
-- valid after them: the buffer keeps its 65 bytes, and the length of the data and the number of the
-- last segment fit each other.
pub receive_segments-IsValid :
    (env : Env) (gs : List Segment) (d : Device)
    → IsValid d
    → All IsNumbered gs
    → (u : Device) × (receive_segments env gs d ≡ some u) × IsValid u
unfolding receive_segments
receive_segments-IsValid env [] d v h = (d, refl, v)
receive_segments-IsValid env (g ∷ gs) d v h =
    let s = receive_segment-Safe env g d v h.0 in
    let (u, e, valid) = receive_segments-IsValid env gs s.after s.valid h.1 in
    (u, ap (λ o. o >>= λ (r, d', out). receive_segments env gs d') s.eq ∙ e, valid)
