-- ===== src/Proxy/Faults.antt =====
-- Messages that the proxy protocol loses, and a write behind the end of a buffer.
use meshx.Base.{
  ℕ, suc, ◌+◌, ◌^◌, ◌≤◌, ◌<◌, ◌≡◌, refl, true, none, some, List, [], ◌∷◌, ◌++◌, length, arith,
}
use meshx.Base.Errno.{success, unexpected}
use meshx.Proxy.{
  RxCtx, Env, header, sar_complete, sar_continue, init_pdu_len, find_rx_ctx, put_rx_ctx,
  rx_ctx_request, rx_ctx_expand, copy_data, receive_new, receive_next, finish_fragment, receive,
}
use meshx.Proxy.RoundTrip.{holding, first_room, can_allocate, find-last, release-last}

-- A complete message from a bearer with no open context is answered with success, but it is not
-- handed on: it stays in a new context, and the next complete message of the bearer is refused as
-- unexpected and takes the context away, so that neither of the two is delivered.
pub complete_lost :
    (env : Env) (b t u x y : ℕ) (xs ys : List ℕ) (cs : List RxCtx)
    → can_allocate env ≡ true
    → t < 64
    → u < 64
    → find_rx_ctx b cs ≡ none
    → first_room (suc (length xs)) < 2 ^ 16
    → (kept : List RxCtx) × (receive env b (header sar_complete t ∷ x ∷ xs) cs
        ≡ some (success, kept, []))
      × (receive env b (header sar_complete u ∷ y ∷ ys) kept ≡ some (unexpected, cs, []))
unfolding receive receive_new receive_next rx_ctx_request copy_data
complete_lost env b t u x y xs ys cs ok t_small u_small none_yet small =
    let c = holding b t (first_room (suc (length xs))) (x ∷ xs) in
    (
      cs ++ (c ∷ []),
      ground arith,
      ground (arith, find-last b c cs none_yet refl, release-last b c cs none_yet refl),
    )

find-put :
    (d c : RxCtx) (cs : List RxCtx)
    → find_rx_ctx d.bearer cs ≡ some c
    → find_rx_ctx d.bearer (put_rx_ctx d cs) ≡ some d
unfolding find_rx_ctx put_rx_ctx
find-put d c [] h = ground arith
find-put d c (x ∷ cs) h = ground (arith, find-put d c cs)

-- An expanded buffer is smaller than its recorded limit by what was free before: a context with
-- `free` bytes left that is expanded for a fragment takes a next fragment of more than 80 and at
-- most 80 + `free` bytes without another expansion, and writes it over the end of the buffer.
pub expand_overflow :
    (env : Env) (b : ℕ) (c : RxCtx) (cs : List RxCtx) (x y : ℕ) (xs ys : List ℕ)
    → find_rx_ctx b cs ≡ some c
    → c.bearer ≡ b
    → c.msg_type < 64
    → env.data_allocated ≡ true
    → c.max_len < c.data_len + suc (length xs)
    → c.max_len + suc (length xs) + init_pdu_len < 2 ^ 16
    → 80 < suc (length ys)
    → suc (length ys) + c.data_len ≤ 80 + c.max_len
    → (kept : List RxCtx) × (receive env b (header sar_continue c.msg_type ∷ x ∷ xs) cs
        ≡ some (success, kept, []))
      × (receive env b (header sar_continue c.msg_type ∷ y ∷ ys) kept ≡ none)
unfolding receive receive_next finish_fragment copy_data rx_ctx_expand
expand_overflow env b c cs x y xs ys there same t_small ok full small over under =
    let d : RxCtx = record c {
      pdata = c.pdata ++ (x ∷ xs);
      size = c.data_len + suc (length xs) + init_pdu_len;
      data_len = c.data_len + suc (length xs);
      max_len = c.max_len + suc (length xs) + init_pdu_len;
    } in
    (put_rx_ctx d cs, ground arith, ground (arith, find-put d c cs))
