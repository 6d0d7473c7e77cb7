-- ===== src/Proxy/Tests.antt =====
-- Runs of the proxy protocol at concrete messages.
use meshx.Base.{ℕ, ◌≡◌, refl, true, none, some, List, [], ◌∷◌, replicate, arith}
use meshx.Base.Errno.{success, inval}
use meshx.Proxy.{
  RxCtx, Env, find_rx_ctx, rx_ctx_release, put_rx_ctx, rx_ctx_request, rx_ctx_expand, copy_data,
  dispatch, receive_new, receive_next, finish_fragment, receive, receive_all, send, sar_timeout,
}
use meshx.Proxy.RoundTrip.{holding, receive_all-send}
use meshx.Proxy.Faults.{expand_overflow}

abbrev env : Env
env = record {
  ctx_allocated = true;
  data_allocated = true;
  timer_created = true;
  connected = true;
  upper = success;
}

abbrev five : List ℕ
five = 1 ∷ 2 ∷ 3 ∷ 4 ∷ 5 ∷ []

send_cuts :
    send true 2 0 five
    ≡ some (success, (64 ∷ 1 ∷ 2 ∷ []) ∷ (128 ∷ 3 ∷ 4 ∷ []) ∷ (192 ∷ 5 ∷ []) ∷ [])
unfolding send
send_cuts = refl

send_whole : send true 6 1 five ≡ some (success, (1 ∷ five) ∷ [])
unfolding send
send_whole = refl

send_no_mtu : send true 0 1 five ≡ none
unfolding send
send_no_mtu = refl

timeout_releases : sar_timeout 7 (holding 7 0 80 five ∷ []) ≡ []
unfolding sar_timeout rx_ctx_release
timeout_releases = refl

dispatch_tests : ((dispatch env 7 3 five).1 ≡ []) × ((dispatch env 7 4 five).0 ≡ inval)
unfolding dispatch
dispatch_tests = (refl, refl)

-- Three fragments of 100 bytes from the start: the third is written behind the buffer.
overflow_from_start :
    receive_all env 7
      ((64 ∷ replicate 100 0) ∷ (128 ∷ replicate 100 0) ∷ (128 ∷ replicate 100 0) ∷ [])
      []
    ≡ none
unfolding receive_all receive receive_new receive_next find_rx_ctx rx_ctx_request rx_ctx_expand
    copy_data finish_fragment put_rx_ctx
overflow_from_start = refl

receive_all-send_example :
    (pdus : List (List ℕ)) × (send true 2 1 five ≡ some (success, pdus))
    × (receive_all env 7 pdus [] ≡ some ([], record { from = 7; kind = 1; bytes = five } ∷ []))
unfolding find_rx_ctx dispatch
receive_all-send_example =
    receive_all-send env 7 1 2 five [] refl (omega arith) refl (omega arith) (omega arith)
      (omega arith) (omega arith) (omega arith) (omega arith)

-- 100 of 181 bytes are in use.
abbrev half_full : RxCtx
half_full = holding 7 0 181 (replicate 100 0)

expand_overflow_example :
    (kept : List RxCtx) × (receive env 7 (128 ∷ replicate 100 0) (half_full ∷ [])
      ≡ some (success, kept, []))
    × (receive env 7 (128 ∷ replicate 100 0) kept ≡ none)
unfolding find_rx_ctx
expand_overflow_example =
    expand_overflow env 7 half_full (half_full ∷ []) 0 0 (replicate 99 0) (replicate 99 0) refl refl
      (omega arith) refl (omega arith) (omega arith) (omega arith) (omega arith)
