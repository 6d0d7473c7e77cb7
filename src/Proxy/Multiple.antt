-- ===== src/Proxy/Multiple.antt =====
-- Messages whose length is a multiple of the MTU: meshx_proxy_send ends them with an empty segment.
use meshx.Base.{
  ℕ, zero, suc, ◌+◌, ◌-◌, ◌*◌, ◌/◌, ◌%◌, ◌^◌, ◌≤◌, ◌<◌, ◌≡◌, refl, ◌∙◌, ap, true, none, some, List,
  [], ◌∷◌, ◌++◌, length, take, drop, arith, append_assoc, take-append-drop, length-take,
  length-drop, length-append, append-nil,
}
use native.Mathlib.Nat.{mul-div_cancel}
use meshx.Base.Errno.{success, length as bad_length}
use meshx.Proxy.{
  RxCtx, Env, header, sar_last, sar_first, find_rx_ctx, receive, receive_all, segments, send,
}
use meshx.Proxy.RoundTrip.{holding, first_room, can_allocate, receive_first, receive_continue}

nil_of_length : (xs : List ℕ) → length xs ≡ 0 → xs ≡ []
nil_of_length [] h = refl
nil_of_length (x ∷ xs) h = absurd (omega arith)

receive_empty :
    (env : Env) (b h : ℕ) (cs : List RxCtx) → receive env b (h ∷ []) cs ≡ some (bad_length, cs, [])
unfolding receive
receive_empty env b h cs = refl

module _ (env : Env) (b t cap : ℕ) (cs : List RxCtx) (t_small : t < 64) (cap_small : cap < 2 ^ 16)
    (none_yet : find_rx_ctx b cs ≡ none) where
  receive_rest :
      (n i seg_num mtu : ℕ) (pre rest : List ℕ)
      → 0 < i
      → i + suc n ≡ seg_num
      → 0 < mtu
      → n * mtu ≡ length rest
      → length pre + length rest ≤ cap
      → receive_all env b (segments (suc n) i seg_num mtu t rest) (cs ++ (holding b t cap pre ∷ []))
        ≡ some (cs ++ (holding b t cap (pre ++ rest) ∷ []), [])
  unfolding receive_all segments
  receive_rest zero i seg_num mtu pre [] pos last mtu_pos many fits = ground (
    arith,
    append-nil pre,
    receive_empty env b (header sar_last t) (cs ++ (holding b t cap pre ∷ [])),
  )
  receive_rest zero i seg_num mtu pre (x ∷ rest) pos last mtu_pos many fits = absurd (omega arith)
  receive_rest (suc n) i seg_num mtu pre rest pos last mtu_pos many fits =
      let some_bytes : length (take mtu rest) ≡ mtu = omega (arith, length-take mtu rest) in
      let fewer : length (drop mtu rest) ≡ length rest - mtu = length-drop mtu rest in
      let held : length (pre ++ take mtu rest) ≡ length pre + mtu =
        omega (arith, length-append pre (take mtu rest)) in
      let whole : (pre ++ take mtu rest) ++ drop mtu rest ≡ pre ++ rest =
        append_assoc pre (take mtu rest) (drop mtu rest)
        ∙ ap (λ l. pre ++ l) (take-append-drop mtu rest) in
      let next =
        receive_continue env b t cap cs t_small cap_small none_yet pre (take mtu rest) (omega arith)
          (omega arith) in
      let ih =
        receive_rest n (suc i) seg_num mtu (pre ++ take mtu rest) (drop mtu rest) (omega arith)
          (omega arith) mtu_pos (omega arith) (omega arith) in
      ground (arith, next, ih, whole)

multiple_received :
    (env : Env) (b t k mtu : ℕ) (bytes : List ℕ) (cs : List RxCtx)
    → can_allocate env ≡ true
    → t < 64
    → find_rx_ctx b cs ≡ none
    → 0 < mtu
    → suc k * mtu ≡ length bytes
    → length bytes ≤ first_room mtu
    → first_room mtu < 2 ^ 16
    → receive_all env b (segments (suc (suc k)) 0 (suc (suc k)) mtu t bytes) cs
      ≡ some (cs ++ (holding b t (first_room mtu) bytes ∷ []), [])
unfolding receive_all segments
multiple_received env b t k mtu bytes cs ok t_small none_yet pos many fits room =
    let some_bytes : length (take mtu bytes) ≡ mtu = omega (arith, length-take mtu bytes) in
    let fewer : length (drop mtu bytes) ≡ length bytes - mtu = length-drop mtu bytes in
    let first =
      receive_first env b t (take mtu bytes) cs ok t_small none_yet (omega arith)
        (rw some_bytes room) in
    let first' : receive env b (header sar_first t ∷ take mtu bytes) cs
        ≡ some (success, cs ++ (holding b t (first_room mtu) (take mtu bytes) ∷ []), []) =
      first
      ∙ ap (λ (n : ℕ). some (success, cs ++ (holding b t (first_room n) (take mtu bytes) ∷ []), []))
          some_bytes in
    let rest =
      receive_rest env b t (first_room mtu) cs t_small room none_yet k 1 (suc (suc k)) mtu
        (take mtu bytes) (drop mtu bytes) (omega arith) (omega arith) pos (omega arith)
        (omega arith) in
    ground (arith, first', rest, take-append-drop mtu bytes)

multiple_sent :
    (t k mtu : ℕ) (bytes : List ℕ)
    → 0 < mtu
    → suc k * mtu ≡ length bytes
    → suc k < 2 ^ 16 - 1
    → send true mtu t bytes ≡ some (success, segments (suc (suc k)) 0 (suc (suc k)) mtu t bytes)
unfolding send
multiple_sent t k mtu bytes pos many short =
    let quotient : length bytes / mtu ≡ suc k = rw (← many) (mul-div_cancel (suc k) pos) in
    let count : (length bytes / mtu + 1) % 2 ^ 16 ≡ suc (suc k) = omega (arith, quotient) in
    let long : mtu ≤ length bytes = omega (arith, many) in ground (arith, count, long)

-- A message whose length is a multiple of the MTU, `k + 1` times it, is never handed on, although
-- meshx_proxy_send and all but the last meshx_proxy_receive succeed: its last segment is empty and is
-- refused as too short, so that the whole message stays in an open context.
pub multiple_lost :
    (env : Env) (b t k mtu : ℕ) (bytes : List ℕ) (cs : List RxCtx)
    → can_allocate env ≡ true
    → t < 64
    → find_rx_ctx b cs ≡ none
    → 0 < mtu
    → suc k * mtu ≡ length bytes
    → length bytes ≤ first_room mtu
    → suc k < 2 ^ 16 - 1
    → first_room mtu < 2 ^ 16
    → (pdus : List (List ℕ)) × (send true mtu t bytes ≡ some (success, pdus))
      × (receive_all env b pdus cs ≡ some (cs ++ (holding b t (first_room mtu) bytes ∷ []), []))
multiple_lost env b t k mtu bytes cs ok t_small none_yet pos many fits short room = (
  segments (suc (suc k)) 0 (suc (suc k)) mtu t bytes,
  multiple_sent t k mtu bytes pos many short,
  multiple_received env b t k mtu bytes cs ok t_small none_yet pos many fits room,
)
