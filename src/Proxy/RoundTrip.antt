-- ===== src/Proxy/RoundTrip.antt =====
-- What meshx_proxy_send cuts, meshx_proxy_receive puts together.
use meshx.Base.{
  ℕ, zero, suc, ◌+◌, ◌-◌, ◌*◌, ◌/◌, ◌%◌, ◌^◌, ◌≤◌, ◌<◌, ◌≡◌, refl, ◌∙◌, ap, Bool, true, ◌&&◌, ◌||◌,
  ◌==◌, none, some, List, [], ◌∷◌, ◌++◌, length, take, drop, ltb, if◌then◌else◌, arith,
  append_assoc, append-nil, take-append-drop, length-take, length-drop, length-append,
}
use native.Mathlib.Nat.{div-add-mod, mod-lt}
use meshx.Base.Errno.{success}
use meshx.Proxy.{
  RxCtx, Env, Delivery, header, sar_first, sar_continue, sar_last, init_pdu_len, find_rx_ctx,
  rx_ctx_release, put_rx_ctx, rx_ctx_request, copy_data, dispatch, receive_new, receive_next,
  finish_fragment, receive, receive_all, segments, send,
}

take-all : (xs : List ℕ) (n : ℕ) → length xs ≤ n → take n xs ≡ xs
take-all [] zero h = refl
take-all [] (suc n) h = refl
take-all (x ∷ xs) zero h = absurd (omega arith)
take-all (x ∷ xs) (suc n) h = ap (λ l. x ∷ l) (take-all xs n (omega arith))

-- The list of contexts with the one of bearer `b` at its end.
pub find-last :
    (b : ℕ) (c : RxCtx) (cs : List RxCtx)
    → find_rx_ctx b cs ≡ none
    → c.bearer ≡ b
    → find_rx_ctx b (cs ++ (c ∷ [])) ≡ some c
unfolding find_rx_ctx
find-last b c [] h e = ground arith
find-last b c (x ∷ cs) h e = ground (arith, find-last b c cs)

pub release-last :
    (b : ℕ) (c : RxCtx) (cs : List RxCtx)
    → find_rx_ctx b cs ≡ none
    → c.bearer ≡ b
    → rx_ctx_release b (cs ++ (c ∷ [])) ≡ cs
unfolding find_rx_ctx rx_ctx_release
release-last b c [] h e = ground arith
release-last b c (x ∷ cs) h e = ground (arith, release-last b c cs)

put-last :
    (d c : RxCtx) (cs : List RxCtx)
    → find_rx_ctx d.bearer cs ≡ none
    → c.bearer ≡ d.bearer
    → put_rx_ctx d (cs ++ (c ∷ [])) ≡ cs ++ (d ∷ [])
unfolding find_rx_ctx put_rx_ctx
put-last d c [] h e = ground arith
put-last d c (x ∷ cs) h e = ground (arith, put-last d c cs)

-- A context of bearer `b` for messages of type `t` that holds `pre` in a buffer of `cap` bytes.
abbrev pub holding : ℕ → ℕ → ℕ → List ℕ → RxCtx
holding b t cap pre = record {
  bearer = b;
  msg_type = t;
  pdata = pre;
  size = cap;
  data_len = length pre;
  max_len = cap;
}

copy_lem :
    (b t cap : ℕ) (pre bytes : List ℕ)
    → length pre + length bytes ≤ cap
    → cap < 2 ^ 16
    → copy_data (holding b t cap pre) bytes ≡ some (holding b t cap (pre ++ bytes))
unfolding copy_data
copy_lem b t cap pre bytes fits small = ground (arith, length-append pre bytes)

-- A fragment after the first, on the way through meshx_proxy_receive.
module _ (env : Env) (b t cap : ℕ) (cs : List RxCtx) (t_small : t < 64) (cap_small : cap < 2 ^ 16)
    (none_yet : find_rx_ctx b cs ≡ none) where
  pub receive_continue :
      (pre bytes : List ℕ)
      → 0 < length bytes
      → length pre + length bytes ≤ cap
      → receive env b (header sar_continue t ∷ bytes) (cs ++ (holding b t cap pre ∷ []))
        ≡ some (success, cs ++ (holding b t cap (pre ++ bytes) ∷ []), [])
  unfolding receive receive_next finish_fragment
  receive_continue pre [] pos fits = absurd (omega arith)
  receive_continue pre (x ∷ bytes) pos fits = ground (
    arith,
    find-last b (holding b t cap pre) cs none_yet refl,
    put-last (holding b t cap (pre ++ (x ∷ bytes))) (holding b t cap pre) cs none_yet refl,
    copy_lem b t cap pre (x ∷ bytes) fits cap_small,
  )

  receive_last :
      (pre bytes : List ℕ)
      → 0 < length bytes
      → length pre + length bytes ≤ cap
      → receive env b (header sar_last t ∷ bytes) (cs ++ (holding b t cap pre ∷ []))
        ≡ some (success, cs, (dispatch env b t (pre ++ bytes)).1)
  unfolding receive receive_next finish_fragment
  receive_last pre [] pos fits = absurd (omega arith)
  receive_last pre (x ∷ bytes) pos fits = ground (
    arith,
    find-last b (holding b t cap pre) cs none_yet refl,
    release-last b (holding b t cap pre) cs none_yet refl,
    copy_lem b t cap pre (x ∷ bytes) fits cap_small,
  )

  -- The segments from the second on, received after `pre`.
  receive_rest :
      (n i seg_num mtu : ℕ) (pre rest : List ℕ)
      → 0 < i
      → i + suc n ≡ seg_num
      → 0 < mtu
      → n * mtu < length rest
      → length pre + length rest ≤ cap
      → receive_all env b (segments (suc n) i seg_num mtu t rest) (cs ++ (holding b t cap pre ∷ []))
        ≡ some (cs, (dispatch env b t (pre ++ rest)).1)
  unfolding receive_all segments
  receive_rest zero i seg_num mtu pre rest pos last mtu_pos many fits = ground (
    arith,
    take-all rest (length rest),
    receive_last pre rest (omega arith) fits,
    append-nil (dispatch env b t (pre ++ rest)).1,
  )
  receive_rest (suc n) i seg_num mtu pre rest pos last mtu_pos many fits =
      let some_bytes : length (take mtu rest) ≡ mtu = omega (arith, length-take mtu rest) in
      let fewer : length (drop mtu rest) ≡ length rest - mtu = length-drop mtu rest in
      let held : length (pre ++ take mtu rest) ≡ length pre + mtu =
        omega (arith, length-append pre (take mtu rest)) in
      let whole : (pre ++ take mtu rest) ++ drop mtu rest ≡ pre ++ rest =
        append_assoc pre (take mtu rest) (drop mtu rest)
        ∙ ap (λ l. pre ++ l) (take-append-drop mtu rest) in
      ground (
        arith,
        receive_continue pre (take mtu rest) (omega arith) (omega arith),
        receive_rest n (suc i) seg_num mtu (pre ++ take mtu rest) (drop mtu rest) (omega arith)
            (omega arith) mtu_pos (omega arith) (omega arith),
        whole,
      )

-- The room that the first segment of `k` bytes makes.
abbrev pub first_room : ℕ → ℕ
first_room k = if ltb init_pdu_len (k + 1) then k + 1 + init_pdu_len else init_pdu_len

abbrev pub can_allocate : Env → Bool
can_allocate env = env.ctx_allocated && env.data_allocated && env.timer_created

pub receive_first :
    (env : Env) (b t : ℕ) (bytes : List ℕ) (cs : List RxCtx)
    → can_allocate env ≡ true
    → t < 64
    → find_rx_ctx b cs ≡ none
    → 0 < length bytes
    → first_room (length bytes) < 2 ^ 16
    → receive env b (header sar_first t ∷ bytes) cs
      ≡ some (success, cs ++ (holding b t (first_room (length bytes)) bytes ∷ []), [])
unfolding receive receive_new rx_ctx_request copy_data
receive_first env b t [] cs ok t_small none_yet pos small = absurd (omega arith)
receive_first env b t (x ∷ bytes) cs ok t_small none_yet pos small = ground arith

receive_cut :
    (env : Env) (b t m mtu : ℕ) (bytes : List ℕ) (cs : List RxCtx)
    → can_allocate env ≡ true
    → t < 64
    → find_rx_ctx b cs ≡ none
    → 0 < mtu
    → suc m * mtu < length bytes
    → length bytes ≤ first_room mtu
    → first_room mtu < 2 ^ 16
    → receive_all env b (segments (suc (suc m)) 0 (suc (suc m)) mtu t bytes) cs
      ≡ some (cs, (dispatch env b t bytes).1)
unfolding receive_all segments
receive_cut env b t m mtu bytes cs ok t_small none_yet pos many fits room =
    let some_bytes : length (take mtu bytes) ≡ mtu = omega (arith, length-take mtu bytes) in
    let fewer : length (drop mtu bytes) ≡ length bytes - mtu = length-drop mtu bytes in
    let first =
      receive_first env b t (take mtu bytes) cs ok t_small none_yet (omega arith)
        (rw some_bytes room) in
    let first' : receive env b (header sar_first t ∷ take mtu bytes) cs
        ≡ some (success, cs ++ (holding b t (first_room mtu) (take mtu bytes) ∷ []), []) =
      first
      ∙ ap (λ (k : ℕ). some (success, cs ++ (holding b t (first_room k) (take mtu bytes) ∷ []), []))
          some_bytes in
    let rest =
      receive_rest env b t (first_room mtu) cs t_small room none_yet m 1 (suc (suc m)) mtu
        (take mtu bytes) (drop mtu bytes) (omega arith) (omega arith) pos (omega arith)
        (omega arith) in
    ground (arith, first', rest, take-append-drop mtu bytes)

quotient_facts :
    (l mtu q r : ℕ)
    → mtu < l
    → 0 < r
    → r < mtu
    → l < 2 ^ 16
    → mtu * q + r ≡ l
    → (m : ℕ) × ((q + 1) % 2 ^ 16 ≡ suc (suc m)) × (suc m * mtu < l)
quotient_facts l mtu zero r more odd below short e = absurd (omega arith)
quotient_facts l mtu (suc m) r more odd below short e =
    let twice : 2 * m ≤ mtu * m = grind arith in (m, omega arith, omega arith)

segment_count :
    (l mtu : ℕ)
    → mtu < l
    → 0 < l % mtu
    → l < 2 ^ 16
    → 0 < mtu
    → (m : ℕ) × ((l / mtu + 1) % 2 ^ 16 ≡ suc (suc m)) × (suc m * mtu < l)
segment_count l mtu more odd short pos =
    quotient_facts l mtu (l / mtu) (l % mtu) more odd (mod-lt l pos) short (div-add-mod l mtu)

-- What the layer above gets of a whole message: the network layer if it is connected to the bearer, and the
-- beacons; a length of 256 or more is told modulo 256.
abbrev pub handed : Env → ℕ → ℕ → List ℕ → List Delivery
handed env b t bytes =
    if ((t == 0) && env.connected) || (t == 1)
    then record { from = b; kind = t; bytes = take (length bytes % 256) bytes } ∷ []
    else []

dispatch-handed :
    (env : Env) (b t : ℕ) (bytes : List ℕ) → (dispatch env b t bytes).1 ≡ handed env b t bytes
unfolding dispatch
dispatch-handed env b t bytes = ground arith

-- A message that meshx_proxy_send cuts into segments, whose length is no multiple of the MTU and
-- fits the buffer made for its first segment, is put together again by meshx_proxy_receive: from a
-- bearer with no open context the PDUs, in order, leave no context behind, and hand a network PDU (type 0)
-- to the network layer, if the bearer is connected to an interface, and a beacon (type 1) to the beacons,
-- once; messages of other types are not handed on. The layer gets all of the message if it has at
-- most 255 bytes, else its first bytes, as many as its length modulo 256.
pub receive_all-send :
    (env : Env) (b t mtu : ℕ) (bytes : List ℕ) (cs : List RxCtx)
    → can_allocate env ≡ true
    → t < 64
    → find_rx_ctx b cs ≡ none
    → 0 < mtu
    → mtu < length bytes
    → 0 < length bytes % mtu
    → length bytes ≤ first_room mtu
    → length bytes < 2 ^ 16
    → first_room mtu < 2 ^ 16
    → (pdus : List (List ℕ)) × (send true mtu t bytes ≡ some (success, pdus))
      × (receive_all env b pdus cs ≡ some (cs, handed env b t bytes))
unfolding send receive_all segments
receive_all-send env b t mtu bytes cs ok t_small none_yet pos more odd fits short room =
    let (m, count, many) = segment_count (length bytes) mtu more odd short pos in
    let cut = receive_cut env b t m mtu bytes cs ok t_small none_yet pos many fits room in
    (
      segments (suc (suc m)) 0 (suc (suc m)) mtu t bytes,
      ground (arith, count),
      cut ∙ ap (λ out. some (cs, out)) (dispatch-handed env b t bytes),
    )
