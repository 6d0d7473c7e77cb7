-- ===== src/Proxy.antt =====
-- mesh/proxy/meshx_proxy.c: segmentation and reassembly of the proxy protocol over GATT.
-- `none` in a result is a write behind the end of an allocated buffer, or a division by zero.
pub mod RoundTrip
pub mod Faults
pub mod Multiple
mod Tests
use meshx.Base.{
  ℕ, zero, suc, ◌+◌, ◌-◌, ◌*◌, ◌/◌, ◌%◌, ◌^◌, Bool, true, false, not, ◌&&◌, ◌||◌, Option, none,
  some, List, [], ◌∷◌, ◌++◌, length, take, drop, ltb, leb, ◌==◌, if◌then◌else◌, ◌>>=◌,
}
use meshx.Base.Errno.{Ret, success, mem, inval, length as bad_length, connect, unexpected}

abbrev pub init_pdu_len : ℕ
init_pdu_len = 80

-- MESHX_PROXY_MSG_TYPE_: NET 0, BEACON 1, PROXY_CFG 2, PROV 3.
abbrev pub prov_type : ℕ
prov_type = 3

-- MESHX_PROXY_SAR_
abbrev pub sar_complete : ℕ
sar_complete = 0

abbrev pub sar_first : ℕ
sar_first = 1

abbrev pub sar_continue : ℕ
sar_continue = 2

abbrev pub sar_last : ℕ
sar_last = 3

-- The first byte of `meshx_proxy_pdu_t`: `msg_type` in the low six bits, `sar` above.
abbrev pub header : ℕ → ℕ → ℕ
header sar msg_type = sar * 64 + msg_type

abbrev pub sar_of : ℕ → ℕ
sar_of b = b / 64

abbrev pub type_of : ℕ → ℕ
type_of b = b % 64

-- `meshx_proxy_rx_ctx_t`. `pdata` holds the first `data_len` bytes of a buffer of `size` bytes; a
-- bearer is the value of its pointer.
pub record RxCtx : Type 0 where
  pub bearer : ℕ
  pub msg_type : ℕ
  pub pdata : List ℕ
  pub size : ℕ
  pub data_len : ℕ
  pub max_len : ℕ

-- What the allocator, the timers and the layers above answer.
pub record Env : Type 0 where
  pub ctx_allocated : Bool
  pub data_allocated : Bool
  pub timer_created : Bool
  pub connected : Bool
  pub upper : Ret

-- A message handed to meshx_net_receive (type 0) or meshx_beacon_receive (type 1).
pub record Delivery : Type 0 where
  pub from : ℕ
  pub kind : ℕ
  pub bytes : List ℕ

-- meshx_proxy_find_rx_ctx over `meshx_proxy_rx_ctx_list`.
pub find_rx_ctx : ℕ → List RxCtx → Option RxCtx
find_rx_ctx b [] = none
find_rx_ctx b (c ∷ cs) = if c.bearer == b then some c else find_rx_ctx b cs

-- meshx_proxy_rx_ctx_release of the context that `find_rx_ctx` returned.
pub rx_ctx_release : ℕ → List RxCtx → List RxCtx
rx_ctx_release b [] = []
rx_ctx_release b (c ∷ cs) = if c.bearer == b then cs else c ∷ rx_ctx_release b cs

-- The assignments through the pointer that `find_rx_ctx` returned.
pub put_rx_ctx : RxCtx → List RxCtx → List RxCtx
put_rx_ctx d [] = []
put_rx_ctx d (c ∷ cs) = if c.bearer == d.bearer then d ∷ cs else c ∷ put_rx_ctx d cs

-- meshx_proxy_rx_ctx_request: the new context, its buffer empty; the caller appends it.
pub rx_ctx_request : Env → ℕ → Option RxCtx
rx_ctx_request env len =
    if env.ctx_allocated && env.data_allocated && env.timer_created
    then some (record {
      bearer = 0;
      msg_type = 0;
      pdata = [];
      size = if ltb init_pdu_len len then len + init_pdu_len else init_pdu_len;
      data_len = 0;
      max_len = if ltb init_pdu_len len then (init_pdu_len + len) % 2 ^ 16 else init_pdu_len;
    })
    else none

-- meshx_proxy_rx_ctx_expand; `none` is -MESHX_ERR_MEM.
pub rx_ctx_expand : Env → RxCtx → ℕ → Option RxCtx
rx_ctx_expand env c len =
    if env.data_allocated
    then some (record c {
      size = c.data_len + len + init_pdu_len;
      max_len = (c.max_len + len + init_pdu_len) % 2 ^ 16;
    })
    else none

-- memcpy of `bytes` to `pdata + data_len`, and the new `data_len`.
pub copy_data : RxCtx → List ℕ → Option RxCtx
copy_data c bytes =
    if leb (c.data_len + length bytes) c.size
    then some
        (record c { pdata = c.pdata ++ bytes; data_len = (c.data_len + length bytes) % 2 ^ 16 })
    else none

-- meshx_proxy_dispatch. The network layer and the beacons are told the length in a `uint8_t`, and
-- get that many bytes of the message.
pub dispatch : Env → ℕ → ℕ → List ℕ → Ret × List Delivery
dispatch env b msg_type bytes =
    let delivery : List Delivery =
      record { from = b; kind = msg_type; bytes = take (length bytes % 256) bytes } ∷ [] in
    if msg_type == 0
    then (if env.connected then (env.upper, delivery) else (connect, []))
    else if msg_type == 1
    then (env.upper, delivery)
    else if leb msg_type prov_type
    then (success, [])
    else (inval, [])

abbrev pub Result : Type 0
Result = Ret × List RxCtx × List Delivery

-- The part of meshx_proxy_receive for a bearer with no context.
pub receive_new : Env → ℕ → ℕ → List ℕ → List RxCtx → Option Result
receive_new env b h bytes cs =
    if not (sar_of h == sar_complete) && not (sar_of h == sar_first)
    then some (unexpected, cs, [])
    else elim (rx_ctx_request env (length bytes + 1)) [
      | none ↦ some (mem, cs, [])
      | some c ↦ copy_data (record c { bearer = b; msg_type = type_of h }) bytes >>= λ d.
          some (success, cs ++ (d ∷ []), [])
    ]

-- The end of a fragment: the last one is handed on.
pub finish_fragment : Env → ℕ → ℕ → RxCtx → List RxCtx → Result
finish_fragment env b h c cs =
    if sar_of h == sar_last
    then (success, rx_ctx_release b cs, (dispatch env b c.msg_type c.pdata).1)
    else (success, put_rx_ctx c cs, [])

-- The part for a bearer with the context `c`.
pub receive_next : Env → ℕ → ℕ → List ℕ → RxCtx → List RxCtx → Option Result
receive_next env b h bytes c cs =
    if (sar_of h == sar_complete) || (sar_of h == sar_first)
    then some (unexpected, rx_ctx_release b cs, [])
    else if not (c.msg_type == type_of h)
    then some (unexpected, rx_ctx_release b cs, [])
    else if ltb c.max_len (c.data_len + length bytes)
    then elim (rx_ctx_expand env c (length bytes)) [
      | none ↦ some (mem, rx_ctx_release b cs, [])
      | some d ↦ copy_data d bytes >>= λ e. some (finish_fragment env b h e cs)
    ]
    else (copy_data c bytes >>= λ e. some (finish_fragment env b h e cs))

-- meshx_proxy_receive of the whole PDU.
pub receive : Env → ℕ → List ℕ → List RxCtx → Option Result
receive env b [] cs = some (bad_length, cs, [])
receive env b (h ∷ []) cs = some (bad_length, cs, [])
receive env b (h ∷ x ∷ bytes) cs = elim (find_rx_ctx b cs) [
  | none ↦ receive_new env b h (x ∷ bytes) cs
  | some c ↦ receive_next env b h (x ∷ bytes) c cs
]

-- The loop of meshx_proxy_send, with `n` rounds left, at segment `i` of `seg_num`; `rest` is the
-- data from `seg_offset` on.
pub segments : ℕ → ℕ → ℕ → ℕ → ℕ → List ℕ → List (List ℕ)
segments zero i seg_num mtu msg_type rest = []
segments (suc n) i seg_num mtu msg_type rest =
    let sar = if i == 0 then sar_first else if i == seg_num - 1 then sar_last else sar_continue in
    let seg_len = if i == seg_num - 1 then length rest else mtu in
    (header sar msg_type ∷ take seg_len rest)
    ∷ segments n (suc i) seg_num mtu msg_type (drop seg_len rest)

-- meshx_proxy_send: the PDUs given to meshx_bearer_gatt_send, in order. `mtu` is the answer of
-- meshx_bearer_gatt_mtu_get; `len / mtu` with `mtu` 0 is a division by zero.
pub send : Bool → ℕ → ℕ → List ℕ → Option (Ret × List (List ℕ))
unfolding segments
send allocated mtu msg_type bytes =
    let seg_num = (length bytes / mtu + 1) % 2 ^ 16 in
    if ltb (length bytes) mtu
    then (if allocated
        then some (success, (header sar_complete msg_type ∷ bytes) ∷ [])
        else some (mem, []))
    else if mtu == 0
    then (if allocated then none else some (mem, []))
    else if allocated
    then some (success, segments seg_num 0 seg_num mtu msg_type bytes)
    else some (mem, [])

-- meshx_proxy_async_handle_sar_timeout, for the context of bearer `b`.
pub sar_timeout : ℕ → List RxCtx → List RxCtx
sar_timeout b cs = rx_ctx_release b cs

-- A sequence of PDUs from one bearer, with everything that is handed on.
pub receive_all : Env → ℕ → List (List ℕ) → List RxCtx → Option (List RxCtx × List Delivery)
receive_all env b [] cs = some (cs, [])
receive_all env b (p ∷ ps) cs = receive env b p cs >>= λ (r, cs', out).
    receive_all env b ps cs' >>= λ (cs'', outs). some (cs'', out ++ outs)
