-- ===== src/Upper.antt =====
-- mesh/transport/meshx_upper_trans.c: encryption of access messages.
-- `none` in a result is an access out of bounds.
pub mod Plain
pub mod Receive
pub mod RoundTrip
mod Tests
use meshx.Base.{
  ℕ, ◌+◌, ◌-◌, ◌*◌, ◌/◌, ◌%◌, ◌^◌, ◌≤◌, ◌<◌, Bool, true, false, not, ◌&&◌, Option, none, some, List,
  [], ◌∷◌, ◌++◌, length, take, drop, ltb, leb, ◌==◌, if◌then◌else◌, ◌>>=◌,
}
use meshx.Base.Bytes.{be16, be32}
use meshx.Base.Errno.{
  Ret, success, mem, connect as no_connect, length as bad_length, key as bad_key,
}
use meshx.Security.{Ciphers}
use meshx.Key.{KeyState, normal}
use meshx.Key.App.{AppKey, AppKeyValue}
use meshx.Key.Dev.{DeviceKey, dev_key_get}
use meshx.Seq.{Seqs, use_seq}

abbrev pub max_ctl_pdu_size : ℕ
max_ctl_pdu_size = 256

-- The fields of `meshx_msg_ctx_t` that this file uses; `trans_key` is the application or device key.
pub record UpperMsg : Type 0 where
  pub ctl : Bool
  pub akf : Bool
  pub aid : ℕ
  pub seg : Bool
  pub szmic : Bool
  pub src : ℕ
  pub dst : ℕ
  pub seq : ℕ
  pub seq_auth : ℕ
  pub iv_index : ℕ
  pub trans_key : List ℕ

-- `meshx_app_nonce_t` and `meshx_device_nonce_t`.
abbrev pub trans_nonce : UpperMsg → List ℕ
trans_nonce m =
    (if m.akf then 1 else 2)
    ∷ ((if m.szmic then 0x80 else 0)
        ∷ (m.seq_auth / 2 ^ 16 % 2 ^ 8
            ∷ m.seq_auth / 2 ^ 8 % 2 ^ 8
            ∷ m.seq_auth % 2 ^ 8
            ∷ (be16 m.src ++ (be16 m.dst ++ be32 m.iv_index))))

-- meshx_upper_trans_encrypt of a buffer with `len` bytes: its parameter for the length is a `uint8_t`.
-- The result is the buffer and the check value.
unfoldable pub upper_encrypt : Ciphers → UpperMsg → ℕ → List ℕ → List ℕ × List ℕ
upper_encrypt c m mic_size bytes =
    let n = length bytes % 256 in
    let (text, mic) = c.ccm_encrypt m.trans_key (trans_nonce m) (take n bytes) mic_size in
    (text ++ drop n bytes, mic)

-- meshx_upper_trans_send: the answer, the PDU for meshx_lower_trans_send, if it is called, and the
-- sequence numbers. `connected` is whether there is no interface or it is connected, `lower` what the
-- lower transport answers, and `element` the index of the source's element.
unfoldable pub upper_send :
    Ciphers
    → Bool
    → Bool
    → Ret
    → ℕ
    → List ℕ
    → UpperMsg
    → Seqs
    → Option (Ret × Option (UpperMsg × List ℕ) × Seqs)
upper_send c connected allocated lower element bytes m q =
    if not connected
    then some (no_connect, none, q)
    else if m.ctl
    then (if ltb max_ctl_pdu_size (length bytes)
        then some (bad_length, none, q)
        else some (lower, some (m, bytes), q))
    else if not allocated
    then some (mem, none, q)
    else (use_seq element q >>= λ (seq, q').
        (let m' : UpperMsg = record m { seq = seq; seq_auth = seq } in
          let (text, mic) = upper_encrypt c m' (if m.szmic then 8 else 4) bytes in
          some (lower, some (m', text ++ mic), q')))
