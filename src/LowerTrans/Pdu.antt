-- ===== src/LowerTrans/Pdu.antt =====
-- The PDU formats of mesh/transport/meshx_lower_trans.c and the arithmetic of sequence numbers.
use meshx.Base.{
  ℕ, ◌+◌, ◌-◌, ◌*◌, ◌/◌, ◌%◌, ◌^◌, ◌<◌, ◌≡◌, Bool, true, not, ◌&&◌, List, [], ◌∷◌, ltb, leb,
  if◌then◌else◌, arith,
}

-- `meshx_msg_ctx_t`, but for the network interface. Keys are the values of their pointers. The C
-- structure keeps `opcode` in the same byte as `akf`, `szmic` and `aid`; the former is used only if
-- `ctl` is set and the latter only if it is not.
pub record MsgCtx : Type 0 where
  pub src : ℕ
  pub dst : ℕ
  pub ttl : ℕ
  pub ctl : Bool
  pub seq : ℕ
  pub iv_index : ℕ
  pub seq_auth : ℕ
  pub seg : Bool
  pub net_key : ℕ
  pub akf : ℕ
  pub szmic : ℕ
  pub aid : ℕ
  pub opcode : ℕ

-- MESHX_ADDRESS_IS_VALID
abbrev pub is_valid_address : ℕ → Bool
is_valid_address a = ltb 0 a && not (leb 0xFF00 a && leb a 0xFFFB)

-- MESHX_LOWER_TRANS_IS_SEQ_AUTH_VALID
abbrev pub is_seq_auth_valid : ℕ → ℕ → Bool
is_seq_auth_valid seq seq_auth = leb seq_auth seq && ltb (seq - seq_auth) 0x2000

-- MESHX_LOWER_TRANS_SEQ_ZERO: `seq & 0x1fff`.
abbrev pub seq_zero_of : ℕ → ℕ
seq_zero_of seq = seq % 0x2000

-- MESHX_LOWER_TRANS_SEQ_AUTH, stored in a 24-bit field.
abbrev pub seq_auth_of : ℕ → ℕ → ℕ
seq_auth_of seq_zero seq =
    (seq_zero
      + seq / 0x2000 * 0x2000
      + 2 ^ 24
      - (if ltb (seq % 0x2000) seq_zero then 0x2000 else 0))
    % 2 ^ 24

-- The first byte of an access PDU and of a control PDU.
abbrev pub access_header : ℕ → ℕ → ℕ → ℕ
access_header seg akf aid = seg * 128 + akf * 64 + aid % 64

abbrev pub ctl_header : ℕ → ℕ → ℕ
ctl_header seg opcode = seg * 128 + opcode % 128

-- The 24 bits of meshx_lower_trans_seg_access_misc_t (`szmic` on top; `rfu` in a control PDU), sent
-- with their first and third byte swapped, so that the highest byte is first.
abbrev pub seg_misc : ℕ → ℕ → ℕ → ℕ → ℕ
seg_misc szmic seq_zero sego segn = szmic * 2 ^ 23 + seq_zero * 2 ^ 10 + sego * 2 ^ 5 + segn

unfoldable pub pack_misc : ℕ → ℕ → ℕ → ℕ → List ℕ
pack_misc szmic seq_zero sego segn =
    let v = seg_misc szmic seq_zero sego segn in v / 2 ^ 16 ∷ v / 2 ^ 8 % 2 ^ 8 ∷ v % 2 ^ 8 ∷ []

-- The fields of the three bytes.
abbrev pub word_of : ℕ → ℕ → ℕ → ℕ
word_of b c d = b * 2 ^ 16 + c * 2 ^ 8 + d

abbrev pub szmic_of : ℕ → ℕ
szmic_of v = v / 2 ^ 23 % 2

abbrev pub misc_seq_zero : ℕ → ℕ
misc_seq_zero v = v / 2 ^ 10 % 2 ^ 13

abbrev pub sego_of : ℕ → ℕ
sego_of v = v / 2 ^ 5 % 2 ^ 5

abbrev pub segn_of : ℕ → ℕ
segn_of v = v % 2 ^ 5

-- meshx_lower_trans_seg_ack_pdu_t: `obo`, `seq_zero` and two reserved bits, then the block of
-- acknowledged segments, all big endian.
unfoldable pub pack_ack : ℕ → ℕ → List ℕ
pack_ack seq_zero block_ack =
    let m = seq_zero * 4 in
    m / 2 ^ 8
    ∷ m % 2 ^ 8
    ∷ block_ack / 2 ^ 24
    ∷ block_ack / 2 ^ 16 % 2 ^ 8
    ∷ block_ack / 2 ^ 8 % 2 ^ 8
    ∷ block_ack % 2 ^ 8
    ∷ []

abbrev pub ack_seq_zero : ℕ → ℕ → ℕ
ack_seq_zero a b = (a * 2 ^ 8 + b) / 4 % 2 ^ 13

abbrev pub ack_block : ℕ → ℕ → ℕ → ℕ → ℕ
ack_block c d e f = c * 2 ^ 24 + d * 2 ^ 16 + e * 2 ^ 8 + f

-- The receiver of a segment recovers the sender's SeqAuth from its 13 low bits and the sequence
-- number of the segment, as long as the sender's own test of the two numbers holds: at most
-- 8191 sequence numbers after SeqAuth.
pub seq_auth_of-seq_zero :
    (seq seq_auth : ℕ)
    → seq < 2 ^ 24
    → is_seq_auth_valid seq seq_auth ≡ true
    → seq_auth_of (seq_zero_of seq_auth) seq ≡ seq_auth
seq_auth_of-seq_zero seq seq_auth small valid = ground arith

-- The fields of a segment header that is packed and read back are the ones put in.
pub pack_misc_fields :
    (szmic seq_zero sego segn b c d : ℕ)
    → szmic < 2
    → seq_zero < 2 ^ 13
    → sego < 32
    → segn < 32
    → pack_misc szmic seq_zero sego segn ≡ b ∷ c ∷ d ∷ []
    → (szmic_of (word_of b c d) ≡ szmic)
      × (misc_seq_zero (word_of b c d) ≡ seq_zero)
      × (sego_of (word_of b c d) ≡ sego)
      × (segn_of (word_of b c d) ≡ segn)
      × ((b < 256) × (c < 256) × (d < 256))
unfolding pack_misc
pack_misc_fields szmic seq_zero sego segn b c d h1 h2 h3 h4 e = ground arith

-- So are those of a block acknowledgement.
pub pack_ack_fields :
    (seq_zero block a b c d e f : ℕ)
    → seq_zero < 2 ^ 13
    → block < 2 ^ 32
    → pack_ack seq_zero block ≡ a ∷ b ∷ c ∷ d ∷ e ∷ f ∷ []
    → (ack_seq_zero a b ≡ seq_zero) × (ack_block c d e f ≡ block)
unfolding pack_ack
pack_ack_fields seq_zero block a b c d e f h1 h2 p = ground arith
