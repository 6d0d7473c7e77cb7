-- ===== src/Access/Tests.antt =====
-- An operation code, and a message with an application key.
use meshx.Base.{◌≡◌, refl, inl, inr, true, false, some, [], ◌∷◌, ◌++◌, arith}
use meshx.Base.Errno.{success, inval}
use meshx.Access.{opcode_to_buf, buf_to_opcode, access_send, buf_to_opcode-opcode_to_buf}

buf_to_opcode-opcode_to_buf_example : buf_to_opcode (opcode_to_buf 0x8201 ++ (7 ∷ [])) ≡ some 0x8201
buf_to_opcode-opcode_to_buf_example =
    buf_to_opcode-opcode_to_buf 0x8201 (7 ∷ []) (inr (inl (omega arith, omega arith)))

-- A message under an application key with the identifier 0 is refused.
zero_aid_refused :
    access_send success 5 (record {
      src = 1;
      dst = 2;
      net_key = true;
      app_key = true;
      akf = true;
      aid = 0;
      seg = false;
      szmic = false;
    })
    ≡ (inval, false)
unfolding access_send
zero_aid_refused = refl
