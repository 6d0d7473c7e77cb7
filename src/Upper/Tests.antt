-- ===== src/Upper/Tests.antt =====
-- A long access message.
use meshx.Base.{
  ℕ, ◌+◌, ◌%◌, ◌≤◌, ◌≡◌, refl, true, false, some, List, [], ◌∷◌, length, length-replicate, take,
  drop, replicate, arith,
}
use meshx.Base.Errno.{success}
use meshx.Security.{Ciphers}
use meshx.Seq.{Seqs, use_seq}
use meshx.Net.Undone.{IsSound}
use meshx.Upper.{UpperMsg, upper_send}
use meshx.Upper.Plain.{numbered, upper_send-plain}
use meshx.Upper.Receive.{NodeKeys, upper_receive}
use meshx.Upper.RoundTrip.{mic_size, upper_send-upper_receive}
use meshx.Key.{normal}

-- A cipher that changes nothing.
abbrev no_cipher : Ciphers
no_cipher = record {
  cmac = λ k text. text;
  aes128 = λ k text. text;
  ccm_encrypt = λ k nonce text n. (text, replicate n 0);
  ccm_decrypt = λ k nonce text mic. (true, text);
}

no_cipher-IsSound : IsSound no_cipher
no_cipher-IsSound = record {
  undone = λ k nonce text n. refl;
  text_length = λ k nonce text n. refl;
  mic_length = λ k nonce text n. length-replicate n 0;
}

abbrev app_msg : UpperMsg
app_msg = record {
  ctl = false;
  akf = true;
  aid = 1;
  seg = true;
  szmic = false;
  src = 1;
  dst = 2;
  seq = 0;
  seq_auth = 0;
  iv_index = 0;
  trans_key = 1 ∷ [];
}

abbrev seqs_before : Seqs
seqs_before = record { seq_array = some (5 ∷ []); element_num = 1 }

abbrev seqs_after : Seqs
seqs_after = record { seq_array = some (6 ∷ []); element_num = 1 }

used_run : use_seq 0 seqs_before ≡ some (5, seqs_after)
unfolding use_seq
used_run = refl

abbrev long_text : List ℕ
long_text = replicate 260 7

upper_send-plain_example :
    (pdu : List ℕ) × (upper_send no_cipher true true success 0 long_text app_msg seqs_before
      ≡ some (success, some (numbered app_msg 5, pdu), seqs_after))
    × (256 ≤ length (drop (length long_text % 256) long_text))
    × (drop (length long_text % 256) (take (length long_text) pdu)
        ≡ drop (length long_text % 256) long_text)
upper_send-plain_example =
    upper_send-plain no_cipher success 0 5 long_text app_msg seqs_before seqs_after
      no_cipher-IsSound refl (omega arith) used_run

-- A node with the message's application key, behind another of the same network key.
abbrev keys : NodeKeys
keys = record {
  app_keys =
      record {
        addr = 2;
        key_state = normal;
        key_index = 1;
        value0 = record { app_key = 2 ∷ []; aid = 5 };
        value1 = record { app_key = []; aid = 0 };
        pnet_key_bind = 0;
      }
      ∷ record {
        addr = 3;
        key_state = normal;
        key_index = 2;
        value0 = record { app_key = 1 ∷ []; aid = 1 };
        value1 = record { app_key = []; aid = 0 };
        pnet_key_bind = 0;
      }
      ∷ [];
  dev_keys = [];
  node_addr = 2;
}

upper_send-upper_receive_example :
    (pdu : List ℕ) × (upper_send no_cipher true true success 0 long_text app_msg seqs_before
      ≡ some (success, some (numbered app_msg 5, pdu), seqs_after))
    × (length pdu ≡ length long_text + mic_size app_msg)
    × (upper_receive no_cipher success success keys
          (record (numbered app_msg 5) { trans_key = [] })
          pdu
        ≡ some (success, numbered app_msg 5, some (take (length long_text % 256) long_text)))
upper_send-upper_receive_example =
    upper_send-upper_receive no_cipher success success success 0 5 long_text [] app_msg keys
      seqs_before seqs_after no_cipher-IsSound refl refl refl used_run
