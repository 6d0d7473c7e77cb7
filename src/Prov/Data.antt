-- ===== src/Prov/Data.antt =====
-- The provisioning data as bytes, and a data PDU that is opened.
use meshx.Base.Bytes.{be16, be32, of_be16, of_be32}
use meshx.Base.{
  ℕ, ◌+◌, ◌*◌, ◌/◌, ◌%◌, ◌^◌, ◌∷◌, ◌<◌, ◌≡◌, refl, sym, ap, ◌∙◌, some, true, false, List, [], ltb,
  ◌++◌, length, drop, take-append, drop-append, length-append, append_assoc, arith,
}
use meshx.Base.Errno.{success}
use meshx.Security.{Ciphers}
use meshx.PbAdv.{rank, prov_data}
use meshx.Prov.{ProvDev, ProvData, ProvEnv, data_text, of_data, of_data_after, slice, moved}
use meshx.Prov.Send.{prov_complete}
use meshx.Prov.Process.{notify_data, process_data}

-- The fields have the sizes of `meshx_prov_data_t`.
pub record Sized (d : ProvData) : Type 0 where
  pub key_length : length d.net_key ≡ 16
  pub index_word : d.key_index < 65536
  pub refresh_bit : d.key_refresh_flag < 2
  pub update_bit : d.iv_update_flag < 2
  pub rfu_bits : d.rfu < 64
  pub iv_word : d.iv_index < 4294967296
  pub address_word : d.unicast_address < 65536

pub length-data_text : (d : ProvData) → Sized d → length (data_text d) ≡ 25
length-data_text d h = length-append d.net_key _ ∙ ap (λ (n : ℕ). n + 9) h.key_length

pub of_data-data_text :
    (d : ProvData) (mic : List ℕ)
    → Sized d
    → of_data (data_text d ++ mic) ≡ some (record d { mic = mic })
of_data-data_text d mic h =
    let flags : ℕ = d.key_refresh_flag + 2 * d.iv_update_flag + 4 * d.rfu in
    let tail : List ℕ = be16 d.key_index ++ (flags ∷ (be32 d.iv_index ++ be16 d.unicast_address)) in
    let split : data_text d ++ mic ≡ d.net_key ++ (tail ++ mic) = append_assoc d.net_key tail mic in
    let index : of_be16 (d.key_index / 2 ^ 8 % 2 ^ 8) (d.key_index % 2 ^ 8) ≡ d.key_index =
      omega (arith, h.index_word) in
    let refresh : flags % 2 ≡ d.key_refresh_flag = omega (arith, h.refresh_bit) in
    let update : flags / 2 % 2 ≡ d.iv_update_flag = omega (arith, h.refresh_bit, h.update_bit) in
    let rest : flags / 4 ≡ d.rfu = omega (arith, h.refresh_bit, h.update_bit) in
    let iv : of_be32 (d.iv_index / 2 ^ 24 % 2 ^ 8) (d.iv_index / 2 ^ 16 % 2 ^ 8)
          (d.iv_index / 2 ^ 8 % 2 ^ 8) (d.iv_index % 2 ^ 8)
        ≡ d.iv_index =
      omega (arith, h.iv_word) in
    let address : of_be16 (d.unicast_address / 2 ^ 8 % 2 ^ 8) (d.unicast_address % 2 ^ 8)
        ≡ d.unicast_address =
      omega (arith, h.address_word) in
    ap of_data split
    ∙ ap (λ k. of_data_after k (drop 16 (d.net_key ++ (tail ++ mic))))
        (take-append 16 d.net_key (tail ++ mic) (sym h.key_length))
    ∙ ap (of_data_after d.net_key) (drop-append 16 d.net_key (tail ++ mic) (sym h.key_length))
    ∙ (λ i. some (record {
      net_key = d.net_key;
      key_index = index i;
      key_refresh_flag = refresh i;
      iv_update_flag = update i;
      rfu = rest i;
      iv_index = iv i;
      unicast_address = address i;
      mic = mic;
    }))

pub slice-append : (n : ℕ) (xs ys : List ℕ) → length xs ≡ n → slice n (xs ++ ys) ≡ some xs
slice-append n xs ys h =
    let enough : ltb (length (xs ++ ys)) n ≡ false = ground (arith, length-append xs ys, h) in
    rw (enough, take-append n xs ys (sym h)) refl

pub process_data-opened :
    (c : Ciphers) (env : ProvEnv) (q : ProvDev) (after text mic plain : List ℕ) (d : ProvData)
    → length text ≡ 25
    → length mic ≡ 8
    → ltb 10 (rank q.dev.state) ≡ false
    → c.ccm_decrypt q.session_key (drop 3 q.session_nonce) text mic ≡ (true, plain)
    → let q' =
        (prov_complete env (
          moved prov_data
            (record (q.dev.contents) { data_pdu = plain ++ drop 25 q.dev.contents.data_pdu })
            q)).1 in
      of_data q'.dev.contents.data_pdu ≡ some d
      → process_data c env q 34 ((text ++ mic) ++ after) ≡ some (success, q', notify_data d ∷ [])
unfolding process_data
process_data-opened c env q after text mic plain d text_len mic_len early undone fits =
    let whole : length (text ++ mic) ≡ 33 =
      omega (arith, length-append text mic, text_len, mic_len) in
    rw
      (
        early,
        slice-append 33 (text ++ mic) after whole,
        take-append 25 text mic (sym text_len),
        drop-append 25 text mic (sym text_len),
        undone,
        fits,
      )
      refl
