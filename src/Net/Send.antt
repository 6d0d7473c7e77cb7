-- ===== src/Net/Send.antt =====
-- Sending network PDUs.
use meshx.Base.{
  ℕ, ◌+◌, ◌-◌, ◌*◌, ◌/◌, ◌%◌, ◌^◌, Bool, true, false, not, ◌||◌, Option, none, some, List, [], ◌∷◌,
  ◌++◌, length, take, replicate, ltb, ◌==◌, if◌then◌else◌, ◌>>=◌,
}
use meshx.Base.Bytes.{be16}
use meshx.Base.Errno.{
  Ret, success, length as bad_length, filter, connect as no_connect, inval_net_iface,
}
use meshx.Security.{Ciphers}
use meshx.NetIface.{Iface, loopback, find_iface, find_bearer, iface_ofilter, iface_get}
use meshx.Net.{
  Pdu, mic_len, net_encrypt, net_obfuscation, NetMsg, Out, bearer_adv_send, proxy_send, State, Node,
  net_receive, trans_pdu_max_len,
}

-- The PDU before it is encrypted.
unfoldable pub plain_pdu : NetMsg → Pdu
plain_pdu m = record {
  first = m.iv_index % 2 * 0x80 + m.net_key.nid % 0x80;
  header =
      ((if m.ctl then 0x80 else 0) + m.ttl % 0x80)
      ∷ (m.seq / 2 ^ 16 % 2 ^ 8 ∷ m.seq / 2 ^ 8 % 2 ^ 8 ∷ m.seq % 2 ^ 8 ∷ be16 m.src);
  body = be16 m.dst ++ (m.trans_pdu ++ replicate (trans_pdu_max_len - length m.trans_pdu) 0);
}

unfoldable pub net_pdu : Ciphers → NetMsg → Pdu
net_pdu c m =
    net_obfuscation c m.net_key m.iv_index
      (net_encrypt c m.net_key m.iv_index (length m.trans_pdu) (plain_pdu m))

abbrev pub to_bytes : Pdu → List ℕ
to_bytes p = p.first ∷ (p.header ++ p.body)

-- meshx_net_loopback. Without an interface for the loopback the filter is called with none.
unfoldable pub net_loopback :
    Ciphers → Node → NetMsg → List ℕ → ℕ → State → Option (Ret × State × List Out)
net_loopback c node m pdata len s = iface_get none s.ifaces >>= λ o.
    (o >>= λ iface.
    (iface_ofilter iface m.src m.dst s.ifaces >>= λ (pass, ifaces').
    (let s' : State = record s { ifaces = ifaces' } in
      if pass then net_receive c node (some iface) len pdata s' else some (filter, s', []))))

-- meshx_net_send_to_bearer
unfoldable pub send_to_bearer :
    Node → NetMsg → List ℕ → ℕ → ℕ → State → Option (Ret × State × List Out)
send_to_bearer node m pdata len iface s =
    iface_ofilter iface m.src m.dst s.ifaces >>= λ (pass, ifaces').
    (let s' : State = record s { ifaces = ifaces' } in
      if not pass
      then some (filter, s', [])
      else (find_iface iface ifaces'.net_iface_list >>= λ i. (elim i.bearer [
        | none ↦ some (no_connect, s', [])
        | some b ↦ find_bearer b ifaces'.bearers >>= λ bearer.
            (let bytes = take len pdata in
              some (
                node.bearer_answer b,
                s',
                (if bearer.is_adv then bearer_adv_send b bytes else proxy_send b bytes) ∷ [],
              ))
      ])))

-- The loop over all interfaces, with the flag for an interface that is not the loopback; the answers
-- are not looked at.
unfoldable pub send_to_all :
    Node → NetMsg → List ℕ → ℕ → List Iface → State → Option (Bool × State × List Out)
send_to_all node m pdata len [] s = some (false, s, [])
send_to_all node m pdata len (i ∷ is) s =
    let skip = send_to_all node m pdata len is s in
    let use_it = send_to_bearer node m pdata len i.addr s >>= λ (r, s', out).
    (send_to_all node m pdata len is s' >>= λ (valid, s'', more). some (true, s'', out ++ more)) in
    elim i.type [ loopback ↦ skip | _ ↦ use_it ]

-- meshx_net_send
unfoldable pub net_send : Ciphers → Node → NetMsg → State → Option (Ret × State × List Out)
net_send c node m s =
    let n = length m.trans_pdu in
    if ltb trans_pdu_max_len n || ltb (trans_pdu_max_len - mic_len m.ctl) n
    then some (bad_length, s, [])
    else (let pdata = to_bytes (net_pdu c m) in
        let len = 9 + n + mic_len m.ctl in
        elim m.net_iface [
          | none ↦
              if m.dst == node.node_addr
              then net_loopback c node m pdata len s
              else (send_to_all node m pdata len s.ifaces.net_iface_list s >>= λ (valid, s', out).
                  some (if valid then success else inval_net_iface, s', out))
          | some iface ↦ find_iface iface s.ifaces.net_iface_list >>= λ i. (elim i.type [
            | loopback ↦ net_loopback c node m pdata len s
            | _ ↦ send_to_bearer node m pdata len iface s
          ])
        ])
