-- ===== src/Net/Transfer.antt =====
-- From meshx_net_send of one node to the lower transport of another.
use meshx.Base.{
  ℕ, ◌+◌, ◌-◌, ◌^◌, ◌≤◌, ◌<◌, ◌≡◌, ◌⊎◌, refl, inl, inr, true, false, ◌||◌, some, List, [], ◌∷◌,
  ◌++◌, length, length-append, ltb, arith, Bool-cases,
}
use meshx.Base.Errno.{Ret}
use meshx.Security.{Ciphers}
use meshx.Key.{NetKey, normal}
use meshx.Nmc.{Nmc, check, add}
use meshx.NetIface.{
  Ifaces, Iface, adv, Bearer, find_iface, find_bearer, iface_ifilter, iface_ofilter,
}
use meshx.LowerTrans.Pdu.{is_valid_address}
use meshx.Net.{mic_len, NetMsg, lower_trans_receive, bearer_adv_send, State, Node, net_receive}
use meshx.Net.Send.{to_bytes, net_pdu, net_send, send_to_bearer}
use meshx.Net.Undone.{IsSound}
use meshx.Net.Parts.{IsSendable, sent}
use meshx.Net.RoundTrip.{length-sent, net_receive-sent}

-- The interface that a message names is connected to an advertising bearer, and its filter lets the
-- message pass.
pub record IsConnected (iface bearer : ℕ) (m : NetMsg) (s : State) : Type 0 where
  pub named : m.net_iface ≡ some iface
  pub before : Iface
  pub found : find_iface iface s.ifaces.net_iface_list ≡ some before
  pub radio : before.type ≡ adv
  pub counted : Ifaces
  pub passes : iface_ofilter iface m.src m.dst s.ifaces ≡ some (true, counted)
  pub after : Iface
  pub found_after : find_iface iface counted.net_iface_list ≡ some after
  pub linked : after.bearer ≡ some bearer
  pub the_bearer : Bearer
  pub found_bearer : find_bearer bearer counted.bearers ≡ some the_bearer
  pub advertises : the_bearer.is_adv ≡ true

-- The receiver has the key first and an IV index that fits; the message is for it, passes the filter of
-- the interface, and is new to its message cache.
pub record IsExpected (iface : ℕ) (m : NetMsg) (node : Node) (s : State) : Type 0 where
  pub first_key : NetKey
  pub more_keys : List NetKey
  pub keys : node.net_keys ≡ first_key ∷ more_keys
  pub state : first_key.key_state ≡ normal
  pub same_key : first_key.value0 ≡ m.net_key
  pub near : (node.node_iv_index ≡ m.iv_index) ⊎ (node.node_iv_index ≡ m.iv_index + 1)
  pub word : node.node_iv_index < 2 ^ 32
  pub src_valid : is_valid_address m.src ≡ true
  pub dst_valid : is_valid_address m.dst ≡ true
  pub mine : m.dst ≡ node.node_addr
  pub counted : Ifaces
  pub passes : iface_ifilter iface s.ifaces ≡ some (true, counted)
  pub new : check (record { src = m.src; seq = m.seq }) s.nmc ≡ some true
  pub cached : Nmc
  pub answer : Ret
  pub added : add (record { src = m.src; seq = m.seq }) s.nmc ≡ some (answer, cached)

send_to_bearer-sent :
    (c : Ciphers) (node : Node) (iface bearer : ℕ) (m : NetMsg) (s : State)
    (h : IsConnected iface bearer m s)
    → send_to_bearer node m
        (to_bytes (net_pdu c m))
        (9 + length m.trans_pdu + mic_len m.ctl)
        iface
        s
      ≡ some (
        node.bearer_answer bearer,
        record s { ifaces = h.counted },
        bearer_adv_send bearer (sent c m) ∷ [],
      )
unfolding send_to_bearer sent
send_to_bearer-sent c node iface bearer m s h =
    rw (send_to_bearer, h.passes, h.found_after, h.linked, h.found_bearer, h.advertises) refl

net_send-sent :
    (c : Ciphers) (node : Node) (iface bearer : ℕ) (m : NetMsg) (s : State)
    (h : IsConnected iface bearer m s)
    → IsSendable m
    → net_send c node m s
      ≡ some (
        node.bearer_answer bearer,
        record s { ifaces = h.counted },
        bearer_adv_send bearer (sent c m) ∷ [],
      )
unfolding net_send
net_send-sent c node iface bearer m s h fits =
    let n = length m.trans_pdu in
    let most = fits.most in
    let fits_pdu : (ltb 20 n || ltb (20 - mic_len m.ctl) n) ≡ false = ground arith in
    simp (net_send, fits_pdu, h.named, h.found, h.radio)
      (send_to_bearer-sent c node iface bearer m s h)

-- A message whose fields fit is sent on an interface that is connected to an advertising bearer: the
-- bearer gets one PDU of 13 bytes or more. When these bytes, with at least 16 others after them in the
-- memory they are read from, arrive at a node that expects the message, its lower transport gets exactly this message, with the interface it came
-- in by. The ciphers are relied on for undoing themselves and for the lengths of their results.
pub net_send-net_receive :
    (c : Ciphers) (sender receiver : Node) (iface bearer iface' : ℕ) (m : NetMsg) (junk : List ℕ)
    (s s' : State)
    → IsSound c
    → IsSendable m
    → (h : IsConnected iface bearer m s) → (e : IsExpected iface' m receiver s') → 16 ≤ length junk
    → (bytes : List ℕ) × (net_send c sender m s
        ≡ some (
          sender.bearer_answer bearer,
          record s { ifaces = h.counted },
          bearer_adv_send bearer bytes ∷ [],
        ))
      × (13 ≤ length bytes)
      × (net_receive c receiver (some iface') (length bytes) (bytes ++ junk) s'
          ≡ some (
            receiver.lower,
            record { ifaces = e.counted; nmc = e.cached },
            lower_trans_receive (record m { net_iface = some iface' }) ∷ [],
          ))
net_send-net_receive c sender receiver iface bearer iface' m junk s s' sound fits h e behind =
    let len = length-sent c m sound fits in
    let four : 4 ≤ mic_len m.ctl = elim (Bool-cases m.ctl) [
      | inl b ↦ rw b (omega arith)
      | inr b ↦ rw b (omega arith)
    ] in
    let least : 13 ≤ length (sent c m) = omega (arith, len, four) in
    let room : 29 ≤ length (sent c m ++ junk) =
      omega (arith, length-append (sent c m) junk, least, behind) in
    (
      sent c m,
      net_send-sent c sender iface bearer m s h fits,
      least,
      rw len (
          net_receive-sent c receiver iface' m junk s' e.first_key e.more_keys e.counted e.cached
            e.answer sound fits room e.keys e.state e.same_key e.near e.word e.src_valid e.dst_valid
            e.mine e.passes e.new e.added),
    )
