-- ===== src/Lib.antt =====
-- A verification library for meshx, a Bluetooth mesh stack in C. Functions of the C code are
-- functions of the model on explicit state; the comment at the top of each file names the C file
-- it is about.
--
-- Parts and how they interact. A node sends each message under a nonce of the transmit IV index
-- and a sequence number. mesh/node/meshx_seq.c hands out the sequence numbers,
-- mesh/node/meshx_iv_index.c moves the IV index and clears the sequence numbers and the replay
-- protection list (mesh/node/meshx_rpl.c) when it does; the lower transport
-- (mesh/transport/meshx_lower_trans.c) delays that while it is busy.
-- mesh/transport/meshx_upper_trans.c encrypts messages of mesh/access/meshx_access.c for the lower
-- transport, and mesh/network/meshx_net.c encrypts a PDU with a network key of
-- mesh/node/meshx_key.c, derived by mesh/security/meshx_security.c, and sends it on the interfaces
-- of mesh/network/meshx_net_iface.c. On the way in it tries the keys and chooses the IV index;
-- mesh/network/meshx_nmc.c drops messages seen before and meshx_rpl.c drops replays. A device
-- joins by provisioning: over an advertising bearer mesh/provision/meshx_pb_adv.c keeps the link,
-- cuts provisioning PDUs into segments and acknowledges them, and mesh/provision/meshx_prov.c
-- above it runs the protocol: it checks the order of the messages, confirms the authentication
-- value, derives the keys and encrypts the data that make the device a node. Network beacons of
-- mesh/beacon/meshx_beacon.c tell the other nodes the IV index and end the refresh of a key. Over
-- a GATT bearer messages go through the proxy protocol, mesh/proxy/meshx_proxy.c.
--
-- Files.
--   Base: shared names; Base/Bools, Base/Lists, Base/Bits, Base/Bytes, Base/Memory, Base/Errno:
--   tests, arrays as lists, bits of words, bytes, memcpy, the return codes of
--   common/meshx_errno.h.
--   Seq (meshx_seq_* as init, deinit, get, set, use_seq, clear): Seq/Inv has the invariant and
--   single calls, Seq/Uses sequences of calls and clearing.
--   Rpl (meshx_rpl_* as init, deinit, update, clear, check, is_full; search is the loop of
--   update): Rpl/Inv, and Rpl/Replay for a check after an update.
--   Nmc (meshx_nmc_* as init, deinit, add, clear, check): Nmc/Ring.
--   Iv (meshx_iv_index_* and meshx_iv_update_*; tick is the timer's handler, transit what
--   meshx_lower_trans_tx_task_finish does): Iv/Phase, Iv/Branches and Iv/Update for one update,
--   Iv/Timing for the timer, Iv/Trace for events in any order, Iv/Nonce for the order of nonces.
--   Proxy (meshx_proxy_send as send, meshx_proxy_receive as receive): Proxy/RoundTrip,
--   Proxy/Multiple, Proxy/Faults.
--   LowerTrans (mesh/transport/meshx_lower_trans.c): LowerTrans/Pdu has the formats,
--   LowerTrans/Segment meshx_lower_trans_send_seg_msg, LowerTrans/Tx the transmit tasks
--   (meshx_lower_trans_tx_task_run as run, _finish as finish, _try as task_try; process_seg_msg,
--   handle_tx_timeout, recv_block_ack, is_busy). Segment/Window is about sequence numbers;
--   Tx/Lists and Tx/Choice have lemmas on the lists, Tx/Inv the invariant, Tx/Run and Tx/Steps
--   that it is kept, Tx/Trace any sequence of events. LowerTrans/Rx has the receive tasks
--   (meshx_lower_trans_rx_task_request as request, _release as release) and Rx/Receive
--   meshx_lower_trans_receive_seg_msg, with Receive/Order about the segments of a message in
--   order, and Receive/Bits and Receive/Faults about the bits of missing segments. LowerTrans/Send
--   is meshx_lower_trans_send. LowerTrans/Incoming is meshx_lower_trans_receive (as
--   lower_receive), on the tasks of both directions: Incoming/Acks is about acknowledgements,
--   Incoming/Control about a control message and Incoming/Whole about a short message from node to
--   node.
--   Crc (meshx_3gpp_crc as crc), and PbAdv, which has the types of mesh/provision/meshx_pb_adv.c:
--   PbAdv/Send builds and sends PDUs (pb_adv_* as *_pdu and pdu_of, pb_adv_send_trans as
--   send_trans), PbAdv/Timer has the requests of the layer above (meshx_pb_adv_* as request_*) and
--   the timer (meshx_pb_adv_handle_*), PbAdv/Link the links (meshx_pb_adv_link_*, recv_link_*,
--   recv_bearer_ctl), PbAdv/Trans the receipt of transactions (meshx_pb_adv_recv_trans_* as
--   recv_trans_*, each with a part for the device alone, recv_start, recv_continue, recv_ack;
--   meshx_pb_adv_receive as receive). Timer/GiveUp and Timer/Abort are about the timer. Trans/Fit
--   and Trans/Bounds are about the buffer, Trans/Stored, Seen, Sent, Arrive and RoundTrip about a
--   transaction from end to end, Trans/Unmoved about segments without effect, Trans/Faults and
--   Trans/Stuck about refused first segments.
--   Prov (mesh/provision/meshx_prov.c, whose device has the one of PbAdv as its first member):
--   Prov/Auth has the authentication value and the checks of a start message, Prov/Confirm the
--   confirmations and keys (meshx_prov_generate_confirmation as generate_confirmation), Prov/Send
--   the calls that send (meshx_prov_invite and so on as prov_invite, meshx_prov_data as
--   send_data), Prov/Process meshx_prov_pdu_process with a function for each type, Prov/Notify
--   meshx_prov_handle_notify. Prov/Ensures and Prov/Order are about each branch of the processing,
--   Prov/Events and its children Events/Link and Events/Forward about calls, PDUs and timeouts in
--   any order, Prov/Handshake and its children about a run of a provisioner and a device, message
--   by message, Prov/Data about the data as bytes, Prov/AuthValue and Prov/Faults about the values
--   that are set and the PDUs that should not be taken.
--   Security (meshx_s1, meshx_k1 to meshx_k4). Key has the network keys of mesh/node/meshx_key.c
--   (meshx_net_key_* as net_key_*), Key/App the application keys, Key/Dev the device keys,
--   Key/Refresh what an update of a key leads to.
--   Upper (meshx_upper_trans_encrypt and meshx_upper_trans_send as upper_encrypt and upper_send),
--   Upper/Plain for long messages, Upper/Receive (meshx_upper_trans_decrypt and
--   meshx_upper_trans_receive as upper_decrypt and upper_receive), Upper/RoundTrip. Access
--   (meshx_access_opcode_to_buf, meshx_access_buf_to_opcode, meshx_access_send). NetIface
--   (meshx_net_iface_* as iface_*). Net (mesh/network/meshx_net.c: meshx_net_receive as
--   net_receive, its parts choose_iv_index, try_keys and deliver), Net/Send (meshx_net_send as
--   net_send), Net/Undone, Net/Parts, Net/RoundTrip and Net/Transfer for a PDU from node to node,
--   Net/Short for short PDUs.
--   Beacon (mesh/beacon/meshx_beacon.c: meshx_beacon_* as beacon_*, snb_bytes a network beacon,
--   receive_snb the part of meshx_beacon_receive about one), Beacon/Secure for a network beacon
--   from node to node.
--   The modules named Tests hold runs at concrete states.
--
-- Conventions. Unsigned words are native numbers with their wrap written out. A static pointer
-- that may be null is an Option of the array behind it. A result `none` is an abort by
-- MESHX_ASSERT, an access out of bounds, or a loop that does not end; each file says which. What
-- is not code of the repository is an argument, the ciphers among it, of which Net/Undone says
-- what is relied on: whether malloc or a timer succeeds, the MTU of a bearer, the answers of other
-- layers. Trace output is left out. In PbAdv the calls of the bearer and of the layer above are
-- outputs, in their order, and what other code answers is in a record Env; what the layer above
-- does in such a call is not part of the step. A device is known by a number that stands for its
-- address; recv_seg, an array of bytes, is the word of its bits.
--
-- Bounds and fuel. The loop of meshx_rpl_update has fuel: 257 rounds, one more than its uint8_t
-- counter has values; since a round changes nothing but the counter, a loop that is not over then
-- is never over, which is also proved for every number of rounds. In LowerTrans, ending a transmit
-- task starts the next, which may end at once: the fuel is the number of pending tasks, of which
-- each start takes one, and that it is enough is part of what is proved. A task is known by a
-- number that stands for its address; its timer is left out, so that a timeout may come for any
-- active task. In Iv the left shift of a negative int32_t, undefined in C, is read in two's
-- complement. In Nmc the padding of the compared structures is left out. In Iv/Trace an
-- acknowledgement takes the transmit index and a sequence number together, as
-- meshx_lower_trans_seg_ack does; any other message takes a sequence number and has the index that
-- stands in its context, which may be another one. Nonces of the latter kind are left out there.
--
-- Not modelled: the linked lists and the node parameters, which are left for later; platform
-- wrappers, traces, command line and the ciphers, which are input and output or other projects'
-- code.
pub mod Base
pub mod Seq
pub mod Rpl
pub mod Nmc
pub mod Iv
pub mod Proxy
pub mod LowerTrans
pub mod Crc
pub mod PbAdv
pub mod Prov
pub mod Security
pub mod Key
pub mod NetIface
pub mod Net
pub mod Access
pub mod Upper
pub mod Beacon
