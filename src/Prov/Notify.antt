-- ===== src/Prov/Notify.antt =====
-- meshx_prov_handle_notify: what the bearer tells, and what is called because of it.
use meshx.Base.{
  ℕ, true, false, ◌||◌, Option, none, some, List, [], ◌∷◌, ◌++◌, map, ◌==◌, if◌then◌else◌,
}
use meshx.PbAdv.{Out, link_open_result, link_closed, trans_acked, rank}
use meshx.PbAdv.Timer.{link_close}
use meshx.Prov.{BearerType, adv_bearer, gatt_bearer, other_bearer, ProvDev}

-- What the node parameters hold: the address, 0 if it is unassigned, and the beacons' interval.
pub record NodeParams : Type 0 where
  pub node_addr : ℕ
  pub udb_interval : ℕ

-- meshx_beacon_stop and meshx_beacon_start of the unprovisioned device beacon, the bearer's messages,
-- and meshx_notify.
pub data Call : Type 0 where
  beacon_stop : Call
  beacon_start : ℕ → Call
  bearer_call : Out → Call
  notify : Out → Call

-- meshx_prov_delete_device: `none` is a device that is deleted.
abbrev pub delete_device : ProvDev → Option ProvDev
delete_device p = elim p.bearer_type [
  | adv_bearer ↦ none
  | gatt_bearer ↦ some p
  | other_bearer ↦ some p
]

-- The link is closed after the acknowledgement of the last message, for reason 0 or 2.
abbrev pub close_after : BearerType → ℕ → ProvDev → ProvDev × List Call
close_after adv_bearer state p =
    let (done, d, out) = link_close (if state == 11 then 0 else 2) p.dev in
    (record p { dev = d }, map bearer_call out)
close_after gatt_bearer state p = (p, [])
close_after other_bearer state p = (p, [])

-- meshx_prov_handle_notify, with the type of the bearer that it is called for.
unfoldable pub handle_notify : NodeParams → BearerType → Out → ProvDev → Option ProvDev × List Call
handle_notify n b (link_open_result a true) p =
    (some p, beacon_stop ∷ notify (link_open_result a true) ∷ [])
handle_notify n b (link_open_result a false) p =
    (delete_device p, notify (link_open_result a false) ∷ [])
handle_notify n b (link_closed a reason) p = (
  delete_device p,
  (if n.node_addr == 0 then [] else beacon_start n.udb_interval ∷ [])
      ++ (notify (link_closed a reason) ∷ []),
)
handle_notify n b (trans_acked a s) p =
    if (rank s == 12) || (rank s == 11)
    then (let (p', calls) = close_after b (rank s) p in
        (some p', calls ++ (notify (trans_acked a s) ∷ [])))
    else (some p, notify (trans_acked a s) ∷ [])
handle_notify n b o p = (some p, notify o ∷ [])
