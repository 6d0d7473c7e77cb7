-- ===== src/Prov/Handshake/RoundTrip.antt =====
-- Both sides end the run with the same keys, and the device has the data.
use meshx.Base.{◌≡◌}
use meshx.PbAdv.{start, device, provisioner}
use meshx.Prov.{ProvDev, adv_bearer}

-- A provisioner and a device on advertising bearers, with the same messages up to the start and the same
-- authentication value.
pub record Paired (a b : ProvDev) : Type 0 where
  pub role_a : a.dev.role ≡ provisioner
  pub role_b : b.dev.role ≡ device
  pub state_a : a.dev.state ≡ start
  pub state_b : b.dev.state ≡ start
  pub bearer_a : a.bearer_type ≡ adv_bearer
  pub bearer_b : b.bearer_type ≡ adv_bearer
  pub same_auth : a.auth_value ≡ b.auth_value
  pub same_invite : a.dev.contents.invite_pdu ≡ b.dev.contents.invite_pdu
  pub same_capabilites : a.dev.contents.capabilites_pdu ≡ b.dev.contents.capabilites_pdu
  pub same_start : a.dev.contents.start_pdu ≡ b.dev.contents.start_pdu
