-- ===== src/Cloud/Tunnel/Tests.antt =====
-- A tunnel with one request that waits, and the theorems at concrete inputs.
use iot_cloud_commissioning.Prelude.{refl, none, some, [], ◌∷◌, arith, nat_eq, string_eq}
use iot_cloud_commissioning.Dict.{get}
use iot_cloud_commissioning.Cloud.Tunnel.{Outcome, GatewayTunnel, TunnelManager}
use iot_cloud_commissioning.Cloud.Tunnel.Registry.{IsReplaced, register-IsReplaced}

abbrev a_tunnel : GatewayTunnel
a_tunnel = record { gateway_id = "GW001"; pending = ("r1", 1) ∷ [] }

abbrev connected : TunnelManager
connected = record {
  tunnels = ("GW001", 0) ∷ [];
  objects = (0, a_tunnel) ∷ [];
  futures = (1, none) ∷ (2, some Outcome.unavailable) ∷ [];
  next = 3;
}

register-IsReplaced_example : IsReplaced connected "GW001" 0 a_tunnel
unfolding get
register-IsReplaced_example =
    register-IsReplaced connected "GW001" 0 a_tunnel refl refl (omega arith)
