-- ===== src/Cloud/Tunnel/Closing.antt =====
-- A closed gateway has no tunnel, and the others keep theirs.
use iot_cloud_commissioning.Prelude.{
  ℕ, ◌≡◌, refl, ap, ◌∙◌, ◌≢◌, Option, none, some, String, string_eq, nat_eq,
}
use iot_cloud_commissioning.Dict.{get, remove}
use iot_cloud_commissioning.Dict.Lookup.{get-remove_at, get-remove_off}
use iot_cloud_commissioning.Cloud.Tunnel.{
  GatewayTunnel, TunnelManager, fail_object, fail_pending, close_found, close_gateway,
}

object_keeps :
    (m : TunnelManager) (t : ℕ) (o : Option GatewayTunnel) → (fail_object m t o).tunnels ≡ m.tunnels
unfolding fail_object
object_keeps m t none = refl
object_keeps m t (some tunnel) = refl

pending_keeps : (m : TunnelManager) (t : ℕ) → (fail_pending m t).tunnels ≡ m.tunnels
unfolding fail_pending
pending_keeps m t = object_keeps m t (get m.objects t)

pub close_gateway-none :
    (m : TunnelManager) (g : String) → get (close_gateway m g).0.tunnels g ≡ none
unfolding close_gateway
close_gateway-none m g = by_found (get m.tunnels g) refl
  where
    by_found :
        (found : Option ℕ)
        → get m.tunnels g ≡ found
        → get (close_found m g found).0.tunnels g ≡ none
    by_found none e = e
    by_found (some t) e =
        ap (λ d. get d g) (pending_keeps (record m { tunnels = remove m.tunnels g }) t)
        ∙ get-remove_at m.tunnels g

pub close_gateway_others :
    (m : TunnelManager) (g x : String)
    → g ≢ x
    → get (close_gateway m g).0.tunnels x ≡ get m.tunnels x
unfolding close_gateway
close_gateway_others m g x apart = by_found (get m.tunnels g)
  where
    by_found : (found : Option ℕ) → get (close_found m g found).0.tunnels x ≡ get m.tunnels x
    by_found none = refl
    by_found (some t) =
        ap (λ d. get d x) (pending_keeps (record m { tunnels = remove m.tunnels g }) t)
        ∙ get-remove_off m.tunnels g x apart
