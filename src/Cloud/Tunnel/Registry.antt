-- ===== src/Cloud/Tunnel/Registry.antt =====
-- A gateway that reconnects replaces its tunnel, and the old connection can do no harm.
use iot_cloud_commissioning.Prelude.{
  ℕ, ◌<◌, ◌≡◌, ◌≢◌, refl, sym, ap, ◌∙◌, subst, Bool, true, false, Option, none, some, [], ◌∷◌,
  String, arith, nat_eq, string_eq, inl, inr, In, eq_iff, eq_self,
}
use iot_cloud_commissioning.Dict.{Dict, get, put, get-put}
use iot_cloud_commissioning.Cloud.Tunnel.{
  Outcome, GatewayTunnel, TunnelManager, finish, fail_each, fail_object, fail_pending,
  fail_registered, register, is_tunnel, unregister, get_tunnel,
}
use iot_cloud_commissioning.Cloud.Tunnel.Futures.{get-finish, Settles, fail_each-Settles}

-- A future that someone still waits for.
abbrev pub is_open : Option (Option Outcome) → Bool
is_open (some none) = true
is_open _ = false

closed_after :
    (fs gs : Dict ℕ (Option Outcome)) (f : ℕ)
    → Settles fs gs
    → is_open (get fs f) ≡ false
    → is_open (get gs f) ≡ false
closed_after fs gs f s h = by_state (get fs f) refl
  where
    by_state : (x : Option (Option Outcome)) → get fs f ≡ x → is_open (get gs f) ≡ false
    by_state none e = ap is_open (s.absent f e)
    by_state (some (some o)) e = ap is_open (s.kept f o e)
    by_state (some none) e = absurd (cc (sym (ap is_open e) ∙ h))

fail_each-closed :
    (pending : Dict String ℕ) (fs : Dict ℕ (Option Outcome)) (name : String) (f : ℕ)
    → In (name, f) pending
    → is_open (get (fail_each pending fs) f) ≡ false
unfolding fail_each
fail_each-closed [] fs name f m = elim m [ ]
fail_each-closed ((other, g) ∷ pending) fs name f (inl e) =
    closed_after (finish Outcome.unavailable fs g) _ f
      (fail_each-Settles pending (finish Outcome.unavailable fs g))
      (subst (λ (x : String × ℕ). is_open (get (finish Outcome.unavailable fs g) x.1) ≡ false)
        (sym e) (ground (arith, get-finish Outcome.unavailable fs g g)))
fail_each-closed ((other, g) ∷ pending) fs name f (inr m) =
    fail_each-closed pending (finish Outcome.unavailable fs g) name f m

fail_pending-tunnels :
    (m : TunnelManager) (o : Option ℕ) → (fail_registered m o).tunnels ≡ m.tunnels
unfolding fail_registered fail_pending
fail_pending-tunnels m none = refl
fail_pending-tunnels m (some t) = by_object (get m.objects t)
  where
    by_object : (o : Option GatewayTunnel) → (fail_object m t o).tunnels ≡ m.tunnels
    by_object none = unfold fail_object in refl
    by_object (some tunnel) = unfold fail_object in refl

fail_registered-next : (m : TunnelManager) (o : Option ℕ) → (fail_registered m o).next ≡ m.next
unfolding fail_registered fail_pending
fail_registered-next m none = refl
fail_registered-next m (some t) = by_object (get m.objects t)
  where
    by_object : (o : Option GatewayTunnel) → (fail_object m t o).next ≡ m.next
    by_object none = unfold fail_object in refl
    by_object (some tunnel) = unfold fail_object in refl

-- The state after a gateway with tunnel `t` has connected again.
pub record IsReplaced (m : TunnelManager) (gateway : String) (t : ℕ) (tunnel : GatewayTunnel)
    : Type 0 where
  pub current : get_tunnel (register m gateway).0 gateway ≡ some (register m gateway).1
  pub replaced : (register m gateway).2 ≡ some t
  pub late : unregister (register m gateway).0 gateway t ≡ (register m gateway).0
  pub closed :
      (name : String) (f : ℕ)
      → In (name, f) tunnel.pending
      → is_open (get (register m gateway).0.futures f) ≡ false
  pub others : (g : String) → g ≢ gateway → get_tunnel (register m gateway).0 g ≡ get_tunnel m g

-- A gateway that connects while its old tunnel is registered gets a new tunnel; every request
-- that waited on the old one has ended, the late unregistration of the old one changes nothing,
-- and other gateways keep their tunnels.
pub register-IsReplaced :
    (m : TunnelManager) (gateway : String) (t : ℕ) (tunnel : GatewayTunnel)
    → get m.tunnels gateway ≡ some t
    → get m.objects t ≡ some tunnel
    → t < m.next
    → IsReplaced m gateway t tunnel
unfolding register get_tunnel unregister
register-IsReplaced m gateway t tunnel e k b = record {
  current = ground (arith, get-put n.tunnels gateway gateway n.next, eq_self gateway);
  replaced = e;
  late = rw (not_current) refl;
  closed = λ name f i.
      subst (λ (x : Dict ℕ (Option Outcome)). is_open (get x f) ≡ false) (sym failed)
        (fail_each-closed tunnel.pending m.futures name f i);
  others = λ g d. ground (
    arith,
    get-put n.tunnels gateway g n.next,
    eq_iff gateway g,
    fail_pending-tunnels m (get m.tunnels gateway),
  );
}
  where
    n : TunnelManager
    n = fail_registered m (get m.tunnels gateway)

    not_current : is_tunnel t (get (put n.tunnels gateway n.next) gateway) ≡ false
    not_current = ground (
      arith,
      get-put n.tunnels gateway gateway n.next,
      eq_self gateway,
      b,
      fail_registered-next m (get m.tunnels gateway),
    )

    failed :
        (fail_registered m (get m.tunnels gateway)).futures ≡ fail_each tunnel.pending m.futures
    failed =
        rw (e)
          (unfold fail_registered in unfold fail_pending in rw (k) (unfold fail_object in refl))
