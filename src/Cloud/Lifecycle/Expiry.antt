-- ===== src/Cloud/Lifecycle/Expiry.antt =====
-- Whatever the order of the steps, an open tunnel has a task that will shut it.
use iot_cloud_commissioning.Prelude.{
  ℕ, ◌+◌, ◌*◌, ◌≡◌, refl, sym, ◌∙◌, subst, ◌≢◌, Bool, true, false, Option, none, some, List, [],
  ◌∷◌, String, arith, string_eq, nat_eq, ◌==◌, eq_self, eq_iff, if◌then◌else◌,
}
use iot_cloud_commissioning.Dict.{get, put}
use iot_cloud_commissioning.Dict.Purge.{Distinct, unless, get-purge}
use iot_cloud_commissioning.Cloud.Http.{Response, ok, http_error}
use iot_cloud_commissioning.Cloud.Allowlist.{allows, remove_lease, remove_if_current, expires_at}
use iot_cloud_commissioning.Cloud.Allowlist.View.{get-remove_if_current}
use iot_cloud_commissioning.Cloud.Allowlist.Removal.{allows-IsFewer}
use iot_cloud_commissioning.Cloud.Console.{
  TunnelConsoleSession, TunnelSessionManager, revoke_gateway,
}
use iot_cloud_commissioning.Cloud.Tunnel.Closing.{close_gateway-none}
use iot_cloud_commissioning.Cloud.Lifecycle.{
  ending, TunnelService, ui_open_gateway_tunnel, ui_close_gateway_tunnel, removed,
  expire_active_tunnel, end_task, on_task, Step, opens, closes, wakes, ends, reads_status,
  checks_lease, accepts, disconnects, starts_session, start_session, take_step, take_steps,
}
use iot_cloud_commissioning.Cloud.Lifecycle.Guards.{
  waiting_task, IsGuarded, fewer_leases-IsGuarded, Distinct-expire_locked, expire_locked-IsPart,
}
use iot_cloud_commissioning.Cloud.Lifecycle.Schedule.{unschedule-IsGuarded}
use iot_cloud_commissioning.Cloud.Lifecycle.Steps.{
  shut_gateway-IsGuarded, reserve-IsGuarded, wakes-IsGuarded, ends-IsGuarded, on_task-IsGuarded,
}

allows-IsGuarded :
    (s : TunnelService) (g : String) (now : ℕ)
    → IsGuarded s
    → IsGuarded (record s { leases = (allows s.leases g now).0 })
allows-IsGuarded s g now h =
    let fewer = allows-IsFewer s.leases g now h.distinct in
    fewer_leases-IsGuarded s (allows s.leases g now).0 h fewer.distinct fewer.part

ui_open_gateway_tunnel-IsGuarded :
    (checks : Response (Unit {0})) (maximum : ℕ) (g : String) (minutes now later : ℕ)
    (s : TunnelService)
    → IsGuarded s
    → IsGuarded (ui_open_gateway_tunnel checks maximum g minutes now later s)
unfolding ui_open_gateway_tunnel
ui_open_gateway_tunnel-IsGuarded (http_error code detail) maximum g minutes now later s h = h
ui_open_gateway_tunnel-IsGuarded (ok u) maximum g minutes now later s h =
    reserve-IsGuarded s g (now + 60 * minutes) maximum later h

ui_close_gateway_tunnel-IsGuarded :
    (checks : Response (Unit {0})) (g : String) (s : TunnelService)
    → IsGuarded s
    → IsGuarded (ui_close_gateway_tunnel checks g s)
unfolding ui_close_gateway_tunnel remove_lease
ui_close_gateway_tunnel-IsGuarded (http_error code detail) g s h = h
ui_close_gateway_tunnel-IsGuarded (ok u) g s h =
    shut_gateway-IsGuarded _ g (unschedule-IsGuarded s g h)

start_session-IsGuarded :
    (connected : Bool) (s : TunnelService) (g subject : String) (ttl : Option ℕ) (id : String)
    (first now : ℕ)
    → IsGuarded s
    → IsGuarded (start_session connected s g subject ttl id first now)
unfolding start_session
start_session-IsGuarded false s g subject ttl id first now h = h
start_session-IsGuarded true s g subject ttl id first now h = record {
  distinct = h.distinct;
  guarded = h.guarded;
  owned = h.owned;
  unused = h.unused;
}

take_step-IsGuarded :
    (maximum : ℕ) (s : TunnelService) (e : Step) → IsGuarded s → IsGuarded (take_step maximum s e)
unfolding take_step expires_at
take_step-IsGuarded maximum s (opens checks g minutes now later) h =
    ui_open_gateway_tunnel-IsGuarded checks maximum g minutes now later s h
take_step-IsGuarded maximum s (closes checks g) h = ui_close_gateway_tunnel-IsGuarded checks g s h
take_step-IsGuarded maximum s (wakes k) h =
    on_task-IsGuarded expire_active_tunnel s k h (λ task e. wakes-IsGuarded s k task h e)
take_step-IsGuarded maximum s (ends k) h =
    on_task-IsGuarded end_task s k h (λ task e. ends-IsGuarded s k task h e)
take_step-IsGuarded maximum s (reads_status g now) h =
    fewer_leases-IsGuarded s _ h (Distinct-expire_locked s.leases now h.distinct)
      (expire_locked-IsPart s.leases now h.distinct)
take_step-IsGuarded maximum s (checks_lease g now) h = allows-IsGuarded s g now h
take_step-IsGuarded maximum s (accepts g) h = record {
  distinct = h.distinct;
  guarded = h.guarded;
  owned = h.owned;
  unused = h.unused;
}
take_step-IsGuarded maximum s (disconnects g t) h = record {
  distinct = h.distinct;
  guarded = h.guarded;
  owned = h.owned;
  unused = h.unused;
}
take_step-IsGuarded maximum s (starts_session g subject ttl id first now) h =
    start_session-IsGuarded _ s g subject ttl id first now h

-- From a service in which every lease has a registered and waiting expiry task for its own end,
-- such as one that just started, every sequence of openings, closings, wake-ups and endings of
-- tasks, cancelled or not, checks, connections and sessions leads to such a service: no lease is
-- left without the task that will end it, and no superseded task stands for a renewed lease.
pub take_steps-IsGuarded :
    (maximum : ℕ) (s : TunnelService) (es : List Step)
    → IsGuarded s
    → IsGuarded (take_steps maximum s es)
unfolding take_steps
take_steps-IsGuarded maximum s [] h = h
take_steps-IsGuarded maximum s (e ∷ es) h =
    take_steps-IsGuarded maximum (take_step maximum s e) es (take_step-IsGuarded maximum s e h)

-- No lease, no session and no tunnel.
pub record IsShut (g : String) (s : TunnelService) : Type 0 where
  pub no_lease : get s.leases g ≡ none
  pub no_tunnel : get s.manager.tunnels g ≡ none
  pub no_session :
      (id : String) (x : TunnelConsoleSession)
      → get s.sessions.sessions id ≡ some x
      → x.gateway_id ≢ g

no_session-revoke :
    (m : TunnelSessionManager) (g id : String) (x : TunnelConsoleSession)
    → Distinct m.sessions
    → get (revoke_gateway m g).sessions id ≡ some x
    → x.gateway_id ≢ g
unfolding revoke_gateway
no_session-revoke m g id x d e same = kept (get m.sessions id) (
    sym (get-purge (λ (_ : String) (s : TunnelConsoleSession). s.gateway_id == g) m.sessions id d)
    ∙ e)
  where
    kept :
        (o : Option TunnelConsoleSession)
        → unless (λ (s : TunnelConsoleSession). s.gateway_id == g) o ≡ some x
        → ⊥
    kept none p = cc p
    kept (some y) p = ground (arith, p, same, eq_iff y.gateway_id g)

-- In such a service, with different session ids, the waiting task of a gateway's lease is there,
-- and when it wakes the gateway has no lease, no tunnel and no session.
pub wakes-IsShut :
    (maximum : ℕ) (s : TunnelService) (g : String) (t : ℕ)
    → IsGuarded s
    → Distinct s.sessions.sessions
    → get s.leases g ≡ some t
    → (k : ℕ) × (get s.expiry_tasks g ≡ some k) × IsShut g (take_step maximum s (wakes k))
unfolding take_step expire_active_tunnel
wakes-IsShut maximum s g t h d lease =
    let (k, registered, waits) = h.guarded g t lease in
    (
      k,
      registered,
      subst (λ o. IsShut g (on_task expire_active_tunnel s k o)) (sym waits)
          (subst (λ current. IsShut g (removed (after k) g current)) (sym (gone g).0)
            (record {
              no_lease = (gone g).1 ∙ rw (eq_self g) refl;
              no_tunnel = close_gateway-none s.manager g;
              no_session = λ id x e. no_session-revoke s.sessions g id x d e;
            })),
    )
  where
    gone :
        (x : String)
        → ((remove_if_current s.leases g t).1 ≡ true)
          × (get (remove_if_current s.leases g t).0 x ≡ (if g == x then none else get s.leases x))
    gone x = get-remove_if_current s.leases g x t lease

    after : ℕ → TunnelService
    after k = record s {
      leases = (remove_if_current s.leases g t).0;
      tasks = put s.tasks k (record (waiting_task g t) { state = ending });
    }
