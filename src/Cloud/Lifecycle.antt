-- ===== src/Cloud/Lifecycle.antt =====
-- The life of an operator's tunnel in cloud-api/app/main.py: `ui_open_gateway_tunnel`,
-- `ui_close_gateway_tunnel`, `_schedule_tunnel_expiry`, `_expire_active_tunnel`, and the admission
-- of `edge_tunnel`, on the state of cloud-api/app/tunnel.py. Gateways of the relay canary, which
-- take another path, are left out. An expiry task is an object, so it is a number in a store: it
-- waits until its time, then or when it is cancelled it is ending, and when its `finally` has run
-- it is over. Other steps may come between, and a task may wake at any time.
pub mod Guards
mod Schedule
mod Steps
pub mod Expiry
mod Tests
use iot_cloud_commissioning.Prelude.{
  ℕ, suc, ◌+◌, ◌*◌, Bool, true, false, not, ◌&&◌, Option, none, some, List, [], ◌∷◌, String, leb,
  nat_beq, nat_eq, if◌then◌else◌, string_eq, is_some,
}
use iot_cloud_commissioning.Dict.{Dict, get, put, remove}
use iot_cloud_commissioning.Cloud.Http.{Response, ok, http_error, refuse_if, ◌>>=◌, ◌>>◌}
use iot_cloud_commissioning.Cloud.Allowlist.{
  Leases, reserve, allows, remove_lease, remove_if_current, expires_at,
}
use iot_cloud_commissioning.Cloud.Console.{TunnelSessionManager, create, revoke_gateway}
use iot_cloud_commissioning.Cloud.Tunnel.{
  TunnelManager, register, unregister, close_gateway, is_connected, active_tunnels,
}

pub data TaskState : Type 0 where
  waiting ending over : TaskState

pub record ExpiryTask : Type 0 where
  pub gateway_id : String
  pub expires_at : ℕ
  pub state : TaskState

pub record TunnelService : Type 0 where
  pub leases : Leases
  pub sessions : TunnelSessionManager
  pub manager : TunnelManager
  pub expiry_tasks : Dict String ℕ
  pub tasks : Dict ℕ ExpiryTask
  pub next_task : ℕ

-- `task.cancel()` reaches a task at its next await, unless it is done.
abbrev pub cancelled : TaskState → TaskState
cancelled over = over
cancelled _ = ending

unfoldable pub cancel_found : Dict ℕ ExpiryTask → ℕ → Option ExpiryTask → Dict ℕ ExpiryTask
cancel_found tasks k none = tasks
cancel_found tasks k (some task) = put tasks k (record task { state = cancelled task.state })

unfoldable pub cancel_task : Dict ℕ ExpiryTask → Option ℕ → Dict ℕ ExpiryTask
unfolding cancel_found
cancel_task tasks none = tasks
cancel_task tasks (some k) = cancel_found tasks k (get tasks k)

unfoldable pub schedule_tunnel_expiry : TunnelService → String → ℕ → TunnelService
unfolding cancel_task
schedule_tunnel_expiry s gateway expires_at = record s {
  tasks =
      put (cancel_task s.tasks (get s.expiry_tasks gateway)) s.next_task
        (record { gateway_id = gateway; expires_at = expires_at; state = waiting });
  expiry_tasks = put s.expiry_tasks gateway s.next_task;
  next_task = suc s.next_task;
}

-- What follows the answer of `reserve`, which may have dropped leases that ran out.
unfoldable pub reserved : TunnelService → String → ℕ → Bool → TunnelService
unfolding schedule_tunnel_expiry
reserved s gateway expires_at true = schedule_tunnel_expiry s gateway expires_at
reserved s gateway expires_at false = s

-- `checks` are those before the lease: the caller's role, the site and the kill switch. The clock
-- is read at `now`, and again at `later` in `reserve`.
unfoldable pub ui_open_gateway_tunnel :
    Response (Unit {0}) → ℕ → String → ℕ → ℕ → ℕ → TunnelService → TunnelService
unfolding reserved
ui_open_gateway_tunnel (http_error code detail) maximum gateway minutes now later s = s
ui_open_gateway_tunnel (ok u) maximum gateway minutes now later s =
    let expiry = now + 60 * minutes in
    let (leases, admitted) = reserve s.leases gateway expiry maximum later in
    reserved (record s { leases = leases }) gateway expiry admitted

-- Sessions and the tunnel of the gateway end.
abbrev pub shut_gateway : TunnelService → String → TunnelService
shut_gateway s gateway = record s {
  sessions = revoke_gateway s.sessions gateway;
  manager = (close_gateway s.manager gateway).0;
}

unfoldable pub ui_close_gateway_tunnel :
    Response (Unit {0}) → String → TunnelService → TunnelService
unfolding cancel_task
ui_close_gateway_tunnel (http_error code detail) gateway s = s
ui_close_gateway_tunnel (ok u) gateway s =
    shut_gateway
      (record s {
        tasks = cancel_task s.tasks (get s.expiry_tasks gateway);
        expiry_tasks = remove s.expiry_tasks gateway;
        leases = remove_lease s.leases gateway;
      })
      gateway

unfoldable pub removed : TunnelService → String → Bool → TunnelService
removed s gateway true = shut_gateway s gateway
removed s gateway false = s

-- The sleep of a waiting task is over.
unfoldable pub expire_active_tunnel : TunnelService → ℕ → ExpiryTask → TunnelService
unfolding removed
expire_active_tunnel s k task = elim task.state [
  | waiting ↦
      let (leases, current) = remove_if_current s.leases task.gateway_id task.expires_at in
      removed (record s { leases = leases; tasks = put s.tasks k (record task { state = ending }) })
        task.gateway_id current
  | ending ↦ s
  | over ↦ s
]

abbrev pub is_task : ℕ → Option ℕ → Bool
is_task k none = false
is_task k (some j) = nat_beq j k

-- The `finally` of a task.
unfoldable pub end_task : TunnelService → ℕ → ExpiryTask → TunnelService
end_task s k task = elim task.state [
  | ending ↦ record s {
    tasks = put s.tasks k (record task { state = over });
    expiry_tasks =
        if is_task k (get s.expiry_tasks task.gateway_id)
        then remove s.expiry_tasks task.gateway_id
        else s.expiry_tasks;
  }
  | waiting ↦ s
  | over ↦ s
]

abbrev pub on_task :
    (TunnelService → ℕ → ExpiryTask → TunnelService)
    → TunnelService
    → ℕ
    → Option ExpiryTask
    → TunnelService
on_task f s k none = s
on_task f s k (some task) = f s k task

-- The steps of the service; `accepts` is what follows `await websocket.accept()`.
pub data Step : Type 0 where
  opens : Response (Unit {0}) → String → ℕ → ℕ → ℕ → Step
  closes : Response (Unit {0}) → String → Step
  wakes : ℕ → Step
  ends : ℕ → Step
  reads_status : String → ℕ → Step
  checks_lease : String → ℕ → Step
  accepts : String → Step
  disconnects : String → ℕ → Step
  starts_session : String → String → Option ℕ → String → ℕ → ℕ → Step

unfoldable pub start_session :
    Bool → TunnelService → String → String → Option ℕ → String → ℕ → ℕ → TunnelService
start_session false s gateway subject ttl id first now = s
start_session true s gateway subject ttl id first now = record s {
  sessions = (create s.sessions gateway subject ttl id first now).0;
}

unfoldable pub take_step : ℕ → TunnelService → Step → TunnelService
unfolding ui_open_gateway_tunnel ui_close_gateway_tunnel expire_active_tunnel end_task start_session
take_step maximum s (opens checks g minutes now later) =
    ui_open_gateway_tunnel checks maximum g minutes now later s
take_step maximum s (closes checks g) = ui_close_gateway_tunnel checks g s
take_step maximum s (wakes k) = on_task expire_active_tunnel s k (get s.tasks k)
take_step maximum s (ends k) = on_task end_task s k (get s.tasks k)
take_step maximum s (reads_status g now) = record s { leases = (expires_at s.leases g now).0 }
take_step maximum s (checks_lease g now) = record s { leases = (allows s.leases g now).0 }
take_step maximum s (accepts g) = record s { manager = (register s.manager g).0 }
take_step maximum s (disconnects g t) = record s { manager = unregister s.manager g t }
take_step maximum s (starts_session g subject ttl id first now) =
    start_session (is_connected s.manager g) s g subject ttl id first now

unfoldable pub take_steps : ℕ → TunnelService → List Step → TunnelService
unfolding take_step
take_steps maximum s [] = s
take_steps maximum s (e ∷ es) = take_steps maximum (take_step maximum s e) es
