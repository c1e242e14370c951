-- ===== src/Cloud/Lifecycle/Tests.antt =====
-- A tunnel that is opened, renewed and left to its end.
use iot_cloud_commissioning.Prelude.{ℕ, ◌≡◌, refl, true, some, List, [], ◌∷◌, string_eq, nat_eq}
use iot_cloud_commissioning.Dict.{get, put, remove, has}
use iot_cloud_commissioning.Dict.Purge.{Distinct, none_yet, purge}
use iot_cloud_commissioning.Cloud.Http.{ok}
use iot_cloud_commissioning.Cloud.Allowlist.{
  reserve, remove_lease, remove_if_current, allows, expire_locked,
}
use iot_cloud_commissioning.Cloud.Console.{revoke_gateway}
use iot_cloud_commissioning.Cloud.Tunnel.{register, close_gateway}
use iot_cloud_commissioning.Cloud.Lifecycle.{
  TunnelService, opens, closes, wakes, ends, checks_lease, accepts, Step, take_step, take_steps,
}
use iot_cloud_commissioning.Cloud.Lifecycle.Guards.{IsGuarded}
use iot_cloud_commissioning.Cloud.Lifecycle.Expiry.{take_steps-IsGuarded, IsShut, wakes-IsShut}

abbrev started : TunnelService
started = record {
  leases = [];
  sessions = record { ttl_seconds = 600; sessions = [] };
  manager = record { tunnels = []; objects = []; futures = []; next = 1 };
  expiry_tasks = [];
  tasks = [];
  next_task = 1;
}

started-IsGuarded : IsGuarded started
unfolding get
started-IsGuarded = record {
  distinct = none_yet;
  guarded = λ g t e. cc e;
  owned = λ g k e. cc e;
  unused = λ k above. refl;
}

-- The second opening supersedes the first task, which ends before the second lease does.
abbrev renewed : List Step
renewed =
    opens (ok tt) "gw-1" 30 0 0
    ∷ checks_lease "gw-1" 1
    ∷ accepts "gw-1"
    ∷ opens (ok tt) "gw-1" 30 600 600
    ∷ wakes 1
    ∷ ends 1
    ∷ []

renewed_lease : get (take_steps 5 started renewed).leases "gw-1" ≡ some 2400
unfolding take_steps reserve allows remove_if_current register get put remove has purge
    expire_locked
renewed_lease = refl

take_steps-IsGuarded_example : IsGuarded (take_steps 5 started renewed)
take_steps-IsGuarded_example = take_steps-IsGuarded 5 started renewed started-IsGuarded

reopened-IsGuarded : IsGuarded (take_steps 5 started renewed)
reopened-IsGuarded = take_steps-IsGuarded 5 started renewed started-IsGuarded

abbrev reopened : TunnelService
reopened = take_steps 5 started renewed

no_sessions : Distinct reopened.sessions.sessions
unfolding take_steps reserve allows remove_if_current register get put remove has purge
    expire_locked
no_sessions = none_yet

wakes-IsShut_example :
    (k : ℕ) × (get reopened.expiry_tasks "gw-1" ≡ some k)
    × IsShut "gw-1" (take_step 5 reopened (wakes k))
wakes-IsShut_example =
    wakes-IsShut 5 reopened "gw-1" 2400 reopened-IsGuarded no_sessions renewed_lease

-- The lease is checked before the wait for `accept`: a tunnel that is closed in between is
-- registered all the same, without a lease and without a task that would shut it.
abbrev closed_while_accepting : TunnelService
closed_while_accepting = take_steps 5 started (
    opens (ok tt) "gw-1" 30 0 0
    ∷ checks_lease "gw-1" 1
    ∷ closes (ok tt) "gw-1"
    ∷ accepts "gw-1"
    ∷ ends 1
    ∷ [])

left_open :
    (has closed_while_accepting.manager.tunnels "gw-1" ≡ true)
    × (closed_while_accepting.leases ≡ [])
    × (closed_while_accepting.expiry_tasks ≡ [])
unfolding take_steps reserve allows remove_lease register revoke_gateway close_gateway get put
    remove has purge expire_locked
left_open = (refl, refl, refl)
