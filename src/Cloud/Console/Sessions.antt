-- ===== src/Cloud/Console/Sessions.antt =====
-- Which console sessions are valid.
use iot_cloud_commissioning.Prelude.{
  ℕ, ◌≤◌, ◌≡◌, ◌≢◌, Option, none, some, String, arith, leb, string_eq, ◌==◌, eq_iff, if◌then◌else◌,
  Option-cases, inl, inr,
}
use iot_cloud_commissioning.Dict.{get}
use iot_cloud_commissioning.Dict.Purge.{Distinct, get-purge, purge, unless}
use iot_cloud_commissioning.Cloud.Console.{
  TunnelConsoleSession, TunnelSessionManager, expire_old, get_found, get_session, revoke_gateway,
}

-- The session that a request for the gateway finds at `now`: stored, of that gateway, not expired.
abbrev pub valid : String → ℕ → Option TunnelConsoleSession → Option TunnelConsoleSession
valid gateway now none = none
valid gateway now (some s) =
    if s.gateway_id == gateway then (if leb s.expires_at now then none else some s) else none

-- A lookup gives exactly the session that is stored under the id, belongs to the gateway and has
-- not expired when the lookup ends, provided that the ids of the dictionary are distinct.
pub get_session_exact :
    (m : TunnelSessionManager) (gateway session_id : String) (first now : ℕ)
    → Distinct m.sessions
    → first ≤ now
    → (get_session m gateway session_id first now).1 ≡ valid gateway now (get m.sessions session_id)
unfolding get_session expire_old get_found
get_session_exact m gateway session_id first now d h = ground (
  arith,
  get-purge (λ (_ : String) (s : TunnelConsoleSession). leb s.expires_at first) m.sessions
      session_id d,
)

-- After a revocation no lookup gives a session of the gateway, and the sessions of every other
-- gateway are given as before, provided that the ids are distinct.
pub revoke_gateway_exact :
    (m : TunnelSessionManager) (gateway other session_id : String) (now : ℕ)
    → Distinct m.sessions
    → other ≢ gateway
    → (valid gateway now (get (revoke_gateway m gateway).sessions session_id) ≡ none)
      × (valid other now (get (revoke_gateway m gateway).sessions session_id)
          ≡ valid other now (get m.sessions session_id))
unfolding revoke_gateway
revoke_gateway_exact m gateway other session_id now d n =
    let found =
      get-purge (λ (_ : String) (s : TunnelConsoleSession). s.gateway_id == gateway) m.sessions
        session_id d in
    (
      by_entry found,
      elim (Option-cases (get m.sessions session_id)) [
        | inl e ↦ ground (arith, found)
        | inr (s, e) ↦ ground (arith, found, eq_iff s.gateway_id gateway, eq_iff s.gateway_id other)
      ],
    )
  where
    by_entry :
        get
            (purge (λ (_ : String) (s : TunnelConsoleSession). s.gateway_id == gateway) m.sessions)
            session_id
          ≡ unless
              (λ (s : TunnelConsoleSession). s.gateway_id == gateway)
              (get m.sessions session_id)
        → valid gateway now (
            get
              (purge
                (λ (_ : String) (s : TunnelConsoleSession). s.gateway_id == gateway)
                m.sessions)
              session_id)
          ≡ none
    by_entry e = ground arith
