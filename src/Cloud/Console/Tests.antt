-- ===== src/Cloud/Console/Tests.antt =====
-- Sessions, the gate and the metrics at work, and the theorems at concrete inputs.
use iot_cloud_commissioning.Prelude.{◌≡◌, refl, [], ◌∷◌, arith, string_eq}
use iot_cloud_commissioning.Dict.{get}
use iot_cloud_commissioning.Dict.Purge.{Distinct, none_yet, fresh}
use iot_cloud_commissioning.Cloud.Console.{
  TunnelConsoleSession, TunnelSessionManager, get_session, asks, leaves, turns,
}
use iot_cloud_commissioning.Cloud.Console.Sessions.{valid, get_session_exact}
use iot_cloud_commissioning.Cloud.Console.Gate.{IsBalanced, turns-IsBalanced}

abbrev a_session : TunnelConsoleSession
a_session = record { session_id = "s1"; gateway_id = "GW001"; subject = "ann"; expires_at = 300 }

abbrev one_session : TunnelSessionManager
one_session = record { ttl_seconds = 300; sessions = ("s1", a_session) ∷ [] }

one_session-Distinct : Distinct one_session.sessions
unfolding get
one_session-Distinct = fresh refl none_yet

get_session_exact_example :
    (get_session one_session "GW001" "s1" 100 101).1
    ≡ valid "GW001" 101 (get one_session.sessions "s1")
get_session_exact_example =
    get_session_exact one_session "GW001" "s1" 100 101 one_session-Distinct (omega arith)

turns-IsBalanced_example : IsBalanced 2 (
    turns 2
      (record { in_use = 0; holders = [] })
      (asks 1 ∷ asks 2 ∷ asks 3 ∷ leaves 3 ∷ leaves 1 ∷ asks 3 ∷ []))
turns-IsBalanced_example =
    turns-IsBalanced 2 (record { in_use = 0; holders = [] })
      (asks 1 ∷ asks 2 ∷ asks 3 ∷ leaves 3 ∷ leaves 1 ∷ asks 3 ∷ [])
      (record { counted = refl; bounded = omega arith })
