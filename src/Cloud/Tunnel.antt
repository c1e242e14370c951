-- ===== src/Cloud/Tunnel.antt =====
-- `GatewayTunnel` and `TunnelManager` of cloud-api/app/tunnel.py. The tunnels and the futures are
-- shared objects: a tunnel is a number in a store, which holds its gateway and its `pending`
-- dictionary, and a future is a number with its state. The methods run on one event loop, and
-- what lies between two awaits is one step; `request` is two steps, up to the await of the
-- future and its end. The web socket, base64 and the uuid of a request are outside.
pub mod Futures
pub mod Registry
pub mod Closing
mod Tests
use iot_cloud_commissioning.Prelude.{
  ℕ, suc, Bool, true, false, not, ◌&&◌, ◌||◌, Option, none, some, List, [], ◌∷◌, ◌++◌, String,
  nat_beq, nat_eq, if◌then◌else◌, string_eq, ◌==◌, length, is_some,
}
use iot_cloud_commissioning.Dict.{Dict, get, put, remove, has}
use iot_cloud_commissioning.Json.{
  ℤ, Value, Fields, bool, int, pos, text, dict, get_field, as_dict, as_text,
}

pub record TunnelResponse : Type 0 where
  pub status_code : ℤ
  pub headers : Fields
  pub body_b64 : String

-- What a future ends with: a response, TunnelRequestFailed, TunnelUnavailable, or the time-out
-- of `asyncio.wait_for`, which cancels it.
pub data Outcome : Type 0 where
  response : TunnelResponse → Outcome
  request_failed : String → Outcome
  unavailable : Outcome
  cancelled : Outcome

-- `none` is a future that is not done.
pub record GatewayTunnel : Type 0 where
  pub gateway_id : String
  pub pending : Dict String ℕ

pub record TunnelManager : Type 0 where
  pub tunnels : Dict String ℕ
  pub objects : Dict ℕ GatewayTunnel
  pub futures : Dict ℕ (Option Outcome)
  pub next : ℕ

-- `if not future.done(): future.set_...(outcome)`; a future that does not exist stays so.
unfoldable pub finish : Outcome → Dict ℕ (Option Outcome) → ℕ → Dict ℕ (Option Outcome)
finish outcome futures f = elim (get futures f) [
  | some none ↦ put futures f (some outcome)
  | _ ↦ futures
]

unfoldable pub fail_each : Dict String ℕ → Dict ℕ (Option Outcome) → Dict ℕ (Option Outcome)
unfolding finish
fail_each [] futures = futures
fail_each ((_, f) ∷ pending) futures = fail_each pending (finish Outcome.unavailable futures f)

fail_object : TunnelManager → ℕ → Option GatewayTunnel → TunnelManager
unfolding fail_each
fail_object m t none = m
fail_object m t (some tunnel) = record m {
  futures = fail_each tunnel.pending m.futures;
  objects = put m.objects t (record tunnel { pending = [] });
}

unfoldable pub fail_pending : TunnelManager → ℕ → TunnelManager
unfolding fail_object
fail_pending m t = fail_object m t (get m.objects t)

fail_registered : TunnelManager → Option ℕ → TunnelManager
unfolding fail_pending
fail_registered m none = m
fail_registered m (some t) = fail_pending m t

-- The new tunnel, and the one that it replaces.
unfoldable pub register : TunnelManager → String → TunnelManager × ℕ × Option ℕ
unfolding fail_registered
register m gateway =
    let existing = get m.tunnels gateway in
    let n = fail_registered m existing in
    (
      record n {
        tunnels = put n.tunnels gateway n.next;
        objects = put n.objects n.next (record { gateway_id = gateway; pending = [] });
        next = suc n.next;
      },
      n.next,
      existing,
    )

abbrev pub is_tunnel : ℕ → Option ℕ → Bool
is_tunnel t none = false
is_tunnel t (some u) = nat_beq u t

-- Only the tunnel that is registered now is taken out.
unfoldable pub unregister : TunnelManager → String → ℕ → TunnelManager
unfolding fail_pending
unregister m gateway t =
    if is_tunnel t (get m.tunnels gateway)
    then (let n = fail_pending m t in record n { tunnels = remove n.tunnels gateway })
    else m

-- `none` is TunnelUnavailable.
unfoldable pub get_tunnel : TunnelManager → String → Option ℕ
get_tunnel m gateway = get m.tunnels gateway

unfoldable pub is_connected : TunnelManager → String → Bool
is_connected m gateway = has m.tunnels gateway

unfoldable pub active_tunnels : TunnelManager → ℕ
active_tunnels m = length m.tunnels

close_found : TunnelManager → String → Option ℕ → TunnelManager × Bool
unfolding fail_pending
close_found m gateway none = (m, false)
close_found m gateway (some t) =
    (fail_pending (record m { tunnels = remove m.tunnels gateway }) t, true)

unfoldable pub close_gateway : TunnelManager → String → TunnelManager × Bool
unfolding close_found
close_gateway m gateway = close_found m gateway (get m.tunnels gateway)

start_on : TunnelManager → ℕ → String → Option GatewayTunnel → TunnelManager
start_on m t request_id none = m
start_on m t request_id (some tunnel) = record m {
  futures = put m.futures m.next none;
  objects = put m.objects t (record tunnel { pending = put tunnel.pending request_id m.next });
  next = suc m.next;
}

-- `request` up to the await: a fresh future under the request's id.
unfoldable pub start_request : TunnelManager → ℕ → String → TunnelManager
unfolding start_on
start_request m t request_id = start_on m t request_id (get m.objects t)

end_on : TunnelManager → ℕ → String → Option GatewayTunnel → TunnelManager
end_on m t request_id none = m
end_on m t request_id (some tunnel) = record m {
  objects = put m.objects t (record tunnel { pending = remove tunnel.pending request_id });
}

-- The `finally` of `request`, after a time-out has cancelled the future or it was done.
unfoldable pub end_request : TunnelManager → ℕ → String → ℕ → TunnelManager
unfolding end_on finish
end_request m t request_id f =
    let n = record m { futures = finish Outcome.cancelled m.futures f } in
    end_on n t request_id (get n.objects t)

-- `isinstance(status_code, int)`, which a bool passes.
abbrev pub status_of : Option Value → Option ℤ
status_of (some (int n)) = some n
status_of (some (bool b)) = some (if b then pos 1 else pos 0)
status_of _ = none

parsed : Option Fields → Option String → Option ℤ → Outcome
parsed (some headers) (some body) (some status) =
    response (record { status_code = status; headers = headers; body_b64 = body })
parsed _ _ _ = request_failed "Tunnel returned an invalid response"

abbrev pub is_error : Option Value → Bool
is_error (some (text s)) = s == "error"
is_error _ = false

-- `error` is the text of the message's error.
unfoldable pub outcome_of : Fields → String → Outcome
unfolding parsed
outcome_of message error =
    if is_error (get_field message "type")
    then request_failed error
    else parsed (as_dict (get_field message "headers")) (as_text (get_field message "body_b64"))
        (status_of (get_field message "status_code"))

resolve_future : TunnelManager → Fields → String → Option ℕ → TunnelManager
unfolding outcome_of finish
resolve_future m message error none = m
resolve_future m message error (some f) = record m {
  futures = finish (outcome_of message error) m.futures f;
}

resolve_on : TunnelManager → String → Fields → String → Option GatewayTunnel → TunnelManager
unfolding resolve_future
resolve_on m request_id message error none = m
resolve_on m request_id message error (some tunnel) =
    resolve_future m message error (get tunnel.pending request_id)

-- `resolve_response`: a message for a request that is unknown or done changes nothing.
unfoldable pub resolve_response : TunnelManager → ℕ → String → Fields → String → TunnelManager
unfolding resolve_on
resolve_response m t request_id message error =
    resolve_on m request_id message error (get m.objects t)
