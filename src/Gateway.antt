-- ===== src/Gateway.antt =====
-- api/src/integrations/gateway/gateway-connection.state-machine.ts: the connection to the Discord
-- gateway as a pure step from a context and an event to the next context and a list of actions.
-- `Math.random()` is an argument: its value is `random / unit`, and delays are counted in
-- milliseconds divided by `unit`. A session id is text; `&&` on it tests that it is not empty.
-- `2 ** attempt` is exact here, where the source's double becomes `Infinity`: `min` gives the same.
pub mod Backoff
pub mod Resume
pub mod Heartbeat
pub mod Reconcile
mod Tests
use Prim.Native.Nat.{ℕ, ◌+◌, ◌*◌, ◌^◌, min}
use mathlib.Core.Bool.{◌||◌}
use text.Mathlib.Text.{◌==◌ as str_eq}
use patrice.Prelude.{
  Bool, true, false, not, ◌&&◌, Option, none, some, List, [], ◌∷◌, ◌++◌, String, leb, ◌==◌,
  if◌then◌else◌,
}

pub data GatewayState : Type 0 where
  disconnected connecting identifying ready resuming : GatewayState

pub record GatewayContext : Type 0 where
  pub state : GatewayState
  pub session_id : Option String
  pub resume_gateway_url : Option String
  pub sequence_number : Option ℕ
  pub heartbeat_interval : Option ℕ
  pub missed_heartbeats : ℕ
  pub reconnect_attempt : ℕ
  pub is_new_session : Bool

-- `Payload` is the type of a dispatch's `data`, which is passed on unread.
pub data GatewayEvent (Payload : Type 0) : Type 0 where
  open_socket : GatewayEvent Payload
  hello : (heartbeat_interval : ℕ) → GatewayEvent Payload
  ready_event : (session_id resume_gateway_url : String) → GatewayEvent Payload
  resumed : GatewayEvent Payload
  heartbeat_ack : GatewayEvent Payload
  heartbeat_missed : GatewayEvent Payload
  close : (code : ℕ) → GatewayEvent Payload
  dispatch : (seq : ℕ) (event_name : String) → Payload → GatewayEvent Payload
  invalid_session : (resumable : Bool) → GatewayEvent Payload

pub data GatewayAction (Payload : Type 0) : Type 0 where
  send_identify : (token : String) → GatewayAction Payload
  send_resume : (token session_id : String) (seq : ℕ) → GatewayAction Payload
  send_heartbeat : (seq : Option ℕ) → GatewayAction Payload
  start_heartbeat : (interval_ms : ℕ) → GatewayAction Payload
  schedule_reconnect : (delay : ℕ) → GatewayAction Payload
  emit_member_event : (event_name : String) → Payload → GatewayAction Payload
  trigger_reconcile : GatewayAction Payload
  emit_health : (healthy : Bool) → GatewayAction Payload

-- `NON_RESUMABLE_CODES.has(code)`
unfoldable pub is_non_resumable : ℕ → Bool
is_non_resumable code =
    code == 4004 || code == 4010 || code == 4011 || code == 4012 || code == 4013 || code == 4014

-- `MEMBER_EVENTS.has(eventName)`
unfoldable pub is_member_event : String → Bool
is_member_event name =
    str_eq name "GUILD_MEMBER_ADD"
    || str_eq name "GUILD_MEMBER_UPDATE"
    || str_eq name "GUILD_MEMBER_REMOVE"
    || str_eq name "GUILD_ROLE_CREATE"
    || str_eq name "GUILD_ROLE_UPDATE"
    || str_eq name "GUILD_ROLE_DELETE"

-- The number of values of `Math.random()`.
abbrev pub unit : ℕ
unit = 9007199254740992

-- Milliseconds in the unit of delays.
abbrev pub ms : ℕ → ℕ
ms n = n * unit

abbrev pub base_reconnect_ms : ℕ
base_reconnect_ms = 1000

abbrev pub max_reconnect_ms : ℕ
max_reconnect_ms = 30000

unfoldable pub initial_context : GatewayContext
initial_context = record {
  state = disconnected;
  session_id = none;
  resume_gateway_url = none;
  sequence_number = none;
  heartbeat_interval = none;
  missed_heartbeats = 0;
  reconnect_attempt = 0;
  is_new_session = false;
}

unfoldable pub reconnect_delay : (random attempt : ℕ) → ℕ
reconnect_delay random attempt =
    let jitter = random * 1000 in
    min (ms base_reconnect_ms * 2 ^ attempt + jitter) (ms max_reconnect_ms)

abbrev pub truthy : String → Bool
truthy String.[] = false
truthy (String.◌∷◌ _ _) = true

-- What `HELLO` resumes: `ctx.sessionId && ctx.sequenceNumber !== null`, and the test of code 0.
unfoldable pub resumable : Option String → Option ℕ → Option (String × ℕ)
resumable none _ = none
resumable (some s) none = none
resumable (some s) (some q) = if truthy s && not (is_non_resumable 0) then some (s, q) else none

-- The next context, and the actions to perform.
abbrev pub Step : Type 0 → Type 0
Step Payload = GatewayContext × List (GatewayAction Payload)

-- Both ids are dropped unless the session can be resumed.
forget_unless : Bool → GatewayContext → GatewayContext
forget_unless true ctx = ctx
forget_unless false ctx = record ctx { session_id = none; sequence_number = none }

module _ {Payload : Type 0} where
  on_hello : GatewayContext → ℕ → String → Step Payload
  on_hello ctx interval token =
      let next = record ctx { heartbeat_interval = some interval } in
      let first = start_heartbeat interval ∷ send_heartbeat ctx.sequence_number ∷ [] in
      elim (resumable ctx.session_id ctx.sequence_number) [
        | some (s, q) ↦ (
          record next { state = resuming; is_new_session = false },
          first ++ send_resume token s q ∷ [],
        )
        | none ↦ (
          record next { state = identifying; is_new_session = true },
          first ++ send_identify token ∷ [],
        )
      ]

  -- The reset that a lost connection shares: `reconnectAttempt++` after the delay is computed.
  disconnect : GatewayContext → ℕ → Step Payload
  disconnect ctx random = (
    record ctx {
      state = disconnected;
      missed_heartbeats = 0;
      reconnect_attempt = ctx.reconnect_attempt + 1;
    },
    schedule_reconnect (reconnect_delay random ctx.reconnect_attempt) ∷ emit_health false ∷ [],
  )

  unfoldable pub handle :
      GatewayContext → GatewayEvent Payload → String → (random : ℕ) → Step Payload
  unfolding on_hello disconnect forget_unless
  handle ctx open_socket token random = (record ctx { state = connecting }, [])
  handle ctx (hello interval) token random = on_hello ctx interval token
  handle ctx (ready_event s url) token random = (
    record ctx {
      state = ready;
      session_id = some s;
      resume_gateway_url = some url;
      reconnect_attempt = 0;
      is_new_session = true;
    },
    trigger_reconcile ∷ emit_health true ∷ [],
  )
  handle ctx resumed token random = (
    record ctx { state = ready; reconnect_attempt = 0; is_new_session = false },
    emit_health true ∷ [],
  )
  handle ctx heartbeat_ack token random = (record ctx { missed_heartbeats = 0 }, [])
  handle ctx heartbeat_missed token random =
      let next = record ctx { missed_heartbeats = ctx.missed_heartbeats + 1 } in
      if leb 3 next.missed_heartbeats then disconnect next random else (next, [])
  handle ctx (close code) token random =
      disconnect (forget_unless (not (is_non_resumable code)) ctx) random
  handle ctx (dispatch seq name payload) token random = (
    record ctx { sequence_number = some seq },
    if is_member_event name then emit_member_event name payload ∷ [] else [],
  )
  handle ctx (invalid_session can_resume) token random = (
    record (forget_unless can_resume ctx) { state = identifying; is_new_session = true },
    schedule_reconnect (ms 1000 + random * 4000) ∷ [],
  )

  -- A life of a connection: each event with the value that `Math.random()` has in it.
  unfoldable pub run : GatewayContext → String → List (GatewayEvent Payload × ℕ) → Step Payload
  run ctx token [] = (ctx, [])
  run ctx token ((event, random) ∷ rest) =
      let (next, now) = handle ctx event token random in
      let (last, later) = run next token rest in (last, now ++ later)
