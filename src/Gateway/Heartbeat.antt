-- ===== src/Gateway/Heartbeat.antt =====
-- Zombie detection: the count of missed heartbeats, and what the third one does.
use patrice.Prelude.{ℕ, ◌+◌, ◌<◌, ◌≡◌, String, false, List, [], ◌∷◌, arith}
use patrice.Gateway.{
  GatewayContext, GatewayEvent, disconnected, open_socket, heartbeat_missed, emit_health,
  schedule_reconnect, reconnect_delay, handle, run,
}

module _ {Payload : Type 0} where
  handle_alive :
      (ctx : GatewayContext) (event : GatewayEvent Payload) (token : String) (random : ℕ)
      → ctx.missed_heartbeats < 3
      → (handle ctx event token random).0.missed_heartbeats < 3
  unfolding handle
  handle_alive ctx open_socket token random h = h
  handle_alive ctx _ token random h = ground arith

  -- However long a connection lives, fewer than three heartbeats are counted as missed.
  pub run_alive :
      (ctx : GatewayContext) (token : String) (events : List (GatewayEvent Payload × ℕ))
      → ctx.missed_heartbeats < 3
      → (run ctx token events).0.missed_heartbeats < 3
  unfolding run
  run_alive ctx token [] h = h
  run_alive ctx token ((event, random) ∷ rest) h =
      run_alive (handle ctx event token random).0 token rest (handle_alive ctx event token random h)

  abbrev pub missed_in_a_row : ℕ → ℕ → ℕ → List (GatewayEvent Payload × ℕ)
  missed_in_a_row a b c = (heartbeat_missed, a) ∷ (heartbeat_missed, b) ∷ (heartbeat_missed, c) ∷ []

  -- From a context with no heartbeat missed, two misses in a row do nothing visible, and the third
  -- disconnects, starts the count again, reports the connection as unhealthy and schedules one
  -- reconnect, by the number of attempts so far.
  pub three_misses :
      (ctx : GatewayContext) (token : String) (a b c : ℕ)
      → ctx.missed_heartbeats ≡ 0
      → run {Payload = Payload} ctx token (missed_in_a_row a b c) ≡ (
        record ctx {
          state = disconnected;
          missed_heartbeats = 0;
          reconnect_attempt = ctx.reconnect_attempt + 1;
        },
        schedule_reconnect (reconnect_delay c ctx.reconnect_attempt) ∷ emit_health false ∷ [],
      )
  unfolding handle run
  three_misses ctx token a b c h = ground arith
