-- ===== src/Gateway/Tests.antt =====
-- Runs of the gateway machine, and its theorems at concrete connections.
use patrice.Prelude.{ℕ, ◌+◌, ◌≡◌, refl, true, false, none, some, List, [], ◌∷◌, arith, All, count}
use patrice.Gateway.{
  GatewayContext, GatewayEvent, disconnected, open_socket, hello, ready_event, resumed, close,
  dispatch, send_identify, send_resume, send_heartbeat, start_heartbeat, emit_member_event,
  trigger_reconcile, emit_health, schedule_reconnect, reconnect_delay, ms, initial_context,
  is_member_event, is_non_resumable, resumable, handle, run,
}
use patrice.Gateway.Backoff.{Scheduled, run-Scheduled}
use patrice.Gateway.Resume.{Resumes, run-Resumes}
use patrice.Gateway.Heartbeat.{missed_in_a_row, three_misses}
use patrice.Gateway.Reconcile.{is_reconcile, ready_count, run_reconciles}

abbrev Events : Type 0
Events = List (GatewayEvent ℕ × ℕ)

gateway : Unit {0}
unfolding run handle resumable is_non_resumable is_member_event reconnect_delay initial_context
gateway = tt

abbrev first_life : Events
first_life =
    (open_socket, 0)
    ∷ (hello 41250, 0)
    ∷ (ready_event "s1" "wss://r", 0)
    ∷ (dispatch 7 "GUILD_MEMBER_ADD" 99, 0)
    ∷ (close 1006, 5)
    ∷ []

abbrev second_life : Events
second_life = (open_socket, 0) ∷ (hello 41250, 0) ∷ (resumed, 0) ∷ []

live : GatewayContext
unfolding gateway
live = (run initial_context "t" first_life).0

first_life_acts :
    (run initial_context "t" first_life).1
    ≡ start_heartbeat 41250
      ∷ send_heartbeat none
      ∷ send_identify "t"
      ∷ trigger_reconcile
      ∷ emit_health true
      ∷ emit_member_event "GUILD_MEMBER_ADD" 99
      ∷ schedule_reconnect (ms 1000 + 5000)
      ∷ emit_health false
      ∷ []
unfolding gateway
first_life_acts = refl

second_life_resumes :
    (run live "t" second_life).1
    ≡ start_heartbeat 41250
      ∷ send_heartbeat (some 7)
      ∷ send_resume "t" "s1" 7
      ∷ emit_health true
      ∷ []
unfolding gateway live
second_life_resumes = refl

run-Scheduled_example : All Scheduled (run initial_context "t" first_life).1
run-Scheduled_example = run-Scheduled initial_context "t" first_life (omega arith)

-- The first life, and the two events that open the second: HELLO resumes.
run-Resumes_example :
    All
      (Resumes (some "s1") (some 7) "t")
      (handle {Payload = ℕ} (run initial_context "t" first_life).0 (hello 41250) "t" 0).1
unfolding gateway
run-Resumes_example = run-Resumes {Payload = ℕ} initial_context first_life (hello 41250) "t" 0

three_misses_example : run {Payload = ℕ} live "t" (missed_in_a_row 1 2 3) ≡ (
  record live {
    state = disconnected;
    missed_heartbeats = 0;
    reconnect_attempt = live.reconnect_attempt + 1;
  },
  schedule_reconnect (reconnect_delay 3 live.reconnect_attempt) ∷ emit_health false ∷ [],
)
unfolding live gateway
three_misses_example = three_misses {Payload = ℕ} live "t" 1 2 3 refl

run_reconciles_example :
    ◌≡◌ {A = ℕ} (count is_reconcile (run live "t" second_life).1) (ready_count second_life)
run_reconciles_example = run_reconciles live "t" second_life
