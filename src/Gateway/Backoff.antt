-- ===== src/Gateway/Backoff.antt =====
-- How long the caller is told to wait before it connects again.
use native.Mathlib.Nat.{pow-le-pow_right}
use patrice.Prelude.{ℕ, ◌^◌, ◌≤◌, ◌<◌, ◌≡◌, String, List, [], ◌∷◌, arith, All, All-append}
use patrice.Gateway.{
  GatewayContext, GatewayEvent, GatewayAction, open_socket, schedule_reconnect, unit, ms,
  reconnect_delay, handle, run,
}

pow-pos : (n : ℕ) → 1 ≤ 2 ^ n
pow-pos n = pow-le-pow_right {n = 2} (omega arith) {i = 0} {j = n} (omega arith)

pow_mono : (m n : ℕ) → m ≤ n → 2 ^ m ≤ 2 ^ n
pow_mono m n h = pow-le-pow_right {n = 2} (omega arith) h

-- A wait between one second and thirty.
abbrev pub IsPatient : ℕ → Type 0
IsPatient delay = (ms 1000 ≤ delay) × (delay ≤ ms 30000)

reconnect_delay-IsPatient : (random attempt : ℕ) → IsPatient (reconnect_delay random attempt)
unfolding reconnect_delay
reconnect_delay-IsPatient random attempt =
    (omega (arith, pow-pos attempt), omega (arith, pow-pos attempt))

-- With the same jitter a later attempt never waits less, and from the fifth on it waits the
-- full thirty seconds.
pub reconnect_delay_grows :
    (random m n : ℕ)
    → m ≤ n
    → (reconnect_delay random m ≤ reconnect_delay random n)
      × (5 ≤ n → reconnect_delay random n ≡ ms 30000)
unfolding reconnect_delay
reconnect_delay_grows random m n h =
    (omega (arith, pow_mono m n h), λ k. omega (arith, pow_mono 5 n k))

module _ {Payload : Type 0} where
  abbrev pub Scheduled : GatewayAction Payload → Type 0
  Scheduled (schedule_reconnect delay) = IsPatient delay
  Scheduled _ = Unit

  handle-Scheduled :
      (ctx : GatewayContext) (event : GatewayEvent Payload) (token : String) (random : ℕ)
      → random < unit
      → All Scheduled (handle ctx event token random).1
  unfolding handle
  handle-Scheduled ctx open_socket token random h = tt
  handle-Scheduled ctx _ token random h =
      ground (arith, reconnect_delay-IsPatient random ctx.reconnect_attempt)

  -- Every reconnect that a run schedules is between one second and thirty away.
  pub run-Scheduled :
      (ctx : GatewayContext) (token : String) (events : List (GatewayEvent Payload × ℕ))
      → All (λ e. e.1 < unit) events
      → All Scheduled (run ctx token events).1
  unfolding run
  run-Scheduled ctx token [] h = tt
  run-Scheduled ctx token ((event, random) ∷ rest) h =
      All-append Scheduled _ _ (handle-Scheduled ctx event token random h.0)
        (run-Scheduled (handle ctx event token random).0 token rest h.1)
