-- ===== src/Gateway/Reconcile.antt =====
-- How often a full reconcile of roles is triggered.
use patrice.Prelude.{
  ℕ, ◌≡◌, refl, String, Bool, true, false, List, [], ◌∷◌, arith, count, count-append,
}
use patrice.Gateway.{
  GatewayContext, GatewayEvent, GatewayAction, trigger_reconcile, open_socket, handle, run,
}
use patrice.Gateway.Resume.{is_ready_event}

module _ {Payload : Type 0} where
  abbrev pub is_reconcile : GatewayAction Payload → Bool
  is_reconcile trigger_reconcile = true
  is_reconcile _ = false

  abbrev pub ready_count : List (GatewayEvent Payload × ℕ) → ℕ
  ready_count = count (λ e. is_ready_event e.0)

  handle_reconciles :
      (ctx : GatewayContext) (event : GatewayEvent Payload) (token : String) (random : ℕ)
      → count is_reconcile (handle ctx event token random).1 ≡ count is_ready_event (event ∷ [])
  unfolding handle
  handle_reconciles ctx open_socket token random = refl
  handle_reconciles ctx _ token random = ground arith

  -- A run triggers one full reconcile for each READY and no other: a clean RESUMED, a dropped
  -- connection or a dispatch triggers none.
  pub run_reconciles :
      (ctx : GatewayContext) (token : String) (events : List (GatewayEvent Payload × ℕ))
      → count is_reconcile (run ctx token events).1 ≡ ready_count events
  unfolding run
  run_reconciles ctx token [] = refl
  run_reconciles ctx token ((event, random) ∷ rest) =
      let (next, now) = handle ctx event token random in
      ground (
        arith,
        count-append is_reconcile (handle ctx event token random).1
            (run (handle ctx event token random).0 token rest).1,
        handle_reconciles ctx event token random,
        run_reconciles (handle ctx event token random).0 token rest,
      )
