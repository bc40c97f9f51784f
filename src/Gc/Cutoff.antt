-- ===== src/Gc/Cutoff.antt =====
-- The grace period decides between reviving and collecting.
use patrice.Prelude.{ℕ, ◌≡◌, refl, not, ◌&&◌, Option, none, some, arith, is_some}
use patrice.Db.Rows.{LifecycleState, active, deactivated, retired}
use patrice.Db.Tables.{is_retired}
use patrice.Lifecycle.{is_revivable}
use patrice.Gc.{past_grace}

-- At every time and for every grace period, a row is collectable exactly if it is retired, has the time
-- of that, and is not revivable any more: a row that is active or deactivated is never collectable.
pub past_grace-is_revivable :
    (now grace_ms : ℕ) (state : LifecycleState) (retired_at : Option ℕ)
    → past_grace now grace_ms state retired_at ≡ (
        is_retired state
        && (is_some retired_at && not (is_revivable now state retired_at grace_ms)))
unfolding past_grace is_revivable
past_grace-is_revivable now grace_ms active retired_at = ground arith
past_grace-is_revivable now grace_ms deactivated retired_at = ground arith
past_grace-is_revivable now grace_ms retired none = refl
past_grace-is_revivable now grace_ms retired (some at) = ground arith
