-- ===== src/Lifecycle.antt =====
-- api/src/common/lifecycle.ts and api/src/common/grace.service.ts: when a retired row may come back.
-- A setting that is no finite number of hours, or a negative one, is `none`; hours are whole here.
use patrice.Prelude.{ℕ, ◌-◌, ◌*◌, leb, Bool, false, Option, none, some}
use patrice.Db.Rows.{LifecycleState, retired}

-- `isRevivable`. `Date.now() - retiredAt` is negative in the source if the clock went back, and 0
-- here: both are at most `grace_ms`.
unfoldable pub is_revivable :
    (now : ℕ) → LifecycleState → (retired_at : Option ℕ) → (grace_ms : ℕ) → Bool
is_revivable now retired (some at) grace_ms = leb (now - at) grace_ms
is_revivable now retired none grace_ms = false
is_revivable now _ retired_at grace_ms = false

abbrev pub default_grace_hours : ℕ
default_grace_hours = 24

-- `GraceService.windowMsFromSettings`
unfoldable pub window_ms : (grace_period_hours : Option ℕ) → ℕ
window_ms none = default_grace_hours * 60 * 60 * 1000
window_ms (some hours) = hours * 60 * 60 * 1000
