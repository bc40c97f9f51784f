-- ===== src/TaskStatus.antt =====
-- api/src/tasks/task-status.ts: the status that is shown for a task, rolled up from its claimant
-- slots. `openings` is a count (`manageClaims` keeps it from going below zero), so the truncated
-- `-` is the source's `Math.max(0, …)`.
pub mod MinRule
pub mod Readings
mod Tests
use patrice.Prelude.{
  ℕ, ◌-◌, Bool, true, false, not, ◌&&◌, Option, none, some, List, [], ◌∷◌, ◌++◌, length, ltb,
  replicate, if◌then◌else◌,
}

pub data SubmissionState : Type 0 where
  review revising approved rejected : SubmissionState

pub data RolledStatus : Type 0 where
  open_ claimed review revising approved : RolledStatus

abbrev pub status_rank : RolledStatus → ℕ
status_rank RolledStatus.open_ = 0
status_rank RolledStatus.claimed = 1
status_rank RolledStatus.revising = 2
status_rank RolledStatus.review = 3
status_rank RolledStatus.approved = 4

-- The Slice 4 subset: `active` claimants, none of whom has submitted.
unfoldable pub compute_status_cache : (active openings : ℕ) (claims_closed : Bool) → RolledStatus
compute_status_cache active openings claims_closed =
    if not claims_closed && ltb active openings then RolledStatus.open_ else RolledStatus.claimed

pub record MinRuleInputs : Type 0 where
  pub openings : ℕ
  pub claims_closed : Bool
  pub claimant_states : List (Option SubmissionState)

-- The body of the loop over the slots: what one slot pushes.
abbrev pub contribution : Option SubmissionState → List RolledStatus
contribution none = RolledStatus.claimed ∷ []
contribution (some SubmissionState.rejected) = []
contribution (some SubmissionState.review) = RolledStatus.review ∷ []
contribution (some SubmissionState.revising) = RolledStatus.revising ∷ []
contribution (some SubmissionState.approved) = RolledStatus.approved ∷ []

unfoldable pub slot_contributions : List (Option SubmissionState) → List RolledStatus
slot_contributions [] = []
slot_contributions (s ∷ rest) = contribution s ++ slot_contributions rest

unfoldable pub open_spots : MinRuleInputs → ℕ
open_spots i = if i.claims_closed then 0 else i.openings - length i.claimant_states

unfoldable pub contributions : MinRuleInputs → List RolledStatus
contributions i =
    replicate (open_spots i) RolledStatus.open_ ++ slot_contributions i.claimant_states

abbrev pub lower : RolledStatus → RolledStatus → RolledStatus
lower lowest c = if ltb (status_rank c) (status_rank lowest) then c else lowest

-- `contributions.reduce(…)` after its first element.
unfoldable pub lowest_from : RolledStatus → List RolledStatus → RolledStatus
lowest_from lowest [] = lowest
lowest_from lowest (c ∷ rest) = lowest_from (lower lowest c) rest

unfoldable pub lowest_or_claimed : List RolledStatus → RolledStatus
lowest_or_claimed [] = RolledStatus.claimed
lowest_or_claimed (c ∷ rest) = lowest_from c rest

unfoldable pub compute_min_rule_status : MinRuleInputs → RolledStatus
compute_min_rule_status i = lowest_or_claimed (contributions i)
