-- ===== src/TaskStatus/Tests.antt =====
-- Roll-ups of concrete tasks, and the readings of the status at them.
use patrice.Prelude.{◌≡◌, refl, true, false, some, [], ◌∷◌}
use patrice.TaskStatus.{
  SubmissionState, RolledStatus, MinRuleInputs, slot_contributions, open_spots, contributions,
  lowest_from, lowest_or_claimed, compute_min_rule_status,
}
use patrice.TaskStatus.MinRule.{by_presence, min_rule-by_presence}

status : Unit {0}
unfolding compute_min_rule_status contributions open_spots slot_contributions lowest_or_claimed
    lowest_from
status = tt

abbrev busy : MinRuleInputs
busy = record {
  openings = 3;
  claims_closed = true;
  claimant_states =
      some SubmissionState.review
      ∷ some SubmissionState.revising
      ∷ some SubmissionState.approved
      ∷ [];
}

abbrev done : MinRuleInputs
done = record {
  openings = 2;
  claims_closed = false;
  claimant_states = some SubmissionState.approved ∷ some SubmissionState.rejected ∷ [];
}

abbrev refused : MinRuleInputs
refused = record {
  openings = 1;
  claims_closed = false;
  claimant_states = some SubmissionState.rejected ∷ [];
}

roll_ups :
    (compute_min_rule_status busy ≡ RolledStatus.revising)
    × (compute_min_rule_status done ≡ RolledStatus.approved)
    × (compute_min_rule_status refused ≡ RolledStatus.claimed)
unfolding status
roll_ups = (refl, refl, refl)

min_rule-by_presence_example : compute_min_rule_status busy ≡ by_presence busy
min_rule-by_presence_example = min_rule-by_presence busy
