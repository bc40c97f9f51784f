-- ===== src/TaskStatus/Readings.antt =====
-- What each status says of the slots, and how the two ways to compute it agree.
use patrice.Prelude.{
  ℕ, zero, suc, ◌≤◌, ◌<◌, ◌≡◌, ◌∙◌, ◌⊎◌, ◌↔◌, refl, Bool, true, false, ◌||◌, Option, none, List, [],
  ◌∷◌, arith, any, length, replicate, All,
}
use patrice.TaskStatus.{
  SubmissionState, RolledStatus, MinRuleInputs, compute_status_cache, compute_min_rule_status,
}
use patrice.TaskStatus.MinRule.{is_unsubmitted, is_in, min_rule-by_presence}

-- A slot that no longer holds the task back: its work was approved or rejected.
abbrev pub is_settled : Option SubmissionState → Bool
is_settled s = is_in SubmissionState.approved s || is_in SubmissionState.rejected s

not_any-All_settled :
    (l : List (Option SubmissionState))
    → (any is_unsubmitted l ≡ false)
        × (any (is_in SubmissionState.revising) l ≡ false)
        × (any (is_in SubmissionState.review) l ≡ false)
      ↔ All (λ s. is_settled s ≡ true) l
not_any-All_settled [] = ground arith
not_any-All_settled (s ∷ rest) = ground (arith, not_any-All_settled rest)

-- A task is approved exactly when no opening is free, every slot is approved or rejected, and one
-- at least is approved: never vacuously.
pub min_rule-approved :
    (i : MinRuleInputs)
    → (compute_min_rule_status i ≡ RolledStatus.approved) ↔ (
        ((i.claims_closed ≡ true) ⊎ (i.openings ≤ length i.claimant_states))
        × All (λ s. is_settled s ≡ true) i.claimant_states
        × (any (is_in SubmissionState.approved) i.claimant_states ≡ true))
min_rule-approved i = ground (arith, min_rule-by_presence i, not_any-All_settled i.claimant_states)

-- A task is open exactly when claims are not closed and an opening is free, whatever has been
-- submitted in the other slots.
pub min_rule-open :
    (i : MinRuleInputs)
    → (compute_min_rule_status i ≡ RolledStatus.open_)
      ↔ ((i.claims_closed ≡ false) × (length i.claimant_states < i.openings))
min_rule-open i = ground (arith, min_rule-by_presence i)

length-replicate {ℓ} : {A : Type ℓ} (n : ℕ) (a : A) → length (replicate n a) ≡ n
length-replicate zero a = omega arith
length-replicate (suc n) a = omega (arith, length-replicate n a)

any-replicate {ℓ} :
    {A : Type ℓ} (p : A → Bool) (n : ℕ) (a : A) → p a ≡ false → any p (replicate n a) ≡ false
any-replicate p zero a h = refl
any-replicate p (suc n) a h = ground (arith, any-replicate p n a)

-- Before anybody has submitted, the full rule gives the status of the Slice 4 rule.
min_rule-extends :
    (n openings : ℕ) (closed : Bool)
    → compute_min_rule_status
        (record { openings = openings; claims_closed = closed; claimant_states = replicate n none })
      ≡ compute_status_cache n openings closed
unfolding compute_status_cache
min_rule-extends n openings closed =
    min_rule-by_presence _
    ∙ ground (
      arith,
      length-replicate {A = Option SubmissionState} n none,
      any-replicate (is_in SubmissionState.revising) n none refl,
      any-replicate (is_in SubmissionState.review) n none refl,
      any-replicate (is_in SubmissionState.approved) n none refl,
    )
