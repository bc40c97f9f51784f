-- ===== src/TaskStatus/MinRule.antt =====
-- The roll-up read off from which kinds of slot a task has, with no minimum taken.
use patrice.Prelude.{
  ℕ, zero, suc, ◌≡◌, ◌∙◌, refl, Bool, true, false, not, ◌&&◌, ◌||◌, Option, none, some, List, [],
  ◌∷◌, arith, any, any-append, length, ltb, replicate, if◌then◌else◌,
}
use patrice.TaskStatus.{
  SubmissionState, RolledStatus, MinRuleInputs, contribution, slot_contributions, open_spots,
  contributions, lower, lowest_from, lowest_or_claimed, compute_min_rule_status,
}

abbrev is_open : RolledStatus → Bool
is_open RolledStatus.open_ = true
is_open _ = false

abbrev is_claimed : RolledStatus → Bool
is_claimed RolledStatus.claimed = true
is_claimed _ = false

abbrev is_revising : RolledStatus → Bool
is_revising RolledStatus.revising = true
is_revising _ = false

abbrev is_review : RolledStatus → Bool
is_review RolledStatus.review = true
is_review _ = false

abbrev is_approved : RolledStatus → Bool
is_approved RolledStatus.approved = true
is_approved _ = false

abbrev ladder : List RolledStatus → RolledStatus
ladder l =
    if any is_open l
    then RolledStatus.open_
    else if any is_claimed l
    then RolledStatus.claimed
    else if any is_revising l
    then RolledStatus.revising
    else if any is_review l
    then RolledStatus.review
    else if any is_approved l
    then RolledStatus.approved
    else RolledStatus.claimed

ladder-lower :
    (c d : RolledStatus) (rest : List RolledStatus)
    → ladder (lower c d ∷ rest) ≡ ladder (c ∷ d ∷ rest)
ladder-lower c d rest = ground arith

lowest_from-ladder :
    (c : RolledStatus) (rest : List RolledStatus) → lowest_from c rest ≡ ladder (c ∷ rest)
unfolding lowest_from
lowest_from-ladder c [] = ground arith
lowest_from-ladder c (d ∷ rest) = lowest_from-ladder (lower c d) rest ∙ ladder-lower c d rest

lowest_or_claimed-ladder : (l : List RolledStatus) → lowest_or_claimed l ≡ ladder l
unfolding lowest_or_claimed
lowest_or_claimed-ladder [] = refl
lowest_or_claimed-ladder (c ∷ rest) = lowest_from-ladder c rest

abbrev pub is_unsubmitted : Option SubmissionState → Bool
is_unsubmitted none = true
is_unsubmitted _ = false

abbrev pub is_in : SubmissionState → Option SubmissionState → Bool
is_in SubmissionState.review (some SubmissionState.review) = true
is_in SubmissionState.revising (some SubmissionState.revising) = true
is_in SubmissionState.approved (some SubmissionState.approved) = true
is_in SubmissionState.rejected (some SubmissionState.rejected) = true
is_in _ _ = false

-- The status by which kinds of slot there are: a free opening, a slot not submitted, one sent
-- back, one in review, an approved one; a task with none of these is `claimed`.
abbrev pub by_presence : MinRuleInputs → RolledStatus
by_presence i =
    if not i.claims_closed && ltb (length i.claimant_states) i.openings
    then RolledStatus.open_
    else if any is_unsubmitted i.claimant_states
    then RolledStatus.claimed
    else if any (is_in SubmissionState.revising) i.claimant_states
    then RolledStatus.revising
    else if any (is_in SubmissionState.review) i.claimant_states
    then RolledStatus.review
    else if any (is_in SubmissionState.approved) i.claimant_states
    then RolledStatus.approved
    else RolledStatus.claimed

any-slot_contributions :
    (p : RolledStatus → Bool) (q : Option SubmissionState → Bool)
    → ((s : Option SubmissionState) → any p (contribution s) ≡ q s)
    → (l : List (Option SubmissionState)) → any p (slot_contributions l) ≡ any q l
unfolding slot_contributions
any-slot_contributions p q h [] = refl
any-slot_contributions p q h (s ∷ rest) = ground (
  arith,
  h s,
  any-append p (contribution s) (slot_contributions rest),
  any-slot_contributions p q h rest,
)

any-replicate_open :
    (p : RolledStatus → Bool) (n : ℕ)
    → any p (replicate n RolledStatus.open_) ≡ (p RolledStatus.open_ && ltb 0 n)
any-replicate_open p zero = ground arith
any-replicate_open p (suc n) = ground (arith, any-replicate_open p n)

open_spots-pos :
    (i : MinRuleInputs)
    → ltb 0 (open_spots i) ≡ (not i.claims_closed && ltb (length i.claimant_states) i.openings)
unfolding open_spots
open_spots-pos i = ground arith

any-contributions :
    (p : RolledStatus → Bool) (q : Option SubmissionState → Bool)
    → ((s : Option SubmissionState) → any p (contribution s) ≡ q s)
    → (i : MinRuleInputs)
    → any p (contributions i) ≡ (
        p RolledStatus.open_ && (not i.claims_closed && ltb (length i.claimant_states) i.openings)
        || any q i.claimant_states)
unfolding contributions
any-contributions p q h i = ground (
  arith,
  any-append p (replicate (open_spots i) RolledStatus.open_) (slot_contributions i.claimant_states),
  any-replicate_open p (open_spots i),
  open_spots-pos i,
  any-slot_contributions p q h i.claimant_states,
)

-- No slot of a claimant counts as open.
any-never : (l : List (Option SubmissionState)) → any (λ _. false) l ≡ false
any-never [] = refl
any-never (_ ∷ rest) = any-never rest

-- The lowest of the contributions is the status by presence.
pub min_rule-by_presence : (i : MinRuleInputs) → compute_min_rule_status i ≡ by_presence i
unfolding compute_min_rule_status
min_rule-by_presence i =
    lowest_or_claimed-ladder (contributions i)
    ∙ ground (
      arith,
      any-never i.claimant_states,
      any-contributions is_open (λ _. false) (λ s. ground arith) i,
      any-contributions is_claimed is_unsubmitted (λ s. ground arith) i,
      any-contributions is_revising (is_in SubmissionState.revising) (λ s. ground arith) i,
      any-contributions is_review (is_in SubmissionState.review) (λ s. ground arith) i,
      any-contributions is_approved (is_in SubmissionState.approved) (λ s. ground arith) i,
    )
