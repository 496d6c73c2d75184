-- ===== src/Lifecycle/Examples.antt =====
-- Runs of the whitelist of revguard/state_machine.py, and its theorems at concrete statuses.
use revguard.Base.{◌≡◌, refl, inl, inr, true, false}
use revguard.Model.Status.{CaseStatus}
use revguard.Lifecycle.{is_allowed}
use revguard.Lifecycle.Paths.{
  Trail, here, next, steps, Enters, rejected_blocks_writes, final_blocks,
}

test_failure : is_allowed CaseStatus.rejected CaseStatus.failed ≡ true
unfolding is_allowed
test_failure = refl

test_shortcut : is_allowed CaseStatus.created CaseStatus.executing ≡ false
unfolding is_allowed
test_shortcut = refl

abbrev reopened : Trail CaseStatus.rejected CaseStatus.executing
reopened =
    next CaseStatus.executing
      (next CaseStatus.recovery_required (next CaseStatus.failed here (unfold is_allowed in refl))
        (unfold is_allowed in refl))
      (unfold is_allowed in refl)

rejected_blocks_writes_example : Enters CaseStatus.failed (steps reopened)
rejected_blocks_writes_example = rejected_blocks_writes reopened (inr refl)

final_blocks_example : is_allowed CaseStatus.closed CaseStatus.failed ≡ false
final_blocks_example = final_blocks CaseStatus.closed CaseStatus.failed (inl refl)
