-- ===== src/Risk/Examples.antt =====
-- Runs of revguard/risk.py, and its theorems at concrete proposals.
use revguard.Base.{◌≡◌, ◌↔◌, refl, true, false, ◌∷◌, []}
use revguard.Base.Int.{pos, negsuc}
use revguard.Model.Status.{l0, l1, l2, l3}
use revguard.Risk.{ActionType, ReasonCode, amount_exceeds, RiskDecision, classify_risk}
use revguard.Risk.Levels.{MovesMoney, IsForced, IsRoutine, classify_risk_iff}

-- 4,500.00 on full evidence is drafted; the same amount taken back wants an approval.
test_payout : (classify_risk ActionType.ledger_adjust (pos 450000) 100 false 1).risk_level ≡ l1
unfolding classify_risk
test_payout = refl

test_clawback : (classify_risk ActionType.ledger_adjust (negsuc 449999) 100 false 1).risk_level ≡ l2
unfolding classify_risk
test_clawback = refl

test_reasons :
    (classify_risk ActionType.batch (pos 6000000) 100 true 1).reason_codes
    ≡ ReasonCode.policy_conflict ∷ amount_exceeds 5000000 ∷ ReasonCode.batch_operation ∷ []
unfolding classify_risk
test_reasons = refl

abbrev proposal : RiskDecision
proposal = classify_risk ActionType.ledger_adjust (pos 2700000) 90 false 1

classify_risk_iff_example :
    ((proposal.risk_level ≡ l0) ↔ ¬ MovesMoney ActionType.ledger_adjust (pos 2700000))
    × ((proposal.risk_level ≡ l1) ↔ (
        MovesMoney ActionType.ledger_adjust (pos 2700000)
        × ¬ IsForced ActionType.ledger_adjust (pos 2700000) 90 false 1
        × IsRoutine (pos 2700000) 90))
    × ((proposal.risk_level ≡ l2) ↔ (
        MovesMoney ActionType.ledger_adjust (pos 2700000)
        × ¬ IsForced ActionType.ledger_adjust (pos 2700000) 90 false 1
        × ¬ IsRoutine (pos 2700000) 90))
    × ((proposal.risk_level ≡ l3) ↔ (
        MovesMoney ActionType.ledger_adjust (pos 2700000)
        × IsForced ActionType.ledger_adjust (pos 2700000) 90 false 1))
classify_risk_iff_example = classify_risk_iff ActionType.ledger_adjust (pos 2700000) 90 false 1
