-- ===== src/Risk/Levels.antt =====
-- What each grade of revguard/risk.py stands for, and how the grades are ordered.
use revguard.Base.{ℕ, ◌≤◌, ◌<◌, ◌≡◌, ◌≢◌, ◌↔◌, ◌⊎◌, Bool, true, false, arith, some}
use revguard.Base.Int.{ℤ, pos, abs_ℤ, ◌≤ℤ◌}
use revguard.Model.Status.{RiskLevel, l0, l1, l2, l3}
use revguard.Risk.{
  ActionType, ApproverRole, RiskDecision, classify_risk, l1_auto_draft_max, l2_approval_max,
  evidence_score_auto, evidence_score_min, no_write, draft_only, write_with_approval,
}

abbrev pub rank : RiskLevel → ℕ
rank l0 = 0
rank l1 = 1
rank l2 = 2
rank l3 = 3

-- The proposal moves money: it is no read, and its amount is not 0.
abbrev pub MovesMoney : ActionType → ℤ → Type 0
MovesMoney action a = (action ≢ ActionType.readonly) × (0 < abs_ℤ a)

-- One of the four conditions that force a human to handle the case.
abbrev pub IsForced : ActionType → ℤ → ℕ → Bool → ℕ → Type 0
IsForced action a score conflict orders =
    (conflict ≡ true)
    ⊎ (score < evidence_score_min)
    ⊎ (l2_approval_max < abs_ℤ a)
    ⊎ (1 < orders)
    ⊎ (action ≡ ActionType.batch)

-- A small payout on good evidence.
abbrev pub IsRoutine : ℤ → ℕ → Type 0
IsRoutine a score = (pos 0 ≤ℤ a) × (abs_ℤ a ≤ l1_auto_draft_max) × (evidence_score_auto ≤ score)

module _ (action : ActionType) (a : ℤ) (score : ℕ) (conflict : Bool) (orders : ℕ) where
  abbrev decision : RiskDecision
  decision = classify_risk action a score conflict orders

  l0_iff : (decision.risk_level ≡ l0) ↔ ¬ MovesMoney action a
  unfolding classify_risk
  l0_iff = (λ h. ground arith, λ h. ground arith)

  l1_iff :
      (decision.risk_level ≡ l1)
      ↔ (MovesMoney action a × ¬ IsForced action a score conflict orders × IsRoutine a score)
  unfolding classify_risk
  l1_iff = (λ h. ground arith, λ h. ground arith)

  l2_iff :
      (decision.risk_level ≡ l2)
      ↔ (MovesMoney action a × ¬ IsForced action a score conflict orders × ¬ IsRoutine a score)
  unfolding classify_risk
  l2_iff = (λ h. ground arith, λ h. ground arith)

  l3_iff :
      (decision.risk_level ≡ l3) ↔ (MovesMoney action a × IsForced action a score conflict orders)
  unfolding classify_risk
  l3_iff = (λ h. ground arith, λ h. ground arith)

  -- The grade is L0 exactly when no money moves; else L3 exactly when the case is forced on a human;
  -- else L1 exactly for a routine payout, and L2 exactly for all that is left.
  pub classify_risk_iff :
      ((decision.risk_level ≡ l0) ↔ ¬ MovesMoney action a)
      × ((decision.risk_level ≡ l1)
          ↔ (MovesMoney action a × ¬ IsForced action a score conflict orders × IsRoutine a score))
      × ((decision.risk_level ≡ l2)
          ↔ (MovesMoney action a × ¬ IsForced action a score conflict orders × ¬ IsRoutine a score))
      × ((decision.risk_level ≡ l3)
          ↔ (MovesMoney action a × IsForced action a score conflict orders))
  classify_risk_iff = (l0_iff, l1_iff, l2_iff, l3_iff)

  -- A decision that lets money be written to the ledger requires an approval by the finance lead, and
  -- is made only for an amount from the smallest unit up to 50,000, on a score of at least 0.6, for
  -- one order at most, with no conflict; a decision that requires no approval allows at most a draft,
  -- of a payout of at most 5,000.
  writes_need_approval :
      ((limit : ℕ)
        → decision.execution_constraints ≡ write_with_approval limit
        → (decision.approval_required ≡ true)
          × (decision.approver_role ≡ some ApproverRole.finance_lead)
          × (0 < abs_ℤ a)
          × (abs_ℤ a ≤ 5000000)
          × (60 ≤ score)
          × (conflict ≡ false)
          × (orders ≤ 1))
      × (decision.approval_required ≡ false
          → (decision.execution_constraints ≡ no_write)
            ⊎ ((decision.execution_constraints ≡ draft_only 500000)
                × (pos 0 ≤ℤ a)
                × (abs_ℤ a ≤ 500000)))
  unfolding classify_risk
  writes_need_approval = (λ limit h. ground arith, λ h. ground arith)

RiskLevel-cases : (l : RiskLevel) → (l ≡ l0) ⊎ (l ≡ l1) ⊎ (l ≡ l2) ⊎ (l ≡ l3)
RiskLevel-cases l = ground arith

module _ (action : ActionType) (a b : ℤ) (s t : ℕ) (p q : Bool) (m n : ℕ)
    (amounts : abs_ℤ a ≤ abs_ℤ b) (debit : pos 0 ≤ℤ b → pos 0 ≤ℤ a) (scores : t ≤ s)
    (conflicts : p ≡ true → q ≡ true) (orders : m ≤ n) where
  abbrev before : RiskDecision
  before = classify_risk action a s p m

  abbrev after : RiskDecision
  after = classify_risk action b t q n

  MovesMoney-more : MovesMoney action a → MovesMoney action b
  MovesMoney-more h = ground arith

  IsForced-more : IsForced action a s p m → IsForced action b t q n
  IsForced-more h = ground arith

  IsRoutine-less : IsRoutine b t → IsRoutine a s
  IsRoutine-less h = ground arith

  from_l3 : before.risk_level ≡ l3 → after.risk_level ≡ l3
  from_l3 h =
      let (moves, forced) = (l3_iff action a s p m).0 h in
      (l3_iff action b t q n).1 (MovesMoney-more moves, IsForced-more forced)

  from_l2 : before.risk_level ≡ l2 → (after.risk_level ≢ l0) × (after.risk_level ≢ l1)
  from_l2 h =
      let (moves, free, hard) = (l2_iff action a s p m).0 h in
      (
        λ e. (l0_iff action b t q n).0 e (MovesMoney-more moves),
        λ e. let (_, _, easy) = (l1_iff action b t q n).0 e in hard (IsRoutine-less easy),
      )

  from_l1 : before.risk_level ≡ l1 → after.risk_level ≢ l0
  from_l1 h =
      let (moves, free, easy) = (l1_iff action a s p m).0 h in
      λ e. (l0_iff action b t q n).0 e (MovesMoney-more moves)

  -- A larger amount, a debit for a payout, weaker evidence, a conflict or more orders never lower
  -- the grade.
  risk_monotone : rank before.risk_level ≤ rank after.risk_level
  risk_monotone = ground (
    arith,
    from_l1,
    from_l2,
    from_l3,
    RiskLevel-cases before.risk_level,
    RiskLevel-cases after.risk_level,
  )
