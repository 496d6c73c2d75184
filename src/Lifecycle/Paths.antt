-- ===== src/Lifecycle/Paths.antt =====
-- Sequences of transitions that the whitelist of revguard/state_machine.py allows.
use revguard.Base.{
  ℕ, zero, suc, ◌+◌, length, ◌≤◌, ◌<◌, ◌≡◌, refl, ◌⊎◌, inl, inr, Bool, true, false, List, [], ◌∷◌,
  arith,
}
use revguard.Model.Status.{CaseStatus}
use revguard.Lifecycle.{is_allowed}

-- A sequence of allowed transitions from `s` to `t`, its newest step outermost.
pub data Trail (s : CaseStatus) : CaseStatus → Type 0 where
  here : Trail s s
  next : {t : CaseStatus} (u : CaseStatus) → Trail s t → is_allowed t u ≡ true → Trail s u

-- The steps of a trail, the newest first.
unfoldable pub steps : {s t : CaseStatus} → Trail s t → List (CaseStatus × CaseStatus)
steps here = []
steps (next {t} u p h) = (t, u) ∷ steps p

-- The trail has a step into `x`.
abbrev pub Enters : CaseStatus → List (CaseStatus × CaseStatus) → Type 0
Enters x [] = ⊥
Enters x ((s, t) ∷ l) = (x ≡ t) ⊎ Enters x l

abbrev pub IsFinal : CaseStatus → Type 0
IsFinal s = (s ≡ CaseStatus.closed) ⊎ (s ≡ CaseStatus.rolled_back)

-- A final status has no successor.
pub final_blocks : (s t : CaseStatus) → IsFinal s → is_allowed s t ≡ false
unfolding is_allowed
final_blocks s t h = ground arith

-- The stages before the risk review.
abbrev pub is_before_review : CaseStatus → Bool
is_before_review CaseStatus.created = true
is_before_review CaseStatus.normalizing = true
is_before_review CaseStatus.evidence_collecting = true
is_before_review CaseStatus.waiting_for_evidence = true
is_before_review CaseStatus.policy_matching = true
is_before_review CaseStatus.calculating = true
is_before_review CaseStatus.root_cause_analyzing = true
is_before_review _ = false

leaves_review :
    (t u : CaseStatus)
    → is_before_review t ≡ true
    → is_allowed t u ≡ true
    → (is_before_review u ≡ true) ⊎ (CaseStatus.risk_review ≡ u) ⊎ (CaseStatus.failed ≡ u)
unfolding is_allowed
leaves_review t u b h = ground arith

-- Either the case is still before the review, or the trail entered the review or a failure.
pub review_or_failure :
    {s t : CaseStatus} (p : Trail s t)
    → is_before_review s ≡ true
    → (is_before_review t ≡ true)
      ⊎ Enters CaseStatus.risk_review (steps p)
      ⊎ Enters CaseStatus.failed (steps p)
unfolding steps
review_or_failure here b = inl b
review_or_failure (next {t} u p h) b = elim (review_or_failure p b) [
  | inl early ↦ ground (arith, leaves_review t u early h)
  | inr (inl done) ↦ inr (inl (inr done))
  | inr (inr done) ↦ inr (inr (inr done))
]

-- What a rejected case may become without a failure.
abbrev is_after_rejection : CaseStatus → Bool
is_after_rejection CaseStatus.rejected = true
is_after_rejection CaseStatus.knowledge_archived = true
is_after_rejection CaseStatus.closed = true
is_after_rejection _ = false

rejection_step :
    (t u : CaseStatus)
    → is_after_rejection t ≡ true
    → is_allowed t u ≡ true
    → (is_after_rejection u ≡ true) ⊎ (CaseStatus.failed ≡ u)
unfolding is_allowed
rejection_step t u b h = ground arith

rejected_stays :
    {t : CaseStatus} (p : Trail CaseStatus.rejected t)
    → (is_after_rejection t ≡ true) ⊎ Enters CaseStatus.failed (steps p)
unfolding steps
rejected_stays here = inl refl
rejected_stays (next {t} u p h) = elim (rejected_stays p) [
  | inl calm ↦ ground (arith, rejection_step t u calm h)
  | inr done ↦ inr (inr done)
]

-- A rejected case reaches no write stage unless its trail enters FAILED.
pub rejected_blocks_writes :
    {t : CaseStatus} (p : Trail CaseStatus.rejected t)
    → (t ≡ CaseStatus.ready_to_execute) ⊎ (t ≡ CaseStatus.executing)
    → Enters CaseStatus.failed (steps p)
rejected_blocks_writes p w = ground (arith, rejected_stays p)

-- A way forward that ends: the status to choose next, and how many choices are left.
advance : CaseStatus → CaseStatus
advance CaseStatus.created = CaseStatus.normalizing
advance CaseStatus.normalizing = CaseStatus.evidence_collecting
advance CaseStatus.evidence_collecting = CaseStatus.policy_matching
advance CaseStatus.waiting_for_evidence = CaseStatus.normalizing
advance CaseStatus.policy_matching = CaseStatus.calculating
advance CaseStatus.calculating = CaseStatus.root_cause_analyzing
advance CaseStatus.root_cause_analyzing = CaseStatus.risk_review
advance CaseStatus.waiting_for_approval = CaseStatus.rejected
advance CaseStatus.ready_to_execute = CaseStatus.executing
advance CaseStatus.executing = CaseStatus.resolved
advance CaseStatus.verifying = CaseStatus.resolved
advance CaseStatus.resolved = CaseStatus.knowledge_archived
advance CaseStatus.rejected = CaseStatus.knowledge_archived
advance CaseStatus.rollback_required = CaseStatus.rolled_back
advance CaseStatus.failed = CaseStatus.rollback_required
advance CaseStatus.recovery_required = CaseStatus.rollback_required
advance _ = CaseStatus.closed

remaining : CaseStatus → ℕ
remaining CaseStatus.created = 8
remaining CaseStatus.normalizing = 6
remaining CaseStatus.evidence_collecting = 5
remaining CaseStatus.waiting_for_evidence = 7
remaining CaseStatus.policy_matching = 4
remaining CaseStatus.calculating = 3
remaining CaseStatus.root_cause_analyzing = 2
remaining CaseStatus.ready_to_execute = 4
remaining CaseStatus.waiting_for_approval = 3
remaining CaseStatus.executing = 3
remaining CaseStatus.verifying = 3
remaining CaseStatus.resolved = 2
remaining CaseStatus.rejected = 2
remaining CaseStatus.failed = 2
remaining CaseStatus.recovery_required = 2
remaining CaseStatus.closed = 0
remaining CaseStatus.rolled_back = 0
remaining _ = 1

advance_lem :
    (s : CaseStatus)
    → IsFinal s ⊎ ((is_allowed s (advance s) ≡ true) × (remaining (advance s) < remaining s))
unfolding is_allowed advance remaining
advance_lem s = ground arith

remaining-le : (s : CaseStatus) → remaining s ≤ 8
unfolding remaining
remaining-le s = ground arith

settles :
    (n : ℕ) {s t : CaseStatus} (p : Trail s t)
    → remaining t ≤ n
    → (u : CaseStatus) × (q : Trail s u) × IsFinal u × (length (steps q) ≤ length (steps p) + n)
unfolding steps
settles zero {t} p h = elim (advance_lem t) [
  | inl f ↦ (t, p, f, omega arith)
  | inr (_, less) ↦ absurd (omega arith)
]
settles (suc n) {t} p h = elim (advance_lem t) [
  | inl f ↦ (t, p, f, omega arith)
  | inr (allowed, less) ↦
      let (u, q, f, short) = settles n (next (advance t) p allowed) (omega arith) in
      (u, q, f, omega arith)
]

-- No status is a dead end: from each an allowed trail of at most eight steps leads to CLOSED or
-- ROLLED_BACK.
every_status_settles :
    (s : CaseStatus) → (u : CaseStatus) × (q : Trail s u) × IsFinal u × (length (steps q) ≤ 8)
unfolding steps
every_status_settles s = settles 8 here (remaining-le s)
