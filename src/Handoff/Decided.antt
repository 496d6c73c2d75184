-- ===== src/Handoff/Decided.antt =====
-- What a decided case rests on (`decide_case_approval`, revguard/mocks.py).
use revguard.Base.{
  ℕ, ◌≡◌, Bool, true, false, not, ◌&&◌, Option, none, some, [], ◌∷◌, inl, inr, lookup, inserted,
  refl, sym, ap, subst, ◌∙◌, Bool-cases, arith,
}
use revguard.Model.Status.{CaseStatus, known}
use revguard.Model.Errors.{
  ok, raise_if, or_raise, >>=-eq-ok, or_raise-eq-ok, raise_if-eq-ok, ok-injective, Result-cases,
  tool_error, invalid_params, auth_failed, stale_case_transition,
}
use revguard.Model.Actors.{decide_approval as decision_tool}
use revguard.Model.Money.{Approval, GatewayState}
use revguard.Model.Tables.{Case, Task, Database}
use revguard.Access.{authorize_tool, approval_decide}
use revguard.Cases.{locked_case}
use revguard.Tasks.Lifecycle.{is_open, cancel_task, cancel_open_agent_tasks}
use revguard.Tasks.Steps.{cancelled_tasks}
use revguard.Gateway.{Env}
use revguard.Gateway.Submission.{is_approved}
use revguard.Approvals.{
  decide_approval, approve, is_pending, approved_by, rejected_by, commit_approval,
}
use revguard.Commitment.{approval_digest}
use revguard.Recovery.{has_status}
use revguard.Recovery.Resume.{same_case}
use revguard.Recovery.Writes.{moved_lem}
use revguard.Recovery.Fenced.{cancelled_is_closed, mapped_row}
use revguard.Handoff.{
  Decision, is_of_case, record_decision, hand_over, handed_over, approval_rejected,
  decide_case_approval,
}

-- What a decision on a stored approval returns.
verdict_lem :
    (env : Env) (token : ℕ) (d : Decision) (verdict : Bool) (b : Approval) (st : GatewayState)
    (a : Approval)
    → lookup d.approval_id st.approvals ≡ some b
    → (decide_approval env token d.actor d.approval_id verdict st).0 ≡ ok a
    → (a.case_id ≡ b.case_id) × (is_approved a.status ≡ verdict)
unfolding decide_approval
verdict_lem env token d true b st a found h =
    let decided = approved_by env d.actor b in
    elim (Bool-cases (is_pending b.status)) [
      | inl waits ↦ elim (Result-cases (approval_digest env.digest env.amount_scale decided)) [
        | inl (digest, hashed) ↦
            let same : ok (commit_approval env token digest decided) ≡ ok a =
              rw (found, waits, decide_approval, hashed, approve) at h in
            let image = ok-injective same in
            (
              sym (ap (λ (x : Approval). x.case_id) image),
              sym (ap (λ (x : Approval). is_approved x.status) image),
            )
        | inr (e, failed) ↦
            let wrong = rw (found, waits, decide_approval, failed, approve) at h in absurd (cc)
      ]
      | inr over ↦ let wrong = rw (found, over, decide_approval) at h in absurd (cc)
    ]
verdict_lem env token d false b st a found h = elim (Bool-cases (is_pending b.status)) [
  | inl waits ↦
      let same : ok (rejected_by d.actor b) ≡ ok a = rw (found, waits, decide_approval) at h in
      let image = ok-injective same in
      (
        sym (ap (λ (x : Approval). x.case_id) image),
        sym (ap (λ (x : Approval). is_approved x.status) image),
      )
  | inr over ↦ let wrong = rw (found, over, decide_approval) at h in absurd (cc)
]

-- After an approval the case is ready to execute, and the gateway holds an approved approval of the
-- case; after a rejection it is REJECTED, and no task of it is open.
abbrev pub HasOutcome : Bool → Case → Case × Database → Type 0
HasOutcome true c (u, w) =
    (u.status ≡ known CaseStatus.ready_to_execute)
    × ((a : Approval) × (lookup a.approval_id w.state.approvals ≡ some a)
        × (a.case_id ≡ c.case_id)
        × (is_approved a.status ≡ true))
HasOutcome false c (u, w) =
    (u.status ≡ known CaseStatus.rejected)
    × ((k : ℕ) (t : Task)
        → lookup k w.tasks ≡ some t
        → t.case_id ≡ c.case_id
        → is_open t.status ≡ false)

hand_over-HasOutcome :
    (d : Decision) (verdict : Bool) (c : Case) (a : Approval) (st : GatewayState) (db : Database)
    (o : Case × Database)
    → a.case_id ≡ c.case_id
    → is_approved a.status ≡ verdict
    → hand_over d verdict c (record_decision d c.case_id a st db) ≡ ok o
    → HasOutcome verdict c o
unfolding hand_over
hand_over-HasOutcome d true c a st db o of_case is_verdict h =
    let ((_, _, _, of_state), ready) =
      moved_lem _ _ _ _ _ (handed_over d c) o.0 (record_decision d c.case_id a st db) o.1 h in
    let stored : lookup a.approval_id o.1.state.approvals ≡ some a =
      subst (λ (s : GatewayState). lookup a.approval_id s.approvals ≡ some a) (sym of_state)
        (inserted a.approval_id a st.approvals) in
    (ready, (a, stored, of_case, is_verdict))
hand_over-HasOutcome d false c a st db o of_case is_verdict h =
    let before = record_decision d c.case_id a st db in
    let after = (cancel_open_agent_tasks c.case_id d.actor approval_rejected before).1 in
    let ((_, _, (of_tasks, _, _), _), stopped) = moved_lem _ _ _ _ _ c o.0 after o.1 h in
    let tasks = of_tasks ∙ cancelled_tasks c.case_id d.actor approval_rejected before in
    (
      stopped,
      λ k t found own.
          let (t0, image) =
            mapped_row k (cancel_task c.case_id approval_rejected) db.tasks
              (subst (λ x. lookup k x ≡ some t) tasks found) in
          subst (λ (x : Task). x.case_id ≡ c.case_id → is_open x.status ≡ false) (sym image)
            (cancelled_is_closed c.case_id approval_rejected t0) own,
    )

own_approval :
    (case_id : ℕ) (o : Option Approval)
    → not (is_of_case case_id o) ≡ false
    → (b : Approval) × (o ≡ some b) × (b.case_id ≡ case_id)
own_approval case_id none h = absurd (cc)
own_approval case_id (some b) h = (b, refl, ground arith)

-- A decision that succeeds names a verdict, and was made while the given case waited for approval. If
-- it approves, the case is ready to execute and the gateway holds an approved approval of the case;
-- if it rejects, the case is REJECTED and no task of it is open.
pub decision_settles_case :
    (env : Env) (d : Decision) (c : Case) (db : Database) (o : Case × Database)
    → decide_case_approval env d c db ≡ ok o
    → (verdict : Bool) × (d.verdict ≡ some verdict)
      × (has_status c.status (CaseStatus.waiting_for_approval ∷ []) ≡ true)
      × HasOutcome verdict c o
unfolding decide_case_approval
decision_settles_case env d c db o h =
    let (_, _, h1) = >>=-eq-ok (authorize_tool d.actor (approval_decide ∷ []) decision_tool) _ h in
    let (verdict, given, h2) = >>=-eq-ok (or_raise d.verdict (tool_error invalid_params)) _ h1 in
    let waiting =
      same_case (locked_case db c.case_id) c
      && has_status c.status (CaseStatus.waiting_for_approval ∷ []) in
    let (_, current, h3) = >>=-eq-ok (raise_if (not waiting) stale_case_transition) _ h2 in
    let (_, own, h4) =
      >>=-eq-ok
        (raise_if (not (is_of_case c.case_id (lookup d.approval_id db.state.approvals)))
          (tool_error auth_failed))
        _ h3 in
    let (a, replied, last) =
      >>=-eq-ok (decide_approval env d.token d.actor d.approval_id verdict db.state).0 _ h4 in
    let held : waiting ≡ true = ground arith in
    let (b, found, mine) =
      own_approval c.case_id (lookup d.approval_id db.state.approvals) (raise_if-eq-ok _ _ own) in
    let (of_b, is_verdict) = verdict_lem env d.token d verdict b db.state a found replied in
    (
      verdict,
      or_raise-eq-ok d.verdict (tool_error invalid_params) given,
      ground arith,
      hand_over-HasOutcome d verdict c a _ db o (of_b ∙ mine) is_verdict (
          subst
            (λ v.
              hand_over d v c (
                record_decision d c.case_id a
                  (decide_approval env d.token d.actor d.approval_id verdict db.state).1 db)
              ≡ ok o)
            is_verdict last),
    )
