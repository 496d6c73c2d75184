-- ===== src/Recovery/Renewals.antt =====
-- The tail of a resumption: what the renewals and the queued run leave (`resume_case_run`,
-- revguard/recovery.py).
use revguard.Base.{
  ℕ, ◌+◌, ◌≡◌, true, false, not, ◌&&◌, some, List, [], ◌∷◌, lookup, Dict, refl, sym, ap, subst, ◌∙◌,
  ◌==◌, Bool-cases, inl, inr,
}
use revguard.Model.Money.{Execution}
use revguard.Model.Tables.{Case, Database}
use revguard.Model.Errors.{ok, >>=-eq-ok, ok-injective}
use revguard.Cases.{save_case_with_conn}
use revguard.Gateway.{Env}
use revguard.Recovery.{has_status}
use revguard.Recovery.Resume.{
  Recovery, approval_id_of, as_capability_error, renew_execution, renew_row, renew_rows,
  renew_rollbacks, renew_capabilities,
}
use revguard.Approvals.Renewal.{renew_approval_capability, renew_rollback_capability}
use revguard.Recovery.Queue.{move_to_resume, queued_case, queue_run}
use revguard.Recovery.Writes.{SameWork, SameWork-trans, saved_lem, move_lem, resumable}

renew_execution-SameWork :
    (env : Env) (r : Recovery) (c : Case) (db w : Database)
    → renew_execution env r c db ≡ ok w
    → SameWork db w
unfolding renew_execution
renew_execution-SameWork env r c db w h =
    let id = approval_id_of r.approval in
    let (_, _, last) =
      >>=-eq-ok
        (as_capability_error
          (renew_approval_capability env (r.tokens id) id (some c.case_id) db.state))
        _ h in
    subst (SameWork db) (ok-injective last) (refl, refl, refl)

renew_row-SameWork :
    (env : Env) (r : Recovery) (case_id : ℕ) (e : Execution) (before after : List ℕ × Database)
    → renew_row env r case_id e before ≡ ok after
    → SameWork before.1 after.1
unfolding renew_row
renew_row-SameWork env r case_id e (ledgers, db) after h =
    elim (Bool-cases (e.case_id == case_id && not e.is_rolled_back)) [
      | inl own ↦
          let (_, _, last) =
            >>=-eq-ok
              (as_capability_error (
                renew_rollback_capability env (r.tokens e.action_id) case_id e.ledger_id e.action_id
                  db.state))
              _ (rw own at h) in
          subst (λ o. SameWork db o.1) (ok-injective last) (refl, refl, refl)
      | inr other ↦ subst (λ o. SameWork db o.1) (ok-injective (rw other at h)) (refl, refl, refl)
    ]

renew_rows-SameWork :
    (env : Env) (r : Recovery) (case_id : ℕ) (rows : Dict Execution)
    (before after : List ℕ × Database)
    → renew_rows env r case_id rows before ≡ ok after
    → SameWork before.1 after.1
unfolding renew_rows
renew_rows-SameWork env r case_id [] before after h =
    subst (λ o. SameWork before.1 o.1) (ok-injective h) (refl, refl, refl)
renew_rows-SameWork env r case_id ((_, e) ∷ rows) before after h =
    let (next, first, rest) = >>=-eq-ok (renew_row env r case_id e before) _ h in
    SameWork-trans before.1 next.1 after.1 (renew_row-SameWork env r case_id e before next first)
      (renew_rows-SameWork env r case_id rows next after rest)

renew_capabilities-SameWork :
    (env : Env) (r : Recovery) (c : Case) (db w : Database)
    → renew_capabilities env r c db ≡ ok w
    → SameWork db w
unfolding renew_rollbacks renew_execution
renew_capabilities-SameWork env r c db w h = elim (Bool-cases r.rollback) [
  | inl undo ↦
      let ((ledgers, written), first, last) =
        >>=-eq-ok (renew_rows env r c.case_id db.executions ([], db)) _ (rw undo at h) in
      subst (SameWork db) (ok-injective last)
        (renew_rows-SameWork env r c.case_id db.executions ([], db) (ledgers, written) first)
  | inr again ↦ elim (Bool-cases c.approval_required) [
    | inl needed ↦ renew_execution-SameWork env r c db w (rw (again, needed) at h)
    | inr open_case ↦
        subst (SameWork db) (ok-injective (rw (again, open_case) at h)) (refl, refl, refl)
  ]
]

-- The stored case and the work after the tail.
abbrev pub IsQueued : Recovery → Case → Database → Case × Database → Type 0
IsQueued r c db (u, w) =
    (u.case_id ≡ c.case_id)
    × (u.recording_id ≡ c.recording_id)
    × (u.recovery_generation ≡ c.recovery_generation + 1)
    × (lookup c.case_id w.cases ≡ some u)
    × (has_status u.status (resumable r.rollback) ≡ true)
    × SameWork db w

pub queue_run-IsQueued :
    (env : Env) (r : Recovery) (c : Case) (cancelled : List ℕ) (db : Database) (o : Case × Database)
    → queue_run env r c cancelled db ≡ ok o
    → IsQueued r c db o
unfolding queue_run
queue_run-IsQueued env r c cancelled db o h =
    let (renewed, h0, h1) = >>=-eq-ok (renew_capabilities env r c db) _ h in
    let ((pending, moved), h2, h3) = >>=-eq-ok (move_to_resume r c renewed) _ h1 in
    let next = queued_case r cancelled c pending in
    let ((u, w), h4, last) = >>=-eq-ok (save_case_with_conn false next moved) _ h3 in
    let work1 = renew_capabilities-SameWork env r c db renewed h0 in
    let ((of_case, of_recording, of_run), work2, ready) =
      move_lem r c renewed (pending, moved) h2 in
    let (((u_case, u_recording, u_run), stored, work3, _), u_status, _) =
      saved_lem next u moved w h4 in
    let stored_here : lookup c.case_id w.cases ≡ some u =
      subst (λ k. lookup k w.cases ≡ some u) of_case stored in
    let at_goal : has_status u.status (resumable r.rollback) ≡ true =
      subst (λ s. has_status s (resumable r.rollback) ≡ true) (sym u_status) ready in
    subst (IsQueued r c db) (ok-injective last) (
      u_case ∙ of_case,
      u_recording ∙ of_recording,
      u_run ∙ ap suc_of of_run,
      stored_here,
      at_goal,
      SameWork-trans db renewed w work1 (SameWork-trans renewed moved w work2 work3),
    )
  where
    suc_of : ℕ → ℕ
    suc_of n = n + 1
