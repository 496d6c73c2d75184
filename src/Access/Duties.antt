-- ===== src/Access/Duties.antt =====
-- Who may ask for, decide on and carry out a change of money (revguard/security.py).
use revguard.Base.{false, ◌≡◌, Bool, true, not, Option, none, some, List, arith}
use revguard.Model.Errors.{
  ok, raise_if, or_raise, security_error, >>=-eq-ok, raise_if-eq-ok, or_raise-eq-ok,
}
use revguard.Model.Actors.{Actor, Tool}
use revguard.Access.{Scope, has_scope, required_scope, allowed_scopes, authorize_tool}

-- The three steps of a change of money, which three parties take.
pub data Duty : Type 0 where
  ask decide carry_out : Duty

abbrev pub duty_of : Tool → Option Duty
duty_of Tool.create_approval = some ask
duty_of Tool.decide_approval = some decide
duty_of Tool.renew_approval_capability = some decide
duty_of Tool.renew_rollback_capability = some decide
duty_of Tool.create_adjustment_draft = some carry_out
duty_of Tool.submit_adjustment = some carry_out
duty_of Tool.reverse_adjustment = some carry_out
duty_of _ = none

-- The one party that a duty is given to.
abbrev pub holder : Duty → Actor
holder ask = Actor.risk
holder decide = Actor.finance_lead
holder carry_out = Actor.executor

duty_of_scope : Scope → Option Duty
duty_of_scope Scope.approval_write = some ask
duty_of_scope Scope.approval_decide = some decide
duty_of_scope Scope.commission_draft = some carry_out
duty_of_scope Scope.commission_write = some carry_out
duty_of_scope Scope.commission_reverse = some carry_out
duty_of_scope _ = none

scope_of_duty :
    (tool : Tool) (d : Duty) (s : Scope)
    → duty_of tool ≡ some d
    → required_scope tool ≡ some s
    → duty_of_scope s ≡ some d
unfolding required_scope duty_of_scope
scope_of_duty tool d s h e = ground arith

holder_of_scope :
    (a : Actor) (allowed : List Scope) (s : Scope) (d : Duty)
    → allowed_scopes a ≡ some allowed
    → has_scope s allowed ≡ true
    → duty_of_scope s ≡ some d
    → a ≡ holder d
unfolding allowed_scopes duty_of_scope
holder_of_scope a allowed s d e h duty = ground arith

-- Whatever scopes a caller claims, it is authorised to ask for an approval only as the risk agent,
-- to decide on one or renew a capability only as the finance lead, and to draft, submit or reverse an
-- adjustment only as the executor.
pub duties_are_separated :
    (a : Actor) (claimed : List Scope) (tool : Tool) (s : Scope) (d : Duty)
    → authorize_tool a claimed tool ≡ ok s
    → duty_of tool ≡ some d
    → a ≡ holder d
unfolding authorize_tool
duties_are_separated a claimed tool s d h duty =
    let (required, r, h1) = >>=-eq-ok (or_raise (required_scope tool) security_error) _ h in
    let (allowed, l, h2) = >>=-eq-ok (or_raise (allowed_scopes a) security_error) _ h1 in
    let (_, _, h3) = >>=-eq-ok (raise_if (not (has_scope required claimed)) security_error) _ h2 in
    let (_, m, _) = >>=-eq-ok (raise_if (not (has_scope required allowed)) security_error) _ h3 in
    let member = raise_if-eq-ok _ _ m in
    holder_of_scope a allowed required d (or_raise-eq-ok _ _ l)
      (not-false (has_scope required allowed) member)
      (scope_of_duty tool d required duty (or_raise-eq-ok _ _ r))
  where
    not-false : (b : Bool) → not b ≡ false → b ≡ true
    not-false b e = ground arith
