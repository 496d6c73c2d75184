-- ===== src/Access/Examples.antt =====
-- Runs of `authorize_tool` (revguard/security.py), and its theorem at a concrete input.
use revguard.Base.{◌≡◌, refl, [], ◌∷◌}
use revguard.Model.Errors.{err, security_error}
use revguard.Model.Actors.{Actor, Tool}
use revguard.Access.{Scope, authorize_tool}
use revguard.Access.Duties.{carry_out, holder, duties_are_separated}

test_risk_may_not_submit :
    authorize_tool Actor.risk (Scope.commission_write ∷ []) Tool.submit_adjustment
    ≡ err security_error
unfolding authorize_tool
test_risk_may_not_submit = refl

duties_are_separated_example : Actor.executor ≡ holder carry_out
duties_are_separated_example =
    duties_are_separated Actor.executor (Scope.commission_write ∷ []) Tool.submit_adjustment
      Scope.commission_write carry_out (unfold authorize_tool in refl) refl
