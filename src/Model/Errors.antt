-- ===== src/Model/Errors.antt =====
-- Raised exceptions as values, and chains of steps that may raise.
use revguard.Base.{
  arith, ap, false, ◌⊎◌, inl, inr, ◌≡◌, refl, Bool, if◌then◌else◌, Option, none, some,
}

-- `ToolError.error_type` (revguard/mocks.py).
pub data ToolErrorType : Type 0 where
  auth_failed not_found data_conflict idempotency_conflict invalid_params evidence_gap
        tool_unavailable :
      ToolErrorType

pub data Error : Type 0 where
  invalid_state_transition stale_case_transition recovery_required stale_task_execution
        security_error policy_match_error value_error lookup_error formula_error decimal_error
        integrity_error runtime_busy :
      Error
  tool_error : ToolErrorType → Error

-- What a call returns: the exception that it raised, or its value.
pub data Result {ℓ} (A : Type ℓ) : Type ℓ where
  err : Error → Result A
  ok : A → Result A

-- `if test: raise e`
abbrev pub raise_if : Bool → Error → Result (Unit {0})
raise_if test e = if test then err e else ok tt

-- `x = f(); if x is None: raise e`
abbrev pub or_raise {ℓ} : {A : Type ℓ} → Option A → Error → Result A
or_raise none e = err e
or_raise (some a) e = ok a

infixl 5 ◌>>=◌ ◌>>◌
abbrev pub ◌>>=◌ {ι κ} : {X : Type ι} {Y : Type κ} → Result X → (X → Result Y) → Result Y
err e >>= next = err e
ok x >>= next = next x

abbrev pub ◌>>◌ {κ} : {Y : Type κ} → Result (Unit {0}) → Result Y → Result Y
checked >> rest = checked >>= λ _. rest

pub >>=-eq-ok {ι κ} :
    {X : Type ι} {Y : Type κ} (first : Result X) (next : X → Result Y) {y : Y}
    → (first >>= next) ≡ ok y
    → (x : X) × (first ≡ ok x) × (next x ≡ ok y)
>>=-eq-ok (err e) next h = absurd (cc)
>>=-eq-ok (ok x) next h = (x, refl, h)

pub ok-injective {ℓ} : {A : Type ℓ} {a b : A} → ok a ≡ ok b → a ≡ b
ok-injective h = cc

pub Result-cases {ℓ} :
    {A : Type ℓ} (m : Result A) → ((a : A) × (m ≡ ok a)) ⊎ ((e : Error) × (m ≡ err e))
Result-cases (ok a) = inl (a, refl)
Result-cases (err e) = inr (e, refl)

pub raise_if-eq-ok :
    (test : Bool) (e : Error) {u : Unit {0}} → raise_if test e ≡ ok u → test ≡ false
raise_if-eq-ok test e h = ground arith

pub or_raise-eq-ok :
    {A : Type 0} (o : Option A) (e : Error) {a : A} → or_raise o e ≡ ok a → o ≡ some a
or_raise-eq-ok (some a) e h = ap some (ok-injective h)
or_raise-eq-ok none e h = absurd (cc)
