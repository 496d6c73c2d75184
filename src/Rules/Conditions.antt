-- ===== src/Rules/Conditions.antt =====
-- What the conditions of a rule and of a policy ask of the facts (`match_condition`,
-- `check_eligibility`, revguard/rule_engine.py).
use revguard.Base.{
  ◌≡◌, ◌↔◌, Bool, true, false, not, Option, none, some, List, [], ◌∷◌, ◌++◌, Text, All, refl, ap,
  Option-cases, Bool-cases, inl, inr, if◌then◌else◌,
}
use revguard.Model.Errors.{ok, ◌>>=◌, >>=-eq-ok, ok-injective}
use revguard.Decimals.{Decimal, less}
use revguard.Formula.{Value, Fields, field, to_decimal}
use revguard.Formula.Meaning.{HasNumber, to_decimal-HasNumber, HasNumber-to_decimal}
use revguard.Rules.{
  Predicate, lte, lt, gte, gt, ne, one_of, Reason, suffix_ops, split_key, same_value, is_item,
  contained, no_failures, compare_values, holds, verdict, test_field, condition_entry,
  condition_failures, match_condition, eligibility_entry, eligibility_failures, check_eligibility,
}

-- The value of a field of the facts satisfies a predicate.
abbrev pub HasField : Text → Fields → (Value → Type 0) → Type 0
HasField name facts P = (v : Value) × (field name facts ≡ some v) × P v

append-nil : {A : Type 0} (xs ys : List A) → (xs ++ ys) ≡ [] → (xs ≡ []) × (ys ≡ [])
append-nil [] ys h = (refl, h)
append-nil (x ∷ xs) ys h = absurd (cc)

no_failures-nil : (rs : List Reason) → no_failures rs ≡ true → rs ≡ []
no_failures-nil [] h = refl
no_failures-nil (r ∷ rs) h = absurd (cc)

module _ (decimal_of : Text → Option Decimal) where
  -- Both values are numbers that pass a test.
  abbrev pub AreNumbers : (Decimal → Decimal → Bool) → Value → Value → Type 0
  AreNumbers test v w =
      (a : Decimal) × (b : Decimal) × HasNumber decimal_of v a
      × HasNumber decimal_of w b
      × (test a b ≡ true)

  abbrev pub IsSatisfied : Option Predicate → Value → Value → Type 0
  IsSatisfied none v w = same_value v w ≡ true
  IsSatisfied (some lte) v w = AreNumbers (λ a b. not (less b a)) v w
  IsSatisfied (some lt) v w = AreNumbers less v w
  IsSatisfied (some gte) v w = AreNumbers (λ a b. not (less a b)) v w
  IsSatisfied (some gt) v w = AreNumbers (λ a b. less b a) v w
  IsSatisfied (some ne) v w = not (same_value v w) ≡ true
  IsSatisfied (some one_of) v w = contained v w ≡ some true

  -- The facts have the field that the key names, with a value in the relation that its suffix names.
  abbrev pub IsMet : Fields → Text × Value → Type 0
  IsMet facts (key, expected) =
      let (name, predicate) = split_key suffix_ops key in
      HasField name facts (λ v. IsSatisfied predicate v expected)

  compare-numbers :
      (test : Decimal → Decimal → Bool) (v w : Value)
      → (compare_values decimal_of test v w ≡ ok (some true)) ↔ AreNumbers test v w
  compare-numbers test v w = (forth, back)
    where
      forth : compare_values decimal_of test v w ≡ ok (some true) → AreNumbers test v w
      forth h =
          let (a, first, rest) = >>=-eq-ok (to_decimal decimal_of v) _ h in
          let (b, second, last) = >>=-eq-ok (to_decimal decimal_of w) _ rest in
          let passed : test a b ≡ true = cc in
          (
            a,
            b,
            to_decimal-HasNumber decimal_of v first,
            to_decimal-HasNumber decimal_of w second,
            passed,
          )

      back : AreNumbers test v w → compare_values decimal_of test v w ≡ ok (some true)
      back (a, b, first, second, passed) =
          rw (HasNumber-to_decimal decimal_of first, HasNumber-to_decimal decimal_of second, passed)
            refl

  holds-IsSatisfied :
      (op : Predicate) (v w : Value)
      → (holds decimal_of op v w ≡ ok (some true)) ↔ IsSatisfied (some op) v w
  unfolding holds
  holds-IsSatisfied lte v w = compare-numbers _ v w
  holds-IsSatisfied lt v w = compare-numbers _ v w
  holds-IsSatisfied gte v w = compare-numbers _ v w
  holds-IsSatisfied gt v w = compare-numbers _ v w
  holds-IsSatisfied ne v w = ((λ h. cc), (λ h. cc))
  holds-IsSatisfied one_of v w = ((λ h. cc), (λ h. cc))

  test_field-IsSatisfied :
      (predicate : Option Predicate) (name key : Text) (w v : Value)
      → (test_field decimal_of predicate name key w v ≡ ok []) ↔ IsSatisfied predicate v w
  unfolding test_field
  test_field-IsSatisfied none name key w v = (forth, λ e. rw e refl)
    where
      forth :
          ok (if same_value v w then [] else Reason.unexpected name w v ∷ []) ≡ ok []
          → same_value v w ≡ true
      forth h = elim (Bool-cases (same_value v w)) [
        | inl same ↦ same
        | inr other ↦ let wrong = rw other at h in absurd (cc)
      ]
  test_field-IsSatisfied (some op) name key w v =
      (forth, λ s. rw ((holds-IsSatisfied op v w).1 s) refl)
    where
      passed : (o : Option Bool) → ok (verdict name key w v o) ≡ ok [] → o ≡ some true
      passed none h = absurd (cc)
      passed (some true) h = refl
      passed (some false) h = absurd (cc)

      forth :
          (holds decimal_of op v w >>= λ o. ok (verdict name key w v o)) ≡ ok []
          → IsSatisfied (some op) v w
      forth h =
          let (o, run, last) = >>=-eq-ok (holds decimal_of op v w) _ h in
          (holds-IsSatisfied op v w).0 (rw (passed o last) at run)

  condition_entry-IsMet :
      (facts : Fields) (key : Text) (expected : Value)
      → (condition_entry decimal_of key expected facts ≡ ok []) ↔ IsMet facts (key, expected)
  unfolding condition_entry
  condition_entry-IsMet facts key expected = (forth, back)
    where
      forth : condition_entry decimal_of key expected facts ≡ ok [] → IsMet facts (key, expected)
      forth h = elim (Option-cases (field (split_key suffix_ops key).0 facts)) [
        | inl missing ↦ let wrong = rw (missing, condition_entry) at h in absurd (cc)
        | inr (v, found) ↦ (
          v,
          found,
          (test_field-IsSatisfied _ _ key expected v).0 (rw (found, condition_entry) at h),
        )
      ]

      back : IsMet facts (key, expected) → condition_entry decimal_of key expected facts ≡ ok []
      back (v, found, satisfied) =
          rw (found, condition_entry) ((test_field-IsSatisfied _ _ key expected v).1 satisfied)

  condition_failures-All :
      (when facts : Fields)
      → condition_failures decimal_of when facts ≡ ok []
      → All (IsMet facts) when
  unfolding condition_failures
  condition_failures-All [] facts h = tt
  condition_failures-All ((key, expected) ∷ rest) facts h =
      let (mine, first, more) = >>=-eq-ok (condition_entry decimal_of key expected facts) _ h in
      let (others, second, last) = >>=-eq-ok (condition_failures decimal_of rest facts) _ more in
      let (none_here, none_there) = append-nil mine others (ok-injective last) in
      (
        (condition_entry-IsMet facts key expected).0 (rw none_here at first),
        condition_failures-All rest facts (rw none_there at second),
      )

  All-condition_failures :
      (when facts : Fields)
      → All (IsMet facts) when
      → condition_failures decimal_of when facts ≡ ok []
  unfolding condition_failures
  All-condition_failures [] facts met = refl
  All-condition_failures ((key, expected) ∷ rest) facts (met, others) =
      rw
        ((condition_entry-IsMet facts key expected).1 met, All-condition_failures rest facts others)
        refl

  pub match_condition-All :
      (when facts : Fields) (reasons : List Reason)
      → match_condition decimal_of when facts ≡ ok (true, reasons)
      → All (IsMet facts) when
  unfolding match_condition
  match_condition-All when facts reasons h =
      let (failures, run, last) = >>=-eq-ok (condition_failures decimal_of when facts) _ h in
      let no_more = no_failures-nil failures (ap (λ r. r.0) (ok-injective last)) in
      condition_failures-All when facts (rw no_more at run)

  -- A condition is met without a raised error exactly when, for each of its entries, the facts have
  -- the field that the key names, and its value equals the expected one or, with a suffix, both are
  -- numbers in the order that the suffix names, or differ, or one is an item or a part of the other.
  pub match_condition_iff :
      (when facts : Fields)
      → (match_condition decimal_of when facts ≡ ok (true, [])) ↔ All (IsMet facts) when
  unfolding match_condition
  match_condition_iff when facts =
      (match_condition-All when facts [], λ met. rw (All-condition_failures when facts met) refl)

-- The facts have a field of this name, with the allowed value or one of the allowed values.
abbrev pub IsChosen : Value → Value → Type 0
IsChosen (Value.items xs) v = is_item v xs ≡ true
IsChosen allowed v = same_value v allowed ≡ true

abbrev pub IsEligible : Fields → Text × Value → Type 0
IsEligible facts (key, allowed) = HasField key facts (IsChosen allowed)

test-passed : (test : Bool) (r : Reason) → ((if test then [] else r ∷ []) ≡ []) ↔ (test ≡ true)
test-passed true r = ((λ h. refl), (λ h. refl))
test-passed false r = ((λ h. absurd (cc)), (λ h. absurd (cc)))

chosen :
    (key : Text) (allowed v : Value)
    → (eligibility_entry key allowed (some v) ≡ []) ↔ IsChosen allowed v
unfolding eligibility_entry
chosen key (Value.items xs) v = test-passed (is_item v xs) _
chosen key Value.null v = test-passed (same_value v Value.null) _
chosen key (Value.truth b) v = test-passed (same_value v (Value.truth b)) _
chosen key (Value.number d) v = test-passed (same_value v (Value.number d)) _
chosen key (Value.text t) v = test-passed (same_value v (Value.text t)) _

eligibility_entry-IsEligible :
    (facts : Fields) (key : Text) (allowed : Value)
    → (eligibility_entry key allowed (field key facts) ≡ []) ↔ IsEligible facts (key, allowed)
unfolding eligibility_entry
eligibility_entry-IsEligible facts key allowed = (forth, back)
  where
    forth : eligibility_entry key allowed (field key facts) ≡ [] → IsEligible facts (key, allowed)
    forth h = elim (Option-cases (field key facts)) [
      | inl missing ↦ let wrong = rw missing at h in absurd (cc)
      | inr (v, found) ↦ (v, found, (chosen key allowed v).0 (rw found at h))
    ]

    back : IsEligible facts (key, allowed) → eligibility_entry key allowed (field key facts) ≡ []
    back (v, found, fits) = rw found ((chosen key allowed v).1 fits)

eligibility_failures-All :
    (eligibility facts : Fields)
    → eligibility_failures eligibility facts ≡ []
    → All (IsEligible facts) eligibility
unfolding eligibility_failures
eligibility_failures-All [] facts h = tt
eligibility_failures-All ((key, allowed) ∷ rest) facts h =
    let (first, others) = append-nil (eligibility_entry key allowed (field key facts)) _ h in
    (
      (eligibility_entry-IsEligible facts key allowed).0 first,
      eligibility_failures-All rest facts others,
    )

All-eligibility_failures :
    (eligibility facts : Fields)
    → All (IsEligible facts) eligibility
    → eligibility_failures eligibility facts ≡ []
unfolding eligibility_failures
All-eligibility_failures [] facts met = refl
All-eligibility_failures ((key, allowed) ∷ rest) facts (met, others) =
    rw
      (
        (eligibility_entry-IsEligible facts key allowed).1 met,
        All-eligibility_failures rest facts others,
      )
      refl

-- Facts are eligible exactly when, for each entry of the eligibility, they have a field of its name
-- with the allowed value, or one of the allowed values where the entry lists several.
pub check_eligibility_iff :
    (eligibility facts : Fields)
    → ((check_eligibility eligibility facts).0 ≡ true) ↔ All (IsEligible facts) eligibility
unfolding check_eligibility
check_eligibility_iff eligibility facts = (
  (λ h. eligibility_failures-All eligibility facts (no_failures-nil _ h)),
  (λ met. rw (All-eligibility_failures eligibility facts met) refl),
)
