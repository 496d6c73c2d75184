-- ===== src/Policy/Examples.antt =====
-- Runs of revguard/policy_matcher.py, and its theorems at concrete versions and tiers.
use mathlib.Core.List.{Memᴰ}
use revguard.Base.{ℕ, ◌≤◌, ◌≡◌, ◌↔◌, refl, true, false, List, [], ◌∷◌, arith, All}
use revguard.Model.Errors.{ok, err, policy_match_error}
use revguard.Policy.{
  DateField, Version, Exclusion, PolicyDecision, TierEntry, TierAtDate, parse_date, version_key,
  tier_key, select_policy_version, resolve_tier_at_date,
}
use revguard.Policy.Selection.{
  Covers, select_policy_version_chooses_latest, select_policy_version_total,
}
use revguard.Policy.Tiers.{resolve_tier_at_date_finds_latest}

-- The first version is open-ended, the second began later, the third is over.
abbrev first : Version
first = record {
  policy_id = 5;
  version = 1;
  effective_from = DateField.dated 100;
  effective_to = DateField.absent;
  rule_dsl = 11;
  clauses = 0;
}

abbrev second : Version
second = record {
  policy_id = 5;
  version = 2;
  effective_from = DateField.dated 200;
  effective_to = DateField.dated 400;
  rule_dsl = 12;
  clauses = 0;
}

abbrev third : Version
third = record {
  policy_id = 5;
  version = 3;
  effective_from = DateField.dated 210;
  effective_to = DateField.dated 220;
  rule_dsl = 13;
  clauses = 0;
}

abbrev versions : List Version
versions = first ∷ second ∷ third ∷ []

abbrev chosen : PolicyDecision
chosen = record {
  policy_id = 5;
  policy_version = 2;
  decision_date = 300;
  effective_rule_set = 12;
  cited_clauses = 0;
  excluded_versions = (3, Exclusion.not_in_force) ∷ (1, Exclusion.superseded) ∷ [];
  has_conflict = true;
  confidence = 90;
}

test_chosen : select_policy_version versions (DateField.dated 300) ≡ ok chosen
unfolding select_policy_version
test_chosen = refl

test_too_early : select_policy_version versions (DateField.dated 50) ≡ err policy_match_error
unfolding select_policy_version
test_too_early = refl

select_policy_version_chooses_latest_example :
    (v : Version) × Memᴰ v versions
    × (parse_date (DateField.dated 300) ≡ ok 300)
    × Covers 300 v
    × All (λ w. Covers 300 w → version_key w ≤ version_key v) versions
    × (chosen.policy_id ≡ v.policy_id)
    × (chosen.policy_version ≡ v.version)
    × (chosen.effective_rule_set ≡ v.rule_dsl)
select_policy_version_chooses_latest_example =
    select_policy_version_chooses_latest versions (DateField.dated 300) {d = chosen} test_chosen

select_policy_version_total_example :
    (d : PolicyDecision) × (select_policy_version versions (DateField.dated 250) ≡ ok d)
unfolding select_policy_version
select_policy_version_total_example =
    select_policy_version_total versions (DateField.dated 250) 250 first
      ((100, 3652059, refl, refl), ((200, 400, refl, refl), ((210, 220, refl, refl), tt))) refl
      (Memᴰ.head refl)
      (record {
        from = 100;
        to = 3652059;
        from_ok = refl;
        to_ok = refl;
        begun = omega arith;
        unexpired = omega arith;
      })

abbrev tiers : List TierEntry
tiers =
    record { tier = 3; effective_from = DateField.dated 300 }
    ∷ record { tier = 1; effective_from = DateField.dated 100 }
    ∷ record { tier = 2; effective_from = DateField.dated 200 }
    ∷ []

abbrev found : TierAtDate
found = record { tier = 2; effective_from = DateField.dated 200; has_conflict = true }

test_tier : resolve_tier_at_date tiers (DateField.dated 250) ≡ ok found
unfolding resolve_tier_at_date
test_tier = refl

resolve_tier_at_date_finds_latest_example :
    (target : ℕ) × (t : TierEntry) × (parse_date (DateField.dated 250) ≡ ok target)
    × Memᴰ t tiers
    × (tier_key t ≤ target)
    × All (λ u. tier_key u ≤ target → tier_key u ≤ tier_key t) tiers
    × (found.tier ≡ t.tier)
    × (found.effective_from ≡ t.effective_from)
    × ((found.has_conflict ≡ false) ↔ All (λ u. tier_key u ≤ target) tiers)
resolve_tier_at_date_finds_latest_example =
    resolve_tier_at_date_finds_latest tiers (DateField.dated 250) {r = found} test_tier
