-- ===== src/Policy.antt =====
-- Policy time travel (revguard/policy_matcher.py; `PolicyDecision` of revguard/models.py). A date is
-- the number of its day; a field holds what `date.fromisoformat` makes of its first ten characters.
pub mod Sorting
pub mod Selection
pub mod Tiers
mod Examples
use revguard.Base.{
  ℕ, ◌<◌, Bool, true, false, not, ◌&&◌, Option, none, some, List, [], ◌∷◌, ◌++◌, map, leb, ltb,
  if◌then◌else◌,
}
use revguard.Model.Errors.{Result, ok, err, ◌>>=◌, policy_match_error}

pub data DateField : Type 0 where
  absent malformed : DateField
  dated : ℕ → DateField

-- `_parse_date`; `str(None)` is no date.
pub parse_date : DateField → Result ℕ
parse_date (DateField.dated n) = ok n
parse_date _ = err policy_match_error

-- `date.max` is day 3652059.
abbrev pub date_max : ℕ
date_max = 3652059

-- `eff_to_day`
pub end_date : DateField → Result ℕ
end_date DateField.absent = ok date_max
end_date DateField.malformed = err policy_match_error
end_date (DateField.dated n) = ok n

pub record Version : Type 0 where
  pub policy_id : ℕ
  pub version : ℕ
  pub effective_from : DateField
  pub effective_to : DateField
  pub rule_dsl : ℕ
  pub clauses : ℕ

-- Why a version was left out.
pub data Exclusion : Type 0 where
  not_in_force superseded : Exclusion

pub record PolicyDecision : Type 0 where
  pub policy_id : ℕ
  pub policy_version : ℕ
  pub decision_date : ℕ
  pub effective_rule_set : ℕ
  pub cited_clauses : ℕ
  pub excluded_versions : List (ℕ × Exclusion)
  pub has_conflict : Bool
  pub confidence : ℕ

-- The loop over the versions: those in force on the day, and the others with the reason.
pub split_versions : ℕ → List Version → Result (List Version × List (ℕ × Exclusion))
unfolding parse_date end_date
split_versions day [] = ok ([], [])
split_versions day (v ∷ vs) = do
  from ← parse_date v.effective_from
  to ← end_date v.effective_to
  (selected, excluded) ← split_versions day vs
  ok (
      if leb from day && leb day to
      then (v ∷ selected, excluded)
      else (selected, (v.version, Exclusion.not_in_force) ∷ excluded))

-- The key of the sort, a date that the loop has parsed already.
abbrev pub from_day : DateField → ℕ
from_day (DateField.dated n) = n
from_day _ = 0

module _ {A : Type 0} (key : A → ℕ) where
  -- `sort(key=key, reverse=True)`, which keeps the order of equal keys.
  unfoldable pub insert_desc : A → List A → List A
  insert_desc x [] = x ∷ []
  insert_desc x (y ∷ ys) = if leb (key y) (key x) then x ∷ y ∷ ys else y ∷ insert_desc x ys

  unfoldable pub sort_desc : List A → List A
  sort_desc [] = []
  sort_desc (x ∷ xs) = insert_desc x (sort_desc xs)

  -- `sorted(…, key=key)`, which keeps the order of equal keys.
  pub insert_asc : A → List A → List A
  insert_asc x [] = x ∷ []
  insert_asc x (y ∷ ys) = if leb (key x) (key y) then x ∷ y ∷ ys else y ∷ insert_asc x ys

  pub sort_asc : List A → List A
  sort_asc [] = []
  sort_asc (x ∷ xs) = insert_asc x (sort_asc xs)

abbrev pub version_key : Version → ℕ
version_key v = from_day v.effective_from

abbrev pub supersede : Version → ℕ × Exclusion
supersede v = (v.version, Exclusion.superseded)

-- The decision on the versions in force, sorted when there are several.
pub decide : ℕ → List (ℕ × Exclusion) → List Version → Result PolicyDecision
decide day excluded [] = err policy_match_error
decide day excluded (chosen ∷ losers) =
    let conflict : Bool = elim losers [ [] ↦ false | _ ↦ true ] in
    ok (record {
      policy_id = chosen.policy_id;
      policy_version = chosen.version;
      decision_date = day;
      effective_rule_set = chosen.rule_dsl;
      cited_clauses = chosen.clauses;
      excluded_versions = excluded ++ map supersede losers;
      has_conflict = conflict;
      confidence = if conflict then 90 else 100;
    })

-- `basis` is the fact that `time_basis` names. A sort of one version changes nothing.
unfoldable pub select_policy_version : List Version → DateField → Result PolicyDecision
unfolding parse_date split_versions sort_desc insert_desc decide
select_policy_version [] basis = err policy_match_error
select_policy_version (v ∷ vs) basis = do
  day ← parse_date basis
  (selected, excluded) ← split_versions day (v ∷ vs)
  decide day excluded (sort_desc version_key selected)

pub record TierEntry : Type 0 where
  pub tier : ℕ
  pub effective_from : DateField

pub record TierAtDate : Type 0 where
  pub tier : ℕ
  pub effective_from : DateField
  pub has_conflict : Bool

abbrev pub tier_key : TierEntry → ℕ
tier_key t = from_day t.effective_from

-- The sort key of every entry is parsed before the sort.
pub check_dates : List TierEntry → Result (Unit {0})
unfolding parse_date
check_dates [] = ok tt
check_dates (t ∷ ts) = do _ ← parse_date t.effective_from; check_dates ts

-- The loop over the sorted history: the last entry in force, and whether the loop broke off.
pub scan_tiers : ℕ → Option TierEntry → List TierEntry → Option TierEntry × Bool
scan_tiers target effective [] = (effective, false)
scan_tiers target effective (t ∷ ts) =
    if leb (tier_key t) target then scan_tiers target (some t) ts else (effective, true)

abbrev pub tier_result : Option TierEntry × Bool → Result TierAtDate
tier_result (none, later) = err policy_match_error
tier_result (some t, later) =
    ok (record { tier = t.tier; effective_from = t.effective_from; has_conflict = later })

unfoldable pub resolve_tier_at_date : List TierEntry → DateField → Result TierAtDate
unfolding parse_date check_dates sort_asc insert_asc scan_tiers
resolve_tier_at_date [] at_date = err policy_match_error
resolve_tier_at_date (t ∷ ts) at_date = do
  target ← parse_date at_date
  _ ← check_dates (t ∷ ts)
  tier_result (scan_tiers target none (sort_asc tier_key (t ∷ ts)))
