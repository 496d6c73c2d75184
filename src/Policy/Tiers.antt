-- ===== src/Policy/Tiers.antt =====
-- Which tier `resolve_tier_at_date` (revguard/policy_matcher.py) finds.
use mathlib.Core.List.{Memᴰ}
use revguard.Base.{
  ℕ, ◌≤◌, ◌≡◌, ◌↔◌, refl, sym, ◌∙◌, Bool, true, false, Option, none, some, List, [], ◌∷◌, arith,
  leb, All, Bool-cases, inl, inr,
}
use revguard.Model.Errors.{ok, err, policy_match_error, >>=-eq-ok}
use revguard.Policy.{
  DateField, parse_date, TierEntry, TierAtDate, tier_key, scan_tiers, tier_result, check_dates,
  sort_asc, resolve_tier_at_date,
}
use revguard.Policy.Sorting.{
  IsAscending, All-map, All-sort_asc, All-of-sort_asc, sort_asc-IsAscending, All-Memᴰ,
}

-- Where the scan of the rest of a sorted history ends, begun with an entry already in force.
record Scan (target : ℕ) (start : TierEntry) (l : List TierEntry) (r : Option TierEntry × Bool)
    : Type 1 where
  found : TierEntry
  at_end : r.0 ≡ some found
  from_list : (P : TierEntry → Type 0) → P start → All P l → P found
  in_force : tier_key found ≤ target
  later : tier_key start ≤ tier_key found
  latest : All (λ u. tier_key u ≤ target → tier_key u ≤ tier_key found) l
  calm : r.1 ≡ false → All (λ u. tier_key u ≤ target) l
  broken : r.1 ≡ true → ¬ All (λ u. tier_key u ≤ target) l

scan_lem :
    (target : ℕ) (start : TierEntry) (l : List TierEntry)
    → tier_key start ≤ target
    → All (λ u. tier_key start ≤ tier_key u) l
    → IsAscending tier_key l
    → Scan target start l (scan_tiers target (some start) l)
unfolding scan_tiers
scan_lem target start [] ok_start above sorted = record {
  found = start;
  at_end = refl;
  from_list = λ P p a. p;
  in_force = ok_start;
  later = omega arith;
  latest = tt;
  calm = λ _. tt;
  broken = λ e. cc;
}
scan_lem target start (x ∷ xs) ok_start above sorted = elim (Bool-cases (leb (tier_key x) target)) [
  | inl yes' ↦
      let s = scan_lem target x xs (ground arith) sorted.0 sorted.1 in
      let reached : tier_key start ≤ tier_key s.found = omega (arith, above.0, s.later) in
      rw yes' (record {
        found = s.found;
        at_end = s.at_end;
        from_list = λ P p a. s.from_list P a.0 a.1;
        in_force = s.in_force;
        later = reached;
        latest = (λ _. s.later, s.latest);
        calm = λ e. (ground arith, s.calm e);
        broken = λ e a. s.broken e a.1;
      })
  | inr no' ↦ rw no' (record {
    found = start;
    at_end = refl;
    from_list = λ P p a. p;
    in_force = ok_start;
    later = omega arith;
    latest = (
      λ h. absurd (ground arith),
      All-map tier_key (λ u. tier_key x ≤ tier_key u) _ xs (λ u h k. absurd (ground arith))
          sorted.0,
    );
    calm = λ e. cc;
    broken = λ e a. absurd (ground (arith, a.0));
  })
]

result_of :
    (o : Option TierEntry × Bool) (t : TierEntry) {r : TierAtDate}
    → o.0 ≡ some t
    → tier_result o ≡ ok r
    → (r.tier ≡ t.tier) × (r.effective_from ≡ t.effective_from) × (r.has_conflict ≡ o.1)
result_of (none, later) t e h = cc
result_of (some u, later) t e h = ground arith

scan_result :
    (target : ℕ) (l : List TierEntry) {r : TierAtDate}
    → IsAscending tier_key l
    → tier_result (scan_tiers target none l) ≡ ok r
    → (t : TierEntry) × ((P : TierEntry → Type 0) → All P l → P t)
      × (tier_key t ≤ target)
      × All (λ u. tier_key u ≤ target → tier_key u ≤ tier_key t) l
      × (r.tier ≡ t.tier)
      × (r.effective_from ≡ t.effective_from)
      × ((r.has_conflict ≡ false) ↔ All (λ u. tier_key u ≤ target) l)
unfolding scan_tiers
scan_result target [] sorted h = cc
scan_result target (x ∷ xs) {r} sorted h = elim (Bool-cases (leb (tier_key x) target)) [
  | inr no' ↦ absurd (not_ok (rw no' at h))
  | inl yes' ↦
      let s = scan_lem target x xs (ground arith) sorted.0 sorted.1 in
      let rest = scan_tiers target (some x) xs in
      let (tier_ok, from_ok, conflict_ok) = result_of rest s.found s.at_end (rw yes' at h) in
      (
        s.found,
        λ P a. s.from_list P a.0 a.1,
        s.in_force,
        (λ _. s.later, s.latest),
        tier_ok,
        from_ok,
        (
          λ e. (ground arith, s.calm (sym conflict_ok ∙ e)),
          λ a. elim (Bool-cases rest.1) [
            | inl broke ↦ absurd (s.broken broke a.1)
            | inr whole ↦ conflict_ok ∙ whole
          ],
        ),
      )
]
  where
    not_ok : {r : TierAtDate} → err policy_match_error ≡ ok r → ⊥
    not_ok e = cc

-- The tier found was in force on the date, no entry in force on it took effect later, and a conflict
-- is reported exactly when some entry takes effect after the date.
pub resolve_tier_at_date_finds_latest :
    (history : List TierEntry) (at_date : DateField) {r : TierAtDate}
    → resolve_tier_at_date history at_date ≡ ok r
    → (target : ℕ) × (t : TierEntry) × (parse_date at_date ≡ ok target)
      × Memᴰ t history
      × (tier_key t ≤ target)
      × All (λ u. tier_key u ≤ target → tier_key u ≤ tier_key t) history
      × (r.tier ≡ t.tier)
      × (r.effective_from ≡ t.effective_from)
      × ((r.has_conflict ≡ false) ↔ All (λ u. tier_key u ≤ target) history)
unfolding resolve_tier_at_date
resolve_tier_at_date_finds_latest [] at_date h = cc
resolve_tier_at_date_finds_latest (e ∷ es) at_date h =
    let history = e ∷ es in
    let (target, at_ok, h1) = >>=-eq-ok (parse_date at_date) _ h in
    let (_, _, h2) = >>=-eq-ok (check_dates history) _ h1 in
    let sorted = sort_asc-IsAscending tier_key history in
    let (t, from_list, in_force, latest, tier_ok, from_ok, (calm, quiet)) =
      scan_result target (sort_asc tier_key history) sorted h2 in
    (
      target,
      t,
      at_ok,
      from_list (λ u. Memᴰ u history)
          (All-sort_asc tier_key (λ u. Memᴰ u history) history
            (All-Memᴰ tier_key (λ u. Memᴰ u history) history (λ u m. m))),
      in_force,
      All-of-sort_asc tier_key _ history latest,
      tier_ok,
      from_ok,
      (
        λ c. All-of-sort_asc tier_key _ history (calm c),
        λ a. quiet (All-sort_asc tier_key _ history a),
      ),
    )
