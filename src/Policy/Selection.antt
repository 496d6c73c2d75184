-- ===== src/Policy/Selection.antt =====
-- Which version `select_policy_version` (revguard/policy_matcher.py) chooses, and what becomes of the
-- others.
use mathlib.Core.List.{Memᴰ, Perm, map-append, perm_middle, perm_append_comm}
use mathlib.Core.List.Perm
use revguard.Base.{
  ℕ, ◌≤◌, ◌≡◌, refl, sym, ap, subst, ◌≢◌, ◌∙◌, Bool, true, false, List, [], ◌∷◌, ◌++◌, map, arith,
  leb, ◌&&◌, All, Bool-cases, if◌then◌else◌, inl, inr,
}
use revguard.Model.Errors.{ok, >>=-eq-ok, ok-injective}
use revguard.Policy.{
  DateField, parse_date, end_date, Version, version_key, Exclusion, PolicyDecision, split_versions,
  sort_desc, decide, supersede, select_policy_version,
}
use revguard.Policy.Sorting.{
  sort_desc-perm, sort_desc-IsDescending, All-sort_desc, All-of-sort_desc, All-Memᴰ,
}

-- The version's period is well formed and contains the day.
pub record Covers (day : ℕ) (v : Version) : Type 0 where
  pub from : ℕ
  pub to : ℕ
  pub from_ok : parse_date v.effective_from ≡ ok from
  pub to_ok : end_date v.effective_to ≡ ok to
  pub begun : from ≤ day
  pub unexpired : day ≤ to

abbrev pub names : List (ℕ × Exclusion) → List ℕ
names = map (λ e. e.0)

abbrev pub version_names : List Version → List ℕ
version_names = map (λ v. v.version)

-- What the loop makes of the versions.
record Split (day : ℕ) (vs : List Version) (r : List Version × List (ℕ × Exclusion)) : Type 1 where
  perm : Perm (version_names r.0 ++ names r.1) (version_names vs)
  covers : All (Covers day) r.0
  all_in : (P : Version → Type 0) → All P r.0 → All (λ v. Covers day v → P v) vs
  from_all : (P : Version → Type 0) → All P vs → All P r.0

in_force : (from day to : ℕ) → (leb from day && leb day to) ≡ true → (from ≤ day) × (day ≤ to)
in_force from day to h = ground arith

not_in_force : (from day to : ℕ) → (leb from day && leb day to) ≡ false → from ≤ day → day ≤ to → ⊥
not_in_force from day to h a b = ground arith

outside :
    (from day to : ℕ) (v : Version)
    → parse_date v.effective_from ≡ ok from
    → end_date v.effective_to ≡ ok to
    → (leb from day && leb day to) ≡ false
    → Covers day v
    → ⊥
outside from day to v from_ok to_ok out c =
    not_in_force from day to out (omega (arith, ok-injective (sym c.from_ok ∙ from_ok), c.begun))
      (omega (arith, ok-injective (sym c.to_ok ∙ to_ok), c.unexpired))

split_lem :
    (day : ℕ) (vs : List Version) {r : List Version × List (ℕ × Exclusion)}
    → split_versions day vs ≡ ok r
    → Split day vs r
unfolding split_versions
split_lem day [] h =
    rw (← ok-injective h)
      (record { perm = Perm.refl _; covers = tt; all_in = λ P a. tt; from_all = λ P a. tt })
split_lem day (v ∷ vs) h =
    let (from, from_ok, h1) = >>=-eq-ok (parse_date v.effective_from) _ h in
    let (to, to_ok, h2) = >>=-eq-ok (end_date v.effective_to) _ h1 in
    let (r', rest, h3) = >>=-eq-ok (split_versions day vs) _ h2 in
    let ih = split_lem day vs rest in
    rw (← ok-injective h3) (elim (Bool-cases (leb from day && leb day to)) [
      | inl yes' ↦
          let c : Covers day v = record {
            from = from;
            to = to;
            from_ok = from_ok;
            to_ok = to_ok;
            begun = (in_force from day to yes').0;
            unexpired = (in_force from day to yes').1;
          } in
          rw yes' (record {
            perm = Perm.cons v.version ih.perm;
            covers = (c, ih.covers);
            all_in = λ P a. (λ _. a.0, ih.all_in P a.1);
            from_all = λ P a. (a.0, ih.from_all P a.1);
          })
      | inr no' ↦ rw no' (record {
        perm =
            Perm.trans (perm_middle (version_names r'.0) (names r'.1))
              (Perm.cons v.version ih.perm);
        covers = ih.covers;
        all_in = λ P a. (λ c. absurd (outside from day to v from_ok to_ok no' c), ih.all_in P a);
        from_all = λ P a. ih.from_all P a.1;
      })
    ])

decide_lem :
    (day : ℕ) (excluded : List (ℕ × Exclusion)) (l : List Version) {d : PolicyDecision}
    → decide day excluded l ≡ ok d
    → (v : Version) × (losers : List Version) × (l ≡ v ∷ losers)
      × (d.policy_id ≡ v.policy_id)
      × (d.policy_version ≡ v.version)
      × (d.effective_rule_set ≡ v.rule_dsl)
      × (d.decision_date ≡ day)
      × (names d.excluded_versions ≡ names excluded ++ version_names losers)
      × (d.has_conflict ≡ false → losers ≡ [])
unfolding decide
decide_lem day excluded [] h = cc
decide_lem day excluded (v ∷ losers) h = rw (← ok-injective h) (
  v,
  losers,
  refl,
  refl,
  refl,
  refl,
  refl,
  map-append {A = ℕ × Exclusion} (λ e. e.0) excluded (map supersede losers)
      ∙ ap (λ l. names excluded ++ l) (supersede_names losers),
  no_losers losers,
)
  where
    supersede_names : (l : List Version) → names (map supersede l) ≡ version_names l
    supersede_names [] = refl
    supersede_names (w ∷ ws) = ap (λ l. w.version ∷ l) (supersede_names ws)

    no_losers :
        (l : List Version) → let b : Bool = elim l [ [] ↦ false | _ ↦ true ] in b ≡ false → l ≡ []
    no_losers [] e = refl
    no_losers (w ∷ ws) e = cc

-- What a successful selection went through.
record Run (versions : List Version) (basis : DateField) (d : PolicyDecision) : Type 1 where
  day : ℕ
  basis_ok : parse_date basis ≡ ok day
  r : List Version × List (ℕ × Exclusion)
  split : Split day versions r
  decided : decide day r.1 (sort_desc version_key r.0) ≡ ok d

select-Run :
    (versions : List Version) (basis : DateField) {d : PolicyDecision}
    → select_policy_version versions basis ≡ ok d
    → Run versions basis d
unfolding select_policy_version
select-Run [] basis h = cc
select-Run (v ∷ vs) basis h =
    let (day, basis_ok, h1) = >>=-eq-ok (parse_date basis) _ h in
    let (r, split_ok, h2) = >>=-eq-ok (split_versions day (v ∷ vs)) _ h1 in
    record {
      day = day;
      basis_ok = basis_ok;
      r = r;
      split = split_lem day (v ∷ vs) split_ok;
      decided = h2;
    }

-- The chosen version is one of those given, its period contains the business date, and no version
-- whose period contains it begins later; the decision carries the version's identifiers and rules.
pub select_policy_version_chooses_latest :
    (versions : List Version) (basis : DateField) {d : PolicyDecision}
    → select_policy_version versions basis ≡ ok d
    → (v : Version) × Memᴰ v versions
      × (parse_date basis ≡ ok d.decision_date)
      × Covers d.decision_date v
      × All (λ w. Covers d.decision_date w → version_key w ≤ version_key v) versions
      × (d.policy_id ≡ v.policy_id)
      × (d.policy_version ≡ v.version)
      × (d.effective_rule_set ≡ v.rule_dsl)
select_policy_version_chooses_latest versions basis {d} h =
    let run = select-Run versions basis h in
    let (v, losers, sorted, id, name, rules, date, _, _) =
      decide_lem run.day run.r.1 (sort_desc version_key run.r.0) run.decided in
    let top : All (λ w. version_key w ≤ version_key v) (sort_desc version_key run.r.0) =
      rw sorted (omega arith, (rw sorted at (sort_desc-IsDescending version_key run.r.0)).0) in
    let covered : All (Covers run.day) (v ∷ losers) =
      rw sorted at (All-sort_desc version_key (Covers run.day) run.r.0 run.split.covers) in
    let given : All (λ w. Memᴰ w versions) (v ∷ losers) = rw sorted at (
      All-sort_desc version_key (λ w. Memᴰ w versions) run.r.0
        (run.split.from_all (λ w. Memᴰ w versions)
          (All-Memᴰ version_key (λ w. Memᴰ w versions) versions (λ w m. m)))) in
    rw date (
      v,
      given.0,
      run.basis_ok,
      covered.0,
      run.split.all_in (λ w. version_key w ≤ version_key v)
          (All-of-sort_desc version_key _ run.r.0 top),
      id,
      name,
      rules,
    )

-- The chosen version and the excluded ones are together exactly the given versions, each as often as
-- it was given; and where the decision reports no conflict, each version whose period contains the
-- business date is the chosen one.
select_policy_version_accounts :
    (versions : List Version) (basis : DateField) {d : PolicyDecision}
    → select_policy_version versions basis ≡ ok d
    → Perm (d.policy_version ∷ names d.excluded_versions) (version_names versions)
      × (d.has_conflict ≡ false
          → (v : Version) × (d.policy_version ≡ v.version)
            × All (λ w. Covers d.decision_date w → w ≡ v) versions)
select_policy_version_accounts versions basis {d} h =
    let run = select-Run versions basis h in
    let (v, losers, sorted, _, name, _, date, left_out, alone) =
      decide_lem run.day run.r.1 (sort_desc version_key run.r.0) run.decided in
    let order : Perm (version_names (v ∷ losers)) (version_names run.r.0) =
      Perm.map (λ w. w.version) (rw sorted at (sort_desc-perm version_key run.r.0)) in
    (
      rw (name, left_out)
          (Perm.trans
            (Perm.cons v.version (perm_append_comm (names run.r.1) (version_names losers)))
            (Perm.trans (Perm.append_right (names run.r.1) order) run.split.perm)),
      λ calm. (
        v,
        name,
        rw date (
            run.split.all_in (λ w. w ≡ v)
              (All-of-sort_desc version_key _ run.r.0 (rw (sorted, alone calm) (refl, tt)))),
      ),
    )

-- Both date fields of the version can be read.
abbrev pub IsDated : Version → Type 0
IsDated v =
    (from : ℕ) × (to : ℕ) × (parse_date v.effective_from ≡ ok from)
    × (end_date v.effective_to ≡ ok to)

split_total :
    (day : ℕ) (vs : List Version)
    → All IsDated vs
    → (r : List Version × List (ℕ × Exclusion)) × (split_versions day vs ≡ ok r)
unfolding split_versions
split_total day [] h = (_, refl)
split_total day (v ∷ vs) h =
    let (from, to, from_ok, to_ok) = h.0 in
    let (r, rest) = split_total day vs h.1 in
    (
      if leb from day && leb day to
          then (v ∷ r.0, r.1)
          else (r.0, (v.version, Exclusion.not_in_force) ∷ r.1),
      rw (from_ok, to_ok, rest),
    )

decide_total :
    (day : ℕ) (excluded : List (ℕ × Exclusion)) (l : List Version)
    → l ≢ []
    → (d : PolicyDecision) × (decide day excluded l ≡ ok d)
unfolding decide
decide_total day excluded [] h = absurd (h refl)
decide_total day excluded (v ∷ vs) h = (_, refl)

Covers-none :
    (day : ℕ) (vs : List Version) (w : Version)
    → All (λ v. Covers day v → ⊥) vs
    → Memᴰ w vs
    → Covers day w
    → ⊥
Covers-none day [] w h m c = elim m [ ]
Covers-none day (v ∷ vs) w h (Memᴰ.head e) c = h.0 (subst (Covers day) e c)
Covers-none day (v ∷ vs) w h (Memᴰ.tail m) c = Covers-none day vs w h.1 m c

-- Where every version is dated, the business date can be read and the period of some version
-- contains it, the selection succeeds.
pub select_policy_version_total :
    (versions : List Version) (basis : DateField) (day : ℕ) (w : Version)
    → All IsDated versions
    → parse_date basis ≡ ok day
    → Memᴰ w versions
    → Covers day w
    → (d : PolicyDecision) × (select_policy_version versions basis ≡ ok d)
unfolding select_policy_version
select_policy_version_total [] basis day w dated basis_ok m c = elim m [ ]
select_policy_version_total (v ∷ vs) basis day w dated basis_ok m c =
    let (r, split_ok) = split_total day (v ∷ vs) dated in
    let split = split_lem day (v ∷ vs) split_ok in
    let (d, done) = decide_total day r.1 (sort_desc version_key r.0) (λ e.
      Covers-none day (v ∷ vs) w
        (split.all_in (λ _. ⊥) (All-of-sort_desc version_key (λ _. ⊥) r.0 (rw e tt))) m c) in
    (d, rw (basis_ok, split_ok) done)
