-- ===== src/Tasks/Attempts.antt =====
-- The results of a task through any operations on it (revguard/store.py,
-- revguard/workflow_persistence.py).
use revguard.Base.{
  ℕ, ◌<◌, ◌≡◌, true, false, some, List, [], ◌∷◌, Dict, lookup, insert, lookup-insert, map_rows,
  lookup-map_rows, any, All, ◌==◌, ==_iff, arith, refl, sym, ap, ◌∙◌, ◌⊎◌, inl, inr, Bool-cases,
  subst,
}
use revguard.Model.Tables.{Task, StageResult, Database}
use revguard.Journal.{is_running}
use revguard.Gateway.Submission.{contains}
use revguard.Tasks.Lifecycle.{is_result_of}

-- What may become of a task: a later attempt, or the same attempt, which does not start to run again.
abbrev pub Follows : Task → Task → Type 0
Follows t t' =
    (t.attempt < t'.attempt)
    ⊎ ((t'.attempt ≡ t.attempt) × (is_running t.status ≡ false → is_running t'.status ≡ false))

-- Every task stays, and is what may become of it.
abbrev pub Grows : Dict Task → Dict Task → Type 0
Grows tasks tasks' =
    (id : ℕ) (t : Task)
    → lookup id tasks ≡ some t
    → (t' : Task) × (lookup id tasks' ≡ some t') × Follows t t'

-- The attempt of the result is over.
abbrev pub IsOver : Dict Task → StageResult → Type 0
IsOver tasks r =
    (t : Task) × (lookup r.task_id tasks ≡ some t)
    × ((r.attempt < t.attempt) ⊎ ((r.attempt ≡ t.attempt) × (is_running t.status ≡ false)))

-- No attempt has two results.
abbrev pub HasNoTwins : List StageResult → Type 0
HasNoTwins [] = Unit
HasNoTwins (r ∷ rs) = (any (is_result_of r.task_id r.attempt) rs ≡ false) × HasNoTwins rs

-- Each result is of an attempt that is over, and is the only one of it.
abbrev pub HasOrderlyResults : Database → Type 0
HasOrderlyResults db = All (IsOver db.tasks) db.results × HasNoTwins db.results

Follows-same : (t : Task) → Follows t t
Follows-same t = inr (refl, λ h. h)

over_after :
    (r : StageResult) (t t' : Task)
    → (r.attempt < t.attempt) ⊎ ((r.attempt ≡ t.attempt) × (is_running t.status ≡ false))
    → Follows t t'
    → (r.attempt < t'.attempt) ⊎ ((r.attempt ≡ t'.attempt) × (is_running t'.status ≡ false))
over_after r t t' (inl before) (inl later) = inl (omega arith)
over_after r t t' (inl before) (inr (same, still)) = inl (omega arith)
over_after r t t' (inr (at, over)) (inl later) = inl (omega arith)
over_after r t t' (inr (at, over)) (inr (same, still)) = inr (omega arith, still over)

pub grown_results :
    (tasks tasks' : Dict Task) (rs : List StageResult)
    → Grows tasks tasks'
    → All (IsOver tasks) rs
    → All (IsOver tasks') rs
grown_results tasks tasks' [] grows all = tt
grown_results tasks tasks' (r ∷ rs) grows ((t, found, over), all) =
    let (t', found', follows) = grows r.task_id t found in
    ((t', found', over_after r t t' over follows), grown_results tasks tasks' rs grows all)

pub Grows-insert :
    (tasks : Dict Task) (id : ℕ) (t t' : Task)
    → lookup id tasks ≡ some t
    → Follows t t'
    → Grows tasks (insert id t' tasks)
Grows-insert tasks id t t' found follows j s at = elim (Bool-cases (j == id)) [
  | inl here ↦
      let same : some s ≡ some t =
        sym at ∙ ap (λ k. lookup k tasks) ((==_iff j id).0 here) ∙ found in
      let same' : s ≡ t = cc in (t', lookup-insert j id t' tasks ∙ rw here refl, rw same' follows)
  | inr other ↦ (s, lookup-insert j id t' tasks ∙ rw other at, Follows-same s)
]

pub Grows-insert_new :
    (tasks : Dict Task) (id : ℕ) (t' : Task)
    → contains id tasks ≡ false
    → Grows tasks (insert id t' tasks)
Grows-insert_new tasks id t' free j s at = elim (Bool-cases (j == id)) [
  | inl here ↦
      let found : lookup id tasks ≡ some s =
        ap (λ k. lookup k tasks) (sym ((==_iff j id).0 here)) ∙ at in
      absurd (let taken : true ≡ false = rw (contains, found) at free in cc)
  | inr other ↦ (s, lookup-insert j id t' tasks ∙ rw other at, Follows-same s)
]

pub Grows-map_rows :
    (tasks : Dict Task) (f : Task → Task)
    → ((t : Task) → Follows t (f t))
    → Grows tasks (map_rows f tasks)
Grows-map_rows tasks f follows j s at = (f s, lookup-map_rows j f tasks ∙ rw at refl, follows s)

pub none_at :
    (tasks : Dict Task) (id : ℕ) (t : Task) (rs : List StageResult)
    → lookup id tasks ≡ some t
    → is_running t.status ≡ true
    → All (IsOver tasks) rs
    → any (is_result_of id t.attempt) rs ≡ false
none_at tasks id t [] found running all = refl
none_at tasks id t (r ∷ rs) found running ((s, at, over), all) =
    let rest = none_at tasks id t rs found running all in
    elim (Bool-cases (is_result_of id t.attempt r)) [
      | inr other ↦ rw (other, rest) refl
      | inl this ↦
          let same_id : r.task_id ≡ id = ground arith in
          let same_attempt : r.attempt ≡ t.attempt = ground arith in
          let same : some s ≡ some t = sym at ∙ ap (λ k. lookup k tasks) same_id ∙ found in
          let same' : s ≡ t = cc in
          let over' =
            subst
              (λ x.
                (r.attempt < x.attempt) ⊎ ((r.attempt ≡ x.attempt) × (is_running x.status ≡ false)))
              same' over in
          absurd (elim over' [
            | inl before ↦ omega arith
            | inr (_, stopped) ↦ (let both : true ≡ false = sym running ∙ stopped in cc)
          ])
    ]

Follows-trans : (t u v : Task) → Follows t u → Follows u v → Follows t v
Follows-trans t u v (inl a) (inl b) = inl (omega arith)
Follows-trans t u v (inl a) (inr (same, still)) = inl (omega arith)
Follows-trans t u v (inr (same, still)) (inl b) = inl (omega arith)
Follows-trans t u v (inr (same, still)) (inr (same', still')) =
    inr (omega arith, λ h. still' (still h))

pub Grows-trans : (a b c : Dict Task) → Grows a b → Grows b c → Grows a c
Grows-trans a b c first second id t at =
    let (u, at_u, tu) = first id t at in
    let (v, at_v, uv) = second id u at_u in (v, at_v, Follows-trans t u v tu uv)

-- Another key is still free after a task at its own key has changed.
pub still_free :
    (tasks : Dict Task) (id new : ℕ) (t t' : Task)
    → lookup id tasks ≡ some t
    → contains new tasks ≡ false
    → contains new (insert id t' tasks) ≡ false
still_free tasks id new t t' found free = elim (Bool-cases (new == id)) [
  | inl here ↦
      let at : lookup new tasks ≡ some t =
        ap (λ k. lookup k tasks) ((==_iff new id).0 here) ∙ found in
      absurd (let taken : true ≡ false = rw (contains, at) at free in cc)
  | inr other ↦
      let same : lookup new (insert id t' tasks) ≡ lookup new tasks =
        lookup-insert new id t' tasks ∙ rw other refl in
      rw (contains, same) free
]
