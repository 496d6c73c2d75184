-- ===== src/Policy/Sorting.antt =====
-- The sorts of revguard/policy_matcher.py: what they keep, and what comes first.
use mathlib.Core.List.{Memᴰ, Perm}
use mathlib.Core.List.Perm
use revguard.Base.{ℕ, ◌≤◌, refl, List, [], ◌∷◌, arith, leb, All, Bool-cases, inl, inr}
use revguard.Policy.{insert_desc, sort_desc, insert_asc, sort_asc}

module _ {A : Type 0} (key : A → ℕ) where
  insert_desc-perm : (x : A) (l : List A) → Perm (insert_desc key x l) (x ∷ l)
  unfolding insert_desc
  insert_desc-perm x [] = Perm.refl _
  insert_desc-perm x (y ∷ ys) = elim (Bool-cases (leb (key y) (key x))) [
    | inl first ↦ rw first (Perm.refl _)
    | inr later ↦ rw later (Perm.trans (Perm.cons y (insert_desc-perm x ys)) (Perm.swap x y ys))
  ]

  pub sort_desc-perm : (l : List A) → Perm (sort_desc key l) l
  unfolding sort_desc
  sort_desc-perm [] = Perm.refl _
  sort_desc-perm (x ∷ xs) =
      Perm.trans (insert_desc-perm x (sort_desc key xs)) (Perm.cons x (sort_desc-perm xs))

  -- Each element is at least as late as all that follow it.
  abbrev pub IsDescending : List A → Type 0
  IsDescending [] = Unit
  IsDescending (x ∷ xs) = All (λ y. key y ≤ key x) xs × IsDescending xs

  All-insert_desc :
      (P : A → Type 0) (x : A) (l : List A) → P x → All P l → All P (insert_desc key x l)
  unfolding insert_desc
  All-insert_desc P x [] px h = (px, tt)
  All-insert_desc P x (y ∷ ys) px h = elim (Bool-cases (leb (key y) (key x))) [
    | inl first ↦ rw first (px, h)
    | inr later ↦ rw later (h.0, All-insert_desc P x ys px h.1)
  ]

  All-weaken : (m n : ℕ) (l : List A) → m ≤ n → All (λ y. key y ≤ m) l → All (λ y. key y ≤ n) l
  All-weaken m n [] le h = tt
  All-weaken m n (x ∷ xs) le h = (omega arith, All-weaken m n xs le h.1)

  insert_desc-IsDescending :
      (x : A) (l : List A) → IsDescending l → IsDescending (insert_desc key x l)
  unfolding insert_desc
  insert_desc-IsDescending x [] h = (tt, tt)
  insert_desc-IsDescending x (y ∷ ys) h = elim (Bool-cases (leb (key y) (key x))) [
    | inl first ↦ rw first ((ground arith, All-weaken (key y) (key x) ys (ground arith) h.0), h)
    | inr later ↦ rw later (
      All-insert_desc (λ z. key z ≤ key y) x ys (ground arith) h.0,
      insert_desc-IsDescending x ys h.1,
    )
  ]

  pub sort_desc-IsDescending : (l : List A) → IsDescending (sort_desc key l)
  unfolding sort_desc
  sort_desc-IsDescending [] = tt
  sort_desc-IsDescending (x ∷ xs) = insert_desc-IsDescending x _ (sort_desc-IsDescending xs)

  All-of-insert_desc :
      (P : A → Type 0) (x : A) (l : List A) → All P (insert_desc key x l) → P x × All P l
  unfolding insert_desc
  All-of-insert_desc P x [] h = h
  All-of-insert_desc P x (y ∷ ys) h = elim (Bool-cases (leb (key y) (key x))) [
    | inl first ↦ rw first at h
    | inr later ↦
        let k : P y × All P (insert_desc key x ys) = rw later at h in
        let (px, rest) = All-of-insert_desc P x ys k.1 in (px, (k.0, rest))
  ]

  pub All-of-sort_desc : (P : A → Type 0) (l : List A) → All P (sort_desc key l) → All P l
  unfolding sort_desc
  All-of-sort_desc P [] h = tt
  All-of-sort_desc P (x ∷ xs) h =
      let (px, rest) = All-of-insert_desc P x (sort_desc key xs) h in
      (px, All-of-sort_desc P xs rest)

  pub All-sort_desc : (P : A → Type 0) (l : List A) → All P l → All P (sort_desc key l)
  unfolding sort_desc
  All-sort_desc P [] h = tt
  All-sort_desc P (x ∷ xs) h = All-insert_desc P x (sort_desc key xs) h.0 (All-sort_desc P xs h.1)

  pub All-Memᴰ : (P : A → Type 0) (l : List A) → ((x : A) → Memᴰ x l → P x) → All P l
  All-Memᴰ P [] f = tt
  All-Memᴰ P (x ∷ xs) f = (f x (Memᴰ.head refl), All-Memᴰ P xs (λ y m. f y (Memᴰ.tail m)))

module _ {A : Type 0} (key : A → ℕ) where
  -- No element is later than those that follow it.
  abbrev pub IsAscending : List A → Type 0
  IsAscending [] = Unit
  IsAscending (x ∷ xs) = All (λ y. key x ≤ key y) xs × IsAscending xs

  pub All-map : (P Q : A → Type 0) (l : List A) → ((x : A) → P x → Q x) → All P l → All Q l
  All-map P Q [] f h = tt
  All-map P Q (x ∷ xs) f h = (f x h.0, All-map P Q xs f h.1)

  All-insert_asc :
      (P : A → Type 0) (x : A) (l : List A) → P x → All P l → All P (insert_asc key x l)
  unfolding insert_asc
  All-insert_asc P x [] px h = (px, tt)
  All-insert_asc P x (y ∷ ys) px h = elim (Bool-cases (leb (key x) (key y))) [
    | inl first ↦ rw first (px, h)
    | inr later ↦ rw later (h.0, All-insert_asc P x ys px h.1)
  ]

  pub All-sort_asc : (P : A → Type 0) (l : List A) → All P l → All P (sort_asc key l)
  unfolding sort_asc
  All-sort_asc P [] h = tt
  All-sort_asc P (x ∷ xs) h = All-insert_asc P x (sort_asc key xs) h.0 (All-sort_asc P xs h.1)

  All-of-insert_asc :
      (P : A → Type 0) (x : A) (l : List A) → All P (insert_asc key x l) → P x × All P l
  unfolding insert_asc
  All-of-insert_asc P x [] h = h
  All-of-insert_asc P x (y ∷ ys) h = elim (Bool-cases (leb (key x) (key y))) [
    | inl first ↦ rw first at h
    | inr later ↦
        let k : P y × All P (insert_asc key x ys) = rw later at h in
        let (px, rest) = All-of-insert_asc P x ys k.1 in (px, (k.0, rest))
  ]

  pub All-of-sort_asc : (P : A → Type 0) (l : List A) → All P (sort_asc key l) → All P l
  unfolding sort_asc
  All-of-sort_asc P [] h = tt
  All-of-sort_asc P (x ∷ xs) h =
      let (px, rest) = All-of-insert_asc P x (sort_asc key xs) h in (px, All-of-sort_asc P xs rest)

  insert_asc-IsAscending : (x : A) (l : List A) → IsAscending l → IsAscending (insert_asc key x l)
  unfolding insert_asc
  insert_asc-IsAscending x [] h = (tt, tt)
  insert_asc-IsAscending x (y ∷ ys) h = elim (Bool-cases (leb (key x) (key y))) [
    | inl first ↦ rw first (
      (
        ground arith,
        All-map (λ z. key y ≤ key z) (λ z. key x ≤ key z) ys (λ z k. ground arith) h.0,
      ),
      h,
    )
    | inr later ↦ rw later (
      All-insert_asc (λ z. key y ≤ key z) x ys (ground arith) h.0,
      insert_asc-IsAscending x ys h.1,
    )
  ]

  pub sort_asc-IsAscending : (l : List A) → IsAscending (sort_asc key l)
  unfolding sort_asc
  sort_asc-IsAscending [] = tt
  sort_asc-IsAscending (x ∷ xs) = insert_asc-IsAscending x _ (sort_asc-IsAscending xs)
