-- ===== src/References/Slots.antt =====
-- What a list of references without problems shows (revguard/execution_reference.py).
use revguard.Base.{
  ℕ, ◌≡◌, Bool, true, false, Option, none, some, List, [], ◌∷◌, option_eq_iff, arith, refl, sym,
  ◌⊎◌, inl, inr, Bool-cases, Option-cases,
}
use revguard.Model.Money.{
  Receipt, Slot, order, contract, commission_ledger, Binding, fact_bound, case_only, Reference,
}
use revguard.References.{
  Finding, cites, lacks, unread, inconsistent, other_currency, last_such, wanted, is_candidate,
  is_bound, is_case_only, binding_value, differs, is_present, cite, check_slot, problems_of,
  verify_execution_references,
}

-- The receipt stands in the list.
abbrev pub Among : Receipt → List Receipt → Type 0
Among r [] = ⊥
Among r (x ∷ xs) = (r ≡ x) ⊎ Among r xs

-- A strong binding has the wanted value of the slot's key, a weak one has none.
abbrev pub Binds : Binding → Option ℕ → Option ℕ → Type 0
Binds fact_bound value want = (value ≡ want) × (is_present want ≡ true)
Binds case_only value want = value ≡ none

-- The reference cites a successful read of the case by a tool of the slot, which names no other
-- currency, and its binding is as it says.
abbrev pub IsEvidenced : ℕ → Option ℕ → Option ℕ → List Receipt → Slot → Reference → Type 0
IsEvidenced case_id order_id currency receipts slot r =
    (r.slot ≡ slot)
    × Among r.receipt receipts
    × (is_candidate case_id slot r.receipt ≡ true)
    × (differs r.receipt.currency currency ≡ false)
    × Binds r.binding (binding_value slot r.receipt) (wanted case_id order_id receipts slot)

last_such-Among :
    (test : Receipt → Bool) (rs : List Receipt) (r : Receipt)
    → last_such test rs ≡ some r
    → Among r rs × (test r ≡ true)
last_such-Among test [] r h = absurd (cc)
last_such-Among test (x ∷ xs) r h = elim (Option-cases (last_such test xs)) [
  | inr (later, e) ↦
      let (among, holds) = last_such-Among test xs r (rw e (rw e at h)) in (inr among, holds)
  | inl e ↦ elim (Bool-cases (test x)) [
    | inl holds ↦
        let same : some x ≡ some r = rw (e, holds) at h in
        let same' : r ≡ x = ground arith in (inl same', rw same' holds)
    | inr fails ↦ absurd (let none_found : none ≡ some r = rw (e, fails) at h in cc)
  ]
]

cites-injective : {a b : Reference} → cites a ≡ cites b → a ≡ b
cites-injective h = cc

module _ (case_id : ℕ) (order_id currency : Option ℕ) (receipts : List Receipt) (slot : Slot) where
  cite-cites :
      (binding : Binding) (r : Receipt) (ref : Reference)
      → cite slot currency binding r ≡ cites ref
      → (ref ≡ record { slot = slot; receipt = r; binding = binding })
        × (differs r.currency currency ≡ false)
  cite-cites binding r ref h = elim (Bool-cases (differs r.currency currency)) [
    | inl other ↦
        absurd (let impossible : lacks (other_currency slot) ≡ cites ref = rw other at h in cc)
    | inr same ↦
        let e : cites (record { slot = slot; receipt = r; binding = binding }) ≡ cites ref =
          rw same at h in
        (sym (cites-injective e), same)
  ]

  supported :
      (binding : Binding) (r : Receipt) (ref : Reference)
      → Among r receipts
      → is_candidate case_id slot r ≡ true
      → Binds binding (binding_value slot r) (wanted case_id order_id receipts slot)
      → cite slot currency binding r ≡ cites ref
      → IsEvidenced case_id order_id currency receipts slot ref
  supported binding r ref among candidate binds h =
      let (e, same) = cite-cites binding r ref h in rw e (refl, among, candidate, same, binds)

  check_slot-cites :
      (ref : Reference)
      → check_slot case_id order_id currency receipts slot ≡ cites ref
      → IsEvidenced case_id order_id currency receipts slot ref
  unfolding check_slot
  check_slot-cites ref h =
      let want = wanted case_id order_id receipts slot in
      elim (Option-cases (last_such (is_candidate case_id slot) receipts)) [
        | inl none_read ↦ absurd (
            let impossible : lacks (unread slot) ≡ cites ref = rw (check_slot, none_read) at h in
            cc)
        | inr (any_read, read) ↦
            let h1 = rw (check_slot, read) at h in
            elim (Option-cases (last_such (is_bound case_id slot want) receipts)) [
              | inr (r, found) ↦
                  let (among, holds) =
                    last_such-Among (is_bound case_id slot want) receipts r found in
                  let cited : cite slot currency fact_bound r ≡ cites ref = rw found at h1 in
                  supported fact_bound r ref among (ground arith)
                    ((option_eq_iff (binding_value slot r) want).0 (ground arith), ground arith)
                    cited
              | inl not_bound ↦
                  let h2 = rw not_bound at h1 in
                  elim (Option-cases (last_such (is_case_only case_id slot) receipts)) [
                    | inr (r, found) ↦
                        let (among, holds) =
                          last_such-Among (is_case_only case_id slot) receipts r found in
                        let cited : cite slot currency case_only r ≡ cites ref = rw found at h2 in
                        supported case_only r ref among (ground arith) (ground arith) cited
                    | inl unkeyed ↦ absurd (
                        let impossible : lacks (inconsistent slot) ≡ cites ref = rw unkeyed at h2 in
                        cc)
                  ]
            ]
      ]

cited-or-lacking : (f : Finding) → problems_of (f ∷ []) ≡ [] → (r : Reference) × (f ≡ cites r)
cited-or-lacking (cites r) h = (r, refl)
cited-or-lacking (lacks p) h = absurd (cc)

all_cited :
    (f g k : Finding)
    → problems_of (f ∷ g ∷ k ∷ []) ≡ []
    → (a : Reference) × (b : Reference) × (c : Reference) × (f ≡ cites a)
      × (g ≡ cites b)
      × (k ≡ cites c)
all_cited (cites a) (cites b) (cites c) h = (a, b, c, refl, refl, refl)
all_cited (lacks p) g k h = absurd (cc)
all_cited (cites a) (lacks p) k h = absurd (cc)
all_cited (cites a) (cites b) (lacks p) h = absurd (cc)

-- If the check of a case, an order and a currency names no problem, then its references are three,
-- for the order, the contract and the commission ledger. Each cites a receipt in the list for a
-- successful read of the case by a tool of its slot that names no other currency, and a reference
-- marked as bound to its fact has the wanted value of the key of its slot: the order itself, or for
-- the contract the partner that the last read of the order told.
pub references_without_problems_are_supported :
    (case_id : ℕ) (order_id currency : Option ℕ) (receipts : List Receipt)
    → (verify_execution_references case_id order_id currency receipts).1 ≡ []
    → (a : Reference) × (b : Reference) × (c : Reference) × ((verify_execution_references case_id
          order_id currency receipts).0
        ≡ a ∷ b ∷ c ∷ [])
      × IsEvidenced case_id order_id currency receipts order a
      × IsEvidenced case_id order_id currency receipts contract b
      × IsEvidenced case_id order_id currency receipts commission_ledger c
unfolding verify_execution_references
references_without_problems_are_supported case_id order_id currency receipts h =
    let at = check_slot case_id order_id currency receipts in
    let (a, b, c, ea, eb, ec) = all_cited (at order) (at contract) (at commission_ledger) h in
    (
      a,
      b,
      c,
      rw (ea, eb, ec) refl,
      check_slot-cites case_id order_id currency receipts order a ea,
      check_slot-cites case_id order_id currency receipts contract b eb,
      check_slot-cites case_id order_id currency receipts commission_ledger c ec,
    )
