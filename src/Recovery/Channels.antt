-- ===== src/Recovery/Channels.antt =====
-- The channels that a freeze holds (`freeze_case_with_tx`, revguard/money_journal.py, as
-- revguard/recovery.py calls it).
use revguard.Base.{
  ℕ, ◌≡◌, true, not, ◌&&◌, some, List, [], ◌∷◌, lookup, Dict, ap, subst, ◌∙◌, arith, if◌then◌else◌,
  ◌==◌, Bool-cases, inl, inr,
}
use revguard.Model.Tables.{Operation, Hold}
use revguard.Journal.Recovery.{has_hold, freeze_rows}

-- The channels of an operation's case stay held while further rows are frozen.
freeze_keeps :
    (channel case_id reason : ℕ) (rows : Dict Operation) (hs : List Hold)
    → has_hold channel case_id hs ≡ true
    → has_hold channel case_id (freeze_rows case_id reason rows hs) ≡ true
freeze_keeps channel case_id reason [] hs held = held
freeze_keeps channel case_id reason ((k, o) ∷ rows) hs held =
    elim (Bool-cases (o.case_id == case_id && not (has_hold o.channel case_id hs))) [
      | inl new ↦ rw new (freeze_keeps channel case_id reason rows _ (ground arith))
      | inr old ↦ rw old (freeze_keeps channel case_id reason rows hs held)
    ]

step_holds :
    (case_id reason : ℕ) (p : Operation) (hs : List Hold)
    → p.case_id ≡ case_id
    → has_hold p.channel case_id (
        if p.case_id == case_id && not (has_hold p.channel case_id hs)
        then record { channel = p.channel; case_id = case_id; reason = reason } ∷ hs
        else hs)
      ≡ true
step_holds case_id reason p hs own = ground arith

pub freeze_covers :
    (case_id reason k : ℕ) (o : Operation) (rows : Dict Operation) (hs : List Hold)
    → lookup k rows ≡ some o
    → o.case_id ≡ case_id
    → has_hold o.channel case_id (freeze_rows case_id reason rows hs) ≡ true
freeze_covers case_id reason k o [] hs found own = absurd (cc)
freeze_covers case_id reason k o ((j, p) ∷ rows) hs found own = elim (Bool-cases (k == j)) [
  | inl here ↦
      let same : some p ≡ some o = rw here at found in
      let is_o : p ≡ o = cc in
      let own_p : p.case_id ≡ case_id = ap (λ (x : Operation). x.case_id) is_o ∙ own in
      subst
        (λ (x : Operation).
          has_hold x.channel case_id (freeze_rows case_id reason ((j, p) ∷ rows) hs) ≡ true)
        is_o (freeze_keeps p.channel case_id reason rows _ (step_holds case_id reason p hs own_p))
  | inr later ↦ freeze_covers case_id reason k o rows _ (rw later at found) own
]
