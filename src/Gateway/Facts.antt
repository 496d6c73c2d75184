-- ===== src/Gateway/Facts.antt =====
-- The facts that a posting of `_submit_single` rests on (revguard/mocks.py, with the monitor of
-- revguard/execution_reference.py).
use revguard.Base.{Text, ℕ, ◌≡◌, true, false, Option, some, List, [], ◌∷◌, arith, refl}
use revguard.Model.Errors.{ok}
use revguard.Model.Actors.{Actor}
use revguard.Model.Money.{LedgerEntry, GatewayState, Reference, order, contract, commission_ledger}
use revguard.References.{Problem, has_problems}
use revguard.References.Slots.{IsEvidenced, references_without_problems_are_supported}
use revguard.Gateway.{Env}
use revguard.Gateway.Submission.{submit_single, entry_of, references_for}
use revguard.Gateway.Posting.{submit_single-Posting, identity_parts}

no_problems : (ps : List Problem) → has_problems ps ≡ false → ps ≡ []
no_problems [] h = refl
no_problems (p ∷ ps) h = absurd (cc)

-- The references of the entry: one for each slot, each to a fact that was read for the case.
abbrev pub HasEvidence : ℕ → GatewayState → LedgerEntry → Type 0
HasEvidence case_id st e =
    (a : Reference) × (b : Reference) × (c : Reference) × (e.execution_references ≡ a ∷ b ∷ c ∷ [])
    × IsEvidenced case_id (some e.order_id) (some e.currency) st.receipts order a
    × IsEvidenced case_id (some e.order_id) (some e.currency) st.receipts contract b
    × IsEvidenced case_id (some e.order_id) (some e.currency) st.receipts commission_ledger c

-- Where references are required, the ledger entry of a posting that succeeds cites three facts, on
-- the order, the contract and the commission ledger: each a receipt of the gateway for a successful
-- read in the posting's case by a tool of that slot, which names no other currency than the entry,
-- and, where it is marked as bound, the order of the entry or, for the contract, the partner that
-- the last read of that order told.
pub posting_rests_on_facts :
    (env : Env) (ledger_id : ℕ) (key : Option ℕ) (token : Option Text) (actor : Actor)
    (case_id action_id : ℕ) (st : GatewayState) (entry : LedgerEntry) (st' : GatewayState)
    → env.require_references ≡ true
    → submit_single env ledger_id key token actor case_id action_id st ≡ ok (entry, st')
    → HasEvidence case_id st entry
posting_rests_on_facts env ledger_id key token actor case_id action_id st entry st' required h =
    let p = submit_single-Posting env ledger_id key token actor case_id action_id st h in
    let (_, of_case, _, _) = identity_parts actor case_id p.claims p.draft p.identity in
    let clean = no_problems (references_for case_id p.draft st).1 (ground arith) in
    let (a, b, c, listed, sa, sb, sc) =
      references_without_problems_are_supported case_id (some p.draft.order_id)
        (some p.draft.currency) st.receipts clean in
    let cited : (entry_of env ledger_id p.draft st).execution_references
        ≡ (references_for case_id p.draft st).0 =
      rw (of_case, required) refl in
    rw p.posted (a, b, c, rw (cited, listed) refl, sa, sb, sc)
