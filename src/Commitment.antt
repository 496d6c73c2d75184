-- ===== src/Commitment.antt =====
-- The parameters that an approval commits to (revguard/commitment.py).
pub mod Rounding
mod Examples
use revguard.Base.{
  ℕ, ◌+◌, ◌-◌, ◌*◌, ◌/◌, ◌^◌, ◌%◌, Bool, true, false, Option, none, some, List, [], ◌∷◌, Dict, leb,
  if◌then◌else◌,
}
use revguard.Base.Int.{ℤ, pos, negsuc, abs_ℤ}
use revguard.Model.Errors.{Result, ok, err, ◌>>=◌, ◌>>◌, raise_if, value_error}
use revguard.Model.Money.{Approval}

-- The text of an amount with two decimals: its sign, and its hundredths.
pub record CanonicalAmount : Type 0 where
  pub is_negative : Bool
  pub cents : ℕ

-- n / d, to the nearest number, and away from zero in the middle: `ROUND_HALF_UP`.
abbrev pub half_up : ℕ → ℕ → ℕ
half_up n d = (2 * n + d) / (2 * d)

-- `quantize(Decimal("0.01"), rounding=ROUND_HALF_UP)` of n units of 10^-scale.
abbrev pub cents_of : ℕ → ℕ → ℕ
cents_of scale n = if leb scale 2 then n * 10 ^ (2 - scale) else half_up n (10 ^ (scale - 2))

abbrev pub is_below_zero : ℤ → Bool
is_below_zero (pos _) = false
is_below_zero (negsuc _) = true

-- An amount counts units of 10^-scale. `quantize` signals `InvalidOperation` for more than 28 digits.
unfoldable pub canonical_amount : ℕ → ℤ → Result CanonicalAmount
canonical_amount scale amount = do
  let cents = cents_of scale (abs_ℤ amount)
  raise_if (leb (10 ^ 28) cents) value_error
  ok (record { is_negative = is_below_zero amount; cents = cents })

abbrev pub canonical_amounts : ℕ → Dict ℤ → Result (Dict CanonicalAmount)
canonical_amounts scale [] = ok []
canonical_amounts scale ((component, amount) ∷ quota) = do
  first ← canonical_amount scale amount
  rest ← canonical_amounts scale quota
  ok ((component, first) ∷ rest)

unfoldable pub canonical_quota : ℕ → Dict ℤ → Result (Dict CanonicalAmount)
canonical_quota scale [] = err value_error
canonical_quota scale (entry ∷ quota) = canonical_amounts scale (entry ∷ quota)

-- `sort_keys=True`
abbrev pub insert_key {ℓ} : {V : Type ℓ} → ℕ × V → Dict V → Dict V
insert_key entry [] = entry ∷ []
insert_key entry (other ∷ rest) =
    let later = insert_key entry rest in
    if leb entry.0 other.0 then entry ∷ other ∷ rest else other ∷ later

abbrev pub sort_keys {ℓ} : {V : Type ℓ} → Dict V → Dict V
sort_keys [] = []
sort_keys (entry ∷ rest) = insert_key entry (sort_keys rest)

-- `COMMITMENT_FIELDS`; an absent text and an empty one are the same.
pub record Commitment : Type 0 where
  pub action_summary : ℕ
  pub amount : CanonicalAmount
  pub approval_id : ℕ
  pub case_id : ℕ
  pub component_quota : Dict CanonicalAmount
  pub currency : ℕ
  pub release_version : Option ℕ
  pub risk_level : ℕ

-- The document whose canonical JSON is hashed: the keys of the quota are in order.
unfoldable pub approval_commitment : ℕ → Approval → Result Commitment
approval_commitment scale approval = do
  amount ← canonical_amount scale approval.amount
  quota ← canonical_quota scale approval.component_quota
  ok (record {
    action_summary = approval.action_summary;
    amount = amount;
    approval_id = approval.approval_id;
    case_id = approval.case_id;
    component_quota = sort_keys quota;
    currency = approval.currency;
    release_version = approval.release_version;
    risk_level = approval.risk_level;
  })

-- `hash` is the SHA-256 digest of the canonical JSON of a document.
unfoldable pub approval_digest : (Commitment → ℕ) → ℕ → Approval → Result ℕ
approval_digest hash scale approval = do
  commitment ← approval_commitment scale approval
  ok (hash commitment)
