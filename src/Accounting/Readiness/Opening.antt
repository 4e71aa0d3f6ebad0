-- ===== src/Accounting/Readiness/Opening.antt =====
-- `verifyOpeningBalances` of packages/accounting/src/financial-readiness.ts.
pub mod Exact
use eclipse_erp.Base.{
  ℕ, ◌+◌, Bool, true, false, not, ◌&&◌, ◌||◌, Option, none, some, List, [], ◌∷◌, ◌++◌, map, ltb,
  ◌==◌, length, if◌then◌else◌, filter,
}
use eclipse_erp.Text.{Text, codes, text_eq}
use eclipse_erp.Text.Decimal.{value, print}
use eclipse_erp.Text.Order.{to_sorted}
use eclipse_erp.Dict.{Dict, lookup, insert}
use eclipse_erp.Kernel.Amount.{is_minor_amount}
use eclipse_erp.Accounting.Setup.{colon}
use eclipse_erp.Accounting.Readiness.{map_of}

pub record OpeningBalance : Type 0 where
  pub legal_entity_id : Text
  pub account_id : Text
  pub currency : Text
  pub mapping_version : ℕ
  pub debits_minor : Text
  pub credits_minor : Text

pub data OpeningMismatchKind : Type 0 where
  missing_source missing_target field_mismatch invalid_amount duplicate : OpeningMismatchKind

pub record OpeningMismatch : Type 0 where
  pub key : Text
  pub kind : OpeningMismatchKind
  pub source : Option OpeningBalance
  pub target : Option OpeningBalance
  pub fields : Option (List Text)

-- `amount(value) !== undefined`, by `amountPattern`
abbrev pub is_amount : Text → Bool
is_amount s = is_minor_amount s

-- `amount(value) ?? 0n`
unfoldable pub amount_or_zero : Text → ℕ
amount_or_zero s = if is_minor_amount s then value s else 0

unfoldable pub sum_field : (OpeningBalance → Text) → List OpeningBalance → ℕ
sum_field field [] = 0
sum_field field (e ∷ es) = amount_or_zero (field e) + sum_field field es

-- `counts.get(key) ?? 0`, after the loop that counts
unfoldable pub count_of : (OpeningBalance → Text) → Text → List OpeningBalance → ℕ
count_of key k [] = 0
count_of key k (e ∷ es) = (if text_eq k (key e) then 1 else 0) + count_of key k es

-- `new Set([...])` of texts, in insertion order
unfoldable pub set_of : List Text → List Text
set_of [] = []
set_of (k ∷ ks) = k ∷ filter (λ j. not (text_eq k j)) (set_of ks)

abbrev pub debits_field : OpeningBalance → Text
debits_field e = e.debits_minor

abbrev pub credits_field : OpeningBalance → Text
credits_field e = e.credits_minor

abbrev pub field_if : Bool → Text → List Text
field_if true name = []
field_if false name = name ∷ []

-- The upper case of a text is a parameter.
module _ (upper : Text → Text) where
  abbrev pub opening_key : OpeningBalance → Text
  opening_key e =
      colon e.legal_entity_id
        (colon e.account_id (colon (upper e.currency) (print e.mapping_version)))

  -- The fields that differ, in the order of the type.
  unfoldable pub differing : (source target : OpeningBalance) → List Text
  differing s t =
      field_if (text_eq s.legal_entity_id t.legal_entity_id) (codes "legalEntityId")
      ++ (field_if (text_eq s.account_id t.account_id) (codes "accountId")
          ++ (field_if (text_eq (upper s.currency) (upper t.currency)) (codes "currency")
              ++ (field_if (s.mapping_version == t.mapping_version) (codes "mappingVersion")
                  ++ (field_if (text_eq s.debits_minor t.debits_minor) (codes "debitsMinor")
                      ++ field_if (text_eq s.credits_minor t.credits_minor)
                          (codes "creditsMinor")))))

  unfoldable pub all_amounts : (source target : OpeningBalance) → Bool
  all_amounts s t =
      (is_amount s.debits_minor && is_amount s.credits_minor)
      && (is_amount t.debits_minor && is_amount t.credits_minor)

  unfoldable pub compare_entries : Text → (source target : OpeningBalance) → Option OpeningMismatch
  compare_entries k s t =
      let fields = differing s t in
      if not (all_amounts s t)
      then some (record {
        key = k;
        kind = invalid_amount;
        source = some s;
        target = some t;
        fields = none;
      })
      else if ltb 0 (length fields)
      then some (record {
        key = k;
        kind = field_mismatch;
        source = some s;
        target = some t;
        fields = some fields;
      })
      else none

  -- One round of the loop over the keys.
  unfoldable pub check_key : (source target : List OpeningBalance) → Text → Option OpeningMismatch
  check_key source target k =
      let s = lookup k (map_of opening_key source) in
      let t = lookup k (map_of opening_key target) in
      if ltb 1 (count_of opening_key k source) || ltb 1 (count_of opening_key k target)
      then some (record { key = k; kind = duplicate; source = s; target = t; fields = none })
      else elim s [
        | none ↦
            some
              (record { key = k; kind = missing_source; source = none; target = t; fields = none })
        | some a ↦ elim t [
          | none ↦ some (record {
            key = k;
            kind = missing_target;
            source = some a;
            target = none;
            fields = none;
          })
          | some b ↦ compare_entries k a b
        ]
      ]

  unfoldable pub check_keys :
      (source target : List OpeningBalance) → List Text → List OpeningMismatch
  check_keys source target [] = []
  check_keys source target (k ∷ ks) =
      let rest = check_keys source target ks in
      elim (check_key source target k) [ none ↦ rest | some m ↦ m ∷ rest ]

  abbrev pub entry_keys : (source target : List OpeningBalance) → List Text
  entry_keys source target = to_sorted (set_of (map opening_key source ++ map opening_key target))

  pub record Verification : Type 0 where
    pub is_ok : Bool
    pub source_count : ℕ
    pub target_count : ℕ
    pub source_debit_minor : Text
    pub target_debit_minor : Text
    pub source_credit_minor : Text
    pub target_credit_minor : Text
    pub mismatches : List OpeningMismatch

  unfoldable pub verify_opening_balances : (source target : List OpeningBalance) → Verification
  verify_opening_balances source target =
      let mismatches = check_keys source target (entry_keys source target) in
      let source_debit = sum_field debits_field source in
      let target_debit = sum_field debits_field target in
      let source_credit = sum_field credits_field source in
      let target_credit = sum_field credits_field target in
      record {
        is_ok =
            length mismatches == 0
            && (source_debit == target_debit && source_credit == target_credit);
        source_count = length source;
        target_count = length target;
        source_debit_minor = print source_debit;
        target_debit_minor = print target_debit;
        source_credit_minor = print source_credit;
        target_credit_minor = print target_credit;
        mismatches = mismatches;
      }
