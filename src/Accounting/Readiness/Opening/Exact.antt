-- ===== src/Accounting/Readiness/Opening/Exact.antt =====
-- What verified opening balances are: packages/accounting/src/financial-readiness.ts.
use eclipse_erp.Base.{Bool, true, false, ◌&&◌, Option, none, some, List, leb, ◌==◌, any}
use eclipse_erp.Text.{Text, text_eq}
use eclipse_erp.Dict.{Dict, lookup}
use eclipse_erp.Accounting.Readiness.{map_of}
use eclipse_erp.Accounting.Readiness.Opening.{OpeningBalance, count_of, opening_key, all_amounts}

-- Whether a text is in a list.
abbrev is_in : Text → List Text → Bool
is_in k ks = any (text_eq k) ks

module _ (upper : Text → Text) where
  -- Entries with the same fields, the currency up to its case.
  abbrev pub same_entry : (source target : OpeningBalance) → Bool
  same_entry s t =
      text_eq s.legal_entity_id t.legal_entity_id
      && (text_eq s.account_id t.account_id
          && (text_eq (upper s.currency) (upper t.currency)
              && (s.mapping_version == t.mapping_version
                  && (text_eq s.debits_minor t.debits_minor
                      && text_eq s.credits_minor t.credits_minor))))

  -- Both entries are missing, or both are there, with amounts, and the same.
  unfoldable pub entries_match : (source target : Option OpeningBalance) → Bool
  entries_match none none = true
  entries_match (some s) (some t) = all_amounts upper s t && same_entry s t
  entries_match none (some t) = false
  entries_match (some s) none = false

  module _ (source target : List OpeningBalance) where
    -- Under the key each side has one entry at most, and the entries match.
    abbrev pub key_matches : Text → Bool
    key_matches k =
        leb (count_of (opening_key upper) k source) 1
        && (leb (count_of (opening_key upper) k target) 1
            && entries_match (lookup k (map_of (opening_key upper) source))
                (lookup k (map_of (opening_key upper) target)))
