-- ===== src/Tests/Readiness.antt =====
-- Two snapshots that agree, one with a lost transfer, and opening balances on both sides.
use eclipse_erp.Base.{ℕ, ◌≡◌, refl, ◌↔◌, true, false, List, [], ◌∷◌, ◌==◌, length}
use eclipse_erp.Text.{Text, codes, text_eq, to_upper}
use eclipse_erp.Text.Decimal.{value, print}
use eclipse_erp.Text.Order.{text_lt, put, to_sorted}
use eclipse_erp.Dict.{lookup, insert, merge}
use eclipse_erp.Kernel.Amount.{is_minor_amount}
use eclipse_erp.Accounting.Evidence.{cutover_rehearsal, fenced}
use eclipse_erp.Accounting.Journals.{texts_eq}
use eclipse_erp.Accounting.Readiness.{
  Snapshot, TransferFact, EvidenceSource, Digests, same_operation, same_fact, same_balance,
  same_projection, source_loop, target_loop, compare_maps, compare_snapshots, sum_minor,
  build_evidence,
}
use eclipse_erp.Accounting.Readiness.Agree.{IsAgreed, build_evidence-agrees}
use eclipse_erp.Accounting.Readiness.Opening.{
  OpeningBalance, amount_or_zero, sum_field, count_of, set_of, differing, all_amounts,
  compare_entries, check_key, check_keys, verify_opening_balances,
}

abbrev transfer : Text → TransferFact
transfer amount = record {
  operation_id = codes "op";
  position = 0;
  status = codes "accepted";
  transfer_id = codes "7";
  debit_account_id = codes "a1";
  credit_account_id = codes "a2";
  amount_minor = amount;
  currency = codes "EUR";
  mapping_version = 1;
}

abbrev facts : List TransferFact → Snapshot
facts transfers = record {
  operations =
      record {
        operation_id = codes "op";
        status = codes "accepted";
        currency = codes "EUR";
        mapping_version = 1;
      }
      ∷ [];
  transfers = transfers;
  balances =
      record {
        account_id = codes "a1";
        currency = codes "EUR";
        mapping_version = 1;
        debits_posted_minor = codes "50";
        credits_posted_minor = codes "0";
      }
      ∷ [];
  projections =
      record {
        operation_id = codes "op";
        journal_status = codes "posted";
        transfer_ids = codes "7" ∷ [];
      }
      ∷ [];
}

abbrev rehearsal : (source target : Snapshot) → EvidenceSource
rehearsal source target = record {
  tenant_id = codes "t";
  legal_entity_id = codes "le";
  kind = cutover_rehearsal;
  completeness = fenced;
  scope = codes "all";
  mapping_version = 1;
  currency = codes "eur";
  source_watermark = codes "w1";
  target_watermark = codes "w2";
  source_snapshot_ref = codes "s1";
  target_snapshot_ref = codes "s2";
  source = source;
  target = target;
  started_at = codes "";
  completed_at = codes "";
}

abbrev digests : Digests
digests = record {
  of_operations = λ fs. print (length fs);
  of_balances = λ fs. print (length fs);
  of_transfers = λ fs. print (length fs);
  of_projections = λ fs. print (length fs);
  upper = to_upper;
}

abbrev whole : Snapshot
whole = facts (transfer (codes "50") ∷ [])

abbrev entry : Text → Text → OpeningBalance
entry currency debits = record {
  legal_entity_id = codes "le";
  account_id = codes "a1";
  currency = currency;
  mapping_version = 1;
  debits_minor = debits;
  credits_minor = codes "0";
}

running : ℕ
unfolding to_upper text_eq print value text_lt put to_sorted lookup insert merge is_minor_amount
    texts_eq same_operation same_fact same_balance same_projection source_loop target_loop
    compare_maps compare_snapshots sum_minor build_evidence amount_or_zero sum_field count_of set_of
    differing all_amounts compare_entries check_key check_keys verify_opening_balances
running = 0

agree_test : (build_evidence digests (rehearsal whole whole)).mismatch_count ≡ 0
unfolding running
agree_test = refl

lost_test : (build_evidence digests (rehearsal whole (facts []))).mismatch_count ≡ 1
unfolding running
lost_test = refl

changed_test :
    (build_evidence digests (rehearsal whole (facts (transfer (codes "51") ∷ [])))).mismatch_count
    ≡ 1
unfolding running
changed_test = refl

build_evidence-agrees_example :
    ((build_evidence digests (rehearsal whole (facts []))).mismatch_count == 0 ≡ true)
    ↔ IsAgreed whole (facts [])
build_evidence-agrees_example = build_evidence-agrees digests (rehearsal whole (facts []))

opening_test :
    (verify_opening_balances to_upper
      (entry (codes "eur") (codes "50") ∷ [])
      (entry (codes "EUR") (codes "50") ∷ [])).is_ok
    ≡ true
unfolding running
opening_test = refl

twice_test :
    (verify_opening_balances to_upper
      (entry (codes "EUR") (codes "50") ∷ (entry (codes "EUR") (codes "0") ∷ []))
      (entry (codes "EUR") (codes "50") ∷ [])).is_ok
    ≡ false
unfolding running
twice_test = refl
