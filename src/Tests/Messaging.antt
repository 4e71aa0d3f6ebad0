-- ===== src/Tests/Messaging.antt =====
-- An event and its consumer, on a platform whose JSON values are numbers.
use eclipse_erp.Base.{
  ℕ, ◌+◌, ◌≡◌, refl, Bool, true, false, not, none, some, List, [], ◌∷◌, arith, ◌==◌, eqb_refl,
  length, any,
}
use eclipse_erp.Base.Effect.{ok, err}
use eclipse_erp.Text.{Text, codes, text_eq, non_empty_string}
use eclipse_erp.Text.Decimal.{print}
use eclipse_erp.Dict.{lookup, insert}
use eclipse_erp.Kernel.Amount.{span_digits}
use eclipse_erp.Ledger.Port.{positive_integer}
use eclipse_erp.Messaging.Events.{
  Platform, AppendEventInput, ConsumeOnceInput, after_template, is_zone, is_fraction_zone,
  iso_timestamp, instant_string, valid_append, valid_consume, envelope_matches,
  receipt_matches_event,
}
use eclipse_erp.Messaging.Service.{
  Store, Consumer, event_key, dedupe_key, receipt_key, event_by_dedupe, same_object, new_event,
  append, new_receipt, complete, rollback, consume_once,
}
use eclipse_erp.Messaging.Append.{IsPlatform, succeeds}
use eclipse_erp.Messaging.Consume.{
  fails, is_first, is_duplicate, receipt_of, KeepsEvents, SameMaps, consume_once-fails,
  consume_once-once,
}
use eclipse_erp.Messaging.Unique.{appended, appended_unique}

abbrev has_colon : Text → Bool
has_colon s = any (λ c. c == b':') s

abbrev pub platform : Platform ℕ
platform = record {
  is_uuid = λ s. not (has_colon s);
  equals = λ m n. m == n;
  time_of = λ s. some (length s);
  iso_string = print;
}

platform-IsPlatform : IsPlatform platform
platform-IsPlatform = record {
  equals_refl = λ n. eqb_refl n;
  uuid_colon = λ s h. no_colon (has_colon s) h;
}
  where
    no_colon : (b : Bool) → not b ≡ true → b ≡ false
    no_colon true h = absurd (ground arith)
    no_colon false h = refl

abbrev event : Text → AppendEventInput ℕ
event id = record {
  event_id = id;
  event_type = codes "sales.order.confirmed";
  event_version = 1;
  tenant_id = codes "t";
  aggregate_type = codes "order";
  aggregate_id = codes "o";
  command_id = codes "c";
  correlation_id = codes "x";
  causation_id = none;
  idempotency_key = codes "k";
  actor_principal_id = codes "ann";
  occurred_at = codes "2026-01-02T03:04:05.678Z";
  payload = 7;
}

abbrev empty : Store ℕ
empty = record { events = []; event_ids = []; receipts = []; clock = 0 }

abbrev one : Store ℕ
one = (append platform (event (codes "e1")) empty).1

abbrev consumption : ConsumeOnceInput
consumption = record { tenant_id = codes "t"; consumer_id = codes "billing"; event_id = codes "e1" }

-- An effect that counts in its world, and one that fails after it appended an event.
abbrev count : Consumer ℕ ℕ Text ℕ
count (s, w) = (ok w, (s, w + 1))

abbrev broken : Consumer ℕ ℕ Text ℕ
broken (s, w) = (err (codes "down"), ((append platform (event (codes "e2")) s).1, w))

running : ℕ
unfolding append valid_append instant_string iso_timestamp is_fraction_zone is_zone after_template
    span_digits non_empty_string positive_integer text_eq lookup insert event_key dedupe_key
    receipt_key event_by_dedupe same_object envelope_matches receipt_matches_event consume_once
    valid_consume complete rollback new_receipt print appended
running = 0

appends : succeeds (append platform (event (codes "e1")) empty).0 ≡ true
unfolding running
appends = refl

-- Another event with the dedupe key of the first is refused.
conflict_test : succeeds (append platform (event (codes "e2")) one).0 ≡ false
unfolding running
conflict_test = refl

timestamp_test : iso_timestamp (codes "2026-01-02T03:04:05+7:00") ≡ false
unfolding running
timestamp_test = refl

there : lookup (codes "t:e1") one.events ≡ some (new_event (event (codes "e1")))
unfolding running
there = refl

abbrev history : List (AppendEventInput ℕ)
history = event (codes "e2") ∷ (event (codes "e1") ∷ [])

there_after :
    lookup (codes "t:e1") (appended platform history).events ≡ some (new_event (event (codes "e1")))
unfolding running
there_after = refl

appended_unique_example :
    (codes "t:e1" ≡ codes "t:e1")
    × (new_event (event (codes "e1")) ≡ new_event (event (codes "e1")))
appended_unique_example =
    appended_unique platform history (codes "t:e1") (codes "t:e1") (new_event (event (codes "e1")))
      (new_event (event (codes "e1"))) platform-IsPlatform there_after there_after refl

breaks : fails (consume_once platform consumption broken (one, 0)).0 ≡ true
unfolding running
breaks = refl

consume_once-fails_example : SameMaps (consume_once platform consumption broken (one, 0)).1.0 one
consume_once-fails_example = consume_once-fails platform consumption broken one 0 breaks

counts : is_first (consume_once platform consumption count (one, 0)).0 ≡ true
unfolding running
counts = refl

count-KeepsEvents : KeepsEvents count
count-KeepsEvents s w k e h = h

consume_once-once_example :
    (is_duplicate
        (consume_once platform consumption broken
          (consume_once platform consumption count (one, 0)).1).0
      ≡ true)
    × (receipt_of
          (consume_once platform consumption broken
            (consume_once platform consumption count (one, 0)).1).0
        ≡ receipt_of (consume_once platform consumption count (one, 0)).0)
    × ((consume_once platform consumption broken
          (consume_once platform consumption count (one, 0)).1).1
        ≡ (consume_once platform consumption count (one, 0)).1)
consume_once-once_example =
    consume_once-once platform consumption count broken one 0 count-KeepsEvents counts
