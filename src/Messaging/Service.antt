-- ===== src/Messaging/Service.antt =====
-- `makeMessagingTestLayer` of packages/messaging/src/service.ts. An operation is a function of the
-- three maps and the clock.
use eclipse_erp.Base.{ℕ, ◌+◌, Bool, false, not, ◌&&◌, Option, none, some, ◌∷◌, ◌++◌, if◌then◌else◌}
use eclipse_erp.Base.Effect.{Result, ok, err}
use eclipse_erp.Text.{Text, codes, text_eq}
use eclipse_erp.Text.Decimal.{print}
use eclipse_erp.Dict.{Dict, lookup, insert}
use eclipse_erp.Messaging.Events.{
  Platform, AppendEventInput, EventEnvelope, GetEventInput, ConsumeOnceInput, ConsumerReceipt,
  valid_append, valid_get, valid_consume, envelope_matches, receipt_matches_event,
}

pub record Store (Json : Type 0) : Type 0 where
  pub events : Dict (EventEnvelope Json)
  pub event_ids : Dict Text
  pub receipts : Dict ConsumerReceipt
  pub clock : ℕ

pub data Failure : Type 0 where
  schema_error : Failure
  idempotency_conflict :
      (tenant_id event_id event_type : Text) (event_version : ℕ) (idempotency_key : Text) → Failure
  database_failure : (operation cause : Text) → Failure

-- The failures of the service, or of the effect that a consumer runs.
pub data ConsumeFailure (E : Type 0) : Type 0 where
  service_failure : Failure → ConsumeFailure E
  effect_failure : E → ConsumeFailure E

pub data ConsumeOnceResult (A : Type 0) : Type 0 where
  first_time : A → ConsumerReceipt → ConsumeOnceResult A
  duplicate : ConsumerReceipt → ConsumeOnceResult A

abbrev colon : Text → Text → Text
colon a b = a ++ (b':' ∷ b)

unfoldable pub event_key : Text → Text → Text
event_key tenant event = colon tenant event

unfoldable pub dedupe_key : {Json : Type 0} → AppendEventInput Json → Text
dedupe_key i =
    colon i.tenant_id (colon i.event_type (colon (print i.event_version) i.idempotency_key))

unfoldable pub receipt_key : ConsumeOnceInput → Text
receipt_key i = colon i.tenant_id (colon i.consumer_id i.event_id)

abbrev pub own_key : {Json : Type 0} → AppendEventInput Json → Text
own_key i = event_key i.tenant_id i.event_id

-- The event that holds the dedupe key of an input.
unfoldable pub event_by_dedupe :
    {Json : Type 0} → AppendEventInput Json → Store Json → Option (EventEnvelope Json)
event_by_dedupe i s = elim (lookup (dedupe_key i) s.event_ids) [
  | none ↦ none
  | some id ↦ lookup (event_key i.tenant_id id) s.events
]

-- `byId === byDedupe`, where one of them exists. An object is stored under one key only, so they are
-- one object when they were read with one key.
unfoldable pub same_object : {Json : Type 0} → AppendEventInput Json → Store Json → Bool
same_object i s = elim (lookup (dedupe_key i) s.event_ids) [
  | none ↦ false
  | some id ↦ text_eq (event_key i.tenant_id i.event_id) (event_key i.tenant_id id)
]

abbrev conflict : {Json : Type 0} → AppendEventInput Json → Failure
conflict i =
    idempotency_conflict i.tenant_id i.event_id i.event_type i.event_version i.idempotency_key

-- `byId ?? byDedupe`
abbrev pub or_else : {A : Type 0} → Option A → Option A → Option A
or_else none o = o
or_else (some a) o = some a

abbrev pub new_event : {Json : Type 0} → AppendEventInput Json → EventEnvelope Json
new_event i = record { input = i; published_at = none; attempts = 0 }

-- `new Map(...)` of each map before the effect, written back when it fails; the clock is not reset.
unfoldable pub rollback : {Json : Type 0} → Store Json → Store Json → Store Json
rollback snapshot s = record snapshot { clock = s.clock }

-- The effect of a consumer acts on the service and on a world of its own.
abbrev pub Consumer : (Json W E A : Type 0) → Type 0
Consumer Json W E A = Store Json × W → Result E A × (Store Json × W)

module _ {Json : Type 0} (p : Platform Json) where
  unfoldable pub append :
      AppendEventInput Json → Store Json → Result Failure (EventEnvelope Json) × Store Json
  append i s =
      if not (valid_append p i)
      then (err schema_error, s)
      else elim (or_else (lookup (own_key i) s.events) (event_by_dedupe i s)) [
        | some existing ↦
            if same_object i s && envelope_matches p i existing
            then (ok existing, s)
            else (err (conflict i), s)
        | none ↦ (
          ok (new_event i),
          record s {
            events = insert (own_key i) (new_event i) s.events;
            event_ids = insert (dedupe_key i) i.event_id s.event_ids;
          },
        )
      ]

  unfoldable pub get_event :
      GetEventInput → Store Json → Result Failure (Option (EventEnvelope Json))
  get_event i s =
      if not (valid_get p i)
      then err schema_error
      else ok (lookup (event_key i.tenant_id i.event_id) s.events)

  -- The receipt of a consumption that succeeds.
  unfoldable pub new_receipt : ConsumeOnceInput → EventEnvelope Json → ℕ → ConsumerReceipt
  new_receipt i source clock = record {
    tenant_id = i.tenant_id;
    consumer_id = i.consumer_id;
    event_id = i.event_id;
    event_type = source.input.event_type;
    event_version = source.input.event_version;
    idempotency_key = source.input.idempotency_key;
    completed_at = p.iso_string clock;
  }

  module _ {A E W : Type 0} where
    -- What follows the effect: its result is kept with a receipt, or its writes are undone.
    unfoldable pub complete :
        ConsumeOnceInput
        → EventEnvelope Json
        → Store Json
        → Result E A × (Store Json × W)
        → Result (ConsumeFailure E) (ConsumeOnceResult A) × (Store Json × W)
    complete i source snapshot (err e, (s, w)) = (err (effect_failure e), (rollback snapshot s, w))
    complete i source snapshot (ok a, (s, w)) =
        let receipt = new_receipt i source s.clock in
        (
          ok (first_time a receipt),
          (
            record s { receipts = insert (receipt_key i) receipt s.receipts; clock = s.clock + 1 },
            w,
          ),
        )

    unfoldable pub consume_once :
        ConsumeOnceInput
        → Consumer Json W E A
        → Store Json × W
        → Result (ConsumeFailure E) (ConsumeOnceResult A) × (Store Json × W)
    consume_once i effect (s, w) =
        if not (valid_consume p i)
        then (err (service_failure schema_error), (s, w))
        else elim (lookup (event_key i.tenant_id i.event_id) s.events) [
          | none ↦ (
            err (
                service_failure (
                  database_failure (codes "messaging.receipt.complete")
                    (codes "source event does not exist for tenant"))),
            (s, w),
          )
          | some source ↦ elim (lookup (receipt_key i) s.receipts) [
            | some existing ↦
                if receipt_matches_event p existing source
                then (ok (duplicate existing), (s, w))
                else (
                  err (
                      service_failure (
                        database_failure (codes "messaging.receipt.complete")
                          (codes "consumer receipt event identity does not match source"))),
                  (s, w),
                )
            | none ↦ complete i source s (effect (s, w))
          ]
        ]
