-- ===== src/Messaging/Events.antt =====
-- The events and receipts of packages/messaging/src/service.ts, with the checks of their schemas.
use eclipse_erp.Base.{
  ℕ, Bool, true, false, ◌&&◌, ◌||◌, Option, none, some, [], ◌∷◌, ltb, ◌==◌, if◌then◌else◌, length,
}
use eclipse_erp.Text.{Text, codes, text_eq, non_empty_string}
use eclipse_erp.Text.Decimal.{is_digit}
use eclipse_erp.Kernel.Amount.{span_digits}
use eclipse_erp.Ledger.Port.{positive_integer}

-- What the code takes from its platform: the schema library's test for a UUID and its equality of
-- JSON values, and the time of a date's text, none for an invalid date, with the text of a time.
pub record Platform (Json : Type 0) : Type 0 where
  pub is_uuid : Text → Bool
  pub equals : Json → Json → Bool
  pub time_of : Text → Option ℕ
  pub iso_string : ℕ → Text

-- What is left of a text behind a template, in which `d` stands for a digit.
unfoldable pub after_template : Text → Text → Option Text
after_template [] s = some s
after_template (p ∷ ps) [] = none
after_template (p ∷ ps) (c ∷ s) =
    if (if p == b'd' then is_digit c else p == c) then after_template ps s else none

abbrev pub is_done : Option Text → Bool
is_done (some []) = true
is_done _ = false

-- `(?:Z|[+-]\d{2}:\d{2})$`
unfoldable pub is_zone : Text → Bool
is_zone [] = false
is_zone (c ∷ s) =
    (c == b'Z' && is_done (some s))
    || ((c == b'+' || c == b'-') && is_done (after_template (codes "dd:dd") s))

-- Digits, and the zone behind them.
abbrev digits_zone : Text × Text → Bool
digits_zone (digits, rest) = ltb 0 (length digits) && is_zone rest

-- `(?:\.\d+)?` and the zone
unfoldable pub is_fraction_zone : Text → Bool
is_fraction_zone [] = false
is_fraction_zone (c ∷ s) = if c == b'.' then digits_zone (span_digits s) else is_zone (c ∷ s)

-- `IsoTimestamp`
unfoldable pub iso_timestamp : Text → Bool
iso_timestamp s = elim (after_template (codes "dddd-dd-ddTdd:dd:dd") s) [
  | none ↦ false
  | some rest ↦ is_fraction_zone rest
]

-- `AppendEventInput`
pub record AppendEventInput (Json : Type 0) : Type 0 where
  pub event_id : Text
  pub event_type : Text
  pub event_version : ℕ
  pub tenant_id : Text
  pub aggregate_type : Text
  pub aggregate_id : Text
  pub command_id : Text
  pub correlation_id : Text
  pub causation_id : Option Text
  pub idempotency_key : Text
  pub actor_principal_id : Text
  pub occurred_at : Text
  pub payload : Json

-- `EventEnvelope`: the fields of the input, and its publication.
pub record EventEnvelope (Json : Type 0) : Type 0 where
  pub input : AppendEventInput Json
  pub published_at : Option Text
  pub attempts : ℕ

pub record GetEventInput : Type 0 where
  pub tenant_id : Text
  pub event_id : Text

pub record ConsumeOnceInput : Type 0 where
  pub tenant_id : Text
  pub consumer_id : Text
  pub event_id : Text

pub record ConsumerReceipt : Type 0 where
  pub tenant_id : Text
  pub consumer_id : Text
  pub event_id : Text
  pub event_type : Text
  pub event_version : ℕ
  pub idempotency_key : Text
  pub completed_at : Text

-- `Schema.NullOr(NonEmptyString)`
abbrev null_or_non_empty : Option Text → Bool
null_or_non_empty none = true
null_or_non_empty (some s) = non_empty_string s

-- `===` on a text or null
abbrev pub option_eq : Option Text → Option Text → Bool
option_eq none none = true
option_eq (some s) (some t) = text_eq s t
option_eq _ _ = false

-- `===` on times, where an invalid date is NaN
abbrev pub same_time : Option ℕ → Option ℕ → Bool
same_time (some m) (some n) = m == n
same_time _ _ = false

abbrev is_valid_time : Option ℕ → Bool
is_valid_time none = false
is_valid_time (some n) = true

module _ {Json : Type 0} (p : Platform Json) where
  -- `InstantString`
  unfoldable pub instant_string : Text → Bool
  instant_string s = iso_timestamp s && is_valid_time (p.time_of s)

  unfoldable pub valid_append : AppendEventInput Json → Bool
  valid_append i =
      p.is_uuid i.event_id
      && (non_empty_string i.event_type
          && (positive_integer i.event_version
              && (p.is_uuid i.tenant_id
                  && (non_empty_string i.aggregate_type
                      && (p.is_uuid i.aggregate_id
                          && (non_empty_string i.command_id
                              && (non_empty_string i.correlation_id
                                  && (null_or_non_empty i.causation_id
                                      && (non_empty_string i.idempotency_key
                                          && (non_empty_string i.actor_principal_id
                                              && instant_string i.occurred_at))))))))))

  unfoldable pub valid_get : GetEventInput → Bool
  valid_get i = p.is_uuid i.tenant_id && p.is_uuid i.event_id

  unfoldable pub valid_consume : ConsumeOnceInput → Bool
  valid_consume i =
      p.is_uuid i.tenant_id && (non_empty_string i.consumer_id && p.is_uuid i.event_id)

  -- `envelopeMatches`
  unfoldable pub envelope_matches : AppendEventInput Json → EventEnvelope Json → Bool
  envelope_matches i event =
      let e = event.input in
      text_eq i.event_id e.event_id
      && (text_eq i.event_type e.event_type
          && (i.event_version == e.event_version
              && (text_eq i.tenant_id e.tenant_id
                  && (text_eq i.aggregate_type e.aggregate_type
                      && (text_eq i.aggregate_id e.aggregate_id
                          && (text_eq i.command_id e.command_id
                              && (text_eq i.correlation_id e.correlation_id
                                  && (option_eq i.causation_id e.causation_id
                                      && (text_eq i.idempotency_key e.idempotency_key
                                          && (text_eq i.actor_principal_id e.actor_principal_id
                                              && (same_time (p.time_of i.occurred_at)
                                                    (p.time_of e.occurred_at)
                                                  && p.equals i.payload e.payload)))))))))))

  -- `receiptMatchesEvent`
  unfoldable pub receipt_matches_event : ConsumerReceipt → EventEnvelope Json → Bool
  receipt_matches_event r event =
      text_eq r.event_type event.input.event_type
      && (r.event_version == event.input.event_version
          && text_eq r.idempotency_key event.input.idempotency_key)
