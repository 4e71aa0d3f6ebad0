-- ===== src/Messaging/Append.antt =====
-- Appending events: packages/messaging/src/service.ts.
use eclipse_erp.Base.{
  ◌≡◌, refl, ap, subst, inl, inr, Bool, true, false, Option, none, some, arith, ◌==◌, Bool-cases,
  Option-cases, any,
}
use eclipse_erp.Base.Effect.{Result, ok, err}
use eclipse_erp.Text.{Text, text_eq, text_eq_refl, text_eq_iff}
use eclipse_erp.Dict.{lookup, insert, lookup-insert, lookup-insert_self}
use eclipse_erp.Messaging.Events.{
  Platform, AppendEventInput, EventEnvelope, valid_append, envelope_matches, option_eq,
  instant_string,
}
use eclipse_erp.Messaging.Service.{
  Store, Failure, dedupe_key, own_key, event_by_dedupe, same_object, or_else, new_event, append,
}

-- The laws of the platform that the properties rely on: equality of JSON values is reflexive, and a
-- UUID has no colon.
pub record IsPlatform {Json : Type 0} (p : Platform Json) : Type 0 where
  pub equals_refl : (x : Json) → p.equals x x ≡ true
  pub uuid_colon : (s : Text) → p.is_uuid s ≡ true → any (λ c. c == b':') s ≡ false

abbrev pub succeeds : {A : Type 0} → Result Failure A → Bool
succeeds (ok a) = true
succeeds (err e) = false

option_eq_refl : (o : Option Text) → option_eq o o ≡ true
option_eq_refl none = refl
option_eq_refl (some s) = text_eq_refl s

module _ {Json : Type 0} (p : Platform Json) where
  -- An input that the schema lets through matches the event made of it.
  matches_self :
      (i : AppendEventInput Json)
      → IsPlatform p
      → valid_append p i ≡ true
      → envelope_matches p i (new_event i) ≡ true
  unfolding envelope_matches valid_append instant_string
  matches_self i l v = ground (
    arith,
    v,
    l.equals_refl i.payload,
    text_eq_refl i.event_id,
    text_eq_refl i.event_type,
    text_eq_refl i.tenant_id,
    text_eq_refl i.aggregate_type,
    text_eq_refl i.aggregate_id,
    text_eq_refl i.command_id,
    text_eq_refl i.correlation_id,
    text_eq_refl i.idempotency_key,
    text_eq_refl i.actor_principal_id,
    option_eq_refl i.causation_id,
  )

  -- The store with a new event.
  abbrev stored : AppendEventInput Json → Store Json → Store Json
  stored i s = record s {
    events = insert (own_key i) (new_event i) s.events;
    event_ids = insert (dedupe_key i) i.event_id s.event_ids;
  }

  stored-same_object :
      (i : AppendEventInput Json) (s : Store Json) → same_object i (stored i s) ≡ true
  unfolding same_object
  stored-same_object i s =
      ground
        (arith, lookup-insert_self (dedupe_key i) i.event_id s.event_ids, text_eq_refl (own_key i))

  -- The event that an input conflicts with or repeats.
  abbrev pub existing_event : AppendEventInput Json → Store Json → Option (EventEnvelope Json)
  existing_event i s = or_else (lookup (own_key i) s.events) (event_by_dedupe i s)

  pub append-new :
      (i : AppendEventInput Json) (s : Store Json)
      → valid_append p i ≡ true
      → existing_event i s ≡ none
      → append p i s ≡ (ok (new_event i), stored i s)
  unfolding append
  append-new i s v e = rw (v, e)

  append-repeated :
      (i : AppendEventInput Json) (s : Store Json)
      → valid_append p i ≡ true
      → lookup (own_key i) s.events ≡ some (new_event i)
      → same_object i s ≡ true
      → envelope_matches p i (new_event i) ≡ true
      → append p i s ≡ (ok (new_event i), s)
  unfolding append
  append-repeated i s v e o m = ground (arith, v, e, o, m)

  append-valid :
      (i : AppendEventInput Json) (s : Store Json)
      → succeeds (append p i s).0 ≡ true
      → valid_append p i ≡ true
  unfolding append
  append-valid i s h = ground arith

  -- Without a new event, the store stays as it is.
  pub append-old :
      (i : AppendEventInput Json) (s : Store Json) (x : EventEnvelope Json)
      → existing_event i s ≡ some x
      → (append p i s).1 ≡ s
  unfolding append
  append-old i s x e = ground (arith, e)

  pub append-invalid :
      (i : AppendEventInput Json) (s : Store Json) → valid_append p i ≡ false → (append p i s).1 ≡ s
  unfolding append
  append-invalid i s v = ground (arith, v)

  -- An append that succeeded may be repeated: it answers the same event and writes nothing more,
  -- on a platform where the equality of JSON values is reflexive.
  pub append-again :
      (i : AppendEventInput Json) (s : Store Json)
      → IsPlatform p
      → succeeds (append p i s).0 ≡ true
      → append p i (append p i s).1 ≡ append p i s
  append-again i s l h =
      let v = append-valid i s h in
      elim (Option-cases (existing_event i s)) [
        | inl e ↦ rw (
          append-new i s v e,
          append-repeated i (stored i s) v (lookup-insert_self (own_key i) (new_event i) s.events)
              (stored-same_object i s) (matches_self i l v),
        )
        | inr (x, e) ↦ ap (append p i) (append-old i s x e)
      ]

  -- No append changes an event that is stored.
  pub append-keeps :
      (i : AppendEventInput Json) (s : Store Json) (k : Text) (e : EventEnvelope Json)
      → lookup k s.events ≡ some e
      → lookup k (append p i s).1.events ≡ some e
  unfolding append
  append-keeps i s k e h = elim (Bool-cases (text_eq k (own_key i))) [
    | inl same ↦
        let there =
          subst (λ x. lookup x s.events ≡ some e) ((text_eq_iff k (own_key i)).0 same) h in
        ground (arith, there, h)
    | inr other ↦ ground (arith, h, lookup-insert (own_key i) k (new_event i) s.events)
  ]
