-- ===== src/Messaging/Consume.antt =====
-- Consuming events: packages/messaging/src/service.ts.
use eclipse_erp.Base.{
  ℕ, ◌≡◌, refl, sym, ap, ◌∙◌, subst, inl, inr, Bool, true, false, Option, none, some, arith,
  Option-cases,
}
use eclipse_erp.Base.Effect.{Result, ok, err}
use eclipse_erp.Text.{Text, text_eq_refl}
use eclipse_erp.Dict.{lookup, lookup-insert_self}
use eclipse_erp.Messaging.Events.{
  Platform, EventEnvelope, ConsumeOnceInput, ConsumerReceipt, valid_consume, receipt_matches_event,
}
use eclipse_erp.Messaging.Service.{
  Store, ConsumeFailure, ConsumeOnceResult, first_time, duplicate, Consumer, event_key, receipt_key,
  new_receipt, rollback, complete, consume_once,
}

own_receipt :
    {Json : Type 0} (p : Platform Json) (i : ConsumeOnceInput) (source : EventEnvelope Json) (n : ℕ)
    → receipt_matches_event p (new_receipt p i source n) source ≡ true
unfolding receipt_matches_event new_receipt
own_receipt p i source n =
    ground (arith, text_eq_refl source.input.event_type, text_eq_refl source.input.idempotency_key)

module _ {A E : Type 0} where
  abbrev pub fails : Result (ConsumeFailure E) (ConsumeOnceResult A) → Bool
  fails (ok r) = false
  fails (err e) = true

  abbrev pub is_first : Result (ConsumeFailure E) (ConsumeOnceResult A) → Bool
  is_first (ok (first_time a r)) = true
  is_first _ = false

  -- The receipt of an answer, if it has one.
  abbrev pub receipt_of : Result (ConsumeFailure E) (ConsumeOnceResult A) → Option ConsumerReceipt
  receipt_of (ok (first_time a r)) = some r
  receipt_of (ok (duplicate r)) = some r
  receipt_of (err e) = none

  abbrev pub is_duplicate : Result (ConsumeFailure E) (ConsumeOnceResult A) → Bool
  is_duplicate (ok (duplicate r)) = true
  is_duplicate _ = false

module _ {Json : Type 0} where
  -- The maps of two stores are the same.
  abbrev pub SameMaps : Store Json → Store Json → Type 0
  SameMaps s t = (s.events ≡ t.events) × (s.event_ids ≡ t.event_ids) × (s.receipts ≡ t.receipts)

module _ {Json A E W : Type 0} where
  -- A consumer that does not change or remove an event that is stored, as no append does.
  abbrev pub KeepsEvents : Consumer Json W E A → Type 0
  KeepsEvents f =
      (s : Store Json) (w : W) (k : Text) (e : EventEnvelope Json)
      → lookup k s.events ≡ some e
      → lookup k (f (s, w)).1.0.events ≡ some e

  module _ (p : Platform Json) where
    complete-fails :
        (i : ConsumeOnceInput) (source : EventEnvelope Json) (s : Store Json)
        (r : Result E A × (Store Json × W))
        → fails (complete p i source s r).0 ≡ true
        → SameMaps (complete p i source s r).1.0 s
    unfolding complete rollback
    complete-fails i source s (err e, (t, w)) h = (refl, refl, refl)
    complete-fails i source s (ok a, (t, w)) h = absurd (ground arith)

    -- A consumption that fails leaves every event, dedupe key and receipt as it was before its
    -- effect wrote any.
    pub consume_once-fails :
        (i : ConsumeOnceInput) (f : Consumer Json W E A) (s : Store Json) (w : W)
        → fails (consume_once p i f (s, w)).0 ≡ true
        → SameMaps (consume_once p i f (s, w)).1.0 s
    unfolding consume_once
    consume_once-fails i f s w h =
        elim (Option-cases (lookup (event_key i.tenant_id i.event_id) s.events)) [
          | inl e ↦ ground (arith, e)
          | inr (source, e) ↦ elim (Option-cases (lookup (receipt_key i) s.receipts)) [
            | inl n ↦ ground (arith, e, n, complete-fails i source s (f (s, w)))
            | inr (r, m) ↦ ground (arith, e, m)
          ]
        ]

    -- The receipt that a first consumption leaves.
    abbrev left_receipt :
        ConsumeOnceInput → EventEnvelope Json → Result E A × (Store Json × W) → ConsumerReceipt
    left_receipt i source r = new_receipt p i source r.1.0.clock

    complete-first :
        (i : ConsumeOnceInput) (source : EventEnvelope Json) (s : Store Json)
        (r : Result E A × (Store Json × W))
        → is_first (complete p i source s r).0 ≡ true
        → ((complete p i source s r).1.0.events ≡ r.1.0.events)
          × (lookup (receipt_key i) (complete p i source s r).1.0.receipts
              ≡ some (left_receipt i source r))
          × (receipt_of (complete p i source s r).0 ≡ some (left_receipt i source r))
    unfolding complete
    complete-first i source s (err e, (t, w)) h = absurd (ground arith)
    complete-first i source s (ok a, (t, w)) h =
        (refl, lookup-insert_self (receipt_key i) (new_receipt p i source t.clock) t.receipts, refl)

    consume_once-repeated :
        (i : ConsumeOnceInput) (f : Consumer Json W E A) (s : Store Json) (w : W)
        (source : EventEnvelope Json) (r : ConsumerReceipt)
        → valid_consume p i ≡ true
        → lookup (event_key i.tenant_id i.event_id) s.events ≡ some source
        → lookup (receipt_key i) s.receipts ≡ some r
        → receipt_matches_event p r source ≡ true
        → consume_once p i f (s, w) ≡ (ok (duplicate r), (s, w))
    unfolding consume_once
    consume_once-repeated i f s w source r v e n m = ground (arith, v, e, n, m)

    -- What a consumption that runs its effect goes through.
    consume_once-runs :
        (i : ConsumeOnceInput) (f : Consumer Json W E A) (s : Store Json) (w : W)
        → is_first (consume_once p i f (s, w)).0 ≡ true
        → (valid_consume p i ≡ true)
          × ((source : EventEnvelope Json) × (lookup (event_key i.tenant_id i.event_id) s.events
                ≡ some source)
              × (consume_once p i f (s, w) ≡ complete p i source s (f (s, w))))
    unfolding consume_once
    consume_once-runs i f s w h =
        elim (Option-cases (lookup (event_key i.tenant_id i.event_id) s.events)) [
          | inl e ↦ absurd (ground (arith, e))
          | inr (source, e) ↦ elim (Option-cases (lookup (receipt_key i) s.receipts)) [
            | inl n ↦ (ground (arith, e, n), (source, e, ground (arith, e, n)))
            | inr (r, m) ↦ absurd (ground (arith, e, m))
          ]
        ]

    -- When a consumption ran its effect and succeeded, the effect does not run again: the next
    -- consumption of the event by this consumer, with whatever effect, answers the first receipt
    -- and changes neither the store nor the world. The first effect must not change or remove
    -- events that are stored.
    pub consume_once-once :
        (i : ConsumeOnceInput) (f g : Consumer Json W E A) (s : Store Json) (w : W)
        → KeepsEvents f
        → is_first (consume_once p i f (s, w)).0 ≡ true
        → (is_duplicate (consume_once p i g (consume_once p i f (s, w)).1).0 ≡ true)
          × (receipt_of (consume_once p i g (consume_once p i f (s, w)).1).0
              ≡ receipt_of (consume_once p i f (s, w)).0)
          × ((consume_once p i g (consume_once p i f (s, w)).1).1 ≡ (consume_once p i f (s, w)).1)
    consume_once-once i f g s w keeps h =
        let (v, (source, e, ran)) = consume_once-runs i f s w h in
        let r = f (s, w) in
        let c = complete p i source s r in
        let first = complete-first i source s r (subst (λ o. is_first o.0 ≡ true) ran h) in
        let there =
          ap (lookup (event_key i.tenant_id i.event_id)) first.0
          ∙ keeps s w (event_key i.tenant_id i.event_id) source e in
        let again : consume_once p i g c.1 ≡ (ok (duplicate (left_receipt i source r)), c.1) =
          consume_once-repeated i g c.1.0 c.1.1 source (left_receipt i source r) v there first.1
            (own_receipt p i source r.1.0.clock) in
        subst
          (λ o.
            (is_duplicate (consume_once p i g o.1).0 ≡ true)
            × (receipt_of (consume_once p i g o.1).0 ≡ receipt_of o.0)
            × ((consume_once p i g o.1).1 ≡ o.1))
          (sym ran)
          (
            ap (λ o. is_duplicate o.0) again,
            ap (λ o. receipt_of o.0) again ∙ sym first.2,
            ap (λ o. o.1) again,
          )
