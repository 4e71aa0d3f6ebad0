-- ===== src/Messaging/Unique.antt =====
-- One event for a dedupe key: packages/messaging/src/service.ts.
use eclipse_erp.Base.{
  ◌≡◌, refl, sym, ap, ◌∙◌, subst, inl, inr, Bool, true, false, ◌&&◌, Option, none, some, List, [],
  ◌∷◌, ◌++◌, arith, ◌==◌, Bool-cases, Option-cases, any, all,
}
use eclipse_erp.Text.{Text, text_eq, text_eq_refl, text_eq→eq}
use eclipse_erp.Dict.{
  Dict, lookup, insert, contains, is_some, covers, insert-new, lookup-insert, lookup-insert_self,
  lookup-insert_self, lookup-all,
}
use eclipse_erp.Messaging.Events.{Platform, AppendEventInput, EventEnvelope, valid_append}
use eclipse_erp.Messaging.Service.{
  Store, event_key, dedupe_key, own_key, event_by_dedupe, new_event, append,
}
use eclipse_erp.Messaging.Append.{
  IsPlatform, existing_event, append-new, append-old, append-invalid,
}

-- A text without a colon is determined by what it stands before, with a colon between.
colon_cancel :
    (a b s t : Text)
    → any (λ c. c == b':') a ≡ false
    → any (λ c. c == b':') b ≡ false
    → a ++ (b':' ∷ s) ≡ b ++ (b':' ∷ t)
    → a ≡ b
colon_cancel [] [] s t n m h = refl
colon_cancel [] (d ∷ b) s t n m h = let e : b':' ≡ d = cc in absurd (ground (arith, e))
colon_cancel (c ∷ a) [] s t n m h = let e : c ≡ b':' = cc in absurd (ground (arith, e))
colon_cancel (c ∷ a) (d ∷ b) s t n m h =
    let rest = colon_cancel a b s t (ground arith) (ground arith) cc in cc

covers-cons :
    {V : Type 0} (n m : Dict V) (j : Text) (v : V)
    → covers n m ≡ true
    → covers n ((j, v) ∷ m) ≡ true
unfolding covers lookup
covers-cons [] m j v h = refl
covers-cons ((k, w) ∷ n) m j v h = ground (arith, covers-cons n m j v)

covers_self : {V : Type 0} (m : Dict V) → covers m m ≡ true
unfolding covers lookup
covers_self [] = refl
covers_self ((k, w) ∷ m) = ground (arith, text_eq_refl k, covers-cons m m k w (covers_self m))

abbrev holds : Option Text → Text → Bool
holds none x = false
holds (some y) x = text_eq y x

one_id : (o : Option Text) (a b : Text) → holds o a ≡ true → holds o b ≡ true → a ≡ b
one_id none a b h k = absurd (ground arith)
one_id (some y) a b h k = sym (text_eq→eq y a h) ∙ text_eq→eq y b k

module _ {Json : Type 0} (p : Platform Json) where
  -- An event is kept under its own key, and its dedupe key leads to it.
  abbrev is_indexed : Dict Text → Text × EventEnvelope Json → Bool
  is_indexed ids (k, e) =
      text_eq k (own_key e.input)
      && (p.is_uuid e.input.tenant_id && holds (lookup (dedupe_key e.input) ids) e.input.event_id)

  abbrev pub IsIndexed : Store Json → Type 0
  IsIndexed s = all (is_indexed s.event_ids) s.events ≡ true

  same_tenant :
      (i j : AppendEventInput Json)
      → IsPlatform p
      → p.is_uuid i.tenant_id ≡ true
      → p.is_uuid j.tenant_id ≡ true
      → dedupe_key i ≡ dedupe_key j
      → i.tenant_id ≡ j.tenant_id
  unfolding dedupe_key
  same_tenant i j l u v h =
      colon_cancel i.tenant_id j.tenant_id _ _ (l.uuid_colon i.tenant_id u)
        (l.uuid_colon j.tenant_id v) h

  -- An event whose dedupe key leads to it is found by every input with that key.
  found_by_dedupe :
      (i : AppendEventInput Json) (s : Store Json) (k : Text) (e : EventEnvelope Json)
      → IsPlatform p
      → p.is_uuid i.tenant_id ≡ true
      → is_indexed s.event_ids (k, e) ≡ true
      → contains k s.events ≡ true
      → dedupe_key e.input ≡ dedupe_key i
      → is_some (event_by_dedupe i s) ≡ true
  unfolding event_by_dedupe
  found_by_dedupe i s k e l u x c d =
      elim (Option-cases (lookup (dedupe_key e.input) s.event_ids)) [
        | inl none_there ↦ absurd (ground (arith, none_there))
        | inr (y, there) ↦
            let y_is = text_eq→eq y e.input.event_id (ground (arith, there)) in
            let k_is = text_eq→eq k (own_key e.input) (ground arith) in
            let tenant = same_tenant e.input i l (ground arith) u d in
            let key : event_key i.tenant_id y ≡ k = cc (y_is, k_is, tenant) in
            let at_i : lookup (dedupe_key i) s.event_ids ≡ some y =
              subst (λ x'. lookup x' s.event_ids ≡ some y) d there in
            let at_k : contains (event_key i.tenant_id y) s.events ≡ true =
              subst (λ x'. contains x' s.events ≡ true) (sym key) c in
            ground (arith, at_i, at_k)
      ]

  -- The index after a new event, for the events that were there.
  still_indexed :
      (i : AppendEventInput Json) (s : Store Json) (es : Dict (EventEnvelope Json))
      → IsPlatform p
      → p.is_uuid i.tenant_id ≡ true
      → event_by_dedupe i s ≡ none
      → covers es s.events ≡ true
      → all (is_indexed s.event_ids) es ≡ true
      → all (is_indexed (insert (dedupe_key i) i.event_id s.event_ids)) es ≡ true
  unfolding covers
  still_indexed i s [] l u n c h = refl
  still_indexed i s ((k, e) ∷ es) l u n c h =
      elim (Bool-cases (text_eq (dedupe_key e.input) (dedupe_key i))) [
        | inl same ↦ absurd (
            ground (
              arith,
              n,
              found_by_dedupe i s k e l u (ground arith) (ground arith)
                  (text_eq→eq (dedupe_key e.input) (dedupe_key i) same),
            ))
        | inr other ↦ ground (
          arith,
          still_indexed i s es l u n,
          lookup-insert (dedupe_key i) (dedupe_key e.input) i.event_id s.event_ids,
        )
      ]

  all-append :
      (f : Text × EventEnvelope Json → Bool) (es : Dict (EventEnvelope Json))
      (x : Text × EventEnvelope Json)
      → all f es ≡ true
      → f x ≡ true
      → all f (es ++ (x ∷ [])) ≡ true
  all-append f [] x h k = ground arith
  all-append f (e ∷ es) x h k = ground (arith, all-append f es x)

  uuid_of_valid :
      (i : AppendEventInput Json) → valid_append p i ≡ true → p.is_uuid i.tenant_id ≡ true
  unfolding valid_append
  uuid_of_valid i v = ground arith

  append-IsIndexed :
      (i : AppendEventInput Json) (s : Store Json)
      → IsPlatform p
      → IsIndexed s
      → IsIndexed (append p i s).1
  append-IsIndexed i s l h = elim (Bool-cases (valid_append p i)) [
    | inr invalid ↦ subst IsIndexed (sym (append-invalid p i s invalid)) h
    | inl v ↦ elim (Option-cases (existing_event p i s)) [
      | inr (x, e) ↦ subst IsIndexed (sym (append-old p i s x e)) h
      | inl e ↦
          let k = own_key i in
          let ids = insert (dedupe_key i) i.event_id s.event_ids in
          let fresh : lookup k s.events ≡ none = ground (arith, e) in
          let fresh_key : event_by_dedupe i s ≡ none = ground (arith, e, fresh) in
          let u = uuid_of_valid i v in
          let own : is_indexed ids (k, new_event i) ≡ true = ground (
            arith,
            u,
            text_eq_refl k,
            text_eq_refl i.event_id,
            lookup-insert_self (dedupe_key i) i.event_id s.event_ids,
          ) in
          let old = still_indexed i s s.events l u fresh_key (covers_self s.events) h in
          subst IsIndexed (sym (ap (λ o. o.1) (append-new p i s v e))) (
            subst (λ es. all (is_indexed ids) es ≡ true)
              (sym (insert-new k (new_event i) s.events fresh))
              (all-append (is_indexed ids) s.events (k, new_event i) old own))
    ]
  ]

  -- What a service that starts empty holds after a list of appends, the last one first.
  unfoldable pub appended : List (AppendEventInput Json) → Store Json
  appended [] = record { events = []; event_ids = []; receipts = []; clock = 0 }
  appended (i ∷ is) = (append p i (appended is)).1

  appended-IsIndexed : (is : List (AppendEventInput Json)) → IsPlatform p → IsIndexed (appended is)
  unfolding appended
  appended-IsIndexed [] l = refl
  appended-IsIndexed (i ∷ is) l = append-IsIndexed i (appended is) l (appended-IsIndexed is l)

  -- Whatever was appended to an empty store, two stored events with the same dedupe key are one
  -- event, under one key, on a platform where no UUID has a colon.
  pub appended_unique :
      (is : List (AppendEventInput Json)) (j k : Text) (d e : EventEnvelope Json)
      → IsPlatform p
      → lookup j (appended is).events ≡ some d
      → lookup k (appended is).events ≡ some e
      → dedupe_key d.input ≡ dedupe_key e.input
      → (j ≡ k) × (d ≡ e)
  appended_unique is j k d e l at_j at_k same =
      let s = appended is in
      let all_in = appended-IsIndexed is l in
      let x = lookup-all (is_indexed s.event_ids) j d s.events all_in at_j in
      let y = lookup-all (is_indexed s.event_ids) k e s.events all_in at_k in
      let tenant = same_tenant d.input e.input l (ground arith) (ground arith) same in
      let holds_e =
        subst (λ c. holds (lookup c s.event_ids) e.input.event_id ≡ true) (sym same)
          (ground arith) in
      let id =
        one_id (lookup (dedupe_key d.input) s.event_ids) d.input.event_id e.input.event_id
          (ground arith) holds_e in
      let j_is = text_eq→eq j (own_key d.input) (ground arith) in
      let k_is = text_eq→eq k (own_key e.input) (ground arith) in
      let key : j ≡ k = cc (tenant, id, j_is, k_is) in
      let both = sym (subst (λ c. lookup c s.events ≡ some d) key at_j) ∙ at_k in
      (key, ground (arith, both))
