-- ===== src/Authorization/Members.antt =====
-- The states that the operations reach, and what holds of each: packages/authorization/src/service.ts.
use eclipse_erp.Base.{
  ◌≡◌, refl, subst, inl, inr, Bool, true, false, not, ◌||◌, List, [], ◌∷◌, ◌++◌, arith, Bool-cases,
  Option-cases, all, filter,
}
use eclipse_erp.Text.{Text, text_eq, text_eq_refl, text_eq_iff, starts_with, starts_with-append}
use eclipse_erp.Dict.{Dict, lookup, insert, erase, contains, all-insert, lookup-all}
use eclipse_erp.Authorization.Service.{
  Status, active, Membership, MembershipInput, GrantInput, Store, membership_key, grant_prefix,
  grant_key, add_grant, member, add_member, set_status, remove_member, grant, grantee,
}
use eclipse_erp.Authorization.Decision.{key_of}

-- One operation that changes the store.
pub data Step (s : Store) : Store → Type 0 where
  added : (i : MembershipInput) → Step s (add_member i s).1
  status_set : (status : Status) (i : MembershipInput) → Step s (set_status status i s).1
  removed : (i : MembershipInput) → Step s (remove_member i s).1
  granted : (i : GrantInput) → Step s (grant i s).1

abbrev pub empty : Store
empty = record { memberships = []; grants = [] }

-- What a service that starts without grants reaches.
pub data IsReachable : Store → Type 0 where
  start : IsReachable empty
  step : {s t : Store} → IsReachable s → Step s t → IsReachable t

-- A grant belongs to a membership.
unfoldable pub is_held : Dict Membership → Text → Bool
is_held [] g = false
is_held ((k, m) ∷ ms) g = starts_with (grant_prefix k) g || is_held ms g

-- A membership is kept under its own key.
abbrev pub is_keyed : Text × Membership → Bool
is_keyed (k, m) = text_eq k (membership_key m.user_account_id m.tenant_id)

pub record IsConsistent (s : Store) : Type 0 where
  held : all (is_held s.memberships) s.grants ≡ true
  keyed : all is_keyed s.memberships ≡ true

is_held-insert :
    (k g : Text) (v : Membership) (m : Dict Membership)
    → is_held m g ≡ true
    → is_held (insert k v m) g ≡ true
unfolding is_held insert
is_held-insert k g v [] h = absurd (ground arith)
is_held-insert k g v ((j, w) ∷ m) h = ground (arith, is_held-insert k g v m)

is_held-erase :
    (k g : Text) (m : Dict Membership)
    → is_held m g ≡ true
    → starts_with (grant_prefix k) g ≡ false
    → is_held (erase k m) g ≡ true
unfolding is_held erase
is_held-erase k g [] h n = absurd (ground arith)
is_held-erase k g ((j, w) ∷ m) h n = elim (Bool-cases (text_eq k j)) [
  | inl same ↦
      let n' = subst (λ x. starts_with (grant_prefix x) g ≡ false) ((text_eq_iff k j).0 same) n in
      ground (arith, n', is_held-erase k g m)
  | inr other ↦ ground (arith, is_held-erase k g m)
]

all_held-insert :
    (k : Text) (v : Membership) (m : Dict Membership) (gs : List Text)
    → all (is_held m) gs ≡ true
    → all (is_held (insert k v m)) gs ≡ true
all_held-insert k v m [] h = refl
all_held-insert k v m (g ∷ gs) h = ground (arith, all_held-insert k v m gs, is_held-insert k g v m)

all_held-erase :
    (k : Text) (m : Dict Membership) (gs : List Text)
    → all (is_held m) gs ≡ true
    → all (is_held (erase k m)) (filter (λ g. not (starts_with (grant_prefix k) g)) gs) ≡ true
all_held-erase k m [] h = refl
all_held-erase k m (g ∷ gs) h = ground (arith, all_held-erase k m gs, is_held-erase k g m)

keyed-erase :
    (k : Text) (m : Dict Membership) → all is_keyed m ≡ true → all is_keyed (erase k m) ≡ true
unfolding erase
keyed-erase k [] a = refl
keyed-erase k ((j, w) ∷ m) a = ground (arith, keyed-erase k m)

all_held-append :
    (m : Dict Membership) (g : Text) (gs : List Text)
    → all (is_held m) gs ≡ true
    → is_held m g ≡ true
    → all (is_held m) (gs ++ (g ∷ [])) ≡ true
all_held-append m g [] h k = ground arith
all_held-append m g (x ∷ gs) h k = ground (arith, all_held-append m g gs)

add_grant-held :
    (m : Dict Membership) (g : Text) (gs : List Text)
    → all (is_held m) gs ≡ true
    → is_held m g ≡ true
    → all (is_held m) (add_grant g gs) ≡ true
unfolding add_grant
add_grant-held m g gs h k = ground (arith, all_held-append m g gs)

lookup-is_held :
    (k c : Text) (m : Dict Membership) → contains k m ≡ true → is_held m (grant_key k c) ≡ true
unfolding lookup is_held
lookup-is_held k c [] h = absurd (ground arith)
lookup-is_held k c ((j, w) ∷ m) h = elim (Bool-cases (text_eq k j)) [
  | inl same ↦
      let p =
        subst (λ x. starts_with (grant_prefix x) (grant_key k c) ≡ true) ((text_eq_iff k j).0 same)
          (starts_with-append (grant_prefix k) c) in
      ground (arith, p)
  | inr other ↦ ground (arith, lookup-is_held k c m)
]

abbrev new_member : MembershipInput → Membership
new_member i = record {
  user_account_id = i.user_account_id;
  tenant_id = i.tenant_id;
  status = active;
}

add_member-IsConsistent :
    (i : MembershipInput) (s : Store) → IsConsistent s → IsConsistent (add_member i s).1
unfolding add_member
add_member-IsConsistent i s c =
    let k = key_of i in
    let v = new_member i in
    record {
      held = ground (arith, c.held, all_held-insert k v s.memberships s.grants);
      keyed = ground (arith, c.keyed, all-insert is_keyed k v s.memberships (text_eq_refl k));
    }

set_status-IsConsistent :
    (status : Status) (i : MembershipInput) (s : Store)
    → IsConsistent s
    → IsConsistent (set_status status i s).1
unfolding set_status member
set_status-IsConsistent status i s c =
    let k = key_of i in
    elim (Option-cases (lookup k s.memberships)) [
      | inl e ↦ record { held = ground (arith, e, c.held); keyed = ground (arith, e, c.keyed) }
      | inr (m, e) ↦
          let v : Membership = record m { status = status } in
          let own = lookup-all is_keyed k m s.memberships c.keyed e in
          record {
            held = ground (arith, e, c.held, all_held-insert k v s.memberships s.grants);
            keyed = ground (arith, e, c.keyed, all-insert is_keyed k v s.memberships own);
          }
    ]

remove_member-IsConsistent :
    (i : MembershipInput) (s : Store) → IsConsistent s → IsConsistent (remove_member i s).1
unfolding remove_member
remove_member-IsConsistent i s c =
    let k = key_of i in
    record {
      held = ground (arith, c.held, all_held-erase k s.memberships s.grants);
      keyed = ground (arith, c.keyed, keyed-erase k s.memberships);
    }

grant-IsConsistent : (i : GrantInput) (s : Store) → IsConsistent s → IsConsistent (grant i s).1
unfolding grant member
grant-IsConsistent i s c =
    let k = key_of (grantee i) in
    elim (Option-cases (lookup k s.memberships)) [
      | inl e ↦ record { held = ground (arith, e, c.held); keyed = ground (arith, e, c.keyed) }
      | inr (m, e) ↦
          let own = lookup-is_held k i.capability s.memberships (ground (arith, e)) in
          record {
            held = ground (
              arith,
              e,
              c.held,
              add_grant-held s.memberships (grant_key k i.capability) s.grants c.held own,
            );
            keyed = ground (arith, e, c.keyed);
          }
    ]

Step-IsConsistent : {s t : Store} → Step s t → IsConsistent s → IsConsistent t
Step-IsConsistent {s = s} (added i) c = add_member-IsConsistent i s c
Step-IsConsistent {s = s} (status_set status i) c = set_status-IsConsistent status i s c
Step-IsConsistent {s = s} (removed i) c = remove_member-IsConsistent i s c
Step-IsConsistent {s = s} (granted i) c = grant-IsConsistent i s c

-- In every state that the operations reach from an empty service, each grant belongs to a membership
-- that exists, and each membership is kept under the key of its own account and tenant.
pub IsReachable-IsConsistent : (s : Store) → IsReachable s → IsConsistent s
IsReachable-IsConsistent s start = record { held = refl; keyed = refl }
IsReachable-IsConsistent t (step {s = s} r x) = Step-IsConsistent x (IsReachable-IsConsistent s r)
