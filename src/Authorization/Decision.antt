-- ===== src/Authorization/Decision.antt =====
-- What the membership operations do to later decisions: packages/authorization/src/service.ts.
use eclipse_erp.Base.{
  ◌≡◌, refl, sym, ap, ◌∙◌, subst, inl, inr, Bool, true, false, not, ◌&&◌, ◌||◌, none, List, [], ◌∷◌,
  ◌++◌, arith, Bool-cases, Option-cases, any, filter,
}
use eclipse_erp.Base.Effect.{Result, ok, err}
use eclipse_erp.Text.{Text, text_eq, text_eq_refl, text_eq_iff, starts_with, starts_with-append}
use eclipse_erp.Dict.{lookup, erase, contains, lookup-erase, lookup-insert_self}
use eclipse_erp.Authorization.Capabilities.{is_capability}
use eclipse_erp.Authorization.Service.{
  Status, active, suspended, MembershipInput, AuthorizationInput, GrantInput, Failure, Decision,
  Store, membership_key, grant_prefix, grant_key, is_active, has_grant, add_grant, authorize,
  member, add_member, set_status, suspend_member, activate_member, remove_member, grant, grantee,
}

abbrev pub allows : Result Failure Decision → Bool
allows (ok d) = true
allows (err e) = false

abbrev pub succeeds : {A : Type 0} → Result Failure A → Bool
succeeds (ok a) = true
succeeds (err e) = false

-- The request of a member for a capability.
abbrev pub request :
    (session_id : Text) → MembershipInput → (capability : Text) → AuthorizationInput
request session i c = record {
  principal = record { user_account_id = i.user_account_id; session_id = session };
  tenant_id = i.tenant_id;
  capability = c;
}

abbrev pub key_of : MembershipInput → Text
key_of i = membership_key i.user_account_id i.tenant_id

-- A request is allowed exactly when the capability is one, the member is active and has it.
authorize-allows :
    (j : AuthorizationInput) (s : Store)
    → let key = membership_key j.principal.user_account_id j.tenant_id in
      allows (authorize j s) ≡ (
        is_capability j.capability
        && (is_active (lookup key s.memberships)
            && has_grant (grant_key key j.capability) s.grants))
unfolding authorize
authorize-allows j s = ground arith

abbrev status_bool : Status → Bool
status_bool active = true
status_bool suspended = false

set_status-store :
    (status : Status) (i : MembershipInput) (s : Store)
    → succeeds (set_status status i s).0 ≡ true
    → (is_active (lookup (key_of i) (set_status status i s).1.memberships) ≡ status_bool status)
      × ((set_status status i s).1.grants ≡ s.grants)
      × (contains (key_of i) (set_status status i s).1.memberships ≡ true)
unfolding set_status member
set_status-store status i s h = elim (Option-cases (lookup (key_of i) s.memberships)) [
  | inl e ↦ absurd (ground (arith, e))
  | inr (m, e) ↦
      ground (arith, e, lookup-insert_self (key_of i) (record m { status = status }) s.memberships)
]

set_status-succeeds :
    (status : Status) (i : MembershipInput) (s : Store)
    → succeeds (set_status status i s).0 ≡ contains (key_of i) s.memberships
unfolding set_status member
set_status-succeeds status i s = elim (Option-cases (lookup (key_of i) s.memberships)) [
  | inl e ↦ ground (arith, e)
  | inr (m, e) ↦ ground (arith, e)
]

-- A member that was suspended is denied everything; when it is activated again it is allowed
-- exactly what it was granted before.
pub suspend_member-denies :
    (session : Text) (i : MembershipInput) (c : Text) (s : Store)
    → succeeds (suspend_member i s).0 ≡ true
    → (allows (authorize (request session i c) (suspend_member i s).1) ≡ false)
      × (allows (authorize (request session i c) (activate_member i (suspend_member i s).1).1)
          ≡ (is_capability c && has_grant (grant_key (key_of i) c) s.grants))
suspend_member-denies session i c s h =
    let s' = (suspend_member i s).1 in
    let down = set_status-store suspended i s h in
    let up = set_status-store active i s' (set_status-succeeds active i s' ∙ down.2) in
    (
      ground (arith, down.0, authorize-allows (request session i c) s'),
      ground (
        arith,
        up.0,
        up.1,
        down.1,
        authorize-allows (request session i c) (activate_member i s').1,
      ),
    )

has_prefix :
    (key c g : Text) → text_eq (grant_key key c) g ≡ true → starts_with (grant_prefix key) g ≡ true
has_prefix key c g h =
    subst (λ x. starts_with (grant_prefix key) x ≡ true) ((text_eq_iff (grant_key key c) g).0 h)
      (starts_with-append (grant_prefix key) c)

purged :
    (key c : Text) (gs : List Text)
    → has_grant (grant_key key c) (filter (λ g. not (starts_with (grant_prefix key) g)) gs) ≡ false
unfolding has_grant
purged key c [] = refl
purged key c (g ∷ gs) = ground (arith, has_prefix key c g, purged key c gs)

-- A member that was removed is denied everything; it can be added again, and is then still denied
-- everything it was granted before.
pub remove_member-forgets :
    (session : Text) (i : MembershipInput) (c : Text) (s : Store)
    → succeeds (remove_member i s).0 ≡ true
    → (allows (authorize (request session i c) (remove_member i s).1) ≡ false)
      × (succeeds (add_member i (remove_member i s).1).0 ≡ true)
      × (allows (authorize (request session i c) (add_member i (remove_member i s).1).1) ≡ false)
unfolding remove_member add_member
remove_member-forgets session i c s h =
    let gone = purged (key_of i) c s.grants in
    let out = lookup-erase (key_of i) (key_of i) s.memberships in
    let gone_store = (remove_member i s).1 in
    let none_there : lookup (key_of i) (erase (key_of i) s.memberships) ≡ none =
      rw (out, text_eq_refl (key_of i)) in
    (
      ground (arith, none_there, authorize-allows (request session i c) gone_store),
      ground (arith, none_there),
      ground (
        arith,
        gone,
        none_there,
        authorize-allows (request session i c) (add_member i gone_store).1,
      ),
    )

has_grant-append :
    (j k : Text) (gs : List Text) → has_grant j (gs ++ (k ∷ [])) ≡ (has_grant j gs || text_eq j k)
unfolding has_grant
has_grant-append j k [] = ground arith
has_grant-append j k (g ∷ gs) = ground (arith, has_grant-append j k gs)

has_grant_same : (j k : Text) (gs : List Text) → j ≡ k → any (text_eq k) gs ≡ has_grant j gs
unfolding has_grant
has_grant_same j k gs e = ap (λ x. any (text_eq x) gs) (sym e)

has_grant-add :
    (j k : Text) (gs : List Text) → has_grant j (add_grant k gs) ≡ (text_eq j k || has_grant j gs)
unfolding add_grant
has_grant-add j k gs = elim (Bool-cases (text_eq j k)) [
  | inl same ↦
      let e = (text_eq_iff j k).0 same in
      ground (arith, has_grant-append j k gs, has_grant_same j k gs e)
  | inr other ↦ ground (arith, has_grant-append j k gs)
]

pub grant-store :
    (i : GrantInput) (s : Store)
    → succeeds (grant i s).0 ≡ true
    → (is_capability i.capability ≡ true)
      × (is_active (lookup (key_of (grantee i)) s.memberships) ≡ true)
      × ((grant i s).1.memberships ≡ s.memberships)
      × ((grant i s).1.grants ≡ add_grant (grant_key (key_of (grantee i)) i.capability) s.grants)
unfolding grant member
grant-store i s h = elim (Option-cases (lookup (key_of (grantee i)) s.memberships)) [
  | inl e ↦ absurd (ground (arith, e))
  | inr (m, e) ↦ ground (arith, e)
]

-- A capability that is granted is allowed from then on; a request under any other key is decided as
-- before.
pub grant-allows :
    (session : Text) (i : GrantInput) (j : AuthorizationInput) (s : Store)
    → succeeds (grant i s).0 ≡ true
    → text_eq
        (grant_key (membership_key j.principal.user_account_id j.tenant_id) j.capability)
        (grant_key (key_of (grantee i)) i.capability)
      ≡ false
    → (allows (authorize (request session (grantee i) i.capability) (grant i s).1) ≡ true)
      × (allows (authorize j (grant i s).1) ≡ allows (authorize j s))
grant-allows session i j s h n =
    let (c, a, m, g) = grant-store i s h in
    let k = grant_key (key_of (grantee i)) i.capability in
    let r = request session (grantee i) i.capability in
    let other = grant_key (membership_key j.principal.user_account_id j.tenant_id) j.capability in
    (
      ground (
        arith,
        c,
        a,
        m,
        g,
        has_grant-add k k s.grants,
        text_eq_refl k,
        authorize-allows r (grant i s).1,
      ),
      ground (
        arith,
        m,
        g,
        n,
        has_grant-add other k s.grants,
        authorize-allows j (grant i s).1,
        authorize-allows j s,
      ),
    )
