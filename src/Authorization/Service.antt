-- ===== src/Authorization/Service.antt =====
-- `makeAuthorizationTestLayer` of packages/authorization/src/service.ts, each operation as a function
-- of the two maps that returns its result and the maps after it.
use eclipse_erp.Base.{
  Bool, true, false, not, ◌||◌, Option, none, some, List, [], ◌∷◌, ◌++◌, if◌then◌else◌, any, filter,
}
use eclipse_erp.Base.Effect.{Result, ok, err}
use eclipse_erp.Text.{Text, text_eq, starts_with}
use eclipse_erp.Dict.{Dict, lookup, insert, erase, values, contains}
use eclipse_erp.Authorization.Capabilities.{is_capability}

pub data Status : Type 0 where
  active suspended : Status

pub record Membership : Type 0 where
  pub user_account_id : Text
  pub tenant_id : Text
  pub status : Status

pub record Principal : Type 0 where
  pub user_account_id : Text
  pub session_id : Text

pub record AuthorizationInput : Type 0 where
  pub principal : Principal
  pub tenant_id : Text
  pub capability : Text

pub record GrantInput : Type 0 where
  pub user_account_id : Text
  pub tenant_id : Text
  pub capability : Text

-- `TenantMembershipInput` and `AddTenantMembershipInput`
pub record MembershipInput : Type 0 where
  pub user_account_id : Text
  pub tenant_id : Text

-- `AuthorizationDecision`; `allowed` and `grant` are constants.
pub record Decision : Type 0 where
  pub tenant_id : Text
  pub capability : Text

pub data Failure : Type 0 where
  schema_error : Failure
  authorization_denied : (tenant_id capability : Text) → Failure
  capability_already_granted : (user_account_id tenant_id capability : Text) → Failure
  membership_already_exists : (user_account_id tenant_id : Text) → Failure
  membership_not_found : (user_account_id tenant_id : Text) → Failure
  membership_not_active : (user_account_id tenant_id : Text) → Failure

pub record Store : Type 0 where
  pub memberships : Dict Membership
  pub grants : List Text

-- `membershipKey`
unfoldable pub membership_key : Text → Text → Text
membership_key user tenant = user ++ (b':' ∷ tenant)

-- The prefix `${key}:` of the grants of a membership.
abbrev pub grant_prefix : Text → Text
grant_prefix key = key ++ (b':' ∷ [])

abbrev pub grant_key : Text → Text → Text
grant_key key capability = grant_prefix key ++ capability

abbrev pub is_active : Option Membership → Bool
is_active none = false
is_active (some m) = elim m.status [ active ↦ true | suspended ↦ false ]

-- `grants.has(key)` and `grants.add(key)`
unfoldable pub has_grant : Text → List Text → Bool
has_grant key gs = any (text_eq key) gs

unfoldable pub add_grant : Text → List Text → List Text
add_grant key gs = if any (text_eq key) gs then gs else gs ++ (key ∷ [])

-- The loop over `initialGrants`.
unfoldable pub with_initial_grants : List GrantInput → Store → Store
with_initial_grants [] s = s
with_initial_grants (g ∷ gs) s =
    let key = membership_key g.user_account_id g.tenant_id in
    with_initial_grants gs (record {
      memberships =
          insert key
            (record {
              user_account_id = g.user_account_id;
              tenant_id = g.tenant_id;
              status = active;
            })
            s.memberships;
      grants = add_grant (grant_key key g.capability) s.grants;
    })

unfoldable pub authorize : AuthorizationInput → Store → Result Failure Decision
authorize i s =
    let key = membership_key i.principal.user_account_id i.tenant_id in
    if not (is_capability i.capability)
    then err schema_error
    else if not (is_active (lookup key s.memberships))
        || not (has_grant (grant_key key i.capability) s.grants)
    then err (authorization_denied i.tenant_id i.capability)
    else ok (record { tenant_id = i.tenant_id; capability = i.capability })

-- `member(input)`
unfoldable pub member : MembershipInput → Store → Result Failure Membership
member i s = elim (lookup (membership_key i.user_account_id i.tenant_id) s.memberships) [
  | none ↦ err (membership_not_found i.user_account_id i.tenant_id)
  | some found ↦ ok found
]

unfoldable pub add_member : MembershipInput → Store → Result Failure Membership × Store
add_member i s =
    let key = membership_key i.user_account_id i.tenant_id in
    let created : Membership = record {
      user_account_id = i.user_account_id;
      tenant_id = i.tenant_id;
      status = active;
    } in
    if contains key s.memberships
    then (err (membership_already_exists i.user_account_id i.tenant_id), s)
    else (ok created, record s { memberships = insert key created s.memberships })

unfoldable pub list_members : Text → Store → List Membership
list_members tenant s =
    filter (λ (m : Membership). text_eq m.tenant_id tenant) (values s.memberships)

-- `suspendMember` and `activateMember` differ in the status they set.
unfoldable pub set_status : Status → MembershipInput → Store → Result Failure Membership × Store
set_status status i s = elim (member i s) [
  | err e ↦ (err e, s)
  | ok current ↦
      let updated : Membership = record current { status = status } in
      (
        ok updated,
        record s {
          memberships = insert (membership_key i.user_account_id i.tenant_id) updated s.memberships;
        },
      )
]

abbrev pub suspend_member : MembershipInput → Store → Result Failure Membership × Store
suspend_member i s = set_status suspended i s

abbrev pub activate_member : MembershipInput → Store → Result Failure Membership × Store
activate_member i s = set_status active i s

unfoldable pub remove_member : MembershipInput → Store → Result Failure (Unit {0}) × Store
remove_member i s =
    let key = membership_key i.user_account_id i.tenant_id in
    if not (contains key s.memberships)
    then (err (membership_not_found i.user_account_id i.tenant_id), s)
    else (
      ok tt,
      record {
        memberships = erase key s.memberships;
        grants = filter (λ g. not (starts_with (grant_prefix key) g)) s.grants;
      },
    )

-- The membership that a grant is for.
abbrev pub grantee : GrantInput → MembershipInput
grantee i = record { user_account_id = i.user_account_id; tenant_id = i.tenant_id }

unfoldable pub grant : GrantInput → Store → Result Failure (Unit {0}) × Store
grant i s =
    let key = grant_key (membership_key i.user_account_id i.tenant_id) i.capability in
    if not (is_capability i.capability)
    then (err schema_error, s)
    else elim (member (grantee i) s) [
      | err e ↦ (err e, s)
      | ok current ↦
          if not (is_active (some current))
          then (err (membership_not_active i.user_account_id i.tenant_id), s)
          else if has_grant key s.grants
          then (err (capability_already_granted i.user_account_id i.tenant_id i.capability), s)
          else (ok tt, record s { grants = add_grant key s.grants })
    ]
