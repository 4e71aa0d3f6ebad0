-- ===== src/Accounting/Setup.antt =====
-- `makeAccountingTestLayer` of packages/accounting/src/service.ts: legal entities, accounts, posting
-- profiles, periods and the first steps of the change of the financial engine.
use eclipse_erp.Base.{
  Bool, true, false, not, ◌&&◌, ◌||◌, Option, none, some, ◌∷◌, ◌++◌, any, if◌then◌else◌,
}
use eclipse_erp.Base.Effect.{Result, ok, err}
use eclipse_erp.Text.{Text, codes, text_eq, trim, to_upper}
use eclipse_erp.Text.Order.{text_le}
use eclipse_erp.Dict.{Dict, lookup, insert, values, contains}
use eclipse_erp.Authorization.Service.{Principal, Decision, authorize}
use eclipse_erp.Accounting.Data.{
  AccountType, asset, revenue, Account, postgresql, tigerbeetle, Configuration, Period, is_open,
  is_closed, Profile, on_postgresql, preparing, on_tigerbeetle, Control, CutoverInput,
  ConfigureInput, CreateAccountInput, ProfileInput, OpenPeriodInput, ClosePeriodInput, World,
  Failure, schema_error, not_authorized, cutover_blocked, activation_gates_pending,
  ledger_not_configured, engine_activated, legal_entity_not_found, configuration_already_exists,
  account_already_exists, account_not_found, invalid_profile, profile_already_exists,
  period_overlap, period_not_found, valid_configure, valid_open_period, valid_profile,
}

abbrev pub colon : Text → Text → Text
colon a b = a ++ (b':' ∷ b)

abbrev pub is_asset : AccountType → Bool
is_asset asset = true
is_asset _ = false

abbrev pub is_revenue : AccountType → Bool
is_revenue revenue = true
is_revenue _ = false

-- `storedAccounts.get(id)?.tenantId === tenantId`
unfoldable pub own_account : Text → Option Account → Option Account
own_account tenant none = none
own_account tenant (some a) = if text_eq a.tenant_id tenant then some a else none

abbrev pub new_control : (tenant_id legal_entity_id : Text) → Control
new_control tenant entity = record {
  tenant_id = tenant;
  legal_entity_id = entity;
  status = on_postgresql;
  cutover_watermark = none;
  verification_hash = none;
  opening_balance_verified = false;
  historical_boundary_verified = false;
  reconciliation_healthy = false;
  backup_recovery_verified = false;
  evidence_artifact_id = none;
  unresolved_accepted_operations = 0;
  approved_by = none;
  approved_at = none;
  activated_by = none;
  activated_at = none;
  last_error = none;
}

-- `testControl`: the control, made where there is none.
unfoldable pub test_control :
    (tenant_id legal_entity_id : Text) → Dict Control → Control × Dict Control
test_control tenant entity m = elim (lookup (colon tenant entity) m) [
  | some control ↦ (control, m)
  | none ↦ (new_control tenant entity, insert (colon tenant entity) (new_control tenant entity) m)
]

-- A period of the same legal entity that has a day in common with the given days.
unfoldable pub overlaps_days : (tenant entity starts_on ends_on : Text) → Period → Bool
overlaps_days tenant entity starts_on ends_on p =
    text_eq p.tenant_id tenant
    && (text_eq p.legal_entity_id entity
        && (text_le p.starts_on ends_on && text_le starts_on p.ends_on))

-- The period that an input names, where it is its tenant's and its legal entity's.
unfoldable pub own_period : (tenant entity : Text) → Option Period → Option Period
own_period tenant entity none = none
own_period tenant entity (some p) =
    if text_eq p.tenant_id tenant && text_eq p.legal_entity_id entity then some p else none

module _ {Json : Type 0} where
  unfoldable pub permit : Principal → Text → Text → World Json → Result Failure Decision
  permit principal tenant capability w =
      elim (authorize
        (record { principal = principal; tenant_id = tenant; capability = capability })
        w.sales.authorization) [ ok d ↦ ok d | err e ↦ err (not_authorized e) ]

  -- From the authorization on.
  unfoldable pub store_configuration :
      ConfigureInput → World Json → Result Failure Configuration × World Json
  store_configuration i w =
      let key = colon i.tenant_id i.legal_entity_id in
      let made : Configuration = record {
        tenant_id = i.tenant_id;
        legal_entity_id = i.legal_entity_id;
        base_currency = to_upper i.base_currency;
        fiscal_year_start_month = i.fiscal_year_start_month;
        posting_enabled = i.posting_enabled;
        financial_engine = postgresql;
      } in
      if contains key w.configurations
      then (err (configuration_already_exists i.tenant_id i.legal_entity_id), w)
      else (
        ok made,
        record w {
          configurations = insert key made w.configurations;
          controls = (test_control i.tenant_id i.legal_entity_id w.controls).1;
        },
      )

  -- An input without an engine asks for PostgreSQL.
  unfoldable pub configure_legal_entity :
      ConfigureInput → World Json → Result Failure Configuration × World Json
  configure_legal_entity i w =
      if not (valid_configure i)
      then (err schema_error, w)
      else elim (permit i.principal i.tenant_id (codes "accounting.legal_entity.configure") w) [
        | err e ↦ (err e, w)
        | ok d ↦ elim i.financial_engine [
          | some tigerbeetle ↦
              (err (cutover_blocked i.tenant_id i.legal_entity_id activation_gates_pending), w)
          | some postgresql ↦ store_configuration i w
          | none ↦ store_configuration i w
        ]
      ]

  unfoldable pub prepare_cutover :
      (is_uuid : Text → Bool) → CutoverInput → World Json → Result Failure Control × World Json
  prepare_cutover is_uuid i w =
      let key = colon i.tenant_id i.legal_entity_id in
      let (current, controls) = test_control i.tenant_id i.legal_entity_id w.controls in
      let prepared : Control = record current { status = preparing } in
      if not (is_uuid i.legal_entity_id)
      then (err schema_error, w)
      else elim (permit i.principal i.tenant_id (codes "accounting.financial_engine.activate") w) [
        | err e ↦ (err e, w)
        | ok d ↦
            if not (contains key w.configurations)
            then (err (legal_entity_not_found i.tenant_id i.legal_entity_id), w)
            else elim current.status [
              | on_tigerbeetle ↦ (
                err (engine_activated i.tenant_id i.legal_entity_id),
                record w { controls = controls },
              )
              | on_postgresql ↦ (ok prepared, record w { controls = insert key prepared controls })
              | _ ↦ (ok current, record w { controls = controls })
            ]
      ]

  unfoldable pub activate_cutover :
      (is_uuid : Text → Bool) → CutoverInput → World Json → Result Failure Control × World Json
  activate_cutover is_uuid i w =
      let blocked = err (cutover_blocked i.tenant_id i.legal_entity_id ledger_not_configured) in
      if not (is_uuid i.legal_entity_id)
      then (err schema_error, w)
      else elim (permit i.principal i.tenant_id (codes "accounting.financial_engine.activate") w) [
        | err e ↦ (err e, w)
        | ok d ↦ elim (lookup (colon i.tenant_id i.legal_entity_id) w.controls) [
          | none ↦ (blocked, w)
          | some current ↦ elim current.status [
            | on_tigerbeetle ↦ (ok current, w)
            | _ ↦ (blocked, w)
          ]
        ]
      ]

  -- The upper case of a text is a parameter.
  unfoldable pub create_account :
      (upper : Text → Text)
      → CreateAccountInput
      → (id : Text) → World Json
      → Result Failure Account × World Json
  create_account upper i id w =
      let code = upper (trim i.code) in
      let made : Account = record {
        id = id;
        tenant_id = i.tenant_id;
        code = code;
        name = trim i.name;
        type = i.type;
      } in
      elim (permit i.principal i.tenant_id (codes "accounting.account.create") w) [
        | err e ↦ (err e, w)
        | ok d ↦
            if any (λ (a : Account). text_eq a.tenant_id i.tenant_id && text_eq a.code code)
              (values w.accounts)
            then (err (account_already_exists i.tenant_id code), w)
            else (ok made, record w { accounts = insert id made w.accounts })
      ]

  -- From the two accounts on.
  unfoldable pub store_profile :
      ProfileInput
      → (receivable revenue : Account) → World Json
      → Result Failure Profile × World Json
  store_profile i receivable income w =
      let key = colon i.tenant_id i.legal_entity_id in
      let made : Profile = record {
        tenant_id = i.tenant_id;
        legal_entity_id = i.legal_entity_id;
        receivable_account_id = i.receivable_account_id;
        revenue_account_id = i.revenue_account_id;
      } in
      if not (is_asset receivable.type) || not (is_revenue income.type)
      then (err (invalid_profile i.tenant_id i.legal_entity_id), w)
      else if contains key w.profiles
      then (err (profile_already_exists i.tenant_id i.legal_entity_id), w)
      else (ok made, record w { profiles = insert key made w.profiles })

  unfoldable pub configure_revenue_posting :
      ProfileInput → World Json → Result Failure Profile × World Json
  configure_revenue_posting i w =
      if not (valid_profile i)
      then (err schema_error, w)
      else elim (permit i.principal i.tenant_id (codes "accounting.revenue.configure") w) [
        | err e ↦ (err e, w)
        | ok d ↦ elim (own_account i.tenant_id (lookup i.receivable_account_id w.accounts)) [
          | none ↦ (err (account_not_found i.tenant_id), w)
          | some receivable ↦
              elim (own_account i.tenant_id (lookup i.revenue_account_id w.accounts)) [
                | none ↦ (err (account_not_found i.tenant_id), w)
                | some income ↦ store_profile i receivable income w
              ]
        ]
      ]

  unfoldable pub open_period :
      OpenPeriodInput → (id : Text) → World Json → Result Failure Period × World Json
  open_period i id w =
      let made : Period = record {
        id = id;
        tenant_id = i.tenant_id;
        legal_entity_id = i.legal_entity_id;
        starts_on = i.starts_on;
        ends_on = i.ends_on;
        status = is_open;
      } in
      if not (valid_open_period i)
      then (err schema_error, w)
      else elim (permit i.principal i.tenant_id (codes "accounting.period.open") w) [
        | err e ↦ (err e, w)
        | ok d ↦
            if any (overlaps_days i.tenant_id i.legal_entity_id i.starts_on i.ends_on)
              (values w.periods)
            then (err (period_overlap i.tenant_id i.legal_entity_id), w)
            else (ok made, record w { periods = insert id made w.periods })
      ]

  unfoldable pub close_period : ClosePeriodInput → World Json → Result Failure Period × World Json
  close_period i w = elim (permit i.principal i.tenant_id (codes "accounting.period.close") w) [
    | err e ↦ (err e, w)
    | ok d ↦ elim (own_period i.tenant_id i.legal_entity_id (lookup i.period_id w.periods)) [
      | none ↦ (err (period_not_found i.tenant_id i.legal_entity_id i.period_id), w)
      | some p ↦
          let closed : Period = record p { status = is_closed } in
          (ok closed, record w { periods = insert p.id closed w.periods })
    ]
  ]
