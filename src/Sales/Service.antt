-- ===== src/Sales/Service.antt =====
-- `makeSalesTestLayer` of packages/sales/src/service.ts. An operation is given the identifiers and the
-- time that it draws, and is a function of the maps of the service and of the two services it calls.
use eclipse_erp.Base.{ℕ, Bool, false, not, ◌&&◌, Option, none, some, if◌then◌else◌, any}
use eclipse_erp.Base.Effect.{Result, ok, err}
use eclipse_erp.Text.{Text, codes, text_eq, trim}
use eclipse_erp.Dict.{Dict, lookup, insert, values}
use eclipse_erp.Kernel.Amount.{FailureReason, is_major_amount}
use eclipse_erp.Authorization.Service.{Principal, Decision, authorize}
use eclipse_erp.Messaging.Events.{Platform, AppendEventInput}
use eclipse_erp.Messaging.Service.{append}
use eclipse_erp.Authorization.Service as Grants
use eclipse_erp.Messaging.Service as Outbox
use eclipse_erp.Sales.Orders.{
  Customer, Quotation, QuotationStatus, SalesOrder, OrderStatus, confirmed, cancelled,
  CreateCustomerInput, CreateQuotationInput, CreateOrderInput, ConfirmOrderInput, OrderInput,
  valid_create_order, valid_confirm, derive_total,
}

-- The platform of messaging, the lower case of a text, and the JSON value of the event's payload.
pub record Environment (Json : Type 0) : Type 0 where
  pub platform : Platform Json
  pub lower : Text → Text
  pub payload : (order_id total : Text) → Json

pub record World (Json : Type 0) : Type 0 where
  pub authorization : Grants.Store
  pub messaging : Outbox.Store Json
  pub customers : Dict Customer
  pub quotations : Dict Quotation
  pub orders : Dict SalesOrder
  pub confirmation_keys : Dict Text

pub data Failure : Type 0 where
  schema_error : Failure
  not_authorized : Grants.Failure → Failure
  customer_already_exists : (tenant_id email : Text) → Failure
  customer_not_found : (tenant_id customer_id : Text) → Failure
  quotation_not_found : (tenant_id quotation_id : Text) → Failure
  order_not_found : (tenant_id order_id : Text) → Failure
  invalid_state : (tenant_id order_id : Text) → OrderStatus → Failure
  confirmation_conflict : (tenant_id order_id idempotency_key : Text) → Failure
  not_appended : Outbox.Failure → Failure
  range_error : FailureReason → Failure

-- `storedCustomers.get(id)?.tenantId === tenantId`, and the same for the other maps.
unfoldable pub customer_of : Text → Option Customer → Bool
customer_of tenant none = false
customer_of tenant (some c) = text_eq c.tenant_id tenant

unfoldable pub quotation_of : Text → Option Quotation → Bool
quotation_of tenant none = false
quotation_of tenant (some q) = text_eq q.tenant_id tenant

-- The order that an input names, where it is its tenant's.
abbrev order_of : Text → Option SalesOrder → Option SalesOrder
order_of tenant none = none
order_of tenant (some o) = if text_eq o.tenant_id tenant then some o else none

abbrev pub found_order : {Json : Type 0} → Text → Text → World Json → Option SalesOrder
found_order tenant id w = order_of tenant (lookup id w.orders)

-- `decoded.quotationId !== undefined && ...` fails
unfoldable pub quotation_missing : Text → Option Text → Dict Quotation → Option Text
unfolding quotation_of
quotation_missing tenant none qs = none
quotation_missing tenant (some id) qs = if quotation_of tenant (lookup id qs) then none else some id

-- `confirmationKeys.get(order.id) === decoded.idempotencyKey`
unfoldable pub same_key : Text → Option Text → Bool
same_key key none = false
same_key key (some k) = text_eq k key

abbrev total_of_found : OrderInput → SalesOrder → Result Failure Text
total_of_found i order = elim order.status [
  | OrderStatus.confirmed ↦ elim order.confirmed_at [
    | none ↦ err (invalid_state i.tenant_id i.order_id order.status)
    | some at ↦ ok order.total
  ]
  | _ ↦ err (invalid_state i.tenant_id i.order_id order.status)
]

-- The order that is created.
abbrev pub new_order : CreateOrderInput → (id total : Text) → SalesOrder
new_order i id total = record {
  id = id;
  tenant_id = i.tenant_id;
  customer_id = i.customer_id;
  quotation_id = i.quotation_id;
  status = OrderStatus.draft;
  confirmed_at = none;
  total = total;
  lines = i.lines;
}

module _ {Json : Type 0} where
  -- `authorization.authorize(...)`
  unfoldable pub permit : Principal → Text → Text → World Json → Result Failure Decision
  permit principal tenant capability w =
      elim (authorize
        (record { principal = principal; tenant_id = tenant; capability = capability })
        w.authorization) [ ok d ↦ ok d | err e ↦ err (not_authorized e) ]

  unfoldable pub create_customer :
      Environment Json
      → CreateCustomerInput
      → (id : Text) → World Json
      → Result Failure Customer × World Json
  create_customer v i id w =
      let email = v.lower (trim i.email) in
      let customer : Customer = record {
        id = id;
        tenant_id = i.tenant_id;
        name = trim i.name;
        email = email;
      } in
      elim (permit i.principal i.tenant_id (codes "sales.customer.create") w) [
        | err e ↦ (err e, w)
        | ok d ↦
            if any (λ (c : Customer). text_eq c.tenant_id i.tenant_id && text_eq c.email email)
              (values w.customers)
            then (err (customer_already_exists i.tenant_id email), w)
            else (ok customer, record w { customers = insert id customer w.customers })
      ]

  -- `Money` is the check of the total.
  unfoldable pub create_quotation :
      CreateQuotationInput → (id : Text) → World Json → Result Failure Quotation × World Json
  create_quotation i id w =
      let quotation : Quotation = record {
        id = id;
        tenant_id = i.tenant_id;
        customer_id = i.customer_id;
        status = QuotationStatus.draft;
        total = i.total;
      } in
      if not (is_major_amount i.total)
      then (err schema_error, w)
      else elim (permit i.principal i.tenant_id (codes "sales.quotation.create") w) [
        | err e ↦ (err e, w)
        | ok d ↦
            if not (customer_of i.tenant_id (lookup i.customer_id w.customers))
            then (err (customer_not_found i.tenant_id i.customer_id), w)
            else (ok quotation, record w { quotations = insert id quotation w.quotations })
      ]

  -- The order with its total; the conversion's `RangeError` is a defect.
  unfoldable pub store_order :
      CreateOrderInput → (id : Text) → World Json → Result Failure SalesOrder × World Json
  store_order i id w = elim (derive_total i.lines) [
    | err reason ↦ (err (range_error reason), w)
    | ok total ↦
        (ok (new_order i id total), record w { orders = insert id (new_order i id total) w.orders })
  ]

  unfoldable pub create_order :
      CreateOrderInput → (id : Text) → World Json → Result Failure SalesOrder × World Json
  create_order i id w =
      if not (valid_create_order i)
      then (err schema_error, w)
      else elim (permit i.principal i.tenant_id (codes "sales.order.create") w) [
        | err e ↦ (err e, w)
        | ok d ↦
            if not (customer_of i.tenant_id (lookup i.customer_id w.customers))
            then (err (customer_not_found i.tenant_id i.customer_id), w)
            else elim (quotation_missing i.tenant_id i.quotation_id w.quotations) [
              | some quotation ↦ (err (quotation_not_found i.tenant_id quotation), w)
              | none ↦ store_order i id w
            ]
      ]

  -- The event of a confirmation.
  unfoldable pub confirmation_event :
      Environment Json
      → ConfirmOrderInput
      → SalesOrder
      → (event_id at : Text) → AppendEventInput Json
  confirmation_event v i order event_id at = record {
    event_id = event_id;
    event_type = codes "sales.order.confirmed";
    event_version = 1;
    tenant_id = i.tenant_id;
    aggregate_type = codes "sales_order";
    aggregate_id = order.id;
    command_id = i.command_id;
    correlation_id = i.correlation_id;
    causation_id = i.causation_id;
    idempotency_key = i.idempotency_key;
    actor_principal_id = i.principal.user_account_id;
    occurred_at = at;
    payload = v.payload order.id order.total;
  }

  -- A draft is confirmed: its payload is checked, its event appended, then it is stored.
  unfoldable pub confirm_draft :
      Environment Json
      → ConfirmOrderInput
      → SalesOrder
      → (event_id : Text) → (now : ℕ) → World Json
      → Result Failure SalesOrder × World Json
  confirm_draft v i order event_id now w =
      let at = v.platform.iso_string now in
      let done : SalesOrder = record order { status = confirmed; confirmed_at = some at } in
      let (answer, messaging) =
        append v.platform (confirmation_event v i order event_id at) w.messaging in
      if not (v.platform.is_uuid order.id && is_major_amount order.total)
      then (err schema_error, w)
      else elim answer [
        | err e ↦ (err (not_appended e), record w { messaging = messaging })
        | ok event ↦ (
          ok done,
          record w {
            messaging = messaging;
            orders = insert order.id done w.orders;
            confirmation_keys = insert order.id i.idempotency_key w.confirmation_keys;
          },
        )
      ]

  unfoldable pub confirm_found :
      Environment Json
      → ConfirmOrderInput
      → SalesOrder
      → (event_id : Text) → (now : ℕ) → World Json
      → Result Failure SalesOrder × World Json
  confirm_found v i order event_id now w = elim order.status [
    | OrderStatus.draft ↦ confirm_draft v i order event_id now w
    | OrderStatus.confirmed ↦
        if same_key i.idempotency_key (lookup order.id w.confirmation_keys)
        then (ok order, w)
        else (err (confirmation_conflict i.tenant_id i.order_id i.idempotency_key), w)
    | OrderStatus.cancelled ↦ (err (invalid_state i.tenant_id i.order_id OrderStatus.cancelled), w)
  ]

  unfoldable pub confirm_order :
      Environment Json
      → ConfirmOrderInput
      → (event_id : Text) → (now : ℕ) → World Json
      → Result Failure SalesOrder × World Json
  confirm_order v i event_id now w =
      if not (valid_confirm i)
      then (err schema_error, w)
      else elim (permit i.principal i.tenant_id (codes "sales.order.confirm") w) [
        | err e ↦ (err e, w)
        | ok d ↦ elim (found_order i.tenant_id i.order_id w) [
          | none ↦ (err (order_not_found i.tenant_id i.order_id), w)
          | some order ↦ confirm_found v i order event_id now w
        ]
      ]

  unfoldable pub get_confirmed_order_total : OrderInput → World Json → Result Failure Text
  get_confirmed_order_total i w =
      elim (permit i.principal i.tenant_id (codes "sales.order.read") w) [
        | err e ↦ err e
        | ok d ↦ elim (found_order i.tenant_id i.order_id w) [
          | none ↦ err (order_not_found i.tenant_id i.order_id)
          | some order ↦ total_of_found i order
        ]
      ]

  unfoldable pub cancel_found :
      OrderInput → SalesOrder → World Json → Result Failure SalesOrder × World Json
  cancel_found i order w =
      let done : SalesOrder = record order { status = cancelled } in
      elim order.status [
        | OrderStatus.cancelled ↦ (ok order, w)
        | OrderStatus.draft ↦ (err (invalid_state i.tenant_id i.order_id OrderStatus.draft), w)
        | OrderStatus.confirmed ↦ (ok done, record w { orders = insert order.id done w.orders })
      ]

  unfoldable pub cancel_confirmed_order :
      OrderInput → World Json → Result Failure SalesOrder × World Json
  cancel_confirmed_order i w =
      elim (permit i.principal i.tenant_id (codes "sales.order.cancel") w) [
        | err e ↦ (err e, w)
        | ok d ↦ elim (found_order i.tenant_id i.order_id w) [
          | none ↦ (err (order_not_found i.tenant_id i.order_id), w)
          | some order ↦ cancel_found i order w
        ]
      ]
