-- ===== src/Tests/Sales.antt =====
-- An order of three items at 12.50, and one whose total is too long to be confirmed.
use eclipse_erp.Base.{◌^◌, ◌≤◌, ℕ, ◌≤◌, ◌≡◌, refl, true, false, none, [], ◌∷◌, arith, length, all}
use eclipse_erp.Base.Effect.{ok}
use eclipse_erp.Text.{Text, codes, text_eq, non_empty_string, trim}
use eclipse_erp.Text.Decimal.{value, print, pad_start, strip_zeros, pad_end}
use eclipse_erp.Dict.{lookup, insert, values}
use eclipse_erp.Kernel.Amount.{
  span_digits, decimal_match, is_major_amount, scale_match, major_to_minor,
  require_exact_major_to_minor, ledger_max_minor,
}
use eclipse_erp.Ledger.Port.{positive_integer}
use eclipse_erp.Authorization.Capabilities.{is_capability, capability_ids}
use eclipse_erp.Authorization.Service.{
  Principal, membership_key, has_grant, add_grant, authorize, with_initial_grants, GrantInput,
}
use eclipse_erp.Messaging.Events.{
  after_template, is_zone, is_fraction_zone, iso_timestamp, instant_string, valid_append,
  envelope_matches,
}
use eclipse_erp.Messaging.Service.{event_key, dedupe_key, event_by_dedupe, same_object, append}
use eclipse_erp.Sales.Orders.{
  SalesOrder, CreateCustomerInput, CreateOrderInput, ConfirmOrderInput, OrderInput, is_quantity,
  valid_order_line, valid_create_order, valid_confirm, add_cents, print_cents, derive_total,
}
use eclipse_erp.Sales.Service.{
  Environment, World, permit, customer_of, quotation_missing, create_customer, create_order,
  store_order, new_order, confirmation_event, confirm_draft, same_key, confirm_found, confirm_order,
  cancel_found, cancel_confirmed_order, get_confirmed_order_total,
}
use eclipse_erp.Sales.Total.{order_cents, line_cents, derive_total-exact}
use eclipse_erp.Sales.Lifecycle.{succeeds, IsOrderly}
use eclipse_erp.Sales.Confirm.{confirm_order-again}
use eclipse_erp.Sales.Oversized.{confirm_order-oversized}
use eclipse_erp.Sales.Advance.{advances, operations-advance}
use eclipse_erp.Tests.Messaging.{platform}

abbrev environment : Environment ℕ
environment = record {
  platform = record platform { iso_string = λ n. codes "2026-01-02T03:04:05.678Z" };
  lower = λ s. s;
  payload = λ id total. length total;
}

abbrev ann : Principal
ann = record { user_account_id = codes "ann"; session_id = codes "s" }

abbrev may : Text → GrantInput
may capability = record {
  user_account_id = codes "ann";
  tenant_id = codes "t";
  capability = capability;
}

abbrev shop : World ℕ
shop = record {
  authorization =
      with_initial_grants
        (may (codes "sales.customer.create")
          ∷ (may (codes "sales.order.create")
              ∷ (may (codes "sales.order.confirm")
                  ∷ (may (codes "sales.order.cancel") ∷ (may (codes "sales.order.read") ∷ [])))))
        (record { memberships = []; grants = [] });
  messaging = record { events = []; event_ids = []; receipts = []; clock = 0 };
  customers = [];
  quotations = [];
  orders = [];
  confirmation_keys = [];
}

abbrev customer : CreateCustomerInput
customer = record {
  principal = ann;
  tenant_id = codes "t";
  name = codes " Bob ";
  email = codes "b@x";
}

abbrev opened : World ℕ
opened = (create_customer environment customer (codes "c1") shop).1

abbrev order : Text → Text → CreateOrderInput
order quantity price = record {
  principal = ann;
  tenant_id = codes "t";
  customer_id = codes "c1";
  quotation_id = none;
  lines = record { item_id = codes "i"; quantity = quantity; unit_price = price } ∷ [];
}

abbrev ordered : World ℕ
ordered = (create_order (order (codes "3") (codes "12.5")) (codes "o1") opened).1

abbrev confirmation : ConfirmOrderInput
confirmation = record {
  principal = ann;
  tenant_id = codes "t";
  order_id = codes "o1";
  command_id = codes "cmd";
  correlation_id = codes "x";
  causation_id = none;
  idempotency_key = codes "k";
}

abbrev done : World ℕ
done = (confirm_order environment confirmation (codes "e1") 5 ordered).1

abbrev cancellation : OrderInput
cancellation = record { principal = ann; tenant_id = codes "t"; order_id = codes "o1" }

running : ℕ
unfolding with_initial_grants create_customer create_order store_order confirm_order confirm_found
    confirm_draft confirmation_event same_key cancel_found cancel_confirmed_order
    get_confirmed_order_total permit customer_of quotation_missing derive_total add_cents
    print_cents valid_create_order valid_order_line valid_confirm is_quantity
    require_exact_major_to_minor major_to_minor scale_match decimal_match span_digits
    is_major_amount strip_zeros pad_end pad_start value print authorize is_capability capability_ids
    membership_key has_grant add_grant append valid_append instant_string iso_timestamp
    is_fraction_zone is_zone after_template non_empty_string positive_integer event_key dedupe_key
    event_by_dedupe same_object envelope_matches lookup insert values text_eq trim
running = 0

total_test : get_confirmed_order_total cancellation done ≡ ok (codes "37.50")
unfolding running
total_test = refl

cancel_test : succeeds (cancel_confirmed_order cancellation ordered).0 ≡ false
unfolding running
cancel_test = refl

valid_lines : all valid_order_line (order (codes "3") (codes "12.5")).lines ≡ true
unfolding running
valid_lines = refl

small : order_cents (order (codes "3") (codes "12.5")).lines ≤ ledger_max_minor
unfolding running order_cents line_cents
small = omega arith

derive_total-exact_example :
    (derive_total (order (codes "3") (codes "12.5")).lines
      ≡ ok (print_cents (order_cents (order (codes "3") (codes "12.5")).lines)))
    × (major_to_minor (print_cents (order_cents (order (codes "3") (codes "12.5")).lines)) 2
        ≡ ok (print (order_cents (order (codes "3") (codes "12.5")).lines)))
derive_total-exact_example =
    derive_total-exact (order (codes "3") (codes "12.5")).lines valid_lines small

ordered-IsOrderly : IsOrderly ordered
unfolding running
ordered-IsOrderly = refl

free : lookup (codes "o2") ordered.orders ≡ none
unfolding running
free = refl

operations-advance_example :
    (advances (lookup (codes "o1") ordered.orders) (
        lookup
          (codes "o1")
          (create_order (order (codes "1") (codes "2")) (codes "o2") ordered).1.orders)
      ≡ true)
    × (advances (lookup (codes "o1") ordered.orders) (
          lookup
            (codes "o1")
            (confirm_order environment confirmation (codes "e1") 5 ordered).1.orders)
        ≡ true)
    × (advances
          (lookup (codes "o1") ordered.orders)
          (lookup (codes "o1") (cancel_confirmed_order cancellation ordered).1.orders)
        ≡ true)
operations-advance_example =
    operations-advance ordered (codes "o1") (order (codes "1") (codes "2")) (codes "o2") environment
      confirmation (codes "e1") 5 cancellation ordered-IsOrderly free

confirms : succeeds (confirm_order environment confirmation (codes "e1") 5 ordered).0 ≡ true
unfolding running
confirms = refl

confirm_order-again_example :
    confirm_order environment confirmation (codes "e2") 6 done
    ≡ confirm_order environment confirmation (codes "e1") 5 ordered
confirm_order-again_example =
    confirm_order-again environment confirmation (codes "e1") (codes "e2") 5 6 ordered
      ordered-IsOrderly confirms

-- The program accepts this order; its total has 19 digits before the point.
abbrev large : World ℕ
large = (create_order (order (codes "1000000000000000000") (codes "1.00")) (codes "o1") opened).1

abbrev large_order : SalesOrder
large_order =
    new_order (order (codes "1000000000000000000") (codes "1.00")) (codes "o1")
      (codes "1000000000000000000.00")

large_created :
    create_order (order (codes "1000000000000000000") (codes "1.00")) (codes "o1") opened
    ≡ (ok large_order, large)
unfolding running
large_created = refl

large_cents : 10 ^ 20 ≤ order_cents (order (codes "1000000000000000000") (codes "1.00")).lines
unfolding running order_cents line_cents
large_cents = omega arith

confirm_order-oversized_example :
    (succeeds (confirm_order environment confirmation (codes "e1") 5 large).0 ≡ false)
    × ((confirm_order environment confirmation (codes "e1") 5 large).1 ≡ large)
confirm_order-oversized_example =
    confirm_order-oversized environment (order (codes "1000000000000000000") (codes "1.00"))
      (codes "o1") large_order opened large large_created large_cents confirmation (codes "e1") 5
      refl refl
