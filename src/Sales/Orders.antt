-- ===== src/Sales/Orders.antt =====
-- The data of packages/sales/src/service.ts with the checks of its schemas, and the total of an order.
use eclipse_erp.Base.{
  ℕ, ◌+◌, ◌*◌, ◌/◌, ◌%◌, Bool, true, false, ◌&&◌, Option, none, some, List, [], ◌∷◌, ◌++◌, leb,
  length, all,
}
use eclipse_erp.Base.Effect.{Result, ok, err}
use eclipse_erp.Text.{Text, non_empty_string}
use eclipse_erp.Text.Decimal.{value, print, pad_start, is_digit}
use eclipse_erp.Kernel.Amount.{FailureReason, is_major_amount, require_exact_major_to_minor}
use eclipse_erp.Authorization.Service.{Principal}

pub record Customer : Type 0 where
  pub id : Text
  pub tenant_id : Text
  pub name : Text
  pub email : Text

pub data QuotationStatus : Type 0 where
  draft sent accepted rejected expired : QuotationStatus

pub record Quotation : Type 0 where
  pub id : Text
  pub tenant_id : Text
  pub customer_id : Text
  pub status : QuotationStatus
  pub total : Text

pub record OrderLine : Type 0 where
  pub item_id : Text
  pub quantity : Text
  pub unit_price : Text

pub data OrderStatus : Type 0 where
  draft confirmed cancelled : OrderStatus

pub record SalesOrder : Type 0 where
  pub id : Text
  pub tenant_id : Text
  pub customer_id : Text
  pub quotation_id : Option Text
  pub status : OrderStatus
  pub confirmed_at : Option Text
  pub total : Text
  pub lines : List OrderLine

pub record CreateCustomerInput : Type 0 where
  pub principal : Principal
  pub tenant_id : Text
  pub name : Text
  pub email : Text

pub record CreateQuotationInput : Type 0 where
  pub principal : Principal
  pub tenant_id : Text
  pub customer_id : Text
  pub total : Text

pub record CreateOrderInput : Type 0 where
  pub principal : Principal
  pub tenant_id : Text
  pub customer_id : Text
  pub quotation_id : Option Text
  pub lines : List OrderLine

pub record ConfirmOrderInput : Type 0 where
  pub principal : Principal
  pub tenant_id : Text
  pub order_id : Text
  pub command_id : Text
  pub correlation_id : Text
  pub causation_id : Option Text
  pub idempotency_key : Text

-- `CancelConfirmedOrderInput` and `GetConfirmedOrderTotalInput`
pub record OrderInput : Type 0 where
  pub principal : Principal
  pub tenant_id : Text
  pub order_id : Text

-- `Quantity`: `/^[1-9]\d*$/`
unfoldable pub is_quantity : Text → Bool
is_quantity [] = false
is_quantity (c ∷ s) = leb b'1' c && leb c b'9' && all is_digit s

unfoldable pub valid_order_line : OrderLine → Bool
valid_order_line l = is_quantity l.quantity && is_major_amount l.unit_price

-- `CreateOrderInput`, with `isMinLength(1)`
unfoldable pub valid_create_order : CreateOrderInput → Bool
valid_create_order i = leb 1 (length i.lines) && all valid_order_line i.lines

abbrev null_or_non_empty : Option Text → Bool
null_or_non_empty none = true
null_or_non_empty (some s) = non_empty_string s

unfoldable pub valid_confirm : ConfirmOrderInput → Bool
valid_confirm i =
    non_empty_string i.command_id
    && (non_empty_string i.correlation_id
        && (null_or_non_empty i.causation_id && non_empty_string i.idempotency_key))

-- `lines.reduce(...)` from the cents so far; the error is the `RangeError` of the conversion.
unfoldable pub add_cents : ℕ → List OrderLine → Result FailureReason ℕ
add_cents total [] = ok total
add_cents total (l ∷ ls) = elim (require_exact_major_to_minor l.unit_price 2) [
  | ok price ↦ add_cents (total + value l.quantity * price) ls
  | err reason ↦ err reason
]

-- `${cents / 100n}.${(cents % 100n).toString().padStart(2, "0")}`
unfoldable pub print_cents : ℕ → Text
print_cents cents = print (cents / 100) ++ (b'.' ∷ pad_start 2 (print (cents % 100)))

unfoldable pub derive_total : List OrderLine → Result FailureReason Text
derive_total lines = elim (add_cents 0 lines) [
  | ok cents ↦ ok (print_cents cents)
  | err reason ↦ err reason
]
