-- ===== src/Tests/Corrections.antt =====
-- A stock of five of which two are reserved, and corrections of it.
use eclipse_erp.Base.{ℕ, ◌≡◌, refl, none, some, [], ◌∷◌, length}
use eclipse_erp.Base.Effect.{ok, err}
use eclipse_erp.Text.{Text, codes, text_eq, non_empty_string, trim, to_upper}
use eclipse_erp.Text.Decimal.{value, print}
use eclipse_erp.Dict.{lookup, insert, total}
use eclipse_erp.Kernel.Amount.{span_digits}
use eclipse_erp.Ledger.Port.{positive_integer}
use eclipse_erp.Authorization.Capabilities.{is_capability, capability_ids}
use eclipse_erp.Authorization.Service.{
  Principal, membership_key, has_grant, add_grant, authorize, with_initial_grants, GrantInput,
}
use eclipse_erp.Messaging.Events.{
  after_template, is_zone, is_fraction_zone, iso_timestamp, instant_string, valid_append,
  envelope_matches,
}
use eclipse_erp.Messaging.Service.{event_key, dedupe_key, event_by_dedupe, same_object, append}
use eclipse_erp.Sales.Orders.{is_quantity}
use eclipse_erp.Inventory.Data.{AdjustStockInput, stock_unavailable}
use eclipse_erp.Inventory.Service.{stock_key, permit, own_warehouse, own_item}
use eclipse_erp.Inventory.Corrections.{
  Store, Environment, is_signed, adds, takes, valid_adjust, same_correction, new_correction,
  correction_event, store_correction, correct_balance, correct_new, adjust_stock,
}
use eclipse_erp.Inventory.Corrections.Once.{adjust_stock-again, adjust_stock-IsStocked}
use eclipse_erp.Inventory.Reserved.{IsStocked}
use eclipse_erp.Tests.Messaging.{platform}

abbrev environment : Environment ℕ
environment = record {
  platform = record platform { iso_string = λ n. codes "2026-01-02T03:04:05.678Z" };
  upper = to_upper;
  payload = λ c w i. length c;
}

abbrev ann : Principal
ann = record { user_account_id = codes "ann"; session_id = codes "s" }

abbrev adjuster : GrantInput
adjuster = record {
  user_account_id = codes "ann";
  tenant_id = codes "t";
  capability = codes "inventory.stock.adjust";
}

abbrev store : Store ℕ
store = record {
  stock = record {
    authorization = with_initial_grants (adjuster ∷ []) (record { memberships = []; grants = [] });
    warehouses =
        (
          codes "w",
          record {
            id = codes "w";
            tenant_id = codes "t";
            legal_entity_id = codes "le";
            primary_branch_id = none;
            name = codes "Main";
          },
        )
        ∷ [];
    items =
        (
          codes "i",
          record {
            id = codes "i";
            tenant_id = codes "t";
            sku = codes "A";
            name = codes "A";
            unit_of_measure = codes "EA";
          },
        )
        ∷ [];
    balances = (codes "t:w:i", record { on_hand = 5; reserved = 2 }) ∷ [];
    reservations = [];
    reservation_ids = [];
    transfers = [];
  };
  messaging = record { events = []; event_ids = []; receipts = []; clock = 0 };
  corrections = [];
}

abbrev correction : Text → AdjustStockInput
correction adjustment = record {
  principal = ann;
  tenant_id = codes "t";
  warehouse_id = codes "w";
  item_id = codes "i";
  adjustment = adjustment;
  unit_of_measure = codes " ea ";
  reason = codes "counted";
  command_id = codes "c";
  correlation_id = codes "x";
  causation_id = none;
  idempotency_key = codes "k1";
}

abbrev corrected : Store ℕ
corrected = (adjust_stock environment (correction (codes "-3")) (codes "c1") (codes "e1") 5 store).1

running : ℕ
unfolding with_initial_grants authorize is_capability capability_ids membership_key has_grant
    add_grant append valid_append instant_string iso_timestamp is_fraction_zone is_zone
    after_template span_digits non_empty_string positive_integer event_key dedupe_key
    event_by_dedupe same_object envelope_matches lookup insert text_eq trim to_upper value print
    is_quantity stock_key permit own_warehouse own_item is_signed adds takes valid_adjust
    same_correction correction_event store_correction correct_balance correct_new adjust_stock
running = 0

balance_test :
    lookup (codes "t:w:i") corrected.stock.balances ≡ some (record { on_hand = 2; reserved = 2 })
unfolding running
balance_test = refl

-- One more would take what is reserved.
short_test :
    adjust_stock environment (correction (codes "-4")) (codes "c1") (codes "e1") 5 store
    ≡ (err (stock_unavailable (codes "t") (codes "w") (codes "i") (codes "-4")), store)
unfolding running
short_test = refl

correction_test :
    adjust_stock environment (correction (codes "-3")) (codes "c1") (codes "e1") 5 store
    ≡ (ok (new_correction environment (correction (codes "-3")) (codes "c1")), corrected)
unfolding running
correction_test = refl

adjust_stock-again_example :
    adjust_stock environment (correction (codes "-3")) (codes "c2") (codes "e2") 9 corrected
    ≡ (ok (new_correction environment (correction (codes "-3")) (codes "c1")), corrected)
adjust_stock-again_example =
    adjust_stock-again environment (correction (codes "-3")) (codes "c1") (codes "e1") 5
      (new_correction environment (correction (codes "-3")) (codes "c1")) store corrected
      correction_test (codes "c2") (codes "e2") 9

-- The stock before anything is received.
abbrev nothing : Store ℕ
nothing = record store { stock = record store.stock { balances = [] } }

nothing-IsStocked : IsStocked nothing.stock
unfolding lookup total
nothing-IsStocked = record { claimed = λ b. refl; within = λ b. refl; keyed = refl }

adjust_stock-IsStocked_example :
    IsStocked
      (adjust_stock environment
        (correction (codes "5"))
        (codes "c1")
        (codes "e1")
        5
        nothing).1.stock
adjust_stock-IsStocked_example =
    adjust_stock-IsStocked environment (correction (codes "5")) (codes "c1") (codes "e1") 5 nothing
      nothing-IsStocked

first_test :
    lookup
      (codes "t:w:i")
      (adjust_stock environment
        (correction (codes "5"))
        (codes "c1")
        (codes "e1")
        5
        nothing).1.stock.balances
    ≡ some (record { on_hand = 5; reserved = 0 })
unfolding running
first_test = refl
