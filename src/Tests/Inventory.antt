-- ===== src/Tests/Inventory.antt =====
-- One warehouse with ten of one item, of which four are reserved.
use eclipse_erp.Base.{arith, ℕ, ◌+◌, ◌≡◌, refl, Bool, true, Option, none, some, [], ◌∷◌}
use eclipse_erp.Text.{Text, codes, text_eq, non_empty_string}
use eclipse_erp.Text.Decimal.{value, print}
use eclipse_erp.Dict.{lookup, insert, total}
use eclipse_erp.Authorization.Capabilities.{is_capability, capability_ids}
use eclipse_erp.Authorization.Service as Grants
use eclipse_erp.Base.Effect.{err}
use eclipse_erp.Dict.Unique.{IsUnique}
use eclipse_erp.Inventory.Data.{warehouse_already_exists}
use eclipse_erp.Authorization.Service.{
  Principal, GrantInput, membership_key, has_grant, add_grant, authorize, with_initial_grants,
}
use eclipse_erp.Sales.Orders.{is_quantity}
use eclipse_erp.Inventory.Data.{
  Balance, ReceiveStockInput, ReserveStockInput, ReservationInput, Transfer, CreateTransferInput,
  TransferInput, World, draft, confirmed,
}
use eclipse_erp.Text.{to_upper, trim}
use eclipse_erp.Dict.{values}
use eclipse_erp.Inventory.Data.{CreateWarehouseInput, CreateItemInput}
use eclipse_erp.Inventory.Register.{create_warehouse, create_item, store_item, unit_of}
use eclipse_erp.Inventory.Register.Unique.{IsRegister, create-IsRegister}
use eclipse_erp.Inventory.Service.{
  stock_key, permit, own_warehouse, own_item, mismatched, store_receipt, valid_receive,
  receive_stock, valid_reserve, reserve_mismatch, existing_reservation, same_request,
  store_reservation, reserve_stock, own_reservation, close_reservation, release_found,
  fulfill_found, release_reservation, fulfill_reservation,
}
use eclipse_erp.Inventory.Transfers.{
  valid_create_transfer, duplicate_item_of, store_transfer, create_transfer, own_transfer, is_short,
  take_lines, put_lines, confirm_found, confirm_transfer, complete_found, complete_transfer,
}
use eclipse_erp.Inventory.Transfers.Conserve.{are_distinct, stock, line_sum, transfers-conserve}
use eclipse_erp.Inventory.Reserved.{IsStocked}
use eclipse_erp.Inventory.Reserved.Operations.{operations-IsStocked}

abbrev ann : Principal
ann = record { user_account_id = codes "ann"; session_id = codes "s" }

abbrev may : Text → GrantInput
may capability = record {
  user_account_id = codes "ann";
  tenant_id = codes "t";
  capability = capability;
}

abbrev clerk : Grants.Store
clerk =
    with_initial_grants
      (may (codes "inventory.warehouse.create") ∷ (may (codes "inventory.item.create") ∷ []))
      (record { memberships = []; grants = [] })

abbrev empty : World
empty = record {
  authorization = clerk;
  warehouses = [];
  items = [];
  balances = [];
  reservations = [];
  reservation_ids = [];
  transfers = [];
}

abbrev hall : CreateWarehouseInput
hall = record {
  principal = ann;
  tenant_id = codes "t";
  legal_entity_id = codes "e";
  primary_branch_id = none;
  name = codes " Hall ";
}

abbrev bolt : CreateItemInput
bolt = record {
  principal = ann;
  tenant_id = codes "t";
  sku = codes "b-1";
  name = codes "Bolt";
  unit_of_measure = none;
}

abbrev one_hall : World
one_hall = (create_warehouse hall (codes "h") empty).1

abbrev bare : World
bare = record {
  authorization =
      with_initial_grants
        (may (codes "inventory.stock.receive")
          ∷ (may (codes "inventory.stock.reserve")
              ∷ (may (codes "inventory.stock.release")
                  ∷ (may (codes "inventory.stock.fulfill")
                      ∷ (may (codes "inventory.stock_transfer.create")
                          ∷ (may (codes "inventory.stock_transfer.confirm")
                              ∷ (may (codes "inventory.stock_transfer.complete") ∷ [])))))))
        (record { memberships = []; grants = [] });
  warehouses =
      (
        codes "w",
        record {
          id = codes "w";
          tenant_id = codes "t";
          legal_entity_id = codes "e";
          primary_branch_id = none;
          name = codes "Main";
        },
      )
      ∷ ((
        codes "w2",
        record {
          id = codes "w2";
          tenant_id = codes "t";
          legal_entity_id = codes "e";
          primary_branch_id = none;
          name = codes "Second";
        },
      )
          ∷ []);
  items =
      (
        codes "i",
        record {
          id = codes "i";
          tenant_id = codes "t";
          sku = codes "SKU";
          name = codes "Item";
          unit_of_measure = codes "EA";
        },
      )
      ∷ [];
  balances = [];
  reservations = [];
  reservation_ids = [];
  transfers = [];
}

abbrev any_uuid : Text → Bool
any_uuid s = true

abbrev receipt : ReceiveStockInput
receipt = record {
  principal = ann;
  tenant_id = codes "t";
  warehouse_id = codes "w";
  item_id = codes "i";
  quantity = codes "10";
  legal_entity_id = some (codes "e");
  reference_id = none;
}

abbrev reserve : Text → ReserveStockInput
reserve quantity = record {
  principal = ann;
  tenant_id = codes "t";
  warehouse_id = codes "w";
  item_id = codes "i";
  quantity = quantity;
  legal_entity_id = none;
  idempotency_key = some (codes "k");
}

abbrev first : ReservationInput
first = record { principal = ann; tenant_id = codes "t"; reservation_id = codes "r1" }

abbrev stocked : World
stocked = (receive_stock any_uuid receipt bare).1

abbrev held : World
held = (reserve_stock (reserve (codes "4")) (codes "r1") stocked).1

running : ℕ
unfolding with_initial_grants receive_stock valid_receive store_receipt own_warehouse own_item
    mismatched reserve_stock valid_reserve reserve_mismatch existing_reservation same_request
    store_reservation release_reservation fulfill_reservation own_reservation release_found
    fulfill_found close_reservation stock_key permit authorize is_capability capability_ids
    membership_key has_grant add_grant lookup insert text_eq value print is_quantity
    non_empty_string create_transfer valid_create_transfer are_distinct duplicate_item_of
    store_transfer own_transfer is_short take_lines put_lines confirm_found confirm_transfer
    complete_found complete_transfer
running = 0

abbrev balance : World → Option Balance
balance w = lookup (stock_key (codes "t") (codes "w") (codes "i")) w.balances

-- The name is taken, and the SKU is not.
registered_test :
    ((create_warehouse hall (codes "h2") one_hall).0
      ≡ err (warehouse_already_exists (codes "t") (codes "Hall")))
    × (lookup (codes "b") (create_item to_upper bolt (codes "b") one_hall).1.items
        ≡ some (record {
          id = codes "b";
          tenant_id = codes "t";
          sku = codes "B-1";
          name = codes "Bolt";
          unit_of_measure = codes "EA";
        }))
unfolding running create_warehouse values trim create_item unit_of store_item to_upper
registered_test = (refl, refl)

empty-IsRegister : IsRegister empty
unfolding IsRegister IsUnique lookup
empty-IsRegister =
    (λ a b x y f g s. absurd (ground (arith, f)), λ a b x y f g s. absurd (ground (arith, f)))

one_hall-IsRegister : IsRegister one_hall
one_hall-IsRegister = (create-IsRegister to_upper hall bolt (codes "h") empty empty-IsRegister).0

abbrev depot : CreateWarehouseInput
depot = record hall { name = codes "Depot" }

create-IsRegister_example :
    IsRegister (create_warehouse depot (codes "d") one_hall).1
    × IsRegister (create_item to_upper bolt (codes "d") one_hall).1
create-IsRegister_example =
    create-IsRegister to_upper depot bolt (codes "d") one_hall one_hall-IsRegister

held_test : balance held ≡ some (record { on_hand = 10; reserved = 4 })
unfolding running
held_test = refl

fulfilled_test :
    balance (fulfill_reservation first held).1 ≡ some (record { on_hand = 6; reserved = 0 })
unfolding running
fulfilled_test = refl

released_test :
    balance (release_reservation first held).1 ≡ some (record { on_hand = 10; reserved = 0 })
unfolding running
released_test = refl

bare-IsStocked : IsStocked bare
unfolding lookup total
bare-IsStocked = record { claimed = λ b. refl; within = λ b. refl; keyed = refl }

-- The reservation ids that are free before and after the first.
free : lookup (codes "r1") stocked.reservations ≡ none
unfolding running
free = refl

free_bare : lookup (codes "r1") bare.reservations ≡ none
unfolding running
free_bare = refl

free_held : lookup (codes "r2") held.reservations ≡ none
unfolding running
free_held = refl

stocked-IsStocked : IsStocked stocked
stocked-IsStocked =
    (operations-IsStocked bare any_uuid receipt (reserve (codes "4")) (codes "r1") first
      bare-IsStocked free_bare).0

held-IsStocked : IsStocked held
held-IsStocked =
    (operations-IsStocked stocked any_uuid receipt (reserve (codes "4")) (codes "r1") first
      stocked-IsStocked free).1

operations-IsStocked_example :
    IsStocked (receive_stock any_uuid receipt held).1
    × IsStocked (reserve_stock (reserve (codes "3")) (codes "r2") held).1
    × IsStocked (release_reservation first held).1
    × IsStocked (fulfill_reservation first held).1
operations-IsStocked_example =
    operations-IsStocked held any_uuid receipt (reserve (codes "3")) (codes "r2") first
      held-IsStocked free_held

-- Three of the item move to the second warehouse.
abbrev moving : CreateTransferInput
moving = record {
  principal = ann;
  tenant_id = codes "t";
  source_warehouse_id = codes "w";
  destination_warehouse_id = codes "w2";
  lines = (record { item_id = codes "i"; quantity = codes "3" }) ∷ [];
}

abbrev moved : TransferInput
moved = record { principal = ann; tenant_id = codes "t"; transfer_id = codes "m1" }

abbrev drafted : World
drafted = (create_transfer moving (codes "m1") held).1

abbrev taken : World
taken = (confirm_transfer moved (codes "now") drafted).1

abbrev arrived : World
arrived = (complete_transfer moved (codes "later") taken).1

arrived_test :
    (lookup (stock_key (codes "t") (codes "w2") (codes "i")) arrived.balances
      ≡ some (record { on_hand = 3; reserved = 0 }))
    × (balance arrived ≡ some (record { on_hand = 7; reserved = 4 }))
unfolding running
arrived_test = (refl, refl)

-- The transfer before it is confirmed, and after.
abbrev draft_transfer : Transfer
draft_transfer = record {
  id = codes "m1";
  tenant_id = codes "t";
  legal_entity_id = codes "e";
  source_warehouse_id = codes "w";
  destination_warehouse_id = codes "w2";
  status = draft;
  confirmed_at = none;
  completed_at = none;
  lines = moving.lines;
}

abbrev confirmed_transfer : Transfer
confirmed_transfer = record draft_transfer { status = confirmed; confirmed_at = some (codes "now") }

transfers-conserve_example :
    (stock taken.balances + line_sum moving.lines ≡ stock drafted.balances)
    × (stock arrived.balances ≡ stock taken.balances + line_sum moving.lines)
unfolding running
transfers-conserve_example =
    transfers-conserve moved moved draft_transfer confirmed_transfer (codes "now") (codes "later")
      drafted taken refl refl refl refl refl refl refl
