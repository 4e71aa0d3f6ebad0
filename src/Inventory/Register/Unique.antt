-- ===== src/Inventory/Register/Unique.antt =====
-- Names of warehouses and SKUs of items are unique: packages/inventory/src/service.ts.
use eclipse_erp.Base.{
  ◌≡◌, sym, subst, ◌⊎◌, inl, inr, Bool, false, arith, Bool-cases, Option-cases, any,
}
use eclipse_erp.Base.Effect.{Result-cases}
use eclipse_erp.Text.{Text, codes, text_eq_iff, trim}
use eclipse_erp.Dict.{insert, values}
use eclipse_erp.Dict.Unique.{IsUnique, insert-IsUnique}
use eclipse_erp.Inventory.Data.{Warehouse, Item, CreateWarehouseInput, CreateItemInput, World}
use eclipse_erp.Inventory.Service.{permit}
use eclipse_erp.Inventory.Register.{
  is_named, has_sku, create_warehouse, unit_of, store_item, create_item,
}

-- Warehouses with one tenant and name, and items with one tenant and SKU.
unfoldable pub same_name : Warehouse → Warehouse → Bool
same_name x y = is_named y.tenant_id y.name x

unfoldable pub same_sku : Item → Item → Bool
same_sku x y = has_sku y.tenant_id y.sku x

same_name-swap : (x y : Warehouse) → same_name x y ≡ same_name y x
unfolding same_name
same_name-swap x y = ground (
  arith,
  text_eq_iff x.tenant_id y.tenant_id,
  text_eq_iff y.tenant_id x.tenant_id,
  text_eq_iff x.name y.name,
  text_eq_iff y.name x.name,
)

same_sku-swap : (x y : Item) → same_sku x y ≡ same_sku y x
unfolding same_sku
same_sku-swap x y = ground (
  arith,
  text_eq_iff x.tenant_id y.tenant_id,
  text_eq_iff y.tenant_id x.tenant_id,
  text_eq_iff x.sku y.sku,
  text_eq_iff y.sku x.sku,
)

unfoldable pub IsRegister : World → Type 0
IsRegister w = IsUnique same_name w.warehouses × IsUnique same_sku w.items

-- What a creation does to the world.
abbrev made_warehouse : CreateWarehouseInput → Text → Warehouse
made_warehouse i id = record {
  id = id;
  tenant_id = i.tenant_id;
  legal_entity_id = i.legal_entity_id;
  primary_branch_id = i.primary_branch_id;
  name = trim i.name;
}

create_warehouse-cases :
    (i : CreateWarehouseInput) (id : Text) (w : World)
    → ((create_warehouse i id w).1 ≡ w)
      ⊎ ((any (is_named i.tenant_id (trim i.name)) (values w.warehouses) ≡ false)
          × ((create_warehouse i id w).1
              ≡ record w { warehouses = insert id (made_warehouse i id) w.warehouses }))
unfolding create_warehouse
create_warehouse-cases i id w =
    elim (Result-cases (permit i.principal i.tenant_id (codes "inventory.warehouse.create") w)) [
      | inr (e, f) ↦ inl (ground (arith, f))
      | inl (d, f) ↦
          elim (Bool-cases (any (is_named i.tenant_id (trim i.name)) (values w.warehouses))) [
            | inl e ↦ inl (ground (arith, e, f))
            | inr e ↦ inr (e, ground (arith, e, f))
          ]
    ]

create_warehouse-IsRegister :
    (i : CreateWarehouseInput) (id : Text) (w : World)
    → IsRegister w
    → IsRegister (create_warehouse i id w).1
unfolding IsRegister same_name
create_warehouse-IsRegister i id w (h, k) = elim (create_warehouse-cases i id w) [
  | inl e ↦ subst IsRegister (sym e) (h, k)
  | inr (e, f) ↦
      subst IsRegister (sym f)
        (insert-IsUnique same_name id (made_warehouse i id) w.warehouses same_name-swap h e, k)
]

abbrev made_item : (Text → Text) → CreateItemInput → Text → Text → Item
made_item upper i id unit = record {
  id = id;
  tenant_id = i.tenant_id;
  sku = upper (trim i.sku);
  name = trim i.name;
  unit_of_measure = upper (trim unit);
}

store_item-cases :
    (upper : Text → Text) (i : CreateItemInput) (id unit : Text) (w : World)
    → ((store_item upper i id unit w).1 ≡ w)
      ⊎ ((any (has_sku i.tenant_id (upper (trim i.sku))) (values w.items) ≡ false)
          × ((store_item upper i id unit w).1
              ≡ record w { items = insert id (made_item upper i id unit) w.items }))
unfolding store_item
store_item-cases upper i id unit w =
    elim (Result-cases (permit i.principal i.tenant_id (codes "inventory.item.create") w)) [
      | inr (e, f) ↦ inl (ground (arith, f))
      | inl (d, f) ↦
          elim (Bool-cases (any (has_sku i.tenant_id (upper (trim i.sku))) (values w.items))) [
            | inl e ↦ inl (ground (arith, e, f))
            | inr e ↦ inr (e, ground (arith, e, f))
          ]
    ]

store_item-IsRegister :
    (upper : Text → Text) (i : CreateItemInput) (id unit : Text) (w : World)
    → IsRegister w
    → IsRegister (store_item upper i id unit w).1
unfolding IsRegister same_sku
store_item-IsRegister upper i id unit w (h, k) = elim (store_item-cases upper i id unit w) [
  | inl e ↦ subst IsRegister (sym e) (h, k)
  | inr (e, f) ↦
      subst IsRegister (sym f)
        (h, insert-IsUnique same_sku id (made_item upper i id unit) w.items same_sku-swap k e)
]

-- Creating a warehouse and creating an item keep the warehouses of a tenant apart by their names
-- and its items by their SKUs, whether the creation succeeds or fails.
pub create-IsRegister :
    (upper : Text → Text) (i : CreateWarehouseInput) (j : CreateItemInput) (id : Text) (w : World)
    → IsRegister w
    → IsRegister (create_warehouse i id w).1 × IsRegister (create_item upper j id w).1
unfolding create_item
create-IsRegister upper i j id w r = (
  create_warehouse-IsRegister i id w r,
  elim (Option-cases (unit_of j.unit_of_measure)) [
    | inl e ↦
        let same : (create_item upper j id w).1 ≡ w = ground (arith, e) in
        subst IsRegister (sym same) r
    | inr (unit, e) ↦
        let same : (create_item upper j id w).1 ≡ (store_item upper j id unit w).1 =
          ground (arith, e) in
        subst IsRegister (sym same) (store_item-IsRegister upper j id unit w r)
  ],
)
