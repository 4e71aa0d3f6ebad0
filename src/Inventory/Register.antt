-- ===== src/Inventory/Register.antt =====
-- `makeInventoryTestLayer` of packages/inventory/src/service.ts: the creation of warehouses and
-- items. The upper case of a text is a parameter.
pub mod Unique
use eclipse_erp.Base.{Bool, true, false, not, ◌&&◌, Option, none, some, any, if◌then◌else◌}
use eclipse_erp.Base.Effect.{Result, ok, err}
use eclipse_erp.Text.{Text, codes, text_eq, non_empty_string, trim}
use eclipse_erp.Dict.{Dict, insert, values}
use eclipse_erp.Inventory.Data.{
  Warehouse, Item, CreateWarehouseInput, CreateItemInput, World, Failure, schema_error,
  warehouse_already_exists, item_already_exists,
}
use eclipse_erp.Inventory.Service.{permit}

-- A warehouse of the tenant with the name, and an item of the tenant with the SKU.
abbrev pub is_named : (tenant name : Text) → Warehouse → Bool
is_named tenant name h = text_eq h.tenant_id tenant && text_eq h.name name

abbrev pub has_sku : (tenant sku : Text) → Item → Bool
has_sku tenant sku t = text_eq t.tenant_id tenant && text_eq t.sku sku

unfoldable pub create_warehouse :
    CreateWarehouseInput → (id : Text) → World → Result Failure Warehouse × World
create_warehouse i id w =
    let name = trim i.name in
    let made : Warehouse = record {
      id = id;
      tenant_id = i.tenant_id;
      legal_entity_id = i.legal_entity_id;
      primary_branch_id = i.primary_branch_id;
      name = name;
    } in
    elim (permit i.principal i.tenant_id (codes "inventory.warehouse.create") w) [
      | err e ↦ (err e, w)
      | ok d ↦
          if any (is_named i.tenant_id name) (values w.warehouses)
          then (err (warehouse_already_exists i.tenant_id name), w)
          else (ok made, record w { warehouses = insert id made w.warehouses })
    ]

-- `DefaultUnitOfMeasure`: "EA" without the key, and a text with a character that is no space with it.
unfoldable pub unit_of : Option Text → Option Text
unit_of none = some (codes "EA")
unit_of (some s) = if non_empty_string s then some s else none

module _ (upper : Text → Text) where
  unfoldable pub store_item :
      CreateItemInput → (id unit_of_measure : Text) → World → Result Failure Item × World
  store_item i id unit w =
      let sku = upper (trim i.sku) in
      let made : Item = record {
        id = id;
        tenant_id = i.tenant_id;
        sku = sku;
        name = trim i.name;
        unit_of_measure = upper (trim unit);
      } in
      elim (permit i.principal i.tenant_id (codes "inventory.item.create") w) [
        | err e ↦ (err e, w)
        | ok d ↦
            if any (has_sku i.tenant_id sku) (values w.items)
            then (err (item_already_exists i.tenant_id sku), w)
            else (ok made, record w { items = insert id made w.items })
      ]

  unfoldable pub create_item : CreateItemInput → (id : Text) → World → Result Failure Item × World
  create_item i id w = elim (unit_of i.unit_of_measure) [
    | none ↦ (err schema_error, w)
    | some unit ↦ store_item i id unit w
  ]
