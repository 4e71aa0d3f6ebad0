-- ===== src/Inventory/Transfers/Conserve.antt =====
-- A transfer moves stock and neither makes nor loses any: packages/inventory/src/service.ts.
use eclipse_erp.Base.{
  ℕ, ◌+◌, ◌-◌, ◌≤◌, ◌≡◌, refl, sym, ◌∙◌, subst, inl, inr, Bool, true, false, not, ◌&&◌, none, some,
  List, [], ◌∷◌, ◌++◌, append_assoc, arith, Bool-cases, Option-cases, any, find,
}
use eclipse_erp.Base.Effect.{Result, ok, err}
use eclipse_erp.Text.{Text, text_eq, text_eq_refl, text_eq→eq, append_left_cancel}
use eclipse_erp.Text.Decimal.{value}
use eclipse_erp.Dict.{Dict, lookup, insert, lookup-insert, total, total-insert, total-insert_new}
use eclipse_erp.Inventory.Data.{
  Balance, TransferLine, TransferStatus, Transfer, TransferInput, World, Failure,
}
use eclipse_erp.Inventory.Service.{stock_key, balance_or_zero}
use eclipse_erp.Inventory.Transfers.{
  is_short, take_lines, put_lines, own_transfer, confirm_found, complete_found, confirm_transfer,
  complete_transfer,
}

unfoldable pub line_sum : List TransferLine → ℕ
line_sum [] = 0
line_sum (l ∷ ls) = value l.quantity + line_sum ls

-- Every line is for an item of its own.
unfoldable pub are_distinct : List TransferLine → Bool
are_distinct [] = true
are_distinct (l ∷ ls) =
    not (any (λ (k : TransferLine). text_eq k.item_id l.item_id) ls) && are_distinct ls

-- What all warehouses have on hand.
abbrev pub stock : Dict Balance → ℕ
stock m = total (λ (b : Balance). b.on_hand) m

same_item :
    (tenant warehouse a b : Text)
    → stock_key tenant warehouse a ≡ stock_key tenant warehouse b
    → a ≡ b
unfolding stock_key
same_item tenant warehouse a b h =
    let behind_tenant = append_left_cancel (tenant ++ (b':' ∷ [])) _ _ (
      append_assoc tenant (b':' ∷ []) (warehouse ++ (b':' ∷ a))
      ∙ h
      ∙ sym (append_assoc tenant (b':' ∷ []) (warehouse ++ (b':' ∷ b)))) in
    append_left_cancel (warehouse ++ (b':' ∷ [])) a b (
      append_assoc warehouse (b':' ∷ []) a
      ∙ behind_tenant
      ∙ sym (append_assoc warehouse (b':' ∷ []) b))

other_key :
    (tenant warehouse a b : Text)
    → text_eq a b ≡ false
    → text_eq (stock_key tenant warehouse a) (stock_key tenant warehouse b) ≡ false
other_key tenant warehouse a b h =
    elim (Bool-cases (text_eq (stock_key tenant warehouse a) (stock_key tenant warehouse b))) [
      | inr different ↦ different
      | inl same ↦
          let e =
            same_item tenant warehouse a b
              (text_eq→eq (stock_key tenant warehouse a) (stock_key tenant warehouse b) same) in
          absurd (ground (arith, h, subst (λ x. text_eq a x ≡ true) e (text_eq_refl a)))
    ]

insert-stock :
    (k : Text) (x : Balance) (m : Dict Balance)
    → stock (insert k x m) + (balance_or_zero (lookup k m)).on_hand ≡ stock m + x.on_hand
insert-stock k x m = elim (Option-cases (lookup k m)) [
  | inl e ↦ ground (arith, e, total-insert_new (λ (b : Balance). b.on_hand) k x m e)
  | inr (old, e) ↦ ground (arith, e, total-insert (λ (b : Balance). b.on_hand) k x old m e)
]

put_lines-stock :
    (tenant warehouse : Text) (ls : List TransferLine) (m : Dict Balance)
    → stock (put_lines tenant warehouse ls m) ≡ stock m + line_sum ls
unfolding put_lines line_sum
put_lines-stock tenant warehouse [] m = omega arith
put_lines-stock tenant warehouse (l ∷ ls) m =
    let key = stock_key tenant warehouse l.item_id in
    let b = balance_or_zero (lookup key m) in
    let next : Balance = record b { on_hand = b.on_hand + value l.quantity } in
    omega (arith, put_lines-stock tenant warehouse ls (insert key next m), insert-stock key next m)

-- Taking out one item leaves the stock of the others.
still_there :
    (tenant warehouse item : Text) (x : Balance) (m : Dict Balance) (ls : List TransferLine)
    → any (λ (k : TransferLine). text_eq k.item_id item) ls ≡ false
    → any (is_short tenant warehouse m) ls ≡ false
    → any (is_short tenant warehouse (insert (stock_key tenant warehouse item) x m)) ls ≡ false
unfolding is_short
still_there tenant warehouse item x m [] d h = refl
still_there tenant warehouse item x m (l ∷ ls) d h =
    let key = stock_key tenant warehouse item in
    ground (
      arith,
      still_there tenant warehouse item x m ls,
      other_key tenant warehouse l.item_id item,
      lookup-insert key (stock_key tenant warehouse l.item_id) x m,
    )

long_enough :
    (tenant warehouse : Text) (l : TransferLine) (m : Dict Balance)
    → is_short tenant warehouse m l ≡ false
    → value l.quantity ≤ (balance_or_zero (lookup (stock_key tenant warehouse l.item_id) m)).on_hand
unfolding is_short
long_enough tenant warehouse l m h =
    elim (Option-cases (lookup (stock_key tenant warehouse l.item_id) m)) [
      | inl e ↦ absurd (ground (arith, h, e))
      | inr (b, e) ↦ ground (arith, h, e)
    ]

take_lines-stock :
    (tenant warehouse : Text) (ls : List TransferLine) (m : Dict Balance)
    → are_distinct ls ≡ true
    → any (is_short tenant warehouse m) ls ≡ false
    → stock (take_lines tenant warehouse ls m) + line_sum ls ≡ stock m
unfolding take_lines line_sum are_distinct
take_lines-stock tenant warehouse [] m d h = omega arith
take_lines-stock tenant warehouse (l ∷ ls) m d h =
    let key = stock_key tenant warehouse l.item_id in
    let b = balance_or_zero (lookup key m) in
    let next : Balance = record b { on_hand = b.on_hand - value l.quantity } in
    let room = long_enough tenant warehouse l m (ground (arith, h)) in
    let rest =
      still_there tenant warehouse l.item_id next m ls (ground (arith, d)) (ground (arith, h)) in
    omega (
      arith,
      take_lines-stock tenant warehouse ls (insert key next m) (ground (arith, d)) rest,
      insert-stock key next m,
      room,
    )

find_nothing :
    (p : TransferLine → Bool) (ls : List TransferLine) → find p ls ≡ none → any p ls ≡ false
find_nothing p [] h = refl
find_nothing p (l ∷ ls) h = ground (arith, find_nothing p ls)

abbrev pub succeeds : {A : Type 0} → Result Failure A → Bool
succeeds (ok a) = true
succeeds (err e) = false

-- A confirmation that succeeds, of a draft whose lines name different items, takes what its lines say
-- off the stock of all warehouses, and a completion that succeeds, of a confirmed transfer, puts on
-- it what its lines say.
pub transfers-conserve :
    (i j : TransferInput) (t u : Transfer) (at at' : Text) (w w' : World)
    → own_transfer i.tenant_id (lookup i.transfer_id w.transfers) ≡ some t
    → t.status ≡ TransferStatus.draft
    → are_distinct t.lines ≡ true
    → succeeds (confirm_transfer i at w).0 ≡ true
    → own_transfer j.tenant_id (lookup j.transfer_id w'.transfers) ≡ some u
    → u.status ≡ TransferStatus.confirmed
    → succeeds (complete_transfer j at' w').0 ≡ true
    → (stock (confirm_transfer i at w).1.balances + line_sum t.lines ≡ stock w.balances)
      × (stock (complete_transfer j at' w').1.balances ≡ stock w'.balances + line_sum u.lines)
unfolding confirm_transfer confirm_found complete_transfer complete_found
transfers-conserve i j t u at at' w w' f c d h g k h' =
    let short = is_short i.tenant_id t.source_warehouse_id w.balances in
    (
      elim (Option-cases (find short t.lines)) [
        | inr (l, e) ↦ absurd (ground (arith, f, c, h, e))
        | inl e ↦ ground (
          arith,
          f,
          c,
          h,
          e,
          take_lines-stock i.tenant_id t.source_warehouse_id t.lines w.balances d
              (find_nothing short t.lines e),
        )
      ],
      ground (
        arith,
        g,
        k,
        h',
        put_lines-stock j.tenant_id u.destination_warehouse_id u.lines w'.balances,
      ),
    )
