-- ===== src/Inventory/Reserved/Close.antt =====
-- Releasing and fulfilling reservations: packages/inventory/src/service.ts.
use eclipse_erp.Base.{
  ℕ, ◌-◌, ◌≤◌, ◌≡◌, refl, sym, ap, ◌∙◌, subst, ◌⊎◌, inl, inr, true, false, some, arith,
  if◌then◌else◌, Bool-cases, Option-cases,
}
use eclipse_erp.Text.{Text, text_eq, text_eq_refl, text_eq→eq}
use eclipse_erp.Text.Decimal.{value}
use eclipse_erp.Dict.{lookup, insert, total-insert, all-insert, lookup-all}
use eclipse_erp.Inventory.Data.{
  Balance, ReservationStatus, Reservation, ReservationInput, World, active, released, fulfilled,
}
use eclipse_erp.Inventory.Service.{
  stock_key, own_reservation, close_reservation, unreserve, take_out, release_found, fulfill_found,
}
use eclipse_erp.Inventory.Reserved.{
  is_active, claim, is_within, is_keyed, IsStocked, reserved-insert, within-insert, same_claim,
}

within_le : (b : Balance) → is_within (some b) ≡ true → b.reserved ≤ b.on_hand
within_le b h = ground arith

active_claim :
    (k tenant : Text) (r : Reservation)
    → r.status ≡ active
    → tenant ≡ r.tenant_id
    → claim k r
      ≡ (if text_eq k (stock_key tenant r.warehouse_id r.item_id) then value r.quantity else 0)
unfolding claim
active_claim k tenant r on own =
    subst
      (λ t.
        claim k r
        ≡ (if text_eq k (stock_key t r.warehouse_id r.item_id) then value r.quantity else 0))
      (sym own) (ground (arith, on))

no_claim : (k : Text) (r : Reservation) → is_active r.status ≡ false → claim k r ≡ 0
unfolding claim
no_claim k r off = ground (arith, off)

close_reservation-IsStocked :
    (tenant : Text) (change : Balance → ℕ → Balance) (status : ReservationStatus) (r : Reservation)
    (w : World)
    → ((b : Balance) (n : ℕ) → (change b n).reserved ≡ b.reserved - n)
    → ((b : Balance) (n : ℕ) → b.reserved ≤ b.on_hand → b.reserved - n ≤ (change b n).on_hand)
    → is_active status ≡ false
    → r.status ≡ active
    → tenant ≡ r.tenant_id
    → lookup r.id w.reservations ≡ some r
    → IsStocked w
    → IsStocked (close_reservation tenant change status r w).1
unfolding close_reservation
close_reservation-IsStocked tenant change status r w less room off on own there s =
    let key = stock_key tenant r.warehouse_id r.item_id in
    let closed : Reservation = record r { status = status } in
    elim (Option-cases (lookup key w.balances)) [
      | inl e ↦ subst IsStocked (sym (ground (arith, e))) s
      | inr (b, e) ↦
          let q = value r.quantity in
          let next = change b q in
          let before : b.reserved ≤ b.on_hand =
            within_le b (subst (λ o. is_within o ≡ true) e (s.within key)) in
          let w' : World = record w {
            balances = insert key next w.balances;
            reservations = insert r.id closed w.reservations;
          } in
          let done : IsStocked w' = record {
            claimed = λ k.
                let sum = total-insert (claim k) r.id closed r w.reservations there in
                elim (Bool-cases (text_eq k key)) [
                  | inl same ↦ ground (
                    arith,
                    same,
                    e,
                    sum,
                    less b q,
                    active_claim k tenant r on own,
                    no_claim k closed off,
                    reserved-insert key k next w.balances,
                    same_claim w k key s same,
                  )
                  | inr other ↦ ground (
                    arith,
                    other,
                    sum,
                    active_claim k tenant r on own,
                    no_claim k closed off,
                    reserved-insert key k next w.balances,
                    s.claimed k,
                  )
                ];
            within = λ k.
                within-insert key k next w.balances (s.within k)
                  (omega (arith, less b q, room b q before));
            keyed = all-insert is_keyed r.id closed w.reservations (text_eq_refl r.id) s.keyed;
          } in
          subst IsStocked (sym (ground (arith, e))) done
    ]

-- A reservation that is found is stored under its own id and is the tenant's.
pub own_reservation-found :
    (tenant id : Text) (r : Reservation) (w : World)
    → IsStocked w
    → own_reservation tenant (lookup id w.reservations) ≡ some r
    → (lookup r.id w.reservations ≡ some r) × (tenant ≡ r.tenant_id)
unfolding own_reservation
own_reservation-found tenant id r w s f = elim (Option-cases (lookup id w.reservations)) [
  | inl e ↦ absurd (ground (arith, e))
  | inr (x, e) ↦ elim (Bool-cases (text_eq x.tenant_id tenant)) [
    | inr other ↦ absurd (ground (arith, e, other))
    | inl same ↦
        let x_is : x ≡ r = ground (arith, e, same) in
        let at_id = e ∙ ap some x_is in
        let id_is = text_eq→eq id r.id (lookup-all is_keyed id r w.reservations s.keyed at_id) in
        (
          subst (λ k. lookup k w.reservations ≡ some r) id_is at_id,
          sym (text_eq→eq x.tenant_id tenant same) ∙ ap (λ (y : Reservation). y.tenant_id) x_is,
        )
  ]
]

Status-cases : (t : ReservationStatus) → (t ≡ active) ⊎ ((t ≡ released) ⊎ (t ≡ fulfilled))
Status-cases active = inl refl
Status-cases released = inr (inl refl)
Status-cases fulfilled = inr (inr refl)

-- An operation that leaves the world as it was.
pub unchanged : {B : Type 0} (r : B × World) (w : World) → r.1 ≡ w → IsStocked w → IsStocked r.1
unchanged r w e s = subst IsStocked (sym e) s

pub unreserve-IsStocked :
    (i : ReservationInput) (r : Reservation) (w : World)
    → IsStocked w
    → lookup r.id w.reservations ≡ some r
    → i.tenant_id ≡ r.tenant_id
    → IsStocked (release_found i r w).1 × IsStocked (fulfill_found i r w).1
unfolding release_found fulfill_found
unreserve-IsStocked i r w s there own = elim (Status-cases r.status) [
  | inl on ↦ (
    subst IsStocked (sym (ground (arith, on))) (
        close_reservation-IsStocked i.tenant_id unreserve released r w (λ b n. refl)
          (λ b n h. omega (arith, h)) refl on own there s),
    subst IsStocked (sym (ground (arith, on))) (
        close_reservation-IsStocked i.tenant_id take_out fulfilled r w (λ b n. refl)
          (λ b n h. omega (arith, h)) refl on own there s),
  )
  | inr (inl e) ↦ (
    unchanged (release_found i r w) w (ground (arith, e)) s,
    unchanged (fulfill_found i r w) w (ground (arith, e)) s,
  )
  | inr (inr e) ↦ (
    unchanged (release_found i r w) w (ground (arith, e)) s,
    unchanged (fulfill_found i r w) w (ground (arith, e)) s,
  )
]
