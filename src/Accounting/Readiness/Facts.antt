-- ===== src/Accounting/Readiness/Facts.antt =====
-- When the program takes two facts for the same, `sortedJson(a) === sortedJson(b)`: they are equal,
-- field by field. And which fact of several under one key counts: packages/accounting/src/financial-readiness.ts.
use eclipse_erp.Base.{
  ◌≡◌, refl, ◌∙◌, subst, ◌↔◌, Bool, true, List, [], ◌∷◌, arith, Option, none, some, if◌then◌else◌,
  map,
}
use eclipse_erp.Text.{Text, text_eq, text_eq_refl, text_eq→eq}
use eclipse_erp.Dict.{Dict, lookup, insert, merge, lookup-insert}
use eclipse_erp.Accounting.Journals.{texts_eq}
use eclipse_erp.Accounting.Readiness.{
  OperationFact, TransferFact, BalanceFact, ProjectionFact, same_operation, same_fact, same_balance,
  same_projection, map_of,
}

texts_eq→eq : (ss ts : List Text) → texts_eq ss ts ≡ true → ss ≡ ts
unfolding texts_eq
texts_eq→eq [] [] h = refl
texts_eq→eq [] (t ∷ ts) h = absurd (ground (arith, h))
texts_eq→eq (s ∷ ss) [] h = absurd (ground (arith, h))
texts_eq→eq (s ∷ ss) (t ∷ ts) h =
    let head = text_eq→eq s t (ground (arith, h)) in
    let tail = texts_eq→eq ss ts (ground (arith, h)) in rw (head, tail) refl

texts_eq_self : (ss : List Text) → texts_eq ss ss ≡ true
unfolding texts_eq
texts_eq_self [] = refl
texts_eq_self (s ∷ ss) = ground (arith, text_eq_refl s, texts_eq_self ss)

-- A test that holds of equal values only, and of each with itself, decides their equality.
abbrev pub Decides : {V : Type 0} → (V → V → Bool) → Type 0
Decides {V} same = (a b : V) → (same a b ≡ true) ↔ (a ≡ b)

decides :
    {V : Type 0} (same : V → V → Bool)
    → ((a b : V) → same a b ≡ true → a ≡ b)
    → ((a : V) → same a a ≡ true)
    → Decides same
decides same only self a b = (only a b, λ e. subst (λ x. same a x ≡ true) e (self a))

same_operation-only : (a b : OperationFact) → same_operation a b ≡ true → a ≡ b
unfolding same_operation
same_operation-only a b h =
    let operation_id = text_eq→eq a.operation_id b.operation_id (ground (arith, h)) in
    let status = text_eq→eq a.status b.status (ground (arith, h)) in
    let currency = text_eq→eq a.currency b.currency (ground (arith, h)) in
    let mapping_version : a.mapping_version ≡ b.mapping_version = ground (arith, h) in
    λ i. record {
      operation_id = operation_id i;
      status = status i;
      currency = currency i;
      mapping_version = mapping_version i;
    }

same_operation_self : (a : OperationFact) → same_operation a a ≡ true
unfolding same_operation
same_operation_self a =
    ground (arith, text_eq_refl a.operation_id, text_eq_refl a.status, text_eq_refl a.currency)

pub same_operation-Decides : Decides same_operation
same_operation-Decides = decides same_operation same_operation-only same_operation_self

same_fact-only : (a b : TransferFact) → same_fact a b ≡ true → a ≡ b
unfolding same_fact
same_fact-only a b h =
    let operation_id = text_eq→eq a.operation_id b.operation_id (ground (arith, h)) in
    let position : a.position ≡ b.position = ground (arith, h) in
    let status = text_eq→eq a.status b.status (ground (arith, h)) in
    let transfer_id = text_eq→eq a.transfer_id b.transfer_id (ground (arith, h)) in
    let debit_account_id = text_eq→eq a.debit_account_id b.debit_account_id (ground (arith, h)) in
    let credit_account_id =
      text_eq→eq a.credit_account_id b.credit_account_id (ground (arith, h)) in
    let amount_minor = text_eq→eq a.amount_minor b.amount_minor (ground (arith, h)) in
    let currency = text_eq→eq a.currency b.currency (ground (arith, h)) in
    let mapping_version : a.mapping_version ≡ b.mapping_version = ground (arith, h) in
    λ i. record {
      operation_id = operation_id i;
      position = position i;
      status = status i;
      transfer_id = transfer_id i;
      debit_account_id = debit_account_id i;
      credit_account_id = credit_account_id i;
      amount_minor = amount_minor i;
      currency = currency i;
      mapping_version = mapping_version i;
    }

same_fact_self : (a : TransferFact) → same_fact a a ≡ true
unfolding same_fact
same_fact_self a = ground (
  arith,
  text_eq_refl a.operation_id,
  text_eq_refl a.status,
  text_eq_refl a.transfer_id,
  text_eq_refl a.debit_account_id,
  text_eq_refl a.credit_account_id,
  text_eq_refl a.amount_minor,
  text_eq_refl a.currency,
)

pub same_fact-Decides : Decides same_fact
same_fact-Decides = decides same_fact same_fact-only same_fact_self

same_balance-only : (a b : BalanceFact) → same_balance a b ≡ true → a ≡ b
unfolding same_balance
same_balance-only a b h =
    let account_id = text_eq→eq a.account_id b.account_id (ground (arith, h)) in
    let currency = text_eq→eq a.currency b.currency (ground (arith, h)) in
    let mapping_version : a.mapping_version ≡ b.mapping_version = ground (arith, h) in
    let debits_posted_minor =
      text_eq→eq a.debits_posted_minor b.debits_posted_minor (ground (arith, h)) in
    let credits_posted_minor =
      text_eq→eq a.credits_posted_minor b.credits_posted_minor (ground (arith, h)) in
    λ i. record {
      account_id = account_id i;
      currency = currency i;
      mapping_version = mapping_version i;
      debits_posted_minor = debits_posted_minor i;
      credits_posted_minor = credits_posted_minor i;
    }

same_balance_self : (a : BalanceFact) → same_balance a a ≡ true
unfolding same_balance
same_balance_self a = ground (
  arith,
  text_eq_refl a.account_id,
  text_eq_refl a.currency,
  text_eq_refl a.debits_posted_minor,
  text_eq_refl a.credits_posted_minor,
)

pub same_balance-Decides : Decides same_balance
same_balance-Decides = decides same_balance same_balance-only same_balance_self

same_projection-only : (a b : ProjectionFact) → same_projection a b ≡ true → a ≡ b
unfolding same_projection
same_projection-only a b h =
    let operation_id = text_eq→eq a.operation_id b.operation_id (ground (arith, h)) in
    let journal_status = text_eq→eq a.journal_status b.journal_status (ground (arith, h)) in
    let transfer_ids = texts_eq→eq a.transfer_ids b.transfer_ids (ground (arith, h)) in
    λ i. record {
      operation_id = operation_id i;
      journal_status = journal_status i;
      transfer_ids = transfer_ids i;
    }

same_projection_self : (a : ProjectionFact) → same_projection a a ≡ true
unfolding same_projection
same_projection_self a = ground (
  arith,
  text_eq_refl a.operation_id,
  text_eq_refl a.journal_status,
  texts_eq_self a.transfer_ids,
)

pub same_projection-Decides : Decides same_projection
same_projection-Decides = decides same_projection same_projection-only same_projection_self

-- The last fact of a list that has the key, if any.
unfoldable pub last_of : {V : Type 0} → (V → Text) → Text → List V → Option V
last_of key k [] = none
last_of key k (f ∷ fs) = elim (last_of key k fs) [
  | some g ↦ some g
  | none ↦ if text_eq k (key f) then some f else none
]

abbrev later_or : {V : Type 0} → Option V → Option V → Option V
later_or (some v) other = some v
later_or none other = other

-- In the program's maps a later fact replaces an earlier one.
lookup-map_of :
    {V : Type 0} (key : V → Text) (k : Text) (fs : List V) (m : Dict V)
    → lookup k (merge (map (λ f. (key f, f)) fs) m) ≡ later_or (last_of key k fs) (lookup k m)
unfolding merge last_of
lookup-map_of key k [] m = refl
lookup-map_of key k (f ∷ fs) m =
    ground (arith, lookup-map_of key k fs (insert (key f) f m), lookup-insert (key f) k f m)

later_or-none : {V : Type 0} (o : Option V) → later_or o none ≡ o
later_or-none none = refl
later_or-none (some v) = refl

pub last_lookup :
    {V : Type 0} (key : V → Text) (k : Text) (fs : List V)
    → lookup k (map_of key fs) ≡ last_of key k fs
unfolding lookup
last_lookup key k fs = lookup-map_of key k fs [] ∙ later_or-none (last_of key k fs)
