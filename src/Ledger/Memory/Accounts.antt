-- ===== src/Ledger/Memory/Accounts.antt =====
-- Creating execution accounts.
use eclipse_erp.Base.{◌≡◌, refl, sym, subst, ◌⊎◌, inl, inr, true, none, [], ◌∷◌, ◌++◌, arith, All}
use eclipse_erp.Text.{Text, text_eq_refl, to_upper}
use eclipse_erp.Dict.{
  Dict, lookup, insert, lookup-insert, lookup-insert_self, insert-new, total-insert_new,
  contains-insert,
}
use eclipse_erp.Ledger.Port.{Constraint, CreateExecutionAccountInput}
use eclipse_erp.Ledger.Memory.{Balance, Store, input_key}
use eclipse_erp.Ledger.Memory.Operations.{
  create_execution_account, same_account_input, constraint_eq, constraint_of,
}
use eclipse_erp.Ledger.Memory.Sound.{IsSound, IsKeyed}

abbrev zero_balance : Balance
zero_balance = record { debits_posted_minor = 0; credits_posted_minor = 0 }

-- The store with a new account.
abbrev with_account : CreateExecutionAccountInput → Store → Store
with_account i s = record s {
  accounts = insert (input_key i) i s.accounts;
  balances = insert (input_key i) zero_balance s.balances;
}

insert-IsKeyed :
    (k : Text) (b : Dict Balance) (es : Dict CreateExecutionAccountInput)
    → All (IsKeyed b) es
    → All (IsKeyed (insert k zero_balance b)) es
insert-IsKeyed k b [] h = tt
insert-IsKeyed k b (e ∷ es) h =
    ((h.0.0, contains-insert k e.0 zero_balance b h.0.1), insert-IsKeyed k b es h.1)

append-IsKeyed :
    (b : Dict Balance) (es : Dict CreateExecutionAccountInput)
    (e : Text × CreateExecutionAccountInput)
    → All (IsKeyed b) es
    → IsKeyed b e
    → All (IsKeyed b) (es ++ (e ∷ []))
append-IsKeyed b [] e h k = (k, tt)
append-IsKeyed b (x ∷ es) e h k = (h.0, append-IsKeyed b es e h.1 k)

none-insert :
    (k j : Text) (i : CreateExecutionAccountInput) (v : Balance)
    (m : Dict CreateExecutionAccountInput) (b : Dict Balance)
    → (lookup j m ≡ none → lookup j b ≡ none)
    → lookup j (insert k i m) ≡ none
    → lookup j (insert k v b) ≡ none
none-insert k j i v m b h e = ground (arith, lookup-insert k j i m, lookup-insert k j v b)

with_account-IsSound :
    (i : CreateExecutionAccountInput) (s : Store)
    → IsSound s
    → lookup (input_key i) s.accounts ≡ none
    → IsSound (with_account i s)
with_account-IsSound i s sound fresh =
    let k = input_key i in
    let b = insert k zero_balance s.balances in
    let none_there = sound.covered k fresh in
    record {
      keyed = subst (All (IsKeyed b)) (sym (insert-new k i s.accounts fresh)) (
          append-IsKeyed b s.accounts (k, i) (insert-IsKeyed k s.balances s.accounts sound.keyed)
            (refl, rw (lookup-insert_self k zero_balance s.balances)));
      covered = λ j e. none-insert k j i zero_balance s.accounts s.balances (sound.covered j) e;
      double_entry = omega (
        arith,
        total-insert_new (λ (x : Balance). x.debits_posted_minor) k zero_balance s.balances
            none_there,
        total-insert_new (λ (x : Balance). x.credits_posted_minor) k zero_balance s.balances
            none_there,
        sound.double_entry,
      );
    }

create_account-store :
    (i : CreateExecutionAccountInput) (s : Store)
    → ((create_execution_account i s).1 ≡ s)
      ⊎ ((lookup (input_key i) s.accounts ≡ none)
          × ((create_execution_account i s).1 ≡ with_account i s))
unfolding create_execution_account
create_account-store i s = ground arith

-- Creating an account keeps sound books sound, whatever the answer.
pub create_account-IsSound :
    (i : CreateExecutionAccountInput) (s : Store)
    → IsSound s
    → IsSound (create_execution_account i s).1
create_account-IsSound i s sound = elim (create_account-store i s) [
  | inl e ↦ subst IsSound (sym e) sound
  | inr (fresh, e) ↦ subst IsSound (sym e) (with_account-IsSound i s sound fresh)
]

constraint_eq_refl : (c : Constraint) → constraint_eq c c ≡ true
constraint_eq_refl c = ground arith

same_account_refl : (i : CreateExecutionAccountInput) → same_account_input i i ≡ true
unfolding same_account_input
same_account_refl i =
    rw
      (
        text_eq_refl i.tenant_id,
        text_eq_refl i.legal_entity_id,
        text_eq_refl i.account_id,
        text_eq_refl (to_upper i.currency),
        constraint_eq_refl (constraint_of i),
      )
      (ground arith)

-- An account that was created may be created again with the same input: the answer is the same, and
-- no balance is reset.
pub create_account-again :
    (i : CreateExecutionAccountInput) (s : Store)
    → lookup (input_key i) s.accounts ≡ none
    → create_execution_account i (create_execution_account i s).1 ≡ create_execution_account i s
unfolding create_execution_account
create_account-again i s fresh =
    ground (arith, lookup-insert_self (input_key i) i s.accounts, same_account_refl i)
