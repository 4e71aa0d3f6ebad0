-- ===== src/Ledger/Tigerbeetle/Opened.antt =====
-- What an accepted account means: `createExecutionAccount` of packages/kernel/src/tigerbeetle.ts.
use eclipse_erp.Base.{
  ◌≡◌, inl, inr, Bool, true, false, ◌&&◌, ◌||◌, Option, none, some, List, [], ◌∷◌, arith, ◌==◌,
  Option-cases,
}
use eclipse_erp.Base.Effect.{Result, ok, err}
use eclipse_erp.Ledger.Port.{CreateExecutionAccountInput, AccountOutcome, SchemaError}
use eclipse_erp.Ledger.Tigerbeetle.{Account, Outcome, Adapter, account_id_of}
use eclipse_erp.Ledger.Tigerbeetle.Operations.{
  account_outcome, account_of, same_account, same_currency, find_account, head, scope_of,
  checked_account, request_account, create_execution_account,
}

abbrev pub account_accepted : AccountOutcome → Bool
account_accepted (AccountOutcome.accepted id v at) = true
account_accepted _ = false

abbrev pub answers_account : Result SchemaError AccountOutcome → Bool
answers_account (ok outcome) = account_accepted outcome
answers_account (err e) = false

module _ {W : Type 0} (a : Adapter W) where
  -- An account that was found agrees with the one asked for.
  abbrev pub agrees : Account → Option Account → Bool
  agrees account none = false
  agrees account (some existing) = same_account existing account

  -- The server created the account, or has one with its id that agrees with it.
  unfoldable pub is_opened : Account → Option (List Outcome) → W → Bool
  is_opened account results w = elim (head results) [
    | none ↦ false
    | some o ↦
        o.status == a.runtime.create_account_status.created
        || (o.status == a.runtime.create_account_status.exists
            && agrees account
                (find_account account.id (a.client.lookup_accounts (account.id ∷ []) w)))
  ]

  -- The account of an input, as the adapter asks for it.
  abbrev pub requested : CreateExecutionAccountInput → Account
  requested i = account_of a.config a.runtime (account_id_of a.digest (scope_of i)) i

  checked-is_opened :
      (i : CreateExecutionAccountInput) (account : Account) (results : Option (List Outcome))
      (o : Outcome) (w : W)
      → head results ≡ some o
      → account_accepted (checked_account a i account o w) ≡ true
      → is_opened account results w ≡ true
  unfolding is_opened checked_account account_outcome
  checked-is_opened i account results o w e h = ground (arith, e)

  -- An accepted answer means that the server created the account, or has one whose ledger, code,
  -- user data, reserved field and flags are those asked for, and that the currency is that of the
  -- ledger.
  pub create_account-opened :
      (i : CreateExecutionAccountInput) (w : W)
      → answers_account (create_execution_account a i w).0 ≡ true
      → (same_currency a.config i.currency ≡ true)
        × (is_opened
              (requested i)
              (a.client.create_accounts (requested i ∷ []) w).0
              (a.client.create_accounts (requested i ∷ []) w).1
            ≡ true)
  unfolding create_execution_account request_account
  create_account-opened i w h =
      let r = a.client.create_accounts (requested i ∷ []) w in
      elim (Option-cases (head r.0)) [
        | inl e ↦ absurd (ground (arith, e))
        | inr (o, e) ↦ ground (arith, e, checked-is_opened i (requested i) r.0 o r.1)
      ]
