-- ===== src/Ledger/Tigerbeetle.antt =====
-- packages/kernel/src/tigerbeetle.ts: the configuration of the TigerBeetle adapter, the names it
-- takes from the tigerbeetle-node package, the client it calls, and the ids it derives.
pub mod Operations
pub mod Transfers
pub mod Ids
pub mod Confirmed
pub mod Reconciled
pub mod Opened
pub mod Posting
use eclipse_erp.Base.{
  ℕ, zero, suc, ◌+◌, ◌-◌, ◌*◌, ◌/◌, ◌%◌, ◌^◌, ◌≤◌, ◌<◌, ◌≡◌, refl, sym, ap, ◌∙◌, subst, ◌≢◌, ◌↔◌,
  ◌⊎◌, inl, inr, Bool, true, false, not, ◌&&◌, ◌||◌, Option, none, some, List, [], ◌∷◌, ◌++◌, map,
  append_assoc, append-nil, arith, ltb, leb, ◌==◌, if◌then◌else◌, bool_eq, Bool-cases, Option-cases,
  and_true, ltb→lt, lt→ltb, leb→le, le→leb, eqb→eq, eqb_refl, eq→eqb, length, take, drop, replicate,
  any, all, find, filter, All, length-append, length-replicate, take-append-drop, length-drop,
  length-take,
}
use eclipse_erp.Text.{Text, codes, to_upper}
use eclipse_erp.Text.Decimal.{print}
use eclipse_erp.Ledger.Port.{
  PostJournalInput, GetBalanceInput, CreateExecutionAccountInput, Constraint,
}
use eclipse_erp.Ledger.Journal.{u128_max}

-- `TigerBeetleFinancialLedgerConfig`; the numbers are natural numbers, so the tests for an integer
-- and against 0 from below hold of each.
pub record Config : Type 0 where
  pub cluster_id : ℕ
  pub replica_addresses : List Text
  pub ledger : ℕ
  pub code : ℕ
  pub currency : Text

-- `Account` of the package.
pub record Account : Type 0 where
  pub id : ℕ
  pub debits_pending : ℕ
  pub debits_posted : ℕ
  pub credits_pending : ℕ
  pub credits_posted : ℕ
  pub user_data_128 : ℕ
  pub user_data_64 : ℕ
  pub user_data_32 : ℕ
  pub reserved : ℕ
  pub ledger : ℕ
  pub code : ℕ
  pub flags : ℕ
  pub timestamp : ℕ

-- `Transfer` of the package.
pub record Transfer : Type 0 where
  pub id : ℕ
  pub debit_account_id : ℕ
  pub credit_account_id : ℕ
  pub amount : ℕ
  pub pending_id : ℕ
  pub user_data_128 : ℕ
  pub user_data_64 : ℕ
  pub user_data_32 : ℕ
  pub timeout : ℕ
  pub ledger : ℕ
  pub code : ℕ
  pub flags : ℕ
  pub timestamp : ℕ

-- `CreateAccountResult` and `CreateTransferResult`
pub record Outcome : Type 0 where
  pub status : ℕ
  pub timestamp : ℕ

-- The numbers of the package's enumerations that the adapter reads.
pub record AccountStatus : Type 0 where
  pub created : ℕ
  pub exists : ℕ
  pub exists_with_different_flags : ℕ
  pub exists_with_different_user_data_128 : ℕ
  pub exists_with_different_user_data_64 : ℕ
  pub exists_with_different_user_data_32 : ℕ
  pub exists_with_different_ledger : ℕ
  pub exists_with_different_code : ℕ

pub record TransferStatus : Type 0 where
  pub created : ℕ
  pub exists : ℕ
  pub debit_account_not_found : ℕ
  pub credit_account_not_found : ℕ
  pub debit_account_already_closed : ℕ
  pub credit_account_already_closed : ℕ
  pub exists_with_different_flags : ℕ
  pub exists_with_different_pending_id : ℕ
  pub exists_with_different_timeout : ℕ
  pub exists_with_different_debit_account_id : ℕ
  pub exists_with_different_credit_account_id : ℕ
  pub exists_with_different_amount : ℕ
  pub exists_with_different_user_data_128 : ℕ
  pub exists_with_different_user_data_64 : ℕ
  pub exists_with_different_user_data_32 : ℕ
  pub exists_with_different_ledger : ℕ
  pub exists_with_different_code : ℕ

pub record AccountFlags : Type 0 where
  pub none_set : ℕ
  pub history : ℕ
  pub debits_must_not_exceed_credits : ℕ
  pub credits_must_not_exceed_debits : ℕ

pub record TransferFlags : Type 0 where
  pub none_set : ℕ
  pub linked : ℕ

pub record Runtime : Type 0 where
  pub account_flags : AccountFlags
  pub transfer_flags : TransferFlags
  pub create_account_status : AccountStatus
  pub create_transfer_status : TransferStatus

-- The client: a call answers, or throws (`none`), and moves the server on.
pub record Client (W : Type 0) : Type 0 where
  pub create_accounts : List Account → W → Option (List Outcome) × W
  pub create_transfers : List Transfer → W → Option (List Outcome) × W
  pub lookup_accounts : List ℕ → W → Option (List Account)
  pub lookup_transfers : List ℕ → W → Option (List Transfer)

-- What `makeAdapter` closes over, and the SHA-256 digest of the JSON text of a list of strings, as
-- a list of bytes.
pub record Adapter (W : Type 0) : Type 0 where
  pub client : Client W
  pub config : Config
  pub runtime : Runtime
  pub digest : List Text → List ℕ

-- `a & b` and `a | b` on the lowest bits of two flags.
unfoldable pub bit_and : (bits : ℕ) → ℕ → ℕ → ℕ
bit_and zero a b = 0
bit_and (suc n) a b = (a % 2) * (b % 2) + 2 * bit_and n (a / 2) (b / 2)

unfoldable pub bit_or : (bits : ℕ) → ℕ → ℕ → ℕ
bit_or zero a b = 0
bit_or (suc n) a b = (a % 2 + b % 2 - (a % 2) * (b % 2)) + 2 * bit_or n (a / 2) (b / 2)

abbrev pub is_upper : ℕ → Bool
is_upper c = leb b'A' c && leb c b'Z'

-- `isValidConfig`
unfoldable pub is_valid_config : Config → Bool
is_valid_config c =
    leb c.cluster_id u128_max
    && (ltb 0 (length c.replica_addresses)
        && (ltb 0 c.ledger
            && (leb c.ledger 0xffffffff
                && (ltb 0 c.code
                    && (leb c.code 0xffffffff
                        && (length c.currency == 3 && all is_upper c.currency))))))

-- `(value << 8n) | BigInt(byte)` over the bytes
unfoldable pub big_endian : ℕ → List ℕ → ℕ
big_endian n [] = n
big_endian n (b ∷ bs) = big_endian (n * 256 + b) bs

-- `value === 0n || value === U128_MAX ? 1n : value`
unfoldable pub legal_id : ℕ → ℕ
legal_id n = if n == 0 || n == u128_max then 1 else n

unfoldable pub digest_id : (List Text → List ℕ) → List Text → ℕ
digest_id digest parts =
    legal_id (big_endian 0 (take 16 (digest (codes "ritsei/tigerbeetle" ∷ (codes "v1" ∷ parts)))))

-- `accountId` of an account, by its scope.
unfoldable pub account_id_of : (List Text → List ℕ) → GetBalanceInput → ℕ
account_id_of digest i = digest_id digest (
    codes "account"
    ∷ (print i.mapping_version
        ∷ (i.tenant_id ∷ (i.legal_entity_id ∷ (i.account_id ∷ (to_upper i.currency ∷ []))))))

unfoldable pub transfer_id_of : (List Text → List ℕ) → PostJournalInput → ℕ → ℕ
transfer_id_of digest i index = digest_id digest (
    codes "transfer"
    ∷ (print i.mapping_version
        ∷ (i.tenant_id ∷ (i.legal_entity_id ∷ (i.operation_id ∷ (print index ∷ []))))))
