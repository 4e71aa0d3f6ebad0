-- ===== src/Tests/Cutover.antt =====
-- The change of the financial engine of a legal entity, with a signer whose signature is the text.
use eclipse_erp.Base.{ℕ, ◌≡◌, refl, true, none, some, List, [], ◌∷◌, ◌++◌, arith, subst}
use eclipse_erp.Base.Effect.{ok}
use eclipse_erp.Text.{Text, codes, text_eq, text_eq_refl, non_empty_string, currency_code}
use eclipse_erp.Text.Decimal.{print}
use eclipse_erp.Dict.{lookup, insert}
use eclipse_erp.Kernel.Amount.{is_minor_amount, span_digits}
use eclipse_erp.Authorization.Capabilities.{is_capability, capability_ids}
use eclipse_erp.Authorization.Service.{
  Principal, Decision, membership_key, has_grant, add_grant, authorize, with_initial_grants,
  GrantInput,
}
use eclipse_erp.Messaging.Events.{
  Platform, after_template, is_zone, is_fraction_zone, iso_timestamp, instant_string,
}
use eclipse_erp.Sales.Service as Sales
use eclipse_erp.Accounting.Evidence.{
  cutover_rehearsal, fenced, Evidence, is_hash, valid_evidence, Artifact, Field, kind_name,
  completeness_name, canonical, Signer, Keys, hash_of,
}
use eclipse_erp.Accounting.Data.{
  postgresql, CutoverStatus, preparing, Control, CutoverInput, RecordArtifactInput, ApproveInput,
  ConfigureInput, World,
}
use eclipse_erp.Accounting.Setup.{
  colon, permit, new_control, test_control, configure_legal_entity, prepare_cutover,
  activate_cutover,
}
use eclipse_erp.Accounting.Cutover.{
  new_artifact, approved_control, check_signature, no_verifier, refusal, store_artifact,
  record_artifact, approve_prepared, approve_control, approve_cutover,
}
use eclipse_erp.Accounting.Cutover.Controls.{valid_control, IsControlled, operations-IsControlled}
use eclipse_erp.Accounting.Cutover.Approved.{
  IsApprovedBy, approve_cutover-verified, approve_cutover-any_tenant,
}
use eclipse_erp.Accounting.Cutover.Recorded.{IsKeys, approval_of, recorded-approves}
use eclipse_erp.Tests.Messaging.{platform}

abbrev clock : Platform ℕ
clock = record platform { iso_string = λ n. codes "2026-01-02T03:04:05.678Z" }

abbrev signer : Signer
signer = record { key_id = codes "k1"; verify = λ m g. some (text_eq m g); sign = λ m. some m }

unfoldable names : List (Text × Field) → Text
names [] = []
names ((n, f) ∷ fs) = n ++ names fs

abbrev keys : Keys
keys = record {
  signer = some signer;
  keyring = none;
  bytes = λ s. s;
  encode = λ b. b;
  decode = λ s. some s;
  digest = names;
}

keys-IsKeys : IsKeys keys
keys-IsKeys = record {
  decodes = λ b. refl;
  verifies = λ s m g here signed. verifies s m g (ground (arith, here)) signed;
  holds = λ s v m g here there signed. absurd (ground (arith, there));
}
  where
    verifies :
        (s : Signer) (m g : List ℕ) → signer ≡ s → s.sign m ≡ some g → s.verify m g ≡ some true
    verifies s m g is =
        subst (λ x. x.sign m ≡ some g → x.verify m g ≡ some true) is
          (λ e. ground (arith, e, text_eq_refl m))

abbrev hex : Text
hex = codes "0123456789abcdef0123456789abcdef0123456789abcdef0123456789abcdef"

abbrev day : Text
day = codes "2026-01-02T03:04:05.678Z"

abbrev evidence : Evidence
evidence = record {
  tenant_id = codes "t";
  legal_entity_id = codes "le";
  kind = cutover_rehearsal;
  completeness = fenced;
  scope = codes "all";
  schema_version = 1;
  mapping_version = 1;
  currency = codes "EUR";
  source_watermark = codes "w1";
  target_watermark = codes "w2";
  source_snapshot_ref = codes "s1";
  target_snapshot_ref = codes "s2";
  operation_set_hash = hex;
  account_balance_hash = hex;
  transfer_set_hash = hex;
  projection_hash = none;
  source_debit_minor = codes "100";
  source_credit_minor = codes "100";
  target_debit_minor = codes "100";
  target_credit_minor = codes "100";
  account_count = 2;
  operation_count = 1;
  transfer_count = 1;
  mismatch_count = 0;
  started_at = day;
  completed_at = day;
}

abbrev ann : Principal
ann = record { user_account_id = codes "ann"; session_id = codes "s" }

abbrev may : Text → GrantInput
may capability = record {
  user_account_id = codes "ann";
  tenant_id = codes "t";
  capability = capability;
}

abbrev sold : Sales.World ℕ
sold = record {
  authorization =
      with_initial_grants
        (may (codes "accounting.financial_engine.activate")
          ∷ (may (codes "accounting.financial_evidence.record") ∷ []))
        (record { memberships = []; grants = [] });
  messaging = record { events = []; event_ids = []; receipts = []; clock = 0 };
  customers = [];
  quotations = [];
  orders = [];
  confirmation_keys = [];
}

abbrev under_way : Control
under_way = record (new_control (codes "t") (codes "le")) { status = preparing }

abbrev firm : World ℕ
firm = record {
  sales = sold;
  configurations =
      (
        codes "t:le",
        record {
          tenant_id = codes "t";
          legal_entity_id = codes "le";
          base_currency = codes "EUR";
          fiscal_year_start_month = 1;
          posting_enabled = true;
          financial_engine = postgresql;
        },
      )
      ∷ [];
  profiles = [];
  periods = [];
  accounts = [];
  journals = [];
  controls = (codes "t:le", under_way) ∷ [];
  artifacts = [];
}

abbrev recording : RecordArtifactInput
recording = record { principal = ann; tenant_id = codes "t"; evidence = evidence }

abbrev artifact : Artifact
artifact = new_artifact clock keys recording (codes "k1") (hash_of keys evidence) (codes "f1") 5

abbrev recorded : World ℕ
recorded = (record_artifact clock keys recording (codes "f1") 5 firm).1

abbrev approval : ApproveInput
approval = approval_of recording ann (codes "f1")

abbrev agreed : Control
agreed = approved_control clock approval artifact 6 under_way

abbrev decision : Decision
decision = record {
  tenant_id = codes "t";
  capability = codes "accounting.financial_engine.activate";
}

running : ℕ
unfolding names with_initial_grants authorize is_capability capability_ids membership_key has_grant
    add_grant instant_string iso_timestamp is_fraction_zone is_zone after_template span_digits print
    non_empty_string currency_code is_minor_amount is_hash valid_evidence kind_name
    completeness_name canonical lookup insert text_eq permit test_control check_signature
    no_verifier refusal store_artifact record_artifact approve_prepared approve_control
    approve_cutover valid_control
running = 0

recording_test : record_artifact clock keys recording (codes "f1") 5 firm ≡ (ok artifact, recorded)
unfolding running
recording_test = refl

permitted :
    permit ann (codes "t") (codes "accounting.financial_engine.activate") recorded ≡ ok decision
unfolding running
permitted = refl

there : lookup (colon (codes "t") (codes "le")) recorded.controls ≡ some under_way
unfolding running
there = refl

recorded-approves_example : (approve_cutover clock keys approval 6 recorded).0 ≡ ok agreed
recorded-approves_example =
    recorded-approves clock keys recording (codes "f1") 5 artifact firm recorded keys-IsKeys
      recording_test refl refl refl ann decision under_way 6 permitted there refl

firm-IsControlled : IsControlled firm
unfolding running
firm-IsControlled = refl

operations-IsControlled_example :
    ((i : ConfigureInput) → IsControlled (configure_legal_entity i firm).1)
    × ((i : CutoverInput) → IsControlled (prepare_cutover clock.is_uuid i firm).1)
    × ((i : RecordArtifactInput) (id : Text) (now : ℕ)
        → IsControlled (record_artifact clock keys i id now firm).1)
    × ((i : ApproveInput) (now : ℕ) → IsControlled (approve_cutover clock keys i now firm).1)
    × ((i : CutoverInput) → IsControlled (activate_cutover clock.is_uuid i firm).1)
operations-IsControlled_example = operations-IsControlled clock keys firm firm-IsControlled

abbrev switched : World ℕ
switched = (approve_cutover clock keys approval 6 recorded).1

approving_test : approve_cutover clock keys approval 6 recorded ≡ (ok agreed, switched)
unfolding running
approving_test = refl

approve_cutover-verified_example :
    (a : Artifact) × IsApprovedBy clock keys approval recorded a
    × (agreed.status ≡ CutoverStatus.approved)
    × (agreed.verification_hash ≡ some a.artifact_hash)
    × (agreed.cutover_watermark ≡ some a.evidence.target_watermark)
    × (lookup (colon (codes "t") (codes "le")) switched.controls ≡ some agreed)
approve_cutover-verified_example =
    approve_cutover-verified clock keys approval 6 agreed under_way recorded switched there refl
      approving_test

stored : lookup (codes "f1") recorded.artifacts ≡ some artifact
unfolding running
stored = refl

approve_cutover-any_tenant_example :
    (approve_cutover clock keys approval 6 (record recorded {
      artifacts =
          insert (codes "f1") (record artifact { tenant_id = codes "other" }) recorded.artifacts;
    })).0
    ≡ (approve_cutover clock keys approval 6 recorded).0
approve_cutover-any_tenant_example =
    approve_cutover-any_tenant clock keys approval 6 artifact (codes "other") recorded stored
