-- ===== src/Accounting/Cutover/Signed.antt =====
-- What it says that the signature of an artifact holds: packages/accounting/src/service.ts.
use eclipse_erp.Base.{
  ℕ, ◌≡◌, ◌≢◌, ◌⊎◌, List, sym, inl, inr, Bool, true, Option, none, some, arith, Option-cases,
}
use eclipse_erp.Base.Effect.{ok}
use eclipse_erp.Text.{Text, text_eq, text_eq→eq}
use eclipse_erp.Accounting.Evidence.{Artifact, Signer, Keys}
use eclipse_erp.Accounting.Cutover.{check_signature, no_verifier}

-- The signature of an artifact decodes and is accepted for the artifact's hash: by the keyring under
-- the artifact's key, or where there is no keyring by the signer, whose key is the artifact's.
abbrev pub IsSigned : Keys → Artifact → Type 0
IsSigned k a =
    (g : List ℕ) × (k.decode a.signature ≡ some g)
    × (((v : (key_id : Text) → (payload signature : List ℕ) → Option Bool) × (k.keyring ≡ some v)
          × (v a.signing_key_id (k.bytes a.artifact_hash) g ≡ some true))
        ⊎ ((k.keyring ≡ none)
            × (s : Signer) × (k.signer ≡ some s)
            × (s.key_id ≡ a.signing_key_id)
            × (s.verify (k.bytes a.artifact_hash) g ≡ some true)))

module _ (k : Keys) (a : Artifact) where
  signed-keyring :
      (g : List ℕ) (v : (key_id : Text) → (payload signature : List ℕ) → Option Bool)
      → check_signature k a ≡ ok true
      → k.decode a.signature ≡ some g
      → k.keyring ≡ some v
      → v a.signing_key_id (k.bytes a.artifact_hash) g ≡ some true
  unfolding check_signature
  signed-keyring g v h d r = ground (arith, h, d, r)

  signed-signer :
      (g : List ℕ)
      → check_signature k a ≡ ok true
      → no_verifier k a ≡ none
      → k.decode a.signature ≡ some g
      → k.keyring ≡ none
      → (s : Signer) × (k.signer ≡ some s)
        × (text_eq a.signing_key_id s.key_id ≡ true)
        × (s.verify (k.bytes a.artifact_hash) g ≡ some true)
  unfolding check_signature no_verifier
  signed-signer g h n d r = elim (Option-cases k.signer) [
    | inl missing ↦ absurd (ground (arith, n, r, missing))
    | inr (s, there) ↦ (s, there, ground (arith, n, r, there), ground (arith, h, d, r, there))
  ]

  signed-decodes : check_signature k a ≡ ok true → k.decode a.signature ≢ none
  unfolding check_signature
  signed-decodes h d = ground (arith, h, d)

  pub check_signature-IsSigned :
      check_signature k a ≡ ok true → no_verifier k a ≡ none → IsSigned k a
  check_signature-IsSigned h n = elim (Option-cases (k.decode a.signature)) [
    | inl missing ↦ absurd (signed-decodes h missing)
    | inr (g, d) ↦ elim (Option-cases k.keyring) [
      | inr (v, r) ↦ (g, d, inl (v, r, signed-keyring g v h d r))
      | inl r ↦
          let (s, there, same, accepted) = signed-signer g h n d r in
          (g, d, inr (r, s, there, sym (text_eq→eq a.signing_key_id s.key_id same), accepted))
    ]
  ]
