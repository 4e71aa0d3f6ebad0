-- ===== src/Ledger/Tigerbeetle/Ids.antt =====
-- The ids that the adapter derives: `digestId` of packages/kernel/src/tigerbeetle.ts.
use eclipse_erp.Base.{
  ℕ, zero, suc, ◌+◌, ◌*◌, ◌^◌, ◌≤◌, ◌<◌, subst, List, [], ◌∷◌, arith, length, take, All,
}
use native.Mathlib.Nat.{pow-suc, pow-le-pow_right}
use eclipse_erp.Text.{Text, codes}
use eclipse_erp.Ledger.Journal.{u128_max}
use eclipse_erp.Ledger.Tigerbeetle.{big_endian, legal_id, digest_id}

abbrev pub IsByte : ℕ → Type 0
IsByte b = b < 256

take-All : (n : ℕ) (bs : List ℕ) → All IsByte bs → All IsByte (take n bs)
take-All zero bs h = tt
take-All (suc n) [] h = tt
take-All (suc n) (b ∷ bs) h = (h.0, take-All n bs h.1)

length-take_le : (n : ℕ) (bs : List ℕ) → length (take n bs) ≤ n
length-take_le zero bs = omega arith
length-take_le (suc n) [] = omega arith
length-take_le (suc n) (b ∷ bs) = omega (arith, length-take_le n bs)

next_byte : (k n b : ℕ) → n < 256 ^ k → IsByte b → n * 256 + b < 256 ^ (k + 1)
next_byte k n b h byte =
    subst (λ e. n * 256 + b < 256 ^ e) {x = suc k} {y = k + 1} (omega arith)
      (omega (arith, pow-suc 256 k, h, byte))

big_endian-lt :
    (k m n : ℕ) (bs : List ℕ)
    → n < 256 ^ k
    → length bs ≤ m
    → All IsByte bs
    → big_endian n bs < 256 ^ (k + m)
unfolding big_endian
big_endian-lt k m n [] h l bytes =
    omega (arith, h, pow-le-pow_right {n = 256} (omega arith) {i = k} {j = k + m} (omega arith))
big_endian-lt k zero n (b ∷ bs) h l bytes = absurd (omega arith)
big_endian-lt k (suc m) n (b ∷ bs) h l bytes =
    subst (λ e. big_endian (n * 256 + b) bs < 256 ^ e) (omega arith)
      (big_endian-lt (k + 1) m (n * 256 + b) bs (next_byte k n b h bytes.0) (omega (arith, l))
        bytes.1)

-- Whatever bytes the digest gives, the id is one that the server takes: neither 0 nor the greatest
-- 128-bit number.
pub digest_id-legal :
    (digest : List Text → List ℕ) (parts : List Text)
    → All IsByte (digest (codes "ritsei/tigerbeetle" ∷ (codes "v1" ∷ parts)))
    → (0 < digest_id digest parts) × (digest_id digest parts < u128_max)
unfolding digest_id legal_id
digest_id-legal digest parts bytes =
    let all_bytes = digest (codes "ritsei/tigerbeetle" ∷ (codes "v1" ∷ parts)) in
    let bound =
      big_endian-lt 0 16 0 (take 16 all_bytes) (omega arith) (length-take_le 16 all_bytes)
        (take-All 16 all_bytes bytes) in
    ground (arith, bound)
