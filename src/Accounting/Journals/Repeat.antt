-- ===== src/Accounting/Journals/Repeat.antt =====
-- Posting a journal again: packages/accounting/src/service.ts.
use eclipse_erp.Base.{
  ℕ, ◌+◌, ◌≡◌, refl, sym, ◌∙◌, subst, inl, inr, Bool, true, false, none, some, List, [], ◌∷◌, arith,
  ltb, Option-cases, any, length, bool_eq,
}
use eclipse_erp.Base.Effect.{ok, Result-cases}
use eclipse_erp.Base.Reordered.{
  Reordered, same, keep, swap, chain, map-Reordered, all-Reordered, any-Reordered, length-Reordered,
}
use eclipse_erp.Text.{Text, codes, text_eq_refl, trim}
use eclipse_erp.Text.Order.{to_sorted-Reordered}
use eclipse_erp.Dict.{lookup, lookup-insert_self}
use eclipse_erp.Authorization.Service.{Decision}
use eclipse_erp.Accounting.Data.{
  JournalLine, JournalEntry, PostJournalInput, World, to_minor, valid_post_journal, valid_line,
}
use eclipse_erp.Accounting.Setup.{colon, permit}
use eclipse_erp.Accounting.Journals.{
  Environment, normal_line, check_lines, validate_lines, store_journal, post_journal,
  posted_journal, foreign_line, normalize_lines, texts_eq,
}
use eclipse_erp.Accounting.Books.{debits, credits, every, is_balanced, validate_lines-balanced}

texts_eq_refl : (ts : List Text) → texts_eq ts ts ≡ true
unfolding texts_eq
texts_eq_refl [] = refl
texts_eq_refl (t ∷ ts) = ground (arith, text_eq_refl t, texts_eq_refl ts)

debits-Reordered :
    (f : JournalLine → Bool) {ls ms : List JournalLine}
    → Reordered ls ms
    → debits f ls ≡ debits f ms
unfolding debits
debits-Reordered f (same ls) = refl
debits-Reordered f (keep l r) = omega (arith, debits-Reordered f r)
debits-Reordered f (swap l m ls) = omega arith
debits-Reordered f (chain r q) = debits-Reordered f r ∙ debits-Reordered f q

credits-Reordered :
    (f : JournalLine → Bool) {ls ms : List JournalLine}
    → Reordered ls ms
    → credits f ls ≡ credits f ms
unfolding credits
credits-Reordered f (same ls) = refl
credits-Reordered f (keep l r) = omega (arith, credits-Reordered f r)
credits-Reordered f (swap l m ls) = omega arith
credits-Reordered f (chain r q) = credits-Reordered f r ∙ credits-Reordered f q

normalize_lines-Reordered :
    {ls ms : List JournalLine} → Reordered ls ms → normalize_lines ls ≡ normalize_lines ms
unfolding normalize_lines
normalize_lines-Reordered r = to_sorted-Reordered (map-Reordered normal_line r)

-- A line of which both amounts or none are positive.
abbrev two_sided : JournalLine → Bool
two_sided l = bool_eq (ltb 0 (to_minor l.debit)) (ltb 0 (to_minor l.credit))

check_lines-none :
    (n d c : ℕ) (ls : List JournalLine) → check_lines n d c ls ≡ none → any two_sided ls ≡ false
unfolding check_lines
check_lines-none n d c [] h = refl
check_lines-none n d c (l ∷ ls) h =
    ground (arith, h, check_lines-none (n + 1) (d + to_minor l.debit) (c + to_minor l.credit) ls)

none-check_lines :
    (n d c : ℕ) (ls : List JournalLine)
    → any two_sided ls ≡ false
    → d + debits every ls ≡ c + credits every ls
    → check_lines n d c ls ≡ none
unfolding check_lines debits credits
none-check_lines n d c [] h k = ground (arith, k)
none-check_lines n d c (l ∷ ls) h k =
    ground (arith, h, k, none-check_lines (n + 1) (d + to_minor l.debit) (c + to_minor l.credit) ls)

validate_lines-Reordered :
    {ls ms : List JournalLine}
    → Reordered ls ms
    → validate_lines ls ≡ none
    → validate_lines ms ≡ none
unfolding validate_lines is_balanced
validate_lines-Reordered {ls} {ms} r h =
    let long : ltb (length ls) 2 ≡ false = ground (arith, h) in
    let checked : check_lines 0 0 0 ls ≡ none = ground (arith, h) in
    let sides = sym (any-Reordered two_sided r) ∙ check_lines-none 0 0 0 ls checked in
    let sums : 0 + debits every ms ≡ 0 + credits every ms =
      ground (
        arith,
        debits-Reordered every r,
        credits-Reordered every r,
        validate_lines-balanced ls h,
      ) in
    rw (sym (length-Reordered r), long) (none-check_lines 0 0 0 ms sides sums)

module _ {Json : Type 0} (v : Environment Json) where
  -- The journal stands under the reference, with these lines in some order.
  abbrev IsStored : PostJournalInput → JournalEntry → World Json → Type 0
  IsStored i j w =
      (lookup (colon i.tenant_id (trim i.reference)) w.journals ≡ some j)
      × (texts_eq (normalize_lines j.lines) (normalize_lines i.lines) ≡ true)

  store_journal-IsStored :
      (i : PostJournalInput) (id : Text) (now : ℕ) (j : JournalEntry) (w w' : World Json)
      → store_journal v i id now w ≡ (ok j, w')
      → IsStored i j w'
  unfolding store_journal
  store_journal-IsStored i id now j w w' h =
      let key = colon i.tenant_id (trim i.reference) in
      elim (Option-cases (lookup key w.journals)) [
        | inl fresh ↦ ground (
          arith,
          h,
          fresh,
          lookup-insert_self key (posted_journal v i id now) w.journals,
          texts_eq_refl (normalize_lines i.lines),
        )
        | inr (old, found) ↦ ground (arith, h, found)
      ]

  IsStored-store_journal :
      (i : PostJournalInput) (id : Text) (now : ℕ) (j : JournalEntry) (w : World Json)
      → IsStored i j w
      → store_journal v i id now w ≡ (ok j, w)
  unfolding store_journal
  IsStored-store_journal i id now j w (found, alike) = ground (arith, found, alike)

  store_journal-journals :
      (i : PostJournalInput) (id : Text) (now : ℕ) (w : World Json)
      → (store_journal v i id now w).1
        ≡ record w { journals = (store_journal v i id now w).1.journals }
  unfolding store_journal
  store_journal-journals i id now w =
      elim (Option-cases (lookup (colon i.tenant_id (trim i.reference)) w.journals)) [
        | inl fresh ↦ ground (arith, fresh)
        | inr (old, found) ↦ ground (arith, found)
      ]

  -- What a journal passes before it is stored.
  abbrev IsPassed : PostJournalInput → World Json → Type 0
  IsPassed i w =
      (valid_post_journal v.platform.is_uuid i ≡ true)
      × (validate_lines i.lines ≡ none)
      × (any (foreign_line i.tenant_id w) i.lines ≡ false)
      × ((d : Decision) × (permit i.principal i.tenant_id (codes "accounting.journal.post") w
            ≡ ok d))

  post_journal-IsPassed :
      (i : PostJournalInput) (id : Text) (now : ℕ) (w : World Json)
      → IsPassed i w
      → post_journal v i id now w ≡ store_journal v i id now w
  unfolding post_journal
  post_journal-IsPassed i id now w (valid, good, known, (d, may)) =
      ground (arith, valid, good, known, may)

  IsPassed-post_journal :
      (i : PostJournalInput) (id : Text) (now : ℕ) (j : JournalEntry) (w w' : World Json)
      → post_journal v i id now w ≡ (ok j, w')
      → IsPassed i w
  unfolding post_journal
  IsPassed-post_journal i id now j w w' h =
      elim (Result-cases (permit i.principal i.tenant_id (codes "accounting.journal.post") w)) [
        | inr (e, bad) ↦ absurd (ground (arith, h, bad))
        | inl (d, may) ↦
            let good : validate_lines i.lines ≡ none = ground (arith, h, may) in
            (ground (arith, h), good, ground (arith, h, may, good), (d, may))
      ]

  IsPassed-Reordered :
      (i : PostJournalInput) (w : World Json) (lines : List JournalLine)
      → Reordered i.lines lines
      → IsPassed i w
      → IsPassed (record i { lines = lines }) w
  unfolding valid_post_journal
  IsPassed-Reordered i w lines r (valid, good, known, (d, may)) = (
    ground (arith, valid, all-Reordered (valid_line v.platform.is_uuid) r),
    validate_lines-Reordered r good,
    sym (any-Reordered (foreign_line i.tenant_id w) r) ∙ known,
    (d, may),
  )

  -- A posted journal that is posted again, with its lines in any order, is returned as it was
  -- posted, whatever the new identifier and the time, and nothing changes.
  pub post_journal-Reordered :
      (i : PostJournalInput) (id : Text) (now : ℕ) (j : JournalEntry) (w w' : World Json)
      → post_journal v i id now w ≡ (ok j, w')
      → (lines : List JournalLine) (again : Text) (later : ℕ) → Reordered i.lines lines
      → post_journal v (record i { lines = lines }) again later w' ≡ (ok j, w')
  unfolding permit
  post_journal-Reordered i id now j w w' h lines again later r =
      let i' = record i { lines = lines } in
      let passed = IsPassed-post_journal i id now j w w' h in
      let stored = sym (post_journal-IsPassed i id now w passed) ∙ h in
      let (found, alike) = store_journal-IsStored i id now j w w' stored in
      let is : w' ≡ record w { journals = w'.journals } =
        subst (λ s. s.1 ≡ record w { journals = s.1.journals }) stored
          (store_journal-journals i id now w) in
      let permitted : IsPassed i' w' =
        subst (IsPassed i') (sym is) (IsPassed-Reordered i w lines r passed) in
      let same_lines =
        subst (λ ts. texts_eq (normalize_lines j.lines) ts ≡ true) (normalize_lines-Reordered r)
          alike in
      post_journal-IsPassed i' again later w' permitted
      ∙ IsStored-store_journal i' again later j w' (found, same_lines)
