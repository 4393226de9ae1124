-- ===== src/History/Paging/Order.antt =====
-- The rows after a row: where a page ends, the next selection goes on with exactly the rows left.
use baijimu_codex_connector.Prelude.{
  All, Bool-cases, List, String, arith, false, inl, inr, true, ◌∷◌, ◌≡◌, Bool, ap, keep_if, refl,
  sym, ◌&&◌, ◌++◌, ◌==◌, ◌||◌, ◌∙◌,
}
use baijimu_codex_connector.History.Tables.{ahead, order_by, rows_after}
use baijimu_codex_connector.Prelude.Int.{ℤ, leb_ℤ}
use baijimu_codex_connector.History.Paging.Sorted.{
  ahead_trans, Distinct, order_by-All, order_by-Ordered, keep_if-All, keep_if-Distinct,
  keep_if-order_by, All-middle, keep_after, keep_if-keep_if, kept-All,
}

module _ (sort : String) where
  later_test :
      (head a b anchor : ℤ) (first : Bool)
      → (leb_ℤ a head && (first || ahead sort anchor a)) ≡ true
      → (leb_ℤ b head && ahead sort a b)
        ≡ ((leb_ℤ b head && (first || ahead sort anchor b)) && ahead sort a b)
  later_test head a b anchor first h = elim (Bool-cases (leb_ℤ b head)) [
    | inr e ↦ rw e
    | inl e ↦ rw e (elim (Bool-cases (ahead sort a b)) [
      | inl k ↦ rw k (
          goes_on first (ahead sort anchor a) (ahead sort anchor b)
            (λ t. ahead_trans sort anchor a b t k) h)
      | inr k ↦ rw k (sym (ends (first || ahead sort anchor b)))
    ])
  ]
    where
      ends : (x : Bool) → (x && false) ≡ false
      ends true = refl
      ends false = refl

      goes_on :
          (f x y : Bool)
          → (x ≡ true → y ≡ true)
          → (leb_ℤ a head && (f || x)) ≡ true
          → true ≡ ((f || y) && true)
      goes_on f x y t k = ground (arith, t)

module _ {ℓ} {R : Type ℓ} (ordinal : R → ℤ) (sort : String) where
  -- The rows selected after a row of a selection are those that follow it there.
  pub rows_after-rows_after :
      (head : ℤ) (id id' : String) (anchor : ℤ) (rs xs : List R) (r : R) (ys : List R)
      → Distinct ordinal sort rs
      → id' == "" ≡ false
      → rows_after ordinal sort head id anchor rs ≡ xs ++ r ∷ ys
      → rows_after ordinal sort head id' (ordinal r) rs ≡ ys
  unfolding rows_after
  rows_after-rows_after head id id' anchor rs xs r ys distinct named split =
      let wanted : R → Bool =
        λ q. leb_ℤ (ordinal q) head && (id == "" || ahead sort anchor (ordinal q)) in
      let later : R → Bool = λ q. ahead sort (ordinal r) (ordinal q) in
      let both : R → Bool =
        λ q. leb_ℤ (ordinal q) head && (id' == "" || ahead sort (ordinal r) (ordinal q)) in
      let there : wanted r ≡ true =
        All-middle ordinal sort (λ q. wanted q ≡ true) xs r ys
          (rw split at (
            order_by-All ordinal sort (λ q. wanted q ≡ true) (keep_if wanted rs)
              (kept-All ordinal sort wanted rs))) in
      let fused : keep_if both rs ≡ keep_if later (keep_if wanted rs) =
        keep_if-keep_if ordinal sort wanted later both rs
          (λ q. rw named (later_test sort head (ordinal r) (ordinal q) anchor (id == "") there)) in
      let sorted =
        order_by-Ordered ordinal sort (keep_if wanted rs)
          (keep_if-Distinct ordinal sort wanted rs distinct) in
      ap (order_by ordinal sort) fused
      ∙ sym (
          keep_if-order_by ordinal sort later (keep_if wanted rs)
            (keep_if-Distinct ordinal sort wanted rs distinct))
      ∙ ap (keep_if later) split
      ∙ keep_after ordinal sort xs r ys (rw split at sorted)

  pub rows_after-All :
      (P : R → Type 0) (head : ℤ) (id : String) (anchor : ℤ) (rs : List R)
      → All P rs
      → All P (rows_after ordinal sort head id anchor rs)
  unfolding rows_after
  rows_after-All P head id anchor rs h =
      let wanted : R → Bool =
        λ q. leb_ℤ (ordinal q) head && (id == "" || ahead sort anchor (ordinal q)) in
      order_by-All ordinal sort P (keep_if wanted rs) (keep_if-All ordinal sort P wanted rs h)
