-- ===== src/History/Paging/Sorted.antt =====
-- Rows in the order of a listing, and what a selection keeps of it.
use baijimu_codex_connector.Prelude.{
  All, Bool-cases, List, String, [], arith, false, inl, inr, true, ◌∷◌, ◌≡◌, Bool, ap,
  if◌then◌else◌, keep_if, refl, sym, ◌&&◌, ◌++◌, ◌∙◌,
}
use baijimu_codex_connector.History.Tables.{ahead, insert_row, order_by}
use baijimu_codex_connector.Prelude.Int.{ℤ, eq_ℤ}

module _ (sort : String) where
  pub ahead_trans :
      (a b c : ℤ) → ahead sort a b ≡ true → ahead sort b c ≡ true → ahead sort a c ≡ true
  ahead_trans a b c p q = ground arith

  pub ahead_irrefl : (a : ℤ) → ahead sort a a ≡ false
  ahead_irrefl a = ground arith

  pub ahead_asym : (a b : ℤ) → ahead sort a b ≡ true → ahead sort b a ≡ false
  ahead_asym a b p = ground arith

  pub ahead_total : (a b : ℤ) → eq_ℤ a b ≡ false → ahead sort a b ≡ false → ahead sort b a ≡ true
  ahead_total a b p q = ground arith

module _ {ℓ} {R : Type ℓ} (ordinal : R → ℤ) (sort : String) where
  -- Every row stands before those that follow it.
  abbrev pub Ordered : List R → Type ℓ
  Ordered [] = Unit {ℓ}
  Ordered (r ∷ rs) = All (λ q. ahead sort (ordinal r) (ordinal q) ≡ true) rs × Ordered rs

  -- No two rows have the same ordinal.
  abbrev pub Distinct : List R → Type ℓ
  Distinct [] = Unit {ℓ}
  Distinct (r ∷ rs) = All (λ q. eq_ℤ (ordinal r) (ordinal q) ≡ false) rs × Distinct rs

  pub insert_row-All :
      (P : R → Type 0) (r : R) (rs : List R) → P r → All P rs → All P (insert_row ordinal sort r rs)
  unfolding insert_row
  insert_row-All P r [] p _ = (p, tt)
  insert_row-All P r (q ∷ qs) p (h, hs) = elim (Bool-cases (ahead sort (ordinal r) (ordinal q))) [
    | inl e ↦ rw e (p, (h, hs))
    | inr e ↦ rw e (h, insert_row-All P r qs p hs)
  ]

  pub order_by-All : (P : R → Type 0) (rs : List R) → All P rs → All P (order_by ordinal sort rs)
  unfolding order_by
  order_by-All P [] _ = tt
  order_by-All P (r ∷ rs) (h, hs) =
      insert_row-All P r (order_by ordinal sort rs) h (order_by-All P rs hs)

  pub ahead-All :
      (r q : R) (qs : List R)
      → ahead sort (ordinal r) (ordinal q) ≡ true
      → All (λ s. ahead sort (ordinal q) (ordinal s) ≡ true) qs
      → All (λ s. ahead sort (ordinal r) (ordinal s) ≡ true) qs
  ahead-All r q [] e _ = tt
  ahead-All r q (s ∷ qs) e (h, hs) =
      (ahead_trans sort (ordinal r) (ordinal q) (ordinal s) e h, ahead-All r q qs e hs)

  pub insert_row-Ordered :
      (r : R) (rs : List R)
      → All (λ q. eq_ℤ (ordinal r) (ordinal q) ≡ false) rs
      → Ordered rs
      → Ordered (insert_row ordinal sort r rs)
  unfolding insert_row
  insert_row-Ordered r [] _ _ = (tt, tt)
  insert_row-Ordered r (q ∷ qs) (d, ds) (h, hs) =
      elim (Bool-cases (ahead sort (ordinal r) (ordinal q))) [
        | inl e ↦ rw e ((e, ahead-All r q qs e h), (h, hs))
        | inr e ↦
            let back = ahead_total sort (ordinal r) (ordinal q) d e in
            rw e (
              insert_row-All (λ s. ahead sort (ordinal q) (ordinal s) ≡ true) r qs back h,
              insert_row-Ordered r qs ds hs,
            )
      ]

  pub order_by-Ordered : (rs : List R) → Distinct rs → Ordered (order_by ordinal sort rs)
  unfolding order_by
  order_by-Ordered [] _ = tt
  order_by-Ordered (r ∷ rs) (d, ds) =
      insert_row-Ordered r (order_by ordinal sort rs)
        (order_by-All (λ q. eq_ℤ (ordinal r) (ordinal q) ≡ false) rs d) (order_by-Ordered rs ds)

  pub keep_if-All : (P : R → Type 0) (p : R → Bool) (rs : List R) → All P rs → All P (keep_if p rs)
  keep_if-All P p [] _ = tt
  keep_if-All P p (r ∷ rs) (h, hs) = elim (Bool-cases (p r)) [
    | inl e ↦ rw e (h, keep_if-All P p rs hs)
    | inr e ↦ rw e (keep_if-All P p rs hs)
  ]

  pub keep_if-Distinct : (p : R → Bool) (rs : List R) → Distinct rs → Distinct (keep_if p rs)
  keep_if-Distinct p [] _ = tt
  keep_if-Distinct p (r ∷ rs) (h, hs) = elim (Bool-cases (p r)) [
    | inl e ↦
        rw e
          (keep_if-All (λ q. eq_ℤ (ordinal r) (ordinal q) ≡ false) p rs h, keep_if-Distinct p rs hs)
    | inr e ↦ rw e (keep_if-Distinct p rs hs)
  ]

  pub insert_first :
      (r : R) (rs : List R)
      → All (λ s. ahead sort (ordinal r) (ordinal s) ≡ true) rs
      → insert_row ordinal sort r rs ≡ r ∷ rs
  unfolding insert_row
  insert_first r [] _ = refl
  insert_first r (q ∷ qs) (h, _) = rw h

  pub keep_if-insert_row :
      (p : R → Bool) (r : R) (rs : List R)
      → Ordered rs
      → keep_if p (insert_row ordinal sort r rs)
        ≡ (if p r then insert_row ordinal sort r (keep_if p rs) else keep_if p rs)
  unfolding insert_row
  keep_if-insert_row p r [] _ = refl
  keep_if-insert_row p r (q ∷ qs) (h, hs) = elim (Bool-cases (ahead sort (ordinal r) (ordinal q))) [
    | inl e ↦
        let later : All (λ s. ahead sort (ordinal r) (ordinal s) ≡ true) (q ∷ qs) =
          (e, ahead-All r q qs e h) in
        let first =
          insert_first r (keep_if p (q ∷ qs))
            (keep_if-All (λ s. ahead sort (ordinal r) (ordinal s) ≡ true) p (q ∷ qs) later) in
        rw e (elim (Bool-cases (p r)) [ inl k ↦ rw k (sym first) | inr k ↦ rw k ])
    | inr e ↦
        let ih = keep_if-insert_row p r qs hs in
        rw e (elim (Bool-cases (p r)) [
          | inl k ↦ elim (Bool-cases (p q)) [
            | inl l ↦ rw k (rw l (rw e (ap (◌∷◌ q) (rw k at ih))))
            | inr l ↦ rw k (rw l (rw k at ih))
          ]
          | inr k ↦ elim (Bool-cases (p q)) [
            | inl l ↦ rw k (rw l (ap (◌∷◌ q) (rw k at ih)))
            | inr l ↦ rw k (rw l (rw k at ih))
          ]
        ])
  ]

  pub keep_if-order_by :
      (p : R → Bool) (rs : List R)
      → Distinct rs
      → keep_if p (order_by ordinal sort rs) ≡ order_by ordinal sort (keep_if p rs)
  unfolding order_by
  keep_if-order_by p [] _ = refl
  keep_if-order_by p (r ∷ rs) (d, ds) =
      let step = keep_if-insert_row p r (order_by ordinal sort rs) (order_by-Ordered rs ds) in
      let ih = keep_if-order_by p rs ds in
      elim (Bool-cases (p r)) [
        | inl e ↦ rw e (rw e at step ∙ ap (insert_row ordinal sort r) ih)
        | inr e ↦ rw e (rw e at step ∙ ih)
      ]

  pub keep-All : (p : R → Bool) (rs : List R) → All (λ r. p r ≡ true) rs → keep_if p rs ≡ rs
  keep-All p [] _ = refl
  keep-All p (r ∷ rs) (h, hs) = rw h (ap (◌∷◌ r) (keep-All p rs hs))

  pub All-middle : (P : R → Type 0) (xs : List R) (r : R) (ys : List R) → All P (xs ++ r ∷ ys) → P r
  All-middle P [] r ys (h, _) = h
  All-middle P (x ∷ xs) r ys (_, hs) = All-middle P xs r ys hs

  -- Of ordered rows, those after one of them are the ones that follow it.
  pub keep_after :
      (xs : List R) (r : R) (ys : List R)
      → Ordered (xs ++ r ∷ ys)
      → keep_if (λ q. ahead sort (ordinal r) (ordinal q)) (xs ++ r ∷ ys) ≡ ys
  keep_after [] r ys (h, hs) =
      rw (ahead_irrefl sort (ordinal r)) (keep-All (λ q. ahead sort (ordinal r) (ordinal q)) ys h)
  keep_after (x ∷ xs) r ys (h, hs) =
      let before = All-middle (λ s. ahead sort (ordinal x) (ordinal s) ≡ true) xs r ys h in
      rw (ahead_asym sort (ordinal x) (ordinal r) before) (keep_after xs r ys hs)

  pub keep_if-keep_if :
      (p q both : R → Bool) (rs : List R)
      → ((r : R) → both r ≡ (p r && q r))
      → keep_if both rs ≡ keep_if q (keep_if p rs)
  keep_if-keep_if p q both [] same = refl
  keep_if-keep_if p q both (r ∷ rs) same = ground (arith, same r, keep_if-keep_if p q both rs same)

  pub kept-All : (p : R → Bool) (rs : List R) → All (λ r. p r ≡ true) (keep_if p rs)
  kept-All p [] = tt
  kept-All p (r ∷ rs) = elim (Bool-cases (p r)) [
    | inl e ↦ rw e (e, kept-All p rs)
    | inr e ↦ rw e (kept-All p rs)
  ]
