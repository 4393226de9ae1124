-- ===== src/Catalog/Walk.antt =====
-- The pages of a list, followed from one to the next.
use baijimu_codex_connector.Catalog.{Search, ThreadRow, Threads, cut_page, page_of, matching}
use baijimu_codex_connector.Prelude.{
  [], List, arith, drop, drop-drop, false, last, length, length-drop, length-take, ltb→ge, ltb→lt,
  none, some, suc, take, take-append-drop, take-take, take_all, true, zero, ℕ, ◌++◌, ◌+◌, ◌<◌, ◌≡◌,
  ◌≤◌, Bool-cases, inl, inr, refl, sym, ◌∷◌,
}

-- The rows of the pages from a search on, each page at the offset that the one before it gave.
pub pages_from : ℕ → Search → Threads → List ThreadRow
pages_from zero search db = []
pages_from (suc fuel) search db =
    let (rows, next) = page_of search db in
    elim next [ none ↦ rows | some n ↦ rows ++ pages_from fuel (record search { offset = n }) db ]

cut_page-drop :
    {A : Type 0} (limit offset : ℕ) (rs : List A)
    → (cut_page limit offset rs).0 ++ drop (offset + limit) rs ≡ drop offset rs
unfolding cut_page
cut_page-drop limit offset rs =
    rw (take-take limit (limit + 1) (drop offset rs) (omega arith))
      (rw (← drop-drop limit offset rs) (take-append-drop limit (drop offset rs)))

cut_page_last :
    {A : Type 0} (limit offset : ℕ) (rs : List A)
    → (cut_page limit offset rs).1 ≡ false
    → (cut_page limit offset rs).0 ≡ drop offset rs
unfolding cut_page
cut_page_last limit offset rs last =
    let few = ltb→ge limit (length (take (limit + 1) (drop offset rs))) last in
    let short : length (drop offset rs) ≤ limit =
      omega (arith, few, length-take (limit + 1) (drop offset rs)) in
    rw (take-take limit (limit + 1) (drop offset rs) (omega arith))
      (take_all limit (drop offset rs) short)

-- There is a next page only where rows are left.
pub cut_page_more :
    {A : Type 0} (limit offset : ℕ) (rs : List A)
    → (cut_page limit offset rs).1 ≡ true
    → offset + limit < length rs
unfolding cut_page
cut_page_more limit offset rs more =
    let many = ltb→lt limit (length (take (limit + 1) (drop offset rs))) more in
    omega (arith, many, length-take (limit + 1) (drop offset rs), length-drop offset rs)

drop_all : {A : Type 0} (n : ℕ) (xs : List A) → length xs ≤ n → drop n xs ≡ []
drop_all zero [] h = refl
drop_all zero (x ∷ xs) h = absurd (omega arith)
drop_all (suc n) [] h = refl
drop_all (suc n) (x ∷ xs) h = drop_all n xs (omega (arith, h))

-- Following the pages of a list from a search on gives all its rows from that offset, each once and
-- in order, whatever the limit, if it is not zero; `fuel` pages are enough where no more rows are left.
pub pages_from_whole :
    (fuel : ℕ) (search : Search) (db : Threads)
    → 0 < search.limit
    → length (matching search.filter db) < fuel + search.offset
    → pages_from fuel search db ≡ drop search.offset (matching search.filter db)
unfolding pages_from page_of
pages_from_whole zero search db some_limit enough =
    sym (drop_all search.offset (matching search.filter db) (omega (arith, enough)))
pages_from_whole (suc fuel) search db some_limit enough =
    let all_rows = matching search.filter db in
    elim (Bool-cases (cut_page search.limit search.offset all_rows).1) [
      | inr last ↦
          rw (last, pages_from, page_of) (cut_page_last search.limit search.offset all_rows last)
      | inl more ↦
          let next = search.offset + search.limit in
          let rest =
            pages_from_whole fuel (record search { offset = next }) db some_limit
              (omega (arith, enough)) in
          rw (more, pages_from, page_of)
            (rw rest (cut_page-drop search.limit search.offset all_rows))
    ]
