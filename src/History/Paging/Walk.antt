-- ===== src/History/Paging/Walk.antt =====
-- The chain of pages that a client follows: each request carries the cursor that the page before
-- it gave.
use baijimu_codex_connector.History.Tables.{rows_after}
use baijimu_codex_connector.History.Paging.Sorted.{All-middle, Distinct}
use baijimu_codex_connector.History.Paging.Order.{rows_after-All, rows_after-rows_after}
use baijimu_codex_connector.History.Cursor.{Cursor}
use baijimu_codex_connector.Http.{Http}
use baijimu_codex_connector.Json.{Value}
use baijimu_codex_connector.Prelude.Int.{ℤ}
use baijimu_codex_connector.Prelude.{
  Bool-cases, List, Option, String, [], ap, arith, drop, inl, inr, length, ltb, map, nat_eq, not,
  ok, ok-inj, refl, some, suc, sym, take, zero, ℕ, ◌&&◌, ◌++◌, ◌+◌, ◌<◌, ◌∙◌, ◌∷◌, ◌≡◌, All, false,
  none, true, ◌==◌, ◌>>=◌, length-drop, ltb→ge, ltb→lt, subst, take-append-drop, take_all, ◌≤◌,
}
use baijimu_codex_connector.History.Paging.{Entry, Page, fill, page_bytes, advance, page}
use baijimu_codex_connector.History.Paging.Pages.{ReadsAs, place_of, page-Taken}

ReadsAs-take :
    (n : ℕ) (es : List Entry) (vs : List Value) → ReadsAs es vs → ReadsAs (take n es) (take n vs)
ReadsAs-take zero es vs h = refl
ReadsAs-take (suc n) [] vs h = rw h
ReadsAs-take (suc n) (e ∷ es) [] h = absurd h
ReadsAs-take (suc n) (e ∷ es) (v ∷ vs) (h, hs) = (h, ReadsAs-take n es vs hs)

ReadsAs-drop :
    (n : ℕ) (es : List Entry) (vs : List Value) → ReadsAs es vs → ReadsAs (drop n es) (drop n vs)
ReadsAs-drop zero es vs h = h
ReadsAs-drop (suc n) [] vs h = rw h
ReadsAs-drop (suc n) (e ∷ es) [] h = absurd h
ReadsAs-drop (suc n) (e ∷ es) (v ∷ vs) (h, hs) = ReadsAs-drop n es vs hs

ReadsAs_unique : (es : List Entry) (vs ws : List Value) → ReadsAs es vs → ReadsAs es ws → vs ≡ ws
ReadsAs_unique [] vs ws h k = h ∙ sym k
ReadsAs_unique (e ∷ es) [] ws h k = absurd h
ReadsAs_unique (e ∷ es) (v ∷ vs) [] h k = absurd k
ReadsAs_unique (e ∷ es) (v ∷ vs) (w ∷ ws) (h, hs) (k, ks) =
    cc (ok-inj e.value h k, ReadsAs_unique es vs ws hs ks)

ReadsAs_length : (es : List Entry) (vs : List Value) → ReadsAs es vs → length es ≡ length vs
ReadsAs_length [] vs h = ap length (sym h)
ReadsAs_length (e ∷ es) [] h = absurd h
ReadsAs_length (e ∷ es) (v ∷ vs) (_, hs) = ap suc (ReadsAs_length es vs hs)

fill_total :
    (size : Value → ℕ) (most : ℕ) (es : List Entry) (vs before : List Value) (bytes : ℕ)
    (place : Option (String × ℤ))
    → ReadsAs es vs
    → (p : Page) × (fill size most es before bytes place ≡ ok p)
unfolding fill
fill_total size most [] vs before bytes place h = (_, refl)
fill_total size most (e ∷ es) [] before bytes place h = absurd h
fill_total size most (e ∷ es) (v ∷ vs) before bytes place (h, hs) =
    elim (Bool-cases (nat_eq (length before) most)) [
      | inl full ↦ (record { rows = before; more = true; last = place }, rw full)
      | inr room ↦
          elim (Bool-cases (ltb page_bytes (bytes + size v) && not (nat_eq (length before) 0))) [
            | inl big ↦
                (record { rows = before; more = true; last = place }, rw room (rw h (rw big)))
            | inr small ↦
                let (p, k) =
                  fill_total size most es vs (before ++ v ∷ []) (bytes + size v)
                    (some (e.id, e.ordinal)) hs in
                (p, rw room (rw h (rw small k)))
          ]
    ]

module _ {ℓ} {R : Type ℓ} (entry : R → Entry) where
  -- The row at a place, with the rows before and after it.
  split_at :
      (n : ℕ) (rs : List R) (place : Option (String × ℤ))
      → n < length rs
      → (xs : List R) × (r : R) × (rs ≡ xs ++ r ∷ drop (suc n) rs)
        × (place_of (take (suc n) (map entry rs)) place ≡ some ((entry r).id, (entry r).ordinal))
  split_at zero [] place h = absurd (omega arith)
  split_at zero (r ∷ rs) place h = ([], r, refl, refl)
  split_at (suc n) [] place h = absurd (omega arith)
  split_at (suc n) (r ∷ rs) place h =
      let (xs, q, joined, last_place) =
        split_at n rs (some ((entry r).id, (entry r).ordinal)) (omega arith) in
      (r ∷ xs, q, ap (◌∷◌ r) joined, last_place)

  map-drop : (n : ℕ) (rs : List R) → map entry (drop n rs) ≡ drop n (map entry rs)
  map-drop zero rs = refl
  map-drop (suc n) [] = refl
  map-drop (suc n) (r ∷ rs) = map-drop n rs

  length-map : (rs : List R) → length (map entry rs) ≡ length rs
  length-map [] = refl
  length-map (r ∷ rs) = ap suc (length-map rs)

module _ {ℓ} {R : Type ℓ} (size : Value → ℕ) (most : ℕ) (ordinal : R → ℤ) (id : R → String)
    (value : R → Http Value) (sort : String) (rs : List R) where
  abbrev pub entry_of : R → Entry
  entry_of r = record { id = id r; ordinal = ordinal r; value = value r }

  -- The rows that a request with the cursor selects.
  abbrev pub selected : Cursor → List R
  selected c = rows_after ordinal sort c.head c.id c.ordinal rs

  -- The data of the pages, of so many at most, each with the cursor that the page before it gave.
  unfoldable pub walk : ℕ → Cursor → Http (List Value)
  walk zero c = ok []
  walk (suc f) c = page size most (map entry_of (selected c)) >>= λ p. elim p.more [
    | true ↦ walk f (advance c p.last) >>= λ rest. ok (p.rows ++ rest)
    | false ↦ ok p.rows
  ]

  walk_last :
      (f : ℕ) (c : Cursor) (p : Page)
      → page size most (map entry_of (selected c)) ≡ ok p
      → p.more ≡ false
      → walk (suc f) c ≡ ok p.rows
  unfolding walk
  walk_last f c p h k =
      let onward : Page → Http (List Value) = λ q. elim q.more [
        | true ↦ walk f (advance c q.last) >>= λ rest. ok (q.rows ++ rest)
        | false ↦ ok q.rows
      ] in
      ap (λ (m : Http Page). m >>= onward) h ∙ rw k

  walk_on :
      (f : ℕ) (c : Cursor) (p : Page)
      → page size most (map entry_of (selected c)) ≡ ok p
      → p.more ≡ true
      → walk (suc f) c ≡ (walk f (advance c p.last) >>= λ rest. ok (p.rows ++ rest))
  unfolding walk
  walk_on f c p h k =
      let onward : Page → Http (List Value) = λ q. elim q.more [
        | true ↦ walk f (advance c q.last) >>= λ rest. ok (q.rows ++ rest)
        | false ↦ ok q.rows
      ] in
      ap (λ (m : Http Page). m >>= onward) h ∙ rw k

  page_total :
      (c : Cursor) (vs : List Value)
      → ReadsAs (map entry_of (selected c)) vs
      → (p : Page) × (page size most (map entry_of (selected c)) ≡ ok p)
  unfolding page
  page_total c vs h =
      fill_total size most (take (most + 1) (map entry_of (selected c))) (take (most + 1) vs) [] 0
        none (ReadsAs-take (most + 1) (map entry_of (selected c)) vs h)

  -- Where a page leaves rows, the next selection is those rows.
  selected-advance :
      (c : Cursor) (n : ℕ)
      → Distinct ordinal sort rs
      → All (λ r. id r == "" ≡ false) rs
      → suc n < length (selected c)
      → selected (advance c (place_of (take (suc n) (map entry_of (selected c))) none))
        ≡ drop (suc n) (selected c)
  unfolding advance
  selected-advance c n distinct named more =
      let (xs, r, joined, place) = split_at entry_of n (selected c) none (omega (arith, more)) in
      let all_named =
        rows_after-All ordinal sort (λ r. id r == "" ≡ false) c.head c.id c.ordinal rs named in
      let r_named : id r == "" ≡ false =
        All-middle ordinal sort (λ r. id r == "" ≡ false) xs r (drop (suc n) (selected c))
          (rw joined at all_named) in
      rw place (
        rows_after-rows_after ordinal sort c.head c.id (id r) c.ordinal rs xs r
          (drop (suc n) (selected c)) distinct r_named joined)

  selected-drop :
      (c : Cursor) (n : ℕ)
      → Distinct ordinal sort rs
      → All (λ r. id r == "" ≡ false) rs
      → 1 ≤ n
      → n < length (selected c)
      → selected (advance c (place_of (take n (map entry_of (selected c))) none))
        ≡ drop n (selected c)
  selected-drop c zero distinct named one more = absurd (omega arith)
  selected-drop c (suc n) distinct named one more = selected-advance c n distinct named more

  -- Pages of one row or more, read from a cursor on with each page's cursor for the next, give all the
  -- rows selected there, each once and in order: if every row can be read, no two rows have the same
  -- ordinal, no row's id is empty, and there are more requests than rows.
  pub walk_whole :
      (f : ℕ) (c : Cursor) (vs : List Value)
      → 1 ≤ most
      → Distinct ordinal sort rs
      → All (λ r. id r == "" ≡ false) rs
      → ReadsAs (map entry_of (selected c)) vs
      → length (selected c) < f
      → walk f c ≡ ok vs
  walk_whole zero c vs one distinct named readable fuel = absurd (omega arith)
  walk_whole (suc f) c vs one distinct named readable fuel =
      let es = map entry_of (selected c) in
      let (p, paged) = page_total c vs readable in
      let t = page-Taken size most es p one paged in
      let long = length-map entry_of (selected c) in
      let level = ReadsAs_length es vs readable in
      let rows : p.rows ≡ take t.n vs =
        ReadsAs_unique (take t.n es) p.rows (take t.n vs) t.reads
          (ReadsAs-take t.n es vs readable) in
      elim (Bool-cases (ltb t.n (length es))) [
        | inr done ↦
            let over = ltb→ge t.n (length es) done in
            walk_last f c p paged (t.whole ∙ done)
            ∙ ap ok (rows ∙ take_all t.n vs (omega (arith, over, level)))
        | inl goes_on ↦
            let fewer = ltb→lt t.n (length es) goes_on in
            let rest : selected (advance c p.last) ≡ drop t.n (selected c) =
              ap (λ l. selected (advance c l)) t.place_is
              ∙ selected-drop c t.n distinct named (omega (arith, t.progress, fewer))
                  (omega (arith, fewer, long)) in
            let later : ReadsAs (map entry_of (selected (advance c p.last))) (drop t.n vs) =
              subst (λ e. ReadsAs e (drop t.n vs))
                (sym (ap (map entry_of) rest ∙ map-drop entry_of t.n (selected c)))
                (ReadsAs-drop t.n es vs readable) in
            let ih = walk_whole f (advance c p.last) (drop t.n vs) one distinct named later (
              omega (
                arith,
                ap length rest,
                length-drop t.n (selected c),
                fuel,
                t.progress,
                fewer,
                long,
              )) in
            walk_on f c p paged (t.whole ∙ goes_on)
            ∙ ap (λ (m : Http (List Value)). m >>= λ others. ok (p.rows ++ others)) ih
            ∙ ap ok (ap (λ l. l ++ drop t.n vs) rows ∙ take-append-drop t.n vs)
      ]
