-- ===== src/Catalog/Resume.antt =====
-- The cursor that a page gives, sent back with the same request.
use baijimu_codex_connector.Text.Numbers.{parse_unsigned}
use baijimu_codex_connector.Text.{Chars}
use baijimu_codex_connector.Catalog.{
  Search, ThreadRow, Threads, matching, next_cursor, page_of, parse_natural, read_filter,
  read_search, clamp, read_offset, cut_page,
}
use baijimu_codex_connector.Catalog.Walk.{cut_page_more}
use baijimu_codex_connector.Prelude.{
  ◌==◌, ◌∷◌, List, String, arith, codes, false, length, nat_eq, ok, refl, some, subst, sym, ℕ, ◌<◌,
  ◌^◌, ◌∙◌, ◌≡◌, ◌≤◌, >>=-eq-ok, ap, none, Bool, if◌then◌else◌, true, ◌+◌,
}
use baijimu_codex_connector.Json.{
  index, Object, Value, get, insert, obj, as_u64, null, unwrap_or, string,
}
use baijimu_codex_connector.Json.Laws.{get-obj, lookup-insert, lookup-insert_self}
use baijimu_codex_connector.Invoke.Input.{decimal}
use baijimu_codex_connector.Text.Decimal.{decimal_head, parse_unsigned-decimal}

parse_natural_digit :
    (c : ℕ) (cs : Chars) → 48 ≤ c → parse_natural (c ∷ cs) ≡ parse_unsigned (2 ^ 63) (c ∷ cs)
unfolding parse_natural
parse_natural_digit c cs low = let other : nat_eq c b'-' ≡ false = ground arith in rw other

parse_natural-decimal : (n : ℕ) → n < 2 ^ 63 → parse_natural (codes (decimal n)) ≡ some n
parse_natural-decimal n small =
    let (c, cs, head, low, _) = decimal_head n in
    let plain =
      subst (λ s. parse_natural s ≡ parse_unsigned (2 ^ 63) s) (sym head)
        (parse_natural_digit c cs low) in
    plain ∙ parse_unsigned-decimal (2 ^ 63) n small

index_by : (key : String) (v w : Value) → get key v ≡ get key w → index key v ≡ index key w
unfolding index
index_by key v w e = ap (λ o. elim o [ none ↦ null | some x ↦ x ]) e

-- What a request asks for, with an offset.
abbrev search_at : Value → ℕ → Search
search_at body n = record {
  limit = clamp 1 100 (unwrap_or (as_u64 (index "limit" body)) 50);
  offset = n;
  filter = read_filter body;
}

read_search_at :
    (body : Value) (n : ℕ)
    → read_offset (get "cursor" body) ≡ ok n
    → read_search body ≡ ok (search_at body n)
unfolding read_search
read_search_at body n e = rw (e, read_search)

read_search-ok :
    (body : Value) (first : Search)
    → read_search body ≡ ok first
    → (n : ℕ) × (search_at body n ≡ first)
unfolding read_search
read_search-ok body first h =
    let (n, _, e) = >>=-eq-ok (read_offset (get "cursor" body)) _ h in (n, cc e)

module _ (v : Value) (fs : Object) where
  abbrev sent_back : Value
  sent_back = obj (insert "cursor" v fs)

  index_same : (key : String) → ("cursor" == key) ≡ false → index key sent_back ≡ index key (obj fs)
  index_same key other =
      let e : get key sent_back ≡ get key (obj fs) =
        get-obj key (insert "cursor" v fs)
        ∙ lookup-insert "cursor" key v fs
        ∙ rw other (sym (get-obj key fs)) in
      index_by key sent_back (obj fs) e

  read_filter_same : read_filter sent_back ≡ read_filter (obj fs)
  unfolding read_filter
  read_filter_same = rw (
    index_same "sortDirection" refl,
    index_same "sortKey" refl,
    index_same "archived" refl,
    index_same "searchTerm" refl,
    index_same "cwd" refl,
  )

  get_cursor : get "cursor" sent_back ≡ some v
  get_cursor = get-obj "cursor" (insert "cursor" v fs) ∙ lookup-insert_self "cursor" v fs

read_offset-decimal : (n : ℕ) → n < 2 ^ 63 → read_offset (some (string (decimal n))) ≡ ok n
unfolding read_offset
read_offset-decimal n small = rw (parse_natural-decimal n small, read_offset)

more_some :
    (more : Bool) (place n : ℕ)
    → (if more then some place else none) ≡ some n
    → (more ≡ true) × (place ≡ n)
more_some true place n h = (refl, cc h)
more_some false place n h = cc h

next_below :
    (db : Threads) (first : Search) (rows : List ThreadRow) (n : ℕ)
    → page_of first db ≡ (rows, some n)
    → n < length (matching first.filter db)
unfolding page_of
next_below db first rows n h =
    let all_rows = matching first.filter db in
    let (more, same) =
      more_some (cut_page first.limit first.offset all_rows).1 (first.offset + first.limit) n
        (ap (λ p. p.1) h) in
    let below = cut_page_more first.limit first.offset all_rows more in omega (arith, below, same)

-- The request that is sent again with the cursor that its page gave reads as the same search from the
-- place where that page ended, if fewer than 2^63 rows match.
pub read_search-next :
    (db : Threads) (fs : Object) (first : Search) (rows : List ThreadRow) (n : ℕ)
    → read_search (obj fs) ≡ ok first
    → page_of first db ≡ (rows, some n)
    → length (matching first.filter db) < 2 ^ 63
    → read_search (obj (insert "cursor" (next_cursor (some n)) fs))
      ≡ ok (record first { offset = n })
read_search-next db fs first rows n reads page small =
    let v = next_cursor (some n) in
    let (before, same) = read_search-ok (obj fs) first reads in
    let below : n < 2 ^ 63 = omega (arith, next_below db first rows n page, small) in
    let there : read_offset (get "cursor" (sent_back v fs)) ≡ ok n =
      ap read_offset (get_cursor v fs) ∙ read_offset-decimal n below in
    let again : Search → Search = λ f. record f { offset = n } in
    read_search_at (sent_back v fs) n there
    ∙ ap ok (rw (index_same v fs "limit" refl, read_filter_same v fs) (ap again same))
