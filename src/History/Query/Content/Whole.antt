-- ===== src/History/Query/Content/Whole.antt =====
-- An item read chunk by chunk, as a client follows the cursors of `read_item`.
use baijimu_codex_connector.History.Tables.{ItemRow}
use baijimu_codex_connector.Http.{Http}
use baijimu_codex_connector.Prelude.Int.{pos, pos_part}
use baijimu_codex_connector.Prelude.{
  Char, List, Option, [], arith, drop, eq_refl, none, ok, some, suc, true, zero, ℕ, ◌*◌, ◌++◌, ◌+◌,
  ◌>>=◌, ◌≡◌, ◌≤◌, length, Bool-cases, ap, cut, drop-drop, false, inl, inr, length-drop,
  length-take, ltb, min, sym, take, take_all, ◌-◌, ◌∙◌, ltb→ge, ltb→lt, ◌<◌,
}
use baijimu_codex_connector.History.Query.Content.{
  at, chunk, content_cursor, first_chunk, is_current, next_chunk,
}
use baijimu_codex_connector.History.Query.{chunk_chars}
use baijimu_codex_connector.History.Cursor.{Cursor}

-- The chunks of at most so many reads, each with the cursor that the one before it gave.
unfoldable pub contents : ℕ → ItemRow → Option Cursor → Http (List Char)
contents zero r prior = ok []
contents (suc n) r prior = content_cursor r prior >>= λ c. elim (next_chunk r c) [
  | none ↦ ok (chunk r c)
  | some c' ↦ contents n r (some c') >>= λ rest. ok (chunk r c ++ rest)
]

current-at :
    (r : ItemRow) (c : Cursor) (o : ℕ)
    → is_current r c ≡ true
    → o ≤ length r.item_json
    → is_current r (at c (pos o)) ≡ true
unfolding is_current
current-at r c o h le = ground arith

current-first_chunk : (r : ItemRow) → is_current r (first_chunk r) ≡ true
unfolding is_current first_chunk
current-first_chunk r = ground (arith, eq_refl r.item_id)

length-chunk :
    (r : ItemRow) (c : Cursor)
    → length (chunk r c) ≡ min chunk_chars (length r.item_json - pos_part c.offset)
unfolding chunk
length-chunk r c =
    length-take chunk_chars (drop (pos_part c.offset) r.item_json)
    ∙ ap (min chunk_chars) (length-drop (pos_part c.offset) r.item_json)

next_chunk_none :
    (r : ItemRow) (c : Cursor)
    → ltb (pos_part c.offset + length (chunk r c)) (length r.item_json) ≡ false
    → chunk r c ≡ drop (pos_part c.offset) r.item_json
unfolding chunk
next_chunk_none r c h =
    let rest = drop (pos_part c.offset) r.item_json in
    let over = ltb→ge (pos_part c.offset + length (chunk r c)) (length r.item_json) h in
    take_all chunk_chars rest
      (omega (arith, over, length-chunk r c, length-drop (pos_part c.offset) r.item_json))

chunk-drop :
    (r : ItemRow) (c : Cursor)
    → chunk r c ++ drop (pos_part c.offset + length (chunk r c)) r.item_json
      ≡ drop (pos_part c.offset) r.item_json
unfolding chunk
chunk-drop r c =
    let rest = drop (pos_part c.offset) r.item_json in
    rw (sym (drop-drop (length (take chunk_chars rest)) (pos_part c.offset) r.item_json))
      (cut chunk_chars rest)

accepted : (r : ItemRow) (c : Cursor) → is_current r c ≡ true → content_cursor r (some c) ≡ ok c
unfolding content_cursor
accepted r c h = rw h

next_chunk_last :
    (r : ItemRow) (c : Cursor)
    → ltb (pos_part c.offset + length (chunk r c)) (length r.item_json) ≡ false
    → next_chunk r c ≡ none
unfolding next_chunk
next_chunk_last r c h = rw h

next_chunk-some :
    (r : ItemRow) (c : Cursor)
    → ltb (pos_part c.offset + length (chunk r c)) (length r.item_json) ≡ true
    → next_chunk r c ≡ some (at c (pos (pos_part c.offset + length (chunk r c))))
unfolding next_chunk
next_chunk-some r c h = rw h

contents_step :
    (n : ℕ) (r : ItemRow) (c : Cursor)
    → is_current r c ≡ true
    → (pos_part c.offset + length (chunk r c) < length r.item_json
        → contents n r (some (at c (pos (pos_part c.offset + length (chunk r c)))))
          ≡ ok (drop (pos_part c.offset + length (chunk r c)) r.item_json))
    → contents (suc n) r (some c) ≡ ok (drop (pos_part c.offset) r.item_json)
unfolding contents
contents_step n r c h later =
    let onward : Option Cursor → Http (List Char) = λ next. elim next [
      | none ↦ ok (chunk r c)
      | some c' ↦ contents n r (some c') >>= λ rest. ok (chunk r c ++ rest)
    ] in
    let read : contents (suc n) r (some c) ≡ onward (next_chunk r c) = rw (accepted r c h) in
    read ∙ elim (Bool-cases (ltb (pos_part c.offset + length (chunk r c)) (length r.item_json))) [
      | inr over ↦ ap onward (next_chunk_last r c over) ∙ rw (next_chunk_none r c over)
      | inl more ↦
          ap onward (next_chunk-some r c more)
          ∙ rw (later (ltb→lt _ (length r.item_json) more)) (rw (chunk-drop r c))
    ]

contents_from :
    (n : ℕ) (r : ItemRow) (c : Cursor)
    → is_current r c ≡ true
    → length r.item_json ≤ pos_part c.offset + chunk_chars * suc n
    → contents (suc n) r (some c) ≡ ok (drop (pos_part c.offset) r.item_json)
contents_from zero r c h le = contents_step zero r c h (λ less. ground (arith, length-chunk r c))
contents_from (suc n) r c h le =
    let end = pos_part c.offset + length (chunk r c) in
    contents_step (suc n) r c h (λ less.
      contents_from n r (at c (pos end)) (current-at r c end h (omega (arith, less)))
        (omega (arith, less, length-chunk r c)))

first_read :
    (n : ℕ) (r : ItemRow) → contents (suc n) r none ≡ contents (suc n) r (some (first_chunk r))
unfolding contents content_cursor
first_read n r = rw (current-first_chunk r)

-- Reading an item of a row from its first chunk on, each time with the cursor that the read before
-- gave, accepts every cursor and gives the item's text whole, if reads of 8192 characters are as many
-- as it needs, and at least one.
pub contents_whole :
    (n : ℕ) (r : ItemRow)
    → length r.item_json ≤ chunk_chars * suc n
    → contents (suc n) r none ≡ ok r.item_json
unfolding first_chunk
contents_whole n r le =
    first_read n r ∙ contents_from n r (first_chunk r) (current-first_chunk r) (omega arith)
