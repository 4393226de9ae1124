-- ===== src/Catalog/Paths.antt =====
-- The paths of a list of projects: each once, in order.
use baijimu_codex_connector.Catalog.{ThreadRow, Threads, text_before, searched, flag}
use baijimu_codex_connector.Text.{Chars, chars_eq}
use baijimu_codex_connector.Catalog.Projects.{
  distinct_paths, insert_path, listed_paths, project_paths,
}
use baijimu_codex_connector.Json.{Value, as_bool, as_str, is_true, unwrap_or, index}
use baijimu_codex_connector.Prelude.Int.{eq_ℤ}
use baijimu_codex_connector.Prelude.{
  [], ◌∷◌, All, Bool, Bool-cases, List, String, any, ap, arith, codes, false, inl, inr, keep_if,
  refl, true, ◌||◌, ◌∙◌, ◌≡◌, map, not, ◌&&◌,
}

text_before_trans :
    (s t u : Chars) → text_before s t ≡ true → text_before t u ≡ true → text_before s u ≡ true
unfolding text_before
text_before_trans s [] u h k = cc h
text_before_trans s (d ∷ t) [] h k = cc k
text_before_trans [] (d ∷ t) (e ∷ u) h k = refl
text_before_trans (c ∷ s) (d ∷ t) (e ∷ u) h k = ground (arith, text_before_trans s t u)

-- Two texts neither of which comes before the other are the same.
text_before_total : (s t : Chars) → text_before s t ≡ false → text_before t s ≡ false → s ≡ t
unfolding text_before
text_before_total [] [] h k = refl
text_before_total [] (d ∷ t) h k = cc h
text_before_total (c ∷ s) [] h k = cc k
text_before_total (c ∷ s) (d ∷ t) h k = ground (arith, text_before_total s t)

abbrev pub Before : String → String → Type 0
Before p q = text_before (codes p) (codes q) ≡ true

-- Every path comes before all that follow it.
pub Ascending : List String → Type 0
Ascending [] = Unit
Ascending (p ∷ ps) = All (Before p) ps × Ascending ps

All-keep_if :
    (P : String → Type 0) (keep : String → Bool) (ps : List String)
    → All P ps
    → All P (keep_if keep ps)
All-keep_if P keep [] h = h
All-keep_if P keep (p ∷ ps) (h, hs) = elim (Bool-cases (keep p)) [
  | inl kept ↦ rw kept (h, All-keep_if P keep ps hs)
  | inr gone ↦ rw gone (All-keep_if P keep ps hs)
]

keep_if-Ascending :
    (keep : String → Bool) (ps : List String) → Ascending ps → Ascending (keep_if keep ps)
unfolding Ascending
keep_if-Ascending keep [] h = h
keep_if-Ascending keep (p ∷ ps) (h, hs) = elim (Bool-cases (keep p)) [
  | inl kept ↦ rw kept (All-keep_if (Before p) keep ps h, keep_if-Ascending keep ps hs)
  | inr gone ↦ rw gone (keep_if-Ascending keep ps hs)
]

All-insert_path :
    (P : String → Type 0) (p : String) (qs : List String)
    → P p
    → All P qs
    → All P (insert_path p qs)
unfolding insert_path
All-insert_path P p [] h hs = (h, hs)
All-insert_path P p (q ∷ qs) h (k, ks) = elim (Bool-cases (text_before (codes p) (codes q))) [
  | inl first ↦ rw first (h, (k, ks))
  | inr later ↦ elim (Bool-cases (text_before (codes q) (codes p))) [
    | inl after ↦ rw later (rw after (k, All-insert_path P p qs h ks))
    | inr same ↦ rw later (rw same (k, ks))
  ]
]

All-Before : (p q : String) (qs : List String) → Before p q → All (Before q) qs → All (Before p) qs
All-Before p q [] h hs = tt
All-Before p q (r ∷ rs) h (k, ks) =
    (text_before_trans (codes p) (codes q) (codes r) h k, All-Before p q rs h ks)

insert_path-Ascending :
    (p : String) (qs : List String) → Ascending qs → Ascending (insert_path p qs)
unfolding insert_path Ascending
insert_path-Ascending p [] h = (tt, tt)
insert_path-Ascending p (q ∷ qs) (h, hs) = elim (Bool-cases (text_before (codes p) (codes q))) [
  | inl first ↦ rw first ((first, All-Before p q qs first h), (h, hs))
  | inr later ↦ elim (Bool-cases (text_before (codes q) (codes p))) [
    | inl after ↦
        rw later (rw after (All-insert_path (Before q) p qs after h, insert_path-Ascending p qs hs))
    | inr same ↦ rw later (rw same (h, hs))
  ]
]

distinct_paths-Ascending : (ps : List String) → Ascending (distinct_paths ps)
unfolding distinct_paths Ascending
distinct_paths-Ascending [] = tt
distinct_paths-Ascending (p ∷ ps) =
    insert_path-Ascending p (distinct_paths ps) (distinct_paths-Ascending ps)

project_paths-Ascending :
    (archived : Bool) (term : String) (db : Threads) → Ascending (project_paths archived term db)
unfolding project_paths
project_paths-Ascending archived term db = distinct_paths-Ascending (
    map (λ r. r.cwd)
      (keep_if (λ r. eq_ℤ r.archived (flag archived) && searched term r.cwd) db.rows))

-- The paths that a list of projects is cut from stand in strict order, so none stands there twice.
pub listed_paths-Ascending :
    (is_dir : String → Bool) (body : Value) (db : Threads) → Ascending (listed_paths is_dir body db)
unfolding listed_paths
listed_paths-Ascending is_dir body db =
    keep_if-Ascending (λ p. not (is_true (index "existsOnly" body)) || is_dir p)
      (project_paths (unwrap_or (as_bool (index "archived" body)) false)
        (unwrap_or (as_str (index "searchTerm" body)) "") db)
      (project_paths-Ascending _ _ db)

abbrev pub among : Chars → List String → Bool
among c ps = any (λ p. chars_eq c (codes p)) ps

among-insert_path :
    (c : Chars) (p : String) (qs : List String)
    → among c (insert_path p qs) ≡ (chars_eq c (codes p) || among c qs)
unfolding insert_path
among-insert_path c p [] = refl
among-insert_path c p (q ∷ qs) = elim (Bool-cases (text_before (codes p) (codes q))) [
  | inl first ↦ rw first
  | inr later ↦ elim (Bool-cases (text_before (codes q) (codes p))) [
    | inl after ↦ rw later (rw after (ground (arith, among-insert_path c p qs)))
    | inr same ↦
        let e = text_before_total (codes p) (codes q) later same in
        rw later (rw same (rw e (ground arith)))
  ]
]

-- A text is among the distinct paths exactly when it is among the paths.
pub distinct_paths-among : (c : Chars) (ps : List String) → among c (distinct_paths ps) ≡ among c ps
unfolding distinct_paths
distinct_paths-among c [] = refl
distinct_paths-among c (p ∷ ps) =
    among-insert_path c p (distinct_paths ps)
    ∙ ap (λ b. chars_eq c (codes p) || b) (distinct_paths-among c ps)

among-map-keep_if :
    (c : Chars) (keep : ThreadRow → Bool) (rows : List ThreadRow)
    → among c (map (λ r. r.cwd) (keep_if keep rows))
      ≡ any (λ r. keep r && chars_eq c (codes r.cwd)) rows
among-map-keep_if c keep [] = refl
among-map-keep_if c keep (r ∷ rows) = ground (arith, among-map-keep_if c keep rows)

-- The projects that are found stand in strict order, so none stands there twice, and a text is among them
-- exactly when it is the directory of a row that is archived or not, as asked, and has the search term
-- in it.
pub project_paths-Exact :
    (archived : Bool) (term : String) (db : Threads) (c : Chars)
    → Ascending (project_paths archived term db)
      × (among c (project_paths archived term db)
          ≡ any
              (λ r.
                (eq_ℤ r.archived (flag archived) && searched term r.cwd)
                && chars_eq c (codes r.cwd))
              db.rows)
unfolding project_paths
project_paths-Exact archived term db c =
    let found = λ (r : ThreadRow). eq_ℤ r.archived (flag archived) && searched term r.cwd in
    let paths = map (λ r. r.cwd) (keep_if found db.rows) in
    (
      distinct_paths-Ascending paths,
      distinct_paths-among c paths ∙ among-map-keep_if c found db.rows,
    )
