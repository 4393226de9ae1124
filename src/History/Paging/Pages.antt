-- ===== src/History/Paging/Pages.antt =====
-- What a page holds of the rows that were selected for it.
use baijimu_codex_connector.Json.{Value}
use baijimu_codex_connector.Prelude.Int.{ℤ}
use baijimu_codex_connector.Prelude.{
  List, Option, String, [], arith, length, ltb, ok, refl, some, take, ℕ, ◌++◌, ◌+◌, ◌∷◌, ◌≡◌, ◌≤◌,
  Bool, append-nil, append_assoc, length-append, suc, sym, ◌∙◌, ◌⊎◌, >>=-eq-ok, Bool-cases, false,
  inl, inr, nat_eq, not, ok-inj, subst, true, ◌&&◌, min, none, length-take, take-take,
}
use baijimu_codex_connector.History.Paging.{Entry, Page, fill, page_bytes, page}

-- The entries' values are readable: reading them in order gives these values.
abbrev pub ReadsAs : List Entry → List Value → Type 0
ReadsAs [] vs = vs ≡ []
ReadsAs (e ∷ es) [] = ⊥
ReadsAs (e ∷ es) (v ∷ vs) = (e.value ≡ ok v) × ReadsAs es vs

-- The place of the last of some entries.
abbrev pub place_of : List Entry → Option (String × ℤ) → Option (String × ℤ)
place_of [] place = place
place_of (e ∷ es) place = place_of es (some (e.id, e.ordinal))

module _ (size : Value → ℕ) where
  abbrev pub bytes_of : List Value → ℕ
  bytes_of [] = 0
  bytes_of (v ∷ vs) = size v + bytes_of vs

  pub bytes_of-append : (xs ys : List Value) → bytes_of (xs ++ ys) ≡ bytes_of xs + bytes_of ys
  bytes_of-append [] ys = omega arith
  bytes_of-append (x ∷ xs) ys = omega (arith, bytes_of-append xs ys)

  -- A page keeps to the byte budget, unless it is one row that is larger by itself.
  abbrev pub Fits : List Value → Type 0
  Fits vs = (length vs ≤ 1) ⊎ (bytes_of vs ≤ page_bytes)

  -- The loop from where it stands took a number of the rows, in order, each value as it was read; it
  -- stands at the last row taken, and says whether rows are left.
  pub record Taking (most : ℕ) (es : List Entry) (before : List Value) (place : Option (String × ℤ))
      (p : Page) : Type 0 where
    pub n : ℕ
    pub values : List Value
    pub rows : p.rows ≡ before ++ values
    pub reads : ReadsAs (take n es) values
    pub place_is : p.last ≡ place_of (take n es) place
    pub within : n ≤ length es
    pub whole : p.more ≡ ltb n (length es)
    pub at_most : length before + n ≤ most
    pub fits : Fits p.rows

  stops :
      (most : ℕ) (es : List Entry) (before : List Value) (place : Option (String × ℤ)) (more : Bool)
      → more ≡ ltb 0 (length es)
      → length before ≤ most
      → Fits before
      → Taking most es before place (record { rows = before; more = more; last = place })
  stops most es before place more h le f = record {
    n = 0;
    values = [];
    rows = sym (append-nil before);
    reads = refl;
    place_is = refl;
    within = omega arith;
    whole = h;
    at_most = omega arith;
    fits = f;
  }

  goes_on :
      (most : ℕ) (e : Entry) (es : List Entry) (before : List Value) (place : Option (String × ℤ))
      (v : Value) (p : Page)
      → e.value ≡ ok v
      → Taking most es (before ++ v ∷ []) (some (e.id, e.ordinal)) p
      → (u : Taking most (e ∷ es) before place p) × (1 ≤ u.n)
  goes_on most e es before place v p h t = (
    record {
      n = suc t.n;
      values = v ∷ t.values;
      rows = t.rows ∙ append_assoc before (v ∷ []) t.values;
      reads = (h, t.reads);
      place_is = t.place_is;
      within = omega (arith, t.within);
      whole = ground (arith, t.whole);
      at_most = omega (arith, t.at_most, length-append before (v ∷ []));
      fits = t.fits;
    },
    omega arith,
  )

  pub fill-Taking :
      (most : ℕ) (es : List Entry) (before : List Value) (place : Option (String × ℤ)) (p : Page)
      → length before ≤ most
      → Fits before
      → fill size most es before (bytes_of before) place ≡ ok p
      → Taking most es before place p
  unfolding fill
  fill-Taking most [] before place p le f h =
      subst (Taking most [] before place) (ok-inj _ refl h)
        (stops most [] before place false refl le f)
  fill-Taking most (e ∷ es) before place p le f h =
      elim (Bool-cases (nat_eq (length before) most)) [
        | inl full ↦
            subst (Taking most (e ∷ es) before place) (ok-inj _ refl (rw full at h))
              (stops most (e ∷ es) before place true (ground arith) le f)
        | inr room ↦
            let (v, hv, k) = >>=-eq-ok e.value _ (rw room at h) in
            elim (Bool-cases
              (ltb page_bytes (bytes_of before + size v) && not (nat_eq (length before) 0))) [
                | inl big ↦
                    subst (Taking most (e ∷ es) before place) (ok-inj _ refl (rw big at k))
                      (stops most (e ∷ es) before place true (ground arith) le f)
                | inr small ↦
                    let k' : fill size most es (before ++ v ∷ []) (bytes_of before + size v)
                          (some (e.id, e.ordinal))
                        ≡ ok p =
                      rw small at k in
                    let sum : bytes_of (before ++ v ∷ []) ≡ bytes_of before + size v =
                      omega (arith, bytes_of-append before (v ∷ [])) in
                    let many = length-append before (v ∷ []) in
                    let rest =
                      fill-Taking most es (before ++ v ∷ []) (some (e.id, e.ordinal)) p
                        (ground (arith, many)) (ground (arith, many, sum)) (rw sum k') in
                    (goes_on most e es before place v p hv rest).0
              ]
      ]

  -- What a page is of the rows that follow the cursor.
  pub record Taken (most : ℕ) (es : List Entry) (p : Page) : Type 0 where
    pub n : ℕ
    pub reads : ReadsAs (take n es) p.rows
    pub place_is : p.last ≡ place_of (take n es) none
    pub within : n ≤ length es
    pub whole : p.more ≡ ltb n (length es)
    pub at_most : n ≤ most
    pub progress : min 1 (length es) ≤ n
    pub fits : Fits p.rows

  fill_first :
      (most : ℕ) (e : Entry) (es : List Entry) (p : Page)
      → 1 ≤ most
      → fill size most (e ∷ es) [] 0 none ≡ ok p
      → (v : Value) × (e.value ≡ ok v)
        × (fill size most es (v ∷ []) (size v) (some (e.id, e.ordinal)) ≡ ok p)
  unfolding fill
  fill_first most e es p one h =
      let room : nat_eq 0 most ≡ false = ground arith in
      let (v, hv, k) = >>=-eq-ok e.value _ (rw room at h) in
      let small : (ltb page_bytes (0 + size v) && not (nat_eq 0 0)) ≡ false = ground arith in
      let k' : fill size most es (v ∷ []) (0 + size v) (some (e.id, e.ordinal)) ≡ ok p =
        rw small at k in
      let zero_add : 0 + size v ≡ size v = omega arith in (v, hv, rw zero_add at k')

  first_Taking :
      (most : ℕ) (es : List Entry) (p : Page)
      → 1 ≤ most
      → fill size most es [] 0 none ≡ ok p
      → (t : Taking most es [] none p) × (min 1 (length es) ≤ t.n)
  first_Taking most [] p one h =
      (fill-Taking most [] [] none p (omega arith) (inl (omega arith)) h, omega arith)
  first_Taking most (e ∷ es) p one h =
      let (v, hv, k) = fill_first most e es p one h in
      let sum : bytes_of (v ∷ []) ≡ size v = omega arith in
      let rest =
        fill-Taking most es (v ∷ []) (some (e.id, e.ordinal)) p (omega arith) (inl (omega arith))
          (rw sum k) in
      let (t, grows) = goes_on most e es [] none v p hv rest in (t, omega (arith, grows))

  -- A page of at most `most` rows, one or more, takes rows from the front of those selected, in order and
  -- each value as it was read, and stands at the last row taken. It takes at least one if there is one,
  -- at most `most`, and keeps to 256 KiB unless it is one row; `more` says exactly whether rows are left.
  pub page-Taken :
      (most : ℕ) (es : List Entry) (p : Page)
      → 1 ≤ most
      → page size most es ≡ ok p
      → Taken most es p
  unfolding page
  page-Taken most es p one h =
      let (t, grows) = first_Taking most (take (most + 1) es) p one h in
      let upto : t.n ≤ most = omega (arith, t.at_most) in
      let same : take t.n (take (most + 1) es) ≡ take t.n es =
        take-take t.n (most + 1) es (omega arith) in
      let long = length-take (most + 1) es in
      record {
        n = t.n;
        reads = rw (t.rows, sym same) t.reads;
        place_is = t.place_is ∙ rw same;
        within = omega (arith, t.within, long);
        whole = t.whole ∙ ground (arith, long);
        at_most = upto;
        progress = omega (arith, grows, long);
        fits = t.fits;
      }
