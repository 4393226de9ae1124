-- ===== src/History/Source/Observed.antt =====
-- What a history result says of the rollout.
use baijimu_codex_connector.History.Query.{database, statement, Codec, required}
use baijimu_codex_connector.History.Query.Content.{query}
use baijimu_codex_connector.Prelude.{
  ok_or-eq-ok, Option-cases, inl, inr, err, Option, none, some, true, ℕ, ◌≡◌, >>=-eq-ok, String, ap,
  ensure, ensure-eq-ok, eq_iff, nat_eq, nat_eq_iff, ok, refl, subst, sym, ◌==◌, ◌∙◌,
}
use baijimu_codex_connector.History.Source.{
  open_history, projected_of, Stores, invoke, set_field, persistence, is_projected,
}
use baijimu_codex_connector.History.Tables.{Tables}
use baijimu_codex_connector.Process.Host.{Host}
use baijimu_codex_connector.Json.{
  lookup, Object, fields, insert, obj, object, null, Value, array, bool, get, index, number, string,
}
use baijimu_codex_connector.Json.Laws.{lookup-insert_self, get-obj}
use baijimu_codex_connector.Prelude.Int.{ℤ, pos, negsuc}

abbrev pub claim : Value → Value
claim result = index "matchesObservedRollout" (index "persistence" result)

index-insert :
    (key : String) (value : Value) (fs : Object) → index key (obj (insert key value fs)) ≡ value
unfolding index
index-insert key value fs =
    let there = get-obj key (insert key value fs) ∙ lookup-insert_self key value fs in
    rw (there, index) refl

claim-set_field :
    (said result : Value)
    → claim (set_field "persistence" said result) ≡ bool true
    → index "matchesObservedRollout" said ≡ bool true
unfolding set_field index get
claim-set_field said (object fs) h =
    let there = index-insert "persistence" said (fields fs) in
    subst (λ x. index "matchesObservedRollout" x ≡ bool true) there h
claim-set_field said null h = h
claim-set_field said (bool b) h = cc h
claim-set_field said (number n) h = cc h
claim-set_field said (string t) h = cc h
claim-set_field said (array vs) h = cc h

-- The claim that the projection matches, made good.
claim-persistence :
    (projected : ℤ) (observed : Option ℕ)
    → index "matchesObservedRollout" (persistence projected observed) ≡ bool true
    → (n : ℕ) × (observed ≡ some n) × (projected ≡ pos n)
unfolding persistence index get lookup is_projected
claim-persistence projected none h = cc h
claim-persistence (pos p) (some n) h =
    let same : nat_eq n p ≡ true = cc h in (n, refl, ap pos (sym ((nat_eq_iff n p).0 same)))
claim-persistence (negsuc p) (some n) h = cc h

module _ {A : Type 0} (db : Tables) (a : A) where
  statement-clear : db.fault ≡ none → statement db a ≡ ok a
  unfolding statement
  statement-clear h = rw (h, statement) refl

  statement-broken : (e : String) → db.fault ≡ some e → statement db a ≡ err (database e)
  unfolding statement
  statement-broken e h = rw (h, statement) refl

statement-ok : {A : Type 0} (db : Tables) (a : A) {b : A} → statement db a ≡ ok b → a ≡ b
statement-ok db a h = elim (Option-cases db.fault) [
  | inl clear ↦ cc (statement-clear db a clear, h)
  | inr (e, broken) ↦ cc (statement-broken db a e broken, h)
]

projected_of-ok :
    (db : Tables) (thread : String) {projected : ℤ}
    → projected_of db thread ≡ ok projected
    → lookup thread db.projection ≡ some projected
unfolding projected_of
projected_of-ok db thread h =
    let (found, at_found, h) = >>=-eq-ok (statement db (lookup thread db.projection)) _ h in
    statement-ok db _ at_found ∙ ok_or-eq-ok found _ h

-- A history result that claims to match the rollout was read for a thread whose history is paginated, and
-- the number of bytes that its database says are projected is the length of the thread's rollout file.
pub invoke-matched :
    {S : Type 0} (host : Host S) (stores : Stores) (codec : Codec) (method : String)
    (body v : Value)
    → invoke host stores codec method body ≡ ok v
    → claim v ≡ bool true
    → (thread : String) × (rollout : String) × (db : Tables) × (n : ℕ) × (required body "threadId"
        ≡ ok thread)
      × (stores.source_of thread ≡ ok ("paginated", rollout))
      × (open_history host stores ≡ ok db)
      × (lookup thread db.projection ≡ some (pos n))
      × (stores.file_length rollout ≡ some n)
unfolding invoke
invoke-matched host stores codec method body v h claimed =
    let (thread, at_thread, h) = >>=-eq-ok (required body "threadId") _ h in
    let ((mode, rollout), at_source, h) = >>=-eq-ok (stores.source_of thread) _ h in
    let (_, at_mode, h) = >>=-eq-ok (ensure (mode == "paginated") _) _ h in
    let (db, at_db, h) = >>=-eq-ok (open_history host stores) _ h in
    let (projected, at_projected, h) = >>=-eq-ok (projected_of db thread) _ h in
    let (result, at_result, h) = >>=-eq-ok (query codec db method body) _ h in
    let same : mode ≡ "paginated" =
      (eq_iff mode "paginated").0 (ensure-eq-ok (mode == "paginated") _ at_mode) in
    let made : set_field "persistence" (persistence projected (stores.file_length rollout))
          (set_field "source" (string "desktop-readonly-history") result)
        ≡ v =
      cc h in
    let said =
      claim-set_field (persistence projected (stores.file_length rollout))
        (set_field "source" (string "desktop-readonly-history") result) (ap claim made ∙ claimed) in
    let (n, observed, reached) = claim-persistence projected (stores.file_length rollout) said in
    (
      thread,
      rollout,
      db,
      n,
      at_thread,
      subst (λ m. stores.source_of thread ≡ ok (m, rollout)) same at_source,
      at_db,
      projected_of-ok db thread at_projected ∙ ap some reached,
      observed,
    )
