-- ===== src/Json/Laws.antt =====
-- Laws of keyed lists, and of the two readings of arrays and objects.
use baijimu_codex_connector.Prelude.{
  String, ◌≡◌, refl, ap, none, some, List, [], ◌∷◌, arith, eq_iff, eq_refl, ◌==◌, if◌then◌else◌,
}
use baijimu_codex_connector.Json.{
  Value, Items, Fields, nil, cons, end, field, Object, items, to_items, fields, to_fields, lookup,
  insert, remove, get, obj,
}

module _ {ℓ} {A : Type ℓ} where
  pub lookup-insert :
      (written asked : String) (value : A) (rest : List (String × A))
      → lookup asked (insert written value rest)
        ≡ (if written == asked then some value else lookup asked rest)
  unfolding insert lookup
  lookup-insert written asked value [] = refl
  lookup-insert written asked value ((first, _) ∷ rest) = ground (
    arith,
    lookup-insert written asked value rest,
    eq_iff first asked,
    eq_iff written asked,
    eq_iff first written,
  )

  pub lookup-remove :
      (k j : String) (m : List (String × A))
      → lookup j (remove k m) ≡ (if k == j then none else lookup j m)
  unfolding lookup remove
  lookup-remove k j [] = ground arith
  lookup-remove k j ((i, w) ∷ m) =
      ground (arith, eq_iff k j, eq_iff i k, eq_iff i j, lookup-remove k j m)

  pub lookup-insert_self :
      (k : String) (v : A) (m : List (String × A)) → lookup k (insert k v m) ≡ some v
  lookup-insert_self k v m = simp (lookup-insert, eq_refl)

  pub lookup-remove_self : (k : String) (m : List (String × A)) → lookup k (remove k m) ≡ none
  lookup-remove_self k m = simp (lookup-remove, eq_refl)

pub items-to_items : (vs : List Value) → items (to_items vs) ≡ vs
items-to_items [] = refl
items-to_items (v ∷ vs) = ap (◌∷◌ v) (items-to_items vs)

pub fields-to_fields : (fs : Object) → fields (to_fields fs) ≡ fs
fields-to_fields [] = refl
fields-to_fields ((k, v) ∷ fs) = ap (◌∷◌ (k, v)) (fields-to_fields fs)

pub to_items-items : (vs : Items) → to_items (items vs) ≡ vs
to_items-items nil = refl
to_items-items (cons v vs) = ap (cons v) (to_items-items vs)

pub to_fields-fields : (fs : Fields) → to_fields (fields fs) ≡ fs
to_fields-fields end = refl
to_fields-fields (field k v fs) = ap (field k v) (to_fields-fields fs)

pub get-obj : (k : String) (fs : Object) → get k (obj fs) ≡ lookup k fs
unfolding get
get-obj k fs = rw (fields-to_fields fs)
