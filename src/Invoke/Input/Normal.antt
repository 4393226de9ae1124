-- ===== src/Invoke/Input/Normal.antt =====
-- What the input of a turn is brought to.
use baijimu_codex_connector.Json.{nil, cons, lookup, is_str}
use baijimu_codex_connector.Json.Laws.{items-to_items}
use baijimu_codex_connector.Prelude.{
  >>=-eq-ok, All, Bool, List, Option, String, [], arith, err, false, if-cases, inl, inr, length,
  none, ok, ok-inj, refl, some, subst, suc, sym, ℕ, ◌>>=◌, ◌∙◌, ◌∷◌, ◌≡◌, ◌⊎◌, Bool-cases, ap,
}
use baijimu_codex_connector.Invoke.Input.{input_item, input_items, text_item, at_index, input}
use baijimu_codex_connector.Http.{Http, new}
use baijimu_codex_connector.Json.Laws.{lookup-insert, fields-to_fields, to_fields-fields}
use baijimu_codex_connector.Json.{
  array, object, number, null, nil, lookup, insert, is_str, Items, Object, Value, bool, fields,
  list, obj, string, unwrap_or, cons, get, items,
}

-- A text item has a text, and a list of text elements.
abbrev pub IsText : Object → Type 0
IsText fs =
    (s : String) × (vs : Items) × (lookup "text" fs ≡ some (string s))
    × (lookup "text_elements" fs ≡ some (array vs))

abbrev pub kind_text : Object → Bool
kind_text fs = is_str (unwrap_or (lookup "type" fs) null) "text"

-- An item is an object, and a text item if its type says so.
abbrev pub Normal : Value → Type 0
Normal (object fs) = (kind_text (fields fs) ≡ false) ⊎ IsText (fields fs)
Normal _ = ⊥

abbrev defaulted : Object → Object
defaulted item = insert "text_elements" (list []) item

element_cases :
    (n : ℕ) (s : String) (elements : Option Value) (item out : Object)
    → lookup "text" item ≡ some (string s)
    → lookup "text_elements" item ≡ elements
    → (elim elements as (λ _. Http Object) [
      | none ↦ ok (insert "text_elements" (list []) item)
      | some (array vs) ↦ ok item
      | some _ ↦ err (at_index n "].text_elements must be an array")
    ])
      ≡ ok out
    → IsText out
element_cases n s none item out at_text at_elements h =
    let there = lookup-insert {0} "text_elements" "text" (list []) item ∙ at_text in
    let self = lookup-insert {0} "text_elements" "text_elements" (list []) item in
    subst IsText (ok-inj _ refl h) (s, nil, there, self)
element_cases n s (some (array vs)) item out at_text at_elements h =
    subst IsText (ok-inj _ refl h) (s, vs, at_text, at_elements)
element_cases n s (some null) item out at_text at_elements h = cc h
element_cases n s (some (bool b)) item out at_text at_elements h = cc h
element_cases n s (some (number m)) item out at_text at_elements h = cc h
element_cases n s (some (string t)) item out at_text at_elements h = cc h
element_cases n s (some (object fs)) item out at_text at_elements h = cc h

item_cases :
    (n : ℕ) (text : Option Value) (item out : Object)
    → lookup "text" item ≡ text
    → (elim text as (λ _. Http Object) [
      | some (string s) ↦ elim (lookup "text_elements" item) as (λ _. Http Object) [
        | none ↦ ok (insert "text_elements" (list []) item)
        | some (array vs) ↦ ok item
        | some _ ↦ err (at_index n "].text_elements must be an array")
      ]
      | _ ↦ err (at_index n "].text must be a string")
    ])
      ≡ ok out
    → IsText out
item_cases n (some (string s)) item out at_text h =
    element_cases n s (lookup "text_elements" item) item out at_text refl h
item_cases n none item out at_text h = cc h
item_cases n (some null) item out at_text h = cc h
item_cases n (some (bool b)) item out at_text h = cc h
item_cases n (some (number m)) item out at_text h = cc h
item_cases n (some (array vs)) item out at_text h = cc h
item_cases n (some (object fs)) item out at_text h = cc h

text_item-IsText : (n : ℕ) (item out : Object) → text_item n item ≡ ok out → IsText out
unfolding text_item
text_item-IsText n item out h = item_cases n (lookup "text" item) item out refl h

input_item-Normal : (n : ℕ) (v out : Value) → input_item n v ≡ ok out → Normal out
unfolding input_item
input_item-Normal n (object fs) out h =
    elim (if-cases (kind_text (fields fs)) (text_item n (fields fs) >>= λ item. ok (obj item))
      (ok (object fs)) (ok out) h) [
        | inr (other, same) ↦ subst Normal (ok-inj _ refl same) (inl other)
        | inl (_, made) ↦
            let (item, at_item, same) = >>=-eq-ok (text_item n (fields fs)) _ made in
            subst Normal (ok-inj _ refl same) (
              inr (
                subst IsText (sym (fields-to_fields item))
                  (text_item-IsText n (fields fs) item at_item)))
      ]
input_item-Normal n null out h = cc h
input_item-Normal n (bool b) out h = cc h
input_item-Normal n (number m) out h = cc h
input_item-Normal n (string s) out h = cc h
input_item-Normal n (array vs) out h = cc h

input_items-Normal :
    (n : ℕ) (vs out : List Value)
    → input_items n vs ≡ ok out
    → All Normal out × (length out ≡ length vs)
unfolding input_items
input_items-Normal n [] out h =
    subst (λ x. All Normal x × (length x ≡ 0)) (ok-inj _ refl h) (tt, refl)
input_items-Normal n (v ∷ vs) out h =
    let (item, at_item, h) = >>=-eq-ok (input_item n v) _ h in
    let (rest, at_rest, h) = >>=-eq-ok (input_items (suc n) vs) _ h in
    let (normal, long) = input_items-Normal (suc n) vs rest at_rest in
    subst (λ x. All Normal x × (length x ≡ suc (length vs))) (ok-inj _ refl h)
      ((input_item-Normal n v item at_item, normal), omega (arith, long))

text_item_lem : (n : ℕ) (item : Object) → IsText item → text_item n item ≡ ok item
unfolding text_item
text_item_lem n item (s, vs, at_text, at_elements) =
    rw (at_text, text_item) (rw (at_elements, text_item) refl)

input_item_lem : (n : ℕ) (v : Value) → Normal v → input_item n v ≡ ok v
unfolding input_item
input_item_lem n (object fs) (inl other) = rw (other, input_item) refl
input_item_lem n (object fs) (inr text) = elim (Bool-cases (kind_text (fields fs))) [
  | inr other ↦ rw (other, input_item) refl
  | inl is_text ↦
      rw (is_text, input_item)
        (rw (text_item_lem n (fields fs) text) (ap (λ x. ok (object x)) (to_fields-fields fs)))
]
input_item_lem n null h = absurd h
input_item_lem n (bool b) h = absurd h
input_item_lem n (number m) h = absurd h
input_item_lem n (string s) h = absurd h
input_item_lem n (array vs) h = absurd h

input_items_lem : (n : ℕ) (vs : List Value) → All Normal vs → input_items n vs ≡ ok vs
unfolding input_items
input_items_lem n [] h = refl
input_items_lem n (v ∷ vs) (h, hs) =
    rw (input_item_lem n v h, input_items) (rw (input_items_lem (suc n) vs hs, input_items) refl)

-- The input that a body gives, as the items of the content.
abbrev pub NormalContent : Value → Type 0
NormalContent content =
    (first : Value) × (rest : List Value) × (content ≡ list (first ∷ rest))
    × All Normal (first ∷ rest)

some_items :
    (vs : List Value) (n : ℕ) (content : Value)
    → All Normal vs
    → length vs ≡ suc n
    → content ≡ list vs
    → NormalContent content
some_items [] n content normal long same = absurd (omega (arith, long))
some_items (v ∷ vs) n content normal long same = (v, vs, same, normal)

given :
    (found : Option Value) (content : Value)
    → (elim found as (λ _. Http Value) [
      | some (string (String.◌∷◌ c s)) ↦ ok (
          list (
            obj (
              ("type", string "text")
              ∷ ("text", string (String.◌∷◌ c s))
              ∷ ("text_elements", list [])
              ∷ [])
            ∷ []))
      | some (array (cons item rest)) ↦ input_items 0 (item ∷ items rest) >>= λ vs. ok (list vs)
      | _ ↦ err (new 400 "input is required")
    ])
      ≡ ok content
    → NormalContent content
unfolding lookup is_str
given (some (string (String.◌∷◌ c s))) content h =
    (_, [], sym (ok-inj _ refl h), (inr (String.◌∷◌ c s, nil, refl, refl), tt))
given (some (array (cons item rest))) content h =
    let (vs, at_items, same) = >>=-eq-ok (input_items 0 (item ∷ items rest)) _ h in
    let (normal, long) = input_items-Normal 0 (item ∷ items rest) vs at_items in
    some_items vs (length (items rest)) content normal long (sym (ok-inj _ refl same))
given (some (string String.[])) content h = cc h
given (some (array nil)) content h = cc h
given none content h = cc h
given (some null) content h = cc h
given (some (bool b)) content h = cc h
given (some (number m)) content h = cc h
given (some (object fs)) content h = cc h

again :
    (content : Value) → NormalContent content → input (obj (("input", content) ∷ [])) ≡ ok content
unfolding input get lookup
again content (first, rest, same, normal) =
    subst (λ x. input (obj (("input", x) ∷ [])) ≡ ok x) (sym same)
      (rw (items-to_items rest)
        (ap (λ r. r >>= λ vs. ok (list vs)) (input_items_lem 0 (first ∷ rest) normal)))

-- The input that is accepted is normal: one item or more, each an object, and each text item with a text
-- and a list of text elements; and a body with this input gives it unchanged.
pub input-Normal :
    (body content : Value)
    → input body ≡ ok content
    → NormalContent content × (input (obj (("input", content) ∷ [])) ≡ ok content)
unfolding input
input-Normal body content h =
    let normal = given (get "input" body) content h in (normal, again content normal)
