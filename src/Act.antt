-- ===== src/Act.antt =====
-- Steps that change a state and may fail: what was changed before a failure stays changed.
use baijimu_codex_connector.Prelude.{Result, ok, err, ◌≡◌, refl, Bool, ensure, false, true}

abbrev pub Act {ℓ} : Type ℓ → Type ℓ → Type ℓ → Type ℓ
Act S E A = S → Result E A × S

module _ {ℓ} {S E A : Type ℓ} where
  abbrev pub pure : A → Act S E A
  pure a s = (ok a, s)

  abbrev pub fail : E → Act S E A
  fail e s = (err e, s)

  abbrev pub lift : Result E A → Act S E A
  lift r s = (r, s)

module _ {ℓ} {S E A B : Type ℓ} where
  unfoldable pub continue : Result E A × S → (A → Act S E B) → Result E B × S
  continue (ok a, s) next = next a s
  continue (err e, s) next = (err e, s)

  infixl 5 ◌>>=◌ ◌>>◌
  abbrev pub ◌>>=◌ : Act S E A → (A → Act S E B) → Act S E B
  (m >>= next) s = continue (m s) next

  abbrev pub ◌>>◌ : Act S E A → Act S E B → Act S E B
  (m >> k) s = continue (m s) (λ _. k)

  pub continue-eq-ok :
      (before : Result E A × S) (next : A → Act S E B) {b : B} {s' : S}
      → continue before next ≡ (ok b, s')
      → (a : A) × (s : S) × (before ≡ (ok a, s)) × (next a s ≡ (ok b, s'))
  unfolding continue
  continue-eq-ok (ok a, s) next h = (a, s, refl, h)
  continue-eq-ok (err e, s) next h = cc

module _ {S E B : Type 0} {b : B} {s s' : S} where
  -- A step that only tests goes on where its test holds, from the same state.
  pub ensure-continue :
      (test : Bool) (e : E) (next : Unit {0} → Act S E B)
      → continue (ensure test e, s) next ≡ (ok b, s')
      → (test ≡ true) × (next tt s ≡ (ok b, s'))
  unfolding continue
  ensure-continue true e next h = (refl, h)
  ensure-continue false e next h = cc

  pub lift-continue :
      {A : Type 0} (r : Result E A) (next : A → Act S E B)
      → continue (r, s) next ≡ (ok b, s')
      → (a : A) × (r ≡ ok a) × (next a s ≡ (ok b, s'))
  unfolding continue
  lift-continue (ok a) next h = (a, refl, h)
  lift-continue (err e) next h = cc

pub pure-eq-ok : {S E A : Type 0} {a b : A} {s t : S} → pure {E = E} a s ≡ (ok b, t) → a ≡ b
pure-eq-ok h = cc h

pub pure-continue :
    {S E A B : Type 0} (a : A) (s : S) (next : A → Act S E B) {out : Result E B × S}
    → continue (ok a, s) next ≡ out
    → next a s ≡ out
unfolding continue
pure-continue a s next h = h
