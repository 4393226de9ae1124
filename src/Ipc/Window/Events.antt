-- ===== src/Ipc/Window/Events.antt =====
-- The window of recent events that a client polls.
use baijimu_codex_connector.Ipc.Window.{sequence_of, window}
use baijimu_codex_connector.Json.{Value, as_u64, index}
use baijimu_codex_connector.Prelude.{
  List, [], arith, keep_if, length, length-take, ltb, max, min, suc, take, zero, ℕ, ◌+◌, ◌-◌, ◌∷◌,
  ◌≡◌, Bool-cases, false, inl, inr, some, true, ◌<◌, ◌≤◌,
}
use baijimu_codex_connector.Ipc.Session.{Session}
use baijimu_codex_connector.Ipc.Receive.Events.{Run, EventsHold}

newer : ℕ → List Value → List Value
newer after es = keep_if (λ v. ltb after (sequence_of v)) es

above-number :
    (after k : ℕ) (e : Value)
    → as_u64 (index "sequence" e) ≡ some k
    → ltb after (sequence_of e) ≡ true
    → after < k
above-number after k e r h = let h' : ltb after k ≡ true = rw r at h in ground arith

below-number :
    (after k : ℕ) (e : Value)
    → as_u64 (index "sequence" e) ≡ some k
    → ltb after (sequence_of e) ≡ false
    → k ≤ after
below-number after k e r h = let h' : ltb after k ≡ false = rw r at h in ground arith

newer-Run :
    (after k : ℕ) (es : List Value)
    → Run k es
    → Run (max k (suc after)) (newer after es)
      × (length (newer after es) ≡ k + length es - max k (suc after))
unfolding newer
newer-Run after k [] r = (tt, omega arith)
newer-Run after k (e ∷ es) (r, rs) =
    let (later, many) = newer-Run after (suc k) es rs in
    elim (Bool-cases (ltb after (sequence_of e))) [
      | inl hit ↦
          let above : after < k = above-number after k e r hit in
          let here : max k (suc after) ≡ k = omega arith in
          let next : max (suc k) (suc after) ≡ suc k = omega arith in
          let tail : Run (suc k) (newer after es) = rw next at later in
          rw (hit, here) ((r, tail), omega (arith, many))
      | inr miss ↦
          let below : k ≤ after = below-number after k e r miss in
          let here : max k (suc after) ≡ max (suc k) (suc after) = omega arith in
          rw (miss, here) (later, omega (arith, many))
    ]

take-Run : (n k : ℕ) (es : List Value) → Run k es → Run k (take n es)
take-Run zero k es r = tt
take-Run (suc n) k [] r = tt
take-Run (suc n) k (e ∷ es) (r, rs) = (r, take-Run n (suc k) es rs)

-- With the events' invariant the window after a number is a run without gaps that begins with the
-- next number, or with the oldest retained event where that is later, and it is cut by the limit
-- alone.
pub window-Run :
    (size : Value → ℕ) (after limit : ℕ) (s : Session) (h : EventsHold size s)
    → Run (max h.numbered.first (suc after)) (window after limit s.events)
      × (length (window after limit s.events)
          ≡ min limit (suc s.latest - max h.numbered.first (suc after)))
unfolding window newer
window-Run size after limit s h =
    let (r, n) = newer-Run after h.numbered.first s.events h.numbered.run in
    (
      take-Run limit _ _ r,
      omega (arith, length-take {0} limit (newer after s.events), h.numbered.ends, n),
    )
