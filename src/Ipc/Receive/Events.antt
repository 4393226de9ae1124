-- ===== src/Ipc/Receive/Events.antt =====
-- The retained events: bounded, and numbered without a gap up to the session's counter.
use baijimu_codex_connector.Prelude.{
  ℕ, suc, ◌+◌, ◌^◌, ◌≤◌, ◌<◌, String, ◌≡◌, refl, inl, inr, false, some, List, [], ◌∷◌, ◌++◌, arith,
  length, length-append, Bool-cases,
}
use baijimu_codex_connector.Json.{Value, index, as_u64}
use baijimu_codex_connector.Ipc.Session.{Session, try_send, close}
use baijimu_codex_connector.Ipc.Receive.{
  next_u64, event_limit, event_bytes, total, too_much, trim, record_event, receive, broadcast,
  judge, event_of, deliver, discovery_refusal, request_refusal, Verdict, closing, dropped, recorded,
  settle, Owners,
}
use baijimu_codex_connector.Ipc.Receive.Cases.{receive_cases}

-- The events carry the numbers k, k + 1, … in this order.
abbrev pub Run : ℕ → List Value → Type 0
Run k [] = Unit {0}
Run k (e ∷ es) = (as_u64 (index "sequence" e) ≡ some k) × Run (suc k) es

Run-append :
    (k n : ℕ) (es : List Value) (e : Value)
    → Run k es
    → k + length es ≡ n
    → as_u64 (index "sequence" e) ≡ some n
    → Run k (es ++ e ∷ [])
Run-append k n [] e r h p = let h' : k ≡ n = omega arith in rw h' (p, tt)
Run-append k n (d ∷ es) e r h p = (r.0, Run-append (suc k) n es e r.1 (omega arith) p)

module _ (size : Value → ℕ) where
  -- The retained events fit both bounds.
  pub record Fits (es : List Value) : Type 0 where
    pub few : length es ≤ event_limit
    pub small : total size es ≤ event_bytes

  Fits-of_test : (es : List Value) → too_much size es ≡ false → Fits es
  unfolding too_much
  Fits-of_test es h = ground arith

  trim-Fits : (es : List Value) → Fits (trim size es)
  unfolding trim total
  trim-Fits [] = record { few = omega arith; small = omega arith }
  trim-Fits (e ∷ es) = elim (Bool-cases (too_much size (e ∷ es))) [
    | inl more ↦ rw (more, trim) (trim-Fits es)
    | inr fits ↦ rw (fits, trim) (Fits-of_test (e ∷ es) fits)
  ]

  -- The retained events are a run of numbers that ends with the counter.
  pub record IsNumbered (n : ℕ) (es : List Value) : Type 0 where
    pub first : ℕ
    pub run : Run first es
    pub ends : first + length es ≡ suc n

  trim-IsNumbered : (n : ℕ) (es : List Value) → IsNumbered n es → IsNumbered n (trim size es)
  unfolding trim
  trim-IsNumbered n [] v = v
  trim-IsNumbered n (e ∷ es) v = elim (Bool-cases (too_much size (e ∷ es))) [
    | inl more ↦
        rw (more, trim)
          (trim-IsNumbered n es
            (record { first = suc v.first; run = v.run.1; ends = omega (arith, v.ends) }))
    | inr fits ↦ rw (fits, trim) v
  ]

  pub record EventsHold (s : Session) : Type 0 where
    pub fits : Fits s.events
    pub numbered : IsNumbered s.latest s.events

  -- Nothing that the events' invariant speaks of differs.
  abbrev SameEvents : Session → Session → Type 0
  SameEvents s t = (t.events ≡ s.events) × (t.latest ≡ s.latest)

  EventsHold-SameEvents : (s t : Session) → SameEvents s t → EventsHold s → EventsHold t
  EventsHold-SameEvents s t (same, level) v = record {
    fits = rw same v.fits;
    numbered = rw (same, level) v.numbered;
  }

  close-SameEvents : (message : String) (s : Session) → SameEvents s (close message s)
  unfolding close
  close-SameEvents message s = ground arith

  try_send-SameEvents : (m : Value) (s : Session) → SameEvents s (try_send m s)
  unfolding try_send
  try_send-SameEvents m s = ground arith

  deliver-SameEvents : (id : String) (m : Value) (s : Session) → SameEvents s (deliver id m s)
  unfolding deliver
  deliver-SameEvents id m s = ground arith

  abbrev SameIn : Session → Verdict → Type 0
  SameIn s (recorded t) = SameEvents s t
  SameIn s _ = Unit {0}

  judge-SameEvents : (m : Value) (owners : Owners) (s : Session) → SameIn s (judge m owners s)
  unfolding judge
  judge-SameEvents m owners s = ground arith

  record_event-EventsHold :
      (now : String) (v : Value) (s : Session)
      → s.latest + 1 < 2 ^ 64
      → EventsHold s
      → EventsHold (record_event size now v s)
  unfolding record_event index
  record_event-EventsHold now v s h e =
      let event = event_of s.id (suc s.latest) now v in
      let fresh : next_u64 s.latest ≡ suc s.latest = omega arith in
      let grown : IsNumbered (suc s.latest) (s.events ++ event ∷ []) = record {
        first = e.numbered.first;
        run = Run-append _ (suc s.latest) s.events event e.numbered.run e.numbered.ends refl;
        ends = omega (arith, length-append {0} s.events (event ∷ []), e.numbered.ends);
      } in
      rw fresh (record {
        fits = trim-Fits (s.events ++ event ∷ []);
        numbered = trim-IsNumbered (suc s.latest) (s.events ++ event ∷ []) grown;
      })

  settle-EventsHold :
      (now : String) (v : Value) (s : Session) (j : Verdict)
      → SameIn s j
      → s.latest + 1 < 2 ^ 64
      → EventsHold s
      → EventsHold (settle size now v s j)
  unfolding settle
  settle-EventsHold now v s (closing message) _ h k =
      EventsHold-SameEvents s (close message s) (close-SameEvents message s) k
  settle-EventsHold now v s dropped _ h k = k
  settle-EventsHold now v s (recorded t) same h k =
      record_event-EventsHold now v t (omega (arith, same.1)) (EventsHold-SameEvents s t same k)

  broadcast-EventsHold :
      (now : String) (v : Value) (owners : Owners) (s : Session)
      → s.latest + 1 < 2 ^ 64
      → EventsHold s
      → EventsHold (broadcast size now v owners s)
  unfolding broadcast
  broadcast-EventsHold now v owners s =
      settle-EventsHold now v s (judge v owners s) (judge-SameEvents v owners s)

  -- Whatever frame arrives, while the 64-bit counter does not wrap: the retained events stay within
  -- 100 entries and 8 MiB, and their sequence numbers stay consecutive and end with the counter.
  pub receive-EventsHold :
      (now : String) (v : Value) (owners : Owners) (s : Session)
      → s.latest + 1 < 2 ^ 64
      → EventsHold s
      → EventsHold (receive size now v owners s)
  receive-EventsHold now v owners s h e =
      receive_cases size EventsHold now v owners s e
        (λ _ id _. EventsHold-SameEvents s (deliver id v s) (deliver-SameEvents id v s) e)
        (EventsHold-SameEvents s _ (try_send-SameEvents (discovery_refusal v) s) e)
        (EventsHold-SameEvents s _ (try_send-SameEvents (request_refusal v) s) e)
        (λ _. broadcast-EventsHold now v owners s h e)
