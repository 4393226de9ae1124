-- ===== src/Ipc/Publisher/Progress.antt =====
-- That events are posted.
use baijimu_codex_connector.Ipc.Publisher.Order.{payloads, accepted-posted}
use baijimu_codex_connector.Ipc.Publisher.{
  running, built, move_in, take_next, moves, move, queue_of, Channel, Move, envelope, published,
  taken,
}
use baijimu_codex_connector.Json.{Value}
use baijimu_codex_connector.Prelude.{
  suc, ℕ, List, String, [], length, ltb, ◌++◌, ◌∷◌, ◌≡◌, ◌≤◌, Bool, ap, append-nil, append_assoc,
  arith, false, if◌then◌else◌, some, subst, sym, true, ◌∙◌,
}
use baijimu_codex_connector.Ipc.Receive.{publish, publish_limit}

-- How often the thread takes.
abbrev pub takes : List Move → ℕ
takes [] = 0
takes (taken e ∷ ms) = suc (takes ms)
takes (published v ∷ ms) = takes ms
takes (built b ∷ ms) = takes ms

-- What has been posted begins with these events.
abbrev pub Posts : List Value → Channel → Type 0
Posts events c = (later : List Value) × (payloads c.posted ≡ events ++ later)

-- A publishing either joins the queue at its end or leaves it as it was.
either_queue :
    (b : Bool) (v : Value) (events first rest : List Value) (after : List Value → Channel)
    → Posts events (after (first ++ (rest ++ v ∷ [])))
    → Posts events (after (first ++ rest))
    → Posts events
        (after (queue_of (if b then some ((first ++ rest) ++ v ∷ []) else some (first ++ rest))))
either_queue true v events first rest after longer same =
    subst (λ q. Posts events (after q)) (sym (append_assoc first rest (v ∷ []))) longer
either_queue false v events first rest after longer same = same

one_more :
    (app e : String) (v : Value) (posted : List Value) (c : Channel)
    → Posts (payloads (posted ++ envelope app e v ∷ []) ++ []) c
    → Posts (payloads posted ++ []) c
one_more app e v posted c (later, same) = (
  v ∷ later,
  same
      ∙ (ap (λ l. l ++ later) (append-nil (payloads (posted ++ envelope app e v ∷ [])))
          ∙ (accepted-posted app e v posted later
              ∙ ap (λ l. l ++ v ∷ later) (sym (append-nil (payloads posted))))),
)

-- The queue of a running thread in two: what its takes reach, `first`, and the rest.
posts :
    (app : String) (ms : List Move) (first rest posted : List Value)
    → length first ≤ takes ms
    → Posts
        (payloads posted ++ first)
        (moves app ms (record { phase = running; queue = first ++ rest; posted = posted }))
unfolding moves move move_in take_next publish
posts app [] [] rest posted enough =
    ([], sym (append-nil (payloads posted)) ∙ sym (append-nil (payloads posted ++ [])))
posts app [] (v ∷ vs) rest posted enough = absurd (omega (arith, enough))
posts app (built b ∷ ms) first rest posted enough = posts app ms first rest posted enough
posts app (published v ∷ ms) first rest posted enough =
    either_queue (ltb (length (first ++ rest)) publish_limit) v (payloads posted ++ first) first
      rest (λ q. moves app ms (record { phase = running; queue = q; posted = posted }))
      (posts app ms first (rest ++ v ∷ []) posted enough) (posts app ms first rest posted enough)
posts app (taken e ∷ ms) [] [] posted enough = posts app ms [] [] posted (omega arith)
posts app (taken e ∷ ms) [] (v ∷ vs) posted enough =
    one_more app e v posted
      (moves app ms
        (record { phase = running; queue = vs; posted = posted ++ envelope app e v ∷ [] }))
      (posts app ms [] vs (posted ++ envelope app e v ∷ []) (omega arith))
posts app (taken e ∷ ms) (v ∷ vs) rest posted enough =
    subst
      (λ l. Posts l (
        moves app ms (record {
          phase = running;
          queue = vs ++ rest;
          posted = posted ++ envelope app e v ∷ [];
        })))
      (accepted-posted app e v posted vs)
      (posts app ms vs rest (posted ++ envelope app e v ∷ []) (omega (arith, enough)))

-- While the thread runs, that is, where its HTTP client could be built: after any moves among which it
-- takes as often as there were events waiting, whatever is published meanwhile, what has been posted
-- begins with all that had been accepted before, in the order in which it was accepted.
pub moves-Posts :
    (app : String) (ms : List Move) (queue posted : List Value)
    → length queue ≤ takes ms
    → (later : List Value) × (payloads
          (moves app ms (record { phase = running; queue = queue; posted = posted })).posted
        ≡ (payloads posted ++ queue) ++ later)
moves-Posts app ms queue posted enough =
    subst
      (λ q.
        Posts (payloads posted ++ queue)
          (moves app ms (record { phase = running; queue = q; posted = posted })))
      (append-nil queue) (posts app ms queue [] posted enough)
