-- ===== src/Ipc/Publisher/Order.antt =====
-- In which order events are posted.

use baijimu_codex_connector.Ipc.Publisher.{
  Phase, starting, running, gone, built, build, move_in, take_next, moves, move, queue_of, Channel,
  Move, envelope, published, taken,
}
use baijimu_codex_connector.Ipc.Call.Counting.{sent}
use baijimu_codex_connector.Json.{Value, get, index}
use baijimu_codex_connector.Prelude.{
  List, String, [], length, ltb, map, refl, ◌++◌, ◌∷◌, ◌≡◌, ◌≤◌, Bool, ap, append-nil, append_assoc,
  arith, false, if◌then◌else◌, length-append, ltb→lt, some, subst, sym, true, ◌∙◌,
}
use mathlib.Core.List.{Sublistᴰ}
use mathlib.Core.List.Sublistᴰ.{slnil, cons, cons-cons, trans}
use baijimu_codex_connector.Ipc.Receive.{publish, publish_limit}

abbrev pub payloads : List Value → List Value
payloads events = map (index "payload") events

abbrev pub all_published : List Move → List Value
all_published [] = []
all_published (published v ∷ ms) = v ∷ all_published ms
all_published (built b ∷ ms) = all_published ms
all_published (taken e ∷ ms) = all_published ms

append_both :
    {xs ys : List Value} (v : Value) → Sublistᴰ xs ys → Sublistᴰ (xs ++ v ∷ []) (ys ++ v ∷ [])
append_both v slnil = cons-cons refl slnil
append_both v (cons s) = cons (append_both v s)
append_both v (cons-cons e s) = cons-cons e (append_both v s)

append_right : {xs ys : List Value} (v : Value) → Sublistᴰ xs ys → Sublistᴰ xs (ys ++ v ∷ [])
append_right v slnil = cons slnil
append_right v (cons s) = cons (append_right v s)
append_right v (cons-cons e s) = cons-cons e (append_right v s)

-- What has been posted and what waits, as it was published.
abbrev pub accepted : Channel → List Value
accepted c = payloads c.posted ++ c.queue

pub accepted-posted :
    (app e : String) (v : Value) (posted rest : List Value)
    → payloads (posted ++ envelope app e v ∷ []) ++ rest ≡ payloads posted ++ v ∷ rest
unfolding envelope index get
accepted-posted app e v [] rest = refl
accepted-posted app e v (p ∷ ps) rest = rw (accepted-posted app e v ps rest)

-- The moves so far, and the bound of the queue.
pub record Delivers (sent : List Value) (c : Channel) : Type 0 where
  pub in_order : Sublistᴰ (accepted c) sent
  pub bounded : length c.queue ≤ publish_limit

published_case :
    (b : Bool) (v : Value) (p : Phase) (queue posted sent : List Value)
    → ltb (length queue) publish_limit ≡ b
    → Delivers sent (record { phase = p; queue = queue; posted = posted })
    → Delivers (sent ++ v ∷ []) (record {
      phase = p;
      queue = queue_of (if b then some (queue ++ v ∷ []) else some queue);
      posted = posted;
    })
published_case true v p queue posted sent room d = record {
  in_order =
      subst (λ l. Sublistᴰ l (sent ++ v ∷ [])) (append_assoc (payloads posted) queue (v ∷ []))
        (append_both v d.in_order);
  bounded = omega (arith, ltb→lt (length queue) publish_limit room, length-append queue (v ∷ []));
}
published_case false v p queue posted sent full d = record {
  in_order = append_right v d.in_order;
  bounded = d.bounded;
}

taken_case :
    (app e : String) (queue posted sent : List Value)
    → Sublistᴰ (payloads posted ++ queue) sent
    → length queue ≤ publish_limit
    → Delivers sent (take_next app e queue posted)
unfolding take_next
taken_case app e [] posted sent order short = record { in_order = order; bounded = short }
taken_case app e (v ∷ vs) posted sent order short = record {
  in_order = subst (λ l. Sublistᴰ l sent) (sym (accepted-posted app e v posted vs)) order;
  bounded = omega (arith, short);
}

none_of : (queue : List Value) → Sublistᴰ {A = Value} [] queue
none_of [] = slnil
none_of (v ∷ vs) = cons (none_of vs)

without_queue : (queue xs : List Value) → Sublistᴰ (xs ++ []) (xs ++ queue)
without_queue queue [] = none_of queue
without_queue queue (x ∷ xs) = cons-cons refl (without_queue queue xs)

build-Delivers :
    (b : Bool) (p : Phase) (queue posted sent : List Value)
    → Delivers sent (record { phase = p; queue = queue; posted = posted })
    → Delivers sent (build b queue posted)
unfolding build
build-Delivers true p queue posted sent d = record { in_order = d.in_order; bounded = d.bounded }
build-Delivers false p queue posted sent d = record {
  in_order = trans (without_queue queue (payloads posted)) d.in_order;
  bounded = omega arith;
}

still : {c : Channel} (sent : List Value) → Delivers sent c → Delivers (sent ++ []) c
still {c} sent d = subst (λ l. Delivers l c) (sym (append-nil sent)) d

move_in-Delivers :
    (app : String) (p : Phase) (m : Move) (queue posted sent : List Value)
    → Delivers sent (record { phase = p; queue = queue; posted = posted })
    → Delivers (sent ++ all_published (m ∷ [])) (move_in app p m queue posted)
unfolding move_in publish
move_in-Delivers app gone (published v) queue posted sent d = record {
  in_order = append_right v d.in_order;
  bounded = d.bounded;
}
move_in-Delivers app gone (built b) queue posted sent d = still sent d
move_in-Delivers app gone (taken e) queue posted sent d = still sent d
move_in-Delivers app starting (published v) queue posted sent d =
    published_case (ltb (length queue) publish_limit) v starting queue posted sent refl d
move_in-Delivers app running (published v) queue posted sent d =
    published_case (ltb (length queue) publish_limit) v running queue posted sent refl d
move_in-Delivers app starting (built b) queue posted sent d =
    still sent (build-Delivers b starting queue posted sent d)
move_in-Delivers app starting (taken e) queue posted sent d = still sent d
move_in-Delivers app running (built b) queue posted sent d = still sent d
move_in-Delivers app running (taken e) queue posted sent d =
    still sent (taken_case app e queue posted sent d.in_order d.bounded)

move-Delivers :
    (app : String) (m : Move) (c : Channel) (sent : List Value)
    → Delivers sent c
    → Delivers (sent ++ all_published (m ∷ [])) (move app m c)
unfolding move
move-Delivers app m c sent d =
    move_in-Delivers app c.phase m c.queue c.posted sent
      (record { in_order = d.in_order; bounded = d.bounded })

all_published-cons :
    (m : Move) (ms : List Move)
    → all_published (m ∷ []) ++ all_published ms ≡ all_published (m ∷ ms)
all_published-cons (published v) ms = refl
all_published-cons (built b) ms = refl
all_published-cons (taken e) ms = refl

-- However publishing and posting take turns, and whether or not the thread's HTTP client could be built:
-- what has been posted, and after it what still waits, are events that were published, in that order and
-- none more often than it was published; and no more than eight wait.
pub moves-Delivers :
    (app : String) (ms : List Move) (c : Channel) (sent : List Value)
    → Delivers sent c
    → Delivers (sent ++ all_published ms) (moves app ms c)
unfolding moves
moves-Delivers app [] c sent d = subst (λ l. Delivers l c) (sym (append-nil sent)) d
moves-Delivers app (m ∷ ms) c sent d =
    subst (λ l. Delivers l (moves app ms (move app m c)))
      (append_assoc sent (all_published (m ∷ [])) (all_published ms)
        ∙ ap (λ l. sent ++ l) (all_published-cons m ms))
      (moves-Delivers app ms (move app m c) (sent ++ all_published (m ∷ []))
        (move-Delivers app m c sent d))
