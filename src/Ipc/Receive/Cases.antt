-- ===== src/Ipc/Receive/Cases.antt =====
-- The five things that `receive` can come to, as one rule.

use baijimu_codex_connector.Prelude.{
  ℕ, String, ◌≡◌, true, some, inl, inr, Bool-cases, Option-cases, arith, eq_iff, false, ◌≢◌,
}
use baijimu_codex_connector.Json.{Value, index, as_str, is_str, string}
use baijimu_codex_connector.Ipc.Session.{Session, try_send}
use baijimu_codex_connector.Ipc.Receive.{
  deliver, broadcast, receive, discovery_refusal, request_refusal, Owners,
}

pub receive_cases {ℓ} :
    (size : Value → ℕ) (P : Session → Type ℓ) (now : String) (v : Value) (owners : Owners)
    (s : Session)
    → P s
    → (is_str (index "type" v) "response" ≡ true
        → (id : String) → as_str (index "requestId" v) ≡ some id
        → P (deliver id v s))
    → P (try_send (discovery_refusal v) s)
    → P (try_send (request_refusal v) s)
    → (is_str (index "type" v) "broadcast" ≡ true → P (broadcast size now v owners s))
    → P (receive size now v owners s)
unfolding receive
receive_cases size P now v owners s same replied discovered refused told =
    elim (Bool-cases (is_str (index "type" v) "response")) [
      | inl a ↦
          rw (a, receive)
            (elim (Option-cases (as_str (index "requestId" v))) [
              | inl e ↦ rw e same
              | inr (id, e) ↦ rw e (replied a id e)
            ])
      | inr a ↦
          rw (a, receive)
            (elim (Bool-cases (is_str (index "type" v) "client-discovery")) [
              | inl b ↦ rw b discovered
              | inr b ↦ rw b (elim (Bool-cases (is_str (index "type" v) "request")) [
                | inl c ↦ rw c refused
                | inr c ↦ rw c (elim (Bool-cases (is_str (index "type" v) "broadcast")) [
                  | inl d ↦ rw d (told d)
                  | inr d ↦ rw d same
                ])
              ])
            ])
    ]

pub is_str-ne : (v : Value) (a b : String) → is_str v a ≡ true → a ≢ b → is_str v b ≡ false
unfolding is_str
is_str-ne (string s) a b h n = ground (arith, eq_iff s a, eq_iff s b)
is_str-ne _ a b h n = cc

-- A frame of type "broadcast" takes the fourth arm.
pub receive-broadcast :
    (size : Value → ℕ) (now : String) (v : Value) (owners : Owners) (s : Session)
    → is_str (index "type" v) "broadcast" ≡ true
    → receive size now v owners s ≡ broadcast size now v owners s
unfolding receive
receive-broadcast size now v owners s h = ground (
  arith,
  is_str-ne (index "type" v) "broadcast" "response",
  is_str-ne (index "type" v) "broadcast" "client-discovery",
  is_str-ne (index "type" v) "broadcast" "request",
  eq_iff "broadcast" "response",
  eq_iff "broadcast" "client-discovery",
  eq_iff "broadcast" "request",
)
