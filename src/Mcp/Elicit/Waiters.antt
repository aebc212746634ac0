-- ===== src/Mcp/Elicit/Waiters.antt =====
-- A waiter is woken once, by a response with its id.
pub mod History
use sap_automate.Base.{
  ℕ, ◌<◌, String, ◌≡◌, refl, sym, ap, subst, ◌≢◌, ◌⊎◌, inl, inr, Bool, true, false, Option, none,
  some, List, [], ◌∷◌, arith, Option-cases, nat_key, string_key, pair_key,
}
use sap_automate.Base.Dict.{get, get-insert, get-remove, beq_refl}
use sap_automate.Base.Int.{pos, negsuc}
use sap_automate.Json.{Value}
use sap_automate.Mcp.JsonRpc.{RequestId, Request, Response}
use sap_automate.Mcp.Protocol.{ElicitationParams}
use sap_automate.Mcp.Elicit.{
  Waiter, waiter, ElicitationHandle, Start, returns, waits, elicit, deliver_response, send_request,
  register, elicit_if, request_of, claim, claim_id, claim_number, new,
}
use sap_automate.Mcp.Elicit.Waiters.History.{
  Event, IsWaiting, IsGone, IsBounded, happen_all, happen_all-IsGone, happen_all-IsBounded,
}

abbrev sent_id : Start → RequestId
sent_id (returns r) = RequestId.null
sent_id (waits req) = req.id

module _ (write : ElicitationParams → String ⊎ Value) where
  claim_wakes :
      (h : ElicitationHandle) (k id : ℕ) (o : Option Waiter)
      → (claim o h k).0 ≡ some id
      → (k ≡ id) × (o ≡ some waiter)
  unfolding claim
  claim_wakes h k id none e = ground arith
  claim_wakes h k id (some waiter) e = (ground arith, refl)

  claim_id_wakes :
      (h : ElicitationHandle) (i : RequestId) (id : ℕ)
      → (claim_id h i).0 ≡ some id
      → (i ≡ RequestId.number (pos id))
        × IsWaiting h id
        × (get id (claim_id h i).1.pending ≡ none)
        × ((claim_id h i).1.next_id ≡ h.next_id)
  unfolding claim_id claim_number claim
  claim_id_wakes h (RequestId.number (pos n)) id e =
      let woken = claim_wakes h n id (get n h.pending) e in
      (
        ap (λ k. RequestId.number (pos k)) woken.0,
        subst (IsWaiting h) woken.0 woken.1,
        rw (woken.1, get-remove) (ground (arith, woken.0)),
        rw woken.1 refl,
      )
  claim_id_wakes h (RequestId.number (negsuc n)) id e = ground arith
  claim_id_wakes h (RequestId.string s) id e = ground arith
  claim_id_wakes h RequestId.null id e = ground arith

  wakes_gone :
      (h : ElicitationHandle) (i : RequestId) (id : ℕ)
      → IsGone h id
      → (claim_id h i).0 ≡ some id
      → ⊥
  wakes_gone h i id gone e = ground (arith, gone.0, (claim_id_wakes h i id e).1)

  new-IsBounded : (enabled : Bool) → IsBounded (new enabled)
  unfolding new get
  new-IsBounded enabled = λ id e. ground arith

  -- Whatever happened to a new handle: a response wakes a waiter only under its own id, one that was
  -- waiting; and whatever happens then, no response wakes that id again.
  pub deliver_response_once :
      (enabled : Bool) (before after : List Event) (resp again : Response) (id : ℕ)
      → let h = happen_all write (new enabled) before in
        (deliver_response h resp).0 ≡ some id
        → (resp.id ≡ RequestId.number (pos id))
          × IsWaiting h id
          × ((deliver_response (happen_all write (deliver_response h resp).1 after) again).0
              ≢ some id)
  unfolding deliver_response
  deliver_response_once enabled before after resp again id e =
      let h = happen_all write (new enabled) before in
      let below = happen_all-IsBounded write before (new enabled) (new-IsBounded enabled) in
      let woken = claim_id_wakes h resp.id id e in
      let gone =
        happen_all-IsGone write after (claim_id h resp.id).1 id
          (woken.2, rw woken.3 (below id woken.1)) in
      (
        woken.0,
        woken.1,
        λ twice. wakes_gone (happen_all write (claim_id h resp.id).1 after) again.id id gone twice,
      )

  pending_fresh : (h : ElicitationHandle) → IsBounded h → get h.next_id h.pending ≡ none
  pending_fresh h below = elim (Option-cases (get h.next_id h.pending)) [
    | inl e ↦ e
    | inr (waiter, e) ↦ absurd (omega (arith, below h.next_id e))
  ]

  send_request_waits :
      (h : ElicitationHandle) (fresh : ℕ) (is_open : Bool) (p : String ⊎ Value) (req : Request)
      → (send_request h fresh is_open p).0 ≡ waits req
      → (req.id ≡ RequestId.number (pos fresh)) × ((send_request h fresh is_open p).1 ≡ h)
  unfolding send_request request_of
  send_request_waits h fresh is_open (inl t) req e = ground arith
  send_request_waits h fresh true (inr params) req e = (sym (ap sent_id e), refl)
  send_request_waits h fresh false (inr params) req e = ground arith

  elicit_if_waits :
      (enabled : Bool) (h : ElicitationHandle) (params : ElicitationParams) (is_open : Bool)
      (req : Request)
      → (elicit_if enabled write h params is_open).0 ≡ waits req
      → (req.id ≡ RequestId.number (pos h.next_id))
        × (enabled ≡ true)
        × IsWaiting (elicit_if enabled write h params is_open).1 h.next_id
  unfolding elicit_if
  elicit_if_waits false h params is_open req e = ground arith
  elicit_if_waits true h params is_open req e =
      let sent = send_request_waits (register h) h.next_id is_open (write params) req e in
      (sent.0, refl, rw (sent.1, get-insert, beq_refl h.next_id) refl)

  -- Whatever happened to a new handle: when `elicit` waits, the handle is enabled, the request that
  -- it sent carries an id under which nothing was waiting, and under that id it now waits.
  pub elicit_waits :
      (enabled : Bool) (before : List Event) (message : String) (schema : Value) (is_open : Bool)
      (req : Request)
      → let h = happen_all write (new enabled) before in
        (elicit write h message schema is_open).0 ≡ waits req
        → (req.id ≡ RequestId.number (pos h.next_id))
          × (h.enabled ≡ true)
          × (get h.next_id h.pending ≡ none)
          × IsWaiting (elicit write h message schema is_open).1 h.next_id
  unfolding elicit
  elicit_waits enabled before message schema is_open req e =
      let h = happen_all write (new enabled) before in
      let started = elicit_if_waits h.enabled h _ is_open req e in
      (
        started.0,
        started.1,
        pending_fresh h (happen_all-IsBounded write before (new enabled) (new-IsBounded enabled)),
        started.2,
      )
