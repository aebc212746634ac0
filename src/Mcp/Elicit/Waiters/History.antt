-- ===== src/Mcp/Elicit/Waiters/History.antt =====
-- Which ids wait, and which are gone, after a history of the handle.
use sap_automate.Base.{
  ℕ, ◌<◌, String, ◌≡◌, ◌⊎◌, inl, inr, Bool, true, false, Option, none, some, List, [], ◌∷◌, arith,
  nat_key, string_key, pair_key,
}
use sap_automate.Base.Dict.{get, get-insert, get-remove}
use sap_automate.Base.Int.{pos, negsuc}
use sap_automate.Json.{Value}
use sap_automate.Mcp.JsonRpc.{RequestId, Response}
use sap_automate.Mcp.Protocol.{ElicitationParams}
use sap_automate.Mcp.Elicit.{
  Waiter, waiter, ElicitationHandle, elicit, deliver_response, send_request, register, elicit_if,
  claim, claim_id, claim_number,
}

-- What tasks do to the handle.
pub data Event : Type 0 where
  elicits : (message : String) (requested_schema : Value) (is_open : Bool) → Event
  delivers : Response → Event

abbrev pub IsWaiting : ElicitationHandle → ℕ → Type 0
IsWaiting h id = get id h.pending ≡ some waiter

-- Not waiting, and not to be given out again.
abbrev pub IsGone : ElicitationHandle → ℕ → Type 0
IsGone h id = (get id h.pending ≡ none) × (id < h.next_id)

-- Every id that waits was given out.
abbrev pub IsBounded : ElicitationHandle → Type 0
IsBounded h = (id : ℕ) → IsWaiting h id → id < h.next_id

module _ (write : ElicitationParams → String ⊎ Value) where
  unfoldable pub happen : ElicitationHandle → Event → ElicitationHandle
  happen h (elicits message requested_schema is_open) =
      (elicit write h message requested_schema is_open).1
  happen h (delivers resp) = (deliver_response h resp).1

  unfoldable pub happen_all : ElicitationHandle → List Event → ElicitationHandle
  happen_all h [] = h
  happen_all h (e ∷ es) = happen_all (happen h e) es

  send_request-IsGone :
      (h : ElicitationHandle) (id fresh : ℕ) (is_open : Bool) (p : String ⊎ Value)
      → IsGone h id
      → IsGone (send_request h fresh is_open p).1 id
  unfolding send_request
  send_request-IsGone h id fresh is_open (inl e) gone = gone
  send_request-IsGone h id fresh true (inr p) gone = gone
  send_request-IsGone h id fresh false (inr p) gone =
      (rw (get-remove, gone.0) (ground arith), gone.1)

  register-IsGone : (h : ElicitationHandle) (id : ℕ) → IsGone h id → IsGone (register h) id
  register-IsGone h id gone =
      (rw (get-insert, gone.0) (ground (arith, gone.1)), omega (arith, gone.1))

  elicit_if-IsGone :
      (enabled : Bool) (h : ElicitationHandle) (id : ℕ) (params : ElicitationParams)
      (is_open : Bool)
      → IsGone h id
      → IsGone (elicit_if enabled write h params is_open).1 id
  unfolding elicit_if
  elicit_if-IsGone false h id params is_open gone = gone
  elicit_if-IsGone true h id params is_open gone =
      send_request-IsGone (register h) id h.next_id is_open (write params)
        (register-IsGone h id gone)

  claim-IsGone :
      (h : ElicitationHandle) (id k : ℕ) (o : Option Waiter)
      → IsGone h id
      → IsGone (claim o h k).1 id
  unfolding claim
  claim-IsGone h id k none gone = gone
  claim-IsGone h id k (some u) gone = (rw (get-remove, gone.0) (ground arith), gone.1)

  deliver_response-IsGone :
      (h : ElicitationHandle) (id : ℕ) (resp : Response)
      → IsGone h id
      → IsGone (deliver_response h resp).1 id
  unfolding deliver_response
  deliver_response-IsGone h id resp gone = by_id resp.id
    where
      by_id : (i : RequestId) → IsGone (claim_id h i).1 id
      by_id (RequestId.number (pos n)) = claim-IsGone h id n (get n h.pending) gone
      by_id (RequestId.number (negsuc n)) = gone
      by_id (RequestId.string s) = gone
      by_id RequestId.null = gone

  pub happen_all-IsGone :
      (es : List Event) (h : ElicitationHandle) (id : ℕ) → IsGone h id → IsGone (happen_all h es) id
  unfolding happen_all happen elicit
  happen_all-IsGone [] h id gone = gone
  happen_all-IsGone (elicits message schema is_open ∷ es) h id gone =
      happen_all-IsGone es _ id (elicit_if-IsGone h.enabled h id _ is_open gone)
  happen_all-IsGone (delivers resp ∷ es) h id gone =
      happen_all-IsGone es _ id (deliver_response-IsGone h id resp gone)

  send_request-IsBounded :
      (h : ElicitationHandle) (fresh : ℕ) (is_open : Bool) (p : String ⊎ Value)
      → IsBounded h
      → IsBounded (send_request h fresh is_open p).1
  unfolding send_request
  send_request-IsBounded h fresh is_open (inl e) below = below
  send_request-IsBounded h fresh true (inr p) below = below
  send_request-IsBounded h fresh false (inr p) below =
      λ id e. ground (arith, get-remove fresh id h.pending, e, below id)

  register-IsBounded : (h : ElicitationHandle) → IsBounded h → IsBounded (register h)
  register-IsBounded h below =
      λ id e. ground (arith, get-insert h.next_id id waiter h.pending, e, below id)

  elicit_if-IsBounded :
      (enabled : Bool) (h : ElicitationHandle) (params : ElicitationParams) (is_open : Bool)
      → IsBounded h
      → IsBounded (elicit_if enabled write h params is_open).1
  unfolding elicit_if
  elicit_if-IsBounded false h params is_open below = below
  elicit_if-IsBounded true h params is_open below =
      send_request-IsBounded (register h) h.next_id is_open (write params)
        (register-IsBounded h below)

  claim-IsBounded :
      (h : ElicitationHandle) (k : ℕ) (o : Option Waiter) → IsBounded h → IsBounded (claim o h k).1
  unfolding claim
  claim-IsBounded h k none below = below
  claim-IsBounded h k (some u) below =
      λ id e. ground (arith, get-remove k id h.pending, e, below id)

  claim_id-IsBounded :
      (h : ElicitationHandle) (i : RequestId) → IsBounded h → IsBounded (claim_id h i).1
  unfolding claim_id claim_number
  claim_id-IsBounded h (RequestId.number (pos n)) below =
      claim-IsBounded h n (get n h.pending) below
  claim_id-IsBounded h (RequestId.number (negsuc n)) below = below
  claim_id-IsBounded h (RequestId.string s) below = below
  claim_id-IsBounded h RequestId.null below = below

  pub happen_all-IsBounded :
      (es : List Event) (h : ElicitationHandle) → IsBounded h → IsBounded (happen_all h es)
  unfolding happen_all happen elicit deliver_response
  happen_all-IsBounded [] h below = below
  happen_all-IsBounded (elicits message schema is_open ∷ es) h below =
      happen_all-IsBounded es _ (elicit_if-IsBounded h.enabled h _ is_open below)
  happen_all-IsBounded (delivers resp ∷ es) h below =
      happen_all-IsBounded es _ (claim_id-IsBounded h resp.id below)
