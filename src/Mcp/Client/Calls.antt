-- ===== src/Mcp/Client/Calls.antt =====
-- crates/mcp-client/src/lib.rs: whole runs of the client, with the calls that were woken.
use sap_automate.Base.{
  ℕ, ◌+◌, ◌≤◌, ◌<◌, String, ◌≡◌, refl, Bool, true, false, ◌&&◌, Option, none, some, List, [], ◌∷◌,
  ◌++◌, arith, ltb, ◌==◌, if◌then◌else◌, nat_key, string_key, pair_key,
}
use sap_automate.Base.Dict.{Dict, get, insert, remove}
use sap_automate.Base.Int.{pos, negsuc}
use sap_automate.Json.{Value}
use sap_automate.Mcp.JsonRpc.{RequestId}
use sap_automate.Mcp.Client.{Waiter, Client, spawn, begin_call, receive, claim, ids_of, close}

pub data Event : Type 0 where
  calls : (method : String) (params : Option Value) (is_open : Bool) → Event
  receives : RequestId → Event
  closes : Event

-- The client and the ids of the calls that were woken.
pub record History : Type 0 where
  pub client : Client
  pub woken : List ℕ

abbrev with_woken : Option ℕ → List ℕ → List ℕ
with_woken none ids = ids
with_woken (some id) ids = id ∷ ids

unfoldable pub happen : History → Event → History
unfolding begin_call receive close
happen h (calls method params is_open) = record h {
  client = (begin_call h.client method params is_open).1;
}
happen h (receives id) =
    let (woken, client) = receive h.client id in
    record { client = client; woken = with_woken woken h.woken }
happen h closes =
    let (ids, client) = close h.client in record { client = client; woken = ids ++ h.woken }

unfoldable pub happen_all : History → List Event → History
unfolding happen
happen_all h [] = h
happen_all h (e ∷ es) = happen_all (happen h e) es

unfoldable pub initial : History
unfolding spawn
initial = record { client = spawn; woken = [] }

abbrev one_if : Bool → ℕ
one_if true = 1
one_if false = 0

abbrev pub times : ℕ → List ℕ → ℕ
times n [] = 0
times n (m ∷ ms) = one_if (m == n) + times n ms

-- Every id that was given out stands exactly once in the table of waiting calls or among the woken
-- ones, and no other id does.
abbrev pub IsAccounted : History → Type 0
IsAccounted h =
    (0 < h.client.next_id)
    × ((n : ℕ)
        → times n (ids_of h.client.pending) + times n h.woken
          ≡ one_if (ltb 0 n && ltb n h.client.next_id))

times-append : (n : ℕ) (xs ys : List ℕ) → times n (xs ++ ys) ≡ times n xs + times n ys
times-append n [] ys = omega arith
times-append n (x ∷ xs) ys = omega (arith, times-append n xs ys)

times-insert :
    (n k : ℕ) (w : Waiter) (m : Dict ℕ Waiter)
    → times k (ids_of m) ≡ 0
    → times n (ids_of (insert k w m)) ≡ one_if (k == n) + times n (ids_of m)
unfolding insert
times-insert n k w [] h = omega arith
times-insert n k w ((j, v) ∷ m) h = ground (arith, times-insert n k w m)

times-remove :
    (n k : ℕ) (m : Dict ℕ Waiter)
    → times n (ids_of (remove k m)) ≡ (if k == n then 0 else times n (ids_of m))
unfolding remove
times-remove n k [] = ground arith
times-remove n k ((j, v) ∷ m) = ground (arith, times-remove n k m)

times-get : (k : ℕ) (w : Waiter) (m : Dict ℕ Waiter) → get k m ≡ some w → 1 ≤ times k (ids_of m)
unfolding get
times-get k w [] h = ground arith
times-get k w ((j, v) ∷ m) h = ground (arith, times-get k w m)

calls-IsAccounted :
    (h : History) (method : String) (params : Option Value) (is_open : Bool)
    → IsAccounted h
    → IsAccounted (happen h (calls method params is_open))
unfolding happen begin_call
calls-IsAccounted h method params is_open (low, sums) = (
  omega arith,
  λ n.
      let fresh : times h.client.next_id (ids_of h.client.pending) ≡ 0 =
        ground (arith, sums h.client.next_id) in
      ground (arith, times-insert n h.client.next_id Waiter.waiter h.client.pending fresh, sums n),
)

claim-IsAccounted :
    (h : History) (k : ℕ) (o : Option Waiter)
    → get k h.client.pending ≡ o
    → IsAccounted h
    → IsAccounted (record {
      client = (claim o h.client k).1;
      woken = with_woken (claim o h.client k).0 h.woken;
    })
unfolding claim
claim-IsAccounted h k none e acc = acc
claim-IsAccounted h k (some w) e (low, sums) = (
  low,
  λ n.
      ground (
        arith,
        times-remove n k h.client.pending,
        times-get k w h.client.pending e,
        sums n,
        sums k,
      ),
)

receives-IsAccounted :
    (h : History) (id : RequestId) → IsAccounted h → IsAccounted (happen h (receives id))
unfolding happen receive
receives-IsAccounted h (RequestId.number (pos k)) acc =
    claim-IsAccounted h k (get k h.client.pending) refl acc
receives-IsAccounted h (RequestId.number (negsuc k)) acc = acc
receives-IsAccounted h (RequestId.string s) acc = acc
receives-IsAccounted h RequestId.null acc = acc

happen-IsAccounted : (h : History) (e : Event) → IsAccounted h → IsAccounted (happen h e)
unfolding happen close
happen-IsAccounted h (calls method params is_open) acc =
    calls-IsAccounted h method params is_open acc
happen-IsAccounted h (receives id) acc = receives-IsAccounted h id acc
happen-IsAccounted h closes (low, sums) =
    (low, λ n. omega (arith, times-append n (ids_of h.client.pending) h.woken, sums n))

happen_all_from : (h : History) (es : List Event) → IsAccounted h → IsAccounted (happen_all h es)
unfolding happen_all
happen_all_from h [] acc = acc
happen_all_from h (e ∷ es) acc = happen_all_from (happen h e) es (happen-IsAccounted h e acc)

-- However calls, responses and the end of the transport follow each other, no call is lost and none
-- is woken twice: each id that was given out stands exactly once in the table of waiting calls or among
-- the calls that were woken, and no other id does.
pub happen_all-IsAccounted : (es : List Event) → IsAccounted (happen_all initial es)
unfolding happen_all initial
happen_all-IsAccounted es = happen_all_from initial es (omega arith, λ n. ground arith)
