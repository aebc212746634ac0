-- ===== src/Mcp/Framing.antt =====
-- crates/mcp-transport/src/stdio.rs: what is sent is received.
use sap_automate.Base.{
  ℕ, zero, suc, ◌+◌, ◌<◌, String, ◌⊎◌, true, All-weaken, ◌≡◌, refl, sym, ap, ◌∙◌, ◌≢◌, inl, inr,
  false, Option, none, some, List, [], ◌∷◌, ◌++◌, reverse, arith, ◌==◌, Bool-cases, length, All,
  All-append, nat_key, string_key, pair_key, Text, text_key, is_whitespace, trim_start_matches,
  trim_matches, trim,
}
use sap_automate.Rfc.Soap.Envelope.{is_empty}
use sap_automate.Json.{Value}
use sap_automate.Mcp.Error.{Result, ok}
use sap_automate.Mcp.JsonRpc.{
  Request, Notification, Response, Message, Reader, has_member, from_value, from_json,
}
use mathlib.Core.List.{append-nil, append_assoc, reverse_aux}
use sap_automate.Mcp.Stdio.{
  or_json_error, take_line, StdioTransport, send, by_line, some_message, recv_loop, recv,
}

reverse_aux-last :
    (s : Text) (d : ℕ) (acc : Text) → reverse_aux (s ++ (d ∷ [])) acc ≡ d ∷ reverse_aux s acc
reverse_aux-last [] d acc = refl
reverse_aux-last (c ∷ s) d acc = reverse_aux-last s d (c ∷ acc)

reverse_aux-reverse_aux :
    (s acc t : Text) → reverse_aux (reverse_aux s acc) t ≡ reverse_aux acc (s ++ t)
reverse_aux-reverse_aux [] acc t = refl
reverse_aux-reverse_aux (c ∷ s) acc t = reverse_aux-reverse_aux s (c ∷ acc) t

reverse-reverse : (s : Text) → reverse (reverse s) ≡ s
reverse-reverse s = reverse_aux-reverse_aux s [] [] ∙ append-nil s

take_line-whole :
    (s rest : Text) → All (λ c. c ≢ 10) s → take_line (s ++ (10 ∷ rest)) ≡ (s ++ (10 ∷ []), rest)
unfolding take_line
take_line-whole [] rest h = refl
take_line-whole (c ∷ s) rest (h, hs) =
    let other : c == 10 ≡ false = ground arith in rw (take_line-whole s rest hs, other) refl

take_line-length : (s : Text) → length s ≡ length (take_line s).0 + length (take_line s).1
unfolding take_line
take_line-length [] = omega arith
take_line-length (c ∷ s) = elim (Bool-cases (c == 10)) [
  | inl e ↦ rw e (omega arith)
  | inr e ↦ rw e (omega (arith, take_line-length s))
]

take_line-shorter : (c : ℕ) (s : Text) → length (take_line (c ∷ s)).1 < length (c ∷ s)
unfolding take_line
take_line-shorter c s = elim (Bool-cases (c == 10)) [
  | inl e ↦ rw e (omega arith)
  | inr e ↦ rw e (omega (arith, take_line-length s))
]

-- A line feed behind the last brace is all that is trimmed.
trim-object :
    (mid : Text) → trim ((b'{' ∷ (mid ++ b'}' ∷ [])) ++ (10 ∷ [])) ≡ b'{' ∷ (mid ++ b'}' ∷ [])
unfolding trim trim_matches trim_start_matches is_whitespace
trim-object mid =
    let last = reverse_aux-last (b'{' ∷ mid) b'}' [] in
    let turned = reverse_aux-last (b'{' ∷ (mid ++ b'}' ∷ [])) 10 [] ∙ ap (◌∷◌ 10) last in
    ap (λ r. reverse (trim_start_matches is_whitespace r)) turned
    ∙ ap reverse (sym last)
    ∙ reverse-reverse (b'{' ∷ (mid ++ b'}' ∷ []))

module _ {M : Type 0} (to_vec : M → Result Text) (from_json : Text → Result M) where
  -- A message that is printed as an object on one line, and read as itself.
  abbrev object_text : Text → Text
  object_text mid = b'{' ∷ (mid ++ b'}' ∷ [])

  abbrev pub IsFramed : M → Type 0
  IsFramed m =
      (mid : Text) × (to_vec m ≡ ok (object_text mid))
      × All (λ c. c ≢ 10) mid
      × (from_json (object_text mid) ≡ ok m)

  abbrev pub send_all : List M → StdioTransport → StdioTransport
  send_all [] t = t
  send_all (m ∷ ms) t = send_all ms (send to_vec from_json m t).1

  abbrev keep_message :
      StdioTransport
      → (StdioTransport → Option (List M))
      → Option (Result (Option M) × StdioTransport)
      → Option (List M)
  keep_message t next (some (ok (some m), u)) = elim (next u) [
    | none ↦ none
    | some ms ↦ some (m ∷ ms)
  ]
  keep_message t next _ = none

  abbrev pub recv_all : ℕ → StdioTransport → Option (List M)
  recv_all zero t = some []
  recv_all (suc n) t = keep_message t (recv_all n) (recv to_vec from_json t)

  object-All : (mid : Text) → All (λ c. c ≢ 10) mid → All (λ c. c ≢ 10) (object_text mid)
  object-All mid h =
      (λ e. omega arith, All-append (λ c. c ≢ 10) mid (b'}' ∷ []) h (λ e. omega arith, tt))

  by_line-object :
      (m : M) (rest : Text) (again : Option (Result (Option M) × Text)) (mid : Text)
      → from_json (object_text mid) ≡ ok m
      → by_line to_vec from_json (object_text mid ++ 10 ∷ []) rest again ≡ some (ok (some m), rest)
  unfolding by_line
  by_line-object m rest again mid reads = rw (trim-object mid, reads) refl

  recv_loop-framed :
      (m : M) (rest : Text) (n : ℕ) (f : IsFramed m)
      → recv_loop to_vec from_json (suc n) (object_text f.0 ++ 10 ∷ rest) ≡ some (ok (some m), rest)
  unfolding recv_loop
  recv_loop-framed m rest n (mid, prints, inside, reads) =
      ap (λ p. by_line to_vec from_json p.0 p.1 (recv_loop to_vec from_json n p.1))
        (take_line-whole (object_text mid) rest (object-All mid inside))
      ∙ by_line-object m rest (recv_loop to_vec from_json n rest) mid reads

  by_line-none :
      (line rest : Text) (again : Option (Result (Option M) × Text))
      → again ≢ none
      → by_line to_vec from_json line rest again ≢ none
  unfolding by_line
  by_line-none line rest again h e = elim (Bool-cases (is_empty (trim line))) [
    | inl f ↦ h (rw f at e)
    | inr f ↦
        let g : some (some_message to_vec from_json (from_json (trim line)), rest) ≡ none =
          rw f at e in
        ground arith
  ]

  -- However many blank lines come first, `recv` comes to a message, an error or the end.
  pub recv_loop-terminates :
      (n : ℕ) (wire : Text) → length wire < n → recv_loop to_vec from_json n wire ≢ none
  unfolding recv_loop
  recv_loop-terminates zero wire h e = omega arith
  recv_loop-terminates (suc n) [] h e = ground arith
  recv_loop-terminates (suc n) (c ∷ s) h e =
      let p = take_line (c ∷ s) in
      by_line-none p.0 p.1 (recv_loop to_vec from_json n p.1)
        (recv_loop-terminates n p.1 (omega (arith, take_line-shorter c s))) e

  -- What stays on the way between a writer and a reader.
  send-framed :
      (m : M) (t : StdioTransport) (f : IsFramed m)
      → t.closed ≡ false
      → (send to_vec from_json m t).1
        ≡ record t { outgoing = t.outgoing ++ (object_text f.0 ++ 10 ∷ []) }
  unfolding send
  send-framed m t (mid, prints, inside, reads) live = rw (live, prints) refl

  abbrev wire_of : (ms : List M) → All IsFramed ms → Text
  wire_of [] fs = []
  wire_of (m ∷ ms) (f, fs) = object_text f.0 ++ 10 ∷ wire_of ms fs

  send_all-outgoing :
      (ms : List M) (fs : All IsFramed ms) (t : StdioTransport)
      → t.closed ≡ false
      → (send_all ms t).outgoing ≡ t.outgoing ++ wire_of ms fs
  send_all-outgoing [] fs t live = sym (append-nil t.outgoing)
  send_all-outgoing (m ∷ ms) (f, fs) t live =
      ap (λ u. (send_all ms u).outgoing) (send-framed m t f live)
      ∙ send_all-outgoing ms fs (record t { outgoing = t.outgoing ++ (object_text f.0 ++ 10 ∷ []) })
          live
      ∙ append_assoc t.outgoing (object_text f.0 ++ 10 ∷ []) (wire_of ms fs)
      ∙ ap (◌++◌ t.outgoing) (append_assoc (object_text f.0) (10 ∷ []) (wire_of ms fs))

  recv-framed :
      (m : M) (t : StdioTransport) (f : IsFramed m) (rest : Text)
      → t.closed ≡ false
      → t.incoming ≡ object_text f.0 ++ 10 ∷ rest
      → recv to_vec from_json t ≡ some (ok (some m), record t { incoming = rest })
  unfolding recv
  recv-framed m t f rest live e =
      let X = object_text f.0 ++ 10 ∷ rest in
      let read : recv_loop to_vec from_json (suc (length t.incoming)) t.incoming
          ≡ some (ok (some m), rest) =
        rw e (recv_loop-framed m rest (length X) f) in
      rw (live, read) refl

  recv_all-texts :
      (ms : List M) (fs : All IsFramed ms) (t : StdioTransport)
      → t.closed ≡ false
      → t.incoming ≡ wire_of ms fs
      → recv_all (length ms) t ≡ some ms
  recv_all-texts [] fs t live e = refl
  recv_all-texts (m ∷ ms) (f, fs) t live e =
      let rest = wire_of ms fs in
      rw (recv-framed m t f rest live e) (
        ap (λ r. elim r [ none ↦ none | some xs ↦ some (m ∷ xs) ])
          (recv_all-texts ms fs (record t { incoming = rest }) live refl))

  recv_all-framed :
      (ms : List M) (t u : StdioTransport)
      → All IsFramed ms
      → t.closed ≡ false
      → t.outgoing ≡ []
      → u.closed ≡ false
      → u.incoming ≡ (send_all ms t).outgoing
      → recv_all (length ms) u ≡ some ms
  recv_all-framed ms t u fs live nothing open_ e =
      recv_all-texts ms fs u open_ (e ∙ send_all-outgoing ms fs t live ∙ rw nothing refl)

module _ (to_vec : Message → Result Text) (parse : Text → String ⊎ Value)
    (read_request : Reader Request) (read_notification : Reader Notification)
    (read_response : Reader Response) where
  -- `Message::from_json(bytes)?`
  abbrev pub read_message : Text → Result Message
  read_message bytes =
      or_json_error (from_json parse read_request read_notification read_response bytes)

  -- A value has the members that tell its kind of message from the others, and the reader of that kind
  -- makes the message of it.
  abbrev pub IsReadAs : Message → Value → Type 0
  IsReadAs (Message.request r) v =
      (has_member "method" v ≡ true) × (has_member "id" v ≡ true) × (read_request v ≡ inr r)
  IsReadAs (Message.notification n) v =
      (has_member "method" v ≡ true) × (has_member "id" v ≡ false) × (read_notification v ≡ inr n)
  IsReadAs (Message.response r) v = (has_member "method" v ≡ false) × (read_response v ≡ inr r)

  -- A message is printed as an object on one line, which parses to a value that is read as it.
  abbrev pub IsWritten : Message → Type 0
  IsWritten m =
      (mid : Text) × (v : Value) × (to_vec m ≡ ok (b'{' ∷ (mid ++ b'}' ∷ [])))
      × All (λ c. c ≢ 10) mid
      × (parse (b'{' ∷ (mid ++ b'}' ∷ [])) ≡ inr v)
      × IsReadAs m v

  from_json-IsReadAs :
      (m : Message) (v : Value) (bytes : Text)
      → parse bytes ≡ inr v
      → IsReadAs m v
      → read_message bytes ≡ ok m
  unfolding from_json from_value
  from_json-IsReadAs (Message.request r) v bytes p (a, b, c) = rw (p, a, b, c) refl
  from_json-IsReadAs (Message.notification r) v bytes p (a, b, c) = rw (p, a, b, c) refl
  from_json-IsReadAs (Message.response r) v bytes p (a, c) = rw (p, a, c) refl

  IsWritten-IsFramed : (m : Message) → IsWritten m → IsFramed to_vec read_message m
  IsWritten-IsFramed m (mid, v, prints, inside, parses, reads) =
      (mid, prints, inside, from_json-IsReadAs m v (b'{' ∷ (mid ++ b'}' ∷ [])) parses reads)

  -- What an open transport with nothing on its way sends is received in order, message by message:
  -- requests, notifications and responses are told apart by their members. The condition is that
  -- `serde_json` prints each message as an object on one line, parses that text to a value with
  -- a method and an id for a request, a method and no id for a notification and no method for a
  -- response, and that the derived reader of that kind makes the same message of it, which it
  -- does not for a response whose result is null.
  pub recv_all-send_all :
      (ms : List Message) (t u : StdioTransport)
      → All IsWritten ms
      → t.closed ≡ false
      → t.outgoing ≡ []
      → u.closed ≡ false
      → u.incoming ≡ (send_all to_vec read_message ms t).outgoing
      → recv_all to_vec read_message (length ms) u ≡ some ms
  recv_all-send_all ms t u written live nothing open_ e =
      recv_all-framed to_vec read_message ms t u
        (All-weaken IsWritten (IsFramed to_vec read_message) ms IsWritten-IsFramed written) live
        nothing open_ e
