-- ===== src/Mcp/Stdio.antt =====
-- crates/mcp-transport/src/stdio.rs: messages as lines. What was written and not yet read is a text; the
-- printing and the parsing of a message are parameters.
use sap_automate.Base.{
  ℕ, zero, suc, String, ◌⊎◌, inl, inr, Bool, true, Option, none, some, [], ◌∷◌, ◌++◌, ◌==◌,
  if◌then◌else◌, length, nat_key, string_key, pair_key, Text, text_key, trim,
}
use sap_automate.Rfc.Soap.Envelope.{is_empty}
use sap_automate.Mcp.Error.{Error, Result, ok, err}

-- `read_line`: the text up to a line feed and with it.
unfoldable pub take_line : Text → Text × Text
take_line [] = ([], [])
take_line (c ∷ s) =
    let (line, rest) = take_line s in if c == 10 then (c ∷ [], s) else (c ∷ line, rest)

-- `StdioTransport`, of which the reader and the writer share nothing but `closed`.
pub record StdioTransport : Type 0 where
  pub incoming : Text
  pub outgoing : Text
  pub closed : Bool

-- `r?` of a result of `serde_json`
abbrev pub or_json_error {ℓ} : {M : Type ℓ} → String ⊎ M → Result M
or_json_error (inl e) = err (Error.json e)
or_json_error (inr m) = ok m

module _ {M : Type 0} (to_vec : M → Result Text) (from_json : Text → Result M) where
  abbrev framed : Result Text → StdioTransport → Result (Unit {0}) × StdioTransport
  framed (err e) t = (err e, t)
  framed (ok bytes) t = (ok tt, record t { outgoing = t.outgoing ++ (bytes ++ 10 ∷ []) })

  unfoldable pub send : M → StdioTransport → Result (Unit {0}) × StdioTransport
  send m t =
      let sent = framed (to_vec m) t in if t.closed then (err Error.transport_closed, t) else sent

  abbrev pub some_message : Result M → Result (Option M)
  some_message (ok m) = ok (some m)
  some_message (err e) = err e

  -- A blank line is passed over.
  unfoldable pub by_line :
      Text → Text → Option (Result (Option M) × Text) → Option (Result (Option M) × Text)
  unfolding trim
  by_line line rest again =
      let read = some (some_message (from_json (trim line)), rest) in
      if is_empty (trim line) then again else read

  -- What `recv` makes of the lines. `none` is running out of fuel.
  unfoldable pub recv_loop : ℕ → Text → Option (Result (Option M) × Text)
  unfolding take_line by_line
  recv_loop zero wire = none
  recv_loop (suc n) [] = some (ok none, [])
  recv_loop (suc n) (c ∷ s) = let p = take_line (c ∷ s) in by_line p.0 p.1 (recv_loop n p.1)

  abbrev after_read :
      StdioTransport
      → Option (Result (Option M) × Text)
      → Option (Result (Option M) × StdioTransport)
  after_read t none = none
  after_read t (some (r, rest)) = some (r, record t { incoming = rest })

  unfoldable pub recv : StdioTransport → Option (Result (Option M) × StdioTransport)
  unfolding recv_loop
  recv t =
      let read = after_read t (recv_loop (suc (length t.incoming)) t.incoming) in
      if t.closed then some (ok none, t) else read

  unfoldable pub close : StdioTransport → StdioTransport
  close t = record t { closed = true }
