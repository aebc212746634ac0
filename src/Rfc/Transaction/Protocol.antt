-- ===== src/Rfc/Transaction/Protocol.antt =====
-- Which calls `execute_write_bapi` issues, and what its outcome says of them.
use sap_automate.Base.{
  String, ◌≡◌, refl, sym, ap, ◌∙◌, ◌≢◌, ◌↔◌, ◌⊎◌, inl, inr, Bool, true, false, List, [], ◌∷◌, ◌++◌,
  arith, Bool-cases, str_eq_iff, nat_key, string_key, pair_key, List-cases,
}
use sap_automate.Json.{Value}
use sap_automate.Rfc.Error.{RfcError, RfcResult, ok, err, is_transient}
use sap_automate.Rfc.BapiRet2.{BapiRet2Message, parse_bapiret2}
use sap_automate.Rfc.Client.{RfcCallRequest, SapClient}
use sap_automate.Rfc.Transaction.{
  WriteOutcome, World, commit_req, rollback_req, has_failure, issue, rollback, give_up, rolled,
  after_commit, after_bapi, unconfirmed, read_only_error, direct_call_error, execute_write_bapi,
  commit_fn, rollback_fn,
}

-- The answer confirms that the call did its work.
abbrev pub Confirms : RfcResult Value → Type 0
Confirms (ok v) = has_failure (parse_bapiret2 v) ≡ false
Confirms (err e) = ⊥

module _ (client : SapClient) (display : RfcError → String) where
  open client use {State}

  abbrev pub Answer : Type 0
  Answer = RfcResult Value × World State

  pub issued-issue :
      (request : RfcCallRequest) (w : World State)
      → (issue client display request w).1.issued ≡ w.issued ++ request ∷ []
  unfolding issue
  issued-issue request w = refl

  pub rolled_lem :
      (a : Answer)
      → ((rolled client display a).2 ≡ a.1) × (((rolled client display a).0 ≡ true) ↔ Confirms a.0)
  unfolding rolled
  rolled_lem (ok v, w) = (refl, (ground arith, ground arith))
  rolled_lem (err e, w) = (refl, ((λ h. absurd (cc)), λ h. absurd h))

  give_up_lem :
      (function : String) (result : Value) (messages : List BapiRet2Message) (w : World State)
      → (o : WriteOutcome) × (give_up client display function result messages w
          ≡ (ok o, (issue client display rollback_req w).1))
        × (o.committed ≡ false)
        × ((o.rolled_back ≡ true) ↔ Confirms (issue client display rollback_req w).0)
  unfolding give_up
  give_up_lem function result messages w =
      let l = rolled_lem (issue client display rollback_req w) in
      (
        record {
          function = function;
          committed = false;
          rolled_back = (rollback client display w).0;
          messages = messages ++ (rollback client display w).1;
          result = result;
        },
        λ i. (
          ok (record {
            function = function;
            committed = false;
            rolled_back = (rollback client display w).0;
            messages = messages ++ (rollback client display w).1;
            result = result;
          }),
          l.0 i,
        ),
        refl,
        l.1,
      )

  give_up-committed :
      (function : String) (result : Value) (messages : List BapiRet2Message) (w w' : World State)
      (o : WriteOutcome)
      → give_up client display function result messages w ≡ (ok o, w')
      → o.committed ≡ true
      → ⊥
  unfolding give_up
  give_up-committed function result messages w w' o e c = ground arith

  after_commit-committed :
      (function : String) (result : Value) (messages : List BapiRet2Message) (a : Answer)
      (w' : World State) (o : WriteOutcome)
      → after_commit client display function result messages a ≡ (ok o, w')
      → o.committed ≡ true
      → (w' ≡ a.1)
        × (o.result ≡ result)
        × (has_failure o.messages ≡ false)
        × (o.rolled_back ≡ false)
        × (c : Value) × (a.0 ≡ ok c)
        × (o.messages ≡ messages ++ parse_bapiret2 c)
  unfolding after_commit give_up
  after_commit-committed function result messages (err e, w) w' o q c = cc
  after_commit-committed function result messages (ok v, w) w' o q c =
      (ground arith, ground arith, ground arith, ground arith, v, refl, ground arith)

  -- How a committed outcome came about, from the answer of the BAPI.
  abbrev pub CommittedFrom : Answer → World State → WriteOutcome → Type 0
  CommittedFrom a after o =
      (a.0 ≡ ok o.result)
      × ((c : Value) × ((issue client display commit_req a.1).0 ≡ ok c)
          × (o.messages ≡ parse_bapiret2 o.result ++ parse_bapiret2 c))
      × (after.issued ≡ a.1.issued ++ commit_req ∷ [])
      × (parse_bapiret2 o.result ≢ [])
      × (has_failure (parse_bapiret2 o.result) ≡ false)
      × (has_failure o.messages ≡ false)
      × (o.rolled_back ≡ false)

  module _ (function : String) (v : Value) (w : World State) where
    after_bapi_failed :
        has_failure (parse_bapiret2 v) ≡ true
        → after_bapi client display function (ok v, w)
          ≡ give_up client display function v (parse_bapiret2 v) w
    unfolding after_bapi
    after_bapi_failed f = ground arith

    after_bapi_silent :
        parse_bapiret2 v ≡ []
        → after_bapi client display function (ok v, w)
          ≡ give_up client display function v (unconfirmed ∷ []) w
    unfolding after_bapi has_failure
    after_bapi_silent e = rw (e, after_bapi)

    after_bapi_fine :
        has_failure (parse_bapiret2 v) ≡ false
        → parse_bapiret2 v ≢ []
        → after_bapi client display function (ok v, w)
          ≡ after_commit client display function v
              (parse_bapiret2 v)
              (issue client display commit_req w)
    unfolding after_bapi
    after_bapi_fine f e = ground arith

    after_bapi-committed_ok :
        (w' : World State) (o : WriteOutcome)
        → after_bapi client display function (ok v, w) ≡ (ok o, w')
        → o.committed ≡ true
        → CommittedFrom (ok v, w) w' o
    after_bapi-committed_ok w' o q c = elim (Bool-cases (has_failure (parse_bapiret2 v))) [
      | inl failed ↦ absurd (
          give_up-committed function v (parse_bapiret2 v) w w' o
            (sym (after_bapi_failed failed) ∙ q) c)
      | inr fine ↦ elim (List-cases (parse_bapiret2 v)) [
        | inl empty ↦ absurd (
            give_up-committed function v (unconfirmed ∷ []) w w' o
              (sym (after_bapi_silent empty) ∙ q) c)
        | inr rows ↦
            let f =
              after_commit-committed function v (parse_bapiret2 v)
                (issue client display commit_req w) w' o (sym (after_bapi_fine fine rows) ∙ q) c in
            (
              λ i. ok (sym f.1 i),
              (f.4, f.5, rw f.1 f.6),
              ap (λ (u : World State). u.issued) f.0 ∙ issued-issue commit_req w,
              rw f.1 rows,
              rw f.1 fine,
              f.2,
              f.3,
            )
      ]
    ]

  after_bapi-committed :
      (function : String) (a : Answer) (w' : World State) (o : WriteOutcome)
      → after_bapi client display function a ≡ (ok o, w')
      → o.committed ≡ true
      → CommittedFrom a w' o
  unfolding after_bapi
  after_bapi-committed function (err e, w) w' o q c = cc
  after_bapi-committed function (ok v, w) w' o q c = after_bapi-committed_ok function v w w' o q c

  module _ (request : RfcCallRequest) (w : World State) where
    abbrev asked : Answer
    asked = issue client display request w

    execute_runs :
        (read_only_mode : Bool) (w' : World State) (o : WriteOutcome)
        → execute_write_bapi client display request read_only_mode w ≡ (ok o, w')
        → (read_only_mode ≡ false)
          × (request.function ≢ commit_fn)
          × (request.function ≢ rollback_fn)
          × (after_bapi client display request.function asked ≡ (ok o, w'))
    unfolding execute_write_bapi
    execute_runs read_only_mode w' o q =
        ground
          (arith, q, str_eq_iff request.function commit_fn, str_eq_iff request.function rollback_fn)

    -- If the outcome says that the change is committed, then the server was in write mode, the
    -- calls issued are the business BAPI and one commit after it and no others; the outcome's
    -- result is what the BAPI answered, with at least one message and none that failed; the commit
    -- was answered too, and the outcome's messages are those of the two answers, none of which
    -- failed; and no rollback is reported.
    pub execute_write_bapi-committed :
        (read_only_mode : Bool) (w' : World State) (o : WriteOutcome)
        → execute_write_bapi client display request read_only_mode w ≡ (ok o, w')
        → o.committed ≡ true
        → (read_only_mode ≡ false)
          × (asked.0 ≡ ok o.result)
          × ((c : Value) × ((issue client display commit_req asked.1).0 ≡ ok c)
              × (o.messages ≡ parse_bapiret2 o.result ++ parse_bapiret2 c))
          × (w'.issued ≡ (w.issued ++ request ∷ []) ++ commit_req ∷ [])
          × (parse_bapiret2 o.result ≢ [])
          × (has_failure (parse_bapiret2 o.result) ≡ false)
          × (has_failure o.messages ≡ false)
          × (o.rolled_back ≡ false)
    execute_write_bapi-committed read_only_mode w' o q c =
        let r = execute_runs read_only_mode w' o q in
        let f = after_bapi-committed request.function asked w' o r.3 c in
        (r.0, f.0, f.1, rw (← issued-issue request w) f.2, f.3, f.4, f.5, f.6)

    -- Read-only mode refuses everything, and a direct commit or rollback is refused in either
    -- mode; nothing is issued and the world stays as it is.
    pub execute_write_bapi_refuses :
        (read_only_mode : Bool)
        → (read_only_mode ≡ true)
          ⊎ (request.function ≡ commit_fn)
          ⊎ (request.function ≡ rollback_fn)
        → (e : RfcError) × (execute_write_bapi client display request read_only_mode w ≡ (err e, w))
          × (is_transient e ≡ false)
    unfolding execute_write_bapi is_transient
    execute_write_bapi_refuses true h = (read_only_error request.function, refl, refl)
    execute_write_bapi_refuses false (inl e) = absurd (cc)
    execute_write_bapi_refuses false (inr h) = (
      direct_call_error,
      ground
          (arith, str_eq_iff request.function commit_fn, str_eq_iff request.function rollback_fn),
      refl,
    )

    execute_asks :
        request.function ≢ commit_fn
        → request.function ≢ rollback_fn
        → execute_write_bapi client display request false w
          ≡ after_bapi client display request.function asked
    unfolding execute_write_bapi
    execute_asks c r =
        ground
          (arith, str_eq_iff request.function commit_fn, str_eq_iff request.function rollback_fn)

    asks_ok :
        (v : Value)
        → request.function ≢ commit_fn
        → request.function ≢ rollback_fn
        → asked.0 ≡ ok v
        → execute_write_bapi client display request false w
          ≡ after_bapi client display request.function (ok v, asked.1)
    asks_ok v c r a =
        execute_asks c r ∙ (λ i. after_bapi client display request.function (a i, asked.1))

    -- Fail closed: whenever the BAPI answers with a failed message, or with no message at all, the
    -- next and last call is a rollback, nothing is committed, and `rolled_back` is reported
    -- exactly when that rollback was answered without a failed message. (The field's own comment
    -- says "whether a rollback was issued": here one always is.)
    pub execute_write_bapi_fails_closed :
        (v : Value)
        → request.function ≢ commit_fn
        → request.function ≢ rollback_fn
        → asked.0 ≡ ok v
        → (has_failure (parse_bapiret2 v) ≡ true) ⊎ (parse_bapiret2 v ≡ [])
        → (o : WriteOutcome) × (execute_write_bapi client display request false w
            ≡ (ok o, (issue client display rollback_req asked.1).1))
          × (o.committed ≡ false)
          × ((o.rolled_back ≡ true) ↔ Confirms (issue client display rollback_req asked.1).0)
    execute_write_bapi_fails_closed v c r a (inl failed) =
        let g = give_up_lem request.function v (parse_bapiret2 v) asked.1 in
        (g.0, asks_ok v c r a ∙ after_bapi_failed request.function v asked.1 failed ∙ g.1, g.2, g.3)
    execute_write_bapi_fails_closed v c r a (inr silent) =
        let g = give_up_lem request.function v (unconfirmed ∷ []) asked.1 in
        (g.0, asks_ok v c r a ∙ after_bapi_silent request.function v asked.1 silent ∙ g.1, g.2, g.3)
