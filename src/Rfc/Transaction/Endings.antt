-- ===== src/Rfc/Transaction/Endings.antt =====
-- How `execute_write_bapi` ends its units of work.
use sap_automate.Base.{
  String, ◌≡◌, refl, ap, ◌∙◌, ◌⊎◌, inl, inr, Bool, true, false, List, [], ◌∷◌, ◌++◌, Bool-cases,
  str_eq, ◌||◌, nat_key, string_key, pair_key,
}
use sap_automate.Json.{Value}
use sap_automate.Rfc.Error.{RfcError, RfcResult, ok, err, is_transient}
use sap_automate.Rfc.BapiRet2.{BapiRet2Message, parse_bapiret2}
use sap_automate.Rfc.Client.{RfcCallRequest, SapClient}
use sap_automate.Rfc.Transaction.{
  WriteOutcome, World, commit_req, rollback_req, has_failure, issue, rollback, give_up,
  after_commit, after_bapi, unconfirmed, execute_write_bapi, commit_fn, rollback_fn, is_empty,
}
use sap_automate.Rfc.Transaction.Protocol.{Answer, issued-issue, rolled_lem}

module _ (client : SapClient) (display : RfcError → String) where
  open client use {State}

  -- How the units of work end: the requests issued and the result. `before` is the list of requests
  -- before the call, and `a` the answer of the business BAPI.
  abbrev pub Settles :
      RfcCallRequest
      → List RfcCallRequest
      → Answer client display
      → RfcResult WriteOutcome × World State
      → Type 0
  Settles request before a (ok o, after) =
      ((o.committed ≡ true) × (after.issued ≡ (before ++ request ∷ []) ++ commit_req ∷ []))
      ⊎ ((o.committed ≡ false) × (after.issued ≡ (before ++ request ∷ []) ++ rollback_req ∷ []))
      ⊎ ((o.committed ≡ false)
          × (after.issued ≡ ((before ++ request ∷ []) ++ commit_req ∷ []) ++ rollback_req ∷ []))
  Settles request before a (err e, after) =
      ((after.issued ≡ before) × (is_transient e ≡ false))
      ⊎ ((after.issued ≡ before ++ request ∷ []) × (a.0 ≡ err e))
      ⊎ ((after.issued ≡ (before ++ request ∷ []) ++ commit_req ∷ [])
          × ((issue client display commit_req a.1).0 ≡ err e))

  module _ (request : RfcCallRequest) (before : List RfcCallRequest) where
    give_up-Settles :
        (result : Value) (messages : List BapiRet2Message) (a : Answer client display)
        (w : World State)
        → (w.issued ≡ before ++ request ∷ [])
          ⊎ (w.issued ≡ (before ++ request ∷ []) ++ commit_req ∷ [])
        → Settles request before a (give_up client display request.function result messages w)
    unfolding give_up
    give_up-Settles result messages a w h =
        let last : (rollback client display w).2.issued ≡ w.issued ++ rollback_req ∷ [] =
          ap (λ (u : World State). u.issued)
            (rolled_lem client display (issue client display rollback_req w)).0
          ∙ issued-issue client display rollback_req w in
        elim h [
          | inl e ↦ inr (inl (refl, last ∙ ap (λ l. l ++ rollback_req ∷ []) e))
          | inr e ↦ inr (inr (refl, last ∙ ap (λ l. l ++ rollback_req ∷ []) e))
        ]

    after_commit-Settles :
        (result : Value) (messages : List BapiRet2Message) (a c : Answer client display)
        → issue client display commit_req a.1 ≡ c
        → c.1.issued ≡ (before ++ request ∷ []) ++ commit_req ∷ []
        → Settles request before a (after_commit client display request.function result messages c)
    unfolding after_commit
    after_commit-Settles result messages a (err e, w) q h = inr (inr (h, ap (λ x. x.0) q))
    after_commit-Settles result messages a (ok v, w) q h =
        elim (Bool-cases (has_failure (messages ++ parse_bapiret2 v))) [
          | inl failed ↦
              rw failed (give_up-Settles result (messages ++ parse_bapiret2 v) a w (inr h))
          | inr fine ↦ rw fine (inl (refl, h))
        ]

    after_bapi-Settles :
        (a : Answer client display)
        → a.1.issued ≡ before ++ request ∷ []
        → Settles request before a (after_bapi client display request.function a)
    unfolding after_bapi
    after_bapi-Settles (err e, w) h = inr (inl (h, refl))
    after_bapi-Settles (ok v, w) h = elim (Bool-cases (has_failure (parse_bapiret2 v))) [
      | inl failed ↦ rw failed (give_up-Settles v (parse_bapiret2 v) (ok v, w) w (inl h))
      | inr fine ↦ rw fine (elim (Bool-cases (is_empty (parse_bapiret2 v))) [
        | inl silent ↦ rw silent (give_up-Settles v (unconfirmed ∷ []) (ok v, w) w (inl h))
        | inr rows ↦ rw rows (
            after_commit-Settles v (parse_bapiret2 v) (ok v, w) (issue client display commit_req w)
              refl (issued-issue client display commit_req w ∙ ap (λ l. l ++ commit_req ∷ []) h))
      ])
    ]

  -- No unit of work stays open behind an outcome: the requests issued end with the commit where
  -- the change is committed and with a rollback where it is not, which comes directly after the
  -- BAPI or after one commit. Only an error can leave it open: then nothing was issued and the
  -- error is not transient, or it is the BAPI's own and only the BAPI was issued, or it is the
  -- commit's own and the BAPI and the commit were issued; no rollback follows it.
  pub execute_write_bapi-Settles :
      (request : RfcCallRequest) (read_only_mode : Bool) (w : World State)
      → Settles request w.issued
          (issue client display request w)
          (execute_write_bapi client display request read_only_mode w)
  unfolding execute_write_bapi
  execute_write_bapi-Settles request true w = inl (refl, unfold is_transient in refl)
  execute_write_bapi-Settles request false w =
      elim (Bool-cases (str_eq request.function commit_fn || str_eq request.function rollback_fn)) [
        | inl direct ↦ rw direct (inl (refl, unfold is_transient in refl))
        | inr other ↦ rw other (
            after_bapi-Settles request w.issued (issue client display request w)
              (issued-issue client display request w))
      ]
