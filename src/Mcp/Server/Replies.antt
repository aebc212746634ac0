-- ===== src/Mcp/Server/Replies.antt =====
-- Every request is answered once, under its own id.
use sap_automate.Base.{
  ℕ, suc, ◌+◌, ◌≡◌, refl, ap, ◌⊎◌, inl, inr, Bool, none, some, List, [], ◌∷◌, length, nat_key,
  string_key, pair_key,
}
use sap_automate.Json.{Value}
use sap_automate.Mcp.Error.{Result, ok, err}
use sap_automate.Mcp.JsonRpc.{
  RequestId, Request, Response, Message, ErrorObject, success, failure, jsonrpc_version,
}
use sap_automate.Mcp.Protocol.{LogLevel, SetLevelParams, rank}
use sap_automate.Mcp.Builder.{ServerContext, current_log_level, level_of}
use sap_automate.Mcp.Codec.{Codec, Method, Done, method_of, parse_params, respond}
use sap_automate.Mcp.Server.{
  handle, handle_method, dispatch, dispatch_message, run_single_actor, set_level,
}

-- One of `result` and `error` is there, and the other is not.
abbrev pub IsOneAnswer : Response → Type 0
IsOneAnswer r =
    ((v : Value) × (r.result ≡ some v) × (r.error ≡ none))
    ⊎ ((e : ErrorObject) × (r.result ≡ none) × (r.error ≡ some e))

respond-IsOneAnswer :
    (codec : Codec) (id : RequestId) (r : Result Value)
    → ((respond codec id r).id ≡ id)
      × ((respond codec id r).jsonrpc ≡ jsonrpc_version)
      × IsOneAnswer (respond codec id r)
unfolding respond success failure
respond-IsOneAnswer codec id (ok v) = (refl, refl, inl (v, refl, refl))
respond-IsOneAnswer codec id (err e) = (refl, refl, inr (_, refl, refl))

level_of-rank : (level : LogLevel) → level_of (rank level) ≡ level
unfolding level_of rank
level_of-rank LogLevel.debug = refl
level_of-rank LogLevel.info = refl
level_of-rank LogLevel.notice = refl
level_of-rank LogLevel.warning = refl
level_of-rank LogLevel.error = refl
level_of-rank LogLevel.critical = refl
level_of-rank LogLevel.alert = refl
level_of-rank LogLevel.emergency = refl

module _ {World : Type 0} (codec : Codec) where
  -- The answer to a request carries the request's id and the version 2.0, and either a result or an
  -- error.
  pub dispatch-IsOneAnswer :
      (disabled : Bool) (req : Request) (ctx : ServerContext World) (w : World)
      → let response = (dispatch codec disabled req ctx w).0 in
        (response.id ≡ req.id) × (response.jsonrpc ≡ jsonrpc_version) × IsOneAnswer response
  unfolding dispatch
  dispatch-IsOneAnswer disabled req ctx w =
      respond-IsOneAnswer codec req.id (handle_method codec disabled req ctx w).0

  set_level_keeps :
      (ctx : ServerContext World) (r : Result SetLevelParams)
      → let ctx' = (set_level codec ctx r).1 in ctx' ≡ record ctx { log_level = ctx'.log_level }
  unfolding set_level
  set_level_keeps ctx (err e) = refl
  set_level_keeps ctx (ok params) = refl

  -- No request changes what the server offers: at most the log level changes, and only by
  -- `logging/setLevel`.
  pub handle_method_keeps :
      (disabled : Bool) (req : Request) (ctx : ServerContext World) (w : World)
      → let ctx' = (handle_method codec disabled req ctx w).1 in
        (ctx' ≡ record ctx { log_level = ctx'.log_level })
        × ((method_of req.method ≡ Method.logging_set_level) ⊎ (ctx' ≡ ctx))
  unfolding handle_method handle
  handle_method_keeps disabled req ctx w = by_method (method_of req.method)
    where
      by_method :
          (m : Method)
          → let ctx' = (handle codec disabled m req.params ctx w).1 in
            (ctx' ≡ record ctx { log_level = ctx'.log_level })
            × ((m ≡ Method.logging_set_level) ⊎ (ctx' ≡ ctx))
      by_method Method.logging_set_level = (set_level_keeps ctx _, inl refl)
      by_method Method.initialize = (refl, inr refl)
      by_method Method.ping = (refl, inr refl)
      by_method Method.tools_list = (refl, inr refl)
      by_method Method.tools_call = (refl, inr refl)
      by_method Method.resources_list = (refl, inr refl)
      by_method Method.resources_read = (refl, inr refl)
      by_method Method.prompts_list = (refl, inr refl)
      by_method Method.prompts_get = (refl, inr refl)
      by_method Method.completion_complete = (refl, inr refl)
      by_method (Method.other m) = (refl, inr refl)

  -- After `logging/setLevel` with parameters that read as a level, that level is the current one.
  pub handle_method-current_log_level :
      (disabled : Bool) (req : Request) (ctx : ServerContext World) (w : World)
      (params : SetLevelParams)
      → method_of req.method ≡ Method.logging_set_level
      → parse_params codec.read_set_level req.params ≡ ok params
      → current_log_level (handle_method codec disabled req ctx w).1 ≡ params.level
  unfolding handle_method handle set_level current_log_level
  handle_method-current_log_level disabled req ctx w params is_set reads =
      rw (is_set, reads) (level_of-rank params.level)

-- The ids of the requests, in order.
abbrev pub request_ids : List (Result Message) → List RequestId
request_ids [] = []
request_ids (ok (Message.request req) ∷ ms) = req.id ∷ request_ids ms
request_ids (ok (Message.response r) ∷ ms) = request_ids ms
request_ids (ok (Message.notification n) ∷ ms) = request_ids ms
request_ids (err e ∷ ms) = []

abbrev pub response_ids : List Message → List RequestId
response_ids [] = []
response_ids (Message.request req ∷ ms) = response_ids ms
response_ids (Message.response r ∷ ms) = r.id ∷ response_ids ms
response_ids (Message.notification n ∷ ms) = response_ids ms

-- The outcome of the transport's input: its first error, if there is one.
abbrev pub end_of : List (Result Message) → Done
end_of [] = ok tt
end_of (ok m ∷ ms) = end_of ms
end_of (err e ∷ ms) = err e

module _ {World : Type 0} (codec : Codec) where
  -- While sends succeed, the serial loop answers exactly the requests that come before the end of
  -- the input or its first error, in their order, and ends with that error or with none.
  pub run_single_actor_answers :
      (inbound : List (Result Message)) (disabled : Bool) (send : ℕ → Done) (n : ℕ)
      (ctx : ServerContext World) (w : World)
      → ((i : ℕ) → send i ≡ ok tt)
      → let (sent, end_result) = run_single_actor codec disabled send n inbound ctx w in
        (response_ids sent ≡ request_ids inbound)
        × (length sent ≡ length (request_ids inbound))
        × (end_result ≡ end_of inbound)
  unfolding run_single_actor dispatch_message
  run_single_actor_answers [] disabled send n ctx w sends = (refl, refl, refl)
  run_single_actor_answers (err e ∷ inbound) disabled send n ctx w sends = (refl, refl, refl)
  run_single_actor_answers (ok (Message.notification m) ∷ inbound) disabled send n ctx w sends =
      run_single_actor_answers inbound disabled send n ctx w sends
  run_single_actor_answers (ok (Message.response r) ∷ inbound) disabled send n ctx w sends =
      run_single_actor_answers inbound disabled send n ctx w sends
  run_single_actor_answers (ok (Message.request req) ∷ inbound) disabled send n ctx w sends =
      let rest =
        run_single_actor_answers inbound disabled send (n + 1) (dispatch codec disabled req ctx w).1
          (dispatch codec disabled req ctx w).2 sends in
      rw (sends n) (
        rw ((dispatch-IsOneAnswer codec disabled req ctx w).0) (ap (◌∷◌ req.id) rest.0),
        ap suc rest.1,
        rest.2,
      )
