-- ===== src/Rfc/Soap/Safety.antt =====
-- crates/sap-automate-rfc/src/soap.rs: what the client posts, and when.
use sap_automate.Base.{
  ◌≤◌, ◌≢◌, String, ◌≡◌, refl, sym, ◌∙◌, ◌↔◌, ◌⊎◌, inl, inr, Bool, true, false, not, Option, none,
  some, map, str_eq, str_eq_iff, List, [], ◌∷◌, arith, ltb, ◌==◌, if◌then◌else◌, Bool-cases, All,
  nat_key, string_key, pair_key, Text, codes, text_key, byte_len,
}
use sap_automate.Json.{Value, Fields, get_field}
use sap_automate.Rfc.MockClient.{insert_field}
use sap_automate.Rfc.Soap.Delimited.{get-insert_same, get-insert_other}
use sap_automate.Rfc.Error.{RfcError, RfcResult, ok, err}
use sap_automate.Rfc.Client.{RfcFunctionMeta, RfcCallRequest, ReadTableRequest, max_rows_hard_cap}
use sap_automate.Rfc.Soap.Envelope.{is_safe_name, write_params, validate_fields}
use sap_automate.Rfc.Soap.Rows.{parse_read_table}
use sap_automate.Rfc.Soap.Invoke.{SoapRfcConfig, Outside, Call, SoapRequest, invoke, request_for}
use sap_automate.Rfc.Soap.Calls.{
  map_call, then_call, gate, args_of, post_args, report, call_rfc, check_read, read_table,
  read_table_params, unless_long, long_clause, items_of, one_field, insert_rows,
}

abbrev pub Posted : RfcResult RfcFunctionMeta → Bool → Type 0
Posted r read_only =
    ((meta : RfcFunctionMeta) × (r ≡ ok meta) × (read_only ≡ true → meta.read_only ≡ true))
    ⊎ ((x : String) × (r ≡ err (RfcError.not_found x)) × (read_only ≡ false))

-- The gate lets pass what the catalogue has as read-only, and with writes enabled also the rest.
gate-Posted :
    (read_only : Bool) (function : String) (r : RfcResult RfcFunctionMeta)
    → gate read_only function r ≡ ok tt
    → Posted r read_only
unfolding gate
gate-Posted read_only function (ok meta) h = inl (meta, refl, λ e. ground arith)
gate-Posted read_only function (err (RfcError.not_found x)) h = inr (x, refl, ground arith)
gate-Posted read_only function (err (RfcError.timeout n)) h = ground arith
gate-Posted read_only function (err (RfcError.destination_down d n)) h = ground arith
gate-Posted read_only function (err (RfcError.pool_exhausted n)) h = ground arith
gate-Posted read_only function (err (RfcError.circuit_open n)) h = ground arith
gate-Posted read_only function (err (RfcError.auth_failed n)) h = ground arith
gate-Posted read_only function (err (RfcError.table_buffer_overflow t n)) h = ground arith
gate-Posted read_only function (err (RfcError.invalid_parameter t n)) h = ground arith
gate-Posted read_only function (err (RfcError.permission_denied n)) h = ground arith
gate-Posted read_only function (err (RfcError.schema_violation n)) h = ground arith
gate-Posted read_only function (err (RfcError.partial_bulk n)) h = ground arith
gate-Posted read_only function (err (RfcError.internal n)) h = ground arith

-- What follows a call posts nothing; what follows a result is posted only if that is a value.
posts-map_call {ℓ κ} :
    {A : Type ℓ} {B : Type κ} (f : A → RfcResult B) (c : Call A) → (map_call f c).1 ≡ c.1
posts-map_call f (ok a, sent) = refl
posts-map_call f (err e, sent) = refl

posts-then_call {ℓ κ} :
    {A : Type ℓ} {B : Type κ} (r : RfcResult A) (f : A → Call B) (q : SoapRequest)
    (qs : List SoapRequest)
    → (then_call r f).1 ≡ q ∷ qs
    → (a : A) × (r ≡ ok a) × ((f a).1 ≡ q ∷ qs)
posts-then_call (ok a) f q qs h = (a, refl, h)
posts-then_call (err e) f q qs h = absurd (grind arith)

posts-if :
    (b : Bool) (q req : SoapRequest) (qs : List SoapRequest)
    → (if not b then [] else (req ∷ [])) ≡ q ∷ qs
    → (b ≡ true) × (q ≡ req) × (qs ≡ [])
posts-if true q req qs h = (refl, cc, cc)
posts-if false q req qs h = absurd (grind arith)

module _ (out : Outside) (config : SoapRfcConfig) where
  posts-invoke :
      (function : String) (params : Text) (q : SoapRequest) (qs : List SoapRequest)
      → (invoke out config function params).1 ≡ q ∷ qs
      → (is_safe_name function ≡ true) × (q ≡ request_for out config function params) × (qs ≡ [])
  unfolding invoke
  posts-invoke function params q qs h =
      let req = request_for out config function params in
      posts-if (is_safe_name function) q req qs (elim (Bool-cases (is_safe_name function)) [
        | inl e ↦ rw e (rw e at h)
        | inr e ↦ rw e (rw e at h)
      ])

  -- What a posted request goes back to.
  abbrev pub IsAdmitted : RfcCallRequest → Bool → SoapRequest → List SoapRequest → Type 0
  IsAdmitted request read_only_mode q qs =
      (args : Fields) × (Posted (out.rfc_metadata request.function config.language) read_only_mode)
      × (is_safe_name request.function ≡ true)
      × (args_of out config request.parameters ≡ ok args)
      × (validate_fields args ≡ ok tt)
      × (q ≡ request_for out config request.function (write_params args))
      × (qs ≡ [])

  -- A call posts at most one request. If it posts one, that is the request for the named function
  -- with the rendered arguments, the function's name and all keys of the arguments are checked
  -- names, and the gate was passed: in read-only mode the catalogue has the function as one that
  -- only reads, and with writes enabled it has the function or does not know it, but did not fail.
  pub posts-call_rfc :
      (request : RfcCallRequest) (read_only_mode : Bool) (q : SoapRequest) (qs : List SoapRequest)
      → (call_rfc out config request read_only_mode).1 ≡ q ∷ qs
      → IsAdmitted request read_only_mode q qs
  unfolding call_rfc post_args
  posts-call_rfc request ro q qs h =
      let r = out.rfc_metadata request.function config.language in
      let (u, g, h1) =
        posts-then_call (gate ro request.function r)
          (λ _.
            then_call (args_of out config request.parameters)
              (post_args out config request.function))
          q qs h in
      let (args, a, h2) =
        posts-then_call (args_of out config request.parameters)
          (post_args out config request.function) q qs h1 in
      let (v, e, h3) =
        posts-then_call (validate_fields args)
          (λ _.
            map_call (report out config request.function)
              (invoke out config request.function (write_params args)))
          q qs h2 in
      let posted = invoke out config request.function (write_params args) in
      let h4 = sym (posts-map_call (report out config request.function) posted) ∙ h3 in
      let (safe, same, last) = posts-invoke request.function (write_params args) q qs h4 in
      (args, gate-Posted ro request.function r g, safe, a, e, same, last)

read_table-safe : is_safe_name "RFC_READ_TABLE" ≡ true
unfolding is_safe_name
read_table-safe = refl

-- The limits of a table read.
abbrev pub IsReadable : ReadTableRequest → Type 0
IsReadable r =
    (1 ≤ r.max_rows)
    × (r.max_rows ≤ max_rows_hard_cap)
    × All (λ c. byte_len (codes c) ≤ 72) r.where_conditions

clauses_fit :
    (cs : List String)
    → (unless_long (long_clause cs) ≡ ok tt) ↔ All (λ c. byte_len (codes c) ≤ 72) cs
clauses_fit [] = (λ e. tt, λ e. refl)
clauses_fit (c ∷ cs) = elim (Bool-cases (ltb 72 (byte_len (codes c)))) [
  | inl e ↦ rw e (λ x. ground arith, λ x. absurd (ground (arith, x.0)))
  | inr e ↦ rw e (λ x. (ground arith, (clauses_fit cs).0 x), λ x. (clauses_fit cs).1 x.1)
]

check_read_iff : (r : ReadTableRequest) → (check_read r ≡ ok tt) ↔ IsReadable r
unfolding check_read
check_read_iff r = elim (Bool-cases (r.max_rows == 0)) [
  | inl none_asked ↦ rw none_asked (λ h. ground arith, λ fit. absurd (ground (arith, fit.0)))
  | inr some_asked ↦ elim (Bool-cases (ltb max_rows_hard_cap r.max_rows)) [
    | inl over ↦ rw (some_asked, over) (λ h. ground arith, λ fit. absurd (ground (arith, fit.1)))
    | inr under ↦
        rw (some_asked, under)
          (
            λ h. (ground arith, ground arith, (clauses_fit r.where_conditions).0 h),
            λ fit. (clauses_fit r.where_conditions).1 fit.2,
          )
  ]
]

-- A table with one row for each text, or no table.
abbrev pub listed : String → List String → Option Value
listed col [] = none
listed col (x ∷ xs) = some (Value.array (items_of (map (one_field col) (x ∷ xs))))

-- The arguments of a table read.
abbrev pub AsksFor : ReadTableRequest → String → Fields → Type 0
AsksFor r count m =
    (get_field "QUERY_TABLE" m ≡ some (Value.string r.table))
    × (get_field "DELIMITER" m ≡ some (Value.string "|"))
    × (get_field "ROWCOUNT" m ≡ some (Value.number count))
    × (get_field "FIELDS" m ≡ listed "FIELDNAME" r.fields)
    × (get_field "OPTIONS" m ≡ listed "TEXT" r.where_conditions)

apart : (a b : String) → str_eq a b ≡ false → a ≢ b
apart a b h = ground (arith, str_eq_iff a b)

module _ (before : String → String → Bool) where
  skip :
      (i k : String) (v : Value) (m : Fields) (o : Option Value)
      → str_eq k i ≡ false
      → get_field i m ≡ o
      → get_field i (insert_field before k v m) ≡ o
  skip i k v m o differs e = get-insert_other before i k v m (apart k i differs) ∙ e

  skip_rows :
      (i k col : String) (xs : List String) (m : Fields) (o : Option Value)
      → str_eq k i ≡ false
      → get_field i m ≡ o
      → get_field i (insert_rows before k col xs m) ≡ o
  skip_rows i k col [] m o differs e = e
  skip_rows i k col (x ∷ xs) m o differs e =
      skip i k (Value.array (items_of (map (one_field col) (x ∷ xs)))) m o differs e

  take_rows :
      (k col : String) (xs : List String) (m : Fields)
      → get_field k m ≡ none
      → get_field k (insert_rows before k col xs m) ≡ listed col xs
  take_rows k col [] m e = e
  take_rows k col (x ∷ xs) m e =
      get-insert_same before k (Value.array (items_of (map (one_field col) (x ∷ xs)))) m

module _ (out : Outside) (config : SoapRfcConfig) where
  read_table_params-AsksFor :
      (r : ReadTableRequest) → AsksFor r (out.show r.max_rows) (read_table_params out config r)
  unfolding read_table_params get_field
  read_table_params-AsksFor r =
      let b = out.before in
      let table = Value.string r.table in
      let bar = Value.string "|" in
      let count = Value.number (out.show r.max_rows) in
      let m1 = insert_field b "QUERY_TABLE" table Fields.end in
      let m2 = insert_field b "DELIMITER" bar m1 in
      let m3 = insert_field b "ROWCOUNT" count m2 in
      let m4 = insert_rows b "FIELDS" "FIELDNAME" r.fields m3 in
      let past =
        λ (i : String) (o : Option Value) (f : str_eq "FIELDS" i ≡ false)
            (g : str_eq "OPTIONS" i ≡ false) (e : get_field i m3 ≡ o).
          skip_rows b i "OPTIONS" "TEXT" r.where_conditions m4 o g
            (skip_rows b i "FIELDS" "FIELDNAME" r.fields m3 o f e) in
      (
        past "QUERY_TABLE" (some table) refl refl (
            skip b "QUERY_TABLE" "ROWCOUNT" count m2 (some table) refl (
              skip b "QUERY_TABLE" "DELIMITER" bar m1 (some table) refl
                (get-insert_same b "QUERY_TABLE" table Fields.end))),
        past "DELIMITER" (some bar) refl refl (
            skip b "DELIMITER" "ROWCOUNT" count m2 (some bar) refl
              (get-insert_same b "DELIMITER" bar m1)),
        past "ROWCOUNT" (some count) refl refl (get-insert_same b "ROWCOUNT" count m2),
        skip_rows b "FIELDS" "OPTIONS" "TEXT" r.where_conditions m4 (listed "FIELDNAME" r.fields)
            refl
            (take_rows b "FIELDS" "FIELDNAME" r.fields m3 (
              skip b "FIELDS" "ROWCOUNT" count m2 none refl (
                skip b "FIELDS" "DELIMITER" bar m1 none refl
                  (skip b "FIELDS" "QUERY_TABLE" table Fields.end none refl refl)))),
        take_rows b "OPTIONS" "TEXT" r.where_conditions m4 (
            skip_rows b "OPTIONS" "FIELDS" "FIELDNAME" r.fields m3 none refl (
              skip b "OPTIONS" "ROWCOUNT" count m2 none refl (
                skip b "OPTIONS" "DELIMITER" bar m1 none refl
                  (skip b "OPTIONS" "QUERY_TABLE" table Fields.end none refl refl)))),
      )

  posts-safe :
      (function : String) (params : Text)
      → is_safe_name function ≡ true
      → (invoke out config function params).1 ≡ request_for out config function params ∷ []
  unfolding invoke
  posts-safe function params e = rw e refl

  -- A table read posts a request exactly if it asks for 1 to 1000 rows by clauses of at most 72 bytes
  -- each (the source's comment and error text say characters), and then it posts that one: a call
  -- of RFC_READ_TABLE whose arguments hold the table's name, the delimiter, the number of rows, a
  -- row for each column asked for and a row for each clause, and no such table where none is given.
  pub posts-read_table_iff :
      (r : ReadTableRequest) (q : SoapRequest) (qs : List SoapRequest)
      → (((read_table out config r).1 ≡ q ∷ qs) ↔ (
          IsReadable r
          × (q
              ≡ request_for out config "RFC_READ_TABLE"
                  (write_params (read_table_params out config r)))
          × (qs ≡ [])))
        × AsksFor r (out.show r.max_rows) (read_table_params out config r)
  unfolding read_table
  posts-read_table_iff r q qs =
      let posted =
        invoke out config "RFC_READ_TABLE" (write_params (read_table_params out config r)) in
      let once : (map_call (parse_read_table out.before) posted).1
          ≡ request_for out config "RFC_READ_TABLE" (write_params (read_table_params out config r))
            ∷ [] =
        posts-map_call (parse_read_table out.before) posted
        ∙ posts-safe "RFC_READ_TABLE" (write_params (read_table_params out config r))
            read_table-safe in
      (
        (
          λ h.
              let (u, fit, h1) =
                posts-then_call (check_read r) (λ _. map_call (parse_read_table out.before) posted)
                  q qs h in
              let both = sym once ∙ h1 in ((check_read_iff r).0 fit, cc, cc),
          λ (fit, same, last). rw ((check_read_iff r).1 fit, same, last) once,
        ),
        read_table_params-AsksFor r,
      )
