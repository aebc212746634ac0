-- ===== src/Observability/Audit/Secrets.antt =====
-- crates/sap-automate-observability/src/audit.rs: what of the arguments reaches the sink.
use sap_automate.Base.{
  ◌≡◌, refl, ap, ◌⊎◌, inl, inr, true, nat_key, string_key, pair_key, Text, text_key,
}
use sap_automate.Json.{
  Value, null, bool, number, string, array, object, Items, nil, cons, Fields, end, field,
}
use sap_automate.Observability.Audit.{
  AuditEntry, AuditSink, is_sensitive, redact, redact_items, redact_fields, record_entry,
}

module _ (to_lowercase : Text → Text) where
  -- Two values that differ at most below sensitive keys.
  unfoldable mutual
    pub Agrees : Value → Value → Type 0
    Agrees (object fs) (object gs) = AgreesFields fs gs
    Agrees (array xs) (array ys) = AgreesItems xs ys
    Agrees v w = v ≡ w

    AgreesItems : Items → Items → Type 0
    AgreesItems nil nil = Unit
    AgreesItems (cons x xs) (cons y ys) = Agrees x y × AgreesItems xs ys
    AgreesItems _ _ = ⊥

    AgreesFields : Fields → Fields → Type 0
    AgreesFields end end = Unit
    AgreesFields (field k v fs) (field j w gs) =
        (k ≡ j) × ((is_sensitive to_lowercase k ≡ true) ⊎ Agrees v w) × AgreesFields fs gs
    AgreesFields _ _ = ⊥

  mutual
    unfolding redact Agrees

    redact_same : (v w : Value) → Agrees v w → redact to_lowercase v ≡ redact to_lowercase w
    redact_same (object fs) (object gs) h = ap object (fields_same fs gs h)
    redact_same (array xs) (array ys) h = ap array (items_same xs ys h)
    redact_same (object fs) (array ys) h = ap (redact to_lowercase) h
    redact_same (object fs) null h = ap (redact to_lowercase) h
    redact_same (object fs) (bool b) h = ap (redact to_lowercase) h
    redact_same (object fs) (number n) h = ap (redact to_lowercase) h
    redact_same (object fs) (string s) h = ap (redact to_lowercase) h
    redact_same (array xs) (object gs) h = ap (redact to_lowercase) h
    redact_same (array xs) null h = ap (redact to_lowercase) h
    redact_same (array xs) (bool b) h = ap (redact to_lowercase) h
    redact_same (array xs) (number n) h = ap (redact to_lowercase) h
    redact_same (array xs) (string s) h = ap (redact to_lowercase) h
    redact_same null w h = ap (redact to_lowercase) h
    redact_same (bool b) w h = ap (redact to_lowercase) h
    redact_same (number n) w h = ap (redact to_lowercase) h
    redact_same (string s) w h = ap (redact to_lowercase) h

    items_same :
        (xs ys : Items)
        → AgreesItems xs ys
        → redact_items to_lowercase xs ≡ redact_items to_lowercase ys
    items_same nil nil h = refl
    items_same nil (cons y ys) h = absurd h
    items_same (cons x xs) nil h = absurd h
    items_same (cons x xs) (cons y ys) h =
        let tail = items_same xs ys h.1 in cc (redact_same x y h.0, tail)

    fields_same :
        (fs gs : Fields)
        → AgreesFields fs gs
        → redact_fields to_lowercase fs ≡ redact_fields to_lowercase gs
    fields_same end end h = refl
    fields_same end (field j w gs) h = absurd h
    fields_same (field k v fs) end h = absurd h
    fields_same (field k v fs) (field j w gs) (same, inl e, rest) =
        let tail = fields_same fs gs rest in
        let f : is_sensitive to_lowercase j ≡ true = rw same at e in rw (e, f) (cc (same, tail))
    fields_same (field k v fs) (field j w gs) (same, inr agrees, rest) =
        let tail = fields_same fs gs rest in
        let inner = redact_same v w agrees in cc (same, tail, inner)

  -- The sink's state after an entry is recorded does not depend on what stands below sensitive keys of
  -- the arguments, at any depth: entries that differ at most there leave the same log.
  pub record_entry-Agrees :
      (sink : AuditSink) (entry : AuditEntry) (other : Value) (s : sink.State)
      → Agrees entry.arguments_redacted other
      → record_entry to_lowercase sink entry s
        ≡ record_entry to_lowercase sink (record entry { arguments_redacted = other }) s
  unfolding record_entry
  record_entry-Agrees sink entry other s h =
      ap (λ v. sink.write (record entry { arguments_redacted = v }) s)
        (redact_same entry.arguments_redacted other h)
