-- ===== src/Observability/Audit.antt =====
-- crates/sap-automate-observability/src/audit.rs: the audit log and its redaction. `to_lowercase` is that
-- of `str`; the clock and the event ids are the caller's.
pub mod Secrets
use sap_automate.Base.{
  ℕ, zero, suc, ◌+◌, ◌-◌, ◌*◌, ◌/◌, ◌%◌, ◌^◌, ◌≤◌, ◌<◌, min, max, String, ◌≡◌, refl, sym, ap, ◌∙◌,
  subst, ◌≢◌, ◌↔◌, ◌⊎◌, inl, inr, Bool, true, false, not, ◌&&◌, ◌||◌, Option, none, some, List, [],
  ◌∷◌, ◌++◌, map, reverse, arith, dec_lt, dec_le, ℕ_discrete, ltb, leb, ◌==◌, if◌then◌else◌, ltb→lt,
  lt→ltb, leb→le, le→leb, ==_iff, tests, Bool-cases, Option-cases, List-cases, length, get_elem?,
  take, drop, any, keep, All, Has, length-append, length-take, length-reverse, All-append,
  Has-append_left, Has-append_right, Has-append, any-append, any-eq-false, take_all,
  take-append_left, take-take_le, take-take, All-take, All-weaken, All-reverse, All-keep, Eq,
  str_eq, str_eq_iff, pair_eq, pair_eq_iff, nat_key, string_key, pair_key, Text, codes, text_eq,
  text_eq_iff, text_key, ascii_lower, to_ascii_lowercase, eq_ignore_ascii_case, is_whitespace,
  trim_start_matches, trim_matches, trim, starts_with, find, split_once, split, lines,
  starts_with-length, starts_with_same, trim_start, trim_end_matches, utf8_len, byte_len,
  skip_bytes, take_bytes, get_range, contains,
}
use sap_automate.Base.Int.{ℤ}
use sap_automate.Json.{
  Value, null, bool, number, string, array, object, Items, nil, cons, Fields, end, field,
}

pub data AuditOutcome : Type 0 where
  done : (summary : String) → AuditOutcome
  declined denied : (reason : String) → AuditOutcome
  failed : (code : ℤ) (message : String) → AuditOutcome

pub record AuditEntry : Type 0 where
  pub event_id : String
  pub at_ms : ℕ
  pub session_id : Option String
  pub tenant : Option String
  pub actor : Option String
  pub tool : String
  pub sap_system : Option String
  pub arguments_redacted : Value
  pub outcome : AuditOutcome
  pub duration_ms : ℕ

-- `SENSITIVE_SUBSTRINGS`
abbrev pub sensitive_substrings : List String
sensitive_substrings =
    "password" ∷ "passwd" ∷ "secret" ∷ "token" ∷ "api_key" ∷ "apikey" ∷ "_pwd" ∷ "_pass"
    ∷ "credential" ∷ []

-- A sink is what `write` does to its state.
pub record AuditSink : Type 1 where
  pub State : Type 0
  pub write : AuditEntry → State → State

-- `JsonStderrSink` keeps the entries.
abbrev pub kept_entries : AuditSink
kept_entries = record { State = List AuditEntry; write = λ e entries. entries ++ e ∷ [] }

-- `JsonStderrSink::drain`: the entries, and the empty sink.
unfoldable pub drain : List AuditEntry → List AuditEntry × List AuditEntry
drain entries = (entries, [])

module _ (to_lowercase : Text → Text) where
  unfoldable pub is_sensitive : String → Bool
  unfolding contains
  is_sensitive k = any (λ s. contains (to_lowercase (codes k)) (codes s)) sensitive_substrings

  -- Removing and inserting a key leaves the order of the map, so a field keeps its place.
  unfoldable mutual
    unfolding is_sensitive

    pub redact : Value → Value
    redact (object fs) = object (redact_fields fs)
    redact (array xs) = array (redact_items xs)
    redact null = null
    redact (bool b) = bool b
    redact (number n) = number n
    redact (string s) = string s

    pub redact_items : Items → Items
    redact_items nil = nil
    redact_items (cons x xs) = cons (redact x) (redact_items xs)

    pub redact_fields : Fields → Fields
    redact_fields end = end
    redact_fields (field k v fs) =
        field k (if is_sensitive k then string "***" else redact v) (redact_fields fs)

  -- `AuditLog::record`
  unfoldable pub record_entry : (sink : AuditSink) → AuditEntry → sink.State → sink.State
  record_entry sink entry s =
      sink.write (record entry { arguments_redacted = redact entry.arguments_redacted }) s
