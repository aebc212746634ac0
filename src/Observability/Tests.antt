-- ===== src/Observability/Tests.antt =====
-- A call with a password below a list.
use sap_automate.Base.{
  String, ◌≡◌, refl, inl, inr, none, [], nat_key, string_key, pair_key, text_key, ascii_lower,
  to_ascii_lowercase,
}
use sap_automate.Json.{Value, string, array, object, nil, cons, end, field}
use sap_automate.Observability.Audit.{
  AuditEntry, AuditOutcome, kept_entries, redact, is_sensitive, record_entry,
}
use sap_automate.Observability.Audit.Secrets.{Agrees, record_entry-Agrees}

abbrev arguments : String → Value
arguments secret =
    object (field "items" (array (cons (object (field "PASSWORD" (string secret) end)) nil)) end)

hidden : redact to_ascii_lowercase (arguments "x") ≡ arguments "***"
unfolding redact ascii_lower
hidden = refl

abbrev entry : AuditEntry
entry = record {
  event_id = "evt-1";
  at_ms = 1;
  session_id = none;
  tenant = none;
  actor = none;
  tool = "sap.rfc.call";
  sap_system = none;
  arguments_redacted = arguments "x";
  outcome = AuditOutcome.declined "no";
  duration_ms = 1;
}

record_entry-Agrees_example :
    record_entry to_ascii_lowercase kept_entries entry []
    ≡ record_entry to_ascii_lowercase kept_entries
        (record entry { arguments_redacted = arguments "y" })
        []
unfolding Agrees is_sensitive ascii_lower
record_entry-Agrees_example =
    record_entry-Agrees to_ascii_lowercase kept_entries entry (arguments "y") []
      (refl, inr ((refl, inl refl, tt), tt), tt)
