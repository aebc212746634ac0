-- ===== src/Channels.antt =====
-- crates/sap-automate-channels/src/lib.rs: the registry of channel adapters and its routing. The state
-- of all adapters is one value `S`, which an adapter's `send` changes.
pub mod Routing
mod Tests
use sap_automate.Base.{
  ℕ, zero, suc, ◌+◌, ◌-◌, ◌*◌, ◌/◌, ◌%◌, ◌^◌, ◌≤◌, ◌<◌, min, max, String, ◌≡◌, refl, sym, ap, ◌∙◌,
  subst, ◌≢◌, ◌↔◌, ◌⊎◌, inl, inr, Bool, true, false, not, ◌&&◌, ◌||◌, Option, none, some, List, [],
  ◌∷◌, ◌++◌, map, reverse, arith, dec_lt, dec_le, ℕ_discrete, ltb, leb, ◌==◌, if◌then◌else◌, ltb→lt,
  lt→ltb, leb→le, le→leb, ==_iff, tests, Bool-cases, Option-cases, List-cases, length, get_elem?,
  take, drop, any, keep, All, Has, length-append, length-take, length-reverse, All-append,
  Has-append_left, Has-append_right, Has-append, any-append, any-eq-false, take_all,
  take-append_left, take-take_le, take-take, All-take, All-weaken, All-reverse, All-keep, Eq,
  str_eq, str_eq_iff, pair_eq, pair_eq_iff, nat_key, string_key, pair_key, Text, codes, text_eq,
  text_eq_iff, text_key, ascii_lower, to_ascii_lowercase, eq_ignore_ascii_case, is_whitespace,
  trim_start_matches, trim_matches, trim, starts_with, find, split_once, split, lines,
  starts_with-length, starts_with_same, trim_start, trim_end_matches, utf8_len, byte_len,
  skip_bytes, take_bytes, get_range, contains,
}
use sap_automate.Base.Dict.{Dict, get, insert}
use sap_automate.Json.{Value}

pub data ChannelError : Type 0 where
  unknown : Text → ChannelError
  adapter_error : Text → ChannelError
  not_connected : ChannelError

pub data ChannelKind : Type 0 where
  teams slack telegram whatsapp email cli : ChannelKind

unfoldable pub scheme : ChannelKind → Text
scheme teams = codes "teams"
scheme slack = codes "slack"
scheme telegram = codes "telegram"
scheme whatsapp = codes "whatsapp"
scheme email = codes "email"
scheme cli = codes "cli"

pub record OutgoingMessage : Type 0 where
  pub address : Text
  pub text : Text
  pub rich : Option Value

-- `OutgoingMessage::text`
unfoldable pub plain : Text → Text → OutgoingMessage
plain address text = record { address = address; text = text; rich = none }

-- `Result<(), ChannelError>`: no error is success.
abbrev pub Sent : Type 0
Sent = Option ChannelError

pub record ChannelAdapter (S : Type 0) : Type 0 where
  pub kind : ChannelKind
  pub send : OutgoingMessage → S → Sent × S

-- The adapters of Teams, Slack and Telegram, which have no SDK yet.
unfoldable pub skeleton : {S : Type 0} → ChannelKind → ChannelAdapter S
skeleton k = record { kind = k; send = λ msg s. (some not_connected, s) }

-- `CliChannel`, with what it has sent as the state.
unfoldable pub cli_channel : ChannelAdapter (List OutgoingMessage)
cli_channel = record { kind = cli; send = λ msg sent. (none, sent ++ msg ∷ []) }

abbrev first_piece : List Text → Text
first_piece [] = []
first_piece (s ∷ ss) = s

-- `address.split(':').next().unwrap_or("")`
unfoldable pub address_scheme : Text → Text
unfolding split
address_scheme address = first_piece (split b':' address)

abbrev pub ChannelRegistry : Type 0 → Type 0
ChannelRegistry S = Dict Text (ChannelAdapter S)

module _ {S : Type 0} where
  unfoldable pub register : ChannelRegistry S → ChannelAdapter S → ChannelRegistry S
  unfolding scheme
  register by_scheme adapter = insert (scheme adapter.kind) adapter by_scheme

  unfoldable pub send_by : Text → Option (ChannelAdapter S) → OutgoingMessage → S → Sent × S
  send_by wanted none msg s = (some (unknown wanted), s)
  send_by wanted (some adapter) msg s = adapter.send msg s

  -- `ChannelRegistry::send`
  unfoldable pub send_to : ChannelRegistry S → OutgoingMessage → S → Sent × S
  unfolding send_by address_scheme
  send_to by_scheme msg s =
      let wanted = address_scheme msg.address in send_by wanted (get wanted by_scheme) msg s
