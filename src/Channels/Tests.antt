-- ===== src/Channels/Tests.antt =====
-- A terminal that was registered twice, and a channel that is not there.
use sap_automate.Base.{
  ◌≡◌, refl, none, List, [], ◌∷◌, nat_key, string_key, pair_key, codes, text_eq, text_key, split,
}
use sap_automate.Base.Dict.{get, insert}
use sap_automate.Channels.{
  ChannelAdapter, teams, cli, OutgoingMessage, skeleton, cli_channel, scheme, register, send_to,
}
use sap_automate.Channels.Routing.{register_all, send_to-register_all}

abbrev adapters : List (ChannelAdapter (List OutgoingMessage))
adapters = skeleton teams ∷ cli_channel ∷ []

abbrev hello : OutgoingMessage
hello = record { address = codes "cli:default"; text = codes "hello"; rich = none }

sends_to_cli : send_to (register_all adapters) hello [] ≡ (none, hello ∷ [])
unfolding send_to register scheme get insert skeleton cli_channel text_eq split
sends_to_cli = refl

send_to-register_all_example : send_to (register_all adapters) hello [] ≡ (none, hello ∷ [])
unfolding scheme cli_channel skeleton
send_to-register_all_example = send_to-register_all adapters cli (codes "default") hello [] refl
