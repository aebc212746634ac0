-- ===== src/Channels/Routing.antt =====
-- crates/sap-automate-channels/src/lib.rs: which adapter a message reaches.
use sap_automate.Base.{
  ◌≡◌, refl, ap, ◌∙◌, Option, none, some, List, [], ◌∷◌, ◌++◌, Bool, true, false, split,
  if◌then◌else◌, nat_key, string_key, pair_key, Text, text_eq, text_key,
}
use sap_automate.Base.Dict.{get, get-insert}
use sap_automate.Channels.{
  ChannelKind, teams, slack, telegram, whatsapp, email, cli, ChannelAdapter, ChannelRegistry,
  OutgoingMessage, Sent, unknown, scheme, address_scheme, register, send_by, send_to,
}

-- Whether two channels are of one kind.
abbrev pub same_kind : ChannelKind → ChannelKind → Bool
same_kind teams teams = true
same_kind slack slack = true
same_kind telegram telegram = true
same_kind whatsapp whatsapp = true
same_kind email email = true
same_kind cli cli = true
same_kind _ _ = false

-- No two kinds have one scheme.
text_eq-scheme : (j k : ChannelKind) → text_eq (scheme j) (scheme k) ≡ same_kind j k
unfolding scheme text_eq
text_eq-scheme teams teams = refl
text_eq-scheme teams slack = refl
text_eq-scheme teams telegram = refl
text_eq-scheme teams whatsapp = refl
text_eq-scheme teams email = refl
text_eq-scheme teams cli = refl
text_eq-scheme slack teams = refl
text_eq-scheme slack slack = refl
text_eq-scheme slack telegram = refl
text_eq-scheme slack whatsapp = refl
text_eq-scheme slack email = refl
text_eq-scheme slack cli = refl
text_eq-scheme telegram teams = refl
text_eq-scheme telegram slack = refl
text_eq-scheme telegram telegram = refl
text_eq-scheme telegram whatsapp = refl
text_eq-scheme telegram email = refl
text_eq-scheme telegram cli = refl
text_eq-scheme whatsapp teams = refl
text_eq-scheme whatsapp slack = refl
text_eq-scheme whatsapp telegram = refl
text_eq-scheme whatsapp whatsapp = refl
text_eq-scheme whatsapp email = refl
text_eq-scheme whatsapp cli = refl
text_eq-scheme email teams = refl
text_eq-scheme email slack = refl
text_eq-scheme email telegram = refl
text_eq-scheme email whatsapp = refl
text_eq-scheme email email = refl
text_eq-scheme email cli = refl
text_eq-scheme cli teams = refl
text_eq-scheme cli slack = refl
text_eq-scheme cli telegram = refl
text_eq-scheme cli whatsapp = refl
text_eq-scheme cli email = refl
text_eq-scheme cli cli = refl

-- No scheme has a colon.
address_scheme-scheme :
    (k : ChannelKind) (rest : Text) → address_scheme (scheme k ++ b':' ∷ rest) ≡ scheme k
unfolding address_scheme scheme split
address_scheme-scheme teams rest = refl
address_scheme-scheme slack rest = refl
address_scheme-scheme telegram rest = refl
address_scheme-scheme whatsapp rest = refl
address_scheme-scheme email rest = refl
address_scheme-scheme cli rest = refl

module _ {S : Type 0} where
  -- The registry after a number of registrations.
  abbrev pub register_all : List (ChannelAdapter S) → ChannelRegistry S
  register_all [] = []
  register_all (a ∷ adapters) = register (register_all adapters) a

  -- The adapter of a kind that stands first.
  abbrev pub first_kind : ChannelKind → List (ChannelAdapter S) → Option (ChannelAdapter S)
  first_kind k [] = none
  first_kind k (a ∷ adapters) =
      let rest = first_kind k adapters in if same_kind a.kind k then some a else rest

  -- The adapter of a scheme that stands first.
  abbrev first_of : Text → List (ChannelAdapter S) → Option (ChannelAdapter S)
  first_of wanted [] = none
  first_of wanted (a ∷ adapters) =
      let rest = first_of wanted adapters in if text_eq (scheme a.kind) wanted then some a else rest

  get-register_all :
      (wanted : Text) (adapters : List (ChannelAdapter S))
      → get wanted (register_all adapters) ≡ first_of wanted adapters
  unfolding register get
  get-register_all wanted [] = refl
  get-register_all wanted (a ∷ adapters) =
      get-insert (scheme a.kind) wanted a (register_all adapters)
      ∙ ap (λ rest. if text_eq (scheme a.kind) wanted then some a else rest)
          (get-register_all wanted adapters)

  first_of-scheme :
      (k : ChannelKind) (adapters : List (ChannelAdapter S))
      → first_of (scheme k) adapters ≡ first_kind k adapters
  first_of-scheme k [] = refl
  first_of-scheme k (a ∷ adapters) = rw (text_eq-scheme a.kind k, first_of-scheme k adapters) refl

  -- What a message does under the adapter that it is routed to, if there is one.
  abbrev pub Delivers : Text → Option (ChannelAdapter S) → OutgoingMessage → S → Sent × S → Type 0
  Delivers wanted none msg s result = result ≡ (some (unknown wanted), s)
  Delivers wanted (some a) msg s result = result ≡ a.send msg s

  send_by-Delivers :
      (wanted : Text) (o : Option (ChannelAdapter S)) (msg : OutgoingMessage) (s : S)
      → Delivers wanted o msg s (send_by wanted o msg s)
  unfolding send_by
  send_by-Delivers wanted none msg s = refl
  send_by-Delivers wanted (some a) msg s = refl

  -- A message whose address is the scheme of a kind of channel, a colon and anything else goes to
  -- the adapter of exactly that kind that was registered last, the list's first; where none of
  -- that kind is registered it is refused with the scheme's name and nothing changes.
  pub send_to-register_all :
      (adapters : List (ChannelAdapter S)) (k : ChannelKind) (rest : Text) (msg : OutgoingMessage)
      (s : S)
      → msg.address ≡ scheme k ++ b':' ∷ rest
      → Delivers (scheme k) (first_kind k adapters) msg s (send_to (register_all adapters) msg s)
  unfolding send_to
  send_to-register_all adapters k rest msg s e =
      rw
        (
          ap address_scheme e ∙ address_scheme-scheme k rest,
          get-register_all (scheme k) adapters,
          first_of-scheme k adapters,
        )
        (send_by-Delivers (scheme k) (first_kind k adapters) msg s)
