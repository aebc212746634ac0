-- ===== src/Rfc/Soap/Xml.antt =====
-- A reader of XML texts, to say what an envelope means to the one who receives it. Attributes and
-- processing instructions are skipped; a tag that opens and closes at once is not needed. It refuses
-- more than XML does: names have ASCII letters, digits and `_ : - .` only and begin with a letter or
-- `_`, and a carriage return, which XML would turn into a line feed, is no character of a text.
use sap_automate.Base.{
  ℕ, Bool, true, false, not, ◌&&◌, ◌||◌, leb, Option, none, some, List, [], ◌∷◌, ◌==◌,
  if◌then◌else◌, nat_key, string_key, pair_key, Text, codes, text_eq, text_key,
}
use mathlib.Core.Option

pub data Token : Type 0 where
  chr : ℕ → Token
  entity : Text → Token
  tag : Text → Token

-- What stands between the delimiters grows from its end.
abbrev pub put : ℕ → List Token → List Token
put c [] = []
put c (chr d ∷ ts) = chr d ∷ ts
put c (entity s ∷ ts) = entity (c ∷ s) ∷ ts
put c (tag s ∷ ts) = tag (c ∷ s) ∷ ts

unfoldable mutual
  pub tokens : Text → List Token
  tokens [] = []
  tokens (c ∷ s) =
      let in_tag = tokens_in_tag s in
      let in_entity = tokens_in_entity s in
      let rest = chr c ∷ tokens s in
      if c == b'<' then in_tag else if c == b'&' then in_entity else rest

  pub tokens_in_tag : Text → List Token
  tokens_in_tag [] = tag [] ∷ []
  tokens_in_tag (c ∷ s) =
      let stop = tag [] ∷ tokens s in
      let go = put c (tokens_in_tag s) in if c == b'>' then stop else go

  pub tokens_in_entity : Text → List Token
  tokens_in_entity [] = entity [] ∷ []
  tokens_in_entity (c ∷ s) =
      let stop = entity [] ∷ tokens s in
      let go = put c (tokens_in_entity s) in if c == b';' then stop else go

-- The content of an element, from left to right.
pub data Content : Type 0 where
  done : Content
  letter : ℕ → Content → Content
  element : Text → Content → Content → Content

abbrev pub followed_by : Content → Content → Content
followed_by done d = d
followed_by (letter c x) d = letter c (followed_by x d)
followed_by (element k x y) d = element k x (followed_by y d)

abbrev pub letters : Text → Content
letters [] = done
letters (c ∷ s) = letter c (letters s)

unfoldable pub predefined : Text → Option ℕ
predefined s =
    if text_eq s (codes "amp")
    then some b'&'
    else if text_eq s (codes "lt")
    then some b'<'
    else if text_eq s (codes "gt")
    then some b'>'
    else if text_eq s (codes "quot")
    then some b'"'
    else if text_eq s (codes "apos")
    then some 39
    else none

-- What is read from the end of the text up to a point: the content that stands behind it, and the
-- elements that are closed there and not yet opened, with what follows them.
abbrev pub ReadBack : Type 0
ReadBack = Content × List (Text × Content)

abbrev pub on_letter : ℕ → ReadBack → ReadBack
on_letter c (x, st) = (letter c x, st)

abbrev on_entity : Option ℕ → ReadBack → Option ReadBack
on_entity none r = none
on_entity (some c) r = some (on_letter c r)

abbrev on_close : Text → ReadBack → Option ReadBack
on_close k (x, st) = some (done, (k, x) ∷ st)

abbrev on_open : Text → ReadBack → Option ReadBack
on_open k (x, []) = none
on_open k (x, (j, y) ∷ st) = if text_eq k j then some (element k x y, st) else none

-- The characters of a text.
abbrev pub is_xml_char : ℕ → Bool
is_xml_char c = c == 9 || c == 10 || (leb 32 c && not (c == 65534 || c == 65535))

abbrev is_letter : ℕ → Bool
is_letter c = (leb b'A' c && leb c b'Z') || (leb b'a' c && leb c b'z') || c == b'_'

abbrev pub is_tag_letter : ℕ → Bool
is_tag_letter c = is_letter c || (leb b'0' c && leb c b'9') || c == b':' || c == b'-' || c == b'.'

abbrev pub starts_well : Text → Bool
starts_well [] = false
starts_well (c ∷ s) = is_letter c

abbrev pub all_letters : Text → Bool
all_letters [] = true
all_letters (c ∷ s) = is_tag_letter c && all_letters s

-- The name in a tag.
unfoldable pub up_to_space : Text → Text
up_to_space [] = []
up_to_space (c ∷ s) = let rest = c ∷ up_to_space s in if c == 32 then [] else rest

unfoldable pub on_tag : Text → ReadBack → Option ReadBack
unfolding up_to_space
on_tag [] r = none
on_tag (c ∷ s) r =
    if c == b'/'
    then on_close s r
    else if c == b'?'
    then some r
    else (let name = up_to_space (c ∷ s) in
        if starts_well name && all_letters name then on_open name r else none)

unfoldable pub step : Token → ReadBack → Option ReadBack
unfolding predefined on_tag
step (chr c) r = if is_xml_char c then some (on_letter c r) else none
step (entity s) r = on_entity (predefined s) r
step (tag s) r = on_tag s r

unfoldable pub rebuild : List Token → Option ReadBack
unfolding step
rebuild [] = some (done, [])
rebuild (t ∷ ts) = Option.bind (rebuild ts) (step t)

abbrev finished : ReadBack → Option Content
finished (x, []) = some x
finished (x, _ ∷ _) = none

-- Every opened element is closed, in order.
unfoldable pub read_xml : Text → Option Content
unfolding tokens rebuild
read_xml s = Option.bind (rebuild (tokens s)) finished
