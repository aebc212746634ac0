-- ===== src/Rfc/Soap/Reads.antt =====
-- What a text reads as in front of any other, letter by letter and element by element.
use mathlib.Core.List.{append_assoc}
use sap_automate.Base.{
  ℕ, ◌≡◌, refl, ap, ◌∙◌, ◌⊎◌, inl, inr, Bool, true, false, not, ◌&&◌, ◌||◌, Option, some, List, [],
  ◌∷◌, ◌++◌, arith, ◌==◌, nat_key, string_key, pair_key, Text, codes, text_eq, text_eq_iff,
  text_key,
}
use mathlib.Core.Option
use sap_automate.Rfc.Soap.Envelope.{all_chars, escape_char, xml_escape, enclose}
use sap_automate.Rfc.Soap.Xml.{
  Token, chr, entity, tag, tokens, tokens_in_tag, Content, done, letter, element, followed_by,
  letters, predefined, ReadBack, on_letter, is_xml_char, is_tag_letter, starts_well, all_letters,
  up_to_space, on_tag, step, rebuild,
}

unfoldable pub read : Text → Option ReadBack
unfolding tokens rebuild
read s = rebuild (tokens s)

-- In front of any text, `s` reads as the content `x`.
abbrev pub ReadsAs : Text → Content → Type 0
ReadsAs s x =
    (t : Text) (r : ReadBack) → read t ≡ some r → read (s ++ t) ≡ some (followed_by x r.0, r.1)

followed_by_assoc :
    (x y z : Content) → followed_by (followed_by x y) z ≡ followed_by x (followed_by y z)
followed_by_assoc done y z = refl
followed_by_assoc (letter c x) y z = ap (letter c) (followed_by_assoc x y z)
followed_by_assoc (element k u x) y z = ap (element k u) (followed_by_assoc x y z)

pub empty-ReadsAs : ReadsAs [] done
empty-ReadsAs t r h = h

pub append-ReadsAs :
    (a b : Text) (x y : Content) → ReadsAs a x → ReadsAs b y → ReadsAs (a ++ b) (followed_by x y)
append-ReadsAs a b x y p q t r h =
    rw (append_assoc a b t, followed_by_assoc x y r.0)
      (p (b ++ t) (followed_by y r.0, r.1) (q t r h))

-- A letter that opens neither a tag nor an entity.
abbrev pub is_plain_letter : ℕ → Bool
is_plain_letter c = not (c == b'<' || c == b'&')

-- One token in front of what is read.
rebuild-step :
    (x : Token) (ts : List Token) (r : ReadBack) → rebuild ts ≡ some r → rebuild (x ∷ ts) ≡ step x r
unfolding rebuild Option.bind
rebuild-step x ts r h = rw h refl

tokens-letter : (c : ℕ) (t : Text) → is_plain_letter c ≡ true → tokens (c ∷ t) ≡ chr c ∷ tokens t
unfolding tokens
tokens-letter c t p = ground arith

step-letter : (c : ℕ) (r : ReadBack) → is_xml_char c ≡ true → step (chr c) r ≡ some (on_letter c r)
unfolding step
step-letter c r x = rw x refl

pub letter-ReadsAs :
    (c : ℕ) → is_plain_letter c ≡ true → is_xml_char c ≡ true → ReadsAs (c ∷ []) (letter c done)
unfolding read
letter-ReadsAs c p x t r h =
    rw (tokens-letter c t p) (rebuild-step (chr c) (tokens t) r h ∙ step-letter c r x)

amp : ReadsAs (codes "&amp;") (letter b'&' done)
unfolding read tokens step predefined text_eq
amp t r h = rebuild-step (entity (codes "amp")) (tokens t) r h

lt : ReadsAs (codes "&lt;") (letter b'<' done)
unfolding read tokens step predefined text_eq
lt t r h = rebuild-step (entity (codes "lt")) (tokens t) r h

gt : ReadsAs (codes "&gt;") (letter b'>' done)
unfolding read tokens step predefined text_eq
gt t r h = rebuild-step (entity (codes "gt")) (tokens t) r h

quot : ReadsAs (codes "&quot;") (letter b'"' done)
unfolding read tokens step predefined text_eq
quot t r h = rebuild-step (entity (codes "quot")) (tokens t) r h

apos : ReadsAs (codes "&apos;") (letter 39 done)
unfolding read tokens step predefined text_eq
apos t r h = rebuild-step (entity (codes "apos")) (tokens t) r h

-- The five characters that are written as entities, and the others.
escape_char-cases :
    (c : ℕ)
    → ((c ≡ b'&') × (escape_char c ≡ codes "&amp;"))
      ⊎ ((c ≡ b'<') × (escape_char c ≡ codes "&lt;"))
      ⊎ ((c ≡ b'>') × (escape_char c ≡ codes "&gt;"))
      ⊎ ((c ≡ b'"') × (escape_char c ≡ codes "&quot;"))
      ⊎ ((c ≡ 39) × (escape_char c ≡ codes "&apos;"))
      ⊎ ((is_plain_letter c ≡ true) × (escape_char c ≡ c ∷ []))
unfolding escape_char
escape_char-cases c = ground arith

escape_char-ReadsAs : (c : ℕ) → is_xml_char c ≡ true → ReadsAs (escape_char c) (letter c done)
escape_char-ReadsAs c x t r h = elim (escape_char-cases c) [
  | inl (e, w) ↦ rw (w, e) (amp t r h)
  | inr (inl (e, w)) ↦ rw (w, e) (lt t r h)
  | inr (inr (inl (e, w))) ↦ rw (w, e) (gt t r h)
  | inr (inr (inr (inl (e, w)))) ↦ rw (w, e) (quot t r h)
  | inr (inr (inr (inr (inl (e, w))))) ↦ rw (w, e) (apos t r h)
  | inr (inr (inr (inr (inr (p, w))))) ↦ rw w (letter-ReadsAs c p x t r h)
]

pub and_true : (a b : Bool) → a && b ≡ true → (a ≡ true) × (b ≡ true)
and_true a b h = (ground arith, ground arith)

-- Escaped text reads as its letters.
pub xml_escape-ReadsAs :
    (s : Text) → all_chars is_xml_char s ≡ true → ReadsAs (xml_escape s) (letters s)
unfolding xml_escape
xml_escape-ReadsAs [] x = empty-ReadsAs
xml_escape-ReadsAs (c ∷ s) x =
    let (first, others) = and_true (is_xml_char c) (all_chars is_xml_char s) x in
    append-ReadsAs (escape_char c) (xml_escape s) (letter c done) (letters s)
      (escape_char-ReadsAs c first) (xml_escape-ReadsAs s others)

abbrev pub IsTagName : Text → Type 0
IsTagName k = (starts_well k ≡ true) × (all_letters k ≡ true)

-- A letter of a name neither ends a tag nor changes what it is.
tag_letter-apart :
    (c : ℕ)
    → is_tag_letter c ≡ true
    → (c == b'>' ≡ false) × (c == b'/' ≡ false) × (c == b'?' ≡ false) × (c == 32 ≡ false)
tag_letter-apart c h = (ground arith, ground arith, ground arith, ground arith)

tokens_in_tag-name :
    (k t : Text) → all_letters k ≡ true → tokens_in_tag (k ++ b'>' ∷ t) ≡ tag k ∷ tokens t
unfolding tokens_in_tag
tokens_in_tag-name [] t p = refl
tokens_in_tag-name (c ∷ k) t p =
    let (letter_, rest) = and_true (is_tag_letter c) (all_letters k) p in
    rw ((tag_letter-apart c letter_).0, tokens_in_tag-name k t rest) refl

up_to_space-name : (k : Text) → all_letters k ≡ true → up_to_space k ≡ k
unfolding up_to_space
up_to_space-name [] p = refl
up_to_space-name (c ∷ k) p =
    let (letter_, rest) = and_true (is_tag_letter c) (all_letters k) p in
    rw ((tag_letter-apart c letter_).3, up_to_space-name k rest) refl

followed_by-done : (x : Content) → followed_by x done ≡ x
followed_by-done done = refl
followed_by-done (letter c x) = ap (letter c) (followed_by-done x)
followed_by-done (element k x y) = ap (element k x) (followed_by-done y)

open-element :
    (k : Text) (x y : Content) (st : List (Text × Content))
    → IsTagName k
    → on_tag k (x, (k, y) ∷ st) ≡ some (element k x y, st)
unfolding on_tag
open-element [] x y st p = ground (arith, p.0)
open-element (c ∷ k) x y st p =
    let (letter_, rest) = and_true (is_tag_letter c) (all_letters k) p.1 in
    let apart = tag_letter-apart c letter_ in
    rw
      (
        apart.1,
        apart.2,
        up_to_space-name (c ∷ k) p.1,
        p.0,
        rest,
        (text_eq_iff (c ∷ k) (c ∷ k)).1 refl,
      )
      refl

enclose-append :
    (k body t : Text)
    → enclose k body ++ t ≡ b'<' ∷ (k ++ b'>' ∷ (body ++ b'<' ∷ b'/' ∷ (k ++ b'>' ∷ t)))
enclose-append k body t =
    rw
      (
        append_assoc k (b'>' ∷ (body ++ b'<' ∷ b'/' ∷ (k ++ b'>' ∷ []))) t,
        append_assoc body (b'<' ∷ b'/' ∷ (k ++ b'>' ∷ [])) t,
        append_assoc k (b'>' ∷ []) t,
      )
      refl

read-tag :
    (k t : Text) (r : ReadBack)
    → all_letters k ≡ true
    → read t ≡ some r
    → read (b'<' ∷ (k ++ b'>' ∷ t)) ≡ on_tag k r
unfolding read tokens step
read-tag k t r p h = rw (tokens_in_tag-name k t p) (rebuild-step (tag k) (tokens t) r h)

read-close :
    (k t : Text) (r : ReadBack)
    → all_letters k ≡ true
    → read t ≡ some r
    → read (b'<' ∷ b'/' ∷ (k ++ b'>' ∷ t)) ≡ some (done, (k, r.0) ∷ r.1)
unfolding read tokens tokens_in_tag step on_tag
read-close k t r p h = rw (tokens_in_tag-name k t p) (rebuild-step (tag (b'/' ∷ k)) (tokens t) r h)

-- An element with a content that reads as `x`.
pub enclose-ReadsAs :
    (k body : Text) (x : Content)
    → IsTagName k
    → ReadsAs body x
    → ReadsAs (enclose k body) (element k x done)
enclose-ReadsAs k body x p q t r h =
    let rest = b'<' ∷ b'/' ∷ (k ++ b'>' ∷ t) in
    let inside = q rest (done, (k, r.0) ∷ r.1) (read-close k t r p.1 h) in
    let open_tag = read-tag k (body ++ rest) (followed_by x done, (k, r.0) ∷ r.1) p.1 inside in
    rw (enclose-append k body t) (open_tag ∙ rw (followed_by-done x) (open-element k x r.0 r.1 p))
