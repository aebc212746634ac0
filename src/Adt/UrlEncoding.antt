-- ===== src/Adt/UrlEncoding.antt =====
-- crates/sap-automate-adt/src/http.rs: `urlencoding`, and a decoder to say what it is for. A text is
-- the list of its bytes.
use sap_automate.Base.{
  ℕ, ◌+◌, ◌-◌, ◌*◌, ◌/◌, ◌%◌, ◌<◌, ◌≡◌, refl, ap, ◌∙◌, ◌⊎◌, inl, inr, Bool, true, false, ◌&&◌, ◌||◌,
  List, [], ◌∷◌, ◌++◌, arith, ltb, leb, ◌==◌, if◌then◌else◌, Bool-cases, All, nat_key, string_key,
  pair_key, Text, text_key,
}

unfoldable pub is_unreserved : ℕ → Bool
is_unreserved b =
    (leb b'A' b && leb b b'Z')
    || (leb b'a' b && leb b b'z')
    || (leb b'0' b && leb b b'9')
    || b == b'-'
    || b == b'_'
    || b == b'.'
    || b == b'~'

-- A digit of `{:02X}`.
abbrev pub hex_digit : ℕ → ℕ
hex_digit v = if ltb v 10 then v + 48 else v + 55

unfoldable pub encode_byte : ℕ → Text
unfolding is_unreserved
encode_byte b =
    if is_unreserved b then b ∷ [] else b'%' ∷ hex_digit (b / 16) ∷ hex_digit (b % 16) ∷ []

unfoldable pub url_encode : List ℕ → Text
unfolding encode_byte
url_encode [] = []
url_encode (b ∷ bs) = encode_byte b ++ url_encode bs

abbrev hex_value : ℕ → ℕ
hex_value c = if leb c b'9' then c - 48 else c - 55

unfoldable pub percent_decode : Text → List ℕ
percent_decode [] = []
percent_decode (c ∷ []) = c ∷ []
percent_decode (c ∷ d ∷ []) = c ∷ d ∷ []
percent_decode (c ∷ d ∷ e ∷ s) =
    let escaped = (hex_value d * 16 + hex_value e) ∷ percent_decode s in
    let plain = c ∷ percent_decode (d ∷ e ∷ s) in if c == b'%' then escaped else plain

percent_decode-plain :
    (c : ℕ) (s : Text) → c == b'%' ≡ false → percent_decode (c ∷ s) ≡ c ∷ percent_decode s
unfolding percent_decode
percent_decode-plain c [] h = refl
percent_decode-plain c (d ∷ []) h = refl
percent_decode-plain c (d ∷ e ∷ s) h = rw h refl

hex_value-hex_digit : (v : ℕ) → v < 16 → hex_value (hex_digit v) ≡ v
hex_value-hex_digit v h = ground arith

percent_nil : percent_decode [] ≡ []
unfolding percent_decode
percent_nil = refl

unreserved_no_percent : (b : ℕ) → is_unreserved b ≡ true → b == b'%' ≡ false
unfolding is_unreserved
unreserved_no_percent b e = ground arith

hex_is_unreserved : (v : ℕ) → v < 16 → is_unreserved (hex_digit v) ≡ true
unfolding is_unreserved
hex_is_unreserved v h = ground arith

percent_decode-escaped :
    (b : ℕ) (s : Text)
    → b < 256
    → percent_decode (b'%' ∷ hex_digit (b / 16) ∷ hex_digit (b % 16) ∷ s) ≡ b ∷ percent_decode s
unfolding percent_decode
percent_decode-escaped b s h =
    let high = hex_value-hex_digit (b / 16) (omega arith) in
    let low = hex_value-hex_digit (b % 16) (omega arith) in
    let whole : b / 16 * 16 + b % 16 ≡ b = omega arith in rw (high, low, whole) refl

-- Decoding gives back the bytes that were encoded, each below 256.
pub percent_decode-url_encode :
    (bs : List ℕ) → All (λ b. b < 256) bs → percent_decode (url_encode bs) ≡ bs
unfolding url_encode encode_byte
percent_decode-url_encode [] h = percent_nil
percent_decode-url_encode (b ∷ bs) (h, hs) = elim (Bool-cases (is_unreserved b)) [
  | inl e ↦ rw e (
      percent_decode-plain b (url_encode bs) (unreserved_no_percent b e)
      ∙ ap (◌∷◌ b) (percent_decode-url_encode bs hs))
  | inr e ↦
      rw e
        (percent_decode-escaped b (url_encode bs) h ∙ ap (◌∷◌ b) (percent_decode-url_encode bs hs))
]

-- Nothing that separates the parts of a URL is left in what was encoded.
pub url_encode-Unreserved :
    (bs : List ℕ)
    → All (λ b. b < 256) bs
    → All (λ c. (is_unreserved c ≡ true) ⊎ (c ≡ b'%')) (url_encode bs)
unfolding url_encode encode_byte
url_encode-Unreserved [] h = tt
url_encode-Unreserved (b ∷ bs) (h, hs) = elim (Bool-cases (is_unreserved b)) [
  | inl e ↦ rw e (inl e, url_encode-Unreserved bs hs)
  | inr e ↦ rw e (
    inr refl,
    (
      inl (hex_is_unreserved (b / 16) (omega arith)),
      (inl (hex_is_unreserved (b % 16) (omega arith)), url_encode-Unreserved bs hs),
    ),
  )
]
