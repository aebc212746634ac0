-- ===== src/Adt/Base64.antt =====
-- crates/sap-automate-adt/src/http.rs: `base64_compat`, and a decoder to say what it is for. A text is
-- the list of its bytes.
use sap_automate.Base.{
  ℕ, zero, suc, ◌+◌, ◌-◌, ◌*◌, ◌/◌, ◌%◌, ◌<◌, ◌≡◌, refl, Bool, true, false, not, ◌&&◌, Option, none,
  some, List, [], ◌∷◌, arith, dec_lt, leb, ◌==◌, if◌then◌else◌, get_elem?, All, nat_key, string_key,
  pair_key, Text, codes, text_key,
}

abbrev base64_table : Text
base64_table = codes "ABCDEFGHIJKLMNOPQRSTUVWXYZabcdefghijklmnopqrstuvwxyz0123456789+/"

abbrev or_nul : Option ℕ → ℕ
or_nul none = 0
or_nul (some c) = c

-- `TABLE[v]`
unfoldable pub digit_at : ℕ → ℕ
digit_at v = or_nul (get_elem? base64_table v)

-- Three bytes at a time; one or two are filled up.
unfoldable pub encode : List ℕ → Text
unfolding digit_at
encode [] = []
encode (b1 ∷ []) = digit_at (b1 / 4) ∷ digit_at (b1 % 4 * 16) ∷ b'=' ∷ b'=' ∷ []
encode (b1 ∷ b2 ∷ []) =
    digit_at (b1 / 4) ∷ digit_at (b1 % 4 * 16 + b2 / 16) ∷ digit_at (b2 % 16 * 4) ∷ b'=' ∷ []
encode (b1 ∷ b2 ∷ b3 ∷ bs) =
    digit_at (b1 / 4)
    ∷ digit_at (b1 % 4 * 16 + b2 / 16)
    ∷ digit_at (b2 % 16 * 4 + b3 / 64)
    ∷ digit_at (b3 % 64)
    ∷ encode bs

-- The value of a digit of the alphabet, 64 for any other character.
unfoldable pub value_of : ℕ → ℕ
value_of c =
    if leb b'A' c && leb c b'Z'
    then c - 65
    else if leb b'a' c && leb c b'z'
    then c - 71
    else if leb b'0' c && leb c b'9'
    then c + 4
    else if c == b'+'
    then 62
    else if c == b'/'
    then 63
    else 64

-- Four digits give three bytes, fewer where padding stands at the end.
unfoldable pub decode : Text → List ℕ
unfolding value_of
decode (c1 ∷ c2 ∷ c3 ∷ c4 ∷ cs) =
    let v1 = value_of c1 in
    let v2 = value_of c2 in
    let v3 = value_of c3 in
    let first = v1 * 4 + v2 / 16 in
    let second = v2 % 16 * 16 + v3 / 4 in
    let third = v3 % 4 * 64 + value_of c4 in
    let rest = first ∷ second ∷ third ∷ decode cs in
    if c3 == b'=' then first ∷ [] else if c4 == b'=' then first ∷ second ∷ [] else rest
decode _ = []

all_below : (ℕ → Bool) → ℕ → Bool
all_below p zero = true
all_below p (suc n) = p n && all_below p n

all_below-at : (p : ℕ → Bool) (n v : ℕ) → all_below p n ≡ true → v < n → p v ≡ true
unfolding all_below
all_below-at p zero v h l = absurd (omega arith)
all_below-at p (suc n) v h l = elim (dec_lt v n) [
  | yes below ↦ all_below-at p n v (ground arith) below
  | no last ↦ let same : v ≡ n = omega arith in rw same (ground arith)
]

is_its_digit : ℕ → Bool
unfolding value_of digit_at
is_its_digit v = value_of (digit_at v) == v && not (digit_at v == b'=')

digits_are : all_below is_its_digit 64 ≡ true
unfolding all_below is_its_digit value_of digit_at
digits_are = refl

value_of-digit_at : (v : ℕ) → v < 64 → (value_of (digit_at v) ≡ v) × (digit_at v == b'=' ≡ false)
unfolding is_its_digit
value_of-digit_at v h =
    let it = all_below-at is_its_digit 64 v digits_are h in (ground arith, ground arith)

first_byte : (b q : ℕ) → q < 16 → b / 4 * 4 + (b % 4 * 16 + q) / 16 ≡ b
first_byte b q h = omega arith

second_byte :
    (a b q : ℕ) → b < 256 → q < 4 → (a % 4 * 16 + b / 16) % 16 * 16 + (b % 16 * 4 + q) / 4 ≡ b
second_byte a b q h l = omega arith

third_byte : (a b : ℕ) → b < 256 → (a % 16 * 4 + b / 64) % 4 * 64 + b % 64 ≡ b
third_byte a b h = omega arith

-- Decoding gives back the bytes that were encoded.
pub decode-encode : (bs : List ℕ) → All (λ b. b < 256) bs → decode (encode bs) ≡ bs
unfolding decode encode
decode-encode [] h = refl
decode-encode (b1 ∷ []) (h1, _) =
    let (d1, _) = value_of-digit_at (b1 / 4) (omega arith) in
    let (d2, _) = value_of-digit_at (b1 % 4 * 16) (omega arith) in
    let same : b1 / 4 * 4 + b1 % 4 * 16 / 16 ≡ b1 = omega arith in rw (d1, d2, same) refl
decode-encode (b1 ∷ b2 ∷ []) (h1, (h2, _)) =
    let (d1, _) = value_of-digit_at (b1 / 4) (omega arith) in
    let (d2, _) = value_of-digit_at (b1 % 4 * 16 + b2 / 16) (omega arith) in
    let (d3, n3) = value_of-digit_at (b2 % 16 * 4) (omega arith) in
    let f1 = first_byte b1 (b2 / 16) (omega arith) in
    let f2 : (b1 % 4 * 16 + b2 / 16) % 16 * 16 + b2 % 16 * 4 / 4 ≡ b2 = omega arith in
    rw (d1, d2, n3, d3, f1, f2) refl
decode-encode (b1 ∷ b2 ∷ b3 ∷ bs) (h1, (h2, (h3, h))) =
    let (d1, _) = value_of-digit_at (b1 / 4) (omega arith) in
    let (d2, _) = value_of-digit_at (b1 % 4 * 16 + b2 / 16) (omega arith) in
    let (d3, n3) = value_of-digit_at (b2 % 16 * 4 + b3 / 64) (omega arith) in
    let (d4, n4) = value_of-digit_at (b3 % 64) (omega arith) in
    let f1 = first_byte b1 (b2 / 16) (omega arith) in
    let f2 = second_byte b1 b2 (b3 / 64) h2 (omega arith) in
    rw (d1, d2, n3, d3, n4, d4, f1, f2, third_byte b2 b3 h3, decode-encode bs h) refl
