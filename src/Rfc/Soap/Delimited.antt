-- ===== src/Rfc/Soap/Delimited.antt =====
-- crates/sap-automate-rfc/src/soap.rs: rows that the system joins with bars are taken apart again.
use sap_automate.Base.{
  ℕ, zero, suc, String, ◌≡◌, refl, sym, ap, ◌∙◌, ◌≢◌, inl, inr, Bool, false, some, List, [], ◌∷◌,
  arith, ◌==◌, Bool-cases, length, get_elem?, All, str_eq, str_eq_iff, nat_key, string_key,
  pair_key, str_eq_refl, str_eq-apart,
}
use Prim.Native.Char.{code, char}
use sap_automate.Json.{Value, Fields, get_field}
use sap_automate.Rfc.MockClient.{insert_field}
use sap_automate.Rfc.Soap.Response.{trim_right}
use sap_automate.Rfc.Soap.Rows.{cut_at_bar, splitn, fill, row_of}

-- A text with a bar and another text behind it.
abbrev with_bar : String → String → String
with_bar String.[] t = String.◌∷◌ (char b'|' tt) t
with_bar (String.◌∷◌ c s) t = String.◌∷◌ c (with_bar s t)

abbrev pub joined : String → List String → String
joined v [] = v
joined v (w ∷ ws) = with_bar v (joined w ws)

abbrev pub HasNoBar : String → Type 0
HasNoBar String.[] = Unit
HasNoBar (String.◌∷◌ c s) = (code c ≢ b'|') × HasNoBar s

-- Only the last value may have a bar.
abbrev pub AreSeparable : String → List String → Type 0
AreSeparable v [] = Unit
AreSeparable v (w ∷ ws) = HasNoBar v × AreSeparable w ws

cut_at_bar-with_bar : (s t : String) → HasNoBar s → cut_at_bar (with_bar s t) ≡ (s, some t)
unfolding cut_at_bar
cut_at_bar-with_bar String.[] t h = refl
cut_at_bar-with_bar (String.◌∷◌ c s) t (clean, rest) =
    let other : code c == b'|' ≡ false = ground arith in
    rw (other, cut_at_bar-with_bar s t rest) refl

splitn-joined :
    (v : String) (vs : List String)
    → AreSeparable v vs
    → splitn (length (v ∷ vs)) (joined v vs) ≡ v ∷ vs
unfolding splitn
splitn-joined v [] h = refl
splitn-joined v (w ∷ ws) (clean, rest) =
    rw (cut_at_bar-with_bar v (joined w ws) clean) (ap (◌∷◌ v) (splitn-joined w ws rest))

abbrev pub AreDistinct : List String → Type 0
AreDistinct [] = Unit
AreDistinct (n ∷ ns) = All (λ m. m ≢ n) ns × AreDistinct ns

module _ (before : String → String → Bool) where
  pub get-insert_same :
      (k : String) (v : Value) (m : Fields) → get_field k (insert_field before k v m) ≡ some v
  unfolding get_field insert_field
  get-insert_same k v Fields.end = rw (str_eq_refl k) refl
  get-insert_same k v (Fields.field j w fs) = elim (Bool-cases (str_eq j k)) [
    | inl same ↦ rw (same, str_eq_refl k) refl
    | inr other ↦ elim (Bool-cases (before k j)) [
      | inl e ↦ rw (other, e, str_eq_refl k) refl
      | inr e ↦ rw (other, e, other) (get-insert_same k v fs)
    ]
  ]

  pub get-insert_other :
      (i k : String) (v : Value) (m : Fields)
      → k ≢ i
      → get_field i (insert_field before k v m) ≡ get_field i m
  unfolding get_field insert_field
  get-insert_other i k v Fields.end h = rw (str_eq-apart k i h) refl
  get-insert_other i k v (Fields.field j w fs) h = elim (Bool-cases (str_eq j k)) [
    | inl same ↦
        let gone = str_eq-apart k i h in
        let too : str_eq j i ≡ false =
          str_eq-apart j i (λ e. h (sym ((str_eq_iff j k).0 same) ∙ e)) in
        rw (same, gone, too) refl
    | inr other ↦ elim (Bool-cases (before k j)) [
      | inl e ↦ rw (other, e, str_eq-apart k i h) refl
      | inr e ↦ rw (other, e, get-insert_other i k v fs h) refl
    ]
  ]

  fill-get_other :
      (i : String) (ns ps : List String) (m : Fields)
      → All (λ n. n ≢ i) ns
      → get_field i (fill before ns ps m) ≡ get_field i m
  unfolding fill
  fill-get_other i [] ps m h = refl
  fill-get_other i (n ∷ ns) [] m h =
      fill-get_other i ns [] (insert_field before n (Value.string "") m) h.1
      ∙ get-insert_other i n (Value.string "") m h.0
  fill-get_other i (n ∷ ns) (p ∷ ps) m h =
      fill-get_other i ns ps (insert_field before n (Value.string (trim_right p)) m) h.1
      ∙ get-insert_other i n (Value.string (trim_right p)) m h.0

  fill-get :
      (i : ℕ) (n w : String) (ns ps : List String) (m : Fields)
      → AreDistinct ns
      → get_elem? ns i ≡ some n
      → get_elem? ps i ≡ some w
      → get_field n (fill before ns ps m) ≡ some (Value.string (trim_right w))
  unfolding fill
  fill-get i n w [] ps m d e f = ground arith
  fill-get i n w (k ∷ ns) [] m d e f = ground arith
  fill-get zero n w (k ∷ ns) (p ∷ ps) m (apart, d) e f =
      let same : k ≡ n = cc in
      let value : p ≡ w = cc in
      rw (sym same, sym value)
        (fill-get_other k ns ps (insert_field before k (Value.string (trim_right p)) m) apart
          ∙ get-insert_same k (Value.string (trim_right p)) m)
  fill-get (suc i) n w (k ∷ ns) (p ∷ ps) m (apart, d) e f =
      fill-get i n w ns ps (insert_field before k (Value.string (trim_right p)) m) d e f

  -- A row of values joined by bars, of which only the last may have one itself, gives every field of
  -- the announced names, if these are distinct and as many, its own value without the blanks at the end.
  pub row_of-joined :
      (names : List String) (v : String) (vs : List String) (i : ℕ) (n w : String)
      → AreDistinct names
      → length names ≡ length (v ∷ vs)
      → AreSeparable v vs
      → get_elem? names i ≡ some n
      → get_elem? (v ∷ vs) i ≡ some w
      → get_field n (row_of before names (joined v vs)).values ≡ some (Value.string (trim_right w))
  unfolding row_of
  row_of-joined names v vs i n w d same sep e f =
      rw (same, splitn-joined v vs sep) (fill-get i n w names (v ∷ vs) Fields.end d e f)
