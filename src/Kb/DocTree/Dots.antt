-- ===== src/Kb/DocTree/Dots.antt =====
-- Texts that are put together of numbers and dots: the lemmas for the paths of the nodes.
use sap_automate.Base.{
  ℕ, ◌≡◌, refl, ◌≢◌, true, false, [], ◌∷◌, ◌++◌, arith, nat_key, string_key, pair_key, Text,
  text_eq, text_key, starts_with,
}

abbrev pub HasNoDot : Text → Type 0
HasNoDot [] = Unit
HasNoDot (c ∷ s) = (c ≢ 46) × HasNoDot s

-- What follows a number in a path.
abbrev pub IsTail : Text → Type 0
IsTail [] = Unit
IsTail (c ∷ s) = c ≡ 46

pub text_eq-append : (p s t : Text) → text_eq (p ++ s) (p ++ t) ≡ text_eq s t
unfolding text_eq
text_eq-append [] s t = refl
text_eq-append (c ∷ p) s t = ground (arith, text_eq-append p s t)

pub starts_with-append : (p s t : Text) → starts_with (p ++ s) (p ++ t) ≡ starts_with s t
unfolding starts_with
starts_with-append [] s t = refl
starts_with-append (c ∷ p) s t = ground (arith, starts_with-append p s t)

pub starts_with-append_left :
    (s p t : Text) → starts_with s (p ++ t) ≡ true → starts_with s p ≡ true
unfolding starts_with
starts_with-append_left s [] t h = refl
starts_with-append_left [] (c ∷ p) t h = ground arith
starts_with-append_left (d ∷ s) (c ∷ p) t h = ground (arith, starts_with-append_left s p t)

pub text_eq-starts_with : (s p t : Text) → text_eq (p ++ t) s ≡ true → starts_with s p ≡ true
unfolding text_eq starts_with
text_eq-starts_with s [] t h = refl
text_eq-starts_with [] (c ∷ p) t h = ground arith
text_eq-starts_with (d ∷ s) (c ∷ p) t h = ground (arith, text_eq-starts_with s p t)

pub starts_with-append_false :
    (s p t : Text) → starts_with s p ≡ false → starts_with s (p ++ t) ≡ false
starts_with-append_false s p t h = ground (arith, starts_with-append_left s p t)

pub text_eq-append_false : (s p t : Text) → starts_with s p ≡ false → text_eq (p ++ t) s ≡ false
text_eq-append_false s p t h = ground (arith, text_eq-starts_with s p t)

pub text_eq_longer : (s t : Text) (c : ℕ) → text_eq s (s ++ c ∷ t) ≡ false
unfolding text_eq
text_eq_longer [] t c = refl
text_eq_longer (d ∷ s) t c = ground (arith, text_eq_longer s t c)

-- A number that is read up to the dot.
pub same_number :
    (a b t : Text)
    → HasNoDot a
    → HasNoDot b
    → IsTail t
    → starts_with (a ++ t) (b ++ 46 ∷ []) ≡ true
    → a ≡ b
unfolding starts_with
same_number [] [] t na nb tail h = refl
same_number [] (d ∷ b) [] na nb tail h = ground arith
same_number [] (d ∷ b) (c ∷ t) na nb tail h = absurd (nb.0 (ground arith))
same_number (c ∷ a) [] t na nb tail h = absurd (na.0 (ground arith))
same_number (c ∷ a) (d ∷ b) t na nb tail h =
    let head : c ≡ d = ground arith in
    let rest = same_number a b t na.1 nb.1 tail (ground arith) in cc (head, rest)

pub whole_number : (a b t : Text) → HasNoDot b → IsTail t → text_eq b (a ++ t) ≡ true → b ≡ a
unfolding text_eq
whole_number [] [] t nb tail h = refl
whole_number [] (d ∷ b) [] nb tail h = ground arith
whole_number [] (d ∷ b) (c ∷ t) nb tail h = absurd (nb.0 (ground arith))
whole_number (c ∷ a) [] t nb tail h = ground arith
whole_number (c ∷ a) (d ∷ b) t nb tail h =
    let head : d ≡ c = ground arith in
    let rest = whole_number a b t nb.1 tail (ground arith) in cc (head, rest)
