-- ===== src/Base/Texts.antt =====
-- Texts that the program takes apart: lists of code points. What `str` offers, as far as it is used.
use Prim.Native.Char.{code}
use Prim.Native.Nat.{ℕ, suc, ◌+◌, ◌-◌, ◌≤◌}
use Prim.Native.String.{String}
use mathlib.Core.Path.{◌≡◌, refl}
use mathlib.Core.Logic.{◌↔◌}
use mathlib.Core.Bool.{Bool, true, false, ◌&&◌, ◌||◌}
use mathlib.Core.Option
use mathlib.Core.Option.{Option, none, some}
use mathlib.Core.List.{List, [], ◌∷◌, map, reverse}
use native.Mathlib.Omega.{arith}
use sap_automate.Base.Tests.{◌==◌, ltb, leb, if◌then◌else◌}
use sap_automate.Base.Lists.{length}
use sap_automate.Base.Keys.{Eq}

abbrev pub Text : Type 0
Text = List ℕ

-- The code points of a literal.
abbrev pub codes : String → Text
codes String.[] = []
codes (String.◌∷◌ c s) = code c ∷ codes s

unfoldable pub text_eq : Text → Text → Bool
text_eq [] [] = true
text_eq [] (d ∷ t) = false
text_eq (c ∷ s) [] = false
text_eq (c ∷ s) (d ∷ t) = c == d && text_eq s t

pub text_eq_iff : (s t : Text) → (text_eq s t ≡ true) ↔ (s ≡ t)
unfolding text_eq
text_eq_iff [] [] = (λ _. refl, λ _. refl)
text_eq_iff [] (d ∷ t) = ground arith
text_eq_iff (c ∷ s) [] = ground arith
text_eq_iff (c ∷ s) (d ∷ t) = ground (arith, text_eq_iff s t)

instance abbrev pub text_key : Eq Text
text_key = record { beq = text_eq; beq_iff = text_eq_iff }

-- `c.to_ascii_lowercase()`
unfoldable pub ascii_lower : ℕ → ℕ
ascii_lower c = if leb b'A' c && leb c b'Z' then c + 32 else c

abbrev pub to_ascii_lowercase : Text → Text
to_ascii_lowercase s = map ascii_lower s

unfoldable pub eq_ignore_ascii_case : Text → Text → Bool
unfolding text_eq ascii_lower
eq_ignore_ascii_case s t = text_eq (to_ascii_lowercase s) (to_ascii_lowercase t)

-- `char::is_whitespace`: White_Space of Unicode.
unfoldable pub is_whitespace : ℕ → Bool
is_whitespace c =
    (leb 9 c && leb c 13)
    || c == 32
    || c == 133
    || c == 160
    || c == 5760
    || (leb 8192 c && leb c 8202)
    || c == 8232
    || c == 8233
    || c == 8239
    || c == 8287
    || c == 12288

-- `s.trim_start_matches(p)`
unfoldable pub trim_start_matches : (ℕ → Bool) → Text → Text
trim_start_matches p [] = []
trim_start_matches p (c ∷ s) = if p c then trim_start_matches p s else c ∷ s

-- `s.trim_matches(p)`
unfoldable pub trim_matches : (ℕ → Bool) → Text → Text
unfolding trim_start_matches
trim_matches p s = reverse (trim_start_matches p (reverse (trim_start_matches p s)))

unfoldable pub trim : Text → Text
unfolding trim_matches is_whitespace
trim s = trim_matches is_whitespace s

-- `s.trim_start()`
abbrev pub trim_start : Text → Text
trim_start s = trim_start_matches is_whitespace s

-- `s.trim_end_matches(p)`
abbrev pub trim_end_matches : (ℕ → Bool) → Text → Text
trim_end_matches p s = reverse (trim_start_matches p (reverse s))

unfoldable pub starts_with : Text → Text → Bool
starts_with s [] = true
starts_with [] (d ∷ t) = false
starts_with (c ∷ s) (d ∷ t) = c == d && starts_with s t

-- `s.find(t)`
unfoldable pub find : Text → Text → Option ℕ
unfolding starts_with
find t [] = if starts_with [] t then some 0 else none
find t (c ∷ s) =
    let rest = Option.map suc (find t s) in if starts_with (c ∷ s) t then some 0 else rest

-- `s.split_once(c)`
abbrev pub put_first : ℕ → Option (Text × Text) → Option (Text × Text)
put_first c none = none
put_first c (some (s, t)) = some (c ∷ s, t)

unfoldable pub split_once : ℕ → Text → Option (Text × Text)
split_once d [] = none
split_once d (c ∷ s) = if c == d then some ([], s) else put_first c (split_once d s)

-- `s.split(d)`: always one piece more than there are separators.
abbrev pub put_head : ℕ → List Text → List Text
put_head c [] = (c ∷ []) ∷ []
put_head c (t ∷ ts) = (c ∷ t) ∷ ts

unfoldable pub split : ℕ → Text → List Text
split d [] = [] ∷ []
split d (c ∷ s) = let rest = split d s in if c == d then [] ∷ rest else put_head c rest

-- `s.lines()`: pieces that end in LF or CR LF; the last need not, and is none if it is empty.
strip_cr : Text → Text
strip_cr [] = []
strip_cr (c ∷ []) = if c == 13 then [] else c ∷ []
strip_cr (c ∷ d ∷ s) = c ∷ strip_cr (d ∷ s)

drop_last_empty : List Text → List Text
drop_last_empty [] = []
drop_last_empty ([] ∷ []) = []
drop_last_empty ((c ∷ s) ∷ []) = (c ∷ s) ∷ []
drop_last_empty (s ∷ t ∷ ts) = strip_cr s ∷ drop_last_empty (t ∷ ts)

unfoldable pub lines : Text → List Text
unfolding split strip_cr drop_last_empty
lines s = drop_last_empty (split 10 s)

-- `h.contains(t)`
unfoldable pub contains : Text → Text → Bool
unfolding starts_with
contains [] t = starts_with [] t
contains (c ∷ s) t = let rest = contains s t in if starts_with (c ∷ s) t then true else rest

-- The number of bytes of a code point in UTF-8.
unfoldable pub utf8_len : ℕ → ℕ
utf8_len c = if ltb c 128 then 1 else if ltb c 2048 then 2 else if ltb c 65536 then 3 else 4

-- `s.len()`
abbrev pub byte_len : Text → ℕ
byte_len [] = 0
byte_len (c ∷ s) = utf8_len c + byte_len s

-- `s.get(n..)`: `none` past the end or inside a code point.
abbrev pub skip_bytes : ℕ → Text → Option Text
skip_bytes n [] = if n == 0 then some [] else none
skip_bytes n (c ∷ s) =
    let rest = skip_bytes (n - utf8_len c) s in
    if n == 0 then some (c ∷ s) else if leb (utf8_len c) n then rest else none

-- `s.get(..n)`
abbrev pub take_bytes : ℕ → Text → Option Text
take_bytes n [] = if n == 0 then some [] else none
take_bytes n (c ∷ s) =
    let rest = take_bytes (n - utf8_len c) s in
    if n == 0 then some [] else if leb (utf8_len c) n then Option.map (◌∷◌ c) rest else none

-- `s.get(from..to)`
unfoldable pub get_range : ℕ → ℕ → Text → Option Text
unfolding utf8_len
get_range from to s =
    if leb from to then Option.bind (skip_bytes from s) (take_bytes (to - from)) else none

pub starts_with-length : (s t : Text) → starts_with s t ≡ true → length t ≤ length s
unfolding starts_with
starts_with-length s [] h = omega arith
starts_with-length [] (d ∷ t) h = ground arith
starts_with-length (c ∷ s) (d ∷ t) h = ground (arith, starts_with-length s t)

-- Two prefixes of a text that are of one length are one.
pub starts_with_same :
    (s t u : Text) → starts_with s t ≡ true → starts_with s u ≡ true → length t ≡ length u → t ≡ u
unfolding starts_with
starts_with_same s [] [] h k e = refl
starts_with_same s [] (c ∷ u) h k e = absurd (omega arith)
starts_with_same s (c ∷ t) [] h k e = absurd (omega arith)
starts_with_same [] (c ∷ t) (d ∷ u) h k e = ground arith
starts_with_same (b ∷ s) (c ∷ t) (d ∷ u) h k e = ground (arith, starts_with_same s t u)
