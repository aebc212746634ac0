-- ===== src/Kb/DocTree/Tiling.antt =====
-- crates/sap-automate-kb/src/doc_tree.rs: the ranges of the sections in the body.
use sap_automate.Base.{
  ℕ, ◌≤◌, ◌<◌, ◌≡◌, refl, false, List, [], ◌∷◌, arith, ◌==◌, nat_key, string_key, pair_key, Text,
  text_key, byte_len,
}
use sap_automate.Kb.Headings.{Heading, detect_headings}
use sap_automate.Kb.Headings.Offsets.{IsLaidOut, detect_headings-IsLaidOut}
use sap_automate.Kb.Sections.{PreparedSection, windows, prepare}

-- The sections fill the bytes from `from` to `n` one behind the other, each with a heading and a
-- depth.
abbrev pub Tiles : ℕ → ℕ → List PreparedSection → Type 0
Tiles n from [] = from ≡ n
Tiles n from (s ∷ ss) =
    (s.start ≡ from)
    × (0 < s.depth)
    × (s.start < s.body_start)
    × (s.body_start ≤ s.end)
    × Tiles n s.end ss

-- Where the first heading stands.
abbrev pub first_marker : ℕ → List Heading → ℕ
first_marker n [] = n
first_marker n (h ∷ hs) = h.marker_start

prepare-Tiles_from :
    (n from : ℕ) (hs : List Heading)
    → IsLaidOut n from hs
    → Tiles n (first_marker n hs) (prepare n hs)
unfolding prepare windows
prepare-Tiles_from n from [] h = refl
prepare-Tiles_from n from (h ∷ []) (d, le, lt, rest) =
    let deep : (h.depth == 0) ≡ false = ground arith in rw deep (refl, d, lt, rest, refl)
prepare-Tiles_from n from (h ∷ k ∷ hs) (d, le, lt, rest) =
    let deep : (h.depth == 0) ≡ false = ground arith in
    rw deep (refl, d, lt, rest.1, prepare-Tiles_from n h.body_start (k ∷ hs) rest)

-- The sections of a body fill it from its first heading to its end: each starts where the one
-- before it ends, and holds its heading in front of its own text. Without a heading there is none.
pub prepare-Tiles :
    (body : Text)
    → Tiles
        (byte_len body)
        (first_marker (byte_len body) (detect_headings body))
        (prepare (byte_len body) (detect_headings body))
prepare-Tiles body =
    prepare-Tiles_from (byte_len body) 0 (detect_headings body) (detect_headings-IsLaidOut body)
