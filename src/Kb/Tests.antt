-- ===== src/Kb/Tests.antt =====
-- Tests of the crate's model on small inputs, and the theorems at inputs that meet their premises.
use sap_automate.Base.{
  ◌+◌, ◌≡◌, refl, Option, none, some, List, [], ◌∷◌, map, if◌then◌else◌, nat_key, string_key,
  pair_key, Text, codes, text_eq, text_key, is_whitespace, trim_start_matches, trim, byte_len, ℕ,
  arith,
}
use sap_automate.Kb.Headings.{detect_headings, parse_atx_line, parse_numbered}
use mathlib.Core.Option
use sap_automate.Kb.Sections.{
  DocumentTree, Document, nil, cons, NodeFields, DocTreeNodes, fields_of, prepare, visit,
}
use sap_automate.Kb.DocTree.Dots.{HasNoDot}
use sap_automate.Kb.DocTree.Paths.{node_at, find_path-node_at}
use sap_automate.Kb.Sections.{NodeFields, DocTreeNode, node, find_path}
use sap_automate.Kb.DocTree.{assign_paths, Stack, section_forest, build_document_tree}
use sap_automate.Kb.DocTree.Nesting.{IsNested}
use sap_automate.Kb.DocTree.Safety.{section_forest-IsNested}
use sap_automate.Kb.DocTree.Tiling.{Tiles, first_marker, prepare-Tiles}

abbrev text : Text
text = codes "# A\nfirst\n## B\ndeep\n# C\nlast\n"

atx_line :
    parse_atx_line (codes "  ## Two words ##")
    ≡ some (record { depth = 2; title = codes "Two words" })
unfolding parse_atx_line trim_start_matches is_whitespace trim
atx_line = refl

numbered :
    parse_numbered (codes "1.12. Posting") ≡ some (record { depth = 2; title = codes "Posting" })
unfolding parse_numbered trim
numbered = refl

section_forest-IsNested_example :
    (ns : DocTreeNodes) × (s : Stack) × (section_forest text ≡ some (ns, s))
    × (visit ns ≡ map (fields_of text) (prepare (byte_len text) (detect_headings text)))
    × IsNested 0 ns
section_forest-IsNested_example = section_forest-IsNested text

prepare-Tiles_example :
    Tiles
      (byte_len text)
      (first_marker (byte_len text) (detect_headings text))
      (prepare (byte_len text) (detect_headings text))
prepare-Tiles_example = prepare-Tiles text

abbrev doc : Document
doc = record { id = "d"; title = codes "D"; body = text }

abbrev tree : Option DocumentTree
tree = build_document_tree (λ n. (48 + n) ∷ []) doc

abbrev path_of_title : Text → Option (List NodeFields) → Option Text
path_of_title title none = none
path_of_title title (some []) = none
path_of_title title (some (f ∷ fs)) =
    let more = path_of_title title (some fs) in if text_eq f.title title then some f.path else more

abbrev walked : Option DocumentTree → Option (List NodeFields)
walked o = Option.map (λ t. visit (cons t.root nil)) o

-- The third heading is a second root: the vector of the roots grows after the first round.
paths :
    (path_of_title (codes "B") (walked tree) ≡ some (codes "1.1"))
    × (path_of_title (codes "C") (walked tree) ≡ some (codes "2"))
unfolding build_document_tree trim_start_matches is_whitespace trim Option.bind visit text_eq
paths = (refl, refl)

-- A digit for each number.
abbrev digit : ℕ → Text
digit n = (48 + n) ∷ []

abbrev fields : Text → NodeFields
fields title = record {
  path = [];
  depth = 1;
  title = title;
  summary = [];
  start_index = 0;
  end_index = 0;
  approx_tokens = 0;
}

abbrev forest : DocTreeNodes
forest =
    cons (node (fields (codes "A")) (cons (node (fields (codes "B")) nil) nil))
      (cons (node (fields (codes "C")) nil) nil)

digit_no_dot : (n : ℕ) → HasNoDot (digit n)
digit_no_dot n = (λ e. absurd (omega arith), tt)

digit_injective : (m n : ℕ) → digit m ≡ digit n → m ≡ n
digit_injective m n e = ground arith

find_path-node_at_example :
    (m : DocTreeNode) × (node_at (0 ∷ 0 ∷ []) (assign_paths digit [] 0 forest) ≡ some m)
    × (find_path (codes "1.1") (assign_paths digit [] 0 forest) ≡ some m)
find_path-node_at_example =
    find_path-node_at digit digit_no_dot digit_injective [] 0 forest (0 ∷ 0 ∷ [])
      (node (fields (codes "B")) nil) refl
