-- ===== src/Kb/DocTree.antt =====
-- crates/sap-automate-kb/src/doc_tree.rs: sections, and the tree that is built of them. The raw
-- pointers of `build_document_tree` are the way from the roots to a node, the index of a child at
-- each level. A push may move the elements of its vector, so that pointers to them dangle; to follow
-- a pointer that dangles or leads nowhere is `none`.
pub mod Edge
pub mod Nesting
pub mod Dots
pub mod Paths
pub mod Tiling
pub mod Safety
use mathlib.Core.Option
use sap_automate.Base.{
  ℕ, zero, suc, ◌+◌, ◌-◌, ◌*◌, ◌/◌, ◌%◌, ◌^◌, ◌≤◌, ◌<◌, min, max, String, ◌≡◌, refl, sym, ap, ◌∙◌,
  subst, ◌≢◌, ◌↔◌, ◌⊎◌, inl, inr, Bool, true, false, not, ◌&&◌, ◌||◌, Option, none, some, List, [],
  ◌∷◌, ◌++◌, map, reverse, arith, dec_lt, dec_le, ℕ_discrete, ltb, leb, ◌==◌, if◌then◌else◌, ltb→lt,
  lt→ltb, leb→le, le→leb, ==_iff, tests, Bool-cases, Option-cases, List-cases, length, get_elem?,
  take, drop, any, keep, All, Has, length-append, length-take, length-reverse, All-append,
  Has-append_left, Has-append_right, Has-append, any-append, any-eq-false, take_all,
  take-append_left, take-take_le, take-take, All-take, All-weaken, All-reverse, All-keep, Eq,
  str_eq, str_eq_iff, pair_eq, pair_eq_iff, nat_key, string_key, pair_key, Text, codes, text_eq,
  text_eq_iff, text_key, ascii_lower, to_ascii_lowercase, eq_ignore_ascii_case, is_whitespace,
  trim_start_matches, trim_matches, trim, starts_with, find, split_once, split, lines,
  starts_with-length, starts_with_same, trim_start, trim_end_matches, utf8_len, byte_len,
  skip_bytes, take_bytes, get_range,
}
use sap_automate.Kb.Sections.{
  NodeFields, DocTreeNode, node, DocTreeNodes, nil, cons, DocumentTree, Document, PreparedSection,
  windows, prepare, fields_of, count_leaves, count, visit, find_path, root_fields,
}
use sap_automate.Kb.Headings.{Heading, detect_headings, extract_summary}

-- A pointer to a node: the indices on the way from the roots.
pub data Pointer : Type 0 where
  to : List ℕ → Pointer
  dangling : Pointer

abbrev pub Stack : Type 0
Stack = List (ℕ × Pointer)

-- `while let Some(&(d, _)) = stack.last()`; the last entry is the head.
unfoldable pub pop_deeper : ℕ → Stack → Stack
pop_deeper depth [] = []
pop_deeper depth ((d, p) ∷ stack) =
    let rest = pop_deeper depth stack in if leb depth d then rest else (d, p) ∷ stack

-- `vec.push(node)`, and the index at which the node then stands.
unfoldable pub push_node : NodeFields → DocTreeNodes → ℕ × DocTreeNodes
push_node fields nil = (0, cons (node fields nil) nil)
push_node fields (cons n ns) = let (i, ms) = push_node fields ns in (suc i, cons n ms)

-- `parent.children.push(node)`, for the parent that the pointer leads to.
unfoldable pub in_children :
    NodeFields → Option (ℕ × DocTreeNodes) → DocTreeNodes → Option (ℕ × DocTreeNodes)
in_children f none ns = none
in_children f (some (i, cs)) ns = some (i, cons (node f cs) ns)

unfoldable pub behind : DocTreeNode → Option (ℕ × DocTreeNodes) → Option (ℕ × DocTreeNodes)
behind n none = none
behind n (some (i, ns)) = some (i, cons n ns)

unfoldable pub push_at : NodeFields → List ℕ → DocTreeNodes → Option (ℕ × DocTreeNodes)
unfolding push_node in_children behind
push_at fields [] ns = some (push_node fields ns)
push_at fields (i ∷ at) nil = none
push_at fields (zero ∷ at) (cons (node f cs) ns) = in_children f (push_at fields at cs) ns
push_at fields (suc i ∷ at) (cons n ns) = behind n (push_at fields (i ∷ at) ns)

-- Whether a pointer is to an element of the vector of children at `owner`.
unfoldable pub is_element : List ℕ → List ℕ → Bool
is_element [] [] = false
is_element [] (i ∷ []) = true
is_element [] (i ∷ j ∷ at) = false
is_element (i ∷ owner) [] = false
is_element (i ∷ owner) (j ∷ at) = i == j && is_element owner at

unfoldable pub moved : List ℕ → Pointer → Pointer
unfolding is_element
moved owner dangling = dangling
moved owner (to at) = if is_element owner at then dangling else to at

abbrev pub on_pointers : (Pointer → Pointer) → Stack → Stack
on_pointers h [] = []
on_pointers h ((d, p) ∷ stack) = (d, h p) ∷ on_pointers h stack

-- The pointers of the stack after a push to the vector at `owner`.
unfoldable pub move_elements : List ℕ → Stack → Stack
unfolding moved
move_elements owner stack = on_pointers (moved owner) stack

-- The roots and the stack.
abbrev pub Forest : Type 0
Forest = DocTreeNodes × Stack

unfoldable pub pushed : ℕ → List ℕ → Stack → Option (ℕ × DocTreeNodes) → Option Forest
unfolding move_elements
pushed depth owner stack none = none
pushed depth owner stack (some (i, roots)) =
    some (roots, (depth, to (owner ++ i ∷ [])) ∷ move_elements owner stack)

-- The two branches behind the popping.
unfoldable pub attach : NodeFields → DocTreeNodes → Stack → Option Forest
unfolding pushed push_at
attach fields roots [] = pushed fields.depth [] [] (push_at fields [] roots)
attach fields roots ((d, dangling) ∷ stack) = none
attach fields roots ((d, to owner) ∷ stack) =
    pushed fields.depth owner ((d, to owner) ∷ stack) (push_at fields owner roots)

-- `for ps in &prepared`
unfoldable pub assemble : List NodeFields → Forest → Option Forest
unfolding attach pop_deeper
assemble [] forest = some forest
assemble (fields ∷ rest) (roots, stack) =
    Option.bind (attach fields roots (pop_deeper fields.depth stack)) (assemble rest)

-- The roots that the body's sections are assembled to.
unfoldable pub section_forest : Text → Option Forest
unfolding assemble prepare fields_of detect_headings
section_forest body =
    assemble (map (fields_of body) (prepare (byte_len body) (detect_headings body))) (nil, [])

-- `max_depth.max(ps.depth)` over the sections
deepest : List PreparedSection → ℕ
deepest [] = 0
deepest (s ∷ ss) = max s.depth (deepest ss)

module _ (decimal : ℕ → Text) where
  -- `assign_paths` on the children from the one of index `i`. `prefix` is the parent's path and a
  -- dot, and empty at the roots.
  unfoldable pub assign_paths : Text → ℕ → DocTreeNodes → DocTreeNodes
  assign_paths prefix i nil = nil
  assign_paths prefix i (cons (node f cs) ns) =
      let path = prefix ++ decimal (i + 1) in
      cons (node (record f { path = path }) (assign_paths (path ++ codes ".") 0 cs))
        (assign_paths prefix (i + 1) ns)

  with_roots : Document → ℕ → Option Forest → Option DocumentTree
  unfolding assign_paths root_fields count_leaves
  with_roots doc max_depth none = none
  with_roots doc max_depth (some (roots, stack)) =
      let root = node (root_fields doc) (assign_paths [] 0 roots) in
      some (record {
        document_id = doc.id;
        root = root;
        leaf_count = max (count_leaves (cons root nil)) 1;
        max_depth = max_depth;
      })

  of_headings : Document → List Heading → Option DocumentTree
  unfolding root_fields with_roots section_forest prepare deepest
  of_headings doc [] = some (record {
    document_id = doc.id;
    root = node (root_fields doc) nil;
    leaf_count = 1;
    max_depth = 0;
  })
  of_headings doc (h ∷ hs) =
      with_roots doc (deepest (prepare (byte_len doc.body) (h ∷ hs))) (section_forest doc.body)

  unfoldable pub build_document_tree : Document → Option DocumentTree
  unfolding of_headings detect_headings
  build_document_tree doc = of_headings doc (detect_headings doc.body)
