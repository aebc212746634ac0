-- ===== src/Kb/DocTree/Safety.antt =====
-- crates/sap-automate-kb/src/doc_tree.rs: the stack of raw pointers of `build_document_tree`, and what is built with it.
use sap_automate.Base.{
  ℕ, suc, ◌≤◌, ◌<◌, ◌≡◌, refl, sym, ap, ◌∙◌, inl, inr, Option, none, some, List, [], ◌∷◌, ◌++◌, map,
  arith, ltb, ◌==◌, ltb→lt, Bool-cases, All, All-append, All-weaken, nat_key, string_key, pair_key,
  Text, text_key, byte_len,
}
use mathlib.Core.List.{append-nil, append_assoc}
use sap_automate.Kb.Sections.{
  NodeFields, DocTreeNode, DocTreeNodes, node, nil, cons, visit, fields_of, prepare,
}
use sap_automate.Kb.DocTree.{
  Pointer, to, dangling, Stack, pop_deeper, push_node, in_children, behind, push_at, is_element,
  moved, on_pointers, move_elements, Forest, pushed, attach, assemble, section_forest,
}
use sap_automate.Kb.DocTree.Nesting.{IsNested, insert_last, insert_last-IsNested, visit-insert_last}
use mathlib.Core.Option
use sap_automate.Kb.Headings.{Heading, detect_headings}
use sap_automate.Kb.Sections.{windows}
use sap_automate.Kb.DocTree.Edge.{
  edge, under, later, HeadInner, IsInner, pop_deeper-on_pointers, pop_deeper-All, All-on_pointers,
  edge-All, edge-AllInner, HeadInner-pop_deeper, pop_deeper-under, edge-insert_last,
}

-- A forest and its stack, seen with one more root in front.
with_root : DocTreeNode → Option Forest → Option Forest
with_root n none = none
with_root n (some (ns, s)) = some (cons n ns, on_pointers later s)

moved-later :
    (i : ℕ) (at : List ℕ) (p : Pointer) → moved (suc i ∷ at) (later p) ≡ later (moved (i ∷ at) p)
unfolding moved later is_element
moved-later i at dangling = refl
moved-later i at (to []) = refl
moved-later i at (to (j ∷ b)) = ground arith

move_elements-later :
    (i : ℕ) (at : List ℕ) (s : Stack)
    → move_elements (suc i ∷ at) (on_pointers later s)
      ≡ on_pointers later (move_elements (i ∷ at) s)
unfolding move_elements
move_elements-later i at [] = refl
move_elements-later i at ((d, p) ∷ s) =
    let tail = move_elements-later i at s in cc (moved-later i at p, tail)

pushed-with_root :
    (d i : ℕ) (at : List ℕ) (n : DocTreeNode) (s : Stack) (o : Option (ℕ × DocTreeNodes))
    → pushed d (suc i ∷ at) (on_pointers later s) (behind n o) ≡ with_root n (pushed d (i ∷ at) s o)
unfolding pushed behind with_root later
pushed-with_root d i at n s none = refl
pushed-with_root d i at n s (some (j, ns)) =
    ap (λ t. some (cons n ns, (d, to (suc i ∷ at ++ j ∷ [])) ∷ t)) (move_elements-later i at s)

attach-with_root :
    (f : NodeFields) (n : DocTreeNode) (ns : DocTreeNodes) (s : Stack)
    → HeadInner s
    → attach f (cons n ns) (on_pointers later s) ≡ with_root n (attach f ns s)
unfolding attach later pushed with_root push_at behind HeadInner IsInner push_node move_elements
attach-with_root f n ns [] h = refl
attach-with_root f n ns ((d, dangling) ∷ s) h = refl
attach-with_root f n ns ((d, to []) ∷ s) h = absurd h
attach-with_root f n ns ((d, to (i ∷ at)) ∷ s) h =
    pushed-with_root f.depth i at n ((d, to (i ∷ at)) ∷ s) (push_at f (i ∷ at) ns)

-- The children of the only root, with their stack.
in_root : NodeFields → Option Forest → Option Forest
in_root g none = none
in_root g (some (cs, s)) =
    some (cons (node g cs) nil, on_pointers under s ++ (g.depth, to (0 ∷ [])) ∷ [])

moved-under : (at : List ℕ) (p : Pointer) → moved (0 ∷ at) (under p) ≡ under (moved at p)
unfolding moved under is_element
moved-under at dangling = refl
moved-under at (to b) = ground arith

move_elements-under :
    (at : List ℕ) (s : Stack) (d : ℕ)
    → move_elements (0 ∷ at) (on_pointers under s ++ (d, to (0 ∷ [])) ∷ [])
      ≡ on_pointers under (move_elements at s) ++ (d, to (0 ∷ [])) ∷ []
unfolding move_elements moved is_element
move_elements-under at ((e, p) ∷ s) d =
    let tail = move_elements-under at s d in cc (moved-under at p, tail)
move_elements-under [] [] d = refl
move_elements-under (i ∷ at) [] d = refl

pushed-in_root :
    (d : ℕ) (at : List ℕ) (g : NodeFields) (s : Stack) (o : Option (ℕ × DocTreeNodes))
    → pushed d (0 ∷ at) (on_pointers under s ++ (g.depth, to (0 ∷ [])) ∷ []) (in_children g o nil)
      ≡ in_root g (pushed d at s o)
unfolding pushed in_children in_root under
pushed-in_root d at g s none = refl
pushed-in_root d at g s (some (j, ns)) =
    ap (λ t. some (cons (node g ns) nil, (d, to (0 ∷ at ++ j ∷ [])) ∷ t))
      (move_elements-under at s g.depth)

attach-in_root :
    (f g : NodeFields) (cs : DocTreeNodes) (s : Stack)
    → attach f (cons (node g cs) nil) (on_pointers under s ++ (g.depth, to (0 ∷ [])) ∷ [])
      ≡ in_root g (attach f cs s)
unfolding attach under push_at in_root
attach-in_root f g cs [] = pushed-in_root f.depth [] g [] (push_at f [] cs)
attach-in_root f g cs ((d, dangling) ∷ s) = refl
attach-in_root f g cs ((d, to at) ∷ s) =
    pushed-in_root f.depth at g ((d, to at) ∷ s) (push_at f at cs)

attach-edge_new :
    (f g : NodeFields) (cs : DocTreeNodes)
    → f.depth ≤ g.depth
    → IsNested g.depth cs
    → attach f (cons (node g cs) nil) (pop_deeper f.depth (edge (cons (node g cs) nil)))
      ≡ some (
        cons (node g cs) (cons (node f nil) nil),
        edge (cons (node g cs) (cons (node f nil) nil)),
      )
unfolding attach pushed push_at push_node move_elements later
attach-edge_new f g cs le h =
    let empty : pop_deeper f.depth (edge (cons (node g cs) nil)) ≡ [] =
      pop_deeper-All f.depth (edge (cons (node g cs) nil)) (
        All-append (λ e. f.depth ≤ e.0) (on_pointers under (edge cs)) ((g.depth, to (0 ∷ [])) ∷ [])
          (All-on_pointers f.depth under (edge cs) (
            All-weaken (λ e. g.depth ≤ e.0) (λ e. f.depth ≤ e.0) (edge cs) (λ e deep. omega arith)
              (edge-All g.depth cs h)))
          (le, tt)) in
    ap (attach f (cons (node g cs) nil)) empty

-- One round of the loop, with the whole edge on the stack.
attach-edge :
    (f : NodeFields) (ns : DocTreeNodes) (d : ℕ)
    → IsNested d ns
    → attach f ns (pop_deeper f.depth (edge ns)) ≡ some (insert_last f ns, edge (insert_last f ns))
unfolding attach pop_deeper pushed push_at push_node move_elements in_root with_root
attach-edge f nil d h = refl
attach-edge f (cons (node g cs) nil) d (deep, inner, first, rest) =
    elim (Bool-cases (ltb g.depth f.depth)) [
      | inl e ↦
          let below : attach f (cons (node g cs) nil)
                (pop_deeper f.depth (edge (cons (node g cs) nil)))
              ≡ some (
                cons (node g (insert_last f cs)) nil,
                edge (cons (node g (insert_last f cs)) nil),
              ) =
            ap (attach f (cons (node g cs) nil))
              (pop_deeper-under f.depth g.depth (to (0 ∷ [])) (edge cs) (ltb→lt _ _ e))
            ∙ attach-in_root f g cs (pop_deeper f.depth (edge cs))
            ∙ ap (in_root g) (attach-edge f cs g.depth inner) in
          rw e below
      | inr e ↦ rw e (attach-edge_new f g cs (ground arith) inner)
    ]
attach-edge f (cons (node g cs) (cons m ms)) d (deep, inner, first, rest) =
    ap (attach f (cons (node g cs) (cons m ms)))
      (pop_deeper-on_pointers f.depth later (edge (cons m ms)))
    ∙ attach-with_root f (node g cs) (cons m ms) (pop_deeper f.depth (edge (cons m ms)))
        (HeadInner-pop_deeper f.depth (edge (cons m ms)) (edge-AllInner (cons m ms)))
    ∙ ap (with_root (node g cs)) (attach-edge f (cons m ms) d rest)
    ∙ ap (λ s. some (cons (node g cs) (insert_last f (cons m ms)), s))
        (sym (edge-insert_last f (node g cs) (cons m ms)))

module _ (body : Text) where
  windows_deep : (hs : List Heading) → All (λ f. 0 < f.depth) (map (fields_of body) (windows hs))
  unfolding windows fields_of
  windows_deep [] = tt
  windows_deep (h ∷ []) = tt
  windows_deep (h ∷ k ∷ hs) = elim (Bool-cases (h.depth == 0)) [
    | inl e ↦ rw e (windows_deep (k ∷ hs))
    | inr e ↦ rw e (ground arith, windows_deep (k ∷ hs))
  ]

prepare_deep :
    (body : Text)
    → All (λ f. 0 < f.depth) (map (fields_of body) (prepare (byte_len body) (detect_headings body)))
unfolding prepare
prepare_deep body = windows_deep body (
    detect_headings body
    ++ record { depth = 0; title = []; marker_start = byte_len body; body_start = byte_len body }
      ∷ [])

assemble-edge :
    (fs : List NodeFields) (ns : DocTreeNodes)
    → All (λ f. 0 < f.depth) fs
    → IsNested 0 ns
    → (ms : DocTreeNodes) × (assemble fs (ns, edge ns) ≡ some (ms, edge ms))
      × (visit ms ≡ visit ns ++ fs)
      × IsNested 0 ms
unfolding assemble Option.bind
assemble-edge [] ns deep h = (ns, refl, sym (append-nil (visit ns)), h)
assemble-edge (f ∷ fs) ns deep h =
    let (ms, run, walk, nested) =
      assemble-edge fs (insert_last f ns) deep.1 (insert_last-IsNested 0 f ns deep.0 h) in
    (
      ms,
      ap (λ o. Option.bind o (assemble fs)) (attach-edge f ns 0 h) ∙ run,
      walk ∙ ap (λ v. v ++ fs) (visit-insert_last f ns) ∙ append_assoc (visit ns) (f ∷ []) fs,
      nested,
    )

-- The assembly of the sections of any body follows no pointer that dangles or leads nowhere, though
-- every push may move the elements of its vector. The walk over its forest meets the sections in
-- the order of the body, and each lies under the last section in front of it that is less deep:
-- children are deeper than their parent, and no node is deeper than the sibling in front of it.
pub section_forest-IsNested :
    (body : Text)
    → (ns : DocTreeNodes) × (s : Stack) × (section_forest body ≡ some (ns, s))
      × (visit ns ≡ map (fields_of body) (prepare (byte_len body) (detect_headings body)))
      × IsNested 0 ns
unfolding section_forest prepare visit
section_forest-IsNested body =
    let (ms, run, walk, nested) =
      assemble-edge (map (fields_of body) (prepare (byte_len body) (detect_headings body))) nil
        (prepare_deep body) tt in
    (ms, edge ms, run, walk, nested)
