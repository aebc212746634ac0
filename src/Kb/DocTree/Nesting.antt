-- ===== src/Kb/DocTree/Nesting.antt =====
-- crates/sap-automate-kb/src/doc_tree.rs: how the nodes of a forest lie in each other, and the
-- insertion at its right edge.
use sap_automate.Base.{
  ℕ, ◌≤◌, ◌<◌, ◌≡◌, refl, inl, inr, [], ◌∷◌, ◌++◌, arith, ltb, if◌then◌else◌, ltb→lt, Bool-cases,
  nat_key, string_key, pair_key, text_key,
}
use mathlib.Core.List.{append-nil, append_assoc}
use sap_automate.Kb.Sections.{NodeFields, DocTreeNode, DocTreeNodes, node, nil, cons, visit}

abbrev pub StartsWithin : ℕ → DocTreeNodes → Type 0
StartsWithin b nil = Unit
StartsWithin b (cons (node f cs) ns) = f.depth ≤ b

-- The nodes are deeper than `d`, each node's children are deeper than it, and no node is deeper than
-- the sibling in front of it.
abbrev pub IsNested : ℕ → DocTreeNodes → Type 0
IsNested d nil = Unit
IsNested d (cons (node f cs) ns) =
    (d < f.depth) × IsNested f.depth cs × StartsWithin f.depth ns × IsNested d ns

-- A node behind all others, under the last of them as long as that is less deep.
abbrev pub insert_last : NodeFields → DocTreeNodes → DocTreeNodes
insert_last f nil = cons (node f nil) nil
insert_last f (cons (node g cs) nil) =
    let below = insert_last f cs in
    if ltb g.depth f.depth
    then cons (node g below) nil
    else cons (node g cs) (cons (node f nil) nil)
insert_last f (cons n (cons m ms)) = cons n (insert_last f (cons m ms))

StartsWithin-insert_last :
    (b : ℕ) (f : NodeFields) (n : DocTreeNode) (ns : DocTreeNodes)
    → StartsWithin b (cons n ns)
    → StartsWithin b (insert_last f (cons n ns))
StartsWithin-insert_last b f (node g cs) nil h = elim (Bool-cases (ltb g.depth f.depth)) [
  | inl e ↦ rw e h
  | inr e ↦ rw e h
]
StartsWithin-insert_last b f (node g cs) (cons m ms) h = h

pub insert_last-IsNested :
    (d : ℕ) (f : NodeFields) (ns : DocTreeNodes)
    → d < f.depth
    → IsNested d ns
    → IsNested d (insert_last f ns)
insert_last-IsNested d f nil lt h = (lt, tt, tt, tt)
insert_last-IsNested d f (cons (node g cs) nil) lt (deep, inner, first, rest) =
    elim (Bool-cases (ltb g.depth f.depth)) [
      | inl e ↦ rw e (deep, insert_last-IsNested g.depth f cs (ltb→lt _ _ e) inner, tt, tt)
      | inr e ↦ rw e (deep, inner, ground arith, (lt, tt, tt, tt))
    ]
insert_last-IsNested d f (cons (node g cs) (cons m ms)) lt (deep, inner, first, rest) = (
  deep,
  inner,
  StartsWithin-insert_last g.depth f m ms first,
  insert_last-IsNested d f (cons m ms) lt rest,
)

pub visit-insert_last :
    (f : NodeFields) (ns : DocTreeNodes) → visit (insert_last f ns) ≡ visit ns ++ f ∷ []
unfolding visit
visit-insert_last f nil = refl
visit-insert_last f (cons (node g cs) nil) = elim (Bool-cases (ltb g.depth f.depth)) [
  | inl e ↦ rw e (simp (append-nil, append_assoc, visit-insert_last f cs))
  | inr e ↦ rw e (simp (append-nil, append_assoc))
]
visit-insert_last f (cons (node g cs) (cons m ms)) =
    simp (append_assoc, visit-insert_last f (cons m ms))
