-- ===== src/Kb/DocTree/Edge.antt =====
-- crates/sap-automate-kb/src/doc_tree.rs: the stack of raw pointers of `build_document_tree` as the
-- right edge of the forest.
use sap_automate.Base.{
  ℕ, suc, ◌≤◌, ◌<◌, ◌≡◌, refl, ap, ◌∙◌, inl, inr, [], ◌∷◌, ◌++◌, arith, ltb, leb, Bool-cases, All,
  All-append, All-weaken, nat_key, string_key, pair_key, text_key,
}
use sap_automate.Kb.Sections.{NodeFields, DocTreeNode, DocTreeNodes, node, nil, cons}
use sap_automate.Kb.DocTree.{Pointer, to, dangling, Stack, pop_deeper, on_pointers}
use sap_automate.Kb.DocTree.Nesting.{IsNested, insert_last}

-- A pointer seen from the parent of the roots, and from a forest with one more root in front.
unfoldable pub under : Pointer → Pointer
under dangling = dangling
under (to at) = to (0 ∷ at)

unfoldable pub later : Pointer → Pointer
later dangling = dangling
later (to []) = to []
later (to (i ∷ at)) = to (suc i ∷ at)

-- The nodes at the right edge of a forest with the pointers to them, the deepest first.
abbrev pub edge : DocTreeNodes → Stack
edge nil = []
edge (cons (node f cs) nil) = on_pointers under (edge cs) ++ (f.depth, to (0 ∷ [])) ∷ []
edge (cons n (cons m ms)) = on_pointers later (edge (cons m ms))

pub pop_deeper-on_pointers :
    (d : ℕ) (h : Pointer → Pointer) (s : Stack)
    → pop_deeper d (on_pointers h s) ≡ on_pointers h (pop_deeper d s)
unfolding pop_deeper
pop_deeper-on_pointers d h [] = refl
pop_deeper-on_pointers d h ((e, p) ∷ s) = ground (arith, pop_deeper-on_pointers d h s)

pop_deeper_keeps :
    (d e : ℕ) (p : Pointer) (s : Stack)
    → e < d
    → pop_deeper d (s ++ (e, p) ∷ []) ≡ pop_deeper d s ++ (e, p) ∷ []
unfolding pop_deeper
pop_deeper_keeps d e p [] lt = ground arith
pop_deeper_keeps d e p ((c, q) ∷ s) lt = ground (arith, pop_deeper_keeps d e p s lt)

pub pop_deeper-All : (d : ℕ) (s : Stack) → All (λ e. d ≤ e.0) s → pop_deeper d s ≡ []
unfolding pop_deeper
pop_deeper-All d [] h = refl
pop_deeper-All d ((e, p) ∷ s) h = ground (arith, pop_deeper-All d s h.1)

pub All-on_pointers :
    (d : ℕ) (h : Pointer → Pointer) (s : Stack)
    → All (λ e. d ≤ e.0) s
    → All (λ e. d ≤ e.0) (on_pointers h s)
All-on_pointers d h [] a = tt
All-on_pointers d h ((e, p) ∷ s) a = (a.0, All-on_pointers d h s a.1)

pub edge-All : (d : ℕ) (ns : DocTreeNodes) → IsNested d ns → All (λ e. d ≤ e.0) (edge ns)
edge-All d nil h = tt
edge-All d (cons (node f cs) nil) (deep, inner, first, rest) =
    All-append (λ e. d ≤ e.0) (on_pointers under (edge cs)) ((f.depth, to (0 ∷ [])) ∷ [])
      (All-on_pointers d under (edge cs) (
        All-weaken (λ e. f.depth ≤ e.0) (λ e. d ≤ e.0) (edge cs) (λ e le. omega arith)
          (edge-All f.depth cs inner)))
      (omega arith, tt)
edge-All d (cons (node f cs) (cons m ms)) (deep, inner, first, rest) =
    All-on_pointers d later (edge (cons m ms)) (edge-All d (cons m ms) rest)

-- The pointers of an edge are not to the roots' own parent.
unfoldable pub IsInner : Pointer → Type 0
IsInner dangling = Unit
IsInner (to []) = ⊥
IsInner (to (i ∷ at)) = Unit

unfoldable pub HeadInner : Stack → Type 0
unfolding IsInner
HeadInner [] = Unit
HeadInner ((d, p) ∷ s) = IsInner p

All-under : (s : Stack) → All (λ e. IsInner e.1) (on_pointers under s)
unfolding under IsInner
All-under [] = tt
All-under ((d, dangling) ∷ s) = (tt, All-under s)
All-under ((d, to at) ∷ s) = (tt, All-under s)

All-later : (s : Stack) → All (λ e. IsInner e.1) s → All (λ e. IsInner e.1) (on_pointers later s)
unfolding later IsInner
All-later [] h = tt
All-later ((d, dangling) ∷ s) h = (tt, All-later s h.1)
All-later ((d, to []) ∷ s) h = absurd h.0
All-later ((d, to (i ∷ at)) ∷ s) h = (tt, All-later s h.1)

pub edge-AllInner : (ns : DocTreeNodes) → All (λ e. IsInner e.1) (edge ns)
unfolding IsInner
edge-AllInner nil = tt
edge-AllInner (cons (node f cs) nil) =
    All-append (λ e. IsInner e.1) (on_pointers under (edge cs)) ((f.depth, to (0 ∷ [])) ∷ [])
      (All-under (edge cs)) (tt, tt)
edge-AllInner (cons n (cons m ms)) = All-later (edge (cons m ms)) (edge-AllInner (cons m ms))

pub HeadInner-pop_deeper :
    (d : ℕ) (s : Stack) → All (λ e. IsInner e.1) s → HeadInner (pop_deeper d s)
unfolding HeadInner pop_deeper
HeadInner-pop_deeper d [] h = tt
HeadInner-pop_deeper d ((e, p) ∷ s) h = elim (Bool-cases (leb d e)) [
  | inl t ↦ rw t (HeadInner-pop_deeper d s h.1)
  | inr t ↦ rw t h.0
]

pub pop_deeper-under :
    (d e : ℕ) (p : Pointer) (s : Stack)
    → e < d
    → pop_deeper d (on_pointers under s ++ (e, p) ∷ [])
      ≡ on_pointers under (pop_deeper d s) ++ (e, p) ∷ []
pop_deeper-under d e p s lt =
    pop_deeper_keeps d e p (on_pointers under s) lt
    ∙ ap (λ t. t ++ (e, p) ∷ []) (pop_deeper-on_pointers d under s)

-- Insertion leaves at least one node.
pub edge-insert_last :
    (f : NodeFields) (n : DocTreeNode) (ns : DocTreeNodes)
    → edge (cons n (insert_last f ns)) ≡ on_pointers later (edge (insert_last f ns))
edge-insert_last f n nil = refl
edge-insert_last f n (cons (node g cs) nil) = elim (Bool-cases (ltb g.depth f.depth)) [
  | inl e ↦ rw e refl
  | inr e ↦ rw e refl
]
edge-insert_last f n (cons m (cons k ks)) = refl
