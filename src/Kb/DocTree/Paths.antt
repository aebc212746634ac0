-- ===== src/Kb/DocTree/Paths.antt =====
-- crates/sap-automate-kb/src/doc_tree.rs: the dotted paths, and `find`.
use sap_automate.Base.{
  ℕ, zero, suc, ◌+◌, ◌≡◌, refl, sym, ap, ◌∙◌, subst, inl, inr, false, Option, none, some, List, [],
  ◌∷◌, ◌++◌, arith, Bool-cases, nat_key, string_key, pair_key, Text, codes, text_eq, text_eq_iff,
  text_key, starts_with,
}
use mathlib.Core.List.{append-nil, append_assoc}
use sap_automate.Kb.DocTree.Dots.{
  HasNoDot, IsTail, text_eq-append, starts_with-append, starts_with-append_false,
  text_eq-append_false, text_eq_longer, same_number, whole_number,
}
use sap_automate.Kb.Sections.{NodeFields, DocTreeNode, DocTreeNodes, node, nil, cons, find_path}
use sap_automate.Kb.DocTree.{assign_paths}

-- The node to which the indices lead, one for each level.
abbrev pub node_at : List ℕ → DocTreeNodes → Option DocTreeNode
node_at [] ns = none
node_at (i ∷ at) nil = none
node_at (zero ∷ []) (cons n ns) = some n
node_at (zero ∷ j ∷ at) (cons (node f cs) ns) = node_at (j ∷ at) cs
node_at (suc i ∷ at) (cons n ns) = node_at (i ∷ at) ns

module _ (decimal : ℕ → Text) where
  -- The path of the node to which the indices lead, where `prefix` is the path of the parent and a
  -- dot, and the siblings count from `i`.
  abbrev pub dotted : Text → ℕ → List ℕ → Text
  dotted prefix i [] = prefix
  dotted prefix i (k ∷ []) = prefix ++ decimal (i + k + 1)
  dotted prefix i (k ∷ j ∷ at) = dotted ((prefix ++ decimal (i + k + 1)) ++ codes ".") 0 (j ∷ at)

  dotted-suc :
      (prefix : Text) (i k : ℕ) (at : List ℕ)
      → dotted prefix i (suc k ∷ at) ≡ dotted prefix (i + 1) (k ∷ at)
  dotted-suc prefix i k [] =
      let e : i + suc k + 1 ≡ i + 1 + k + 1 = omega arith in ap (λ n. prefix ++ decimal n) e
  dotted-suc prefix i k (j ∷ at) =
      let e : i + suc k + 1 ≡ i + 1 + k + 1 = omega arith in
      ap (λ n. dotted ((prefix ++ decimal n) ++ codes ".") 0 (j ∷ at)) e

  -- A path extends its prefix.
  dotted-append :
      (prefix : Text) (i : ℕ) (at : List ℕ) → (t : Text) × (dotted prefix i at ≡ prefix ++ t)
  dotted-append prefix i [] = ([], sym (append-nil prefix))
  dotted-append prefix i (k ∷ []) = (decimal (i + k + 1), refl)
  dotted-append prefix i (k ∷ j ∷ at) =
      let (t, e) = dotted-append ((prefix ++ decimal (i + k + 1)) ++ codes ".") 0 (j ∷ at) in
      (
        decimal (i + k + 1) ++ (codes "." ++ t),
        e
            ∙ append_assoc (prefix ++ decimal (i + k + 1)) (codes ".") t
            ∙ append_assoc prefix (decimal (i + k + 1)) (codes "." ++ t),
      )

  -- No path below a prefix is met by a text that does not start with it.
  find_path_misses :
      (q prefix : Text) (i : ℕ) (ns : DocTreeNodes)
      → starts_with q prefix ≡ false
      → find_path q (assign_paths decimal prefix i ns) ≡ none
  unfolding find_path assign_paths
  find_path_misses q prefix i nil h = refl
  find_path_misses q prefix i (cons (node f cs) ns) h =
      let below = find_path_misses q ((prefix ++ decimal (i + 1)) ++ codes ".") 0 cs (
        starts_with-append_false q (prefix ++ decimal (i + 1)) (codes ".")
          (starts_with-append_false q prefix (decimal (i + 1)) h)) in
      let behind = find_path_misses q prefix (i + 1) ns h in
      let here = text_eq-append_false q prefix (decimal (i + 1)) h in rw (here, below, behind) refl

  dotted-zero :
      (prefix : Text) (i j : ℕ) (at : List ℕ)
      → dotted prefix i (zero ∷ j ∷ at)
        ≡ dotted ((prefix ++ decimal (i + 1)) ++ codes ".") 0 (j ∷ at)
  dotted-zero prefix i j at =
      let e : i + 0 + 1 ≡ i + 1 = omega arith in
      ap (λ n. dotted ((prefix ++ decimal n) ++ codes ".") 0 (j ∷ at)) e

  module _ (q prefix : Text) (i : ℕ) (f : NodeFields) (cs ns : DocTreeNodes) (m : DocTreeNode) where
    finds_below :
        text_eq (prefix ++ decimal (i + 1)) q ≡ false
        → find_path q (assign_paths decimal ((prefix ++ decimal (i + 1)) ++ codes ".") 0 cs)
          ≡ some m
        → find_path q (assign_paths decimal prefix i (cons (node f cs) ns)) ≡ some m
    unfolding find_path assign_paths
    finds_below here below = rw (here, below) refl

    finds_behind :
        text_eq (prefix ++ decimal (i + 1)) q ≡ false
        → find_path q (assign_paths decimal ((prefix ++ decimal (i + 1)) ++ codes ".") 0 cs) ≡ none
        → find_path q (assign_paths decimal prefix (i + 1) ns) ≡ some m
        → find_path q (assign_paths decimal prefix i (cons (node f cs) ns)) ≡ some m
    unfolding find_path assign_paths
    finds_behind here below behind = rw (here, below, behind) refl

  module _ (no_dot : (n : ℕ) → HasNoDot (decimal n))
      (injective : (m n : ℕ) → decimal m ≡ decimal n → m ≡ n) where
    -- The path of a later sibling, or of a node below it.
    later_path :
        (prefix : Text) (i k : ℕ) (at : List ℕ)
        → (t : Text) × (dotted prefix i (k ∷ at) ≡ prefix ++ (decimal (i + k + 1) ++ t)) × IsTail t
    later_path prefix i k [] =
        ([], ap (λ s. prefix ++ s) (sym (append-nil (decimal (i + k + 1)))), tt)
    later_path prefix i k (j ∷ at) =
        let (t, e) = dotted-append ((prefix ++ decimal (i + k + 1)) ++ codes ".") 0 (j ∷ at) in
        (
          codes "." ++ t,
          e
              ∙ append_assoc (prefix ++ decimal (i + k + 1)) (codes ".") t
              ∙ append_assoc prefix (decimal (i + k + 1)) (codes "." ++ t),
          refl,
        )

    other_number :
        (i k : ℕ) (t : Text)
        → IsTail t
        → text_eq (decimal (i + 1)) (decimal (i + suc k + 1) ++ t) ≡ false
    other_number i k t tail =
        elim (Bool-cases (text_eq (decimal (i + 1)) (decimal (i + suc k + 1) ++ t))) [
          | inl e ↦
              let same = injective (i + 1) (i + suc k + 1) (
                whole_number (decimal (i + suc k + 1)) (decimal (i + 1)) t (no_dot (i + 1)) tail
                  e) in
              absurd (omega arith)
          | inr e ↦ e
        ]

    other_subtree :
        (i k : ℕ) (t : Text)
        → IsTail t
        → starts_with (decimal (i + suc k + 1) ++ t) (decimal (i + 1) ++ codes ".") ≡ false
    other_subtree i k t tail =
        elim (Bool-cases
          (starts_with (decimal (i + suc k + 1) ++ t) (decimal (i + 1) ++ codes "."))) [
            | inl e ↦
                let same = injective (i + suc k + 1) (i + 1) (
                  same_number (decimal (i + suc k + 1)) (decimal (i + 1)) t (no_dot (i + suc k + 1))
                    (no_dot (i + 1)) tail e) in
                absurd (omega arith)
            | inr e ↦ e
          ]

    skips_here :
        (prefix : Text) (i k : ℕ) (at : List ℕ)
        → text_eq (prefix ++ decimal (i + 1)) (dotted prefix i (suc k ∷ at)) ≡ false
    skips_here prefix i k at =
        let (t, e, tail) = later_path prefix i (suc k) at in
        rw e (
          text_eq-append prefix (decimal (i + 1)) (decimal (i + suc k + 1) ++ t)
          ∙ other_number i k t tail)

    skips_below :
        (prefix : Text) (i k : ℕ) (at : List ℕ)
        → starts_with (dotted prefix i (suc k ∷ at)) ((prefix ++ decimal (i + 1)) ++ codes ".")
          ≡ false
    skips_below prefix i k at =
        let (t, e, tail) = later_path prefix i (suc k) at in
        rw (e, append_assoc prefix (decimal (i + 1)) (codes "."))
          (starts_with-append prefix (decimal (i + suc k + 1) ++ t) (decimal (i + 1) ++ codes ".")
            ∙ other_subtree i k t tail)

    passes_here :
        (prefix : Text) (i j : ℕ) (at : List ℕ)
        → text_eq
            (prefix ++ decimal (i + 1))
            (dotted ((prefix ++ decimal (i + 1)) ++ codes ".") 0 (j ∷ at))
          ≡ false
    passes_here prefix i j at =
        let (t, e) = dotted-append ((prefix ++ decimal (i + 1)) ++ codes ".") 0 (j ∷ at) in
        rw (e, append_assoc (prefix ++ decimal (i + 1)) (codes ".") t)
          (text_eq_longer (prefix ++ decimal (i + 1)) t 46)

    -- Where numbers print to different texts without dots, the path that a node is given, wherever it
    -- stands, finds that node and no other.
    pub find_path-node_at :
        (prefix : Text) (i : ℕ) (ns : DocTreeNodes) (at : List ℕ) (n : DocTreeNode)
        → node_at at ns ≡ some n
        → (m : DocTreeNode) × (node_at at (assign_paths decimal prefix i ns) ≡ some m)
          × (find_path (dotted prefix i at) (assign_paths decimal prefix i ns) ≡ some m)
    unfolding find_path assign_paths
    find_path-node_at prefix i ns [] n h = cc
    find_path-node_at prefix i nil (k ∷ at) n h = cc
    find_path-node_at prefix i (cons (node f cs) ns) (zero ∷ []) n h =
        let e : i + 0 + 1 ≡ i + 1 = omega arith in
        let here =
          (text_eq_iff (prefix ++ decimal (i + 1)) (prefix ++ decimal (i + 0 + 1))).1
            (ap (λ n. prefix ++ decimal n) (sym e)) in
        (_, refl, rw here refl)
    find_path-node_at prefix i (cons (node f cs) ns) (zero ∷ j ∷ at) n h =
        let (m, leads, finds) =
          find_path-node_at ((prefix ++ decimal (i + 1)) ++ codes ".") 0 cs (j ∷ at) n h in
        (
          m,
          leads,
          subst (λ q. find_path q (assign_paths decimal prefix i (cons (node f cs) ns)) ≡ some m)
              (sym (dotted-zero prefix i j at))
              (finds_below (dotted ((prefix ++ decimal (i + 1)) ++ codes ".") 0 (j ∷ at)) prefix i f
                cs ns m (passes_here prefix i j at) finds),
        )
    find_path-node_at prefix i (cons (node f cs) ns) (suc k ∷ at) n h =
        let (m, leads, finds) = find_path-node_at prefix (i + 1) ns (k ∷ at) n h in
        let q = dotted prefix i (suc k ∷ at) in
        let below =
          find_path_misses q ((prefix ++ decimal (i + 1)) ++ codes ".") 0 cs
            (skips_below prefix i k at) in
        let here = skips_here prefix i k at in
        let later : find_path q (assign_paths decimal prefix (i + 1) ns) ≡ some m =
          rw (dotted-suc prefix i k at) finds in
        (m, leads, finds_behind q prefix i f cs ns m here below later)
