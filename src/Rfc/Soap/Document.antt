-- ===== src/Rfc/Soap/Document.antt =====
-- crates/sap-automate-rfc/src/soap.rs: which JSON value a document is read to, told without the parser's
-- map: texts are joined and trimmed, children are gathered under their names.
use sap_automate.Base.{
  ◌+◌, ◌≤◌, ◌<◌, String, ◌≡◌, refl, sym, ap, ◌∙◌, ◌≢◌, ◌⊎◌, inl, inr, Bool, true, false, Option,
  none, some, List, [], ◌∷◌, ◌++◌, arith, leb, ◌==◌, if◌then◌else◌, Bool-cases, Option-cases,
  List-cases, subst, All, length, str_eq, str_eq_iff, nat_key, string_key, pair_key,
}
use Prim.Native.String.{◌++◌ as str_append}
use sap_automate.Json.{Value, Items, Fields, get_field}
use sap_automate.Rfc.Error.{RfcError, ok, err}
use sap_automate.Rfc.Soap.Response.{
  XmlEvent, Children, no_children, add_text, add_child, conclude, local_name, trim_text, push,
  fold_value, set_field, insert_merge, xml_to_json_root, max_xml_depth,
}
use sap_automate.Rfc.Soap.Delimited.{get-insert_same, get-insert_other}
use sap_automate.Rfc.Soap.Calls.{items_of}
use sap_automate.Rfc.Soap.Parsing.{
  Content, events_of, height, absorb, value_of, xml_to_json_root_lem,
}

-- All texts that stand directly in the element, one behind the other, after some text.
abbrev pub texts : String → Content → String
texts before Content.end = before
texts before (Content.element name c d) = texts before d
texts before (Content.lone name d) = texts before d
texts before (Content.run none d) = texts before d
texts before (Content.run (some s) d) = texts (str_append before s) d

-- The children in document order: each one's name, without its prefix, and value.
abbrev pub children : (String → String → Bool) → Content → List (String × Value)
children before Content.end = []
children before (Content.element name c d) =
    (local_name name, value_of before c) ∷ children before d
children before (Content.lone name d) = (local_name name, Value.string "") ∷ children before d
children before (Content.run t d) = children before d

abbrev pub named : String → List (String × Value) → List Value
named k [] = []
named k ((j, v) ∷ cs) = let rest = named k cs in if str_eq j k then v ∷ rest else rest

-- One value stands as it is, more than one as an array.
abbrev pub gathered : List Value → Option Value
gathered [] = none
gathered (v ∷ []) = some v
gathered (v ∷ w ∷ vs) = some (Value.array (items_of (v ∷ w ∷ vs)))

-- An element without children is its text, trimmed; an element with children is the object that
-- has, under each name, the values of the children of that name.
abbrev pub StandsFor : (String → String → Bool) → Content → Value → Type 0
StandsFor before c v =
    ((children before c ≡ []) × (v ≡ Value.string (trim_text (texts "" c))))
    ⊎ ((children before c ≢ [])
        × (m : Fields) × (v ≡ Value.object m)
        × ((k : String) → get_field k m ≡ gathered (named k (children before c))))

abbrev add_value : Option Value → Value → Value
add_value none v = v
add_value (some old) v = fold_value v old

abbrev add_all : Option Value → List Value → Option Value
add_all o [] = o
add_all o (v ∷ vs) = add_all (some (add_value o v)) vs

push-items_of : (xs : List Value) (v : Value) → push (items_of xs) v ≡ items_of (xs ++ v ∷ [])
push-items_of [] v = refl
push-items_of (x ∷ xs) v = ap (Items.cons x) (push-items_of xs v)

list_assoc : (xs : List Value) (v : Value) (vs : List Value) → (xs ++ v ∷ []) ++ vs ≡ xs ++ v ∷ vs
list_assoc [] v vs = refl
list_assoc (x ∷ xs) v vs = ap (◌∷◌ x) (list_assoc xs v vs)

add_all-array :
    (vs xs : List Value)
    → add_all (some (Value.array (items_of xs))) vs ≡ some (Value.array (items_of (xs ++ vs)))
add_all-array [] xs = ap (λ l. some (Value.array (items_of l))) (sym (append_none xs))
  where
    append_none : (ys : List Value) → ys ++ [] ≡ ys
    append_none [] = refl
    append_none (y ∷ ys) = ap (◌∷◌ y) (append_none ys)
add_all-array (v ∷ vs) xs =
    ap (λ l. add_all (some (Value.array l)) vs) (push-items_of xs v)
    ∙ add_all-array vs (xs ++ v ∷ [])
    ∙ ap (λ l. some (Value.array (items_of l))) (list_assoc xs v vs)

-- The values of elements are texts or objects.
abbrev IsElementValue : Value → Type 0
IsElementValue v = ((s : String) × (v ≡ Value.string s)) ⊎ ((m : Fields) × (v ≡ Value.object m))

fold_value-pair :
    (v w : Value)
    → IsElementValue v
    → fold_value w v ≡ Value.array (Items.cons v (Items.cons w Items.nil))
fold_value-pair v w (inl (s, e)) = rw e refl
fold_value-pair v w (inr (m, e)) = rw e refl

gathered_lem : (vs : List Value) → All IsElementValue vs → add_all none vs ≡ gathered vs
gathered_lem [] h = refl
gathered_lem (v ∷ []) h = refl
gathered_lem (v ∷ w ∷ vs) h =
    ap (λ x. add_all (some x) vs) (fold_value-pair v w h.0) ∙ add_all-array vs (v ∷ w ∷ [])

named-All :
    (k : String) (cs : List (String × Value))
    → All (λ c. IsElementValue c.1) cs
    → All IsElementValue (named k cs)
named-All k [] h = tt
named-All k ((j, v) ∷ cs) h = elim (Bool-cases (str_eq j k)) [
  | inl e ↦ rw e (h.0, named-All k cs h.1)
  | inr e ↦ rw e (named-All k cs h.1)
]

conclude-IsElementValue : (st : Children) → IsElementValue (conclude st)
unfolding conclude
conclude-IsElementValue st = elim (Bool-cases (st.child_count == 0)) [
  | inl e ↦ rw e (inl (trim_text st.text, refl))
  | inr e ↦ rw e (inr (st.map, refl))
]

module _ (before : String → String → Bool) where
  children-All : (c : Content) → All (λ x. IsElementValue x.1) (children before c)
  unfolding value_of
  children-All Content.end = tt
  children-All (Content.element name c d) =
      (conclude-IsElementValue (absorb before c no_children), children-All d)
  children-All (Content.lone name d) = (inl ("", refl), children-All d)
  children-All (Content.run t d) = children-All d

  get-set_same :
      (j : String) (v old : Value) (m : Fields)
      → get_field j m ≡ some old
      → get_field j (set_field j v m) ≡ some v
  unfolding get_field
  get-set_same j v old Fields.end e = ground arith
  get-set_same j v old (Fields.field i w fs) e = elim (Bool-cases (str_eq i j)) [
    | inl same ↦ rw (same, same) refl
    | inr other ↦ rw (other, other) (get-set_same j v old fs (rw other at e))
  ]

  get-set_other :
      (k j : String) (v : Value) (m : Fields)
      → str_eq j k ≡ false
      → get_field k (set_field j v m) ≡ get_field k m
  unfolding get_field
  get-set_other k j v Fields.end d = refl
  get-set_other k j v (Fields.field i w fs) d = elim (Bool-cases (str_eq i j)) [
    | inl same ↦
        let apart : str_eq i k ≡ false =
          subst (λ x. str_eq x k ≡ false) (sym ((str_eq_iff i j).0 same)) d in
        rw (same, apart) refl
    | inr other ↦ rw other (elim (Bool-cases (str_eq i k)) [
      | inl e ↦ rw e refl
      | inr e ↦ rw e (get-set_other k j v fs d)
    ])
  ]

  merge_same :
      (j : String) (v : Value) (m : Fields)
      → get_field j (insert_merge before m j v) ≡ some (add_value (get_field j m) v)
  unfolding insert_merge
  merge_same j v m = elim (Option-cases (get_field j m)) [
    | inl e ↦ rw e (get-insert_same before j v m)
    | inr (old, e) ↦ rw e (get-set_same j (fold_value v old) old m e)
  ]

  merge_other :
      (k j : String) (v : Value) (m : Fields)
      → str_eq j k ≡ false
      → get_field k (insert_merge before m j v) ≡ get_field k m
  unfolding insert_merge
  merge_other k j v m d = elim (Option-cases (get_field j m)) [
    | inl e ↦ rw e (get-insert_other before k j v m (λ q. cc ((str_eq_iff j k).1 q, d)))
    | inr (old, e) ↦ rw e (get-set_other k j (fold_value v old) m d)
  ]

  child_step :
      (k j : String) (v : Value) (rest : List (String × Value)) (m : Fields)
      → add_all (get_field k (insert_merge before m j v)) (named k rest)
        ≡ add_all (get_field k m) (named k ((j, v) ∷ rest))
  child_step k j v rest m = elim (Bool-cases (str_eq j k)) [
    | inl e ↦ rw e (
        ap (λ o. add_all o (named k rest))
          (subst (λ i. get_field i (insert_merge before m j v) ≡ some (add_value (get_field i m) v))
            ((str_eq_iff j k).0 e) (merge_same j v m)))
    | inr e ↦ rw e (ap (λ o. add_all o (named k rest)) (merge_other k j v m e))
  ]

  absorb-map :
      (k : String) (c : Content) (st : Children)
      → get_field k (absorb before c st).map
        ≡ add_all (get_field k st.map) (named k (children before c))
  unfolding absorb add_child value_of
  absorb-map k Content.end st = refl
  absorb-map k (Content.element name c d) st =
      let v = conclude (absorb before c no_children) in
      absorb-map k d (add_child before name v st)
      ∙ child_step k (local_name name) v (children before d) st.map
  absorb-map k (Content.lone name d) st =
      absorb-map k d (add_child before name (Value.string "") st)
      ∙ child_step k (local_name name) (Value.string "") (children before d) st.map
  absorb-map k (Content.run none d) st = absorb-map k d st
  absorb-map k (Content.run (some s) d) st = absorb-map k d (add_text (some s) st)

  absorb-child_count :
      (c : Content) (st : Children)
      → (absorb before c st).child_count ≡ st.child_count + length (children before c)
  unfolding absorb add_child
  absorb-child_count Content.end st = omega arith
  absorb-child_count (Content.element name c d) st =
      let v = conclude (absorb before c no_children) in
      omega (arith, absorb-child_count d (add_child before name v st))
  absorb-child_count (Content.lone name d) st =
      omega (arith, absorb-child_count d (add_child before name (Value.string "") st))
  absorb-child_count (Content.run none d) st = absorb-child_count d st
  absorb-child_count (Content.run (some s) d) st = absorb-child_count d (add_text (some s) st)

  absorb-text : (c : Content) (st : Children) → (absorb before c st).text ≡ texts st.text c
  unfolding absorb add_child
  absorb-text Content.end st = refl
  absorb-text (Content.element name c d) st =
      absorb-text d (add_child before name (conclude (absorb before c no_children)) st)
  absorb-text (Content.lone name d) st = absorb-text d (add_child before name (Value.string "") st)
  absorb-text (Content.run none d) st = absorb-text d st
  absorb-text (Content.run (some s) d) st = absorb-text d (add_text (some s) st)

  conclude-none :
      (st : Children) → st.child_count ≡ 0 → conclude st ≡ Value.string (trim_text st.text)
  unfolding conclude
  conclude-none st e = ground arith

  conclude-some : (st : Children) → st.child_count ≢ 0 → conclude st ≡ Value.object st.map
  unfolding conclude
  conclude-some st e = ground arith

  empty-length : (cs : List (String × Value)) → length cs ≡ 0 → cs ≡ []
  empty-length [] e = refl
  empty-length (c ∷ cs) e = absurd (omega arith)

  value_of-StandsFor : (c : Content) → StandsFor before c (value_of before c)
  unfolding value_of get_field
  value_of-StandsFor c =
      let st = absorb before c no_children in
      let count : st.child_count ≡ length (children before c) =
        omega (arith, absorb-child_count c no_children) in
      elim (List-cases (children before c)) [
        | inl none_there ↦
            let zero_ : st.child_count ≡ 0 = count ∙ ap length none_there in
            inl (
              none_there,
              conclude-none st zero_
                  ∙ ap (λ s. Value.string (trim_text s)) (absorb-text c no_children),
            )
        | inr there ↦ inr (
          there,
          st.map,
          conclude-some st (λ e. there (empty-length (children before c) (sym count ∙ e))),
          λ k.
              absorb-map k c no_children
              ∙ gathered_lem (named k (children before c))
                  (named-All k (children before c) (children-All c)),
        )
      ]

  -- A document of elements and texts, with no declaration, comment or CDATA section, is read to the
  -- value that it stands for if no element with a start and an end tag stands more than 256 deep
  -- (an element closed by its own tag is not counted), and is refused otherwise. An element without
  -- children stands for its texts, joined and trimmed. One with children stands for the object that
  -- has, under each name without its prefix, the value of the child of that name, or the array of
  -- the values of all children of that name in their order, and nothing under any other name; and
  -- so do its children.
  pub xml_to_json_root-events_of :
      (name : String) (c : Content)
      → let result =
          xml_to_json_root before (XmlEvent.start name ∷ events_of c (XmlEvent.stop ∷ [])) in
        (1 + height c ≤ max_xml_depth → result ≡ some (ok (value_of before c)))
        × (max_xml_depth < 1 + height c
            → result ≡ some (err (RfcError.internal "XML nesting exceeds 256 levels")))
        × ((d : Content) → StandsFor before d (value_of before d))
  xml_to_json_root-events_of name c = (
    λ fits.
        let e : leb (1 + height c) max_xml_depth ≡ true = ground arith in
        rw e at (xml_to_json_root_lem before name c),
    λ deep.
        let e : leb (1 + height c) max_xml_depth ≡ false = ground arith in
        rw e at (xml_to_json_root_lem before name c),
    value_of-StandsFor,
  )
