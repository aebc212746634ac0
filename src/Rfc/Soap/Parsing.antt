-- ===== src/Rfc/Soap/Parsing.antt =====
-- crates/sap-automate-rfc/src/soap.rs: what `parse_children` makes of a document, and its limits.
use sap_automate.Base.{
  ℕ, zero, suc, ◌+◌, ◌≤◌, ◌<◌, max, String, ◌≡◌, refl, ◌≢◌, inl, inr, Bool, true, false, Option,
  none, some, [], ◌∷◌, arith, ltb, leb, if◌then◌else◌, Bool-cases, length, nat_key, string_key,
  pair_key,
}
use sap_automate.Json.{Value}
use sap_automate.Rfc.Error.{RfcError, ok, err}
use sap_automate.Rfc.Soap.Response.{
  XmlEvent, Children, no_children, add_text, add_child, conclude, Events, Parsed, and_then,
  too_deep, unless_too_deep, children_loop, parse_children, xml_to_json_root, max_xml_depth,
  drop_rest,
}

-- The content of an element, as a tree.
pub data Content : Type 0 where
  end : Content
  element : (name : String) → Content → Content → Content
  lone : (name : String) → Content → Content
  run : Option String → Content → Content

unfoldable pub events_of : Content → Events → Events
events_of Content.end k = k
events_of (Content.element name c d) k =
    XmlEvent.start name ∷ events_of c (XmlEvent.stop ∷ events_of d k)
events_of (Content.lone name d) k = XmlEvent.empty name ∷ events_of d k
events_of (Content.run t d) k = XmlEvent.text t ∷ events_of d k

abbrev pub height : Content → ℕ
height Content.end = 0
height (Content.element name c d) = max (height c + 1) (height d)
height (Content.lone name d) = height d
height (Content.run t d) = height d

abbrev pub size : Content → ℕ
size Content.end = 0
size (Content.element name c d) = size c + size d + 2
size (Content.lone name d) = size d + 1
size (Content.run t d) = size d + 1

-- The element's children folded from left to right, each by its own value.
unfoldable pub absorb : (String → String → Bool) → Content → Children → Children
unfolding add_child conclude
absorb before Content.end st = st
absorb before (Content.element name c d) st =
    absorb before d (add_child before name (conclude (absorb before c no_children)) st)
absorb before (Content.lone name d) st =
    absorb before d (add_child before name (Value.string "") st)
absorb before (Content.run t d) st = absorb before d (add_text t st)

unfoldable pub value_of : (String → String → Bool) → Content → Value
unfolding absorb conclude
value_of before c = conclude (absorb before c no_children)

-- The loop goes through the content, if it is flat enough, and stands behind its end.
abbrev outcome : ℕ → ℕ → Value → Events → Parsed
outcome depth h v k = if leb (depth + h) max_xml_depth then some (ok (v, k)) else too_deep

child-outcome :
    (depth h j : ℕ) (v w : Value) (rest k : Events) (p : Parsed) (next : Value → Events → Parsed)
    → (depth + 1 ≤ max_xml_depth → p ≡ outcome (depth + 1) h v rest)
    → next v rest ≡ outcome depth j w k
    → and_then (unless_too_deep (depth + 1) p) next ≡ outcome depth (max (h + 1) j) w k
child-outcome depth h j v w rest k p next child after =
    elim (Bool-cases (ltb max_xml_depth (depth + 1))) [
      | inl deep ↦
          let over : leb (depth + max (h + 1) j) max_xml_depth ≡ false = ground arith in
          rw (deep, over) refl
      | inr flat ↦
          rw (flat, child (ground arith))
            (elim (Bool-cases (leb (depth + 1 + h) max_xml_depth)) [
              | inl fits ↦
                  let same : leb (depth + max (h + 1) j) max_xml_depth
                      ≡ leb (depth + j) max_xml_depth =
                    ground arith in
                  rw (fits, same) after
              | inr over ↦
                  let too : leb (depth + max (h + 1) j) max_xml_depth ≡ false = ground arith in
                  rw (over, too) refl
            ])
    ]

children_loop-events_of :
    (before : String → String → Bool) (n depth : ℕ) (c : Content) (k : Events) (st : Children)
    → size c < n
    → depth ≤ max_xml_depth
    → children_loop before n depth (events_of c (XmlEvent.stop ∷ k)) st
      ≡ outcome depth (height c) (conclude (absorb before c st)) k
unfolding children_loop events_of absorb
children_loop-events_of before zero depth c k st h d = absurd (omega arith)
children_loop-events_of before (suc n) depth Content.end k st h d =
    let fits : leb (depth + 0) max_xml_depth ≡ true = ground arith in rw fits refl
children_loop-events_of before (suc n) depth (Content.element name c e) k st h d =
    child-outcome depth (height c) (height e) (conclude (absorb before c no_children))
      (conclude
        (absorb before e (add_child before name (conclude (absorb before c no_children)) st)))
      (events_of e (XmlEvent.stop ∷ k)) k
      (children_loop before n (depth + 1)
        (events_of c (XmlEvent.stop ∷ events_of e (XmlEvent.stop ∷ k))) no_children)
      (λ v rest. children_loop before n depth rest (add_child before name v st))
      (λ le.
        children_loop-events_of before n (depth + 1) c (events_of e (XmlEvent.stop ∷ k)) no_children
          (omega arith) le)
      (children_loop-events_of before n depth e k
        (add_child before name (conclude (absorb before c no_children)) st) (omega arith) d)
children_loop-events_of before (suc n) depth (Content.lone name e) k st h d =
    children_loop-events_of before n depth e k (add_child before name (Value.string "") st)
      (omega arith) d
children_loop-events_of before (suc n) depth (Content.run t e) k st h d =
    children_loop-events_of before n depth e k (add_text t st) (omega arith) d

-- The loop never runs out of fuel, and it leaves no more events than it was given.
abbrev Enough : ℕ → Parsed → Type 0
Enough n none = ⊥
Enough n (some (err e)) = Unit
Enough n (some (ok (v, es))) = length es ≤ n

Enough-unless : (m n : ℕ) (p : Parsed) → Enough n p → Enough n (unless_too_deep m p)
Enough-unless m n p h = elim (Bool-cases (ltb max_xml_depth m)) [ inl e ↦ rw e tt | inr e ↦ rw e h ]

Enough-then :
    (m n : ℕ) (p : Parsed) (k : Value → Events → Parsed)
    → Enough m p
    → ((v : Value) (es : Events) → length es ≤ m → Enough n (k v es))
    → Enough n (and_then p k)
Enough-then m n none k h next = h
Enough-then m n (some (err e)) k h next = h
Enough-then m n (some (ok (v, es))) k h next = next v es h

children_loop-Enough :
    (before : String → String → Bool) (n m depth : ℕ) (es : Events) (st : Children)
    → length es < n
    → length es ≤ m
    → Enough m (children_loop before n depth es st)
unfolding children_loop
children_loop-Enough before zero m depth es st h le = absurd (omega arith)
children_loop-Enough before (suc n) m depth [] st h le = omega arith
children_loop-Enough before (suc n) m depth (XmlEvent.start name ∷ es) st h le =
    Enough-then (length es) m
      (unless_too_deep (depth + 1) (children_loop before n (depth + 1) es no_children))
      (λ v rest. children_loop before n depth rest (add_child before name v st))
      (Enough-unless (depth + 1) (length es) (children_loop before n (depth + 1) es no_children) (
        children_loop-Enough before n (length es) (depth + 1) es no_children (omega arith)
          (omega arith)))
      (λ v rest fewer.
        children_loop-Enough before n m depth rest (add_child before name v st) (omega arith)
          (omega arith))
children_loop-Enough before (suc n) m depth (XmlEvent.empty name ∷ es) st h le =
    children_loop-Enough before n m depth es (add_child before name (Value.string "") st)
      (omega arith) (omega arith)
children_loop-Enough before (suc n) m depth (XmlEvent.text t ∷ es) st h le =
    children_loop-Enough before n m depth es (add_text t st) (omega arith) (omega arith)
children_loop-Enough before (suc n) m depth (XmlEvent.cdata t ∷ es) st h le =
    children_loop-Enough before n m depth es (add_text (some t) st) (omega arith) (omega arith)
children_loop-Enough before (suc n) m depth (XmlEvent.stop ∷ es) st h le = omega arith
children_loop-Enough before (suc n) m depth (XmlEvent.eof ∷ es) st h le = omega arith
children_loop-Enough before (suc n) m depth (XmlEvent.other ∷ es) st h le =
    children_loop-Enough before n m depth es st (omega arith) (omega arith)
children_loop-Enough before (suc n) m depth (XmlEvent.failed e ∷ es) st h le = tt

kept : (m : ℕ) (p : Parsed) → Enough m p → drop_rest p ≢ none
kept m none h e = h
kept m (some (err x)) h e = ground arith
kept m (some (ok (v, es))) h e = ground arith

length-events_of : (c : Content) (k : Events) → length (events_of c k) ≡ size c + length k
unfolding events_of
length-events_of Content.end k = omega arith
length-events_of (Content.element name c d) k =
    omega (arith, length-events_of c (XmlEvent.stop ∷ events_of d k), length-events_of d k)
length-events_of (Content.lone name d) k = omega (arith, length-events_of d k)
length-events_of (Content.run t d) k = omega (arith, length-events_of d k)

-- Any stream of events, with other events in front of the root or not, is read to a value or an error:
-- the loop never runs out of fuel.
pub xml_to_json_root-terminates :
    (before : String → String → Bool) (es : Events) → xml_to_json_root before es ≢ none
unfolding xml_to_json_root parse_children
xml_to_json_root-terminates before [] e = ground arith
xml_to_json_root-terminates before (XmlEvent.start name ∷ es) e =
    kept (length es) (children_loop before (length es + 1) 1 es no_children)
      (children_loop-Enough before (length es + 1) (length es) 1 es no_children (omega arith)
        (omega arith))
      e
xml_to_json_root-terminates before (XmlEvent.eof ∷ es) e = ground arith
xml_to_json_root-terminates before (XmlEvent.failed x ∷ es) e = ground arith
xml_to_json_root-terminates before (_ ∷ es) e = xml_to_json_root-terminates before es e

-- The parser gives the fold of the content, unless it is too deep.
pub xml_to_json_root_lem :
    (before : String → String → Bool) (name : String) (c : Content)
    → xml_to_json_root before (XmlEvent.start name ∷ events_of c (XmlEvent.stop ∷ []))
      ≡ some (
          if leb (1 + height c) max_xml_depth
          then ok (value_of before c)
          else err (RfcError.internal "XML nesting exceeds 256 levels"))
unfolding xml_to_json_root parse_children value_of
xml_to_json_root_lem before name c =
    let n = length (events_of c (XmlEvent.stop ∷ [])) + 1 in
    let enough : size c < n = omega (arith, length-events_of c (XmlEvent.stop ∷ [])) in
    rw (children_loop-events_of before n 1 c [] no_children enough (omega arith))
      (elim (Bool-cases (leb (1 + height c) max_xml_depth)) [
        | inl e ↦ rw e refl
        | inr e ↦ rw e refl
      ])
