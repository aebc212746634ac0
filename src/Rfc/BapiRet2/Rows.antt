-- ===== src/Rfc/BapiRet2/Rows.antt =====
-- Which parts of a JSON value `walk` takes for rows.
use sap_automate.Base.{
  ℕ, zero, suc, ◌+◌, ◌≤◌, ◌<◌, ◌≡◌, refl, subst, ◌↔◌, inl, inr, true, false, [], ◌∷◌, arith, dec_le,
  Bool-cases, Has, Has-append_left, Has-append_right, Has-append, nat_key, string_key, pair_key,
}
use sap_automate.Json.{
  Value, null, bool, number, string, array, object, Items, nil, cons, Fields, end, field, HasItem,
  HasField,
}
use sap_automate.Rfc.BapiRet2.{is_row, walk, walk_items, walk_fields, collect_candidates, max_depth}

-- `r` is a row inside `v`, `d` levels below it, and in no other row of `v`.
pub data RowIn (r : Value) : Value → ℕ → Type 0 where
  here : {fs : Fields} → is_row fs ≡ true → r ≡ object fs → RowIn r (object fs) zero
  in_array :
      {x : Value} {xs : Items} {d : ℕ} → HasItem x xs → RowIn r x d → RowIn r (array xs) (suc d)
  in_object :
      {x : Value} {fs : Fields} {d : ℕ}
      → is_row fs ≡ false
      → HasField x fs
      → RowIn r x d
      → RowIn r (object fs) (suc d)

module _ (r : Value) where
  Has-walk_items :
      (x : Value) (xs : Items) (depth : ℕ)
      → HasItem x xs
      → Has r (walk x depth)
      → Has r (walk_items xs depth)
  unfolding walk_items
  Has-walk_items x nil depth i h = absurd i
  Has-walk_items x (cons y ys) depth (inl e) h =
      Has-append_left r _ _ (subst (λ v. Has r (walk v depth)) e h)
  Has-walk_items x (cons y ys) depth (inr i) h =
      Has-append_right r _ _ (Has-walk_items x ys depth i h)

  Has-walk_fields :
      (x : Value) (fs : Fields) (depth : ℕ)
      → HasField x fs
      → Has r (walk x depth)
      → Has r (walk_fields fs depth)
  unfolding walk_fields
  Has-walk_fields x end depth i h = absurd i
  Has-walk_fields x (field k y ys) depth (inl e) h =
      Has-append_left r _ _ (subst (λ v. Has r (walk v depth)) e h)
  Has-walk_fields x (field k y ys) depth (inr i) h =
      Has-append_right r _ _ (Has-walk_fields x ys depth i h)

  walk_array :
      (xs : Items) (depth : ℕ)
      → depth ≤ max_depth
      → walk (array xs) depth ≡ walk_items xs (depth + 1)
  unfolding walk
  walk_array xs depth h = ground arith

  walk_object :
      (fs : Fields) (depth : ℕ)
      → depth ≤ max_depth
      → is_row fs ≡ false
      → walk (object fs) depth ≡ walk_fields fs (depth + 1)
  unfolding walk
  walk_object fs depth h e = ground arith

  walk_row :
      (fs : Fields) (depth : ℕ)
      → depth ≤ max_depth
      → is_row fs ≡ true
      → walk (object fs) depth ≡ object fs ∷ []
  unfolding walk
  walk_row fs depth h e = ground arith

  walk_complete :
      {v : Value} {d : ℕ} (depth : ℕ) → RowIn r v d → depth + d ≤ max_depth → Has r (walk v depth)
  walk_complete depth (here {fs = fs} e q) h = rw (walk_row fs depth (omega arith) e) (inl q)
  walk_complete depth (in_array {x = x} {xs = xs} i p) h =
      rw (walk_array xs depth (omega arith))
        (Has-walk_items x xs (depth + 1) i (walk_complete (depth + 1) p (omega arith)))
  walk_complete depth (in_object {x = x} {fs = fs} e i p) h =
      rw (walk_object fs depth (omega arith) e)
        (Has-walk_fields x fs (depth + 1) i (walk_complete (depth + 1) p (omega arith)))

  walk_deep : (v : Value) (depth : ℕ) → max_depth < depth → walk v depth ≡ []
  unfolding walk
  walk_deep (array xs) depth h = ground arith
  walk_deep (object fs) depth h = ground arith
  walk_deep _ depth h = refl

  -- A row found below a value.
  abbrev Found : Value → ℕ → Type 0
  Found v depth = (d : ℕ) × RowIn r v d × (depth + d ≤ max_depth)

only : {r v : Value} → Has r (v ∷ []) → r ≡ v
only (inl e) = e
only (inr h) = absurd h

mutual
  unfolding walk

  walk_sound : (r v : Value) (depth : ℕ) → Has r (walk v depth) → Found r v depth
  walk_sound r null depth h = absurd h
  walk_sound r (bool _) depth h = absurd h
  walk_sound r (number _) depth h = absurd h
  walk_sound r (string _) depth h = absurd h
  walk_sound r (array xs) depth h = elim (dec_le depth max_depth) [
    | yes le ↦
        let (x, d, i, p, b) = items_sound r xs (depth + 1) (rw (walk_array r xs depth le) at h) in
        (suc d, in_array i p, omega arith)
    | no gt ↦ absurd (rw (walk_deep r (array xs) depth (omega arith)) at h)
  ]
  walk_sound r (object fs) depth h = elim (dec_le depth max_depth) [
    | yes le ↦ elim (Bool-cases (is_row fs)) [
      | inl e ↦ (0, here e (only (rw (walk_row r fs depth le e) at h)), omega arith)
      | inr e ↦
          let (x, d, i, p, b) =
            fields_sound r fs (depth + 1) (rw (walk_object r fs depth le e) at h) in
          (suc d, in_object e i p, omega arith)
    ]
    | no gt ↦ absurd (rw (walk_deep r (object fs) depth (omega arith)) at h)
  ]

  items_sound :
      (r : Value) (xs : Items) (depth : ℕ)
      → Has r (walk_items xs depth)
      → (x : Value) × (d : ℕ) × HasItem x xs × RowIn r x d × (depth + d ≤ max_depth)
  items_sound r nil depth h = absurd h
  items_sound r (cons x xs) depth h = elim (Has-append r (walk x depth) (walk_items xs depth) h) [
    | inl l ↦ let (d, p, b) = walk_sound r x depth l in (x, d, inl refl, p, b)
    | inr m ↦ let (y, d, i, p, b) = items_sound r xs depth m in (y, d, inr i, p, b)
  ]

  fields_sound :
      (r : Value) (fs : Fields) (depth : ℕ)
      → Has r (walk_fields fs depth)
      → (x : Value) × (d : ℕ) × HasField x fs × RowIn r x d × (depth + d ≤ max_depth)
  fields_sound r end depth h = absurd h
  fields_sound r (field k x fs) depth h =
      elim (Has-append r (walk x depth) (walk_fields fs depth) h) [
        | inl l ↦ let (d, p, b) = walk_sound r x depth l in (x, d, inl refl, p, b)
        | inr m ↦ let (y, d, i, p, b) = fields_sound r fs depth m in (y, d, inr i, p, b)
      ]

-- The candidates are exactly the rows of the value that lie at most eight levels deep and in no
-- other row.
pub collect_candidates_iff :
    (v r : Value) → Has r (collect_candidates v) ↔ ((d : ℕ) × RowIn r v d × (d ≤ max_depth))
unfolding collect_candidates
collect_candidates_iff v r = (
  λ h. let (d, p, b) = walk_sound r v 0 h in (d, p, omega arith),
  λ (d, p, b). walk_complete r 0 p (omega arith),
)
