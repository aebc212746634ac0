-- ===== src/Memory/Working.antt =====
-- The ring buffer of a session keeps exactly the newest entries of its history.
use mathlib.Core.List.{reverse-append, reverse-cons}
use sap_automate.Base.{
  ℕ, suc, ◌-◌, ◌≤◌, ◌<◌, min, max, String, ◌≡◌, refl, sym, ap, ◌∙◌, inl, inr, List, [], ◌∷◌, ◌++◌,
  reverse, arith, dec_lt, if◌then◌else◌, Bool-cases, length, take, length-take, length-reverse,
  take_all, take-append_left, take-take_le, str_eq, str_eq_iff, nat_key, string_key, pair_key,
  take-take,
}
use sap_automate.Base.Dict.{get, get-insert, get-remove}
use sap_automate.Memory.{
  MemoryEntry, WorkingMemory, with_capacity, or_default, pop_front, push_bounded, append, recent,
  clear,
}

pub data Op : Type 0 where
  appends : (session_id : String) → MemoryEntry → Op
  clears : (session_id : String) → Op

unfoldable pub apply : WorkingMemory → Op → WorkingMemory
apply m (appends s e) = append m s e
apply m (clears s) = clear m s

unfoldable pub apply_all : WorkingMemory → List Op → WorkingMemory
apply_all m [] = m
apply_all m (op ∷ ops) = apply_all (apply m op) ops

-- All entries of a session since it was last cleared, newest first.
unfoldable pub newest : String → List MemoryEntry → List Op → List MemoryEntry
newest sid h [] = h
newest sid h (appends s e ∷ ops) = newest sid (if str_eq s sid then e ∷ h else h) ops
newest sid h (clears s ∷ ops) = newest sid (if str_eq s sid then [] else h) ops

reverse-pop_front :
    {A : Type 0} (q : List A) → reverse (pop_front q) ≡ take (length q - 1) (reverse q)
reverse-pop_front [] = refl
reverse-pop_front (x ∷ xs) =
    let n : length (x ∷ xs) - 1 ≡ length (reverse xs) = omega (arith, length-reverse xs) in
    rw (n, reverse-cons x xs)
      (sym (
        take-append_left (length (reverse xs)) (reverse xs) (x ∷ []) (omega arith)
        ∙ take_all (length (reverse xs)) (reverse xs) (omega arith)))

module _ {A : Type 0} (c : ℕ) (q h : List A) (e : A) (r : reverse q ≡ take (suc c) h) where
  reverse-snoc : (p : List A) → reverse p ≡ take c h → reverse (p ++ e ∷ []) ≡ take (suc c) (e ∷ h)
  reverse-snoc p s = reverse-append p (e ∷ []) ∙ ap (◌∷◌ e) s

  at_most : length q ≤ suc c
  at_most = omega (arith, length-reverse q, ap length r, length-take (suc c) h)

  keeps_all : length q < suc c → push_bounded (suc c) q e ≡ q ++ e ∷ []
  unfolding push_bounded
  keeps_all h = ground arith

  drops_first : length q ≡ suc c → push_bounded (suc c) q e ≡ pop_front q ++ e ∷ []
  unfolding push_bounded
  drops_first h = ground arith

  -- A buffer that holds the newest `suc c` of a history does so after one entry more.
  reverse-push_bounded : reverse (push_bounded (suc c) q e) ≡ take (suc c) (e ∷ h)
  reverse-push_bounded = elim (dec_lt (length q) (suc c)) [
    | yes room ↦ rw (keeps_all room) (
        reverse-snoc q (
          sym (take_all c (reverse q) (omega (arith, length-reverse q)))
          ∙ ap (take c) r
          ∙ take-take_le c (suc c) h (omega arith)))
    | no full ↦
        let n : length q ≡ suc c = omega (arith, at_most) in
        let m : length q - 1 ≡ c = omega arith in
        rw (drops_first n) (
          reverse-snoc (pop_front q)
            (reverse-pop_front q ∙ rw (m, r) (take-take_le c (suc c) h (omega arith))))
  ]

-- The session's buffer holds the newest `cap` entries of the history.
abbrev pub Holds : WorkingMemory → String → List MemoryEntry → Type 0
Holds m sid h = reverse (or_default (get sid m.sessions)) ≡ take m.cap h

append-Holds :
    (m : WorkingMemory) (sid s : String) (e : MemoryEntry) (h : List MemoryEntry) (c : ℕ)
    → m.cap ≡ suc c
    → Holds m sid h
    → Holds (append m s e) sid (if str_eq s sid then e ∷ h else h)
unfolding append
append-Holds m sid s e h c cap r = elim (Bool-cases (str_eq s sid)) [
  | inl same ↦
      let at_s : reverse (or_default (get s m.sessions)) ≡ take (suc c) h =
        rw ((str_eq_iff s sid).0 same, ← cap) r in
      rw (get-insert, same, cap) (reverse-push_bounded c (or_default (get s m.sessions)) h e at_s)
  | inr other ↦ rw (get-insert, other) r
]

clear-Holds :
    (m : WorkingMemory) (sid s : String) (h : List MemoryEntry)
    → Holds m sid h
    → Holds (clear m s) sid (if str_eq s sid then [] else h)
unfolding clear
clear-Holds m sid s h r = elim (Bool-cases (str_eq s sid)) [
  | inl same ↦ rw (get-remove, same) (sym (take_all m.cap [] (omega arith)))
  | inr other ↦ rw (get-remove, other) r
]

cap-apply : (m : WorkingMemory) (op : Op) → (apply m op).cap ≡ m.cap
unfolding apply append clear
cap-apply m (appends s e) = refl
cap-apply m (clears s) = refl

apply_all-Holds :
    (ops : List Op) (m : WorkingMemory) (sid : String) (h : List MemoryEntry) (c : ℕ)
    → m.cap ≡ suc c
    → Holds m sid h
    → ((apply_all m ops).cap ≡ suc c) × Holds (apply_all m ops) sid (newest sid h ops)
unfolding apply_all apply newest
apply_all-Holds [] m sid h c cap r = (cap, r)
apply_all-Holds (appends s e ∷ ops) m sid h c cap r =
    apply_all-Holds ops (append m s e) sid _ c (cap-apply m (appends s e) ∙ cap)
      (append-Holds m sid s e h c cap r)
apply_all-Holds (clears s ∷ ops) m sid h c cap r =
    apply_all-Holds ops (clear m s) sid _ c (cap-apply m (clears s) ∙ cap) (clear-Holds m sid s h r)

-- After any appends and clears of any sessions, reading `limit` entries of a session gives the
-- newest of those appended to it since it was last cleared, newest first: as many as were asked
-- for, but at most the capacity (one, for the capacity zero).
pub recent-apply_all :
    (cap : ℕ) (ops : List Op) (sid : String) (limit : ℕ)
    → recent (apply_all (with_capacity cap) ops) sid limit
      ≡ take (min limit (max cap 1)) (newest sid [] ops)
unfolding recent with_capacity get
recent-apply_all cap ops sid limit =
    let c : ℕ = max cap 1 - 1 in
    let m : max cap 1 ≡ suc c = omega arith in
    let (held, holds) =
      apply_all-Holds ops (with_capacity cap) sid [] c m
        (sym (take_all (max cap 1) [] (omega arith))) in
    ap (take limit) (rw (held, ← m) at holds) ∙ take-take limit (max cap 1) (newest sid [] ops)
