-- ===== src/Hir/Equal.antt =====
-- crates/sema/src/hir.rs: what the equality test of types says.
use maka.Base.{
  Bool, true, false, ◌&&◌, List, [], ◌∷◌, Option, none, some, Bytes, bytes_eq, bytes_eq_iff, ◌==◌,
  ==_iff, ◌≡◌, refl, ap,
}
use maka.Ctfe.Division.{int_eq_iff}
use maka.Ctfe.Word.{int_eq}
use maka.Hir.Types.{
  HType, int, float, bool, char, unit, str, null_t, sized_float, sized_int, struct, enum, ref, ptr,
  raw_ptr, own_ptr, slice, heap, vec, array, dyn, fn_ptr, ty_var, generic_pattern, assoc_type,
  rust_opaque, HTypes, nil, cons, bool_eq, names_eq, hint_eq, type_eq, types_eq,
}

pub and_both : (s t : Bool) → (s && t) ≡ true → (s ≡ true) × (t ≡ true)
and_both true t h = (refl, h)
and_both false t h = cc

pub bool_eq-same : (a b : Bool) → bool_eq a b ≡ true → a ≡ b
bool_eq-same true true h = refl
bool_eq-same true false h = cc
bool_eq-same false true h = cc
bool_eq-same false false h = refl

names_eq-same : (ns ms : List Bytes) → names_eq ns ms ≡ true → ns ≡ ms
unfolding names_eq
names_eq-same [] [] h = refl
names_eq-same (a ∷ ns) (b ∷ ms) h =
    let (p, q) = and_both (bytes_eq a b) (names_eq ns ms) h in
    let e = (bytes_eq_iff a b).0 p in let f = names_eq-same ns ms q in cc
names_eq-same [] (b ∷ ms) h = cc
names_eq-same (a ∷ ns) [] h = cc

hint_eq-same : (h k : Option Bytes) → hint_eq h k ≡ true → h ≡ k
unfolding hint_eq
hint_eq-same none none e = refl
hint_eq-same (some a) (some b) e = ap some ((bytes_eq_iff a b).0 e)
hint_eq-same none (some b) e = cc
hint_eq-same (some a) none e = cc

-- A constructor with a flag and a type.
flagged :
    (k : Bool → HType → HType) (m n : Bool) (t u : HType)
    → (type_eq t u ≡ true → t ≡ u)
    → (bool_eq m n && type_eq t u) ≡ true
    → k m t ≡ k n u
flagged k m n t u ih h =
    let (p, q) = and_both (bool_eq m n) (type_eq t u) h in
    let e = bool_eq-same m n p in let f = ih q in cc

mutual
  unfolding type_eq

  pub type_eq-same : (t u : HType) → type_eq t u ≡ true → t ≡ u
  type_eq-same int int h = refl
  type_eq-same float float h = refl
  type_eq-same bool bool h = refl
  type_eq-same char char h = refl
  type_eq-same unit unit h = refl
  type_eq-same str str h = refl
  type_eq-same null_t null_t h = refl
  type_eq-same (sized_float a) (sized_float b) h = ap sized_float ((==_iff a b).0 h)
  type_eq-same (sized_int s a) (sized_int t b) h =
      let (p, q) = and_both (bool_eq s t) (a == b) h in
      let e = bool_eq-same s t p in let f = (==_iff a b).0 q in cc
  type_eq-same (struct a) (struct b) h = ap struct ((==_iff a b).0 h)
  type_eq-same (enum a) (enum b) h = ap enum ((==_iff a b).0 h)
  type_eq-same (ref m t) (ref n u) h = flagged ref m n t u (type_eq-same t u) h
  type_eq-same (ptr m t) (ptr n u) h = flagged ptr m n t u (type_eq-same t u) h
  type_eq-same (raw_ptr m t) (raw_ptr n u) h = flagged raw_ptr m n t u (type_eq-same t u) h
  type_eq-same (own_ptr m t) (own_ptr n u) h = flagged own_ptr m n t u (type_eq-same t u) h
  type_eq-same (slice m t) (slice n u) h = flagged slice m n t u (type_eq-same t u) h
  type_eq-same (heap t) (heap u) h = ap heap (type_eq-same t u h)
  type_eq-same (vec t) (vec u) h = ap vec (type_eq-same t u h)
  type_eq-same (array a t) (array b u) h =
      let (p, q) = and_both (int_eq a b) (type_eq t u) h in
      let e = (int_eq_iff a b).0 p in let f = type_eq-same t u q in cc
  type_eq-same (dyn ns a) (dyn ms b) h =
      let (p, q) = and_both (names_eq ns ms) (bool_eq a b) h in
      let e = names_eq-same ns ms p in let f = bool_eq-same a b q in cc
  type_eq-same (fn_ptr t ts) (fn_ptr u us) h =
      let (p, q) = and_both (type_eq t u) (types_eq ts us) h in
      let e = type_eq-same t u p in let f = types_eq-same ts us q in cc
  type_eq-same (ty_var a) (ty_var b) h = ap ty_var ((bytes_eq_iff a b).0 h)
  type_eq-same (generic_pattern a ts x) (generic_pattern b us y) h =
      let (r, s) = and_both (bytes_eq a b && types_eq ts us) (bool_eq x y) h in
      let (p, q) = and_both (bytes_eq a b) (types_eq ts us) r in
      let e = (bytes_eq_iff a b).0 p in
      let f = types_eq-same ts us q in let g = bool_eq-same x y s in cc
  type_eq-same (assoc_type t a x) (assoc_type u b y) h =
      let (r, s) = and_both (type_eq t u && bytes_eq a b) (hint_eq x y) h in
      let (p, q) = and_both (type_eq t u) (bytes_eq a b) r in
      let e = type_eq-same t u p in
      let f = (bytes_eq_iff a b).0 q in let g = hint_eq-same x y s in cc
  type_eq-same (rust_opaque a) (rust_opaque b) h = ap rust_opaque ((bytes_eq_iff a b).0 h)
  type_eq-same _ _ h = cc

  types_eq-same : (ts us : HTypes) → types_eq ts us ≡ true → ts ≡ us
  types_eq-same nil nil h = refl
  types_eq-same (cons t ts) (cons u us) h =
      let (p, q) = and_both (type_eq t u) (types_eq ts us) h in
      let e = type_eq-same t u p in let f = types_eq-same ts us q in cc
  types_eq-same nil (cons u us) h = cc
  types_eq-same (cons t ts) nil h = cc
