-- ===== src/Hir/Complete.antt =====
-- crates/sema/src/hir.rs: `receiver_unify_impl` on the types that a substitution makes of a pattern.
use maka.Base.{
  Bool, true, false, ◌&&◌, List, [], ◌∷◌, Option, none, some, Bytes, bytes_eq, bytes_eq_iff, ==_iff,
  ◌≡◌, refl, sym, subst, Bool-cases, Option-cases, inl, inr,
}
use maka.Ctfe.Division.{int_eq_iff}
use maka.Ctfe.Outcome.{Table, get, insert}
use maka.Hir.Instance.{some-same}
use maka.Hir.Types.{
  HType, int, float, bool, char, unit, str, null_t, sized_float, sized_int, struct, enum, ref, ptr,
  raw_ptr, own_ptr, slice, heap, vec, array, dyn, fn_ptr, ty_var, generic_pattern, assoc_type,
  rust_opaque, HTypes, nil, cons, bool_eq, names_eq, hint_eq, type_eq, types_eq, subst_vars,
}
use maka.Hir.Unify.{SymTab, contains, bind_var, unify, receiver_unify_impl}

both : {s t : Bool} → s ≡ true → t ≡ true → (s && t) ≡ true
both h j = rw h j

bool_eq_refl : (b : Bool) → bool_eq b b ≡ true
bool_eq_refl true = refl
bool_eq_refl false = refl

bytes_eq_refl : (a : Bytes) → bytes_eq a a ≡ true
bytes_eq_refl a = (bytes_eq_iff a a).1 refl

names_eq_refl : (ns : List Bytes) → names_eq ns ns ≡ true
unfolding names_eq
names_eq_refl [] = refl
names_eq_refl (n ∷ ns) = both (bytes_eq_refl n) (names_eq_refl ns)

hint_eq_refl : (h : Option Bytes) → hint_eq h h ≡ true
unfolding hint_eq
hint_eq_refl none = refl
hint_eq_refl (some a) = bytes_eq_refl a

mutual
  unfolding type_eq

  type_eq_refl : (t : HType) → type_eq t t ≡ true
  type_eq_refl int = refl
  type_eq_refl float = refl
  type_eq_refl bool = refl
  type_eq_refl char = refl
  type_eq_refl unit = refl
  type_eq_refl str = refl
  type_eq_refl null_t = refl
  type_eq_refl (sized_float a) = (==_iff a a).1 refl
  type_eq_refl (sized_int s a) = both (bool_eq_refl s) ((==_iff a a).1 refl)
  type_eq_refl (struct a) = (==_iff a a).1 refl
  type_eq_refl (enum a) = (==_iff a a).1 refl
  type_eq_refl (ref m t) = both (bool_eq_refl m) (type_eq_refl t)
  type_eq_refl (ptr m t) = both (bool_eq_refl m) (type_eq_refl t)
  type_eq_refl (raw_ptr m t) = both (bool_eq_refl m) (type_eq_refl t)
  type_eq_refl (own_ptr m t) = both (bool_eq_refl m) (type_eq_refl t)
  type_eq_refl (slice m t) = both (bool_eq_refl m) (type_eq_refl t)
  type_eq_refl (heap t) = type_eq_refl t
  type_eq_refl (vec t) = type_eq_refl t
  type_eq_refl (array n t) = both ((int_eq_iff n n).1 refl) (type_eq_refl t)
  type_eq_refl (dyn ns a) = both (names_eq_refl ns) (bool_eq_refl a)
  type_eq_refl (fn_ptr t ts) = both (type_eq_refl t) (types_eq_refl ts)
  type_eq_refl (ty_var a) = bytes_eq_refl a
  type_eq_refl (generic_pattern a ts e) =
      both (both (bytes_eq_refl a) (types_eq_refl ts)) (bool_eq_refl e)
  type_eq_refl (assoc_type t a h) = both (both (type_eq_refl t) (bytes_eq_refl a)) (hint_eq_refl h)
  type_eq_refl (rust_opaque a) = bytes_eq_refl a

  types_eq_refl : (ts : HTypes) → types_eq ts ts ≡ true
  types_eq_refl nil = refl
  types_eq_refl (cons t ts) = both (type_eq_refl t) (types_eq_refl ts)

-- Every binding is the one of the substitution.
unfoldable pub Agrees : Table HType → Table HType → Type 0
Agrees s env = (n : Bytes) (t : HType) → get env n ≡ some t → subst_vars s (ty_var n) ≡ t

module _ (tyvars : List Bytes) where
  -- A pattern of the types that the unification lists, with variables among `tyvars`; generic
  -- patterns are left out.
  unfoldable pub listed : HType → Bool
  unfolding contains
  listed (ty_var n) = contains tyvars n
  listed int = true
  listed bool = true
  listed char = true
  listed float = true
  listed str = true
  listed unit = true
  listed (sized_int _ _) = true
  listed (struct _) = true
  listed (enum _) = true
  listed (ref _ t) = listed t
  listed (ptr _ t) = listed t
  listed (raw_ptr _ t) = listed t
  listed (own_ptr _ t) = listed t
  listed (heap t) = listed t
  listed (slice _ t) = listed t
  listed (array _ t) = listed t
  listed (vec t) = listed t
  listed _ = false

  module _ (tab : Option SymTab) (s : Table HType) where
    -- The unification has a result that agrees with the substitution.
    Unifies : HType → HType → Table HType → Type 0
    Unifies p u env = (env1 : Table HType) × (unify tyvars tab p u env ≡ some env1) × Agrees s env1

    insert-Agrees :
        (n : Bytes) (env : Table HType)
        → Agrees s env
        → Agrees s (insert n (subst_vars s (ty_var n)) env)
    unfolding Agrees get
    insert-Agrees n env a m t h = elim (Bool-cases (bytes_eq n m)) [
      | inl e ↦
          let q : n ≡ m = (bytes_eq_iff n m).0 e in
          let f : some (subst_vars s (ty_var n)) ≡ some t = rw (e, get) at h in
          subst (λ x. subst_vars s (ty_var x) ≡ t) q (some-same (subst_vars s (ty_var n)) t f)
      | inr e ↦ a m t (rw (e, get) at h)
    ]

    bind_var-Unifies :
        (n : Bytes) (env : Table HType)
        → Agrees s env
        → (env1 : Table HType) × (bind_var n (subst_vars s (ty_var n)) env ≡ some env1)
          × Agrees s env1
    unfolding Agrees bind_var
    bind_var-Unifies n env a = elim (Option-cases (get env n)) [
      | inl e ↦
          (insert n (subst_vars s (ty_var n)) env, rw (e, bind_var) refl, insert-Agrees n env a)
      | inr (prev, e) ↦
          let p : type_eq prev (subst_vars s (ty_var n)) ≡ true =
            subst (λ x. type_eq prev x ≡ true) (sym (a n prev e)) (type_eq_refl prev) in
          (env, rw (e, bind_var, p) refl, a)
    ]

    unify-Unifies :
        (p : HType) (env : Table HType)
        → listed p ≡ true
        → Agrees s env
        → Unifies p (subst_vars s p) env
    unfolding Unifies unify listed subst_vars
    unify-Unifies (ty_var n) env h a =
        let (e1, q, a1) = bind_var-Unifies n env a in (e1, rw h q, a1)
    unify-Unifies int env h a = (env, refl, a)
    unify-Unifies bool env h a = (env, refl, a)
    unify-Unifies char env h a = (env, refl, a)
    unify-Unifies float env h a = (env, refl, a)
    unify-Unifies str env h a = (env, refl, a)
    unify-Unifies unit env h a = (env, refl, a)
    unify-Unifies (sized_int b n) env h a =
        (env, rw (both (bool_eq_refl b) ((==_iff n n).1 refl)) refl, a)
    unify-Unifies (struct n) env h a = (env, rw ((==_iff n n).1 refl) refl, a)
    unify-Unifies (enum n) env h a = (env, rw ((==_iff n n).1 refl) refl, a)
    unify-Unifies (ref m t) env h a =
        let (e1, q, a1) = unify-Unifies t env h a in (e1, rw (bool_eq_refl m) q, a1)
    unify-Unifies (ptr m t) env h a =
        let (e1, q, a1) = unify-Unifies t env h a in (e1, rw (bool_eq_refl m) q, a1)
    unify-Unifies (raw_ptr m t) env h a =
        let (e1, q, a1) = unify-Unifies t env h a in (e1, rw (bool_eq_refl m) q, a1)
    unify-Unifies (own_ptr m t) env h a =
        let (e1, q, a1) = unify-Unifies t env h a in (e1, rw (bool_eq_refl m) q, a1)
    unify-Unifies (slice m t) env h a =
        let (e1, q, a1) = unify-Unifies t env h a in (e1, rw (bool_eq_refl m) q, a1)
    unify-Unifies (heap t) env h a = unify-Unifies t env h a
    unify-Unifies (vec t) env h a = unify-Unifies t env h a
    unify-Unifies (array n t) env h a =
        let (e1, q, a1) = unify-Unifies t env h a in (e1, rw ((int_eq_iff n n).1 refl) q, a1)
    unify-Unifies _ env h a = absurd (cc)

-- A receiver pattern made of the types that the unification lists, and of variables among `tyvars`,
-- unifies with every type that a substitution makes of it, and each binding that comes back is the
-- one of the substitution.
pub receiver_unify_impl-Agrees :
    (pat : HType) (tyvars : List Bytes) (tab : Option SymTab) (s : Table HType)
    → listed tyvars pat ≡ true
    → (env : Table HType) × (receiver_unify_impl pat (subst_vars s pat) tyvars tab ≡ some env)
      × Agrees s env
unfolding receiver_unify_impl Unifies Agrees get
receiver_unify_impl-Agrees pat tyvars tab s h =
    unify-Unifies tyvars tab s pat [] h (λ n t e. absurd (cc))
