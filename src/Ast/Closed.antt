-- ===== src/Ast/Closed.antt =====
-- crates/ast/src/lib.rs: where a placeholder is left after substitution, and what is unchanged.
use maka.Base.{
  Bool, true, false, ◌||◌, ◌&&◌, ◌≡◌, refl, ap, Bytes, if◌then◌else◌, arith, Bool-cases, inl, inr,
}
use maka.Ast.Placeholder.{
  is_placeholder, subst_placeholder, subst_each, subst_placeholder_ty, subst_each_ty,
}
use maka.Ast.Types.{
  TypeExpr, named, assoc_path, ref, ptr, raw_ptr, own_ptr, heap, array, slice, vec, unit, dyn,
  generic, fn_ptr, TypeExprs, nil, cons, type_span,
}
use maka.Lexer.Token.{Span}

-- The type names the placeholder somewhere.
unfoldable mutual
  pub has_placeholder : TypeExpr → Bool
  has_placeholder (named n _) = is_placeholder n
  has_placeholder (assoc_path base _ _) = has_placeholder base
  has_placeholder (ref _ t _) = has_placeholder t
  has_placeholder (ptr _ t _) = has_placeholder t
  has_placeholder (raw_ptr _ t _) = has_placeholder t
  has_placeholder (own_ptr _ t _) = has_placeholder t
  has_placeholder (heap t _) = has_placeholder t
  has_placeholder (array _ t _) = has_placeholder t
  has_placeholder (slice _ t _) = has_placeholder t
  has_placeholder (vec t _) = has_placeholder t
  has_placeholder (unit _) = false
  has_placeholder (dyn _ _ _) = false
  has_placeholder (generic _ args _) = any_placeholder args
  has_placeholder (fn_ptr ret params _) = has_placeholder ret || any_placeholder params

  pub any_placeholder : TypeExprs → Bool
  any_placeholder nil = false
  any_placeholder (cons t ts) = has_placeholder t || any_placeholder ts

or_and : (a b c : Bool) → (a && c) || (b && c) ≡ (a || b) && c
or_and true b true = refl
or_and true true false = refl
or_and true false false = refl
or_and false b c = refl

named-has_placeholder :
    (recv : TypeExpr) (n : Bytes) (t : TypeExpr)
    → has_placeholder t ≡ is_placeholder n
    → has_placeholder (if is_placeholder n then recv else t)
      ≡ is_placeholder n && has_placeholder recv
named-has_placeholder recv n t e = elim (Bool-cases (is_placeholder n)) [
  | inl h ↦ rw h
  | inr h ↦ rw h (rw h at e)
]

mutual
  unfolding has_placeholder subst_placeholder_ty

  closed :
      (recv t : TypeExpr)
      → has_placeholder (subst_placeholder_ty recv t) ≡ has_placeholder t && has_placeholder recv
  closed recv (named n sp) = named-has_placeholder recv n (named n sp) refl
  closed recv (assoc_path base _ _) = closed recv base
  closed recv (ref _ t _) = closed recv t
  closed recv (ptr _ t _) = closed recv t
  closed recv (raw_ptr _ t _) = closed recv t
  closed recv (own_ptr _ t _) = closed recv t
  closed recv (heap t _) = closed recv t
  closed recv (array _ t _) = closed recv t
  closed recv (slice _ t _) = closed recv t
  closed recv (vec t _) = closed recv t
  closed recv (unit _) = refl
  closed recv (dyn _ _ _) = refl
  closed recv (generic _ args _) = closed_each recv args
  closed recv (fn_ptr ret params _) =
      rw (closed recv ret, closed_each recv params)
        (or_and (has_placeholder ret) (any_placeholder params) (has_placeholder recv))

  closed_each :
      (recv : TypeExpr) (ts : TypeExprs)
      → any_placeholder (subst_each_ty recv ts) ≡ any_placeholder ts && has_placeholder recv
  closed_each recv nil = refl
  closed_each recv (cons t ts) =
      rw (closed recv t, closed_each recv ts)
        (or_and (has_placeholder t) (any_placeholder ts) (has_placeholder recv))

-- After `subst_placeholder_ty` a placeholder is left exactly if the type had one and the receiver
-- has one: with a receiver that has none, none is left.
pub has_placeholder-subst_placeholder_ty :
    (recv t : TypeExpr)
    → has_placeholder (subst_placeholder_ty recv t) ≡ has_placeholder t && has_placeholder recv
has_placeholder-subst_placeholder_ty recv t = closed recv t

or-false : (a b : Bool) → (a || b) ≡ false → (a ≡ false) × (b ≡ false)
or-false a b h = ground arith

mutual
  unfolding has_placeholder subst_placeholder_ty

  unchanged : (recv t : TypeExpr) → has_placeholder t ≡ false → subst_placeholder_ty recv t ≡ t
  unchanged recv (named n sp) h = rw h
  unchanged recv (assoc_path base s sp) h = ap (λ t. assoc_path t s sp) (unchanged recv base h)
  unchanged recv (ref m t sp) h = ap (λ t. ref m t sp) (unchanged recv t h)
  unchanged recv (ptr m t sp) h = ap (λ t. ptr m t sp) (unchanged recv t h)
  unchanged recv (raw_ptr m t sp) h = ap (λ t. raw_ptr m t sp) (unchanged recv t h)
  unchanged recv (own_ptr m t sp) h = ap (λ t. own_ptr m t sp) (unchanged recv t h)
  unchanged recv (heap t sp) h = ap (λ t. heap t sp) (unchanged recv t h)
  unchanged recv (array n t sp) h = ap (λ t. array n t sp) (unchanged recv t h)
  unchanged recv (slice m t sp) h = ap (λ t. slice m t sp) (unchanged recv t h)
  unchanged recv (vec t sp) h = ap (λ t. vec t sp) (unchanged recv t h)
  unchanged recv (unit _) h = refl
  unchanged recv (dyn _ _ _) h = refl
  unchanged recv (generic n args sp) h = ap (λ ts. generic n ts sp) (unchanged_each recv args h)
  unchanged recv (fn_ptr ret params sp) h =
      let (a, b) = or-false (has_placeholder ret) (any_placeholder params) h in
      rw (unchanged recv ret a, unchanged_each recv params b)

  unchanged_each :
      (recv : TypeExpr) (ts : TypeExprs) → any_placeholder ts ≡ false → subst_each_ty recv ts ≡ ts
  unchanged_each recv nil h = refl
  unchanged_each recv (cons t ts) h =
      let (a, b) = or-false (has_placeholder t) (any_placeholder ts) h in
      rw (unchanged recv t a, unchanged_each recv ts b)

-- A type that does not name `_` is left as it is, whatever other names it has, `Self` too.
pub subst_placeholder_ty-closed :
    (recv t : TypeExpr) → has_placeholder t ≡ false → subst_placeholder_ty recv t ≡ t
subst_placeholder_ty-closed recv t h = unchanged recv t h

agrees_named :
    (c n : Bytes) (sp : Span)
    → has_placeholder (subst_placeholder c (named n sp)) ≡ is_placeholder n && is_placeholder c
unfolding has_placeholder subst_placeholder
agrees_named c n sp = elim (Bool-cases (is_placeholder n)) [ inl h ↦ rw h | inr h ↦ rw h h ]

mutual
  unfolding has_placeholder subst_placeholder

  agrees :
      (c : Bytes) (t : TypeExpr)
      → has_placeholder (subst_placeholder c t) ≡ has_placeholder t && is_placeholder c
  agrees c (named n sp) = agrees_named c n sp
  agrees c (assoc_path base _ _) = agrees c base
  agrees c (ref _ t _) = agrees c t
  agrees c (ptr _ t _) = agrees c t
  agrees c (raw_ptr _ t _) = agrees c t
  agrees c (own_ptr _ t _) = agrees c t
  agrees c (heap t _) = agrees c t
  agrees c (array _ t _) = agrees c t
  agrees c (slice _ t _) = agrees c t
  agrees c (vec t _) = agrees c t
  agrees c (unit _) = refl
  agrees c (dyn _ _ _) = refl
  agrees c (generic _ args _) = agrees_each c args
  agrees c (fn_ptr ret params _) =
      rw (agrees c ret, agrees_each c params)
        (or_and (has_placeholder ret) (any_placeholder params) (is_placeholder c))

  agrees_each :
      (c : Bytes) (ts : TypeExprs)
      → any_placeholder (subst_each c ts) ≡ any_placeholder ts && is_placeholder c
  agrees_each c nil = refl
  agrees_each c (cons t ts) =
      rw (agrees c t, agrees_each c ts)
        (or_and (has_placeholder t) (any_placeholder ts) (is_placeholder c))

type_span-subst : (c : Bytes) (t : TypeExpr) → type_span (subst_placeholder c t) ≡ type_span t
unfolding type_span subst_placeholder
type_span-subst c (named n sp) = ground arith
type_span-subst c _ = refl

-- `subst_placeholder` keeps the span, and leaves a placeholder exactly if the type had one and the
-- concrete name is `_` itself.
pub subst_placeholder_lem :
    (c : Bytes) (t : TypeExpr)
    → (has_placeholder (subst_placeholder c t) ≡ has_placeholder t && is_placeholder c)
      × (type_span (subst_placeholder c t) ≡ type_span t)
subst_placeholder_lem c t = (agrees c t, type_span-subst c t)
