-- ===== src/Parser/TypeTokens.antt =====
-- crates/parser/src/lib.rs: the parts of a type that `parse_type` reads without calling itself.
use maka.Base.{ℕ, zero, suc, ◌≤◌, ◌≡◌, refl, true, false, List, [], ◌∷◌, Bytes, arith}
use maka.Ast.Types.{Mutness, default, const, mut, TypeExpr}
use maka.Lexer.Token.{
  Span, Token, TokKind, ident, mut_kw, const_kw, constexpr_kw, thread_local_kw, colon_colon, lparen,
  rparen, comma, lt, plus,
}
use maka.Parser.Grammar.{
  Ty, Tys, path, applied, unit, exists_one, exists_all, ref, ptr, raw, own, strict, slice, vec,
  array, thunk, function, one, more, Segs, zero_span, tok, seg_tokens, mut_tokens, plus_tokens,
  print, print_all, with_segs, seg_need, name_need, need, need_all,
}
use maka.Parser.Kind.{same_kind, discriminant}
use maka.Parser.State.{state, Parsed, parsed, peek, peek_span, bump, at, eat, expect_ident}
use maka.Parser.Types.{parse_mutness, trait_names, assoc_segments}

-- The parse gives the value and leaves the tokens.
abbrev pub Gives : {A : Type 0} → Parsed A → A → List Token → Type 0
Gives p a rest = (r : List Token) × (p ≡ parsed a (state r rest))

-- A kind that does not go on with a path.
abbrev EndsPath : TokKind → Type 0
EndsPath k = (same_kind k lt ≡ false) × (same_kind k colon_colon ≡ false)

-- A kind that does not go on with a type.
abbrev pub EndsType : TokKind → Type 0
EndsType k =
    (same_kind k lt ≡ false) × (same_kind k colon_colon ≡ false) × (same_kind k lparen ≡ false)

-- A kind that is no mutability and closes no list.
abbrev pub NoMut : TokKind → Type 0
NoMut k =
    (same_kind k thread_local_kw ≡ false)
    × (same_kind k mut_kw ≡ false)
    × (same_kind k const_kw ≡ false)
    × (same_kind k constexpr_kw ≡ false)
    × (same_kind k rparen ≡ false)

pub starts :
    (t : Ty) (rest : List Token)
    → (x : Token) × (r : List Token) × (print t rest ≡ x ∷ r) × NoMut (x.kind)
unfolding print discriminant
starts (path n s segs) rest = (_, _, refl, (refl, refl, refl, refl, refl))
starts (applied n s ts segs) rest = (_, _, refl, (refl, refl, refl, refl, refl))
starts (unit s) rest = (_, _, refl, (refl, refl, refl, refl, refl))
starts (exists_one true n s) rest = (_, _, refl, (refl, refl, refl, refl, refl))
starts (exists_one false n s) rest = (_, _, refl, (refl, refl, refl, refl, refl))
starts (exists_all true n ns s) rest = (_, _, refl, (refl, refl, refl, refl, refl))
starts (exists_all false n ns s) rest = (_, _, refl, (refl, refl, refl, refl, refl))
starts (ref m t s) rest = (_, _, refl, (refl, refl, refl, refl, refl))
starts (ptr m t s) rest = (_, _, refl, (refl, refl, refl, refl, refl))
starts (raw m t s) rest = (_, _, refl, (refl, refl, refl, refl, refl))
starts (own m t s) rest = (_, _, refl, (refl, refl, refl, refl, refl))
starts (strict m t s) rest = (_, _, refl, (refl, refl, refl, refl, refl))
starts (slice is_mut t s) rest = (_, _, refl, (refl, refl, refl, refl, refl))
starts (vec t s) rest = (_, _, refl, (refl, refl, refl, refl, refl))
starts (array n t s) rest = (_, _, refl, (refl, refl, refl, refl, refl))
starts (thunk n s segs open_s) rest = (_, _, refl, (refl, refl, refl, refl, refl))
starts (function n s segs ts open_s) rest = (_, _, refl, (refl, refl, refl, refl, refl))

pub starts_all :
    (ts : Tys) (rest : List Token)
    → (x : Token) × (r : List Token) × (print_all ts rest ≡ x ∷ r) × NoMut (x.kind)
unfolding print
starts_all (one t) rest = starts t rest
starts_all (more t ts) rest = starts t (tok comma zero_span ∷ print_all ts rest)

need_all-le : (ts : Tys) → 1 ≤ need_all ts
unfolding need
need_all-le (one t) = omega arith
need_all-le (more t ts) = omega arith

no_mut :
    (read : List Token) (x : Token) (r : List Token)
    → NoMut (x.kind)
    → parse_mutness (state read (x ∷ r)) ≡ parsed default (state read (x ∷ r))
unfolding parse_mutness eat at peek
no_mut read x r h = rw (h.0, h.1, h.2, h.3) refl

pub mut-print :
    (m : Mutness) (s : Span) (t : Ty) (rest read : List Token)
    → Gives (parse_mutness (state read (mut_tokens m s (print t rest)))) m (print t rest)
unfolding parse_mutness eat at peek bump discriminant
mut-print const s t rest read = (_, refl)
mut-print mut s t rest read = (_, refl)
mut-print default s t rest read =
    let (x, r, e, h) = starts t rest in (read, rw e (no_mut read x r h))

-- The segments, up to a kind that does not go on with them.
pub segs-print :
    (segs : Segs) (base : TypeExpr) (f : ℕ) (x : Token) (r read : List Token)
    → seg_need segs ≤ f
    → same_kind (x.kind) colon_colon ≡ false
    → Gives
        (assoc_segments f base (state read (seg_tokens segs (x ∷ r))))
        (with_segs base segs)
        (x ∷ r)
unfolding assoc_segments at peek bump expect_ident peek_span discriminant
segs-print [] base zero x r read h k = absurd (omega (arith, h))
segs-print [] base (suc f) x r read h k = (read, rw k refl)
segs-print ((name, s) ∷ segs) base zero x r read h k = absurd (omega (arith, h))
segs-print ((name, s) ∷ segs) base (suc f) x r read h k =
    segs-print segs _ f x r _ (omega (arith, h)) k

pub names-print :
    (ns : List Bytes) (n : Bytes) (s t : Span) (f : ℕ) (rest read : List Token)
    → name_need ns ≤ f
    → Gives
        (trait_names f (state read (tok (ident n) s ∷ plus_tokens ns s (tok rparen t ∷ rest))))
        (n ∷ ns)
        (tok rparen t ∷ rest)
unfolding trait_names at peek bump eat expect_ident peek_span discriminant
names-print [] n s t zero rest read h = absurd (omega (arith, h))
names-print [] n s t (suc f) rest read h = (_, refl)
names-print (m ∷ ns) n s t zero rest read h = absurd (omega (arith, h))
names-print (m ∷ ns) n s t (suc f) rest read h =
    let (r, e) =
      names-print ns m s t f rest (tok plus s ∷ tok (ident n) s ∷ read) (omega (arith, h)) in
    (r, rw e refl)

pub need-le : (t : Ty) → 3 ≤ need t
unfolding need
need-le (path n s segs) = omega arith
need-le (applied n s ts segs) = omega arith
need-le (unit s) = omega arith
need-le (exists_one locked n s) = omega arith
need-le (exists_all locked n ns s) = omega arith
need-le (ref m t s) = omega arith
need-le (ptr m t s) = omega arith
need-le (raw m t s) = omega arith
need-le (own m t s) = omega arith
need-le (strict m t s) = omega arith
need-le (slice is_mut t s) = omega arith
need-le (vec t s) = omega arith
need-le (array n t s) = omega arith
need-le (thunk n s segs open_s) = omega arith
need-le (function n s segs ts open_s) = omega arith
