-- ===== src/Parser/SkimTypes.antt =====
-- crates/parser/src/lib.rs: the look-ahead at types stops behind a type of the grammar.
use maka.Base.{
  ℕ, zero, suc, ◌+◌, ◌*◌, ◌≤◌, ◌≡◌, refl, ap, true, false, List, [], ◌∷◌, some, length, arith,
}
use maka.Ast.Types.{Mutness, default, const, mut}
use maka.Lexer.Token.{
  Span, Token, TokKind, colon_colon, lparen, rparen, lt, gt, mut_kw, const_kw, constexpr_kw,
  thread_local_kw,
}
use maka.Parser.Grammar.{
  Ty, Tys, path, applied, unit, exists_one, exists_all, ref, ptr, raw, own, strict, slice, vec,
  array, thunk, function, tok, seg_tokens, mut_tokens, print, print_all,
}
use maka.Parser.Kind.{same_kind, discriminant}
use maka.Parser.TypeTokens.{EndsType, NoMut, starts}
use maka.Parser.Skim.{
  after, Kinds, skip_parens, skip_angles, skip_mutness, skip_mut, skip_length, skip_segments,
  skip_generics, skim_fn_params, skim_dyn, skim_type, skim_all, skip_modifiers,
}
use maka.Parser.SkimPrint.{
  kinds, angles_print_all, parens_print_all, parens_names, segs-skip, params-stop, generics-stop,
}

unfoldable skim_need : Ty → ℕ
skim_need (ref m t s) = 2 + skim_need t
skim_need (ptr m t s) = 2 + skim_need t
skim_need (raw m t s) = 2 + skim_need t
skim_need (own m t s) = 2 + skim_need t
skim_need (strict m t s) = 2 + skim_need t
skim_need (slice is_mut t s) = 2 + skim_need t
skim_need (vec t s) = 2 + skim_need t
skim_need (array n t s) = 3 + skim_need t
skim_need _ = 2

mut_tokens-le :
    (m : Mutness) (s : Span) (rest : List Token)
    → length (kinds rest) ≤ length (kinds (mut_tokens m s rest))
mut_tokens-le default s rest = omega arith
mut_tokens-le const s rest = omega arith
mut_tokens-le mut s rest = omega arith

skim_need-le : (t : Ty) (rest : List Token) → skim_need t ≤ 2 * length (kinds (print t rest))
unfolding skim_need print
skim_need-le (path n s segs) rest = omega arith
skim_need-le (applied n s ts segs) rest = omega arith
skim_need-le (unit s) rest = omega arith
skim_need-le (exists_one locked n s) rest = omega arith
skim_need-le (exists_all locked n ns s) rest = omega arith
skim_need-le (ref m t s) rest = omega (arith, skim_need-le t rest, mut_tokens-le m s (print t rest))
skim_need-le (ptr m t s) rest = omega (arith, skim_need-le t rest, mut_tokens-le m s (print t rest))
skim_need-le (raw m t s) rest = omega (arith, skim_need-le t rest, mut_tokens-le m s (print t rest))
skim_need-le (own m t s) rest = omega (arith, skim_need-le t rest, mut_tokens-le m s (print t rest))
skim_need-le (strict m t s) rest =
    omega (arith, skim_need-le t rest, mut_tokens-le m s (print t rest))
skim_need-le (slice true t s) rest = omega (arith, skim_need-le t rest)
skim_need-le (slice false t s) rest = omega (arith, skim_need-le t rest)
skim_need-le (vec t s) rest = omega (arith, skim_need-le t rest)
skim_need-le (array n t s) rest = omega (arith, skim_need-le t rest)
skim_need-le (thunk n s segs o) rest = omega arith
skim_need-le (function n s segs ts o) rest = omega arith

mutness-stop :
    (k : TokKind) (ks : Kinds)
    → same_kind k mut_kw ≡ false
    → same_kind k const_kw ≡ false
    → skip_mutness (k ∷ ks) ≡ (k ∷ ks)
unfolding discriminant
mutness-stop mut_kw ks h g = cc
mutness-stop const_kw ks h g = cc
mutness-stop _ ks h g = refl

mut-stop : (k : TokKind) (ks : Kinds) → same_kind k mut_kw ≡ false → skip_mut (k ∷ ks) ≡ (k ∷ ks)
unfolding discriminant
mut-stop mut_kw ks h = cc
mut-stop _ ks h = refl

mut-skip :
    (m : Mutness) (s : Span) (t : Ty) (rest : List Token)
    → skip_mutness (kinds (mut_tokens m s (print t rest))) ≡ kinds (print t rest)
mut-skip const s t rest = refl
mut-skip mut s t rest = refl
mut-skip default s t rest =
    let (x, r, e, h) = starts t rest in rw e (mutness-stop (x.kind) (kinds r) (h.1) (h.2))

slice-skip : (t : Ty) (rest : List Token) → skip_mut (kinds (print t rest)) ≡ kinds (print t rest)
slice-skip t rest = let (x, r, e, h) = starts t rest in rw e (mut-stop (x.kind) (kinds r) (h.1))

generics-closed :
    (ks closed : Kinds) → skip_angles 1 ks ≡ some closed → skip_generics (lt ∷ ks) ≡ closed
unfolding skip_generics
generics-closed ks closed h = rw (h, skip_generics) refl

params-closed :
    (ks rest : Kinds) → skip_parens 1 ks ≡ (zero, rest) → skim_fn_params (lparen ∷ ks) ≡ after rest
unfolding skim_fn_params
params-closed ks rest h = rw (h, skim_fn_params) (ap (λ (p : ℕ × Kinds). after (p.1)) h)

generics-applied :
    (ts : Tys) (s : Span) (rest : List Token)
    → skip_generics (lt ∷ kinds (print_all ts (tok gt s ∷ rest))) ≡ kinds rest
unfolding skip_angles
generics-applied ts s rest =
    generics-closed (kinds (print_all ts (tok gt s ∷ rest))) (kinds rest)
      (angles_print_all ts 0 (tok gt s ∷ rest))

two-le : (t : Ty) → 2 ≤ skim_need t
unfolding skim_need
two-le (path n s segs) = omega arith
two-le (applied n s ts segs) = omega arith
two-le (unit s) = omega arith
two-le (exists_one locked n s) = omega arith
two-le (exists_all locked n ns s) = omega arith
two-le (ref m t s) = omega arith
two-le (ptr m t s) = omega arith
two-le (raw m t s) = omega arith
two-le (own m t s) = omega arith
two-le (strict m t s) = omega arith
two-le (slice is_mut t s) = omega arith
two-le (vec t s) = omega arith
two-le (array n t s) = omega arith
two-le (thunk n s segs o) = omega arith
two-le (function n s segs ts o) = omega arith

-- The look-ahead stops behind a type.
skim-print :
    (t : Ty) (f : ℕ) (x : Token) (r : List Token)
    → skim_need t ≤ f
    → EndsType (x.kind)
    → skim_type f (kinds (print t (x ∷ r))) ≡ after (kinds (x ∷ r))
unfolding skim_type print skim_need skim_fn_params skip_parens skim_dyn skip_length skip_segments
    discriminant
skim-print t zero x r h k = absurd (omega (arith, h, two-le t))
skim-print t (suc zero) x r h k = absurd (omega (arith, h, two-le t))
skim-print (path n s []) (suc (suc f)) x r h k =
    rw (generics-stop (x.kind) (kinds r) (k.0), segs-skip [] x r (k.1))
      (params-stop (x.kind) (kinds r) (k.2))
skim-print (path n s (seg ∷ segs)) (suc (suc f)) x r h k =
    rw (generics-stop colon_colon _ refl, segs-skip (seg ∷ segs) x r (k.1))
      (params-stop (x.kind) (kinds r) (k.2))
skim-print (applied n s ts segs) (suc (suc f)) x r h k =
    rw (generics-applied ts s (seg_tokens segs (x ∷ r)), segs-skip segs x r (k.1))
      (params-stop (x.kind) (kinds r) (k.2))
skim-print (unit s) (suc (suc f)) x r h k = params-stop (x.kind) (kinds r) (k.2)
skim-print (exists_one true n s) (suc (suc f)) x r h k = params-stop (x.kind) (kinds r) (k.2)
skim-print (exists_one false n s) (suc (suc f)) x r h k = params-stop (x.kind) (kinds r) (k.2)
skim-print (exists_all true n ns s) (suc (suc f)) x r h k =
    rw (parens_names ns s 0 (tok rparen s ∷ x ∷ r)) (params-stop (x.kind) (kinds r) (k.2))
skim-print (exists_all false n ns s) (suc (suc f)) x r h k =
    rw (parens_names ns s 0 (tok rparen s ∷ x ∷ r)) (params-stop (x.kind) (kinds r) (k.2))
skim-print (ref m t s) (suc (suc f)) x r h k =
    rw (mut-skip m s t (x ∷ r), skim-print t f x r (omega (arith, h)) k)
      (params-stop (x.kind) (kinds r) (k.2))
skim-print (ptr m t s) (suc (suc f)) x r h k =
    rw (mut-skip m s t (x ∷ r), skim-print t f x r (omega (arith, h)) k)
      (params-stop (x.kind) (kinds r) (k.2))
skim-print (raw m t s) (suc (suc f)) x r h k =
    rw (mut-skip m s t (x ∷ r), skim-print t f x r (omega (arith, h)) k)
      (params-stop (x.kind) (kinds r) (k.2))
skim-print (own m t s) (suc (suc f)) x r h k =
    rw (mut-skip m s t (x ∷ r), skim-print t f x r (omega (arith, h)) k)
      (params-stop (x.kind) (kinds r) (k.2))
skim-print (strict m t s) (suc (suc f)) x r h k =
    rw (mut-skip m s t (x ∷ r), skim-print t f x r (omega (arith, h)) k)
      (params-stop (x.kind) (kinds r) (k.2))
skim-print (slice true t s) (suc (suc f)) x r h k =
    rw (skim-print t f x r (omega (arith, h)) k) (params-stop (x.kind) (kinds r) (k.2))
skim-print (slice false t s) (suc (suc f)) x r h k =
    rw (slice-skip t (x ∷ r), skim-print t f x r (omega (arith, h)) k)
      (params-stop (x.kind) (kinds r) (k.2))
skim-print (vec t s) (suc (suc f)) x r h k =
    rw (skim-print t f x r (omega (arith, h)) k) (params-stop (x.kind) (kinds r) (k.2))
skim-print (array n t s) (suc (suc zero)) x r h k = absurd (omega (arith, h, two-le t))
skim-print (array n t s) (suc (suc (suc f))) x r h k =
    rw (skim-print t f x r (omega (arith, h)) k) (params-stop (x.kind) (kinds r) (k.2))
skim-print (thunk n s [] o) (suc (suc f)) x r h k = rw (generics-stop lparen _ refl) refl
skim-print (thunk n s (seg ∷ segs) o) (suc (suc f)) x r h k =
    rw
      (
        generics-stop colon_colon _ refl,
        segs-skip (seg ∷ segs) (tok lparen o) (tok rparen o ∷ x ∷ r) refl,
      )
      refl
skim-print (function n s [] ts o) (suc (suc f)) x r h k = rw (generics-stop lparen _ refl) (
    params-closed (kinds (print_all ts (tok rparen o ∷ x ∷ r))) (kinds (x ∷ r))
      (parens_print_all ts 0 (tok rparen o ∷ x ∷ r)))
skim-print (function n s (seg ∷ segs) ts o) (suc (suc f)) x r h k =
    rw
      (
        generics-stop colon_colon _ refl,
        segs-skip (seg ∷ segs) (tok lparen o) (print_all ts (tok rparen o ∷ x ∷ r)) refl,
      )
      (params-closed (kinds (print_all ts (tok rparen o ∷ x ∷ r))) (kinds (x ∷ r))
        (parens_print_all ts 0 (tok rparen o ∷ x ∷ r)))

modifiers-stop : (k : TokKind) (ks : Kinds) → NoMut k → skip_modifiers (k ∷ ks) ≡ (k ∷ ks)
unfolding skip_modifiers discriminant
modifiers-stop mut_kw ks h = cc
modifiers-stop const_kw ks h = cc
modifiers-stop constexpr_kw ks h = cc
modifiers-stop thread_local_kw ks h = cc
modifiers-stop _ ks h = refl

pub modifiers-print :
    (t : Ty) (rest : List Token) → skip_modifiers (kinds (print t rest)) ≡ kinds (print t rest)
modifiers-print t rest =
    let (x, r, e, h) = starts t rest in rw e (modifiers-stop (x.kind) (kinds r) h)

pub skim_all-print :
    (t : Ty) (x : Token) (r : List Token)
    → EndsType (x.kind)
    → skim_all (kinds (print t (x ∷ r))) ≡ after (kinds (x ∷ r))
unfolding skim_all
skim_all-print t x r k =
    skim-print t (2 * length (kinds (print t (x ∷ r))) + 2) x r
      (omega (arith, skim_need-le t (x ∷ r))) k
