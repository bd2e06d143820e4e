-- ===== src/Parser/RoundTrip.antt =====
-- crates/parser/src/lib.rs: `parse_type` reads what the grammar of types writes.
use maka.Base.{
  some, length, map, subst, sym, ◌-◌, ◌*◌, ℕ, zero, suc, ◌+◌, ◌≤◌, ◌≡◌, refl, true, false, List, [],
  ◌∷◌, Bytes, arith,
}
use maka.Base.Int.{ℤ}
use maka.Ast.Items.{FuncDecl}
use maka.Ast.Types.{named, generic}
use maka.Ctfe.Fold.{folded, fold_addsub, try_fold_int}
use maka.Ctfe.Outcome.{Table}
use maka.Lexer.Token.{
  Span, Token, TokKind, ident, mut_kw, lparen, rparen, comma, lt, gt, int, rbracket, star, amp,
  some_kw, dyn_kw, raw_kw, own_kw, lbracket,
}
use maka.Parser.Grammar.{
  Ty, Tys, path, applied, unit, exists_one, exists_all, ref, ptr, raw, own, strict, slice, vec,
  array, thunk, function, one, more, zero_span, tok, seg_tokens, print, print_all, meaning,
  meanings, need, need_all,
}
use maka.Parser.Kind.{discriminant}
use maka.Parser.State.{
  Build, state, parsed, peek, fold_here, folding, skip, peek_span, bump, at, eat, expect,
  expect_ident, position,
}
use maka.Parser.Types.{dyn_type, parse_type, fn_params, type_list, generic_type, generic_args}
use maka.Parser.TypeTokens.{
  EndsType, Gives, mut-print, names-print, need-le, segs-print, starts, starts_all,
}

module _ (built : Build) (consts : Table ℤ) (fns : Table FuncDecl) where
  number-fold :
      (n : ℤ) (ks : List TokKind)
      → try_fold_int built.overflow_checks consts fns (int n ∷ rbracket ∷ ks)
        ≡ folded n (rbracket ∷ ks)
  unfolding try_fold_int
  number-fold n ks =
      let fuel : 5 * length (int n ∷ rbracket ∷ ks) + 3
          ≡ suc (suc (suc (suc (5 * length ks + 9)))) =
        omega arith in
      subst
        (λ k.
          fold_addsub built.overflow_checks consts fns k (int n ∷ rbracket ∷ ks)
          ≡ folded n (rbracket ∷ ks))
        (sym fuel) refl

  -- A length that is a number.
  number-print :
      (n : ℤ) (s c : Span) (rest read : List Token)
      → fold_here built consts fns (state read (tok (int n) s ∷ tok rbracket c ∷ rest))
        ≡ parsed (some n) (state (tok (int n) s ∷ read) (tok rbracket c ∷ rest))
  unfolding fold_here folding skip bump discriminant
  number-print n s c rest read =
      let ks : List TokKind = map (λ (t : Token). t.kind) rest in
      let one_more : suc (suc (length ks)) - suc (length ks) ≡ 1 = omega arith in
      rw (number-fold n ks, one_more) refl

  -- The parameters are a list, since no type starts with a `)`.
  params-print :
      (ts : Tys) (f : ℕ) (s : Span) (rest read : List Token)
      → Gives
          (type_list built consts fns f (state read (print_all ts (tok rparen s ∷ rest))))
          (meanings ts)
          (tok rparen s ∷ rest)
      → Gives
          (fn_params built consts fns (suc f) (state read (print_all ts (tok rparen s ∷ rest))))
          (meanings ts)
          (tok rparen s ∷ rest)
  unfolding parse_type at peek
  params-print ts f s rest read (a, ea) =
      let (y, q, e, n) = starts_all ts (tok rparen s ∷ rest) in
      let ea' = rw (e) at ea in (a, rw (e, n.4, ea') refl)

  mutual
    unfolding parse_type print meaning need eat at peek bump expect expect_ident peek_span
        discriminant dyn_type position

    pub type-print :
        (t : Ty) (f : ℕ) (x : Token) (r read : List Token)
        → need t ≤ f
        → EndsType (x.kind)
        → Gives (parse_type built consts fns f (state read (print t (x ∷ r)))) (meaning t) (x ∷ r)
    type-print t zero x r read h k = absurd (omega (arith, h, need-le t))
    type-print t (suc zero) x r read h k = absurd (omega (arith, h, need-le t))
    type-print t (suc (suc zero)) x r read h k = absurd (omega (arith, h, need-le t))
    type-print (path n s []) (suc (suc (suc f))) x r read h k =
        let (a, ea) =
          segs-print [] (named n s) f x r (tok (ident n) s ∷ read) (omega (arith, h)) (k.1) in
        (a, rw (k.0, ea, k.2) refl)
    type-print (path n s (seg ∷ segs)) (suc (suc (suc f))) x r read h k =
        let (a, ea) =
          segs-print (seg ∷ segs) (named n s) f x r (tok (ident n) s ∷ read) (omega (arith, h))
            (k.1) in
        (a, rw (ea, k.2) refl)
    type-print (applied n s ts segs) (suc (suc (suc f))) x r read h k =
        let (a, ea) =
          generic-print n s ts f (seg_tokens segs (x ∷ r)) (tok (ident n) s ∷ read)
            (omega (arith, h)) in
        let (b, eb) =
          segs-print segs (generic n (meanings ts) s) f x r a (omega (arith, h)) (k.1) in
        (b, rw (ea, eb, k.2) refl)
    type-print (unit s) (suc (suc (suc f))) x r read h k =
        (tok rparen s ∷ tok lparen s ∷ read, rw (k.2) refl)
    type-print (exists_one true n s) (suc (suc (suc f))) x r read h k =
        (tok (ident n) s ∷ tok some_kw s ∷ read, rw (k.2) refl)
    type-print (exists_one false n s) (suc (suc (suc f))) x r read h k =
        (tok (ident n) s ∷ tok dyn_kw s ∷ read, rw (k.2) refl)
    type-print (exists_all true n ns s) (suc (suc (suc f))) x r read h k =
        let (a, ea) =
          names-print ns n s s (suc f) (x ∷ r) (tok lparen s ∷ tok some_kw s ∷ read)
            (omega (arith, h)) in
        (tok rparen s ∷ a, rw (ea, k.2) refl)
    type-print (exists_all false n ns s) (suc (suc (suc f))) x r read h k =
        let (a, ea) =
          names-print ns n s s (suc f) (x ∷ r) (tok lparen s ∷ tok dyn_kw s ∷ read)
            (omega (arith, h)) in
        (tok rparen s ∷ a, rw (ea, k.2) refl)
    type-print (ref m t s) (suc (suc (suc f))) x r read h k =
        let (a, ea) = mut-print m s t (x ∷ r) (tok amp s ∷ read) in
        let (b, eb) = type-print t f x r a (omega (arith, h)) k in (b, rw (ea, eb, k.2) refl)
    type-print (ptr m t s) (suc (suc (suc f))) x r read h k =
        let (a, ea) = mut-print m s t (x ∷ r) (tok star s ∷ read) in
        let (b, eb) = type-print t f x r a (omega (arith, h)) k in (b, rw (ea, eb, k.2) refl)
    type-print (raw m t s) (suc (suc (suc f))) x r read h k =
        let (a, ea) = mut-print m s t (x ∷ r) (tok star s ∷ tok raw_kw s ∷ read) in
        let (b, eb) = type-print t (suc f) x r a (omega (arith, h)) k in (b, rw (ea, eb, k.2) refl)
    type-print (own m t s) (suc (suc (suc f))) x r read h k =
        let (a, ea) = mut-print m s t (x ∷ r) (tok star s ∷ tok own_kw s ∷ read) in
        let (b, eb) = type-print t f x r a (omega (arith, h)) k in (b, rw (ea, eb, k.2) refl)
    type-print (strict m t s) (suc (suc (suc f))) x r read h k =
        let (a, ea) = mut-print m s t (x ∷ r) (tok amp s ∷ tok own_kw s ∷ read) in
        let (b, eb) = type-print t f x r a (omega (arith, h)) k in (b, rw (ea, eb, k.2) refl)
    type-print (slice true t s) (suc (suc (suc (suc (suc f))))) x r read h k =
        let (b, eb) =
          type-print t (suc f) x r (tok mut_kw s ∷ tok rbracket s ∷ tok lbracket s ∷ read)
            (omega (arith, h)) k in
        (b, rw (eb, k.2) refl)
    type-print (slice false t s) (suc (suc (suc (suc (suc f))))) x r read h k =
        let (y, q, e, n) = starts t (x ∷ r) in
        let (b, eb) =
          type-print t (suc f) x r (tok rbracket s ∷ tok lbracket s ∷ read) (omega (arith, h)) k in
        let eb' = rw (e) at eb in (b, rw (e, n.1, eb', k.2) refl)
    type-print (vec t s) (suc (suc (suc (suc (suc f))))) x r read h k =
        let (b, eb) =
          type-print t (suc f) x r (tok rbracket s ∷ tok star s ∷ tok lbracket s ∷ read)
            (omega (arith, h)) k in
        (b, rw (eb, k.2) refl)
    type-print (array n t s) (suc (suc (suc (suc (suc f))))) x r read h k =
        let ea = number-print n s s (print t (x ∷ r)) (tok lbracket s ∷ read) in
        let (b, eb) =
          type-print t (suc f) x r (tok rbracket s ∷ tok (int n) s ∷ tok lbracket s ∷ read)
            (omega (arith, h)) k in
        (b, rw (ea, eb, k.2) refl)
    type-print (thunk n s [] o) (suc (suc (suc f))) x r read h k =
        let (a, ea) =
          segs-print [] (named n s) f (tok lparen o) (tok rparen o ∷ x ∷ r) (tok (ident n) s ∷ read)
            (omega (arith, h)) refl in
        (tok rparen o ∷ tok lparen o ∷ a, rw (ea) refl)
    type-print (thunk n s (seg ∷ segs) o) (suc (suc (suc f))) x r read h k =
        let (a, ea) =
          segs-print (seg ∷ segs) (named n s) f (tok lparen o) (tok rparen o ∷ x ∷ r)
            (tok (ident n) s ∷ read) (omega (arith, h)) refl in
        (tok rparen o ∷ tok lparen o ∷ a, rw (ea) refl)
    type-print (function n s [] ts o) (suc (suc (suc f))) x r read h k =
        let (a, ea) =
          segs-print [] (named n s) f (tok lparen o) (print_all ts (tok rparen o ∷ x ∷ r))
            (tok (ident n) s ∷ read) (omega (arith, h)) refl in
        let (b, eb) =
          params-print ts (suc f) o (x ∷ r) (tok lparen o ∷ a)
            (list-print ts (suc f) o (x ∷ r) (tok lparen o ∷ a) (omega (arith, h))) in
        (tok rparen o ∷ b, rw (ea, eb) refl)
    type-print (function n s (seg ∷ segs) ts o) (suc (suc (suc f))) x r read h k =
        let (a, ea) =
          segs-print (seg ∷ segs) (named n s) f (tok lparen o) (print_all ts (tok rparen o ∷ x ∷ r))
            (tok (ident n) s ∷ read) (omega (arith, h)) refl in
        let (b, eb) =
          params-print ts (suc f) o (x ∷ r) (tok lparen o ∷ a)
            (list-print ts (suc f) o (x ∷ r) (tok lparen o ∷ a) (omega (arith, h))) in
        (tok rparen o ∷ b, rw (ea, eb) refl)
    type-print t _ x r read h k = absurd (omega (arith, h, need-le t))

    generic-print :
        (n : Bytes) (s : Span) (ts : Tys) (f : ℕ) (rest read : List Token)
        → 3 + need_all ts ≤ f
        → Gives
            (generic_type built consts fns f n s
              (state read (tok lt s ∷ print_all ts (tok gt s ∷ rest))))
            (generic n (meanings ts) s)
            rest
    generic-print n s ts zero rest read h = absurd (omega (arith, h))
    generic-print n s ts (suc f) rest read h =
        let (a, ea) = args-print ts f s rest (tok lt s ∷ read) (omega (arith, h)) in
        (tok gt s ∷ a, rw (ea) refl)

    args-print :
        (ts : Tys) (f : ℕ) (s : Span) (rest read : List Token)
        → need_all ts ≤ f
        → Gives
            (generic_args built consts fns f (state read (print_all ts (tok gt s ∷ rest))))
            (some (meanings ts))
            (tok gt s ∷ rest)
    args-print (one t) zero s rest read h = absurd (omega (arith, h))
    args-print (more t ts) zero s rest read h = absurd (omega (arith, h))
    args-print (one t) (suc f) s rest read h =
        let (a, ea) = type-print t f (tok gt s) rest read (omega (arith, h)) (refl, refl, refl) in
        (a, rw (ea) refl)
    args-print (more t ts) (suc f) s rest read h =
        let (a, ea) =
          type-print t f (tok comma zero_span) (print_all ts (tok gt s ∷ rest)) read
            (omega (arith, h)) (refl, refl, refl) in
        let (b, eb) = args-print ts f s rest (tok comma zero_span ∷ a) (omega (arith, h)) in
        (b, rw (ea, eb) refl)

    list-print :
        (ts : Tys) (f : ℕ) (s : Span) (rest read : List Token)
        → need_all ts ≤ f
        → Gives
            (type_list built consts fns f (state read (print_all ts (tok rparen s ∷ rest))))
            (meanings ts)
            (tok rparen s ∷ rest)
    list-print (one t) zero s rest read h = absurd (omega (arith, h))
    list-print (more t ts) zero s rest read h = absurd (omega (arith, h))
    list-print (one t) (suc f) s rest read h =
        let (a, ea) =
          type-print t f (tok rparen s) rest read (omega (arith, h)) (refl, refl, refl) in
        (a, rw (ea) refl)
    list-print (more t ts) (suc f) s rest read h =
        let (a, ea) =
          type-print t f (tok comma zero_span) (print_all ts (tok rparen s ∷ rest)) read
            (omega (arith, h)) (refl, refl, refl) in
        let (b, eb) = list-print ts f s rest (tok comma zero_span ∷ a) (omega (arith, h)) in
        (b, rw (ea, eb) refl)
