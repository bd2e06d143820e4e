-- ===== src/Parser/Grammar.antt =====
-- crates/parser/src/lib.rs: the grammar of types, which `parse_type` reads: what is written, its tokens
-- with any others behind them, and the type that it stands for.
use maka.Base.{ℕ, suc, ◌+◌, Bool, List, [], ◌∷◌, Bytes, if◌then◌else◌}
use maka.Base.Int.{ℤ}
use maka.Ast.Types.{
  Mutness, default, const, mut, TypeExpr, TypeExprs, nil, cons, named, assoc_path, generic, fn_ptr,
}
use maka.Ast.Types as Ast
use maka.Lexer.Token.{
  Span, Token, TokKind, int, ident, mut_kw, const_kw, raw_kw, own_kw, dyn_kw, some_kw, colon_colon,
  lparen, rparen, lbracket, rbracket, comma, plus, star, amp, lt, gt,
}

abbrev pub tok : TokKind → Span → Token
tok k s = record { kind = k; span = s }

-- The span of a comma, which no type keeps.
abbrev pub zero_span : Span
zero_span = record { start = 0; end = 0; line = 0; col = 0 }

-- `::Seg`, with the span of the name.
abbrev pub Segs : Type 0
Segs = List (Bytes × Span)

mutual
  pub data Ty : Type 0 where
    path : Bytes → Span → Segs → Ty
    applied : Bytes → Span → Tys → Segs → Ty
    unit : Span → Ty
    exists_one : Bool → Bytes → Span → Ty
    exists_all : Bool → Bytes → List Bytes → Span → Ty
    ref ptr raw own : Mutness → Ty → Span → Ty
    strict : Mutness → Ty → Span → Ty
    slice : Bool → Ty → Span → Ty
    vec : Ty → Span → Ty
    array : ℤ → Ty → Span → Ty
    thunk : Bytes → Span → Segs → Span → Ty
    function : Bytes → Span → Segs → Tys → Span → Ty

  pub data Tys : Type 0 where
    one : Ty → Tys
    more : Ty → Tys → Tys

abbrev pub seg_tokens : Segs → List Token → List Token
seg_tokens [] rest = rest
seg_tokens ((name, s) ∷ segs) rest = tok colon_colon s ∷ tok (ident name) s ∷ seg_tokens segs rest

abbrev pub mut_tokens : Mutness → Span → List Token → List Token
mut_tokens default s rest = rest
mut_tokens const s rest = tok const_kw s ∷ rest
mut_tokens mut s rest = tok mut_kw s ∷ rest

-- The names behind the first.
abbrev pub plus_tokens : List Bytes → Span → List Token → List Token
plus_tokens [] s rest = rest
plus_tokens (n ∷ ns) s rest = tok plus s ∷ tok (ident n) s ∷ plus_tokens ns s rest

abbrev pub quantifier : Bool → TokKind
quantifier locked = if locked then some_kw else dyn_kw

unfoldable mutual
  pub print : Ty → List Token → List Token
  print (path n s segs) rest = tok (ident n) s ∷ seg_tokens segs rest
  print (applied n s ts segs) rest =
      tok (ident n) s ∷ tok lt s ∷ print_all ts (tok gt s ∷ seg_tokens segs rest)
  print (unit s) rest = tok lparen s ∷ tok rparen s ∷ rest
  print (exists_one locked n s) rest = tok (quantifier locked) s ∷ tok (ident n) s ∷ rest
  print (exists_all locked n ns s) rest =
      tok (quantifier locked) s
      ∷ tok lparen s
      ∷ tok (ident n) s
      ∷ plus_tokens ns s (tok rparen s ∷ rest)
  print (ref m t s) rest = tok amp s ∷ mut_tokens m s (print t rest)
  print (ptr m t s) rest = tok star s ∷ mut_tokens m s (print t rest)
  print (raw m t s) rest = tok raw_kw s ∷ tok star s ∷ mut_tokens m s (print t rest)
  print (own m t s) rest = tok own_kw s ∷ tok star s ∷ mut_tokens m s (print t rest)
  print (strict m t s) rest = tok own_kw s ∷ tok amp s ∷ mut_tokens m s (print t rest)
  print (slice is_mut t s) rest =
      tok lbracket s
      ∷ tok rbracket s
      ∷ mut_tokens (if is_mut then mut else default) s (print t rest)
  print (vec t s) rest = tok lbracket s ∷ tok star s ∷ tok rbracket s ∷ print t rest
  print (array n t s) rest = tok lbracket s ∷ tok (int n) s ∷ tok rbracket s ∷ print t rest
  print (thunk n s segs open_s) rest =
      tok (ident n) s ∷ seg_tokens segs (tok lparen open_s ∷ tok rparen open_s ∷ rest)
  print (function n s segs ts open_s) rest =
      tok (ident n) s
      ∷ seg_tokens segs (tok lparen open_s ∷ print_all ts (tok rparen open_s ∷ rest))

  pub print_all : Tys → List Token → List Token
  print_all (one t) rest = print t rest
  print_all (more t ts) rest = print t (tok comma zero_span ∷ print_all ts rest)

-- The segments are applied from the left.
abbrev pub with_segs : TypeExpr → Segs → TypeExpr
with_segs base [] = base
with_segs base ((name, s) ∷ segs) = with_segs (assoc_path base name s) segs

unfoldable mutual
  pub meaning : Ty → TypeExpr
  meaning (path n s segs) = with_segs (named n s) segs
  meaning (applied n s ts segs) = with_segs (generic n (meanings ts) s) segs
  meaning (unit s) = Ast.unit s
  meaning (exists_one locked n s) = Ast.dyn (n ∷ []) locked s
  meaning (exists_all locked n ns s) = Ast.dyn (n ∷ ns) locked s
  meaning (ref m t s) = Ast.ref m (meaning t) s
  meaning (ptr m t s) = Ast.ptr m (meaning t) s
  meaning (raw m t s) = Ast.raw_ptr m (meaning t) s
  meaning (own m t s) = Ast.own_ptr m (meaning t) s
  meaning (strict m t s) = Ast.heap (meaning t) s
  meaning (slice is_mut t s) = Ast.slice (if is_mut then mut else default) (meaning t) s
  meaning (vec t s) = Ast.vec (meaning t) s
  meaning (array n t s) = Ast.array n (meaning t) s
  meaning (thunk n s segs open_s) = fn_ptr (with_segs (named n s) segs) nil open_s
  meaning (function n s segs ts open_s) = fn_ptr (with_segs (named n s) segs) (meanings ts) open_s

  pub meanings : Tys → TypeExprs
  meanings (one t) = cons (meaning t) nil
  meanings (more t ts) = cons (meaning t) (meanings ts)

abbrev pub seg_need : Segs → ℕ
seg_need [] = 1
seg_need (_ ∷ segs) = suc (seg_need segs)

abbrev pub name_need : List Bytes → ℕ
name_need [] = 1
name_need (_ ∷ ns) = suc (name_need ns)

-- A fuel that is enough.
unfoldable mutual
  pub need : Ty → ℕ
  need (path n s segs) = 3 + seg_need segs
  need (applied n s ts segs) = 6 + (need_all ts + seg_need segs)
  need (unit s) = 3
  need (exists_one locked n s) = 3
  need (exists_all locked n ns s) = 3 + name_need ns
  need (ref m t s) = 3 + need t
  need (ptr m t s) = 3 + need t
  need (raw m t s) = 3 + need t
  need (own m t s) = 3 + need t
  need (strict m t s) = 3 + need t
  need (slice is_mut t s) = 5 + need t
  need (vec t s) = 5 + need t
  need (array n t s) = 5 + need t
  need (thunk n s segs open_s) = 4 + seg_need segs
  need (function n s segs ts open_s) = 4 + (need_all ts + seg_need segs)

  pub need_all : Tys → ℕ
  need_all (one t) = 1 + need t
  need_all (more t ts) = 1 + (need t + need_all ts)
