-- ===== src/Parser/Skim.antt =====
-- crates/parser/src/lib.rs: the look-ahead that tells a declaration from an expression. A position is
-- the list of the kinds from it on.
use maka.Base.{
  ℕ, zero, suc, ◌+◌, ◌*◌, Bool, true, false, List, [], ◌∷◌, Option, none, some, length, map,
}
use maka.Lexer.Token.{
  Token, TokKind, int, ident, mut_kw, const_kw, constexpr_kw, thread_local_kw, raw_kw, own_kw,
  dyn_kw, some_kw, unit_kw, colon_colon, lparen, rparen, lbracket, rbracket, semicolon, plus, minus,
  star, slash, amp, shr_op, lt, gt, eq,
}
use maka.Parser.State.{P, Parsed, rest_of, pure, no_fuel}

-- An `Option` of a position; `out_of_fuel` has no counterpart in the program.
pub data Skim : Type 0 where
  after : List TokKind → Skim
  no_type out_of_fuel : Skim

abbrev pub Kinds : Type 0
Kinds = List TokKind

abbrev pub skim_then : Skim → (Kinds → Skim) → Skim
skim_then (after ks) k = k ks
skim_then no_type k = no_type
skim_then out_of_fuel k = out_of_fuel

-- The parentheses that are open at the end of the loop, and the position behind it.
unfoldable pub skip_parens : ℕ → Kinds → ℕ × Kinds
skip_parens zero ks = (zero, ks)
skip_parens (suc depth) [] = (suc depth, [])
skip_parens (suc depth) (lparen ∷ ks) = skip_parens (suc (suc depth)) ks
skip_parens (suc depth) (rparen ∷ ks) = skip_parens depth ks
skip_parens (suc depth) (_ ∷ ks) = skip_parens (suc depth) ks

-- The position behind the `>` that closes `depth` of them, if the kinds close exactly these.
unfoldable pub skip_angles : ℕ → Kinds → Option Kinds
skip_angles zero ks = some ks
skip_angles (suc depth) [] = none
skip_angles (suc depth) (lt ∷ ks) = skip_angles (suc (suc depth)) ks
skip_angles (suc depth) (gt ∷ ks) = skip_angles depth ks
skip_angles (suc zero) (shr_op ∷ ks) = none
skip_angles (suc (suc depth)) (shr_op ∷ ks) = skip_angles depth ks
skip_angles (suc depth) (_ ∷ ks) = skip_angles (suc depth) ks

-- `Mut` or `Const`.
abbrev pub skip_mutness : Kinds → Kinds
skip_mutness (mut_kw ∷ ks) = ks
skip_mutness (const_kw ∷ ks) = ks
skip_mutness ks = ks

abbrev pub skip_mut : Kinds → Kinds
skip_mut (mut_kw ∷ ks) = ks
skip_mut ks = ks

-- The kinds of a length, and where they end.
unfoldable pub skip_length : Kinds → Kinds
skip_length (int n ∷ ks) = skip_length ks
skip_length (ident n ∷ ks) = skip_length ks
skip_length (plus ∷ ks) = skip_length ks
skip_length (minus ∷ ks) = skip_length ks
skip_length (star ∷ ks) = skip_length ks
skip_length (slash ∷ ks) = skip_length ks
skip_length (lparen ∷ ks) = skip_length ks
skip_length (rparen ∷ ks) = skip_length ks
skip_length ks = ks

-- `::Seg`, as often as it is there.
unfoldable pub skip_segments : Kinds → Kinds
skip_segments (colon_colon ∷ ident n ∷ ks) = skip_segments ks
skip_segments ks = ks

unfoldable pub skip_generics : Kinds → Kinds
unfolding skip_angles
skip_generics (lt ∷ ks) = elim (skip_angles 1 ks) [ none ↦ lt ∷ ks | some after_it ↦ after_it ]
skip_generics ks = ks

-- Behind a base type.
unfoldable pub skim_fn_params : Kinds → Skim
unfolding skip_parens
skim_fn_params (lparen ∷ ks) =
    let closed = skip_parens 1 ks in
    elim (closed.0) [ zero ↦ after (closed.1) | suc _ ↦ after (lparen ∷ ks) ]
skim_fn_params ks = after ks

unfoldable pub skim_dyn : Kinds → Skim
unfolding skip_parens
skim_dyn (lparen ∷ ks) = after ((skip_parens 1 ks).1)
skim_dyn (ident n ∷ ks) = after ks
skim_dyn _ = no_type

unfoldable mutual
  pub skim_type : ℕ → Kinds → Skim
  skim_type zero ks = out_of_fuel
  skim_type (suc f) ks = skim_then (skim_type_base f ks) skim_fn_params

  pub skim_type_base : ℕ → Kinds → Skim
  skim_type_base zero ks = out_of_fuel
  skim_type_base (suc f) (raw_kw ∷ star ∷ ks) = skim_type f (skip_mutness ks)
  skim_type_base (suc f) (own_kw ∷ star ∷ ks) = skim_type f (skip_mutness ks)
  skim_type_base (suc f) (own_kw ∷ amp ∷ ks) = skim_type f (skip_mutness ks)
  skim_type_base (suc f) (amp ∷ ks) = skim_type f (skip_mutness ks)
  skim_type_base (suc f) (star ∷ ks) = skim_type f (skip_mutness ks)
  skim_type_base (suc f) (lbracket ∷ rbracket ∷ ks) = skim_type f (skip_mut ks)
  skim_type_base (suc f) (lbracket ∷ star ∷ rbracket ∷ ks) = skim_type f ks
  skim_type_base (suc f) (lbracket ∷ int n ∷ ks) = skim_array f (skip_length ks)
  skim_type_base (suc f) (lbracket ∷ ident n ∷ ks) = skim_array f (skip_length ks)
  skim_type_base (suc f) (lbracket ∷ minus ∷ ks) = skim_array f (skip_length ks)
  skim_type_base (suc f) (lbracket ∷ lparen ∷ ks) = skim_array f (skip_length ks)
  skim_type_base (suc f) (lparen ∷ rparen ∷ ks) = after ks
  skim_type_base (suc f) (ident n ∷ ks) = after (skip_segments (skip_generics ks))
  skim_type_base (suc f) (unit_kw ∷ ks) = after (skip_segments (skip_generics ks))
  skim_type_base (suc f) (dyn_kw ∷ ks) = skim_dyn ks
  skim_type_base (suc f) (some_kw ∷ ks) = skim_dyn ks
  skim_type_base (suc f) _ = no_type

  -- Behind a length.
  pub skim_array : ℕ → Kinds → Skim
  skim_array zero ks = out_of_fuel
  skim_array (suc f) (rbracket ∷ ks) = skim_type f ks
  skim_array (suc f) _ = no_type

-- `mut`, `const`, `constexpr` and `thread_local`, as often as they are there.
unfoldable pub skip_modifiers : Kinds → Kinds
skip_modifiers (mut_kw ∷ ks) = skip_modifiers ks
skip_modifiers (const_kw ∷ ks) = skip_modifiers ks
skip_modifiers (constexpr_kw ∷ ks) = skip_modifiers ks
skip_modifiers (thread_local_kw ∷ ks) = skip_modifiers ks
skip_modifiers ks = ks

-- A name and `=` or `;`.
unfoldable pub declares : Kinds → Bool
declares (ident n ∷ eq ∷ ks) = true
declares (ident n ∷ semicolon ∷ ks) = true
declares _ = false

-- A type, and what its skim says of a declaration; the fuel is enough.
unfoldable pub skim_all : Kinds → Skim
unfolding skim_type
skim_all ks = skim_type (2 * length ks + 2) ks

unfoldable pub looks_like_decl_kinds : Kinds → Option Bool
unfolding skim_all skip_modifiers declares
looks_like_decl_kinds ks = elim (skim_all (skip_modifiers ks)) [
  | after rest ↦ some (declares rest)
  | no_type ↦ some false
  | out_of_fuel ↦ none
]

unfoldable pub looks_like_decl : P Bool
unfolding looks_like_decl_kinds
looks_like_decl s =
    elim (looks_like_decl_kinds (map (λ (t : Token). t.kind) (rest_of s))) as (λ _. Parsed Bool) [
      | none ↦ no_fuel s
      | some b ↦ pure b s
    ]
