-- ===== src/Parser/Agrees.antt =====
-- crates/parser/src/lib.rs: `parse_type` and the look-ahead at types and declarations agree on the
-- grammar of types.
use maka.Base.{ℕ, ◌≤◌, ◌≡◌, refl, ap, ◌∙◌, Bool, true, List, ◌∷◌, some, Bytes, ◌⊎◌, inl, inr}
use maka.Base.Int.{ℤ}
use maka.Ast.Items.{FuncDecl}
use maka.Ctfe.Outcome.{Table}
use maka.Lexer.Token.{Span, Token, TokKind, ident, eq, semicolon}
use maka.Parser.Grammar.{Ty, tok, print, meaning, need}
use maka.Parser.Kind.{discriminant}
use maka.Parser.TypeTokens.{Gives, EndsType}
use maka.Parser.RoundTrip.{type-print}
use maka.Parser.Skim.{
  after, Kinds, skim_all, skip_modifiers, declares, looks_like_decl_kinds, looks_like_decl,
}
use maka.Parser.SkimPrint.{kinds}
use maka.Parser.Types.{parse_type}
use maka.Parser.State.{Build, state, parsed}
use maka.Parser.SkimTypes.{modifiers-print, skim_all-print}

module _ (built : Build) (consts : Table ℤ) (fns : Table FuncDecl) where
  -- A type of the grammar before a token that does not go on with it, neither `<`, `::` nor `(`:
  -- `parse_type` reads it, with enough fuel, and gives the type it stands for; the look-ahead at types
  -- stops at the same token.
  pub parse_type-print :
      (t : Ty) (f : ℕ) (x : Token) (r read : List Token)
      → need t ≤ f
      → EndsType (x.kind)
      → Gives (parse_type built consts fns f (state read (print t (x ∷ r)))) (meaning t) (x ∷ r)
        × (skim_all (kinds (print t (x ∷ r))) ≡ after (kinds (x ∷ r)))
  parse_type-print t f x r read h k =
      (type-print built consts fns t f x r read h k, skim_all-print t x r k)

kinds-declares :
    (ks rest : Kinds)
    → skim_all (skip_modifiers ks) ≡ after rest
    → looks_like_decl_kinds ks ≡ some (declares rest)
unfolding looks_like_decl_kinds
kinds-declares ks rest h = rw (h, looks_like_decl_kinds) refl

decl-kinds :
    (read rest : List Token) (b : Bool)
    → looks_like_decl_kinds (kinds rest) ≡ some b
    → looks_like_decl (state read rest) ≡ parsed b (state read rest)
unfolding looks_like_decl
decl-kinds read rest b h = rw (h, looks_like_decl) refl

declares-name :
    (name : Bytes) (k : TokKind) (ks : Kinds)
    → (k ≡ eq) ⊎ (k ≡ semicolon)
    → declares (ident name ∷ k ∷ ks) ≡ true
unfolding declares
declares-name name k ks (inl e) = rw e refl
declares-name name k ks (inr e) = rw e refl

-- A declaration `T x = …` or `T x; …` of a type of the grammar is never taken for an expression.
pub looks_like_decl-print :
    (t : Ty) (name : Bytes) (s : Span) (y : Token) (r read : List Token)
    → (y.kind ≡ eq) ⊎ (y.kind ≡ semicolon)
    → looks_like_decl (state read (print t (tok (ident name) s ∷ y ∷ r)))
      ≡ parsed true (state read (print t (tok (ident name) s ∷ y ∷ r)))
unfolding discriminant
looks_like_decl-print t name s y r read h =
    let rest : List Token = tok (ident name) s ∷ y ∷ r in
    let skim : skim_all (skip_modifiers (kinds (print t rest))) ≡ after (kinds rest) =
      rw (modifiers-print t rest)
        (skim_all-print t (tok (ident name) s) (y ∷ r) (refl, refl, refl)) in
    decl-kinds read (print t rest) true (
      kinds-declares (kinds (print t rest)) (kinds rest) skim
      ∙ ap some (declares-name name (y.kind) (kinds r) h))
