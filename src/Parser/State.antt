-- ===== src/Parser/State.antt =====
-- crates/parser/src/lib.rs: the parser's state, its errors, and the helpers that move in the tokens.
use Prim.Native.String.{String}
use maka.Base.{
  ℕ, zero, suc, ◌-◌, Bool, true, false, ◌&&◌, List, [], ◌∷◌, Option, none, some, Bytes, length,
  get_elem?, map, ltb, if◌then◌else◌,
}
use maka.Base.Int.{ℤ}
use maka.Ast.Items.{FuncDecl}
use maka.Ctfe.Fold.{Folded, try_fold_int}
use maka.Ctfe.Fold as Fold
use maka.Ctfe.Outcome.{Table}
use maka.Lexer.Token.{Span, Token, TokKind, eof, gt, shr_op, ident}
use maka.Parser.Kind.{same_kind}

-- `toks` is the tokens read, the last one first, and the tokens from `pos` on: `pos` is how many are
-- read.
pub data State : Type 0 where
  state : List Token → List Token → State

abbrev pub read_of : State → List Token
read_of (state read rest) = read

abbrev pub rest_of : State → List Token
rest_of (state read rest) = rest

-- `expected …, got …` with the kind that is there, or the text.
pub data Message : Type 0 where
  expected : String → TokKind → Message
  message : String → Message

pub record ParseError : Type 0 where
  pub msg : Message
  pub span : Span

-- What the parser's panics depend on, of the compiler as it was built on a host of 64 bits: if
-- arithmetic is checked for overflows, and `size_of::<Expr>()`.
pub record Build : Type 0 where
  pub overflow_checks : Bool
  pub expr_size : ℕ

-- A `Result<A, ParseError>` with the state it leaves. `overflowed` is a panic of the arithmetic of a
-- constant, or of `Vec::with_capacity` at a capacity over `isize::MAX` bytes; `out_of_bounds` is `self.toks[self.pos]` behind the last token; `out_of_fuel` has no
-- counterpart in the program.
pub data Parsed {ℓ} (A : Type ℓ) : Type ℓ where
  parsed : A → State → Parsed A
  failed : ParseError → State → Parsed A
  overflowed out_of_bounds out_of_fuel : Parsed A

abbrev pub P {ℓ} : Type ℓ → Type ℓ
P A = State → Parsed A

module _ {ℓ κ} {A : Type ℓ} {B : Type κ} where
  abbrev pub and_then : Parsed A → (A → P B) → Parsed B
  and_then (parsed a s) k = k a s
  and_then (failed e s) k = failed e s
  and_then overflowed k = overflowed
  and_then out_of_bounds k = out_of_bounds
  and_then out_of_fuel k = out_of_fuel

  infixl 5 ◌>>=◌ ◌>>◌
  abbrev pub ◌>>=◌ : P A → (A → P B) → P B
  (p >>= k) s = and_then (p s) k

  abbrev pub ◌>>◌ : P A → P B → P B
  (p >> q) s = and_then (p s) (λ a. q)

module _ {ℓ} {A : Type ℓ} where
  abbrev pub pure : A → P A
  pure a s = parsed a s

  abbrev pub fail : Message → Span → P A
  fail msg span s = failed (record { msg = msg; span = span }) s

  abbrev pub no_fuel : P A
  no_fuel s = out_of_fuel

  -- `match r { Ok(a) => …, Err(_) => … }`.
  abbrev pub caught : Parsed A → Parsed (Option A)
  caught (parsed a s) = parsed (some a) s
  caught (failed e s) = parsed none s
  caught overflowed = overflowed
  caught out_of_bounds = out_of_bounds
  caught out_of_fuel = out_of_fuel

  abbrev pub attempt : P A → P (Option A)
  attempt p s = caught (p s)

unfoldable pub peek : P TokKind
peek (state read []) = out_of_bounds
peek (state read (t ∷ rest)) = parsed t.kind (state read (t ∷ rest))

abbrev pub kind_or_eof : Option Token → TokKind
kind_or_eof none = eof
kind_or_eof (some t) = t.kind

unfoldable pub peek_at : ℕ → P TokKind
peek_at k s = parsed (kind_or_eof (get_elem? (rest_of s) k)) s

unfoldable pub peek_span : P Span
peek_span (state read []) = out_of_bounds
peek_span (state read (t ∷ rest)) = parsed t.span (state read (t ∷ rest))

unfoldable pub bump : P Token
bump (state read []) = out_of_bounds
bump (state read (t ∷ rest)) =
    parsed t (if same_kind t.kind eof then state read (t ∷ rest) else state (t ∷ read) rest)

unfoldable pub at : TokKind → P Bool
at k = do found ← peek; pure (same_kind found k)

unfoldable pub eat : TokKind → P Bool
eat k = do found ← at k; if found then (bump >> pure true) else pure false

-- `>>` where a `>` is expected: it becomes a `>` that is still to be read.
unfoldable pub split_shr : P Token
split_shr (state read []) = out_of_bounds
split_shr (state read (t ∷ rest)) =
    let half : Token = record { kind = gt; span = t.span } in parsed half (state read (half ∷ rest))

unfoldable pub expect : TokKind → String → P Token
expect k what = do
  found ← at k
  if found then bump else (do
    kind ← peek
    span ← peek_span
    if same_kind k gt && same_kind kind shr_op then split_shr else fail (expected what kind) span)

abbrev pub name_of : TokKind → Option Bytes
name_of (ident name) = some name
name_of _ = none

unfoldable pub expect_ident : String → P (Bytes × Span)
expect_ident what = do
  kind ← peek
  span ← peek_span
  elim (name_of kind) as (λ _. P (Bytes × Span)) [
    | none ↦ fail (expected what kind) span
    | some name ↦ (bump >> pure (name, span))
  ]

-- `let save = self.pos` and `self.pos = save`.
unfoldable pub position : P ℕ
position s = parsed (length (read_of s)) s

unfoldable pub back : ℕ → List Token → List Token → State
back n [] rest = state [] rest
back n (t ∷ read) rest =
    if ltb n (suc (length read)) then back n read (t ∷ rest) else state (t ∷ read) rest

unfoldable pub rewind : ℕ → P (Unit {0})
rewind n s = parsed tt (back n (read_of s) (rest_of s))

-- To bump `n` times.
unfoldable pub skip : ℕ → P (Unit {0})
skip zero = pure tt
skip (suc n) = bump >> skip n

-- `self.try_fold_int()`. Without a value it stays where it is: the callers go back or fail there.
unfoldable pub folding : ℕ → Folded → P (Option ℤ)
folding n (Fold.folded v ts) = skip (n - length ts) >> pure (some v)
folding n Fold.no_value = pure none
folding n Fold.panicked = λ s. overflowed
folding n Fold.out_of_bounds = λ s. out_of_bounds
folding n Fold.out_of_fuel = no_fuel

module _ (built : Build) (consts : Table ℤ) (fns : Table FuncDecl) where
  unfoldable pub fold_here : P (Option ℤ)
  fold_here s =
      let kinds = map (λ (t : Token). t.kind) (rest_of s) in
      folding (length kinds) (try_fold_int built.overflow_checks consts fns kinds) s
