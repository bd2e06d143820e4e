-- ===== src/Lint/Style.antt =====
-- crates/lint/src/lib.rs: the naming conventions and what the linter owes to a list of names, without
-- its tests and its messages.
use maka.Base.{ℕ, ◌≤◌, List, [], ◌∷◌, ◌++◌, ◌≡◌, ◌≢◌, ◌⊎◌, Bytes, codes}
use maka.Lexer.Spans.{All}
use maka.Lexer.Token.{Span}
use maka.Lint.Names.{Finding, NameKind, type, variant, fn, var, field, module_kind, const}

-- A place where a name stands.
pub record Site : Type 0 where
  pub name : Bytes
  pub span : Span
  pub kind : NameKind

abbrev pub Among : ℕ → ℕ → ℕ → Type 0
Among low high c = (low ≤ c) × (c ≤ high)

abbrev pub Starts : ℕ → ℕ → Bytes → Type 0
Starts low high [] = ⊥
Starts low high (c ∷ cs) = Among low high c

-- A capital first, and no underscore.
abbrev pub Pascal : Bytes → Type 0
Pascal name = Starts b'A' b'Z' name × All (λ c. c ≢ b'_') name

-- A letter of the range first, and only these letters, digits and underscores.
abbrev pub Cased : ℕ → ℕ → Bytes → Type 0
Cased low high name =
    Starts low high name × All (λ c. Among low high c ⊎ (Among b'0' b'9' c ⊎ (c ≡ b'_'))) name

abbrev pub Snake : Bytes → Type 0
Snake name = Cased b'a' b'z' name

abbrev pub Screaming : Bytes → Type 0
Screaming name = Cased b'A' b'Z' name

-- The convention of a kind of names.
abbrev pub Follows : NameKind → Bytes → Type 0
Follows type name = Pascal name
Follows variant name = Pascal name
Follows fn name = Snake name
Follows var name = Snake name ⊎ Screaming name
Follows field name = Snake name
Follows module_kind name = Snake name
Follows const name = Screaming name

-- A name that the convention does not bind.
abbrev pub Exempt : Bytes → Type 0
Exempt name = Starts b'_' b'_' name

abbrev pub topic : NameKind → Bytes
topic type = codes "type"
topic variant = codes "variant"
topic fn = codes "fn"
topic var = codes "var"
topic field = codes "field"
topic module_kind = codes "module"
topic const = codes "const"

-- The finding has the name, its line and column and the rule, and its message quotes the name.
pub record Reported (s : Site) (f : Finding) : Type 0 where
  pub name_is : f.name ≡ s.name
  pub line_is : f.line ≡ s.span.line
  pub col_is : f.col ≡ s.span.col
  pub rule_is : f.rule ≡ codes "naming/" ++ topic s.kind
  pub before : Bytes
  pub after : Bytes
  pub quotes : f.msg ≡ before ++ b'`' ∷ (s.name ++ b'`' ∷ after)

-- The findings are one for each name that breaks its convention, and no other, in the names' order.
pub data Reports : List Site → List Finding → Type 0 where
  nothing : Reports [] []
  exempt :
      {s : Site} {ss : List Site} {fs : List Finding}
      → Exempt s.name
      → Reports ss fs
      → Reports (s ∷ ss) fs
  follows :
      {s : Site} {ss : List Site} {fs : List Finding}
      → Follows s.kind s.name
      → Reports ss fs
      → Reports (s ∷ ss) fs
  breaks :
      {s : Site} {f : Finding} {ss : List Site} {fs : List Finding}
      → ¬ Exempt s.name
      → ¬ Follows s.kind s.name
      → Reported s f
      → Reports ss fs
      → Reports (s ∷ ss) (f ∷ fs)
