-- ===== src/Lint/Names.antt =====
-- crates/lint/src/lib.rs: the predicates on names, `check` and a finding. A name is its bytes: every
-- test is of ASCII characters, which a byte of a longer character never passes.
use maka.Base.{
  ℕ, Bool, false, not, ◌&&◌, ◌||◌, List, [], ◌∷◌, ◌++◌, Bytes, codes, all, ◌==◌, if◌then◌else◌,
}
use maka.Lexer.Cursor.{within, is_digit}
use maka.Lexer.Token.{Span}

pub record Finding : Type 0 where
  pub line : ℕ
  pub col : ℕ
  pub rule : Bytes
  pub msg : Bytes
  pub name : Bytes

pub data NameKind : Type 0 where
  type variant fn var field module_kind const : NameKind

abbrev pub is_upper : ℕ → Bool
is_upper c = within b'A' b'Z' c

abbrev pub is_lower : ℕ → Bool
is_lower c = within b'a' b'z' c

-- `s.chars().next().map_or(false, f)`.
abbrev pub first_is : Bytes → (ℕ → Bool) → Bool
first_is [] f = false
first_is (c ∷ cs) f = f c

unfoldable pub is_pascal : Bytes → Bool
is_pascal s = first_is s is_upper && all (λ c. not (c == b'_')) s

unfoldable pub is_snake : Bytes → Bool
is_snake s = first_is s is_lower && all (λ c. is_lower c || is_digit c || c == b'_') s

unfoldable pub is_screaming : Bytes → Bool
is_screaming s = first_is s is_upper && all (λ c. is_upper c || is_digit c || c == b'_') s

-- `name.starts_with('_')`.
abbrev pub skip : Bytes → Bool
skip name = first_is name (λ c. c == b'_')

-- The first, second and third component of the tuple in `check`.
unfoldable pub conforms : NameKind → Bytes → Bool
unfolding is_pascal is_snake is_screaming
conforms type name = is_pascal name
conforms variant name = is_pascal name
conforms fn name = is_snake name
conforms var name = is_snake name || is_screaming name
conforms field name = is_snake name
conforms module_kind name = is_snake name
conforms const name = is_screaming name

pub want : NameKind → Bytes
want type = codes "PascalCase"
want variant = codes "PascalCase"
want var = codes "snake_case (or SCREAMING_SNAKE_CASE for a constant)"
want const = codes "SCREAMING_SNAKE_CASE"
want _ = codes "snake_case"

unfoldable pub rule_of : NameKind → Bytes
rule_of type = codes "naming/type"
rule_of variant = codes "naming/variant"
rule_of fn = codes "naming/fn"
rule_of var = codes "naming/var"
rule_of field = codes "naming/field"
rule_of module_kind = codes "naming/module"
rule_of const = codes "naming/const"

-- `NameKind::label`.
pub label : NameKind → Bytes
label type = codes "type"
label variant = codes "enum variant"
label fn = codes "function"
label var = codes "binding"
label field = codes "field"
label module_kind = codes "module segment"
label const = codes "constant"

-- What `check` pushes.
unfoldable pub finding : Bytes → Span → NameKind → Finding
unfolding want rule_of label
finding name span kind = record {
  line = span.line;
  col = span.col;
  rule = rule_of kind;
  msg = label kind ++ (codes " `" ++ (name ++ (codes "` should be " ++ want kind)));
  name = name;
}

-- `out` is the vector that findings are pushed onto.
unfoldable pub check : Bytes → Span → NameKind → List Finding → List Finding
unfolding conforms finding
check name span kind out =
    if skip name
    then out
    else if not (conforms kind name)
    then out ++ finding name span kind ∷ []
    else out
