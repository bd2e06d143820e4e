-- ===== src/Fmt/Checked.antt =====
-- crates/fmt/src/lib.rs: `lex_kinds` and `format_checked`.
use maka.Base.{ℕ, List, map, Bytes, length, bytes_eq, if◌then◌else◌}
use maka.Fmt.Kinds.{kinds_eq}
use maka.Fmt.Layout.{format}
use maka.Lexer.Next.{tokenize}
use maka.Lexer.Token.{TokKind, LexError, Result, ok, err, panicked, out_of_fuel, ◌>>=◌}

unfoldable pub lex_kinds : Bytes → Result (List TokKind)
unfolding tokenize
lex_kinds src = tokenize src >>= (λ toks. ok (map (λ t. t.kind) toks))

-- The error's text is a constructor for each `format!`.
pub data FormatError : Type 0 where
  input_does_not_lex : LexError → FormatError
  unlexable_output : LexError → FormatError
  changed_token_stream : ℕ → ℕ → FormatError

-- `Result<String, String>`; the last two are the lexer's.
pub data Checked : Type 0 where
  formatted : Bytes → Checked
  refused : FormatError → Checked
  lexer_panicked lexer_out_of_fuel : Checked

-- From `let after = …` on.
unfoldable pub check_after : Bytes → List TokKind → Result (List TokKind) → Checked
unfolding kinds_eq
check_after out before (ok after) =
    if kinds_eq before after
    then formatted out
    else refused (changed_token_stream (length before) (length after))
check_after out before (err e) = refused (unlexable_output e)
check_after out before panicked = lexer_panicked
check_after out before out_of_fuel = lexer_out_of_fuel

-- From `let before = …` on.
unfoldable pub check_before : Bytes → Result (List TokKind) → Checked
unfolding check_after lex_kinds
check_before out (ok before) = check_after out before (lex_kinds out)
check_before out (err e) = refused (input_does_not_lex e)
check_before out panicked = lexer_panicked
check_before out out_of_fuel = lexer_out_of_fuel

unfoldable pub format_checked : Bytes → Checked
unfolding format bytes_eq check_before lex_kinds
format_checked src =
    let out = format src in
    if bytes_eq out src then formatted out else check_before out (lex_kinds src)
