-- ===== src/Tests/Sources.antt =====
-- The theorems of the lexer at concrete sources.
use maka.Base.{ℕ, true, all, ◌↔◌, List, [], ◌∷◌, ◌++◌, ◌≡◌, refl, Bytes, codes}
use maka.Lexer.Blocks.{Inside, Unclosed}
use maka.Lexer.Comments.{TriviaRead, skip_trivia-Reads}
use maka.Lexer.Reads.{Reads}
use maka.Lexer.Cursor.{Lexer, new, peek, is_ident_start, is_ident_cont}
use maka.Lexer.Digits.{lexer, parsed, EndsDigits, number-digits}
use maka.Lexer.Next.{tokenize, next_token}
use maka.Lexer.Number.{number, token}
use maka.Lexer.Position.{IsAt, advance, advance-IsAt}
use maka.Lexer.Spans.{All, Located, tokenize-Located}
use maka.Lexer.Strings.{quoted, is_ascii, next_token-quoted, tokenize-panics}
use maka.Lexer.Tiling.{Tiles, tokenize-Tiles}
use maka.Lexer.Token.{Token, Span, ok, panicked, ident, mut_kw, str_lit, eof}
use maka.Lexer.Trivia.{skip_trivia}
use maka.Lexer.Within.{Within}
use maka.Lexer.Words.{ReadsWord, next_token-word}

abbrev source : Bytes
source = codes "mut /* a */ x"

tokenize-Tiles_example : Within (Tiles (new source)) (Inside (new source)) (tokenize source)
tokenize-Tiles_example = tokenize-Tiles source

abbrev place : ℕ → ℕ → ℕ → ℕ → Span
place s e l c = record { start = s; end = e; line = l; col = c }

abbrev two_tokens : List Token
two_tokens =
    record { kind = mut_kw; span = place 0 3 1 1 }
    ∷ record { kind = ident (codes "x"); span = place 12 13 1 13 }
    ∷ record { kind = eof; span = place 13 13 1 14 }
    ∷ []

source-tokens : tokenize source ≡ ok two_tokens
unfolding tokenize
source-tokens = refl

tokenize-Located_example : All (λ t. Located source t.span) two_tokens
tokenize-Located_example = tokenize-Located source two_tokens source-tokens

next_token-quoted_example :
    (next_token
        (record { rest = quoted (codes "a\"\n") (b'"' ∷ codes ";"); cursor = (new []).cursor })
      ≡ ok (
          token (str_lit (codes "a\"\n")) (new []).cursor (record {
            rest = codes ";";
            cursor = advance (quoted (codes "a\"\n") (b'"' ∷ [])) (new []).cursor;
          })))
    ↔ (all is_ascii (codes "a\"\n") ≡ true)
next_token-quoted_example = next_token-quoted (codes "a\"\n") (codes ";") (new []).cursor

starts : is_ident_start (peek source) ≡ true
unfolding is_ident_start
starts = refl

next_token-word_example :
    (t : Token) × (m : Lexer) × (next_token (new source) ≡ ok (t, m)) × ReadsWord (new source) t m
next_token-word_example = next_token-word (new source) starts

semicolon-EndsDigits : EndsDigits (codes ";")
unfolding is_ident_cont
semicolon-EndsDigits = record { no_word = refl; no_fraction = refl }

number-digits_example :
    number (lexer (b'4' ∷ (codes "2" ++ codes ";")) (new []).cursor)
    ≡ parsed (codes "42") (new []).cursor (lexer (codes ";") (advance (codes "42") (new []).cursor))
number-digits_example =
    number-digits b'4' (codes "2") (codes ";") (new []).cursor refl semicolon-EndsDigits

skip_trivia-Reads_example :
    Reads
      (TriviaRead (new (codes " /* /* */ */ x")))
      (Unclosed (new (codes " /* /* */ */ x")))
      (skip_trivia (new (codes " /* /* */ */ x")))
skip_trivia-Reads_example = skip_trivia-Reads (new (codes " /* /* */ */ x"))

tokenize-panics_example : tokenize (quoted (codes "a") (b'\\' ∷ [])) ≡ panicked
tokenize-panics_example = tokenize-panics (codes "a")

advance-IsAt_example : IsAt (codes "a\nb") (advance (codes "a\nb") (new (codes "a\nb")).cursor)
advance-IsAt_example = advance-IsAt (codes "a\nb")
