-- ===== src/Lexer/Words.antt =====
-- crates/lexer/src/lib.rs: identifiers and keywords.
use maka.Base.{true, false, ◌⊎◌, [], ◌++◌, ◌≡◌, ap, Bytes, all}
use maka.Lexer.Cursor.{Lexer, peek, is_ident_start, is_ident_cont}
use maka.Lexer.Next.{word, next_token}
use maka.Lexer.Position.{skip_while-Skips, slice-Consumes}
use maka.Lexer.Token.{Token, keyword, ok}

-- The longest run of identifier bytes at `l` is `text`, and the token's kind is its keyword.
pub record ReadsWord (l : Lexer) (t : Token) (m : Lexer) : Type 0 where
  pub text : Bytes
  pub splits : l.rest ≡ text ++ m.rest
  pub passed : all is_ident_cont text ≡ true
  pub stopped : (m.rest ≡ []) ⊎ (is_ident_cont (peek m.rest) ≡ false)
  pub kind_is : t.kind ≡ keyword text

word-ReadsWord : (l : Lexer) → ReadsWord l (word l).0 (word l).1
unfolding word
word-ReadsWord l =
    let s = skip_while-Skips is_ident_cont l.rest l.cursor in
    record {
      text = s.consumes.bytes;
      splits = s.consumes.splits;
      passed = s.passed;
      stopped = s.stopped;
      kind_is = ap keyword (slice-Consumes s.consumes);
    }

-- At a letter or an underscore `next_token` succeeds: it reads the longest run of letters,
-- digits and underscores, and gives the keyword that the run spells, or an identifier.
pub next_token-word :
    (l : Lexer)
    → is_ident_start (peek l.rest) ≡ true
    → (t : Token) × (m : Lexer) × (next_token l ≡ ok (t, m)) × ReadsWord l t m
unfolding next_token
next_token-word l h = ((word l).0, (word l).1, rw h, word-ReadsWord l)
