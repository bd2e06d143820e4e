-- ===== src/Lexer/Token.antt =====
-- crates/lexer/src/lib.rs: spans, token kinds, tokens, errors and the keyword table.
use maka.Base.{ℕ, List, [], ◌∷◌, Bytes, bytes_eq, codes, if◌then◌else◌}
use maka.Base.Int.{ℤ}

pub record Span : Type 0 where
  pub start : ℕ
  pub end : ℕ
  pub line : ℕ
  pub col : ℕ

-- A float keeps the text that `parse::<f64>` takes. Keywords end in `_kw`.
pub data TokKind : Type 0 where
  int : ℤ → TokKind
  float : Bytes → TokKind
  str_lit : Bytes → TokKind
  char_lit : ℕ → TokKind
  ident : Bytes → TokKind
  true_kw false_kw null_kw mut_kw const_kw alloc_kw free_kw unsafe_kw extern_kw : TokKind
  cinclude_kw cblock_kw clink_kw rblock_kw rdep_kw raw_kw own_kw attr_kw has_kw : TokKind
  where_kw dyn_kw some_kw export_kw match_kw yield_kw constexpr_kw inline_kw gate_kw : TokKind
  propagate_kw for_kw in_kw break_kw continue_kw dot_dot dot_dot_eq transfer_kw : TokKind
  share_kw thread_local_kw module_kw import_kw use_kw pub_kw data_kw enum_kw embed_kw : TokKind
  if_kw else_kw while_kw return_kw as_kw unit_kw type_kw colon_colon lparen rparen : TokKind
  lbrace rbrace lbracket rbracket comma semicolon dot colon underscore plus minus : TokKind
  star slash percent amp pipe caret tilde shl_op shr_op bang and_and or_or eq eq_eq : TokKind
  not_eq lt gt lt_eq gt_eq plus_eq minus_eq star_eq slash_eq percent_eq eof : TokKind

pub record Token : Type 0 where
  pub kind : TokKind
  pub span : Span

-- What an error says: a constructor for each message of the source.
pub data Message : Type 0 where
  unterminated_block_comment question_mark missing_digits bad_integer bad_float : Message
  invalid_hex_escape unterminated_char expected_closing unterminated_string : Message
  unexpected_character unknown_escape : ℕ → Message

pub record LexError : Type 0 where
  pub msg : Message
  pub span : Span

-- A result of the lexer. `panicked` is an index out of bounds in `bump`; `out_of_fuel` has no
-- counterpart in the program.
pub data Result {ℓ} (A : Type ℓ) : Type ℓ where
  ok : A → Result A
  err : LexError → Result A
  panicked out_of_fuel : Result A

module _ {ℓ κ} {A : Type ℓ} {B : Type κ} where
  infixl 5 ◌>>=◌
  abbrev pub ◌>>=◌ : Result A → (A → Result B) → Result B
  ok a >>= f = f a
  err e >>= f = err e
  panicked >>= f = panicked
  out_of_fuel >>= f = out_of_fuel

-- The arms of `match text` that name a keyword, in the source's order.
abbrev pub keywords : List (Bytes × TokKind)
keywords =
    (codes "mut", mut_kw)
    ∷ (codes "const", const_kw)
    ∷ (codes "alloc", alloc_kw)
    ∷ (codes "free", free_kw)
    ∷ (codes "unsafe", unsafe_kw)
    ∷ (codes "extern", extern_kw)
    ∷ (codes "attr", attr_kw)
    ∷ (codes "has", has_kw)
    ∷ (codes "where", where_kw)
    ∷ (codes "dyn", dyn_kw)
    ∷ (codes "some", some_kw)
    ∷ (codes "export", export_kw)
    ∷ (codes "match", match_kw)
    ∷ (codes "yield", yield_kw)
    ∷ (codes "constexpr", constexpr_kw)
    ∷ (codes "inline", inline_kw)
    ∷ (codes "gate", gate_kw)
    ∷ (codes "propagate", propagate_kw)
    ∷ (codes "for", for_kw)
    ∷ (codes "in", in_kw)
    ∷ (codes "break", break_kw)
    ∷ (codes "continue", continue_kw)
    ∷ (codes "transfer", transfer_kw)
    ∷ (codes "share", share_kw)
    ∷ (codes "thread_local", thread_local_kw)
    ∷ (codes "module", module_kw)
    ∷ (codes "cinclude", cinclude_kw)
    ∷ (codes "cblock", cblock_kw)
    ∷ (codes "clink", clink_kw)
    ∷ (codes "rblock", rblock_kw)
    ∷ (codes "rdep", rdep_kw)
    ∷ (codes "raw", raw_kw)
    ∷ (codes "own", own_kw)
    ∷ (codes "import", import_kw)
    ∷ (codes "use", use_kw)
    ∷ (codes "pub", pub_kw)
    ∷ (codes "data", data_kw)
    ∷ (codes "enum", enum_kw)
    ∷ (codes "embed", embed_kw)
    ∷ (codes "if", if_kw)
    ∷ (codes "else", else_kw)
    ∷ (codes "while", while_kw)
    ∷ (codes "return", return_kw)
    ∷ (codes "true", true_kw)
    ∷ (codes "false", false_kw)
    ∷ (codes "null", null_kw)
    ∷ (codes "unit", unit_kw)
    ∷ (codes "type", type_kw)
    ∷ (codes "as", as_kw)
    ∷ (codes "_", underscore)
    ∷ []

unfoldable pub lookup_keyword : List (Bytes × TokKind) → Bytes → TokKind
lookup_keyword [] text = ident text
lookup_keyword ((k, kind) ∷ rest) text = if bytes_eq text k then kind else lookup_keyword rest text

-- `match text { … }` of `next_token`.
unfoldable pub keyword : Bytes → TokKind
unfolding lookup_keyword bytes_eq
keyword text = lookup_keyword keywords text
