-- ===== src/Fmt/Kinds.antt =====
-- crates/lexer/src/lib.rs: equality of token kinds, which `derive(PartialEq)` makes. A float is
-- compared by its text.
use maka.Base.{ℕ, Bool, true, false, ◌&&◌, List, [], ◌∷◌, Bytes, bytes_eq, ◌==◌}
use maka.Base.Int.{ℤ}
use maka.Ctfe.Word.{int_eq}
use maka.Lexer.Token.{
  TokKind, int, float, str_lit, char_lit, ident, true_kw, false_kw, null_kw, mut_kw, const_kw,
  alloc_kw, free_kw, unsafe_kw, extern_kw, cinclude_kw, cblock_kw, clink_kw, rblock_kw, rdep_kw,
  raw_kw, own_kw, attr_kw, has_kw, where_kw, dyn_kw, some_kw, export_kw, match_kw, yield_kw,
  constexpr_kw, inline_kw, gate_kw, propagate_kw, for_kw, in_kw, break_kw, continue_kw, dot_dot,
  dot_dot_eq, transfer_kw, share_kw, thread_local_kw, module_kw, import_kw, use_kw, pub_kw, data_kw,
  enum_kw, embed_kw, if_kw, else_kw, while_kw, return_kw, as_kw, unit_kw, type_kw, colon_colon,
  lparen, rparen, lbrace, rbrace, lbracket, rbracket, comma, semicolon, dot, colon, underscore,
  plus, minus, star, slash, percent, amp, pipe, caret, tilde, shl_op, shr_op, bang, and_and, or_or,
  eq, eq_eq, not_eq, lt, gt, lt_eq, gt_eq, plus_eq, minus_eq, star_eq, slash_eq, percent_eq, eof,
}

-- A kind: its number where it holds nothing, else what it holds.
pub data Code : Type 0 where
  number : ℤ → Code
  decimal quote name : Bytes → Code
  letter plain : ℕ → Code

unfoldable pub encode : TokKind → Code
encode (int n) = number n
encode (float s) = decimal s
encode (str_lit s) = quote s
encode (char_lit c) = letter c
encode (ident s) = name s
encode true_kw = plain 0
encode false_kw = plain 1
encode null_kw = plain 2
encode mut_kw = plain 3
encode const_kw = plain 4
encode alloc_kw = plain 5
encode free_kw = plain 6
encode unsafe_kw = plain 7
encode extern_kw = plain 8
encode cinclude_kw = plain 9
encode cblock_kw = plain 10
encode clink_kw = plain 11
encode rblock_kw = plain 12
encode rdep_kw = plain 13
encode raw_kw = plain 14
encode own_kw = plain 15
encode attr_kw = plain 16
encode has_kw = plain 17
encode where_kw = plain 18
encode dyn_kw = plain 19
encode some_kw = plain 20
encode export_kw = plain 21
encode match_kw = plain 22
encode yield_kw = plain 23
encode constexpr_kw = plain 24
encode inline_kw = plain 25
encode gate_kw = plain 26
encode propagate_kw = plain 27
encode for_kw = plain 28
encode in_kw = plain 29
encode break_kw = plain 30
encode continue_kw = plain 31
encode dot_dot = plain 32
encode dot_dot_eq = plain 33
encode transfer_kw = plain 34
encode share_kw = plain 35
encode thread_local_kw = plain 36
encode module_kw = plain 37
encode import_kw = plain 38
encode use_kw = plain 39
encode pub_kw = plain 40
encode data_kw = plain 41
encode enum_kw = plain 42
encode embed_kw = plain 43
encode if_kw = plain 44
encode else_kw = plain 45
encode while_kw = plain 46
encode return_kw = plain 47
encode as_kw = plain 48
encode unit_kw = plain 49
encode type_kw = plain 50
encode colon_colon = plain 51
encode lparen = plain 52
encode rparen = plain 53
encode lbrace = plain 54
encode rbrace = plain 55
encode lbracket = plain 56
encode rbracket = plain 57
encode comma = plain 58
encode semicolon = plain 59
encode dot = plain 60
encode colon = plain 61
encode underscore = plain 62
encode plus = plain 63
encode minus = plain 64
encode star = plain 65
encode slash = plain 66
encode percent = plain 67
encode amp = plain 68
encode pipe = plain 69
encode caret = plain 70
encode tilde = plain 71
encode shl_op = plain 72
encode shr_op = plain 73
encode bang = plain 74
encode and_and = plain 75
encode or_or = plain 76
encode eq = plain 77
encode eq_eq = plain 78
encode not_eq = plain 79
encode lt = plain 80
encode gt = plain 81
encode lt_eq = plain 82
encode gt_eq = plain 83
encode plus_eq = plain 84
encode minus_eq = plain 85
encode star_eq = plain 86
encode slash_eq = plain 87
encode percent_eq = plain 88
encode eof = plain 89

unfoldable pub code_eq : Code → Code → Bool
unfolding int_eq bytes_eq
code_eq (number a) (number b) = int_eq a b
code_eq (decimal a) (decimal b) = bytes_eq a b
code_eq (quote a) (quote b) = bytes_eq a b
code_eq (letter a) (letter b) = a == b
code_eq (name a) (name b) = bytes_eq a b
code_eq (plain a) (plain b) = a == b
code_eq _ _ = false

unfoldable pub kind_eq : TokKind → TokKind → Bool
unfolding code_eq encode
kind_eq a b = code_eq (encode a) (encode b)

unfoldable pub kinds_eq : List TokKind → List TokKind → Bool
unfolding kind_eq
kinds_eq [] [] = true
kinds_eq (a ∷ ks) (b ∷ ls) = kind_eq a b && kinds_eq ks ls
kinds_eq _ _ = false
