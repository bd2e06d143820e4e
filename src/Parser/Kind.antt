-- ===== src/Parser/Kind.antt =====
-- crates/parser/src/lib.rs: `std::mem::discriminant` of a token's kind.
use maka.Base.{
  ℕ, Bool, true, false, refl, Bool-cases, inl, inr, arith, ◌==◌, ◌≡◌, ◌≢◌, ap, sym, ◌∙◌, ==_iff,
}
use maka.Lexer.Token.{
  TokKind, eof, int, float, str_lit, char_lit, ident, true_kw, false_kw, null_kw, mut_kw, const_kw,
  alloc_kw, free_kw, unsafe_kw, extern_kw, cinclude_kw, cblock_kw, clink_kw, rblock_kw, rdep_kw,
  raw_kw, own_kw, attr_kw, has_kw, where_kw, dyn_kw, some_kw, export_kw, match_kw, yield_kw,
  constexpr_kw, inline_kw, gate_kw, propagate_kw, for_kw, in_kw, break_kw, continue_kw, dot_dot,
  dot_dot_eq, transfer_kw, share_kw, thread_local_kw, module_kw, import_kw, use_kw, pub_kw, data_kw,
  enum_kw, embed_kw, if_kw, else_kw, while_kw, return_kw, as_kw, unit_kw, type_kw, colon_colon,
  lparen, rparen, lbrace, rbrace, lbracket, rbracket, comma, semicolon, dot, colon, underscore,
  plus, minus, star, slash, percent, amp, pipe, caret, tilde, shl_op, shr_op, bang, and_and, or_or,
  eq, eq_eq, not_eq, lt, gt, lt_eq, gt_eq, plus_eq, minus_eq, star_eq, slash_eq, percent_eq,
}

-- A number for each constructor.
unfoldable pub discriminant : TokKind → ℕ
discriminant eof = 0
discriminant (int _) = 1
discriminant (float _) = 2
discriminant (str_lit _) = 3
discriminant (char_lit _) = 4
discriminant (ident _) = 5
discriminant true_kw = 6
discriminant false_kw = 7
discriminant null_kw = 8
discriminant mut_kw = 9
discriminant const_kw = 10
discriminant alloc_kw = 11
discriminant free_kw = 12
discriminant unsafe_kw = 13
discriminant extern_kw = 14
discriminant cinclude_kw = 15
discriminant cblock_kw = 16
discriminant clink_kw = 17
discriminant rblock_kw = 18
discriminant rdep_kw = 19
discriminant raw_kw = 20
discriminant own_kw = 21
discriminant attr_kw = 22
discriminant has_kw = 23
discriminant where_kw = 24
discriminant dyn_kw = 25
discriminant some_kw = 26
discriminant export_kw = 27
discriminant match_kw = 28
discriminant yield_kw = 29
discriminant constexpr_kw = 30
discriminant inline_kw = 31
discriminant gate_kw = 32
discriminant propagate_kw = 33
discriminant for_kw = 34
discriminant in_kw = 35
discriminant break_kw = 36
discriminant continue_kw = 37
discriminant dot_dot = 38
discriminant dot_dot_eq = 39
discriminant transfer_kw = 40
discriminant share_kw = 41
discriminant thread_local_kw = 42
discriminant module_kw = 43
discriminant import_kw = 44
discriminant use_kw = 45
discriminant pub_kw = 46
discriminant data_kw = 47
discriminant enum_kw = 48
discriminant embed_kw = 49
discriminant if_kw = 50
discriminant else_kw = 51
discriminant while_kw = 52
discriminant return_kw = 53
discriminant as_kw = 54
discriminant unit_kw = 55
discriminant type_kw = 56
discriminant colon_colon = 57
discriminant lparen = 58
discriminant rparen = 59
discriminant lbrace = 60
discriminant rbrace = 61
discriminant lbracket = 62
discriminant rbracket = 63
discriminant comma = 64
discriminant semicolon = 65
discriminant dot = 66
discriminant colon = 67
discriminant underscore = 68
discriminant plus = 69
discriminant minus = 70
discriminant star = 71
discriminant slash = 72
discriminant percent = 73
discriminant amp = 74
discriminant pipe = 75
discriminant caret = 76
discriminant tilde = 77
discriminant shl_op = 78
discriminant shr_op = 79
discriminant bang = 80
discriminant and_and = 81
discriminant or_or = 82
discriminant eq = 83
discriminant eq_eq = 84
discriminant not_eq = 85
discriminant lt = 86
discriminant gt = 87
discriminant lt_eq = 88
discriminant gt_eq = 89
discriminant plus_eq = 90
discriminant minus_eq = 91
discriminant star_eq = 92
discriminant slash_eq = 93
discriminant percent_eq = 94

-- `std::mem::discriminant(a) == std::mem::discriminant(b)`.
abbrev pub same_kind : TokKind → TokKind → Bool
same_kind a b = discriminant a == discriminant b

pub same_kind-ne-eof : (a b : TokKind) → same_kind a b ≡ true → discriminant b ≢ 0 → a ≢ eof
unfolding discriminant
same_kind-ne-eof a b h n e =
    n (sym ((==_iff (discriminant a) (discriminant b)).0 h) ∙ ap discriminant e)

eof-of_discriminant : (k : TokKind) → discriminant k ≡ 0 → k ≡ eof
unfolding discriminant
eof-of_discriminant eof h = refl
eof-of_discriminant _ h = absurd (omega (arith, h))

pub same_kind-eof : (a b : TokKind) → same_kind a b ≡ true → b ≢ eof → a ≢ eof
same_kind-eof a b h n = same_kind-ne-eof a b h (λ e. n (eof-of_discriminant b e))

pub not-same_kind : (a : TokKind) → a ≢ eof → same_kind a eof ≡ false
unfolding discriminant
not-same_kind a n = elim (Bool-cases (same_kind a eof)) [
  | inl h ↦ absurd (n (eof-of_discriminant a ((==_iff (discriminant a) 0).0 h)))
  | inr h ↦ h
]

pub same_kind-is_eof : (a : TokKind) → same_kind a eof ≡ true → a ≡ eof
unfolding discriminant
same_kind-is_eof a h = eof-of_discriminant a ((==_iff (discriminant a) 0).0 h)

pub same_kind-shr_op : (a : TokKind) → same_kind a shr_op ≡ true → a ≡ shr_op
unfolding discriminant
same_kind-shr_op shr_op h = refl
same_kind-shr_op _ h = absurd (ground arith)
