-- ===== src/Fmt/Decoding.antt =====
-- crates/lexer/src/lib.rs: what the equality test of token kinds says.
use maka.Base.{
  ℕ, true, List, [], ◌∷◌, bytes_eq_iff, ◌≡◌, ◌↔◌, refl, ◌∙◌, and_iff, ap, sym, arith, get_elem?,
  none, some,
}
use maka.Ctfe.Division.{int_eq_iff}
use maka.Lexer.Token.{
  TokKind, int, float, str_lit, char_lit, ident, true_kw, false_kw, null_kw, mut_kw, const_kw,
  alloc_kw, free_kw, unsafe_kw, extern_kw, cinclude_kw, cblock_kw, clink_kw, rblock_kw, rdep_kw,
  raw_kw, own_kw, attr_kw, has_kw, where_kw, dyn_kw, some_kw, export_kw, match_kw, yield_kw,
  constexpr_kw, inline_kw, gate_kw, propagate_kw, for_kw, in_kw, break_kw, continue_kw, dot_dot,
  dot_dot_eq, transfer_kw, share_kw, thread_local_kw, module_kw, import_kw, use_kw, pub_kw, data_kw,
  enum_kw, embed_kw, if_kw, else_kw, while_kw, return_kw, as_kw, unit_kw, type_kw, colon_colon,
  lparen, rparen, lbrace, rbrace, lbracket, rbracket, comma, semicolon, dot, colon, underscore,
  plus, minus, star, slash, percent, amp, pipe, caret, tilde, shl_op, shr_op, bang, and_and, or_or,
  eq, eq_eq, not_eq, lt, gt, lt_eq, gt_eq, plus_eq, minus_eq, star_eq, slash_eq, percent_eq, eof,
}
use maka.Fmt.Kinds.{
  Code, number, decimal, quote, name, letter, plain, encode, code_eq, kind_eq, kinds_eq,
}

-- Every plain kind, at its number.
nullary : List TokKind
nullary =
    true_kw ∷ false_kw ∷ null_kw ∷ mut_kw ∷ const_kw ∷ alloc_kw ∷ free_kw ∷ unsafe_kw ∷ extern_kw
    ∷ cinclude_kw ∷ cblock_kw ∷ clink_kw ∷ rblock_kw ∷ rdep_kw ∷ raw_kw ∷ own_kw ∷ attr_kw ∷ has_kw
    ∷ where_kw ∷ dyn_kw ∷ some_kw ∷ export_kw ∷ match_kw ∷ yield_kw ∷ constexpr_kw ∷ inline_kw
    ∷ gate_kw ∷ propagate_kw ∷ for_kw ∷ in_kw ∷ break_kw ∷ continue_kw ∷ dot_dot ∷ dot_dot_eq
    ∷ transfer_kw ∷ share_kw ∷ thread_local_kw ∷ module_kw ∷ import_kw ∷ use_kw ∷ pub_kw ∷ data_kw
    ∷ enum_kw ∷ embed_kw ∷ if_kw ∷ else_kw ∷ while_kw ∷ return_kw ∷ as_kw ∷ unit_kw ∷ type_kw
    ∷ colon_colon ∷ lparen ∷ rparen ∷ lbrace ∷ rbrace ∷ lbracket ∷ rbracket ∷ comma ∷ semicolon
    ∷ dot ∷ colon ∷ underscore ∷ plus ∷ minus ∷ star ∷ slash ∷ percent ∷ amp ∷ pipe ∷ caret ∷ tilde
    ∷ shl_op ∷ shr_op ∷ bang ∷ and_and ∷ or_or ∷ eq ∷ eq_eq ∷ not_eq ∷ lt ∷ gt ∷ lt_eq ∷ gt_eq
    ∷ plus_eq ∷ minus_eq ∷ star_eq ∷ slash_eq ∷ percent_eq ∷ eof ∷ []

at : List TokKind → ℕ → TokKind
at ks n = elim (get_elem? ks n) [ none ↦ eof | some k ↦ k ]

decode : Code → TokKind
decode (number n) = int n
decode (decimal s) = float s
decode (quote s) = str_lit s
decode (letter c) = char_lit c
decode (name s) = ident s
decode (plain n) = at nullary n

decode-encode : (k : TokKind) → decode (encode k) ≡ k
unfolding decode encode nullary at
decode-encode (int n) = refl
decode-encode (float s) = refl
decode-encode (str_lit s) = refl
decode-encode (char_lit c) = refl
decode-encode (ident s) = refl
decode-encode true_kw = refl
decode-encode false_kw = refl
decode-encode null_kw = refl
decode-encode mut_kw = refl
decode-encode const_kw = refl
decode-encode alloc_kw = refl
decode-encode free_kw = refl
decode-encode unsafe_kw = refl
decode-encode extern_kw = refl
decode-encode cinclude_kw = refl
decode-encode cblock_kw = refl
decode-encode clink_kw = refl
decode-encode rblock_kw = refl
decode-encode rdep_kw = refl
decode-encode raw_kw = refl
decode-encode own_kw = refl
decode-encode attr_kw = refl
decode-encode has_kw = refl
decode-encode where_kw = refl
decode-encode dyn_kw = refl
decode-encode some_kw = refl
decode-encode export_kw = refl
decode-encode match_kw = refl
decode-encode yield_kw = refl
decode-encode constexpr_kw = refl
decode-encode inline_kw = refl
decode-encode gate_kw = refl
decode-encode propagate_kw = refl
decode-encode for_kw = refl
decode-encode in_kw = refl
decode-encode break_kw = refl
decode-encode continue_kw = refl
decode-encode dot_dot = refl
decode-encode dot_dot_eq = refl
decode-encode transfer_kw = refl
decode-encode share_kw = refl
decode-encode thread_local_kw = refl
decode-encode module_kw = refl
decode-encode import_kw = refl
decode-encode use_kw = refl
decode-encode pub_kw = refl
decode-encode data_kw = refl
decode-encode enum_kw = refl
decode-encode embed_kw = refl
decode-encode if_kw = refl
decode-encode else_kw = refl
decode-encode while_kw = refl
decode-encode return_kw = refl
decode-encode as_kw = refl
decode-encode unit_kw = refl
decode-encode type_kw = refl
decode-encode colon_colon = refl
decode-encode lparen = refl
decode-encode rparen = refl
decode-encode lbrace = refl
decode-encode rbrace = refl
decode-encode lbracket = refl
decode-encode rbracket = refl
decode-encode comma = refl
decode-encode semicolon = refl
decode-encode dot = refl
decode-encode colon = refl
decode-encode underscore = refl
decode-encode plus = refl
decode-encode minus = refl
decode-encode star = refl
decode-encode slash = refl
decode-encode percent = refl
decode-encode amp = refl
decode-encode pipe = refl
decode-encode caret = refl
decode-encode tilde = refl
decode-encode shl_op = refl
decode-encode shr_op = refl
decode-encode bang = refl
decode-encode and_and = refl
decode-encode or_or = refl
decode-encode eq = refl
decode-encode eq_eq = refl
decode-encode not_eq = refl
decode-encode lt = refl
decode-encode gt = refl
decode-encode lt_eq = refl
decode-encode gt_eq = refl
decode-encode plus_eq = refl
decode-encode minus_eq = refl
decode-encode star_eq = refl
decode-encode slash_eq = refl
decode-encode percent_eq = refl
decode-encode eof = refl

code_eq_iff : (a b : Code) → (code_eq a b ≡ true) ↔ (a ≡ b)
unfolding code_eq
code_eq_iff (number a) (number b) = grind (arith, int_eq_iff a b)
code_eq_iff (decimal a) (decimal b) = grind (arith, bytes_eq_iff a b)
code_eq_iff (quote a) (quote b) = grind (arith, bytes_eq_iff a b)
code_eq_iff (letter a) (letter b) = ground arith
code_eq_iff (name a) (name b) = grind (arith, bytes_eq_iff a b)
code_eq_iff (plain a) (plain b) = ground arith
code_eq_iff _ _ = ((λ h. cc), (λ h. cc))

kind_eq_iff : (a b : TokKind) → (kind_eq a b ≡ true) ↔ (a ≡ b)
unfolding kind_eq
kind_eq_iff a b =
    let c = code_eq_iff (encode a) (encode b) in
    ((λ h. sym (decode-encode a) ∙ ap decode (c.0 h) ∙ decode-encode b), (λ e. c.1 (ap encode e)))

pub kinds_eq_iff : (ks ls : List TokKind) → (kinds_eq ks ls ≡ true) ↔ (ks ≡ ls)
unfolding kinds_eq
kinds_eq_iff [] [] = ((λ h. refl), (λ e. refl))
kinds_eq_iff (a ∷ ks) (b ∷ ls) =
    let p = and_iff (kind_eq_iff a b) (kinds_eq_iff ks ls) in
    ((λ h. let q = p.0 h in let q0 = q.0 in let q1 = q.1 in cc), (λ e. p.1 (cc, cc)))
kinds_eq_iff _ _ = ((λ h. cc), (λ h. cc))
