-- ===== src/Parser/SkimPrint.antt =====
-- crates/parser/src/lib.rs: the look-ahead goes over the types of the grammar to where `parse_type`
-- ends.
use maka.Base.{ℕ, suc, ◌≡◌, refl, ◌∙◌, true, false, List, [], ◌∷◌, Bytes, map}
use maka.Ast.Types.{Mutness, default, const, mut}
use maka.Lexer.Token.{Span, Token, TokKind, colon_colon, lparen, rparen, comma, lt, gt}
use maka.Parser.Grammar.{
  Ty, Tys, path, applied, unit, exists_one, exists_all, ref, ptr, raw, own, strict, slice, vec,
  array, thunk, function, one, more, Segs, zero_span, tok, seg_tokens, mut_tokens, plus_tokens,
  print, print_all,
}
use maka.Parser.Kind.{same_kind, discriminant}
use maka.Parser.Skim.{
  after, Kinds, skip_parens, skip_angles, skip_segments, skip_generics, skim_fn_params,
}

abbrev pub kinds : List Token → Kinds
kinds ts = map (λ (t : Token). t.kind) ts

angles_segs :
    (segs : Segs) (d : ℕ) (rest : List Token)
    → skip_angles (suc d) (kinds (seg_tokens segs rest)) ≡ skip_angles (suc d) (kinds rest)
unfolding skip_angles
angles_segs [] d rest = refl
angles_segs (seg ∷ segs) d rest = angles_segs segs d rest

angles_names :
    (ns : List Bytes) (s : Span) (d : ℕ) (rest : List Token)
    → skip_angles (suc d) (kinds (plus_tokens ns s rest)) ≡ skip_angles (suc d) (kinds rest)
unfolding skip_angles
angles_names [] s d rest = refl
angles_names (n ∷ ns) s d rest = angles_names ns s d rest

angles_mut :
    (m : Mutness) (s : Span) (d : ℕ) (rest : List Token)
    → skip_angles (suc d) (kinds (mut_tokens m s rest)) ≡ skip_angles (suc d) (kinds rest)
unfolding skip_angles
angles_mut default s d rest = refl
angles_mut const s d rest = refl
angles_mut mut s d rest = refl

-- A type closes what it opens.
mutual
  unfolding skip_angles print

  pub angles_print :
      (t : Ty) (d : ℕ) (rest : List Token)
      → skip_angles (suc d) (kinds (print t rest)) ≡ skip_angles (suc d) (kinds rest)
  angles_print (path n s segs) d rest = angles_segs segs d rest
  angles_print (applied n s ts segs) d rest =
      angles_print_all ts (suc d) (tok gt s ∷ seg_tokens segs rest) ∙ angles_segs segs d rest
  angles_print (unit s) d rest = refl
  angles_print (exists_one true n s) d rest = refl
  angles_print (exists_one false n s) d rest = refl
  angles_print (exists_all true n ns s) d rest = angles_names ns s d (tok rparen s ∷ rest)
  angles_print (exists_all false n ns s) d rest = angles_names ns s d (tok rparen s ∷ rest)
  angles_print (ref m t s) d rest = angles_mut m s d (print t rest) ∙ angles_print t d rest
  angles_print (ptr m t s) d rest = angles_mut m s d (print t rest) ∙ angles_print t d rest
  angles_print (raw m t s) d rest = angles_mut m s d (print t rest) ∙ angles_print t d rest
  angles_print (own m t s) d rest = angles_mut m s d (print t rest) ∙ angles_print t d rest
  angles_print (strict m t s) d rest = angles_mut m s d (print t rest) ∙ angles_print t d rest
  angles_print (slice true t s) d rest = angles_print t d rest
  angles_print (slice false t s) d rest = angles_print t d rest
  angles_print (vec t s) d rest = angles_print t d rest
  angles_print (array n t s) d rest = angles_print t d rest
  angles_print (thunk n s segs o) d rest = angles_segs segs d (tok lparen o ∷ tok rparen o ∷ rest)
  angles_print (function n s segs ts o) d rest =
      angles_segs segs d (tok lparen o ∷ print_all ts (tok rparen o ∷ rest))
      ∙ angles_print_all ts d (tok rparen o ∷ rest)

  pub angles_print_all :
      (ts : Tys) (d : ℕ) (rest : List Token)
      → skip_angles (suc d) (kinds (print_all ts rest)) ≡ skip_angles (suc d) (kinds rest)
  angles_print_all (one t) d rest = angles_print t d rest
  angles_print_all (more t ts) d rest =
      angles_print t d (tok comma zero_span ∷ print_all ts rest) ∙ angles_print_all ts d rest

parens_segs :
    (segs : Segs) (d : ℕ) (rest : List Token)
    → skip_parens (suc d) (kinds (seg_tokens segs rest)) ≡ skip_parens (suc d) (kinds rest)
unfolding skip_parens
parens_segs [] d rest = refl
parens_segs (seg ∷ segs) d rest = parens_segs segs d rest

pub parens_names :
    (ns : List Bytes) (s : Span) (d : ℕ) (rest : List Token)
    → skip_parens (suc d) (kinds (plus_tokens ns s rest)) ≡ skip_parens (suc d) (kinds rest)
unfolding skip_parens
parens_names [] s d rest = refl
parens_names (n ∷ ns) s d rest = parens_names ns s d rest

parens_mut :
    (m : Mutness) (s : Span) (d : ℕ) (rest : List Token)
    → skip_parens (suc d) (kinds (mut_tokens m s rest)) ≡ skip_parens (suc d) (kinds rest)
unfolding skip_parens
parens_mut default s d rest = refl
parens_mut const s d rest = refl
parens_mut mut s d rest = refl

-- A type closes what it opens.
mutual
  unfolding skip_parens print

  pub parens_print :
      (t : Ty) (d : ℕ) (rest : List Token)
      → skip_parens (suc d) (kinds (print t rest)) ≡ skip_parens (suc d) (kinds rest)
  parens_print (path n s segs) d rest = parens_segs segs d rest
  parens_print (applied n s ts segs) d rest =
      parens_print_all ts d (tok gt s ∷ seg_tokens segs rest) ∙ parens_segs segs d rest
  parens_print (unit s) d rest = refl
  parens_print (exists_one true n s) d rest = refl
  parens_print (exists_one false n s) d rest = refl
  parens_print (exists_all true n ns s) d rest = parens_names ns s (suc d) (tok rparen s ∷ rest)
  parens_print (exists_all false n ns s) d rest = parens_names ns s (suc d) (tok rparen s ∷ rest)
  parens_print (ref m t s) d rest = parens_mut m s d (print t rest) ∙ parens_print t d rest
  parens_print (ptr m t s) d rest = parens_mut m s d (print t rest) ∙ parens_print t d rest
  parens_print (raw m t s) d rest = parens_mut m s d (print t rest) ∙ parens_print t d rest
  parens_print (own m t s) d rest = parens_mut m s d (print t rest) ∙ parens_print t d rest
  parens_print (strict m t s) d rest = parens_mut m s d (print t rest) ∙ parens_print t d rest
  parens_print (slice true t s) d rest = parens_print t d rest
  parens_print (slice false t s) d rest = parens_print t d rest
  parens_print (vec t s) d rest = parens_print t d rest
  parens_print (array n t s) d rest = parens_print t d rest
  parens_print (thunk n s segs o) d rest = parens_segs segs d (tok lparen o ∷ tok rparen o ∷ rest)
  parens_print (function n s segs ts o) d rest =
      parens_segs segs d (tok lparen o ∷ print_all ts (tok rparen o ∷ rest))
      ∙ parens_print_all ts (suc d) (tok rparen o ∷ rest)

  pub parens_print_all :
      (ts : Tys) (d : ℕ) (rest : List Token)
      → skip_parens (suc d) (kinds (print_all ts rest)) ≡ skip_parens (suc d) (kinds rest)
  parens_print_all (one t) d rest = parens_print t d rest
  parens_print_all (more t ts) d rest =
      parens_print t d (tok comma zero_span ∷ print_all ts rest) ∙ parens_print_all ts d rest

segments-stop :
    (k : TokKind) (ks : Kinds) → same_kind k colon_colon ≡ false → skip_segments (k ∷ ks) ≡ (k ∷ ks)
unfolding skip_segments discriminant
segments-stop colon_colon ks h = cc
segments-stop _ ks h = refl

pub generics-stop :
    (k : TokKind) (ks : Kinds) → same_kind k lt ≡ false → skip_generics (k ∷ ks) ≡ (k ∷ ks)
unfolding skip_generics discriminant
generics-stop lt ks h = cc
generics-stop _ ks h = refl

pub params-stop :
    (k : TokKind) (ks : Kinds)
    → same_kind k lparen ≡ false
    → skim_fn_params (k ∷ ks) ≡ after (k ∷ ks)
unfolding skim_fn_params discriminant
params-stop lparen ks h = cc
params-stop _ ks h = refl

pub segs-skip :
    (segs : Segs) (x : Token) (r : List Token)
    → same_kind (x.kind) colon_colon ≡ false
    → skip_segments (kinds (seg_tokens segs (x ∷ r))) ≡ kinds (x ∷ r)
unfolding skip_segments
segs-skip [] x r h = segments-stop (x.kind) (kinds r) h
segs-skip (seg ∷ segs) x r h = segs-skip segs x r h
