-- ===== src/Fmt/Ink.antt =====
-- crates/fmt/src/lib.rs: what `format` keeps of a source.
use maka.Base.{
  ℕ, zero, suc, ◌≡◌, refl, sym, ap, ◌∙◌, Bool, true, false, not, ◌&&◌, ◌||◌, List, [], ◌∷◌, ◌++◌,
  map, append-nil, Bytes, ◌==◌, ==_iff, if◌then◌else◌, arith, Bool-cases, inl, inr,
}
use maka.Fmt.Layout.{
  trim_start, trim, is_empty, split_lines, cons_first, push_indent, indent_of, lead_closers,
  indent_line, Built, built, build_line, build, begins_verbatim, is_blank, collapse, join_lines,
  end_line, format,
}
use maka.Base.Int.{ℤ, pos}
use maka.Fmt.Scan.{LineInfo, scan}
use maka.Fmt.White.{
  ink, ink_from, ink-trim_from, ink-trim_end, ink-space, ink_from-line, is_empty-nil,
}

split_lines-cons : (s : Bytes) → (l : Bytes) × (ls : List Bytes) × (split_lines s ≡ l ∷ ls)
unfolding split_lines
split_lines-cons [] = ([], [], refl)
split_lines-cons (c ∷ cs) =
    let (l, ls, e) = split_lines-cons cs in
    elim (Bool-cases (c == 10)) [
      | inl h ↦ ([], l ∷ ls, rw (h, e) refl)
      | inr h ↦ (c ∷ l, ls, rw (h, e) refl)
    ]

join-cons_first :
    (c : ℕ) (l : Bytes) (ls : List Bytes)
    → join_lines (cons_first c (l ∷ ls)) ≡ c ∷ join_lines (l ∷ ls)
unfolding join_lines
join-cons_first c l [] = refl
join-cons_first c l (m ∷ ls) = refl

-- Joining the lines of a source gives the source.
join-split_lines : (s : Bytes) → join_lines (split_lines s) ≡ s
unfolding join_lines split_lines
join-split_lines [] = refl
join-split_lines (c ∷ cs) =
    let (l, ls, e) = split_lines-cons cs in
    let back : join_lines (l ∷ ls) ≡ cs = ap join_lines (sym e) ∙ join-split_lines cs in
    elim (Bool-cases (c == 10)) [
      | inl h ↦
          let n : c ≡ 10 = (==_iff c 10).0 h in
          rw (h, e) (ap (◌∷◌ 10) back ∙ ap (λ x. x ∷ cs) (sym n))
      | inr h ↦ rw (h, e) (join-cons_first c l ls ∙ ap (◌∷◌ c) back)
    ]

-- The texts of lines without their white space, in a row.
ink_lines : List Bytes → Bytes
ink_lines [] = []
ink_lines (l ∷ ls) = ink l ++ ink_lines ls

ink-join_lines : (ls : List Bytes) → ink (join_lines ls) ≡ ink_lines ls
unfolding join_lines ink_lines ink_from
ink-join_lines [] = refl
ink-join_lines (l ∷ []) = sym (append-nil _)
ink-join_lines (l ∷ m ∷ ls) =
    ink_from-line 0 l (join_lines (m ∷ ls)) (omega arith)
    ∙ ap (◌++◌ (ink l)) (ink-join_lines (m ∷ ls))

ink-end_line : (s : Bytes) → ink (end_line s) ≡ ink s
unfolding ink_from
ink-end_line [] = refl
ink-end_line (c ∷ cs) = ink_from-line 0 (c ∷ cs) [] (omega arith) ∙ append-nil (ink (c ∷ cs))

ink-push_indent : (n : ℕ) (s : Bytes) → ink (push_indent n s) ≡ ink s
unfolding push_indent
ink-push_indent zero s = refl
ink-push_indent (suc n) s =
    ink-space 32 _ refl
    ∙ ink-space 32 _ refl
    ∙ ink-space 32 _ refl
    ∙ ink-space 32 _ refl
    ∙ ink-push_indent n s

ink-indent_line : (d : ℤ) (s : Bytes) → ink (indent_line d s) ≡ ink s
unfolding indent_line
ink-indent_line d [] = refl
ink-indent_line d (c ∷ cs) = ink-push_indent (indent_of d (lead_closers (c ∷ cs))) (c ∷ cs)

ink-trim : (s : Bytes) → ink (trim s) ≡ ink s
ink-trim s = ink-trim_end (trim_start s) ∙ ink-trim_from 0 s

ink-build :
    (v e : Bool) (d : ℤ) (raw : Bytes)
    → ink
        (if v
          then built raw true
          else built (indent_line d (if e then trim_start raw else trim raw)) false).text
      ≡ ink raw
ink-build true e d raw = refl
ink-build false true d raw = ink-indent_line d (trim_start raw) ∙ ink-trim_from 0 raw
ink-build false false d raw = ink-indent_line d (trim raw) ∙ ink-trim raw

ink-build_line :
    (info : LineInfo) (e : Bool) (raw : Bytes) → ink (build_line info e raw).text ≡ ink raw
unfolding build_line
ink-build_line info e raw = ink-build info.verbatim e info.depth raw

ink_lines-build :
    (raws : List Bytes) (infos : List LineInfo)
    → ink_lines (map (λ b. b.text) (build raws infos)) ≡ ink_lines raws
unfolding build ink_lines
ink_lines-build [] infos = refl
ink_lines-build (raw ∷ raws) [] =
    rw (ink-indent_line (pos 0) (trim raw), ink-trim raw, ink_lines-build raws []) refl
ink_lines-build (raw ∷ raws) (info ∷ infos) =
    rw (ink-build_line info (begins_verbatim infos) raw, ink_lines-build raws infos) refl

blank-nil : (b : Built) → is_blank b ≡ true → b.text ≡ []
blank-nil b h = let e : is_empty b.text ≡ true = ground arith in is_empty-nil b.text e

ink-pending :
    (p : Bool) (t : Bytes) (ls : List Bytes)
    → ink_lines (if p then [] ∷ t ∷ ls else t ∷ ls) ≡ ink t ++ ink_lines ls
unfolding ink_lines ink_from
ink-pending true t ls = refl
ink-pending false t ls = refl

ink_lines-collapse :
    (p s : Bool) (bs : List Built) → ink_lines (collapse p s bs) ≡ ink_lines (map (λ b. b.text) bs)
unfolding collapse ink_lines ink_from
ink_lines-collapse p s [] = refl
ink_lines-collapse p s (b ∷ bs) =
    let texts : List Bytes = map (λ b. b.text) bs in
    let rest = ink_lines-collapse (is_blank b && (s || p)) (s || not (is_blank b)) bs in
    elim (Bool-cases (is_blank b)) [
      | inl e ↦ rw e (rw e at rest) ∙ ap (λ t. ink t ++ ink_lines texts) (sym (blank-nil b e))
      | inr e ↦ rw e (
          ink-pending p b.text (collapse false (s || true) bs)
          ∙ ap (◌++◌ (ink b.text)) (rw e at rest))
    ]

-- Formatting keeps every byte that is not white space, and their order: a source and its formatted
-- text are the same without the white space of `char::is_whitespace`, whatever the source is.
pub format-ink : (src : Bytes) → ink (format src) ≡ ink src
unfolding format
format-ink src =
    let bs = build (split_lines src) (scan src) in
    let ls = collapse false false bs in
    ink-end_line (join_lines ls)
    ∙ ink-join_lines ls
    ∙ ink_lines-collapse false false bs
    ∙ ink_lines-build (split_lines src) (scan src)
    ∙ sym (ink-join_lines (split_lines src))
    ∙ ap ink (join-split_lines src)
