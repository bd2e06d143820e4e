-- ===== src/Fmt/Layout.antt =====
-- crates/fmt/src/lib.rs: `format`, and the functions of Rust's `str` that it calls.
use maka.Base.{
  ℕ, zero, suc, ◌-◌, Bool, true, false, not, ◌&&◌, ◌||◌, List, [], ◌∷◌, ◌++◌, Bytes, codes, leb,
  ◌==◌, if◌then◌else◌,
}
use maka.Base.Int.{ℤ, pos, negsuc}
use maka.Fmt.Scan.{LineInfo, scan, closer}

abbrev pub between : ℕ → ℕ → ℕ → Bool
between lo hi c = leb lo c && leb c hi

-- The white space of `char::is_whitespace` in UTF-8, of one, two and three bytes.
abbrev pub is_ws1 : ℕ → Bool
is_ws1 a = between 9 13 a || a == 32

abbrev pub is_ws2 : ℕ → ℕ → Bool
is_ws2 a b = a == 194 && (b == 133 || b == 160)

-- U+1680, the white space from U+2000 to U+202F, U+205F, U+3000.
abbrev pub ws_1680 : ℕ → ℕ → ℕ → Bool
ws_1680 a b c = a == 225 && b == 154 && c == 128

abbrev pub ws_2000 : ℕ → ℕ → ℕ → Bool
ws_2000 a b c = a == 226 && b == 128 && (between 128 138 c || c == 168 || c == 169 || c == 175)

abbrev pub ws_205f : ℕ → ℕ → ℕ → Bool
ws_205f a b c = a == 226 && b == 129 && c == 159

abbrev pub ws_3000 : ℕ → ℕ → ℕ → Bool
ws_3000 a b c = a == 227 && b == 128 && c == 128

abbrev pub is_ws3 : ℕ → ℕ → ℕ → Bool
is_ws3 a b c = ws_1680 a b c || ws_2000 a b c || ws_205f a b c || ws_3000 a b c

-- How many bytes the white space has that begins here, if one does.
unfoldable pub ws_width : Bytes → ℕ
ws_width [] = 0
ws_width (a ∷ []) = if is_ws1 a then 1 else 0
ws_width (a ∷ b ∷ []) = if is_ws1 a then 1 else if is_ws2 a b then 2 else 0
ws_width (a ∷ b ∷ c ∷ _) =
    if is_ws1 a then 1 else if is_ws2 a b then 2 else if is_ws3 a b c then 3 else 0

-- `str::trim_start`; the number counts the bytes of a white space that are still to be dropped.
unfoldable pub trim_from : ℕ → Bytes → Bytes
unfolding ws_width
trim_from k [] = []
trim_from (suc k) (c ∷ cs) = trim_from k cs
trim_from zero (c ∷ cs) = elim (ws_width (c ∷ cs)) [ zero ↦ c ∷ cs | suc k ↦ trim_from k cs ]

abbrev pub trim_start : Bytes → Bytes
trim_start s = trim_from 0 s

abbrev pub is_empty : Bytes → Bool
is_empty [] = true
is_empty (_ ∷ _) = false

-- `str::trim_end`: it cuts where nothing but white space follows.
unfoldable pub trim_end : Bytes → Bytes
unfolding trim_from
trim_end [] = []
trim_end (c ∷ cs) =
    let rest = trim_end cs in if is_empty (trim_start (c ∷ cs)) then [] else c ∷ rest

abbrev pub trim : Bytes → Bytes
trim s = trim_end (trim_start s)

abbrev pub cons_first : ℕ → List Bytes → List Bytes
cons_first c [] = (c ∷ []) ∷ []
cons_first c (l ∷ ls) = (c ∷ l) ∷ ls

-- `src.split('\n')`.
unfoldable pub split_lines : Bytes → List Bytes
split_lines [] = [] ∷ []
split_lines (c ∷ cs) = let rest = split_lines cs in if c == 10 then [] ∷ rest else cons_first c rest

unfoldable pub lead_closers : Bytes → ℕ
lead_closers [] = 0
lead_closers (c ∷ cs) = let n = lead_closers cs in if closer c then suc n else 0

-- `(depth - lead_closers).max(0)`.
abbrev pub indent_of : ℤ → ℕ → ℕ
indent_of (pos d) n = d - n
indent_of (negsuc d) n = 0

abbrev pub indent_text : Bytes
indent_text = codes "    "

unfoldable pub push_indent : ℕ → Bytes → Bytes
push_indent zero s = s
push_indent (suc n) s = indent_text ++ push_indent n s

-- A line of `built`: its text, and whether it is verbatim.
pub record Built : Type 0 where
  pub text : Bytes
  pub verbatim : Bool

abbrev pub built : Bytes → Bool → Built
built t v = record { text = t; verbatim = v }

-- A line that is not verbatim, from its trimmed text.
unfoldable pub indent_line : ℤ → Bytes → Bytes
unfolding push_indent lead_closers
indent_line d [] = []
indent_line d content = push_indent (indent_of d (lead_closers content)) content

abbrev pub begins_verbatim : List LineInfo → Bool
begins_verbatim [] = false
begins_verbatim (i ∷ _) = i.verbatim

-- The body of the loop over `raw_lines`.
unfoldable pub build_line : LineInfo → Bool → Bytes → Built
unfolding indent_line trim_end
build_line info ends_verbatim raw =
    if info.verbatim
    then built raw true
    else built (indent_line info.depth (if ends_verbatim then trim_start raw else trim raw)) false

unfoldable pub build : List Bytes → List LineInfo → List Built
unfolding build_line
build [] infos = []
build (raw ∷ raws) [] =
    build_line (record { depth = pos 0; verbatim = false }) false raw ∷ build raws []
build (raw ∷ raws) (info ∷ infos) = build_line info (begins_verbatim infos) raw ∷ build raws infos

abbrev pub is_blank : Built → Bool
is_blank b = not b.verbatim && is_empty b.text

-- The second loop, with `pending_blank` and `seen_content`.
unfoldable pub collapse : Bool → Bool → List Built → List Bytes
collapse pending seen [] = []
collapse pending seen (b ∷ bs) =
    let blank = is_blank b in
    let rest = collapse (blank && (seen || pending)) (seen || not blank) bs in
    if blank then rest else if pending then [] ∷ b.text ∷ rest else b.text ∷ rest

-- `out.join("\n")`.
unfoldable pub join_lines : List Bytes → Bytes
join_lines [] = []
join_lines (l ∷ []) = l
join_lines (l ∷ m ∷ ls) = l ++ 10 ∷ join_lines (m ∷ ls)

abbrev pub end_line : Bytes → Bytes
end_line [] = []
end_line (c ∷ cs) = (c ∷ cs) ++ 10 ∷ []

unfoldable pub format : Bytes → Bytes
unfolding collapse join_lines build split_lines scan
format src = end_line (join_lines (collapse false false (build (split_lines src) (scan src))))
