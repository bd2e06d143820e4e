-- ===== src/Lint/Locate.antt =====
-- crates/lint/src/lib.rs: `locate`, which moves a finding onto the name in the source text. Texts
-- are their UTF-8 bytes.
use maka.Base.{
  ℕ, zero, suc, ◌+◌, ◌-◌, ◌%◌, Bool, true, false, not, ◌&&◌, ◌||◌, List, [], ◌∷◌, Option, none,
  some, Bytes, bytes_eq, length, get_elem?, drop, leb, ltb, ◌==◌, if◌then◌else◌,
}
use Prim.Native.Nat.{min, max}
use maka.Lexer.Cursor.{is_alphabetic, is_digit, u32_mod}
use maka.Lint.Names.{Finding}

-- A byte put before the first line.
abbrev cons_line : ℕ → List Bytes → List Bytes
cons_line c [] = (c ∷ []) ∷ []
cons_line c (l ∷ ls) = (c ∷ l) ∷ ls

-- `str::lines`: a line ends with a newline, and the last may end with the text; a carriage return
-- before the newline belongs to the line's end.
unfoldable pub lines : Bytes → List Bytes
lines [] = []
lines (c ∷ []) = if c == b'\n' then [] ∷ [] else (c ∷ []) ∷ []
lines (c ∷ c' ∷ cs) =
    let rest = lines (c' ∷ cs) in
    if c == b'\n' then [] ∷ rest else if c == 13 && c' == b'\n' then rest else cons_line c rest

abbrev pub is_word : ℕ → Bool
is_word b = is_alphabetic b || is_digit b || b == b'_'

unfoldable pub is_prefix : Bytes → Bytes → Bool
is_prefix [] bs = true
is_prefix (x ∷ xs) [] = false
is_prefix (x ∷ xs) (b ∷ bs) = x == b && is_prefix xs bs

-- `s.find(name)`: how many bytes stand before the first occurrence.
unfoldable pub find : Bytes → Bytes → Option ℕ
find name [] = if is_prefix name [] then some 0 else none
find name (b ∷ bs) =
    let rest = find name bs in
    if is_prefix name (b ∷ bs) then some 0 else elim rest [ none ↦ none | some k ↦ some (suc k) ]

abbrev pub byte_is : (ℕ → Bool) → Option ℕ → Bool
byte_is test none = false
byte_is test (some b) = test b

-- `str::is_char_boundary`: the end, or a byte that does not continue a character.
unfoldable pub is_char_boundary : Bytes → ℕ → Bool
is_char_boundary line i =
    i == length line || byte_is (λ b. ltb b 128 || leb 192 b) (get_elem? line i)

-- `line.get(i..).and_then(|s| s.find(name))`.
unfoldable pub find_from : Bytes → Bytes → ℕ → Option ℕ
unfolding find is_prefix is_char_boundary
find_from line name i = if is_char_boundary line i then find name (drop i line) else none

-- No word character stands before `s`, and none at `e`.
unfoldable pub before_ok : Bytes → ℕ → Bool
before_ok line s = s == 0 || not (byte_is is_word (get_elem? line (s - 1)))

unfoldable pub after_ok : Bytes → ℕ → Bool
after_ok line e = leb (length line) e || not (byte_is is_word (get_elem? line e))

-- How the loop ends; `out_of_fuel` has no counterpart in the program.
pub data Search : Type 0 where
  found : ℕ → Search
  not_found out_of_fuel : Search

-- The `while let`, one occurrence for a unit of fuel. `not_found` is the end of the loop, behind which
-- the code gives the fallback.
unfoldable pub locate_loop : ℕ → Bytes → Bytes → ℕ → Search
locate_loop zero line name i = out_of_fuel
locate_loop (suc f) line name i = elim (find_from line name i) [
  | none ↦ not_found
  | some rel ↦ elim (before_ok line (i + rel) && after_ok line (i + rel + length name)) [
    | true ↦ found (i + rel)
    | false ↦ locate_loop f line name (max (i + rel + length name) (i + rel + 1))
  ]
]

abbrev pub fallback : Finding → ℕ × ℕ × ℕ
fallback f = (f.line, f.col, 1)

-- What a search gives; the fuel of `locate_on` is enough, so that its search is never `out_of_fuel`.
unfoldable pub located : Finding → Search → ℕ × ℕ × ℕ
located f (found s) = (f.line, (s % u32_mod + 1) % u32_mod, length f.name % u32_mod)
located f not_found = fallback f
located f out_of_fuel = fallback f

-- On the line of the finding, if there is one. The loop moves on by a byte at least, so the fuel
-- pays for the whole line.
unfoldable pub locate_on : Finding → Option Bytes → ℕ × ℕ × ℕ
unfolding located locate_loop find_from before_ok after_ok
locate_on f none = fallback f
locate_on f (some line) =
    located f (locate_loop (suc (length line)) line f.name (min (f.col - 1) (length line)))

unfoldable pub locate : Bytes → Finding → ℕ × ℕ × ℕ
unfolding locate_on lines bytes_eq
locate src f =
    if bytes_eq f.name [] then fallback f else locate_on f (get_elem? (lines src) (f.line - 1))
