-- ===== src/Fmt/Scan.antt =====
-- crates/fmt/src/lib.rs: `scan`, what the formatter knows of each line.
use maka.Base.{
  ℕ, zero, suc, ◌-◌, Bool, true, false, ◌&&◌, ◌||◌, List, [], ◌∷◌, Bytes, ◌==◌, if◌then◌else◌,
}
use maka.Base.Int.{ℤ, pos, negsuc}

-- `line` is the inner loop that skips a line comment.
pub data St : Type 0 where
  normal str chr line : St
  block : ℕ → St

pub record LineInfo : Type 0 where
  pub depth : ℤ
  pub verbatim : Bool

abbrev inc : ℤ → ℤ
inc (pos n) = pos (suc n)
inc (negsuc zero) = pos 0
inc (negsuc (suc n)) = negsuc n

abbrev dec : ℤ → ℤ
dec (pos zero) = negsuc 0
dec (pos (suc n)) = pos n
dec (negsuc n) = negsuc (suc n)

abbrev pub opener : ℕ → Bool
opener c = c == b'{' || c == b'(' || c == b'['

abbrev pub closer : ℕ → Bool
closer c = c == b'}' || c == b')' || c == b']'

abbrev is_text : St → Bool
is_text (block d) = true
is_text str = true
is_text chr = true
is_text _ = false

-- What an iteration makes of the bytes at `i`: the state and the depth after it, how many bytes more
-- than one it takes, and whether a new line begins.
record Step : Type 0 where
  st : St
  depth : ℤ
  more : ℕ
  newline : Bool

abbrev goes : St → ℤ → ℕ → Step
goes s d m = record { st = s; depth = d; more = m; newline = false }

abbrev line_end : St → ℤ → Step
line_end s d = record { st = s; depth = d; more = 0; newline = true }

-- The arms of `St::Str` and `St::Chr`, with the closing quote.
abbrev quoted : St → ℕ → ℤ → ℕ → Step
quoted s quote d c =
    if c == 92
    then goes s d 1
    else if c == quote
    then goes normal d 0
    else if c == 10
    then line_end s d
    else goes s d 0

-- `if d == 1 { St::Normal } else { St::Block(d - 1) }`.
abbrev leave : ℕ → St
leave d = if d == 1 then normal else block (d - 1)

-- `c` is `src[i]`, `c1` is `src[i + 1]`, or 0 at the end.
unfoldable scan_step : St → ℤ → ℕ → ℕ → Step
scan_step normal d c c1 =
    if c == b'/' && c1 == b'/'
    then goes line d 1
    else if c == b'/' && c1 == b'*'
    then goes (block 1) d 1
    else if c == 34
    then goes str d 0
    else if c == 39
    then goes chr d 0
    else if opener c
    then goes normal (inc d) 0
    else if closer c
    then goes normal (dec d) 0
    else if c == 10
    then line_end normal d
    else goes normal d 0
scan_step line d c c1 = if c == 10 then line_end normal d else goes line d 0
scan_step (block n) d c c1 =
    if c == b'/' && c1 == b'*'
    then goes (block (suc n)) d 1
    else if c == b'*' && c1 == b'/'
    then goes (leave n) d 1
    else if c == 10
    then line_end (block n) d
    else goes (block n) d 0
scan_step str d c c1 = quoted str 34 d c
scan_step chr d c c1 = quoted chr 39 d c

abbrev head_or_zero : Bytes → ℕ
head_or_zero [] = 0
head_or_zero (c ∷ _) = c

abbrev line_info : Step → LineInfo
line_info s = record { depth = s.depth; verbatim = is_text s.st }

-- `while i < n`; the number counts the bytes that the last iteration took already.
unfoldable scan_loop : ℕ → St → ℤ → Bytes → List LineInfo
unfolding scan_step
scan_loop k st d [] = []
scan_loop (suc k) st d (c ∷ rest) = scan_loop k st d rest
scan_loop zero st d (c ∷ rest) =
    let s = scan_step st d c (head_or_zero rest) in
    let lines = scan_loop s.more s.st s.depth rest in
    if s.newline then line_info s ∷ lines else lines

unfoldable pub scan : Bytes → List LineInfo
unfolding scan_loop
scan src = record { depth = pos 0; verbatim = false } ∷ scan_loop 0 normal (pos 0) src
