-- ===== src/Fmt/Width.antt =====
-- crates/fmt/src/lib.rs: how wide the white space of a text is.
use maka.Base.{
  ℕ, zero, suc, ◌≤◌, ◌≡◌, refl, Bool, true, false, ◌||◌, [], ◌∷◌, ◌++◌, Bytes, length, ◌⊎◌, inl,
  inr, ◌==◌, if◌then◌else◌, arith, Bool-cases,
}
use maka.Fmt.Layout.{is_ws1, is_ws2, is_ws3, ws_1680, ws_2000, ws_205f, ws_3000, ws_width, between}

-- A byte that can begin white space.
abbrev pub begins : ℕ → Bool
begins a = is_ws1 a || a == 194 || a == 225 || a == 226 || a == 227

pub width-none : (a : ℕ) (s : Bytes) → begins a ≡ false → ws_width (a ∷ s) ≡ 0
unfolding ws_width
width-none a [] h = ground arith
width-none a (b ∷ []) h = ground arith
width-none a (b ∷ c ∷ s) h = ground arith

pub Width-cases : (n : ℕ) → (n ≡ 0) ⊎ ((k : ℕ) × (n ≡ suc k))
Width-cases zero = inl refl
Width-cases (suc k) = inr (k, refl)

pub width-begins : (a : ℕ) (s : Bytes) (k : ℕ) → ws_width (a ∷ s) ≡ suc k → begins a ≡ true
width-begins a s k h = elim (Bool-cases (begins a)) [
  | inl e ↦ e
  | inr e ↦ let f = width-none a s e in absurd (omega (arith, f, h))
]

-- `k` bytes from here on are inside a character, and begin none.
unfoldable pub Inner : ℕ → Bytes → Type 0
Inner zero s = Unit
Inner (suc k) [] = Unit
Inner (suc k) (c ∷ cs) = (begins c ≡ false) × Inner k cs

third :
    (p q r : Bool) → ◌≡◌ {A = ℕ} (if p then 1 else if q then 2 else if r then 3 else 0) 3 → r ≡ true
third true q r h = absurd (omega arith)
third false true r h = absurd (omega arith)
third false false true h = refl
third false false false h = absurd (omega arith)

or_four :
    (p q r t : Bool) {C : Type 0}
    → (p || q || r || t) ≡ true
    → (p ≡ true → C)
    → (q ≡ true → C)
    → (r ≡ true → C)
    → (t ≡ true → C)
    → C
or_four true q r t h hp hq hr ht = hp refl
or_four false true r t h hp hq hr ht = hq refl
or_four false false true t h hp hq hr ht = hr refl
or_four false false false true h hp hq hr ht = ht refl
or_four false false false false h hp hq hr ht = absurd (cc)

-- A byte that continues a character.
abbrev continues : ℕ → Bool
continues b = between 128 175 b

continues-begins : (b : ℕ) → continues b ≡ true → begins b ≡ false
continues-begins b h = ground arith

is_ws2-continues : (a b : ℕ) → is_ws2 a b ≡ true → continues b ≡ true
is_ws2-continues a b h = ground arith

is_ws3-second : (a b c : ℕ) → is_ws3 a b c ≡ true → continues b ≡ true
is_ws3-second a b c h =
    or_four (ws_1680 a b c) (ws_2000 a b c) (ws_205f a b c) (ws_3000 a b c) h (λ e. ground arith)
      (λ e. ground arith) (λ e. ground arith) (λ e. ground arith)

is_ws3-third : (a b c : ℕ) → is_ws3 a b c ≡ true → continues c ≡ true
is_ws3-third a b c h =
    or_four (ws_1680 a b c) (ws_2000 a b c) (ws_205f a b c) (ws_3000 a b c) h (λ e. ground arith)
      (λ e. ground arith) (λ e. ground arith) (λ e. ground arith)

pub width-Inner : (a : ℕ) (s : Bytes) (k : ℕ) → ws_width (a ∷ s) ≡ suc k → Inner k s
unfolding Inner ws_width
width-Inner a s zero h = tt
width-Inner a [] (suc k) h = tt
width-Inner a (b ∷ []) (suc zero) h = (let p : begins b ≡ false = ground arith in (p, tt))
width-Inner a (b ∷ []) (suc (suc k)) h = (let p : begins b ≡ false = ground arith in (p, tt))
width-Inner a (b ∷ c ∷ s) (suc zero) h = (let p : begins b ≡ false = ground arith in (p, tt))
width-Inner a (b ∷ c ∷ s) (suc (suc zero)) h =
    let t = third (is_ws1 a) (is_ws2 a b) (is_ws3 a b c) h in
    (continues-begins b (is_ws3-second a b c t), (continues-begins c (is_ws3-third a b c t), tt))
width-Inner a (b ∷ c ∷ s) (suc (suc (suc k))) h = absurd (ground arith)

pub width-one : (a b : ℕ) (s : Bytes) → begins b ≡ true → ws_width (a ∷ b ∷ s) ≡ ws_width (a ∷ [])
unfolding ws_width
width-one a b [] h = ground arith
width-one a b (c ∷ s) h = ground arith

pub width-two :
    (a b c : ℕ) (s : Bytes) → begins c ≡ true → ws_width (a ∷ b ∷ c ∷ s) ≡ ws_width (a ∷ b ∷ [])
unfolding ws_width
width-two a b c s h = ground arith

pub width-line : (a : ℕ) (l r : Bytes) → ws_width (a ∷ (l ++ 10 ∷ r)) ≡ ws_width (a ∷ l)
unfolding ws_width
width-line a [] [] = ground arith
width-line a [] (b ∷ r) = ground arith
width-line a (b ∷ []) r = ground arith
width-line a (b ∷ c ∷ l) r = refl

pub width-le : (a : ℕ) (s : Bytes) (k : ℕ) → ws_width (a ∷ s) ≡ suc k → k ≤ length s
unfolding ws_width
width-le a [] k h = ground arith
width-le a (b ∷ []) k h = ground arith
width-le a (b ∷ c ∷ s) k h = ground arith

pub width-space : (c : ℕ) (s : Bytes) → is_ws1 c ≡ true → ws_width (c ∷ s) ≡ 1
unfolding ws_width
width-space c [] h = rw h refl
width-space c (a ∷ []) h = rw h refl
width-space c (a ∷ b ∷ s) h = rw h refl
