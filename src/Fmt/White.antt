-- ===== src/Fmt/White.antt =====
-- crates/fmt/src/lib.rs: a text without its white space.
use maka.Base.{
  ℕ, zero, suc, ◌≤◌, ◌≡◌, refl, sym, ap, ◌∙◌, true, false, [], ◌∷◌, ◌++◌, Bytes, length, inl, inr,
  arith, Bool-cases,
}
use maka.Fmt.Layout.{is_ws1, ws_width, trim_from, trim_start, trim_end, is_empty}
use maka.Fmt.Width.{
  begins, width-none, Width-cases, width-begins, Inner, width-Inner, width-one, width-two,
  width-line, width-le, width-space,
}

-- A text without its white space; the number counts the bytes of one that are still to be dropped.
unfoldable pub ink_from : ℕ → Bytes → Bytes
unfolding ws_width
ink_from k [] = []
ink_from (suc k) (c ∷ cs) = ink_from k cs
ink_from zero (c ∷ cs) =
    let rest = ink_from zero cs in
    elim (ws_width (c ∷ cs)) [ zero ↦ c ∷ rest | suc k ↦ ink_from k cs ]

abbrev pub ink : Bytes → Bytes
ink s = ink_from 0 s

ink-text : (c : ℕ) (cs : Bytes) → ws_width (c ∷ cs) ≡ 0 → ink (c ∷ cs) ≡ c ∷ ink cs
unfolding ink_from
ink-text c cs e = rw (e, ink_from) refl

ink-white : (c : ℕ) (cs : Bytes) (k : ℕ) → ws_width (c ∷ cs) ≡ suc k → ink (c ∷ cs) ≡ ink_from k cs
unfolding ink_from
ink-white c cs k e = rw (e, ink_from) refl

trim-text : (c : ℕ) (cs : Bytes) → ws_width (c ∷ cs) ≡ 0 → trim_start (c ∷ cs) ≡ c ∷ cs
unfolding trim_from
trim-text c cs e = rw (e, trim_from) refl

trim-white :
    (c : ℕ) (cs : Bytes) (k : ℕ) → ws_width (c ∷ cs) ≡ suc k → trim_start (c ∷ cs) ≡ trim_from k cs
unfolding trim_from
trim-white c cs k e = rw (e, trim_from) refl

-- `trim_start` drops white space only.
pub ink-trim_from : (k : ℕ) (s : Bytes) → ink (trim_from k s) ≡ ink_from k s
unfolding ink_from trim_from
ink-trim_from k [] = refl
ink-trim_from (suc k) (c ∷ cs) = ink-trim_from k cs
ink-trim_from zero (c ∷ cs) = elim (Width-cases (ws_width (c ∷ cs))) [
  | inl e ↦ ap ink (trim-text c cs e)
  | inr (k, e) ↦ ap ink (trim-white c cs k e) ∙ ink-trim_from k cs ∙ sym (ink-white c cs k e)
]

-- What is left of a text of white space only begins with a byte that can begin some.
all_white-begins : (a : ℕ) (s : Bytes) → is_empty (trim_start (a ∷ s)) ≡ true → begins a ≡ true
all_white-begins a s h = elim (Width-cases (ws_width (a ∷ s))) [
  | inl e ↦ let f : is_empty (a ∷ s) ≡ true = sym (ap is_empty (trim-text a s e)) ∙ h in cc
  | inr (k, e) ↦ width-begins a s k e
]

trim_end-cut : (c : ℕ) (cs : Bytes) → is_empty (trim_start (c ∷ cs)) ≡ true → trim_end (c ∷ cs) ≡ []
unfolding trim_end
trim_end-cut c cs h = rw h refl

trim_end-keep :
    (c : ℕ) (cs : Bytes)
    → is_empty (trim_start (c ∷ cs)) ≡ false
    → trim_end (c ∷ cs) ≡ c ∷ trim_end cs
unfolding trim_end
trim_end-keep c cs h = rw h refl

width-trim_end : (a : ℕ) (s : Bytes) → ws_width (a ∷ trim_end s) ≡ ws_width (a ∷ s)
unfolding ws_width trim_end
width-trim_end a [] = refl
width-trim_end a (b ∷ []) = elim (Bool-cases (is_empty (trim_start (b ∷ [])))) [
  | inl e ↦
      ap (λ t. ws_width (a ∷ t)) (trim_end-cut b [] e)
      ∙ sym (width-one a b [] (all_white-begins b [] e))
  | inr e ↦ ap (λ t. ws_width (a ∷ t)) (trim_end-keep b [] e)
]
width-trim_end a (b ∷ c ∷ s) = elim (Bool-cases (is_empty (trim_start (b ∷ c ∷ s)))) [
  | inl e ↦
      ap (λ t. ws_width (a ∷ t)) (trim_end-cut b (c ∷ s) e)
      ∙ sym (width-one a b (c ∷ s) (all_white-begins b (c ∷ s) e))
  | inr e ↦
      ap (λ t. ws_width (a ∷ t)) (trim_end-keep b (c ∷ s) e)
      ∙ elim (Bool-cases (is_empty (trim_start (c ∷ s)))) [
        | inl f ↦
            ap (λ t. ws_width (a ∷ b ∷ t)) (trim_end-cut c s f)
            ∙ sym (width-two a b c s (all_white-begins c s f))
        | inr f ↦ ap (λ t. ws_width (a ∷ b ∷ t)) (trim_end-keep c s f)
      ]
]

pub is_empty-nil : (s : Bytes) → is_empty s ≡ true → s ≡ []
is_empty-nil [] h = refl
is_empty-nil (c ∷ cs) h = cc

ink-Inner : (k : ℕ) (s : Bytes) → Inner k s → ink_from k (trim_end s) ≡ ink_from k s
unfolding Inner ink_from trim_end
ink-Inner k [] h = refl
ink-Inner (suc k) (c ∷ cs) h =
    let w = width-none c cs h.0 in
    let e : is_empty (trim_start (c ∷ cs)) ≡ false = ap is_empty (trim-text c cs w) in
    ap (ink_from (suc k)) (trim_end-keep c cs e) ∙ ink-Inner k cs h.1
ink-Inner zero (c ∷ cs) h = elim (Bool-cases (is_empty (trim_start (c ∷ cs)))) [
  | inl e ↦
      ap ink (trim_end-cut c cs e) ∙ sym (ap ink (is_empty-nil _ e)) ∙ ink-trim_from 0 (c ∷ cs)
  | inr e ↦ ap ink (trim_end-keep c cs e) ∙ elim (Width-cases (ws_width (c ∷ cs))) [
    | inl w ↦
        ink-text c (trim_end cs) (width-trim_end c cs ∙ w)
        ∙ ap (◌∷◌ c) (ink-Inner 0 cs tt)
        ∙ sym (ink-text c cs w)
    | inr (k, w) ↦
        ink-white c (trim_end cs) k (width-trim_end c cs ∙ w)
        ∙ ink-Inner k cs (width-Inner c cs k w)
        ∙ sym (ink-white c cs k w)
  ]
]

-- `trim_end` drops white space only.
pub ink-trim_end : (s : Bytes) → ink (trim_end s) ≡ ink s
unfolding Inner
ink-trim_end s = ink-Inner 0 s tt

pub ink-space : (c : ℕ) (s : Bytes) → is_ws1 c ≡ true → ink (c ∷ s) ≡ ink s
ink-space c s h = ink-white c s 0 (width-space c s h)

pub ink_from-line :
    (k : ℕ) (l r : Bytes) → k ≤ length l → ink_from k (l ++ 10 ∷ r) ≡ ink_from k l ++ ink r
unfolding ink_from
ink_from-line zero [] r h = ink-space 10 r refl
ink_from-line (suc k) [] r h = absurd (omega arith)
ink_from-line (suc k) (c ∷ cs) r h = ink_from-line k cs r (omega arith)
ink_from-line zero (c ∷ cs) r h = elim (Width-cases (ws_width (c ∷ cs))) [
  | inl w ↦
      ink-text c (cs ++ 10 ∷ r) (width-line c cs r ∙ w)
      ∙ ap (◌∷◌ c) (ink_from-line 0 cs r (omega arith))
      ∙ ap (λ t. t ++ ink r) (sym (ink-text c cs w))
  | inr (k, w) ↦
      ink-white c (cs ++ 10 ∷ r) k (width-line c cs r ∙ w)
      ∙ ink_from-line k cs r (width-le c cs k w)
      ∙ ap (λ t. t ++ ink r) (sym (ink-white c cs k w))
]
