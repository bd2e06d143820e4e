-- ===== src/Lint/Anchor.antt =====
-- crates/lint/src/lib.rs: where `locate` points.
use maka.Base.{
  ℕ, zero, suc, ◌+◌, ◌-◌, ◌%◌, ◌<◌, ◌≤◌, Bool, true, false, not, ◌&&◌, ◌⊎◌, inl, inr, [], ◌∷◌, ◌++◌,
  ◌≡◌, ◌≢◌, refl, sym, ap, subst, ◌∙◌, Option, none, some, Option-cases, Bytes, bytes_eq, length,
  length-append, get_elem?, drop, take, leb, ltb, ◌==◌, arith, Bool-cases, append_assoc,
}
use maka.Lexer.Cursor.{u32_mod}
use maka.Lint.Names.{Finding, first_is}
use maka.Lint.Locate.{
  is_word, is_prefix, find, is_char_boundary, find_from, byte_is, before_ok, after_ok, Search,
  found, not_found, out_of_fuel, locate_loop, fallback, located, locate_on, locate, lines,
}

-- The last byte passes the test.
abbrev pub last_is : Bytes → (ℕ → Bool) → Bool
last_is [] test = false
last_is (c ∷ []) test = test c
last_is (c ∷ c' ∷ cs) test = last_is (c' ∷ cs) test

-- `name` stands at byte `s` of `line`, with no word character on either side.
pub record WholeWord (line name : Bytes) (s : ℕ) : Type 0 where
  pub before : Bytes
  pub after : Bytes
  pub splits : line ≡ before ++ (name ++ after)
  pub offset : length before ≡ s
  pub starts : last_is before is_word ≡ false
  pub stops : first_is after is_word ≡ false

is_prefix-splits :
    (name bs : Bytes) → is_prefix name bs ≡ true → (after : Bytes) × (bs ≡ name ++ after)
unfolding is_prefix
is_prefix-splits [] bs h = (bs, refl)
is_prefix-splits (x ∷ xs) [] h = absurd (cc)
is_prefix-splits (x ∷ xs) (b ∷ bs) h =
    let (after, e) = is_prefix-splits xs bs (ground arith) in (after, ground (arith, e))

record Occurs (name bs : Bytes) (k : ℕ) : Type 0 where
  before : Bytes
  after : Bytes
  splits : bs ≡ before ++ (name ++ after)
  offset : length before ≡ k

Occurs-here : (name bs : Bytes) → is_prefix name bs ≡ true → Occurs name bs 0
Occurs-here name bs h =
    let (after, e) = is_prefix-splits name bs h in
    record { before = []; after = after; splits = e; offset = refl }

find-Occurs : (name bs : Bytes) (k : ℕ) → find name bs ≡ some k → Occurs name bs k
unfolding find
find-Occurs name [] k h = elim (Bool-cases (is_prefix name [])) [
  | inl e ↦ subst (Occurs name []) (cc (rw e at h)) (Occurs-here name [] e)
  | inr e ↦ absurd (let f : none ≡ some k = rw e at h in cc)
]
find-Occurs name (b ∷ bs) k h = elim (Bool-cases (is_prefix name (b ∷ bs))) [
  | inl e ↦ subst (Occurs name (b ∷ bs)) (cc (rw e at h)) (Occurs-here name (b ∷ bs) e)
  | inr e ↦ elim (Option-cases (find name bs)) [
    | inl n ↦ absurd (ground arith)
    | inr (j, f) ↦
        let o = find-Occurs name bs j f in
        record {
          before = b ∷ o.before;
          after = o.after;
          splits = ap (◌∷◌ b) o.splits;
          offset = ground (arith, o.offset);
        }
  ]
]

get_elem?-none : (bs : Bytes) (i : ℕ) → length bs ≤ i → get_elem? bs i ≡ none
get_elem?-none [] i h = refl
get_elem?-none (b ∷ bs) zero h = elim h [ ]
get_elem?-none (b ∷ bs) (suc i) h = get_elem?-none bs i (omega arith)

-- A character boundary is inside the line.
boundary-le : (line : Bytes) (i : ℕ) → is_char_boundary line i ≡ true → i ≤ length line
unfolding is_char_boundary
boundary-le line i h = elim (Bool-cases (ltb (length line) i)) [
  | inl e ↦ absurd (ground (arith, get_elem?-none line i))
  | inr e ↦ ground arith
]

take-drop :
    (i : ℕ) (bs : Bytes) → i ≤ length bs → (bs ≡ take i bs ++ drop i bs) × (length (take i bs) ≡ i)
take-drop zero bs h = (refl, refl)
take-drop (suc i) [] h = elim h [ ]
take-drop (suc i) (b ∷ bs) h = let (e, n) = take-drop i bs (omega arith) in (ap (◌∷◌ b) e, ap suc n)

find_from-Occurs :
    (line name : Bytes) (i rel : ℕ) → find_from line name i ≡ some rel → Occurs name line (i + rel)
unfolding find_from
find_from-Occurs line name i rel h = elim (Bool-cases (is_char_boundary line i)) [
  | inr e ↦ absurd (let f : none ≡ some rel = rw e at h in cc)
  | inl e ↦
      let o = find-Occurs name (drop i line) rel (rw e at h) in
      let (s, n) = take-drop i line (boundary-le line i e) in
      record {
        before = take i line ++ o.before;
        after = o.after;
        splits = s ∙ ap (◌++◌ (take i line)) o.splits ∙ sym (append_assoc (take i line) o.before _);
        offset = omega (arith, length-append (take i line) o.before, n, o.offset);
      }
]

not-true : (b : Bool) → not b ≡ true → b ≡ false
not-true b h = ground arith

last-get_elem? :
    (test : ℕ → Bool) (c : ℕ) (cs rest : Bytes)
    → byte_is test (get_elem? (c ∷ (cs ++ rest)) (length cs)) ≡ last_is (c ∷ cs) test
last-get_elem? test c [] rest = refl
last-get_elem? test c (c' ∷ cs) rest = last-get_elem? test c' cs rest

first-get_elem? :
    (test : ℕ → Bool) (xs after : Bytes)
    → byte_is test (get_elem? (xs ++ after) (length xs)) ≡ first_is after test
first-get_elem? test [] [] = refl
first-get_elem? test [] (c ∷ cs) = refl
first-get_elem? test (x ∷ xs) after = first-get_elem? test xs after

before_ok-last :
    (before rest : Bytes)
    → before_ok (before ++ rest) (length before) ≡ true
    → last_is before is_word ≡ false
unfolding before_ok
before_ok-last [] rest h = refl
before_ok-last (c ∷ cs) rest h =
    let e : suc (length cs) - 1 ≡ length cs = omega arith in
    let at_last = last-get_elem? is_word c cs rest in
    let z : (suc (length cs) == 0) ≡ false = ground arith in
    not-true (last_is (c ∷ cs) is_word) (rw (e, at_last, z) at h)

after_ok-first :
    (xs after : Bytes) → after_ok (xs ++ after) (length xs) ≡ true → first_is after is_word ≡ false
unfolding after_ok
after_ok-first xs [] h = refl
after_ok-first xs (c ∷ cs) h =
    let long : leb (length (xs ++ c ∷ cs)) (length xs) ≡ false =
      ground (arith, length-append xs (c ∷ cs)) in
    not-true (is_word c) (rw (long, first-get_elem? is_word xs (c ∷ cs)) at h)

-- An occurrence that passes the two tests is a whole word.
Occurs-WholeWord :
    {name line : Bytes} {s : ℕ}
    → Occurs name line s
    → before_ok line s ≡ true
    → after_ok line (s + length name) ≡ true
    → WholeWord line name s
Occurs-WholeWord {name} {line} {s} o b a =
    let e : line ≡ (o.before ++ name) ++ o.after =
      o.splits ∙ sym (append_assoc o.before name o.after) in
    let n : length (o.before ++ name) ≡ s + length name =
      omega (arith, length-append o.before name, o.offset) in
    record {
      before = o.before;
      after = o.after;
      splits = o.splits;
      offset = o.offset;
      starts = before_ok-last o.before (name ++ o.after) (rw (o.splits, sym o.offset) at b);
      stops = after_ok-first (o.before ++ name) o.after (rw (e, sym n) at a);
    }

locate_loop-WholeWord :
    (f : ℕ) (line name : Bytes) (i s : ℕ)
    → locate_loop f line name i ≡ found s
    → WholeWord line name s
unfolding locate_loop
locate_loop-WholeWord zero line name i s h = absurd (cc)
locate_loop-WholeWord (suc f) line name i s h = elim (Option-cases (find_from line name i)) [
  | inl n ↦ absurd (let g : not_found ≡ found s = rw (n, locate_loop) at h in cc)
  | inr (rel, e) ↦
      elim (Bool-cases (before_ok line (i + rel) && after_ok line (i + rel + length name))) [
        | inl t ↦
            let same : found (i + rel) ≡ found s = rw t at (rw (e, locate_loop) at h) in
            subst (WholeWord line name) (cc)
              (Occurs-WholeWord (find_from-Occurs line name i rel e) (ground arith) (ground arith))
        | inr t ↦ locate_loop-WholeWord f line name _ s (rw t at (rw (e, locate_loop) at h))
      ]
]

abbrev pub Anchored : Bytes → Finding → ℕ × ℕ × ℕ → Type 0
Anchored src f r =
    (r ≡ fallback f)
    ⊎ ((line : Bytes) × (s : ℕ) × (get_elem? (lines src) (f.line - 1) ≡ some line)
        × WholeWord line f.name s
        × (r ≡ (f.line, (s % u32_mod + 1) % u32_mod, length f.name % u32_mod)))

located-Anchored :
    (src : Bytes) (f : Finding) (line : Bytes) (r : Search)
    → get_elem? (lines src) (f.line - 1) ≡ some line
    → ((s : ℕ) → r ≡ found s → WholeWord line f.name s)
    → Anchored src f (located f r)
unfolding located
located-Anchored src f line (found s) e k = inr (line, s, e, k s refl, refl)
located-Anchored src f line not_found e k = inl refl
located-Anchored src f line out_of_fuel e k = inl refl

locate_on-Anchored :
    (src : Bytes) (f : Finding) (o : Option Bytes)
    → get_elem? (lines src) (f.line - 1) ≡ o
    → Anchored src f (locate_on f o)
unfolding locate_on
locate_on-Anchored src f none e = inl refl
locate_on-Anchored src f (some line) e =
    located-Anchored src f line (locate_loop (suc (length line)) line f.name _) e
      (λ s. locate_loop-WholeWord (suc (length line)) line f.name _ s)

-- `locate` gives the finding's own position, with width 1, or the place of a whole word that is
-- the finding's name, on the finding's line: its column, from 1, and the length of the name.
pub locate-Anchored : (src : Bytes) (f : Finding) → Anchored src f (locate src f)
unfolding locate
locate-Anchored src f = elim (Bool-cases (bytes_eq f.name [])) [
  | inl e ↦ rw e (inl refl)
  | inr e ↦ rw e (locate_on-Anchored src f _ refl)
]

find_from-le :
    (line name : Bytes) (i rel : ℕ)
    → find_from line name i ≡ some rel
    → i + rel + length name ≤ length line
find_from-le line name i rel h =
    let o = find_from-Occurs line name i rel h in
    omega (
      arith,
      ap length o.splits,
      length-append o.before (name ++ o.after),
      length-append name o.after,
      o.offset,
    )

-- The loop of `locate` ends: for a name that is not empty, from the byte `i` of the line on, it needs
-- no more rounds than there are bytes left, and one.
pub locate_loop-ends :
    (f : ℕ) (line name : Bytes) (i : ℕ)
    → 0 < length name
    → length line ≤ f + i
    → locate_loop (suc f) line name i ≢ out_of_fuel
unfolding locate_loop
locate_loop-ends zero line name i p h = elim (Option-cases (find_from line name i)) [
  | inl n ↦ rw (n, locate_loop) (λ e. cc)
  | inr (rel, e) ↦ absurd (omega (arith, find_from-le line name i rel e))
]
locate_loop-ends (suc f) line name i p h = elim (Option-cases (find_from line name i)) [
  | inl n ↦ rw (n, locate_loop) (λ e. cc)
  | inr (rel, e) ↦
      rw (e, locate_loop)
        (elim (Bool-cases (before_ok line (i + rel) && after_ok line (i + rel + length name))) [
          | inl t ↦ rw t (λ e. cc)
          | inr t ↦ rw t (locate_loop-ends f line name _ p (omega arith))
        ])
]
