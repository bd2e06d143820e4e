-- ===== src/Parser/Post.antt =====
-- crates/parser/src/lib.rs: a postcondition on a parse, with a rule for each way to make one.
use maka.Base.{
  get_elem?, ℕ, ◌+◌, ◌≤◌, ◌≡◌, ◌≢◌, refl, Bool, true, false, Option, none, some, Bool-cases, inl,
  inr, ◌∷◌, if◌then◌else◌, arith, [],
}
use maka.Lexer.Token.{Span, Token, TokKind, eof, gt, shr_op}
use maka.Parser.Kind.{same_kind, not-same_kind, same_kind-eof}
use maka.Parser.Progress.{
  Ends, Step, Step_trans, Step_less, Splits-refl, weight, kind_weight-positive, Splits, Splits-Ends,
  split, last, more,
}
use maka.Parser.State.{
  State, state, rest_of, ParseError, Parsed, parsed, failed, overflowed, out_of_bounds, out_of_fuel,
  P, and_then, caught, peek_at, kind_or_eof, peek, peek_span, bump, at, eat, split_shr,
}

-- From `s` the parse kept within its fuel and within the tokens. It ate `d` of them where it has a
-- value.
pub data Post {ℓ} {A : Type ℓ} (s : State) (d : ℕ) : Parsed A → Type ℓ where
  yields : {a : A} {t : State} → Step s t d → Post s d (parsed a t)
  fails : {e : ParseError} {t : State} → Step s t 0 → Post s d (failed e t)
  overflows : Post s d overflowed

-- A parse that moved as `Post` says or panicked at an overflow, and never read behind the last token,
-- nor ran out of its fuel.
abbrev pub Total {ℓ} : {A : Type ℓ} → State → Parsed A → Type ℓ
Total s r = Post s 1 r × (r ≢ out_of_bounds) × (r ≢ out_of_fuel)

pub Post-Total {ℓ} : {A : Type ℓ} {s : State} {r : Parsed A} → Post s 1 r → Total s r
Post-Total (yields st) = (yields st, cc, cc)
Post-Total (fails st) = (fails st, cc, cc)
Post-Total overflows = (overflows, cc, cc)

-- The kind of the next token.
abbrev pub kind_of : State → TokKind
kind_of (state read []) = eof
kind_of (state read (t ∷ rest)) = t.kind

abbrev pub Bumped : State → Type 0
Bumped t = (a : Token) × (u : State) × (bump t ≡ parsed a u) × Step t u 1

pub bump_step : (t : State) → Ends (rest_of t) → kind_of t ≢ eof → Bumped t
unfolding bump weight
bump_step (state read []) h n = elim h [ ]
bump_step (state read (x ∷ [])) (last e) n = absurd (n e)
bump_step (state read (x ∷ rest)) (more h) n = (
  x,
  state (x ∷ read) rest,
  rw (not-same_kind x.kind n) refl,
  record {
    from_ends = more h;
    ends = h;
    moved = x ∷ [];
    read_eq = refl;
    splits = Splits-refl (x ∷ rest);
    weigh = omega (arith, kind_weight-positive x.kind);
  },
)

abbrev pub Halved : State → Type 0
Halved t = (a : Token) × (u : State) × (split_shr t ≡ parsed a u) × Step t u 1

pub split_step : (t : State) → Ends (rest_of t) → kind_of t ≡ shr_op → Halved t
unfolding split_shr weight
split_step (state read []) h n = elim h [ ]
split_step (state read (x ∷ rest)) h n =
    let half : Token = record { kind = gt; span = x.span } in
    let eq : Splits (half ∷ rest) (x ∷ rest) = split refl n (Splits-refl rest) in
    (
      half,
      state read (half ∷ rest),
      refl,
      record {
        from_ends = h;
        ends = Splits-Ends eq h;
        moved = [];
        read_eq = refl;
        splits = eq;
        weigh = rw n (omega arith);
      },
    )

module _ {ℓ} {A : Type ℓ} {s : State} {e : ℕ} where
  pub Post-done : {t : State} {d : ℕ} {a : A} → Step s t d → e ≤ d → Post s e (parsed a t)
  Post-done st le = yields (Step_less st le)

  pub Post-fail :
      {t : State} {d : ℕ} {err : ParseError} → Step s t d → Post {A = A} s e (failed err t)
  Post-fail st = fails (Step_less st (omega arith))

  pub Post-tail :
      {t : State} {d c : ℕ} {r : Parsed A} → Step s t d → Post t c r → e ≤ d + c → Post s e r
  Post-tail st (yields su) le = yields (Step_less (Step_trans st su) le)
  Post-tail st (fails su) le = fails (Step_less (Step_trans st su) (omega arith))
  Post-tail st overflows le = overflows

  module _ {t : State} {d : ℕ} where
    pub Post-if :
        (b : Bool) {p q : P A}
        → Step s t d
        → ((u : State) → Step s u d → Post s e (p u))
        → ((u : State) → Step s u d → Post s e (q u))
        → Post s e ((if b then p else q) t)
    Post-if true st hp hq = hp t st
    Post-if false st hp hq = hq t st

    pub Post-option {κ} :
        {B : Type κ} (o : Option B) {q : P A} {f : B → P A}
        → Step s t d
        → ((u : State) → Step s u d → Post s e (q u))
        → ((b : B) (u : State) → Step s u d → Post s e (f b u))
        → Post s e ((elim o as (λ _. P A) [ none ↦ q | some b ↦ f b ]) t)
    Post-option none st hq hf = hq t st
    Post-option (some b) st hq hf = hf b t st

module _ {ℓ κ} {A : Type ℓ} {B : Type κ} {s : State} {e : ℕ} {t : State} {d : ℕ} where
  pub Post-bind :
      {c : ℕ} {r : Parsed A} {k : A → P B}
      → Step s t d
      → Post t c r
      → ((a : A) (u : State) → Step s u (d + c) → Post s e (k a u))
      → Post s e (and_then r k)
  Post-bind st (yields {a} {t = u} su) j = j a u (Step_trans st su)
  Post-bind st (fails su) j = fails (Step_less (Step_trans st su) (omega arith))
  Post-bind st overflows j = overflows

  -- The parse of an attempt, and the two ways on.
  pub Post-attempt :
      {c : ℕ} {r : Parsed A} {q : P B} {f : A → P B}
      → Step s t d
      → Post t c r
      → ((u : State) → Step s u d → Post s e (q u))
      → ((a : A) (u : State) → Step s u (d + c) → Post s e (f a u))
      → Post s e (and_then (caught r) (λ o. elim o as (λ _. P B) [ none ↦ q | some a ↦ f a ]))
  Post-attempt st (yields {a} {t = u} su) jn js = js a u (Step_trans st su)
  Post-attempt st (fails {t = u} su) jn js = jn u (Step_less (Step_trans st su) (omega arith))
  Post-attempt st overflows jn js = overflows

module _ {κ} {B : Type κ} {s : State} {e d : ℕ} where
  pub Post-peek :
      (t : State) {k : TokKind → P B}
      → Step s t d
      → ((q : TokKind) (u : State) → Step s u d → kind_of u ≡ q → Post s e (k q u))
      → Post s e (and_then (peek t) k)
  unfolding peek
  Post-peek (state read []) st j = elim (st.ends) [ ]
  Post-peek (state read (x ∷ rest)) st j = j x.kind (state read (x ∷ rest)) st refl

  pub Post-peek_span :
      (t : State) {k : Span → P B}
      → Step s t d
      → ((span : Span) (u : State) → Step s u d → kind_of u ≡ kind_of t → Post s e (k span u))
      → Post s e (and_then (peek_span t) k)
  unfolding peek_span
  Post-peek_span (state read []) st j = elim (st.ends) [ ]
  Post-peek_span (state read (x ∷ rest)) st j = j x.span (state read (x ∷ rest)) st refl

  pub Post-peek_at :
      (n : ℕ) (t : State) {k : TokKind → P B}
      → Step s t d
      → ((q : TokKind) (u : State) → Step s u d → kind_of u ≡ kind_of t → Post s e (k q u))
      → Post s e (and_then (peek_at n t) k)
  unfolding peek_at
  Post-peek_at n t st j = j (kind_or_eof (get_elem? (rest_of t) n)) t st refl

  pub Post-bump :
      {t : State} {k : Token → P B}
      → Step s t d
      → kind_of t ≢ eof
      → ((a : Token) (u : State) → Step s u (d + 1) → Post s e (k a u))
      → Post s e (and_then (bump t) k)
  Post-bump {t} {k} st n j =
      let (a, u, eq, su) = bump_step t (st.ends) n in rw eq (j a u (Step_trans st su))

  pub Post-at :
      (x : TokKind) (t : State) {p q : P B}
      → Step s t d
      → ((u : State) → Step s u d → same_kind (kind_of u) x ≡ true → Post s e (p u))
      → ((u : State) → Step s u d → Post s e (q u))
      → Post s e (and_then (at x t) (λ b. if b then p else q))
  unfolding at peek
  Post-at x (state read []) st hp hq = elim (st.ends) [ ]
  Post-at x (state read (y ∷ rest)) st hp hq = elim (Bool-cases (same_kind y.kind x)) [
    | inl eq ↦ rw eq (hp (state read (y ∷ rest)) st eq)
    | inr eq ↦ rw eq (hq (state read (y ∷ rest)) st)
  ]

  pub Post-eat :
      (x : TokKind) (t : State) {p q : P B}
      → Step s t d
      → x ≢ eof
      → ((u : State) → Step s u (d + 1) → Post s e (p u))
      → ((u : State) → Step s u d → Post s e (q u))
      → Post s e (and_then (eat x t) (λ b. if b then p else q))
  unfolding eat at peek
  Post-eat x (state read []) st n hp hq = elim (st.ends) [ ]
  Post-eat x (state read (y ∷ rest)) st n hp hq = elim (Bool-cases (same_kind y.kind x)) [
    | inl eq ↦
        let (a, u, be, su) =
          bump_step (state read (y ∷ rest)) (st.ends) (same_kind-eof y.kind x eq n) in
        rw (eq, be) (hp u (Step_trans st su))
    | inr eq ↦ rw eq (hq (state read (y ∷ rest)) st)
  ]
