-- ===== src/Parser/Progress.antt =====
-- crates/parser/src/lib.rs: what a parse leaves of the tokens, and how far it has come.
use maka.Base.{
  ℕ, ◌+◌, ◌<◌, ◌≤◌, ◌≡◌, refl, sym, subst, List, [], ◌∷◌, ◌++◌, append_assoc, length, arith,
}
use maka.Lexer.Token.{Token, TokKind, eof, gt, shr_op}
use maka.Parser.State.{State, state, rest_of, read_of, back}

-- The tokens end with the end of the file.
pub data Ends : List Token → Type 0 where
  last : {t : Token} → t.kind ≡ eof → Ends (t ∷ [])
  more : {t : Token} {ts : List Token} → Ends ts → Ends (t ∷ ts)

-- Some `>>` of the second tokens stand as `>` in the first.
pub data Splits : List Token → List Token → Type 0 where
  none : Splits [] []
  keep : {t : Token} {ts us : List Token} → Splits ts us → Splits (t ∷ ts) (t ∷ us)
  split :
      {t u : Token} {ts us : List Token}
      → t.kind ≡ gt
      → u.kind ≡ shr_op
      → Splits ts us
      → Splits (t ∷ ts) (u ∷ us)

pub Splits-refl : (ts : List Token) → Splits ts ts
Splits-refl [] = none
Splits-refl (t ∷ ts) = keep (Splits-refl ts)

pub Splits-trans : {ts us vs : List Token} → Splits ts us → Splits us vs → Splits ts vs
Splits-trans none none = none
Splits-trans (keep p) (keep q) = keep (Splits-trans p q)
Splits-trans (keep p) (split e f q) = split e f (Splits-trans p q)
Splits-trans (split e f p) (keep q) = split e f (Splits-trans p q)
Splits-trans (split e f p) (split g h q) = split e h (Splits-trans p q)

abbrev pub unread : List Token → List Token → List Token
unread [] rest = rest
unread (t ∷ read) rest = unread read (t ∷ rest)

pub unread-append : (xs ys rest : List Token) → unread (xs ++ ys) rest ≡ unread ys (unread xs rest)
unread-append [] ys rest = refl
unread-append (x ∷ xs) ys rest = unread-append xs ys (x ∷ rest)

pub Splits-unread :
    (ms : List Token) {ts us : List Token} → Splits ts us → Splits (unread ms ts) (unread ms us)
Splits-unread [] p = p
Splits-unread (m ∷ ms) p = Splits-unread ms (keep p)

pub Splits-Ends : {ts us : List Token} → Splits ts us → Ends us → Ends ts
Splits-Ends none h = elim h [ ]
Splits-Ends (keep none) (last e) = last e
Splits-Ends (keep p) (more h) = more (Splits-Ends p h)
Splits-Ends (split e f p) (last g) = cc
Splits-Ends (split e f p) (more h) = more (Splits-Ends p h)

abbrev pub kind_weight : TokKind → ℕ
kind_weight shr_op = 2
kind_weight _ = 1

-- A `>>` counts twice, since it can be split.
unfoldable pub weight : List Token → ℕ
weight [] = 0
weight (t ∷ ts) = kind_weight t.kind + weight ts

pub kind_weight-positive : (k : TokKind) → 0 < kind_weight k
kind_weight-positive shr_op = omega arith
kind_weight-positive _ = omega arith

Splits-weight : {ts us : List Token} → Splits ts us → weight ts ≤ weight us
unfolding weight
Splits-weight none = omega arith
Splits-weight (keep p) = omega (arith, Splits-weight p)
Splits-weight (split {t} {u} e f p) = rw (e, f) (omega (arith, Splits-weight p))

weight-unread : (ms ts : List Token) → weight ts ≤ weight (unread ms ts)
unfolding weight
weight-unread [] ts = omega arith
weight-unread (m ∷ ms) ts = omega (arith, weight-unread ms (m ∷ ts))

-- From `s` the parser came to `t`, which has `d` fewer tokens before it.
pub record Step (s t : State) (d : ℕ) : Type 0 where
  pub from_ends : Ends (rest_of s)
  pub ends : Ends (rest_of t)
  pub moved : List Token
  pub read_eq : read_of t ≡ moved ++ read_of s
  pub splits : Splits (unread moved (rest_of t)) (rest_of s)
  pub weigh : weight (rest_of t) + d ≤ weight (rest_of s)

pub Step_refl : (s : State) → Ends (rest_of s) → Step s s 0
Step_refl s h = record {
  from_ends = h;
  ends = h;
  moved = [];
  read_eq = refl;
  splits = Splits-refl (rest_of s);
  weigh = omega arith;
}

pub Step_trans : {s t u : State} {d c : ℕ} → Step s t d → Step t u c → Step s u (d + c)
Step_trans {s} {t} {u} p q = record {
  from_ends = p.from_ends;
  ends = q.ends;
  moved = q.moved ++ p.moved;
  read_eq = rw (q.read_eq, p.read_eq) (sym (append_assoc q.moved p.moved (read_of s)));
  splits =
      subst (λ ts. Splits ts (rest_of s)) (sym (unread-append q.moved p.moved (rest_of u)))
        (Splits-trans (Splits-unread p.moved q.splits) p.splits);
  weigh = omega (arith, p.weigh, q.weigh);
}

pub Step_less : {s t : State} {d c : ℕ} → Step s t d → c ≤ d → Step s t c
Step_less p le = record {
  from_ends = p.from_ends;
  ends = p.ends;
  moved = p.moved;
  read_eq = p.read_eq;
  splits = p.splits;
  weigh = omega (arith, p.weigh);
}

pub back-length : (read rest : List Token) → back (length read) read rest ≡ state read rest
unfolding back
back-length [] rest = refl
back-length (t ∷ read) rest = ground arith

length-moved : (ms read : List Token) → length read ≤ length (ms ++ read)
length-moved [] read = omega arith
length-moved (m ∷ ms) read = omega (arith, length-moved ms read)

pub back-moved :
    (ms read rest : List Token) → back (length read) (ms ++ read) rest ≡ state read (unread ms rest)
unfolding back
back-moved [] read rest = back-length read rest
back-moved (m ∷ ms) read rest = ground (arith, length-moved ms read, back-moved ms read (m ∷ rest))

-- To go back to where the parser was.
pub Step-back :
    {s t : State} {d : ℕ}
    → Step s t d
    → (u : State) × (back (length (read_of s)) (read_of t) (rest_of t) ≡ u) × Step s u 0
Step-back {s} {t} p = (
  state (read_of s) (unread p.moved (rest_of t)),
  rw (p.read_eq) (back-moved p.moved (read_of s) (rest_of t)),
  record {
    from_ends = p.from_ends;
    ends = Splits-Ends p.splits p.from_ends;
    moved = [];
    read_eq = refl;
    splits = p.splits;
    weigh = omega (arith, Splits-weight p.splits);
  },
)
