-- ===== src/Parser/Fueled.antt =====
-- crates/parser/src/lib.rs: a loop or a recursion with the fuel that its tokens need.
use maka.Base.{[], ◌∷◌, ◌≡◌, ℕ, ◌+◌, ◌*◌, ◌≤◌, ◌<◌, Option, none, some, Bytes, refl, arith}
use maka.Parser.Post.{bump_step, Post, Post-bind, kind_of}
use maka.Parser.Progress.{Ends, Step, Step_trans, weight}
use maka.Parser.State.{State, state, rest_of, P, ◌>>=◌, ◌>>◌, and_then, pure, peek, bump, name_of}
use maka.Lexer.Token.{TokKind, ident}

module _ {ℓ} {A : Type ℓ} where
  unfoldable pub fueled : (ℕ → P A) → P A
  fueled p s = p (10 * weight (rest_of s) + 10) s

  pub Post-fueled :
      {d : ℕ} (p : ℕ → P A) (s : State)
      → ((f : ℕ) → 10 * weight (rest_of s) + 10 ≤ f → Post s d (p f s))
      → Post s d (fueled p s)
  unfolding fueled
  Post-fueled p s h = h (10 * weight (rest_of s) + 10) (omega arith)

-- From every state with fewer than `n` tokens before it the parser keeps within its fuel and within the
-- tokens, and eats `d` of them.
abbrev pub Eats {ℓ} : {A : Type ℓ} → ℕ → ℕ → P A → Type ℓ
Eats n d p = (t : State) → Ends (rest_of t) → weight (rest_of t) < n → Post t d (p t)

module _ {ℓ κ} {A : Type ℓ} {B : Type κ} {s t : State} {n c d e : ℕ} where
  -- A part of a parser, behind what was eaten.
  pub Post-part :
      {p : P A} {k : A → P B}
      → Step s t d
      → Eats n c p
      → weight (rest_of t) < n
      → ((a : A) (u : State) → Step s u (d + c) → Post s e (k a u))
      → Post s e (and_then (p t) k)
  Post-part st h lt j = Post-bind st (h t (st.ends) lt) j

-- `if let TokKind::Ident(n) = self.peek().clone() { self.bump(); … }`.
unfoldable pub eat_ident : P (Option Bytes)
eat_ident = do
  kind ← peek
  elim (name_of kind) as (λ _. P (Option Bytes)) [
    | none ↦ pure none
    | some name ↦ (bump >> pure (some name))
  ]

module _ {κ} {B : Type κ} {s : State} {e d : ℕ} where
  name-Post :
      (kind : TokKind) (u : State) {q : P B} {f : Bytes → P B}
      → Step s u d
      → kind_of u ≡ kind
      → ((v : State) → Step s v d → Post s e (q v))
      → ((name : Bytes) (v : State) → Step s v (d + 1) → Post s e (f name v))
      → Post s e (
          and_then
            ((elim (name_of kind) as (λ _. P (Option Bytes)) [
              | none ↦ pure none
              | some name ↦ (bump >> pure (some name))
            ])
              u)
            (λ o. elim o as (λ _. P B) [ none ↦ q | some name ↦ f name ]))
  name-Post (ident name) u st h jn js =
      let (a, v, be, sv) = bump_step u (st.ends) (λ e. cc) in rw be (js name v (Step_trans st sv))
  name-Post _ u st h jn js = jn u st

  pub Post-eat_ident :
      (t : State) {q : P B} {f : Bytes → P B}
      → Step s t d
      → ((u : State) → Step s u d → Post s e (q u))
      → ((name : Bytes) (u : State) → Step s u (d + 1) → Post s e (f name u))
      → Post s e
          (and_then (eat_ident t) (λ o. elim o as (λ _. P B) [ none ↦ q | some name ↦ f name ]))
  unfolding eat_ident peek
  Post-eat_ident (state read []) st jn js = elim (st.ends) [ ]
  Post-eat_ident (state read (x ∷ rest)) st jn js =
      name-Post x.kind (state read (x ∷ rest)) st refl jn js
