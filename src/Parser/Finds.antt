-- ===== src/Parser/Finds.antt =====
-- crates/parser/src/lib.rs: a postcondition on a parse that may find nothing.
use maka.Base.{ℕ, ◌+◌, Option, none, some, arith}
use maka.Parser.Post.{Post, yields, fails, overflows}
use maka.Parser.Progress.{Step, Step_trans, Step_less}
use maka.Parser.State.{State, ParseError, Parsed, parsed, failed, overflowed, P, and_then, caught}

-- What is found has eaten a token.
pub data Finds {ℓ} {A : Type ℓ} (s : State) : Parsed (Option A) → Type ℓ where
  nothing : {t : State} → Step s t 0 → Finds s (parsed none t)
  found : {a : A} {t : State} → Step s t 1 → Finds s (parsed (some a) t)
  errs : {e : ParseError} {t : State} → Step s t 0 → Finds s (failed e t)
  panics : Finds s overflowed

pub Finds-Post {ℓ} : {A : Type ℓ} {s : State} {r : Parsed (Option A)} → Post s 1 r → Finds s r
Finds-Post (yields {a = none} st) = nothing (Step_less st (omega arith))
Finds-Post (yields {a = some a} st) = found st
Finds-Post (fails st) = errs st
Finds-Post overflows = panics

module _ {ℓ κ} {A : Type ℓ} {B : Type κ} {s : State} where
  pub Finds-attempt :
      {r : Parsed A} {q : P (Option B)} {f : A → P (Option B)}
      → Post s 1 r
      → ((u : State) → Step s u 0 → Finds s (q u))
      → ((a : A) (u : State) → Step s u 1 → Finds s (f a u))
      → Finds s
          (and_then (caught r) (λ o. elim o as (λ _. P (Option B)) [ none ↦ q | some a ↦ f a ]))
  Finds-attempt (yields {a} {t = u} su) jn js = js a u su
  Finds-attempt (fails {t = u} su) jn js = jn u su
  Finds-attempt overflows jn js = panics

  pub Finds-bind :
      {r : Parsed (Option A)} {q : P (Option B)} {f : A → P (Option B)}
      → Finds s r
      → ((u : State) → Step s u 0 → Finds s (q u))
      → ((a : A) (u : State) → Step s u 1 → Finds s (f a u))
      → Finds s (and_then r (λ o. elim o as (λ _. P (Option B)) [ none ↦ q | some a ↦ f a ]))
  Finds-bind (nothing {t} st) jn js = jn t st
  Finds-bind (found {a} {t} st) jn js = js a t st
  Finds-bind (errs st) jn js = errs st
  Finds-bind panics jn js = panics

  pub Post-found :
      {e d : ℕ} {t : State} {r : Parsed (Option A)} {q : P B} {f : A → P B}
      → Step s t d
      → Finds t r
      → ((u : State) → Step s u d → Post s e (q u))
      → ((a : A) (u : State) → Step s u (d + 1) → Post s e (f a u))
      → Post s e (and_then r (λ o. elim o as (λ _. P B) [ none ↦ q | some a ↦ f a ]))
  Post-found st (nothing {t = u} su) jn js = jn u (Step_less (Step_trans st su) (omega arith))
  Post-found st (found {a} {t = u} su) jn js = js a u (Step_trans st su)
  Post-found st (errs su) jn js = fails (Step_less (Step_trans st su) (omega arith))
  Post-found st panics jn js = overflows
