-- ===== src/Parser/SkimEnds.antt =====
-- crates/parser/src/lib.rs: the look-ahead at a type keeps within its fuel and goes forward.
use maka.Base.{
  ℕ, zero, suc, ◌+◌, ◌*◌, ◌≤◌, ◌<◌, ◌≡◌, ◌≢◌, refl, Bool, false, [], ◌∷◌, Option, none, some,
  length, map, arith,
}
use maka.Lexer.Token.{
  Token, int, ident, mut_kw, const_kw, raw_kw, own_kw, dyn_kw, some_kw, unit_kw, colon_colon,
  lparen, rparen, lbracket, rbracket, plus, minus, star, slash, amp, shr_op, lt, gt,
}
use maka.Parser.Post.{Post, yields}
use maka.Parser.Progress.{Ends, Step_refl}
use maka.Parser.Skim.{
  Skim, after, no_type, out_of_fuel, Kinds, skim_then, skip_parens, skip_angles, skip_mutness,
  skip_mut, skip_length, skip_segments, skip_generics, skim_fn_params, skim_dyn, skim_type,
  skim_type_base, skim_array, skip_modifiers, declares, skim_all, looks_like_decl_kinds,
  looks_like_decl,
}
use maka.Parser.State.{State, Parsed, rest_of, no_fuel, pure}

-- Fewer than `n` kinds are left, if there is a type.
pub data Skims (n : ℕ) : Skim → Type 0 where
  leaves : {ks : Kinds} → length ks < n → Skims n (after ks)
  has_none : Skims n no_type

pub Skims-ne-out_of_fuel : {n : ℕ} {r : Skim} → Skims n r → r ≢ out_of_fuel
Skims-ne-out_of_fuel (leaves h) = cc
Skims-ne-out_of_fuel has_none = cc

Skims-then :
    {n m : ℕ} {r : Skim} {k : Kinds → Skim}
    → Skims n r
    → ((ks : Kinds) → length ks < n → Skims m (k ks))
    → Skims m (skim_then r k)
Skims-then (leaves {ks} h) j = j ks h
Skims-then has_none j = has_none

skip_parens-le : (d : ℕ) (ks : Kinds) → length ((skip_parens d ks).1) ≤ length ks
unfolding skip_parens
skip_parens-le zero ks = omega arith
skip_parens-le (suc d) [] = omega arith
skip_parens-le (suc d) (lparen ∷ ks) = omega (arith, skip_parens-le (suc (suc d)) ks)
skip_parens-le (suc d) (rparen ∷ ks) = omega (arith, skip_parens-le d ks)
skip_parens-le (suc d) (k ∷ ks) = omega (arith, skip_parens-le (suc d) ks)

-- What the angles leave, where they close.
abbrev Leaves : ℕ → Option Kinds → Type 0
Leaves n none = Unit
Leaves n (some ks) = length ks ≤ n

Leaves-suc : (n : ℕ) (o : Option Kinds) → Leaves n o → Leaves (suc n) o
Leaves-suc n none h = tt
Leaves-suc n (some ks) h = omega (arith, h)

skip_angles-Leaves : (d : ℕ) (ks : Kinds) → Leaves (length ks) (skip_angles d ks)
unfolding skip_angles
skip_angles-Leaves zero ks = omega arith
skip_angles-Leaves (suc d) [] = tt
skip_angles-Leaves (suc d) (lt ∷ ks) = Leaves-suc _ _ (skip_angles-Leaves (suc (suc d)) ks)
skip_angles-Leaves (suc d) (gt ∷ ks) = Leaves-suc _ _ (skip_angles-Leaves d ks)
skip_angles-Leaves (suc zero) (shr_op ∷ ks) = tt
skip_angles-Leaves (suc (suc d)) (shr_op ∷ ks) = Leaves-suc _ _ (skip_angles-Leaves d ks)
skip_angles-Leaves (suc d) (k ∷ ks) = Leaves-suc _ _ (skip_angles-Leaves (suc d) ks)

skip_mutness-le : (ks : Kinds) → length (skip_mutness ks) ≤ length ks
skip_mutness-le [] = omega arith
skip_mutness-le (mut_kw ∷ ks) = omega arith
skip_mutness-le (const_kw ∷ ks) = omega arith
skip_mutness-le (k ∷ ks) = omega arith

skip_mut-le : (ks : Kinds) → length (skip_mut ks) ≤ length ks
skip_mut-le [] = omega arith
skip_mut-le (mut_kw ∷ ks) = omega arith
skip_mut-le (k ∷ ks) = omega arith

skip_length-le : (ks : Kinds) → length (skip_length ks) ≤ length ks
unfolding skip_length
skip_length-le [] = omega arith
skip_length-le (int n ∷ ks) = omega (arith, skip_length-le ks)
skip_length-le (ident n ∷ ks) = omega (arith, skip_length-le ks)
skip_length-le (plus ∷ ks) = omega (arith, skip_length-le ks)
skip_length-le (minus ∷ ks) = omega (arith, skip_length-le ks)
skip_length-le (star ∷ ks) = omega (arith, skip_length-le ks)
skip_length-le (slash ∷ ks) = omega (arith, skip_length-le ks)
skip_length-le (lparen ∷ ks) = omega (arith, skip_length-le ks)
skip_length-le (rparen ∷ ks) = omega (arith, skip_length-le ks)
skip_length-le (k ∷ ks) = omega arith

skip_segments-le : (ks : Kinds) → length (skip_segments ks) ≤ length ks
unfolding skip_segments
skip_segments-le [] = omega arith
skip_segments-le (colon_colon ∷ []) = omega arith
skip_segments-le (colon_colon ∷ ident n ∷ ks) = omega (arith, skip_segments-le ks)
skip_segments-le (colon_colon ∷ k ∷ ks) = omega arith
skip_segments-le (k ∷ ks) = omega arith

closed-le :
    (ks : Kinds) (o : Option Kinds)
    → Leaves (length ks) o
    → length (elim o as (λ _. Kinds) [ none ↦ lt ∷ ks | some closed ↦ closed ]) ≤ suc (length ks)
closed-le ks none h = omega arith
closed-le ks (some closed) h = omega (arith, h)

skip_generics-le : (ks : Kinds) → length (skip_generics ks) ≤ length ks
unfolding skip_generics
skip_generics-le [] = omega arith
skip_generics-le (lt ∷ ks) = closed-le ks (skip_angles 1 ks) (skip_angles-Leaves 1 ks)
skip_generics-le (k ∷ ks) = omega arith

params-Skims :
    (depth : ℕ) (ks closed : Kinds)
    → length closed ≤ length ks
    → Skims
        (suc (suc (length ks)))
        (elim depth as (λ _. Skim) [ zero ↦ after closed | suc _ ↦ after (lparen ∷ ks) ])
params-Skims zero ks closed h = leaves (omega (arith, h))
params-Skims (suc depth) ks closed h = leaves (omega arith)

skim_fn_params-Skims : (ks : Kinds) → Skims (suc (length ks)) (skim_fn_params ks)
unfolding skim_fn_params
skim_fn_params-Skims [] = leaves (omega arith)
skim_fn_params-Skims (lparen ∷ ks) =
    params-Skims ((skip_parens 1 ks).0) ks ((skip_parens 1 ks).1) (skip_parens-le 1 ks)
skim_fn_params-Skims (k ∷ ks) = leaves (omega arith)

Skims-mono : {n m : ℕ} {r : Skim} → Skims n r → n ≤ m → Skims m r
Skims-mono (leaves h) le = leaves (omega (arith, h, le))
Skims-mono has_none le = has_none

skim_dyn-Skims : (ks : Kinds) → Skims (suc (length ks)) (skim_dyn ks)
unfolding skim_dyn
skim_dyn-Skims [] = has_none
skim_dyn-Skims (lparen ∷ ks) = leaves (omega (arith, skip_parens-le 1 ks))
skim_dyn-Skims (ident n ∷ ks) = leaves (omega arith)
skim_dyn-Skims (k ∷ ks) = has_none

named-Skims : (ks : Kinds) → Skims (suc (length ks)) (after (skip_segments (skip_generics ks)))
named-Skims ks = leaves (omega (arith, skip_segments-le (skip_generics ks), skip_generics-le ks))

mutual
  unfolding skim_type

  skim_type-Skims :
      (f : ℕ) (ks : Kinds) → 2 * length ks + 2 ≤ f → Skims (length ks) (skim_type f ks)
  skim_type-Skims zero ks h = absurd (omega (arith, h))
  skim_type-Skims (suc f) ks h =
      Skims-then (skim_type_base-Skims f ks (omega (arith, h)))
        (λ rest lt. Skims-mono (skim_fn_params-Skims rest) (omega (arith, lt)))

  skim_type_base-Skims :
      (f : ℕ) (ks : Kinds) → 2 * length ks + 1 ≤ f → Skims (length ks) (skim_type_base f ks)
  skim_type_base-Skims zero ks h = absurd (omega (arith, h))
  skim_type_base-Skims (suc f) (raw_kw ∷ star ∷ ks) h =
      Skims-mono (skim_type-Skims f (skip_mutness ks) (omega (arith, h, skip_mutness-le ks)))
        (omega (arith, skip_mutness-le ks))
  skim_type_base-Skims (suc f) (own_kw ∷ star ∷ ks) h =
      Skims-mono (skim_type-Skims f (skip_mutness ks) (omega (arith, h, skip_mutness-le ks)))
        (omega (arith, skip_mutness-le ks))
  skim_type_base-Skims (suc f) (own_kw ∷ amp ∷ ks) h =
      Skims-mono (skim_type-Skims f (skip_mutness ks) (omega (arith, h, skip_mutness-le ks)))
        (omega (arith, skip_mutness-le ks))
  skim_type_base-Skims (suc f) (amp ∷ ks) h =
      Skims-mono (skim_type-Skims f (skip_mutness ks) (omega (arith, h, skip_mutness-le ks)))
        (omega (arith, skip_mutness-le ks))
  skim_type_base-Skims (suc f) (star ∷ ks) h =
      Skims-mono (skim_type-Skims f (skip_mutness ks) (omega (arith, h, skip_mutness-le ks)))
        (omega (arith, skip_mutness-le ks))
  skim_type_base-Skims (suc f) (lbracket ∷ rbracket ∷ ks) h =
      Skims-mono (skim_type-Skims f (skip_mut ks) (omega (arith, h, skip_mut-le ks)))
        (omega (arith, skip_mut-le ks))
  skim_type_base-Skims (suc f) (lbracket ∷ star ∷ rbracket ∷ ks) h =
      Skims-mono (skim_type-Skims f ks (omega (arith, h))) (omega arith)
  skim_type_base-Skims (suc f) (lbracket ∷ int n ∷ ks) h =
      Skims-mono (skim_array-Skims f (skip_length ks) (omega (arith, h, skip_length-le ks)))
        (omega (arith, skip_length-le ks))
  skim_type_base-Skims (suc f) (lbracket ∷ ident n ∷ ks) h =
      Skims-mono (skim_array-Skims f (skip_length ks) (omega (arith, h, skip_length-le ks)))
        (omega (arith, skip_length-le ks))
  skim_type_base-Skims (suc f) (lbracket ∷ minus ∷ ks) h =
      Skims-mono (skim_array-Skims f (skip_length ks) (omega (arith, h, skip_length-le ks)))
        (omega (arith, skip_length-le ks))
  skim_type_base-Skims (suc f) (lbracket ∷ lparen ∷ ks) h =
      Skims-mono (skim_array-Skims f (skip_length ks) (omega (arith, h, skip_length-le ks)))
        (omega (arith, skip_length-le ks))
  skim_type_base-Skims (suc f) (lparen ∷ rparen ∷ ks) h = leaves (omega arith)
  skim_type_base-Skims (suc f) (ident n ∷ ks) h = Skims-mono (named-Skims ks) (omega arith)
  skim_type_base-Skims (suc f) (unit_kw ∷ ks) h = Skims-mono (named-Skims ks) (omega arith)
  skim_type_base-Skims (suc f) (dyn_kw ∷ ks) h = Skims-mono (skim_dyn-Skims ks) (omega arith)
  skim_type_base-Skims (suc f) (some_kw ∷ ks) h = Skims-mono (skim_dyn-Skims ks) (omega arith)
  skim_type_base-Skims (suc f) _ h = has_none

  skim_array-Skims :
      (f : ℕ) (ks : Kinds) → 2 * length ks + 3 ≤ f → Skims (length ks) (skim_array f ks)
  skim_array-Skims zero ks h = absurd (omega (arith, h))
  skim_array-Skims (suc f) (rbracket ∷ ks) h =
      Skims-mono (skim_type-Skims f ks (omega (arith, h))) (omega arith)
  skim_array-Skims (suc f) _ h = has_none

-- The look-ahead at a type ends on every list of kinds: it finds no type, or one behind which fewer
-- kinds are left than there were, so that it reads one kind at least.
pub skim_all-Skims : (ks : Kinds) → Skims (length ks) (skim_all ks)
unfolding skim_all
skim_all-Skims ks = skim_type-Skims (2 * length ks + 2) ks (omega arith)

decides :
    (r : Skim)
    → r ≢ out_of_fuel
    → (b : Bool) × ((elim r as (λ _. Option Bool) [
      | after rest ↦ some (declares rest)
      | no_type ↦ some false
      | out_of_fuel ↦ none
    ])
        ≡ some b)
decides (after rest) h = (declares rest, refl)
decides no_type h = (false, refl)
decides out_of_fuel h = absurd (h refl)

none-ne-some : {A : Type 0} {a : A} → none ≢ some a
none-ne-some e = cc

decided-Post :
    (o : Option Bool) (b : Bool) (t : State)
    → Ends (rest_of t)
    → o ≡ some b
    → Post t 0 (elim o as (λ _. Parsed Bool) [ none ↦ no_fuel t | some c ↦ pure c t ])
decided-Post none b t h e = absurd (none-ne-some e)
decided-Post (some c) b t h e = yields (Step_refl t h)

pub looks_like_decl-Post : (t : State) → Ends (rest_of t) → Post t 0 (looks_like_decl t)
unfolding looks_like_decl looks_like_decl_kinds
looks_like_decl-Post t h =
    let ks : Kinds = skip_modifiers (map (λ (x : Token). x.kind) (rest_of t)) in
    let (b, eq) = decides (skim_all ks) (Skims-ne-out_of_fuel (skim_all-Skims ks)) in
    decided-Post _ b t h eq
