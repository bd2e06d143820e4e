-- ===== src/Lint/Conforms.antt =====
-- crates/lint/src/lib.rs: the tests on names decide the naming conventions.
use maka.Base.{
  ℕ, Bool, true, false, not, ◌&&◌, ◌||◌, List, [], ◌∷◌, ◌++◌, ◌≡◌, ◌≢◌, ◌⊎◌, ◌↔◌, inl, inr, refl,
  sym, Bytes, codes, all, ◌==◌, arith, Bool-cases, append_assoc,
}
use maka.Lexer.Cursor.{within, is_digit}
use maka.Lexer.Spans.{All}
use maka.Lint.Names.{
  NameKind, type, variant, fn, var, field, module_kind, const, first_is, is_pascal, is_snake,
  is_screaming, skip, conforms, finding, rule_of, label, want,
}
use maka.Lint.Sites.{report}
use maka.Lint.Style.{
  Site, Among, Starts, Pascal, Cased, Follows, Exempt, topic, Reported, Reports, nothing, exempt,
  follows, breaks,
}

within-Among : (low high c : ℕ) → (within low high c ≡ true) ↔ Among low high c
within-Among low high c = ((λ h. (ground arith, ground arith)), (λ (a, b). ground (arith, a, b)))

first_is-Starts :
    (low high : ℕ) (name : Bytes) → (first_is name (within low high) ≡ true) ↔ Starts low high name
first_is-Starts low high [] = ((λ h. cc), (λ h. elim h [ ]))
first_is-Starts low high (c ∷ cs) = within-Among low high c

all-All :
    (test : ℕ → Bool) (P : ℕ → Type 0)
    → ((c : ℕ) → (test c ≡ true) ↔ P c)
    → (s : Bytes) → (all test s ≡ true) ↔ All P s
all-All test P k [] = ((λ h. tt), (λ h. refl))
all-All test P k (c ∷ cs) =
    let (to, from) = all-All test P k cs in
    (
      (λ h. ((k c).0 (ground arith), to (ground arith))),
      (λ (a, b). let x = (k c).1 a in let y = from b in ground arith),
    )

and_iff : (x y : Bool) {A B : Type 0} → (x ≡ true) ↔ A → (y ≡ true) ↔ B → (x && y ≡ true) ↔ (A × B)
and_iff true y a b = ((λ h. (a.0 refl, b.0 h)), (λ (p, q). b.1 q))
and_iff false y a b = ((λ h. cc), (λ (p, q). a.1 p))

or_iff : (x y : Bool) {A B : Type 0} → (x ≡ true) ↔ A → (y ≡ true) ↔ B → (x || y ≡ true) ↔ (A ⊎ B)
or_iff true y a b = ((λ h. inl (a.0 refl)), (λ h. refl))
or_iff false y a b =
    ((λ h. inr (b.0 h)), (λ h. elim h [ inl p ↦ absurd (cc (a.1 p)) | inr q ↦ b.1 q ]))

equal_iff : (c d : ℕ) → ((c == d) ≡ true) ↔ (c ≡ d)
equal_iff c d = ((λ h. ground arith), (λ h. ground (arith, h)))

differ_iff : (c d : ℕ) → (not (c == d) ≡ true) ↔ (c ≢ d)
differ_iff c d = ((λ h e. ground (arith, e)), (λ h. ground (arith, h)))

is_pascal-Pascal : (name : Bytes) → (is_pascal name ≡ true) ↔ Pascal name
unfolding is_pascal
is_pascal-Pascal name =
    and_iff _ _ (first_is-Starts b'A' b'Z' name) (all-All _ _ (λ c. differ_iff c b'_') name)

regroup : {A B C : Type 0} → (A ⊎ B) ⊎ C → A ⊎ (B ⊎ C)
regroup (inl (inl a)) = inl a
regroup (inl (inr b)) = inr (inl b)
regroup (inr c) = inr (inr c)

ungroup : {A B C : Type 0} → A ⊎ (B ⊎ C) → (A ⊎ B) ⊎ C
ungroup (inl a) = inl (inl a)
ungroup (inr (inl b)) = inl (inr b)
ungroup (inr (inr c)) = inr c

allowed_iff :
    (low high c : ℕ)
    → (within low high c || is_digit c || c == b'_' ≡ true)
      ↔ (Among low high c ⊎ (Among b'0' b'9' c ⊎ (c ≡ b'_')))
allowed_iff low high c =
    let head = or_iff _ _ (within-Among low high c) (within-Among b'0' b'9' c) in
    let whole = or_iff _ _ head (equal_iff c b'_') in
    ((λ h. regroup (whole.0 h)), (λ h. whole.1 (ungroup h)))

is_snake-Cased : (name : Bytes) → (is_snake name ≡ true) ↔ Cased b'a' b'z' name
unfolding is_snake
is_snake-Cased name =
    and_iff _ _ (first_is-Starts b'a' b'z' name) (all-All _ _ (allowed_iff b'a' b'z') name)

is_screaming-Cased : (name : Bytes) → (is_screaming name ≡ true) ↔ Cased b'A' b'Z' name
unfolding is_screaming
is_screaming-Cased name =
    and_iff _ _ (first_is-Starts b'A' b'Z' name) (all-All _ _ (allowed_iff b'A' b'Z') name)

conforms-Follows :
    (kind : NameKind) (name : Bytes) → (conforms kind name ≡ true) ↔ Follows kind name
unfolding conforms
conforms-Follows type name = is_pascal-Pascal name
conforms-Follows variant name = is_pascal-Pascal name
conforms-Follows fn name = is_snake-Cased name
conforms-Follows var name = or_iff _ _ (is_snake-Cased name) (is_screaming-Cased name)
conforms-Follows field name = is_snake-Cased name
conforms-Follows module_kind name = is_snake-Cased name
conforms-Follows const name = is_screaming-Cased name

skip-Exempt : (name : Bytes) → (skip name ≡ true) ↔ Exempt name
skip-Exempt [] = ((λ h. cc), (λ h. elim h [ ]))
skip-Exempt (c ∷ cs) = ((λ h. (ground arith, ground arith)), (λ (a, b). ground (arith, a, b)))

rule_of-topic : (kind : NameKind) → rule_of kind ≡ codes "naming/" ++ topic kind
unfolding rule_of
rule_of-topic type = refl
rule_of-topic variant = refl
rule_of-topic fn = refl
rule_of-topic var = refl
rule_of-topic field = refl
rule_of-topic module_kind = refl
rule_of-topic const = refl

finding-Reported : (s : Site) → Reported s (finding s.name s.span s.kind)
unfolding finding
finding-Reported s = record {
  name_is = refl;
  line_is = refl;
  col_is = refl;
  rule_is = rule_of-topic s.kind;
  before = label s.kind ++ codes " ";
  after = codes " should be " ++ want s.kind;
  quotes = sym (append_assoc (label s.kind) (codes " ") _);
}

ne_iff : {b : Bool} {A : Type 0} → (b ≡ true) ↔ A → b ≡ false → ¬ A
ne_iff h e a = cc (h.1 a)

-- The report of a list of names is what the linter owes to it.
pub report-Reports : (ss : List Site) → Reports ss (report ss)
report-Reports [] = nothing
report-Reports (s ∷ ss) = elim (Bool-cases (skip s.name)) [
  | inl e ↦ rw e (exempt ((skip-Exempt s.name).0 e) (report-Reports ss))
  | inr e ↦ rw e (elim (Bool-cases (conforms s.kind s.name)) [
    | inl c ↦ rw c (follows ((conforms-Follows s.kind s.name).0 c) (report-Reports ss))
    | inr c ↦ rw c (
        breaks (ne_iff (skip-Exempt s.name) e) (ne_iff (conforms-Follows s.kind s.name) c)
          (finding-Reported s) (report-Reports ss))
  ])
]
