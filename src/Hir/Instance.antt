-- ===== src/Hir/Instance.antt =====
-- crates/sema/src/hir.rs: instances of a receiver pattern, and what extends a table of bindings.
use maka.Base.{
  ℕ, Bool, true, false, ◌&&◌, Option, none, some, Bytes, bytes_eq, bytes_eq_iff, ◌==◌, ==_iff, ◌≡◌,
  refl, sym, ap, ◌∙◌, if◌then◌else◌, Bool-cases, Option-cases, inl, inr,
}
use maka.Base.Int.{ℤ}
use maka.Ctfe.Outcome.{Table, get, insert}
use maka.Hir.Equal.{and_both, bool_eq-same}
use maka.Hir.Types.{
  HType, struct, enum, ref, ptr, raw_ptr, own_ptr, slice, heap, vec, array, generic_pattern, HTypes,
  nil, cons, bool_eq,
}
use maka.Hir.Unify.{TemplateInfo, SymTab, count_types, instance_args, generic_args}

-- The type is an instance of the template `name` with the arguments `args`, or a pattern of it.
pub data HasTemplate (tab : Option SymTab) (name : Bytes) (args : HTypes)
    : Bool → HType → Type 0 where
  struct_of :
      {s : SymTab} {id : ℕ}
      → tab ≡ some s
      → (s.struct_info id).template ≡ some name
      → (s.struct_info id).template_args ≡ args
      → HasTemplate tab name args false (struct id)
  enum_of :
      {s : SymTab} {id : ℕ}
      → tab ≡ some s
      → (s.enum_info id).template ≡ some name
      → (s.enum_info id).template_args ≡ args
      → HasTemplate tab name args true (enum id)
  pattern_of :
      {m : Bytes} {ts : HTypes} {e f : Bool}
      → m ≡ name
      → ts ≡ args
      → f ≡ e
      → HasTemplate tab name args e (generic_pattern m ts f)

-- The second is the first, but that an instance of a template may stand for the template with the
-- instance's arguments.
mutual
  pub data Instance (tab : Option SymTab) : HType → HType → Type 0 where
    same : {t : HType} → Instance tab t t
    ref_of : {m : Bool} {t u : HType} → Instance tab t u → Instance tab (ref m t) (ref m u)
    ptr_of : {m : Bool} {t u : HType} → Instance tab t u → Instance tab (ptr m t) (ptr m u)
    raw_ptr_of :
        {m : Bool} {t u : HType} → Instance tab t u → Instance tab (raw_ptr m t) (raw_ptr m u)
    own_ptr_of :
        {m : Bool} {t u : HType} → Instance tab t u → Instance tab (own_ptr m t) (own_ptr m u)
    slice_of : {m : Bool} {t u : HType} → Instance tab t u → Instance tab (slice m t) (slice m u)
    heap_of : {t u : HType} → Instance tab t u → Instance tab (heap t) (heap u)
    vec_of : {t u : HType} → Instance tab t u → Instance tab (vec t) (vec u)
    array_of : {n : ℤ} {t u : HType} → Instance tab t u → Instance tab (array n t) (array n u)
    generic_of :
        {name : Bytes} {ts us : HTypes} {e : Bool} {u : HType}
        → HasTemplate tab name us e u
        → Instances tab ts us
        → Instance tab (generic_pattern name ts e) u

  pub data Instances (tab : Option SymTab) : HTypes → HTypes → Type 0 where
    no_instances : Instances tab nil nil
    instances :
        {t u : HType} {ts us : HTypes}
        → Instance tab t u
        → Instances tab ts us
        → Instances tab (cons t ts) (cons u us)

-- Every binding of the first is one of the second.
unfoldable pub Extends : Table HType → Table HType → Type 0
Extends env env' = (n : Bytes) (t : HType) → get env n ≡ some t → get env' n ≡ some t

-- After unification: the bindings are kept, and under them and all that extend them the pattern has
-- the type as its instance.
pub record Sound (tab : Option SymTab) (P : Table HType → Type 0) (env env1 : Table HType)
    : Type 0 where
  pub extends : Extends env env1
  pub holds : (env2 : Table HType) → Extends env1 env2 → P env2

pub Extends-refl : (env : Table HType) → Extends env env
unfolding Extends
Extends-refl env n t h = h

pub get-insert : (n : Bytes) (t : HType) (env : Table HType) → get (insert n t env) n ≡ some t
unfolding get
get-insert n t env = rw ((bytes_eq_iff n n).1 refl) refl

pub insert-Extends :
    (n : Bytes) (t : HType) (env : Table HType) → get env n ≡ none → Extends env (insert n t env)
unfolding Extends get
insert-Extends n t env h m u e = elim (Bool-cases (bytes_eq n m)) [
  | inl b ↦
      let q : n ≡ m = (bytes_eq_iff n m).0 b in
      let k : get env m ≡ none = ap (get env) (sym q) ∙ h in let f : none ≡ some u = sym k ∙ e in cc
  | inr b ↦ rw b e
]

-- A test in front of a result.
pub if-some :
    {A : Type 0} (b : Bool) (r : Option A) (a : A)
    → (if b then r else none) ≡ some a
    → (b ≡ true) × (r ≡ some a)
if-some true r a h = (refl, h)
if-some false r a h = cc

-- A result that goes on where another has a value.
pub elim-some :
    {A B : Type 0} (o : Option A) (k : A → Option B) (b : B)
    → (elim o [ none ↦ none | some a ↦ k a ]) ≡ some b
    → (a : A) × (o ≡ some a) × (k a ≡ some b)
elim-some none k b h = cc
elim-some (some a) k b h = (a, refl, h)

pub some-same : {A : Type 0} (a b : A) → some a ≡ some b → a ≡ b
some-same a b h = cc

instance_args-some :
    (name : Bytes) (n : ℕ) (info : TemplateInfo) (us : HTypes)
    → instance_args name n info ≡ some us
    → (info.template ≡ some name) × (info.template_args ≡ us) × (count_types us ≡ n)
unfolding instance_args
instance_args-some name n info us h = elim (Option-cases info.template) [
  | inl e ↦ let f : none ≡ some us = rw (e, instance_args) at h in cc
  | inr (t, e) ↦
      let f : (if bytes_eq t name && count_types info.template_args == n
            then some info.template_args
            else none)
          ≡ some us =
        rw (e, instance_args) at h in
      let (b, r) = if-some _ (some info.template_args) us f in
      let (p, q) = and_both (bytes_eq t name) (count_types info.template_args == n) b in
      let a : t ≡ name = (bytes_eq_iff t name).0 p in
      let c : info.template_args ≡ us = some-same info.template_args us r in
      let d : count_types info.template_args ≡ n =
        (==_iff (count_types info.template_args) n).0 q in
      (e ∙ ap some a, c, ap count_types (sym c) ∙ d)
]

pub generic_args-HasTemplate :
    (tab : Option SymTab) (name : Bytes) (n : ℕ) (e : Bool) (u : HType) (us : HTypes)
    → generic_args tab name n e u ≡ some us
    → HasTemplate tab name us e u × (count_types us ≡ n)
unfolding generic_args
generic_args-HasTemplate none name n e u us h = cc
generic_args-HasTemplate (some s) name n false (struct id) us h =
    let (a, b, c) = instance_args-some name n (s.struct_info id) us h in (struct_of refl a b, c)
generic_args-HasTemplate (some s) name n true (struct id) us h = cc
generic_args-HasTemplate (some s) name n true (enum id) us h =
    let (a, b, c) = instance_args-some name n (s.enum_info id) us h in (enum_of refl a b, c)
generic_args-HasTemplate (some s) name n false (enum id) us h = cc
generic_args-HasTemplate (some s) name n e (generic_pattern m ts f) us h =
    let (b, r) = if-some (bytes_eq name m && bool_eq e f && n == count_types ts) (some ts) us h in
    let (p, q) = and_both (bytes_eq name m && bool_eq e f) (n == count_types ts) b in
    let (x, y) = and_both (bytes_eq name m) (bool_eq e f) p in
    let i : name ≡ m = (bytes_eq_iff name m).0 x in
    let j : e ≡ f = bool_eq-same e f y in
    let k : ts ≡ us = some-same ts us r in
    let d : n ≡ count_types ts = (==_iff n (count_types ts)).0 q in
    (pattern_of (sym i) k (sym j), ap count_types (sym k) ∙ sym d)
generic_args-HasTemplate (some s) name n e _ us h = cc
