-- ===== src/Hir/Sound.antt =====
-- crates/sema/src/hir.rs: the results of `receiver_unify_impl`.
use maka.Base.{
  Bool, ◌&&◌, List, [], Option, none, some, Bytes, ◌==◌, ==_iff, ◌≡◌, refl, ap, subst, arith,
  if◌then◌else◌, Option-cases, inl, inr,
}
use maka.Ctfe.Division.{int_eq_iff}
use maka.Ctfe.Outcome.{Table, get, insert}
use maka.Ctfe.Word.{int_eq}
use maka.Hir.Equal.{and_both, bool_eq-same, type_eq-same}
use maka.Hir.Types.{
  HType, int, float, bool, char, unit, str, sized_int, struct, enum, ref, ptr, raw_ptr, own_ptr,
  slice, heap, vec, array, ty_var, generic_pattern, HTypes, nil, cons, bool_eq, type_eq, subst_vars,
  subst_each,
}
use maka.Hir.Unify.{
  SymTab, contains, count_types, bind_var, generic_args, unify, unify_each, receiver_unify_impl,
}
use maka.Hir.Instance.{
  Instance, Instances, Extends, Sound, same, ref_of, ptr_of, raw_ptr_of, own_ptr_of, slice_of,
  heap_of, vec_of, array_of, generic_of, no_instances, instances, Extends-refl, get-insert,
  insert-Extends, if-some, elim-some, some-same, generic_args-HasTemplate,
}

module _ (tab : Option SymTab) where
  kept :
      {P : Table HType → Type 0} (env env1 : Table HType)
      → some env ≡ some env1
      → ((env2 : Table HType) → Extends env env2 → P env2)
      → Sound tab P env env1
  kept {P} env env1 h k =
      subst (Sound tab P env) (some-same env env1 h)
        (record { extends = Extends-refl env; holds = k })

  Var : Bytes → HType → Table HType → Type 0
  Var n u env = Instance tab (subst_vars env (ty_var n)) u

  bound : (n : Bytes) (u : HType) (env : Table HType) → get env n ≡ some u → Var n u env
  unfolding Var subst_vars
  bound n u env h = rw h same

  bind_var-Sound :
      (n : Bytes) (u : HType) (env env1 : Table HType)
      → bind_var n u env ≡ some env1
      → Sound tab (Var n u) env env1
  unfolding bind_var Extends
  bind_var-Sound n u env env1 h = elim (Option-cases (get env n)) [
    | inl e ↦
        let f : some (insert n u env) ≡ some env1 = rw (e, bind_var) at h in
        subst (Sound tab (Var n u) env) (some-same _ env1 f) (record {
          extends = insert-Extends n u env e;
          holds = λ env2 x. bound n u env2 (x n u (get-insert n u env));
        })
    | inr (prev, e) ↦
        let f : (if type_eq prev u then some env else none) ≡ some env1 = rw (e, bind_var) at h in
        let (t, r) = if-some (type_eq prev u) (some env) env1 f in
        let k : get env n ≡ some u = subst (λ w. get env n ≡ some w) (type_eq-same prev u t) e in
        kept env env1 r (λ env2 x. bound n u env2 (x n u k))
  ]

  Sound-map :
      {P Q : Table HType → Type 0} {env env1 : Table HType}
      → Sound tab P env env1
      → ((e : Table HType) → P e → Q e)
      → Sound tab Q env env1
  Sound-map x k = record { extends = x.extends; holds = λ e y. k e (x.holds e y) }

  Inst : HType → HType → Table HType → Type 0
  Inst p u env = Instance tab (subst_vars env p) u

  Insts : HTypes → HTypes → Table HType → Type 0
  Insts ps us env = Instances tab (subst_each env ps) us

  module _ (tyvars : List Bytes) where
    flagged-Sound :
        (k : Bool → HType → HType) (m n : Bool) (p u : HType) (env env1 : Table HType)
        → ((e : Table HType) → subst_vars e (k m p) ≡ k m (subst_vars e p))
        → ((b : Bool) (t v : HType) → Instance tab t v → Instance tab (k b t) (k b v))
        → (unify tyvars tab p u env ≡ some env1 → Sound tab (Inst p u) env env1)
        → (if bool_eq m n then unify tyvars tab p u env else none) ≡ some env1
        → Sound tab (Inst (k m p) (k n u)) env env1
    unfolding Inst
    flagged-Sound k m n p u env env1 s c ih h =
        let (b, r) = if-some (bool_eq m n) (unify tyvars tab p u env) env1 h in
        let q = bool_eq-same m n b in
        Sound-map (ih r) (λ e i.
          rw (s e)
            (subst (λ x. Instance tab (k m (subst_vars e p)) (k x u)) q (c m (subst_vars e p) u i)))

    mutual
      unfolding unify Inst Insts Var Extends subst_vars

      unify-Sound :
          (p u : HType) (env env1 : Table HType)
          → unify tyvars tab p u env ≡ some env1
          → Sound tab (Inst p u) env env1
      unify-Sound (ty_var n) u env env1 h =
          let (b, r) = if-some (contains tyvars n) (bind_var n u env) env1 h in
          Sound-map (bind_var-Sound n u env env1 r) (λ e i. i)
      unify-Sound (generic_pattern name ps e) u env env1 h =
          let (us, q, f) =
            elim-some (generic_args tab name (count_types ps) e u)
              (λ us. unify_each tyvars tab ps us env) env1 h in
          let (t, c) = generic_args-HasTemplate tab name (count_types ps) e u us q in
          Sound-map (unify_each-Sound ps us env env1 c f) (λ e2 i. generic_of t i)
      unify-Sound int int env env1 h = kept env env1 h (λ e x. same)
      unify-Sound bool bool env env1 h = kept env env1 h (λ e x. same)
      unify-Sound char char env env1 h = kept env env1 h (λ e x. same)
      unify-Sound float float env env1 h = kept env env1 h (λ e x. same)
      unify-Sound str str env env1 h = kept env env1 h (λ e x. same)
      unify-Sound unit unit env env1 h = kept env env1 h (λ e x. same)
      unify-Sound (sized_int s a) (sized_int t b) env env1 h =
          let (x, r) = if-some (bool_eq s t && a == b) (some env) env1 h in
          let (y, z) = and_both (bool_eq s t) (a == b) x in
          let i = bool_eq-same s t y in
          let j = (==_iff a b).0 z in
          let k : sized_int s a ≡ sized_int t b = cc in
          kept env env1 r (λ e x. subst (Instance tab (sized_int s a)) k same)
      unify-Sound (struct a) (struct b) env env1 h =
          let (x, r) = if-some (a == b) (some env) env1 h in
          kept env env1 r
            (λ e y. subst (Instance tab (struct a)) (ap struct ((==_iff a b).0 x)) same)
      unify-Sound (enum a) (enum b) env env1 h =
          let (x, r) = if-some (a == b) (some env) env1 h in
          kept env env1 r (λ e y. subst (Instance tab (enum a)) (ap enum ((==_iff a b).0 x)) same)
      unify-Sound (ref m t) (ref n u) env env1 h =
          flagged-Sound ref m n t u env env1 (λ e. refl) (λ b t v i. ref_of i)
            (unify-Sound t u env env1) h
      unify-Sound (ptr m t) (ptr n u) env env1 h =
          flagged-Sound ptr m n t u env env1 (λ e. refl) (λ b t v i. ptr_of i)
            (unify-Sound t u env env1) h
      unify-Sound (raw_ptr m t) (raw_ptr n u) env env1 h =
          flagged-Sound raw_ptr m n t u env env1 (λ e. refl) (λ b t v i. raw_ptr_of i)
            (unify-Sound t u env env1) h
      unify-Sound (own_ptr m t) (own_ptr n u) env env1 h =
          flagged-Sound own_ptr m n t u env env1 (λ e. refl) (λ b t v i. own_ptr_of i)
            (unify-Sound t u env env1) h
      unify-Sound (slice m t) (slice n u) env env1 h =
          flagged-Sound slice m n t u env env1 (λ e. refl) (λ b t v i. slice_of i)
            (unify-Sound t u env env1) h
      unify-Sound (heap t) (heap u) env env1 h =
          Sound-map (unify-Sound t u env env1 h) (λ e i. heap_of i)
      unify-Sound (vec t) (vec u) env env1 h =
          Sound-map (unify-Sound t u env env1 h) (λ e i. vec_of i)
      unify-Sound (array a t) (array b u) env env1 h =
          let (x, r) = if-some (int_eq a b) (unify tyvars tab t u env) env1 h in
          Sound-map (unify-Sound t u env env1 r) (λ e i.
            subst (λ n. Instance tab (array a (subst_vars e t)) (array n u)) ((int_eq_iff a b).0 x)
              (array_of i))
      unify-Sound _ u env env1 h = cc

      unify_each-Sound :
          (ps us : HTypes) (env env1 : Table HType)
          → count_types us ≡ count_types ps
          → unify_each tyvars tab ps us env ≡ some env1
          → Sound tab (Insts ps us) env env1
      unify_each-Sound nil nil env env1 c h = kept env env1 h (λ e x. no_instances)
      unify_each-Sound nil (cons u us) env env1 c h = absurd (omega (arith, c))
      unify_each-Sound (cons p ps) nil env env1 c h = absurd (omega (arith, c))
      unify_each-Sound (cons p ps) (cons u us) env env1 c h =
          let (env', q, f) =
            elim-some (unify tyvars tab p u env) (λ env'. unify_each tyvars tab ps us env') env1
              h in
          let x = unify-Sound p u env env' q in
          let y = unify_each-Sound ps us env' env1 (omega (arith, c)) f in
          record {
            extends = λ n t g. y.extends n t (x.extends n t g);
            holds =
                λ e2 z. instances (x.holds e2 (λ n t g. z n t (y.extends n t g))) (y.holds e2 z);
          }

-- Where a receiver pattern unifies with a type, the pattern under the bindings that come back is the
-- type, but that a generic pattern may stand where the type has an instance of its template, with
-- arguments that are again instances of the pattern's.
pub receiver_unify_impl-Instance :
    (pat actual : HType) (tyvars : List Bytes) (tab : Option SymTab) (env : Table HType)
    → receiver_unify_impl pat actual tyvars tab ≡ some env
    → Instance tab (subst_vars env pat) actual
unfolding receiver_unify_impl Inst
receiver_unify_impl-Instance pat actual tyvars tab env h =
    (unify-Sound tab tyvars pat actual [] env h).holds env (Extends-refl env)
