-- ===== src/Hir/Unify.antt =====
-- crates/sema/src/hir.rs: `receiver_unify_impl`.
use maka.Base.{
  ℕ, suc, Bool, false, ◌&&◌, ◌||◌, List, [], ◌∷◌, Option, none, some, Bytes, bytes_eq, ◌==◌,
  if◌then◌else◌,
}
use maka.Ctfe.Outcome.{Table, get, insert}
use maka.Ctfe.Word.{int_eq}
use maka.Hir.Types.{
  HType, int, float, bool, char, unit, str, sized_int, struct, enum, ref, ptr, raw_ptr, own_ptr,
  slice, heap, vec, array, ty_var, generic_pattern, HTypes, nil, cons, bool_eq, type_eq,
}

-- What unification reads of `StructInfo` and `EnumInfo`.
pub record TemplateInfo : Type 0 where
  pub template : Option Bytes
  pub template_args : HTypes

-- What unification reads of `SymTab`; the ids in a type are indices of its tables.
pub record SymTab : Type 0 where
  pub struct_info : ℕ → TemplateInfo
  pub enum_info : ℕ → TemplateInfo

-- `tyvars.iter().any(|v| v == n)`.
unfoldable pub contains : List Bytes → Bytes → Bool
unfolding bytes_eq
contains [] n = false
contains (v ∷ vs) n = bytes_eq v n || contains vs n

abbrev pub count_types : HTypes → ℕ
count_types nil = 0
count_types (cons t ts) = suc (count_types ts)

-- A pattern variable that meets a type.
unfoldable pub bind_var : Bytes → HType → Table HType → Option (Table HType)
unfolding get type_eq
bind_var n actual env = elim (get env n) [
  | some prev ↦ if type_eq prev actual then some env else none
  | none ↦ some (insert n actual env)
]

-- The arguments of an instance, if it is one of the template `name` with `n` arguments.
unfoldable pub instance_args : Bytes → ℕ → TemplateInfo → Option HTypes
unfolding bytes_eq
instance_args name n info = elim info.template [
  | none ↦ none
  | some t ↦
      if bytes_eq t name && count_types info.template_args == n
      then some info.template_args
      else none
]

-- The `match actual` behind a generic pattern: the arguments that are unified with the pattern's.
unfoldable pub generic_args : Option SymTab → Bytes → ℕ → Bool → HType → Option HTypes
unfolding instance_args bytes_eq
generic_args none name n is_enum actual = none
generic_args (some sym) name n is_enum (struct id) =
    if is_enum then none else instance_args name n (sym.struct_info id)
generic_args (some sym) name n is_enum (enum id) =
    if is_enum then instance_args name n (sym.enum_info id) else none
generic_args (some sym) name n is_enum (generic_pattern u_name args u_enum) =
    if bytes_eq name u_name && bool_eq is_enum u_enum && n == count_types args
    then some args
    else none
generic_args (some sym) name n is_enum _ = none

-- `go` gives the environment where the source gives true; a failed unification drops it.
module _ (tyvars : List Bytes) (sym : Option SymTab) where
  unfoldable mutual
    unfolding contains bind_var int_eq

    pub unify : HType → HType → Table HType → Option (Table HType)
    unify (ty_var n) actual env = if contains tyvars n then bind_var n actual env else none
    unify (generic_pattern name args is_enum) actual env =
        elim (generic_args sym name (count_types args) is_enum actual) [
          | none ↦ none
          | some actual_args ↦ unify_each args actual_args env
        ]
    unify int int env = some env
    unify bool bool env = some env
    unify char char env = some env
    unify float float env = some env
    unify str str env = some env
    unify unit unit env = some env
    unify (sized_int s a) (sized_int t b) env = if bool_eq s t && a == b then some env else none
    unify (struct a) (struct b) env = if a == b then some env else none
    unify (enum a) (enum b) env = if a == b then some env else none
    unify (ref m t) (ref n u) env = let r = unify t u env in if bool_eq m n then r else none
    unify (ptr m t) (ptr n u) env = let r = unify t u env in if bool_eq m n then r else none
    unify (raw_ptr m t) (raw_ptr n u) env = let r = unify t u env in if bool_eq m n then r else none
    unify (own_ptr m t) (own_ptr n u) env = let r = unify t u env in if bool_eq m n then r else none
    unify (heap t) (heap u) env = unify t u env
    unify (slice m t) (slice n u) env = let r = unify t u env in if bool_eq m n then r else none
    unify (array a t) (array b u) env = let r = unify t u env in if int_eq a b then r else none
    unify (vec t) (vec u) env = unify t u env
    unify _ _ env = none

    pub unify_each : HTypes → HTypes → Table HType → Option (Table HType)
    unify_each (cons p ps) (cons a as') env = elim (unify p a env) [
      | none ↦ none
      | some env' ↦ unify_each ps as' env'
    ]
    unify_each _ _ env = some env

-- `receiver_unify_impl`; with `none` it is `receiver_unify`, else `receiver_unify_with_sym`.
unfoldable pub receiver_unify_impl :
    HType → HType → List Bytes → Option SymTab → Option (Table HType)
unfolding unify generic_args
receiver_unify_impl pat actual tyvars sym = unify tyvars sym pat actual []
