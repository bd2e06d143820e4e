-- ===== src/Tests/Receivers.antt =====
-- The theorem on receiver patterns at a concrete receiver.
use maka.Base.{ℕ, none, [], ◌∷◌, some, ◌≡◌, refl, codes}
use maka.Ctfe.Outcome.{Table}
use maka.Hir.Complete.{Agrees, listed, receiver_unify_impl-Agrees}
use maka.Hir.Instance.{Instance}
use maka.Hir.Sound.{receiver_unify_impl-Instance}
use maka.Hir.Types.{
  HType, int, bool, ptr, own_ptr, struct, ty_var, generic_pattern, nil, cons, subst_vars,
}
use maka.Hir.Unify.{TemplateInfo, SymTab, receiver_unify_impl}
use maka.Base.{true, false}

-- `Pair<int, bool>` is struct 1.
abbrev info : ℕ → TemplateInfo
info id = record { template = some (codes "Pair"); template_args = cons int (cons bool nil) }

abbrev tables : SymTab
tables = record { struct_info = info; enum_info = info }

-- `*mut Pair<T, bool>`.
abbrev pattern_type : HType
pattern_type =
    ptr true (generic_pattern (codes "Pair") (cons (ty_var (codes "T")) (cons bool nil)) false)

abbrev actual : HType
actual = ptr true (struct 1)

abbrev bindings : Table HType
bindings = (codes "T", int) ∷ []

unifies : receiver_unify_impl pattern_type actual (codes "T" ∷ []) (some tables) ≡ some bindings
unfolding receiver_unify_impl
unifies = refl

receiver_unify_impl-Instance_example :
    Instance (some tables) (subst_vars bindings pattern_type) actual
receiver_unify_impl-Instance_example =
    receiver_unify_impl-Instance pattern_type actual (codes "T" ∷ []) (some tables) bindings unifies

-- `*mut own *mut T`.
abbrev nested : HType
nested = ptr true (own_ptr true (ty_var (codes "T")))

nested-listed : listed (codes "T" ∷ []) nested ≡ true
unfolding listed
nested-listed = refl

receiver_unify_impl-Agrees_example :
    (env : Table HType) × (receiver_unify_impl nested
        (subst_vars bindings nested)
        (codes "T" ∷ [])
        none
      ≡ some env)
    × Agrees bindings env
receiver_unify_impl-Agrees_example =
    receiver_unify_impl-Agrees nested (codes "T" ∷ []) none bindings nested-listed
