-- ===== src/Hir/Types.antt =====
-- crates/sema/src/hir.rs: `HType`, its substitution and its equality.
use maka.Base.{
  ℕ, Bool, true, false, ◌&&◌, not, List, [], ◌∷◌, Option, none, some, Bytes, bytes_eq, ◌==◌,
}
use maka.Base.Int.{ℤ}
use maka.Ctfe.Outcome.{Table, get}
use maka.Ctfe.Word.{int_eq}

-- An id is its number. `HTypes` is `Vec<HType>`.
mutual
  pub data HType : Type 0 where
    int float bool char unit str null_t : HType
    sized_float : ℕ → HType
    sized_int : Bool → ℕ → HType
    struct enum : ℕ → HType
    ref ptr raw_ptr own_ptr slice : Bool → HType → HType
    heap vec : HType → HType
    array : ℤ → HType → HType
    dyn : List Bytes → Bool → HType
    fn_ptr : HType → HTypes → HType
    ty_var : Bytes → HType
    generic_pattern : Bytes → HTypes → Bool → HType
    assoc_type : HType → Bytes → Option Bytes → HType
    rust_opaque : Bytes → HType

  pub data HTypes : Type 0 where
    nil : HTypes
    cons : HType → HTypes → HTypes

abbrev pub var_or : HType → Option HType → HType
var_or t none = t
var_or t (some u) = u

unfoldable mutual
  pub subst_vars : Table HType → HType → HType
  subst_vars env (ty_var n) = var_or (ty_var n) (get env n)
  subst_vars env (ref m t) = ref m (subst_vars env t)
  subst_vars env (ptr m t) = ptr m (subst_vars env t)
  subst_vars env (raw_ptr m t) = raw_ptr m (subst_vars env t)
  subst_vars env (own_ptr m t) = own_ptr m (subst_vars env t)
  subst_vars env (heap t) = heap (subst_vars env t)
  subst_vars env (array n t) = array n (subst_vars env t)
  subst_vars env (slice m t) = slice m (subst_vars env t)
  subst_vars env (vec t) = vec (subst_vars env t)
  subst_vars env (assoc_type on segment hint) = assoc_type (subst_vars env on) segment hint
  subst_vars env (generic_pattern n args e) = generic_pattern n (subst_each env args) e
  subst_vars env (fn_ptr ret params) = fn_ptr (subst_vars env ret) (subst_each env params)
  subst_vars env t = t

  pub subst_each : Table HType → HTypes → HTypes
  subst_each env nil = nil
  subst_each env (cons t ts) = cons (subst_vars env t) (subst_each env ts)

abbrev pub bool_eq : Bool → Bool → Bool
bool_eq true b = b
bool_eq false b = not b

unfoldable pub names_eq : List Bytes → List Bytes → Bool
unfolding bytes_eq
names_eq [] [] = true
names_eq (a ∷ ns) (b ∷ ms) = bytes_eq a b && names_eq ns ms
names_eq _ _ = false

unfoldable pub hint_eq : Option Bytes → Option Bytes → Bool
unfolding bytes_eq
hint_eq none none = true
hint_eq (some a) (some b) = bytes_eq a b
hint_eq _ _ = false

-- `derive(PartialEq)`.
unfoldable mutual
  pub type_eq : HType → HType → Bool
  type_eq int int = true
  type_eq float float = true
  type_eq bool bool = true
  type_eq char char = true
  type_eq unit unit = true
  type_eq str str = true
  type_eq null_t null_t = true
  type_eq (sized_float a) (sized_float b) = a == b
  type_eq (sized_int s a) (sized_int t b) = bool_eq s t && a == b
  type_eq (struct a) (struct b) = a == b
  type_eq (enum a) (enum b) = a == b
  type_eq (ref m t) (ref n u) = bool_eq m n && type_eq t u
  type_eq (ptr m t) (ptr n u) = bool_eq m n && type_eq t u
  type_eq (raw_ptr m t) (raw_ptr n u) = bool_eq m n && type_eq t u
  type_eq (own_ptr m t) (own_ptr n u) = bool_eq m n && type_eq t u
  type_eq (slice m t) (slice n u) = bool_eq m n && type_eq t u
  type_eq (heap t) (heap u) = type_eq t u
  type_eq (vec t) (vec u) = type_eq t u
  type_eq (array a t) (array b u) = int_eq a b && type_eq t u
  type_eq (dyn ns a) (dyn ms b) = names_eq ns ms && bool_eq a b
  type_eq (fn_ptr t ts) (fn_ptr u us) = type_eq t u && types_eq ts us
  type_eq (ty_var a) (ty_var b) = bytes_eq a b
  type_eq (generic_pattern a ts e) (generic_pattern b us f) =
      bytes_eq a b && types_eq ts us && bool_eq e f
  type_eq (assoc_type t a h) (assoc_type u b k) = type_eq t u && bytes_eq a b && hint_eq h k
  type_eq (rust_opaque a) (rust_opaque b) = bytes_eq a b
  type_eq _ _ = false

  pub types_eq : HTypes → HTypes → Bool
  types_eq nil nil = true
  types_eq (cons t ts) (cons u us) = type_eq t u && types_eq ts us
  types_eq _ _ = false
