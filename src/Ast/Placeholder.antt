-- ===== src/Ast/Placeholder.antt =====
-- crates/ast/src/lib.rs: substitution of the `_` placeholder, and the canonical receiver name.
use maka.Base.{Bool, [], ◌++◌, Bytes, bytes_eq, codes, if◌then◌else◌}
use maka.Ast.Types.{
  Mutness, const, mut, TypeExpr, named, assoc_path, ref, ptr, raw_ptr, own_ptr, heap, array, slice,
  vec, unit, dyn, generic, fn_ptr, TypeExprs, nil, cons,
}

abbrev pub is_placeholder : Bytes → Bool
is_placeholder n = bytes_eq n (codes "_")

-- `Type::subst_placeholder`, with `concrete` first.
unfoldable mutual
  pub subst_placeholder : Bytes → TypeExpr → TypeExpr
  subst_placeholder concrete (named n sp) =
      if is_placeholder n then named concrete sp else named n sp
  subst_placeholder concrete (unit sp) = unit sp
  subst_placeholder concrete (assoc_path base segment sp) =
      assoc_path (subst_placeholder concrete base) segment sp
  subst_placeholder concrete (ref m t sp) = ref m (subst_placeholder concrete t) sp
  subst_placeholder concrete (ptr m t sp) = ptr m (subst_placeholder concrete t) sp
  subst_placeholder concrete (raw_ptr m t sp) = raw_ptr m (subst_placeholder concrete t) sp
  subst_placeholder concrete (own_ptr m t sp) = own_ptr m (subst_placeholder concrete t) sp
  subst_placeholder concrete (heap t sp) = heap (subst_placeholder concrete t) sp
  subst_placeholder concrete (array len t sp) = array len (subst_placeholder concrete t) sp
  subst_placeholder concrete (slice m t sp) = slice m (subst_placeholder concrete t) sp
  subst_placeholder concrete (vec t sp) = vec (subst_placeholder concrete t) sp
  subst_placeholder concrete (dyn traits locked sp) = dyn traits locked sp
  subst_placeholder concrete (generic n args sp) = generic n (subst_each concrete args) sp
  subst_placeholder concrete (fn_ptr ret params sp) =
      fn_ptr (subst_placeholder concrete ret) (subst_each concrete params) sp

  pub subst_each : Bytes → TypeExprs → TypeExprs
  subst_each concrete nil = nil
  subst_each concrete (cons t ts) = cons (subst_placeholder concrete t) (subst_each concrete ts)

-- `Type::subst_placeholder_ty`, with the receiver first.
unfoldable mutual
  pub subst_placeholder_ty : TypeExpr → TypeExpr → TypeExpr
  subst_placeholder_ty recv (named n sp) = if is_placeholder n then recv else named n sp
  subst_placeholder_ty recv (unit sp) = unit sp
  subst_placeholder_ty recv (assoc_path base segment sp) =
      assoc_path (subst_placeholder_ty recv base) segment sp
  subst_placeholder_ty recv (ref m t sp) = ref m (subst_placeholder_ty recv t) sp
  subst_placeholder_ty recv (ptr m t sp) = ptr m (subst_placeholder_ty recv t) sp
  subst_placeholder_ty recv (raw_ptr m t sp) = raw_ptr m (subst_placeholder_ty recv t) sp
  subst_placeholder_ty recv (own_ptr m t sp) = own_ptr m (subst_placeholder_ty recv t) sp
  subst_placeholder_ty recv (heap t sp) = heap (subst_placeholder_ty recv t) sp
  subst_placeholder_ty recv (array len t sp) = array len (subst_placeholder_ty recv t) sp
  subst_placeholder_ty recv (slice m t sp) = slice m (subst_placeholder_ty recv t) sp
  subst_placeholder_ty recv (vec t sp) = vec (subst_placeholder_ty recv t) sp
  subst_placeholder_ty recv (dyn traits locked sp) = dyn traits locked sp
  subst_placeholder_ty recv (generic n args sp) = generic n (subst_each_ty recv args) sp
  subst_placeholder_ty recv (fn_ptr ret params sp) =
      fn_ptr (subst_placeholder_ty recv ret) (subst_each_ty recv params) sp

  pub subst_each_ty : TypeExpr → TypeExprs → TypeExprs
  subst_each_ty recv nil = nil
  subst_each_ty recv (cons t ts) = cons (subst_placeholder_ty recv t) (subst_each_ty recv ts)

abbrev ptr_prefix : Mutness → Bytes
ptr_prefix const = codes "*const "
ptr_prefix _ = codes "*"

abbrev ref_prefix : Mutness → Bytes
ref_prefix mut = codes "&mut "
ref_prefix _ = codes "&"

-- `receiver_canonical_name`; `canonical_args` is `join(",")` over the arguments.
unfoldable mutual
  pub receiver_canonical_name : TypeExpr → Bytes
  receiver_canonical_name (named n _) = n
  receiver_canonical_name (assoc_path base segment _) =
      receiver_canonical_name base ++ (codes "::" ++ segment)
  receiver_canonical_name (ptr m t _) = ptr_prefix m ++ receiver_canonical_name t
  receiver_canonical_name (ref m t _) = ref_prefix m ++ receiver_canonical_name t
  receiver_canonical_name (raw_ptr m t _) =
      codes "raw " ++ (ptr_prefix m ++ receiver_canonical_name t)
  receiver_canonical_name (generic n args _) =
      n ++ (codes "<" ++ (canonical_args args ++ codes ">"))
  receiver_canonical_name _ = codes "<unsupported>"

  pub canonical_args : TypeExprs → Bytes
  canonical_args nil = []
  canonical_args (cons t nil) = receiver_canonical_name t
  canonical_args (cons t (cons u us)) =
      receiver_canonical_name t ++ (codes "," ++ canonical_args (cons u us))
