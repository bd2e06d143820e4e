-- ===== src/Ast/Exprs.antt =====
-- crates/ast/src/lib.rs: expressions, statements, blocks and match arms. A `Vec` or an `Option` of
-- a type of the block is a type of the block.
use maka.Base.{Bool, List, Option, Bytes}
use maka.Ast.Types.{
  Mutness, TypeExpr, Lit, BinOp, UnOp, AssignOp, WallMode, LambdaCapture, Param, Pattern,
}
use maka.Lexer.Token.{Span}

mutual
  pub data Expr : Type 0 where
    lit : Lit → Span → Expr
    ident : Bytes → Span → Expr
    bin : BinOp → Expr → Expr → Span → Expr
    un : UnOp → Expr → Span → Expr
    unwrap : Expr → Span → Expr
    ref : Mutness → Expr → Span → Expr
    field : Expr → Bytes → Span → Expr
    index : Expr → Expr → Span → Expr
    call : Expr → Exprs → List TypeExpr → Span → Expr
    cast checked_cast : Expr → TypeExpr → Span → Expr
    struct : Option Bytes → FieldInits → Span → Expr
    array_lit : Exprs → Span → Expr
    vec_fill : Expr → Expr → Span → Expr
    heap_alloc : Expr → Span → Expr
    free : Expr → Bool → Span → Expr
    variant_ctor : Bytes → Bytes → FieldInits → Span → Expr
    match : Expr → MatchArms → Span → Expr
    lambda : TypeExpr → List Param → List LambdaCapture → LambdaBody → Span → Expr
    wall_mod : WallMode → Expr → Span → Expr
    attr_call : Bytes → Bytes → OptExpr → Exprs → Span → Expr
    has_pred : HasLhs → Bytes → Span → Expr

  pub data Exprs : Type 0 where
    no_exprs : Exprs
    exprs : Expr → Exprs → Exprs

  pub data OptExpr : Type 0 where
    no_expr : OptExpr
    some_expr : Expr → OptExpr

  -- `Vec<(String, Expr)>`.
  pub data FieldInits : Type 0 where
    no_inits : FieldInits
    inits : Bytes → Expr → FieldInits → FieldInits

  pub data HasLhs : Type 0 where
    lhs_ty : TypeExpr → HasLhs
    lhs_val : Expr → HasLhs

  pub data LambdaBody : Type 0 where
    lambda_expr : Expr → LambdaBody
    lambda_block : Block → LambdaBody

  pub data Stmt : Type 0 where
    let_stmt : Mutness → TypeExpr → Bytes → Expr → Bool → Span → Stmt
    let_tuple : List (Bool × Bytes) → Expr → Span → Stmt
    assign : AssignOp → Expr → Expr → Span → Stmt
    expr_stmt : Expr → Span → Stmt
    return_stmt : OptExpr → Span → Stmt
    if_stmt : Expr → Block → OptBlock → Span → Stmt
    while_stmt : Expr → Block → Span → Stmt
    block_stmt : Block → Stmt
    unsafe : Block → Span → Stmt
    match_stmt : Expr → MatchArms → Span → Stmt
    yield : Expr → Span → Stmt
    propagate : OptExpr → Span → Stmt
    for_range : TypeExpr → Bytes → Expr → Expr → Bool → Block → Span → Stmt
    for_each : TypeExpr → Bytes → Expr → Block → Span → Stmt
    inline_for : Bytes → Expr → Block → Span → Stmt
    break continue : Span → Stmt

  pub data Stmts : Type 0 where
    no_stmts : Stmts
    stmts : Stmt → Stmts → Stmts

  pub data Block : Type 0 where
    block : Stmts → Span → Block

  pub data OptBlock : Type 0 where
    no_block : OptBlock
    some_block : Block → OptBlock

  pub data ArmBody : Type 0 where
    arm_expr : Expr → ArmBody
    arm_block : Block → ArmBody

  -- `Vec<MatchArm>`: an arm's pattern, guard, body and span, and the other arms.
  pub data MatchArms : Type 0 where
    no_arms : MatchArms
    arms : Pattern → OptExpr → ArmBody → Span → MatchArms → MatchArms

-- `Expr::span`.
unfoldable pub expr_span : Expr → Span
expr_span (lit _ s) = s
expr_span (ident _ s) = s
expr_span (bin _ _ _ s) = s
expr_span (un _ _ s) = s
expr_span (unwrap _ s) = s
expr_span (ref _ _ s) = s
expr_span (field _ _ s) = s
expr_span (index _ _ s) = s
expr_span (call _ _ _ s) = s
expr_span (cast _ _ s) = s
expr_span (checked_cast _ _ s) = s
expr_span (struct _ _ s) = s
expr_span (array_lit _ s) = s
expr_span (vec_fill _ _ s) = s
expr_span (heap_alloc _ s) = s
expr_span (free _ _ s) = s
expr_span (variant_ctor _ _ _ s) = s
expr_span (match _ _ s) = s
expr_span (lambda _ _ _ _ s) = s
expr_span (wall_mod _ _ s) = s
expr_span (attr_call _ _ _ _ s) = s
expr_span (has_pred _ _ s) = s
