-- ===== src/Parser/Lambda.antt =====
-- crates/parser/src/lib.rs: `try_parse_lambda`. Wherever the source goes back and returns `Ok(None)`,
-- `lambda_here` has no value, and `try_parse_lambda` goes back.
use maka.Base.{ℕ, zero, suc, Bool, true, false, List, [], ◌∷◌, Option, none, some, if◌then◌else◌}
use maka.Ast.Exprs.{Expr, lambda, LambdaBody, lambda_expr, lambda_block, Block}
use maka.Ast.Types.{TypeExpr, Param, LambdaCapture}
use maka.Lexer.Token.{Span, lparen, rparen, lbrace, lbracket, rbracket, comma, amp, mut_kw}
use maka.Parser.Fueled.{fueled, eat_ident}
use maka.Parser.State.{P, ◌>>=◌, ◌>>◌, pure, no_fuel, attempt, peek_span, at, eat, position, rewind}

abbrev pub is_empty : {A : Type 0} → List A → Bool
is_empty [] = true
is_empty (_ ∷ _) = false

-- `&mut`, `&` or nothing: `m`, `r` or `v`.
unfoldable pub capture_mode : P ℕ
capture_mode = do
  by_ref ← eat amp
  if by_ref then (do is_mut ← eat mut_kw; if is_mut then pure b'm' else pure b'r') else pure b'v'

unfoldable pub capture_list : ℕ → P (Option (List LambdaCapture))
unfolding capture_mode
capture_list zero = no_fuel
capture_list (suc f) = do
  start ← peek_span
  mode ← capture_mode
  name ← eat_ident
  elim name as (λ _. P (Option (List LambdaCapture))) [
    | none ↦ pure none
    | some n ↦ (do
      let first : LambdaCapture = record { name = n; mode = mode; span = start }
      again ← eat comma
      if again
          then (do
            closed ← at rbracket
            if closed then pure (some (first ∷ [])) else (do
              others ← capture_list f
              elim others as (λ _. P (Option (List LambdaCapture))) [
                | none ↦ pure none
                | some cs ↦ pure (some (first ∷ cs))
              ]))
          else pure (some (first ∷ [])))
  ]

-- `[name, &name, &mut name, ...]`, or nothing.
unfoldable pub lambda_captures : P (Option (List LambdaCapture))
unfolding capture_list
lambda_captures = do
  opened ← eat lbracket
  if opened
      then (do
        closed ← eat rbracket
        if closed then pure (some []) else (do
          caps ← fueled capture_list
          elim caps as (λ _. P (Option (List LambdaCapture))) [
            | none ↦ pure none
            | some cs ↦ (do ended ← eat rbracket; if ended then pure (some cs) else pure none)
          ]))
      else pure (some [])

module _ (type_base : P TypeExpr) where
  unfoldable pub param_list : ℕ → P (Option (List Param))
  param_list zero = no_fuel
  param_list (suc f) = do
    start ← peek_span
    ty ← attempt type_base
    elim ty as (λ _. P (Option (List Param))) [
      | none ↦ pure none
      | some t ↦ (do
        name ← eat_ident
        elim name as (λ _. P (Option (List Param))) [
          | none ↦ pure none
          | some n ↦ (do
            let first : Param = record { name = n; ty = t; span = start }
            again ← eat comma
            if again
                then (do
                  others ← param_list f
                  elim others as (λ _. P (Option (List Param))) [
                    | none ↦ pure none
                    | some ps ↦ pure (some (first ∷ ps))
                  ])
                else (do
                  closed ← at rparen
                  if closed then pure (some (first ∷ [])) else pure none))
        ])
    ]

  -- Behind the `(`, with the `)`.
  unfoldable pub lambda_params : P (Option (List Param))
  unfolding param_list
  lambda_params = do
    closed ← eat rparen
    if closed then pure (some []) else (do
      params ← fueled param_list
      elim params as (λ _. P (Option (List Param))) [
        | none ↦ pure none
        | some ps ↦ (do ended ← eat rparen; if ended then pure (some ps) else pure none)
      ])

  module _ (expr : P Expr) (block : P Block) where
    -- A block, or an expression where there are parameters.
    unfoldable pub lambda_body : Bool → P (Option LambdaBody)
    lambda_body no_params = do
      opened ← at lbrace
      if opened
          then (do
            body ← attempt block
            elim body as (λ _. P (Option LambdaBody)) [
              | none ↦ pure none
              | some b ↦ pure (some (lambda_block b))
            ])
          else (if no_params then pure none else (do
            body ← attempt expr
            elim body as (λ _. P (Option LambdaBody)) [
              | none ↦ pure none
              | some e ↦ pure (some (lambda_expr e))
            ]))

    unfoldable pub lambda_here : Span → P (Option Expr)
    unfolding lambda_params lambda_captures lambda_body
    lambda_here start = do
      ret ← attempt type_base
      elim ret as (λ _. P (Option Expr)) [
        | none ↦ pure none
        | some ret_ty ↦ (do
          opened ← eat lparen
          if opened
              then (do
                params ← lambda_params
                elim params as (λ _. P (Option Expr)) [
                  | none ↦ pure none
                  | some ps ↦ (do
                    captures ← lambda_captures
                    elim captures as (λ _. P (Option Expr)) [
                      | none ↦ pure none
                      | some cs ↦ (do
                        body ← lambda_body (is_empty ps)
                        elim body as (λ _. P (Option Expr)) [
                          | none ↦ pure none
                          | some b ↦ pure (some (lambda ret_ty ps cs b start))
                        ])
                    ])
                ])
              else pure none)
      ]

    unfoldable pub try_parse_lambda : P (Option Expr)
    unfolding lambda_here
    try_parse_lambda = do
      save ← position
      start ← peek_span
      found ← lambda_here start
      elim found as (λ _. P (Option Expr)) [
        | none ↦ (rewind save >> pure none)
        | some e ↦ pure (some e)
      ]
