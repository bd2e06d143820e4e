-- ===== src/Parser.antt =====
-- crates/parser/src/lib.rs: the recursive descent on the lexer's tokens.
pub mod Kind
pub mod State
pub mod Progress
pub mod Post
pub mod Expects
pub mod Fueled
pub mod Types
pub mod TypePartEnds
pub mod TypeEnds
pub mod Patterns
pub mod Levels
pub mod Lists
pub mod Postfix
pub mod Lambda
pub mod Matches
pub mod Primary
pub mod Unary
pub mod Skim
pub mod Stmts
pub mod Exprs
pub mod Bounds
pub mod Funcs
pub mod Items
pub mod Decls
pub mod Impls
pub mod BoundEnds
pub mod FuncEnds
pub mod ItemEnds
pub mod DeclEnds
pub mod ImplEnds
pub mod Grammar
pub mod TypeTokens
pub mod RoundTrip
pub mod SkimPrint
pub mod SkimTypes
pub mod Agrees
pub mod Formula
pub mod Opening
pub mod Operators
pub mod Loops
pub mod Precedence
pub mod ListEnds
pub mod PatternEnds
pub mod PostfixEnds
pub mod Finds
pub mod LambdaEnds
pub mod MatchEnds
pub mod PrimaryEnds
pub mod ArrayEnds
pub mod UnaryEnds
pub mod SkimEnds
pub mod StmtEnds
pub mod BlockEnds
pub mod ExprEnds
