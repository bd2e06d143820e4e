-- ===== src/Lib.antt =====
-- Verification library of the Maka compiler, a Rust workspace that translates Maka to C.
--
-- The program's parts, in the order in which a source passes through them. The lexer turns the
-- bytes of a source into tokens with spans; the parser builds the trees of the ast crate from
-- them, and on the way evaluates `constexpr` functions; the semantic passes check the tree, with
-- types of their own and a unification that picks the impl of a receiver, and the code generator
-- prints C. Two tools stand beside that pipeline: the formatter re-indents a source and lexes it
-- again to be sure that it kept the tokens, and the linter walks a parsed module for names that
-- break the naming convention.
--
-- What is modelled, and where:
--
--   Lexer   crates/lexer/src/lib.rs. Token has Span, TokKind, Token, LexError and the keyword table;
--           Cursor has the state (`rest` is `src[pos..]`, `cursor` is pos, line and col) with peek and
--           bump; Trivia has skip_trivia, Number has number and eat_width_suffix, Literal has char_lit
--           and str_lit, Next has next_token and tokenize. The other files prove.
--   Ast     crates/ast/src/lib.rs. Types, Exprs and Items have the trees; Placeholder has
--           subst_placeholder, subst_placeholder_ty and receiver_canonical_name.
--   Ctfe    crates/parser/src/lib.rs. Word has the operations of i64, Steps the parts of the interpreter
--           that do not call back, Eval has ct_expr, ct_stmt, ct_block and eval_const_fn. Fold has
--           try_fold_int, which folds the tokens of a constant's initializer and calls eval_const_fn;
--           its tokens are those from `self.pos` on. Sums is the grammar that it is compared with.
--   Parser  crates/parser/src/lib.rs. State has the parser's state, the tokens read and those from
--           `self.pos` on, the monad of its results, and peek, bump, eat and expect. Types has
--           parse_type, Skim has looks_like_decl and skim_type, Patterns has parse_pattern, Levels
--           the loops of the binary operators, Unary has parse_has_pred and parse_unary, Postfix,
--           Primary, Lists, Lambda and Matches have what an operand is made of, Stmts has
--           parse_stmt, and Exprs joins the levels into parse_expr and parse_block. Bounds, Funcs,
--           Items, Decls and Impls have parse_item and what it calls. Progress, Post and Expects
--           say how a parse may move over the tokens; the files whose names end in Ends prove it
--           of each routine. Grammar is the grammar of types, which RoundTrip and SkimTypes
--           compare parse_type and skim_type with; Formula is a grammar of formulas with a table
--           of the operators' levels, which Precedence compares parse_expr with.
--   Fmt     crates/fmt/src/lib.rs. Scan has scan, Layout has format, Kinds the equality of token kinds,
--           Checked has lex_kinds and format_checked. Width and White are about white space in UTF-8.
--   Hir     crates/sema/src/hir.rs. Types has HType, subst and the derived equality, Unify has
--           receiver_unify_impl: its environment is returned where the source returns true, and what
--           it reads of the symbol table is two functions from an id to a template and its arguments,
--           since an id of a type is always an index of its table.
--   Lint    crates/lint/src/lib.rs. Names has the predicates and check, Walk has lint_module and the
--           walk, Locate has locate; Sites lists the names of a module that the linter looks at, and
--           Style says what the linter owes to a list of names: the walk is compared with both.
--
-- How the program is read. A source and a `String` are lists of bytes; where the lexer pushes a byte
-- of a string literal as a character, the text gets the UTF-8 bytes of that character.
-- An `i64` is an integer whose bit pattern is below 2^64; the lexer's u32 counters wrap modulo
-- 2^32. A `Vec` of a type inside that type is a type of the same mutual block. A `HashMap` is a
-- list of pairs in which the first entry of a key counts. A panic is a value of the result. The
-- text of an error is a constructor. A float literal keeps the text that `parse::<f64>` takes.
-- Comment depth in the lexer and bracket depth in the formatter are numbers without the bound of
-- an i32, which a source under 2 GiB cannot pass.
--
-- A parser's result keeps its state where it fails, since a speculative parse goes on from there: the
-- tokens that `expect` changed stay changed. The routines that parse_expr and parse_block call take
-- these two as parameters, and the recursion is on the depth of the nesting. The two tables of the
-- parser are parameters, since nothing behind the prescan changes them; so is what its panics depend on: if the compiler was built with overflow checks, and the size of an Expr in bytes,
-- on a host of 64 bits. A panic at an overflow is a value of the parser's result; that memory runs out
-- below the limit of a Vec's capacity is not modelled.
--
-- Fuel. tokenize takes one more than the length of the source, and each round of its loop reads at
-- least one byte. The loop of locate takes one more than the length of the line, and running
-- out of it is not the same as finding nothing. The interpreter of constexpr functions takes a fuel
-- beside its step budget: each call of ct_expr, ct_stmt and each round of a loop uses a unit of
-- budget, and at most four calls nest between two of them, so that four times the budget and four are enough. Folding takes five for each token and three. A
-- loop of the parser takes ten for each token before it and ten, where `>>` counts twice, since it
-- can be split; the nesting takes one for each token and one; the look-ahead takes two for each
-- token and two. The interpreter's own stack, which a deep recursion of a constexpr function can
-- exhaust, is not modelled.
--
-- Not modelled: the parser's prescan and its loop over a module, the other semantic passes, the code
-- generator, the bridge to Rust crates, the driver, the command lines of the tools and the
-- language server. They read and write files and run other programs, or are planned next.
pub mod Base
pub mod Lexer
pub mod Ast
pub mod Lint
pub mod Parser
pub mod Ctfe
pub mod Fmt
pub mod Hir
mod Tests
