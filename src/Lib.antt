-- ===== src/Lib.antt =====
-- thagore: the Rust implementation of the Thagore language, modelled from its sources.
--
-- The program turns a text into tokens (crates/lexer), orders the modules of a program by their
-- imports (crates/module_graph), checks their types (crates/typeck), lowers them to an IR that is
-- validated (crates/ir), and runs or compiles them.
--
-- Lexer models crates/lexer/src: Lexer.Token is token.rs and error.rs, Lexer.Table is table.rs,
-- Lexer.Source is the reading of characters in lexer.rs (`current_width_at`, `classify_*`),
-- Lexer.Keywords is `KEYWORDS`, Lexer.Scan is the state `Lexer` and its `scan_*` and `consume_*`
-- methods, Lexer.Indentation is `prepare_logical_line` and `apply_indentation`, and Lexer.Stream is
-- `finish_eof`, `next_token` and `lex_all_in`. A text is its list of UTF-8 bytes; `IsStr` says what
-- Rust promises of a `str`. `char::is_alphabetic` and `char::is_numeric` are the parameter `Unicode`.
-- An offset is a number, made a `u32` where the source does so. The state is passed on explicitly.
-- The loops inside a text run on the fuel `fuel_of`, one more than the bytes of the text, each round
-- of which consumes a byte; `next_token` and `lex_all_in` run on fuel and give `none` without it, and
-- `lex_fuel` bounds what a whole text takes.
--
-- ModuleGraph models crates/module_graph/src/lib.rs: the graph, `topo_sort` and `detect_cycles`. Hash maps
-- are lists of entries, whose order stands for the unspecified order of a walk. Both loops run on
-- fuel taken from the number of modules. `IsGraph` is what `ModuleGraph::build` makes:
-- ModuleGraph.Build is `build` over a `Host`, which stands for the file system, the resolver and the imports of a
-- text; `next_id` is checked against `u32`, and a fuel above the number of files is enough.
-- ModuleGraph.Imports is `ImportTable` of crates/module_graph/src/import_table.rs.
--
-- Ir models crates/ir/src: Ir is the data of instr.rs, block.rs, module.rs and error.rs, and Ir.Validate is
-- `validate_function` and `validate_module` of validate.rs; its sets are lists.
--
-- Typeck models crates/typeck/src: Typeck.Arena is `TypeArena` of types.rs, Typeck.Table is `TypeTable` of
-- table.rs, and Typeck.Scope is `ScopeStack` of scope.rs with the calls on it as a list of `Op`.
-- Typeck.Solver is `InferenceSolver` of infer.rs. Its forest of parents is a list; a search upwards has one step of fuel
-- more than there are parents, which is enough, and `unify` has a fuel above the depth of the arrays.
--
-- Interpreter models crates/interpreter/src: Interpreter is the data of value.rs, Interpreter.Env is `EnvStack` of
-- env.rs, Interpreter.Machine is the state, the errors and `tick` of lib.rs, Interpreter.Arith and Interpreter.Names are the
-- operators and texts of eval.rs, Interpreter.Eval is `eval_expr` and `exec_stmt`, and Interpreter.Program is
-- `collect_declarations` and `run`. Each of `eval_expr` and `exec_stmt` counts a step, so one step of fuel more than the limit
-- of steps is enough. The standard library (stdlib.rs) is a field of `Host`, whose functions leave the scopes, the depth
-- of calls and the steps alone; a message stands without its text, and a panic of an integer operation is a failure.
--
-- Ast models crates/ast/src: Ast is node.rs and expr.rs, Ast.Types is types.rs, Ast.Stmts is stmt.rs and Ast.Decls is
-- decl.rs. A reference to a node is the node.
--
-- Parser models crates/parser/src: Parser is the state `Parser` and its helpers of parser.rs with the errors of
-- error.rs, Parser.Kinds is the tests of kinds, Parser.Symbols is `resolve_symbol`, Parser.Pratt is expr.rs,
-- Parser.Types is types.rs, Parser.Stmts is stmt.rs, Parser.Lists and Parser.Decls are decl.rs, and Parser.Program is
-- `parse_program`. The cursor is the list `ahead` of the tokens that it has not passed. An expression runs on a fuel of
-- twice the tokens ahead and two, every other loop on one step for each token and one more, and both are enough. A float
-- literal keeps its text, since the rounding of `f64` is not modelled.
--
-- Not modelled: input and output, LLVM, the checking of expressions, the lowering to
-- the IR, the standard library of the interpreter and its buffers.
pub mod Ast
pub mod Base
pub mod Interpreter
pub mod Ir
pub mod Lexer
pub mod ModuleGraph
pub mod Parser
pub mod Typeck
