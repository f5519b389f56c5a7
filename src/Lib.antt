-- ===== src/Lib.antt =====
-- A model of the BML library: expressions built from the constant one and the operator `2 ^ x -
-- log2 y`, stored as binary codes, expanded from arithmetic, shared in a graph and evaluated.
--
-- Parts.
-- Number/Encoding is crates/domain/src/number/encoding.rs with the record `Bml` of number/mod.rs:
-- a term is the words of a binary prefix code, checked by `validate`, read from and written to
-- words and text, joined by `op_with_limit` and evaluated by `to_f64` (Number/Encoding/Eval), a
-- stack machine. Number/Words has the operations on a word of 64 bits. Number/Prefix is the same
-- code as a list of bits, the description that the words are compared with.
-- Number/Operations is crates/domain/src/number/operations.rs: each rule builds an arithmetic
-- operation from `op_with_limit` within a budget of bits; Number/Methods has the same under the
-- default. Its child Expansion has the term that a rule should build, Meaning the value of that
-- term over the reals.
-- Number/Stream is the depth check and the exports of crates/domain/src/number/stream.rs.
-- Symbolic/Term and Symbolic/Basis are `ClosedTerm`, `Basis` and `evaluate_real` of
-- crates/domain/src/symbolic.rs, and Symbolic/Open is the binding and closing of its `OpenTerm`.
-- Domain/Operator, Domain/Ast and Domain/Soa are crates/domain/src/operator.rs, ast.rs and soa.rs:
-- the operator on floats, nodes, and the columns that hold the nodes of a graph.
-- Domain/Ast/Evaluate is the reference evaluator of ast.rs and Domain/Soa/Eval is `evaluate_soa`
-- of crates/compiler/src/dag.rs, whose graph is Compiler/Dag.
-- Domain/Transformer is crates/domain/src/transformer.rs: a method of `BMLTransformer` is a
-- program of the calls that it makes on its columns, which `run` performs; a `bml` call is `apply`
-- here. Its child Operations is transformer/operations.rs, with the nodes of an accepted operation
-- in Operations/Programs; Bounded is transformer/bounded.rs and bounded_ops.rs, with the
-- configurations in RmsConfig and OpConfig, the checks in Rms and Op, and the nodes in Arithmetic,
-- Stages, Programs and OpPrograms. Formula has the numbers that the nodes stand for, as functions
-- on floats; for a configuration, Formula/Rms and Formula/Within write every constant from its
-- bounds, not from its list of literals; Values relates the two, Costs counts the nodes, and
-- Accepted joins them for the columns that a method leaves.
-- Accepted/Literals has the literals of a configuration as those constants, and Accepted/Staged
-- the stages of the bounded normalization called on one set of columns in the order of
-- crates/compiler/src/operation_rms.rs.
-- Compiler/HashCons is crates/compiler/src/hash_cons.rs: the registry over the columns, in which a
-- node with the key of an earlier one is not entered again and constant operands are folded.
-- Compiler/Rpn is crates/compiler/src/rpn.rs: the instructions of linear code;
-- Compiler/Rpn/Evaluate has its two evaluators, a stack machine with loops to a depth, and
-- Compiler/Rpn/Linearize the depth-first construction of a program from the columns.
-- Float is the type `f64` of the language: a parameter, whose one hypothesis is that the bits of a
-- float determine it. The reals of Number/Operations/Meaning are a parameter too, an abelian group
-- with the powers of two and their logarithm.
-- Prelude has the names and lemmas on lists, options and results that the parts share.
--
-- Conventions.
-- A function that changes its object takes and returns it. A panic, of an index out of range, is
-- `none`; an error result is `err`. `usize` has 64 bits and a checked sum is an option, so a loop
-- over the bits of a term cannot overflow a count under the bound `bit_len b + 64 < 2 ^ 64`, which
-- every term in memory meets. Node identifiers are `u32`: `as_u32` wraps, and the theorems on the
-- registry ask for fewer than `2 ^ 32` nodes and constants. A `HashMap` is a list of entries, the
-- newest first. The evaluator recurses on fuel, and the number of nodes is enough, since operands
-- stand before operators.
-- The loop of `linearize` runs on fuel too, one unit for each entry that it takes from its stack.
-- A method of the transformer is considered with room for its nodes within `2 ^ 32`, on columns
-- whose constants are in their own pool.
-- The answer of the allocator to `try_reserve_exact` is a parameter; other capacities and
-- allocation failure are not modelled. An operand list is read at an index that the checks keep in
-- range. `softmax_total` gives node 0 for an empty list, where the source panics; a configuration
-- of the softmax has a positive width.
--
-- Not modelled.
-- The encoder and decoder of streams, exact rationals and their certificates, the search and
-- conversion of floats, the encoder of vectors, tensors, fragments and artifacts of the compiler,
-- the runtime and the readers of models are parts of the program that the model does not reach.
-- The queue is a copy of another library.
-- `linearize_outputs`, for several roots, is left out of the linear code.
-- Floating-point kernels, the command line, the API, the worker and the dashboard are I/O around
-- them.
pub mod Prelude
pub mod Float
pub mod Symbolic
pub mod Number
pub mod Domain
pub mod Compiler
