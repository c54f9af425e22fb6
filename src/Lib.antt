-- ===== src/Lib.antt =====
-- neoast: a generator of lexers and LR parsers, and the runtime that the generated code links.
--
-- The tool (src/codegen, src/parsergen) reads a grammar and writes C with a parsing table. The
-- runtime (include/neoast.h, src/parser.c, src/lr.c) interprets the table, with a lexer that the
-- caller passes in; src/lexer holds what the generated lexers need.
--
--   * Common.antt and Common/: shared names. Common/Faults is C's undefined behaviour and `assert` as
--     values: an array is a list as long as its allocation, and an access out of bounds a fault.
--   * Runtime/Types, Stack, Table: the structures, macros and masks of include/neoast.h, with the
--     allocation and reset of src/parser.c. Pointers into the value table are indices of its cells.
--   * Runtime/Client: the user's function pointers (`ll_next`, `parser_reduce`, the error callback and
--     the destructors), which are parameters, over a state `E` of the user; and `Machine`, the
--     arguments and locals of `parser_parse_lr`.
--   * Runtime/Reduce, Errors, Loop: src/lr.c, function by function. A branch of the loop is a function
--     of the machine; `round` is one iteration, and `parse_lr` the whole on fuel. Fuel bounds the
--     iterations: one is either a shift, of which there is at most one for each token, or a
--     reduction, whose number between two shifts the rank of a checked table bounds.
--   * Runtime/Automaton: what the loop is meant to be, an LR automaton on frames. Runtime/Refine
--     relates the buffers to it. Runtime/Grammar is the language of the rules, and Runtime/Valid a
--     check that a table belongs to its grammar, which is run on a concrete table; Runtime/Correct
--     puts these together. Runtime/Empty is about rules without a right-hand side, which the check
--     of a table leaves out.
--   * Lexer/Vector: `NeoastVector` of src/lexer/container.c.
--   * Lexer/Utf8, and Lexer/Input with its children Fetch, Open and Get: src/lexer/input.c. The file
--     is the list of its unread bytes, on which `fread` is written out; the loops run at most as often
--     as bytes are asked for, since each round writes one. Encoded has the bytes of a character in each
--     encoding, by the standards, and with Decoded, Laws, Text and Opened the proofs.
--   * Lexer/Matcher, without `WITH_SPAN`: the struct of include/lexer/matcher_priv.h and the set-up of
--     src/lexer/matcher.c. Its children Lines, Buffer and Scan are the functions of matcher.c (a loop
--     to `scan` or `redo` is a function of its own), Buffer and Indent those of matcher_priv.h, and
--     Fsm is include/lexer/matcher_fsm.h. Window says which input a buffer stands for; Doubling, Grow,
--     Reads, Chars, Rising, Stops, LineLaws, TextBack, Scans, Split, Words and Bytes are the proofs, and
--     Sources takes them to the inputs of Lexer/Input. A scan takes fuel for its returns to `scan`, each of
--     which has ignored a byte at least.
--   * Codegen: src/codegen/codegen.h; Codegen/Tokens, Pairs and Rules are src/codegen/common.c and
--     compiler.c, which the parser of grammar files calls. The pairs are nodes of a store, in which a
--     freed node is missing; rules and tokens, which only `next` links, are lists. Fuel for the
--     freeing of pairs is the number of nodes that are linked. Chains, Built, Freed, Declared and Names
--     are the proofs.
--   * Codegen/Lines: `InputFile` of src/codegen/input_file.cc, its index of lines and its
--     messages. Codegen/Classes is codegen_priv.h and the options of cg_util.cc; Impl is
--     `CodeGenImpl` with its tokens, and Header its `parse_header`, both of codegen.cc, whose two
--     rounds go over the list of the header's entries, and Grammars is cg_grammar.cc, which
--     compiles the rules to the table that Parsergen works on; Emitted has the tables that it
--     writes into the C text. `strtol`, the reading of hexadecimal numbers, the width of printed
--     numbers and the expansion of macros are parameters. LinesLaws, InOrder, HeaderSteps,
--     FirstRound, SecondRound and Numbered, and Ordered, Pushed, Compiled, Compilation and
--     GrammarTable are the proofs.
--   * Parsergen: src/parsergen. Its children BitVector, Items and First are bit_vector.h and the
--     constructor of canonical_collection.cc, which computes the first sets; Closure is
--     `GrammarState::apply_closure` of derivation.cc; Collection is the building of the states and
--     their merging for LALR(1), and Table the filling of the table. A pointer to an item, a state
--     or a rule is its index, and the sets and maps of C++ are lists in the order of insertion.
--     Ready is a check of a grammar with its first sets; PassOn, Propagate, Expand, Covered,
--     Rounds and Closed are the closure, whose fuel is the number of symbols to expand and of
--     lookaheads to add; Cores compares states; Decode, Fill, Edges, Reductions, Rows and
--     Generated take the table to the entries that Runtime/Table reads, and FirstLaws is about the
--     first sets. The fuel of `resolve` is the depth of the recursion.
--
-- What is assumed of the caller is the record `Laws` of Runtime/Correct/Setup: a call of the lexer
-- with tokens left uses one up, its tokens are columns of the table, and the actions do not push
-- tokens back. Of an automaton, which the tool generates, a scan assumes the record `IsAutomaton` of
-- Lexer/Matcher/Scans; of `realloc`, that it keeps what the cells hold. Numbers are natural; where
-- the source wraps, the remainder is written.
--
-- Not modelled: the templates of src/codegen, which write C text, and the patterns of its lexers, which the
-- reflex library compiles; the dumps of src/util; the generated bootstrap parser; the libraries of
-- third_party; the reports on stderr; allocation that fails.
pub mod Codegen
pub mod Common
pub mod Lexer
pub mod Runtime
pub mod Parsergen
