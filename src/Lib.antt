-- ===== src/Lib.antt =====
-- Solix: the heap of the runtime with its reference counting, the virtual machine, the lexer and the
-- parser of types of the compiler, and the versions of the package manager.
--
-- Solix compiles a source file to bytecode (core/src/processes) and runs the bytecode in a
-- `RuntimeContext` (core/include/solix/runtime.hpp, core/src/runtime.cpp). The context owns a
-- `Memory`: a byte-addressed heap, half of it for static data and half for dynamic blocks of an
-- eight byte header (count, tag and reference count) and a payload. The interpreter
-- `run_bytecode` executes instructions on an operand stack and a call stack; dropping the last
-- reference to a block runs its destructor, which is bytecode again, and releases the block.
--
-- The compiler is a row of processes; the first, the lexer, turns a source into tokens,
-- and the parser takes these without the comments.
--
-- Files:
--   Prelude, Outcome, Word: shared names, the result of a C++ function, the machine integers.
--   Memory: `struct Memory`. State holds the record and the accessors, Heap the bytes, FreeLists
--     the maps, BlockTag the tags, Allocate `static_allocation` and `dynamic_allocation` (its steps
--     1, 2 and 3 are `take_exact`, `split_block` and `take_fresh`), Deallocate `deallocate`,
--     References `increase_reference`. Blocks and Tiling state the layout of the dynamic heap,
--     Stored what the headers say: `Tiles` is the layout alone, with blocks of any tags, and
--     `IsTiled` adds that every live header stores the size that release computes. FreeSpace,
--     Allocation and AllocateSafe are about allocation, Release, Weak and DeallocateSafe about
--     release, Limits about sizes at their limits.
--   OpCode: `enum class OpCode` of core/src/utilities/optcodes.hpp; Decode has the dispatch table
--     of core/src/runtime.cpp, Print and Parse the two name tables.
--   Lexer: core/src/processes/lexer.cpp. Token holds core/src/utilities/token.hpp, State
--     `LexerState` and its primitives, Literals `handle_string`, `handle_character` and
--     `handle_number`, Scan `handle_identifier` and `tokenize` with its operators and comments.
--     Reading, LiteralsRead, NumberRead, ScanRead and Tokenize are about what each step reads and
--     adds; Spelling is a grammar of tokens, and LexemesRead, LexemeRounds and RoundTrip set the
--     lexer against it.
--   Parser: core/src/processes/parser.cpp. State holds `ParserState` and its primitives, TypeInfo
--     `struct TypeInfo` of core/src/utilities/statements.hpp, Types `parse_type_info`. Forward,
--     LoopsForward and TypesForward are about where the parser stands and that it ends, Start about
--     the tokens it gets from the lexer; TypeSyntax is a grammar of types, and Sees, LoopsRead,
--     SuffixRead, Spelled and TypesRead set the parser against it.
--   SemVer: tools/cli/src/semver.hpp; Order and Reading are about its order and its parser.
--   Resolver: the choice between versions in tools/cli/src/dependency_resolver.hpp; Highest is
--     about what is selected.
--   Codec: hexadecimal digits and base 64 of libraries/solixlib/native/src/crypto.cpp.
--   Assembler: the emitters of core/src/processes/assembler.cpp for bytes, numbers and strings;
--     ReadBack sets them against the readers of the bytecode.
--   Vm: State holds `RuntimeContext` and the readers of the bytecode. Arithmetic, Comparison,
--     Conversion, Variables, Objects, Calls, Classes, Exceptions, Natives, Tuples and Control have
--     the instructions, one function for each label `op_…` of `run_bytecode` under its name in
--     lower case. Release has `decrease_reference`, `decrease_reference_callable`, the
--     `object_destructor` and `invoke_destructor`. Engine has the dispatch, the loop and
--     `execute`. The other files of Vm are about these: Frames, Closures, Unwinding, Inheritance,
--     Division, Subtraction, Words, Elements, Counting and LastReference.
--
-- How the code is modelled:
--   An operation takes the state and returns an `Outcome`: `ok` with the new state, `throw` for
--   std::runtime_error, `undefined` for an access outside a buffer that C++ leaves undefined, and
--   `out_of_fuel`. A throw carries no state, and of its message only the kind, but for
--   the `ParseError` of the parser, which has its message and its place.
--   Machine integers are natural numbers with their wrap-around written out. The heap is a
--   function from addresses to bytes beside its size, the operand stack such a function beside its
--   capacity and pointer, and the call stack a list, the innermost frame first. Maps are lists of
--   pairs in the order of the keys; of equal keys of the multimap the oldest comes first.
--   `live`, a list of blocks, is not part of the state: it is what the caller of the allocator
--   holds.
--   A source is a list of bytes. `rest` and `start` of the lexer's state are the source from the
--   positions `current_pos` and `start_pos` on. These and the line and the column are `uint32_t` in
--   the code, and none of them wraps on a source of less than 2^32 - 1 bytes. `tokenize` is modelled
--   for such sources, and is `out_of_fuel` for the others: from 2^32 bytes on the position wraps and
--   the loop of the code does not end. The tests of <cctype> are those of the C locale.
--   The dispatch of GCC and Clang is modelled, by a table of labels, not the `switch` for MSVC.
--
-- Fuel: the interpreter, `decrease_reference` and `decrease_reference_callable` call one another.
-- `engine host fuel` ties them; each call and each instruction takes one unit. A program
-- that does not halt has no bound. The walk along the base classes takes the same fuel; a number
-- above the depth of the class is enough, and bases that form a cycle have none.
--
-- The loops of the lexer take a unit of fuel for each byte and one more, which is enough, as each
-- round reads a byte.
--
-- `parse_type_info` takes a unit for each call inside another, and its loops a unit for each round;
-- each reads a token first, so the number of tokens left is enough.
--
-- From outside: `std::stod` is a parameter of the lexer, which gives the bits of a double or, for
-- std::out_of_range, nothing, and `std::sort` one of the resolver. Floating-point arithmetic and the
-- native functions of shared libraries are the fields of the record `Host`, a parameter.
--
-- Not modelled: of the compiler, the expressions, statements and declarations of the parser, the
-- binder, the templates, the assembler's walk over the syntax tree, the reading of files and the
-- reports of the lexer; the package manager but for its versions, and the command line, the
-- language server, the loading of shared libraries, and the native libraries but for Codec. The
-- warnings of DEFINE_NATIVE and of the resolver and the traces of the parser are left out.
pub mod Prelude
pub mod Outcome
pub mod Word
pub mod Memory
pub mod OpCode
pub mod Assembler
pub mod Lexer
pub mod Vm
pub mod Parser
pub mod SemVer
pub mod Resolver
pub mod Codec
