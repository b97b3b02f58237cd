-- ===== src/Lib.antt =====
-- A model of Judo, a JSON and JSON5 scanner and parser in C, and theorems about both.
--
-- The scanner is src/judo_scan.c; include/judo.h declares its types. A caller zeroes a `judo_stream`
-- and calls `judo_scan` with the same text again and again: each call returns one token, with the
-- span of the text where it stands, until the end of the text or an error. The scanner does not
-- recurse: the stream holds a stack of states, one for each value that is not finished.
--
--   Api          include/judo.h, judo_config.h.in: result codes, tokens, spans, the stream, and the
--                build options as the record `Config`. `where` is spelled `where_at`.
--   Utf8         `is_bounded`, `utf8_decode` with its tables (Utf8/Tables), `utf8_encode`. A `Source`
--                is the memory behind the text's pointer, as a function from positions to bytes, and
--                the stated length, which is negative if a null byte ends the text. Bytes, Scalar,
--                Sound and Complete hold the lemmas on the decoder; Text says which positions belong
--                to a text.
--   Chars        the character tests, `parse_character`, `is_match` (its lemmas in Chars/Match).
--   Lexer        `scan_number` (Number), `is_newline` and `scan_string` (Quoted), `scan_keyword` and
--                `scan_ES5_identifier` (Word), comments and spaces (Space), and `peek`, which calls
--                them (Peek). Their children named Bounds are about the positions that they pass over,
--                those named Ends about their loops; Quoted/Digits is about the digits that
--                `scan_string` gives to `parse_character`. Failure holds the functions that report
--                errors.
--   Scanner      the state machine from `accept` to `judo_scan`. Its routines act on a `Scanner`, the
--                index and the stream, and end with a value or a result code. Scan has `judo_scan`;
--                Moves the steps on the stack, as a relation; Grammar the grammar of tokens; Outcomes
--                what each routine does; Stack the invariant of the stream; Reader a caller that
--                reads all tokens.
--   Parser       src/judo_parse.c. The memory is a list of blocks in the order in which they were
--                allocated, a pointer is an index or null, and a routine returns nothing where C
--                defines nothing: a block that was released or is another structure, a failed
--                assertion. The caller's function for memory says for each block if it is handed out.
--                Build has `process_value` and what it calls, Free `judo_free`, Parse `judo_parse`.
--                Tree describes trees apart from the memory: their tokens, and the layout of their
--                blocks; Tree/Zipper describes a tree that is being built, Build/Matches relates it to
--                the scanner's states, and Build/Advance is about each token. Free/Releases is about
--                the rounds of `judo_free`; Parse/Loop and Parse/Outcome put the parts together.
--   Stringify    `judo_stringify`. A failed assertion ends it with nothing. Its loop runs on rounds;
--                Stringify/Content says what the characters of a string stand for, apart from the code,
--                Stringify/Strings and Stringify/Loops relate the loop to it, in the builds for JSON,
--                and Stringify/Protocol is about calls with a buffer and without one. Stringify/Tokens,
--                Sound and Scanned are about its calls on the strings that `scan_string` accepts.
--   Numberify    `judo_numberify`, over a floating-point type that is a parameter; Numberify/Integers is
--                about lexemes that are integers.
--   Program      src/judo_main.c and src/judo_stdin.c: `print_tree` (its output in Program/Printed),
--                `pretty_print_tree` (Pretty), `compulate_source_location` (Location), `main` up to the
--                call of `judo_main` (Options), `judo_main` (Main) and `judo_readstdin` (Stdin). An
--                output is a list of bytes. The recursion of the printers runs on the levels that the
--                parser allows, their loops on the number of blocks in memory.
--   Tests        runs on small texts, and instances of the theorems.
--
-- Where the C code chooses by `#if`, the model chooses by a field of `Config`, so a theorem about
-- any `Config` is one about every build whose stack fits its index: `s_stack` is an `int8_t` in C
-- and a natural number in the model, so the scanner of the model is that of the builds with
-- `JUDO_MAXDEPTH` of at most 128 (the default is 16). A larger one is accepted by the build, and
-- overflows. The names that differ: `finished_parsing_array_element`,
-- `finished_parsing_object_value`, `parse_object_key_or_object_end` and `parse_object_value` are
-- states too, so the routines are `continue_array`, `continue_object`, `begin_member` and
-- `continue_member`.
--
-- A scanning routine returns its error as a value, which `report` stores in the stream afterwards.
-- Numbers are natural numbers: positions stay below the size limit, and code points below 2 ^ 32 by
-- the reduction that `parse_character` makes. The loops of the lexer run on fuel: `rounds` is one more
-- than the size limit, since a round that goes on has decoded a character below that limit, or has
-- found a byte in bounds. A caller's loop is on fuel too, the number of calls, and so is
-- that of `judo_free`, whose rounds are two for each block.
--
-- Not modelled: the texts of the help and the version that `main` prints; the programs in examples,
-- which show how the library is called. src/judo_unidata.c is generated: `judo_uniflags` is a field
-- of `Config`. The results of `read` and of `strtoul`, and the blocks that the caller's function or
-- `realloc` refuses, are parameters. The memory that a text is read from is a function, so a read
-- behind its end is no error of the model.
pub mod Base
pub mod Api
pub mod Utf8
pub mod Chars
pub mod Lexer
pub mod Scanner
pub mod Parser
pub mod Program
pub mod Stringify
pub mod Numberify
mod Tests
