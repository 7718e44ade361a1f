-- ===== src/Lib.antt =====
-- groff: the core of the formatter, GNU troff, and of the library below it.
--
-- GNU troff reads tokens, evaluates numeric expressions into lengths, keeps registers, and breaks its
-- output into pages, where traps spring at given positions. The parts modelled and their files:
--
-- Prelude, Int32: lists, integers and the arithmetic of `int`. `Checked` is what the macros of
-- <stdckdint.h> store and return; `none` is undefined behaviour of C++.
-- Units: src/roff/troff/hvunits.h and the end of src/roff/troff/number.cpp. `from_units` and
-- `to_units` convert between basic units and device units. Units/Scale is `scale`; its floating
-- arithmetic is the parameter `Doubles`, with the relative error of a product and a quotient in IEEE
-- double precision, and Units/Binary64 an instance that rounds as IEEE arithmetic does.
-- Expression: src/roff/troff/number.cpp. A reader takes the current token and those behind it
-- (Input) to an outcome. `is_valid_term` and `is_valid_expression` are `read_term`,
-- `read_expression` and `read_loop` (Reader), their loops over signs, digits and fractions and the
-- switch over units are in Number, the operators in Operators, what they mean without the bounds of
-- `int` in Meaning, and the readers with a previous value in Crement. What an expression asks of the environment and the diversion comes with each token.
-- Register: src/roff/troff/reg.cpp and src/libs/libgroff/itoa.c. Decimal, Roman and Alphabetic
-- are the cases of `number_value_to_ascii`, which is in Format with the classes of registers.
-- Diversion: the top-level diversion of src/roff/troff/div.cpp. Traps is the list of page location
-- traps, Page the beginning of a page (`begin_page`) and the move down on it (`space`), with the
-- globals they change in the state and what they do outside as events.
-- Dictionary: src/roff/troff/dictionary.cpp. The hash table is a function from slots, and `lookup` calls
-- itself to a given depth. Valid says when a table is well formed and which map it stands for, Probe,
-- Insert, Replace, Scan and Grow are about `lookup`, Hole, Move, Close and Remove about `remove`, and
-- Iterate about the iterator. Dictionary/Objects is `object_dictionary`, over any dictionary that keeps
-- the promises of `DictionaryOps`, as the hash table does (Hashed), with the reference counts in a heap.
-- Environment: src/roff/troff/env.cpp. Tabs is `tab_stops` and the request `ta` (Request), Breakpoint is
-- `choose_breakpoint`, with the virtual functions of nodes as fields and a description of its tests in
-- Loose, and Spread is `distribute_space`,
-- with `spread_space` of src/roff/troff/node.cpp.
-- Strings: src/libs/libgroff/string.cpp and src/include/stringclass.h. Registers and the dictionary are
-- what the interpreter names; strings are the text of the preprocessors.
-- Color: src/libs/libgroff/color.cpp, on `unsigned int`. `rgb_of` and its kin are the switches over
-- the scheme; Color/Encoding reads hexadecimal colors.
-- Unicode: src/libs/libgroff/unicode.cpp. Characters: the classes of src/libs/libgroff/cset.cpp.
-- Preconv/Utf8: `struct utf8` of src/preproc/preconv/preconv.cpp; `add` takes one byte and returns
-- the characters that come out, `conversion_utf8` a whole text. Preconv/TagLines is
-- `get_tag_lines`, which reads the first two lines ahead, and Preconv/CodingTag has `get_BOM` and
-- `check_coding_tag`, which look for the encoding of a file.
--
-- The two functions of an expression call one another on the rest of the input. They are given fuel
-- for twice the tokens left and two calls more, since each call takes a token or stands one call
-- further in than one that does. Loops over a number (`digits`, `letters`) have the number itself as
-- fuel, since they divide it. A search of a hash table has its size as fuel, since an empty slot is ahead,
-- and the search for a new size tries as many numbers as it is given: that one of them is good is a
-- hypothesis where the table grows. `lookup` needs depth two, since the calls in a new table do not make
-- it grow. The search for a tab stop has a round for each unit of the position, since every round goes on
-- by a period, which is positive.
--
-- Messages and warnings are not modelled, since no state depends on them. Not modelled are most
-- requests, the interpreter, filling and hyphenation, nodes, preprocessors and drivers.
pub mod Prelude
pub mod Int32
pub mod Characters
pub mod Units
pub mod Strings
pub mod Expression
pub mod Register
pub mod Dictionary
pub mod Diversion
pub mod Environment
pub mod Color
pub mod Unicode
pub mod Preconv
