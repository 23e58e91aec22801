-- ===== src/Lib.antt =====
-- libpqxx, the C++ client library for PostgreSQL: the code that reads and writes SQL text, and the
-- state machine of a transaction.
--
-- Encoding models include/pqxx/internal/encodings.hxx and src/encodings.cxx. `glyph_scanner` finds
-- the end of a character in each encoding group (Encoding/Scanner), `find_ascii_char` looks for ASCII
-- characters and skips whole characters (Encoding/Finder), and `enc_group` knows the group of an
-- encoding by its name (Encoding/Group). A `Glyph` (Encoding/Text) is a character as the documentation
-- of its encoding describes it, and `bytes` the text of a list of them. Encoding/Search has what a
-- search does on such text: every parser below rests on that module.
--
-- Array models the array part of include/pqxx/internal/array-composite.hxx, src/array.cxx and the
-- traits in include/pqxx/internal/conversions.hxx. Array/Quoted has the scanner and the parser of
-- double-quoted strings, which composite values use too, Array/Writer is `array_into_buf`, and
-- Array/Parser is a step of `array_parser`; `Parses` is a run of `get_next`. An element is the branch
-- of the code that its C++ type takes, with its text and its `size_buffer`. Array/Container and
-- Array/Extents are the container `pqxx::array` of include/pqxx/array.hxx: its constructor and `at`,
-- with the separator, the number of dimensions and the element's reader as arguments.
--
-- Composite models the composite part of array-composite.hxx and include/pqxx/composite.hxx. The
-- conversion of a field's type is an argument, the `FieldReader`. The writer works on the bytes of its
-- buffer (Composite/Buffer), since a field may be converted into the end of it.
--
-- Stream models the text format of COPY: src/stream_to.cxx and include/pqxx/stream_to.hxx write a row
-- to `m_buffer`, and `stream_from::parse_line` in src/stream_from.cxx reads a line.
--
-- Transaction models src/transaction_base.cxx, src/transaction.cxx, `do_commit` of
-- src/subtransaction.cxx and include/pqxx/nontransaction.hxx, and what they use of src/connection.cxx
-- and src/util.cxx. Transaction/State has the state, in which the backend is the list of its answers to
-- come and of the commands it was sent, and Transaction/Operations the operations. A call returns a
-- `Result` and the state that it leaves, whether it returns or throws. Transactor models `perform` of
-- include/pqxx/transactor.hxx, which runs a transaction again; its callback is an argument.
--
-- Binary models `esc_bin` and `unesc_bin` of src/util.cxx, and Strconv the text of integers that
-- src/strconv.cxx writes; Strconv/Booleans its conversions of Booleans.
--
-- Cursor models src/sql_cursor.cxx: `find_query_end`, and how `adjust` keeps the position of the
-- backend's cursor (Cursor/Movement). Cursor/Backend has that cursor as an argument, with the
-- documented behaviour of FETCH and MOVE as laws, and on it `fetch`, `move` and the stateless cursor
-- of src/cursor.cxx. `landing` and `met` (Cursor/Adjusting) are the abstract cursor.
--
-- Range models include/pqxx/range.hxx: the bounds (Range/Bounds), the class (Range/Ranges) and its text
-- (Range/Text), whose reader is that of composite values. The value type is an argument: an `Element`
-- with the laws of its order, an `ElementText` with its conversions.
--
-- Date models `year_month_day` as text (src/time.cxx). `Calendar` is what the code uses of std::chrono,
-- whose years are -32767 to 32767, and of std::from_chars.
--
-- But for the composite writer's, buffers are the lists of the bytes written to them, with their size as
-- a number where the code tests it; in an array the text of an element stands apart from the buffer. A byte is a number. `std::size_t` wraps around only where the code subtracts from a size
-- that may be 0 (`size_composite_field_buffer`, and `dim` in `parse` of an array); the other sizes are
-- bounded by memory. An exception is its class (Prelude/Results), and an `assert` is tested, as in a
-- build with assertions. A loop has fuel: the size of the text it walks and one more (two more in
-- the loop that takes a round at the end of the text), since each round takes a byte or ends the loop.
-- `close` and `abort` of a transaction call each other two calls deep.
--
-- Not modelled: connections and results beyond what a transaction sees, notifications, pipelines, streams of cursor
-- blocks, large objects, the conversion of floats, and robust transactions. What libpq
-- computes is an argument or an answer.
pub mod Prelude
pub mod Encoding
pub mod Array
pub mod Composite
pub mod Stream
pub mod Transaction
pub mod Transactor
pub mod Binary
pub mod Strconv
pub mod Range
pub mod Cursor
pub mod Date
