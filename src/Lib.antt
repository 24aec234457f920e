-- ===== src/Lib.antt =====
-- simdfix: a verification library of the FIX protocol library simdfix.
--
-- simdfix tokenizes FIX messages with vector instructions and gives typed access to their fields. A
-- message is an array of tokens (`Field`) with a parallel array of tags. `FieldDecoder` finds a token by
-- its tag, converts its bytes, and keeps the stack of scopes in which a repeating group's fields are
-- looked up; `GroupDecoder`, `DataDecoder` and `MessageDecoder` work on a `FieldDecoder`. All of them
-- use the conversions of digits and dates, and the vector search for a tag.
--
-- Paths are below src/main/cpp/org/limitless/simdfix, if not said otherwise.
-- Base, Bits, Memory: native numbers, integers and lists; bytes in a word, and bitwise operations on
--   the bytes of a word one by one; raw memory as a function from offsets to bytes.
-- Conversions: utils/Conversions.hpp, numbers. asciiToUin32, asciiToUint64 (`padded_digits` is its fast
--   path, `digit_loop` its loop), scale, findByte, isDigits, fastDivide.
-- Dates: utils/Conversions.hpp, dates and times. daysSince1970, dateToEpochDays,
--   timestampMillisFromDays, dateTimeToEpochUTC, timeOnlyToMillis, dateOnlyToEpochUTC, and the writers of
--   dates and times; `civil_from_days` is the computation that writeDateOnly and writeDatePrefix share.
--   Dates/Civil has the calendar they are compared with; Written, Clock and Timestamps read back what
--   the writers wrote.
-- Types: Types.hpp, detail/Expected.hpp and detail/Tokens.hpp. `Status` is the enum Result.
-- LinearSearch: find of detail/simd/LinearSearch.hpp, with the operations of
--   detail/simd/Uint8x16_sse.inl that it uses, lane by lane.
-- Vector: the struct Uint8x16 and ChecksumAccumulator of detail/simd/Uint8x16_sse.inl, lane by lane.
-- PayloadDecoder: decoder/PayloadDecoder.hpp, the tokenizer: its state, the writes to its arrays,
--   checkRequiredFields and processCheckSum. Block has processBlock and skipDataField, Trailer
--   processTrailer, Parse tokenize and both forms of parse, DataFields resolveDataFields and what it
--   calls. Checks, Parse/Scanned, Parse/Accepted and Parse/Safe say what a message is that is accepted.
-- FieldDecoder: detail/parser/FieldDecoder.hpp, the state as a record; Indexed has the accessors by
--   index. A getter that may fill the date cache returns the decoder as well.
-- GroupDecoder, DataDecoder: decoder/GroupDecoder.hpp and decoder/DataDecoder.hpp.
-- MessageDecoder: decoder/MessageDecoder.hpp, TokenizedMessage.hpp, and SessionContext of Types.hpp.
-- Conversions/Print: the printers of utils/Conversions.hpp, for integers and decimals; FieldDecoder/Printed
--   and FieldDecoder/Decimals/Printed read back what they wrote.
-- FixedDecimal: utils/FixedDecimal.hpp. A signed operation wraps where C++ leaves its overflow undefined.
-- FieldDecoder/Decimals: convertToFixedDecimal of detail/parser/FieldDecoder.hpp, its three paths one by
--   one, and the getters that call it.
-- ResendEncoder: encoder/ResendEncoder.hpp, in the stages up to MsgSeqNum, up to CheckSum, and CheckSum,
--   through the field encoder and the decoder's parse.
-- Tokens: the enumerations of detail/Tokens.hpp that the generator reads.
-- DataModel: DataModel.hpp in src/generator/org/limitless/generator/simdfix, the model of a protocol that
--   is read from XML. What it asks of a node is the record `Xml`; unordered maps are lists of pairs.
-- Generator: FixGenerator.cpp beside it, the functions that compute on the data model and on names.
-- FieldEncoder: detail/encoder/FieldEncoder.hpp, and encoder/DataEncoder.hpp, GroupEncoder.hpp and
--   MessageEncoder.hpp, which write through it. A field's tag is the text of its template argument.
-- PayloadEncoder: encoder/PayloadEncoder.hpp. A message is given to encode by its type and length.
-- OptionalInt: utils/OptionalInt.hpp, for an integer type given by its operations.
--
-- Machine integers are natural numbers with their wrap-around written out, or integers where the code
-- has signed ones that stay in range. Loops are recursion on the number of rounds that are left, which
-- the callers compute from their arguments as the code's loop conditions do. In the tokenizer the loops
-- take fuel: 64 rounds for the tags of a block, since its flags are a word of 64 bits; a round for each
-- byte of the trailer; and for the loop over the blocks one more than the buffer has bytes. A scan that
-- skips data fields can go back, by a sum that wraps, so its result is `none` where the rounds of the
-- caller are used up. A pointer to a token is its index. Reads past a buffer give some byte: memory is a
-- total function, and so are the arrays of tokens, tags and scopes. The generator's recursion over nested
-- groups takes a depth; a document whose groups go no deeper never uses it up.
-- An index that is passed as an int8_t gives no token once it has wrapped.
--
-- Not modelled: the conversion of a fixed decimal to floating point, and the stream operators; wrapHeader
-- and wrapMessage of the payload encoder, which call generated encoders; the functions of the code
-- generator that print C++, its arguments and files; the lookup of an enum by its code and the schema's
-- dataTag, which are generated and stand as parameters; the XML library, a parameter; the polyfills of
-- the C++ standard library, tests, benchmarks and examples. The indices of the token arrays are not
-- compared with MaxFields, and those of the encoders' buffer not with its size, in the code and in the
-- model alike.
pub mod Base
pub mod Bits
pub mod Memory
pub mod Conversions
pub mod Dates
pub mod Types
pub mod LinearSearch
pub mod FieldDecoder
pub mod GroupDecoder
pub mod OptionalInt
pub mod DataDecoder
pub mod MessageDecoder
pub mod Vector
pub mod PayloadDecoder
pub mod PayloadEncoder
pub mod FieldEncoder
pub mod FixedDecimal
pub mod ResendEncoder
pub mod Tokens
pub mod DataModel
pub mod Generator
