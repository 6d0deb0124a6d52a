-- ===== src/Lib.antt =====
-- Verification of afl: the in-memory Redis database and what it stands on, the Redis wire format,
-- Base64, hexadecimal, quoted-printable and URL encodings, packed numbers, limited and constant
-- streams, strings, the Redis client objects,
-- both sides of a RESP connection, UTF-8, JSON, message headers, line protocols, two checksums, POSIX
-- path names, and the file system in memory.
--
-- Parts of the program and the files that model them (source paths are from the repository's root):
--   Base                shared helpers: lists, Booleans, integers over the native numbers, byte strings
--   Except              afl/except and the texts of afl/string/messages.hpp: results that may be exceptions
--   Container/Map       afl/container/ptrmap.hpp and std::map, std::set with string keys
--   Text/Char           afl/string/char.hpp, strUCase and strCaseCompare of afl/string/string.cpp
--   Text/Number         afl/string/formattraits.cpp for %d, afl/string/parse.cpp and parse.hpp
--   Data/Value, Access  afl/data: the values, Access::toString and toInteger
--   Charset/Base64      afl/charset/base64.cpp
--   Io/Limited          afl/io/limitedstream.cpp over a parent stream that is a parameter
--   Redis               afl/net/redis/internaldatabase.cpp
--   Resp/Writer         afl/io/resp/writer.cpp: a value as bytes
--   Resp/Parser         afl/io/resp/parser.cpp: the push parser, which gets its input in pieces
--                       (Bytes: the same byte by byte; Chunks, Shallow, Refines, Pieces: proofs)
--   Resp/RoundTrip      the two together
--   Text/Hex, Charset/Hex, Charset/Url, Charset/QuotedPrintable
--                       afl/string/hex.cpp, afl/charset/hexencoding.cpp, urlencoding.cpp and
--                       quotedprintable.cpp
--   Io/ConstMemoryStream
--                       afl/io/constmemorystream.cpp
--   Bits                afl/bits/uint*.hpp and int*.hpp for 16, 32 and 64 bits
--   Text/PosixFileNames afl/string/posixfilenames.cpp
--   Io/InternalStream   afl/io/internalstream.cpp, with the operations of afl/base/memory.hpp and
--                       growablememory.hpp that it uses
--   Io/InternalFileSystem
--                       afl/io/internalfilesystem.cpp: nodes, directories and opening of files
--                       (Iterators: those of afl/container/ptrmultilistbase.cpp;
--                       Entries: the operations on entries; Root: the directory above the root and what
--                       entries tell of themselves; Valid, Failures, Created: proofs)
--   Charset/Unicode, Utf8Reader, Utf8
--                       afl/charset/unicode.hpp, utf8reader.cpp and utf8.cpp
--                       (RoundTrip, Progress, Positions: proofs)
--   Json                afl/io/json: Writer and Parser
--                       (Scanned, Loops, Texts, RoundTrip, Ends: proofs)
--   Net/Handler         afl/net/commandhandler.cpp, nullcommandhandler.cpp
--   Net/Redis           afl/net/redis: the objects for keys, fields, subtrees, sorting and set operations
--                       (Spec: what they do on top of the internal database)
--   Net/Resp            afl/net/resp/protocolhandler.cpp and client.cpp
--                       (Bytes, Commands, Replies, Served, Reconnect: what they do with commands)
--   Text/String         the rest of afl/string/string.cpp: trimming, splitting, case, words
--   Net/HeaderField, HeaderTable, HeaderParser
--                       afl/net/headerfield.cpp, headertable.cpp and headerparser.cpp
--   Net/Line            afl/net/line/protocolhandler.cpp around a line handler
--   Checksums           afl/checksums/adler32.cpp and bytesum.cpp
--   Tests               concrete runs, and the theorems at concrete inputs
--
-- How they interact. A client's command reaches `InternalDatabase::call` as a segment of values
-- (Redis.Database.call on a list of values). The verb is taken off and put in capitals, and `execute`
-- dispatches on it. Each branch of `execute` is one function of Redis.Strings, Hashes, Lists, Sets, Keys
-- or Sort, named for the verb; the arguments are read by `SegmentView::eat`, which converts each value
-- by Data.Access; a null pointer leaves the variable that it is read into as it was, which in a loop over
-- arguments is the one before (`last` in the loops of the model). A branch is an action: a function from the data `m_data` to a result and the data
-- after it. An action that throws ends the command, with the data as they were changed so far; `call`
-- puts the verb into the text of an exception. Numbers are kept as decimal text, so INCR and the others
-- go through Text.Number in both directions.
--
-- State. `m_data` is a map from names to entries: a string, a hash, a list or a set, for the classes
-- derived from `Key`. Maps and sets are lists in the order of their keys, byte by byte as unsigned numbers.
-- A pointer to an entry's value is used only while its entry stays in the map, except in RPOPLPUSH with
-- the same key twice, where the model reads the list again.
--
-- A reply goes to the wire by `Writer::visit` (Resp.Writer.write, the bytes that the sink gets), and a
-- command comes from it through `Parser::handleData` (Resp.Parser.handle_data). The parser's state is one
-- of the source's state classes with its members (Resp.Parser.State); an array state holds the state of
-- the parser of its elements. A parser that is done keeps the value until `extract` takes it.
--
-- The client objects are functions of a command handler, which is given by what `call` and `callVoid` do
-- to its state, and of the names that the object holds (Net.Redis.StringKey.get ch name). The handler may
-- be the internal database. A ProtocolHandler is a state (Net.Resp.ProtocolHandler.Connection) around a
-- handler: `handleData` parses commands, has the handler execute them, and keeps the replies, which
-- `getOperation` gives out one by one. A resp::Client (Net.Resp.Client.Client) is a state over a network
-- whose connect, send and receive are parameters.
--
-- The internal file system's node lists and streams are shared by references. They stand in a store, in
-- which each has a number (Io.InternalFileSystem.Store), and a directory object is its name, the number of
-- its node list, and its parent. An operation is a function from the store to a result and the store after
-- it. A path is followed from node list 0 by `findDirectory`, and an entry is a directory with a name.
--
-- A header parser gives the fields that it completes to its consumer, which is a header table
-- (Net.HeaderParser.HeaderParser.consumer); a header table writes its fields as the text that the parser reads.
-- A line protocol handler (Net.Line.ProtocolHandler.Connection) is a state around a line handler, which gets
-- each line and answers with whether the conversation ends and the lines for the other side.
--
-- Bounds and fuel. int32_t values are integers that wrap at 32 bits; size_t values are numbers with
-- `% 2 ^ 64` written out where the code can leave their range. Loops over a list are recursion on it;
-- loops that count are recursion on fuel, the length of the list or the value itself, which is an upper
-- bound for the number of rounds, and the theorems on them hold for that fuel.
--
-- The parser has fuel for four steps per byte and three per nested array, and the theorem that it does
-- what the bytes do one by one shows that this is enough. An IntState's value is kept as its magnitude,
-- with the source's checks against INT_MIN and INT_MAX.
--
-- A limited stream's positions are 64-bit numbers; of its parent it assumes that a read or write handles
-- at most the bytes that it is given.
--
-- The loop of ProtocolHandler::handleData has fuel for every byte, each round taking one at least. The
-- client's loop over received pieces has as many rounds as its caller says, and no result where that is
-- not enough; one round is enough for a reply that comes in one piece.
--
-- The loops over lines and over the parts of a header field have fuel for every byte, each round taking one at
-- least.
--
-- Not modelled: floating-point values; the mutex, since calls in their order are steps of the model;
-- std::sort beyond one sorted order (an insertion sort with the code's predicate); std::rand, which is a
-- number given to each call.
pub mod Checksums
pub mod Json
pub mod Bits
pub mod Net
pub mod Base
pub mod Container
pub mod Text
pub mod Except
pub mod Data
pub mod Charset
pub mod Redis
pub mod Io
pub mod Resp
pub mod Tests
