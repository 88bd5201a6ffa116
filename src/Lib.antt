-- ===== src/Lib.antt =====
-- A model of serialization-cpp, a C++ library that writes and reads data structures as bytes, as
-- hexadecimal text and as JSON, and theorems about it.
--
-- The program. `serializer_t` (include/serializer_t.h, src/serializer_t.cpp) is a writer: each call
-- appends to a vector of bytes. `deserializer_t` (include/deserializer_t.h, src/deserializer_t.cpp) is
-- a reader: a vector of bytes and an offset, which each read moves. Both use the templates `pack`,
-- `unpack`, `encode_varint` and `decode_varint` of include/serialization_helper.h, and `to_hex` and
-- `from_hex` of src/string_helper.cpp. A structure that extends `Serializable`
-- (include/serializable.h) is written and read by their templates: `SerializablePod`
-- (include/serializable_pod.h) is an array of bytes, `SerializableVector`
-- (include/serializable_vector.h) a vector of structures. Both are written as JSON, and loaded from
-- it, by the getters and macros of include/json_helper.h.
--
-- Files. Common.antt and its children hold shared names, the outcomes (Common/Result.antt) and calls
-- that change an object (Common/Run.antt). Hex.antt: `to_hex`, `from_hex`. Varint.antt: the varint
-- templates. Pack.antt: `pack` and `unpack`. Serializable.antt: what readers and writers ask of a
-- structure. Serializer.antt: the writer. Deserializer.antt: the reader; Deserializer/Queue.antt: the
-- reader of a queue of bytes that specifies it, and Deserializer/Requests.antt: clients of both;
-- Deserializer/Cursor.antt: the same with the calls that place the reader. Serializer/Log.antt: the
-- log that specifies the writer, and Stream/Refines.antt: clients of both. Stream.antt: sequences of
-- writer calls and the reads that answer them. Erase.antt: src/secure_erase.cpp. Range.antt:
-- `std::equal`. Pod.antt and Vector.antt: the two structures; Pod/Hooks.antt: classes that override
-- `load_hook`. Interface.antt: the whole abstract class of include/serializable.h and its contract;
-- Interface/Pods.antt and Interface/Vectors.antt: the two structures as implementations;
-- Interface/Transport.antt and Interface/Sent.antt: clients of them; Interface/Attempts.antt: a client
-- that loads byte structures again and again, with its specification Pod/Copies.antt.
-- TestProgram.antt: test/test.cpp. Strings.antt: the other helpers of src/string_helper.cpp.
-- Json.antt: the getters of include/json_helper.h; Json/Load.antt: its loading macros;
-- Json/Structures.antt: `fromJSON` and the JSON constructors of the two structures; Json/Write.antt:
-- the macros and methods that write JSON, and the step from a document to its text and back;
-- Json/Tree.antt: what a document holds, as a specification of both; Json/Struct.antt: structures that
-- are made of the macros. The other children of a module hold its theorems; Tests.antt and its
-- children run the code on concrete inputs.
--
-- How code is modelled. A call's outcome is a value, an exception (one constructor for each message of
-- the code, with the name of the key or of the kind of value that the message holds) or undefined
-- behaviour: a read or a write outside of an object, or a shift that is too wide. A call that changes
-- an object returns the outcome and the object, since an exception does not undo what was done before
-- it. Bytes and characters are numbers below 256, which the theorems that need it ask for. A method
-- keeps the name that it has in the source; an overload or an operator has a name of its own
-- (`bytes_vector`, `pod_vector`, `less`), and `podV`, `podVV` and `varintV` are `pod_vector`,
-- `pod_nested` and `varint_vector`. A default argument is written out at each call. `size_t` and
-- `uint64_t` have 64 bits: sums and differences wrap around where the code leaves them to, and `npos`
-- is 2 ^ 64 - 1. Native integers are little-endian in memory, as on the platforms that the library is
-- built for. Characters are those of the C locale.
--
-- Loops. Most are structural recursion. `encode_varint` divides by 128 and recurs on the order of the
-- numbers. The search loop of `str_split` has fuel, one round more than the text has characters: each
-- round but the last moves behind a delimiter, so that it does not run out.
--
-- Parameters. The wide integers of uint256_t are a `Layout`: a size of at most 64 bytes and an object
-- representation that can be read back. RapidJSON is the record `Json` of the members that the code
-- calls, with five documented facts on the kinds of values in `IsRapid`; `get_string` stands for the
-- std::string that the code makes of `GetString()`. Its writer and its document are the record
-- `Writer`, with the law `IsDocumented`: the text of a tree is parsed to a value that shows the tree,
-- if its texts are of ASCII without a zero byte, its numbers of their types and the keys of an object
-- differ. A structure is a record `Serializable`, with the laws `IsFixedSize` where it is to be read
-- back; Pod/Laws.antt has those of pods. A class that overrides `load_hook` is given by its hook, any
-- call that may change the object and throw.
--
-- Not modelled: the MSVC branch of `secure_erase`; writing through a pointer to an object's data, and
-- reading there once the object has changed; a JSON writer that is left in the middle of a document; a
-- `SerializableVector` extended with itself; running out of memory; what the test program prints;
-- RapidJSON, uint256_t and build files.
pub mod Common
pub mod Hex
pub mod Varint
pub mod Pack
pub mod Serializable
pub mod Interface
pub mod Serializer
pub mod Deserializer
pub mod Stream
pub mod Erase
pub mod Range
pub mod Pod
pub mod Strings
pub mod Vector
pub mod Json
pub mod TestProgram
mod Tests
