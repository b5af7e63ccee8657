-- ===== src/Lib.antt =====
-- The verification library of carrotdb, a Redis-compatible server in C++.
--
-- The program. A client's bytes reach Parser::Parse (src/parser/parser.cpp), which cuts them into
-- tokens; src/parser/command-parser.cpp makes commands of them, the handlers under src/db run the
-- commands on the key store, and the encoders of src/utils/utils.h write the replies. A list is kept
-- in a listpack (src/listpack.cpp), one block of memory; a stream (src/stream.cpp) keeps its entries
-- in a radix tree (src/radix-tree.cpp) under the binary form of their ids. A replica reads what its
-- master sends with the response parsers of src/parser/parser.cpp, and then the commands that the
-- master prints with to_resp (src/parser/command.h) and sends on (src/replication.cpp); it parses and
-- executes them like a client's (src/slave-replication.cpp).
--
-- The files.
--   Base       the shared names: native numbers, lists over them, integers, bits, byte strings, and
--              the decimal text of std::to_string.
--   Utils      src/utils/utils.h: the number parsers and is_equal.
--   Resp       src/utils/utils.h (Encode) and src/parser/parser.cpp (Parser); Digits, RoundTrip and
--              Tokens hold the proofs.
--   Listpack   src/listpack.h and src/listpack.cpp. Number is lpStringToInt64, Encoding the element
--              encodings, Backlen the length behind an element, Element the reading side, Memory the
--              block moves, Header the size and the count, Insert lpInsert with its wrappers, Walk
--              lpNext, lpPrev, lpSeek, lpLength, lpPrepend and lpValidateIntegrity. Insert/Content
--              gives the abstract view: IsListpack says that a block holds a list of texts.
--   Stream     src/stream.h (Id), src/radix-tree.cpp (Radix) and src/stream.cpp (Entries); IdLaws,
--              Text and Growth hold the proofs.
--   Lists      src/db/LPOP/lpop_db.cpp (Pop) and src/db/LRANGE/lrange_db.cpp (Range) behind the look-up of
--              the key; Laws and RangeLaws hold the proofs.
--   Commands   src/parser/command.h (Command; Print is to_resp), src/parser/command-parser.cpp (Read for
--              the pieces that its functions repeat, Parse for the function of each command, Dispatch
--              for parseCommand) and the encoding of src/geohash.cpp (Geohash). Codec holds the proofs
--              on printed commands, Termination that of parseCommand.
--   Replication src/slave-replication.cpp (Slave) and src/replication.cpp (Master, Info). Replay, Handshake,
--              Propagation, Agreement, Acknowledged, Waiting and Timeout hold the proofs; Agreement joins the
--              two sides.
--   Transactions src/models/client.h (the flags), src/db/db.cpp (DB::call and DB::execute) and the
--              handlers under src/db/MULTI, src/db/EXEC and src/db/DISCARD, with the tests of
--              the context's command in the other handlers under src/db (Types); Watch is the marking of
--              watchers, Queue, Laws, Ordered and Invariant hold the proofs.
--   Modules named Examples run the theorems on concrete inputs.
--
-- How the code is modelled. Bytes and machine integers are natural numbers, with every wrap-around
-- that the code can meet written out. A block of memory is the list of its bytes and a pointer into
-- it an offset; a null pointer is none. The bytes of fresh memory are a fixed unknown byte. An
-- assertion that fails is the outcome aborts; an allocation is a parameter that tells, for each size,
-- whether it succeeds. std::map is the list of its keys and values in the order of the keys. The
-- clock is an argument, and so are the snapshot's bytes. `double` and the library's functions on it
-- are the interface Commands/Doubles, which no theorem asks for laws. A command is one constructor of a
-- data type. What a replica's database does with a command is a parameter of Replication/Slave; the
-- handlers that DB::call runs are the interface Handlers of Transactions.
--
-- Bounds and fuel. Twenty digits print every 64-bit number. The loop that reads a length backwards
-- stops after five bytes in the code itself. The loops of lpLength and lpValidateIntegrity run on the
-- size of the block in bytes, which is more than the number of its elements; the loop over a sequence
-- of bulk strings runs on fuel, and one unit for each text and one more are enough. parseCommand runs
-- on fuel for the bulk strings that it skips, and one unit more than the buffer's bytes is enough; the
-- loop of a replica over its commands needs one unit for each command and one more. DB::call
-- needs two units, since EXEC calls the commands of its queue and is never in one. A text in a
-- listpack is shorter than 2 ^ 32 - 5 bytes, so that its element's size fits uint32_t. The code's walk
-- over a listpack ends in a failed assertion at an integer outside int32_t, whose header it takes for
-- empty; Element/Size calls the other texts walkable. DB::call has no result where a handler casts
-- the context's command to a type that it does not have (PUBLISH, SUBSCRIBE and ACL GETUSER in EXEC). A
-- replica's client is in no transaction: the model ends at a MULTI, behind which the code of the
-- loop reads through a null pointer.
--
-- Not modelled: lpNextWithBytes, which nothing calls; the constant replies; SHA-256
-- and the clock, which are outside the repository; commandTypeToString; the dispatch between the
-- replication commands of the master; the sorted set, the handlers of the
-- other commands, access control and the snapshot file; geographic distances, which are
-- trigonometry on floating point; sockets, the event loop and the configuration.
pub mod Base
pub mod Listpack
pub mod Resp
pub mod Stream
pub mod Utils
pub mod Lists
pub mod Commands
pub mod Replication
pub mod Transactions
