-- ===== src/Lib.antt =====
-- Pendem, an in-memory cache server that speaks the Redis protocol.
--
-- A connection sends commands as RESP values; the server gates them by a password, queues them in a
-- transaction or runs their handlers; the handlers work on a cache of shards, each an LRU with a
-- memory limit beside maps of hashes, lists, sets and sorted sets.
--
--   Base      what the Go program takes from the language, strconv, strings, bufio and fmt: strings as
--             lists of bytes, maps as association lists, int64 as an integer with its wrap written
--             out.
--   Resp      internal/server/resp.go. Encode is EncodeRESP, Parse is RESPParser.Read over the bytes
--             of the connection, with the panics of the runtime as an outcome. The nesting limit of
--             32 is the parameter `room` that recursion is on, so no fuel is needed.
--   Engine    internal/engine. Lru is lru.go with its list, map and counters (elements stand under
--             numbers in place of pointers; the eviction loop has the number of elements as fuel, and
--             Evict shows that this is enough); Item, Hash, ListValue, SetValue, SortedSet, Pattern
--             are the files of these names; Shard has one step for each section under the lock; Cache
--             routes keys to shards by the FNV-1a hash.
--   Handler   internal/handler, a function for each command; a `go LogCommand` is an entry of the
--             list `launched`. Table is the registration in cmd/main.go.
--   Server    internal/server: connections, watchers, MULTI, EXEC, DISCARD, WATCH, UNWATCH (Watch,
--             Transaction), the password and the pipeline (Process). Handlers are a parameter, a map
--             from names to functions on a state `C`. Queue, Isolation, Auth and Stale hold
--             the proofs.
--             Stream is the loop of handleConnection, from the bytes of the client to those of the
--             replies, for a list of times: where it ends, the tests at the top of the loop find the
--             connection or `quit` closed. That a handler panics is the parameter `panics`.
--             Accept is Start, handleConnection and ShutdownWithTimeout as a step relation. Idle is
--             the monitor of connection.go, over a list of events. Splitting is about the reply to
--             an unknown command, and Setup is the new server with RegisterHandler and GetHandler.
--   Persistence  internal/persistence. Aof is LogCommand and the loop of Load in aof.go, and
--             Aof.Writer the file with the buffer before it; Replay is replayCommand, Rdb is Save
--             and Load of rdb.go over the bytes of the file, Json is the data of json.go, and
--             Json.Info its Info and formatSize, with the size of the file as fuel. Disk is what
--             both saves do to the files, as a list of effects that may stop anywhere, with the
--             rotation of json.go; AutoSave is Start and Stop of both. Manager is loadData of
--             manager.go, and Lifecycle the rest of that file. The length of a file is the fuel of
--             its loops, since each value or shard takes at least a byte.
--   Config    internal/config: the types, the defaults and Validate of config.go and FindConfigFile
--             of loader.go; Parser is parser.go and Load is LoadConfig. Search is
--             DefaultConfigPaths and the priorities of cmd/main.go. The fuel of TrimSpace is the
--             length of the string, since each space takes at least a byte.
--   Main      cmd/main.go: the start of the process with its data and its log, and its end.
--   Tests, CacheTests, ServerTests, StreamTests, ConfigTests, PersistenceTests, DurabilityTests
--             the theorems at concrete inputs.
--
-- Command names and options are put in upper case on ASCII letters; strings.ToUpper also maps the
-- letters of other alphabets, two of them to ASCII, and mends bytes that are no UTF-8.
-- Times are parameters (`now`, in nanoseconds), as is the type of float64 with its operations (the
-- record Floats). Go leaves the order of a walk over a map open; the model takes the order of
-- insertion. time.ParseDuration, the text of encoding/json, what MEMORY prints of the runtime, and
-- the environment with filepath.Join are parameters, as are the answer of os.Stat and the decimals
-- that fmt prints. sort.Slice keeps the order of what is equal. A
-- disk is a map from paths to files; a write is on the disk when it is made. Not modelled: sockets
-- and deadlines, the idle time of a ticker, what the operating system has not written yet, the report
-- of String, and logging.
pub mod Base
pub mod Resp
pub mod Engine
pub mod Server
pub mod Persistence
pub mod Config
pub mod Handler
pub mod Main
pub mod Tests
pub mod CacheTests
pub mod ServerTests
pub mod StreamTests
pub mod ConfigTests
pub mod PersistenceTests
pub mod DurabilityTests
