-- ===== src/Server.antt =====
-- internal/server/transaction.go and the command processing of internal/server/server.go. The
-- handlers and what they work on are parameters: a map from names to functions, and a state `C`.
-- Connections are numbers; a pointer to one is its number.
pub mod Watch
pub mod Transaction
pub mod Process
pub mod Isolation
pub mod Auth
pub mod Stale
pub mod Queue
pub mod Accept
pub mod Stream
pub mod Idle
pub mod Splitting
pub mod Setup
use pendem.Base.{
  insert, lookup, ℕ, Bool, true, false, ◌||◌, Option, none, some, List, [], ◌∷◌, ◌++◌, map, Bytes,
  Map, codes, equal, ◌==◌, if◌then◌else◌, ◌≡◌,
}
use pendem.Base.Strconv.{to_upper}
use pendem.Resp.{RespValue, error, str, elements, is_bulk}

-- `Connection`, without the network. `closing` says that a close is on its way.
pub record Connection : Type 0 where
  pub authenticated : Bool
  pub in_transaction : Bool
  pub queued_commands : List RespValue
  pub watched_keys : Map Bool
  pub dirty : Bool
  pub closing : Bool

abbrev pub new_connection : Connection
new_connection = record {
  authenticated = false;
  in_transaction = false;
  queued_commands = [];
  watched_keys = [];
  dirty = false;
  closing = false;
}

-- `Server`: the connections, who watches which key, and what the handlers work on.
pub record Server (C : Type 0) : Type 0 where
  pub connections : ℕ → Connection
  pub watchers : Map (List ℕ)
  pub state : C

-- A `CommandHandler`, at the time of the call.
abbrev pub CommandHandler : Type 0 → Type 0
CommandHandler C = ℕ → List Bytes → C → C × RespValue

-- `s.config.RequirePass` and `s.handlers`.
pub record Config (C : Type 0) : Type 0 where
  pub require_pass : Bytes
  pub handlers : Map (CommandHandler C)

-- ResetTransaction
unfoldable pub reset_transaction : Connection → Connection
reset_transaction c = record c {
  in_transaction = false;
  queued_commands = [];
  watched_keys = [];
  dirty = false;
}

-- MarkDirty
unfoldable pub mark_dirty : Connection → Connection
mark_dirty c = record c { dirty = true }

-- SetAuthenticated
abbrev pub set_authenticated : Bool → Connection → Connection
set_authenticated auth c = record c { authenticated = auth }

-- WatchKey
abbrev pub watch_key : Bytes → Connection → Connection
watch_key key c = record c { watched_keys = insert key true c.watched_keys }

-- IsWatched
abbrev pub is_watched : Bytes → Connection → Bool
is_watched key c = elim (lookup key c.watched_keys) [ none ↦ false | some watched ↦ watched ]

-- A method called on a connection through its pointer.
unfoldable pub update : ℕ → (Connection → Connection) → (ℕ → Connection) → ℕ → Connection
update i f cs j = if j == i then f (cs j) else cs j

module _ {C : Type 0} where
  unfoldable pub with_connection : ℕ → (Connection → Connection) → Server C → Server C
  unfolding update
  with_connection i f s = record s { connections = update i f s.connections }

unfoldable pub bulk_args : List RespValue → List Bytes
bulk_args [] = []
bulk_args (v ∷ vs) = let rest = bulk_args vs in if is_bulk v then str v ∷ rest else rest

-- The command in upper case, and the arguments that are bulk strings.
unfoldable pub parse_cmd : List RespValue → Bytes × List Bytes
unfolding bulk_args
parse_cmd [] = ([], [])
parse_cmd (v ∷ vs) = (to_upper (str v), bulk_args vs)

unfoldable pub mem_name : Bytes → List Bytes → Bool
mem_name cmd [] = false
mem_name cmd (n ∷ ns) = equal cmd n || mem_name cmd ns

abbrev write_commands : List Bytes
write_commands = map codes (
    "SET" ∷ "DEL" ∷ "HSET" ∷ "HDEL" ∷ "LPUSH" ∷ "RPUSH" ∷ "LPOP" ∷ "RPOP" ∷ "SADD" ∷ "SREM" ∷ "ZADD"
    ∷ "ZREM" ∷ "MSET" ∷ "MSETNX" ∷ "APPEND" ∷ [])

unfoldable pub is_write_command : Bytes → Bool
unfolding mem_name
is_write_command cmd = mem_name cmd write_commands

-- The commands of which `extractKeys` takes the first argument.
abbrev single_key_commands : List Bytes
single_key_commands = map codes (
    "SET" ∷ "DEL" ∷ "GET" ∷ "TTL" ∷ "EXISTS" ∷ "APPEND" ∷ "STRLEN" ∷ "HSET" ∷ "HGET" ∷ "HDEL"
    ∷ "HLEN" ∷ "HEXISTS" ∷ "HKEYS" ∷ "HVALS" ∷ "LPUSH" ∷ "RPUSH" ∷ "LPOP" ∷ "RPOP" ∷ "LLEN" ∷ "SADD"
    ∷ "SREM" ∷ "SMEMBERS" ∷ "SISMEMBER" ∷ "SCARD" ∷ "ZADD" ∷ "ZRANGE" ∷ "ZREM" ∷ "ZCARD" ∷ "ZSCORE"
    ∷ [])

first_key : List Bytes → List Bytes
first_key [] = []
first_key (key ∷ args) = key ∷ []

every_other : List Bytes → List Bytes
every_other [] = []
every_other (key ∷ []) = key ∷ []
every_other (key ∷ value ∷ args) = key ∷ every_other args

unfoldable pub extract_keys : Bytes → List Bytes → List Bytes
unfolding first_key every_other mem_name
extract_keys cmd args =
    if mem_name cmd single_key_commands
    then first_key args
    else if mem_name cmd (map codes ("MGET" ∷ "MSET" ∷ "MSETNX" ∷ []))
    then every_other args
    else []

-- A value is read as a command with its arguments.
abbrev pub IsCommand : RespValue → Bytes → List Bytes → Type 0
IsCommand value cmd args =
    (v : RespValue) × (vs : List RespValue) × (elements value ≡ v ∷ vs)
    × (parse_cmd (v ∷ vs) ≡ (cmd, args))
