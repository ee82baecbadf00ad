-- ===== src/Persistence/Aof/Writer.antt =====
-- The struct AOF of internal/persistence/aof.go: the file and the bufio.Writer before it.
use pendem.Base.{ℕ, List, [], ◌∷◌, ◌++◌, Bytes, take, drop}
use pendem.Persistence.Aof.{log_command}

-- `file`, as its bytes, and `writer`, as those that it has not written yet.
pub record LogFile : Type 0 where
  pub file : Bytes
  pub buffer : Bytes

-- `Start` opens the file with O_APPEND and puts an empty buffer before it.
unfoldable pub start : Bytes → LogFile
start contents = record { file = contents; buffer = [] }

-- `LogCommand`
unfoldable pub append_command : Bytes → List Bytes → LogFile → LogFile
append_command cmd args f = record f { buffer = f.buffer ++ log_command cmd args }

-- A bufio.Writer that is full, or whose Flush fails half way, writes the first bytes of its buffer.
unfoldable pub spill : ℕ → LogFile → LogFile
spill n f = record { file = f.file ++ take n f.buffer; buffer = drop n f.buffer }

-- `Flush`
unfoldable pub flush : LogFile → LogFile
flush f = record { file = f.file ++ f.buffer; buffer = [] }

-- What happens to the log: a command is logged, the buffer overflows by some bytes, or the ticker of
-- `flushLoop` runs.
pub data LogEvent : Type 0 where
  logged : Bytes → List Bytes → LogEvent
  overflow : ℕ → LogEvent
  tick : LogEvent

unfoldable pub on_event : LogEvent → LogFile → LogFile
unfolding append_command spill flush
on_event (logged cmd args) = append_command cmd args
on_event (overflow n) = spill n
on_event tick = flush

unfoldable pub run : List LogEvent → LogFile → LogFile
unfolding on_event
run [] f = f
run (e ∷ es) f = run es (on_event e f)

-- `Stop`: the loop ends and the buffer is flushed. The bytes are those of the closed file.
unfoldable pub stop : LogFile → Bytes
unfolding flush
stop f = (flush f).file
