-- ===== src/Logger.antt =====
-- code/src/include/logger.hpp and code/src/src/logger.cpp. Text is a list of characters; what a stream
-- holds is kept whole, and `tellp` is a number of characters.
pub mod Flush
pub mod Tests
use cs451_2020_project.Base.{
  ℕ, zero, suc, ◌+◌, ◌*◌, ◌/◌, ◌%◌, ◌^◌, Bool, true, false, List, [], ◌∷◌, ◌++◌, ltb, if◌then◌else◌,
  length,
}
use cs451_2020_project.Base.Decimal.{print_number}
use cs451_2020_project.Message.{Message}

pub record Logger : Type 0 where
  pub file : List ℕ
  pub buffer : List ℕ
  pub count : ℕ

-- The constructor, on a file that could be opened.
abbrev pub new_logger : Logger
new_logger = record { file = []; buffer = []; count = 0 }

-- `buffer.clear()` resets the error flags of the stream and `buffer.flush()` does nothing to a
-- string stream: the text stays.
pub flush : Logger → Logger
flush l = record l { file = l.file ++ l.buffer }

abbrev max_len : ℕ
max_len = 1024 * 1024

pub try_flush : Logger → Logger
unfolding flush
try_flush l = if ltb max_len (length l.buffer) then flush l else l

-- `seq_num + 1` is on 32 bits.
pub broadcast_line : ℕ → List ℕ
unfolding print_number
broadcast_line seq_num = b'b' ∷ b' ' ∷ (print_number ((seq_num + 1) % 2 ^ 32) ++ (10 ∷ []))

pub deliver_line : Message → List ℕ
unfolding print_number
deliver_line msg =
    b'd'
    ∷ b' '
    ∷ (print_number (msg.originator + 1)
        ++ (b' ' ∷ (print_number ((msg.bcast_seq_num + 1) % 2 ^ 32) ++ (10 ∷ []))))

pub log_broadcast : Logger → ℕ → Logger
unfolding broadcast_line
log_broadcast l seq_num = record l { buffer = l.buffer ++ broadcast_line seq_num }

pub deliver : Logger → Message → Logger
unfolding deliver_line try_flush
deliver l msg =
    try_flush (record l { buffer = l.buffer ++ deliver_line msg; count = (l.count + 1) % 2 ^ 64 })

-- What the program does with its log.
pub data Event : Type 0 where
  sent : ℕ → Event
  received : Message → Event

pub line : Event → List ℕ
unfolding broadcast_line deliver_line
line (sent n) = broadcast_line n
line (received m) = deliver_line m

unfoldable pub step : Logger → Event → Logger
unfolding log_broadcast deliver
step l (sent n) = log_broadcast l n
step l (received m) = deliver l m

unfoldable pub run : Logger → List Event → Logger
unfolding step
run l [] = l
run l (e ∷ es) = run (step l e) es

pub lines : List Event → List ℕ
unfolding line
lines [] = []
lines (e ∷ es) = line e ++ lines es
