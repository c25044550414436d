-- ===== src/Logger/Tests.antt =====
-- Examples for the logger.
use cs451_2020_project.Base.{
  ◌+◌, ℕ, zero, suc, ◌*◌, ◌<◌, ◌≡◌, refl, ap, ◌∙◌, List, [], ◌∷◌, ◌++◌, arith, length,
  length-append,
}
use cs451_2020_project.Base.Decimal.{print_number, digits}
use cs451_2020_project.Message.{Message}
use cs451_2020_project.Logger.{
  new_logger, flush, max_len, deliver_line, broadcast_line, Event, sent, received, line, run, lines,
}
use cs451_2020_project.Logger.Flush.{flush-run_short, flush-run_long}

abbrev first : Message
first = record {
  link_seq_num = 0;
  bcast_seq_num = 0;
  originator = 1;
  sender = 1;
  vector_clock = record { storage = []; sz = 0 };
}

abbrev two_events : List Event
two_events = sent 11 ∷ received first ∷ []

two_events-lines :
    lines two_events ≡ b'b' ∷ b' ' ∷ b'1' ∷ b'2' ∷ 10 ∷ b'd' ∷ b' ' ∷ b'2' ∷ b' ' ∷ b'1' ∷ 10 ∷ []
unfolding lines line broadcast_line deliver_line print_number digits
two_events-lines = refl

flush-run_short_example : (flush (run new_logger two_events)).file ≡ lines two_events
flush-run_short_example = flush-run_short two_events (omega (arith, ap length two_events-lines))

copies : ℕ → List Event
copies zero = []
copies (suc n) = sent 0 ∷ copies n

length-copies : (n : ℕ) → length (lines (copies n)) ≡ 4 * n
unfolding copies lines line broadcast_line print_number digits
length-copies zero = refl
length-copies (suc n) = omega (arith, length-copies n)

-- As many lines as fit the limit exactly, and one more.
abbrev many : List Event
many = copies 262145

length-many : length (lines many) ≡ max_len + 4
length-many = length-copies 262145 ∙ omega arith

over : max_len < length (lines many ++ deliver_line first)
unfolding deliver_line print_number digits
over = omega (arith, length-many, length-append (lines many) (deliver_line first))

-- A line of the process itself goes over the limit, and the delivery after it writes.
flush-run_long_example :
    (before between : List ℕ) × ((flush (run new_logger (many ++ received first ∷ two_events))).file
      ≡ before
        ++ ((lines many ++ deliver_line first)
            ++ (between ++ ((lines many ++ deliver_line first) ++ lines two_events))))
flush-run_long_example = flush-run_long many two_events first over
