-- ===== src/Logger/Flush.antt =====
-- What ends up in the file of code/src/src/logger.cpp.
use mathlib.Core.List.{append_assoc, append-nil}
use cs451_2020_project.Base.{
  ◌≤◌, ◌<◌, ℕ, ◌≡◌, refl, sym, ap, ap₂, ◌∙◌, inl, inr, List, [], ◌∷◌, ◌++◌, arith, ltb, Bool-cases,
  lt→ltb, le→ltb, length, length-append,
}
use cs451_2020_project.Message.{Message}
use cs451_2020_project.Logger.{
  Logger, new_logger, flush, max_len, try_flush, deliver_line, log_broadcast, deliver, Event, sent,
  received, line, step, run, lines,
}

-- The buffer only grows.
step-buffer : (l : Logger) (e : Event) → (step l e).buffer ≡ l.buffer ++ line e
unfolding step log_broadcast deliver try_flush flush line
step-buffer l (sent n) = refl
step-buffer l (received m) = elim (Bool-cases (ltb max_len (length (l.buffer ++ deliver_line m)))) [
  | inl e ↦ rw e refl
  | inr e ↦ rw e refl
]

pub run-buffer : (l : Logger) (es : List Event) → (run l es).buffer ≡ l.buffer ++ lines es
unfolding run lines
run-buffer l [] = sym (append-nil l.buffer)
run-buffer l (e ∷ es) =
    run-buffer (step l e) es
    ∙ ap (λ b. b ++ lines es) (step-buffer l e)
    ∙ append_assoc l.buffer (line e) (lines es)

step-file_short :
    (l : Logger) (e : Event) → length (l.buffer ++ line e) ≤ max_len → (step l e).file ≡ l.file
unfolding step log_broadcast deliver try_flush flush line
step-file_short l (sent n) h = refl
step-file_short l (received m) h = rw (le→ltb max_len (length (l.buffer ++ deliver_line m)) h) refl

-- While the log is short, nothing is written.
run-file_short :
    (l : Logger) (es : List Event)
    → length (l.buffer ++ lines es) ≤ max_len
    → (run l es).file ≡ l.file
unfolding run lines
run-file_short l [] h = refl
run-file_short l (e ∷ es) h =
    let grown : (step l e).buffer ++ lines es ≡ l.buffer ++ (line e ++ lines es) =
      ap (λ b. b ++ lines es) (step-buffer l e) ∙ append_assoc l.buffer (line e) (lines es) in
    run-file_short (step l e) es (rw grown h)
    ∙ step-file_short l e (
        omega (
          arith,
          length-append l.buffer (line e),
          length-append l.buffer (line e ++ lines es),
          length-append (line e) (lines es),
        ))

pub run-append :
    (l : Logger) (es : List Event) (e : Event) → run l (es ++ e ∷ []) ≡ step (run l es) e
unfolding run
run-append l [] e = refl
run-append l (x ∷ es) e = run-append (step l x) es e

-- A delivery that takes the buffer over the limit appends all of it to the file.
deliver-file_long :
    (l : Logger) (m : Message)
    → max_len < length (l.buffer ++ deliver_line m)
    → (step l (received m)).file ≡ l.file ++ (l.buffer ++ deliver_line m)
unfolding step deliver try_flush flush
deliver-file_long l m over = rw (lt→ltb max_len (length (l.buffer ++ deliver_line m)) over) refl

-- If the whole log fits the limit, the file has each line once after the last flush.
pub flush-run_short :
    (es : List Event) → length (lines es) ≤ max_len → (flush (run new_logger es)).file ≡ lines es
unfolding flush
flush-run_short es h = rw (run-file_short new_logger es h) (run-buffer new_logger es)

-- The file only grows.
step-file_grows : (l : Logger) (e : Event) → (more : List ℕ) × ((step l e).file ≡ l.file ++ more)
unfolding step log_broadcast deliver try_flush flush
step-file_grows l (sent n) = ([], sym (append-nil l.file))
step-file_grows l (received m) =
    elim (Bool-cases (ltb max_len (length (l.buffer ++ deliver_line m)))) [
      | inl over ↦ (l.buffer ++ deliver_line m, rw over refl)
      | inr fits ↦ ([], rw fits (sym (append-nil l.file)))
    ]

run-file_grows :
    (l : Logger) (es : List Event) → (more : List ℕ) × ((run l es).file ≡ l.file ++ more)
unfolding run
run-file_grows l [] = ([], sym (append-nil l.file))
run-file_grows l (e ∷ es) =
    let (now, here) = step-file_grows l e in
    let (later, there) = run-file_grows (step l e) es in
    (now ++ later, there ∙ ap (λ f. f ++ later) here ∙ append_assoc l.file now later)

run-after :
    (l : Logger) (es rest : List Event) (e : Event)
    → run l (es ++ e ∷ rest) ≡ run (step (run l es) e) rest
unfolding run
run-after l [] rest e = refl
run-after l (x ∷ es) rest e = run-after (step l x) es rest e

-- Take any delivery by which the log is over the limit, after any events and before any others: the
-- file ends up with the whole text up to that delivery at least twice, first as the delivery wrote it,
-- and then at the beginning of what the last flush writes, which is the text of all events.
pub flush-run_long :
    (es rest : List Event) (m : Message)
    → max_len < length (lines es ++ deliver_line m)
    → (before between : List ℕ) × ((flush (run new_logger (es ++ received m ∷ rest))).file
        ≡ before
          ++ ((lines es ++ deliver_line m)
              ++ (between ++ ((lines es ++ deliver_line m) ++ lines rest))))
unfolding flush line
flush-run_long es rest m over =
    let first : Logger = run new_logger es in
    let next : Logger = step first (received m) in
    let part : List ℕ = lines es ++ deliver_line m in
    let text : first.buffer ≡ lines es = run-buffer new_logger es in
    let written : next.file ≡ first.file ++ part =
      deliver-file_long first m (rw text over)
      ∙ ap (λ b. first.file ++ (b ++ deliver_line m)) text in
    let kept : next.buffer ≡ part =
      step-buffer first (received m) ∙ ap (λ b. b ++ deliver_line m) text in
    let (between, file) = run-file_grows next rest in
    let last : (run next rest).buffer ≡ part ++ lines rest =
      run-buffer next rest ∙ ap (λ b. b ++ lines rest) kept in
    (
      first.file,
      between,
      ap (λ (l : Logger). l.file ++ l.buffer) (run-after new_logger es rest (received m))
          ∙ ap₂ (λ f b. f ++ b) (file ∙ ap (λ f. f ++ between) written) last
          ∙ append_assoc (first.file ++ part) between (part ++ lines rest)
          ∙ append_assoc first.file part (between ++ (part ++ lines rest)),
    )
