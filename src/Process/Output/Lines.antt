-- ===== src/Process/Output/Lines.antt =====
-- What the log of a process of code/src/src/main.cpp has taken down.

use cs451_2020_project.Base.{
  ℕ, zero, suc, ◌-◌, ◌≡◌, refl, sym, ap, ◌∙◌, List, [], ◌∷◌, ◌++◌, arith, length, length-append,
  take,
}
use cs451_2020_project.Message.{Message}
use cs451_2020_project.Logger.{Logger, new_logger, Event, sent, received, step, run, lines}
use cs451_2020_project.Logger
use cs451_2020_project.Logger.Flush.{run-append}
use cs451_2020_project.Process.{Layers}
use cs451_2020_project.Process.Output.{deliver_all, handed_up}

-- The messages that a log says were handed up, and the numbers of those broadcast; the last one first.
unfoldable pub received_in : List Event → List Message → List Message
received_in [] acc = acc
received_in (sent n ∷ es) acc = received_in es acc
received_in (received m ∷ es) acc = received_in es (m ∷ acc)

unfoldable pub sent_in : List Event → List ℕ → List ℕ
sent_in [] acc = acc
sent_in (sent n ∷ es) acc = sent_in es (n ∷ acc)
sent_in (received m ∷ es) acc = sent_in es acc

-- The numbers below `n`, the last one first.
unfoldable pub below : ℕ → List ℕ
below zero = []
below (suc n) = n ∷ below n

received_in-received :
    (es : List Event) (m : Message) (acc : List Message)
    → received_in (es ++ received m ∷ []) acc ≡ m ∷ received_in es acc
unfolding received_in
received_in-received [] m acc = refl
received_in-received (sent n ∷ es) m acc = received_in-received es m acc
received_in-received (received x ∷ es) m acc = received_in-received es m (x ∷ acc)

received_in-sent :
    (es : List Event) (k : ℕ) (acc : List Message)
    → received_in (es ++ sent k ∷ []) acc ≡ received_in es acc
unfolding received_in
received_in-sent [] k acc = refl
received_in-sent (sent n ∷ es) k acc = received_in-sent es k acc
received_in-sent (received x ∷ es) k acc = received_in-sent es k (x ∷ acc)

sent_in-received :
    (es : List Event) (m : Message) (acc : List ℕ)
    → sent_in (es ++ received m ∷ []) acc ≡ sent_in es acc
unfolding sent_in
sent_in-received [] m acc = refl
sent_in-received (sent n ∷ es) m acc = sent_in-received es m (n ∷ acc)
sent_in-received (received x ∷ es) m acc = sent_in-received es m acc

sent_in-sent :
    (es : List Event) (k : ℕ) (acc : List ℕ) → sent_in (es ++ sent k ∷ []) acc ≡ k ∷ sent_in es acc
unfolding sent_in
sent_in-sent [] k acc = refl
sent_in-sent (sent n ∷ es) k acc = sent_in-sent es k (n ∷ acc)
sent_in-sent (received x ∷ es) k acc = sent_in-sent es k acc

-- The log of what has happened so far, at a process with `k` messages sent.
pub record IsLogged (k : ℕ) (log : List Message) (l : Logger) : Type 0 where
  pub events : List Event
  pub written : l ≡ run new_logger events
  pub heard : received_in events [] ≡ log
  pub told : sent_in events [] ≡ below k

pub deliver_all-IsLogged :
    (k : ℕ) (added log : List Message) (l : Logger)
    → IsLogged k log l
    → IsLogged k (added ++ log) (deliver_all l added)
unfolding deliver_all step
deliver_all-IsLogged k [] log l h = h
deliver_all-IsLogged k (m ∷ ms) log l h =
    let h' = deliver_all-IsLogged k ms log l h in
    record {
      events = h'.events ++ received m ∷ [];
      written =
          ap (λ x. step x (received m)) h'.written
          ∙ sym (run-append new_logger h'.events (received m));
      heard = received_in-received h'.events m [] ∙ ap (λ ms. m ∷ ms) h'.heard;
      told = sent_in-received h'.events m [] ∙ h'.told;
    }

pub log_broadcast-IsLogged :
    (k : ℕ) (log : List Message) (l : Logger)
    → IsLogged k log l
    → IsLogged (suc k) log (Logger.log_broadcast l k)
unfolding step below
log_broadcast-IsLogged k log l h = record {
  events = h.events ++ sent k ∷ [];
  written = ap (λ x. step x (sent k)) h.written ∙ sym (run-append new_logger h.events (sent k));
  heard = received_in-sent h.events k [] ∙ h.heard;
  told = sent_in-sent h.events k [] ∙ ap (λ ns. k ∷ ns) h.told;
}

take-front :
    (added log : List Message) → take (length (added ++ log) - length log) (added ++ log) ≡ added
take-front [] log =
    let none_left : length log - length log ≡ zero = omega arith in ap (λ n. take n log) none_left
take-front (m ∷ ms) log =
    let one_more : length (m ∷ (ms ++ log)) - length log ≡ suc (length (ms ++ log) - length log) =
      omega (arith, length-append ms log) in
    ap (λ n. take n (m ∷ (ms ++ log))) one_more ∙ ap (λ xs. m ∷ xs) (take-front ms log)

pub handed_up-grown :
    (st st' : Layers) (added : List Message)
    → st'.upper.top.log ≡ added ++ st.upper.top.log
    → handed_up st st' ≡ added
unfolding handed_up
handed_up-grown st st' added e =
    ap (λ l. take (length l - length st.upper.top.log) l) e ∙ take-front added st.upper.top.log
