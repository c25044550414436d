-- ===== src/Link/Worker/Retry.antt =====
-- What the worker thread of code/src/src/perfect-link.cpp holds, over a round of its loop.
use cs451_2020_project.Base.{
  ℕ, ◌<◌, ◌≡◌, refl, ◌∙◌, ap, Bool, true, false, ◌&&◌, ◌||◌, List, [], ◌∷◌, none, some, arith, inl,
  inr, ◌==◌, if◌then◌else◌, Bool-cases, Option-cases, sym, elem, length, get_elem?-inside, ok,
}
use cs451_2020_project.Message.{Message}
use cs451_2020_project.PriorityQueue
use cs451_2020_project.Link.SeqNum.{is_syn, seq_num}
use cs451_2020_project.Link.FairLoss.{FairLossLink}
use cs451_2020_project.Link.Queue
use cs451_2020_project.Link.Worker.{
  Entry, Worker, due, waits, try_pop, handle_timeout, take_item, round, erase_number, insert_number,
  retry, new_backoff,
}

-- Is a message with the number scheduled to be sent again?
abbrev pub is_scheduled : ℕ → List Entry → Bool
is_scheduled k [] = false
is_scheduled k (e ∷ es) = seq_num e.msg == k || is_scheduled k es

-- Is a "Syn" with the number in the queue of the thread?
abbrev pub is_incoming : ℕ → List Message → Bool
is_incoming k [] = false
is_incoming k (m ∷ ms) = (is_syn m && seq_num m == k) || is_incoming k ms

abbrev pub is_held : ℕ → Worker → Bool
is_held k w = is_scheduled k w.scheduled || is_incoming k w.incoming

pub is_scheduled-push :
    (k : ℕ) (e : Entry) (es : List Entry)
    → is_scheduled k (PriorityQueue.push due e es) ≡ (seq_num e.msg == k || is_scheduled k es)
unfolding PriorityQueue.push
is_scheduled-push k e [] = refl
is_scheduled-push k e (x ∷ xs) = ground (arith, is_scheduled-push k e xs)

pop_from :
    (ms : List Message) (b : Bool) (m : Message) (rest : List Message)
    → (if b then Queue.try_pop_until ms else none) ≡ some (m, rest)
    → ms ≡ m ∷ rest
unfolding Queue.try_pop_until
pop_from ms false m rest e = ground arith
pop_from [] true m rest e = ground arith
pop_from (x ∷ xs) true m rest e = ground arith

pub try_pop-incoming :
    (w : Worker) (now : ℕ) (m : Message) (rest : List Message)
    → try_pop w now ≡ some (m, rest)
    → w.incoming ≡ m ∷ rest
unfolding try_pop
try_pop-incoming w now m rest e = pop_from w.incoming (waits w.scheduled now) m rest e

module _ (k : ℕ) (w : Worker) (held : is_held k w ≡ true) where
  held_with :
      (es : List Entry) → w.scheduled ≡ es → (is_scheduled k es || is_incoming k w.incoming) ≡ true
  held_with es e = ap (λ l. is_scheduled k l || is_incoming k w.incoming) (sym e) ∙ held

  held_from :
      (m : Message) (rest : List Message)
      → w.incoming ≡ m ∷ rest
      → (is_scheduled k w.scheduled || ((is_syn m && seq_num m == k) || is_incoming k rest)) ≡ true
  held_from m rest e = ap (λ l. is_scheduled k w.scheduled || is_incoming k l) (sym e) ∙ held

  take_item-is_held :
      (m : Message) (rest : List Message) (now : ℕ)
      → w.incoming ≡ m ∷ rest
      → is_held k (take_item (record w { incoming = rest }) m now) ≡ true
  unfolding take_item
  take_item-is_held m rest now e = elim (Bool-cases (is_syn m)) [
    | inl syn ↦
        let taken : take_item (record w { incoming = rest }) m now ≡ record w {
          incoming = rest;
          scheduled =
              PriorityQueue.push due (record { msg = m; backoff = new_backoff now }) w.scheduled;
        } =
          rw (syn, take_item) refl in
        let there =
          is_scheduled-push k (record { msg = m; backoff = new_backoff now }) w.scheduled in
        ap (is_held k) taken ∙ rw there (ground (arith, syn, held_from m rest e))
    | inr ack ↦
        let taken : take_item (record w { incoming = rest }) m now ≡ record w {
          incoming = rest;
          acknowledged = insert_number (seq_num m) w.acknowledged;
        } =
          rw (ack, take_item) refl in
        ap (is_held k) taken ∙ ground (arith, ack, held_from m rest e)
  ]

  -- What is sent again.
  abbrev again : Entry → ℕ → FairLossLink → Entry
  again x now link = record {
    msg = record x.msg { sender = link.id };
    backoff = retry x.backoff now;
  }

  other_held :
      (x : Entry) (es : List Entry)
      → w.scheduled ≡ x ∷ es
      → elem (seq_num x.msg) w.acknowledged ≡ true
      → elem k w.acknowledged ≡ false
      → (is_scheduled k es || is_incoming k w.incoming) ≡ true
  other_held x es e acked new = elim (Bool-cases (seq_num x.msg == k)) [
    | inl same ↦ let is : seq_num x.msg ≡ k = ground arith in absurd (cc (is, acked, new))
    | inr other ↦ ground (arith, other, held_with (x ∷ es) e)
  ]

  handle_timeout-is_held :
      (es : List Entry) (receiver now : ℕ) (link : FairLossLink)
      → w.scheduled ≡ es
      → elem k w.acknowledged ≡ false
      → receiver < length link.addrs
      → (r : Worker × FairLossLink) × (handle_timeout w receiver now link ≡ ok r)
        × (is_held k r.0 ≡ true)
  unfolding handle_timeout
  handle_timeout-is_held [] receiver now link e new known =
      ((w, link), simp (e, handle_timeout), held)
  handle_timeout-is_held (x ∷ es) receiver now link e new known =
      let (a, addr) = get_elem?-inside link.addrs receiver known in
      elim (Bool-cases (elem (seq_num x.msg) w.acknowledged)) [
        | inl acked ↦ (
          (
            record w { scheduled = es; acknowledged = erase_number (seq_num x.msg) w.acknowledged },
            link,
          ),
          rw (e, handle_timeout, acked) refl,
          other_held x es e acked new,
        )
        | inr due_again ↦ (
          (
            record w { scheduled = PriorityQueue.push due (again x now link) es },
            record link { sent = (a, record x.msg { sender = link.id }) ∷ link.sent },
          ),
          rw (e, handle_timeout, due_again, addr) refl,
          rw (is_scheduled-push k (again x now link) es) (held_with (x ∷ es) e),
        )
      ]

  -- What is held and not acknowledged is held after a round.
  pub round-keeps :
      (receiver now later : ℕ) (link : FairLossLink)
      → elem k w.acknowledged ≡ false
      → receiver < length link.addrs
      → (r : Worker × FairLossLink) × (round w receiver now later link ≡ ok r)
        × (is_held k r.0 ≡ true)
  unfolding round
  round-keeps receiver now later link new known = elim (Option-cases (try_pop w now)) [
    | inl e ↦
        let (r, run, kept) =
          handle_timeout-is_held w.scheduled receiver later link refl new known in
        (r, rw (e, round) run, kept)
    | inr ((m, rest), e) ↦ (
      (take_item (record w { incoming = rest }) m later, link),
      rw (e, round) refl,
      take_item-is_held m rest later (try_pop-incoming w now m rest e),
    )
  ]
