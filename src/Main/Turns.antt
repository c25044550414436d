-- ===== src/Main/Turns.antt =====
-- How long the sending loop of code/src/src/main.cpp runs, and what it has done at the end.
use native.Mathlib.Nat.{suc-mul}
use cs451_2020_project.Base.{
  ℕ, zero, suc, ◌+◌, ◌-◌, ◌*◌, ◌%◌, ◌^◌, ◌≤◌, ◌<◌, ◌≡◌, refl, ◌∙◌, ap, subst, List, [], ◌∷◌, ◌++◌,
  arith, inl, inr, ltb, ltb→lt, Bool-cases, Run, ok, All, All-append,
}
use cs451_2020_project.Message.{Message}
use cs451_2020_project.Link.Queue
use cs451_2020_project.Main.{Turn, send_next, take_next, turn, loop, sending, receiving}

-- Between two messages of its own the loop takes at most `num_messages` of the others.
abbrev pub rounds_for : ℕ → ℕ
rounds_for num_messages = num_messages * (num_messages + 1) + num_messages

module _ {ℓ κ μ} {S : Type ℓ} (receive : Message → S → Run S) (broadcast : ℕ → S → Run S)
    (num_messages : ℕ) (IsGood : Message → Type κ) (Holds : ℕ → S → Type μ)
    (small : num_messages < 2 ^ 32)
    (receive-Holds : (k : ℕ) (s : S) (m : Message)
      → Holds k s
      → IsGood m
      → (s' : S) × (receive m s ≡ ok s') × Holds k s')
    (broadcast-Holds : (k : ℕ) (s : S)
      → k < num_messages
      → Holds k s
      → (s' : S) × (broadcast k s ≡ ok s') × Holds (suc k) s') where
  abbrev measure : Turn S → ℕ
  measure t = (num_messages - t.next_msg) * (num_messages + 1) + t.subsequent_recvs

  unsent :
      (k : ℕ)
      → k < num_messages
      → (num_messages - k) * (num_messages + 1)
        ≡ (num_messages - suc k) * (num_messages + 1) + (num_messages + 1)
  unsent k h =
      let split : num_messages - k ≡ suc (num_messages - suc k) = omega arith in
      ap (λ x. x * (num_messages + 1)) split ∙ suc-mul (num_messages - suc k) (num_messages + 1)

  record IsRunning (t : Turn S) : Type (ℓ ⊔ κ ⊔ μ) where
    inside : t.next_msg ≤ num_messages
    good : All IsGood t.message_queue
    holds : Holds t.next_msg t.layers

  -- A round that goes on.
  abbrev Goes : Turn S → Type (ℓ ⊔ κ ⊔ μ)
  Goes t =
      (t' : Turn S) × (turn receive broadcast num_messages t ≡ ok t')
      × IsRunning t'
      × (measure t' < measure t)

  send_next-Goes :
      (t : Turn S)
      → IsRunning t
      → t.next_msg < num_messages
      → (t' : Turn S) × (send_next receive broadcast num_messages t ≡ ok t')
        × IsRunning t'
        × (measure t' < measure t)
  unfolding send_next
  send_next-Goes t r more =
      let (s', run, holds) = broadcast-Holds t.next_msg t.layers more r.holds in
      let next : (t.next_msg + 1) % 2 ^ 32 ≡ suc t.next_msg = omega arith in
      (
        record t {
          subsequent_recvs = num_messages;
          next_msg = (t.next_msg + 1) % 2 ^ 32;
          layers = s';
        },
        rw run refl,
        record { inside = rw next (omega arith); good = r.good; holds = rw next holds },
        rw next (omega (arith, unsent t.next_msg more)),
      )

  take_next-Goes :
      (t : Turn S) (m : Message) (rest : List Message)
      → IsRunning t
      → t.message_queue ≡ m ∷ rest
      → 0 < t.subsequent_recvs
      → (t' : Turn S) × (take_next receive broadcast num_messages m rest t ≡ ok t')
        × IsRunning t'
        × (measure t' < measure t)
  unfolding take_next
  take_next-Goes t m rest r e pos =
      let good = subst (All IsGood) e r.good in
      let (s', run, holds) = receive-Holds t.next_msg t.layers m r.holds good.0 in
      (
        record t { subsequent_recvs = t.subsequent_recvs - 1; message_queue = rest; layers = s' },
        rw run refl,
        record { inside = r.inside; good = good.1; holds = holds },
        omega arith,
      )

  turn-Goes :
      (q : List Message) (t : Turn S)
      → t.message_queue ≡ q
      → IsRunning t
      → t.next_msg < num_messages
      → Goes t
  unfolding turn Queue.try_pop
  turn-Goes [] t e r more = elim (Bool-cases (ltb 0 t.subsequent_recvs)) [
    | inr none_left ↦ rw none_left (send_next-Goes t r more)
    | inl some_left ↦
        let (t', run, r', less) = send_next-Goes t r more in
        let same : turn receive broadcast num_messages t
            ≡ send_next receive broadcast num_messages t =
          simp (some_left, e) in
        (t', same ∙ run, r', less)
  ]
  turn-Goes (m ∷ ms) t e r more = elim (Bool-cases (ltb 0 t.subsequent_recvs)) [
    | inr none_left ↦ rw none_left (send_next-Goes t r more)
    | inl some_left ↦
        let (t', run, r', less) =
          take_next-Goes t m ms r e (ltb→lt 0 t.subsequent_recvs some_left) in
        let same : turn receive broadcast num_messages t
            ≡ take_next receive broadcast num_messages m ms t =
          simp (some_left, e) in
        (t', same ∙ run, r', less)
  ]

  loop-ends :
      (rounds : ℕ) (arrivals : ℕ → List Message) (t : Turn S)
      → ((n : ℕ) → All IsGood (arrivals n))
      → IsRunning t
      → measure t < suc rounds
      → (t' : Turn S) × (loop receive broadcast num_messages rounds arrivals t ≡ ok t')
        × (t'.next_msg ≡ num_messages)
        × Holds num_messages t'.layers
        × All IsGood t'.message_queue
  unfolding loop
  loop-ends zero arrivals t good r h = elim (Bool-cases (ltb t.next_msg num_messages)) [
    | inr done ↦
        let all : t.next_msg ≡ num_messages = ground (arith, r.inside) in
        (t, rw done refl, all, subst (λ k. Holds k t.layers) all r.holds, r.good)
    | inl more ↦ absurd (omega (arith, unsent t.next_msg (ltb→lt t.next_msg num_messages more)))
  ]
  loop-ends (suc rounds) arrivals t good r h = elim (Bool-cases (ltb t.next_msg num_messages)) [
    | inr done ↦
        let all : t.next_msg ≡ num_messages = ground (arith, r.inside) in
        (t, rw (done, loop) refl, all, subst (λ k. Holds k t.layers) all r.holds, r.good)
    | inl more ↦
        let u : Turn S = record t { message_queue = t.message_queue ++ arrivals rounds } in
        let running : IsRunning u = record {
          inside = r.inside;
          good = All-append IsGood t.message_queue (arrivals rounds) r.good (good rounds);
          holds = r.holds;
        } in
        let (t', run, r', less) = turn-Goes u.message_queue u refl running (ground arith) in
        let (t'', run', all, holds, rest) = loop-ends rounds arrivals t' good r' (omega arith) in
        (t'', rw (more, loop, run) run', all, holds, rest)
  ]

  -- The messages that the loop has not taken are good.
  pub sending-leaves :
      (arrivals : ℕ → List Message) (layers : S)
      → ((n : ℕ) → All IsGood (arrivals n))
      → Holds 0 layers
      → (t : Turn S) × (sending receive broadcast num_messages
            (rounds_for num_messages)
            arrivals
            layers
          ≡ ok t)
        × (t.next_msg ≡ num_messages)
        × Holds num_messages t.layers
        × All IsGood t.message_queue
  unfolding sending
  sending-leaves arrivals layers good h =
      let all : num_messages - 0 ≡ num_messages = omega arith in
      loop-ends (rounds_for num_messages) arrivals _ good
        (record { inside = omega arith; good = tt; holds = h })
        (omega (arith, ap (λ x. x * (num_messages + 1)) all))

  -- If fewer than 2 ^ 32 messages are to be sent, and receiving what comes and sending the messages in
  -- the order of their numbers keeps what `Holds` says, then the loop ends, whatever comes and when, after
  -- at most n * (n + 1) + n rounds for n messages, and has sent all of them.
  pub sending-ends :
      (arrivals : ℕ → List Message) (layers : S)
      → ((n : ℕ) → All IsGood (arrivals n))
      → Holds 0 layers
      → (t : Turn S) × (sending receive broadcast num_messages
            (rounds_for num_messages)
            arrivals
            layers
          ≡ ok t)
        × (t.next_msg ≡ num_messages)
        × Holds num_messages t.layers
  sending-ends arrivals layers good h =
      let (t, run, all, holds, rest) = sending-leaves arrivals layers good h in (t, run, all, holds)

  -- The loop that goes on receiving keeps what `Holds` says.
  pub receiving-Holds :
      (k : ℕ) (msgs : List Message) (layers : S)
      → All IsGood msgs
      → Holds k layers
      → (s : S) × (receiving receive broadcast num_messages msgs layers ≡ ok s) × Holds k s
  unfolding receiving
  receiving-Holds k [] layers good h = (layers, refl, h)
  receiving-Holds k (m ∷ msgs) layers good h =
      let (s, run, h') = receive-Holds k layers m h good.0 in
      let (s', run', h'') = receiving-Holds k msgs s good.1 h' in (s', rw run run', h'')
