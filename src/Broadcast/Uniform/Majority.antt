-- ===== src/Broadcast/Uniform/Majority.antt =====
-- The quorum rule of code/src/src/uniform-reliable-broadcast.cpp, for messages that are sent on and
-- for those that are not.
use cs451_2020_project.Base.{
  >>=-forget, ℕ, suc, ◌/◌, ◌≤◌, ◌<◌, ◌≡◌, refl, sym, ap, ap₂, ◌∙◌, ◌⊎◌, inl, inr, Bool, true, false,
  List, ◌∷◌, some, arith, ltb, if◌then◌else◌, Bool-cases, get_elem?, get_elem?-set, get_elem?-lt,
  set, update, All, Run, ok, ◌>>=◌, u64_mod,
}
use cs451_2020_project.Message.{Message, max_processes}
use cs451_2020_project.RollingSet.{RollingBitset, insert, contains}
use cs451_2020_project.RollingSet.Refine.{IsValid, contains-insert}
use cs451_2020_project.Broadcast.Uniform.{
  Uniform, insert_in, contains_in, try_deliver, relay, deliver,
}
use cs451_2020_project.Broadcast.Uniform.Ack.{
  SameBroadcast, ack_bits, ack_touch, ack_erase, count, no_bits, ack_bits-same, ack_bits-put,
  ack_bits-touch, ack_bits-erase, count-none,
}
use cs451_2020_project.Broadcast.Uniform.Links.{IsLinked, IsOther, send-Returned}
use cs451_2020_project.Broadcast.Uniform.Quorum.{
  recorder, Node, at_upper, acked, try_deliver-quorum, try_deliver-wait, contains_in_lem,
  deliver-new, deliver-known,
}

-- A message from a known process that has not gone up, at a process that can send.
pub record IsReceivable (n : ℕ) (st : Node) (m : Message) (p d : RollingBitset) : Type 0 where
  pub linked : IsLinked n st.upper.urb.bc.id st
  pub own : st.upper.urb.bc.id < n
  pub few : n ≤ max_processes
  pub others : All (IsOther n st.upper.urb.bc.id) st.upper.urb.bc.connections
  pub sender_fits : m.sender < max_processes
  pub seq_num_fits : m.bcast_seq_num < u64_mod
  pub pending_is : get_elem? st.upper.urb.pending m.originator ≡ some p
  pub pending_valid : IsValid p
  pub delivered_is : get_elem? st.upper.urb.delivered m.originator ≡ some d
  pub delivered_valid : IsValid d
  pub new : contains d m.bcast_seq_num ≡ false

module _ (n : ℕ) (st : Node) (m : Message) (p d : RollingBitset) (c : IsReceivable n st m p d) where
  abbrev u : Uniform
  u = st.upper.urb

  abbrev l : List Message
  l = st.upper.top

  -- Who is counted: those before, the sender, and the process itself if it sends the message on.
  abbrev pub voters : ℕ → Bool
  voters =
      if contains p m.bcast_seq_num
      then update (ack_bits u.ack m) m.sender true
      else update (update (ack_bits u.ack m) m.sender true) u.bc.id true

  abbrev marked : Uniform
  marked = record (acked u m) { pending = set u.pending m.originator (insert p m.bcast_seq_num) }

  -- The message that comes back to the process itself, and the state that it meets.
  record Returned (again : Message → Node → Run Node) : Type 0 where
    copy : Message
    back : Node
    same : SameBroadcast copy m
    clock : copy.vector_clock ≡ m.vector_clock
    from : copy.sender ≡ u.bc.id
    above : back.upper ≡ record { urb = marked; top = l }
    relayed : relay recorder again m (at_upper st (acked u m) l) ≡ again copy back

  relay-new :
      (again : Message → Node → Run Node) → contains p m.bcast_seq_num ≡ false → Returned again
  unfolding relay insert_in
  relay-new again fresh =
      let start : Node = at_upper st marked l in
      let linked : IsLinked n u.bc.id start = record {
        own = c.linked.own;
        peers = c.linked.peers;
        addrs = c.linked.addrs;
      } in
      let r =
        send-Returned (λ _. Unit {0}) again n u.bc.id c.own u.bc refl c.others m start linked in
      record {
        copy = r.copy;
        back = r.back;
        same = r.same;
        clock = r.clock;
        from = r.from;
        above = r.above;
        relayed =
            rw (contains_in_lem u.pending m p c.pending_is, fresh, c.pending_is, r.sent)
              (>>=-forget (again r.copy r.back) r.copy);
      }

  abbrev pub quorum : Bool
  quorum = ltb (u.num_processes / 2) (count voters)

  -- The message went up once, as a copy of the one that came.
  pub record WentUp (st' : Node) : Type 0 where
    pub handed : Message
    pub same : SameBroadcast handed m
    pub clock : handed.vector_clock ≡ m.vector_clock
    pub top_is : st'.upper.top ≡ handed ∷ l
    pub delivered_is : contains_in st'.upper.urb.delivered m ≡ ok true

  -- Nothing went up, and the votes are kept.
  pub record Waits (st' : Node) : Type 0 where
    pub top_is : st'.upper.top ≡ l
    pub votes : ack_bits st'.upper.urb.ack m ≡ voters
    pub delivered_is : contains_in st'.upper.urb.delivered m ≡ ok false

  abbrev pub Outcome : Node → Type 0
  Outcome st' = ((quorum ≡ true) × WentUp st') ⊎ ((quorum ≡ false) × Waits st')

  now-contains : contains_in (set u.delivered m.originator (insert d m.bcast_seq_num)) m ≡ ok true
  now-contains =
      let there : get_elem? (set u.delivered m.originator (insert d m.bcast_seq_num)) m.originator
          ≡ some (insert d m.bcast_seq_num) =
        get_elem?-set u.delivered m.originator m.originator (insert d m.bcast_seq_num)
          (get_elem?-lt u.delivered m.originator d c.delivered_is)
        ∙ ground arith in
      contains_in_lem _ m (insert d m.bcast_seq_num) there
      ∙ ap ok (
          contains-insert d m.bcast_seq_num m.bcast_seq_num c.seq_num_fits c.seq_num_fits
            c.delivered_valid
          ∙ ground arith)

  -- A message that is already pending.
  deliver-pending :
      (depth : ℕ)
      → contains p m.bcast_seq_num ≡ true
      → (st' : Node) × (deliver recorder (suc depth) m st ≡ ok st') × Outcome st'
  deliver-pending depth known =
      let u' = acked u m in
      let run =
        deliver-known u l st m d refl c.delivered_is c.new c.sender_fits depth p c.pending_is
          known in
      let votes : ack_bits u'.ack m ≡ voters =
        ack_bits-put u.ack m (update (ack_bits u.ack m) m.sender true) ∙ rw known refl in
      elim (Bool-cases quorum) [
        | inl q ↦ (
          _,
          run ∙ try_deliver-quorum u' l (at_upper st u' l) m refl d c.delivered_is (rw votes q),
          inl (
            q,
            record {
              handed = m;
              same = (refl, refl);
              clock = refl;
              top_is = refl;
              delivered_is = now-contains;
            },
          ),
        )
        | inr q ↦ (
          _,
          run ∙ try_deliver-wait u' l (at_upper st u' l) m refl (rw votes q),
          inr (
            q,
            record {
              top_is = refl;
              votes = ack_bits-touch u'.ack m m ∙ votes;
              delivered_is = contains_in_lem u.delivered m d c.delivered_is ∙ ap ok c.new;
            },
          ),
        )
      ]

  module _ (depth : ℕ) (fresh : contains p m.bcast_seq_num ≡ false) where
    b : Returned (deliver recorder (suc depth))
    b = relay-new (deliver recorder (suc depth)) fresh

    -- The layer once the copy is counted too.
    abbrev twice : Uniform
    twice = acked marked b.copy

    copy-pending :
        (get_elem? marked.pending b.copy.originator ≡ some (insert p m.bcast_seq_num))
        × (contains (insert p m.bcast_seq_num) b.copy.bcast_seq_num ≡ true)
    copy-pending = (
      ap (get_elem? marked.pending) b.same.1
          ∙ get_elem?-set u.pending m.originator m.originator (insert p m.bcast_seq_num)
              (get_elem?-lt u.pending m.originator p c.pending_is)
          ∙ ground arith,
      ap (contains (insert p m.bcast_seq_num)) b.same.0
          ∙ contains-insert p m.bcast_seq_num m.bcast_seq_num c.seq_num_fits c.seq_num_fits
              c.pending_valid
          ∙ ground arith,
    )

    copy-delivered : get_elem? marked.delivered b.copy.originator ≡ some d
    copy-delivered = ap (get_elem? u.delivered) b.same.1 ∙ c.delivered_is

    copy-votes : ack_bits twice.ack b.copy ≡ voters
    copy-votes =
        ack_bits-put marked.ack b.copy (update (ack_bits marked.ack b.copy) b.copy.sender true)
        ∙ ap₂ (λ f i. update f i true)
            (ack_bits-same marked.ack b.copy m b.same ∙ ack_bits-put u.ack m _) b.from
        ∙ rw fresh refl

    -- The call from inside only counts.
    inner :
        deliver recorder (suc depth) b.copy b.back
        ≡ try_deliver recorder b.copy (at_upper b.back twice l)
    inner =
        deliver-known marked l b.back b.copy d b.above copy-delivered
          (ap (contains d) b.same.0 ∙ c.new) (omega (arith, b.from, c.own, c.few)) depth
          (insert p m.bcast_seq_num) copy-pending.0 copy-pending.1

    outer :
        deliver recorder (suc (suc depth)) m st
        ≡ (try_deliver recorder b.copy (at_upper b.back twice l) >>= try_deliver recorder m)
    outer =
        deliver-new u l st m d refl c.delivered_is c.new c.sender_fits (suc depth)
        ∙ ap (λ r. r >>= try_deliver recorder m) (b.relayed ∙ inner)

    -- What is left in the map after the call from inside has gone up, or has waited.
    abbrev cleared : Uniform
    cleared = record twice {
      ack = ack_erase (ack_touch twice.ack b.copy) b.copy;
      delivered = set marked.delivered b.copy.originator (insert d b.copy.bcast_seq_num);
    }

    abbrev waiting : Uniform
    waiting = record twice { ack = ack_touch twice.ack b.copy }

    reversed : SameBroadcast m b.copy
    reversed = (sym b.same.0, sym b.same.1)

    cleared-votes : ack_bits cleared.ack m ≡ no_bits
    cleared-votes = ack_bits-same cleared.ack m b.copy reversed ∙ ack_bits-erase _ b.copy

    waiting-votes : ack_bits waiting.ack m ≡ voters
    waiting-votes =
        ack_bits-same waiting.ack m b.copy reversed
        ∙ ack_bits-touch twice.ack b.copy b.copy
        ∙ copy-votes

    -- A message that is not pending: it comes back to the process itself in the middle.
    deliver-relayed :
        (st' : Node) × (deliver recorder (suc (suc depth)) m st ≡ ok st') × Outcome st'
    deliver-relayed = elim (Bool-cases quorum) [
      | inl q ↦ (
        _,
        outer
            ∙ ap (λ r. r >>= try_deliver recorder m)
                (try_deliver-quorum twice l (at_upper b.back twice l) b.copy refl d copy-delivered
                  (rw copy-votes q))
            ∙ try_deliver-wait cleared (b.copy ∷ l) (at_upper b.back cleared (b.copy ∷ l)) m refl
                (rw (cleared-votes, count-none) (ground arith)),
        inl (
          q,
          record {
            handed = b.copy;
            same = b.same;
            clock = b.clock;
            top_is = refl;
            delivered_is =
                ap₂ (λ o k. contains_in (set u.delivered o (insert d k)) m) b.same.1 b.same.0
                ∙ now-contains;
          },
        ),
      )
      | inr q ↦ (
        _,
        outer
            ∙ ap (λ r. r >>= try_deliver recorder m)
                (try_deliver-wait twice l (at_upper b.back twice l) b.copy refl (rw copy-votes q))
            ∙ try_deliver-wait waiting l (at_upper b.back waiting l) m refl (rw waiting-votes q),
        inr (
          q,
          record {
            top_is = refl;
            votes = ack_bits-touch waiting.ack m m ∙ waiting-votes;
            delivered_is = contains_in_lem u.delivered m d c.delivered_is ∙ ap ok c.new;
          },
        ),
      )
    ]

  -- At a process that can send, `deliver` of a message from a known process that has not gone up ends without a fault, entered at most twice. Counted
  -- are the senders before, the sender now and, if the message was not pending and is sent on, the
  -- process itself. With more than half of the processes among them the message goes up, once;
  -- otherwise nothing does, and the votes are kept.
  pub deliver_quorum :
      (depth : ℕ) → (st' : Node) × (deliver recorder (suc (suc depth)) m st ≡ ok st') × Outcome st'
  deliver_quorum depth = elim (Bool-cases (contains p m.bcast_seq_num)) [
    | inl known ↦ deliver-pending (suc depth) known
    | inr fresh ↦ deliver-relayed depth fresh
  ]
