-- ===== src/Broadcast/Uniform/Upward.antt =====
-- `UniformReliableBroadcast` of code/src/src/uniform-reliable-broadcast.cpp under any observer: what
-- the observer keeps up, for messages that it has not had, the whole layer keeps up.
use cs451_2020_project.Base.{
  ℕ, suc, ◌/◌, ◌≤◌, ◌<◌, ◌≡◌, refl, sym, ap, subst, ◌∙◌, inl, inr, true, false, List, arith, ltb,
  lt→ltb, Bool-cases, update, All, Run, ok, ◌>>=◌, >>=-forget, u64_mod,
}
use cs451_2020_project.Message.{Message, max_processes, broadcast_message_compare}
use cs451_2020_project.RollingSet.{RollingBitset}
use cs451_2020_project.Link.Perfect.{Stack}
use cs451_2020_project.Broadcast.BestEffort
use cs451_2020_project.Broadcast.Uniform.{
  Uniform, Upper, record_ack, has_quorum, try_deliver, relay, deliver, send,
}
use cs451_2020_project.Broadcast.Uniform.Ack.{
  SameBroadcast, no_bits, ack_bits, ack_put, ack_touch, ack_erase, AckMap, count, ack_bits-same,
  ack_bits-touch, ack_bits-put_other, ack_bits-erase, ack_bits-erase_other, count-none,
}
use cs451_2020_project.Broadcast.Uniform.Links.{IsLinked, IsOther, IsCarried, Stamps, send-Returned}
use cs451_2020_project.Broadcast.Uniform.Sets.{
  has, AreValid, contains_in-has, IsWith, insert_in_lem,
}

module _ {ℓ κ μ ν} {T : Type ℓ} (observer : Message → T → Run T) (n id : ℕ) (own : id < n)
    (few : n ≤ max_processes) (IsGood : Message → Type κ) (IsFine : Message → Type ν)
    (Holds : List RollingBitset → T → Type μ)
    (IsGood-same : (m m' : Message)
      → SameBroadcast m' m
      → m'.vector_clock ≡ m.vector_clock
      → IsGood m
      → IsGood m')
    (IsGood-fits : (m : Message) → IsGood m → (m.originator < n) × (m.bcast_seq_num < u64_mod))
    (IsGood-Stamps : (m : Message) → IsGood m → Stamps IsFine id m)
    (observer-Holds : (m : Message) (d d' : List RollingBitset) (top : T)
      → IsGood m
      → Holds d top
      → has d m.originator m.bcast_seq_num ≡ false
      → IsWith m d d'
      → (top' : T) × (observer m top ≡ ok top') × Holds d' top') where
  -- What is kept up: nobody is counted for a message that has gone up.
  pub record IsCalm (u : Uniform) (top : T) : Type μ where
    pub id_is : u.id ≡ id
    pub bc_is : u.bc.id ≡ id
    pub others : All (IsOther n id) u.bc.connections
    pub pending : AreValid n u.pending
    pub delivered : AreValid n u.delivered
    pub quiet :
        (m : Message)
        → m.bcast_seq_num < u64_mod
        → has u.delivered m.originator m.bcast_seq_num ≡ true
        → ack_bits u.ack m ≡ no_bits
    pub holds : Holds u.delivered top

  pub record IsReady (st : Stack (Upper T)) : Type (ℓ ⊔ μ ⊔ ν) where
    pub linked : IsLinked n id st
    pub carried : IsCarried IsFine id st.perfect
    pub calm : IsCalm st.upper.urb st.upper.top

  -- The run ends without a fault, and what is kept up still holds.
  abbrev pub Ends : Run (Stack (Upper T)) → Type (ℓ ⊔ μ ⊔ ν)
  Ends r = (st' : Stack (Upper T)) × (r ≡ ok st') × IsReady st'

  abbrev with_urb : Stack (Upper T) → Uniform → Stack (Upper T)
  with_urb st u = record st { upper = record st.upper { urb = u } }

  -- Numbers that differ in one set make different broadcasts.
  has-apart :
      (d : List RollingBitset) (m m' : Message)
      → has d m.originator m.bcast_seq_num ≡ false
      → has d m'.originator m'.bcast_seq_num ≡ true
      → broadcast_message_compare m m' ≡ false
  unfolding broadcast_message_compare
  has-apart d m m' new gone = elim (Bool-cases (broadcast_message_compare m m')) [
    | inl same ↦
        let k : m.bcast_seq_num ≡ m'.bcast_seq_num = ground arith in
        let o : m.originator ≡ m'.originator = ground arith in absurd (cc (k, o, new, gone))
    | inr other ↦ other
  ]

  with_ack-IsCalm :
      (u : Uniform) (top : T) (a : AckMap)
      → ((m : Message)
          → m.bcast_seq_num < u64_mod
          → has u.delivered m.originator m.bcast_seq_num ≡ true
          → ack_bits u.ack m ≡ no_bits
          → ack_bits a m ≡ no_bits)
      → IsCalm u top
      → IsCalm (record u { ack = a }) top
  with_ack-IsCalm u top a still c = record {
    id_is = c.id_is;
    bc_is = c.bc_is;
    others = c.others;
    pending = c.pending;
    delivered = c.delivered;
    quiet = λ m small gone. still m small gone (c.quiet m small gone);
    holds = c.holds;
  }

  with_pending-IsCalm :
      (u : Uniform) (top : T) (p : List RollingBitset)
      → AreValid n p
      → IsCalm u top
      → IsCalm (record u { pending = p }) top
  with_pending-IsCalm u top p valid c = record {
    id_is = c.id_is;
    bc_is = c.bc_is;
    others = c.others;
    pending = valid;
    delivered = c.delivered;
    quiet = c.quiet;
    holds = c.holds;
  }

  with_urb-IsReady :
      (st : Stack (Upper T)) (u : Uniform)
      → IsReady st
      → IsCalm u st.upper.top
      → IsReady (with_urb st u)
  with_urb-IsReady st u r c = record {
    linked = record { own = r.linked.own; peers = r.linked.peers; addrs = r.linked.addrs };
    carried = r.carried;
    calm = c;
  }

  abbrev acked : Uniform → Message → Uniform
  acked u m = record u { ack = ack_put u.ack m (update (ack_bits u.ack m) m.sender true) }

  acked-IsCalm :
      (u : Uniform) (top : T) (m : Message)
      → has u.delivered m.originator m.bcast_seq_num ≡ false
      → IsCalm u top
      → IsCalm (acked u m) top
  acked-IsCalm u top m new =
      with_ack-IsCalm u top (ack_put u.ack m (update (ack_bits u.ack m) m.sender true))
        λ m' small gone none'.
          ack_bits-put_other u.ack m m' _ (has-apart u.delivered m m' new gone) ∙ none'

  no_quorum : (half : ℕ) → ltb half 0 ≡ true → ⊥
  no_quorum half q = ground arith

  -- Who has a quorum has been counted, so that the message has not gone up.
  quorum-new :
      (u : Uniform) (top : T) (m : Message)
      → IsCalm u top
      → m.bcast_seq_num < u64_mod
      → has_quorum u m ≡ true
      → has u.delivered m.originator m.bcast_seq_num ≡ false
  unfolding has_quorum
  quorum-new u top m c small q = elim (Bool-cases (has u.delivered m.originator m.bcast_seq_num)) [
    | inl gone ↦
        let none' : count (ack_bits u.ack m) ≡ 0 = ap count (c.quiet m small gone) ∙ count-none in
        absurd (
          no_quorum (u.num_processes / 2) (subst (λ k. ltb (u.num_processes / 2) k ≡ true) none' q))
    | inr new ↦ new
  ]

  erased-quiet :
      (u : Uniform) (top : T) (m : Message) (d' : List RollingBitset)
      → IsCalm u top
      → IsWith m u.delivered d'
      → (m' : Message) → m'.bcast_seq_num < u64_mod
      → has d' m'.originator m'.bcast_seq_num ≡ true
      → ack_bits (ack_erase (ack_touch u.ack m) m) m' ≡ no_bits
  unfolding broadcast_message_compare
  erased-quiet u top m d' c with_m m' small gone =
      elim (Bool-cases (broadcast_message_compare m m')) [
        | inl same ↦
            let k : m'.bcast_seq_num ≡ m.bcast_seq_num = ground arith in
            let o : m'.originator ≡ m.originator = ground arith in
            ack_bits-same _ m' m (k, o) ∙ ack_bits-erase _ m
        | inr other ↦
            let before : has u.delivered m'.originator m'.bcast_seq_num ≡ true =
              ground (arith, with_m m'.originator m'.bcast_seq_num small) in
            ack_bits-erase_other _ m m' other ∙ ack_bits-touch u.ack m m' ∙ c.quiet m' small before
      ]

  try_deliver-Ends :
      (m : Message) (st : Stack (Upper T))
      → IsReady st
      → IsGood m
      → Ends (try_deliver observer m st)
  unfolding try_deliver has_quorum
  try_deliver-Ends m st r good =
      let u = st.upper.urb in
      let c = r.calm in
      let votes = ack_bits-touch u.ack m m in
      let fits = IsGood-fits m good in
      elim (Bool-cases (ltb (u.num_processes / 2) (count (ack_bits u.ack m)))) [
        | inl q ↦
            let new = quorum-new u st.upper.top m c fits.1 q in
            let (d', run, valid, with_m) =
              insert_in_lem n u.delivered m c.delivered fits.0 fits.1 in
            let (top', run', holds) =
              observer-Holds m u.delivered d' st.upper.top good c.holds new with_m in
            (
              record st {
                upper = record {
                  urb = record u { ack = ack_erase (ack_touch u.ack m) m; delivered = d' };
                  top = top';
                };
              },
              rw (votes, q, run, run') refl,
              record {
                linked = record {
                  own = r.linked.own;
                  peers = r.linked.peers;
                  addrs = r.linked.addrs;
                };
                carried = r.carried;
                calm = record {
                  id_is = c.id_is;
                  bc_is = c.bc_is;
                  others = c.others;
                  pending = c.pending;
                  delivered = valid;
                  quiet = λ m' small gone. erased-quiet u st.upper.top m d' c with_m m' small gone;
                  holds = holds;
                };
              },
            )
        | inr q ↦ (
          with_urb st (record u { ack = ack_touch u.ack m }),
          rw (votes, q) refl,
          with_urb-IsReady st _ r (
              with_ack-IsCalm u st.upper.top (ack_touch u.ack m)
                (λ m' small gone none'. ack_bits-touch u.ack m m' ∙ none') c),
        )
      ]

  -- A message that is pending is counted.
  deliver-known :
      (depth : ℕ) (m : Message) (st : Stack (Upper T))
      → IsReady st
      → IsGood m
      → m.sender < max_processes
      → has st.upper.urb.pending m.originator m.bcast_seq_num ≡ true
      → Ends (deliver observer (suc depth) m st)
  unfolding deliver relay record_ack
  deliver-known depth m st r good from known =
      let u = st.upper.urb in
      let c = r.calm in
      let fits = IsGood-fits m good in
      let asked = contains_in-has n u.delivered m c.delivered fits.0 in
      let asked' = contains_in-has n u.pending m c.pending fits.0 in
      elim (Bool-cases (has u.delivered m.originator m.bcast_seq_num)) [
        | inl gone ↦ (st, rw (asked, gone) refl, r)
        | inr new ↦
            let (st', run, ready) =
              try_deliver-Ends m (with_urb st (acked u m))
                (with_urb-IsReady st (acked u m) r (acked-IsCalm u st.upper.top m new c)) good in
            (st', rw (asked, new, lt→ltb m.sender max_processes from, asked', known) run, ready)
      ]

  -- A message that is sent to all comes back, and is pending by then.
  send-Ends :
      (depth : ℕ) (m : Message) (st : Stack (Upper T))
      → IsReady st
      → IsGood m
      → has st.upper.urb.pending m.originator m.bcast_seq_num ≡ true
      → Ends (
          BestEffort.send (deliver observer (suc depth)) st.upper.urb.bc m st >>= λ (_, st').
          ok st')
  send-Ends depth m st r good known =
      let b =
        send-Returned IsFine (deliver observer (suc depth)) n id own st.upper.urb.bc r.calm.bc_is
          r.calm.others m st r.linked in
      let ready : IsReady b.back = record {
        linked = b.linked;
        carried = b.carried (IsGood-Stamps m good) r.carried;
        calm = subst (λ (z : Upper T). IsCalm z.urb z.top) (sym b.above) r.calm;
      } in
      let known' : has b.back.upper.urb.pending b.copy.originator b.copy.bcast_seq_num ≡ true =
        rw (b.above, b.same.0, b.same.1) known in
      let (st', run, ready') =
        deliver-known depth b.copy b.back ready (IsGood-same m b.copy b.same b.clock good)
          (omega (arith, b.from, own, few)) known' in
      (
        st',
        rw b.sent (>>=-forget (deliver observer (suc depth) b.copy b.back) b.copy ∙ run),
        ready',
      )

  -- `deliver` of any message in shape, from a known process.
  pub deliver-Ends :
      (depth : ℕ) (m : Message) (st : Stack (Upper T))
      → IsReady st
      → IsGood m
      → m.sender < max_processes
      → Ends (deliver observer (suc (suc depth)) m st)
  unfolding deliver relay record_ack
  deliver-Ends depth m st r good from =
      let u = st.upper.urb in
      let c = r.calm in
      let fits = IsGood-fits m good in
      let asked = contains_in-has n u.delivered m c.delivered fits.0 in
      let asked' = contains_in-has n u.pending m c.pending fits.0 in
      elim (Bool-cases (has u.pending m.originator m.bcast_seq_num)) [
        | inl known ↦ deliver-known (suc depth) m st r good from known
        | inr fresh ↦ elim (Bool-cases (has u.delivered m.originator m.bcast_seq_num)) [
          | inl gone ↦ (st, rw (asked, gone) refl, r)
          | inr new ↦
              let (p', run, valid, with_m) = insert_in_lem n u.pending m c.pending fits.0 fits.1 in
              let calm = acked-IsCalm u st.upper.top m new c in
              let marked : Stack (Upper T) = with_urb st (record (acked u m) { pending = p' }) in
              let ready : IsReady marked =
                with_urb-IsReady st _ r
                  (with_pending-IsCalm (acked u m) st.upper.top p' valid calm) in
              let known : has p' m.originator m.bcast_seq_num ≡ true =
                ground (arith, with_m m.originator m.bcast_seq_num fits.1) in
              let (st', run', ready') = send-Ends depth m marked ready good known in
              let (st'', run'', ready'') = try_deliver-Ends m st' ready' good in
              (
                st'',
                rw (asked, new, lt→ltb m.sender max_processes from, asked', fresh, run, run') run'',
                ready'',
              )
        ]
      ]

  -- `send` of a message that is in shape once it has its number and originator.
  pub broadcast-Ends :
      (depth seq_num : ℕ) (m : Message) (st : Stack (Upper T))
      → IsReady st
      → IsGood (record m { originator = st.upper.urb.id; bcast_seq_num = seq_num })
      → Ends (send observer (suc depth) seq_num m st)
  unfolding send
  broadcast-Ends depth seq_num m st r good =
      let c = r.calm in
      let m' : Message = record m { originator = st.upper.urb.id; bcast_seq_num = seq_num } in
      let fits = IsGood-fits m' good in
      let (p', run, valid, with_m) =
        insert_in_lem n st.upper.urb.pending m' c.pending fits.0 fits.1 in
      let marked : Stack (Upper T) = with_urb st (record st.upper.urb { pending = p' }) in
      let ready : IsReady marked =
        with_urb-IsReady st _ r (with_pending-IsCalm st.upper.urb st.upper.top p' valid c) in
      let known : has p' m'.originator seq_num ≡ true =
        ground (arith, with_m m'.originator seq_num fits.1) in
      let (st', run', ready') = send-Ends depth m' marked ready good known in
      (st', rw (run, run') refl, ready')
