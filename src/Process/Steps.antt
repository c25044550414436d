-- ===== src/Process/Steps.antt =====
-- What arrives at a process, and what it broadcasts, through all layers.
use cs451_2020_project.Base.{
  ℕ, zero, suc, [], ◌∷◌, ◌+◌, ◌^◌, ◌≤◌, ◌<◌, ◌≡◌, refl, sym, subst, ◌∙◌, inl, inr, true, false,
  Bool, List, some, arith, Bool-cases, length, length-set, get_elem?, get_elem?-inside, take, All,
  All-set, u64_mod, All-get_elem?, Run, ok, ◌>>=◌,
}
use cs451_2020_project.StaticVec.{to_list}
use cs451_2020_project.Message.{Message, max_processes}
use cs451_2020_project.Config.{Dependency}
use cs451_2020_project.RollingSet.{RollingBitset, contains, insert}
use cs451_2020_project.Link.SeqNum.{is_syn, seq_num, set_ack}
use cs451_2020_project.Link.FairLoss
use cs451_2020_project.Link.Queue
use cs451_2020_project.Link.Queue.{All-queued}
use cs451_2020_project.Link.Perfect.{Peer, Stack, set_peer, send_raw, deliver_new}
use cs451_2020_project.Link.Perfect
use cs451_2020_project.Broadcast.BestEffort
use cs451_2020_project.Broadcast.Causal.{Causal}
use cs451_2020_project.Broadcast.Causal
use cs451_2020_project.Broadcast.Uniform.Ack.{SameBroadcast}
use cs451_2020_project.Broadcast.Uniform.Sets.{has, IsWith}
use cs451_2020_project.Broadcast.Causal.Send.{counts, send_lem, get_elem?-take, length-take-le}
use cs451_2020_project.Broadcast.Uniform.Links.{Stamps}
use cs451_2020_project.Broadcast.Uniform.Upward.{IsReady, deliver-Ends, broadcast-Ends}
use cs451_2020_project.Process.{Layers, hand_up, deliver, receive, broadcast}
use cs451_2020_project.Process.Traffic.{IsConfigured, IsGood, IsTraffic}
use cs451_2020_project.Process.Causality.{IsSendable, IsSendable-same, IsAbove, hand_up-IsAbove}

length-take_short {ℓ} : {A : Type ℓ} (n : ℕ) (xs : List A) → length (take n xs) ≤ length xs
length-take_short zero xs = omega arith
length-take_short (suc n) [] = omega arith
length-take_short (suc n) (x ∷ xs) = omega (arith, length-take_short n xs)

module _ (n id : ℕ) (own : id < n) (few : n ≤ max_processes) (deps : List Dependency)
    (heard : Message → Bool) (base : List Message) (IsFine : Message → Type 0)
    (traffic : IsTraffic n deps heard IsFine) where
  pub IsGood-same :
      (m m' : Message)
      → SameBroadcast m' m
      → m'.vector_clock ≡ m.vector_clock
      → IsGood n deps heard m
      → IsGood n deps heard m'
  IsGood-same m m' same clock g =
      (IsSendable-same n deps m m' same clock g.0, traffic.same m m' same clock g.1)

  pub IsGood-fits :
      (m : Message) → IsGood n deps heard m → (m.originator < n) × (m.bcast_seq_num < u64_mod)
  IsGood-fits m g = (g.0.host, omega (arith, g.0.small))

  pub IsGood-Stamps : (m : Message) → IsGood n deps heard m → Stamps IsFine id m
  IsGood-Stamps m = traffic.stamps id m own

  pub hand_up-Holds :
      (m : Message) (d d' : List RollingBitset) (top : Causal)
      → IsGood n deps heard m
      → IsAbove n id deps heard base d top
      → has d m.originator m.bcast_seq_num ≡ false
      → IsWith m d d'
      → (top' : Causal) × (hand_up m top ≡ ok top') × IsAbove n id deps heard base d' top'
  hand_up-Holds m d d' top g up new with_m =
      hand_up-IsAbove n id few deps heard base m d d' top g.0 g.1 up new with_m

  -- The layers of a process between two calls.
  abbrev pub IsRunning : Layers → Type 0
  IsRunning =
      IsReady hand_up n id own few (IsGood n deps heard) IsFine (IsAbove n id deps heard base)
        IsGood-same IsGood-fits IsGood-Stamps hand_up-Holds

  abbrev pub Ended : Run Layers → Type 0
  Ended r = (st' : Layers) × (r ≡ ok st') × IsRunning st'

  deliver-Ended :
      (m : Message) (st : Layers)
      → IsRunning st
      → IsGood n deps heard m
      → m.sender < n
      → Ended (deliver m st)
  deliver-Ended m st r good from =
      deliver-Ends hand_up n id own few (IsGood n deps heard) IsFine (IsAbove n id deps heard base)
        IsGood-same IsGood-fits IsGood-Stamps hand_up-Holds 0 m st r good (omega arith)

  -- A change of one peer, and a datagram more, leave the layers above alone.
  set_peer-IsRunning :
      (st : Layers) (i : ℕ) (p : Peer)
      → IsRunning st
      → p.next_seq_num < u64_mod
      → All IsFine p.incoming
      → IsRunning (set_peer st i p)
  unfolding set_peer
  set_peer-IsRunning st i p r low fine = record {
    linked = record {
      own = r.linked.own;
      peers = length-set st.perfect.peers i p ∙ r.linked.peers;
      addrs = r.linked.addrs;
    };
    carried = record {
      link_own = r.carried.link_own;
      queues = All-set _ st.perfect.peers i p r.carried.queues (low, fine);
      traffic = r.carried.traffic;
    };
    calm = r.calm;
  }

  send_raw-Ended :
      (st : Layers) (i : ℕ) (m : Message)
      → IsRunning st
      → i < n
      → IsFine (record m { sender = id })
      → Ended (send_raw st i m >>= λ (_, st'). ok st')
  unfolding send_raw FairLoss.send
  send_raw-Ended st i m r h fine =
      let (a, e) = get_elem?-inside st.perfect.link.addrs i (omega (arith, r.linked.addrs)) in
      (
        record st {
          perfect = record st.perfect {
            link = record st.perfect.link {
              sent = (a, record m { sender = st.perfect.link.id }) ∷ st.perfect.link.sent;
            };
          };
        },
        rw e refl,
        record {
          linked = record { own = r.linked.own; peers = r.linked.peers; addrs = r.linked.addrs };
          carried = record {
            link_own = r.carried.link_own;
            queues = r.carried.queues;
            traffic = (
              subst (λ i. IsFine (record m { sender = i })) (sym r.carried.link_own) fine,
              r.carried.traffic,
            );
          };
          calm = r.calm;
        },
      )

  -- What arrives is handled without a fault.
  pub receive-Ended : (m : Message) (st : Layers) → IsRunning st → IsFine m → Ended (receive m st)
  unfolding receive Perfect.deliver deliver_new BestEffort.deliver
  receive-Ended m st r fine =
      let from = traffic.from m fine in
      let (peer, here) =
        get_elem?-inside st.perfect.peers m.sender (omega (arith, from, r.linked.peers)) in
      let (low, waiting) = All-get_elem? _ st.perfect.peers m.sender peer r.carried.queues here in
      elim (Bool-cases (is_syn m)) [
        | inl syn ↦
            let ack = traffic.acks id m own fine syn in
            elim (Bool-cases (contains peer.delivered (seq_num m))) [
              | inl old ↦
                  let (st', run, r') = send_raw-Ended st m.sender (set_ack m) r from ack in
                  (st', rw (here, syn, old) run, r')
              | inr new ↦
                  let noted : Peer = record peer {
                    delivered = insert peer.delivered (seq_num m);
                  } in
                  let (st', run, r') =
                    deliver-Ended m (set_peer st m.sender noted)
                      (set_peer-IsRunning st m.sender noted r low waiting) (traffic.good m fine syn)
                      from in
                  let (st'', run', r'') = send_raw-Ended st' m.sender (set_ack m) r' from ack in
                  (st'', rw (here, syn, new, run) run', r'')
            ]
        | inr ack ↦
            let told : Peer = record peer { incoming = Queue.push m peer.incoming } in
            (
              set_peer st m.sender told,
              rw (here, ack) refl,
              set_peer-IsRunning st m.sender told r low
                  (All-queued IsFine m peer.incoming waiting fine),
            )
      ]

  module _ (c : IsConfigured id deps) where
    -- What `send` of the top layer makes is in shape.
    own-IsSendable :
        (m : Message) (k : ℕ)
        → m.vector_clock.sz ≡ length (to_list c.dep.depends)
        → length m.vector_clock.storage ≡ max_processes
        → k + 1 < 2 ^ 32
        → IsSendable n deps (record m { originator = id; bcast_seq_num = k })
    own-IsSendable m k size len small = record {
      host = own;
      small = small;
      covered = record {
        dep = c.dep;
        found = c.mine;
        clock_fits = omega (arith, size, len, c.room);
        depends_fit = omega (arith, size, length-take_short c.dep.depends.sz c.dep.depends.storage);
        processes = λ i p h e.
            let below : i < c.dep.depends.sz =
              omega (arith, h, size, length-take-le c.dep.depends.sz c.dep.depends.storage) in
            All-get_elem? (λ q. q < max_processes) (to_list c.dep.depends) i p c.known
              (get_elem?-take c.dep.depends.sz i c.dep.depends.storage below ∙ e);
      };
    }

    -- What `send` of the top layer returns, in a process that is running.
    pub own_clocks :
        (st : Layers)
        → IsRunning st
        → (m : Message) × (Causal.send st.upper.top ≡ ok m)
          × (to_list m.vector_clock ≡ counts st.upper.top.log (to_list c.dep.depends))
          × (m.vector_clock.sz ≡ length (to_list c.dep.depends))
          × (length m.vector_clock.storage ≡ max_processes)
    own_clocks st r =
        let up = r.calm.holds in
        let mine : get_elem? st.upper.top.deps st.upper.top.id ≡ some c.dep =
          rw (up.deps_are, up.id_is) c.mine in
        send_lem st.upper.top up.valid c.dep mine c.known c.room

    -- A broadcast that is heard of goes out without a fault.
    pub broadcast-Ended :
        (k : ℕ) (st : Layers)
        → IsRunning st
        → k + 1 < 2 ^ 32
        → ((m : Message)
            → Causal.send st.upper.top ≡ ok m
            → heard (record m { originator = id; bcast_seq_num = k }) ≡ true)
        → Ended (broadcast k st)
    unfolding broadcast
    broadcast-Ended k st r small said =
        let (m, run, clocks, size, len) = own_clocks st r in
        let good =
          subst (λ i. IsGood n deps heard (record m { originator = i; bcast_seq_num = k }))
            (sym r.calm.id_is) (own-IsSendable m k size len small, said m run) in
        let (st', run', r') =
          broadcast-Ends hand_up n id own few (IsGood n deps heard) IsFine
            (IsAbove n id deps heard base) IsGood-same IsGood-fits IsGood-Stamps hand_up-Holds 1 k m
            st r good in
        (st', rw run run', r')
