-- ===== src/System/Sites.antt =====
-- What each process keeps up while the processes around it broadcast: its layers are ready, and all
-- that it has sent, or will send again, is a copy of what has been broadcast.
use cs451_2020_project.Base.{
  ℕ, ◌≤◌, ◌<◌, ◌≡◌, refl, inl, inr, true, false, List, [], ◌∷◌, arith, Bool-cases, length, All,
  All-imp, u64_mod,
}
use cs451_2020_project.Message.{Message, max_processes}
use cs451_2020_project.Config.{Dependency}
use cs451_2020_project.Link.FairLoss.{Address}
use cs451_2020_project.Link.FairLoss
use cs451_2020_project.Link.SeqNum.{is_syn, set_ack, set_ack_lem}
use cs451_2020_project.Link.Perfect.{Peer}
use cs451_2020_project.Link.Worker.{Entry}
use cs451_2020_project.Process.{Layers}
use cs451_2020_project.Process.Causality.{
  unheard, IsAbove, IsSendable-same, weigh-zero, weigh_all-zero,
}
use cs451_2020_project.Process.Traffic.{IsGood, IsTraffic}
use cs451_2020_project.Process.Steps.{IsRunning}
use cs451_2020_project.Process.Loop.{start-IsRunning}
use cs451_2020_project.System.{Site, fresh_site, Said}
use cs451_2020_project.System.Heard.{heard, heard-same, heard-later}

-- A packet of a known process: an acknowledgement, or a copy of a message of the history.
pub record IsSent (n : ℕ) (deps : List Dependency) (history : List Said) (m : Message)
    : Type 0 where
  pub fits : m.link_seq_num < u64_mod
  pub from : m.sender < n
  pub good : is_syn m ≡ true → IsGood n deps (heard history) m

pub IsSent-later :
    (n : ℕ) (deps : List Dependency) (x : Said) (history : List Said) (m : Message)
    → IsSent n deps history m
    → IsSent n deps (x ∷ history) m
IsSent-later n deps x history m s = record {
  fits = s.fits;
  from = s.from;
  good = λ syn. let g = s.good syn in (g.0, heard-later x history m g.1);
}

-- The worker thread sends a message again in the name of its process.
pub IsSent-sender :
    (n id : ℕ) (deps : List Dependency) (history : List Said) (m : Message)
    → id < n
    → IsSent n deps history m
    → IsSent n deps history (record m { sender = id })
unfolding is_syn
IsSent-sender n id deps history m own s = record {
  fits = s.fits;
  from = own;
  good = λ syn.
      let g = s.good syn in
      (
        IsSendable-same n deps m (record m { sender = id }) (refl, refl) refl g.0,
        heard-same history m (record m { sender = id }) (refl, refl) refl g.1,
      );
}

set_ack-syn :
    (m : Message) (id : ℕ)
    → m.link_seq_num < u64_mod
    → is_syn (record (set_ack m) { sender = id }) ≡ false
unfolding is_syn
set_ack-syn m id small = (set_ack_lem m small).0

set_ack-fits : (m : Message) → m.link_seq_num < u64_mod → (set_ack m).link_seq_num < u64_mod
set_ack-fits m small = (set_ack_lem m small).2

pub IsSent-IsTraffic :
    (n : ℕ) (deps : List Dependency) (history : List Said)
    → IsTraffic n deps (heard history) (IsSent n deps history)
IsSent-IsTraffic n deps history = record {
  same = heard-same history;
  from = λ m s. s.from;
  good = λ m s syn. s.good syn;
  stamps = λ id m own g m' same clock low from. record {
    fits = low;
    from = omega (arith, from, own);
    good =
        λ syn. (IsSendable-same n deps m m' same clock g.0, heard-same history m m' same clock g.1);
  };
  acks = λ id m own s syn. record {
    fits = set_ack-fits m s.fits;
    from = own;
    good = λ syn'. absurd (cc (syn', set_ack-syn m id s.fits));
  };
}

unheard-later :
    (x : Said) (history : List Said) (m : Message)
    → unheard (heard history) m ≡ 0
    → unheard (heard (x ∷ history)) m ≡ 0
unheard-later x history m z = elim (Bool-cases (heard history m)) [
  | inl said ↦ rw (heard-later x history m said) refl
  | inr new ↦ absurd (ground (arith, new))
]

module _ (n id : ℕ) (own : id < n) (few : n ≤ max_processes) (deps : List Dependency) where
  -- The layers of a process after a history of broadcasts.
  abbrev pub IsLive : List Said → Layers → Type 0
  IsLive history =
      IsRunning n id own few deps (heard history) [] (IsSent n deps history)
        (IsSent-IsTraffic n deps history)

  -- A process with its worker threads.
  pub record IsSite (history : List Said) (s : Site) : Type 0 where
    pub live : IsLive history s.layers
    pub waiting : (j : ℕ) → All (λ (e : Entry). IsSent n deps history e.msg) (s.threads j).scheduled

  IsAbove-later :
      (x : Said) (history : List Said) (d : _) (top : _)
      → IsAbove n id deps (heard history) [] d top
      → IsAbove n id deps (heard (x ∷ history)) [] d top
  IsAbove-later x history d top a = record {
    valid = a.valid;
    id_is = a.id_is;
    deps_are = a.deps_are;
    heaps = a.heaps;
    waiting = a.waiting;
    logged = a.logged;
    heard_waiting =
        weigh_all-zero (unheard (heard history)) (unheard (heard (x ∷ history))) top.pending
          (unheard-later x history) a.heard_waiting;
    grown = a.grown;
    heard_logged =
        weigh-zero (unheard (heard history)) (unheard (heard (x ∷ history))) top.log
          (unheard-later x history) a.heard_logged;
  }

  IsLive-later :
      (x : Said) (history : List Said) (st : Layers) → IsLive history st → IsLive (x ∷ history) st
  IsLive-later x history st r =
      let keep = IsSent-later n deps x history in
      record {
        linked = r.linked;
        carried = record {
          link_own = r.carried.link_own;
          queues =
              All-imp _ _ st.perfect.peers
                (λ (p : Peer) h. (h.0, All-imp _ _ p.incoming (λ m f. keep m f) h.1))
                r.carried.queues;
          traffic =
              All-imp _ _ st.perfect.link.sent (λ (y : FairLoss.Address × Message) f. keep y.1 f)
                r.carried.traffic;
        };
        calm = record {
          id_is = r.calm.id_is;
          bc_is = r.calm.bc_is;
          others = r.calm.others;
          pending = r.calm.pending;
          delivered = r.calm.delivered;
          quiet = r.calm.quiet;
          holds = IsAbove-later x history st.upper.urb.delivered st.upper.top r.calm.holds;
        };
      }

  -- A broadcast more changes nothing for the others.
  pub IsSite-later :
      (x : Said) (history : List Said) (s : Site) → IsSite history s → IsSite (x ∷ history) s
  IsSite-later x history s h = record {
    live = IsLive-later x history s.layers h.live;
    waiting = λ j.
        All-imp _ _ (s.threads j).scheduled (λ (e : Entry) f. IsSent-later n deps x history e.msg f)
          (h.waiting j);
  }

pub fresh_site-IsSite :
    (id : ℕ) (deps : List Dependency) (addrs : List Address) (own : id < length addrs)
    (few : length addrs ≤ max_processes)
    → 3 ≤ length addrs
    → IsSite (length addrs) id own few deps [] (fresh_site id deps addrs)
fresh_site-IsSite id deps addrs own few three = record {
  live =
      start-IsRunning id deps addrs own three few (heard []) (IsSent (length addrs) deps [])
        (IsSent-IsTraffic (length addrs) deps []);
  waiting = λ j. tt;
}
