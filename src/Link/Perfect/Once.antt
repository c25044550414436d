-- ===== src/Link/Perfect/Once.antt =====
-- `PerfectLink::deliver` of code/src/src/perfect-link.cpp from the start, over any sequence of
-- arrivals.
use cs451_2020_project.Base.{
  ℕ, ◌<◌, ◌≡◌, refl, subst, false, List, [], ◌∷◌, if◌then◌else◌, length, length-replicate,
  get_elem?-replicate_same, replicate, All, Run, ok, ◌>>=◌, u64_mod,
}
use cs451_2020_project.Message.{Message}
use cs451_2020_project.RollingSet.{insert_all, contains, empty}
use cs451_2020_project.RollingSet.Refine.{IsValid, contains-insert_all, insert_all-IsValid}
use cs451_2020_project.Link.FairLoss.{Address}
use cs451_2020_project.Link.Perfect.{new_peer, deliver}
use cs451_2020_project.Link.Perfect.Arrival.{Log, keep, arrived, times}
use cs451_2020_project.Link.Perfect.Step.{IsUpToDate, IsArrival, Good, step}

-- The last message stands first.
pub deliver_all : List Message → Log → Run Log
deliver_all [] st = ok st
deliver_all (m ∷ ms) st = deliver_all ms st >>= deliver keep m

-- The state that `PerfectLink::PerfectLink` builds, over a link to `addrs`.
abbrev pub started : ℕ → List Address → Log
started id addrs = record {
  perfect = record {
    id = id;
    peers = replicate (length addrs) new_peer;
    link = record { id = id; addrs = addrs; sent = [] };
  };
  upper = [];
}

pub empty_heard : IsValid empty × ((k : ℕ) → k < u64_mod → contains empty k ≡ false)
unfolding insert_all
empty_heard = (insert_all-IsValid [] tt, λ k small. contains-insert_all [] k tt small)

started-IsUpToDate :
    (id : ℕ) (addrs : List Address) → IsUpToDate (length addrs) [] (started id addrs)
unfolding arrived times
started-IsUpToDate id addrs = record {
  peers_are = length-replicate (length addrs) new_peer;
  addrs_are = refl;
  heard = λ q p e.
      subst (λ r. IsValid r.delivered × ((k : ℕ) → k < u64_mod → contains r.delivered k ≡ false))
        (get_elem?-replicate_same (length addrs) new_peer q p e) empty_heard;
  once = λ q k hq hk. refl;
}

deliver_all-Good :
    (id : ℕ) (addrs : List Address) (ms : List Message)
    → All (IsArrival (length addrs)) ms
    → Good (length addrs) ms (deliver_all ms (started id addrs))
unfolding deliver_all
deliver_all-Good id addrs [] h = (_, refl, started-IsUpToDate id addrs)
deliver_all-Good id addrs (m ∷ ms) h =
    let (st, e, i) = deliver_all-Good id addrs ms h.1 in
    let (st', e', i') = step (length addrs) m ms st i h.0 in (st', rw e e', i')

-- From the start, whatever arrives from known processes, in any order and any number of times,
-- `deliver` handles it all without a fault, and the layer above has then got the message with number
-- `k` of process `q` exactly once if a "Syn" with that number has arrived, and never otherwise.
pub deliver_all_once :
    (id : ℕ) (addrs : List Address) (ms : List Message) (q k : ℕ)
    → All (IsArrival (length addrs)) ms
    → q < length addrs
    → k < u64_mod
    → (st : Log) × (deliver_all ms (started id addrs) ≡ ok st)
      × (times q k st.upper ≡ (if arrived q k ms then 1 else 0))
deliver_all_once id addrs ms q k h hq hk =
    let (st, e, i) = deliver_all-Good id addrs ms h in (st, e, i.once q k hq hk)
