-- ===== src/Link/Tests.antt =====
-- Examples for the links.
use cs451_2020_project.Base.{
  true, false, elem, ◌⊎◌, ℕ, ◌≡◌, true, List, [], ◌∷◌, length, All, arith, ok, if◌then◌else◌,
}
use cs451_2020_project.StaticVec.{StaticVec}
use cs451_2020_project.Message.{Message}
use cs451_2020_project.Link.SeqNum.{set_ack}
use cs451_2020_project.Link.FairLoss.{Address, FairLossLink}
use cs451_2020_project.Link.Worker.{Worker, round}
use cs451_2020_project.Link.Worker.Retry.{is_held}
use cs451_2020_project.Link.Worker.Kept.{round-is_held}
use cs451_2020_project.Link.Perfect.Arrival.{Log, times, arrived}
use cs451_2020_project.Link.Perfect.Step.{IsArrival}
use cs451_2020_project.Link.Perfect.Once.{started, deliver_all, deliver_all_once}

abbrev clock : StaticVec ℕ
clock = record { storage = 4 ∷ 5 ∷ []; sz = 1 }

abbrev syn : Message
syn = record {
  link_seq_num = 7;
  bcast_seq_num = 3;
  originator = 0;
  sender = 1;
  vector_clock = clock;
}

abbrev two_hosts : List Address
two_hosts = record { ip = 1; port = 11001 } ∷ record { ip = 1; port = 11002 } ∷ []

abbrev arrivals : List Message
arrivals = syn ∷ set_ack syn ∷ syn ∷ []

arrivals-IsArrival : All (IsArrival (length two_hosts)) arrivals
unfolding set_ack
arrivals-IsArrival =
    ((omega arith, omega arith), ((omega arith, omega arith), ((omega arith, omega arith), tt)))

deliver_all_once_example :
    (st : Log) × (deliver_all arrivals (started 0 two_hosts) ≡ ok st)
    × (times 1 7 st.upper ≡ (if arrived 1 7 arrivals then 1 else 0))
deliver_all_once_example =
    deliver_all_once 0 two_hosts arrivals 1 7 arrivals-IsArrival (omega arith) (omega arith)

abbrev link : FairLossLink
link = record { id = 0; addrs = two_hosts; sent = [] }

-- The message was sent at time 500, and is due at 600.
abbrev worker : Worker
worker = record {
  scheduled = record { msg = syn; backoff = record { timeout = 100; retry_at = 600 } } ∷ [];
  acknowledged = 8 ∷ [];
  incoming = [];
}

round-is_held_example :
    (r : Worker × FairLossLink) × (round worker 1 650 651 link ≡ ok r)
    × ((is_held 7 worker ≡ false) ⊎ ((elem 7 worker.acknowledged ≡ true) ⊎ (is_held 7 r.0 ≡ true)))
round-is_held_example = round-is_held 7 worker 1 650 651 link (omega arith)
