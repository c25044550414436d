-- ===== src/Link/Session/Tests.antt =====
-- Examples for a session.
use cs451_2020_project.Base.{◌≡◌, ◌⊎◌, ◌≤◌, ◌<◌, refl, true, List, [], ◌∷◌, arith}
use cs451_2020_project.Message.{Message}
use cs451_2020_project.RollingSet.{empty}
use cs451_2020_project.Link.FairLoss.{Address}
use cs451_2020_project.Link.FairLoss
use cs451_2020_project.Link.Queue
use cs451_2020_project.Link.Perfect.{new_peer, send, send_raw, set_peer}
use cs451_2020_project.Link.Perfect.Arrival.{times}
use cs451_2020_project.Link.Worker.Retry.{is_held}
use cs451_2020_project.Link.Session.{Side, fresh_side, Act, Reach, sends, start, left}
use cs451_2020_project.Link.Session.Reliable.{link_reliable}

abbrev two_addrs : List Address
two_addrs = record { ip = 1; port = 11001 } ∷ record { ip = 1; port = 11002 } ∷ []

abbrev greeting : Message
greeting = record {
  link_seq_num = 0;
  bcast_seq_num = 5;
  originator = 0;
  sender = 0;
  vector_clock = record { storage = []; sz = 0 };
}

-- Process 0 has sent its first message to process 1.
abbrev one_sent : Side
one_sent = record {
  log = record {
    perfect = record {
      id = 0;
      peers =
          new_peer ∷ record { next_seq_num = 1; delivered = empty; incoming = greeting ∷ [] } ∷ [];
      link = record {
        id = 0;
        addrs = two_addrs;
        sent = (record { ip = 1; port = 11002 }, greeting) ∷ [];
      };
    };
    upper = [];
  };
  scheduled = [];
  acknowledged = [];
}

first_step : Act 0 1 (fresh_side 0 two_addrs) (fresh_side 1 two_addrs) one_sent
unfolding send send_raw set_peer FairLoss.send Queue.push
first_step = sends greeting greeting new_peer one_sent.log refl (omega arith) refl refl

reached : Reach 0 1 two_addrs one_sent (fresh_side 1 two_addrs)
reached = left (start refl refl) first_step

link_reliable_example :
    ((times 0 0 [] ≡ 1) × (0 < 1))
    ⊎ ((times 0 0 [] ≡ 0)
        × ((1 ≤ 0)
            ⊎ (is_held 0 (record { scheduled = []; acknowledged = []; incoming = greeting ∷ [] })
                ≡ true)))
link_reliable_example =
    link_reliable two_addrs 0 1 one_sent (fresh_side 1 two_addrs)
      (record { next_seq_num = 1; delivered = empty; incoming = greeting ∷ [] }) 0
      (λ e. omega arith) (omega arith) (omega arith) reached refl (omega arith)
