-- ===== src/Link/Thread.antt =====
-- The worker thread that `PerfectLink::Peer` of code/src/src/perfect-link.cpp starts, beside the layers
-- of its process: the queue that they share is that of the peer, and the link that of the process.
use cs451_2020_project.Base.{ℕ, List, [], get_elem?, Run, ok, ◌>>=◌, access}
use cs451_2020_project.Link.Perfect.{Stack, set_peer}
use cs451_2020_project.Link.Worker.{Entry, round}

-- The local variables of the thread.
pub record Thread : Type 0 where
  pub scheduled : List Entry
  pub acknowledged : List ℕ

abbrev pub fresh_thread : Thread
fresh_thread = record { scheduled = []; acknowledged = [] }

-- A round of the thread that sends to `j`.
unfoldable pub run_round {ℓ} : {U : Type ℓ} → Stack U → Thread → ℕ → ℕ → ℕ → Run (Stack U × Thread)
unfolding set_peer
run_round st t j now later = access (get_elem? st.perfect.peers j) >>= λ p.
    round (record { scheduled = t.scheduled; acknowledged = t.acknowledged; incoming = p.incoming })
      j now later st.perfect.link
    >>= λ (w, link'). ok (
      set_peer (record st { perfect = record st.perfect { link = link' } }) j
          (record p { incoming = w.incoming }),
      record { scheduled = w.scheduled; acknowledged = w.acknowledged },
    )
