-- ===== src/Link/Worker/Kept.antt =====
-- No round of the worker thread of code/src/src/perfect-link.cpp gives a message up that has not been
-- acknowledged.
use cs451_2020_project.Base.{ℕ, ◌<◌, ◌≡◌, true, false, ◌⊎◌, inl, inr, Bool-cases, elem, length, ok}
use cs451_2020_project.Link.FairLoss.{FairLossLink}
use cs451_2020_project.Link.Worker.{Worker, round}
use cs451_2020_project.Link.Worker.Cases.{round-Outcome}
use cs451_2020_project.Link.Worker.Retry.{is_held, round-keeps}

-- A round of the loop of a thread whose receiver is known does not fault, whatever the clock shows and
-- whatever the thread holds. And for every number `k`: no message with it waited to be sent again or to
-- be scheduled, or `k` was noted as acknowledged, or such a message still waits after the round.
pub round-is_held :
    (k : ℕ) (w : Worker) (receiver now later : ℕ) (link : FairLossLink)
    → receiver < length link.addrs
    → (r : Worker × FairLossLink) × (round w receiver now later link ≡ ok r)
      × ((is_held k w ≡ false) ⊎ ((elem k w.acknowledged ≡ true) ⊎ (is_held k r.0 ≡ true)))
round-is_held k w receiver now later link known =
    let (r, run, _) = round-Outcome w receiver now later link known in
    elim (Bool-cases (is_held k w)) [
      | inr none_held ↦ (r, run, inl none_held)
      | inl held ↦ elim (Bool-cases (elem k w.acknowledged)) [
        | inl acked ↦ (r, run, inr (inl acked))
        | inr new ↦
            let (r', run', kept) = round-keeps k w held receiver now later link new known in
            (r', run', inr (inr kept))
      ]
    ]
