-- ===== src/System/Threads.antt =====
-- The destructor of a peer of code/src/src/perfect-link.cpp cancels its thread, and waits for it.
pub mod Tests
use cs451_2020_project.Base.{ℕ, suc, ◌≤◌, ◌<◌, ◌≡◌, Bool, true, List, length, Run, ok}
use cs451_2020_project.Message.{max_processes}
use cs451_2020_project.Config.{Dependency}
use cs451_2020_project.Link.FairLoss.{Address}
use cs451_2020_project.Process.Traffic.{IsConfigured}
use cs451_2020_project.Task.{Destroyed, gone, start_task, destroy}
use cs451_2020_project.Task.Ends.{destroy-gone}
use cs451_2020_project.System.{Site, System, Reach, work}
use cs451_2020_project.System.Sites.{IsSite}
use cs451_2020_project.System.Moves.{work-IsSite}
use cs451_2020_project.System.Reached.{IsSound, Reach-IsSound}

-- The loop of the thread that sends to `j`; the clock shows two times in each pass.
unfoldable pub thread_body : ℕ → (ℕ → ℕ) → (ℕ → ℕ) → ℕ → Site → Run Site
thread_body j now later n site = work site j (now n) (later n)

-- Take 3 to 128 processes with the same configuration, which has an entry of at most 128 known
-- processes for each of them, in a state that they can reach. Destroy the task of a worker thread of
-- one of them that has started there, whatever the clock shows: if the store to the token is visible at
-- some test of the thread, the destructor ends, after at most the passes before that test, and none of
-- these faults.
pub destroy-ends :
    (deps : List Dependency) (addrs : List Address) (s : System) (i j left : ℕ) (now later : ℕ → ℕ)
    (visible : ℕ → Bool)
    → 3 ≤ length addrs
    → length addrs ≤ max_processes
    → ((k : ℕ) → k < length addrs → IsConfigured k deps)
    → Reach deps addrs s
    → i < length addrs
    → j < length addrs
    → visible left ≡ true
    → (m : ℕ) × (site : Site) × (destroy
          (thread_body j now later)
          visible
          (suc left)
          (start_task (s.sites i))
        ≡ ok (gone m site))
      × (m ≤ left)
unfolding thread_body
destroy-ends deps addrs s i j left now later visible three few configured reached own known seen =
    let sound = Reach-IsSound deps addrs three few configured s reached in
    let (m, site, end, within, h) =
      destroy-gone (thread_body j now later) visible
        (IsSite (length addrs) i own few deps s.history)
        (λ n site h.
          work-IsSite (length addrs) i own few deps s.history site j (now n) (later n) h known)
        left (s.sites i) (sound.all i own) seen in
    (m, site, end, within)
