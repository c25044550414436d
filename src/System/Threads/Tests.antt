-- ===== src/System/Threads/Tests.antt =====
-- Examples for the worker threads, and for a task without a thread.
use cs451_2020_project.Base.{ℕ, ◌+◌, ◌*◌, ◌≤◌, ◌≡◌, refl, arith, true, ok, leb}
use cs451_2020_project.Task.{gone, terminates, start_task, new_task, destroy}
use cs451_2020_project.Task.Ends.{destroy-new_task}
use cs451_2020_project.System.{Site}
use cs451_2020_project.System.Tests.{deps, addrs, last, configured, last-Reach}
use cs451_2020_project.System.Threads.{thread_body, destroy-ends}

-- The thread sees the store after three passes.
destroy-ends_example :
    (m : ℕ) × (site : Site) × (destroy
        (thread_body 1 (λ n. 100 * n) (λ n. 100 * n + 1))
        (λ n. leb 3 n)
        4
        (start_task (last.sites 0))
      ≡ ok (gone m site))
    × (m ≤ 3)
destroy-ends_example =
    destroy-ends deps addrs last 0 1 3 (λ n. 100 * n) (λ n. 100 * n + 1) (λ n. leb 3 n)
      (omega arith) (omega arith) configured last-Reach (omega arith) (omega arith) refl

no_thread_to_join : destroy (λ n s. ok s) (λ n. true) 5 (new_task ℕ) ≡ ok terminates
no_thread_to_join = destroy-new_task ℕ (λ n s. ok s) (λ n. true) 5
