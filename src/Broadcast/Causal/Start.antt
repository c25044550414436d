-- ===== src/Broadcast/Causal/Start.antt =====
-- The state that the constructor of code/src/src/localized-causal-broadcast.cpp leaves.
use cs451_2020_project.Base.{
  ℕ, ◌≤◌, subst, List, [], arith, length-replicate, get_elem?-replicate, get_elem?-replicate_same,
  All,
}
use cs451_2020_project.Message.{Message, max_processes}
use cs451_2020_project.Config.{Dependency}
use cs451_2020_project.PriorityQueue.{Increasing}
use cs451_2020_project.Broadcast.Causal.{start, seq_num}
use cs451_2020_project.Broadcast.Causal.Log.{IsPending, IsValid, count_from}

-- With up to 128 hosts the invariant holds from the start.
pub start-IsValid :
    (id : ℕ) (deps : List Dependency) (n : ℕ) → n ≤ max_processes → IsValid (start id deps n)
unfolding start count_from
start-IsValid id deps n few = record {
  few = omega (arith, length-replicate {A = List Message} n []);
  counted = λ o h. get_elem?-replicate max_processes 0 o h;
  queued = λ o q e.
      subst (λ x. All (IsPending deps [] o) x × Increasing seq_num x)
        (get_elem?-replicate_same n [] o q e) (tt, tt);
  causal = tt;
}
