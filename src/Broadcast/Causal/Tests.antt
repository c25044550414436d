-- ===== src/Broadcast/Causal/Tests.antt =====
-- Examples for the localized causal broadcast.
use cs451_2020_project.Base.{
  ℕ, ◌≡◌, ◌<◌, refl, List, [], ◌∷◌, replicate, some, arith, ok, subst, get_elem?-replicate_same,
}
use cs451_2020_project.StaticVec.{StaticVec, index}
use cs451_2020_project.Message.{Message, max_processes}
use cs451_2020_project.Config.{Dependency}
use cs451_2020_project.Broadcast.Causal.{Causal, start, deliver, seq_num}
use cs451_2020_project.Broadcast.Causal.Log.{IsCovered, count_from}
use cs451_2020_project.Broadcast.Causal.Start.{start-IsValid}
use cs451_2020_project.Broadcast.Causal.Deliver.{IsNew, Delivered, deliver_lem}
use cs451_2020_project.PriorityQueue.{Fresh}

abbrev none_needed : StaticVec ℕ
none_needed = record { storage = replicate 128 0; sz = 0 }

abbrev one_needed : StaticVec ℕ
one_needed = record { storage = replicate 128 0; sz = 1 }

-- Process 1 depends on process 0.
abbrev deps : List Dependency
deps =
    record { process = 1; depends = none_needed }
    ∷ record { process = 2; depends = one_needed }
    ∷ []

abbrev first : Message
first = record {
  link_seq_num = 0;
  bcast_seq_num = 0;
  originator = 1;
  sender = 1;
  vector_clock = one_needed;
}

one_needed-small : (i p : ℕ) → index one_needed i ≡ some p → p < max_processes
one_needed-small i p e = omega (arith, get_elem?-replicate_same 128 0 i p e)

first-IsCovered : IsCovered deps first
first-IsCovered = record {
  dep = record { process = 2; depends = one_needed };
  found = refl;
  clock_fits = omega arith;
  depends_fit = omega arith;
  processes = λ i p h e. one_needed-small i p e;
}

first-IsNew : IsNew (start 0 deps 2) first
unfolding start count_from
first-IsNew = record {
  host = omega arith;
  covered = first-IsCovered;
  later = omega arith;
  small = omega arith;
  fresh = λ q e. subst (Fresh seq_num 0) (get_elem?-replicate_same 2 [] 1 q e) tt;
}

deliver_lem_example :
    (s' : Causal) × (deliver (start 0 deps 2) first ≡ ok s') × Delivered (start 0 deps 2) first s'
deliver_lem_example =
    deliver_lem (start 0 deps 2) first (start-IsValid 0 deps 2 (omega arith)) first-IsNew
