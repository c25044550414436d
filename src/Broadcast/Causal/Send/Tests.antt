-- ===== src/Broadcast/Causal/Send/Tests.antt =====
-- An example for the clocks that are sent: process 1, which depends on process 0, sends after it has
-- handed up a message of process 0.
use cs451_2020_project.Base.{
  ℕ, ◌≡◌, refl, sym, ◌∙◌, subst, List, [], ◌∷◌, replicate, length, set, arith, ok, ok-injective,
  get_elem?-replicate_same,
}
use cs451_2020_project.StaticVec.{StaticVec, to_list}
use cs451_2020_project.Message.{Message, max_processes}
use cs451_2020_project.Config.{Dependency}
use cs451_2020_project.PriorityQueue.{Fresh}
use cs451_2020_project.Broadcast.Causal.{Causal, start, deliver, visit, send, seq_num}
use cs451_2020_project.Broadcast.Causal.Log.{IsValid, count_from}
use cs451_2020_project.Broadcast.Causal.Start.{start-IsValid}
use cs451_2020_project.Broadcast.Causal.Deliver.{IsNew, deliver_lem}
use cs451_2020_project.Broadcast.Causal.Send.{counts, send_lem}

abbrev none_needed : StaticVec ℕ
none_needed = record { storage = replicate 128 0; sz = 0 }

abbrev one_needed : StaticVec ℕ
one_needed = record { storage = replicate 128 0; sz = 1 }

abbrev needs : Dependency
needs = record { process = 2; depends = one_needed }

abbrev deps : List Dependency
deps = record { process = 1; depends = none_needed } ∷ needs ∷ []

abbrev cause : Message
cause = record {
  link_seq_num = 0;
  bcast_seq_num = 0;
  originator = 0;
  sender = 0;
  vector_clock = none_needed;
}

abbrev after_cause : ℕ → Causal
after_cause id = record (start id deps 2) {
  current_clock = record { storage = set (replicate 128 0) 0 1; sz = 2 };
  log = cause ∷ [];
}

Delivered-IsValid :
    (s s' : Causal) (m : Message) → deliver s m ≡ ok s' → IsValid s → IsNew s m → IsValid s'
Delivered-IsValid s s' m e v n =
    let (s'', run, done) = deliver_lem s m v n in
    subst IsValid (ok-injective (sym run ∙ e)) done.valid

cause-delivered : (id : ℕ) → deliver (start id deps 2) cause ≡ ok (after_cause id)
unfolding deliver start visit
cause-delivered id = refl

cause-IsNew : (id : ℕ) → IsNew (start id deps 2) cause
unfolding start count_from
cause-IsNew id = record {
  host = omega arith;
  covered = record {
    dep = record { process = 1; depends = none_needed };
    found = refl;
    clock_fits = omega arith;
    depends_fit = omega arith;
    processes = λ i p h e. absurd (omega arith);
  };
  later = omega arith;
  small = omega arith;
  fresh = λ q e. subst (Fresh seq_num 0) (get_elem?-replicate_same 2 [] 0 q e) tt;
}

after_cause-IsValid : (id : ℕ) → IsValid (after_cause id)
after_cause-IsValid id =
    Delivered-IsValid (start id deps 2) (after_cause id) cause (cause-delivered id)
      (start-IsValid id deps 2 (omega arith)) (cause-IsNew id)

send_lem_example :
    (m : Message) × (send (after_cause 1) ≡ ok m)
    × (to_list m.vector_clock ≡ counts (after_cause 1).log (to_list needs.depends))
    × (m.vector_clock.sz ≡ length (to_list needs.depends))
    × (length m.vector_clock.storage ≡ max_processes)
unfolding start
send_lem_example =
    send_lem (after_cause 1) (after_cause-IsValid 1) needs refl (omega arith, tt) (omega arith)
