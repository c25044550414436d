-- ===== src/Main/Tests.antt =====
-- Examples for the main loop.
use cs451_2020_project.Base.{ℕ, ◌≡◌, refl, ap, List, [], ◌∷◌, Run, ok, arith}
use cs451_2020_project.Message.{Message}
use cs451_2020_project.RollingSet.Window.{below}
use cs451_2020_project.Main.{Turn, sending}
use cs451_2020_project.Main.Turns.{rounds_for, sending-ends}

abbrev packet : Message
packet = record {
  link_seq_num = 0;
  bcast_seq_num = 0;
  originator = 1;
  sender = 1;
  vector_clock = record { storage = []; sz = 0 };
}

-- Layers that write down what is sent, the last number first, and ignore what comes.
abbrev hear : Message → List ℕ → Run (List ℕ)
hear m said = ok said

abbrev say : ℕ → List ℕ → Run (List ℕ)
say k said = ok (k ∷ said)

-- Two packets come in every round, and five messages are to be sent.
sending-ends_example :
    (t : Turn (List ℕ)) × (sending hear say 5 (rounds_for 5) (λ _. packet ∷ packet ∷ []) [] ≡ ok t)
    × (t.next_msg ≡ 5)
    × (t.layers ≡ below 5)
sending-ends_example =
    sending-ends hear say 5 (λ _. Unit {0}) (λ k said. said ≡ below k) (omega arith)
      (λ k said m h good. (said, refl, h)) (λ k said more h. (k ∷ said, refl, ap (λ l. k ∷ l) h))
      (λ _. packet ∷ packet ∷ []) [] (λ n. (tt, (tt, tt))) refl
