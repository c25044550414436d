-- ===== src/Barrier/Tests.antt =====
-- Examples for the reports to the barrier.
use cs451_2020_project.Base.{ℕ, ◌≡◌, refl, true, false, List, [], ◌∷◌, ◌++◌, arith, ok, length}
use cs451_2020_project.Base.Decimal.{is_empty}
use cs451_2020_project.Barrier.{
  passed, wait_on_barrier, Answer, wrote, try_again, broken, Written, write_with_retry, hton,
  Network, open_with, connect_to_host,
}
use cs451_2020_project.Barrier.Write.{
  big_endian, write_with_retry-Serves, write_with_retry-prefix, connect_to_host-id,
}

-- Three bytes, after an interruption one, and then the rest, a byte at a time.
abbrev answers : List Answer
answers =
    wrote 3 ∷ try_again ∷ wrote 1 ∷ wrote 1 ∷ wrote 1 ∷ wrote 1 ∷ wrote 1 ∷ wrote 1 ∷ wrote 1 ∷ []

abbrev network : Network
network = record { socket_made = true; connected = true; answers = answers }

write_with_retry-Serves_example :
    write_with_retry answers (7 ∷ 8 ∷ 9 ∷ 10 ∷ []) []
    ≡ ok (record { bytes = 7 ∷ 8 ∷ 9 ∷ 10 ∷ []; complete = true })
write_with_retry-Serves_example = write_with_retry-Serves answers (7 ∷ 8 ∷ 9 ∷ 10 ∷ []) [] tt

abbrev cut : Written
cut = record { bytes = 7 ∷ 8 ∷ []; complete = false }

cut-is : write_with_retry (wrote 2 ∷ broken ∷ []) (7 ∷ 8 ∷ 9 ∷ []) [] ≡ ok cut
unfolding write_with_retry
cut-is = refl

write_with_retry-prefix_example :
    (rest : List ℕ) × (cut.bytes ++ rest ≡ 7 ∷ 8 ∷ 9 ∷ []) × (cut.complete ≡ is_empty rest)
write_with_retry-prefix_example =
    write_with_retry-prefix (wrote 2 ∷ broken ∷ []) (7 ∷ 8 ∷ 9 ∷ []) [] cut cut-is

connect_to_host-id_example :
    (bytes : List ℕ) × (connect_to_host 258 network ≡ ok (open_with bytes))
    × (length bytes ≡ 8)
    × (big_endian 0 bytes ≡ 258)
connect_to_host-id_example = connect_to_host-id 258 network (omega arith) refl refl tt

hton_example : hton 4 258 ≡ 0 ∷ 0 ∷ 1 ∷ 2 ∷ []
unfolding hton
hton_example = refl

wait_on_barrier_example :
    wait_on_barrier 258 network true ≡ ok (passed (0 ∷ 0 ∷ 0 ∷ 0 ∷ 0 ∷ 0 ∷ 1 ∷ 2 ∷ []))
unfolding wait_on_barrier
wait_on_barrier_example = refl
