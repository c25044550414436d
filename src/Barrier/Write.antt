-- ===== src/Barrier/Write.antt =====
-- What reaches the other end of a connection of code/src/include/barrier.hpp.
use mathlib.Core.List.{append_assoc, append-nil}
use cs451_2020_project.Base.{
  ok-injective, ℕ, zero, suc, ◌+◌, ◌*◌, ◌^◌, ◌≤◌, ◌<◌, ◌≡◌, refl, sym, ap, subst, ◌∙◌, true, List,
  [], ◌∷◌, ◌++◌, arith, ok, length, take, drop,
}
use cs451_2020_project.Base.Decimal.{is_empty}
use cs451_2020_project.Message.Wire.{bytes_of, number_of, number_of-bytes_of}
use cs451_2020_project.Barrier.{
  Answer, wrote, try_again, broken, Written, write_with_retry, reverse_bytes, hton, Network,
  open_with, connect_to_host,
}

take-drop {ℓ} : {A : Type ℓ} (n : ℕ) (xs : List A) → take n xs ++ drop n xs ≡ xs
take-drop zero xs = refl
take-drop (suc n) [] = refl
take-drop (suc n) (x ∷ xs) = ap (λ t. x ∷ t) (take-drop n xs)

length-drop {ℓ} : {A : Type ℓ} (n : ℕ) (xs : List A) → length (drop n xs) ≤ length xs
length-drop zero xs = omega arith
length-drop (suc n) [] = omega arith
length-drop (suc n) (x ∷ xs) = omega (arith, length-drop n xs)

-- The answers let the loop go on, and at least so many of them take a byte.
abbrev pub Serves : ℕ → List Answer → Type 0
Serves zero answers = Unit {0}
Serves (suc k) [] = ⊥
Serves (suc k) (wrote zero ∷ answers) = Serves (suc k) answers
Serves (suc k) (wrote (suc n) ∷ answers) = Serves k answers
Serves (suc k) (try_again ∷ answers) = Serves (suc k) answers
Serves (suc k) (broken ∷ answers) = ⊥

Serves-fewer : (j k : ℕ) (answers : List Answer) → j ≤ k → Serves k answers → Serves j answers
Serves-fewer zero k answers h s = tt
Serves-fewer (suc j) zero answers h s = absurd (omega arith)
Serves-fewer (suc j) (suc k) [] h s = s
Serves-fewer (suc j) (suc k) (wrote zero ∷ answers) h s = Serves-fewer (suc j) (suc k) answers h s
Serves-fewer (suc j) (suc k) (wrote (suc n) ∷ answers) h s =
    Serves-fewer j k answers (omega arith) s
Serves-fewer (suc j) (suc k) (try_again ∷ answers) h s = Serves-fewer (suc j) (suc k) answers h s
Serves-fewer (suc j) (suc k) (broken ∷ answers) h s = s

-- If no call of `write` fails for good, and at least as many of them take a byte as there are, then
-- the loop ends and all bytes have gone out, in their order.
pub write_with_retry-Serves :
    (answers : List Answer) (buf done : List ℕ)
    → Serves (length buf) answers
    → write_with_retry answers buf done ≡ ok (record { bytes = done ++ buf; complete = true })
unfolding write_with_retry
write_with_retry-Serves answers [] done s = rw (append-nil done) refl
write_with_retry-Serves [] (b ∷ buf) done s = absurd s
write_with_retry-Serves (wrote zero ∷ answers) (b ∷ buf) done s =
    rw (append-nil done) (write_with_retry-Serves answers (b ∷ buf) done s)
write_with_retry-Serves (wrote (suc n) ∷ answers) (b ∷ buf) done s =
    write_with_retry-Serves answers (drop n buf) (done ++ b ∷ take n buf)
      (Serves-fewer (length (drop n buf)) (length buf) answers (length-drop n buf) s)
    ∙ ap (λ l. ok (record { bytes = l; complete = true }))
        (append_assoc done (b ∷ take n buf) (drop n buf)
          ∙ ap (λ l. done ++ b ∷ l) (take-drop n buf))
write_with_retry-Serves (try_again ∷ answers) (b ∷ buf) done s =
    write_with_retry-Serves answers (b ∷ buf) done s
write_with_retry-Serves (broken ∷ answers) (b ∷ buf) done s = absurd s

-- The number that bytes are when the highest comes first, as the servers read it.
unfoldable pub big_endian : ℕ → List ℕ → ℕ
big_endian n [] = n
big_endian n (b ∷ bs) = big_endian (n * 256 + b) bs

big_endian-reverse_bytes :
    (bs acc : List ℕ) → big_endian 0 (reverse_bytes bs acc) ≡ big_endian (number_of bs) acc
unfolding big_endian reverse_bytes number_of
big_endian-reverse_bytes [] acc = refl
big_endian-reverse_bytes (b ∷ bs) acc =
    big_endian-reverse_bytes bs (b ∷ acc) ∙ ap (λ n. big_endian n acc) (omega arith)

-- A 64-bit number is read back at the other end.
pub big_endian-hton : (id : ℕ) → id < 2 ^ 64 → big_endian 0 (hton 8 id) ≡ id
unfolding hton big_endian
big_endian-hton id h =
    big_endian-reverse_bytes (bytes_of 8 id) [] ∙ number_of-bytes_of 8 id (omega arith)

-- Whatever the answers, when the loop ends what has gone out is the beginning of what was to go out,
-- and all of it exactly when the call reports no error.
pub write_with_retry-prefix :
    (answers : List Answer) (buf done : List ℕ) (w : Written)
    → write_with_retry answers buf done ≡ ok w
    → (rest : List ℕ) × (w.bytes ++ rest ≡ done ++ buf) × (w.complete ≡ is_empty rest)
unfolding write_with_retry
write_with_retry-prefix answers [] done w e =
    let same = ok-injective e in
    (
      [],
      ap (λ (z : Written). z.bytes ++ []) (sym same),
      ap (λ (z : Written). z.complete) (sym same),
    )
write_with_retry-prefix [] (b ∷ buf) done w e = absurd (ground arith)
write_with_retry-prefix (wrote n ∷ answers) (b ∷ buf) done w e =
    let (rest, same, all) =
      write_with_retry-prefix answers (drop n (b ∷ buf)) (done ++ take n (b ∷ buf)) w e in
    (
      rest,
      same
          ∙ append_assoc done (take n (b ∷ buf)) (drop n (b ∷ buf))
          ∙ ap (λ l. done ++ l) (take-drop n (b ∷ buf)),
      all,
    )
write_with_retry-prefix (try_again ∷ answers) (b ∷ buf) done w e =
    write_with_retry-prefix answers (b ∷ buf) done w e
write_with_retry-prefix (broken ∷ answers) (b ∷ buf) done w e =
    let same = ok-injective e in
    (
      b ∷ buf,
      ap (λ (z : Written). z.bytes ++ b ∷ buf) (sym same),
      ap (λ (z : Written). z.complete) (sym same),
    )

length-reverse_bytes : (bs acc : List ℕ) → length (reverse_bytes bs acc) ≡ length bs + length acc
unfolding reverse_bytes
length-reverse_bytes [] acc = omega arith
length-reverse_bytes (b ∷ bs) acc = omega (arith, length-reverse_bytes bs (b ∷ acc))

length-hton : (id : ℕ) → length (hton 8 id) ≡ 8
unfolding hton bytes_of
length-hton id = length-reverse_bytes (bytes_of 8 id) []

-- With a socket, a connection and a `write` that serves, a process with a 64-bit identifier connects,
-- and what reaches the server is the identifier in network byte order.
pub connect_to_host-id :
    (id : ℕ) (net : Network)
    → id < 2 ^ 64
    → net.socket_made ≡ true
    → net.connected ≡ true
    → Serves 8 net.answers
    → (bytes : List ℕ) × (connect_to_host id net ≡ ok (open_with bytes))
      × (length bytes ≡ 8)
      × (big_endian 0 bytes ≡ id)
unfolding connect_to_host
connect_to_host-id id net small made joined serves =
    let sent =
      write_with_retry-Serves net.answers (hton 8 id) []
        (subst (λ k. Serves k net.answers) (sym (length-hton id)) serves) in
    (hton 8 id, rw (made, joined, sent) refl, length-hton id, big_endian-hton id small)
