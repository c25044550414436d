-- ===== src/Link/Session/Both.antt =====
-- The invariant of a session of two processes, and what its moves need.
use cs451_2020_project.Base.{
  ℕ, ◌+◌, ◌<◌, ◌^◌, ◌≡◌, ◌∙◌, ◌⊎◌, true, ◌&&◌, ◌||◌, List, [], ◌∷◌, arith, ◌==◌, elem, All, All-imp,
  u64_mod,
}
use cs451_2020_project.Message.{Message}
use cs451_2020_project.Link.SeqNum.{is_syn, is_syn_iff, seq_num, seq_num-eq}
use cs451_2020_project.Link.Queue
use cs451_2020_project.Link.Worker.{insert_number, erase_number}
use cs451_2020_project.Link.Worker.Retry.{is_incoming}
use cs451_2020_project.Link.Session.View.{View, IsQueued, IsLocal, IsCrossed}

pub is_incoming-push :
    (k : ℕ) (m : Message) (ms : List Message)
    → is_incoming k (Queue.push m ms) ≡ (is_incoming k ms || (is_syn m && seq_num m == k))
unfolding Queue.push
is_incoming-push k m [] = ground arith
is_incoming-push k m (x ∷ xs) = ground (arith, is_incoming-push k m xs)

pub elem-insert_number :
    (k n : ℕ) (s : List ℕ) → elem k (insert_number n s) ≡ true → (k ≡ n) ⊎ (elem k s ≡ true)
unfolding insert_number
elem-insert_number k n s h = ground arith

pub elem-erase_number : (k n : ℕ) (s : List ℕ) → elem k (erase_number n s) ≡ true → elem k s ≡ true
unfolding erase_number
elem-erase_number k n [] h = h
elem-erase_number k n (x ∷ xs) h = ground (arith, elem-erase_number k n xs)

pub seq_num-small : (m : Message) → m.link_seq_num < u64_mod → seq_num m < u64_mod
seq_num-small m h = rw (seq_num-eq m h) (omega arith)

-- Of a message that has just been given its number.
pub numbered :
    (m : Message) → m.link_seq_num < 2 ^ 63 → (is_syn m ≡ true) × (seq_num m ≡ m.link_seq_num)
numbered m h = (is_syn_iff m (omega arith) ∙ ground arith, seq_num-eq m (omega arith) ∙ omega arith)

-- Both directions.
pub record IsSession (a b : ℕ) (v w : View) : Type 0 where
  pub near : IsLocal a b v
  pub far : IsLocal b a w
  pub out : IsCrossed v w.delivered
  pub back : IsCrossed w v.delivered

pub IsQueued-later : (n : ℕ) (ms : List Message) → All (IsQueued n) ms → All (IsQueued (n + 1)) ms
IsQueued-later n ms h =
    All-imp (IsQueued n) (IsQueued (n + 1)) ms
      (λ m q. record { fits = q.fits; given = λ e. omega (arith, q.given e) }) h
