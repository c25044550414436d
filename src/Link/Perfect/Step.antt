-- ===== src/Link/Perfect/Step.antt =====
-- The invariant of `PerfectLink::deliver` in code/src/src/perfect-link.cpp over a sequence of
-- arrivals.
use cs451_2020_project.Base.{
  ℕ, ◌<◌, ◌≡◌, refl, sym, ap, subst₂, ◌∙◌, inl, inr, true, false, List, ◌∷◌, some, arith, ◌==◌,
  if◌then◌else◌, Bool-cases, length, length-set, get_elem?, get_elem?-inside, get_elem?-lt,
  get_elem?-set, set, Run, ok, u64_mod,
}
use cs451_2020_project.Message.{Message}
use cs451_2020_project.RollingSet.{RollingBitset, insert, contains}
use cs451_2020_project.RollingSet.Refine.{IsValid, contains-insert, insert-IsValid}
use cs451_2020_project.Link.SeqNum.{is_syn, seq_num, seq_num-eq}
use cs451_2020_project.Link.FairLoss.{Address}
use cs451_2020_project.Link.Queue
use cs451_2020_project.Link.Perfect.{Peer, set_peer, deliver}
use cs451_2020_project.Link.Perfect.Arrival.{
  Log, keep, is_from, arrived, times, ack_sent, noted, deliver-old, deliver-fresh, deliver-ack,
}

some-injective : {x r : Peer} → some x ≡ some r → x ≡ r
some-injective e = ground arith

-- After the arrivals `ms`: a peer's set has the numbers that have come, and each is in the log once.
pub record IsUpToDate (n : ℕ) (ms : List Message) (st : Log) : Type 0 where
  pub peers_are : length st.perfect.peers ≡ n
  pub addrs_are : length st.perfect.link.addrs ≡ n
  pub heard :
      (q : ℕ) (p : Peer)
      → get_elem? st.perfect.peers q ≡ some p
      → IsValid p.delivered × ((k : ℕ) → k < u64_mod → contains p.delivered k ≡ arrived q k ms)
  pub once :
      (q k : ℕ) → q < n → k < u64_mod → times q k st.upper ≡ (if arrived q k ms then 1 else 0)

-- From a known process, with a 64-bit number.
abbrev pub IsArrival : ℕ → Message → Type 0
IsArrival n m = (m.sender < n) × (m.link_seq_num < u64_mod)

seq_num-lt : (m : Message) → m.link_seq_num < u64_mod → seq_num m < u64_mod
seq_num-lt m h = rw (seq_num-eq m h) (omega arith)

module _ (n : ℕ) (m : Message) (ms : List Message) (st : Log) (i : IsUpToDate n ms st)
    (v : IsArrival n m) (p : Peer) (a : Address)
    (here : get_elem? st.perfect.peers m.sender ≡ some p)
    (addr : get_elem? st.perfect.link.addrs m.sender ≡ some a) where
  own_number : arrived m.sender (seq_num m) ms ≡ contains p.delivered (seq_num m)
  own_number = sym ((i.heard m.sender p here).1 (seq_num m) (seq_num-lt m v.1))

  -- For the number that comes the answer is the peer's set; no other changes.
  is_from-own : (q k : ℕ) → is_from q k m ≡ true → arrived q k ms ≡ contains p.delivered (seq_num m)
  is_from-own q k e =
      let q_is : m.sender ≡ q = ground arith in
      let k_is : seq_num m ≡ k = ground arith in
      subst₂ (λ x y. arrived x y ms ≡ contains p.delivered (seq_num m)) q_is k_is own_number

  abbrev SameAnswer : ℕ → ℕ → Type 0
  SameAnswer q k = arrived q k (m ∷ ms) ≡ arrived q k ms

  unchanged_old : contains p.delivered (seq_num m) ≡ true → (q k : ℕ) → SameAnswer q k
  unfolding arrived
  unchanged_old old q k = elim (Bool-cases (is_from q k m)) [
    | inl e ↦ rw e (sym (is_from-own q k e ∙ old))
    | inr e ↦ rw e refl
  ]

  unchanged_ack : is_syn m ≡ false → (q k : ℕ) → SameAnswer q k
  unfolding arrived
  unchanged_ack e q k = rw e refl

  step-old :
      contains p.delivered (seq_num m) ≡ true
      → IsUpToDate n (m ∷ ms) (ack_sent m st p a here addr st)
  step-old old = record {
    peers_are = i.peers_are;
    addrs_are = i.addrs_are;
    heard = λ q r e.
        let (valid, same) = i.heard q r e in
        (valid, λ k small. same k small ∙ sym (unchanged_old old q k));
    once =
        λ q k hq hk. i.once q k hq hk ∙ ap (λ b. if b then 1 else 0) (sym (unchanged_old old q k));
  }

  at_sender :
      (x : Peer) (q : ℕ)
      → get_elem? (set st.perfect.peers m.sender x) q
        ≡ (if m.sender == q then some x else get_elem? st.perfect.peers q)
  at_sender x q =
      get_elem?-set st.perfect.peers m.sender q x (get_elem?-lt st.perfect.peers m.sender p here)

  -- What holds of the new peer and of every other one holds of each peer after the change.
  peer_at :
      (P : ℕ → Peer → Type 0) (x : Peer)
      → P m.sender x
      → ((q : ℕ) (r : Peer) → m.sender == q ≡ false → get_elem? st.perfect.peers q ≡ some r → P q r)
      → (q : ℕ) (r : Peer) → get_elem? (set st.perfect.peers m.sender x) q ≡ some r
      → P q r
  peer_at P x own others q r e = elim (Bool-cases (m.sender == q)) [
    | inl same ↦
        let q_is : m.sender ≡ q = ground arith in
        let found : get_elem? (set st.perfect.peers m.sender x) q ≡ some x =
          at_sender x q ∙ (rw same refl) in
        let r_is : x ≡ r = some-injective (sym found ∙ e) in subst₂ P q_is r_is own
    | inr other ↦
        let found : get_elem? (set st.perfect.peers m.sender x) q ≡ get_elem? st.perfect.peers q =
          at_sender x q ∙ (rw other refl) in
        others q r other (sym found ∙ e)
  ]

  abbrev IsCurrent : ℕ → Peer → Type 0
  IsCurrent q r =
      IsValid r.delivered × ((k : ℕ) → k < u64_mod → contains r.delivered k ≡ arrived q k (m ∷ ms))

  heard_before :
      ((q k : ℕ) → SameAnswer q k)
      → (q : ℕ) (r : Peer) → get_elem? st.perfect.peers q ≡ some r
      → IsCurrent q r
  heard_before unchanged q r e =
      let (valid, same) = i.heard q r e in (valid, λ k small. same k small ∙ sym (unchanged q k))

  step-ack :
      is_syn m ≡ false
      → IsUpToDate n
          (m ∷ ms)
          (set_peer st m.sender (record p { incoming = Queue.push m p.incoming }))
  unfolding set_peer
  step-ack ack = record {
    peers_are = length-set st.perfect.peers m.sender _ ∙ i.peers_are;
    addrs_are = i.addrs_are;
    heard =
        peer_at IsCurrent _
          (let (valid, same) = heard_before (unchanged_ack ack) m.sender p here in (valid, same))
          (λ q r _. heard_before (unchanged_ack ack) q r);
    once =
        λ q k hq hk. i.once q k hq hk ∙ ap (λ b. if b then 1 else 0) (sym (unchanged_ack ack q k));
  }

  abbrev grown : RollingBitset
  grown = insert p.delivered (seq_num m)

  heard_own :
      is_syn m ≡ true
      → IsValid grown × ((k : ℕ) → k < u64_mod → contains grown k ≡ arrived m.sender k (m ∷ ms))
  unfolding arrived
  heard_own syn =
      let (valid, same) = i.heard m.sender p here in
      (
        insert-IsValid p.delivered (seq_num m) (seq_num-lt m v.1) valid,
        λ k small.
            contains-insert p.delivered (seq_num m) k (seq_num-lt m v.1) small valid
            ∙ rw (same k small, syn) (ground (arith)),
      )

  heard_other :
      (q : ℕ) (r : Peer)
      → m.sender == q ≡ false
      → get_elem? st.perfect.peers q ≡ some r
      → IsCurrent q r
  unfolding arrived
  heard_other q r other e =
      let (valid, same) = i.heard q r e in (valid, λ k small. same k small ∙ (ground arith))

  once_fresh :
      is_syn m ≡ true
      → contains p.delivered (seq_num m) ≡ false
      → (q k : ℕ) → q < n
      → k < u64_mod
      → times q k (m ∷ st.upper) ≡ (if arrived q k (m ∷ ms) then 1 else 0)
  unfolding arrived times
  once_fresh syn new q k hq hk = elim (Bool-cases (is_from q k m)) [
    | inl e ↦ rw (e, i.once q k hq hk, is_from-own q k e, new) refl
    | inr e ↦ rw e (i.once q k hq hk)
  ]

  step-fresh :
      is_syn m ≡ true
      → contains p.delivered (seq_num m) ≡ false
      → IsUpToDate n
          (m ∷ ms)
          (ack_sent m st p a here addr (record (noted m st p a here addr) { upper = m ∷ st.upper }))
  unfolding set_peer
  step-fresh syn new = record {
    peers_are = length-set st.perfect.peers m.sender _ ∙ i.peers_are;
    addrs_are = i.addrs_are;
    heard =
        peer_at IsCurrent (record p { delivered = insert p.delivered (seq_num m) }) (heard_own syn)
          heard_other;
    once = once_fresh syn new;
  }

-- One arrival.
abbrev pub Good : ℕ → List Message → Run Log → Type 0
Good n ms run = (st : Log) × (run ≡ ok st) × IsUpToDate n ms st

pub step :
    (n : ℕ) (m : Message) (ms : List Message) (st : Log)
    → IsUpToDate n ms st
    → IsArrival n m
    → Good n (m ∷ ms) (deliver keep m st)
step n m ms st i v =
    let (p, here) = get_elem?-inside st.perfect.peers m.sender (rw i.peers_are v.0) in
    let (a, addr) = get_elem?-inside st.perfect.link.addrs m.sender (rw i.addrs_are v.0) in
    elim (Bool-cases (is_syn m)) [
      | inr ack ↦ (_, deliver-ack m st p a here addr ack, step-ack n m ms st i v p a here addr ack)
      | inl syn ↦ elim (Bool-cases (contains p.delivered (seq_num m))) [
        | inl old ↦
            (_, deliver-old m st p a here addr syn old, step-old n m ms st i v p a here addr old)
        | inr new ↦ (
          _,
          deliver-fresh m st p a here addr syn new,
          step-fresh n m ms st i v p a here addr syn new,
        )
      ]
    ]
