-- ===== src/Broadcast/Uniform/Quorum.antt =====
-- `deliver` of code/src/src/uniform-reliable-broadcast.cpp on a message that has not gone up: who is
-- counted, and when it goes up. The observer is one that keeps what it is given.
use cs451_2020_project.Base.{
  ℕ, suc, ◌/◌, ◌<◌, ◌≡◌, refl, ap, ◌∙◌, true, false, List, ◌∷◌, some, ltb, lt→ltb, get_elem?, set,
  update, Run, ok, ◌>>=◌,
}
use cs451_2020_project.Message.{Message, max_processes}
use cs451_2020_project.RollingSet.{RollingBitset, insert, contains}
use cs451_2020_project.Link.Perfect.{Stack}
use cs451_2020_project.Broadcast.Uniform.{
  Uniform, Upper, insert_in, contains_in, record_ack, has_quorum, try_deliver, relay, deliver,
}
use cs451_2020_project.Broadcast.Uniform.Ack.{
  ack_bits, ack_put, ack_touch, ack_erase, count, ack_bits-touch,
}

-- An observer that keeps what it is given, the last message first.
abbrev pub recorder : Message → List Message → Run (List Message)
recorder m l = ok (m ∷ l)

abbrev pub Node : Type 0
Node = Stack (Upper (List Message))

abbrev pub at_upper : Node → Uniform → List Message → Node
at_upper st u l = record st { upper = record { urb = u; top = l } }

abbrev pub acked : Uniform → Message → Uniform
acked u m = record u { ack = ack_put u.ack m (update (ack_bits u.ack m) m.sender true) }

module _ (u : Uniform) (l : List Message) (st : Node) (m : Message)
    (above : st.upper ≡ record { urb = u; top = l }) where
  pub try_deliver-quorum :
      (d : RollingBitset)
      → get_elem? u.delivered m.originator ≡ some d
      → ltb (u.num_processes / 2) (count (ack_bits u.ack m)) ≡ true
      → try_deliver recorder m st
        ≡ ok (
            at_upper st
              (record u {
                ack = ack_erase (ack_touch u.ack m) m;
                delivered = set u.delivered m.originator (insert d m.bcast_seq_num);
              })
              (m ∷ l))
  unfolding try_deliver has_quorum insert_in
  try_deliver-quorum d ed q = rw (above, ack_bits-touch u.ack m m, q, ed) refl

  pub try_deliver-wait :
      ltb (u.num_processes / 2) (count (ack_bits u.ack m)) ≡ false
      → try_deliver recorder m st ≡ ok (at_upper st (record u { ack = ack_touch u.ack m }) l)
  unfolding try_deliver has_quorum insert_in
  try_deliver-wait q = rw (above, ack_bits-touch u.ack m m, q) refl

pub contains_in_lem :
    (sets : List RollingBitset) (m : Message) (s : RollingBitset)
    → get_elem? sets m.originator ≡ some s
    → contains_in sets m ≡ ok (contains s m.bcast_seq_num)
unfolding contains_in
contains_in_lem sets m s e = rw e refl

record_ack_lem :
    (u : Uniform) (m : Message) → m.sender < max_processes → record_ack u m ≡ ok (acked u m)
unfolding record_ack
record_ack_lem u m h = rw (lt→ltb m.sender max_processes h) refl

relay-known :
    (again : Message → Node → Run Node) (m : Message) (st : Node)
    → contains_in st.upper.urb.pending m ≡ ok true
    → relay recorder again m st ≡ ok st
unfolding relay
relay-known again m st e = rw e refl

module _ (u : Uniform) (l : List Message) (st : Node) (m : Message) (d : RollingBitset)
    (above : st.upper ≡ record { urb = u; top = l })
    (ed : get_elem? u.delivered m.originator ≡ some d) (new : contains d m.bcast_seq_num ≡ false)
    (small : m.sender < max_processes) where
  pub deliver-new :
      (depth : ℕ)
      → deliver recorder (suc depth) m st ≡ (
          relay recorder (deliver recorder depth) m (at_upper st (acked u m) l)
          >>= try_deliver recorder m)
  unfolding deliver
  deliver-new depth =
      rw (above, contains_in_lem u.delivered m d ed, new, record_ack_lem u m small) refl

  -- A message that is pending is counted, and not sent on.
  pub deliver-known :
      (depth : ℕ) (p : RollingBitset)
      → get_elem? u.pending m.originator ≡ some p
      → contains p m.bcast_seq_num ≡ true
      → deliver recorder (suc depth) m st ≡ try_deliver recorder m (at_upper st (acked u m) l)
  deliver-known depth p ep known =
      deliver-new depth
      ∙ ap (λ r. r >>= try_deliver recorder m)
          (relay-known (deliver recorder depth) m (at_upper st (acked u m) l)
            (contains_in_lem u.pending m p ep ∙ ap ok known))
