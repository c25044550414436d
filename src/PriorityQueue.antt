-- ===== src/PriorityQueue.antt =====
-- `std::priority_queue` as the program uses it, with the least key on top. Of entries with one key
-- the standard leaves open which comes first; here it is the oldest.
pub mod Sort
use cs451_2020_project.Base.{
  ℕ, suc, ◌<◌, ◌≡◌, refl, List, [], ◌∷◌, arith, ltb, if◌then◌else◌, length, All, Bool-cases, inl,
  inr, ◌⊎◌, ltb→lt,
}

module _ {ℓ} {A : Type ℓ} (key : A → ℕ) where
  unfoldable pub push : A → List A → List A
  push x [] = x ∷ []
  push x (y ∷ ys) = if ltb (key x) (key y) then x ∷ y ∷ ys else y ∷ push x ys

  -- `std::sort` by the key; which of two equal ones is first is left open there.
  unfoldable pub sort_by : List A → List A
  unfolding push
  sort_by [] = []
  sort_by (x ∷ xs) = push x (sort_by xs)

  pub length-push : (x : A) (h : List A) → length (push x h) ≡ suc (length h)
  unfolding push
  length-push x [] = refl
  length-push x (y ∷ ys) = ground (arith, length-push x ys)

  pub All-push {κ} : (P : A → Type κ) (x : A) (h : List A) → P x → All P h → All P (push x h)
  unfolding push
  All-push P x [] p a = (p, tt)
  All-push P x (y ∷ ys) p a = elim (Bool-cases (ltb (key x) (key y))) [
    | inl e ↦ rw e (p, a)
    | inr e ↦ rw e (a.0, All-push P x ys p a.1)
  ]

  -- Strictly increasing keys: no two entries share one.
  abbrev pub Increasing : List A → Type 0
  Increasing [] = Unit {0}
  Increasing (x ∷ xs) = All (λ y. key x < key y) xs × Increasing xs

  -- The key is not among those of the queue.
  abbrev pub Fresh : ℕ → List A → Type 0
  Fresh k = All (λ y. (key y < k) ⊎ (k < key y))

  pub push-Increasing :
      (x : A) (h : List A) → Fresh (key x) h → Increasing h → Increasing (push x h)
  unfolding push
  push-Increasing x [] f i = (tt, tt)
  push-Increasing x (y ∷ ys) f i = elim (Bool-cases (ltb (key x) (key y))) [
    | inl e ↦ rw e ((ltb→lt (key x) (key y) e, All-trans ys (ltb→lt (key x) (key y) e) i.0), i)
    | inr e ↦
        rw e (
          All-push (λ z. key y < key z) x ys (ground (arith, f.0)) i.0,
          push-Increasing x ys f.1 i.1,
        )
  ]
    where
      All-trans :
          {a b : A} (zs : List A)
          → key a < key b
          → All (λ z. key b < key z) zs
          → All (λ z. key a < key z) zs
      All-trans [] l h = tt
      All-trans (z ∷ zs) l h = (omega arith, All-trans zs l h.1)
