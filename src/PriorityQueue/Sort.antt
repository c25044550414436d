-- ===== src/PriorityQueue/Sort.antt =====
-- Lists that are sorted by a key, and those whose keys fill a range.
use cs451_2020_project.Base.{
  ℕ, zero, suc, ◌+◌, ◌≤◌, ◌<◌, ◌≡◌, refl, ap, ◌∙◌, ◌⊎◌, List, [], ◌∷◌, some, arith, length,
  get_elem?, All,
}
use cs451_2020_project.PriorityQueue.{
  sort_by, Increasing, Fresh, length-push, All-push, push-Increasing,
}

module _ {ℓ} {A : Type ℓ} (key : A → ℕ) where
  -- No key occurs twice.
  abbrev pub IsDistinct : List A → Type 0
  IsDistinct [] = Unit {0}
  IsDistinct (x ∷ xs) = Fresh key (key x) xs × IsDistinct xs

  pub length-sort_by : (xs : List A) → length (sort_by key xs) ≡ length xs
  unfolding sort_by
  length-sort_by [] = refl
  length-sort_by (x ∷ xs) = length-push key x (sort_by key xs) ∙ ap suc (length-sort_by xs)

  pub All-sort_by {κ} : (P : A → Type κ) (xs : List A) → All P xs → All P (sort_by key xs)
  unfolding sort_by
  All-sort_by P [] a = tt
  All-sort_by P (x ∷ xs) a = All-push key P x (sort_by key xs) a.0 (All-sort_by P xs a.1)

  pub sort_by-Increasing : (xs : List A) → IsDistinct xs → Increasing key (sort_by key xs)
  unfolding sort_by
  sort_by-Increasing [] d = tt
  sort_by-Increasing (x ∷ xs) d =
      push-Increasing key x (sort_by key xs)
        (All-sort_by (λ y. (key y < key x) ⊎ (key x < key y)) xs d.0) (sort_by-Increasing xs d.1)

  abbrev pub Within : ℕ → ℕ → A → Type 0
  Within lo size x = (lo ≤ key x) × (key x < lo + size)

  above :
      (k lo hi : ℕ) (xs : List A)
      → lo ≤ k
      → All (λ x. k < key x) xs
      → All (Within lo (suc hi)) xs
      → All (Within (suc lo) hi) xs
  above k lo hi [] l a b = tt
  above k lo hi (x ∷ xs) l a b = ((omega arith, omega arith), above k lo hi xs l a.1 b.1)

  -- Increasing keys in a range as long as the list fill it.
  pub position :
      (lo : ℕ) (xs : List A)
      → Increasing key xs
      → All (Within lo (length xs)) xs
      → (i : ℕ) (x : A) → get_elem? xs i ≡ some x
      → key x ≡ lo + i
  position lo [] inc a i x e = absurd (cc)
  position lo (y ∷ []) inc a zero x e =
      let same : y ≡ x = ground arith in omega (arith, ap key same, a.0.0, a.0.1)
  position lo (y ∷ []) inc a (suc i) x e = absurd (cc)
  position lo (y ∷ z ∷ zs) inc a zero x e =
      let same : y ≡ x = ground arith in
      let next =
        position (suc lo) (z ∷ zs) inc.1
          (above (key y) lo (length (z ∷ zs)) (z ∷ zs) a.0.0 inc.0 a.1) 0 z refl in
      omega (arith, ap key same, next, a.0.0, inc.0.0)
  position lo (y ∷ z ∷ zs) inc a (suc i) x e =
      let next =
        position (suc lo) (z ∷ zs) inc.1
          (above (key y) lo (length (z ∷ zs)) (z ∷ zs) a.0.0 inc.0 a.1) i x e in
      omega (arith, next)
