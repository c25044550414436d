-- ===== src/StaticVec/Laws.antt =====
-- The operations of code/src/include/static-vec.hpp as operations on the list of elements.
use mathlib.Core.Option
use cs451_2020_project.Base.{
  le→leb, suc, ◌+◌, ◌<◌, ◌≡◌, refl, ap, ◌∙◌, List, [], ◌∷◌, ◌++◌, none, some, arith, ltb, ltb→lt,
  if◌then◌else◌, Bool-cases, inl, inr, length, get_elem?, set, take, drop, take-append_le,
  length-append, length-take_le, take-set, get_elem?-set_above, u64_mod,
}
use cs451_2020_project.StaticVec.{StaticVec, copy, assign, push_back, pop_back, to_list, Fits}

module _ {ℓ} {A : Type ℓ} where
  -- A copy has the elements of the original, whatever the fresh memory held, and its array is as long
  -- as that memory.
  pub copy-Fits :
      (v : StaticVec A) (memory : List A)
      → Fits v
      → length memory ≡ length v.storage
      → (w : StaticVec A) × (copy v memory ≡ some w) × (to_list w ≡ to_list v) × Fits w
  unfolding copy
  copy-Fits v memory fits len = (
    record { storage = take v.sz v.storage ++ drop v.sz memory; sz = v.sz },
    rw (le→leb v.sz (length v.storage) fits) refl,
    take-append_le v.sz v.storage (drop v.sz memory) fits,
    omega (
      arith,
      length-append (take v.sz v.storage) (drop v.sz memory),
      length-take_le v.sz v.storage fits,
    ),
  )

  pub to_list-assign :
      (this v : StaticVec A)
      → Fits v
      → (w : StaticVec A) × (assign this v ≡ some w) × (to_list w ≡ to_list v)
  unfolding assign
  to_list-assign this v fits = (
    record { storage = take v.sz v.storage ++ drop v.sz this.storage; sz = v.sz },
    rw (le→leb v.sz (length v.storage) fits) refl,
    take-append_le v.sz v.storage (drop v.sz this.storage) fits,
  )

  -- `push_back` appends the element while there is room, and fails when there is none.
  pub push_back_lem :
      (v : StaticVec A) (item : A)
      → Option.map to_list (push_back v item)
        ≡ (if ltb v.sz (length v.storage) then some (to_list v ++ item ∷ []) else none)
  unfolding push_back
  push_back_lem v item = elim (Bool-cases (ltb v.sz (length v.storage))) [
    | inl room ↦ rw room (
        let longer : v.sz + 1 ≡ suc v.sz = omega arith in
        ap some (
          ap (λ n. take n (set v.storage v.sz item)) longer
          ∙ take-set v.sz v.storage item (ltb→lt v.sz (length v.storage) room)))
    | inr full ↦ rw full refl
  ]

  -- After a `push_back` that has room, on less than 2 ^ 64 - 1 elements, `pop_back` sets the size back
  -- but returns what lies behind the element pushed, and fails at the end of the array.
  pub pop_back-push_back :
      (v w : StaticVec A) (item : A)
      → push_back v item ≡ some w
      → v.sz + 1 < u64_mod
      → pop_back w
        ≡ Option.map (λ stale. (stale, record w { sz = v.sz })) (get_elem? v.storage (v.sz + 1))
  unfolding push_back pop_back
  pop_back-push_back v w item h small =
      ground (arith, get_elem?-set_above v.storage v.sz (v.sz + 1) item)
