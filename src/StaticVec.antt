-- ===== src/StaticVec.antt =====
-- code/src/include/static-vec.hpp: a vector in a fixed array. The array is a list of fixed length,
-- the capacity; an access outside the array, which C++ leaves undefined, is `none`.
pub mod Laws
pub mod Tests
use cs451_2020_project.Base.{
  leb, ℕ, suc, ◌+◌, ◌-◌, ◌%◌, ◌≤◌, List, ◌++◌, Option, none, some, ltb, if◌then◌else◌, length,
  get_elem?, set, take, drop, replicate, u64_mod,
}

pub record StaticVec {ℓ} (A : Type ℓ) : Type ℓ where
  pub storage : List A
  pub sz : ℕ

module _ {ℓ} {A : Type ℓ} where
  -- `StaticVec(std::size_t size)`, with `T{}` as `zero_value`
  unfoldable pub new : ℕ → A → ℕ → StaticVec A
  new cap zero_value size = record { storage = replicate cap zero_value; sz = size }

  -- The copy and move constructors: the array starts as whatever was in memory, and `memcpy` brings
  -- the first `sz` elements. A size beyond the array is `none`.
  pub copy : StaticVec A → List A → Option (StaticVec A)
  copy v memory =
      if leb v.sz (length v.storage)
      then some (record { storage = take v.sz v.storage ++ drop v.sz memory; sz = v.sz })
      else none

  -- The copy and move assignments.
  pub assign : StaticVec A → StaticVec A → Option (StaticVec A)
  assign this v =
      if leb v.sz (length v.storage)
      then some (record { storage = take v.sz v.storage ++ drop v.sz this.storage; sz = v.sz })
      else none

  unfoldable pub push_back : StaticVec A → A → Option (StaticVec A)
  push_back v item =
      if ltb v.sz (length v.storage)
      then some (record { storage = set v.storage v.sz item; sz = v.sz + 1 })
      else none

  -- `return storage[sz--];`
  pub pop_back : StaticVec A → Option (A × StaticVec A)
  pop_back v = elim (get_elem? v.storage v.sz) [
    | none ↦ none
    | some a ↦ some (a, record v { sz = (v.sz + u64_mod - 1) % u64_mod })
  ]

  abbrev pub force_set_size : StaticVec A → ℕ → StaticVec A
  force_set_size v size = record v { sz = size }

  -- `operator[]`
  abbrev pub index : StaticVec A → ℕ → Option A
  index v i = get_elem? v.storage i

  -- The elements from `begin()` to `end()`.
  abbrev pub to_list : StaticVec A → List A
  to_list v = take v.sz v.storage

  -- The size is within the array.
  abbrev pub Fits : StaticVec A → Type 0
  Fits v = v.sz ≤ length v.storage
