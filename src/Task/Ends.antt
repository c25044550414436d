-- ===== src/Task/Ends.antt =====
-- When the destructor of code/src/include/task.hpp ends.
use cs451_2020_project.Base.{
  ℕ, zero, suc, ◌+◌, ◌≤◌, ◌≡◌, refl, subst, inl, inr, Bool, true, arith, Bool-cases, Run, ok,
}
use cs451_2020_project.Task.{
  Task, looping, new_task, start_task, gone, terminates, cancel, join, advance, wait_for, destroy,
}

-- A task without a thread must not be destroyed.
pub destroy-new_task {ℓ} :
    (S : Type ℓ) (body : ℕ → S → Run S) (visible : ℕ → Bool) (rounds : ℕ)
    → destroy body visible rounds (new_task S) ≡ ok terminates
unfolding destroy new_task cancel wait_for join
destroy-new_task S body visible zero = refl
destroy-new_task S body visible (suc rounds) = refl

module _ {ℓ κ} {S : Type ℓ} (body : ℕ → S → Run S) (visible : ℕ → Bool) (Holds : S → Type κ)
    (body-Holds : (n : ℕ) (s : S) → Holds s → (s' : S) × (body n s ≡ ok s') × Holds s') where
  abbrev in_loop : ℕ → S → Task S
  in_loop n s = record { cancelled = true; handle = looping n s }

  wait_for-gone :
      (left n : ℕ) (s : S)
      → Holds s
      → visible (n + left) ≡ true
      → (m : ℕ) × (s' : S) × (wait_for body visible (suc left) (in_loop n s) ≡ ok (gone m s'))
        × (m ≤ n + left)
        × Holds s'
  unfolding wait_for join advance
  wait_for-gone zero n s h seen =
      let now : visible n ≡ true = subst (λ k. visible k ≡ true) (omega arith) seen in
      (n, s, rw now refl, omega arith, h)
  wait_for-gone (suc left) n s h seen = elim (Bool-cases (visible n)) [
    | inl now ↦ (n, s, rw now refl, omega arith, h)
    | inr later ↦
        let (s', run, h') = body-Holds n s h in
        let (m, s'', end, within, h'') =
          wait_for-gone left (n + 1) s' h' (subst (λ k. visible k ≡ true) (omega arith) seen) in
        (m, s'', rw (later, run) end, omega (arith, within), h'')
  ]

  -- The passes of the thread keep `Holds`, and none faults. If the store to the token is visible at some
  -- test of the thread, the destructor of its task ends, after at most the passes before that test.
  pub destroy-gone :
      (left : ℕ) (s : S)
      → Holds s
      → visible left ≡ true
      → (m : ℕ) × (s' : S) × (destroy body visible (suc left) (start_task s) ≡ ok (gone m s'))
        × (m ≤ left)
        × Holds s'
  unfolding destroy start_task cancel
  destroy-gone left s h seen =
      let (m, s', end, within, h') =
        wait_for-gone left 0 s h (subst (λ k. visible k ≡ true) (omega arith) seen) in
      (m, s', end, omega (arith, within), h')
