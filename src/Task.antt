-- ===== src/Task.antt =====
-- `Task` of code/src/include/task.hpp: a thread whose function is a loop that tests a token, as those of
-- code/src/src/perfect-link.cpp and code/src/src/main.cpp are.
pub mod Ends
use cs451_2020_project.Base.{
  ℕ, zero, suc, ◌+◌, Bool, true, false, ◌&&◌, List, if◌then◌else◌, Run, ok, fault, out_of_fuel,
  ◌>>=◌,
}

-- What a `std::thread` stands for: no thread, one that is in its loop and has made some passes, or one
-- whose function has returned.
pub data Handle {ℓ} (S : Type ℓ) : Type ℓ where
  no_thread : Handle S
  looping : ℕ → S → Handle S
  returned : ℕ → S → Handle S

pub record Task {ℓ} (S : Type ℓ) : Type ℓ where
  pub cancelled : Bool
  pub handle : Handle S

-- `Task() = default`
unfoldable pub new_task {ℓ} : (S : Type ℓ) → Task S
new_task S = record { cancelled = false; handle = no_thread }

-- `Task(Fn&& fn)`: the thread starts with the local variables `s`.
unfoldable pub start_task {ℓ} : {S : Type ℓ} → S → Task S
start_task s = record { cancelled = false; handle = looping 0 s }

unfoldable pub cancel {ℓ} : {S : Type ℓ} → Task S → Task S
cancel t = record t { cancelled = true }

-- `handle.join()`: it throws where there is no thread, and waits for one that has not returned.
pub data Joined {ℓ} (S : Type ℓ) : Type ℓ where
  joined : ℕ → S → Task S → Joined S
  waits : Joined S
  throws : Joined S

unfoldable pub join {ℓ} : {S : Type ℓ} → Task S → Joined S
join t = elim t.handle [
  | no_thread ↦ throws
  | looping n s ↦ waits
  | returned n s ↦ joined n s (record t { handle = no_thread })
]

-- What the destructor comes to.
pub data Destroyed {ℓ} (S : Type ℓ) : Type ℓ where
  gone : ℕ → S → Destroyed S
  terminates : Destroyed S  -- an exception leaves a destructor

-- `body` is what the loop does between two tests, in its pass `n`; `visible n` says whether a store to
-- the token has got to the thread by its test `n`.
module _ {ℓ} {S : Type ℓ} (body : ℕ → S → Run S) (visible : ℕ → Bool) where
  -- One test of the thread, and the pass that it lets happen.
  unfoldable pub advance : Task S → Run (Task S)
  advance t = elim t.handle [
    | no_thread ↦ ok t
    | looping n s ↦
        if t.cancelled && visible n
        then ok (record t { handle = returned n s })
        else (body n s >>= λ s'. ok (record t { handle = looping (n + 1) s' }))
    | returned n s ↦ ok t
  ]

  -- `join` with the thread running on while it waits.
  unfoldable pub wait_for : ℕ → Task S → Run (Destroyed S)
  unfolding join advance
  wait_for zero t = elim (join t) [
    | throws ↦ ok terminates
    | joined n s t' ↦ ok (gone n s)
    | waits ↦ out_of_fuel
  ]
  wait_for (suc rounds) t = elim (join t) [
    | throws ↦ ok terminates
    | joined n s t' ↦ ok (gone n s)
    | waits ↦ advance t >>= wait_for rounds
  ]

  -- `~Task()`
  unfoldable pub destroy : ℕ → Task S → Run (Destroyed S)
  unfolding cancel wait_for
  destroy rounds t = wait_for rounds (cancel t)
