-- ===== src/Process/Traffic.antt =====
-- What comes to a process and what it sends, and the entry of the configuration that it needs.
use cs451_2020_project.Base.{ℕ, ◌≤◌, ◌<◌, ◌≡◌, true, Bool, List, some, length, get_elem?, All}
use cs451_2020_project.StaticVec.{to_list}
use cs451_2020_project.Message.{Message, max_processes}
use cs451_2020_project.Config.{Dependency}
use cs451_2020_project.Link.SeqNum.{is_syn, set_ack}
use cs451_2020_project.Broadcast.Uniform.Ack.{SameBroadcast}
use cs451_2020_project.Broadcast.Uniform.Links.{Stamps}
use cs451_2020_project.Process.Causality.{IsSendable}

-- The entry of the process `id`: it names processes below 128, at most 128 of them.
pub record IsConfigured (id : ℕ) (deps : List Dependency) : Type 0 where
  pub dep : Dependency
  pub mine : get_elem? deps id ≡ some dep
  pub known : All (λ p. p < max_processes) (to_list dep.depends)
  pub room : length (to_list dep.depends) ≤ max_processes

-- A packet from a known process: an acknowledgement, or a message that processes with the
-- configuration `deps` send.
pub record IsPacket (n : ℕ) (deps : List Dependency) (m : Message) : Type 0 where
  pub from : m.sender < n
  pub sendable : is_syn m ≡ true → IsSendable n deps m

-- A message in shape that has been heard of.
abbrev pub IsGood : ℕ → List Dependency → (Message → Bool) → Message → Type 0
IsGood n deps heard m = IsSendable n deps m × (heard m ≡ true)

-- What is on its way satisfies `IsFine`: it comes from a known process, and a message that is no
-- acknowledgement is good. Good messages and acknowledgements that are sent satisfy it.
pub record IsTraffic (n : ℕ) (deps : List Dependency) (heard : Message → Bool)
    (IsFine : Message → Type 0) : Type 0 where
  pub same :
      (m m' : Message)
      → SameBroadcast m' m
      → m'.vector_clock ≡ m.vector_clock
      → heard m ≡ true
      → heard m' ≡ true
  pub from : (m : Message) → IsFine m → m.sender < n
  pub good : (m : Message) → IsFine m → is_syn m ≡ true → IsGood n deps heard m
  pub stamps : (id : ℕ) (m : Message) → id < n → IsGood n deps heard m → Stamps IsFine id m
  pub acks :
      (id : ℕ) (m : Message)
      → id < n
      → IsFine m
      → is_syn m ≡ true
      → IsFine (record (set_ack m) { sender = id })
