-- ===== src/Args/Checked.antt =====
-- `Parser` of code/src/include/parser.hpp as its callers see it: what it answers before `parse` has been
-- called, and after.
use cs451_2020_project.Base.{ℕ, Bool, true, false, List, Option, none, some, if◌then◌else◌}
use cs451_2020_project.Hosts.{Host}
use cs451_2020_project.Args.{Text, Parser, parse_internal}
use cs451_2020_project.Args

pub record Checked : Type 0 where
  pub members : Parser
  pub with_config : Bool
  pub parsed : Bool

-- A method that may throw.
pub data Got {ℓ} (A : Type ℓ) : Type ℓ where
  got : A → Got A
  not_parsed : Got A
  ignores_config : Got A

-- The constructor, which leaves the members as the memory has them.
unfoldable pub new_parser : Bool → Parser → Checked
new_parser with_config members = record {
  members = members;
  with_config = with_config;
  parsed = false;
}

-- `none`: `help` prints how the program is used, and exits.
unfoldable pub parse : (Text → Host) → List Text → Checked → Option Checked
parse read_host argv p = elim (parse_internal read_host p.with_config argv p.members) [
  | none ↦ none
  | some members ↦ some (record p { members = members; parsed = true })
]

unfoldable pub check_parsed {ℓ} : {A : Type ℓ} → Checked → A → Got A
check_parsed p a = if p.parsed then got a else not_parsed

unfoldable pub index : Checked → Got ℕ
unfolding check_parsed Args.index
index p = check_parsed p (Args.index p.members)

unfoldable pub id : Checked → Got ℕ
unfolding check_parsed
id p = check_parsed p p.members.id

unfoldable pub hosts_path : Checked → Got Text
unfolding check_parsed
hosts_path p = check_parsed p p.members.hosts_path

unfoldable pub barrier : Checked → Got Host
unfolding check_parsed
barrier p = check_parsed p p.members.barrier

unfoldable pub signal : Checked → Got Host
unfolding check_parsed
signal p = check_parsed p p.members.signal

unfoldable pub output_path : Checked → Got Text
unfolding check_parsed
output_path p = check_parsed p p.members.output_path

unfoldable pub config_path : Checked → Got Text
unfolding check_parsed
config_path p =
    if p.parsed
    then (if p.with_config then got p.members.config_path else ignores_config)
    else not_parsed
