-- ===== src/Args/Tests.antt =====
-- Examples for the command line.
use cs451_2020_project.Base.{◌≡◌, refl, true, List, [], ◌∷◌, some, none, arith, if◌then◌else◌}
use cs451_2020_project.Base.Decimal.{print_number, read_from}
use cs451_2020_project.Hosts.{Host}
use cs451_2020_project.Args.{
  Text, Parser, id_flag, hosts_flag, barrier_flag, signal_flag, output_flag, arg, replace_colons,
  parse_internal, index,
}
use cs451_2020_project.Args.Shape.{is_accepted, parse_internal-printed, parse_internal-is_accepted}

abbrev local_host : Host
local_host = record { id = 0; ip = 1; port = 11000 }

abbrev parser : Parser
parser = record {
  id = 0;
  hosts_path = [];
  barrier = local_host;
  signal = local_host;
  output_path = [];
  config_path = [];
}

abbrev address : Text
address = b'h' ∷ b':' ∷ b'1' ∷ []

abbrev path : Text
path = b'f' ∷ []

abbrev read_host : Text → Host
read_host _ = local_host

abbrev command_line : List Text
command_line =
    path
    ∷ id_flag
    ∷ print_number 12
    ∷ hosts_flag
    ∷ path
    ∷ barrier_flag
    ∷ address
    ∷ signal_flag
    ∷ address
    ∷ output_flag
    ∷ path
    ∷ path
    ∷ []

abbrev filled : Parser
filled = record parser { id = 12; hosts_path = path; output_path = path; config_path = path }

parse_internal-printed_example : parse_internal read_host true command_line parser ≡ some filled
parse_internal-printed_example =
    parse_internal-printed read_host parser 12 path path address address path path [] (omega arith)

parse_internal-is_accepted_example : parse_internal read_host true command_line parser ≡ (
    if is_accepted command_line
    then some (record {
      id = read_from 0 (arg command_line 2);
      hosts_path = arg command_line 4;
      barrier = record (read_host (replace_colons (arg command_line 6))) { id = 0 };
      signal = record (read_host (replace_colons (arg command_line 8))) { id = 0 };
      output_path = arg command_line 10;
      config_path = arg command_line 11;
    })
    else none)
parse_internal-is_accepted_example = parse_internal-is_accepted read_host command_line parser

replace_colons_example : replace_colons address ≡ b'h' ∷ b' ' ∷ b'1' ∷ []
unfolding replace_colons
replace_colons_example = refl

index_example : index filled ≡ 11
unfolding index
index_example = refl

-- Identifier 0 is taken for process 255.
index-wraps_example : index parser ≡ 255
unfolding index
index-wraps_example = refl
