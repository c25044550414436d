-- ===== src/Args.antt =====
-- The command line: `Parser` of code/src/include/parser.hpp. A text is the list of its characters. The
-- streams and the system turn the text of a host, with a blank in place of the colon, into a host; a
-- name that they cannot look up ends the program, and is left out here.
pub mod Checked
pub mod Shape
pub mod Tests
use cs451_2020_project.Base.{
  ℕ, zero, suc, ◌+◌, ◌-◌, ◌%◌, ◌^◌, Bool, true, false, not, ◌&&◌, List, [], ◌∷◌, Option, none, some,
  ltb, ◌==◌, if◌then◌else◌, length, get_or, u64_mod,
}
use cs451_2020_project.Base.Decimal.{read_from, is_digit, all_digits, is_empty}
use cs451_2020_project.Hosts.{Host}

abbrev pub Text : Type 0
Text = List ℕ

-- `std::strcmp(a, b) == 0`
abbrev pub same_text : Text → Text → Bool
same_text [] [] = true
same_text (a ∷ as') (b ∷ bs) = a == b && same_text as' bs
same_text _ _ = false

-- What the arguments say.
pub record Parser : Type 0 where
  pub id : ℕ
  pub hosts_path : Text
  pub barrier : Host
  pub signal : Host
  pub output_path : Text
  pub config_path : Text

abbrev pub id_flag : Text
id_flag = b'-' ∷ b'-' ∷ b'i' ∷ b'd' ∷ []

abbrev pub hosts_flag : Text
hosts_flag = b'-' ∷ b'-' ∷ b'h' ∷ b'o' ∷ b's' ∷ b't' ∷ b's' ∷ []

abbrev pub barrier_flag : Text
barrier_flag = b'-' ∷ b'-' ∷ b'b' ∷ b'a' ∷ b'r' ∷ b'r' ∷ b'i' ∷ b'e' ∷ b'r' ∷ []

abbrev pub signal_flag : Text
signal_flag = b'-' ∷ b'-' ∷ b's' ∷ b'i' ∷ b'g' ∷ b'n' ∷ b'a' ∷ b'l' ∷ []

abbrev pub output_flag : Text
output_flag = b'-' ∷ b'-' ∷ b'o' ∷ b'u' ∷ b't' ∷ b'p' ∷ b'u' ∷ b't' ∷ []

-- `argv[i]`, below a test of `argc`.
abbrev pub arg : List Text → ℕ → Text
arg argv i = get_or argv i []

pub is_positive_number : Text → Bool
unfolding all_digits
is_positive_number s = not (is_empty s) && all_digits s

-- `std::stoul` of digits; out of range is an exception, which is caught.
pub parse_id : List Text → Parser → Option Parser
unfolding is_positive_number read_from
parse_id argv p =
    if ltb (length argv) 3
    then none
    else (if same_text (arg argv 1) id_flag && is_positive_number (arg argv 2)
        then (if ltb (read_from 0 (arg argv 2)) u64_mod
            then some (record p { id = read_from 0 (arg argv 2) })
            else none)
        else none)

pub parse_host_path : List Text → Parser → Option Parser
parse_host_path argv p =
    if ltb (length argv) 5
    then none
    else (if same_text (arg argv 3) hosts_flag
        then some (record p { hosts_path = arg argv 4 })
        else none)

-- `std::replace(s.begin(), s.end(), ':', ' ')`
pub replace_colons : Text → Text
replace_colons [] = []
replace_colons (c ∷ cs) = (if c == b':' then b' ' else c) ∷ replace_colons cs

module _ (read_host : Text → Host) where
  pub parse_barrier : List Text → Parser → Option Parser
  unfolding replace_colons
  parse_barrier argv p =
      if ltb (length argv) 7
      then none
      else (if same_text (arg argv 5) barrier_flag
          then some
              (record p { barrier = record (read_host (replace_colons (arg argv 6))) { id = 0 } })
          else none)

  pub parse_signal : List Text → Parser → Option Parser
  unfolding replace_colons
  parse_signal argv p =
      if ltb (length argv) 9
      then none
      else (if same_text (arg argv 7) signal_flag
          then some
              (record p { signal = record (read_host (replace_colons (arg argv 8))) { id = 0 } })
          else none)

pub parse_output_path : List Text → Parser → Option Parser
parse_output_path argv p =
    if ltb (length argv) 11
    then none
    else (if same_text (arg argv 9) output_flag
        then some (record p { output_path = arg argv 10 })
        else none)

pub parse_config_path : Bool → List Text → Parser → Option Parser
parse_config_path with_config argv p =
    if with_config
    then (if ltb (length argv) 12 then none else some (record p { config_path = arg argv 11 }))
    else some p

infixl 5 ◌>>=◌
abbrev ◌>>=◌ : Option Parser → (Parser → Option Parser) → Option Parser
none >>= f = none
some p >>= f = f p

-- `none`: `parse` prints how the program is used, and exits.
pub parse_internal : (Text → Host) → Bool → List Text → Parser → Option Parser
unfolding parse_id parse_host_path parse_barrier parse_signal parse_output_path parse_config_path
parse_internal read_host with_config argv p =
    parse_id argv p
    >>= parse_host_path argv
    >>= parse_barrier read_host argv
    >>= parse_signal read_host argv
    >>= parse_output_path argv
    >>= parse_config_path with_config argv

-- `index()`, an `unsigned char`.
unfoldable pub index : Parser → ℕ
index p = (p.id + 255) % 256
