-- ===== src/Args/Shape.antt =====
-- Which command lines `Parser` of code/src/include/parser.hpp takes.
use cs451_2020_project.Base.{
  ℕ, ◌≤◌, ◌<◌, ◌≡◌, refl, Bool, true, false, ◌&&◌, List, ◌∷◌, none, some, arith, ltb, lt→ltb, leb,
  if◌then◌else◌, length, u64_mod,
}
use cs451_2020_project.Base.Decimal.{
  read_from, print_number, read-print_number, all_digits-print_number, is_empty-print_number,
}
use cs451_2020_project.Hosts.{Host}
use cs451_2020_project.Args.{
  Text, same_text, Parser, id_flag, hosts_flag, barrier_flag, signal_flag, output_flag, arg,
  is_positive_number, replace_colons, parse_internal,
}

is_positive_number-print_number : (n : ℕ) → is_positive_number (print_number n) ≡ true
unfolding is_positive_number
is_positive_number-print_number n = rw (is_empty-print_number n, all_digits-print_number n) refl

-- The documented command line, with a process identifier of 64 bits in decimal, is taken, whatever
-- follows it, and every field has its argument.
pub parse_internal-printed :
    (read_host : Text → Host) (p : Parser) (n : ℕ)
    (program hosts barrier signal output config : Text) (rest : List Text)
    → n < u64_mod
    → parse_internal read_host true
        (program
          ∷ id_flag
          ∷ print_number n
          ∷ hosts_flag
          ∷ hosts
          ∷ barrier_flag
          ∷ barrier
          ∷ signal_flag
          ∷ signal
          ∷ output_flag
          ∷ output
          ∷ config
          ∷ rest)
        p
      ≡ some (record {
        id = n;
        hosts_path = hosts;
        barrier = record (read_host (replace_colons barrier)) { id = 0 };
        signal = record (read_host (replace_colons signal)) { id = 0 };
        output_path = output;
        config_path = config;
      })
unfolding parse_internal
parse_internal-printed read_host p n program hosts barrier signal output config rest h =
    let argv : List Text =
      program
      ∷ id_flag
      ∷ print_number n
      ∷ hosts_flag
      ∷ hosts
      ∷ barrier_flag
      ∷ barrier
      ∷ signal_flag
      ∷ signal
      ∷ output_flag
      ∷ output
      ∷ config
      ∷ rest in
    let enough : (k : ℕ) → k ≤ 12 → ltb (length argv) k ≡ false = λ k le. ground arith in
    rw
      (
        enough 3 (omega arith),
        is_empty-print_number n,
        all_digits-print_number n,
        read-print_number n h,
        lt→ltb n u64_mod h,
        enough 5 (omega arith),
        enough 7 (omega arith),
        enough 9 (omega arith),
        enough 11 (omega arith),
        enough 12 (omega arith),
      )
      refl

-- All that is asked of a command line at once: enough arguments, the flags in their places, and an
-- identifier of digits that fits 64 bits.
pub is_accepted : List Text → Bool
is_accepted argv =
    leb 12 (length argv)
    && (same_text (arg argv 1) id_flag
        && (is_positive_number (arg argv 2)
            && (ltb (read_from 0 (arg argv 2)) u64_mod
                && (same_text (arg argv 3) hosts_flag
                    && (same_text (arg argv 5) barrier_flag
                        && (same_text (arg argv 7) signal_flag
                            && same_text (arg argv 9) output_flag))))))

-- With a configuration file the six steps of the parser take exactly the command lines that are
-- accepted, and each field has the argument at its place.
pub parse_internal-is_accepted :
    (read_host : Text → Host) (argv : List Text) (p : Parser)
    → parse_internal read_host true argv p ≡ (
        if is_accepted argv
        then some (record {
          id = read_from 0 (arg argv 2);
          hosts_path = arg argv 4;
          barrier = record (read_host (replace_colons (arg argv 6))) { id = 0 };
          signal = record (read_host (replace_colons (arg argv 8))) { id = 0 };
          output_path = arg argv 10;
          config_path = arg argv 11;
        })
        else none)
unfolding parse_internal is_accepted
parse_internal-is_accepted read_host argv p = ground arith
