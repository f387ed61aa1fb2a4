-- ===== src/Tests/Cli.antt =====
-- Runs of the command line, and its theorems at concrete inputs.
use lft.Base.{
  ◌≡◌, refl, true, false, List, [], ◌∷◌, some, arith, Bytes, codes, equal, cut_at, starts_with,
}
use lft.Wire.Name.{is_space, trim_front}
use lft.Wire.Number.{print_u64, scan_digits, is_digit}
use lft.Cli.Flags.{
  Flags, find, emplace, is_no_flag, parse_from, parse_flags, reject_unknown_flags, is_allowed,
  flag_or,
}
use lft.Cli.Flags.RoundTrip.{Spelling, spell, parse_flags-spell}
use lft.Cli.Port.{parse_port, strtol, strtol_signed, strtol_digits, parse_port-print_u64}
use lft.Cli.Commands.{
  CliEnv, main, run_send, run_recv, connect_and_send, send_at, send_to, send_with,
}
use lft.Cli.Commands.SendOutcome.{IsSendOutcome}
use lft.Cli.Commands.SendExit.{run_send-IsSendOutcome}
use lft.Cli.Commands.RecvExit.{IsRecvOutcome, run_recv-IsRecvOutcome}

-- Everything is there, and every call succeeds.
abbrev env : CliEnv
env = record {
  exists = λ path. true;
  is_directory = λ path. equal path (codes "downloads");
  server_start = λ port. true;
  receive_file = λ dir. (true, false);
  find_by_name = λ name. some (codes "10.0.0.7", 53317);
  connect = λ host port. true;
  send_file = λ path. (true, false);
}

abbrev send_args : List Bytes
send_args = codes "--host=10.0.0.7" ∷ codes "--file" ∷ codes "a.txt" ∷ []

abbrev recv_args : List Bytes
recv_args = codes "--out" ∷ codes "downloads" ∷ []

abbrev send_parsed : Flags
send_parsed = (codes "host", codes "10.0.0.7") ∷ (codes "file", codes "a.txt") ∷ []

parses : parse_flags send_args ≡ some send_parsed
unfolding parse_flags parse_from is_no_flag starts_with cut_at emplace find equal
parses = refl

abbrev spellings : List Spelling
spellings =
    record { key = codes "host"; value = codes "10.0.0.7"; joined = true }
    ∷ record { key = codes "file"; value = codes "a.txt"; joined = false }
    ∷ []

parse_flags-spell_example : parse_flags (spell spellings) ≡ some send_parsed
unfolding find equal
parse_flags-spell_example = parse_flags-spell spellings (ground arith)

parse_port-print_u64_example : parse_port (print_u64 53317) ≡ some 53317
parse_port-print_u64_example = parse_port-print_u64 53317 (omega arith) (omega arith)

-- White space and a sign pass.
parse_port-space : parse_port (codes " +80") ≡ some 80
unfolding parse_port strtol strtol_signed strtol_digits trim_front is_space scan_digits is_digit
    equal
parse_port-space = refl

sends : (main env (codes "send" ∷ send_args)).1 ≡ 0
unfolding main run_send send_with send_at connect_and_send parse_flags parse_from is_no_flag
    starts_with cut_at emplace find equal reject_unknown_flags is_allowed flag_or parse_port strtol
    strtol_signed strtol_digits trim_front is_space scan_digits is_digit print_u64
sends = refl

-- Behind `--to` the port does not count.
ignores_port :
    (run_send env
      (codes "--to=desk" ∷ codes "--file" ∷ codes "a.txt" ∷ codes "--port=99999" ∷ [])).1
    ≡ 0
unfolding run_send send_with send_to connect_and_send parse_flags parse_from is_no_flag starts_with
    cut_at emplace find equal reject_unknown_flags is_allowed flag_or
ignores_port = refl

run_send-IsSendOutcome_example : IsSendOutcome env send_args (run_send env send_args)
run_send-IsSendOutcome_example = run_send-IsSendOutcome env send_args

run_recv-IsRecvOutcome_example : IsRecvOutcome env recv_args (run_recv env recv_args)
run_recv-IsRecvOutcome_example = run_recv-IsRecvOutcome env recv_args
