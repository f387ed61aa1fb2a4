-- ===== src/Cli/Commands.antt =====
-- `run_recv`, `run_send`, `run_list` and `main` of src/main.cpp: what they ask of the other parts,
-- in order, and their exit codes.
pub mod SendOutcome
pub mod SendExit
pub mod RecvExit
use lft.Base.{
  ℕ, Bool, true, false, not, ◌&&◌, ◌||◌, List, [], ◌∷◌, ◌++◌, Option, none, some, Bytes, codes,
  equal, if◌then◌else◌,
}
use lft.Wire.Number.{print_u64}
use lft.Cli.Flags.{Flags, find, parse_flags, reject_unknown_flags, flag_or}
use lft.Cli.Port.{parse_port}

-- `kDefaultPort` (include/lft/constants.h).
abbrev pub default_port : ℕ
default_port = 53317

-- What the commands ask of the file system, the server, the client and the discovery.
pub data Action : Type 0 where
  create_directories receive_into send find_device : Bytes → Action
  start_server : ℕ → Action
  advertise connect : Bytes → ℕ → Action
  stop_server disconnect browse : Action

-- The answers. `receive_file` answers with `rejected` of the result behind it, `send_file` with
-- `was_rejected()`.
pub record CliEnv : Type 0 where
  pub exists : Bytes → Bool
  pub is_directory : Bytes → Bool
  pub server_start : ℕ → Bool
  pub receive_file : Bytes → Bool × Bool
  pub find_by_name : Bytes → Option (Bytes × ℕ)
  pub connect : Bytes → ℕ → Bool
  pub send_file : Bytes → Bool × Bool

-- The actions of a command, and its exit code.
abbrev pub Outcome : Type 0
Outcome = List Action × ℕ

abbrev pub usage_error : Outcome
usage_error = ([], 2)

-- `it != flags.end() && !it->second.empty()`.
abbrev pub given : Bytes → Flags → Bool
given key flags = elim (find key flags) [ none ↦ false | some value ↦ not (equal value []) ]

abbrev pub port_of : Flags → Option ℕ
port_of flags = parse_port (flag_or flags (codes "port") (print_u64 default_port))

-- From the directory on.
unfoldable pub recv_into : CliEnv → Bytes → Bytes → ℕ → Outcome
recv_into env dir name port =
    let created = create_directories dir in
    let (ok, rejected) = env.receive_file dir in
    if not (env.is_directory dir)
    then (created ∷ [], 1)
    else if not (env.server_start port)
    then (created ∷ start_server port ∷ [], 1)
    else (
      created ∷ start_server port ∷ advertise name port ∷ receive_into dir ∷ stop_server ∷ [],
      if not ok then (if rejected then 0 else 1) else 0,
    )

unfoldable pub recv_at : CliEnv → Flags → Option ℕ → Outcome
unfolding recv_into
recv_at env flags none = usage_error
recv_at env flags (some port) =
    if not (given (codes "out") flags)
    then usage_error
    else recv_into env (flag_or flags (codes "out") []) (flag_or flags (codes "name") []) port

abbrev pub recv_flags : List Bytes
recv_flags = codes "port" ∷ codes "out" ∷ codes "name" ∷ []

unfoldable pub recv_with : CliEnv → Option Flags → Outcome
unfolding recv_at
recv_with env none = usage_error
recv_with env (some flags) =
    if not (reject_unknown_flags flags recv_flags)
    then usage_error
    else recv_at env flags (port_of flags)

unfoldable pub run_recv : CliEnv → List Bytes → Outcome
run_recv env args = recv_with env (parse_flags args)

-- The client's part of `run_send`, behind the actions `before`.
unfoldable pub connect_and_send : CliEnv → List Action → Bytes → Bytes → ℕ → Outcome
connect_and_send env before file host port =
    let (ok, rejected) = env.send_file file in
    if not (env.connect host port)
    then (before ++ connect host port ∷ [], 1)
    else (before ++ connect host port ∷ send file ∷ disconnect ∷ [], if not ok then 1 else 0)

unfoldable pub send_to : CliEnv → Bytes → Bytes → Option (Bytes × ℕ) → Outcome
unfolding connect_and_send
send_to env file name none = (find_device name ∷ [], 1)
send_to env file name (some (host, port)) =
    connect_and_send env (find_device name ∷ []) file host port

unfoldable pub send_at : CliEnv → Bytes → Bytes → Option ℕ → Outcome
unfolding connect_and_send
send_at env file host none = usage_error
send_at env file host (some port) = connect_and_send env [] file host port

abbrev pub send_flags : List Bytes
send_flags = codes "host" ∷ codes "to" ∷ codes "port" ∷ codes "file" ∷ []

abbrev pub same : Bool → Bool → Bool
same true b = b
same false b = not b

unfoldable pub send_with : CliEnv → Option Flags → Outcome
unfolding send_to send_at
send_with env none = usage_error
send_with env (some flags) =
    let file = flag_or flags (codes "file") [] in
    let name = flag_or flags (codes "to") [] in
    if not (reject_unknown_flags flags send_flags)
    then usage_error
    else if same (given (codes "host") flags) (given (codes "to") flags)
    then usage_error
    else if not (given (codes "file") flags)
    then usage_error
    else if not (env.exists file) || env.is_directory file
    then ([], 1)
    else if given (codes "to") flags
    then send_to env file name (env.find_by_name name)
    else send_at env file (flag_or flags (codes "host") []) (port_of flags)

unfoldable pub run_send : CliEnv → List Bytes → Outcome
run_send env args = send_with env (parse_flags args)

unfoldable pub list_with : Option Flags → Outcome
list_with none = usage_error
list_with (some flags) =
    if not (reject_unknown_flags flags []) then usage_error else (browse ∷ [], 0)

unfoldable pub run_list : List Bytes → Outcome
unfolding list_with
run_list args = list_with (parse_flags args)

-- `main`, without the program's name.
unfoldable pub main : CliEnv → List Bytes → Outcome
unfolding run_recv run_send run_list
main env [] = usage_error
main env (command ∷ rest) =
    if equal command (codes "-h") || equal command (codes "--help")
    then ([], 0)
    else if equal command (codes "recv")
    then run_recv env rest
    else if equal command (codes "send")
    then run_send env rest
    else if equal command (codes "list")
    then run_list rest
    else usage_error
