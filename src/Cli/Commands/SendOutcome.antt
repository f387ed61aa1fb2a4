-- ===== src/Cli/Commands/SendOutcome.antt =====
-- What `lft send` promises of its exit code.
use lft.Base.{ℕ, true, false, List, [], ◌∷◌, ◌++◌, none, some, ◌≡◌, ◌⊎◌, ◌≤◌, Bytes, codes, AllSome}
use lft.Cli.Flags.{Flags, parse_flags}
use lft.Cli.Flags.Given.{HasKeys, Gives, IsGiven}
use lft.Cli.Commands.{
  Action, find_device, send, connect, disconnect, CliEnv, Outcome, port_of, send_flags,
}

-- The flags of `lft send`: a file, and one of `--host` and `--to`.
pub record IsSendArgs (flags : Flags) : Type 0 where
  pub known : HasKeys send_flags flags
  pub one_target :
      (IsGiven (codes "host") flags × (IsGiven (codes "to") flags → ⊥))
      ⊎ (IsGiven (codes "to") flags × (IsGiven (codes "host") flags → ⊥))
  pub has_file : IsGiven (codes "file") flags

-- What is to be sent, by arguments that are in order.
pub record IsRequest (args : List Bytes) (flags : Flags) (file : Bytes) : Type 0 where
  pub parsed : parse_flags args ≡ some flags
  pub right : IsSendArgs flags
  pub gives : Gives (codes "file") file flags

abbrev pub IsFile : CliEnv → Bytes → Type 0
IsFile env file = (env.exists file ≡ true) × (env.is_directory file ≡ false)

-- The receiver, and how it has been found. `--port` counts only behind `--host`.
pub data IsReceiver (env : CliEnv) (flags : Flags) : List Action → Bytes → ℕ → Type 0 where
  by_host :
      (host : Bytes) (port : ℕ)
      → Gives (codes "host") host flags
      → port_of flags ≡ some port
      → (1 ≤ port) × (port ≤ 65535)
      → IsReceiver env flags [] host port
  by_name :
      (name host : Bytes) (port : ℕ)
      → Gives (codes "to") name flags
      → env.find_by_name name ≡ some (host, port)
      → IsReceiver env flags (find_device name ∷ []) host port

-- The cases exclude each other.
pub data IsSendOutcome (env : CliEnv) (args : List Bytes) : Outcome → Type 0 where
  wrong :
      AllSome (λ flags. IsSendArgs flags → ⊥) (parse_flags args) → IsSendOutcome env args ([], 2)
  no_file :
      (flags : Flags) (file : Bytes)
      → IsRequest args flags file
      → (IsFile env file → ⊥)
      → IsSendOutcome env args ([], 1)
  wrong_port :
      (flags : Flags) (file : Bytes)
      → IsRequest args flags file
      → IsFile env file
      → IsGiven (codes "host") flags
      → port_of flags ≡ none
      → IsSendOutcome env args ([], 2)
  unknown_name :
      (flags : Flags) (file name : Bytes)
      → IsRequest args flags file
      → IsFile env file
      → Gives (codes "to") name flags
      → env.find_by_name name ≡ none
      → IsSendOutcome env args (find_device name ∷ [], 1)
  unreachable :
      (flags : Flags) (file host : Bytes) (port : ℕ) (before : List Action)
      → IsRequest args flags file
      → IsFile env file
      → IsReceiver env flags before host port
      → env.connect host port ≡ false
      → IsSendOutcome env args (before ++ connect host port ∷ [], 1)
  unconfirmed :
      (flags : Flags) (file host : Bytes) (port : ℕ) (before : List Action)
      → IsRequest args flags file
      → IsFile env file
      → IsReceiver env flags before host port
      → env.connect host port ≡ true
      → (env.send_file file).0 ≡ false
      → IsSendOutcome env args (before ++ connect host port ∷ send file ∷ disconnect ∷ [], 1)
  sent :
      (flags : Flags) (file host : Bytes) (port : ℕ) (before : List Action)
      → IsRequest args flags file
      → IsFile env file
      → IsReceiver env flags before host port
      → env.connect host port ≡ true
      → (env.send_file file).0 ≡ true
      → IsSendOutcome env args (before ++ connect host port ∷ send file ∷ disconnect ∷ [], 0)
