-- ===== src/Cli/Commands/RecvExit.antt =====
-- The outcome of `lft recv`, by what its arguments are and what it meets.
use Prim.{tt}
use lft.Base.{
  ℕ, true, false, not, List, [], ◌∷◌, Option, none, some, ◌≡◌, ◌⊎◌, inl, inr, ◌≤◌, refl, sym, subst,
  arith, Bytes, codes, if_cases, AllSome,
}
use lft.Cli.Flags.{Flags, parse_flags, reject_unknown_flags, flag_or}
use lft.Cli.Flags.Given.{
  HasKeys, Gives, IsGiven, reject_unknown_flags-HasKeys, HasKeys-reject_unknown_flags,
  given-IsGiven, not_given, Gives-flag_or,
}
use lft.Cli.Port.{parse_port-AllSome}
use lft.Cli.Commands.{
  Action, create_directories, receive_into, start_server, advertise, stop_server, CliEnv, Outcome,
  given, port_of, recv_into, recv_at, recv_flags, recv_with, run_recv,
}

-- The flags of `lft recv`: a directory, and a port if one is given.
pub record IsRecvArgs (flags : Flags) : Type 0 where
  pub known : HasKeys recv_flags flags
  pub has_port : (port : ℕ) × (port_of flags ≡ some port)
  pub has_out : IsGiven (codes "out") flags

-- What is asked, by arguments that are in order.
pub record IsRequest (args : List Bytes) (flags : Flags) (dir : Bytes) (port : ℕ) : Type 0 where
  pub parsed : parse_flags args ≡ some flags
  pub right : IsRecvArgs flags
  pub gives : Gives (codes "out") dir flags
  pub at_port : port_of flags ≡ some port
  pub valid_port : (1 ≤ port) × (port ≤ 65535)

-- The actions of a receiver that listens.
abbrev pub receipt : Flags → Bytes → ℕ → List Action
receipt flags dir port =
    create_directories dir
    ∷ start_server port
    ∷ advertise (flag_or flags (codes "name") []) port
    ∷ receive_into dir
    ∷ stop_server
    ∷ []

-- The cases exclude each other.
pub data IsRecvOutcome (env : CliEnv) (args : List Bytes) : Outcome → Type 0 where
  wrong :
      AllSome (λ flags. IsRecvArgs flags → ⊥) (parse_flags args) → IsRecvOutcome env args ([], 2)
  no_directory :
      (flags : Flags) (dir : Bytes) (port : ℕ)
      → IsRequest args flags dir port
      → env.is_directory dir ≡ false
      → IsRecvOutcome env args (create_directories dir ∷ [], 1)
  not_listening :
      (flags : Flags) (dir : Bytes) (port : ℕ)
      → IsRequest args flags dir port
      → env.is_directory dir ≡ true
      → env.server_start port ≡ false
      → IsRecvOutcome env args (create_directories dir ∷ start_server port ∷ [], 1)
  not_received :
      (flags : Flags) (dir : Bytes) (port : ℕ)
      → IsRequest args flags dir port
      → env.is_directory dir ≡ true
      → env.server_start port ≡ true
      → env.receive_file dir ≡ (false, false)
      → IsRecvOutcome env args (receipt flags dir port, 1)
  received :
      (flags : Flags) (dir : Bytes) (port : ℕ)
      → IsRequest args flags dir port
      → env.is_directory dir ≡ true
      → env.server_start port ≡ true
      → ((env.receive_file dir).0 ≡ true) ⊎ ((env.receive_file dir).1 ≡ true)
      → IsRecvOutcome env args (receipt flags dir port, 0)

unknown-wrong :
    (flags : Flags) → reject_unknown_flags flags recv_flags ≡ false → IsRecvArgs flags → ⊥
unknown-wrong flags h v =
    let known = HasKeys-reject_unknown_flags recv_flags flags v.known in ground (arith, h, known)

no_port-wrong : (flags : Flags) → port_of flags ≡ none → IsRecvArgs flags → ⊥
no_port-wrong flags h v = let (port, e) = v.has_port in cc

module _ (env : CliEnv) (args : List Bytes) where
  abbrev Ends : Outcome → Type 0
  Ends = IsRecvOutcome env args

  recv_into-Ends :
      (flags : Flags) (dir : Bytes) (port : ℕ)
      → IsRequest args flags dir port
      → Ends (recv_into env dir (flag_or flags (codes "name") []) port)
  unfolding recv_into
  recv_into-Ends flags dir port request =
      let (ok, rejected) = env.receive_file dir in
      if_cases Ends (not (env.is_directory dir))
        (λ e. no_directory flags dir port request (ground arith))
        (λ is_dir.
          if_cases Ends (not (env.server_start port))
            (λ e. not_listening flags dir port request (ground arith) (ground arith))
            (λ starts.
              if_cases (λ code. Ends (receipt flags dir port, code)) (not ok)
                (λ e.
                  if_cases (λ code. Ends (receipt flags dir port, code)) rejected
                    (λ r. received flags dir port request (ground arith) (ground arith) (inr r))
                    (λ r.
                      not_received flags dir port request (ground arith) (ground arith)
                        (ground arith)))
                (λ e.
                  received flags dir port request (ground arith) (ground arith)
                    (inl (ground arith)))))

  recv_at-Ends :
      (flags : Flags) (port : Option ℕ)
      → parse_flags args ≡ some flags
      → HasKeys recv_flags flags
      → port_of flags ≡ port
      → ((IsRecvArgs flags → ⊥) → Ends ([], 2))
      → Ends (recv_at env flags port)
  unfolding recv_at
  recv_at-Ends flags none parsed known e is_wrong = is_wrong (no_port-wrong flags e)
  recv_at-Ends flags (some port) parsed known e is_wrong =
      if_cases Ends (not (given (codes "out") flags))
        (λ h. is_wrong (λ v. not_given (codes "out") flags (ground arith) v.has_out))
        (λ h.
          let (dir, g) = given-IsGiven (codes "out") flags (ground arith) in
          subst (λ d. Ends (recv_into env d (flag_or flags (codes "name") []) port))
            (sym (Gives-flag_or (codes "out") dir [] flags g))
            (recv_into-Ends flags dir port (record {
              parsed = parsed;
              right = record { known = known; has_port = (port, e); has_out = (dir, g) };
              gives = g;
              at_port = e;
              valid_port = subst (AllSome _) e (parse_port-AllSome _);
            })))

  recv_with-Ends : (o : Option Flags) → parse_flags args ≡ o → Ends (recv_with env o)
  unfolding recv_with
  recv_with-Ends none e = wrong (subst (AllSome _) (sym e) tt)
  recv_with-Ends (some flags) e =
      let is_wrong : (IsRecvArgs flags → ⊥) → Ends ([], 2) =
        λ v. wrong (subst (AllSome (λ gs. IsRecvArgs gs → ⊥)) (sym e) v) in
      if_cases Ends (not (reject_unknown_flags flags recv_flags))
        (λ h. is_wrong (unknown-wrong flags (ground arith)))
        (λ h.
          recv_at-Ends flags (port_of flags) e
            (reject_unknown_flags-HasKeys recv_flags flags (ground arith)) refl is_wrong)

  -- Whatever the arguments are, `lft recv` has just these outcomes. 2, and nothing is done: the
  -- flags cannot be read, one is unknown, the port is not in 1 to 65535, or `--out` is missing or
  -- empty. 1: the directory is not there behind its creation; or the server does not start on that
  -- port; or `receive_file` returns false and the user has not declined. 0: the server started on
  -- that port, and `receive_file` into that directory returned true or the user declined. The
  -- server that has started is stopped in the end.
  pub run_recv-IsRecvOutcome : IsRecvOutcome env args (run_recv env args)
  unfolding run_recv
  run_recv-IsRecvOutcome = recv_with-Ends (parse_flags args) refl
