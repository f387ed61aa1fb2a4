-- ===== src/Cli/Commands/SendExit.antt =====
-- The outcome of `lft send`, by what its arguments are and what it meets.
use Prim.{tt}
use lft.Base.{
  ℕ, true, false, not, ◌||◌, List, [], ◌∷◌, ◌++◌, Option, none, some, ◌≡◌, ◌⊎◌, inl, inr, refl, sym,
  ◌∙◌, subst, arith, Bytes, codes, if_cases, if◌then◌else◌, AllSome,
}
use lft.Cli.Flags.{Flags, parse_flags, reject_unknown_flags, flag_or}
use lft.Cli.Flags.Given.{
  Gives, IsGiven, reject_unknown_flags-HasKeys, HasKeys-reject_unknown_flags, given-IsGiven,
  not_given, Gives-given, Gives-flag_or,
}
use lft.Cli.Port.{parse_port-AllSome}
use lft.Cli.Commands.{
  Action, find_device, send, connect, disconnect, CliEnv, Outcome, given, same, port_of,
  connect_and_send, send_to, send_at, send_flags, send_with, run_send,
}
use lft.Cli.Commands.SendOutcome.{
  IsSendArgs, IsRequest, IsFile, IsReceiver, by_host, by_name, IsSendOutcome, wrong, no_file,
  wrong_port, unknown_name, unreachable, unconfirmed, sent,
}

-- Two tests that differ.
differ : (a b : _) → same a b ≡ false → ((a ≡ true) × (b ≡ false)) ⊎ ((b ≡ true) × (a ≡ false))
differ a b h = ground arith

alike : (a b : _) → same a b ≡ true → a ≡ b
alike a b h = ground arith

-- Arguments that fail a test of the command.
unknown-wrong :
    (flags : Flags) → reject_unknown_flags flags send_flags ≡ false → IsSendArgs flags → ⊥
unknown-wrong flags h v =
    let known = HasKeys-reject_unknown_flags send_flags flags v.known in ground (arith, h, known)

targets-wrong :
    (flags : Flags)
    → same (given (codes "host") flags) (given (codes "to") flags) ≡ true
    → IsSendArgs flags
    → ⊥
targets-wrong flags h v =
    let e = alike (given (codes "host") flags) (given (codes "to") flags) h in
    elim v.one_target [
      | inl ((value, g), other) ↦
          other
            (given-IsGiven (codes "to") flags (sym e ∙ Gives-given (codes "host") value flags g))
      | inr ((value, g), other) ↦
          other (given-IsGiven (codes "host") flags (e ∙ Gives-given (codes "to") value flags g))
    ]

one_target_of :
    (flags : Flags)
    → same (given (codes "host") flags) (given (codes "to") flags) ≡ false
    → (IsGiven (codes "host") flags × (IsGiven (codes "to") flags → ⊥))
      ⊎ (IsGiven (codes "to") flags × (IsGiven (codes "host") flags → ⊥))
one_target_of flags h = elim (differ (given (codes "host") flags) (given (codes "to") flags) h) [
  | inl (yes_host, no_to) ↦
      inl (given-IsGiven (codes "host") flags yes_host, not_given (codes "to") flags no_to)
  | inr (yes_to, no_host) ↦
      inr (given-IsGiven (codes "to") flags yes_to, not_given (codes "host") flags no_host)
]

module _ (env : CliEnv) (args : List Bytes) where
  abbrev Ends : Outcome → Type 0
  Ends = IsSendOutcome env args

  module _ (flags : Flags) (file : Bytes) (request : IsRequest args flags file)
      (there : IsFile env file) where
    connect_and_send-Ends :
        (before : List Action) (host : Bytes) (port : ℕ)
        → IsReceiver env flags before host port
        → Ends (connect_and_send env before file host port)
    unfolding connect_and_send
    connect_and_send-Ends before host port r =
        let log = before ++ connect host port ∷ send file ∷ disconnect ∷ [] in
        if_cases Ends (not (env.connect host port))
          (λ e. unreachable flags file host port before request there r (ground arith))
          (λ e.
            if_cases (λ code. Ends (log, code)) (not (env.send_file file).0)
              (λ f.
                unconfirmed flags file host port before request there r (ground arith)
                  (ground arith))
              (λ f. sent flags file host port before request there r (ground arith) (ground arith)))

    send_to-Ends :
        (name : Bytes)
        → Gives (codes "to") name flags
        → (peer : Option (Bytes × ℕ)) → env.find_by_name name ≡ peer
        → Ends (send_to env file name peer)
    unfolding send_to
    send_to-Ends name g none e = unknown_name flags file name request there g e
    send_to-Ends name g (some (host, port)) e =
        connect_and_send-Ends (find_device name ∷ []) host port (by_name name host port g e)

    send_at-Ends :
        (host : Bytes)
        → Gives (codes "host") host flags
        → (port : Option ℕ) → port_of flags ≡ port
        → Ends (send_at env file host port)
    unfolding send_at
    send_at-Ends host g none e = wrong_port flags file request there (host, g) e
    send_at-Ends host g (some port) e =
        connect_and_send-Ends [] host port
          (by_host host port g e (subst (AllSome _) e (parse_port-AllSome _)))

  -- The two ways to a receiver.
  abbrev by_target : Flags → Bytes → Outcome
  by_target flags file =
      if given (codes "to") flags
      then send_to env file (flag_or flags (codes "to") [])
          (env.find_by_name (flag_or flags (codes "to") []))
      else send_at env file (flag_or flags (codes "host") []) (port_of flags)

  abbrev by_file : Flags → Bytes → Outcome
  by_file flags file =
      if not (env.exists file) || env.is_directory file then ([], 1) else by_target flags file

  -- Behind the tests of the flags.
  module _ (flags : Flags) (file : Bytes) (request : IsRequest args flags file) where
    by_target-Ends : IsFile env file → Ends (by_target flags file)
    by_target-Ends there = elim request.right.one_target [
      | inl ((host, g), no_to) ↦
          if_cases Ends (given (codes "to") flags)
            (λ e. absurd (no_to (given-IsGiven (codes "to") flags e)))
            (λ e.
              subst (λ h. Ends (send_at env file h (port_of flags)))
                (sym (Gives-flag_or (codes "host") host [] flags g))
                (send_at-Ends flags file request there host g (port_of flags) refl))
      | inr ((name, g), no_host) ↦
          if_cases Ends (given (codes "to") flags)
            (λ e.
              subst (λ n. Ends (send_to env file n (env.find_by_name n)))
                (sym (Gives-flag_or (codes "to") name [] flags g))
                (send_to-Ends flags file request there name g (env.find_by_name name) refl))
            (λ e. absurd (not_given (codes "to") flags e (name, g)))
    ]

    by_file-Ends : Ends (by_file flags file)
    by_file-Ends =
        if_cases Ends (not (env.exists file) || env.is_directory file)
          (λ e. no_file flags file request (λ f. ground (arith, e, f)))
          (λ e. by_target-Ends (ground arith, ground arith))

  send_with-Ends : (o : Option Flags) → parse_flags args ≡ o → Ends (send_with env o)
  unfolding send_with
  send_with-Ends none e = wrong (subst (AllSome _) (sym e) tt)
  send_with-Ends (some flags) e =
      let is_wrong : (IsSendArgs flags → ⊥) → Ends ([], 2) =
        λ v. wrong (subst (AllSome (λ gs. IsSendArgs gs → ⊥)) (sym e) v) in
      if_cases Ends (not (reject_unknown_flags flags send_flags))
        (λ h. is_wrong (unknown-wrong flags (ground arith)))
        (λ known.
          if_cases Ends (same (given (codes "host") flags) (given (codes "to") flags))
            (λ h. is_wrong (targets-wrong flags h))
            (λ targets.
              if_cases Ends (not (given (codes "file") flags))
                (λ h. is_wrong (λ v. not_given (codes "file") flags (ground arith) v.has_file))
                (λ h.
                  let (file, g) = given-IsGiven (codes "file") flags (ground arith) in
                  let request : IsRequest args flags file = record {
                    parsed = e;
                    right = record {
                      known = reject_unknown_flags-HasKeys send_flags flags (ground arith);
                      one_target = one_target_of flags targets;
                      has_file = (file, g);
                    };
                    gives = g;
                  } in
                  subst (λ f. Ends (by_file flags f))
                    (sym (Gives-flag_or (codes "file") file [] flags g))
                    (by_file-Ends flags file request))))

  -- Whatever the arguments are, `lft send` has just these outcomes. 2, and nothing is done: the
  -- flags cannot be read, one is unknown, `--file` is missing or empty, or not exactly one of
  -- `--host` and `--to` is given and not empty; or all that is in order, the file is there, and
  -- `--host` stands with a port that is not in 1 to 65535 (behind `--to` the port does not count).
  -- 1: the file is not there or is a directory, and nothing is done; or the name is not found; or
  -- no connection to the host at its port comes about; or `send_file` returns false. 0: it
  -- connected to that receiver, and `send_file` returned true for that file.
  pub run_send-IsSendOutcome : IsSendOutcome env args (run_send env args)
  unfolding run_send
  run_send-IsSendOutcome = send_with-Ends (parse_flags args) refl
