-- ===== src/Network/Reserved.antt =====
-- A receiver with a prompt that has not said yes sends no "ACCEPT".
use lft.Base.{
  ℕ, Bool, false, List, [], ◌∷◌, ◌++◌, ◌≡◌, ◌⊎◌, inl, inr, refl, sym, ap, ◌∙◌, arith, Bytes,
  contains, ◌==◌,
}
use lft.Msquic.{Call}
use lft.Wire.Header.{FileTransferHeader}
use lft.Server.State.{ServerEnv, Server, fail_message, reject_message, ok_message}
use lft.Server.Session.{System, Event, run, step, asked}
use lft.Server.Session.Calls.{
  IsUsual, accepts, rejects, confirms, denies, closes_stream, closes_connection, sets_stream,
  sets_connection, configures,
}
use lft.Server.Session.Consent.{IsUntouched, SaysYes, IsConsented, step-IsUntouched, run_unless_yes}
use lft.Server.Session.Calls.Keeps.{step-Keeps}
use lft.Network.{sent_by, sent_on}
use lft.Network.Heard.{contains-append}
use lft.Network.Spoken.{sent_on-snoc, unsaid}

-- Only "ACCEPT" has a 'P', and an accepted offer has been agreed to.
abbrev SaysAccept : Type 0 → ℕ → List Call → Type 0
SaysAccept Agreed stream calls = (contains b'P' (sent_on stream calls) ≡ false) ⊎ Agreed

one-SaysAccept :
    (Agreed : Type 0) (stream : ℕ) (c : Call)
    → IsUsual Agreed c
    → (contains b'P' (sent_by stream c) ≡ false) ⊎ Agreed
unfolding contains
one-SaysAccept Agreed stream _ (accepts handle agreed) = inr agreed
one-SaysAccept Agreed stream _ (rejects handle) =
    inl (unsaid b'P' (handle == stream) reject_message refl)
one-SaysAccept Agreed stream _ (confirms handle) =
    inl (unsaid b'P' (handle == stream) ok_message refl)
one-SaysAccept Agreed stream _ (denies handle) =
    inl (unsaid b'P' (handle == stream) fail_message refl)
one-SaysAccept Agreed stream _ (closes_stream handle) = inl refl
one-SaysAccept Agreed stream _ (closes_connection handle) = inl refl
one-SaysAccept Agreed stream _ (sets_stream handle) = inl refl
one-SaysAccept Agreed stream _ (sets_connection handle) = inl refl
one-SaysAccept Agreed stream _ (configures handle) = inl refl

more-SaysAccept :
    (Agreed : Type 0) (stream : ℕ) (calls : List Call) (c : Call)
    → IsUsual Agreed c
    → SaysAccept Agreed stream calls
    → SaysAccept Agreed stream (calls ++ c ∷ [])
more-SaysAccept Agreed stream calls c usual (inr agreed) = inr agreed
more-SaysAccept Agreed stream calls c usual (inl silent) =
    elim (one-SaysAccept Agreed stream c usual) [
      | inr agreed ↦ inr agreed
      | inl now ↦ inl (
          ap (contains b'P') (sent_on-snoc stream calls c)
          ∙ (contains-append b'P' (sent_on stream calls) (sent_by stream c)
              ∙ ground (arith, silent, now)))
    ]

module _ (f : FileTransferHeader → Bool) (disk : Bytes) (stream : ℕ) where
  -- Nothing was accepted or written, and no 'P' was sent.
  pub record IsReserved (s : Server) : Type 0 where
    pub untouched : IsUntouched f disk s
    pub silent : contains b'P' (sent_on stream s.calls) ≡ false

  step-IsReserved :
      (env : ServerEnv) (y : System) (e : Event)
      → IsReserved y.server
      → IsReserved (step env y e).server ⊎ SaysYes f disk y.phase
  step-IsReserved env y e v =
      let Agreed = SaysYes f disk y.phase in
      let offer = v.untouched.prompts in
      elim (step-IsUntouched f disk env y e v.untouched) [
        | inr agreed ↦ inr agreed
        | inl untouched ↦
            elim (step-Keeps Agreed (SaysAccept Agreed stream) (more-SaysAccept Agreed stream) env y
              e (λ none. absurd (ground (arith, offer, none)))
              (λ h asking agrees. (h, asking, sym (ap (λ o. asked o h) offer) ∙ agrees))
              (inl v.silent)) [
                | inr agreed ↦ inr agreed
                | inl silent ↦ inl (record { untouched = untouched; silent = silent })
              ]
      ]

  pub run-IsReserved :
      (env : ServerEnv) (es : List Event) (y : System)
      → IsReserved y.server
      → IsReserved (run env y es).server ⊎ IsConsented f disk env y es
  run-IsReserved env = run_unless_yes f disk IsReserved env (step-IsReserved env)
