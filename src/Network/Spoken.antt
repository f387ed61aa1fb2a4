-- ===== src/Network/Spoken.antt =====
-- What the receiver has said: a byte of "OK" or of "ACCEPT" comes from that message only.
use Prim.{Unit, tt}
use lft.Base.{
  ℕ, Bool, true, false, List, [], ◌∷◌, ◌++◌, ◌≡◌, refl, sym, ap, ◌∙◌, arith, Bytes, append-nil,
  append_assoc, contains, equal, ◌==◌, if◌then◌else◌, if_both, Bool-cases, inl, inr,
}
use lft.Msquic.{Call}
use lft.Server.State.{ServerEnv, accept_message, fail_message, reject_message}
use lft.Server.Session.{System, Event, run, run_keeps}
use lft.Server.Session.Quiet.{is_ok_send, ok_sent, ok_sent-snoc}
use lft.Server.Session.Calls.{
  IsUsual, accepts, rejects, confirms, denies, closes_stream, closes_connection, sets_stream,
  sets_connection, configures,
}
use lft.Server.Session.Calls.Keeps.{step-Keeps}
use lft.Network.{sent_by, sent_on}
use lft.Network.Heard.{contains-append}

pub sent_on-snoc :
    (stream : ℕ) (calls : List Call) (c : Call)
    → sent_on stream (calls ++ c ∷ []) ≡ sent_on stream calls ++ sent_by stream c
sent_on-snoc stream [] c = append-nil (sent_by stream c)
sent_on-snoc stream (d ∷ calls) c =
    ap (sent_by stream d ++◌) (sent_on-snoc stream calls c)
    ∙ sym (append_assoc (sent_by stream d) (sent_on stream calls) (sent_by stream c))

-- "OK" is the only message with an 'O'.
abbrev pub SaysOk : ℕ → List Call → Type 0
SaysOk stream calls = contains b'O' (sent_on stream calls) ≡ true → ok_sent calls ≡ true

pub unsaid :
    (b : ℕ) (same : Bool) (message : Bytes)
    → contains b message ≡ false
    → contains b (if same then message else []) ≡ false
unfolding contains
unsaid b same message h = if_both (λ m. contains b m ≡ false) same h refl

one-SaysOk :
    (stream : ℕ) (c : Call)
    → IsUsual Unit c
    → contains b'O' (sent_by stream c) ≡ true
    → is_ok_send c ≡ true
unfolding is_ok_send contains equal
one-SaysOk stream _ (accepts handle agreed) h =
    let never = unsaid b'O' (handle == stream) accept_message refl in absurd (ground (arith, never))
one-SaysOk stream _ (rejects handle) h =
    let never = unsaid b'O' (handle == stream) reject_message refl in absurd (ground (arith, never))
one-SaysOk stream _ (confirms handle) h = refl
one-SaysOk stream _ (denies handle) h =
    let never = unsaid b'O' (handle == stream) fail_message refl in absurd (ground (arith, never))
one-SaysOk stream _ (closes_stream handle) h = absurd (ground arith)
one-SaysOk stream _ (closes_connection handle) h = absurd (ground arith)
one-SaysOk stream _ (sets_stream handle) h = absurd (ground arith)
one-SaysOk stream _ (sets_connection handle) h = absurd (ground arith)
one-SaysOk stream _ (configures handle) h = absurd (ground arith)

more-SaysOk :
    (stream : ℕ) (calls : List Call) (c : Call)
    → IsUsual Unit c
    → SaysOk stream calls
    → SaysOk stream (calls ++ c ∷ [])
more-SaysOk stream calls c usual k h =
    let split =
      ap (contains b'O') (sent_on-snoc stream calls c)
      ∙ contains-append b'O' (sent_on stream calls) (sent_by stream c) in
    elim (Bool-cases (contains b'O' (sent_on stream calls))) [
      | inl before ↦ ground (arith, ok_sent-snoc calls c, k before)
      | inr not_before ↦
          let now = one-SaysOk stream c usual (ground (arith, split)) in
          ground (arith, ok_sent-snoc calls c, now)
    ]

pub run-SaysOk :
    (stream : ℕ) (env : ServerEnv) (es : List Event) (y : System)
    → SaysOk stream y.server.calls
    → SaysOk stream (run env y es).server.calls
run-SaysOk stream env es y k =
    run_keeps (λ z. SaysOk stream z.server.calls) env
      (λ z e.
        step-Keeps Unit (SaysOk stream) (more-SaysOk stream) env z e (λ none. tt)
          (λ h asking yes. tt))
      es y k
