-- ===== src/Network/Consent.antt =====
-- What leaves the sender before the receiver's prompt has said yes.
use lft.Base.{
  ℕ, Bool, true, false, not, ◌&&◌, List, [], ◌∷◌, ◌++◌, some, ◌≡◌, ◌⊎◌, inl, inr, refl, sym, ap,
  ◌∙◌, arith, Bytes, codes, contains, starts_with, concat, drop, ◌==◌, subst, append_assoc,
  Bool-cases,
}
use lft.Wire.Header.{FileTransferHeader}
use lft.Client.State.{ClientEnv, Client}
use lft.Client.Events.{says_accept}
use lft.Client.Send.{
  Job, send_file_internal, open_stream, send_or_abort, begin_send, abort_and_fail, fail,
}
use lft.Client.Send.Callbacks.{IsHonest}
use lft.Client.Send.Consent.{IsQuiet, IsAccepted, run_waits_for_accept}
use lft.Server.State.{ServerEnv, new_server}
use lft.Server.Session.Consent.{IsConsented, receive_file-IsUntouched}
use lft.Client.Events as ClientEvents
use lft.Client.Send as Sender
use lft.Server.Session as Receiver
use lft.Network.{
  sent_on, Net, NetEvent, to_client, to_server, client_does, server_does, for_client, net_step,
  net_run,
}
use lft.Network.Heard.{knows, step-knows}
use lft.Network.Reserved.{IsReserved, run-IsReserved}
use lft.Network.Agreement.{
  contains-parts, contains-cut_into, own_client-knows, receiver_append, for_sender, for_receiver,
  client_trace, server_trace, client_trace-run,
}
use lft.Network.Success.{receive_file-silent}

begins_with_accept : (s : Bytes) → starts_with (codes "ACCEPT") s ≡ true → contains b'P' s ≡ true
unfolding starts_with contains
begins_with_accept (a ∷ b ∷ c ∷ d ∷ p ∷ s) h = ground arith
begins_with_accept [] h = absurd (ground arith)
begins_with_accept (a ∷ []) h = absurd (ground arith)
begins_with_accept (a ∷ b ∷ []) h = absurd (ground arith)
begins_with_accept (a ∷ b ∷ c ∷ []) h = absurd (ground arith)
begins_with_accept (a ∷ b ∷ c ∷ d ∷ []) h = absurd (ground arith)

-- A sender that is connected starts a transfer with nothing heard.
internal-unknowing :
    (b : ℕ) (env : ClientEnv) (job : Job) (c : Client)
    → (c.connected && (not (c.connection == 0) && c.api)) ≡ true
    → knows b (send_file_internal env job c).client ≡ false
unfolding send_file_internal open_stream send_or_abort begin_send abort_and_fail fail contains
internal-unknowing b env job c online = ground arith

module _ (f : FileTransferHeader → Bool) (disk : Bytes) (cenv : ClientEnv) (senv : ServerEnv)
    (job : Job) (client_stream server_stream : ℕ) where
  abbrev next : Net → NetEvent → Net
  next = net_step cenv senv job client_stream server_stream

  abbrev heard_of : Net → NetEvent → List Receiver.Event
  heard_of = for_receiver cenv senv job client_stream server_stream

  abbrev trace : Net → List NetEvent → List Receiver.Event
  trace = server_trace cenv senv job client_stream server_stream

  -- No 'P' has been sent or heard.
  record IsSilent (n : Net) : Type 0 where
    reserved : IsReserved f disk server_stream n.server.server
    unheard : knows b'P' n.client.client ≡ false

  heard-unheard :
      (ks : List ℕ) (n : Net)
      → IsSilent n
      → knows b'P'
          (Sender.run cenv job n.client
            (for_sender cenv senv job client_stream server_stream n (to_client ks))).client
        ≡ false
  unfolding Sender.run
  heard-unheard ks n v =
      let buffers = for_client cenv senv job client_stream server_stream ks n in
      let sent = sent_on server_stream n.server.server.calls in
      let split =
        step-knows b'P' cenv job n.client
          (Sender.stream_event client_stream (ClientEvents.receive buffers)) in
      let unheard = v.unheard in
      let silent = v.reserved.silent in
      elim (Bool-cases (contains b'P' (concat buffers))) [
        | inr not_now ↦ split ∙ ground (arith, unheard, not_now)
        | inl now ↦
            let flying = contains-cut_into b'P' ks (drop n.heard sent) now in
            absurd (ground (arith, contains-parts b'P' n.heard sent, flying, silent))
      ]

  event-unheard :
      (e : NetEvent) (n : Net) → IsSilent n → knows b'P' (next n e).client.client ≡ false
  unfolding net_step Sender.run
  event-unheard (to_client ks) n v = heard-unheard ks n v
  event-unheard (client_does e) n v = own_client-knows b'P' cenv job n.client e ∙ v.unheard
  event-unheard (to_server ks) n v = v.unheard
  event-unheard (server_does e) n v = v.unheard

  step-IsSilent :
      (e : NetEvent) (n : Net)
      → IsSilent n
      → IsSilent (next n e) ⊎ IsConsented f disk senv n.server (heard_of n e)
  unfolding net_step
  step-IsSilent e n v =
      elim (run-IsReserved f disk server_stream senv (heard_of n e) n.server v.reserved) [
        | inr c ↦ inr c
        | inl r ↦ inl (record { reserved = r; unheard = event-unheard e n v })
      ]

  -- A yes in a part of a run is one in the whole of it.
  earlier :
      (y : Receiver.System) (es fs : List Receiver.Event)
      → IsConsented f disk senv y es
      → IsConsented f disk senv y (es ++ fs)
  earlier y es fs c = record {
    before = c.before;
    after = c.after ++ fs;
    splits = ap (λ gs. gs ++ fs) c.splits ∙ append_assoc c.before c.after fs;
    yes = c.yes;
  }

  later :
      (y : Receiver.System) (es fs : List Receiver.Event)
      → IsConsented f disk senv (Receiver.run senv y es) fs
      → IsConsented f disk senv y (es ++ fs)
  later y es fs c =
      let (h, asking, agrees) = c.yes in
      record {
        before = es ++ c.before;
        after = c.after;
        splits = ap (λ gs. es ++ gs) c.splits ∙ sym (append_assoc es c.before c.after);
        yes = (
          h,
          ap (λ (z : Receiver.System). z.phase) (receiver_append senv es c.before y) ∙ asking,
          agrees,
        );
      }

  run-IsSilent :
      (es : List NetEvent) (n : Net)
      → IsSilent n
      → IsSilent (net_run cenv senv job client_stream server_stream n es)
        ⊎ IsConsented f disk senv n.server (trace n es)
  unfolding net_run net_step
  run-IsSilent [] n v = inl v
  run-IsSilent (e ∷ es) n v =
      let rest = trace (next n e) es in
      elim (step-IsSilent e n v) [
        | inr c ↦ inr (earlier n.server (heard_of n e) rest c)
        | inl w ↦ elim (run-IsSilent es (next n e) w) [
          | inl s ↦ inl s
          | inr c ↦ inr (later n.server (heard_of n e) rest c)
        ]
      ]

-- With a prompt on the receiver, however msquic cuts and delays the bytes of the stream, and
-- whatever else happens on both sides: a connected sender has at most its header on the stream,
-- and no byte of the file, and the bytes of the receiver's output file are the old ones, unless at
-- some moment of the receiver's run the prompt was shown a header and said yes to it.
pub net_run_asks_first :
    (f : FileTransferHeader → Bool) (disk : Bytes) (cenv : ClientEnv) (senv : ServerEnv) (job : Job)
    (client_stream server_stream : ℕ) (c : Client) (dest : Bytes) (bar : Bool) (es : List NetEvent)
    → IsHonest c
    → (c.connected && (not (c.connection == 0) && c.api)) ≡ true
    → let start : Net = record {
      client = send_file_internal cenv job c;
      server = Receiver.receive_file senv dest (some f) bar (new_server disk);
      heard = 0;
      read = 0;
    } in
      let n = net_run cenv senv job client_stream server_stream start es in
      (IsQuiet cenv job c n.client.client × (n.server.server.disk ≡ disk))
      ⊎ IsConsented f disk senv start.server
          (server_trace cenv senv job client_stream server_stream start es)
net_run_asks_first f disk cenv senv job client_stream server_stream c dest bar es honest online =
    let start : Net = record {
      client = send_file_internal cenv job c;
      server = Receiver.receive_file senv dest (some f) bar (new_server disk);
      heard = 0;
      read = 0;
    } in
    let traced = client_trace-run cenv senv job client_stream server_stream es start in
    let nothing = receive_file-silent senv server_stream dest (some f) bar disk in
    let silent = run-IsSilent f disk cenv senv job client_stream server_stream es start (record {
      reserved = record {
        untouched = receive_file-IsUntouched f disk senv dest bar;
        silent = ap (contains b'P') nothing ∙ unfold contains in refl;
      };
      unheard = internal-unknowing b'P' cenv job c online;
    }) in
    elim silent [
      | inr consented ↦ inr consented
      | inl s ↦
          elim (run_waits_for_accept cenv job c
            (client_trace cenv senv job client_stream server_stream start es) honest) [
              | inl quiet ↦ inl (
                subst (λ (y : Sender.System). IsQuiet cenv job c y.client) (sym traced) quiet,
                s.reserved.untouched.same_disk,
              )
              | inr accepted ↦
                  let heard =
                    subst (λ (y : Sender.System). IsAccepted cenv job c y.client) (sym traced)
                      accepted in
                  let p = begins_with_accept _ heard.0 in
                  let unheard = s.unheard in absurd (ground (arith, p, unheard))
            ]
    ]
