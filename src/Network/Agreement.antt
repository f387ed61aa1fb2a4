-- ===== src/Network/Agreement.antt =====
-- What the sender knows has been said.
use lft.Base.{
  ℕ, true, ◌||◌, List, [], ◌∷◌, ◌++◌, ◌≡◌, inl, inr, refl, sym, ap, ◌∙◌, arith, Bytes, codes,
  contains, starts_with, take, drop, concat, take-append-drop, Bool-cases,
}
use lft.Client.State.{ClientEnv, Client}
use lft.Client.Send.{
  Job, returned, job_of, send_file, send_file_internal, open_stream, send_or_abort, begin_send,
  abort_and_fail, fail,
}
use lft.Client.Send.Callbacks.{says_ok}
use lft.Client.Send.Completion.{run-append}
use lft.Server.State.{ServerEnv}
use lft.Server.Session.Quiet.{ok_sent}
use lft.Server.Session.Success.{step-Sound}
use lft.Client.Events as ClientEvents
use lft.Client.Send as Sender
use lft.Server.Session as Receiver
use lft.Network.{
  sent_on, cut_into, Net, NetEvent, to_client, to_server, client_does, server_does, own_client,
  at_client, at_server, for_client, net_step, net_run,
}
use lft.Network.Heard.{knows, contains-append, step-knows}
use lft.Network.Spoken.{SaysOk, run-SaysOk}

pub contains-parts :
    (b : ℕ) (n : ℕ) (s : Bytes) → contains b s ≡ (contains b (take n s) || contains b (drop n s))
contains-parts b n s = ap (contains b) (sym (take-append-drop n s)) ∙ contains-append b _ _

pub contains-cut_into :
    (b : ℕ) (ks : List ℕ) (s : Bytes)
    → contains b (concat (cut_into ks s)) ≡ true
    → contains b s ≡ true
contains-cut_into b [] s h = unfold contains in absurd (ground arith)
contains-cut_into b (k ∷ ks) s h =
    let rest = contains-cut_into b ks (drop k s) in
    ground (
      arith,
      contains-append b (take k s) (concat (cut_into ks (drop k s))),
      contains-parts b k s,
      rest,
    )

begins_with_ok : (s : Bytes) → starts_with (codes "OK") s ≡ true → contains b'O' s ≡ true
unfolding starts_with contains
begins_with_ok [] h = absurd (ground arith)
begins_with_ok (x ∷ s) h = ground arith

pub says_ok-knows : (c : Client) → says_ok c ≡ true → knows b'O' c ≡ true
says_ok-knows c h = let heard = begins_with_ok c.file_ack h in ground (arith, heard)

-- "OK" has been sent by a receiver that has sent more.
run-ok_sent :
    (env : ServerEnv) (es : List Receiver.Event) (y : Receiver.System)
    → ok_sent y.server.calls ≡ true
    → ok_sent (Receiver.run env y es).server.calls ≡ true
run-ok_sent env =
    Receiver.run_keeps (λ z. ok_sent z.server.calls ≡ true) env (λ y e. (step-Sound env y e).kept)

pub own_client-knows :
    (b : ℕ) (cenv : ClientEnv) (job : Job) (y : Sender.System) (e : Sender.Event)
    → knows b (Sender.run cenv job y (own_client e)).client ≡ knows b y.client
unfolding Sender.run contains
own_client-knows b cenv job y (Sender.stream_event handle (ClientEvents.receive buffers)) = refl
own_client-knows b cenv job y (Sender.stream_event handle e) =
    step-knows b cenv job y (Sender.stream_event handle e) ∙ ground arith
own_client-knows b cenv job y e = step-knows b cenv job y e ∙ ground arith

pub receiver_append :
    (senv : ServerEnv) (es fs : List Receiver.Event) (y : Receiver.System)
    → Receiver.run senv y (es ++ fs) ≡ Receiver.run senv (Receiver.run senv y es) fs
unfolding Receiver.run
receiver_append senv [] fs y = refl
receiver_append senv (e ∷ es) fs y = receiver_append senv es fs (Receiver.step senv y e)

module _ (cenv : ClientEnv) (senv : ServerEnv) (job : Job) (client_stream server_stream : ℕ) where
  abbrev next : Net → NetEvent → Net
  next = net_step cenv senv job client_stream server_stream

  abbrev pub for_sender : Net → NetEvent → List Sender.Event
  for_sender = at_client cenv senv job client_stream server_stream

  abbrev pub for_receiver : Net → NetEvent → List Receiver.Event
  for_receiver = at_server cenv senv job client_stream server_stream

  -- The events of either side in a run of the network.
  abbrev pub client_trace : Net → List NetEvent → List Sender.Event
  client_trace n [] = []
  client_trace n (e ∷ es) = for_sender n e ++ client_trace (next n e) es

  abbrev pub server_trace : Net → List NetEvent → List Receiver.Event
  server_trace n [] = []
  server_trace n (e ∷ es) = for_receiver n e ++ server_trace (next n e) es

  pub client_trace-run :
      (es : List NetEvent) (n : Net)
      → (net_run cenv senv job client_stream server_stream n es).client
        ≡ Sender.run cenv job n.client (client_trace n es)
  unfolding net_run net_step Sender.run
  client_trace-run [] n = refl
  client_trace-run (e ∷ es) n =
      client_trace-run es (next n e)
      ∙ sym (run-append cenv job (for_sender n e) (client_trace (next n e) es) n.client)

  pub server_trace-run :
      (es : List NetEvent) (n : Net)
      → (net_run cenv senv job client_stream server_stream n es).server
        ≡ Receiver.run senv n.server (server_trace n es)
  unfolding net_run net_step Receiver.run
  server_trace-run [] n = refl
  server_trace-run (e ∷ es) n =
      server_trace-run es (next n e)
      ∙ sym (receiver_append senv (for_receiver n e) (server_trace (next n e) es) n.server)

  -- The sender knows an 'O' only if the receiver has sent "OK".
  pub record IsInformed (n : Net) : Type 0 where
    pub spoken : SaysOk server_stream n.server.server.calls
    pub informed : knows b'O' n.client.client ≡ true → ok_sent n.server.server.calls ≡ true

  heard-IsInformed :
      (ks : List ℕ) (n : Net)
      → IsInformed n
      → knows b'O' (Sender.run cenv job n.client (for_sender n (to_client ks))).client ≡ true
      → ok_sent n.server.server.calls ≡ true
  unfolding Sender.run
  heard-IsInformed ks n v h =
      let buffers = for_client cenv senv job client_stream server_stream ks n in
      let e = Sender.stream_event client_stream (ClientEvents.receive buffers) in
      let sent = sent_on server_stream n.server.server.calls in
      let split = step-knows b'O' cenv job n.client e in
      elim (Bool-cases (knows b'O' n.client.client)) [
        | inl before ↦ v.informed before
        | inr not_before ↦
            let now : contains b'O' (concat buffers) ≡ true = ground (arith, split) in
            let flying = contains-cut_into b'O' ks (drop n.heard sent) now in
            v.spoken (ground (arith, contains-parts b'O' n.heard sent, flying))
      ]

  event-IsInformed :
      (e : NetEvent) (n : Net)
      → IsInformed n
      → knows b'O' (Sender.run cenv job n.client (for_sender n e)).client ≡ true
      → ok_sent n.server.server.calls ≡ true
  unfolding Sender.run
  event-IsInformed (to_client ks) n v h = heard-IsInformed ks n v h
  event-IsInformed (client_does e) n v h =
      v.informed (sym (own_client-knows b'O' cenv job n.client e) ∙ h)
  event-IsInformed (to_server ks) n v h = v.informed h
  event-IsInformed (server_does e) n v h = v.informed h

  net_step-IsInformed : (e : NetEvent) (n : Net) → IsInformed n → IsInformed (next n e)
  unfolding net_step
  net_step-IsInformed e n v = record {
    spoken = run-SaysOk server_stream senv (for_receiver n e) n.server v.spoken;
    informed = λ h. run-ok_sent senv (for_receiver n e) n.server (event-IsInformed e n v h);
  }

  pub net_run-IsInformed :
      (es : List NetEvent) (n : Net)
      → IsInformed n
      → IsInformed (net_run cenv senv job client_stream server_stream n es)
  unfolding net_run
  net_run-IsInformed [] n v = v
  net_run-IsInformed (e ∷ es) n v = net_run-IsInformed es (next n e) (net_step-IsInformed e n v)
