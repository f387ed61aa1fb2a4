-- ===== src/Network/Delivered.antt =====
-- What is on the receiver's disk when `send_file` returns true. Here the receiver has no prompt and
-- a file system that takes every byte.
use Prim.{Unit, tt}
use lft.Base.{
  ℕ, ◌+◌, ◌≤◌, ◌<◌, Bool, true, false, List, [], ◌∷◌, ◌++◌, some, ◌≡◌, inl, inr, refl, ap, arith,
  Bytes, length, drop, All, subst, Bool-cases, length-take,
}
use lft.Wire.Number.{u64_mod}
use lft.Wire.Header.{FileTransferHeader, decode_file_header}
use lft.Client.State.{ClientEnv}
use lft.Client.Send.{Job, returned, job_of, send_file}
use lft.Client.Send.Sent.{Reads, text, IsSending}
use lft.Client.Send.OnWire.{run-IsSending}
use lft.Server.State.{ServerEnv, max_header_bytes, u32_mod}
use lft.Server.Receive.Verify.{IsComplete}
use lft.Server.Receive.Delivery.{Works}
use lft.Server.Receive.Pieces.{IsPiece}
use lft.Server.Session.Quiet.{ok_sent}
use lft.Server.Session.Following.Steps.{GoesOn, other-GoesOn, receive-GoesOn, step-exact}
use lft.Client.Send as Sender
use lft.Server.Events as ServerEvents
use lft.Server.Session as Receiver
use lft.Network.{
  cut_into, Net, NetEvent, to_client, to_server, client_does, server_does, own_server, at_client,
  net_step, net_run,
}
use lft.Network.InFlight.{OnWire-IsPartOut, next_bytes}
use lft.Network.Agreement.{client_trace, client_trace-run}
use lft.Network.Success.{run-returned}

abbrev pub starts_stream : Receiver.Event → Bool
starts_stream (Receiver.connection_event c (ServerEvents.peer_stream_started stream)) = true
starts_stream _ = false

-- No other stream starts at the receiver, and a buffer leaves room for a header in its length.
abbrev pub IsOrderly : NetEvent → Type 0
IsOrderly (to_server ks) = All (λ k. k + max_header_bytes < u32_mod) ks
IsOrderly (server_does e) = starts_stream e ≡ false
IsOrderly _ = Unit

-- At some moment of the run the file on the receiver's disk was complete, and was `content`.
pub record IsDelivered (cenv : ClientEnv) (senv : ServerEnv) (job : Job)
    (client_stream server_stream : ℕ) (content : Bytes) (x : Net) (es : List NetEvent)
    : Type 0 where
  pub before : List NetEvent
  pub after : List NetEvent
  pub splits : es ≡ before ++ after
  pub complete :
      IsComplete senv (net_run cenv senv job client_stream server_stream x before).server.server
  pub exact :
      (net_run cenv senv job client_stream server_stream x before).server.server.disk ≡ content

cut_into-pieces :
    (ks : List ℕ) (s : Bytes)
    → All (λ k. k + max_header_bytes < u32_mod) ks
    → All IsPiece (cut_into ks s)
cut_into-pieces [] s v = tt
cut_into-pieces (k ∷ ks) s (v, vs) =
    (omega (arith, length-take k s), cut_into-pieces ks (drop k s) vs)

module _ (cenv : ClientEnv) (senv : ServerEnv) (job : Job) (client_stream server_stream : ℕ)
    (content : Bytes) (reads : Reads cenv job.file_path content) (fits : job.file_size < u64_mod)
    (w : Works senv) (h : FileTransferHeader) (size : ℕ) (small : size ≤ max_header_bytes)
    (decoded : decode_file_header (text job content ++ content) ≡ some (h, size))
    (rest : drop size (text job content ++ content) ≡ content)
    (sized : h.size ≡ length content) where
  abbrev pub whole : Bytes
  whole = text job content ++ content

  abbrev next : Net → NetEvent → Net
  next = net_step cenv senv job client_stream server_stream

  abbrev pub Goes : ℕ → Receiver.System → Type 0
  Goes = GoesOn senv w h size small whole

  pub record IsUnderWay (x : Net) : Type 0 where
    pub sending : IsSending job content x.client
    pub goes_on : Goes x.read x.server

  own-Goes :
      (r : ℕ) (y : Receiver.System) (e : Receiver.Event)
      → starts_stream e ≡ false
      → Goes r y
      → Goes r (Receiver.run senv y (own_server e))
  unfolding Receiver.run
  own-Goes r y (Receiver.stream_event stream (ServerEvents.receive bs)) o k = k
  own-Goes r y (Receiver.connection_event c (ServerEvents.peer_stream_started stream)) o k =
      absurd (ground (arith, o))
  own-Goes r y e o k = other-GoesOn senv w h size small whole r y e refl k

  own-exact :
      (r : ℕ) (y : Receiver.System) (e : Receiver.Event)
      → Goes r y
      → ok_sent y.server.calls ≡ false
      → ok_sent (Receiver.run senv y (own_server e)).server.calls ≡ true
      → IsComplete senv y.server × (y.server.disk ≡ content)
  unfolding Receiver.run
  own-exact r y (Receiver.stream_event stream (ServerEvents.receive bs)) k none_yet now =
      absurd (ground (arith, none_yet, now))
  own-exact r y e k none_yet now =
      step-exact senv w h size small whole decoded content rest sized r y e k none_yet now

  next-Goes :
      (e : NetEvent) (x : Net)
      → IsOrderly e
      → (x.client.phase ≡ returned false → ⊥)
      → IsUnderWay x
      → Goes (next x e).read (next x e).server
  unfolding net_step Receiver.run
  next-Goes (to_server ks) x o alive v =
      elim (OnWire-IsPartOut job content x.client.phase x.client.client v.sending.on_wire) [
        | inl failed ↦ absurd (alive failed)
        | inr (k, out) ↦
            receive-GoesOn senv w h size small whole decoded x.read _ x.server server_stream _
              (next_bytes whole _ k x.read ks out) (cut_into-pieces ks _ o) v.goes_on
      ]
  next-Goes (server_does e) x o alive v =
      let same : x.read ≡ x.read + 0 = omega arith in
      subst (λ r. Goes r (Receiver.run senv x.server (own_server e))) same
        (own-Goes x.read x.server e o v.goes_on)
  next-Goes (to_client ks) x o alive v =
      let same : x.read ≡ x.read + 0 = omega arith in subst (λ r. Goes r x.server) same v.goes_on
  next-Goes (client_does e) x o alive v =
      let same : x.read ≡ x.read + 0 = omega arith in subst (λ r. Goes r x.server) same v.goes_on

  next-IsUnderWay :
      (e : NetEvent) (x : Net)
      → IsOrderly e
      → (x.client.phase ≡ returned false → ⊥)
      → IsUnderWay x
      → IsUnderWay (next x e)
  unfolding net_step
  next-IsUnderWay e x o alive v = record {
    sending =
        run-IsSending job content cenv reads fits
          (at_client cenv senv job client_stream server_stream x e) x.client v.sending;
    goes_on = next-Goes e x o alive v;
  }

  event-exact :
      (e : NetEvent) (x : Net)
      → IsUnderWay x
      → ok_sent x.server.server.calls ≡ false
      → ok_sent (next x e).server.server.calls ≡ true
      → IsComplete senv x.server.server × (x.server.server.disk ≡ content)
  unfolding net_step Receiver.run
  event-exact (to_server ks) x v none_yet now =
      step-exact senv w h size small whole decoded content rest sized x.read x.server _ v.goes_on
        none_yet now
  event-exact (server_does e) x v none_yet now = own-exact x.read x.server e v.goes_on none_yet now
  event-exact (to_client ks) x v none_yet now = absurd (ground (arith, none_yet, now))
  event-exact (client_does e) x v none_yet now = absurd (ground (arith, none_yet, now))

  -- A sender that has failed does not return true later.
  not_failed :
      (es : List NetEvent) (x : Net)
      → (net_run cenv senv job client_stream server_stream x es).client.phase ≡ returned true
      → x.client.phase ≡ returned false
      → ⊥
  not_failed es x ended failed =
      let trace = client_trace cenv senv job client_stream server_stream x es in
      let still = run-returned cenv job trace x.client failed in
      let traced =
        ap (λ (y : Sender.System). y.phase)
          (client_trace-run cenv senv job client_stream server_stream es x) in
      ground (arith, still, ended, traced)

  pub run-IsDelivered :
      (es : List NetEvent) (x : Net)
      → All IsOrderly es
      → IsUnderWay x
      → ok_sent x.server.server.calls ≡ false
      → ok_sent (net_run cenv senv job client_stream server_stream x es).server.server.calls ≡ true
      → (net_run cenv senv job client_stream server_stream x es).client.phase ≡ returned true
      → IsDelivered cenv senv job client_stream server_stream content x es
  unfolding net_run
  run-IsDelivered [] x o v none_yet now ended = absurd (ground (arith, none_yet, now))
  run-IsDelivered (e ∷ es) x (o, os) v none_yet now ended =
      elim (Bool-cases (ok_sent (next x e).server.server.calls)) [
        | inl here ↦
            let (complete, exact) = event-exact e x v none_yet here in
            record {
              before = [];
              after = e ∷ es;
              splits = refl;
              complete = complete;
              exact = exact;
            }
        | inr later ↦
            let alive = not_failed (e ∷ es) x ended in
            let d =
              run-IsDelivered es (next x e) os (next-IsUnderWay e x o alive v) later now ended in
            record {
              before = e ∷ d.before;
              after = d.after;
              splits = ap (◌∷◌ e) d.splits;
              complete = d.complete;
              exact = d.exact;
            }
      ]
