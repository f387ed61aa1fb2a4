-- ===== src/Network.antt =====
-- `QuicClient` (src/transfer/quic_client.cpp) and `QuicServer` (src/transfer/quic_server.cpp) over
-- one stream, with the bytes in flight: msquic delivers what was sent on the stream, in order, cut
-- into buffers as it likes, and interleaves that with all else that happens on both sides.
pub mod Heard
pub mod Spoken
pub mod Reserved
pub mod Agreement
pub mod InFlight
pub mod Success
pub mod Consent
pub mod Delivered
pub mod Content
use lft.Base.{
  ℕ, ◌+◌, Bool, true, false, List, [], ◌∷◌, ◌++◌, Option, none, some, Bytes, length, take, drop,
  concat, ◌==◌, if◌then◌else◌,
}
use lft.Msquic.{Call, stream_send}
use lft.Client.State.{ClientEnv, Client}
use lft.Client.Replay.{Outgoing, replay}
use lft.Client.Send.{Job}
use lft.Server.State.{ServerEnv}
use lft.Client.Events as ClientEvents
use lft.Client.Send as Sender
use lft.Server.Events as ServerEvents
use lft.Server.Session as Receiver

-- What the calls send on a stream.
abbrev pub sent_by : ℕ → Call → Bytes
sent_by stream (stream_send handle message fin) = if handle == stream then message else []
sent_by stream _ = []

abbrev pub sent_on : ℕ → List Call → Bytes
sent_on stream [] = []
sent_on stream (c ∷ calls) = sent_by stream c ++ sent_on stream calls

-- The buffers of a RECEIVE event with these lengths.
abbrev pub cut_into : List ℕ → Bytes → List Bytes
cut_into [] bytes = []
cut_into (k ∷ ks) bytes = take k bytes ∷ cut_into ks (drop k bytes)

abbrev pub outgoing : Option Outgoing → Bytes
outgoing none = []
outgoing (some (bytes, fin)) = bytes

-- Both sides, and how many bytes of the stream each has received.
pub record Net : Type 0 where
  pub client : Sender.System
  pub server : Receiver.System
  pub heard : ℕ
  pub read : ℕ

-- Buffers of these lengths arrive, or something else happens on one side.
pub data NetEvent : Type 0 where
  to_client to_server : List ℕ → NetEvent
  client_does : Sender.Event → NetEvent
  server_does : Receiver.Event → NetEvent

-- A RECEIVE event comes only from the network.
abbrev pub own_client : Sender.Event → List Sender.Event
own_client (Sender.stream_event handle (ClientEvents.receive buffers)) = []
own_client e = e ∷ []

abbrev pub own_server : Receiver.Event → List Receiver.Event
own_server (Receiver.stream_event handle (ServerEvents.receive buffers)) = []
own_server e = e ∷ []

module _ (cenv : ClientEnv) (senv : ServerEnv) (job : Job) (client_stream server_stream : ℕ) where
  -- The buffers that arrive.
  abbrev pub for_client : List ℕ → Net → List Bytes
  for_client ks n = cut_into ks (drop n.heard (sent_on server_stream n.server.server.calls))

  abbrev pub for_server : List ℕ → Net → List Bytes
  for_server ks n = cut_into ks (drop n.read (outgoing (replay n.client.client.calls)))

  -- What an event of the network is for either side.
  abbrev pub at_client : Net → NetEvent → List Sender.Event
  at_client n (to_client ks) =
      Sender.stream_event client_stream (ClientEvents.receive (for_client ks n)) ∷ []
  at_client n (client_does e) = own_client e
  at_client n _ = []

  abbrev pub at_server : Net → NetEvent → List Receiver.Event
  at_server n (to_server ks) =
      Receiver.stream_event server_stream (ServerEvents.receive (for_server ks n)) ∷ []
  at_server n (server_does e) = own_server e
  at_server n _ = []

  abbrev pub gained : List Bytes → ℕ
  gained buffers = length (concat buffers)

  unfoldable pub net_step : Net → NetEvent → Net
  net_step n e = record {
    client = Sender.run cenv job n.client (at_client n e);
    server = Receiver.run senv n.server (at_server n e);
    heard = n.heard + elim e [ to_client ks ↦ gained (for_client ks n) | _ ↦ 0 ];
    read = n.read + elim e [ to_server ks ↦ gained (for_server ks n) | _ ↦ 0 ];
  }

  unfoldable pub net_run : Net → List NetEvent → Net
  unfolding net_step
  net_run n [] = n
  net_run n (e ∷ es) = net_run (net_step n e) es
