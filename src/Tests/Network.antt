-- ===== src/Tests/Network.antt =====
-- A transfer over the network, from the first stream to both answers.
use lft.Base.{
  ◌≡◌, refl, true, false, List, [], ◌∷◌, ◌++◌, none, some, arith, codes, equal, contains,
  starts_with, not, ◌⊎◌, cut_at, length,
}
use lft.Wire.Name.{sanitize_file_name}
use lft.Wire.Number.{print_u64, parse_full_u64, is_digit, scan_digits}
use lft.Wire.Header.{
  encode_file_header, decode_file_header, starts_line, cut_blank, split_lines, decode_field,
  decode_line, decode_lines, complete, decode_block, is_sha256_hex, to_lower_ascii,
}
use lft.Hash.{digest_to_hex, hex_byte}
use lft.Client.Replay.{replay, replay_from, after}
use lft.Server.State.{new_server}
use lft.Server.Receive.{
  append_file_bytes, try_parse_file_header, header_arrived, auto_accept, append_body,
  finish_file_receive, verify, header_missing,
}
use lft.Server.Session.Success.{Witnessed}
use lft.Client.Events as ClientEvents
use lft.Client.Send as Sender
use lft.Server.Events as ServerEvents
use lft.Server.Session as Receiver
use lft.Network.{Net, NetEvent, to_client, to_server, client_does, server_does, net_step, net_run}
use lft.Network.Agreement.{server_trace}
use lft.Network.Success.{send_file_returns_received}
use lft.Client.Send.Consent.{IsQuiet}
use lft.Server.Session.Consent.{IsConsented}
use lft.Network.Consent.{net_run_asks_first}
use lft.Network.Delivered.{IsDelivered}
use lft.Network.Content.{stream_starts, send_file_returns-IsDelivered}
use lft.Tests.Client.{digest, content, env, server_env, online, path, job, online-IsHonest}

abbrev start : Net
start = record {
  client = Sender.send_file env path true online;
  server = Receiver.receive_file server_env (codes "in/") none false (new_server (codes "old"));
  heard = 0;
  read = 0;
}

abbrev later : List NetEvent
later =
    client_does (Sender.stream_event 7 ClientEvents.send_complete)
    ∷ client_does (Sender.app false)
    ∷ to_server (20 ∷ 1000 ∷ [])
    ∷ to_client (3 ∷ 4 ∷ [])
    ∷ client_does (Sender.app false)
    ∷ client_does (Sender.stream_event 7 ClientEvents.send_complete)
    ∷ client_does (Sender.app false)
    ∷ to_server (2 ∷ 3 ∷ [])
    ∷ server_does (Receiver.stream_event 4 ServerEvents.peer_send_shutdown)
    ∷ to_client (3 ∷ [])
    ∷ client_does (Sender.stream_event 7 ClientEvents.peer_send_shutdown)
    ∷ client_does (Sender.app false)
    ∷ []

abbrev events : List NetEvent
events = stream_starts 9 4 ∷ later

succeeds : (net_run env server_env job 7 4 start events).client.phase ≡ Sender.returned true
unfolding net_run net_step replay Sender.run Sender.step Sender.resume Sender.send_file
    Sender.send_measured Sender.send_file_internal ClientEvents.on_stream_event ClientEvents.decide
    ClientEvents.append_buffers contains starts_with equal Receiver.run Receiver.step
    Receiver.receive_file Receiver.looks_like_dir Receiver.app_step ServerEvents.on_stream_event
    ServerEvents.on_connection_event ServerEvents.append_all append_file_bytes try_parse_file_header
    header_arrived auto_accept append_body finish_file_receive verify encode_file_header
    decode_file_header starts_line cut_blank split_lines decode_field decode_line decode_lines
    complete decode_block is_sha256_hex to_lower_ascii sanitize_file_name print_u64 parse_full_u64
    is_digit scan_digits digest_to_hex hex_byte replay_from after header_missing cut_at
succeeds = refl

abbrev sent_job : Sender.Job
sent_job = Sender.job_of path true (length content) (digest_to_hex digest)

send_file_returns_received_example :
    (replay (net_run env server_env sent_job 7 4 start events).client.client.calls
      ≡ some (encode_file_header sent_job.header ++ content, true))
    × Witnessed server_env start.server (server_trace env server_env sent_job 7 4 start events)
send_file_returns_received_example =
    send_file_returns_received env server_env path content (digest_to_hex digest) true online
      (codes "in/") none false (codes "old") 7 4 events (λ offset want. refl) (omega arith) refl
      refl online-IsHonest succeeds

-- A receiver whose prompt takes no file of that name.
abbrev prompted : Net
prompted = record {
  client = Sender.send_file_internal env job online;
  server =
      Receiver.receive_file server_env (codes "in/")
        (some (λ h. not (equal h.name job.header.name))) false (new_server (codes "old"));
  heard = 0;
  read = 0;
}

net_run_asks_first_example :
    (IsQuiet env job online (net_run env server_env job 7 4 prompted events).client.client
      × ((net_run env server_env job 7 4 prompted events).server.server.disk ≡ codes "old"))
    ⊎ IsConsented
        (λ h. not (equal h.name job.header.name))
        (codes "old")
        server_env
        prompted.server
        (server_trace env server_env job 7 4 prompted events)
net_run_asks_first_example =
    net_run_asks_first (λ h. not (equal h.name job.header.name)) (codes "old") env server_env job 7
      4 online (codes "in/") false events online-IsHonest refl

abbrev first : Net
first = net_step env server_env sent_job 7 4 start (stream_starts 9 4)

arrives : (net_run env server_env sent_job 7 4 first later).client.phase ≡ Sender.returned true
unfolding net_run
arrives = succeeds

send_file_returns-IsDelivered_example : IsDelivered env server_env sent_job 7 4 content first later
unfolding is_sha256_hex encode_file_header print_u64 sanitize_file_name digest_to_hex hex_byte
    to_lower_ascii contains equal
send_file_returns-IsDelivered_example =
    send_file_returns-IsDelivered env server_env path content (digest_to_hex digest) true online
      (codes "in/") false (codes "old") 7 4 9 later (λ offset want. refl) (omega arith) refl refl
      refl online-IsHonest (record { opens = λ file. refl; writes = λ disk chunk. refl })
      (
        tt,
        (
          tt,
          (
            (omega arith, (omega arith, tt)),
            (
              tt,
              (tt, (tt, (tt, ((omega arith, (omega arith, tt)), (refl, (tt, (tt, (tt, tt)))))))),
            ),
          ),
        ),
      )
      (omega arith) arrives
