-- ===== src/Tests/Client.antt =====
-- Runs of the sender, and its theorems at concrete inputs.
use lft.Base.{
  Bool, length-take, ◌≡◌, refl, sym, ap, append-nil, append_assoc, concat, true, false, List, [],
  ◌∷◌, ◌++◌, some, arith, Bytes, codes, equal, contains, starts_with, take, drop, ◌⊎◌,
}
use lft.Wire.Name.{sanitize_file_name}
use lft.Wire.Number.{print_u64}
use lft.Wire.Header.{encode_file_header, is_sha256_hex, to_lower_ascii}
use lft.Hash.{Evp, digest_to_hex, hex_byte, sha256_file, sha256_bytes}
use lft.Hash.Blocks.{Appends, sha256_file-sha256_bytes}
use lft.Client.State.{ClientEnv, Client, new_client}
use lft.Client.Events.{
  receive, peer_send_shutdown, send_complete, append_buffers, decide, on_stream_event,
}
use lft.Client.Replay.{replay}
use lft.Client.Send.{
  System, Job, Event, stream_event, app, returned, job_of, send_file_internal, send_measured,
  send_file, resume, step, run,
}
use lft.Client.Send.Callbacks.{IsHonest}
use lft.Client.Send.Success.{send_file_returns_sent}
use lft.Client.Send.Termination.{run_returns}
use lft.Client.Send.Consent.{IsQuiet, IsAccepted, run_waits_for_accept}
use lft.Server.State.{ServerEnv, Server, new_server}
use lft.Server.Events.{append_all}
use lft.Client.Send.Completion.{IsWilling, unhindered}
use lft.Transfer.{transfer-delivers, transfer-completes}

-- 32 bytes.
abbrev pub digest : Bytes
digest = codes "0123456789abcdef0123456789abcdef"

abbrev pub content : Bytes
content = codes "hello"

-- Every call succeeds, and every file holds "hello".
abbrev pub env : ClientEnv
env = record {
  stream_open_handle = λ calls. some 7;
  stream_start_ok = λ calls. true;
  send_ok = λ calls. true;
  exists = λ path. true;
  is_directory = λ path. false;
  is_regular_file = λ path. true;
  file_size = λ path. some 5;
  sha256_file = λ path. some (digest_to_hex digest);
  open_ok = λ path. true;
  read = λ path offset want. take want (drop offset content);
}

abbrev pub server_env : ServerEnv
server_env = record {
  send_ok = λ calls. true;
  configure_ok = λ calls. true;
  open_ok = λ path. true;
  is_directory = λ path. false;
  write = λ disk chunk. (disk ++ chunk, true);
  sha256_file = λ disk. some (digest_to_hex digest);
}

abbrev pub online : Client
online = record new_client { connected = true; api = true; connection = 3 }

abbrev pub path : Bytes
path = codes "/tmp/hi.txt"

abbrev pub job : Job
job = job_of path true 5 (digest_to_hex digest)

abbrev events : List Event
events =
    stream_event 7 send_complete
    ∷ app false
    ∷ stream_event 7 (receive (codes "ACC" ∷ codes "EPT\n" ∷ []))
    ∷ app false
    ∷ stream_event 7 send_complete
    ∷ app false
    ∷ stream_event 7 (receive (codes "OK\n" ∷ []))
    ∷ stream_event 7 peer_send_shutdown
    ∷ app false
    ∷ []

abbrev start : System
start = send_file env path true online

pub online-IsHonest : IsHonest online
online-IsHonest = record {
  accepted = λ h. absurd (ground arith);
  acknowledged = λ h. absurd (ground arith);
}

succeeds : (run env job start events).phase ≡ returned true
unfolding run step resume send_file send_measured send_file_internal on_stream_event contains
    starts_with decide append_buffers
succeeds = refl

send_file_returns_sent_example :
    replay (run env job start events).client.calls
    ≡ some (encode_file_header job.header ++ content, true)
send_file_returns_sent_example =
    (send_file_returns_sent env path content true 5 (digest_to_hex digest) (λ offset want. refl)
      (omega arith) online events refl refl online-IsHonest succeeds).0

run_waits_for_accept_example :
    let c = (run env job (send_file_internal env job online) events).client in
    IsQuiet env job online c ⊎ IsAccepted env job online c
run_waits_for_accept_example = run_waits_for_accept env job online events online-IsHonest

-- A hash that returns what it was given.
abbrev evp : Evp
evp = record {
  Context = Bytes;
  init = some [];
  update = λ ctx more. some (ctx ++ more);
  final = λ ctx. some ctx;
}

evp-Appends : Appends evp
evp-Appends = record {
  update-nil = λ ctx. ap some (append-nil ctx);
  update-append = λ ctx a b. ap some (sym (append_assoc ctx a b));
}

sha256_file-sha256_bytes_example : sha256_file evp (some content) ≡ sha256_bytes evp content
sha256_file-sha256_bytes_example = sha256_file-sha256_bytes evp evp-Appends content

abbrev fresh : Server
fresh = record (new_server (codes "old")) { receiving_file = true }

abbrev pieces : List Bytes
pieces = encode_file_header job.header ∷ content ∷ []

carried : replay (run env job start events).client.calls ≡ some (concat pieces, true)
carried =
    (send_file_returns_sent env path content true 5 (digest_to_hex digest) (λ offset want. refl)
      (omega arith) online events refl refl online-IsHonest succeeds).0

transfer-delivers_example : (append_all server_env fresh pieces).disk ≡ content
unfolding encode_file_header sanitize_file_name print_u64 is_sha256_hex to_lower_ascii equal
    contains hex_byte digest_to_hex
transfer-delivers_example =
    (transfer-delivers env server_env path content digest true online events pieces fresh 4
      (record {
        reads = λ offset want. refl;
        measured = refl;
        size_fits = omega arith;
        digest_length = refl;
        digest_bytes = omega arith;
        hashed = refl;
        hashed_again = refl;
      })
      online-IsHonest (record { opens = λ file. refl; writes = λ disk chunk. refl })
      (record {
        receiving = refl;
        awaiting = record {
          no_prompt = refl;
          unparsed = refl;
          buffer = refl;
          no_error = refl;
          no_overflow = refl;
          nothing_written = refl;
        };
      })
      (omega arith) (omega arith) succeeds carried).0

willing : IsWilling env path content (digest_to_hex digest)
willing = record {
  opens = λ calls. refl;
  starts = λ calls. refl;
  sends = λ calls. refl;
  there = refl;
  no_directory = refl;
  regular = refl;
  measured = refl;
  size_fits = omega arith;
  hashed = refl;
  opened = refl;
  reads = λ offset want. refl;
}

transfer-completes_example : (run env job start (unhindered 4 1)).phase ≡ returned true
unfolding encode_file_header sanitize_file_name print_u64 is_sha256_hex to_lower_ascii equal
    contains hex_byte digest_to_hex
transfer-completes_example =
    (transfer-completes env server_env path content digest true online 1 pieces fresh 4 willing
      (record {
        reads = λ offset want. refl;
        measured = refl;
        size_fits = omega arith;
        digest_length = refl;
        digest_bytes = omega arith;
        hashed = refl;
        hashed_again = refl;
      })
      online-IsHonest refl (omega arith) (omega arith)
      (record { opens = λ file. refl; writes = λ disk chunk. refl })
      (record {
        receiving = refl;
        awaiting = record {
          no_prompt = refl;
          unparsed = refl;
          buffer = refl;
          no_error = refl;
          no_overflow = refl;
          nothing_written = refl;
        };
      })
      (omega arith) (omega arith) refl).0

run_returns_example :
    let es =
      app true
      ∷ app true
      ∷ app true
      ∷ app true
      ∷ app true
      ∷ app true
      ∷ app true
      ∷ app true
      ∷ app true
      ∷ [] in
    (result : Bool) × ((run env job (send_file_internal env job online) es).phase ≡ returned result)
run_returns_example =
    run_returns env job (λ offset want. omega (arith, length-take want (drop offset content)))
      (omega arith) online
      (app true
        ∷ app true
        ∷ app true
        ∷ app true
        ∷ app true
        ∷ app true
        ∷ app true
        ∷ app true
        ∷ app true
        ∷ [])
      (omega arith)
