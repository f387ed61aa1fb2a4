-- ===== src/Tests/Server.antt =====
-- Runs of the receiver, and its theorems at concrete inputs.
use lft.Base.{
  ◌≡◌, ◌⊎◌, refl, true, false, Bool, List, [], ◌∷◌, ◌++◌, none, some, arith, Bytes, codes, equal,
  contains, cut_at, take, drop,
}
use lft.Wire.Name.{sanitize_file_name}
use lft.Wire.Number.{print_u64, parse_full_u64, is_digit, scan_digits}
use lft.Wire.Header.{
  FileTransferHeader, encode_file_header, decode_file_header, starts_line, cut_blank, split_lines,
  decode_field, decode_line, decode_lines, complete, decode_block, is_sha256_hex, to_lower_ascii,
}
use lft.Server.State.{ServerEnv, Server, new_server}
use lft.Server.Receive.{
  append_file_bytes, try_parse_file_header, header_arrived, auto_accept, append_body,
  finish_file_receive, verify, header_missing,
}
use lft.Server.Receive.Bounds.{InBounds}
use lft.Server.Receive.Verify.{finish_file_receive-judges}
use lft.Server.Receive.Whole.{stream-judged}
use lft.Server.Events.{
  receive, peer_send_shutdown, send_complete, peer_stream_started, connected, append_all,
  on_stream_event, on_connection_event,
}
use lft.Server.Session.{
  Event, System, receive_file, looks_like_dir, app_step, step, run, stream_event, connection_event,
  app, returned,
}
use lft.Server.Session.Bounds.{run-receive_file-InBounds}
use lft.Server.Session.Quiet.{ok_sent}
use lft.Server.Session.Success.{receive_file_returns_verified}
use lft.Server.Session.Termination.{run_receive_file_returns}
use lft.Server.Session.Consent.{IsUntouched, IsConsented, run_guards_disk}

abbrev digest : Bytes
digest = codes "0123456789abcdef0123456789abcdef0123456789abcdef0123456789abcdef"

-- Every call succeeds, and every file has the same hash.
abbrev env : ServerEnv
env = record {
  send_ok = λ calls. true;
  configure_ok = λ calls. true;
  open_ok = λ path. true;
  is_directory = λ path. false;
  write = λ disk chunk. (disk ++ chunk, true);
  sha256_file = λ disk. some digest;
}

abbrev hello : FileTransferHeader
hello = record { name = codes "hi.txt"; size = 5; sha256_hex = digest }

abbrev hello_header : Bytes
hello_header = codes "LFT/1\nname=hi.txt\nsize=5\nhash=" ++ (digest ++ codes "\n\n")

abbrev pieces : List Bytes
pieces = take 20 hello_header ∷ (drop 20 hello_header ++ codes "he") ∷ codes "llo" ∷ []

abbrev fresh : Server
fresh = record (new_server (codes "old")) { receiving_file = true }

stream-judged_example : (append_all env fresh pieces).disk ≡ codes "hello"
unfolding encode_file_header sanitize_file_name print_u64 is_sha256_hex to_lower_ascii equal
    contains
stream-judged_example =
    (stream-judged env hello (codes "hello") pieces fresh 4
      (record { opens = λ path. refl; writes = λ disk chunk. refl }) (omega arith) refl
      (omega arith) (omega arith) refl
      (record {
        receiving = refl;
        awaiting = record {
          no_prompt = refl;
          unparsed = refl;
          buffer = refl;
          no_error = refl;
          no_overflow = refl;
          nothing_written = refl;
        };
      })).0

-- The receiver behind the last byte.
abbrev whole : Server
whole = record fresh {
  file_header = hello;
  file_header_parsed = true;
  file_accepted = true;
  file_out = some true;
  file_bytes_written = 5;
  disk = codes "hello";
}

finish_file_receive-judges_example :
    (finish_file_receive env whole 4).file_result.computed_hash ≡ digest
finish_file_receive-judges_example =
    ((finish_file_receive-judges env whole 4).1 (record {
      no_io_error = refl;
      parsed = refl;
      opened = refl;
      no_overflow = refl;
      size_exact = refl;
      hash_exact = refl;
    })).1

-- A whole session with no prompt.
abbrev session : List Event
session =
    connection_event 1 connected
    ∷ connection_event 1 (peer_stream_started 4)
    ∷ stream_event 4 (receive pieces)
    ∷ stream_event 4 peer_send_shutdown
    ∷ stream_event 4 send_complete
    ∷ app false
    ∷ app true
    ∷ []

abbrev start : System
start = receive_file env (codes "out/") none true (new_server [])

session_returns : (run env start session).phase ≡ returned true
unfolding receive_file looks_like_dir run step app_step on_stream_event on_connection_event
    append_all append_file_bytes try_parse_file_header header_arrived auto_accept append_body
    finish_file_receive verify decode_file_header starts_line cut_blank split_lines decode_field
    decode_line decode_lines complete decode_block header_missing sanitize_file_name parse_full_u64
    scan_digits is_digit is_sha256_hex to_lower_ascii equal contains cut_at
session_returns = refl

receive_file_returns_verified_example : ok_sent (run env start session).server.calls ≡ true
receive_file_returns_verified_example =
    (receive_file_returns_verified env (codes "out/") none true [] session session_returns).0

run-receive_file-InBounds_example : InBounds (run env start session).server
run-receive_file-InBounds_example =
    run-receive_file-InBounds env (codes "out/") none true [] session

abbrev refuses : FileTransferHeader → Bool
refuses h = false

run_guards_disk_example :
    let y = receive_file env (codes "out/") (some refuses) true (new_server (codes "old")) in
    IsUntouched refuses (codes "old") (run env y session).server
    ⊎ IsConsented refuses (codes "old") env y session
run_guards_disk_example = run_guards_disk refuses (codes "old") env (codes "out/") true session

run_receive_file_returns_example :
    let y = receive_file env (codes "out/") (some refuses) true (new_server []) in
    (result : Bool) × ((run env y (app true ∷ app true ∷ app true ∷ app true ∷ [])).phase
      ≡ returned result)
run_receive_file_returns_example =
    run_receive_file_returns env (codes "out/") (some refuses) true (new_server [])
      (app true ∷ app true ∷ app true ∷ app true ∷ []) (omega arith)
