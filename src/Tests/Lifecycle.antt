-- ===== src/Tests/Lifecycle.antt =====
-- The set-up and the release of msquic's objects at concrete inputs.
use lft.Base.{◌≡◌, refl, true, false, [], ◌∷◌, none, some}
use lft.Handles.{held_after, apply_op, api_table, registration, configuration, listener}
use lft.Server.Lifecycle.{
  Endpoint, StartEnv, start, stop, register, open_configuration, configure, open_listener, listen,
}
use lft.Server.Lifecycle.Release.{IsIdle, start-releases}
use lft.Client.Lifecycle.{Link, ConnectEnv, failed, connect, disconnect}
use lft.Client.Lifecycle.Release.{connect-releases}

abbrev idle : Endpoint
idle = record {
  api = false;
  registration = none;
  configuration = none;
  listener = none;
  client_connection = none;
  running = false;
  receiving_file = false;
  shut_down = [];
  ops = [];
}

-- The port is taken.
abbrev env : StartEnv
env = record {
  open_api = true;
  open_registration = some 1;
  certificates_exist = true;
  open_configuration = some 2;
  load_credential = true;
  open_listener = some 3;
  parse_address = true;
  start_listener = false;
}

start-releases_example : IsIdle (start env idle).0
unfolding start stop register open_configuration configure open_listener listen held_after
start-releases_example =
    (start-releases env idle (record {
      nothing_held = refl;
      no_api = refl;
      no_registration = refl;
      no_configuration = refl;
      no_listener = refl;
      not_running = refl;
    })).1
      refl

abbrev free_port : StartEnv
free_port = record env { start_listener = true }

-- What a running server holds.
starts :
    held_after (start free_port idle).0.ops
    ≡ some (listener 3 ∷ configuration 2 ∷ registration 1 ∷ api_table ∷ [])
unfolding start register open_configuration configure open_listener listen held_after apply_op
starts = refl

abbrev offline : Link
offline = record {
  connected = false;
  api = false;
  registration = none;
  configuration = none;
  connection = none;
  shut_down = [];
  ops = [];
}

-- The handshake fails, and the connection stays open.
abbrev refused : ConnectEnv
refused = record {
  open_api = true;
  open_registration = some 1;
  open_configuration = some 2;
  load_credential = true;
  open_connection = some 3;
  start_connection = true;
  handshake = failed false;
  shutdown_in_time = true;
}

connect-releases_example : held_after (connect refused offline).0.ops ≡ some []
unfolding connect held_after lft.Client.Lifecycle.register lft.Client.Lifecycle.configure
    lft.Client.Lifecycle.open_connection lft.Client.Lifecycle.shake_hands
connect-releases_example =
    ((connect-releases refused refl offline (record {
      nothing_held = refl;
      no_api = refl;
      no_registration = refl;
      no_configuration = refl;
      no_connection = refl;
      not_connected = refl;
    })).1
      refl).nothing_held
