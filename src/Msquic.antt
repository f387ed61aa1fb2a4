-- ===== src/Msquic.antt =====
-- The calls that LFT makes of msquic (and of the file system, where it creates directories), as
-- they are logged in the order in which they are made. Handles are numbers, 0 is the null pointer.
use lft.Base.{ℕ, Bool, Bytes}

pub data Call : Type 0 where
  stream_open stream_start stream_close stream_abort : ℕ → Call
  stream_send : ℕ → Bytes → Bool → Call
  connection_open connection_start connection_close connection_shutdown : ℕ → Call
  set_stream_callback set_connection_callback set_configuration : ℕ → Call
  create_directories : Bytes → Call
  api_open api_close : Call
  registration_open registration_close configuration_open configuration_close : ℕ → Call
  load_credential : ℕ → Call
  listener_open listener_start listener_stop listener_close : ℕ → Call
