-- ===== src/Samples/Configs.antt =====
-- The default values of ooo.go for a server that sets two of them.
use ooo.Base.{ℕ, false, true, [], none, some, pos}
use ooo.Server.Defaults.{Config}

abbrev config : Config ℕ
config = record {
  router = none;
  deadline = pos 0;
  on_close = none;
  allowed_origins = [];
  allowed_methods = [];
  allowed_headers = [];
  console = none;
  stream_console = none;
  storage = some 7;
  tick = pos 5;
  read_timeout = pos 0;
  write_timeout = pos 0;
  read_header_timeout = pos 0;
  idle_timeout = pos 0;
  audit = none;
  on_subscribe = none;
  stream_on_subscribe = none;
  on_unsubscribe = none;
  stream_on_unsubscribe = none;
  workers = pos 0;
  no_broadcast_keys = none;
  client = none;
  force_patch = true;
  no_patch = false;
  stream = record { force_patch = false; no_patch = false; pools = []; written = []; closed = [] };
}
