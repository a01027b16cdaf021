-- ===== src/Engine/Tests.antt =====
-- An engine on sample settings.
use suba_sync.Prelude.{codes, true, false, ◌≡◌, List, [], ◌∷◌, pos, arith}
use suba_sync.Json.Sample.{text, truth, whole, sample}
use suba_sync.Settings.{Settings}
use suba_sync.Engine.{Options, Network, Engine, finished, make_engine, start}
use suba_sync.Engine.Runs.{IsSound}
use suba_sync.Engine.Lifecycle.{
  Call, start_call, background_call, stop_call, name_call, apply_all, apply_all-make_engine,
  start-start,
}

abbrev options : Options
options = record {
  display_name = [];
  external_address = [];
  start_cli_thread = true;
  enable_connect_timer = true;
  watch_interval = pos 0;
  workspace_root = [];
}

abbrev network : Network
network = record {
  current_path = codes "/home";
  is_address = λ ip. true;
  listens = λ ip port. true;
  local_port = 40000;
}

abbrev settings : Settings sample
settings = record {
  settings =
      (codes "verbose", truth false)
      ∷ (codes "peer_id", text (codes "alice"))
      ∷ (codes "listen_ip", text (codes "0.0.0.0"))
      ∷ (codes "listen_port", whole (pos 70000))
      ∷ [];
  setting_specs = [];
  settings_path_override = [];
}

abbrev calls : List Call
calls = name_call (codes "Alice") ∷ start_call network ∷ background_call network ∷ stop_call ∷ []

apply_all-make_engine_example :
    IsSound sample (apply_all sample calls (make_engine sample settings options (codes "/home") 1))
apply_all-make_engine_example =
    apply_all-make_engine sample settings options (codes "/home") 1 calls
      (tt, (omega arith, (omega arith, (tt, tt))))

abbrev fresh : Engine sample
unfolding make_engine
fresh = make_engine sample settings options (codes "/home") 1

fresh-IsSound : IsSound sample fresh
unfolding fresh apply_all
fresh-IsSound = apply_all-make_engine sample settings options (codes "/home") 1 [] tt

-- The port is out of range, so the first start throws.
start-start_example :
    start sample network (start sample network fresh).engine
    ≡ finished sample (start sample network fresh).engine
start-start_example = start-start sample network network fresh (omega arith) fresh-IsSound
