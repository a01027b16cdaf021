-- ===== src/Engine.antt =====
-- The engine that holds a node's parts (src/mesh_engine.hpp, src/mesh_engine.cpp): starting, which
-- reads the settings and can throw at many places, and stopping. Threads, sockets and timers are
-- whether they are there; what the network answers is an argument.
pub mod Runs
pub mod Lifecycle
mod Tests
use suba_sync.Prelude.{
  ℕ, suc, Str, codes, Bool, true, false, not, ◌&&◌, ◌||◌, Option, none, some, List, [], ◌∷◌, ◌++◌,
  ℤ, pos, negsuc, nat_beq, leb, str_eq, if◌then◌else◌, is_empty, take, drop, ◌>>=◌,
}
use suba_sync.Prelude.Dict.{lookup}
use suba_sync.Text.{find}
use suba_sync.Text.Decimal.{
  to_string, stoi, StoiResult, value, invalid_argument, out_of_range, to_ushort,
}
use suba_sync.Paths.{append_path}
use suba_sync.Peers.{Mesh, init}
use suba_sync.Json.{JsonApi}
use suba_sync.Settings.{Settings}
use suba_sync.Settings.Files.{settings_path, set_settings_path}

-- `MeshEngine::Options`; the interval is in seconds.
pub record Options : Type 0 where
  pub display_name : Str
  pub external_address : Str
  pub start_cli_thread : Bool
  pub enable_connect_timer : Bool
  pub watch_interval : ℤ
  pub workspace_root : Str

-- What the system answers: the current directory, whether `make_address` takes a text, whether the
-- acceptor can open, bind and listen, and the port that it is given.
pub record Network : Type 0 where
  pub current_path : Str
  pub is_address : Str → Bool
  pub listens : Str → ℕ → Bool
  pub local_port : ℕ

-- The members; `next_id` is the counter of `random_peer_id`.
pub record Engine (J : JsonApi) : Type 0 where
  pub options : Options
  pub settings : Settings J
  pub io_thread : Bool
  pub acceptor : Bool
  pub connect_timer : Bool
  pub peer_manager : Option Mesh
  pub cli : Bool
  pub started : Bool
  pub cli_thread_running : Bool
  pub local_address : Str
  pub peer_id : Str
  pub listen_ip : Str
  pub listen_port : ℕ
  pub bootstrap_peer : Str
  pub next_id : ℕ

-- The engine after a call, the outgoing connections, and whether an exception ended the call.
pub record Outcome (J : JsonApi) : Type 0 where
  pub engine : Engine J
  pub dials : List (Str × ℕ)
  pub threw : Bool

abbrev is_positive : ℤ → Bool
is_positive (pos n) = not (nat_beq n 0)
is_positive (negsuc n) = false

-- `listen_port_value < 0 || listen_port_value > 65535` throws.
unfoldable pub to_port : ℤ → Option ℕ
to_port (pos n) = if leb n 65535 then some n else none
to_port (negsuc n) = none

unfoldable pub make_local_addr : Str → ℕ → Str
unfolding to_string
make_local_addr ip port = ip ++ codes ":" ++ to_string port

-- The connection to the bootstrap peer; a text without a colon, or that `stoi` refuses, is logged.
unfoldable pub bootstrap_dials : Str → List (Str × ℕ)
unfolding find stoi
bootstrap_dials peer = elim (find b':' peer) [
  | none ↦ []
  | some at ↦ elim (stoi (drop (suc at) peer)) [
    | value port ↦ (take at peer, to_ushort port) ∷ []
    | invalid_argument ↦ []
    | out_of_range ↦ []
  ]
]

module _ (J : JsonApi) where
  -- The constructor.
  unfoldable pub make_engine : Settings J → Options → Str → ℕ → Engine J
  make_engine settings options current_path next_id = record {
    options = record options {
      watch_interval =
          if is_positive options.watch_interval then options.watch_interval else pos 60;
      workspace_root =
          if is_empty options.workspace_root then current_path else options.workspace_root;
    };
    settings = settings;
    io_thread = false;
    acceptor = false;
    connect_timer = false;
    peer_manager = none;
    cli = false;
    started = false;
    cli_thread_running = false;
    local_address = [];
    peer_id = [];
    listen_ip = [];
    listen_port = 0;
    bootstrap_peer = [];
    next_id = next_id;
  }

  -- `settings_->get<T>(key)`, with `none` for the exception.
  unfoldable pub get_bool : Str → Engine J → Option Bool
  get_bool key e = lookup key e.settings.settings >>= J.as_bool

  unfoldable pub get_string : Str → Engine J → Option Str
  get_string key e = lookup key e.settings.settings >>= J.as_string

  unfoldable pub get_int : Str → Engine J → Option ℤ
  get_int key e = lookup key e.settings.settings >>= J.as_integer

  abbrev pub finished : Engine J → Outcome J
  finished e = record { engine = e; dials = []; threw = false }

  -- A reading that throws leaves the engine as far as it was.
  unfoldable pub reading : {A : Type 0} → Option A → Engine J → (A → Outcome J) → Outcome J
  reading none e next = record { engine = e; dials = []; threw = true }
  reading (some a) e next = next a

  unfoldable pub unless_refused : Bool → Engine J → Outcome J → Outcome J
  unless_refused true e next = next
  unless_refused false e next = record { engine = e; dials = []; threw = true }

  unfoldable pub use_settings_path : Network → Engine J → Engine J
  unfolding settings_path set_settings_path
  use_settings_path net e =
      if is_empty (settings_path J net.current_path e.settings)
      then record e {
        settings =
            set_settings_path J
              (append_path (append_path e.options.workspace_root (codes ".config"))
                (codes "settings.json"))
              e.settings;
      }
      else e

  -- `peer_id_`, drawn if the setting is empty.
  unfoldable pub name_peer : Str → Engine J → Engine J
  unfolding to_string
  name_peer id e =
      if is_empty id
      then record e {
        peer_id = codes "engine-peer-" ++ to_string e.next_id;
        next_id = suc e.next_id;
      }
      else record e { peer_id = id }

  unfoldable pub start_cli : Engine J → Engine J
  start_cli e =
      if not e.cli || e.cli_thread_running then e else record e { cli_thread_running = true }

  -- The parts that are made once the acceptor listens.
  unfoldable pub with_parts : Network → Engine J → Engine J
  unfolding make_local_addr init
  with_parts net e =
      let port = if nat_beq e.listen_port 0 then net.local_port else e.listen_port in
      let addr = make_local_addr e.listen_ip port in
      let name = if is_empty e.options.display_name then e.peer_id else e.options.display_name in
      record e {
        listen_port = port;
        local_address = addr;
        peer_manager = some (init e.peer_id name addr e.options.external_address 6);
        connect_timer = e.options.enable_connect_timer || e.connect_timer;
        cli = true;
      }

  -- The end of `start`.
  unfoldable pub assemble : Network → Engine J → Outcome J
  unfolding with_parts bootstrap_dials start_cli
  assemble net e = record {
    engine = if e.options.start_cli_thread then start_cli (with_parts net e) else with_parts net e;
    dials = bootstrap_dials e.bootstrap_peer;
    threw = false;
  }

  -- The acceptor is made before it is opened and bound.
  unfoldable pub open_acceptor : Network → Engine J → Outcome J
  unfolding assemble
  open_acceptor net e =
      let made : Engine J = record e { acceptor = true } in
      unless_refused (net.is_address e.listen_ip) e
        (unless_refused (net.listens e.listen_ip e.listen_port) made (assemble net made))

  -- The settings behind the port.
  unfoldable pub read_rest : Network → Engine J → Outcome J
  unfolding get_string get_bool open_acceptor
  read_rest net e = reading (get_string (codes "bootstrap_peer") e) e (λ peer.
      let e' : Engine J = record e { bootstrap_peer = peer } in
      reading (get_bool (codes "audio_notifications") e) e'
        (λ audio. reading (get_bool (codes "transfer_debug") e) e' (λ debug. open_acceptor net e')))

  -- The settings from `verbose` to the port.
  unfoldable pub configure : Network → Engine J → Outcome J
  unfolding get_bool get_string get_int name_peer to_port read_rest
  configure net e = reading (get_bool (codes "verbose") e) e (λ verbose.
      reading (get_string (codes "peer_id") e) e (λ id.
        reading (get_string (codes "listen_ip") e) (name_peer id e) (λ ip.
          let e' : Engine J = record (name_peer id e) { listen_ip = ip } in
          reading (get_int (codes "listen_port") e >>= to_port) e'
            (λ port. read_rest net (record e' { listen_port = port })))))

  unfoldable pub start : Network → Engine J → Outcome J
  unfolding use_settings_path configure
  start net e =
      if e.started
      then finished e
      else configure net (use_settings_path net (record e { started = true }))

  -- `run`: what `io_.run()` does is the peer manager's.
  unfoldable pub run : Network → Engine J → Outcome J
  unfolding start
  run net e = if e.started then finished e else start net e

  unfoldable pub launch_thread : Outcome J → Outcome J
  launch_thread o =
      if o.threw then o else record o { engine = record o.engine { io_thread = true } }

  -- `start_background`; a thread that is there is joinable.
  unfoldable pub start_background : Network → Engine J → Outcome J
  unfolding run launch_thread
  start_background net e = launch_thread (run net e)

  unfoldable pub stop : Engine J → Engine J
  stop e = if not e.started then e else record e {
    started = false;
    cli_thread_running = if e.cli then false else e.cli_thread_running;
    connect_timer = false;
    acceptor = false;
    io_thread = false;
  }

  unfoldable pub set_display_name : Str → Engine J → Engine J
  set_display_name name e = record e { options = record e.options { display_name = name } }

  unfoldable pub set_external_address : Str → Engine J → Engine J
  set_external_address address e = record e {
    options = record e.options { external_address = address };
  }
