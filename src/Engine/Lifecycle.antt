-- ===== src/Engine/Lifecycle.antt =====
-- What holds of an engine after any calls (src/mesh_engine.cpp).
use suba_sync.Prelude.{
  ℕ, ◌≡◌, refl, ap, Str, Bool, true, false, not, List, [], ◌∷◌, ◌≤◌, arith, if◌then◌else◌,
  Bool-cases, inl, inr, All,
}
use suba_sync.Json.{JsonApi}
use suba_sync.Settings.{Settings}
use suba_sync.Engine.{
  Options, Network, Engine, make_engine, finished, use_settings_path, configure, start, run,
  start_background, stop, set_display_name, set_external_address,
}
use suba_sync.Engine.Runs.{
  port_max, IsSound, Runs, IsRunning-IsSound, start-Runs, run-Runs, start_background-Runs,
}

-- A call of the engine's public functions.
pub data Call : Type 0 where
  start_call run_call background_call : Network → Call
  stop_call : Call
  name_call address_call : Str → Call

-- The system gives the acceptor a port.
abbrev pub IsFine : Call → Type 0
IsFine (start_call net) = net.local_port ≤ port_max
IsFine (run_call net) = net.local_port ≤ port_max
IsFine (background_call net) = net.local_port ≤ port_max
IsFine stop_call = Unit
IsFine (name_call name) = Unit
IsFine (address_call address) = Unit

module _ (J : JsonApi) where
  unfoldable pub apply : Call → Engine J → Engine J
  unfolding start run start_background stop set_display_name set_external_address
  apply (start_call net) e = (start J net e).engine
  apply (run_call net) e = (run J net e).engine
  apply (background_call net) e = (start_background J net e).engine
  apply stop_call e = stop J e
  apply (name_call name) e = set_display_name J name e
  apply (address_call address) e = set_external_address J address e

  unfoldable pub apply_all : List Call → Engine J → Engine J
  unfolding apply
  apply_all [] e = e
  apply_all (c ∷ calls) e = apply_all calls (apply c e)

  idle_after :
      (cli running : Bool)
      → (cli ≡ false → running ≡ false)
      → (if cli then false else running) ≡ false
  idle_after true running h = refl
  idle_after false running h = h refl

  stop-IsSound : (e : Engine J) → IsSound J e → IsSound J (stop J e)
  unfolding stop
  stop-IsSound e h = elim (Bool-cases (not e.started)) [
    | inl k ↦ rw (stop, k) h
    | inr k ↦
        rw (stop, k)
          (record {
            released = λ s. (refl, refl, refl, idle_after e.cli e.cli_thread_running h.idle);
            idle = λ c. idle_after e.cli e.cli_thread_running h.idle;
            port = h.port;
          })
  ]

  apply-IsSound : (c : Call) (e : Engine J) → IsFine c → IsSound J e → IsSound J (apply c e)
  unfolding apply Runs
  apply-IsSound (start_call net) e fine h = IsRunning-IsSound J _ (start-Runs J net fine e h)
  apply-IsSound (run_call net) e fine h = IsRunning-IsSound J _ (run-Runs J net fine e h)
  apply-IsSound (background_call net) e fine h =
      IsRunning-IsSound J _ (start_background-Runs J net fine e h)
  apply-IsSound stop_call e fine h = stop-IsSound e h
  apply-IsSound (name_call name) e fine h = record {
    released = h.released;
    idle = h.idle;
    port = h.port;
  }
  apply-IsSound (address_call address) e fine h = record {
    released = h.released;
    idle = h.idle;
    port = h.port;
  }

  apply_all-IsSound :
      (calls : List Call) (e : Engine J)
      → All IsFine calls
      → IsSound J e
      → IsSound J (apply_all calls e)
  unfolding apply_all
  apply_all-IsSound [] e fine h = h
  apply_all-IsSound (c ∷ calls) e (fine, rest) h =
      apply_all-IsSound calls (apply c e) rest (apply-IsSound c e fine h)

  -- After any calls of a new engine, also those that throw: while it is not started it has no
  -- thread, no acceptor, no timer and no command line thread, and its port is a 16-bit number.
  pub apply_all-make_engine :
      (settings : Settings J) (options : Options) (current_path : Str) (next_id : ℕ)
      (calls : List Call)
      → All IsFine calls
      → IsSound J (apply_all calls (make_engine J settings options current_path next_id))
  unfolding make_engine
  apply_all-make_engine settings options current_path next_id calls fine =
      apply_all-IsSound calls _ fine
        (record { released = λ k. (refl, refl, refl, refl); idle = λ k. refl; port = omega arith })

  started_again : (net : Network) (e : Engine J) → e.started ≡ true → start J net e ≡ finished J e
  unfolding start
  started_again net e h =
      ap
        (λ b.
          if b
          then finished J e
          else configure J net (use_settings_path J net (record e { started = true })))
        h

  -- However the first start ends, also where it throws before there is an acceptor or a peer manager:
  -- the engine counts as started, and starting it again does nothing and does not throw.
  pub start-start :
      (first second : Network) (e : Engine J)
      → first.local_port ≤ port_max
      → IsSound J e
      → start J second (start J first e).engine ≡ finished J (start J first e).engine
  unfolding Runs
  start-start first second e fine h =
      started_again second (start J first e).engine (start-Runs J first fine e h).started
