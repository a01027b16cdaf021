-- ===== src/Engine/Runs.antt =====
-- Starting an engine leaves it started, whatever is thrown (src/mesh_engine.cpp).
use suba_sync.Prelude.{
  ℕ, ◌≡◌, refl, sym, ◌∙◌, subst, Str, codes, Bool, true, false, not, ◌||◌, Option, none, some, [],
  ◌∷◌, ℤ, pos, negsuc, ◌≤◌, leb, arith, if◌then◌else◌, is_empty, Bool-cases, inl, inr, ◌>>=◌,
  some_injective,
}
use suba_sync.Json.{JsonApi}
use suba_sync.Settings.Files.{settings_path}
use suba_sync.Engine.{
  Network, Engine, Outcome, to_port, get_int, reading, unless_refused, use_settings_path, name_peer,
  start_cli, with_parts, assemble, open_acceptor, read_rest, configure, start, run, launch_thread,
  start_background,
}

-- A port number.
abbrev pub port_max : ℕ
port_max = 65535

to_port-bound : (n : ℤ) (p : ℕ) → to_port n ≡ some p → p ≤ port_max
unfolding to_port
to_port-bound (pos n) p h = elim (Bool-cases (leb n 65535)) [
  | inl e ↦
      let same : n ≡ p = some_injective n p (rw (to_port, e) at h) in
      subst (λ x. x ≤ port_max) same (ground arith)
  | inr e ↦ absurd (cc (rw (to_port, e) at h))
]
to_port-bound (negsuc n) p h = absurd (cc h)

module _ {A B : Type 0} where
  pub bind-end :
      (o : Option A) (f : A → Option B) (b : B) → (o >>= f) ≡ some b → (a : A) × (f a ≡ some b)
  bind-end none f b h = absurd (cc h)
  bind-end (some a) f b h = (a, h)

module _ (J : JsonApi) where
  -- The engine is started, and its port is a port.
  pub record IsRunning (e : Engine J) : Type 0 where
    pub started : e.started ≡ true
    pub idle : e.cli ≡ false → e.cli_thread_running ≡ false
    pub port : e.listen_port ≤ port_max

  -- An engine that is not started has no thread, no acceptor, no timer and no command line thread.
  pub record IsSound (e : Engine J) : Type 0 where
    pub released :
        e.started ≡ false
        → (e.io_thread ≡ false)
          × (e.acceptor ≡ false)
          × (e.connect_timer ≡ false)
          × (e.cli_thread_running ≡ false)
    pub idle : e.cli ≡ false → e.cli_thread_running ≡ false
    pub port : e.listen_port ≤ port_max

  unfoldable pub Runs : Outcome J → Type 0
  Runs o = IsRunning o.engine

  reading-Runs :
      {A : Type 0} (o : Option A) (e : Engine J) (next : A → Outcome J)
      → IsRunning e
      → ((a : A) → o ≡ some a → Runs (next a))
      → Runs (reading J o e next)
  unfolding Runs reading
  reading-Runs none e next h k = h
  reading-Runs (some a) e next h k = k a refl

  unless_refused-Runs :
      (b : Bool) (e : Engine J) (next : Outcome J)
      → IsRunning e
      → Runs next
      → Runs (unless_refused J b e next)
  unfolding Runs unless_refused
  unless_refused-Runs true e next h k = k
  unless_refused-Runs false e next h k = h

  name_peer-IsRunning : (id : Str) (e : Engine J) → IsRunning e → IsRunning (name_peer J id e)
  unfolding name_peer
  name_peer-IsRunning [] e h = record { started = h.started; idle = h.idle; port = h.port }
  name_peer-IsRunning (c ∷ id) e h = record { started = h.started; idle = h.idle; port = h.port }

  -- The test of `start_cli` fails only if there is a command line.
  clash : (c r : Bool) → c ≡ false → (not c || r) ≡ false → ⊥
  clash true r e k = absurd (cc e)
  clash false r e k = absurd (cc k)

  start_cli-IsRunning : (e : Engine J) → IsRunning e → IsRunning (start_cli J e)
  unfolding start_cli
  start_cli-IsRunning e h = elim (Bool-cases (not e.cli || e.cli_thread_running)) [
    | inl k ↦ rw (start_cli, k) h
    | inr k ↦
        rw (start_cli, k)
          (record {
            started = h.started;
            idle = λ c. absurd (clash e.cli e.cli_thread_running c k);
            port = h.port;
          })
  ]

  if-IsRunning :
      (b : Bool) (x y : Engine J) → IsRunning x → IsRunning y → IsRunning (if b then x else y)
  if-IsRunning true x y h k = h
  if-IsRunning false x y h k = k

  if-Runs :
      (b : Bool) (x y : Outcome J)
      → (b ≡ true → Runs x)
      → (b ≡ false → Runs y)
      → Runs (if b then x else y)
  if-Runs true x y h k = h refl
  if-Runs false x y h k = k refl

  launched :
      (o : Outcome J) → Runs o → Runs (record o { engine = record o.engine { io_thread = true } })
  unfolding Runs
  launched o h = record { started = h.started; idle = h.idle; port = h.port }

  pub IsRunning-IsSound : (e : Engine J) → IsRunning e → IsSound e
  IsRunning-IsSound e h = record {
    released = λ k. absurd (cc (sym k ∙ h.started));
    idle = h.idle;
    port = h.port;
  }

  module _ (net : Network) (given : net.local_port ≤ port_max) where
    with_parts-IsRunning : (e : Engine J) → IsRunning e → IsRunning (with_parts J net e)
    unfolding with_parts
    with_parts-IsRunning e h = record {
      started = h.started;
      idle = λ c. absurd (cc c);
      port = ground (arith, given, h.port);
    }

    assemble-Runs : (e : Engine J) → IsRunning e → Runs (assemble J net e)
    unfolding assemble Runs
    assemble-Runs e h =
        let parts = with_parts-IsRunning e h in
        if-IsRunning e.options.start_cli_thread _ _ (start_cli-IsRunning _ parts) parts

    open_acceptor-Runs : (e : Engine J) → IsRunning e → Runs (open_acceptor J net e)
    unfolding open_acceptor
    open_acceptor-Runs e h =
        let made : IsRunning (record e { acceptor = true }) = record {
          started = h.started;
          idle = h.idle;
          port = h.port;
        } in
        unless_refused-Runs (net.is_address e.listen_ip) e _ h (
          unless_refused-Runs (net.listens e.listen_ip e.listen_port) _ _ made
            (assemble-Runs _ made))

    read_rest-Runs : (e : Engine J) → IsRunning e → Runs (read_rest J net e)
    unfolding read_rest
    read_rest-Runs e h = reading-Runs _ e _ h (λ peer found.
        let named : IsRunning (record e { bootstrap_peer = peer }) = record {
          started = h.started;
          idle = h.idle;
          port = h.port;
        } in
        reading-Runs _ _ _ named
          (λ audio got. reading-Runs _ _ _ named (λ debug got'. open_acceptor-Runs _ named)))

    configure-Runs : (e : Engine J) → IsRunning e → Runs (configure J net e)
    unfolding configure
    configure-Runs e h = reading-Runs _ e _ h (λ verbose v. reading-Runs _ e _ h (λ id i.
        let named = name_peer-IsRunning id e h in
        reading-Runs _ _ _ named (λ ip p.
          let placed : IsRunning (record (name_peer J id e) { listen_ip = ip }) = record {
            started = named.started;
            idle = named.idle;
            port = named.port;
          } in
          reading-Runs _ _ _ placed (λ port q.
            let (n, bound) = bind-end (get_int J (codes "listen_port") e) to_port port q in
            read_rest-Runs _ (record {
              started = named.started;
              idle = named.idle;
              port = to_port-bound n port bound;
            })))))

    use_settings_path-IsRunning :
        (e : Engine J) → IsRunning e → IsRunning (use_settings_path J net e)
    unfolding use_settings_path
    use_settings_path-IsRunning e h =
        elim (Bool-cases (is_empty (settings_path J net.current_path e.settings))) [
          | inl k ↦
              rw (use_settings_path, k)
                (record { started = h.started; idle = h.idle; port = h.port })
          | inr k ↦ rw (use_settings_path, k) h
        ]

    pub start-Runs : (e : Engine J) → IsSound e → Runs (start J net e)
    unfolding start Runs
    start-Runs e h =
        if-Runs e.started _ _ (λ k. record { started = k; idle = h.idle; port = h.port })
          (λ k. configure-Runs (use_settings_path J net (record e { started = true })) (
            use_settings_path-IsRunning (record e { started = true })
              (record { started = refl; idle = h.idle; port = h.port })))

    pub run-Runs : (e : Engine J) → IsSound e → Runs (run J net e)
    unfolding run Runs
    run-Runs e h =
        if-Runs e.started _ _ (λ k. record { started = k; idle = h.idle; port = h.port })
          (λ k. start-Runs e h)

    pub start_background-Runs : (e : Engine J) → IsSound e → Runs (start_background J net e)
    unfolding start_background launch_thread
    start_background-Runs e h =
        let ran = run-Runs e h in
        if-Runs (run J net e).threw _ _ (λ k. ran) (λ k. launched (run J net e) ran)
