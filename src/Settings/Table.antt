-- ===== src/Settings/Table.antt =====
-- The table SETTINGS_SPECIFICATION (src/settings_manager.hpp), less the descriptions.
use suba_sync.Prelude.{
  Str, codes, Bool, true, false, ◌≡◌, refl, some, List, [], ◌∷◌, pos, str_eq, str_beq, All,
  All-Member, contains,
}
use suba_sync.Json.{JsonApi, IsJson}
use suba_sync.Settings.Typed.{HasType, IsTyped}
use suba_sync.Settings.Defaults.{init-IsTyped}
use suba_sync.Settings.Edits.{Edit, edit_all, edit_all-IsTyped}
use suba_sync.Settings.{RawSpec, SettingSpec, init, resolve_key, find_spec}

abbrev setting : (J : JsonApi) → Str → List Str → Str → J.Json → Bool → RawSpec J
setting J key aliases kind default_value persistent = record {
  key = key;
  aliases = aliases;
  kind = kind;
  default_value = default_value;
  persistent = persistent;
}

module _ (J : JsonApi) where
  unfoldable pub settings_specification : List (RawSpec J)
  settings_specification =
      setting J (codes "listen_port") (codes "lp" ∷ []) (codes "int") (J.integer (pos 9000)) true
      ∷ setting J (codes "listen_ip") (codes "li" ∷ []) (codes "string")
          (J.string (codes "127.0.0.1")) true
      ∷ setting J (codes "bootstrap_peer") (codes "bootstrap" ∷ []) (codes "string") (J.string [])
          true
      ∷ setting J (codes "peer_id") (codes "id" ∷ []) (codes "string") (J.string []) true
      ∷ setting J (codes "external_port") (codes "ep" ∷ []) (codes "int") (J.integer (pos 0)) true
      ∷ setting J (codes "audio_notifications") (codes "audio" ∷ codes "bell" ∷ []) (codes "bool")
          (J.boolean false) true
      ∷ setting J (codes "verbose") (codes "v" ∷ []) (codes "bool") (J.boolean false) true
      ∷ setting J (codes "transfer_debug") (codes "transfer" ∷ codes "td" ∷ []) (codes "bool")
          (J.boolean false) true
      ∷ setting J (codes "transfer_progress") (codes "progress" ∷ codes "tp" ∷ []) (codes "bool")
          (J.boolean true) true
      ∷ setting J (codes "progress_meter_size")
          (codes "meter" ∷ codes "meter_size" ∷ codes "pms" ∷ []) (codes "int") (J.integer (pos 80))
          true
      ∷ setting J (codes "swarm_max_parallel") (codes "swarm_parallel" ∷ codes "smp" ∷ [])
          (codes "int") (J.integer (pos 0)) true
      ∷ setting J (codes "swarm_chunk_buffers") (codes "swarm_buffers" ∷ codes "scb" ∷ [])
          (codes "int") (J.integer (pos 1)) true
      ∷ setting J (codes "swarm_chunk_size") (codes "swarm_chunk_bytes" ∷ codes "scs" ∷ [])
          (codes "int") (J.integer (pos 262144)) true
      ∷ setting J (codes "swarm_progress_interval_ms")
          (codes "swarm_meter_interval" ∷ codes "spim" ∷ []) (codes "int") (J.integer (pos 200))
          true
      ∷ setting J (codes "help") (codes "h" ∷ codes "?" ∷ []) (codes "bool") (J.boolean false) false
      ∷ setting J (codes "save") (codes "persist" ∷ []) (codes "bool") (J.boolean false) false
      ∷ []

  -- Each key and each alias of the table finds the setting that it is listed with: no two settings
  -- share a name.
  pub resolve_key-settings_specification :
      All
        (λ (r : RawSpec J).
          All
            (λ (name : Str). resolve_key J name (init J settings_specification) ≡ some r.key)
            (r.key ∷ r.aliases))
        settings_specification
  unfolding settings_specification init resolve_key str_beq contains
  resolve_key-settings_specification = (
    (refl, (refl, tt)),
    (
      (refl, (refl, tt)),
      (
        (refl, (refl, tt)),
        (
          (refl, (refl, tt)),
          (
            (refl, (refl, tt)),
            (
              (refl, (refl, (refl, tt))),
              (
                (refl, (refl, tt)),
                (
                  (refl, (refl, (refl, tt))),
                  (
                    (refl, (refl, (refl, tt))),
                    (
                      (refl, (refl, (refl, (refl, tt)))),
                      (
                        (refl, (refl, (refl, tt))),
                        (
                          (refl, (refl, (refl, tt))),
                          (
                            (refl, (refl, (refl, tt))),
                            (
                              (refl, (refl, (refl, tt))),
                              ((refl, (refl, (refl, tt))), ((refl, (refl, tt)), tt)),
                            ),
                          ),
                        ),
                      ),
                    ),
                  ),
                ),
              ),
            ),
          ),
        ),
      ),
    ),
  )

  -- Every specification of the table is the one that its key finds.
  pub settings_specification-AreFound :
      All
        (λ (spec : SettingSpec J). find_spec J spec.key (init J settings_specification) ≡ some spec)
        (init J settings_specification).setting_specs
  unfolding settings_specification init find_spec str_beq contains
  settings_specification-AreFound = (
    refl,
    (
      refl,
      (
        refl,
        (
          refl,
          (
            refl,
            (
              refl,
              (refl, (refl, (refl, (refl, (refl, (refl, (refl, (refl, (refl, (refl, tt)))))))))),
            ),
          ),
        ),
      ),
    ),
  )

  -- Every default is of the type that its entry gives.
  settings_specification-HasType :
      All
        (λ (spec : SettingSpec J). HasType J spec.kind spec.default_value)
        (init J settings_specification).setting_specs
  unfolding settings_specification init str_beq
  settings_specification-HasType = (
    ((pos 9000), refl),
    (
      ((codes "127.0.0.1"), refl),
      (
        ([], refl),
        (
          ([], refl),
          (
            ((pos 0), refl),
            (
              (false, refl),
              (
                (false, refl),
                (
                  (false, refl),
                  (
                    (true, refl),
                    (
                      ((pos 80), refl),
                      (
                        ((pos 0), refl),
                        (
                          ((pos 1), refl),
                          (
                            ((pos 262144), refl),
                            (((pos 200), refl), ((false, refl), ((false, refl), tt))),
                          ),
                        ),
                      ),
                    ),
                  ),
                ),
              ),
            ),
          ),
        ),
      ),
    ),
  )

  -- The program's settings, at the start and after any texts, documents and files of whatever
  -- contents: every setting of the table has a value, and one of its type.
  pub settings_specification-IsTyped :
      (laws : IsJson J) (edits : List (Edit J))
      → IsTyped J (edit_all J edits (init J settings_specification))
  settings_specification-IsTyped laws edits =
      edit_all-IsTyped J laws edits (init J settings_specification) (
        init-IsTyped J settings_specification settings_specification-HasType (λ spec m.
          All-Member
            (λ (x : SettingSpec J). find_spec J x.key (init J settings_specification) ≡ some x)
            (init J settings_specification).setting_specs spec settings_specification-AreFound m))
