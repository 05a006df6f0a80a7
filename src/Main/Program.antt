-- ===== src/Main/Program.antt =====
-- A run of cmd/service/ugoku.go from its init on: the configuration beside the program, and the command.
use ugoku.Base.{◌≡◌, refl, ap, ◌∙◌, Text, codes, to_lower, same, Option, none, some, List, [], ◌∷◌}
use ugoku.Paths.{path_dir, path_join}
use ugoku.Config.{
  MasterConfig, DownloaderConfig, UploaderConfig, SyncerConfig, StreamerConfig, Error, read_config,
  zero_master, fill_config,
}
use ugoku.Main.{
  Command, upload, download, sync, stream, serve, usage, main, exits, Started, start_downloaders,
  start_uploaders, start_syncers, start_streamers, start_downloaders_service,
  start_uploaders_service, start_syncers_service, start_streamers_service, each_enabled,
  start_one_time, command,
}
use ugoku.Config.Defaults.{read_config-Outcome}
use ugoku.Main.Enabled.{filter, services_launched}

-- What a command starts; the service starts the four kinds in goroutines of their own and waits for ever.
pub data Performed : Type 0 where
  uploads : Started UploaderConfig → Performed
  downloads : Started DownloaderConfig → Performed
  syncs : Started SyncerConfig → Performed
  streams : Started StreamerConfig → Performed
  services :
      Started DownloaderConfig
      → Started UploaderConfig
      → Started SyncerConfig
      → Started StreamerConfig
      → Performed
  prints_usage : Performed

unfoldable pub start_services : MasterConfig → Performed
start_services m =
    services (start_downloaders_service m) (start_uploaders_service m) (start_syncers_service m)
      (start_streamers_service m)

unfoldable pub perform : Command → MasterConfig → Performed
unfolding start_services
perform upload m = uploads (start_uploaders m)
perform download m = downloads (start_downloaders m)
perform sync m = syncs (start_syncers m)
perform stream m = streams (start_streamers m)
perform serve m = start_services m
perform usage m = prints_usage

module _ (read_file : Text → Text × Option Error)
    (unmarshal : Text → MasterConfig → MasterConfig × Option Error) where
  -- init: `none` is os.Exit(1), where os.Executable fails. An error of ReadConfig is only logged.
  unfoldable pub init : Option Text → Option MasterConfig
  init none = none
  init (some executable) =
      some
        (read_config read_file unmarshal (path_join (path_dir executable) (codes "config.yaml"))).0

  -- init and main.
  unfoldable pub program : Option Text → List Text → Option Performed
  unfolding init
  program executable args = elim (init executable) [
    | none ↦ none
    | some m ↦ some (perform (main args) m)
  ]

  abbrev pub config_path : Text → Text
  config_path executable = path_join (path_dir executable) (codes "config.yaml")

-- Nothing is started, and the program exits with the code 0.
abbrev pub IsIdle : Performed → Type 0
IsIdle (uploads s) = (s.launched ≡ []) × (s.ending ≡ exits)
IsIdle (downloads s) = (s.launched ≡ []) × (s.ending ≡ exits)
IsIdle (syncs s) = (s.launched ≡ []) × (s.ending ≡ exits)
IsIdle (streams s) = (s.launched ≡ []) × (s.ending ≡ exits)
IsIdle (services d u y s) =
    (d.launched ≡ []) × (u.launched ≡ []) × (y.launched ≡ []) × (s.launched ≡ [])
IsIdle prints_usage = Unit {0}

perform_nothing : (c : Command) → IsIdle (perform c zero_master)
unfolding perform start_services start_downloaders start_uploaders start_syncers start_streamers
    start_downloaders_service start_uploaders_service start_syncers_service start_streamers_service
    each_enabled start_one_time
perform_nothing upload = (refl, refl)
perform_nothing download = (refl, refl)
perform_nothing sync = (refl, refl)
perform_nothing stream = (refl, refl)
perform_nothing serve = (refl, refl, refl, refl)
perform_nothing usage = tt

module _ (read_file : Text → Text × Option Error)
    (unmarshal : Text → MasterConfig → MasterConfig × Option Error) (path : Text) where
  unread :
      (e : Error)
      → (read_file path).1 ≡ some e
      → (read_config read_file unmarshal path).0 ≡ zero_master
  unread e h = (rw h at (read_config-Outcome read_file unmarshal path)).0

  decoded_and_filled :
      (decoded : MasterConfig)
      → (read_file path).1 ≡ none
      → unmarshal (read_file path).0 zero_master ≡ (decoded, none)
      → (read_config read_file unmarshal path).0 ≡ fill_config decoded
  decoded_and_filled decoded h g = (rw (h, g) at (read_config-Outcome read_file unmarshal path)).0

serve_command : (cmd : Text) → cmd ≡ codes "serve" → command cmd ≡ serve
unfolding command same
serve_command cmd e = rw e refl

-- If the configuration file cannot be read, the program goes on without a word but the log: whatever the
-- command, it starts no transfer; the commands other than serve exit with the code 0, as after a
-- transfer that worked.
pub unreadable_config_starts_nothing :
    (read_file : Text → Text × Option Error)
    (unmarshal : Text → MasterConfig → MasterConfig × Option Error) (executable : Text)
    (args : List Text) (e : Error)
    → (read_file (config_path read_file unmarshal executable)).1 ≡ some e
    → (p : Performed) × (program read_file unmarshal (some executable) args ≡ some p) × IsIdle p
unfolding program init
unreadable_config_starts_nothing read_file unmarshal executable args e h = (
  perform (main args) zero_master,
  ap (λ m. some (perform (main args) m))
      (unread read_file unmarshal (config_path read_file unmarshal executable) e h),
  perform_nothing (main args),
)

-- If the configuration file can be read and decoded, the command serve, in any case of letters, calls
-- the constructor (NewDownloader, NewUploader, NewSyncer, NewStreamer) of exactly the enabled entries of
-- each kind, in their order and with the defaults of ReadConfig. `launched` has those calls; what
-- NewSyncer then starts depends on its mode, and for twoway it starts nothing.
pub serve_starts_enabled :
    (read_file : Text → Text × Option Error)
    (unmarshal : Text → MasterConfig → MasterConfig × Option Error) (executable name cmd : Text)
    (rest : List Text) (decoded : MasterConfig)
    → (read_file (config_path read_file unmarshal executable)).1 ≡ none
    → unmarshal (read_file (config_path read_file unmarshal executable)).0 zero_master
      ≡ (decoded, none)
    → to_lower cmd ≡ codes "serve"
    → (d : Started DownloaderConfig) × (u : Started UploaderConfig) × (y : Started SyncerConfig)
      × (s : Started StreamerConfig) × (program read_file unmarshal
            (some executable)
            (name ∷ cmd ∷ rest)
          ≡ some (services d u y s))
      × (d.launched ≡ filter (λ c. c.enabled) (fill_config decoded).downloaders)
      × (u.launched ≡ filter (λ c. c.enabled) (fill_config decoded).uploaders)
      × (y.launched ≡ filter (λ c. c.enabled) (fill_config decoded).syncers)
      × (s.launched ≡ filter (λ c. c.enabled) (fill_config decoded).streamers)
unfolding program init main start_services perform
serve_starts_enabled read_file unmarshal executable name cmd rest decoded h g c =
    let m = fill_config decoded in
    let path = config_path read_file unmarshal executable in
    let (d, u, y, s) = services_launched m in
    (
      start_downloaders_service m,
      start_uploaders_service m,
      start_syncers_service m,
      start_streamers_service m,
      ap (λ x. some (perform x (read_config read_file unmarshal path).0))
            (serve_command (to_lower cmd) c)
          ∙ ap (λ x. some (perform serve x))
              (decoded_and_filled read_file unmarshal path decoded h g),
      d,
      u,
      y,
      s,
    )
