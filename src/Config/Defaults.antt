-- ===== src/Config/Defaults.antt =====
-- The defaults that ReadConfig of internal/config/config.go fills in.
use ugoku.Base.{
  ◌≡◌, refl, ◌≢◌, ◌⊎◌, inl, inr, pos, ◌≤ℤ◌, Text, same, same→eq, to_lower, Option, none, some, List,
  [], ◌∷◌, map, All, arith,
}
use ugoku.Config.Servers.{resolve_idem}
use ugoku.Config.{
  ServerConfig, DownloaderConfig, UploaderConfig, SyncerConfig, StreamerConfig, MasterConfig, Error,
  zero_master, mode_server, mode_local, mode_twoway, default_port, fill_downloader, fill_uploader,
  fill_syncer, fill_streamer, fill_mode, fill_config, read_config, validate_config,
}

abbrev pub IsKnownMode : Text → Type 0
IsKnownMode mode = (mode ≡ mode_server) ⊎ (mode ≡ mode_local) ⊎ (mode ≡ mode_twoway)

-- The numbers that the workers and scanners rely on are positive, ports are set, modes are known.
pub record IsFilled (c : MasterConfig) : Type 0 where
  pub ports : All (λ (s : ServerConfig). s.port ≢ pos 0) c.servers
  pub downloaders :
      All
        (λ (d : DownloaderConfig).
          (pos 1 ≤ℤ d.worker) × (pos 1 ≤ℤ d.max_timeout) × (pos 1 ≤ℤ d.throughput))
        c.downloaders
  pub uploaders :
      All
        (λ (u : UploaderConfig).
          (pos 1 ≤ℤ u.worker) × (pos 1 ≤ℤ u.max_timeout) × (pos 1 ≤ℤ u.throughput))
        c.uploaders
  pub syncers :
      All
        (λ (s : SyncerConfig).
          (pos 1 ≤ℤ s.worker)
          × (pos 1 ≤ℤ s.max_timeout)
          × (pos 1 ≤ℤ s.throughput)
          × (pos 1 ≤ℤ s.sleep_interval)
          × IsKnownMode s.mode)
        c.syncers
  pub streamers :
      All (λ (s : StreamerConfig). (pos 1 ≤ℤ s.worker) × (pos 1 ≤ℤ s.sleep_interval)) c.streamers

All-map {ℓ κ} :
    {A : Type ℓ} (P : A → Type κ) (f : A → A) (each : (a : A) → P (f a)) (xs : List A)
    → All P (map f xs)
All-map P f each [] = tt
All-map P f each (x ∷ xs) = (each x, All-map P f each xs)

default_port_nonzero : (s : ServerConfig) → (default_port s).port ≢ pos 0
unfolding default_port
default_port_nonzero s = ground arith

fill_mode-IsKnownMode : (mode : Text) → IsKnownMode (fill_mode mode)
unfolding fill_mode
fill_mode-IsKnownMode mode =
    ground (arith, same→eq mode mode_server, same→eq mode mode_local, same→eq mode mode_twoway)

fill_config-IsFilled : (c : MasterConfig) → IsFilled (fill_config c)
unfolding fill_config fill_downloader fill_uploader fill_syncer fill_streamer
fill_config-IsFilled c = record {
  ports = All-map _ default_port default_port_nonzero c.servers;
  downloaders = All-map _ (fill_downloader _) (λ d. ground arith) c.downloaders;
  uploaders = All-map _ (fill_uploader _) (λ u. ground arith) c.uploaders;
  syncers =
      All-map _ (fill_syncer _)
        (λ s. (
          ground arith,
          ground arith,
          ground arith,
          ground arith,
          fill_mode-IsKnownMode (to_lower s.mode),
        ))
        c.syncers;
  streamers = All-map _ (fill_streamer _) (λ s. ground arith) c.streamers;
}

-- What ReadConfig returns, by the error of the read and the error of the decoding.
abbrev pub Outcome :
    Option Error → Option Error → MasterConfig → MasterConfig × Option Error → Type 0
Outcome (some e) _ decoded r = (r.0 ≡ zero_master) × (r.1 ≡ some e)
Outcome none (some e) decoded r = (r.0 ≡ decoded) × (r.1 ≡ some e)
Outcome none none decoded r = (r.0 ≡ fill_config decoded) × IsFilled r.0 × (r.1 ≡ none)

module _ (read_file : Text → Text × Option Error)
    (unmarshal : Text → MasterConfig → MasterConfig × Option Error) (path : Text) where
  pub read_config-Outcome :
      Outcome
        (read_file path).1
        (unmarshal (read_file path).0 zero_master).1
        (unmarshal (read_file path).0 zero_master).0
        (read_config read_file unmarshal path)
  unfolding read_config validate_config
  read_config-Outcome =
      ground (arith, fill_config-IsFilled (unmarshal (read_file path).0 zero_master).0)

map-map_idem {ℓ} :
    {A : Type ℓ} (f : A → A) (each : (a : A) → f (f a) ≡ f a) (xs : List A)
    → map f (map f xs) ≡ map f xs
map-map_idem f each [] = refl
map-map_idem f each (x ∷ xs) = cc (each x, map-map_idem f each xs)

default_port_idem : (s : ServerConfig) → default_port (default_port s) ≡ default_port s
unfolding default_port
default_port_idem s = ground arith

fill_mode_fixed : (m : Text) → IsKnownMode m → fill_mode (to_lower m) ≡ m
unfolding fill_mode to_lower same
fill_mode_fixed m (inl e) = rw e
fill_mode_fixed m (inr (inl e)) = rw e
fill_mode_fixed m (inr (inr e)) = rw e

fill_downloader_idem :
    (servers : List ServerConfig) (d : DownloaderConfig)
    → fill_downloader servers (fill_downloader servers d) ≡ fill_downloader servers d
unfolding fill_downloader
fill_downloader_idem servers d = ground (arith, resolve_idem d.source servers d.source_server)

fill_uploader_idem :
    (servers : List ServerConfig) (u : UploaderConfig)
    → fill_uploader servers (fill_uploader servers u) ≡ fill_uploader servers u
unfolding fill_uploader
fill_uploader_idem servers u = ground (arith, resolve_idem u.target servers u.target_server)

fill_syncer_idem :
    (servers : List ServerConfig) (s : SyncerConfig)
    → fill_syncer servers (fill_syncer servers s) ≡ fill_syncer servers s
unfolding fill_syncer
fill_syncer_idem servers s = ground (
  arith,
  resolve_idem s.server servers s.sync_server,
  fill_mode_fixed (fill_mode (to_lower s.mode)) (fill_mode-IsKnownMode (to_lower s.mode)),
)

fill_streamer_idem :
    (servers : List ServerConfig) (s : StreamerConfig)
    → fill_streamer servers (fill_streamer servers s) ≡ fill_streamer servers s
unfolding fill_streamer
fill_streamer_idem servers s = ground (
  arith,
  resolve_idem s.source servers s.source_server,
  resolve_idem s.target servers s.target_server,
)

-- Filling in the defaults of a configuration that is filled in already changes nothing.
pub fill_config_idem : (c : MasterConfig) → fill_config (fill_config c) ≡ fill_config c
unfolding fill_config
fill_config_idem c = rw (
  map-map_idem default_port default_port_idem c.servers,
  map-map_idem (fill_downloader _) (fill_downloader_idem _) c.downloaders,
  map-map_idem (fill_uploader _) (fill_uploader_idem _) c.uploaders,
  map-map_idem (fill_syncer _) (fill_syncer_idem _) c.syncers,
  map-map_idem (fill_streamer _) (fill_streamer_idem _) c.streamers,
)
