-- ===== src/Tests/Programs.antt =====
-- A program beside a configuration with one enabled downloader, or with none that can be read.
use ugoku.Base.{◌≡◌, refl, pos, Text, codes, to_lower, true, Option, none, some, [], ◌∷◌}
use ugoku.Config.{
  MasterConfig, DownloaderConfig, UploaderConfig, SyncerConfig, StreamerConfig, Error, zero_server,
  zero_master, fill_config,
}
use ugoku.Main.{Started}
use ugoku.Main.Enabled.{filter}
use ugoku.Main.Program.{
  Performed, services, program, IsIdle, unreadable_config_starts_nothing, serve_starts_enabled,
}

abbrev downloader : DownloaderConfig
downloader = record {
  name = codes "d";
  source = codes "a";
  source_path = codes "/out";
  target_path = codes "/in";
  enabled = true;
  worker = pos 0;
  max_timeout = pos 0;
  throughput = pos 0;
  source_server = zero_server;
}

abbrev decoded : MasterConfig
decoded = record zero_master { downloaders = downloader ∷ [] }

abbrev missing : Text → Text × Option Error
missing path = ([], some (codes "no such file"))

abbrev present : Text → Text × Option Error
present path = (codes "yaml", none)

abbrev decode : Text → MasterConfig → MasterConfig × Option Error
decode text config = (decoded, none)

unreadable_config_starts_nothing_example :
    (p : Performed) × (program missing decode
        (some (codes "/opt/ugoku"))
        (codes "ugoku" ∷ codes "download" ∷ [])
      ≡ some p)
    × IsIdle p
unreadable_config_starts_nothing_example =
    unreadable_config_starts_nothing missing decode (codes "/opt/ugoku")
      (codes "ugoku" ∷ codes "download" ∷ []) (codes "no such file") refl

serves : to_lower (codes "Serve") ≡ codes "serve"
unfolding to_lower
serves = refl

serve_starts_enabled_example :
    (d : Started DownloaderConfig) × (u : Started UploaderConfig) × (y : Started SyncerConfig)
    × (s : Started StreamerConfig) × (program present decode
          (some (codes "/opt/ugoku"))
          (codes "ugoku" ∷ codes "Serve" ∷ [])
        ≡ some (services d u y s))
    × (d.launched ≡ filter (λ c. c.enabled) (fill_config decoded).downloaders)
    × (u.launched ≡ filter (λ c. c.enabled) (fill_config decoded).uploaders)
    × (y.launched ≡ filter (λ c. c.enabled) (fill_config decoded).syncers)
    × (s.launched ≡ filter (λ c. c.enabled) (fill_config decoded).streamers)
serve_starts_enabled_example =
    serve_starts_enabled present decode (codes "/opt/ugoku") (codes "ugoku") (codes "Serve") []
      decoded refl refl serves
