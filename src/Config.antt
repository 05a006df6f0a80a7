-- ===== src/Config.antt =====
-- internal/config/config.go: the configuration records, and how ReadConfig fills in what a file
-- leaves out. Reading the file and decoding YAML are arguments.
pub mod Servers
pub mod Defaults
use ugoku.Base.{
  ℤ, pos, ltb_ℤ, leb_ℤ, eqb_ℤ, Text, codes, same, to_lower, Bool, true, false, ◌||◌, Option, none,
  some, List, [], ◌∷◌, map, if◌then◌else◌,
}

pub record ServerConfig : Type 0 where
  pub name : Text
  pub ip : Text
  pub port : ℤ
  pub user : Text
  pub password : Text
  pub key_file : Text
  pub cert_file : Text

pub record DownloaderConfig : Type 0 where
  pub name : Text
  pub source : Text
  pub source_path : Text
  pub target_path : Text
  pub enabled : Bool
  pub worker : ℤ
  pub max_timeout : ℤ
  pub throughput : ℤ
  pub source_server : ServerConfig

pub record UploaderConfig : Type 0 where
  pub name : Text
  pub target : Text
  pub source_path : Text
  pub target_path : Text
  pub enabled : Bool
  pub worker : ℤ
  pub max_timeout : ℤ
  pub throughput : ℤ
  pub target_server : ServerConfig

pub record SyncerConfig : Type 0 where
  pub name : Text
  pub server : Text
  pub server_path : Text
  pub local_path : Text
  pub mode : Text
  pub enabled : Bool
  pub sleep_interval : ℤ
  pub worker : ℤ
  pub max_timeout : ℤ
  pub throughput : ℤ
  pub sync_server : ServerConfig

pub record StreamerConfig : Type 0 where
  pub name : Text
  pub source : Text
  pub source_path : Text
  pub target : Text
  pub target_path : Text
  pub enabled : Bool
  pub sleep_interval : ℤ
  pub worker : ℤ
  pub source_server : ServerConfig
  pub target_server : ServerConfig

pub record GeneralConfig : Type 0 where
  pub temp_folder : Text

pub record MasterConfig : Type 0 where
  pub servers : List ServerConfig
  pub downloaders : List DownloaderConfig
  pub uploaders : List UploaderConfig
  pub syncers : List SyncerConfig
  pub streamers : List StreamerConfig
  pub general : GeneralConfig

-- `var x ServerConfig`, and so on: Go's zero values.
abbrev pub zero_server : ServerConfig
zero_server = record {
  name = [];
  ip = [];
  port = pos 0;
  user = [];
  password = [];
  key_file = [];
  cert_file = [];
}

abbrev pub zero_master : MasterConfig
zero_master = record {
  servers = [];
  downloaders = [];
  uploaders = [];
  syncers = [];
  streamers = [];
  general = record { temp_folder = [] };
}

-- `if v < 1 { v = 1 }` and `if v <= 0 { v = d }`
abbrev pub at_least_one : ℤ → ℤ
at_least_one v = if ltb_ℤ v (pos 1) then pos 1 else v

abbrev pub or_default : ℤ → ℤ → ℤ
or_default d v = if leb_ℤ v (pos 0) then d else v

unfoldable pub default_port : ServerConfig → ServerConfig
default_port server = if eqb_ℤ server.port (pos 0) then record server { port = pos 22 } else server

-- The inner loop `for _, server := range config.Servers`, which writes the chosen server on each
-- match. The argument `current` is what the field holds when the loop comes to the list.
unfoldable pub resolve : Text → List ServerConfig → ServerConfig → ServerConfig
resolve wanted [] current = current
resolve wanted (server ∷ servers) current =
    resolve wanted servers (if same server.name wanted then server else current)

unfoldable pub fill_downloader : List ServerConfig → DownloaderConfig → DownloaderConfig
fill_downloader servers d = record d {
  worker = at_least_one d.worker;
  max_timeout = or_default (pos 600) d.max_timeout;
  throughput = or_default (pos 10) d.throughput;
  source_server = resolve d.source servers d.source_server;
}

unfoldable pub fill_uploader : List ServerConfig → UploaderConfig → UploaderConfig
fill_uploader servers u = record u {
  worker = at_least_one u.worker;
  max_timeout = or_default (pos 600) u.max_timeout;
  throughput = or_default (pos 10) u.throughput;
  target_server = resolve u.target servers u.target_server;
}

abbrev pub mode_server : Text
mode_server = codes "server"

abbrev pub mode_local : Text
mode_local = codes "local"

abbrev pub mode_twoway : Text
mode_twoway = codes "twoway"

-- The `switch` on the lower-case mode; the default case writes "server".
unfoldable pub fill_mode : Text → Text
fill_mode mode =
    if same mode mode_server || same mode mode_local || same mode mode_twoway
    then mode
    else mode_server

unfoldable pub fill_syncer : List ServerConfig → SyncerConfig → SyncerConfig
fill_syncer servers s = record s {
  mode = fill_mode (to_lower s.mode);
  sleep_interval = at_least_one s.sleep_interval;
  worker = at_least_one s.worker;
  max_timeout = or_default (pos 600) s.max_timeout;
  throughput = or_default (pos 10) s.throughput;
  sync_server = resolve s.server servers s.sync_server;
}

unfoldable pub fill_streamer : List ServerConfig → StreamerConfig → StreamerConfig
fill_streamer servers s = record s {
  sleep_interval = at_least_one s.sleep_interval;
  worker = at_least_one s.worker;
  source_server = resolve s.source servers s.source_server;
  target_server = resolve s.target servers s.target_server;
}

abbrev pub Error : Type 0
Error = Text

unfoldable pub validate_config : MasterConfig → Option Error
validate_config cfg = none

-- The loops of ReadConfig, in order: the later ones read the servers with their ports filled in.
unfoldable pub fill_config : MasterConfig → MasterConfig
fill_config c =
    let servers = map default_port c.servers in
    record c {
      servers = servers;
      downloaders = map (fill_downloader servers) c.downloaders;
      uploaders = map (fill_uploader servers) c.uploaders;
      syncers = map (fill_syncer servers) c.syncers;
      streamers = map (fill_streamer servers) c.streamers;
    }

-- `os.ReadFile` gives the bytes of the file or an error, and `yaml.Unmarshal` writes what it could
-- decode over the zero configuration, with an error if it met one.
module _ (read_file : Text → Text × Option Error)
    (unmarshal : Text → MasterConfig → MasterConfig × Option Error) where
  after_unmarshal : MasterConfig × Option Error → MasterConfig × Option Error
  after_unmarshal (config, some err2) = (config, some err2)
  after_unmarshal (config, none) =
      let filled = fill_config config in (filled, validate_config filled)

  after_read : Text × Option Error → MasterConfig × Option Error
  unfolding after_unmarshal
  after_read (yfile, some err) = (zero_master, some err)
  after_read (yfile, none) = after_unmarshal (unmarshal yfile zero_master)

  unfoldable pub read_config : Text → MasterConfig × Option Error
  unfolding after_read
  read_config path_to_config = after_read (read_file path_to_config)
