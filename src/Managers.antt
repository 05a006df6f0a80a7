-- ===== src/Managers.antt =====
-- What the managers make from a configuration: NewDownloader and NewOneTimeDownloader of
-- downloader/downloader.go, NewUploader and NewOneTimeUploader of uploader/uploader.go, NewStreamer and
-- NewOneTimeStreamer of streamer/streamer.go, startSyncServer and startSyncLocal of syncer/syncer.go. The
-- goroutines that they start are the module System.
pub mod Configured
use ugoku.Base.{ℤ, pos, ltb_ℤ, mul64, pos_part, Text, Bool, true, false, List, [], if◌then◌else◌}
use ugoku.Config.{
  ServerConfig, DownloaderConfig, UploaderConfig, SyncerConfig, StreamerConfig, zero_server,
  fill_downloader, fill_uploader, fill_syncer, fill_streamer,
}
use ugoku.Dispatch.{Entry}
use ugoku.System.{Kind, System, launch}
use ugoku.System

-- `new(SftpScanner)` and `new(FolderScanner)` with the fields that the manager sets, and how it is
-- started: with StartWithWatcher or with Start.
pub data Scanner : Type 0 where
  sftp_scanner : DownloaderConfig → ℤ → Scanner
  folder_scanner : UploaderConfig → ℤ → Bool → Scanner

-- Whether it is the one-time variant, the workers, the capacity of the two channels, and the scanner.
pub record Manager : Type 0 where
  pub one_time : Bool
  pub worker : ℤ
  pub capacity : ℤ
  pub scanner : Scanner

-- `make(chan FileObj, config.Worker*2)`
abbrev manager : Bool → ℤ → Scanner → Manager
manager one_time worker scanner = record {
  one_time = one_time;
  worker = worker;
  capacity = mul64 worker (pos 2);
  scanner = scanner;
}

-- `Default_sleep_time = 60`, or the interval if it is positive.
abbrev pub sleep_or_minute : ℤ → ℤ
sleep_or_minute interval = if ltb_ℤ (pos 0) interval then interval else pos 60

unfoldable pub new_downloader : DownloaderConfig → Manager
new_downloader c = manager false c.worker (sftp_scanner c (pos 0))

unfoldable pub new_one_time_downloader : DownloaderConfig → Manager
new_one_time_downloader c = manager true c.worker (sftp_scanner c (pos 0))

unfoldable pub new_uploader : UploaderConfig → Manager
new_uploader c = manager false c.worker (folder_scanner c (pos 0) false)

unfoldable pub new_one_time_uploader : UploaderConfig → Manager
new_one_time_uploader c = manager true c.worker (folder_scanner c (pos 0) false)

-- The scanner of a streamer runs on the part of its configuration that is about the source.
unfoldable pub streamer_proxy : StreamerConfig → DownloaderConfig
streamer_proxy c = record {
  name = c.name;
  source = c.source;
  source_path = c.source_path;
  target_path = [];
  enabled = false;
  worker = pos 0;
  max_timeout = pos 0;
  throughput = pos 0;
  source_server = c.source_server;
}

unfoldable pub new_streamer : StreamerConfig → Manager
unfolding streamer_proxy
new_streamer c =
    manager false c.worker (sftp_scanner (streamer_proxy c) (sleep_or_minute c.sleep_interval))

unfoldable pub new_one_time_streamer : StreamerConfig → Manager
unfolding streamer_proxy
new_one_time_streamer c =
    manager true c.worker (sftp_scanner (streamer_proxy c) (sleep_or_minute c.sleep_interval))

unfoldable pub server_proxy : SyncerConfig → DownloaderConfig
server_proxy c = record {
  name = c.name;
  source = c.server;
  source_path = c.server_path;
  target_path = [];
  enabled = false;
  worker = pos 0;
  max_timeout = pos 0;
  throughput = pos 0;
  source_server = c.sync_server;
}

unfoldable pub start_sync_server : Bool → SyncerConfig → Manager
unfolding server_proxy
start_sync_server one_time c =
    manager one_time c.worker (sftp_scanner (server_proxy c) (sleep_or_minute c.sleep_interval))

unfoldable pub local_proxy : SyncerConfig → UploaderConfig
local_proxy c = record {
  name = c.name;
  target = c.server;
  source_path = c.local_path;
  target_path = c.server_path;
  enabled = false;
  worker = pos 0;
  max_timeout = pos 0;
  throughput = pos 0;
  target_server = c.sync_server;
}

unfoldable pub start_sync_local : Bool → SyncerConfig → Manager
unfolding local_proxy
start_sync_local one_time c =
    manager one_time c.worker
      (folder_scanner (local_proxy c) (sleep_or_minute c.sleep_interval) true)

-- A transfer as it stands in a configuration; a syncer has a direction.
pub data Job : Type 0 where
  download : DownloaderConfig → Job
  upload : UploaderConfig → Job
  stream : StreamerConfig → Job
  sync_server sync_local : SyncerConfig → Job

abbrev pub kind : Job → Kind
kind (download c) = System.downloader
kind (upload c) = System.uploader
kind (stream c) = System.streamer
kind (sync_server c) = System.server_syncer
kind (sync_local c) = System.local_syncer

-- What ReadConfig makes of it.
abbrev pub filled : List ServerConfig → Job → Job
filled servers (download c) = download (fill_downloader servers c)
filled servers (upload c) = upload (fill_uploader servers c)
filled servers (stream c) = stream (fill_streamer servers c)
filled servers (sync_server c) = sync_server (fill_syncer servers c)
filled servers (sync_local c) = sync_local (fill_syncer servers c)

abbrev pub manage : Bool → Job → Manager
manage false (download c) = new_downloader c
manage true (download c) = new_one_time_downloader c
manage false (upload c) = new_uploader c
manage true (upload c) = new_one_time_uploader c
manage false (stream c) = new_streamer c
manage true (stream c) = new_one_time_streamer c
manage one_time (sync_server c) = start_sync_server one_time c
manage one_time (sync_local c) = start_sync_local one_time c

-- The goroutines of a manager, over what its scanner finds first.
abbrev pub started : {A : Type 0} → Manager → List (Entry A) → System A
started m entries = launch entries (pos_part m.worker)

-- Where a scanner looks.
abbrev pub scanned_path : Scanner → Text
scanned_path (sftp_scanner c t) = c.source_path
scanned_path (folder_scanner c t w) = c.source_path
