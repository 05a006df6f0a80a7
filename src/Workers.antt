-- ===== src/Workers.antt =====
-- The life of a worker: the connection loop of `init`, connectAndGetClients, Stop and removeSrc of
-- downloader/downloader.go, uploader/uploader.go and streamer/streamer.go.
pub mod Connecting
pub mod Removing
pub mod Parts
use ugoku.Base.{
  ℕ, zero, suc, ◌*◌, ◌+◌, ℤ, pos, Text, Bool, true, false, Option, none, some, Result, ok, err,
  panic, for_break,
}
use ugoku.Services.{FileTree}
use ugoku.Services.Removal.{try_remove}
use ugoku.Sleepytime.{Sleepytime, reset, get_next_sleep}
use ugoku.Config.{ServerConfig, DownloaderConfig, UploaderConfig, StreamerConfig}

-- How a call of connectAndGetClients ends: nil, an error, or a panic.
pub data Attempt (S : Type 0) : Type 0 where
  connected : S → Attempt S
  refused : S → Attempt S
  crashed : Attempt S

-- `for { err := connectAndGetClients(); if err == nil { break }; … }`, where `failed t` is the rest of
-- the round, with a sleep of t seconds. `none` means that the fuel, one unit for each round, ran out.
module _ {S : Type 0} (attempt : S → Attempt S) (failed : ℤ → S → S) where
  abbrev pub after_attempt : (S → Option (Attempt S)) → ℤ → Attempt S → Option (Attempt S)
  after_attempt again t (connected s) = some (connected s)
  after_attempt again t (refused s) = again (failed t s)
  after_attempt again t crashed = some crashed

  unfoldable pub connect_loop : ℕ → Sleepytime → S → Option (Attempt S)
  connect_loop zero sleepy s = none
  connect_loop (suc fuel) sleepy s =
      let (sleepy', t) = get_next_sleep sleepy in
      after_attempt (connect_loop fuel sleepy') t (attempt s)

-- The fields of a worker that change. A client is `none` where the pointer is nil.
pub record Worker (SshClient SftpClient : Type 0) : Type 0 where
  pub started : Bool
  pub to_exit : Bool
  pub ssh_client : Option SshClient
  pub sftp_client : Option SftpClient

-- The streamer has a pair of clients for each of its servers.
pub record StreamWorker (SshClient SftpClient : Type 0) : Type 0 where
  pub started : Bool
  pub to_exit : Bool
  pub ssh_client_source : Option SshClient
  pub sftp_client_source : Option SftpClient
  pub ssh_client_target : Option SshClient
  pub sftp_client_target : Option SftpClient

-- `if client != nil { client.Close() }`
abbrev pub closing : {W C : Type 0} → (C → W → W) → Option C → W → W
closing close none w = w
closing close (some client) w = close client w

module _ {W SshClient SftpClient : Type 0}
    (connect_sftp_server : Text
      → ℤ
      → Text
      → Text
      → Text
      → Text
      → W
      → Result (SshClient × SftpClient) × W)
    (close_ssh : SshClient → W → W) (close_sftp : SftpClient → W → W) (sleep : ℤ → W → W) where
  abbrev connect_to : ServerConfig → W → Result (SshClient × SftpClient) × W
  connect_to server =
      connect_sftp_server server.ip server.port server.user server.password server.key_file
        server.cert_file

  abbrev pub with_clients :
      Worker SshClient SftpClient
      → Result (SshClient × SftpClient) × W
      → Attempt (Worker SshClient SftpClient × W)
  with_clients d (ok (ssh, sftp), w) =
      connected (record d { ssh_client = some ssh; sftp_client = some sftp }, w)
  with_clients d (err e, w) = refused (d, w)
  with_clients d (panic, w) = crashed

  -- connectAndGetClients of the downloader; those of the uploader, the syncers and the scanner differ in
  -- the server.
  unfoldable pub connect_and_get_clients :
      ServerConfig → Worker SshClient SftpClient × W → Attempt (Worker SshClient SftpClient × W)
  connect_and_get_clients server (d, w) = with_clients d (connect_to server w)

  abbrev pub reset_flags : Worker SshClient SftpClient → Worker SshClient SftpClient
  reset_flags d = record d { started = false; to_exit = false }

  -- SftpDownloader.init
  unfoldable pub init_downloader :
      DownloaderConfig
      → ℕ
      → Worker SshClient SftpClient
      → W
      → Option (Attempt (Worker SshClient SftpClient × W))
  init_downloader c fuel d w =
      connect_loop (connect_and_get_clients c.source_server) (λ t s. (s.0, sleep t s.1)) fuel
        (reset (pos 2) (pos 600)) (reset_flags d, w)

  unfoldable pub connect_uploader :
      UploaderConfig → Worker SshClient SftpClient × W → Attempt (Worker SshClient SftpClient × W)
  connect_uploader c = connect_and_get_clients c.target_server

  -- SftpUploader.init, which sleeps ten seconds more after each failure.
  unfoldable pub init_uploader :
      UploaderConfig
      → ℕ
      → Worker SshClient SftpClient
      → W
      → Option (Attempt (Worker SshClient SftpClient × W))
  init_uploader c fuel d w =
      connect_loop (connect_uploader c) (λ t s. (s.0, sleep t (sleep (pos 10) s.1))) fuel
        (reset (pos 2) (pos 600)) (reset_flags d, w)

  -- Stop of the downloader.
  unfoldable pub stop : Worker SshClient SftpClient × W → Worker SshClient SftpClient × W
  stop (d, w) = (
    record d { started = false; to_exit = true },
    closing close_ssh d.ssh_client (closing close_sftp d.sftp_client w),
  )

  abbrev pub with_target :
      StreamWorker SshClient SftpClient
      → Result (SshClient × SftpClient) × W
      → Attempt (StreamWorker SshClient SftpClient × W)
  with_target d (ok (ssh, sftp), w) =
      connected (record d { ssh_client_target = some ssh; sftp_client_target = some sftp }, w)
  with_target d (err e, w) = refused (d, w)
  with_target d (panic, w) = crashed

  abbrev pub with_source :
      StreamerConfig
      → StreamWorker SshClient SftpClient
      → Result (SshClient × SftpClient) × W
      → Attempt (StreamWorker SshClient SftpClient × W)
  with_source c d (ok (ssh, sftp), w) =
      let d' = record d { ssh_client_source = some ssh; sftp_client_source = some sftp } in
      with_target d' (connect_to c.target_server w)
  with_source c d (err e, w) = refused (d, w)
  with_source c d (panic, w) = crashed

  -- connectAndGetClients of the streamer: the source server, then the target server.
  unfoldable pub connect_both :
      StreamerConfig
      → StreamWorker SshClient SftpClient × W
      → Attempt (StreamWorker SshClient SftpClient × W)
  connect_both c (d, w) = with_source c d (connect_to c.source_server w)

  unfoldable pub stop_streamer :
      StreamWorker SshClient SftpClient × W → StreamWorker SshClient SftpClient × W
  stop_streamer (d, w) = (
    record d { started = false; to_exit = true },
    closing close_ssh d.ssh_client_target (
        closing close_sftp d.sftp_client_target
          (closing close_ssh d.ssh_client_source (closing close_sftp d.sftp_client_source w))),
  )

  abbrev pub stop_and_sleep :
      ℤ → StreamWorker SshClient SftpClient × W → StreamWorker SshClient SftpClient × W
  stop_and_sleep t s = let (d, w) = stop_streamer s in (d, sleep t w)

  -- SftpStreamer.init, which calls Stop after each failure.
  unfoldable pub init_streamer :
      StreamerConfig
      → ℕ
      → StreamWorker SshClient SftpClient
      → W
      → Option (Attempt (StreamWorker SshClient SftpClient × W))
  init_streamer c fuel d w =
      connect_loop (connect_both c) stop_and_sleep fuel (reset (pos 2) (pos 600))
        (record d { started = false; to_exit = false }, w)

-- `time.Sleep(time.Duration(i*100) * time.Millisecond)`, where `pause` takes milliseconds.
module _ {W : Type 0} (pause : ℕ → W → W) (t : FileTree W) where
  -- SftpDownloader.removeSrc; `t` is the server.
  unfoldable pub remove_remote_src : Text → W → W
  remove_remote_src file = for_break 3 1 (λ i w. try_remove t file (pause (i * 100) w))

  -- SftpUploader.removeSrc; `t` is the local disk.
  unfoldable pub remove_local_src : Text → W → W
  remove_local_src file = for_break 3 1 (λ i w. try_remove t file (pause (i * 100) w))
