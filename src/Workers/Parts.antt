-- ===== src/Workers/Parts.antt =====
-- The same connection, init and Stop in the five parts that have one pair of clients: the workers of
-- downloader/downloader.go, uploader/uploader.go, syncer/server-syncer.go and syncer/local-syncer.go, and
-- the scanner of downloader/sftp-scanner.go.
use ugoku.Base.{
  ℕ, ◌≡◌, refl, ap, ◌∙◌, ℤ, pos, Text, Bool, true, false, Option, some, Result, ok, err, panic,
  arith,
}
use ugoku.Sleepytime.{reset}
use ugoku.Config.{ServerConfig, DownloaderConfig, UploaderConfig, SyncerConfig}
use ugoku.Workers.{
  Attempt, connected, connect_loop, Worker, connect_and_get_clients, init_downloader, init_uploader,
  connect_uploader, closing, with_clients,
}
use ugoku.Workers.Connecting.{connect_loop-inv, refused_same}

-- A worker or scanner with its configuration.
pub data Part : Type 0 where
  downloader : DownloaderConfig → Part
  uploader : UploaderConfig → Part
  server_syncer : SyncerConfig → Part
  local_syncer : SyncerConfig → Part
  sftp_scanner : DownloaderConfig → Part

module _ {W SshClient SftpClient : Type 0}
    (connect_sftp_server : Text
      → ℤ
      → Text
      → Text
      → Text
      → Text
      → W
      → Result (SshClient × SftpClient) × W)
    (close_ssh : SshClient → W → W) (close_sftp : SftpClient → W → W) (sleep : ℤ → W → W) where
  -- connectAndGetClients, one for each part.
  abbrev connect :
      ServerConfig → Worker SshClient SftpClient × W → Attempt (Worker SshClient SftpClient × W)
  connect = connect_and_get_clients connect_sftp_server close_ssh close_sftp sleep

  unfoldable pub connect_server_syncer :
      SyncerConfig → Worker SshClient SftpClient × W → Attempt (Worker SshClient SftpClient × W)
  connect_server_syncer c = connect c.sync_server

  unfoldable pub connect_local_syncer :
      SyncerConfig → Worker SshClient SftpClient × W → Attempt (Worker SshClient SftpClient × W)
  connect_local_syncer c = connect c.sync_server

  unfoldable pub connect_scanner :
      DownloaderConfig → Worker SshClient SftpClient × W → Attempt (Worker SshClient SftpClient × W)
  connect_scanner c = connect c.source_server

  -- The loop of init, from the worker that its first lines leave.
  abbrev dial :
      (Worker SshClient SftpClient × W → Attempt (Worker SshClient SftpClient × W))
      → ℕ
      → Worker SshClient SftpClient
      → W
      → Option (Attempt (Worker SshClient SftpClient × W))
  dial attempt fuel d w =
      connect_loop attempt (λ t s. (s.0, sleep t s.1)) fuel (reset (pos 2) (pos 600)) (d, w)

  abbrev unset : Worker SshClient SftpClient → Worker SshClient SftpClient
  unset d = record d { started = false; to_exit = false }

  unfoldable pub init_server_syncer :
      SyncerConfig
      → ℕ
      → Worker SshClient SftpClient
      → W
      → Option (Attempt (Worker SshClient SftpClient × W))
  unfolding connect_server_syncer
  init_server_syncer c fuel d w = dial (connect_server_syncer c) fuel (unset d) w

  unfoldable pub init_local_syncer :
      SyncerConfig
      → ℕ
      → Worker SshClient SftpClient
      → W
      → Option (Attempt (Worker SshClient SftpClient × W))
  unfolding connect_local_syncer
  init_local_syncer c fuel d w = dial (connect_local_syncer c) fuel (unset d) w

  -- The scanner has no field `to_exit`; its default sleep is `init_default` of the module Scanner.
  unfoldable pub init_scanner :
      DownloaderConfig
      → ℕ
      → Worker SshClient SftpClient
      → W
      → Option (Attempt (Worker SshClient SftpClient × W))
  unfolding connect_scanner
  init_scanner c fuel d w = dial (connect_scanner c) fuel (record d { started = false }) w

  abbrev close_all : Worker SshClient SftpClient → W → W
  close_all d w = closing close_ssh d.ssh_client (closing close_sftp d.sftp_client w)

  unfoldable pub stop_uploader : Worker SshClient SftpClient × W → Worker SshClient SftpClient × W
  stop_uploader (d, w) = (record d { started = false; to_exit = true }, close_all d w)

  -- Stop of the syncers and of the scanner leaves `to_exit` alone.
  unfoldable pub stop_server_syncer :
      Worker SshClient SftpClient × W → Worker SshClient SftpClient × W
  stop_server_syncer (d, w) = (record d { started = false }, close_all d w)

  unfoldable pub stop_local_syncer :
      Worker SshClient SftpClient × W → Worker SshClient SftpClient × W
  stop_local_syncer (d, w) = (record d { started = false }, close_all d w)

  unfoldable pub stop_scanner : Worker SshClient SftpClient × W → Worker SshClient SftpClient × W
  stop_scanner (d, w) = (record d { started = false }, close_all d w)

  -- Start of each part calls its init first, and sets `started` then.
  unfoldable pub init_part :
      Part
      → ℕ
      → Worker SshClient SftpClient
      → W
      → Option (Attempt (Worker SshClient SftpClient × W))
  unfolding init_server_syncer init_local_syncer init_scanner
  init_part (downloader c) = init_downloader connect_sftp_server close_ssh close_sftp sleep c
  init_part (uploader c) = init_uploader connect_sftp_server close_ssh close_sftp sleep c
  init_part (server_syncer c) = init_server_syncer c
  init_part (local_syncer c) = init_local_syncer c
  init_part (sftp_scanner c) = init_scanner c

  abbrev server_of : Part → ServerConfig
  server_of (downloader c) = c.source_server
  server_of (uploader c) = c.target_server
  server_of (server_syncer c) = c.sync_server
  server_of (local_syncer c) = c.sync_server
  server_of (sftp_scanner c) = c.source_server

  -- `to_exit` after the first lines of init.
  abbrev pub exit_after : Part → Worker SshClient SftpClient → Bool
  exit_after (sftp_scanner c) d = d.to_exit
  exit_after part d = false

  abbrev pub HasClients : Worker SshClient SftpClient → Type 0
  HasClients d =
      ((c : SshClient) × (d.ssh_client ≡ some c)) × ((c : SftpClient) × (d.sftp_client ≡ some c))

  connected_lem :
      (d d' : Worker SshClient SftpClient) (w' : W) (r : Result (SshClient × SftpClient) × W)
      → with_clients connect_sftp_server close_ssh close_sftp sleep d r ≡ connected (d', w')
      → HasClients d' × (d'.started ≡ d.started) × (d'.to_exit ≡ d.to_exit)
  connected_lem d d' w' (ok (x, y), v) e =
      (((x, ground arith), (y, ground arith)), ground arith, ground arith)
  connected_lem d d' w' (err x, v) e = cc
  connected_lem d d' w' (panic, v) e = cc

  -- A loop whose failed rounds leave the worker as it was.
  dialled :
      (server : ServerConfig)
      (failed : ℤ → Worker SshClient SftpClient × W → Worker SshClient SftpClient × W) (fuel : ℕ)
      (d d' : Worker SshClient SftpClient) (w w' : W)
      → ((t : ℤ) (s : Worker SshClient SftpClient × W) → (failed t s).0 ≡ s.0)
      → connect_loop (connect server) failed fuel (reset (pos 2) (pos 600)) (d, w)
        ≡ some (connected (d', w'))
      → HasClients d' × (d'.started ≡ d.started) × (d'.to_exit ≡ d.to_exit)
  unfolding connect_and_get_clients
  dialled server failed fuel d d' w w' keeps e =
      let (v, h, a) =
        connect_loop-inv (connect server) failed (λ (s : Worker SshClient SftpClient × W). s.0 ≡ d)
          (λ s u h a t.
            keeps t u
            ∙ refused_same connect_sftp_server close_ssh close_sftp sleep s.0 u.0 u.1 _ a
            ∙ h)
          fuel (reset (pos 2) (pos 600)) (d, w) (d', w') refl e in
      let (clients, b, c) = connected_lem v.0 d' w' _ a in
      (clients, b ∙ ap (λ x. x.started) h, c ∙ ap (λ x. x.to_exit) h)

  -- If init of a downloader, an uploader, a syncer of either kind or an SFTP scanner returns, however many
  -- attempts failed before, then it has both clients and `started` is false; `to_exit` is false, but for
  -- the scanner, which has none.
  pub init_part_lem :
      (part : Part) (fuel : ℕ) (d d' : Worker SshClient SftpClient) (w w' : W)
      → init_part part fuel d w ≡ some (connected (d', w'))
      → HasClients d' × (d'.started ≡ false) × (d'.to_exit ≡ exit_after part d)
  unfolding init_part init_downloader init_uploader connect_uploader connect_server_syncer
      connect_local_syncer connect_scanner init_server_syncer init_local_syncer init_scanner
  init_part_lem (downloader c) fuel d d' w w' e =
      dialled c.source_server _ fuel (unset d) d' w w' (λ t s. refl) e
  init_part_lem (uploader c) fuel d d' w w' e =
      dialled c.target_server _ fuel (unset d) d' w w' (λ t s. refl) e
  init_part_lem (server_syncer c) fuel d d' w w' e =
      dialled c.sync_server _ fuel (unset d) d' w w' (λ t s. refl) e
  init_part_lem (local_syncer c) fuel d d' w w' e =
      dialled c.sync_server _ fuel (unset d) d' w w' (λ t s. refl) e
  init_part_lem (sftp_scanner c) fuel d d' w w' e =
      dialled c.source_server _ fuel (record d { started = false }) d' w w' (λ t s. refl) e
