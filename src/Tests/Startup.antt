-- ===== src/Tests/Startup.antt =====
-- A login with a key, workers that connect at the third attempt, and what a command starts.
use ugoku.Base.{
  ℕ, zero, suc, ◌≡◌, refl, ℤ, pos, Text, codes, same, decimal, digits_onto, Result, ok, err, true,
  false, none, some, [], ◌∷◌, ◌++◌, take,
}
use ugoku.Sleepytime.{reset, get_next_sleep}
use ugoku.Config.{DownloaderConfig, StreamerConfig, MasterConfig, zero_server, zero_master}
use ugoku.Sftplibs.Connect.{
  Ssh, ClientConfig, address, connect_sftp_server, get_config_for_cert_login,
}
use ugoku.Sftplibs.Connect.Choice.{Chosen, connect_sftp_server-Chosen}
use ugoku.Workers.{
  Attempt, connected, refused, connect_loop, connect_and_get_clients, connect_both, init_downloader,
  init_streamer, stop_streamer, Worker, StreamWorker,
}
use ugoku.Workers.Connecting.{init_streamer_exits}
use ugoku.Main.{start_downloaders, start_uploaders, start_streamers, start_syncers, nothing}
use ugoku.Main.Enabled.{filter, through, one_time_commands}
use ugoku.Syncer.{new_syncer}

abbrev plain_ssh : Ssh ℕ
plain_ssh = record {
  Signer = Text;
  PublicKey = Text;
  Certificate = Text;
  SshClient = Text;
  SftpClient = ℕ;
  parse_private_key = λ t. ok t;
  parse_authorized_key = λ t. ok t;
  as_certificate = λ t. some (b'c' ∷ t);
  new_cert_signer = λ c s. ok (c ++ s);
  dial = λ a c w. (ok a, suc w);
  new_client = λ c w. (ok w, w);
}

abbrev read_key : Text → Result Text
read_key path = ok path

logs_in :
    (connect_sftp_server plain_ssh read_key
      (codes "h")
      (pos 22)
      (codes "u")
      []
      (codes "k")
      (codes "p")
      0).0
    ≡ ok (codes "h:22", 1)
unfolding connect_sftp_server address decimal digits_onto same get_config_for_cert_login
logs_in = refl

connect_sftp_server-Chosen_example :
    (c : ClientConfig Text) × Chosen plain_ssh read_key (codes "u") [] (codes "k") (codes "p") c
    × ((plain_ssh.dial (address (codes "h") (pos 22)) c 0).0 ≡ ok (codes "h:22"))
    × ((plain_ssh.new_client (codes "h:22") (plain_ssh.dial (address (codes "h") (pos 22)) c 0).1).0
        ≡ ok 1)
connect_sftp_server-Chosen_example =
    connect_sftp_server-Chosen plain_ssh read_key (codes "h") (pos 22) (codes "u") [] (codes "k")
      (codes "p") 0 (codes "h:22") 1 logs_in

-- A server that is down for as many attempts as the world says.
abbrev attempt : ℕ → Attempt ℕ
attempt zero = connected 9
attempt (suc n) = refused n

abbrev connect : Text → ℤ → Text → Text → Text → Text → ℕ → Result (ℕ × ℕ) × ℕ
connect ip port user password keyfile certfile zero = (ok (4, 5), 0)
connect ip port user password keyfile certfile (suc n) = (err (codes "down"), n)

abbrev idle : ℕ → ℕ → ℕ
idle client w = w

abbrev sleep : ℤ → ℕ → ℕ
sleep t w = w

abbrev downloader : DownloaderConfig
downloader = record {
  name = codes "d";
  source = codes "a";
  source_path = codes "/out";
  target_path = codes "/in";
  enabled = true;
  worker = pos 2;
  max_timeout = pos 600;
  throughput = pos 10;
  source_server = zero_server;
}

abbrev fresh : Worker ℕ ℕ
fresh = record { started = false; to_exit = false; ssh_client = none; sftp_client = none }

abbrev ready : Worker ℕ ℕ
ready = record fresh { ssh_client = some 4; sftp_client = some 5 }

connects :
    init_downloader connect idle idle sleep downloader 5 fresh 2 ≡ some (connected (ready, 0))
unfolding init_downloader connect_and_get_clients connect_loop get_next_sleep reset
connects = refl

abbrev streamer : StreamerConfig
streamer = record {
  name = codes "s";
  source = codes "a";
  source_path = codes "/out";
  target = codes "b";
  target_path = codes "/in";
  enabled = true;
  sleep_interval = pos 1;
  worker = pos 1;
  source_server = zero_server;
  target_server = zero_server;
}

abbrev fresh_streamer : StreamWorker ℕ ℕ
fresh_streamer = record {
  started = false;
  to_exit = false;
  ssh_client_source = none;
  sftp_client_source = none;
  ssh_client_target = none;
  sftp_client_target = none;
}

abbrev stopped_streamer : StreamWorker ℕ ℕ
stopped_streamer = record {
  started = false;
  to_exit = true;
  ssh_client_source = some 4;
  sftp_client_source = some 5;
  ssh_client_target = some 4;
  sftp_client_target = some 5;
}

first_fails :
    connect_both connect idle idle sleep streamer
      (record fresh_streamer { started = false; to_exit = false }, 1)
    ≡ refused (fresh_streamer, 0)
unfolding connect_both
first_fails = refl

second_works :
    init_streamer connect idle idle sleep streamer 5 fresh_streamer 1
    ≡ some (connected (stopped_streamer, 0))
unfolding init_streamer connect_both connect_loop stop_streamer get_next_sleep reset
second_works = refl

init_streamer_exits_example : stopped_streamer.to_exit ≡ true
init_streamer_exits_example =
    init_streamer_exits connect idle idle sleep streamer 5 fresh_streamer fresh_streamer
      stopped_streamer 1 0 0 first_fails second_works

abbrev master : MasterConfig
master = record zero_master {
  downloaders = downloader ∷ downloader ∷ [];
  streamers = streamer ∷ streamer ∷ [];
}

one_time_commands_example :
    ((start_downloaders master).launched ≡ filter (λ c. c.enabled) master.downloaders)
    × ((start_uploaders master).launched ≡ take 1 (filter (λ c. c.enabled) master.uploaders))
    × ((start_streamers master).launched ≡ take 1 (filter (λ c. c.enabled) master.streamers))
    × ((start_syncers master).launched
        ≡ through (λ c. nothing (new_syncer c)) (filter (λ c. c.enabled) master.syncers))
one_time_commands_example = one_time_commands master
