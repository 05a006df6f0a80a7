-- ===== src/Tests/Moves.antt =====
-- A file streamed, a file synced twice, and a file that cannot be opened.
use ugoku.Base.{◌≡◌, refl, pos, Text, codes, same, true, false, none, some, []}
use ugoku.Services.{FileInfo}
use ugoku.Services.Copy.{copy}
use ugoku.Services.Between.{whole, open_failed, copy_between}
use ugoku.Config.{StreamerConfig, SyncerConfig, zero_server}
use ugoku.Paths.{
  strip_prefix, clean, segments, keep, keep_all, joined, rendered, cut_first, path_join, to_slashes,
}
use ugoku.FolderScanner.{FileObj}
use ugoku.Streamer.{handle_file}
use ugoku.Streamer.Safety.{NotLost, handle_file_no_loss}
use ugoku.Syncer.{uploadable, server_file, upload, sync_to_server}
use ugoku.Syncer.Marks.{synced_file_settles, unopened_file_settles}
use ugoku.Tests.Disk.{
  World, missing, update, source, target, source_files, target_files, infos, pending, written,
  Writing, two_servers,
}
use ugoku.Tests.Laws.{attributes, sized, quiet}

abbrev start : World
start = record {
  sources = update (codes "/out/a") (some (codes "hi")) (λ q. none);
  targets = λ q. none;
  times = λ q. pos 0;
  unread = codes "hi";
  writing = [];
  sent = [];
}

abbrev streamer : StreamerConfig
streamer = record {
  name = codes "s";
  source = codes "one";
  source_path = codes "/out";
  target = codes "two";
  target_path = codes "/in";
  enabled = true;
  sleep_interval = pos 1;
  worker = pos 1;
  source_server = zero_server;
  target_server = zero_server;
}

handle_file_no_loss_example :
    NotLost source target streamer 9 source_files target_files pending written Writing two_servers
      (codes "/out/a")
      start
      (handle_file source target streamer 9 (codes "/out/a") false start).1
handle_file_no_loss_example =
    handle_file_no_loss source target streamer 9 source_files target_files pending written Writing
      two_servers (codes "/out/a") false start

abbrev syncer : SyncerConfig
syncer = record {
  name = codes "s";
  server = codes "one";
  server_path = codes "/in";
  local_path = codes "/out";
  mode = codes "local";
  enabled = true;
  sleep_interval = pos 1;
  worker = pos 1;
  max_timeout = pos 600;
  throughput = pos 10;
  sync_server = zero_server;
}

abbrev file_a : FileObj
file_a = record {
  path = codes "/out/a";
  stat = record { size = pos 2; mod_time = pos 7000000000; is_dir = false };
}

abbrev name_a : Text
name_a = server_file source target syncer 9 file_a.path

abbrev uploaded_a : World
uploaded_a = (upload source target syncer 9 file_a.path name_a start).1

is_new : (uploadable source target syncer 9 name_a file_a.stat start).0 ≡ true
unfolding uploadable server_file cut_first path_join to_slashes
is_new = refl

seen_a : (uploadable source target syncer 9 name_a file_a.stat start).1 ≡ start
unfolding uploadable server_file
seen_a = refl

upload_ends :
    upload source target syncer 9 file_a.path name_a
      (uploadable source target syncer 9 name_a file_a.stat start).1
    ≡ (whole, uploaded_a)
unfolding upload uploadable copy_between copy update same server_file
upload_ends = refl

has_a :
    source_files (uploadable source target syncer 9 name_a file_a.stat start).1 file_a.path
    ≡ some (codes "hi")
unfolding uploadable update same
has_a = refl

synced_file_settles_example :
    (target_files (sync_to_server source target syncer 9 file_a false start).1 name_a
      ≡ some (codes "hi"))
    × ((uploadable source target syncer 9 name_a file_a.stat
          (sync_to_server source target syncer 9 file_a false start).1).0
        ≡ false)
synced_file_settles_example =
    synced_file_settles source target syncer 9 infos attributes source_files target_files pending
      written Writing two_servers sized quiet file_a false start uploaded_a (codes "hi") is_new
      upload_ends has_a refl refl

name_a_is : name_a ≡ codes "/in/a"
unfolding server_file cut_first strip_prefix to_slashes path_join clean segments keep keep_all
    joined rendered same
name_a_is = refl

-- The local file is gone, and the server has another one of its size.
abbrev stale : World
stale = record start {
  sources = λ q. none;
  targets = update (codes "/in/a") (some (codes "no")) (λ q. none);
}

stale_new : (uploadable source target syncer 9 name_a file_a.stat stale).0 ≡ true
unfolding uploadable update same
stale_new = rw name_a_is refl

unopened :
    upload source target syncer 9 file_a.path name_a
      (uploadable source target syncer 9 name_a file_a.stat stale).1
    ≡ (open_failed missing, stale)
unfolding upload uploadable copy_between
unopened = refl

abbrev old_info : FileInfo
old_info = record { size = pos 2; mod_time = pos 0; is_dir = false }

had_a : infos stale name_a ≡ some old_info
unfolding update same
had_a = rw name_a_is refl

unopened_file_settles_example :
    ((q : Text)
      → target_files (sync_to_server source target syncer 9 file_a false stale).1 q
        ≡ target_files stale q)
    × ((uploadable source target syncer 9 name_a file_a.stat
          (sync_to_server source target syncer 9 file_a false stale).1).0
        ≡ false)
unopened_file_settles_example =
    unopened_file_settles source target syncer 9 infos attributes target_files quiet file_a false
      stale stale missing old_info stale_new unopened had_a refl refl
