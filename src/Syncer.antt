-- ===== src/Syncer.antt =====
-- syncer/local-syncer.go and syncer/server-syncer.go: the workers that copy a file if the two sides
-- differ, and the choice of the direction in syncer/syncer.go.
pub mod Decision
pub mod Laws
pub mod Marks
pub mod Roundtrip
pub mod Server
pub mod Local
use ugoku.Base.{
  ℕ, ℤ, eqb_ℤ, Text, codes, same, Error, Bool, true, false, not, Option, none, some, if◌then◌else◌,
}
use ugoku.Services.{FileInfo, unix, FileTree}
use ugoku.Services.Between.{
  Ending, whole, mkdir_failed, open_failed, create_failed, copy_failed, copying, copy_between,
}
use ugoku.FolderScanner.{FileObj}
use ugoku.Paths.{cut_first, path_join, path_dir, to_slashes}
use ugoku.Config.{SyncerConfig, mode_server, mode_local}

-- The body of `uploadable` and of `downloadable` after the Stat of the other side.
abbrev pub differs : FileInfo → Option FileInfo → Bool
differs stat none = true
differs stat (some other) =
    if not (eqb_ℤ stat.size other.size)
    then true
    else not (eqb_ℤ (unix stat.mod_time) (unix other.mod_time))

abbrev with_stat : {W : Type 0} → FileInfo → Option FileInfo × W → Bool × W
with_stat stat (r, w) = (differs stat r, w)

-- SftpLocalSyncer: `source` is the local disk, `target` the server.
module _ {W : Type 0} (source target : FileTree W) (c : SyncerConfig) (fuel : ℕ) where
  unfoldable pub uploadable : Text → FileInfo → W → Bool × W
  uploadable output stat w = with_stat stat (target.stat output w)

  -- The path of a file on the server.
  unfoldable pub server_file : Text → Text
  server_file path = to_slashes (path_join c.server_path (cut_first c.local_path path))

  -- The field `to_exit` after `upload`, or `none` where it panics or has not ended. A local file that
  -- cannot be opened leaves the field alone. The error branch of Create logs `err.Error()` of the nil
  -- error of OpenFile, which panics.
  abbrev pub exits : Bool → Ending → Option Bool
  exits to_exit whole = some to_exit
  exits to_exit (mkdir_failed e) = some true
  exits to_exit (open_failed e) = some to_exit
  exits to_exit (create_failed e) = none
  exits to_exit (copy_failed e) = some true
  exits to_exit copying = none

  unfoldable pub upload : Text → Text → W → Ending × W
  upload file output w =
      copy_between source target fuel file output (to_slashes (path_dir output)) w

  -- An error of Chtimes is only logged.
  unfoldable pub update_mod_time : Text → FileInfo → W → W
  update_mod_time output stat w = (target.chtimes (to_slashes output) stat.mod_time w).1

  abbrev pub after_upload : Text → FileInfo → Option Bool × W → Option Bool × W
  unfolding update_mod_time
  after_upload output stat (none, w) = (none, w)
  after_upload output stat (some to_exit, w) = (some to_exit, update_mod_time output stat w)

  abbrev pub uploaded : Text → FileInfo → Bool → Ending × W → Option Bool × W
  uploaded output stat to_exit (e, w) = after_upload output stat (exits to_exit e, w)

  abbrev pub if_uploadable : FileObj → Text → Bool → Bool × W → Option Bool × W
  unfolding upload
  if_uploadable fo output to_exit (false, w) = (some to_exit, w)
  if_uploadable fo output to_exit (true, w) =
      uploaded output fo.stat to_exit (upload fo.path output w)

  -- One round of Start, between the receive and the send.
  unfoldable pub sync_to_server : FileObj → Bool → W → Option Bool × W
  unfolding uploadable server_file
  sync_to_server fo to_exit w =
      let output = server_file fo.path in
      if_uploadable fo output to_exit (uploadable output fo.stat w)

-- SftpServerSyncer: the path of the local copy of a file. Its rounds are the module Server.
unfoldable pub local_file : SyncerConfig → Text → Text
local_file c path = path_join c.local_path (cut_first c.server_path path)

-- NewSyncer and NewOneTimeSyncer: the direction, if any is started.
pub data Direction : Type 0 where
  server_to_local local_to_server : Direction

unfoldable pub new_syncer : SyncerConfig → Option Direction
new_syncer c =
    if same c.mode mode_server
    then some server_to_local
    else if same c.mode mode_local
    then some local_to_server
    else none
