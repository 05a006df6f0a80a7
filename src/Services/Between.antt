-- ===== src/Services/Between.antt =====
-- The calls that both the streamer and the local syncer make to copy one file between two trees:
-- MkdirAll of the folder of the copy, OpenFile of the file, Create of the copy, io.Copy.
pub mod Whole
use ugoku.Base.{ℕ, Text, Error, Option, none, some}
use ugoku.Services.{FileTree, Opened, handle, refused}
use ugoku.Services.Copy.{Copied, copied, failed, stuck, copy}

-- How the chain of calls ends: with all bytes copied, at the call that failed, or in a copy that has
-- not ended within its fuel.
pub data Ending : Type 0 where
  whole : Ending
  mkdir_failed open_failed create_failed copy_failed : Error → Ending
  copying : Ending

module _ {W : Type 0} (source target : FileTree W) (fuel : ℕ) where
  abbrev pub after_copy : Copied × W → Ending × W
  after_copy (copied n, w) = (whole, w)
  after_copy (failed e, w) = (copy_failed e, w)
  after_copy (stuck, w) = (copying, w)

  abbrev pub after_create : ℕ → Opened × W → Ending × W
  after_create h (refused e, w) = (create_failed e, w)
  after_create h (handle k, w) = after_copy (copy (source.read h) (target.write k) fuel 0 w)

  abbrev pub after_open : Text → Opened × W → Ending × W
  after_open output (refused e, w) = (open_failed e, w)
  after_open output (handle h, w) = after_create h (target.create output w)

  abbrev pub after_mkdir : Text → Text → Option Error × W → Ending × W
  after_mkdir file output (some e, w) = (mkdir_failed e, w)
  after_mkdir file output (none, w) = after_open output (source.open_file file w)

  unfoldable pub copy_between : Text → Text → Text → W → Ending × W
  copy_between file output parent w = after_mkdir file output (target.mkdir_all parent w)
