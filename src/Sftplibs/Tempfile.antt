-- ===== src/Sftplibs/Tempfile.antt =====
-- The temporary files of sftplibs/sftplibs.go and the copy of sftplibs/io-copy-with-cancel.go.
pub mod Index
pub mod Rename
pub mod Complete
use ugoku.Base.{
  ℕ, suc, ◌+◌, ltb, Text, Error, decimal, Bool, Option, none, some, ◌++◌, ◌∷◌, for_break, true,
  false, if◌then◌else◌,
}
use ugoku.Services.{FileTree, Chunk, broken, Opened, handle, refused}
use ugoku.Services.Copy.{Copied, copied, failed, copy}
use ugoku.Paths.{path_join}

-- The package variable `tempindex`, after `init` and after `IncrTempIndex`.
abbrev pub init_temp_index : ℕ
init_temp_index = 10000

unfoldable pub incr_temp_index : ℕ → ℕ
incr_temp_index tempindex = let next = tempindex + 1 in if ltb 90000 next then 10000 else next

-- `fmt.Sprintf("%s_%d%d", prefix, millis, tempindex)`
unfoldable pub temp_filename : Text → ℕ → ℕ → Text
temp_filename prefix millis tempindex = prefix ++ b'_' ∷ (decimal millis ++ decimal tempindex)

-- A context is asked whether it is done, and why, each time that it is read.
pub record Context (W : Type 0) : Type 0 where
  pub is_done : W → Bool
  pub cause : W → Error

module _ {W : Type 0} (ctx : Context W) where
  -- The reader that CopyWithCancel wraps round the source.
  unfoldable pub cancellable : (W → Chunk × W) → W → Chunk × W
  cancellable read w = if ctx.is_done w then (broken (ctx.cause w), w) else read w

  unfoldable pub copy_with_cancel :
      ℕ → (W → Chunk × W) → (Text → W → Option Error × W) → W → Copied × W
  copy_with_cancel fuel read write = copy (cancellable read) write fuel 0

  module _ (os : FileTree W) (fuel : ℕ) (read : W → Chunk × W) where
    after_create : Opened × W → Copied × W
    after_create (refused e, w) = (failed e, w)
    after_create (handle tempfile, w) = copy_with_cancel fuel read (os.write tempfile) w

    -- `doSftpDownload`. On an error the caller is given 0 bytes and the error.
    unfoldable pub do_sftp_download : Text → W → Copied × W
    unfolding after_create
    do_sftp_download tempfile_path w = after_create (os.create tempfile_path w)

    -- `DownloadToTemp`: the result with the path of the temporary file, the next index, the world.
    unfoldable pub download_to_temp : Text → Text → ℕ → ℕ → W → Copied × Text × ℕ × W
    unfolding do_sftp_download
    download_to_temp temp_folder prefix millis tempindex w =
        let tempfile_path = path_join temp_folder (temp_filename prefix millis tempindex) in
        let (nbytes, w') = do_sftp_download tempfile_path w in
        (nbytes, tempfile_path, incr_temp_index tempindex, w')

module _ {W : Type 0} (os : FileTree W) (rename : Text → Text → W → Option Error × W)
    (sleep : ℕ → W → W) where
  -- One round of the loop of RenameTempfile over `rename_err`. Sleeps are in milliseconds.
  renamed : Option Error × W → Bool × (Option Error × W)
  renamed (none, w) = (true, (none, w))
  renamed (some e, w) = (false, (some e, sleep 1000 w))

  clean_up : Text → Option Error × W → Option Error × W
  clean_up tempfile_path (none, w) = (none, w)
  clean_up tempfile_path (some e, w) = (some e, (os.remove tempfile_path w).1)

  unfoldable pub rename_tempfile : Text → Text → W → Option Error × W
  unfolding renamed clean_up for_break
  rename_tempfile tempfile_path output_file w =
      clean_up tempfile_path
        (for_break 3 0 (λ i s. renamed (rename tempfile_path output_file s.1)) (none, w))
