-- ===== src/Streamer.antt =====
-- streamer/streamer.go: the worker that moves one file from a source server to a target server.
pub mod Safety
use ugoku.Base.{ℕ, Text, Error, Bool, true, false, Option, none, some, for_break}
use ugoku.Services.{FileTree}
use ugoku.Services.Between.{
  Ending, whole, mkdir_failed, open_failed, create_failed, copy_failed, copying, copy_between,
}
use ugoku.Services.Removal.{try_remove}
use ugoku.Paths.{cut_first, path_join, path_dir, to_slashes}
use ugoku.Config.{StreamerConfig}

-- What `stream` returns. `panicked` is a run-time panic, and `running` a copy that has not ended
-- within its fuel.
pub data Streamed : Type 0 where
  moved panicked running : Streamed
  not_moved : Streamed

-- The path of the copy, and its folder.
unfoldable pub output_file : StreamerConfig → Text → Text
output_file c file = to_slashes (path_join c.target_path (cut_first c.source_path file))

abbrev pub output_parent_folder : Text → Text
output_parent_folder output = to_slashes (path_dir output)

module _ {W : Type 0} (source target : FileTree W) (c : StreamerConfig) (fuel : ℕ) where
  -- The error branch of Create logs `err.Error()` of the nil error of OpenFile, which panics.
  streamed : Ending × W → Streamed × W
  streamed (whole, w) = (moved, w)
  streamed (mkdir_failed e, w) = (not_moved, w)
  streamed (open_failed e, w) = (not_moved, w)
  streamed (create_failed e, w) = (panicked, w)
  streamed (copy_failed e, w) = (not_moved, w)
  streamed (copying, w) = (running, w)

  unfoldable pub stream : Text → W → Streamed × W
  unfolding streamed output_file
  stream file w =
      let output = output_file c file in
      streamed (copy_between source target fuel file output (output_parent_folder output) w)

  -- Up to three tries, with no pause.
  unfoldable pub remove_src : Text → W → W
  remove_src file = for_break 3 0 (λ i w. try_remove source file w)

  -- One round of the worker's loop, between the receive and the send: the new `streamer_to_exit`,
  -- or `none` after a panic or while the copy runs.
  after_stream : Text → Bool → Streamed × W → Option Bool × W
  unfolding remove_src
  after_stream file to_exit (moved, w) = (some to_exit, remove_src file w)
  after_stream file to_exit (not_moved, w) = (some true, w)
  after_stream file to_exit (panicked, w) = (none, w)
  after_stream file to_exit (running, w) = (none, w)

  unfoldable pub handle_file : Text → Bool → W → Option Bool × W
  unfolding after_stream
  handle_file file to_exit w = after_stream file to_exit (stream file w)
