-- ===== src/Streamer/Safety.antt =====
-- The files of both servers after a round of streamer/streamer.go.
use ugoku.Base.{ℕ, ◌≡◌, refl, ◌∙◌, ◌≢◌, ◌⊎◌, inl, inr, Text, Bool, some, for_break_inv}
use ugoku.Services.{FileTree, Contents}
use ugoku.Services.Between.{
  Ending, whole, mkdir_failed, open_failed, create_failed, copy_failed, copying,
}
use ugoku.Services.Between.Whole.{TwoServers, Safe, copy_between-Safe}
use ugoku.Services.Removal.{tries-Trims, Trims, try_remove_inv}
use ugoku.Config.{StreamerConfig}
use ugoku.Streamer.{
  Streamed, moved, not_moved, panicked, running, output_file, output_parent_folder, streamed,
  stream, remove_src, after_stream, handle_file,
}

module _ {W : Type 0} (source target : FileTree W) (c : StreamerConfig) (fuel : ℕ)
    (sources targets : Contents W) (pending written : ℕ → W → Text) (Writes : ℕ → Text → W → Type 0)
    (law : TwoServers source target sources targets pending written Writes) where
  -- After a stream: the source is as it was, and a file that was moved is whole at the target.
  abbrev StreamSafe : Text → W → Streamed × W → Type 0
  StreamSafe file w (moved, v) =
      ((q : Text) → sources v q ≡ sources w q)
      × ((x : Text) × (sources w file ≡ some x) × (targets v (output_file c file) ≡ some x))
  StreamSafe file w (r, v) = (q : Text) → sources v q ≡ sources w q

  streamed-Safe :
      (file : Text) (w : W) (r : Ending × W)
      → Safe source target fuel sources targets pending written Writes law file
          (output_file c file)
          w
          r
      → StreamSafe file w (streamed source target c fuel r)
  unfolding streamed
  streamed-Safe file w (whole, v) h = h
  streamed-Safe file w (mkdir_failed e, v) h = h
  streamed-Safe file w (open_failed e, v) h = h
  streamed-Safe file w (create_failed e, v) h = h
  streamed-Safe file w (copy_failed e, v) h = h
  streamed-Safe file w (copying, v) h = h

  stream-Safe : (file : Text) (w : W) → StreamSafe file w (stream source target c fuel file w)
  unfolding stream output_file
  stream-Safe file w = streamed-Safe file w _ (
      copy_between-Safe source target fuel sources targets pending written Writes law file
        (output_file c file) (output_parent_folder (output_file c file)) w)

  removal_apart :
      (file output : Text) (x : Text) (w : W)
      → targets w output ≡ some x
      → targets (remove_src source target c fuel file w) output ≡ some x
  unfolding remove_src
  removal_apart file output x w h =
      for_break_inv (λ v. targets v output ≡ some x) _
        (λ i.
          try_remove_inv source file (λ v. targets v output ≡ some x)
            (λ v e. law.remove_apart file v output ∙ e) (λ v e. law.stat_apart file v output ∙ e))
        3 0 w h

  -- What a round of the worker may do to the source: nothing but the removal of `file`, which is then
  -- whole at the target.
  abbrev pub NotLost : Text → W → W → Type 0
  NotLost file w v =
      ((q : Text) → q ≢ file → sources v q ≡ sources w q)
      × ((sources v file ≡ sources w file)
          ⊎ ((x : Text) × (sources w file ≡ some x) × (targets v (output_file c file) ≡ some x)))

  after_stream-NotLost :
      (file : Text) (to_exit : Bool) (w : W) (r : Streamed × W)
      → StreamSafe file w r
      → NotLost file w (after_stream source target c fuel file to_exit r).1
  unfolding after_stream remove_src
  after_stream-NotLost file to_exit w (not_moved, v) same = (λ q ne. same q, inl (same file))
  after_stream-NotLost file to_exit w (panicked, v) same = (λ q ne. same q, inl (same file))
  after_stream-NotLost file to_exit w (running, v) same = (λ q ne. same q, inl (same file))
  after_stream-NotLost file to_exit w (moved, v) (same, (x, has, there)) = (
    λ q ne. trims.0 q ne ∙ same q,
    inr (x, has, removal_apart file (output_file c file) x v there),
  )
    where
      trims : Trims source sources law.removal file v (remove_src source target c fuel file v)
      trims = tries-Trims source sources law.removal file (λ i u. u) (λ i u q. refl) 3 0 v

  -- Assume that the two servers satisfy `TwoServers`. In a round of the streamer for `file`, every
  -- other file of the source server stays as it was; `file` itself stays as it was too, or its content
  -- before the round is now the content of its output file on the target server. This holds on every
  -- path, errors and panics included.
  pub handle_file_no_loss :
      (file : Text) (to_exit : Bool) (w : W)
      → NotLost file w (handle_file source target c fuel file to_exit w).1
  unfolding handle_file
  handle_file_no_loss file to_exit w = after_stream-NotLost file to_exit w _ (stream-Safe file w)
