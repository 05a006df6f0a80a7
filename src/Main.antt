-- ===== src/Main.antt =====
-- cmd/service/ugoku.go: the commands and what each of them starts.
pub mod Enabled
pub mod Program
use ugoku.Base.{
  Text, codes, same, to_lower, Bool, true, false, Option, none, some, List, [], ◌∷◌, map,
  if◌then◌else◌,
}
use ugoku.Config.{DownloaderConfig, UploaderConfig, SyncerConfig, StreamerConfig, MasterConfig}
use ugoku.Syncer.{Direction, new_syncer}

-- Where `main` goes: to one of the start functions, or to os.Exit(0) after the usage.
pub data Command : Type 0 where
  upload download sync stream serve usage : Command

unfoldable pub command : Text → Command
command cmd =
    if same cmd (codes "upload")
    then upload
    else if same cmd (codes "download")
    then download
    else if same cmd (codes "sync")
    then sync
    else if same cmd (codes "stream")
    then stream
    else if same cmd (codes "serve")
    then serve
    else usage

-- `os.Args`, of which the first is the program.
unfoldable pub main : List Text → Command
main [] = usage
main (program ∷ []) = usage
main (program ∷ cmd ∷ rest) = command (to_lower cmd)

-- How a start function ends: with os.Exit(0), at the receive from a channel that nobody has, in the
-- last of the constructors that it called, or by a return.
pub data Ending : Type 0 where
  exits waits in_last returns : Ending

-- The configurations whose constructor was called, in order.
pub record Started (C : Type 0) : Type 0 where
  pub launched : List C
  pub ending : Ending

module _ {C : Type 0} (enabled returning : C → Bool) where
  abbrev pub or_wait : List C → Ending
  or_wait [] = exits
  or_wait (c ∷ cs) = waits

  -- The loop of a start function, where `returning` says which calls come back, and what follows it.
  abbrev pub launch : C → Started C → Started C
  launch c rest =
      if enabled c
      then (if returning c
          then record { launched = c ∷ rest.launched; ending = rest.ending }
          else record { launched = c ∷ []; ending = in_last })
      else rest

  unfoldable pub each_enabled : List C → Started C
  each_enabled [] = record { launched = []; ending = returns }
  each_enabled (c ∷ cs) = launch c (each_enabled cs)

  abbrev pub after_loop : Started C → Ending → Started C
  after_loop s returns = record s { ending = or_wait s.launched }
  after_loop s e = s

  unfoldable pub start_one_time : List C → Started C
  unfolding each_enabled
  start_one_time cs = let s = each_enabled cs in after_loop s s.ending

-- NewOneTimeDownloader is called as a goroutine.
unfoldable pub start_downloaders : MasterConfig → Started DownloaderConfig
start_downloaders m = start_one_time (λ c. c.enabled) (λ c. true) m.downloaders

-- NewOneTimeUploader and NewOneTimeStreamer end with os.Exit(0).
unfoldable pub start_uploaders : MasterConfig → Started UploaderConfig
start_uploaders m = start_one_time (λ c. c.enabled) (λ c. false) m.uploaders

unfoldable pub start_streamers : MasterConfig → Started StreamerConfig
start_streamers m = start_one_time (λ c. c.enabled) (λ c. false) m.streamers

-- NewOneTimeSyncer returns if it starts no direction.
abbrev pub nothing : Option Direction → Bool
nothing none = true
nothing (some d) = false

unfoldable pub start_syncers : MasterConfig → Started SyncerConfig
start_syncers m = start_one_time (λ c. c.enabled) (λ c. nothing (new_syncer c)) m.syncers

-- The constructors of the service, NewDownloader and so on, return.
unfoldable pub start_downloaders_service : MasterConfig → Started DownloaderConfig
start_downloaders_service m = each_enabled (λ c. c.enabled) (λ c. true) m.downloaders

unfoldable pub start_uploaders_service : MasterConfig → Started UploaderConfig
start_uploaders_service m = each_enabled (λ c. c.enabled) (λ c. true) m.uploaders

unfoldable pub start_syncers_service : MasterConfig → Started SyncerConfig
start_syncers_service m = each_enabled (λ c. c.enabled) (λ c. true) m.syncers

unfoldable pub start_streamers_service : MasterConfig → Started StreamerConfig
start_streamers_service m = each_enabled (λ c. c.enabled) (λ c. true) m.streamers
