-- ===== src/Main/Enabled.antt =====
-- Which of the enabled transfers a command of cmd/service/ugoku.go starts.
use ugoku.Base.{◌≡◌, refl, ◌∙◌, Bool, true, false, List, [], ◌∷◌, take, if◌then◌else◌, arith}
use ugoku.Config.{MasterConfig}
use ugoku.Syncer.{new_syncer}
use ugoku.Main.{
  Ending, exits, waits, in_last, returns, Started, each_enabled, start_one_time, after_loop,
  start_downloaders, start_uploaders, start_streamers, start_syncers, nothing,
  start_downloaders_service, start_uploaders_service, start_syncers_service,
  start_streamers_service,
}

-- The items that satisfy a test.
unfoldable pub filter {ℓ} : {A : Type ℓ} → (A → Bool) → List A → List A
filter p [] = []
filter p (x ∷ xs) = if p x then x ∷ filter p xs else filter p xs

-- A list up to and with its first item that fails a test.
unfoldable pub through {ℓ} : {A : Type ℓ} → (A → Bool) → List A → List A
through p [] = []
through p (x ∷ xs) = if p x then x ∷ through p xs else x ∷ []

module _ {C : Type 0} (enabled returning : C → Bool) where
  each_enabled-launched :
      (cs : List C)
      → (each_enabled enabled returning cs).launched ≡ through returning (filter enabled cs)
  unfolding each_enabled through filter
  each_enabled-launched [] = refl
  each_enabled-launched (c ∷ cs) = ground (arith, each_enabled-launched cs)

  after_loop-launched :
      (s : Started C) (e : Ending) → (after_loop enabled returning s e).launched ≡ s.launched
  after_loop-launched s exits = refl
  after_loop-launched s waits = refl
  after_loop-launched s in_last = refl
  after_loop-launched s returns = refl

  start_one_time-launched :
      (cs : List C)
      → (start_one_time enabled returning cs).launched ≡ through returning (filter enabled cs)
  unfolding start_one_time each_enabled
  start_one_time-launched cs =
      after_loop-launched (each_enabled enabled returning cs) _ ∙ each_enabled-launched cs

all_returning {ℓ} : {A : Type ℓ} (xs : List A) → through (λ x. true) xs ≡ xs
unfolding through
all_returning [] = refl
all_returning (x ∷ xs) = rw (all_returning xs) refl

none_returning {ℓ} : {A : Type ℓ} (xs : List A) → through (λ x. false) xs ≡ take 1 xs
unfolding through
none_returning [] = refl
none_returning (x ∷ xs) = refl

-- A one-time command starts every enabled downloader, but only the first enabled uploader and the
-- first enabled streamer; of the enabled syncers it starts those up to and with the first whose mode
-- has a direction.
pub one_time_commands :
    (m : MasterConfig)
    → ((start_downloaders m).launched ≡ filter (λ c. c.enabled) m.downloaders)
      × ((start_uploaders m).launched ≡ take 1 (filter (λ c. c.enabled) m.uploaders))
      × ((start_streamers m).launched ≡ take 1 (filter (λ c. c.enabled) m.streamers))
      × ((start_syncers m).launched
          ≡ through (λ c. nothing (new_syncer c)) (filter (λ c. c.enabled) m.syncers))
unfolding start_downloaders start_uploaders start_streamers start_syncers
one_time_commands m = (
  start_one_time-launched _ _ m.downloaders ∙ all_returning _,
  start_one_time-launched _ _ m.uploaders ∙ none_returning _,
  start_one_time-launched _ _ m.streamers ∙ none_returning _,
  start_one_time-launched _ _ m.syncers,
)

-- The command serve starts every enabled transfer of each kind.
pub services_launched :
    (m : MasterConfig)
    → ((start_downloaders_service m).launched ≡ filter (λ c. c.enabled) m.downloaders)
      × ((start_uploaders_service m).launched ≡ filter (λ c. c.enabled) m.uploaders)
      × ((start_syncers_service m).launched ≡ filter (λ c. c.enabled) m.syncers)
      × ((start_streamers_service m).launched ≡ filter (λ c. c.enabled) m.streamers)
unfolding start_downloaders_service start_uploaders_service start_syncers_service
    start_streamers_service
services_launched m = (
  each_enabled-launched _ _ m.downloaders ∙ all_returning _,
  each_enabled-launched _ _ m.uploaders ∙ all_returning _,
  each_enabled-launched _ _ m.syncers ∙ all_returning _,
  each_enabled-launched _ _ m.streamers ∙ all_returning _,
)
