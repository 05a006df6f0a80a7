-- ===== src/Workers/Removing.antt =====
-- removeSrc of downloader/downloader.go and uploader/uploader.go.
use ugoku.Base.{Error, Option, some, inl, inr, refl, ℕ, ◌*◌, ◌≡◌, ◌≢◌, ◌⊎◌, Text, none}
use ugoku.Services.{FileTree, Contents, Keeps, Removes}
use ugoku.Services.Removal.{tries-Trims, tries-gone}
use ugoku.Workers.{remove_remote_src, remove_local_src}

-- The tree satisfies Removes, and a pause changes no file.
module _ {W : Type 0} (pause : ℕ → W → W) (t : FileTree W) (files : Contents W)
    (law : Removes t files) (still : (i : ℕ) → Keeps files (pause i)) (file : Text) where
  -- If Remove deletes only the file that it names, and a failing Remove, a Stat and a pause change no
  -- file, then after removeSrc of a downloader every other file of the server is as it was, and the
  -- named file is gone, or it is as it was and the first Remove reported an error.
  pub remove_remote_src-Trims :
      (w : W)
      → ((q : Text) → q ≢ file → files (remove_remote_src pause t file w) q ≡ files w q)
        × ((files (remove_remote_src pause t file w) file ≡ none)
            ⊎ ((e : Error) × ((t.remove file (pause 100 w)).0 ≡ some e)
                × (files (remove_remote_src pause t file w) file ≡ files w file)))
  unfolding remove_remote_src
  remove_remote_src-Trims w =
      let (others, this) =
        tries-Trims t files law file (λ i. pause (i * 100)) (λ i. still (i * 100)) 3 1 w in
      (others, outcome (t.remove file (pause 100 w)).0 refl this)
    where
      outcome :
          (r : Option Error)
          → (t.remove file (pause 100 w)).0 ≡ r
          → (files (remove_remote_src pause t file w) file ≡ none)
            ⊎ (files (remove_remote_src pause t file w) file ≡ files w file)
          → (files (remove_remote_src pause t file w) file ≡ none)
            ⊎ ((e : Error) × ((t.remove file (pause 100 w)).0 ≡ some e)
                × (files (remove_remote_src pause t file w) file ≡ files w file))
      outcome r first (inl gone) = inl gone
      outcome none first (inr kept) =
          inl
            (tries-gone t files law file (λ i. pause (i * 100)) (λ i. still (i * 100)) 2 1 w first)
      outcome (some e) first (inr kept) = inr (e, first, kept)

  -- The same of removeSrc of an uploader and the files of the local disk.
  pub remove_local_src-Trims :
      (w : W)
      → ((q : Text) → q ≢ file → files (remove_local_src pause t file w) q ≡ files w q)
        × ((files (remove_local_src pause t file w) file ≡ none)
            ⊎ ((e : Error) × ((t.remove file (pause 100 w)).0 ≡ some e)
                × (files (remove_local_src pause t file w) file ≡ files w file)))
  unfolding remove_local_src remove_remote_src
  remove_local_src-Trims w = remove_remote_src-Trims w
