-- ===== src/Syncer/Roundtrip.antt =====
-- The names of a file on the two sides of a syncer, in the Start functions of syncer/.
use ugoku.Base.{ℕ, ◌≡◌, refl, ap, ◌∙◌, ◌≢◌, Text, Bool, List, [], ◌∷◌, ◌++◌, All, arith}
use ugoku.Services.{FileTree}
use ugoku.Paths.{to_slashes, slashed}
use ugoku.Paths.Mirror.{IsPlain, slashes, root, mirror_path}
use ugoku.Config.{SyncerConfig}
use ugoku.Syncer.{server_file, local_file}

abbrev pub NoBackslash : Text → Type 0
NoBackslash = All (λ c. c ≢ 0x5c)

slashed-id : (c : ℕ) → c ≢ 0x5c → slashed c ≡ c
slashed-id c h = ground arith

to_slashes-NoBackslash : (s : Text) → NoBackslash s → to_slashes s ≡ s
unfolding to_slashes
to_slashes-NoBackslash [] h = refl
to_slashes-NoBackslash (c ∷ s) (h, k) =
    ap (λ d. d ∷ to_slashes s) (slashed-id c h) ∙ ap (λ rest. c ∷ rest) (to_slashes-NoBackslash s k)

-- If the two folders of a syncer and the relative path are made of plain segments, and the path on the
-- server has no backslash, then the syncer of the local side sends local/rel to server/rel, and the
-- syncer of the server side brings server/rel to local/rel, so that each undoes the other.
pub sync_paths_roundtrip :
    {W : Type 0} (source target : FileTree W) (c : SyncerConfig) (fuel : ℕ)
    (at_server at_local : Bool) (s : Text) (ss : List Text) (l : Text) (ls : List Text) (r : Text)
    (rs : List Text)
    → c.server_path ≡ root at_server (s ∷ ss)
    → c.local_path ≡ root at_local (l ∷ ls)
    → All IsPlain (s ∷ ss)
    → All IsPlain (l ∷ ls)
    → All IsPlain (r ∷ rs)
    → NoBackslash (c.server_path ++ b'/' ∷ slashes (r ∷ rs))
    → (server_file source target c fuel (c.local_path ++ b'/' ∷ slashes (r ∷ rs))
        ≡ c.server_path ++ b'/' ∷ slashes (r ∷ rs))
      × (local_file c (c.server_path ++ b'/' ∷ slashes (r ∷ rs))
          ≡ c.local_path ++ b'/' ∷ slashes (r ∷ rs))
unfolding server_file local_file
sync_paths_roundtrip source target c fuel at_server at_local s ss l ls r rs es el ps pl pr clean = (
  ap to_slashes (rw es (mirror_path c.local_path at_server s ss r rs ps pr))
      ∙ to_slashes-NoBackslash _ clean,
  rw el (mirror_path c.server_path at_local l ls r rs pl pr),
)
