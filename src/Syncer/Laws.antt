-- ===== src/Syncer/Laws.antt =====
-- What a syncer relies on of the attributes of files.
use ugoku.Base.{◌≡◌, pos, ℤ, Text, Option, none, some, length}
use ugoku.Services.{FileInfo, unix, FileTree, Contents, Keeps}

-- What `Stat` gives for each name of a tree, in a world.
abbrev pub Infos : Type 0 → Type 0
Infos W = W → Text → Option FileInfo

-- `Stat` tells the attributes, of which `Chtimes` sets the time, to the second.
pub record Attributes {W : Type 0} (t : FileTree W) (infos : Infos W) : Type 0 where
  pub stat_gives : (p : Text) (w : W) → (t.stat p w).0 ≡ infos w p
  pub chtimes_sets :
      (p : Text) (m : ℤ) (w : W) (i : FileInfo)
      → (t.chtimes p m w).0 ≡ none
      → infos w p ≡ some i
      → (j : FileInfo) × (infos (t.chtimes p m w).1 p ≡ some j)
        × (j.size ≡ i.size)
        × (unix j.mod_time ≡ unix m)

-- The size of a file is the number of its bytes.
pub record Sized {W : Type 0} (files : Contents W) (infos : Infos W) : Type 0 where
  pub size_is :
      (w : W) (p x : Text)
      → files w p ≡ some x
      → (i : FileInfo) × (infos w p ≡ some i) × (i.size ≡ pos (length x))

-- The calls before io.Copy change nothing of the target, and Chtimes no content.
pub record Quiet {W : Type 0} (source target : FileTree W) (targets : Contents W) (infos : Infos W)
    : Type 0 where
  pub stat_quiet : (p : Text) → Keeps targets (λ w. (target.stat p w).1)
  pub mkdir_quiet : (p : Text) → Keeps targets (λ w. (target.mkdir_all p w).1)
  pub open_quiet : (p : Text) → Keeps targets (λ w. (source.open_file p w).1)
  pub chtimes_quiet : (p : Text) (m : ℤ) → Keeps targets (λ w. (target.chtimes p m w).1)
  pub stat_same : (p q : Text) (w : W) → infos (target.stat p w).1 q ≡ infos w q
  pub mkdir_same : (p q : Text) (w : W) → infos (target.mkdir_all p w).1 q ≡ infos w q
  pub open_same : (p q : Text) (w : W) → infos (source.open_file p w).1 q ≡ infos w q
