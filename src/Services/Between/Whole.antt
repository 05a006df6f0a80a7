-- ===== src/Services/Between/Whole.antt =====
-- The files of both trees after the copy of one file between them.
use mathlib.Core.Path.{subst}
use ugoku.Base.{ℕ, ◌≡◌, refl, sym, ap, ◌∙◌, Text, Error, Option, none, some, []}
use ugoku.Services.{FileTree, Contents, Keeps, Removes, Opened, handle, refused}
use ugoku.Services.Copy.{Copied, copied, failed, stuck, copy, Streams, copy_complete, copy_inv}
use ugoku.Services.Between.{
  Ending, whole, after_copy, after_create, after_open, after_mkdir, copy_between,
}

-- What the two servers do with the file at `file` and its copy at `output`, in terms of the files of
-- the source, the files of the target, the bytes not yet read through a handle, and those written.
pub record TwoServers {W : Type 0} (source target : FileTree W) (sources targets : Contents W)
    (pending written : ℕ → W → Text) (Writes : ℕ → Text → W → Type 0) : Type 0 where
  pub removal : Removes source sources
  -- Removing from the source does not touch the target.
  pub remove_apart : (p : Text) → Keeps targets (λ w. (source.remove p w).1)
  pub stat_apart : (p : Text) → Keeps targets (λ w. (source.stat p w).1)
  -- Nothing but a removal changes the source.
  pub mkdir_keeps : (p : Text) → Keeps sources (λ w. (target.mkdir_all p w).1)
  pub open_keeps : (p : Text) → Keeps sources (λ w. (source.open_file p w).1)
  pub create_keeps : (p : Text) → Keeps sources (λ w. (target.create p w).1)
  pub read_keeps : (h : ℕ) → Keeps sources (λ w. (source.read h w).1)
  pub write_keeps : (k : ℕ) (b : Text) → Keeps sources (λ w. (target.write k b w).1)
  -- A handle reads the whole file, and one made by Create writes the file of that name.
  pub open_ok :
      (p : Text) (w w' : W) (h : ℕ)
      → source.open_file p w ≡ (handle h, w')
      → sources w p ≡ some (pending h w')
  pub create_ok :
      (p : Text) (w w' : W) (h k : ℕ)
      → target.create p w ≡ (handle k, w')
      → (written k w' ≡ []) × (pending h w' ≡ pending h w) × Writes k p w'
  pub streams : (h k : ℕ) → Streams (source.read h) (target.write k) (pending h) (written k)
  pub read_writes : (h k : ℕ) (p : Text) (w : W) → Writes k p w → Writes k p (source.read h w).1
  pub write_writes : (k : ℕ) (b p : Text) (w : W) → Writes k p w → Writes k p (target.write k b w).1
  pub writes_file : (k : ℕ) (p : Text) (w : W) → Writes k p w → targets w p ≡ some (written k w)

module _ {W : Type 0} (source target : FileTree W) (fuel : ℕ) (sources targets : Contents W)
    (pending written : ℕ → W → Text) (Writes : ℕ → Text → W → Type 0)
    (law : TwoServers source target sources targets pending written Writes) where
  abbrev pub Same : W → W → Type 0
  Same w v = (q : Text) → sources v q ≡ sources w q

  -- After a stream: the source is as it was, and a file that was moved is whole at the target.
  abbrev pub Safe : Text → Text → W → Ending × W → Type 0
  Safe file output w (whole, v) =
      Same w v × ((x : Text) × (sources w file ≡ some x) × (targets v output ≡ some x))
  Safe file output w (r, v) = Same w v

  copy-Same :
      (h k : ℕ) (w v : W) → Same w v → Same w (copy (source.read h) (target.write k) fuel 0 v).1
  copy-Same h k w v =
      copy_inv (Same w) _ _ (λ u s q. law.read_keeps h u q ∙ s q)
        (λ b u s q. law.write_keeps k b u q ∙ s q) fuel 0 v

  created_Same :
      {r : Opened} (output : Text) (w v u : W)
      → Same w v
      → target.create output v ≡ (r, u)
      → Same w u
  created_Same output w v u same eq =
      λ q. ap (λ (x : Opened × W). sources x.1 q) (sym eq) ∙ law.create_keeps output v q ∙ same q

  opened_Same :
      {r : Opened} (file : Text) (w v u : W)
      → Same w v
      → source.open_file file v ≡ (r, u)
      → Same w u
  opened_Same file w v u same eq =
      λ q. ap (λ (x : Opened × W). sources x.1 q) (sym eq) ∙ law.open_keeps file v q ∙ same q

  made_Same :
      {r : Option Error} (parent : Text) (w u : W) → target.mkdir_all parent w ≡ (r, u) → Same w u
  made_Same parent w u eq =
      λ q. ap (λ (x : Option Error × W). sources x.1 q) (sym eq) ∙ law.mkdir_keeps _ w q

  copy-Safe :
      (file output : Text) (h k : ℕ) (w v : W)
      → Same w v
      → sources w file ≡ some (pending h v)
      → written k v ≡ []
      → Writes k output v
      → (r : Copied × W) → copy (source.read h) (target.write k) fuel 0 v ≡ r
      → Safe file output w (after_copy source target fuel r)
  copy-Safe file output h k w v same has empty wr (copied n, u) e = (
    λ q. ap (λ (x : Copied × W). sources x.1 q) (sym e) ∙ copied_same q,
    (pending h v, has, arrived),
  )
    where
      copied_same : Same w (copy (source.read h) (target.write k) fuel 0 v).1
      copied_same = copy-Same h k w v same

      still_writes : Writes k output (copy (source.read h) (target.write k) fuel 0 v).1
      still_writes =
          copy_inv (Writes k output) _ _ (λ u. law.read_writes h k output u)
            (λ b u. law.write_writes k b output u) fuel 0 v wr

      arrived : targets u output ≡ some (pending h v)
      arrived =
          law.writes_file k output u
            (subst (λ (x : Copied × W). Writes k output x.1) e still_writes)
          ∙ ap some (
              copy_complete _ _ (pending h) (written k) (law.streams h k) fuel 0 n v u e ∙ rw empty)
  copy-Safe file output h k w v same has empty wr (failed x, u) e =
      λ q. ap (λ (x : Copied × W). sources x.1 q) (sym e) ∙ copy-Same h k w v same q
  copy-Safe file output h k w v same has empty wr (stuck, u) e =
      λ q. ap (λ (x : Copied × W). sources x.1 q) (sym e) ∙ copy-Same h k w v same q

  create_Safe :
      (file output : Text) (h : ℕ) (w v : W)
      → Same w v
      → sources w file ≡ some (pending h v)
      → (r : Opened × W) → target.create output v ≡ r
      → Safe file output w (after_create source target fuel h r)
  create_Safe file output h w v same has (refused e, u) eq = created_Same output w v u same eq
  create_Safe file output h w v same has (handle k, u) eq =
      let (empty, kept, wr) = law.create_ok output v u h k eq in
      copy-Safe file output h k w u (created_Same output w v u same eq) (has ∙ ap some (sym kept))
        empty wr (copy (source.read h) (target.write k) fuel 0 u) refl

  open_Safe :
      (file output : Text) (w v : W)
      → Same w v
      → (r : Opened × W) → source.open_file file v ≡ r
      → Safe file output w (after_open source target fuel output r)
  open_Safe file output w v same (refused e, u) eq = opened_Same file w v u same eq
  open_Safe file output w v same (handle h, u) eq =
      create_Safe file output h w u (opened_Same file w v u same eq)
        (sym (same file) ∙ law.open_ok file v u h eq) (target.create output u) refl

  mkdir_Safe :
      (file output parent : Text) (w : W) (r : Option Error × W)
      → target.mkdir_all parent w ≡ r
      → Safe file output w (after_mkdir source target fuel file output r)
  mkdir_Safe file output parent w (some e, u) eq = made_Same parent w u eq
  mkdir_Safe file output parent w (none, u) eq =
      open_Safe file output w u (made_Same parent w u eq) (source.open_file file u) refl

  -- If both trees satisfy TwoServers, the chain of calls leaves every source file as it was, and if it
  -- copied all bytes, the content of `file` is the content of `output` in the target.
  pub copy_between-Safe :
      (file output parent : Text) (w : W)
      → Safe file output w (copy_between source target fuel file output parent w)
  unfolding copy_between
  copy_between-Safe file output parent w =
      mkdir_Safe file output parent w (target.mkdir_all parent w) refl
