-- ===== src/Syncer/Marks.antt =====
-- What a round of syncer/local-syncer.go does to the next round for the same file.
use ugoku.Base.{
  ℕ, ◌≡◌, refl, sym, ap, ◌∙◌, pos, Text, Error, Bool, true, false, Option, none, some, length, [],
  ◌∷◌, arith,
}
use ugoku.Services.{FileInfo, FileTree, Contents, Opened, handle, refused}
use mathlib.Core.Path.{subst}
use ugoku.Services.Copy.{Copied, copied, failed, stuck}
use ugoku.Services.Between.{
  Ending, whole, open_failed, copy_between, after_copy, after_create, after_open, after_mkdir,
}
use ugoku.Services.Between.Whole.{TwoServers, Safe, copy_between-Safe}
use ugoku.FolderScanner.{FileObj}
use ugoku.Paths.{to_slashes, slashed, path_dir}
use ugoku.Config.{SyncerConfig}
use ugoku.Syncer.Decision.{differs_iff}
use ugoku.Syncer.{
  uploadable, server_file, upload, exits, update_mod_time, sync_to_server, uploaded, if_uploadable,
  after_upload,
}
use ugoku.Syncer.Laws.{Infos, Attributes, Sized, Quiet}

slashed_twice : (c : ℕ) → slashed (slashed c) ≡ slashed c
slashed_twice c = ground arith

to_slashes_idem : (s : Text) → to_slashes (to_slashes s) ≡ to_slashes s
unfolding to_slashes
to_slashes_idem [] = refl
to_slashes_idem (c ∷ s) =
    ap (λ d. d ∷ to_slashes (to_slashes s)) (slashed_twice c)
    ∙ ap (λ rest. slashed c ∷ rest) (to_slashes_idem s)

module _ {W : Type 0} (source target : FileTree W) (c : SyncerConfig) (fuel : ℕ) (infos : Infos W)
    (attributes : Attributes target infos) where
  marked :
      (output : Text) (stat i : FileInfo) (w : W)
      → to_slashes output ≡ output
      → infos w output ≡ some i
      → i.size ≡ stat.size
      → (target.chtimes output stat.mod_time w).0 ≡ none
      → (uploadable source target c fuel output stat
          (update_mod_time source target c fuel output stat w)).0
        ≡ false
  unfolding uploadable update_mod_time
  marked output stat i w clean has size ok =
      let (j, at, same_size, same_second) =
        attributes.chtimes_sets output stat.mod_time w i ok has in
      (differs_iff stat _).1 (
        j,
        attributes.stat_gives output _
            ∙ ap (λ q. infos (target.chtimes q stat.mod_time w).1 output) clean
            ∙ at,
        sym size ∙ sym same_size,
        sym same_second,
      )

  clean_server_file :
      (path : Text)
      → to_slashes (server_file source target c fuel path) ≡ server_file source target c fuel path
  unfolding server_file
  clean_server_file path = to_slashes_idem _

  -- The round of a file that is uploadable, by how its upload ended.
  round_of :
      (fo : FileObj) (to_exit : Bool) (w : W) (r : Ending × W)
      → (uploadable source target c fuel (server_file source target c fuel fo.path) fo.stat w).0
        ≡ true
      → upload source target c fuel fo.path
          (server_file source target c fuel fo.path)
          (uploadable source target c fuel (server_file source target c fuel fo.path) fo.stat w).1
        ≡ r
      → sync_to_server source target c fuel fo to_exit w
        ≡ uploaded source target c fuel (server_file source target c fuel fo.path) fo.stat to_exit r
  unfolding sync_to_server if_uploadable after_upload
  round_of fo to_exit w r new ends =
      rw (sync_to_server, new)
        (ap
          (uploaded source target c fuel (server_file source target c fuel fo.path) fo.stat to_exit)
          ends)

  abbrev at : FileObj → Text
  at fo = server_file source target c fuel fo.path

  abbrev seen_from : FileObj → W → Bool × W
  seen_from fo w = uploadable source target c fuel (at fo) fo.stat w

  abbrev upload_of : FileObj → W → Ending × W
  upload_of fo w = upload source target c fuel fo.path (at fo) (seen_from fo w).1

  -- Whatever ended an upload that neither panics nor runs on, the next round skips the file if Chtimes
  -- works and the file on the server has the size of the local one.
  settles :
      (fo : FileObj) (to_exit b : Bool) (w v : W) (e : Ending) (i : FileInfo)
      → (seen_from fo w).0 ≡ true
      → upload_of fo w ≡ (e, v)
      → exits source target c fuel to_exit e ≡ some b
      → infos v (at fo) ≡ some i
      → i.size ≡ fo.stat.size
      → (target.chtimes (at fo) fo.stat.mod_time v).0 ≡ none
      → (seen_from fo (sync_to_server source target c fuel fo to_exit w).1).0 ≡ false
  unfolding after_upload
  settles fo to_exit b w v e i new ends exit has size ok =
      rw (round_of fo to_exit w (e, v) new ends, exit)
        (marked (at fo) fo.stat i v (clean_server_file fo.path) has size ok)

  -- The world after an OpenFile that failed.
  open_failed_world :
      (file output parent : Text) (w v : W) (e : Error)
      → copy_between source target fuel file output parent w ≡ (open_failed e, v)
      → v ≡ (source.open_file file (target.mkdir_all parent w).1).1
  unfolding copy_between
  open_failed_world file output parent w v e h = of_mkdir (target.mkdir_all parent w) h
    where
      of_copy : (r : Copied × W) → after_copy source target fuel r ≡ (open_failed e, v) → ⊥
      of_copy (copied n, u) h = cc
      of_copy (failed x, u) h = cc
      of_copy (stuck, u) h = cc

      of_create :
          (k : ℕ) (r : Opened × W) → after_create source target fuel k r ≡ (open_failed e, v) → ⊥
      of_create k (refused x, u) h = cc
      of_create k (handle j, u) h = of_copy _ h

      of_open :
          (r : Opened × W) → after_open source target fuel output r ≡ (open_failed e, v) → v ≡ r.1
      of_open (refused x, u) h = sym (ap (λ (y : Ending × W). y.1) h)
      of_open (handle k, u) h = absurd (of_create k _ h)

      of_mkdir :
          (r : Option Error × W)
          → after_mkdir source target fuel file output r ≡ (open_failed e, v)
          → v ≡ (source.open_file file r.1).1
      of_mkdir (some x, u) h = cc
      of_mkdir (none, u) h = of_open (source.open_file file u) h

  module _ (targets : Contents W) (quiet : Quiet source target targets infos) where
    -- Suppose the target satisfies Attributes and Quiet. If the local file cannot be opened, the server
    -- has a file of the same size, a round would upload it, and Chtimes works, then the round changes
    -- no content on the server, and yet the next round for the file, with the same stat, skips it.
    pub unopened_file_settles :
        (fo : FileObj) (to_exit : Bool) (w v : W) (e : Error) (i : FileInfo)
        → (seen_from fo w).0 ≡ true
        → upload_of fo w ≡ (open_failed e, v)
        → infos w (at fo) ≡ some i
        → i.size ≡ fo.stat.size
        → (target.chtimes (at fo) fo.stat.mod_time v).0 ≡ none
        → ((q : Text)
            → targets (sync_to_server source target c fuel fo to_exit w).1 q ≡ targets w q)
          × ((seen_from fo (sync_to_server source target c fuel fo to_exit w).1).0 ≡ false)
    unfolding upload uploadable update_mod_time after_upload
    unopened_file_settles fo to_exit w v e i new ends has size ok = (
      λ q. rw (round_of fo to_exit w (open_failed e, v) new ends) (
          quiet.chtimes_quiet _ _ v q
          ∙ ap (λ u. targets u q) there
          ∙ quiet.open_quiet _ _ q
          ∙ quiet.mkdir_quiet _ _ q
          ∙ quiet.stat_quiet _ w q),
      settles fo to_exit to_exit w v (open_failed e) i new ends refl
          (ap (λ u. infos u (at fo)) there
            ∙ quiet.open_same _ _ _
            ∙ quiet.mkdir_same _ _ _
            ∙ quiet.stat_same _ _ w
            ∙ has)
          size ok,
    )
      where
        there :
            v
            ≡ (source.open_file fo.path
                (target.mkdir_all (to_slashes (path_dir (at fo))) (target.stat (at fo) w).1).1).1
        there = open_failed_world fo.path (at fo) _ _ v e ends

  module _ (sources targets : Contents W) (pending written : ℕ → W → Text)
      (Writes : ℕ → Text → W → Type 0)
      (law : TwoServers source target sources targets pending written Writes)
      (sized : Sized targets infos) (quiet : Quiet source target targets infos) where
    -- Suppose the two sides satisfy TwoServers, and the target Attributes, Sized and Quiet. If a round
    -- uploads a file to the end, the stat of the file has the size of its content x, and Chtimes works,
    -- then after the round, Chtimes included, x is on the server, and the next round for the file, with
    -- the same stat, skips it.
    pub synced_file_settles :
        (fo : FileObj) (to_exit : Bool) (w v : W) (x : Text)
        → (seen_from fo w).0 ≡ true
        → upload_of fo w ≡ (whole, v)
        → sources (seen_from fo w).1 fo.path ≡ some x
        → fo.stat.size ≡ pos (length x)
        → (target.chtimes (at fo) fo.stat.mod_time v).0 ≡ none
        → (targets (sync_to_server source target c fuel fo to_exit w).1 (at fo) ≡ some x)
          × ((seen_from fo (sync_to_server source target c fuel fo to_exit w).1).0 ≡ false)
    unfolding upload update_mod_time after_upload
    synced_file_settles fo to_exit w v x new ends has size ok =
        let (i, known, measured) = sized.size_is v (at fo) x arrived in
        (
          rw (round_of fo to_exit w (whole, v) new ends)
              (quiet.chtimes_quiet _ _ v (at fo) ∙ arrived),
          settles fo to_exit to_exit w v whole i new ends refl known (measured ∙ sym size) ok,
        )
      where
        arrived : targets v (at fo) ≡ some x
        arrived =
            let (_, (y, had, there)) =
              subst
                (Safe source target fuel sources targets pending written Writes law fo.path (at fo)
                  (seen_from fo w).1)
                ends
                (copy_between-Safe source target fuel sources targets pending written Writes law
                  fo.path (at fo) _ (seen_from fo w).1) in
            there ∙ sym had ∙ has
