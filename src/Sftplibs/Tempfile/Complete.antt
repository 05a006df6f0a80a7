-- ===== src/Sftplibs/Tempfile/Complete.antt =====
-- DownloadToTemp of sftplibs/sftplibs.go: what it writes, and when it ends.
use ugoku.Base.{ℕ, ◌≡◌, ◌∙◌, ◌≢◌, refl, Text, Error, Option, [], ◌<◌, length, Bool-cases, inl, inr}
use ugoku.Services.{FileTree, Chunk, broken, Opened, handle, refused}
use ugoku.Services.Copy.{copied, stuck, Streams, copy_complete, copy_ends}
use ugoku.Sftplibs.Tempfile.{Context, cancellable, copy_with_cancel, after_create, download_to_temp}

module _ {W : Type 0} (ctx : Context W) (read : W → Chunk × W) (write : Text → W → Option Error × W)
    (pending written : W → Text) where
  -- A cancelled context only adds errors.
  pub cancellable-Streams :
      Streams read write pending written → Streams (cancellable ctx read) write pending written
  unfolding cancellable
  cancellable-Streams law = record {
    read_bytes = λ w w' b e. law.read_bytes w w' b (live w e (λ x. cc));
    read_eof = λ w w' e. law.read_eof w w' (live w e (λ x. cc));
    write_ok = law.write_ok;
  }
    where
      live :
          {r : Chunk × W} (w : W)
          → cancellable ctx read w ≡ r
          → (broken (ctx.cause w), w) ≢ r
          → read w ≡ r
      live w e ne = elim (Bool-cases (ctx.is_done w)) [
        | inl d ↦ absurd (ne (rw (d, cancellable) at e))
        | inr d ↦ rw (d, cancellable) at e
      ]

-- `Create` gives a handle of an empty file, and reads what is left of the source nowhere.
pub record Creates {W : Type 0} (os : FileTree W) (pending : W → Text) (written : ℕ → W → Text)
    : Type 0 where
  pub create_ok :
      (p : Text) (w w' : W) (h : ℕ)
      → os.create p w ≡ (handle h, w')
      → (written h w' ≡ []) × (pending w' ≡ pending w)

module _ {W : Type 0} (ctx : Context W) (os : FileTree W) (read : W → Chunk × W)
    (pending : W → Text) (written : ℕ → W → Text)
    (streams : (h : ℕ) → Streams read (os.write h) pending (written h))
    (creates : Creates os pending written) where
  abbrev Received : W → Opened × W → W → Type 0
  Received w r v = (h : ℕ) × (r.0 ≡ handle h) × (written h v ≡ pending w)

  created :
      (fuel n : ℕ) (p : Text) (w : W) (r : Opened × W)
      → os.create p w ≡ r
      → (after_create ctx os fuel read r).0 ≡ copied n
      → Received w r (after_create ctx os fuel read r).1
  unfolding after_create copy_with_cancel
  created fuel n p w (refused e, v) eq h = cc
  created fuel n p w (handle k, v) eq h =
      let (empty, kept) = creates.create_ok p w v k eq in
      (
        k,
        refl,
        copy_complete _ _ pending (written k)
              (cancellable-Streams ctx read (os.write k) pending (written k) (streams k)) fuel 0 n v
              _ (λ i. (h i, (after_create ctx os fuel read (handle k, v)).1))
            ∙ rw (empty, kept),
      )

  -- Suppose reads and writes satisfy Streams for every handle, and Create satisfies Creates. If
  -- DownloadToTemp reports success, the handle that Create gave for the temporary file has received
  -- exactly the bytes that were left of the source.
  pub download_to_temp_complete :
      (fuel : ℕ) (folder prefix : Text) (millis tempindex n : ℕ) (w : W)
      → (download_to_temp ctx os fuel read folder prefix millis tempindex w).0 ≡ copied n
      → (h : ℕ) × ((os.create
            (download_to_temp ctx os fuel read folder prefix millis tempindex w).1
            w).0
          ≡ handle h)
        × (written h (download_to_temp ctx os fuel read folder prefix millis tempindex w).3
            ≡ pending w)
  unfolding download_to_temp
  download_to_temp_complete fuel folder prefix millis tempindex n w h = created fuel n _ w _ refl h

  -- Suppose the same of reads, writes and Create. With fuel above the number of bytes that are left
  -- after any Create, DownloadToTemp ends.
  pub download_to_temp_ends :
      (fuel : ℕ) (folder prefix : Text) (millis tempindex : ℕ) (w : W)
      → ((p : Text) → length (pending (os.create p w).1) < fuel)
      → (download_to_temp ctx os fuel read folder prefix millis tempindex w).0 ≢ stuck
  unfolding download_to_temp copy_with_cancel
  download_to_temp_ends fuel folder prefix millis tempindex w enough =
      ends (os.create _ w) (enough _)
    where
      ends :
          (r : Opened × W)
          → length (pending r.1) < fuel
          → (after_create ctx os fuel read r).0 ≢ stuck
      ends (refused e, v) lt = λ x. cc
      ends (handle k, v) lt =
          copy_ends _ _ pending (written k)
            (cancellable-Streams ctx read (os.write k) pending (written k) (streams k)) fuel 0 v lt
