-- ===== src/Services/Copy.antt =====
-- `io.Copy`: read a chunk, write it, until the end of the source or an error. The loop takes fuel;
-- `stuck` means that it ran out.
use ugoku.Base.{
  sym, ℕ, zero, suc, ◌+◌, ◌<◌, ◌≡◌, refl, ◌∙◌, ap, ◌≢◌, Text, Error, Option, none, some, [], ◌∷◌,
  ◌++◌, append-nil, append_assoc, length, length-append, arith,
}
use ugoku.Services.{Chunk, bytes, eof, broken}

-- The bytes written, or the error that ended the copy.
pub data Copied : Type 0 where
  copied : ℕ → Copied
  failed : Error → Copied
  stuck : Copied

module _ {W : Type 0} (read : W → Chunk × W) (write : Text → W → Option Error × W) where
  after_write : (ℕ → W → Copied × W) → ℕ → Option Error × W → Copied × W
  after_write again n (some e, w) = (failed e, w)
  after_write again n (none, w) = again n w

  after_read : (ℕ → W → Copied × W) → ℕ → Chunk × W → Copied × W
  unfolding after_write
  after_read again n (bytes b, w) = after_write again (n + length b) (write b w)
  after_read again n (eof, w) = (copied n, w)
  after_read again n (broken e, w) = (failed e, w)

  unfoldable pub copy : ℕ → ℕ → W → Copied × W
  unfolding after_read
  copy zero n w = (stuck, w)
  copy (suc fuel) n w = after_read (copy fuel) n (read w)

-- What a reader and a writer do with the bytes not yet read and the bytes written.
pub record Streams {W : Type 0} (read : W → Chunk × W) (write : Text → W → Option Error × W)
    (pending written : W → Text) : Type 0 where
  pub read_bytes :
      (w w' : W) (b : Text)
      → read w ≡ (bytes b, w')
      → (pending w ≡ b ++ pending w') × (b ≢ []) × (written w' ≡ written w)
  pub read_eof : (w w' : W) → read w ≡ (eof, w') → (pending w ≡ []) × (written w' ≡ written w)
  pub write_ok :
      (w w' : W) (b : Text)
      → write b w ≡ (none, w')
      → (written w' ≡ written w ++ b) × (pending w' ≡ pending w)

module _ {W : Type 0} (read : W → Chunk × W) (write : Text → W → Option Error × W)
    (pending written : W → Text) (law : Streams read write pending written) where
  -- What a continuation of the copy promises.
  abbrev Completes : (ℕ → W → Copied × W) → Type 0
  Completes again =
      (n m : ℕ) (w w' : W) → again n w ≡ (copied m, w') → written w' ≡ written w ++ pending w

  after_write_complete :
      (again : ℕ → W → Copied × W) (ih : Completes again) (b : Text) (w w' : W) (n m : ℕ)
      (r : Option Error × W)
      → write b w ≡ r
      → after_write read write again n r ≡ (copied m, w')
      → written w' ≡ (written w ++ b) ++ pending w
  unfolding after_write
  after_write_complete again ih b w w' n m (some e, v) eq h = cc
  after_write_complete again ih b w w' n m (none, v) eq h =
      let (grown, same_rest) = law.write_ok w v b eq in ih n m v w' h ∙ rw (grown, same_rest)

  after_read_complete :
      (again : ℕ → W → Copied × W) (ih : Completes again) (w w' : W) (n m : ℕ) (r : Chunk × W)
      → read w ≡ r
      → after_read read write again n r ≡ (copied m, w')
      → written w' ≡ written w ++ pending w
  unfolding after_read
  after_read_complete again ih w w' n m (broken e, v) eq h = cc
  after_read_complete again ih w w' n m (eof, v) eq h =
      let (rest, kept) = law.read_eof w v eq in
      ap written (cc) ∙ kept ∙ rw rest (sym (append-nil (written w)))
  after_read_complete again ih w w' n m (bytes b, v) eq h =
      let (rest, _, kept) = law.read_bytes w v b eq in
      after_write_complete again ih b v w' (n + length b) m (write b v) refl h
      ∙ rw (rest, kept) (append_assoc (written w) b (pending v))

  -- A copy that ends without an error has written all that was left to read.
  pub copy_complete :
      (fuel n m : ℕ) (w w' : W)
      → copy read write fuel n w ≡ (copied m, w')
      → written w' ≡ written w ++ pending w
  unfolding copy
  copy_complete zero n m w w' h = cc
  copy_complete (suc fuel) n m w w' h =
      after_read_complete (copy read write fuel) (copy_complete fuel) w w' n m (read w) refl h

  -- What a continuation needs to end.
  abbrev Ends : ℕ → (ℕ → W → Copied × W) → Type 0
  Ends fuel again = (n : ℕ) (w : W) → length (pending w) < fuel → (again n w).0 ≢ stuck

  after_write-Ends :
      (again : ℕ → W → Copied × W) (fuel : ℕ) (ih : Ends fuel again) (b : Text) (w : W) (n : ℕ)
      (r : Option Error × W)
      → write b w ≡ r
      → length (pending w) < fuel
      → (after_write read write again n r).0 ≢ stuck
  unfolding after_write
  after_write-Ends again fuel ih b w n (some e, v) eq lt = λ x. cc
  after_write-Ends again fuel ih b w n (none, v) eq lt = ih n v (rw (law.write_ok w v b eq).1 lt)

  shorter : (b rest : Text) → b ≢ [] → length rest < length (b ++ rest)
  shorter [] rest ne = absurd (ne refl)
  shorter (x ∷ b) rest ne = omega (arith, length-append b rest)

  after_read-Ends :
      (again : ℕ → W → Copied × W) (fuel : ℕ) (ih : Ends fuel again) (w : W) (n : ℕ) (r : Chunk × W)
      → read w ≡ r
      → length (pending w) < suc fuel
      → (after_read read write again n r).0 ≢ stuck
  unfolding after_read
  after_read-Ends again fuel ih w n (broken e, v) eq lt = λ x. cc
  after_read-Ends again fuel ih w n (eof, v) eq lt = λ x. cc
  after_read-Ends again fuel ih w n (bytes b, v) eq lt =
      let (rest, ne, _) = law.read_bytes w v b eq in
      after_write-Ends again fuel ih b v (n + length b) (write b v) refl
        (omega (arith, shorter b (pending v) ne, ap length rest))

  -- Fuel above the number of bytes that are left is enough: the copy ends.
  pub copy_ends :
      (fuel n : ℕ) (w : W) → length (pending w) < fuel → (copy read write fuel n w).0 ≢ stuck
  unfolding copy
  copy_ends zero n w h = elim h [ ]
  copy_ends (suc fuel) n w h =
      after_read-Ends (copy read write fuel) fuel (copy_ends fuel) w n (read w) refl h

-- What every read and every write keeps, a copy keeps.
pub copy_inv {ℓ} :
    {W : Type 0} (P : W → Type ℓ) (read : W → Chunk × W) (write : Text → W → Option Error × W)
    → ((w : W) → P w → P (read w).1)
    → ((b : Text) (w : W) → P w → P (write b w).1)
    → (fuel n : ℕ) (w : W) → P w
    → P (copy read write fuel n w).1
unfolding copy after_read after_write
copy_inv P read write r_keeps w_keeps zero n w h = h
copy_inv {W} P read write r_keeps w_keeps (suc fuel) n w h =
    kept (read w) (r_keeps w h) (copy_inv P read write r_keeps w_keeps fuel)
  where
    written :
        (m : ℕ) (r : Option Error × W)
        → P r.1
        → ((n' : ℕ) (v : W) → P v → P (copy read write fuel n' v).1)
        → P (after_write read write (copy read write fuel) m r).1
    written m (some e, v) p ih = p
    written m (none, v) p ih = ih m v p

    kept :
        (r : Chunk × W)
        → P r.1
        → ((n' : ℕ) (v : W) → P v → P (copy read write fuel n' v).1)
        → P (after_read read write (copy read write fuel) n r).1
    kept (bytes b, v) p ih = written (n + length b) (write b v) (w_keeps b v p) ih
    kept (eof, v) p ih = p
    kept (broken e, v) p ih = p
