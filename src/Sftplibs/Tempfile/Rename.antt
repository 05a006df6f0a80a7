-- ===== src/Sftplibs/Tempfile/Rename.antt =====
-- RenameTempfile of sftplibs/sftplibs.go: what it leaves on the disk.
use ugoku.Base.{
  ◌≡◌, refl, sym, ap, ◌∙◌, ◌≢◌, ◌⊎◌, inl, inr, Text, Error, Option, none, some, Bool, true, false,
  ℕ, for_break, for_break_cases, if◌then◌else◌,
}
use ugoku.Services.{FileTree, Contents, Keeps, Removes}
use ugoku.Sftplibs.Tempfile.{rename_tempfile, renamed, clean_up}

-- `os.Rename` moves the file over the target, or fails without an effect.
pub record Renames {W : Type 0} (rename : Text → Text → W → Option Error × W) (files : Contents W)
    : Type 0 where
  pub rename_ok :
      (p q : Text) (w : W)
      → (rename p q w).0 ≡ none
      → p ≢ q
      → (files (rename p q w).1 q ≡ files w p) × (files (rename p q w).1 p ≡ none)
  pub rename_other : (p q r : Text) (w : W) → r ≢ p → r ≢ q → files (rename p q w).1 r ≡ files w r
  pub rename_err :
      (p q : Text) (w : W) (e : Error)
      → (rename p q w).0 ≡ some e
      → (r : Text) → files (rename p q w).1 r ≡ files w r

module _ {W : Type 0} (os : FileTree W) (rename : Text → Text → W → Option Error × W)
    (sleep : ℕ → W → W) (files : Contents W) (removal : Removes os files)
    (renaming : Renames rename files) (still : (ms : ℕ) → Keeps files (sleep ms)) (p q : Text)
    (distinct : p ≢ q) where
  -- Moved, if there is no error; otherwise every file but the temporary one is as before.
  abbrev pub Moved : W → Option Error × W → Type 0
  Moved w (none, v) =
      (files v q ≡ files w p)
      × (files v p ≡ none)
      × ((r : Text) → r ≢ p → r ≢ q → files v r ≡ files w r)
  Moved w (some e, v) = (r : Text) → r ≢ p → files v r ≡ files w r

  -- While the loop runs every rename has failed, and no file has changed.
  abbrev Failed : W → Option Error × W → Type 0
  Failed w (none, v) = ⊥
  Failed w (some e, v) = (r : Text) → files v r ≡ files w r

  abbrev Done : W → Option Error × W → Type 0
  Done w (none, v) = Moved w (none, v)
  Done w (some e, v) = ⊥

  round :
      (w v : W) (r : Option Error × W)
      → ((x : Text) → files v x ≡ files w x)
      → rename p q v ≡ r
      → ((renamed os rename sleep r).0 ≡ true → Done w (renamed os rename sleep r).1)
        × ((renamed os rename sleep r).0 ≡ false → Failed w (renamed os rename sleep r).1)
  unfolding renamed
  round w v (none, u) h e =
      let ok : (rename p q v).0 ≡ none = ap (λ (r : Option Error × W). r.0) e in
      let (moved, gone) = renaming.rename_ok p q v ok distinct in
      let there : (rename p q v).1 ≡ u = ap (λ (r : Option Error × W). r.1) e in
      (
        λ _. (
          ap (λ (x : W). files x q) (sym there) ∙ moved ∙ h p,
          ap (λ (x : W). files x p) (sym there) ∙ gone,
          λ r np nq.
              ap (λ (x : W). files x r) (sym there) ∙ renaming.rename_other p q r v np nq ∙ h r,
        ),
        λ x. cc,
      )
  round w v (some x, u) h e =
      let failed : (rename p q v).0 ≡ some x = ap (λ (r : Option Error × W). r.0) e in
      let there : (rename p q v).1 ≡ u = ap (λ (r : Option Error × W). r.1) e in
      (
        λ y. cc,
        λ _. λ r.
            still 1000 u r
            ∙ ap (λ (y : W). files y r) (sym there)
            ∙ renaming.rename_err p q v x failed r
            ∙ h r,
      )

  abbrev body : ℕ → Option Error × W → Bool × (Option Error × W)
  body i s = renamed os rename sleep (rename p q s.1)

  rounds :
      (w : W) (n i : ℕ) (s : Option Error × W)
      → Failed w s
      → Done w (for_break n i body s) ⊎ Failed w (for_break n i body s)
  rounds w = for_break_cases (Failed w) (Done w) body λ i s f. round w s.1 _ (same_files w s f) refl
    where
      same_files :
          (u : W) (t : Option Error × W) → Failed u t → (x : Text) → files t.1 x ≡ files u x
      same_files u (none, v) f = absurd f
      same_files u (some e, v) f = f

  cleaned :
      (w : W) (s : Option Error × W)
      → Done w s ⊎ Failed w s
      → Moved w (clean_up os rename sleep p s)
  unfolding clean_up
  cleaned w (none, v) (inl d) = d
  cleaned w (none, v) (inr f) = absurd f
  cleaned w (some e, v) (inl d) = absurd d
  cleaned w (some e, v) (inr f) = λ r np. removal.remove_other p r v np ∙ f r

  -- Suppose Rename moves a file or fails without an effect, Remove deletes the named file or fails
  -- without an effect, and a sleep changes no file. With the temporary file p and the output file q
  -- distinct: if RenameTempfile returns no error, q has the content that p had, p is gone and no
  -- other file has changed. If it returns an error, no file but p has changed; in particular q is
  -- as it was.
  pub rename_tempfile-Moved : (w : W) → Moved w (rename_tempfile os rename sleep p q w)
  unfolding rename_tempfile
  rename_tempfile-Moved w = cleaned w _ (first (body 0 (none, w)) (round w w _ (λ x. refl) refl))
    where
      first :
          (r : Bool × (Option Error × W))
          → (r.0 ≡ true → Done w r.1) × (r.0 ≡ false → Failed w r.1)
          → Done w (if r.0 then r.1 else for_break 2 1 body r.1)
            ⊎ Failed w (if r.0 then r.1 else for_break 2 1 body r.1)
      first (true, s) (d, f) = inl (d refl)
      first (false, s) (d, f) = rounds w 2 1 s (f refl)
