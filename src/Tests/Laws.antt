-- ===== src/Tests/Laws.antt =====
-- The world of Disk satisfies the laws on attributes, on the local disk of a download and on renames.
use ugoku.Base.{
  ◌≡◌, refl, sym, ◌∙◌, ap, ◌≢◌, ℤ, pos, Text, Error, false, Option, none, some, length, arith,
}
use ugoku.Services.{FileInfo, unix, Opened, Removes}
use ugoku.Syncer.Laws.{Attributes, Sized, Quiet}
use ugoku.Sftplibs.Tempfile.Complete.{Creates}
use ugoku.Sftplibs.Tempfile.Rename.{Renames}
use ugoku.Tests.Disk.{
  World, missing, update, update-same, update-other, info_of, removed, opened, source, target,
  target_files, infos, pending, written,
}

pub target-Removes : Removes target target_files
target-Removes = record {
  remove_ok = λ p w e. ok p w (w.targets p) refl e;
  remove_err = λ p w x e q. fails p w (w.targets p) x e q;
  remove_other = λ p q w ne. other p q w (w.targets p) ne;
  stat_keeps = λ p w q. refl;
}
  where
    ok :
        (p : Text) (w : World) (o : Option Text)
        → w.targets p ≡ o
        → (removed o w (record w { targets = update p none w.targets })).0 ≡ none
        → (removed o w (record w { targets = update p none w.targets })).1.targets p ≡ none
    ok p w none h e = h
    ok p w (some x) h e = update-same p none w.targets

    fails :
        (p : Text) (w : World) (o : Option Text) (x : Error)
        → (removed o w (record w { targets = update p none w.targets })).0 ≡ some x
        → (q : Text)
        → (removed o w (record w { targets = update p none w.targets })).1.targets q ≡ w.targets q
    fails p w none x e q = refl
    fails p w (some y) x e q = cc

    other :
        (p q : Text) (w : World) (o : Option Text)
        → q ≢ p
        → (removed o w (record w { targets = update p none w.targets })).1.targets q ≡ w.targets q
    other p q w none ne = refl
    other p q w (some x) ne = update-other p q none w.targets ne

pub attributes : Attributes target infos
attributes = record {
  stat_gives = λ p w. refl;
  chtimes_sets = λ p m w i ok h. timed p m w i (w.targets p) refl h;
}
  where
    timed :
        (p : Text) (m : ℤ) (w : World) (i : FileInfo) (o : Option Text)
        → w.targets p ≡ o
        → info_of (w.times p) o ≡ some i
        → (j : FileInfo) × (info_of (update p m w.times p) (w.targets p) ≡ some j)
          × (j.size ≡ i.size)
          × (unix j.mod_time ≡ unix m)
    timed p m w i none u h = cc
    timed p m w i (some x) u h = (
      record { size = pos (length x); mod_time = m; is_dir = false },
      rw (update-same p m w.times, u) refl,
      ground arith,
      refl,
    )

pub sized : Sized target_files infos
sized = record {
  size_is = λ w p x h.
      (record { size = pos (length x); mod_time = w.times p; is_dir = false }, rw h refl, refl);
}

pub quiet : Quiet source target target_files infos
quiet = record {
  stat_quiet = λ p w q. refl;
  mkdir_quiet = λ p w q. refl;
  open_quiet = λ p w q. files_kept w q (w.sources p);
  chtimes_quiet = λ p m w q. refl;
  stat_same = λ p q w. refl;
  mkdir_same = λ p q w. refl;
  open_same = λ p q w. infos_kept w q (w.sources p);
}
  where
    files_kept : (w : World) (q : Text) (o : Option Text) → (opened o w).1.targets q ≡ w.targets q
    files_kept w q none = refl
    files_kept w q (some x) = refl

    infos_kept : (w : World) (q : Text) (o : Option Text) → infos (opened o w).1 q ≡ infos w q
    infos_kept w q none = refl
    infos_kept w q (some x) = refl

pub creating : Creates target (pending 0) written
creating = record {
  create_ok = λ p w w' h e. (
    ap (λ (r : Opened × World). r.1.sent) (sym e),
    ap (λ (r : Opened × World). r.1.unread) (sym e),
  );
}

abbrev pub moves : Text → Text → Option Text → World → Option Error × World
moves p q none w = (some missing, w)
moves p q (some x) w = (none, record w { targets = update q (some x) (update p none w.targets) })

abbrev pub rename : Text → Text → World → Option Error × World
rename p q w = moves p q (w.targets p) w

pub renaming : Renames rename target_files
renaming = record {
  rename_ok = λ p q w e ne. ok p q w (w.targets p) refl e ne;
  rename_other = λ p q r w np nq. other p q r w (w.targets p) np nq;
  rename_err = λ p q w x e r. fails p q w (w.targets p) x e r;
}
  where
    ok :
        (p q : Text) (w : World) (o : Option Text)
        → w.targets p ≡ o
        → (moves p q o w).0 ≡ none
        → p ≢ q
        → ((moves p q o w).1.targets q ≡ w.targets p) × ((moves p q o w).1.targets p ≡ none)
    ok p q w none u e ne = cc
    ok p q w (some x) u e ne = (
      update-same q (some x) (update p none w.targets) ∙ sym u,
      update-other q p (some x) (update p none w.targets) ne ∙ update-same p none w.targets,
    )

    other :
        (p q r : Text) (w : World) (o : Option Text)
        → r ≢ p
        → r ≢ q
        → (moves p q o w).1.targets r ≡ w.targets r
    other p q r w none np nq = refl
    other p q r w (some x) np nq =
        update-other q r (some x) (update p none w.targets) nq ∙ update-other p r none w.targets np

    fails :
        (p q : Text) (w : World) (o : Option Text) (x : Error)
        → (moves p q o w).0 ≡ some x
        → (r : Text) → (moves p q o w).1.targets r ≡ w.targets r
    fails p q w none x e r = refl
    fails p q w (some y) x e r = cc
