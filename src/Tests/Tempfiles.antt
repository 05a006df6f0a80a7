-- ===== src/Tests/Tempfiles.antt =====
-- A download into a temporary file, its rename, its name, and a removal.
use ugoku.Base.{
  ℕ, ◌≡◌, refl, sym, ap, ◌∙◌, ◌≢◌, pos, Text, codes, same, same_refl, false, none, some, [],
}
use ugoku.Services.{handle}
use ugoku.Services.Copy.{Copied, copied, copy}
use ugoku.Sftplibs.Tempfile.{
  Context, cancellable, copy_with_cancel, do_sftp_download, download_to_temp, rename_tempfile,
}
use ugoku.Sftplibs.Tempfile.Complete.{download_to_temp_complete}
use ugoku.Sftplibs.Tempfile.Rename.{Moved, rename_tempfile-Moved}
use ugoku.Tests.Disk.{World, update, source, target, target_files, pending, written, streaming}
use ugoku.Tests.Laws.{target-Removes, creating, rename, renaming}

abbrev start : World
start = record {
  sources = update (codes "/out/a") (some (codes "hi")) (λ q. none);
  targets = update (codes "/tmp/t") (some (codes "hi")) (λ q. none);
  times = λ q. pos 0;
  unread = codes "hi";
  writing = [];
  sent = [];
}

abbrev open_context : Context World
open_context = record { is_done = λ w. false; cause = λ w. [] }

abbrev downloaded : ℕ → Copied × Text × ℕ × World
downloaded fuel =
    download_to_temp open_context target fuel (source.read 0) (codes "/tmp") (codes "d0") 5 10000
      start

downloads : (downloaded 9).0 ≡ copied 2
unfolding download_to_temp do_sftp_download copy_with_cancel cancellable copy
downloads = refl

download_to_temp_complete_example :
    (h : ℕ) × ((target.create (downloaded 9).1 start).0 ≡ handle h)
    × (written h (downloaded 9).3 ≡ codes "hi")
download_to_temp_complete_example =
    download_to_temp_complete open_context target (source.read 0) (pending 0) written (streaming 0)
      creating 9 (codes "/tmp") (codes "d0") 5 10000 2 start downloads

apart : (p q : Text) → same p q ≡ false → p ≢ q
apart p q h e = cc (sym h ∙ ap (λ x. same p x) (sym e) ∙ same_refl p)

differ : codes "/tmp/t" ≢ codes "/in/a"
unfolding same
differ = apart (codes "/tmp/t") (codes "/in/a") refl

rename_tempfile-Moved_example :
    Moved target rename
      (λ ms w. w)
      target_files
      target-Removes
      renaming
      (λ ms w q. refl)
      (codes "/tmp/t")
      (codes "/in/a")
      differ
      start
      (rename_tempfile target rename (λ ms w. w) (codes "/tmp/t") (codes "/in/a") start)
rename_tempfile-Moved_example =
    rename_tempfile-Moved target rename (λ ms w. w) target_files target-Removes renaming
      (λ ms w q. refl) (codes "/tmp/t") (codes "/in/a") differ start
