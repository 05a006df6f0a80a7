-- ===== src/FolderScanner/Handed.antt =====
-- The files of a pass of uploader/folder-scanner.go and the workers that they are handed to.
use ugoku.Base.{
  ℕ, ◌*◌, ◌<◌, ◌≡◌, refl, ap, ◌∙◌, ℤ, Text, same, Bool, true, false, Bool-cases, inl, inr, Option,
  some, List, [], ◌∷◌, map, length, if◌then◌else◌, arith,
}
use ugoku.Services.{FileInfo}
use ugoku.FolderScanner.{FileObj, FolderMap, Item, scan_pass}
use ugoku.FolderScanner.Passes.{lists, sent_for, news, pass_sends}
use ugoku.Dispatch.{file, Scan, Event, returned, begin, run}
use ugoku.Dispatch.Counts.{weight, files_of}
use ugoku.Dispatch.Complete.{scan_once_complete}

-- Counts the objects of one name.
abbrev pub named : Text → FileObj → ℕ
named q fo = if same q fo.path then 1 else 0

weight-sent_for :
    (q : Text) (sent : List FileObj)
    → weight (named q) (files_of (map file sent)) ≡ length (sent_for q sent)
unfolding sent_for
weight-sent_for q [] = refl
weight-sent_for q (fo ∷ sent) = elim (Bool-cases (same q fo.path)) [
  | inl e ↦ rw e (omega (arith, weight-sent_for q sent))
  | inr e ↦ rw e (omega (arith, weight-sent_for q sent))
]

-- Take the files that a watching pass sends, in any schedule of the dispatch from empty channels and
-- idle workers, of which there is one at least. If the dispatch returns without a stop, then the
-- workers have finished each file that the pass came to and could stat exactly once if it is new or
-- has another modification time in seconds, and never otherwise.
pub new_files_finished_once :
    (workers : ℕ) (one_time : Bool) (es : List Event) (s : Scan FileObj) (b : Bool) (pass : ℤ)
    (stat : Text → Option FileInfo) (items : List Item) (m : FolderMap)
    → 0 < workers
    → run
        (workers * 2)
        one_time
        es
        (begin (map file (scan_pass true pass stat (some items) m).sent) workers [] [] 0)
      ≡ some s
    → s.pc ≡ returned b
    → s.started ≡ true
    → (q : Text)
    → weight (named q) s.finished ≡ (if lists q items then length (news (stat q) (m q)) else 0)
new_files_finished_once workers one_time es s b pass stat items m room r e st q =
    let (_, _, _, all, _) = scan_once_complete workers _ one_time es s b room r e st in
    all (named q)
    ∙ weight-sent_for q (scan_pass true pass stat (some items) m).sent
    ∙ ap length (pass_sends pass stat items m q)
    ∙ length-if (lists q items) (news (stat q) (m q))
  where
    length-if :
        (c : Bool) (xs : List FileInfo)
        → length (if c then xs else []) ≡ (if c then length xs else 0)
    length-if true xs = refl
    length-if false xs = refl
