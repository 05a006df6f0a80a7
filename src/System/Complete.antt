-- ===== src/System/Complete.antt =====
-- What becomes of the files that the scanner of a system finds.
use mathlib.Core.List.Perm
use mathlib.Core.List.{Perm}
use mathlib.Core.Path.{subst}
use ugoku.Base.{
  ℕ, zero, suc, ◌*◌, ◌<◌, ◌≡◌, refl, sym, ap, ◌∙◌, Bool, true, false, not, ◌&&◌, some, List, [],
  ◌++◌, length, arith, inl, inr, Bool-cases,
}
use ugoku.Dispatch.{Entry, Pc, returned, Scan, begin}
use ugoku.Dispatch
use ugoku.Dispatch.Counts.{weight, weight-append, files_of}
use ugoku.Dispatch.Complete.{AnyFile, any_scan_complete}
use ugoku.System.{Kind, System, Event, run, new_workers, launch, again, next_scan}
use ugoku.System.Held.{held}
use ugoku.System.Matching.{with_busy}
use ugoku.System.Refine.{system_refines}

module _ {A : Type 0} (kind : Kind) (n : ℕ) where
  -- Nothing is on its way.
  abbrev pub IsIdle : System A → Type 0
  IsIdle s = (s.scan.chan ≡ []) × (held s.workers ≡ []) × (s.scan.done ≡ 0)

  -- A manager with n > 0 workers, of any kind and in either mode. Take a scan_once that begins over
  -- empty channels while no worker has a file, and any run of the system after it: workers connect,
  -- fail, exit, are made again or not, and go on after they were replaced. If scan_once returns without
  -- having been stopped and without an error of the walk, then again nothing is on its way, every file
  -- of the walk has been finished exactly as often as the walk gave it (all weights agree), and the
  -- result says whether there was a file at all.
  pub system_scan_complete :
      (one_time : Bool) (entries : List (Entry A)) (es : List Event) (s t : System A) (b : Bool)
      → 0 < n
      → s.scan ≡ begin entries 0 [] [] 0
      → held s.workers ≡ []
      → run kind one_time (n * 2) es s ≡ some t
      → t.scan.pc ≡ returned b
      → t.scan.started ≡ true
      → IsIdle t
        × ((f : A → ℕ) → weight f t.scan.finished ≡ weight f (files_of entries))
        × AnyFile b (files_of entries)
  system_scan_complete one_time entries es s t b room fresh free r at on =
      let m = length t.workers in
      let (ds, busy, same, runs) = system_refines kind one_time (n * 2) m es s t (omega arith) r in
      let (chan, no_busy, no_done, finished, any) =
        any_scan_complete (n * 2) m entries false ds (with_busy busy m t.scan) b (omega arith)
          (subst (λ x. Dispatch.run (n * 2) false ds x ≡ some (with_busy busy m t.scan))
            (ap (λ x. with_busy (held s.workers) m x) fresh ∙ ap (λ x. begin entries m [] x 0) free)
            runs)
          at on in
      (
        (chan, sym (Perm.nil-eq (subst (λ xs. Perm xs (held t.workers)) no_busy same)), no_done),
        finished,
        any,
      )

  -- scan_once has returned, and was not stopped.
  abbrev pub HasScanned : System A → Type 0
  HasScanned s = ((b : Bool) × (s.scan.pc ≡ returned b)) × (s.scan.started ≡ true)

  -- A service from its launch on, over some scans that all returned without having been stopped, the
  -- last one now: the files that their walks gave, and those that the workers finished.
  pub data Served : List A → List A → System A → Type 0 where
    first :
        (entries : List (Entry A)) (es : List Event) {t : System A}
        → run kind false (n * 2) es (launch entries n) ≡ some t
        → HasScanned t
        → Served (files_of entries) t.scan.finished t
    one_more :
        {files finished : List A} (entries : List (Entry A)) (es : List Event) {s t u : System A}
        → Served files finished s
        → next_scan entries s ≡ some t
        → run kind false (n * 2) es t ≡ some u
        → HasScanned u
        → Served (files_of entries ++ files) (u.scan.finished ++ finished) u

  pub held-new_workers : (k : ℕ) → held (new_workers {A = A} k) ≡ []
  unfolding new_workers
  held-new_workers zero = refl
  held-new_workers (suc k) = held-new_workers k

  next_scan_begins :
      (entries : List (Entry A)) (s t : System A)
      → IsIdle s
      → next_scan entries s ≡ some t
      → (t.scan ≡ begin entries 0 [] [] 0) × (held t.workers ≡ [])
  unfolding next_scan
  next_scan_begins entries s t idle h = of_pc s.scan.pc h
    where
      of_pc :
          (pc : Pc A)
          → again entries s pc ≡ some t
          → (t.scan ≡ begin entries 0 [] [] 0) × (held t.workers ≡ [])
      of_pc (returned b) h = elim (Bool-cases (not s.scan.started && s.term)) [
        | inl over ↦ absurd (ground arith)
        | inr more ↦
            let kept : t.workers ≡ s.workers = ground arith in
            (ground (arith, idle.0, idle.2), ap held kept ∙ idle.1)
      ]
      of_pc pc h = absurd (ground arith)

  -- A service with n > 0 workers, of any kind, over any number of scans, as long as none of them is
  -- stopped or ends with an error of its walk: when a scan_once has returned, nothing is on its way,
  -- and over all the scans the workers finished every file exactly as often as the walks gave it.
  pub Served-complete :
      (files finished : List A) (s : System A)
      → 0 < n
      → Served files finished s
      → IsIdle s × ((f : A → ℕ) → weight f finished ≡ weight f files)
  Served-complete files finished s room (first entries es r ((b, at), on)) =
      let (idle, all, _) =
        system_scan_complete false entries es (launch entries n) s b room refl (held-new_workers n)
          r at on in
      (idle, all)
  Served-complete files finished s room
        (one_more {files = before} {finished = done} entries es {s = p} {t = t} v e r
          ((b, at), on)) =
      let (was_idle, so_far) = Served-complete before done p room v in
      let (fresh, free) = next_scan_begins entries p t was_idle e in
      let (idle, all, _) = system_scan_complete false entries es t s b room fresh free r at on in
      (
        idle,
        λ f. omega (
          arith,
          all f,
          so_far f,
          weight-append f s.scan.finished done,
          weight-append f (files_of entries) before,
        ),
      )
