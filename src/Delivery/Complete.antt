-- ===== src/Delivery/Complete.antt =====
-- What becomes of each file of a walk, with what the workers do to it.
use ugoku.Base.{
  ℕ, ◌*◌, ◌<◌, ◌≤◌, length, length-append, Shuffled_length, ◌≡◌, sym, ap, Bool, true, some, List,
  [], ◌∷◌, arith, All,
}
use mathlib.Core.Path.{subst}
use ugoku.Dispatch.{Entry, Scan, returned, begin}
use ugoku.Dispatch.Counts.{weight, weight-append, files_of}
use ugoku.System.{
  WorkerState, Loop, created, connecting, head, receiving, working, reporting, deciding, ended,
  get_elem?,
}
use ugoku.System.Held.{holding, held, held-set}
use ugoku.System.Complete.{system_scan_complete}
use ugoku.System.Turned.{total, reports_of}
use ugoku.Delivery.{Method, Delivery, Event, files, run}
use ugoku.Delivery.Jobs.{Keeps, Inv, Closed}
use ugoku.Delivery.Runs.{systems_of, run-Inv, run-system}

module _ {A : Type 0} where
  reports-le-held :
      (f : A → ℕ) (ws : List (WorkerState A)) → total (reports_of f) ws ≤ weight f (held ws)
  reports-le-held f [] = omega arith
  reports-le-held f (w ∷ ws) =
      omega
        (arith, weight-append f (holding w.loop) (held ws), of_loop w.loop, reports-le-held f ws)
    where
      of_loop : (l : Loop A) → reports_of f l ≤ weight f (holding l)
      of_loop created = omega arith
      of_loop connecting = omega arith
      of_loop head = omega arith
      of_loop receiving = omega arith
      of_loop (working a) = omega arith
      of_loop (reporting a) = omega arith
      of_loop deciding = omega arith
      of_loop ended = omega arith

  none_working :
      (ws : List (WorkerState A)) (k : ℕ) (w : WorkerState A) (a : A)
      → held ws ≡ []
      → get_elem? ws k ≡ some w
      → w.loop ≡ working a
      → ⊥
  none_working ws k w a h at is =
      let (others, p, _, _) = held-set ws k w at in
      absurd (
        omega (
          arith,
          Shuffled_length p,
          ap length h,
          ap (λ l. length (holding l)) is,
          length-append (holding w.loop) others,
        ))

module _ {A : Type 0} (m : Method A) (P : A → m.State → Type 0) (law : Keeps m P) where
  pub start-Inv :
      (entries : List (Entry A)) (d : Delivery m)
      → d.system.scan ≡ begin entries 0 [] [] 0
      → held d.system.workers ≡ []
      → d.past ≡ []
      → Inv m P d
  start-Inv entries d fresh free nothing = record {
    placed = λ k w a at is. absurd (none_working d.system.workers k w a free at is);
    over = subst (All (Closed m P)) (sym nothing) tt;
    counted = λ f. omega (
      arith,
      ap (λ x. weight f (files m x)) nothing,
      ap (λ (x : Scan A). weight f x.finished) fresh,
      ap (weight f) free,
      reports-le-held f d.system.workers,
    );
  }

  -- Workers of any kind, n > 0 of them, in either mode, with what each of them does to a file and what its
  -- calls leave running. Take a scan_once that begins over empty channels while no worker has a file, and
  -- any run after it. If scan_once returns without having been stopped and without an error of the walk,
  -- then the files whose calls have returned are those of the walk, each as often as the walk gave it (all
  -- weights agree); and of each of them holds what a call keeps, whatever is still running.
  pub delivery_complete :
      (one_time : Bool) (n : ℕ) (entries : List (Entry A)) (es : List (Event m.Step))
      (d t : Delivery m) (b : Bool)
      → 0 < n
      → d.system.scan ≡ begin entries 0 [] [] 0
      → held d.system.workers ≡ []
      → d.past ≡ []
      → run m one_time (n * 2) es d ≡ some t
      → t.system.scan.pc ≡ returned b
      → t.system.scan.started ≡ true
      → ((f : A → ℕ) → weight f (files m t.past) ≡ weight f (files_of entries))
        × All (Closed m P) t.past
  delivery_complete one_time n entries es d t b room fresh free nothing r at on =
      let inv =
        run-Inv m one_time (n * 2) P law es d t (start-Inv entries d fresh free nothing) r in
      let runs = run-system m one_time (n * 2) es d t r in
      let ((_, idle, _), all, _) =
        system_scan_complete m.kind n one_time entries (systems_of es) d.system t.system b room
          fresh free runs at on in
      (
        λ f.
            omega
              (arith, inv.counted f, all f, reports-le-held f t.system.workers, ap (weight f) idle),
        inv.over,
      )
