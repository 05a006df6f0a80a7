-- ===== src/Delivery/Follow.antt =====
-- Each event of a delivery keeps what the module Jobs says.
use ugoku.Base.{
  ℕ, ◌+◌, ◌≡◌, inl, inr, refl, sym, ap, ◌∙◌, Bool, ◌||◌, Option, none, some, List, ◌∷◌, arith,
  Bool-cases,
}
use mathlib.Core.Path.{subst}
use mathlib.Core.Option.{some-injective}
use ugoku.Dispatch.{Scan}
use ugoku.Dispatch.Counts.{weight}
use ugoku.System.{
  WorkerState, Loop, receiving, working, reporting, deciding, gone, Turn, takes, works, reports,
  breaks, inits, connects, tests, decides, returns, is_stopped, System, get_elem?, set, turn, taken,
  worked, alone, reported, own_turn, new_worker, created, scans, turns, renews, signals,
  stops_scanner,
}
use ugoku.System
use ugoku.System.Turned.{
  total, total-set, total_append, to_work, to_report, reports_of, Renewed, turns-Turned,
  renews-Renewed, scans_keeps, turn_keeps,
}
use ugoku.Delivery.{Method, JobOf, Delivery, assign, begun, closed, follow, now_exits, any_exits}
use ugoku.Delivery.Jobs.{
  Keeps, Inv, Placed, assign_same, assign_other, turn-Placed, same-Placed, append-Placed,
}

module _ {A : Type 0} (m : Method A) (P : A → m.State → Type 0) (law : Keeps m P) where
  module _ (d : Delivery m) (inv : Inv m P d) (k : ℕ) (w v : WorkerState A) (u : Scan A)
      (at : get_elem? d.system.workers k ≡ some w) where
    -- The system after a turn.
    abbrev turned : System A
    turned = record d.system { scan = u; workers = set d.system.workers k v }

    of_count :
        (f : A → ℕ) (l l' : Loop A)
        → w.loop ≡ l
        → v.loop ≡ l'
        → total (reports_of f) (set d.system.workers k v) + reports_of f l
          ≡ total (reports_of f) d.system.workers + reports_of f l'
    of_count f l l' e g = omega (
      arith,
      total-set (reports_of f) d.system.workers k w v at,
      ap (reports_of f) e,
      ap (reports_of f) g,
    )

    begun-Inv :
        (t : Delivery m) (l : Loop A) (chan : List A)
        → w.loop ≡ l
        → taken w d.system.scan l chan ≡ some (v, u)
        → begun m d k chan turned ≡ some t
        → Inv m P t
    begun-Inv t receiving (a ∷ rest) e g h =
        let now : v.loop ≡ working a = ground arith in
        let same : u.finished ≡ d.system.scan.finished = ground arith in
        subst (Inv m P) (some-injective _ t h) (record {
          placed =
              turn-Placed m P d.current _ d.system.workers k w v inv.placed at
                (λ b is. (
                  record { owner = k; file = a; state = m.begin a },
                  assign_same m P d.current k _,
                  ground arith,
                  law.begins a,
                ))
                (λ j n. assign_other m P d.current k j _ n);
          over = inv.over;
          counted = λ f.
              omega
                (arith, inv.counted f, of_count f receiving (working a) e now, ap (weight f) same);
        })
    begun-Inv t l chan e g h = absurd (ground arith)

    closed-Inv :
        (t : Delivery m) (l : Loop A) (r : Option (JobOf m))
        → w.loop ≡ l
        → d.current k ≡ r
        → alone d.system.scan (worked w l) ≡ some (v, u)
        → closed m d k r turned ≡ some t
        → Inv m P t
    closed-Inv t l none e at_k g h = absurd (ground arith)
    closed-Inv t (working a) (some job) e at_k g h =
        let now : v.loop ≡ reporting a = ground arith in
        let same : u.finished ≡ d.system.scan.finished = ground arith in
        let (job', here, is_a, p) = inv.placed k w a at e in
        let is_job : job' ≡ job = some-injective job' job (sym here ∙ at_k) in
        elim (Bool-cases (m.returned job.state)) [
          | inl back ↦
              subst (Inv m P)
                (some-injective
                  (record d {
                    system = turned;
                    current = assign m d.current k none;
                    past = job ∷ d.past;
                  })
                  t (rw back at h))
                (record {
                  placed =
                      turn-Placed m P d.current (assign m d.current k none) d.system.workers k w v
                        inv.placed at (λ b is. absurd (ground arith))
                        (λ j n. assign_other m P d.current k j none n);
                  over = ((subst (λ (x : JobOf m). P x.file x.state) is_job p, back), inv.over);
                  counted = λ f. omega (
                    arith,
                    inv.counted f,
                    of_count f (working a) (reporting a) e now,
                    ap (weight f) same,
                    ap f (ap (λ (x : JobOf m). x.file) (sym is_job) ∙ is_a),
                  );
                })
          | inr on ↦ absurd (ground (arith, rw on at h))
        ]
    closed-Inv t l (some job) e at_k g h = absurd (ground arith)

    reported-Inv :
        (cap : ℕ) (t : Delivery m) (l : Loop A)
        → w.loop ≡ l
        → reported cap w d.system.scan l ≡ some (v, u)
        → some (record d { system = turned }) ≡ some t
        → Inv m P t
    reported-Inv cap t (reporting a) e g h =
        let now : v.loop ≡ deciding = ground arith in
        let more : u.finished ≡ a ∷ d.system.scan.finished = ground arith in
        subst (Inv m P) (some-injective _ t h) (record {
          placed =
              turn-Placed m P d.current d.current d.system.workers k w v inv.placed at
                (λ b is. absurd (ground arith)) (λ j n. refl);
          over = inv.over;
          counted = λ f.
              omega
                (arith, inv.counted f, of_count f (reporting a) deciding e now, ap (weight f) more);
        })
    reported-Inv cap t l e g h = absurd (ground arith)

    other-Inv :
        (t : Delivery m)
        → to_work v.loop ≡ to_work w.loop
        → to_report v.loop ≡ to_report w.loop
        → d.system.scan ≡ u
        → some (record d { system = turned }) ≡ some t
        → Inv m P t
    other-Inv t same_work same_report same_scan h = subst (Inv m P) (some-injective _ t h) (record {
      placed = same-Placed m P d.current d.system.workers k w v inv.placed at same_work;
      over = inv.over;
      counted = λ f. omega (
        arith,
        inv.counted f,
        total-set (reports_of f) d.system.workers k w v at,
        ap (weight f) same_report,
        ap (λ (x : Scan A). weight f x.finished) same_scan,
      );
    })

  module _ (one_time : Bool) (cap : ℕ) where
    turn-Inv :
        (d t : Delivery m) (k : ℕ) (e : Turn) (w v : WorkerState A) (u : Scan A)
        → Inv m P d
        → get_elem? d.system.workers k ≡ some w
        → turn m.kind cap e w d.system.scan ≡ some (v, u)
        → follow m d (turns k e) (record d.system { scan = u; workers = set d.system.workers k v })
          ≡ some t
        → Inv m P t
    unfolding turn own_turn
    turn-Inv d t k takes w v u inv at g h =
        begun-Inv d inv k w v u at t w.loop d.system.scan.chan refl g h
    turn-Inv d t k works w v u inv at g h =
        closed-Inv d inv k w v u at t w.loop (d.current k) refl refl g h
    turn-Inv d t k reports w v u inv at g h = reported-Inv d inv k w v u at cap t w.loop refl g h
    turn-Inv d t k breaks w v u inv at g h =
        let (at_work, at_report, same) = turn_keeps m.kind cap breaks w v d.system.scan u refl g in
        elim (Bool-cases (now_exits m (d.current k) || any_exits m k d.past)) [
          | inl broke ↦ other-Inv d inv k w v u at t at_work at_report same (rw broke at h)
          | inr still ↦ absurd (ground (arith, rw still at h))
        ]
    turn-Inv d t k e w v u inv at g h =
        let (at_work, at_report, same) = turn_keeps m.kind cap e w v d.system.scan u refl g in
        other-Inv d inv k w v u at t at_work at_report same h

    -- The system changes, and neither the files at hand nor their count.
    system-Inv :
        (d t : Delivery m) (s : System A)
        → Inv m P d
        → Placed m P d.current s.workers
        → ((f : A → ℕ)
            → weight f d.system.scan.finished + total (reports_of f) d.system.workers
              ≡ weight f s.scan.finished + total (reports_of f) s.workers)
        → some (record d { system = s }) ≡ some t
        → Inv m P t
    system-Inv d t s inv placed counts h =
        subst (Inv m P) (some-injective _ t h)
          (record { placed = placed; over = inv.over; counted = λ f. inv.counted f ∙ counts f })

    renew-Inv :
        (d t : Delivery m) (k : ℕ) (s : System A)
        → Inv m P d
        → Renewed m.kind one_time cap k d.system s
        → some (record d { system = s }) ≡ some t
        → Inv m P t
    renew-Inv d t k s inv (w, at, inl is) h =
        let left = record w { manager = gone } in
        system-Inv d t s inv
          (subst (λ (x : System A). Placed m P d.current x.workers) is
            (same-Placed m P d.current d.system.workers k w left inv.placed at refl))
          (λ f. omega (
            arith,
            total-set (reports_of f) d.system.workers k w left at,
            ap (λ (x : System A). weight f x.scan.finished) is,
            ap (λ (x : System A). total (reports_of f) x.workers) is,
          ))
          h
    renew-Inv d t k s inv (w, at, inr is) h =
        let left = record w { manager = gone } in
        system-Inv d t s inv
          (subst (λ (x : System A). Placed m P d.current x.workers) is
            (append-Placed m P d.current (set d.system.workers k left)
              (same-Placed m P d.current d.system.workers k w left inv.placed at refl)))
          (λ f. omega (
            arith,
            total-set (reports_of f) d.system.workers k w left at,
            total_append (reports_of f) (set d.system.workers k left) new_worker,
            ap (λ (x : System A). weight f x.scan.finished) is,
            ap (λ (x : System A). total (reports_of f) x.workers) is,
          ))
          h

    pub follow-Inv :
        (d t : Delivery m) (e : System.Event) (s : System A)
        → Inv m P d
        → System.step m.kind one_time cap e d.system ≡ some s
        → follow m d e s ≡ some t
        → Inv m P t
    unfolding System.step
    follow-Inv d t scans s inv g h =
        let (same_workers, same_finished) = scans_keeps m.kind one_time cap d.system s g in
        system-Inv d t s inv (subst (Placed m P d.current) same_workers inv.placed)
          (λ f. omega (arith, ap (weight f) same_finished, ap (total (reports_of f)) same_workers))
          h
    follow-Inv d t (turns k e) s inv g h =
        let (w, v, u, at, made, is) = turns-Turned m.kind one_time cap d.system s k e g in
        turn-Inv d t k e w v u inv at made
          (subst (λ x. follow m d (turns k e) x ≡ some t) (sym is) h)
    follow-Inv d t (renews k) s inv g h =
        renew-Inv d t k s inv (renews-Renewed m.kind one_time cap d.system s k g) h
    follow-Inv d t signals s inv g h =
        let is = some-injective _ s g in
        system-Inv d t s inv
          (subst (λ (x : System A). Placed m P d.current x.workers) is inv.placed)
          (λ f. ap (λ (x : System A). weight f x.scan.finished + total (reports_of f) x.workers) is)
          h
    follow-Inv d t stops_scanner s inv g h = elim (Bool-cases d.system.term) [
      | inl over ↦
          let is = some-injective _ s (rw over at g) in
          system-Inv d t s inv
            (subst (λ (x : System A). Placed m P d.current x.workers) is inv.placed)
            (λ f.
              ap (λ (x : System A). weight f x.scan.finished + total (reports_of f) x.workers) is)
            h
      | inr on ↦ absurd (ground (arith, rw on at g))
    ]
