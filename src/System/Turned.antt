-- ===== src/System/Turned.antt =====
-- What one event of a system changes in the list of its workers.
use ugoku.Base.{
  ℕ, zero, suc, ◌+◌, ◌≡◌, ◌⊎◌, inl, inr, refl, ap, ◌∙◌, Bool, true, false, ◌||◌, Option, none, some,
  List, [], ◌∷◌, ◌++◌, arith, Bool-cases,
}
use mathlib.Core.Option.{some-injective}
use ugoku.Dispatch.{
  Scan, Entry, file, directory, fault, Pc, walking, selecting, waiting, sending, draining, returned,
  scanner, walk,
}
use ugoku.Dispatch.Counts.{weight}
use ugoku.System.{
  Kind, WorkerState, Manager, in_start, stopped, gone, Loop, working, reporting, Turn, inits,
  connects, tests, takes, works, breaks, reports, decides, returns, is_stopped, own_turn,
  stop_flags, turn, alone, get_elem?, set, new_worker, System, turns, renews, scans, scanned, step,
  on_worker, back, renewed, replaced,
}

-- A turn that neither takes, nor transfers, nor reports a file.
abbrev pub is_other : Turn → Bool
is_other takes = false
is_other works = false
is_other reports = false
is_other e = true

module _ {A : Type 0} where
  abbrev pub total : (Loop A → ℕ) → List (WorkerState A) → ℕ
  total f [] = 0
  total f (w ∷ ws) = f w.loop + total f ws

  pub total-set :
      (f : Loop A → ℕ) (ws : List (WorkerState A)) (k : ℕ) (w v : WorkerState A)
      → get_elem? ws k ≡ some w
      → total f (set ws k v) + f w.loop ≡ total f ws + f v.loop
  unfolding get_elem? set
  total-set f [] k w v h = absurd (ground arith)
  total-set f (x ∷ ws) zero w v h = ground (
    arith,
    ap {B = ℕ} (λ (o : Option (WorkerState A)). elim o [ none ↦ 0 | some y ↦ f y.loop ]) h,
  )
  total-set f (x ∷ ws) (suc k) w v h = omega (arith, total-set f ws k w v h)

  pub total_append :
      (f : Loop A → ℕ) (ws : List (WorkerState A)) (v : WorkerState A)
      → total f (ws ++ v ∷ []) ≡ total f ws + f v.loop
  total_append f [] v = omega arith
  total_append f (w ∷ ws) v = omega (arith, total_append f ws v)

  -- A worker at the end of a longer list is one of the list, or the last one.
  pub get_elem?_last :
      (ws : List (WorkerState A)) (k : ℕ) (w v : WorkerState A)
      → get_elem? (ws ++ v ∷ []) k ≡ some w
      → (get_elem? ws k ≡ some w) ⊎ (v ≡ w)
  unfolding get_elem?
  get_elem?_last [] zero w v h = inr (some-injective v w h)
  get_elem?_last [] (suc k) w v h = absurd (ground arith)
  get_elem?_last (x ∷ ws) zero w v h = inl h
  get_elem?_last (x ∷ ws) (suc k) w v h = get_elem?_last ws k w v h

  abbrev pub to_work : Loop A → List A
  to_work (working a) = a ∷ []
  to_work l = []

  abbrev pub to_report : Loop A → List A
  to_report (reporting a) = a ∷ []
  to_report l = []

  abbrev pub reports_of : (A → ℕ) → Loop A → ℕ
  reports_of f l = weight f (to_report l)

  pub own_turn_keeps :
      (kind : Kind) (e : Turn) (w v : WorkerState A)
      → is_other e ≡ true
      → own_turn kind e w ≡ some v
      → (to_work v.loop ≡ to_work w.loop) × (to_report v.loop ≡ to_report w.loop)
  unfolding own_turn stop_flags
  own_turn_keeps kind inits w v o h = ground arith
  own_turn_keeps kind (connects b) w v o h = ground arith
  own_turn_keeps kind tests w v o h = ground arith
  own_turn_keeps kind works w v o h = absurd (ground arith)
  own_turn_keeps kind breaks w v o h = ground arith
  own_turn_keeps kind decides w v o h = ground arith
  own_turn_keeps kind returns w v o h = ground arith
  own_turn_keeps kind is_stopped w v o h = ground arith
  own_turn_keeps kind takes w v o h = cc
  own_turn_keeps kind reports w v o h = cc

  alone_keeps :
      (kind : Kind) (e : Turn) (w v : WorkerState A) (s u : Scan A) (r : Option (WorkerState A))
      → is_other e ≡ true
      → own_turn kind e w ≡ r
      → alone s r ≡ some (v, u)
      → (to_work v.loop ≡ to_work w.loop) × (to_report v.loop ≡ to_report w.loop) × (s ≡ u)
  alone_keeps kind e w v s u none o g h = absurd (ground arith)
  alone_keeps kind e w v s u (some x) o g h =
      let same : x ≡ v = ground arith in
      let (at_work, at_report) = own_turn_keeps kind e w v o (g ∙ ap some same) in
      (at_work, at_report, ground arith)

  pub turn_keeps :
      (kind : Kind) (cap : ℕ) (e : Turn) (w v : WorkerState A) (s u : Scan A)
      → is_other e ≡ true
      → turn kind cap e w s ≡ some (v, u)
      → (to_work v.loop ≡ to_work w.loop) × (to_report v.loop ≡ to_report w.loop) × (s ≡ u)
  unfolding turn
  turn_keeps kind cap takes w v s u o h = absurd (ground arith)
  turn_keeps kind cap reports w v s u o h = absurd (ground arith)
  turn_keeps kind cap e w v s u o h = alone_keeps kind e w v s u (own_turn kind e w) o refl h

  module _ (kind : Kind) (one_time : Bool) (cap : ℕ) where
    -- The worker at an index makes a turn.
    abbrev pub Turned : ℕ → Turn → System A → System A → Type 0
    Turned k e s t =
        (w : WorkerState A) × (v : WorkerState A) × (u : Scan A) × (get_elem? s.workers k ≡ some w)
        × (turn kind cap e w s.scan ≡ some (v, u))
        × (record s { scan = u; workers = set s.workers k v } ≡ t)

    back-Turned :
        (s t : System A) (k : ℕ) (e : Turn) (w : WorkerState A)
        (r : Option (WorkerState A × Scan A))
        → get_elem? s.workers k ≡ some w
        → turn kind cap e w s.scan ≡ r
        → back s k r ≡ some t
        → Turned k e s t
    back-Turned s t k e w none at g h = absurd (ground arith)
    back-Turned s t k e w (some (v, u)) at g h = (w, v, u, at, g, some-injective _ t h)

    on_worker-Turned :
        (s t : System A) (k : ℕ) (e : Turn) (r : Option (WorkerState A))
        → get_elem? s.workers k ≡ r
        → on_worker kind cap e s k r ≡ some t
        → Turned k e s t
    unfolding turn
    on_worker-Turned s t k e none at h = absurd (ground arith)
    on_worker-Turned s t k e (some w) at h =
        back-Turned s t k e w (turn kind cap e w s.scan) at refl (ground arith)

    pub turns-Turned :
        (s t : System A) (k : ℕ) (e : Turn)
        → step kind one_time cap (turns k e) s ≡ some t
        → Turned k e s t
    unfolding step
    turns-Turned s t k e h = on_worker-Turned s t k e (get_elem? s.workers k) refl h

    -- The manager of the worker at an index goes on.
    abbrev pub Renewed : ℕ → System A → System A → Type 0
    Renewed k s t =
        (w : WorkerState A) × (get_elem? s.workers k ≡ some w)
        × ((record s { workers = set s.workers k (record w { manager = gone }) } ≡ t)
            ⊎ (record s {
              workers = set s.workers k (record w { manager = gone }) ++ new_worker ∷ [];
            }
                ≡ t))

    replaced-Renewed :
        (s t : System A) (k : ℕ) (w : WorkerState A) (m : Manager)
        → get_elem? s.workers k ≡ some w
        → replaced one_time s k w m ≡ some t
        → Renewed k s t
    replaced-Renewed s t k w in_start at h = absurd (ground arith)
    replaced-Renewed s t k w gone at h = absurd (ground arith)
    replaced-Renewed s t k w stopped at h = elim (Bool-cases (one_time || s.term)) [
      | inl over ↦ (w, at, inl (some-injective _ t (rw over at h)))
      | inr more ↦ (w, at, inr (some-injective _ t (rw more at h)))
    ]

    renewed-Renewed :
        (s t : System A) (k : ℕ) (r : Option (WorkerState A))
        → get_elem? s.workers k ≡ r
        → renewed one_time s k r ≡ some t
        → Renewed k s t
    renewed-Renewed s t k none at h = absurd (ground arith)
    renewed-Renewed s t k (some w) at h = replaced-Renewed s t k w w.manager at h

    pub renews-Renewed :
        (s t : System A) (k : ℕ) → step kind one_time cap (renews k) s ≡ some t → Renewed k s t
    unfolding step
    renews-Renewed s t k h = renewed-Renewed s t k (get_elem? s.workers k) refl h

    scanned_keeps :
        (s t : System A) (r : Option (Scan A))
        → scanner cap s.scan s.scan.pc ≡ r
        → scanned s r ≡ some t
        → (s.workers ≡ t.workers) × (s.scan.finished ≡ t.scan.finished)
    scanned_keeps s t none g h = absurd (ground arith)
    scanned_keeps s t (some u) g h =
        (ground arith, finished_same s.scan u s.scan.pc g ∙ ground arith)
      where
        finished_same :
            (x y : Scan A) (pc : Pc A) → scanner cap x pc ≡ some y → x.finished ≡ y.finished
        finished_same x y walking h = of_walk x.todo h
          where
            of_walk : (es : List (Entry A)) → walk x es ≡ some y → x.finished ≡ y.finished
            of_walk [] h = ground arith
            of_walk (file a ∷ es) h = ground arith
            of_walk (directory ∷ es) h = ground arith
            of_walk (fault ∷ es) h = ground arith
        finished_same x y (selecting a) h = ground arith
        finished_same x y (waiting a) h = ground arith
        finished_same x y (sending a) h = ground arith
        finished_same x y draining h = ground arith
        finished_same x y (returned b) h = cc

    pub scans_keeps :
        (s t : System A)
        → step kind one_time cap scans s ≡ some t
        → (s.workers ≡ t.workers) × (s.scan.finished ≡ t.scan.finished)
    unfolding step
    scans_keeps s t h = scanned_keeps s t (scanner cap s.scan s.scan.pc) refl h
