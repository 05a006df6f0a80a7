-- ===== src/Delivery/Jobs.antt =====
-- Which file each worker of a delivery is at, and which files have been dealt with.
use ugoku.Base.{
  ℕ, ◌+◌, ◌==◌, ◌≡◌, inl, inr, refl, sym, ap, ◌∙◌, true, false, Option, some, List, [], ◌∷◌, ◌++◌,
  arith, Bool-cases, All, ==_iff,
}
use mathlib.Core.Path.{subst}
use mathlib.Core.Option.{some-injective}
use ugoku.Dispatch.Counts.{weight}
use ugoku.System.{WorkerState, Loop, working, get_elem?, set, new_worker}
use ugoku.System.Budget.{get_elem?-set_same, get_elem?-set_other}
use ugoku.System.Turned.{total, get_elem?_last, to_work, reports_of}
use ugoku.Delivery.{Method, JobOf, Delivery, assign, files}

-- What holds of a file from the time when it is taken, whatever its call does.
pub record Keeps {A : Type 0} (m : Method A) (P : A → m.State → Type 0) : Type 0 where
  pub begins : (a : A) → P a (m.begin a)
  pub goes : (a : A) (e : m.Step) (s t : m.State) → P a s → m.step a e s ≡ some t → P a t
  -- What is left running does not take the return back.
  pub lasts :
      (a : A) (e : m.Step) (s t : m.State)
      → m.is_main e ≡ false
      → m.returned s ≡ true
      → m.step a e s ≡ some t
      → m.returned t ≡ true

module _ {A : Type 0} (m : Method A) (P : A → m.State → Type 0) where
  abbrev pub Has : Option (JobOf m) → A → Type 0
  Has r a = (job : JobOf m) × (r ≡ some job) × (job.file ≡ a) × P job.file job.state

  -- A worker that transfers a file has a job for it.
  abbrev pub Placed : (ℕ → Option (JobOf m)) → List (WorkerState A) → Type 0
  Placed current ws =
      (k : ℕ) (w : WorkerState A) (a : A)
      → get_elem? ws k ≡ some w
      → w.loop ≡ working a
      → Has (current k) a

  abbrev pub Closed : JobOf m → Type 0
  Closed job = P job.file job.state × (m.returned job.state ≡ true)

  -- The files that were dealt with are those that the workers put a value on done for, or will.
  pub record Inv (d : Delivery m) : Type 0 where
    pub placed : Placed d.current d.system.workers
    pub over : All Closed d.past
    pub counted :
        (f : A → ℕ)
        → weight f (files m d.past)
          ≡ weight f d.system.scan.finished + total (reports_of f) d.system.workers

  pub assign_same :
      (current : ℕ → Option (JobOf m)) (k : ℕ) (r : Option (JobOf m)) → assign m current k r k ≡ r
  assign_same current k r = rw ((==_iff k k).1 refl) refl

  pub assign_other :
      (current : ℕ → Option (JobOf m)) (k j : ℕ) (r : Option (JobOf m))
      → (k == j) ≡ false
      → assign m current k r j ≡ current j
  assign_other current k j r n = rw n refl

  -- One worker makes a turn, and the jobs of the others stay.
  pub turn-Placed :
      (current later : ℕ → Option (JobOf m)) (ws : List (WorkerState A)) (k : ℕ)
      (w v : WorkerState A)
      → Placed current ws
      → get_elem? ws k ≡ some w
      → ((a : A) → v.loop ≡ working a → Has (later k) a)
      → ((j : ℕ) → (k == j) ≡ false → later j ≡ current j)
      → Placed later (set ws k v)
  turn-Placed current later ws k w v placed at now others j x a g h = elim (Bool-cases (k == j)) [
    | inl same ↦
        let equal : k ≡ j = (==_iff k j).0 same in
        let here =
          subst (λ i. get_elem? (set ws k v) i ≡ some v) equal (get_elem?-set_same ws k w v at) in
        let is_x : v ≡ x = some-injective v x (sym here ∙ g) in
        subst (λ i. Has (later i) a) equal (now a (ap (λ y. y.loop) is_x ∙ h))
    | inr other ↦
        let there =
          sym (get_elem?-set_other ws k j v (λ e. absurd (ground (arith, (==_iff k j).1 e)))) ∙ g in
        subst (λ r. Has r a) (sym (others j other)) (placed j x a there h)
  ]

  -- A turn after which the worker does what it did.
  pub same-Placed :
      (current : ℕ → Option (JobOf m)) (ws : List (WorkerState A)) (k : ℕ) (w v : WorkerState A)
      → Placed current ws
      → get_elem? ws k ≡ some w
      → to_work v.loop ≡ to_work w.loop
      → Placed current (set ws k v)
  same-Placed current ws k w v placed at same =
      turn-Placed current current ws k w v placed at
        (λ a h. placed k w a at (from_work w.loop a (sym same ∙ ap to_work h))) (λ j n. refl)
    where
      from_work : (l : Loop A) (a : A) → to_work l ≡ a ∷ [] → l ≡ working a
      from_work (working b) a h = ground arith
      from_work l a h = absurd (ground arith)

  pub append-Placed :
      (current : ℕ → Option (JobOf m)) (ws : List (WorkerState A))
      → Placed current ws
      → Placed current (ws ++ new_worker ∷ [])
  append-Placed current ws placed j x a g h = elim (get_elem?_last ws j x new_worker g) [
    | inl there ↦ placed j x a there h
    | inr last ↦ absurd (ground (arith, ap (λ y. y.loop) last))
  ]
