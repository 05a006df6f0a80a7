-- ===== src/System/Matching.antt =====
-- One turn of a worker of a system, as events of the module Dispatch.
use ugoku.Base.{
  ℕ, zero, suc, ◌+◌, ◌≤◌, ◌<◌, ◌≡◌, refl, sym, ap, ◌∙◌, Bool, true, ◌||◌, Option, none, some, List,
  [], ◌∷◌, ◌++◌, length, arith, Shuffled, after, both, Shuffled_sym, Shuffled_length, here,
  Without-Shuffled, Bool-cases, inl, inr, ltb,
}
use mathlib.Core.Path.{subst}
use mathlib.Core.Option.{some-injective}
use ugoku.Dispatch.{
  Pc, walking, selecting, waiting, sending, draining, returned, Entry, file, directory, fault, Scan,
  scanner, walk, pick, take_from, finish, begin,
}
use ugoku.Dispatch
use ugoku.System.{
  Kind, WorkerState, Loop, receiving, working, reporting, deciding, Turn, inits, connects, tests,
  takes, works, breaks, reports, decides, returns, is_stopped, in_start, stopped, gone, Manager,
  get_elem?, set, new_worker, System, own_turn, stop_flags, turn, on_worker, back, renewed, alone,
  taken, reported, replaced,
}
use ugoku.System.Held.{holding, held, held-set, pick-Without}

module _ {A : Type 0} where
  -- The scan, as one of a number of workers that are at some files.
  abbrev pub with_busy : List A → ℕ → Scan A → Scan A
  with_busy busy m s = record s { busy = busy; alive = m }

  abbrev with_busy? : List A → ℕ → Option (Scan A) → Option (Scan A)
  with_busy? busy m none = none
  with_busy? busy m (some s) = some (with_busy busy m s)

  -- What the scanner does does not depend on them.
  pub scanner-with_busy :
      (cap : ℕ) (busy : List A) (m : ℕ) (s t : Scan A) (pc : Pc A)
      → scanner cap s pc ≡ some t
      → scanner cap (with_busy busy m s) pc ≡ some (with_busy busy m t)
  scanner-with_busy cap busy m s t walking h = of_walk s.todo h
    where
      of_walk :
          (es : List (Entry A))
          → walk s es ≡ some t
          → walk (with_busy busy m s) es ≡ some (with_busy busy m t)
      of_walk [] h = ground arith
      of_walk (file a ∷ es) h = ground arith
      of_walk (directory ∷ es) h = ground arith
      of_walk (fault ∷ es) h = ground arith
  scanner-with_busy cap busy m s t (selecting a) h = ground arith
  scanner-with_busy cap busy m s t (waiting a) h = ground arith
  scanner-with_busy cap busy m s t (sending a) h = ground arith
  scanner-with_busy cap busy m s t draining h = ground arith
  scanner-with_busy cap busy m s t (returned b) h = cc

  -- A turn that is neither a take nor a report keeps the file in hand.
  own_turn-holding :
      (kind : Kind) (e : Turn) (w v : WorkerState A)
      → own_turn kind e w ≡ some v
      → holding v.loop ≡ holding w.loop
  unfolding own_turn stop_flags
  own_turn-holding kind inits w v h = ground arith
  own_turn-holding kind (connects b) w v h = ground arith
  own_turn-holding kind tests w v h = ground arith
  own_turn-holding kind works w v h = ground arith
  own_turn-holding kind breaks w v h = ground arith
  own_turn-holding kind decides w v h = ground arith
  own_turn-holding kind returns w v h = ground arith
  own_turn-holding kind is_stopped w v h = ground arith
  own_turn-holding kind takes w v h = cc
  own_turn-holding kind reports w v h = cc

  pub length-set :
      (ws : List (WorkerState A)) (k : ℕ) (v : WorkerState A) → length (set ws k v) ≡ length ws
  unfolding set
  length-set [] k v = refl
  length-set (w ∷ ws) zero v = refl
  length-set (w ∷ ws) (suc k) v = ap suc (length-set ws k v)

  held_append : (ws : List (WorkerState A)) → held (ws ++ new_worker ∷ []) ≡ held ws
  held_append [] = refl
  held_append (w ∷ ws) = ap (λ xs. holding w.loop ++ xs) (held_append ws)

  module _ (kind : Kind) (one_time o : Bool) (cap m : ℕ) where
    -- From the first system to the second, the scan makes some events, with as many workers as m, and
    -- with the same files in hand but for their order.
    abbrev pub Matched : List A → System A → System A → Type 0
    Matched busy s t =
        (es : List Dispatch.Event) × (busy' : List A) × Shuffled busy' (held t.workers)
        × (Dispatch.run cap o es (with_busy busy m s.scan) ≡ some (with_busy busy' m t.scan))

    -- A worker with the same in hand takes the place of another.
    still :
        (busy : List A) (ws : List (WorkerState A)) (k : ℕ) (w v : WorkerState A)
        → get_elem? ws k ≡ some w
        → holding v.loop ≡ holding w.loop
        → Shuffled busy (held ws)
        → Shuffled busy (held (set ws k v))
    still busy ws k w v at same p =
        let (others, q, r, _) = held-set ws k w at in
        both p (both q (Shuffled_sym (rw (sym same) (r v))))

    pub becomes :
        (busy : List A) (s t u : System A) → some u ≡ some t → Matched busy s u → Matched busy s t
    becomes busy s t u e m = subst (Matched busy s) (some-injective u t e) m

    take_runs :
        (busy : List A) (s : Scan A) (a : A) (rest : List A)
        → s.chan ≡ a ∷ rest
        → length busy < m
        → Dispatch.run cap o (Dispatch.takes ∷ []) (with_busy busy m s)
          ≡ some (with_busy (a ∷ busy) m (record s { chan = rest }))
    unfolding Dispatch.run Dispatch.step
    take_runs busy s a rest e lt = ground arith

    take-Matched :
        (busy : List A) (s t : System A) (k : ℕ) (w : WorkerState A)
        → get_elem? s.workers k ≡ some w
        → Shuffled busy (held s.workers)
        → length s.workers ≤ m
        → (l : Loop A) → w.loop ≡ l
        → (chan : List A) → s.scan.chan ≡ chan
        → back s k (taken w s.scan l chan) ≡ some t
        → Matched busy s t
    take-Matched busy s t k w at p fits receiving e (a ∷ rest) g h =
        let (others, q, r, few) = held-set s.workers k w at in
        let from_others : Shuffled busy others = both p (rw e at q) in
        becomes busy s t
          (record s {
            scan = record s.scan { chan = rest };
            workers = set s.workers k (record w { loop = working a });
          })
          h
          (
            Dispatch.takes ∷ [],
            a ∷ busy,
            both (after a from_others) (Shuffled_sym (r (record w { loop = working a }))),
            take_runs busy s.scan a rest g (omega (arith, Shuffled_length from_others)),
          )
    take-Matched busy s t k w at p fits l e chan g h = cc

    report_runs :
        (busy rest : List A) (s : Scan A) (j : ℕ) (a : A)
        → pick j busy ≡ some (a, rest)
        → ltb s.done cap ≡ true
        → Dispatch.run cap o (Dispatch.finishes j ∷ []) (with_busy busy m s)
          ≡ some (with_busy rest m (record s { done = s.done + 1; finished = a ∷ s.finished }))
    unfolding Dispatch.run Dispatch.step pick
    report_runs busy rest s j a picks room = rw (picks, room) refl

    abbrev after_report : System A → ℕ → WorkerState A → A → System A
    after_report s k w a = record s {
      scan = record s.scan { done = s.scan.done + 1; finished = a ∷ s.scan.finished };
      workers = set s.workers k (record w { loop = deciding });
    }

    report_room :
        (s t : System A) (k : ℕ) (w : WorkerState A) (a : A)
        → back s k (reported cap w s.scan (reporting a)) ≡ some t
        → (ltb s.scan.done cap ≡ true) × (some (after_report s k w a) ≡ some t)
    report_room s t k w a h = ground arith

    report-Matched :
        (busy : List A) (s t : System A) (k : ℕ) (w : WorkerState A)
        → get_elem? s.workers k ≡ some w
        → Shuffled busy (held s.workers)
        → (l : Loop A) → w.loop ≡ l
        → back s k (reported cap w s.scan l) ≡ some t
        → Matched busy s t
    report-Matched busy s t k w at p (reporting a) e h =
        let (others, q, r, _) = held-set s.workers k w at in
        let from_all : Shuffled busy (a ∷ others) = both p (rw e at q) in
        let (busy', out, same) = Without-Shuffled from_all here in
        let (j, picks) = pick-Without out in
        let (room, after_it) = report_room s t k w a h in
        becomes busy s t (after_report s k w a) after_it (
          Dispatch.finishes j ∷ [],
          busy',
          both same (Shuffled_sym (r (record w { loop = deciding }))),
          report_runs busy busy' s.scan j a picks room,
        )
    report-Matched busy s t k w at p l e h = cc

    own-Matched :
        (busy : List A) (s t : System A) (k : ℕ) (w : WorkerState A) (e : Turn)
        → get_elem? s.workers k ≡ some w
        → Shuffled busy (held s.workers)
        → (r : Option (WorkerState A)) → own_turn kind e w ≡ r
        → back s k (alone s.scan r) ≡ some t
        → Matched busy s t
    unfolding Dispatch.run
    own-Matched busy s t k w e at p none g h = cc
    own-Matched busy s t k w e at p (some v) g h =
        becomes busy s t (record s { workers = set s.workers k v }) h
          ([], busy, still busy s.workers k w v at (own_turn-holding kind e w v g) p, refl)

    turn-Matched :
        (busy : List A) (s t : System A) (k : ℕ) (w : WorkerState A) (e : Turn)
        → get_elem? s.workers k ≡ some w
        → Shuffled busy (held s.workers)
        → length s.workers ≤ m
        → back s k (turn kind cap e w s.scan) ≡ some t
        → Matched busy s t
    unfolding turn Dispatch.run
    turn-Matched busy s t k w takes at p fits h =
        take-Matched busy s t k w at p fits w.loop refl s.scan.chan refl h
    turn-Matched busy s t k w reports at p fits h = report-Matched busy s t k w at p w.loop refl h
    turn-Matched busy s t k w inits at p fits h = own-Matched busy s t k w inits at p _ refl h
    turn-Matched busy s t k w (connects b) at p fits h =
        own-Matched busy s t k w (connects b) at p _ refl h
    turn-Matched busy s t k w tests at p fits h = own-Matched busy s t k w tests at p _ refl h
    turn-Matched busy s t k w works at p fits h = own-Matched busy s t k w works at p _ refl h
    turn-Matched busy s t k w breaks at p fits h = own-Matched busy s t k w breaks at p _ refl h
    turn-Matched busy s t k w decides at p fits h = own-Matched busy s t k w decides at p _ refl h
    turn-Matched busy s t k w returns at p fits h = own-Matched busy s t k w returns at p _ refl h
    turn-Matched busy s t k w is_stopped at p fits h =
        own-Matched busy s t k w is_stopped at p _ refl h

    pub turns-Matched :
        (busy : List A) (s t : System A) (k : ℕ) (e : Turn)
        → Shuffled busy (held s.workers)
        → length s.workers ≤ m
        → (r : Option (WorkerState A)) → get_elem? s.workers k ≡ r
        → on_worker kind cap e s k r ≡ some t
        → Matched busy s t
    unfolding turn
    turns-Matched busy s t k e p fits none at h = absurd (ground arith)
    turns-Matched busy s t k e p fits (some w) at h =
        turn-Matched busy s t k w e at p fits (ground arith)

    pub renew-Matched :
        (busy : List A) (s t : System A) (k : ℕ)
        → Shuffled busy (held s.workers)
        → (r : Option (WorkerState A)) → get_elem? s.workers k ≡ r
        → renewed one_time s k r ≡ some t
        → Matched busy s t
    unfolding Dispatch.run
    renew-Matched busy s t k p none at h = cc
    renew-Matched busy s t k p (some w) at h = of_manager w.manager h
      where
        slot : List (WorkerState A)
        slot = set s.workers k (record w { manager = gone })

        kept : Shuffled busy (held slot)
        kept = still busy s.workers k w (record w { manager = gone }) at refl p

        of_manager : (n : Manager) → replaced one_time s k w n ≡ some t → Matched busy s t
        of_manager in_start h = absurd (ground arith)
        of_manager gone h = absurd (ground arith)
        of_manager stopped h = elim (Bool-cases (one_time || s.term)) [
          | inl last ↦
              becomes busy s t (record s { workers = slot }) (sym (rw last refl) ∙ h)
                ([], busy, kept, refl)
          | inr new ↦
              becomes busy s t (record s { workers = slot ++ new_worker ∷ [] })
                (sym (rw new refl) ∙ h) ([], busy, rw (held_append slot) kept, refl)
        ]
