-- ===== src/System/Moves.antt =====
-- Which worker of a calm system can go on.
use ugoku.Base.{
  ℕ, suc, ◌<◌, ◌≡◌, ◌≢◌, refl, ap, Bool, true, false, Option, none, some, List, [], ◌∷◌, ◌++◌,
  length, length-append, arith, Bool-cases, inl, inr, ltb,
}
use ugoku.Dispatch.{Scan, scanner, pick, take_from, finish}
use ugoku.Dispatch
use ugoku.Dispatch.Progress.{IsWork}
use ugoku.System.{
  Kind, WorkerState, Loop, created, connecting, head, receiving, working, reporting, deciding,
  ended, Turn, inits, connects, tests, takes, works, reports, decides, is_stopped, own_turn, turn,
  get_elem?, System, Event, scans, turns, step, on_worker, back,
}
use ugoku.System.Held.{holding, held}
use ugoku.System.Matching.{with_busy, scanner-with_busy}
use ugoku.System.Budget.{All-get_elem?}
use ugoku.System.Calm.{is_calm_turn, is_calm, Steady, IsCalm}

module _ {A : Type 0} where
  -- A worker with the place it has in the list.
  abbrev At : List (WorkerState A) → (WorkerState A → Type 0) → Type 0
  At ws P = (k : ℕ) × (w : WorkerState A) × (get_elem? ws k ≡ some w) × P w

  one_further :
      (P : WorkerState A → Type 0) (x : WorkerState A) (ws : List (WorkerState A))
      → At ws P
      → At (x ∷ ws) P
  unfolding get_elem?
  one_further P x ws (k, w, at, p) = (suc k, w, at, p)

  abbrev Holds : WorkerState A → Type 0
  Holds w = 0 < length (holding w.loop)

  abbrev HandsEmpty : WorkerState A → Type 0
  HandsEmpty w = holding w.loop ≡ []

  a_busy_one : (ws : List (WorkerState A)) → 0 < length (held ws) → At ws Holds
  unfolding get_elem?
  a_busy_one [] h = absurd (ground arith)
  a_busy_one (w ∷ ws) h = elim (Bool-cases (ltb 0 (length (holding w.loop)))) [
    | inl has ↦ (0, w, refl, ground arith)
    | inr not_it ↦
        one_further Holds w ws
          (a_busy_one ws (ground (arith, length-append (holding w.loop) (held ws))))
  ]

  a_free_one : (ws : List (WorkerState A)) → length (held ws) < length ws → At ws HandsEmpty
  unfolding get_elem?
  a_free_one [] h = absurd (ground arith)
  a_free_one (w ∷ ws) h = of_hand (holding w.loop) refl (a_free_one ws) h
    where
      of_hand :
          (hand : List A)
          → holding w.loop ≡ hand
          → (length (held ws) < length ws → At ws HandsEmpty)
          → length (hand ++ held ws) < suc (length ws)
          → At (w ∷ ws) HandsEmpty
      of_hand [] e others h = (0, w, refl, e)
      of_hand (a ∷ rest) e others h =
          one_further HandsEmpty w ws (others (omega (arith, length-append rest (held ws))))

  module _ (kind : Kind) (one_time : Bool) (cap : ℕ) where
    abbrev CanGo : System A → Type 0
    CanGo s = (e : Event) × (is_calm e ≡ true) × (step kind one_time cap e s ≢ none)

    abbrev CanTurn : WorkerState A → Scan A → Type 0
    CanTurn w s = (e : Turn) × (is_calm_turn e ≡ true) × (turn kind cap e w s ≢ none)

    back_some :
        (s : System A) (k : ℕ) (r : Option (WorkerState A × Scan A)) → r ≢ none → back s k r ≢ none
    back_some s k none h = absurd (h refl)
    back_some s k (some (w, u)) h = λ x. cc

    moves_on :
        (s : System A) (k : ℕ) (w : WorkerState A) (e : Turn)
        → is_calm_turn e ≡ true
        → turn kind cap e w s.scan ≢ none
        → on_worker kind cap e s k (some w) ≢ none
    unfolding turn
    moves_on s k w is_stopped c h = absurd (ground arith)
    moves_on s k w e c h = back_some s k (turn kind cap e w s.scan) h

    turn_goes :
        (s : System A) (k : ℕ) (w : WorkerState A)
        → get_elem? s.workers k ≡ some w
        → CanTurn w s.scan
        → CanGo s
    unfolding step
    turn_goes s k w at (e, c, h) = (turns k e, c, rw at (moves_on s k w e c h))

    -- A worker with a file can go on, when there is room for its value.
    busy_turns : (w : WorkerState A) (s : Scan A) → Holds w → s.done < cap → CanTurn w s
    unfolding turn own_turn
    busy_turns w s busy room = of_loop w.loop refl busy
      where
        of_loop : (l : Loop A) → w.loop ≡ l → 0 < length (holding l) → CanTurn w s
        of_loop (working a) e h = (works, refl, ground arith)
        of_loop (reporting a) e h = (reports, refl, ground arith)
        of_loop l e h = absurd (ground arith)

    -- A steady worker without one can go on, when there is a file in the channel.
    free_turns :
        (w : WorkerState A) (s : Scan A) → HandsEmpty w → Steady w → 0 < length s.chan → CanTurn w s
    unfolding turn own_turn
    free_turns w s free st some_file = of_loop w.loop refl s.chan refl
      where
        of_loop : (l : Loop A) → w.loop ≡ l → (chan : List A) → s.chan ≡ chan → CanTurn w s
        of_loop created e chan g = (inits, refl, ground arith)
        of_loop connecting e chan g = (connects false, refl, ground arith)
        of_loop head e chan g = (tests, refl, ground arith)
        of_loop receiving e [] g = absurd (ground (arith, ap length g))
        of_loop receiving e (a ∷ rest) g = (takes, refl, ground arith)
        of_loop (working a) e chan g = absurd (ground arith)
        of_loop (reporting a) e chan g = absurd (ground arith)
        of_loop deciding e chan g = (decides, refl, ground arith)
        of_loop ended e chan g = absurd (ground arith)

    a_busy_goes : (s : System A) → 0 < length (held s.workers) → s.scan.done < cap → CanGo s
    a_busy_goes s some_busy room =
        let (k, w, at, busy) = a_busy_one s.workers some_busy in
        turn_goes s k w at (busy_turns w s.scan busy room)

    a_free_goes :
        (s : System A)
        → IsCalm s
        → length (held s.workers) < length s.workers
        → 0 < length s.scan.chan
        → CanGo s
    a_free_goes s calm some_free some_file =
        let (k, w, at, free) = a_free_one s.workers some_free in
        turn_goes s k w at
          (free_turns w s.scan free (All-get_elem? Steady s.workers k w at calm.0) some_file)

    scanner_goes :
        (s : System A) (busy : List A) (r : Option (Scan A))
        → scanner cap (with_busy busy (length s.workers) s.scan) s.scan.pc ≡ r
        → r ≢ none
        → CanGo s
    unfolding step
    scanner_goes s busy none g h = absurd (h refl)
    scanner_goes s busy (some u) g h =
        let moves =
          scanner-with_busy cap s.scan.busy s.scan.alive (with_busy busy (length s.workers) s.scan)
            u s.scan.pc g in
        (scans, refl, rw moves (λ x. ground arith))

    -- Where the scan can go on, something in the system can.
    pub work_goes :
        (s : System A) (busy : List A) (e : Dispatch.Event)
        → IsWork e
        → length busy ≡ length (held s.workers)
        → IsCalm s
        → Dispatch.step cap false e (with_busy busy (length s.workers) s.scan) ≢ none
        → CanGo s
    unfolding Dispatch.step
    work_goes s busy Dispatch.scans i same calm h =
        scanner_goes s busy (scanner cap (with_busy busy (length s.workers) s.scan) s.scan.pc) refl
          h
    work_goes s busy Dispatch.takes i same calm h = of_chan s.scan.chan refl h
      where
        of_chan :
            (chan : List A)
            → s.scan.chan ≡ chan
            → take_from cap (with_busy busy (length s.workers) s.scan) chan ≢ none
            → CanGo s
        of_chan [] e h = absurd (h refl)
        of_chan (a ∷ rest) e h = elim (Bool-cases (ltb (length busy) (length s.workers))) [
          | inl idle ↦ a_free_goes s calm (ground (arith, same)) (ground (arith, ap length e))
          | inr full ↦ absurd (h (ground arith))
        ]
    work_goes s busy (Dispatch.finishes k) i same calm h = of_busy busy refl h
      where
        of_busy :
            (xs : List A)
            → busy ≡ xs
            → finish cap (with_busy busy (length s.workers) s.scan) (pick k xs) ≢ none
            → CanGo s
        of_busy [] e h = absurd (h (unfold pick in refl))
        of_busy (a ∷ rest) e h = of_pick (pick k (a ∷ rest)) h
          where
            of_pick :
                (r : Option (A × List A))
                → finish cap (with_busy busy (length s.workers) s.scan) r ≢ none
                → CanGo s
            of_pick none h = absurd (h refl)
            of_pick (some (b, others)) h = elim (Bool-cases (ltb s.scan.done cap)) [
              | inl room ↦ a_busy_goes s (omega (arith, same, ap length e)) (ground arith)
              | inr full ↦ absurd (h (ground arith))
            ]
    work_goes s busy Dispatch.stops i same calm h = absurd i
    work_goes s busy Dispatch.quits i same calm h = absurd i
