-- ===== src/Dispatch/Complete.antt =====
-- What becomes of the files of the walk in scan_once of downloader/sftp-scanner.go.
use ugoku.Base.{
  ℕ, ◌+◌, ◌*◌, ◌≤◌, ◌<◌, ◌≡◌, refl, sym, ap, ◌∙◌, pos_part, neg_part, Bool, true, false, Option,
  none, some, List, [], ◌∷◌, length, arith,
}
use ugoku.Dispatch.Counts.{weight, weight-append, pick-Picked, files_of}
use ugoku.Dispatch.Invariant.{Inv, run-Inv, begin-Inv}
use ugoku.Dispatch.{
  Entry, file, directory, fault, Pc, walking, selecting, waiting, sending, draining, returned, Scan,
  Event, scans, takes, finishes, stops, quits, pick, walk, scanner, take_from, finish, step, run,
  begin,
}

module _ {A : Type 0} (f : A → ℕ) where
  -- The weight of the file that the scanner has in hand.
  abbrev in_hand : Pc A → ℕ
  in_hand (selecting a) = f a
  in_hand (waiting a) = f a
  in_hand (sending a) = f a
  in_hand pc = 0

  abbrev pub total : Scan A → ℕ
  total s =
      weight f s.finished
      + weight f s.busy
      + weight f s.chan
      + in_hand s.pc
      + weight f (files_of s.todo)

-- What the result of a scan says of the files that the walk gave.
abbrev pub AnyFile : {A : Type 0} → Bool → List A → Type 0
AnyFile true xs = 0 < length xs
AnyFile false xs = xs ≡ []

-- At the end of the walk nothing is left of it, unless the scanner was stopped.
abbrev Ends : {A : Type 0} → Scan A → Pc A → Type 0
Ends s draining = s.todo ≡ []
Ends s (returned b) =
    s.started ≡ true
    → (s.todo ≡ []) × (b ≡ s.files_found) × (pos_part s.dispatched ≤ neg_part s.dispatched)
Ends s pc = Unit {0}

abbrev Found : {A : Type 0} → ℕ → Scan A → Bool → Type 0
Found files s true = length (files_of s.todo) < files
Found files s false = length (files_of s.todo) ≡ files

record Log {A : Type 0} (f : A → ℕ) (all files : ℕ) (s : Scan A) : Type 0 where
  bounded : total f s ≤ all
  conserved : s.started ≡ true → total f s ≡ all
  found : s.started ≡ true → Found files s s.files_found
  ends : Ends s s.pc

module _ {A : Type 0} (cap : ℕ) (f : A → ℕ) (all files : ℕ) where
  walk-Log :
      (s t : Scan A) (es : List (Entry A))
      → s.pc ≡ walking
      → s.todo ≡ es
      → Log f all files s
      → walk s es ≡ some t
      → Log f all files t
  walk-Log s t [] e g v h = ground arith
  walk-Log s t (directory ∷ es) e g v h = ground arith
  walk-Log s t (fault ∷ es) e g v h = ground arith
  walk-Log s t (file a ∷ es) e g v h = ground arith

  scanner-Log :
      (s t : Scan A) (pc : Pc A)
      → s.pc ≡ pc
      → Log f all files s
      → scanner cap s pc ≡ some t
      → Log f all files t
  scanner-Log s t walking e v h = walk-Log s t s.todo e refl v h
  scanner-Log s t (selecting a) e v h = ground (arith, weight-append f s.chan (a ∷ []))
  scanner-Log s t (waiting a) e v h = ground arith
  scanner-Log s t (sending a) e v h = ground (arith, weight-append f s.chan (a ∷ []))
  scanner-Log s t draining e v h = ground arith
  scanner-Log s t (returned b) e v h = cc

  take-Log :
      (s t : Scan A) (chan : List A)
      → s.chan ≡ chan
      → Log f all files s
      → take_from cap s chan ≡ some t
      → Log f all files t
  take-Log s t [] e v h = cc
  take-Log s t (a ∷ rest) e v h = ground (arith, ap (weight f) e)

  finish-Log :
      (k : ℕ) (s t : Scan A) (r : Option (A × List A))
      → pick k s.busy ≡ r
      → Log f all files s
      → finish cap s r ≡ some t
      → Log f all files t
  finish-Log k s t none e v h = cc
  finish-Log k s t (some (a, rest)) e v h =
      let (same_weight, _) = rw e at (pick-Picked f k s.busy) in ground (arith, same_weight)

  step-Log :
      (one_time : Bool) (e : Event) (s t : Scan A)
      → Log f all files s
      → step cap one_time e s ≡ some t
      → Log f all files t
  unfolding step
  step-Log one_time scans s t v h = scanner-Log s t s.pc refl v h
  step-Log one_time takes s t v h = take-Log s t s.chan refl v h
  step-Log one_time (finishes k) s t v h = finish-Log k s t (pick k s.busy) refl v h
  step-Log one_time stops s t v h = ground arith
  step-Log one_time quits s t v h = ground arith

  run-Log :
      (one_time : Bool) (es : List Event) (s t : Scan A)
      → Log f all files s
      → run cap one_time es s ≡ some t
      → Log f all files t
  unfolding run
  run-Log one_time [] s t v h = ground arith
  run-Log one_time (e ∷ es) s t v h = after (step cap one_time e s) refl h (run-Log one_time es)
    where
      after :
          (r : Option (Scan A))
          → step cap one_time e s ≡ r
          → (elim r as (λ _. Option (Scan A)) [ none ↦ none | some u ↦ run cap one_time es u ])
            ≡ some t
          → ((u w : Scan A)
              → Log f all files u
              → run cap one_time es u ≡ some w
              → Log f all files w)
          → Log f all files t
      after none q g ih = cc
      after (some u) q g ih = ih u t (step-Log one_time e s u v q) g

nil_of_length : {A : Type 0} (xs : List A) → length xs ≡ 0 → xs ≡ []
nil_of_length [] h = refl
nil_of_length (x ∷ xs) h = absurd (omega arith)

module _ {A : Type 0} (cap workers : ℕ) (entries : List (Entry A)) (chan busy : List A)
    (done : ℕ) where
  -- What the walk gives, and what was on its way before.
  abbrev all_of : (A → ℕ) → ℕ
  all_of f = weight f (files_of entries) + weight f busy + weight f chan

  logged :
      (one_time : Bool) (f : A → ℕ) (es : List Event) (s : Scan A)
      → run cap one_time es (begin entries workers chan busy done) ≡ some s
      → Log f (all_of f) (length (files_of entries)) s
  logged one_time f es s = run-Log cap f _ _ one_time es _ s (omega arith)

  -- A scan_once that begins with files on their way: if it returns without having been stopped and
  -- without an error of the walk, none of them and none of its own is lost, no more are on their way than
  -- at its begin, and the result says whether the walk gave a file.
  pub scan_conserves :
      (one_time : Bool) (es : List Event) (s : Scan A) (b : Bool)
      → 0 < cap
      → length chan ≤ cap
      → length busy ≤ workers
      → done ≤ cap
      → run cap one_time es (begin entries workers chan busy done) ≡ some s
      → s.pc ≡ returned b
      → s.started ≡ true
      → (length s.chan + length s.busy + s.done ≤ length chan + length busy + done)
        × ((f : A → ℕ) → weight f s.finished + weight f s.busy + weight f s.chan ≡ all_of f)
        × AnyFile b (files_of entries)
  scan_conserves one_time es s b room fits_chan fits_busy fits_done r e st = (
    omega (arith, inv.balance, at_end.2),
    λ f. omega (
      arith,
      (logged one_time f es s r).conserved st,
      ap (in_hand f) e,
      ap (λ (x : List (Entry A)). weight f (files_of x)) at_end.0,
    ),
    result b refl,
  )
    where
      log : Log (λ (a : A). 0) (all_of (λ (a : A). 0)) (length (files_of entries)) s
      log = logged one_time (λ a. 0) es s r

      at_end : (s.todo ≡ []) × (b ≡ s.files_found) × (pos_part s.dispatched ≤ neg_part s.dispatched)
      at_end = rw e at log.ends st

      inv : Inv cap workers (length chan + length busy + done) s
      inv =
          run-Inv cap workers (length chan + length busy + done) room one_time es _ s
            (begin-Inv cap workers entries chan busy done fits_chan fits_done fits_busy) r

      nothing_left : length (files_of s.todo) ≡ 0
      nothing_left = ap (λ (x : List (Entry A)). length (files_of x)) at_end.0

      found :
          b ≡ true
          → Found (length (files_of entries)) s s.files_found
          → 0 < length (files_of entries)
      found t h = omega (arith, rw (sym at_end.1 ∙ t) at h)

      nothing :
          b ≡ false
          → Found (length (files_of entries)) s s.files_found
          → length (files_of entries) ≡ 0
      nothing t h = omega (arith, nothing_left, rw (sym at_end.1 ∙ t) at h)

      result : (c : Bool) → b ≡ c → AnyFile c (files_of entries)
      result true t = found t (log.found st)
      result false t = nil_of_length (files_of entries) (nothing t (log.found st))

module _ {A : Type 0} (cap workers : ℕ) (entries : List (Entry A)) where
  -- scan_once_complete below, for channels of any capacity.
  pub any_scan_complete :
      (one_time : Bool) (es : List Event) (s : Scan A) (b : Bool)
      → 0 < cap
      → run cap one_time es (begin entries workers [] [] 0) ≡ some s
      → s.pc ≡ returned b
      → s.started ≡ true
      → (s.chan ≡ [])
        × (s.busy ≡ [])
        × (s.done ≡ 0)
        × ((f : A → ℕ) → weight f s.finished ≡ weight f (files_of entries))
        × AnyFile b (files_of entries)
  any_scan_complete one_time es s b room r e st =
      let (fewer, same, any) =
        scan_conserves cap workers entries [] [] 0 one_time es s b room (omega arith) (omega arith)
          (omega arith) r e st in
      let no_chan = nil_of_length s.chan (omega (arith, fewer)) in
      let no_busy = nil_of_length s.busy (omega (arith, fewer)) in
      (
        no_chan,
        no_busy,
        omega (arith, fewer),
        λ f. omega (arith, same f, ap (weight f) no_chan, ap (weight f) no_busy),
        any,
      )

module _ {A : Type 0} (workers : ℕ) (entries : List (Entry A)) where
  -- At any moment of a scan_once that begins with empty channels and idle workers, no file has been
  -- handed out, is in a channel, is being worked on or is finished more often than the walk gave it:
  -- for every weight of files the files finished, at the workers and in the channel weigh at most
  -- what the files of the walk weigh.
  pub scan_once_no_duplicates :
      (one_time : Bool) (f : A → ℕ) (es : List Event) (s : Scan A)
      → run (workers * 2) one_time es (begin entries workers [] [] 0) ≡ some s
      → weight f s.finished + weight f s.busy + weight f s.chan ≤ weight f (files_of entries)
  scan_once_no_duplicates one_time f es s r =
      omega (arith, (logged (workers * 2) workers entries [] [] 0 one_time f es s r).bounded)

  -- Take a scan_once that begins with empty channels, idle workers and at least one worker, in any
  -- schedule, with or without workers that exit for good. If it returns without having been stopped
  -- and without an error of the walk, then the channels are empty and the workers idle, every file
  -- of the walk has been finished exactly as often as the walk gave it (all weights agree), and the
  -- result says whether there was a file at all.
  pub scan_once_complete :
      (one_time : Bool) (es : List Event) (s : Scan A) (b : Bool)
      → 0 < workers
      → run (workers * 2) one_time es (begin entries workers [] [] 0) ≡ some s
      → s.pc ≡ returned b
      → s.started ≡ true
      → (s.chan ≡ [])
        × (s.busy ≡ [])
        × (s.done ≡ 0)
        × ((f : A → ℕ) → weight f s.finished ≡ weight f (files_of entries))
        × AnyFile b (files_of entries)
  scan_once_complete one_time es s b w =
      any_scan_complete (workers * 2) workers entries one_time es s b (omega arith)
