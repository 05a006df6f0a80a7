-- ===== src/Process/Shared.antt =====
-- term_signal of a package, which the transfers of a kind share.
use ugoku.Base.{
  ℕ, zero, suc, ◌==◌, ◌≡◌, ◌≢◌, sym, refl, ap, Bool, true, false, not, ◌&&◌, ◌||◌, Option, none,
  some, List, [], ◌∷◌, arith, if◌then◌else◌,
}
use mathlib.Core.Path.{subst}
use mathlib.Core.Option.{some-injective}
use ugoku.Dispatch.{Entry, Scan, Pc, returned, begin}
use ugoku.System.{
  Kind, System, WorkerState, Manager, in_start, stopped, gone, Turn, is_handler, is_stopped, turns,
  scans, renews, signals, stops_scanner, next_scan, again, on_worker, back, turn, get_elem?, set,
  renewed, replaced, scanned, new_worker,
}
use ugoku.System
use ugoku.Process.{
  Member, Handler, waits, in_callback, at_scanner, at_workers, sleeps, Process, Event, runs, makes,
  scans_again, arrives, calls, skips, stops_no_scanner, goes_to_sleep, exits, ends, panics,
  with_system, goes_on, runs_on, first_made, then_at, called, callback, past_nil, skipped,
  returned_at, slept, notified, all_notified, termed, member, with_member, put_back, changed,
  exited, set_term, live, step, run, of_callback, is_scan, is_in_callback, go_package, may_be_nil,
  stops_nil, present, may_panic, callback_panics,
}
use ugoku.Process

-- The handler has set term_signal.
abbrev pub told : Handler → Bool
told waits = false
told in_callback = false
told h = true

module _ {A : Type 0} where
  -- A handler of the package has set it.
  unfoldable pub any_told : ℕ → List (Member A) → Bool
  any_told p [] = false
  any_told p (m ∷ ms) = go_package m.kind == p && told m.handler || any_told p ms

  abbrev pub Agrees : List (Member A) → Member A → Type 0
  Agrees ms m = m.system.term ≡ any_told (go_package m.kind) ms

  -- Of the same kind, with the same term_signal and a handler that has come as far.
  abbrev pub Alike : Member A → Member A → Type 0
  Alike m n =
      (n.kind ≡ m.kind) × (n.system.term ≡ m.system.term) × (told n.handler ≡ told m.handler)

  turned-term :
      (s t : System A) (k : ℕ) (r : Option (WorkerState A × Scan A))
      → back s k r ≡ some t
      → t.term ≡ s.term
  turned-term s t k none h = absurd (ground arith)
  turned-term s t k (some (w, scan)) h = ap (λ (x : System A). x.term) (sym (some-injective _ t h))

  worker-term :
      (kind : Kind) (room : ℕ) (e : Turn) (s t : System A) (k : ℕ) (r : Option (WorkerState A))
      → on_worker kind room e s k r ≡ some t
      → t.term ≡ s.term
  unfolding System.turn
  worker-term kind room e s t k none h = absurd (ground (arith, h))
  worker-term kind room e s t k (some w) h = of_test (is_handler e && not s.term) h
    where
      of_test :
          (b : Bool)
          → (if b then none else back s k (turn kind room e w s.scan)) ≡ some t
          → t.term ≡ s.term
      of_test true h = absurd (ground arith)
      of_test false h = turned-term s t k _ h

  replaced-term :
      (one_time : Bool) (s t : System A) (k : ℕ) (w : WorkerState A) (g : Manager)
      → replaced one_time s k w g ≡ some t
      → t.term ≡ s.term
  replaced-term one_time s t k w stopped h =
      ap (λ (x : System A). x.term) (sym (some-injective _ t h))
  replaced-term one_time s t k w g h = absurd (ground arith)

  renewed-term :
      (one_time : Bool) (s t : System A) (k : ℕ) (r : Option (WorkerState A))
      → renewed one_time s k r ≡ some t
      → t.term ≡ s.term
  renewed-term one_time s t k none h = absurd (ground arith)
  renewed-term one_time s t k (some w) h = replaced-term one_time s t k w w.manager h

  scanned-term : (s t : System A) (r : Option (Scan A)) → scanned s r ≡ some t → t.term ≡ s.term
  scanned-term s t none h = absurd (ground arith)
  scanned-term s t (some scan) h = ap (λ (x : System A). x.term) (sym (some-injective _ t h))

  -- Only the callback sets it.
  step-term :
      (kind : Kind) (one_time : Bool) (room : ℕ) (e : System.Event) (s t : System A)
      → e ≢ signals
      → System.step kind one_time room e s ≡ some t
      → t.term ≡ s.term
  unfolding System.step
  step-term kind one_time room scans s t other h = scanned-term s t _ h
  step-term kind one_time room (turns k e) s t other h =
      worker-term kind room e s t k (get_elem? s.workers k) h
  step-term kind one_time room (renews k) s t other h =
      renewed-term one_time s t k (get_elem? s.workers k) h
  step-term kind one_time room signals s t other h = absurd (other refl)
  step-term kind one_time room stops_scanner s t other h = of_test s.term refl h
    where
      of_test :
          (b : Bool)
          → s.term ≡ b
          → (if b then some (record s { scan = record s.scan { started = false } }) else none)
            ≡ some t
          → t.term ≡ s.term
      of_test true on h = ap (λ (x : System A). x.term) (sym (some-injective _ t h))
      of_test false on h = absurd (ground arith)

  next-term :
      (entries : List (Entry A)) (s t : System A) → next_scan entries s ≡ some t → t.term ≡ s.term
  unfolding next_scan
  next-term entries s t h = of_pc s.scan.pc h
    where
      of_pc : (pc : Pc A) → again entries s pc ≡ some t → t.term ≡ s.term
      of_pc (returned b) h = of_test (not s.scan.started && s.term) h
        where
          of_test :
              (c : Bool)
              → (if c
                  then none
                  else some (record s { scan = begin entries 0 s.scan.chan [] s.scan.done }))
                ≡ some t
              → t.term ≡ s.term
          of_test true h = absurd (ground arith)
          of_test false h = ap (λ (x : System A). x.term) (sym (some-injective _ t h))
      of_pc pc h = absurd (ground arith)

  with_system-Alike :
      (m n : Member A) (r : Option (System A))
      → ((t : System A) → r ≡ some t → t.term ≡ m.system.term)
      → with_system m r ≡ some n
      → Alike m n
  with_system-Alike m n none same h = absurd (ground arith)
  with_system-Alike m n (some t) same h =
      subst (Alike m) (some-injective _ n h) (refl, same t refl, refl)

  goes_on-Alike :
      (e : System.Event) (m n : Member A) → e ≢ signals → goes_on e m ≡ some n → Alike m n
  unfolding goes_on
  goes_on-Alike e m n other h =
      with_system-Alike m n _ (λ t g. step-term m.kind m.one_time m.cap e m.system t other g) h

  pub runs_on-Alike :
      (e : System.Event) (m n : Member A) → e ≢ signals → runs_on e m ≡ some n → Alike m n
  runs_on-Alike e m n other h = of_test (is_scan e && not m.made) h
    where
      of_test : (b : Bool) → (if b then none else goes_on e m) ≡ some n → Alike m n
      of_test true h = absurd (ground arith)
      of_test false h = goes_on-Alike e m n other h

  pub first_made-Alike : (m n : Member A) → first_made m ≡ some n → Alike m n
  first_made-Alike m n h = of_test m.made h
    where
      of_test :
          (b : Bool) → (if b then none else some (record m { made = true })) ≡ some n → Alike m n
      of_test true h = absurd (ground arith)
      of_test false h = subst (Alike m) (some-injective _ n h) (refl, refl, refl)

  pub again-Alike :
      (entries : List (Entry A)) (m n : Member A) → Process.again entries m ≡ some n → Alike m n
  again-Alike entries m n h = of_mode m.one_time h
    where
      of_mode :
          (b : Bool)
          → (if b then none else with_system m (next_scan entries m.system)) ≡ some n
          → Alike m n
      of_mode true h = absurd (ground arith)
      of_mode false h = with_system-Alike m n _ (λ t g. next-term entries m.system t g) h

  then_at-Alike :
      (m n : Member A) (g : Handler) (r : Option (Member A))
      → told g ≡ told m.handler
      → ((u : Member A) → r ≡ some u → Alike m u)
      → then_at g r ≡ some n
      → Alike m n
  then_at-Alike m n g none same alike h = absurd (ground arith)
  then_at-Alike m n g (some u) same alike h =
      let (kind, term, _) = alike u refl in
      subst (Alike m) (some-injective _ n h) (kind, term, same)

  pub callback-Alike : (e : System.Event) (m n : Member A) → callback e m ≡ some n → Alike m n
  callback-Alike e m n h = of_handler e m.handler refl h
    where
      of_handler :
          (e : System.Event) (g : Handler) → m.handler ≡ g → called e m g ≡ some n → Alike m n
      of_handler stops_scanner at_scanner at h = of_test m.made h
        where
          of_test :
              (b : Bool)
              → (if b then then_at (at_workers m.slots) (goes_on stops_scanner m) else none)
                ≡ some n
              → Alike m n
          of_test true h =
              then_at-Alike m n (at_workers m.slots) _ (sym (ap told at))
                (λ u g. goes_on-Alike stops_scanner m u (λ x. cc) g) h
          of_test false h = absurd (ground arith)
      of_handler (turns k is_stopped) (at_workers (suc left)) at h =
          then_at-Alike m n (at_workers left) _ (sym (ap told at))
            (λ u g. goes_on-Alike (turns k is_stopped) m u (λ x. cc) g) h
      of_handler e g at h = absurd (ground arith)

  moved-Alike :
      (m n : Member A) (g : Handler) (b : Bool)
      → told g ≡ told m.handler
      → (if b then some (record m { handler = g }) else none) ≡ some n
      → Alike m n
  moved-Alike m n g true same h = subst (Alike m) (some-injective _ n h) (refl, refl, same)
  moved-Alike m n g false same h = absurd (ground arith)

  pub skipped-Alike : (m n : Member A) → skipped m ≡ some n → Alike m n
  skipped-Alike m n h = of_handler m.handler refl h
    where
      of_handler : (g : Handler) → m.handler ≡ g → past_nil m g ≡ some n → Alike m n
      of_handler at_scanner at h = moved-Alike m n (at_workers m.slots) _ (sym (ap told at)) h
      of_handler (at_workers (suc left)) at h =
          moved-Alike m n (at_workers left) _ (sym (ap told at)) h
      of_handler g at h = absurd (ground arith)

  pub slept-Alike : (m n : Member A) → slept m ≡ some n → Alike m n
  slept-Alike m n h = of_handler m.handler refl h
    where
      of_handler : (g : Handler) → m.handler ≡ g → returned_at m g ≡ some n → Alike m n
      of_handler (at_workers zero) at h = moved-Alike m n sleeps true (sym (ap told at)) h
      of_handler g at h = absurd (ground arith)
