-- ===== src/Process/TermSignal.antt =====
-- term_signal of a package and the handlers that set it.
use ugoku.Base.{
  ℕ, ◌==◌, ◌≡◌, ◌≢◌, sym, ◌∙◌, refl, ap, Bool, true, false, ◌&&◌, ◌||◌, Option, none, some, List,
  [], ◌∷◌, arith, bound, if◌then◌else◌, All,
}
use mathlib.Core.Path.{subst}
use mathlib.Core.Option.{some-injective}
use ugoku.System.{
  Kind, System, WorkerState, Manager, in_start, stopped, gone, Turn, is_handler, is_stopped, turns,
  scans, renews, signals, stops_scanner, next_scan, again, on_worker, back, turn, get_elem?, set,
  renewed, replaced, scanned, new_worker,
}
use ugoku.System
use ugoku.Process.{
  Member, Handler, waits, in_callback, at_scanner, at_workers, sleeps, Process, Event, runs, makes,
  scans_again, arrives, calls, skips, stops_no_scanner, goes_to_sleep, exits, ends, panics,
  with_system, goes_on, runs_on, first_made, then_at, called, callback, past_nil, skipped,
  returned_at, slept, notified, all_notified, termed, member, with_member, put_back, changed,
  exited, set_term, live, step, run, of_callback, is_scan, is_in_callback, go_package, may_be_nil,
  stops_nil, present, may_panic, callback_panics,
}
use ugoku.Process
use ugoku.Process.Quiet.{step-live}
use ugoku.Process.Shared.{
  any_told, Agrees, Alike, runs_on-Alike, first_made-Alike, again-Alike, callback-Alike,
  skipped-Alike, slept-Alike,
}
use ugoku.Process.Told.{
  any_told-Alike, All-Agrees-by, Alike-Agrees, with_member-All, any_told-all_notified, notified-All,
  any_told-termed, any_told-with_member, termed-All, member-All,
}
use ugoku.Process.Shutdown.{member-termed, with_term}

not_signals : (e : System.Event) → of_callback e ≡ false → e ≢ signals
not_signals e own is = absurd (ground (arith, sym own ∙ ap of_callback is))

module _ {A : Type 0} where
  abbrev AllAgree : Process A → Type 0
  AllAgree p = All (Agrees p.members) p.members

  placed-AllAgree :
      (p q : Process A) (i : ℕ) (m : Member A) (r : Option (Member A))
      → member p.members i ≡ some m
      → ((n : Member A) → r ≡ some n → Alike m n)
      → AllAgree p
      → put_back p i r ≡ some q
      → AllAgree q
  placed-AllAgree p q i m none at alike all h = absurd (ground arith)
  placed-AllAgree p q i m (some n) at alike all h =
      let same = alike n refl in
      let ns = with_member p.members i n in
      let told_as_before = λ (k : ℕ). any_told-Alike k p.members i m n at same in
      subst AllAgree (some-injective _ q h) (
        with_member-All (Agrees ns) p.members i m n at (Alike-Agrees ns m n same)
          (All-Agrees-by p.members ns p.members told_as_before all))

  changed-AllAgree :
      (p q : Process A) (i : ℕ) (f : Member A → Option (Member A)) (r : Option (Member A))
      → ((m n : Member A) → f m ≡ some n → Alike m n)
      → member p.members i ≡ r
      → AllAgree p
      → changed p i f r ≡ some q
      → AllAgree q
  changed-AllAgree p q i f none alike at all h = absurd (ground arith)
  changed-AllAgree p q i f (some m) alike at all h =
      placed-AllAgree p q i m (f m) at (alike m) all h

  exited-AllAgree :
      (p q : Process A) (may : Member A → Bool) (r : Option (Member A))
      → AllAgree p
      → exited p may r ≡ some q
      → AllAgree q
  exited-AllAgree p q may none all h = absurd (ground arith)
  exited-AllAgree p q may (some m) all h = of_test (may m) h
    where
      of_test :
          (b : Bool) → (if b then some (record p { over = true }) else none) ≡ some q → AllAgree q
      of_test true h = subst AllAgree (some-injective _ q h) all
      of_test false h = absurd (ground arith)

  set_term-AllAgree :
      (p q : Process A) (i : ℕ) (r : Option (Member A))
      → member p.members i ≡ r
      → AllAgree p
      → set_term p i r ≡ some q
      → AllAgree q
  set_term-AllAgree p q i none at all h = absurd (ground arith)
  set_term-AllAgree p q i (some m) at all h = of_test (is_in_callback m.handler) h
    where
      k : ℕ
      k = go_package m.kind

      n : Member A
      n = record m { system = record m.system { term = true }; handler = at_scanner }

      ms : List (Member A)
      ms = termed k p.members

      ns : List (Member A)
      ns = with_member ms i n

      there : member ms i ≡ some (with_term m)
      there = member-termed p.members i m at

      now : (j : ℕ) → any_told j ns ≡ (k == j || any_told j p.members)
      now j =
          any_told-with_member j ms i (with_term m) n there refl refl
          ∙ ap (λ b. k == j || b) (any_told-termed j k p.members)

      of_test :
          (b : Bool) → (if b then some (record p { members = ns }) else none) ≡ some q → AllAgree q
      of_test true h = subst AllAgree (some-injective _ q h) (
          with_member-All (Agrees ns) ms i (with_term m) n there (λ agrees. agrees)
            (termed-All k p.members ns p.members now all))
      of_test false h = absurd (ground arith)

  calls-AllAgree :
      (p q : Process A) (i : ℕ) (e : System.Event)
      → AllAgree p
      → live (calls i e) p ≡ some q
      → AllAgree q
  calls-AllAgree p q i signals all h = set_term-AllAgree p q i (member p.members i) refl all h
  calls-AllAgree p q i e all h =
      changed-AllAgree p q i (callback e) (member p.members i) (callback-Alike e) refl all h

  live-AllAgree : (p q : Process A) (e : Event A) → AllAgree p → live e p ≡ some q → AllAgree q
  live-AllAgree p q (runs i e) all h = of_kind (of_callback e) refl h
    where
      of_kind :
          (b : Bool)
          → of_callback e ≡ b
          → (if b then none else changed p i (runs_on e) (member p.members i)) ≡ some q
          → AllAgree q
      of_kind true own h = absurd (ground arith)
      of_kind false own h =
          changed-AllAgree p q i (runs_on e) (member p.members i)
            (λ m n. runs_on-Alike e m n (not_signals e own)) refl all h
  live-AllAgree p q (makes i) all h =
      changed-AllAgree p q i first_made (member p.members i) first_made-Alike refl all h
  live-AllAgree p q (scans_again i entries) all h =
      changed-AllAgree p q i (Process.again entries) (member p.members i) (again-Alike entries) refl
        all h
  live-AllAgree p q arrives all h = subst AllAgree (some-injective _ q h) (
      All-Agrees-by p.members (all_notified p.members) (all_notified p.members)
        (λ k. any_told-all_notified k p.members) (notified-All p.members p.members all))
  live-AllAgree p q (calls i e) all h = calls-AllAgree p q i e all h
  live-AllAgree p q (skips i) all h =
      changed-AllAgree p q i skipped (member p.members i) skipped-Alike refl all h
  live-AllAgree p q (stops_no_scanner i) all h = exited-AllAgree p q _ (member p.members i) all h
  live-AllAgree p q (goes_to_sleep i) all h =
      changed-AllAgree p q i slept (member p.members i) slept-Alike refl all h
  live-AllAgree p q (exits i) all h = exited-AllAgree p q _ (member p.members i) all h
  live-AllAgree p q (ends i) all h = exited-AllAgree p q _ (member p.members i) all h
  live-AllAgree p q (panics i) all h = exited-AllAgree p q _ (member p.members i) all h

  run-AllAgree :
      (es : List (Event A)) (p q : Process A) → AllAgree p → run es p ≡ some q → AllAgree q
  unfolding run
  run-AllAgree [] p q all h = subst AllAgree (some-injective p q h) all
  run-AllAgree (e ∷ es) p q all h =
      let (u, first, rest) = bound (step e p) (run es) q h in
      run-AllAgree es u q (live-AllAgree p u e all (step-live p u e first)) rest

  -- A transfer of a process in which no signal has come.
  abbrev pub Begins : Member A → Type 0
  Begins m = (m.system.term ≡ false) × (m.handler ≡ waits)

  none_told : (p : ℕ) (ms : List (Member A)) → All Begins ms → any_told p ms ≡ false
  unfolding any_told
  none_told p [] all = refl
  none_told p (m ∷ ms) ((_, waiting), all) =
      rw (waiting, none_told p ms all) (neither (go_package m.kind == p))
    where
      neither : (b : Bool) → (b && false || false) ≡ false
      neither true = refl
      neither false = refl

  Begins-AllAgree : (ms xs : List (Member A)) → All Begins ms → All Begins xs → All (Agrees ms) xs
  Begins-AllAgree ms [] none_yet all = tt
  Begins-AllAgree ms (x ∷ xs) none_yet ((off, _), all) =
      (off ∙ sym (none_told (go_package x.kind) ms none_yet), Begins-AllAgree ms xs none_yet all)

  -- Take a process in which no signal has come yet, and any run of it, with or without signals. Then term_signal, as each transfer
  -- sees it, is set exactly if the handler of a transfer of the same package, not of another one, has been
  -- called back and has set it.
  pub term_signal_shared :
      (es : List (Event A)) (p q : Process A) (i : ℕ) (m : Member A)
      → All Begins p.members
      → run es p ≡ some q
      → member q.members i ≡ some m
      → m.system.term ≡ any_told (go_package m.kind) q.members
  term_signal_shared es p q i m none_yet h at =
      member-All (Agrees q.members) q.members i m at
        (run-AllAgree es p q (Begins-AllAgree p.members p.members none_yet none_yet) h)
