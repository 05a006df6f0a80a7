-- ===== src/Process/Causes.antt =====
-- What a process ends by.
use ugoku.Base.{
  ℕ, ◌≡◌, ◌⊎◌, inl, inr, Bool-cases, sym, ◌∙◌, refl, ap, Bool, true, false, ◌&&◌, Option, none,
  some, List, [], ◌∷◌, arith, bound, if◌then◌else◌,
}
use mathlib.Core.Path.{subst}
use mathlib.Core.Option.{some-injective}
use ugoku.System.{Kind, System, Turn, turns, signals, stops_scanner, next_scan}
use ugoku.System
use ugoku.Process.{
  with_member, makes, skips, stops_no_scanner, runs_on, first_made, skipped, at_scanner, at_workers,
  callback_panics, Member, Handler, waits, in_callback, sleeps, Process, Event, runs, scans_again,
  arrives, calls, goes_to_sleep, exits, ends, panics, again, callback, slept, member, put_back,
  changed, exited, set_term, live, step, run, of_callback, is_sleeping, is_in_callback, termed,
  go_package, has_returned, may_panic,
}
use ugoku.Process.Quiet.{step-live}

asleep : (h : Handler) → is_sleeping h ≡ true → h ≡ sleeps
asleep sleeps h = refl
asleep waits h = absurd (ground arith)
asleep in_callback h = absurd (ground arith)
asleep at_scanner h = absurd (ground arith)
asleep (at_workers k) h = absurd (ground arith)

module _ {A : Type 0} where
  -- Why a process can end: a handler has come to its os.Exit or to a nil scanner, the scan of a one-time
  -- transfer has
  -- returned, or a goroutine of a transfer may panic.
  abbrev pub Ending : Member A → Type 0
  Ending m =
      ((m.handler ≡ sleeps) ⊎ (callback_panics m ≡ true))
      ⊎ ((m.one_time ≡ true) × (has_returned m.system.scan.pc ≡ true))
      ⊎ (may_panic m ≡ true)

  abbrev pub Cause : Process A → Type 0
  Cause p = (i : ℕ) × (m : Member A) × (member p.members i ≡ some m) × Ending m

  put_back-over :
      (p q : Process A) (i : ℕ) (r : Option (Member A)) → put_back p i r ≡ some q → q.over ≡ p.over
  put_back-over p q i none h = absurd (ground arith)
  put_back-over p q i (some n) h = ap (λ (x : Process A). x.over) (sym (some-injective _ q h))

  changed-over :
      (p q : Process A) (i : ℕ) (f : Member A → Option (Member A)) (r : Option (Member A))
      → changed p i f r ≡ some q
      → q.over ≡ p.over
  changed-over p q i f none h = absurd (ground arith)
  changed-over p q i f (some m) h = put_back-over p q i (f m) h

  calls-over :
      (p q : Process A) (i : ℕ) (e : System.Event) → live (calls i e) p ≡ some q → q.over ≡ p.over
  calls-over p q i signals h = of_member (member p.members i) h
    where
      of_member : (r : Option (Member A)) → set_term p i r ≡ some q → q.over ≡ p.over
      of_member none h = absurd (ground arith)
      of_member (some m) h = of_test (is_in_callback m.handler) h
        where
          of_test :
              (b : Bool)
              → (if b
                  then some (record p {
                    members = with_member (termed (go_package m.kind) p.members) i (record m {
                      system = record m.system { term = true };
                      handler = at_scanner;
                    });
                  })
                  else none)
                ≡ some q
              → q.over ≡ p.over
          of_test true h = ap (λ (x : Process A). x.over) (sym (some-injective _ q h))
          of_test false h = absurd (ground arith)
  calls-over p q i e h = changed-over p q i (callback e) (member p.members i) h

  exited-Cause :
      (p q : Process A) (i : ℕ) (may : Member A → Bool) (r : Option (Member A))
      → ((m : Member A) → may m ≡ true → Ending m)
      → member p.members i ≡ r
      → exited p may r ≡ some q
      → Cause q
  exited-Cause p q i may none why at h = absurd (ground arith)
  exited-Cause p q i may (some m) why at h = elim (Bool-cases (may m)) [
    | inl can ↦ subst Cause (some-injective _ q (rw can at h)) (i, m, at, why m can)
    | inr cannot ↦ absurd (ground (arith, rw cannot at h))
  ]

  live-Cause :
      (p q : Process A) (e : Event A)
      → p.over ≡ false
      → live e p ≡ some q
      → (q.over ≡ false) ⊎ Cause q
  live-Cause p q (runs i e) on h = of_kind (of_callback e) h
    where
      of_kind :
          (b : Bool)
          → (if b then none else changed p i (runs_on e) (member p.members i)) ≡ some q
          → (q.over ≡ false) ⊎ Cause q
      of_kind true h = absurd (ground arith)
      of_kind false h = inl (changed-over p q i (runs_on e) (member p.members i) h ∙ on)
  live-Cause p q (scans_again i entries) on h =
      inl (changed-over p q i (again entries) (member p.members i) h ∙ on)
  live-Cause p q (makes i) on h = inl (changed-over p q i first_made (member p.members i) h ∙ on)
  live-Cause p q arrives on h =
      inl (ap (λ (x : Process A). x.over) (sym (some-injective _ q h)) ∙ on)
  live-Cause p q (calls i e) on h = inl (calls-over p q i e h ∙ on)
  live-Cause p q (skips i) on h = inl (changed-over p q i skipped (member p.members i) h ∙ on)
  live-Cause p q (stops_no_scanner i) on h =
      inr (exited-Cause p q i callback_panics (member p.members i) (λ m can. inl (inr can)) refl h)
  live-Cause p q (goes_to_sleep i) on h = inl (changed-over p q i slept (member p.members i) h ∙ on)
  live-Cause p q (exits i) on h = inr (
      exited-Cause p q i (λ m. is_sleeping m.handler) (member p.members i)
        (λ m can. inl (inl (asleep m.handler can))) refl h)
  live-Cause p q (ends i) on h = inr (
      exited-Cause p q i (λ m. m.one_time && has_returned m.system.scan.pc) (member p.members i)
        (λ m can. inr (inl (ground arith))) refl h)
  live-Cause p q (panics i) on h =
      inr (exited-Cause p q i may_panic (member p.members i) (λ m can. inr (inr can)) refl h)

  over_stays :
      (es : List (Event A)) (p q : Process A)
      → p.over ≡ true
      → run es p ≡ some q
      → Cause p
      → Cause q
  unfolding run step
  over_stays [] p q over h c = subst Cause (some-injective p q h) c
  over_stays (e ∷ es) p q over h c = absurd (ground (arith, rw over at h))

  -- Nothing happens after the end, so that the cause is that of the last event.
  pub run-Cause :
      (es : List (Event A)) (p q : Process A)
      → p.over ≡ false
      → run es p ≡ some q
      → (q.over ≡ false) ⊎ Cause q
  unfolding run
  run-Cause [] p q on h = inl (ap (λ (x : Process A). x.over) (sym (some-injective p q h)) ∙ on)
  run-Cause (e ∷ es) p q on h =
      let (u, first, rest) = bound (step e p) (run es) q h in
      elim (live-Cause p u e on (step-live p u e first)) [
        | inl still ↦ run-Cause es u q still rest
        | inr c ↦ elim (Bool-cases u.over) [
          | inl over ↦ inr (over_stays es u q over rest c)
          | inr still ↦ run-Cause es u q still rest
        ]
      ]
