-- ===== src/Process/Ends.antt =====
-- When the process ends.
use ugoku.Base.{
  ℕ, ◌≡◌, ◌⊎◌, inl, inr, Bool-cases, sym, ◌∙◌, ap, true, false, some, List, arith, All,
}
use ugoku.Process.{
  Member, waits, sleeps, Process, Event, member, run, is_sleeping, has_returned, creates_remotely,
  divides_by_zero, may_panic, callback_panics, stops_nil,
}
use ugoku.Process.Quiet.{all_quiet, Lasts, member-All, run-All}
use ugoku.Process.Causes.{Ending, Cause, run-Cause}

-- A handler that waits has not seen a signal.
unsignalled :
    {A : Type 0} (m : Member A)
    → m.handler ≡ waits
    → (m.handler ≡ sleeps) ⊎ (callback_panics m ≡ true)
    → ⊥
unsignalled m waiting (inl sleeping) = ground (arith, ap is_sleeping (sym waiting ∙ sleeping))
unsignalled m waiting (inr nil) = elim (Bool-cases (stops_nil m.kind)) [
  | inl stops ↦ ground (arith, rw (stops, waiting) at nil)
  | inr tests ↦ ground (arith, rw tests at nil)
]

module _ {A : Type 0} where
  abbrev pub Waits : Member A → Type 0
  Waits m = m.handler ≡ waits

  Waits-Lasts : Lasts Waits
  Waits-Lasts = record { waiting = λ m is. is; stays = λ m s is. is; has_scanner = λ m is. is }

  -- Take a process that goes on, whose handlers all wait for the signal, and any run of it after which it
  -- has ended. Then the scan of one of its one-time transfers has returned; or one of its transfers is where
  -- a goroutine may panic; or a signal has come in the run, and a handler has finished its callback or is
  -- about to stop a scanner that may be nil, without a test.
  pub ends_so :
      (es : List (Event A)) (p q : Process A)
      → p.over ≡ false
      → All Waits p.members
      → run es p ≡ some q
      → q.over ≡ true
      → (i : ℕ) × (m : Member A) × (member q.members i ≡ some m)
        × (((all_quiet es ≡ false) × ((m.handler ≡ sleeps) ⊎ (callback_panics m ≡ true)))
            ⊎ ((m.one_time ≡ true) × (has_returned m.system.scan.pc ≡ true))
            ⊎ (may_panic m ≡ true))
  ends_so es p q on all h over = of_cause (run-Cause es p q on h)
    where
      End : Member A → Type 0
      End m =
          ((all_quiet es ≡ false) × ((m.handler ≡ sleeps) ⊎ (callback_panics m ≡ true)))
          ⊎ ((m.one_time ≡ true) × (has_returned m.system.scan.pc ≡ true))
          ⊎ (may_panic m ≡ true)

      signal_came :
          (i : ℕ) (m : Member A)
          → member q.members i ≡ some m
          → (m.handler ≡ sleeps) ⊎ (callback_panics m ≡ true)
          → all_quiet es ≡ false
      signal_came i m at signalled = elim (Bool-cases (all_quiet es)) [
        | inr came ↦ came
        | inl quiet ↦ absurd (
            unsignalled m
              (member-All Waits Waits-Lasts q.members i m at
                (run-All Waits Waits-Lasts es p q quiet all h))
              signalled)
      ]

      of_cause :
          (q.over ≡ false) ⊎ Cause q
          → (i : ℕ) × (m : Member A) × (member q.members i ≡ some m) × End m
      of_cause (inl still) = absurd (ground arith)
      of_cause (inr (i, m, at, inl signalled)) =
          (i, m, at, inl (signal_came i m at signalled, signalled))
      of_cause (inr (i, m, at, inr other)) = (i, m, at, inr other)

  -- A transfer in service mode whose handler has seen no signal, and whose workers cannot panic.
  abbrev pub Serves : Member A → Type 0
  Serves m =
      (m.one_time ≡ false)
      × (m.handler ≡ waits)
      × (m.bad_certificate ≡ false)
      × (creates_remotely m.kind ≡ false)
      × (divides_by_zero m ≡ false)

  may_panic_not : (m : Member A) → Serves m → may_panic m ≡ false
  may_panic_not m (_, _, good, reads, divides) = rw (good, reads, divides) (λ i. false)

  abbrev pub IsService : Process A → Type 0
  IsService p = All Serves p.members × (p.over ≡ false)

  Serves-Lasts : Lasts Serves
  Serves-Lasts = record { waiting = λ m is. is.1; stays = λ m s is. is; has_scanner = λ m is. is }

  no_ending : (m : Member A) → Serves m → Ending m → ⊥
  no_ending m is (inl signalled) = unsignalled m is.1 signalled
  no_ending m is (inr (inl (once, back))) = ground (arith, is.0)
  no_ending m is (inr (inr can)) = ground (arith, may_panic_not m is)

  -- A process whose transfers are downloaders and server syncers in service mode, with certificate files
  -- that hold a certificate, if any, and with a throughput for which CalculateTimeout does not divide by
  -- zero: as long as no signal comes it does not end, by os.Exit or by a panic of those that the code
  -- allows, whatever the transfers do and however their scans return.
  pub lives_without_signal :
      (es : List (Event A)) (p q : Process A)
      → IsService p
      → all_quiet es ≡ true
      → run es p ≡ some q
      → IsService q
  lives_without_signal es p q (all, on) quiet h =
      let later = run-All Serves Serves-Lasts es p q quiet all h in
      (
        later,
        elim (run-Cause es p q on h) [
          | inl on ↦ on
          | inr (i, m, at, why) ↦
              absurd (no_ending m (member-All Serves Serves-Lasts q.members i m at later) why)
        ],
      )
