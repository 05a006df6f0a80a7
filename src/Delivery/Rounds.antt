-- ===== src/Delivery/Rounds.antt =====
-- A server syncer from the first file of a scan to the last.
use ugoku.Base.{
  ℕ, ◌*◌, ◌<◌, ◌≡◌, ◌⊎◌, inl, inr, refl, sym, ap, ◌∙◌, Bool, true, false, Text, ℤ, Option, none,
  some, List, [], ◌∷◌, arith, All, Bool-cases,
}
use mathlib.Core.Path.{subst}
use ugoku.Dispatch.{Entry, begin}
use ugoku.Dispatch
use ugoku.Dispatch.Counts.{weight, files_of}
use ugoku.System.Held.{held}
use ugoku.Transfer.{Session, Ret, is_main, removes, succeeded}
use ugoku.Transfer
use ugoku.Transfer.Safety
use ugoku.Transfer.Safety.{begin-Inv, step-Inv}
use ugoku.Syncer.Server.{
  Round, Event, stats, transfers, returns, updates, step, can_step, transferred,
}
use ugoku.Delivery
use ugoku.Delivery.{Job, Delivery, files, run}
use ugoku.Delivery.Jobs.{Keeps, Closed}
use ugoku.Delivery.Methods.{Synced, rounds, is_over, of_worker}
use ugoku.Delivery.Complete.{delivery_complete}

-- A step of the download, or one that leaves its session alone.
abbrev Moves : Round → Round → Type 0
Moves r u =
    ((e : Transfer.Event) × (Transfer.step false e r.session ≡ some u.session))
    ⊎ (r.session ≡ u.session)

transferred-Moves :
    (e : Transfer.Event) (t : ℤ) (r u : Round) (s : Option Session)
    → Transfer.step false e r.session ≡ s
    → transferred e t r s ≡ some u
    → Moves r u × (r.stage ≡ u.stage)
transferred-Moves e t r u none g h = absurd (ground arith)
transferred-Moves e t r u (some s) g h = (inl (e, g ∙ ap some (ground arith)), ground arith)

step-Moves : (a : Synced) (e : Event) (r u : Round) → step a.stat e r ≡ some u → Moves r u
unfolding step
step-Moves a (stats b) r u h = inr (ground arith)
step-Moves a (transfers e t) r u h = elim (Bool-cases (can_step e r.stage)) [
  | inl can ↦ (transferred-Moves e t r u (Transfer.step false e r.session) refl (rw can at h)).0
  | inr cannot ↦ absurd (ground (arith, rw cannot at h))
]
step-Moves a returns r u h = inr (ground arith)
step-Moves a (updates b) r u h = inr (ground arith)

-- Only the download itself goes on after a round.
step-is_over :
    (a : Synced) (e : Event) (r u : Round)
    → of_worker e ≡ false
    → is_over r.stage ≡ true
    → step a.stat e r ≡ some u
    → is_over u.stage ≡ true
unfolding step
step-is_over a (stats b) r u m v h = absurd (ground arith)
step-is_over a (transfers e t) r u m v h = elim (Bool-cases (can_step e r.stage)) [
  | inl can ↦
      ap is_over
        (sym (transferred-Moves e t r u (Transfer.step false e r.session) refl (rw can at h)).1)
      ∙ v
  | inr cannot ↦ absurd (ground (arith, rw cannot at h))
]
step-is_over a returns r u m v h = absurd (ground arith)
step-is_over a (updates b) r u m v h = absurd (ground arith)

abbrev Holds : Synced → Round → Type 0
Holds a r = Safety.Inv a.content a.old r.session

moved-Holds : (a : Synced) (r u : Round) → Moves r u → Holds a r → Holds a u
moved-Holds a r u (inl (e, moves)) v = step-Inv a.content a.old false r.session u.session e v moves
moved-Holds a r u (inr same) v = subst (Safety.Inv a.content a.old) same v

rounds-Keeps : Keeps rounds Holds
rounds-Keeps = record {
  begins = λ a. begin-Inv a.content a.old;
  goes = λ a e r u v h. moved-Holds a r u (step-Moves a e r u h) v;
  lasts = λ a e r u aside back h. step-is_over a e r u aside back h;
}

-- The round is over, and the local copy is as it was or whole; whole, if `download` returned nil.
abbrev pub Nil : Text → Session → Option Ret → Type 0
Nil content s (some succeeded) = s.output ≡ some content
Nil content s r = Unit {0}

abbrev pub Outcome : Job Synced Round → Type 0
Outcome job =
    let s = job.state.session in
    (is_over job.state.stage ≡ true)
    × ((s.output ≡ job.file.old) ⊎ (s.output ≡ some job.file.content))
    × Nil job.file.content s s.ret

Closed-Outcome :
    (jobs : List (Job Synced Round)) → All (Closed rounds Holds) jobs → All Outcome jobs
Closed-Outcome [] all = tt
Closed-Outcome (job ∷ jobs) ((inv, back), all) =
    ((back, inv.output_whole, of_ret job.state.session.ret refl), Closed-Outcome jobs all)
  where
    of_ret : (r : Option Ret) → job.state.session.ret ≡ r → Nil job.file.content job.state.session r
    of_ret (some succeeded) e = inv.nil_returned e
    of_ret r e = tt

-- A server syncer with n > 0 workers, in either mode. Take a scan_once that begins over empty channels
-- while no worker has a file and no round was made before, as the first one does, and any run after
-- it, in which workers connect, fail, exit and are replaced, and in which any call of a round can fail
-- or run out of time. If scan_once returns without having been stopped and without an error of the
-- walk, then there has been a round, to its end, for the files of the walk, each as often as the walk
-- gave it (all weights agree). Each local copy is as it was or whole, and whole where `download`
-- returned nil, whatever the calls that returned left running.
pub rounds_complete :
    (one_time : Bool) (n : ℕ) (entries : List (Entry Synced)) (es : List (Delivery.Event Event))
    (d t : Delivery rounds) (b : Bool)
    → 0 < n
    → d.system.scan ≡ begin entries 0 [] [] 0
    → held d.system.workers ≡ []
    → d.past ≡ []
    → run rounds one_time (n * 2) es d ≡ some t
    → t.system.scan.pc ≡ Dispatch.returned b
    → t.system.scan.started ≡ true
    → ((f : Synced → ℕ) → weight f (files rounds t.past) ≡ weight f (files_of entries))
      × All Outcome t.past
rounds_complete one_time n entries es d t b room fresh free nothing r at on =
    let (counts, closed) =
      delivery_complete rounds Holds rounds-Keeps one_time n entries es d t b room fresh free
        nothing r at on in
    (counts, Closed-Outcome t.past closed)
