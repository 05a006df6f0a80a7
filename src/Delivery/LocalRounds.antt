-- ===== src/Delivery/LocalRounds.antt =====
-- A local syncer from the first file of a scan to the last.
use ugoku.Base.{
  ℕ, ◌*◌, ◌<◌, ◌≡◌, ◌⊎◌, inl, inr, refl, sym, ap, ◌∙◌, Bool, true, false, Text, ℤ, Option, none,
  some, List, [], ◌∷◌, arith, All, if◌then◌else◌,
}
use mathlib.Core.Path.{subst}
use mathlib.Core.Option.{some-injective}
use ugoku.Services.{FileInfo}
use ugoku.Dispatch.{Entry, begin}
use ugoku.Dispatch
use ugoku.Dispatch.Counts.{weight, files_of}
use ugoku.System.Held.{held}
use ugoku.Copying.{
  Copy, Pc, returned, making_folder, opening, creating, copying, crashed, has_returned,
}
use ugoku.Copying
use ugoku.Copying.Safety.{Copied, IsCopied, begin-IsCopied, step-IsCopied}
use ugoku.Syncer.{differs}
use ugoku.Syncer.Server.{info_of}
use ugoku.Syncer.Local.{
  LocalRound, Stage, deciding, uploading, updating, over, stats, copies, returns, updates, answer,
  decide, copied, in_upload, back, mark, step,
}
use ugoku.Syncer.Local
use ugoku.Delivery
use ugoku.Delivery.{Job, Delivery, files, run}
use ugoku.Delivery.Jobs.{Keeps, Closed}
use ugoku.Delivery.Methods.{Synced, local_rounds, is_finished}
use ugoku.Delivery.Complete.{delivery_complete}

-- The copy on the server as the round found it.
abbrev Untouched : Synced → LocalRound → Type 0
Untouched a r = (r.copy ≡ Copying.begin a.content a.old) × (r.modified ≡ a.modified)

-- The copy on the server did not differ.
abbrev pub Same : Synced → Type 0
Same a = differs a.stat (info_of a.old a.modified) ≡ false

abbrev Returned : Synced → LocalRound → Type 0
Returned a r = IsCopied a.content r.copy × (has_returned r.copy.pc ≡ true)

abbrev Stands : Synced → LocalRound → Stage → Type 0
Stands a r deciding = Untouched a r
Stands a r uploading = IsCopied a.content r.copy
Stands a r updating = Returned a r
Stands a r over = (Untouched a r × Same a) ⊎ Returned a r

abbrev Holds : Synced → LocalRound → Type 0
Holds a r = Stands a r r.stage

decide-Holds :
    (a : Synced) (answers : Bool) (r u : LocalRound) (stage : Stage)
    → Stands a r stage
    → decide a.stat answers r stage ≡ some u
    → Holds a u
decide-Holds a answers r u deciding (same_copy, same_time) h = of_answer answers refl h
  where
    of_test :
        (o : Option FileInfo) (b : Bool)
        → differs a.stat o ≡ b
        → (b ≡ false → Same a)
        → some (record r { stage = if b then uploading else over }) ≡ some u
        → Holds a u
    of_test o true g same h =
        subst (Holds a) (some-injective _ u h)
          (subst (IsCopied a.content) (sym same_copy) (begin-IsCopied a.content a.old))
    of_test o false g same h =
        subst (Holds a) (some-injective _ u h) (inl ((same_copy, same_time), same refl))

    of_answer : (b : Bool) → answers ≡ b → decide a.stat b r deciding ≡ some u → Holds a u
    of_answer true e h =
        let seen : info_of r.copy.target r.modified ≡ info_of a.old a.modified =
          λ i. info_of (same_copy i).target (same_time i) in
        of_test (info_of r.copy.target r.modified)
          (differs a.stat (info_of r.copy.target r.modified)) refl
          (λ g. ap (differs a.stat) (sym seen) ∙ g) h
    of_answer false e h = of_test none true refl (λ g. absurd (ground (arith, g))) h
decide-Holds a answers r u stage v h = absurd (ground arith)

copied-Holds :
    (a : Synced) (e : Copying.Event) (t : ℤ) (r u : LocalRound) (s : Option Copy)
    → Copying.step false e r.copy ≡ s
    → r.stage ≡ uploading
    → IsCopied a.content r.copy
    → copied e t r s ≡ some u
    → Holds a u
copied-Holds a e t r u none g st v h = absurd (ground arith)
copied-Holds a e t r u (some c) g st v h =
    subst (Holds a) (some-injective _ u h) (rw st (step-IsCopied a.content false r.copy c e v g))

copies-Holds :
    (a : Synced) (e : Copying.Event) (t : ℤ) (r u : LocalRound) (stage : Stage)
    → r.stage ≡ stage
    → Stands a r stage
    → (if in_upload stage then copied e t r (Copying.step false e r.copy) else none) ≡ some u
    → Holds a u
copies-Holds a e t r u uploading st v h =
    copied-Holds a e t r u (Copying.step false e r.copy) refl st v h
copies-Holds a e t r u stage st v h = absurd (ground arith)

back-Holds :
    (a : Synced) (r u : LocalRound) (stage : Stage) (b : Bool)
    → has_returned r.copy.pc ≡ b
    → Stands a r stage
    → back r stage b ≡ some u
    → Holds a u
back-Holds a r u uploading true g v h = subst (Holds a) (some-injective _ u h) (v, g)
back-Holds a r u stage b g v h = absurd (ground arith)

mark-Holds :
    (a : Synced) (works : Bool) (r u : LocalRound) (stage : Stage) (target : Option Text)
    → Stands a r stage
    → mark a.stat works r stage target ≡ some u
    → Holds a u
mark-Holds a true r u updating (some x) v h = subst (Holds a) (some-injective _ u h) (inr v)
mark-Holds a false r u updating target v h = subst (Holds a) (some-injective _ u h) (inr v)
mark-Holds a works r u stage target v h = absurd (ground arith)

step-Holds :
    (a : Synced) (e : Local.Event) (r u : LocalRound)
    → Holds a r
    → step a.stat e r ≡ some u
    → Holds a u
unfolding step
step-Holds a (stats b) r u v h = decide-Holds a b r u r.stage v h
step-Holds a (copies e t) r u v h = copies-Holds a e t r u r.stage refl v h
step-Holds a returns r u v h = back-Holds a r u r.stage (has_returned r.copy.pc) refl v h
step-Holds a (updates b) r u v h = mark-Holds a b r u r.stage r.copy.target v h

local_rounds-Keeps : Keeps local_rounds Holds
local_rounds-Keeps = record {
  begins = λ a. (refl, refl);
  goes = λ a e r u v h. step-Holds a e r u v h;
  lasts = λ a e r u aside back h. absurd (ground (arith, aside));
}

-- The copy on the server is whole; or it did not differ and is as it was; or `upload` has failed.
abbrev pub Outcome : Job Synced LocalRound → Type 0
Outcome job =
    let c = job.state.copy in
    ((c.target ≡ job.file.old) × Same job.file)
    ⊎ ((c.target ≡ some job.file.content) ⊎ (c.pc ≡ returned false))

Closed-Outcome :
    (jobs : List (Job Synced LocalRound)) → All (Closed local_rounds Holds) jobs → All Outcome jobs
Closed-Outcome [] all = tt
Closed-Outcome (job ∷ jobs) ((v, back), all) =
    (of_stage job.state.stage v back, Closed-Outcome jobs all)
  where
    of_pc :
        (pc : Pc)
        → job.state.copy.pc ≡ pc
        → Copied job.file.content job.state.copy pc
        → has_returned pc ≡ true
        → (job.state.copy.target ≡ some job.file.content) ⊎ (job.state.copy.pc ≡ returned false)
    of_pc (returned true) e v back = inl v
    of_pc (returned false) e v back = inr e
    of_pc pc e v back = absurd (ground arith)

    of_stage :
        (stage : Stage) → Stands job.file job.state stage → is_finished stage ≡ true → Outcome job
    of_stage over (inl ((same_copy, _), same)) done =
        inl (ap (λ (c : Copy). c.target) same_copy, same)
    of_stage over (inr (v, back)) done = inr (of_pc job.state.copy.pc refl v back)
    of_stage stage v done = absurd (ground arith)

-- A local syncer with n > 0 workers, in either mode. Take the dispatch of the files that a pass of the
-- watcher sends (the new and changed ones), and a scan of them that begins over empty channels while
-- no worker has a file and no round was made before, as the first one does, and any run after it, in
-- which workers connect, fail, exit and are replaced, and in which any call of a round can fail. If
-- the scan returns without having been stopped and without an error of the walk, then there has been a
-- round, to its end, for the files that the pass sent, each as often as it sent it (all weights
-- agree). Each copy on the server is whole, or did not differ in size or time and is as it was, or its
-- upload has failed.
pub local_rounds_complete :
    (one_time : Bool) (n : ℕ) (entries : List (Entry Synced))
    (es : List (Delivery.Event Local.Event)) (d t : Delivery local_rounds) (b : Bool)
    → 0 < n
    → d.system.scan ≡ begin entries 0 [] [] 0
    → held d.system.workers ≡ []
    → d.past ≡ []
    → run local_rounds one_time (n * 2) es d ≡ some t
    → t.system.scan.pc ≡ Dispatch.returned b
    → t.system.scan.started ≡ true
    → ((f : Synced → ℕ) → weight f (files local_rounds t.past) ≡ weight f (files_of entries))
      × All Outcome t.past
local_rounds_complete one_time n entries es d t b room fresh free nothing r at on =
    let (counts, closed) =
      delivery_complete local_rounds Holds local_rounds-Keeps one_time n entries es d t b room fresh
        free nothing r at on in
    (counts, Closed-Outcome t.past closed)
