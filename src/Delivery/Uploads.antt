-- ===== src/Delivery/Uploads.antt =====
-- An uploader from the first file of a scan to the last.
use ugoku.Base.{
  ℕ, ◌*◌, ◌<◌, ◌≡◌, inl, inr, refl, sym, ap, ◌∙◌, Bool, true, false, Option, none, some, List, [],
  ◌∷◌, arith, All, Bool-cases,
}
use mathlib.Core.Path.{subst}
use ugoku.Dispatch.{Entry, begin, returned}
use ugoku.Dispatch.Counts.{weight, files_of}
use ugoku.System.Held.{held}
use ugoku.Upload.{
  Pc, making_folder, opening, creating, copying, copied, checking, reporting, Session, Ret,
  succeeded, timed_out, failed, cancelled_by_stop, Event, makes_folder, opens, creates, reads,
  read_fails, write_fails, goes, expires, sees_timeout, sees_done, sees_stop, removes, step,
  goroutine, select, after_return, is_main, live, has_crashed,
}
use ugoku.Upload.Safety
use ugoku.Upload.Safety.{begin-Inv, step-Inv}
use ugoku.Delivery
use ugoku.Delivery.{Job, Delivery, files, run}
use ugoku.Delivery.Jobs.{Keeps, Closed}
use ugoku.Delivery.Methods.{Transferred, uploads, has_value}
use ugoku.Delivery.Complete.{delivery_complete}

-- Only an upload that returned nil is followed by the removal of its source.
abbrev Spared : Option Ret → Bool → Type 0
Spared (some succeeded) b = Unit {0}
Spared r b = b ≡ true

-- The goroutine leaves alone what `upload` returned, and the source.
goroutine_keeps :
    (s t : Session) (pc : Pc) (e : Event)
    → goroutine s pc e ≡ some t
    → (s.ret ≡ t.ret) × (s.source ≡ t.source)
unfolding goroutine
goroutine_keeps s t making_folder (makes_folder true) h = ground arith
goroutine_keeps s t making_folder (makes_folder false) h = ground arith
goroutine_keeps s t opening (opens true) h = ground arith
goroutine_keeps s t opening (opens false) h = ground arith
goroutine_keeps s t creating (creates true) h = ground arith
goroutine_keeps s t creating (creates false) h = ground arith
goroutine_keeps s t copying (reads k) h = ground arith
goroutine_keeps s t copying read_fails h = ground arith
goroutine_keeps s t copying write_fails h = ground arith
goroutine_keeps s t (copied error) goes h = ground arith
goroutine_keeps s t checking goes h = ground arith
goroutine_keeps s t (reporting result) goes h = ground arith
goroutine_keeps s t pc e h = cc

live-Spared :
    (e : Event) (s t : Session) → Spared s.ret s.source → live s e ≡ some t → Spared t.ret t.source
unfolding select after_return
live-Spared expires s t v h = ground arith
live-Spared sees_timeout s t v h = ground arith
live-Spared sees_done s t v h = ground arith
live-Spared sees_stop s t v h = ground arith
live-Spared (removes b) s t v h = ground arith
live-Spared e s t v h =
    let (same_ret, same_source) = goroutine_keeps s t s.pc e h in
    subst (λ r. Spared r t.source) same_ret (subst (Spared s.ret) same_source v)

live-has_value :
    (e : Event) (s t : Session)
    → is_main e ≡ false
    → has_value s.ret ≡ true
    → live s e ≡ some t
    → has_value t.ret ≡ true
live-has_value expires s t m v h = ground arith
live-has_value sees_timeout s t m v h = absurd (ground arith)
live-has_value sees_done s t m v h = absurd (ground arith)
live-has_value sees_stop s t m v h = absurd (ground arith)
live-has_value (removes b) s t m v h = absurd (ground arith)
live-has_value e s t m v h =
    let (same_ret, _) = goroutine_keeps s t s.pc e h in ap has_value (sym same_ret) ∙ v

step-live : (e : Event) (s t : Session) → step e s ≡ some t → live s e ≡ some t
unfolding step
step-live e s t h = elim (Bool-cases (has_crashed s.pc)) [
  | inl dead ↦ absurd (ground (arith, rw dead at h))
  | inr alive ↦ rw alive at h
]

abbrev Holds : Transferred → Session → Type 0
Holds a s = Safety.Inv a.content s × Spared s.ret s.source

uploads-Keeps : Keeps uploads Holds
uploads-Keeps = record {
  begins = λ a. (begin-Inv a.content a.old, refl);
  goes = λ a e s t v h. (step-Inv a.content s t e v.0 h, live-Spared e s t v.1 (step-live e s t h));
  lasts = λ a e s t mine back h. live-has_value e s t mine back (step-live e s t h);
}

-- What a call of `upload` left, by what it returned.
abbrev pub Left : Transferred → Session → Option Ret → Type 0
Left a s none = ⊥
Left a s (some succeeded) = s.target ≡ some a.content
Left a s (some r) = s.source ≡ true

abbrev pub Outcome : Job Transferred Session → Type 0
Outcome job = Left job.file job.state job.state.ret

Closed-Outcome :
    (jobs : List (Job Transferred Session)) → All (Closed uploads Holds) jobs → All Outcome jobs
Closed-Outcome [] all = tt
Closed-Outcome (job ∷ jobs) (((inv, spared), back), all) =
    (of_ret job.state.ret refl spared back, Closed-Outcome jobs all)
  where
    of_ret :
        (r : Option Ret)
        → job.state.ret ≡ r
        → Spared r job.state.source
        → has_value r ≡ true
        → Left job.file job.state r
    of_ret none e spared back = absurd (ground arith)
    of_ret (some succeeded) e spared back = (inv.nil_returned e).1
    of_ret (some timed_out) e spared back = spared
    of_ret (some failed) e spared back = spared
    of_ret (some cancelled_by_stop) e spared back = spared

-- An uploader with n > 0 workers, in either mode. Take a scan that begins over empty channels while no
-- worker has a file and no call has returned before, as the first one does, and any run after it, in
-- which workers connect, fail, exit and are replaced, and in which any call of an upload can fail or
-- run out of time. If the scan returns without having been stopped and without an error of the walk,
-- then `upload` has been called and has returned for the files of the walk, each as often as the walk
-- gave it (all weights agree). Where it returned nil, the file on the server is whole; where it
-- returned an error, the local file is still there. This is so whatever the calls that returned left
-- running.
pub uploads_complete :
    (one_time : Bool) (n : ℕ) (entries : List (Entry Transferred))
    (es : List (Delivery.Event Event)) (d t : Delivery uploads) (b : Bool)
    → 0 < n
    → d.system.scan ≡ begin entries 0 [] [] 0
    → held d.system.workers ≡ []
    → d.past ≡ []
    → run uploads one_time (n * 2) es d ≡ some t
    → t.system.scan.pc ≡ returned b
    → t.system.scan.started ≡ true
    → ((f : Transferred → ℕ) → weight f (files uploads t.past) ≡ weight f (files_of entries))
      × All Outcome t.past
uploads_complete one_time n entries es d t b room fresh free nothing r at on =
    let (counts, closed) =
      delivery_complete uploads Holds uploads-Keeps one_time n entries es d t b room fresh free
        nothing r at on in
    (counts, Closed-Outcome t.past closed)
