-- ===== src/Delivery/Streams.antt =====
-- A streamer from the first file of a scan to the last.
use ugoku.Base.{ℕ, ◌*◌, ◌<◌, ◌≡◌, Bool, true, false, some, List, [], ◌∷◌, arith, All}
use ugoku.Dispatch.{Entry, begin}
use ugoku.Dispatch
use ugoku.Dispatch.Counts.{weight, files_of}
use ugoku.System.Held.{held}
use ugoku.Copying.{
  Copy, Pc, returned, making_folder, opening, creating, copying, crashed, has_returned,
}
use ugoku.Copying
use ugoku.Copying.Safety.{Copied, IsCopied, begin-IsCopied, step-IsCopied}
use ugoku.Delivery
use ugoku.Delivery.{Job, Delivery, files, run}
use ugoku.Delivery.Jobs.{Keeps, Closed}
use ugoku.Delivery.Methods.{Transferred, streams}
use ugoku.Delivery.Complete.{delivery_complete}

streams-Keeps : Keeps streams (λ a s. IsCopied a.content s)
streams-Keeps = record {
  begins = λ a. begin-IsCopied a.content a.old;
  goes = λ a e s t v h. step-IsCopied a.content true s t e v h;
  lasts = λ a e s t aside back h. absurd (ground (arith, aside));
}

-- What a call of `stream` left, by what it returned.
abbrev pub Left : Transferred → Copy → Pc → Type 0
Left a s (returned true) = s.target ≡ some a.content
Left a s (returned false) = s.source ≡ true
Left a s pc = ⊥

abbrev pub Outcome : Job Transferred Copy → Type 0
Outcome job = Left job.file job.state job.state.pc

Closed-Outcome :
    (jobs : List (Job Transferred Copy))
    → All (Closed streams (λ a s. IsCopied a.content s)) jobs
    → All Outcome jobs
Closed-Outcome [] all = tt
Closed-Outcome (job ∷ jobs) ((v, back), all) = (of_pc job.state.pc v back, Closed-Outcome jobs all)
  where
    of_pc :
        (pc : Pc)
        → Copied job.file.content job.state pc
        → has_returned pc ≡ true
        → Left job.file job.state pc
    of_pc (returned true) v back = v
    of_pc (returned false) v back = v
    of_pc pc v back = absurd (ground arith)

-- A streamer with n > 0 workers, in either mode. Take a scan_once that begins over empty channels
-- while no worker has a file and no call has returned before, as the first one does, and any run after
-- it, in which workers connect, fail, exit and are replaced, and in which any call of a stream can
-- fail. If scan_once returns without having been stopped and without an error of the walk, then
-- `stream` has been called and has returned for the files of the walk, each as often as the walk gave
-- it (all weights agree). Where it returned true, the file on the target server is whole; where it
-- returned false, the source is still there.
pub streams_complete :
    (one_time : Bool) (n : ℕ) (entries : List (Entry Transferred))
    (es : List (Delivery.Event Copying.Event)) (d t : Delivery streams) (b : Bool)
    → 0 < n
    → d.system.scan ≡ begin entries 0 [] [] 0
    → held d.system.workers ≡ []
    → d.past ≡ []
    → run streams one_time (n * 2) es d ≡ some t
    → t.system.scan.pc ≡ Dispatch.returned b
    → t.system.scan.started ≡ true
    → ((f : Transferred → ℕ) → weight f (files streams t.past) ≡ weight f (files_of entries))
      × All Outcome t.past
streams_complete one_time n entries es d t b room fresh free nothing r at on =
    let (counts, closed) =
      delivery_complete streams (λ a s. IsCopied a.content s) streams-Keeps one_time n entries es d
        t b room fresh free nothing r at on in
    (counts, Closed-Outcome t.past closed)
