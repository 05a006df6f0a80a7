-- ===== src/Delivery/Unblocked.antt =====
-- The calls of a downloader and of a server syncer are never blocked.
use ugoku.Base.{
  ◌*◌, ◌<◌, ◌≡◌, ◌≢◌, ◌⊎◌, inl, inr, refl, sym, ap, ◌∙◌, Bool, true, false, Option, none, some,
  List, [], ◌∷◌, ◌++◌, length, arith, bound,
}
use mathlib.Core.Option.{some-injective}
use ugoku.Dispatch.{Entry, begin}
use ugoku.Dispatch.Progress.{HasReturned}
use ugoku.System.Held.{held}
use ugoku.System.Calm.{IsCalm}
use ugoku.Transfer.{
  Session, sees_done, sees_timeout, sees_stop, expires, removes, select, goroutine, is_main,
}
use ugoku.Transfer
use ugoku.Transfer.Ending.{own, download_ends}
use ugoku.Delivery
use ugoku.Delivery.{Delivery, step, run}
use ugoku.Delivery.Jobs.{Keeps}
use ugoku.Delivery.Methods.{Transferred, downloads, has_value}
use ugoku.Delivery.Downloads.{step-has_value}
use ugoku.Delivery.Progress.{Advances, moves, all_calm_events, delivery_goes_on}

-- What the calls made of a file, from the begin on.
abbrev Reached : Transferred → Session → Type 0
Reached a s =
    (es : List Transfer.Event) × (Transfer.run true es (Transfer.begin a.content a.old) ≡ some s)

one_later :
    (es : List Transfer.Event) (e : Transfer.Event) (s t u : Session)
    → Transfer.run true es s ≡ some t
    → Transfer.step true e t ≡ some u
    → Transfer.run true (es ++ e ∷ []) s ≡ some u
unfolding Transfer.run
one_later [] e s t u r h =
    rw (Transfer.run, ap (Transfer.step true e) (some-injective s t r) ∙ h) refl
one_later (d ∷ es) e s t u r h =
    let (v, first, rest) = bound (Transfer.step true d s) (Transfer.run true es) t r in
    rw (Transfer.run, first) (one_later es e v t u rest h)

downloads-Keeps : Keeps downloads Reached
unfolding Transfer.run
downloads-Keeps = record {
  begins = λ a. ([], refl);
  goes =
      λ a e s t (es, r) h. (es ++ e ∷ [], one_later es e (Transfer.begin a.content a.old) s t r h);
  lasts = λ a e s t mine back h. step-has_value e s t mine back h;
}

-- A step of the goroutine is one of the session.
own_steps_too :
    (e : Transfer.Event) (s : Session) → own e ≡ 1 → Transfer.step true e s ≡ goroutine s s.pc e
unfolding Transfer.step
own_steps_too expires s h = absurd (ground arith)
own_steps_too sees_timeout s h = absurd (ground arith)
own_steps_too sees_done s h = absurd (ground arith)
own_steps_too sees_stop s h = absurd (ground arith)
own_steps_too (removes b) s h = absurd (ground arith)
own_steps_too e s h = refl

-- A step of the goroutine of a download, or the receive from `done` in its select. The deadline, its
-- branch of the select, the stop channel and the removal after the return are left out.
abbrev pub progress : Transfer.Event → Bool
progress expires = false
progress sees_timeout = false
progress sees_stop = false
progress (removes b) = false
progress e = true

own-progress : (e : Transfer.Event) → own e ≡ 1 → progress e ≡ true
own-progress expires h = absurd (ground arith)
own-progress sees_timeout h = absurd (ground arith)
own-progress sees_done h = refl
own-progress sees_stop h = absurd (ground arith)
own-progress (removes b) h = absurd (ground arith)
own-progress e h = refl

-- The call of `download` can go on while it has not returned.
call_goes :
    (s : Session)
    → s.ret ≡ none
    → ((e : Transfer.Event) × (own e ≡ 1) × (goroutine s s.pc e ≢ none))
      ⊎ ((s.pc ≡ Transfer.ended) × ((s.ret ≢ none) ⊎ (select true s sees_done ≢ none)))
    → (e : Transfer.Event) × (progress e ≡ true) × (Transfer.step true e s ≢ none)
unfolding Transfer.step
call_goes s waits (inl (e, mine, moves)) =
    (e, own-progress e mine, λ x. moves (sym (own_steps_too e s mine) ∙ x))
call_goes s waits (inr (ends, inl back)) = absurd (back waits)
call_goes s waits (inr (ends, inr moves)) = (sees_done, refl, λ x. moves (sym (rw waits refl) ∙ x))

downloads-Advances : Advances downloads Reached progress
downloads-Advances = record {
  advances = λ a s (es, r) on.
      call_goes s (not_back s.ret on) (download_ends a.content a.old true es s r).1;
}
  where
    not_back : (r : Option Transfer.Ret) → has_value r ≡ false → r ≡ none
    not_back none on = refl
    not_back (some r) on = absurd (ground arith)

-- A downloader with n > 0 workers, in either mode, with the goroutines that its downloads start. Take a
-- scan_once that begins over empty channels while no worker has a file or is told to exit, no call has
-- returned before and no signal has come, and any run after it in which no worker fails to connect or is
-- told to exit and no signal comes; its downloads may fail or run out of time. Unless scan_once has
-- returned, the scanner, a worker or a manager can make such a step, or the download that a worker is in
-- can: a step of its goroutine, or the receive of what it sent. The passing of a deadline and what
-- earlier downloads left running are not needed for it, so that these never all wait for each other.
pub downloads_go_on :
    (one_time : Bool) (entries : List (Entry Transferred))
    (es : List (Delivery.Event Transfer.Event)) (d t : Delivery downloads)
    → 0 < length d.system.workers
    → IsCalm d.system
    → d.system.scan ≡ begin entries 0 [] [] 0
    → held d.system.workers ≡ []
    → d.past ≡ []
    → all_calm_events es ≡ true
    → run downloads one_time (length d.system.workers * 2) es d ≡ some t
    → HasReturned t.system.scan.pc
      ⊎ ((e : Delivery.Event Transfer.Event) × (moves progress e ≡ true)
          × (step downloads one_time (length d.system.workers * 2) e t ≢ none))
downloads_go_on = delivery_goes_on downloads Reached progress downloads-Advances downloads-Keeps
