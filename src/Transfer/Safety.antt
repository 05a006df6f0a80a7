-- ===== src/Transfer/Safety.antt =====
-- The output file, the temporary file and the source during download of downloader/downloader.go.
use ugoku.Base.{
  ℕ, ◌≡◌, refl, ap, ◌∙◌, ◌⊎◌, inl, inr, Text, Bool, true, false, Option, none, some, List, [], ◌∷◌,
  ◌++◌, append-nil, append_assoc, take, drop, take-append-drop, arith, if◌then◌else◌,
}
use mathlib.Core.Path.{subst}
use mathlib.Core.Option.{some-injective}
use ugoku.Transfer.{
  Pc, opening, creating, copying, copied, checking, renaming, reporting, ended, Ret, succeeded,
  timed_out, Session, Event, opens, creates, reads, goes, expires, sees_timeout, sees_done,
  sees_stop, removes, begin, chunk, goroutine, select, after_return, main_thread, step, run,
}

-- What the goroutine has copied, by where it stands.
abbrev pub Copied : Text → Session → Pc → Type 0
Copied content s opening = s.rest ≡ content
Copied content s creating = s.rest ≡ content
Copied content s copying = (t : Text) × (s.temp ≡ some t) × (t ++ s.rest ≡ content)
Copied content s (copied false) = s.temp ≡ some content
Copied content s (copied true) = Unit {0}
Copied content s checking = (s.cancelled ≡ true) ⊎ (s.temp ≡ some content)
Copied content s renaming = s.temp ≡ some content
Copied content s (reporting true) = s.output ≡ some content
Copied content s (reporting false) = Unit {0}
Copied content s ended = Unit {0}

pub record Inv (content : Text) (old : Option Text) (s : Session) : Type 0 where
  pub progress : Copied content s s.pc
  pub output_whole : (s.output ≡ old) ⊎ (s.output ≡ some content)
  pub sent : s.done ≡ some true → s.output ≡ some content
  pub nil_returned : s.ret ≡ some succeeded → s.output ≡ some content
  pub source_kept : (s.source ≡ true) ⊎ (s.output ≡ some content)

module _ (content : Text) (old : Option Text) where
  chunk-Inv :
      (s : Session) (k : ℕ) (rest : Text) (temp : Option Text) (written : Text)
      → Inv content old s
      → s.pc ≡ copying
      → s.rest ≡ rest
      → s.temp ≡ temp
      → s.temp ≡ some written
      → written ++ s.rest ≡ content
      → Inv content old (chunk s k rest temp)
  chunk-Inv s k [] temp written v p r w has e =
      ground (arith, append-nil written, ap (◌++◌ written) r)
  chunk-Inv s k (c ∷ rest) none written v p r w has e = ground arith
  chunk-Inv s k (c ∷ rest) (some x) written v p r w has e = record {
    progress = rw p (
      x ++ c ∷ take k rest,
      refl,
      append_assoc x (c ∷ take k rest) (drop k rest)
          ∙ ap (λ (u : Text). x ++ c ∷ u) (take-append-drop k rest)
          ∙ ground (arith),
    );
    output_whole = v.output_whole;
    sent = v.sent;
    nil_returned = v.nil_returned;
    source_kept = v.source_kept;
  }

  reads-Inv :
      (s : Session) (k : ℕ) (done : Bool)
      → Inv content old s
      → s.pc ≡ copying
      → Inv content old (if done then record s { pc = copied true } else chunk s k s.rest s.temp)
  reads-Inv s k true v p = ground arith
  reads-Inv s k false v p =
      let (written, has, rest) = rw p at v.progress in
      chunk-Inv s k s.rest s.temp written v p refl refl has rest

  goroutine-Inv :
      (s t : Session) (pc : Pc) (e : Event)
      → s.pc ≡ pc
      → Inv content old s
      → goroutine s pc e ≡ some t
      → Inv content old t
  unfolding goroutine
  goroutine-Inv s t opening (opens true) p v h = ground arith
  goroutine-Inv s t opening (opens false) p v h = ground arith
  goroutine-Inv s t creating (creates true) p v h =
      subst (Inv content old) (some-injective _ _ h) (record {
        progress = ([], refl, rw p at v.progress);
        output_whole = v.output_whole;
        sent = v.sent;
        nil_returned = v.nil_returned;
        source_kept = v.source_kept;
      })
  goroutine-Inv s t copying (reads k) p v h =
      subst (Inv content old) (some-injective _ _ h) (reads-Inv s k s.ctx_done v p)
  goroutine-Inv s t (copied false) goes p v h = ground arith
  goroutine-Inv s t (copied true) goes p v h = ground arith
  goroutine-Inv s t pc e p v h = ground arith

  -- What `select` changes leaves the copy alone.
  Copied-returns :
      (s : Session) (pc : Pc) (exit : Bool) (channel : Option Bool) (r : Ret)
      → Copied content s pc
      → Copied content
          (record s { to_exit = exit; done = channel; ret = some r; ctx_done = true })
          pc
  Copied-returns s opening exit channel r c = c
  Copied-returns s (copied false) exit channel r c = c
  Copied-returns s (copied true) exit channel r c = c
  Copied-returns s (reporting false) exit channel r c = c
  Copied-returns s (reporting true) exit channel r c = c
  Copied-returns s pc exit channel r c = c

  Copied-cancels :
      (s : Session) (pc : Pc)
      → Copied content s pc
      → Copied content (record s { cancelled = true; ret = some timed_out; ctx_done = true }) pc
  Copied-cancels s checking c = inl refl
  Copied-cancels s (copied false) c = c
  Copied-cancels s (copied true) c = c
  Copied-cancels s (reporting false) c = c
  Copied-cancels s (reporting true) c = c
  Copied-cancels s pc c = c

  select-Inv :
      (stoppable : Bool) (s t : Session) (e : Event)
      → Inv content old s
      → select stoppable s e ≡ some t
      → Inv content old t
  unfolding select
  select-Inv stoppable s t sees_timeout v h = ground (arith, Copied-cancels s s.pc)
  select-Inv stoppable s t sees_done v h = ground (arith, Copied-returns s s.pc)
  select-Inv stoppable s t sees_stop v h = ground (arith, Copied-returns s s.pc)
  select-Inv stoppable s t e v h = cc

  after_return-Inv :
      (s t : Session) (r : Ret) (e : Event)
      → s.ret ≡ some r
      → Inv content old s
      → after_return s r e ≡ some t
      → Inv content old t
  unfolding after_return
  after_return-Inv s t succeeded (removes gone) q v h =
      subst (Inv content old) (some-injective _ _ h) (record {
        progress = same_copy s.pc v.progress;
        output_whole = v.output_whole;
        sent = v.sent;
        nil_returned = v.nil_returned;
        source_kept = inr (v.nil_returned q);
      })
    where
      same_copy :
          (pc : Pc)
          → Copied content s pc
          → Copied content (record s { source = if gone then false else s.source }) pc
      same_copy (copied false) c = c
      same_copy (copied true) c = c
      same_copy (reporting true) c = c
      same_copy (reporting false) c = c
      same_copy pc c = c
  after_return-Inv s t r e q v h = cc

  main-Inv :
      (stoppable : Bool) (s t : Session) (r : Option Ret) (e : Event)
      → s.ret ≡ r
      → Inv content old s
      → main_thread stoppable s r e ≡ some t
      → Inv content old t
  main-Inv stoppable s t none e q v h = select-Inv stoppable s t e v h
  main-Inv stoppable s t (some r) e q v h = after_return-Inv s t r e q v h

  expires-Inv : (s : Session) → Inv content old s → Inv content old (record s { ctx_done = true })
  expires-Inv s v = record {
    progress = same_copy s.pc v.progress;
    output_whole = v.output_whole;
    sent = v.sent;
    nil_returned = v.nil_returned;
    source_kept = v.source_kept;
  }
    where
      same_copy : (pc : Pc) → Copied content s pc → Copied content (record s { ctx_done = true }) pc
      same_copy (copied false) c = c
      same_copy (copied true) c = c
      same_copy (reporting true) c = c
      same_copy (reporting false) c = c
      same_copy pc c = c

  pub step-Inv :
      (stoppable : Bool) (s t : Session) (e : Event)
      → Inv content old s
      → step stoppable e s ≡ some t
      → Inv content old t
  unfolding step
  step-Inv stoppable s t expires v h =
      subst (Inv content old) (some-injective _ _ h) (expires-Inv s v)
  step-Inv stoppable s t sees_timeout v h = main-Inv stoppable s t s.ret sees_timeout refl v h
  step-Inv stoppable s t sees_done v h = main-Inv stoppable s t s.ret sees_done refl v h
  step-Inv stoppable s t sees_stop v h = main-Inv stoppable s t s.ret sees_stop refl v h
  step-Inv stoppable s t (removes b) v h = main-Inv stoppable s t s.ret (removes b) refl v h
  step-Inv stoppable s t e v h = goroutine-Inv s t s.pc e refl v h

  run-Inv :
      (stoppable : Bool) (es : List Event) (s t : Session)
      → Inv content old s
      → run stoppable es s ≡ some t
      → Inv content old t
  unfolding run
  run-Inv stoppable [] s t v h = subst (Inv content old) (some-injective _ _ h) v
  run-Inv stoppable (e ∷ es) s t v h = after (step stoppable e s) refl h (run-Inv stoppable es)
    where
      after :
          (r : Option Session)
          → step stoppable e s ≡ r
          → (elim r as (λ _. Option Session) [ none ↦ none | some u ↦ run stoppable es u ]) ≡ some t
          → ((u w : Session) → Inv content old u → run stoppable es u ≡ some w → Inv content old w)
          → Inv content old t
      after none q g ih = cc
      after (some u) q g ih = ih u t (step-Inv stoppable s u e v q) g

  pub begin-Inv : Inv content old (begin content old)
  begin-Inv = record {
    progress = refl;
    output_whole = inl refl;
    sent = λ x. cc;
    nil_returned = λ x. cc;
    source_kept = inl refl;
  }

  always :
      (stoppable : Bool) (es : List Event) (s : Session)
      → run stoppable es (begin content old) ≡ some s
      → Inv content old s
  always stoppable es s = run-Inv stoppable es (begin content old) s begin-Inv

-- In every interleaving of the goroutine, the select, the deadline, a stop signal and the removals that
-- follow: if download has returned nil, the output file holds the whole content of the source.
pub download_nil_complete :
    (content : Text) (old : Option Text) (stoppable : Bool) (es : List Event) (s : Session)
    → run stoppable es (begin content old) ≡ some s
    → s.ret ≡ some succeeded
    → s.output ≡ some content
download_nil_complete content old stoppable es s r =
    (always content old stoppable es s r).nil_returned

-- At every moment of every interleaving the output file is either as it was before the download or
-- whole, and the source is still there or the output file is whole: no cut-off, error or timeout
-- leaves a partial output file or loses the file.
pub download_no_loss :
    (content : Text) (old : Option Text) (stoppable : Bool) (es : List Event) (s : Session)
    → run stoppable es (begin content old) ≡ some s
    → ((s.output ≡ old) ⊎ (s.output ≡ some content))
      × ((s.source ≡ true) ⊎ (s.output ≡ some content))
download_no_loss content old stoppable es s r =
    let v = always content old stoppable es s r in (v.output_whole, v.source_kept)
