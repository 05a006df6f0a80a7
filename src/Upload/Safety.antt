-- ===== src/Upload/Safety.antt =====
-- The remote file and the source during upload of uploader/uploader.go.
use mathlib.Core.Path.{subst}
use mathlib.Core.Option.{some-injective}
use ugoku.Base.{
  ℕ, ◌≡◌, refl, sym, ap, ◌∙◌, ◌⊎◌, inl, inr, Text, Bool, true, false, Option, none, some, List, [],
  ◌∷◌, ◌++◌, append-nil, append_assoc, take, drop, take-append-drop, arith, Bool-cases,
  if◌then◌else◌,
}
use ugoku.Upload.{
  Pc, making_folder, opening, creating, copying, copied, checking, reporting, ended, Ret, succeeded,
  timed_out, failed, cancelled_by_stop, Session, Event, makes_folder, opens, creates, reads, goes,
  expires, sees_timeout, sees_done, sees_stop, removes, begin, chunk, goroutine, select,
  after_return, main_thread, live, has_crashed, step, run,
}

-- What the goroutine has copied, by where it stands.
abbrev pub Copied : Text → Session → Pc → Type 0
Copied content s making_folder = s.rest ≡ content
Copied content s opening = s.rest ≡ content
Copied content s creating = s.rest ≡ content
Copied content s copying = (t : Text) × (s.target ≡ some t) × (t ++ s.rest ≡ content)
Copied content s (copied false) = s.target ≡ some content
Copied content s checking = s.target ≡ some content
Copied content s (reporting true) = s.target ≡ some content
Copied content s pc = Unit {0}

pub record Inv (content : Text) (s : Session) : Type 0 where
  pub progress : Copied content s s.pc
  pub never_cancelled : s.cancelled ≡ false
  pub sent : s.done ≡ some true → (s.pc ≡ ended) × (s.target ≡ some content)
  pub nil_returned : s.ret ≡ some succeeded → (s.pc ≡ ended) × (s.target ≡ some content)
  pub source_kept : (s.source ≡ true) ⊎ ((s.pc ≡ ended) × (s.target ≡ some content))

module _ (content : Text) where
  chunk-Inv :
      (s : Session) (k : ℕ) (rest : Text) (target : Option Text) (written : Text)
      → Inv content s
      → s.pc ≡ copying
      → s.rest ≡ rest
      → s.target ≡ target
      → s.target ≡ some written
      → written ++ s.rest ≡ content
      → Inv content (chunk s k rest target)
  chunk-Inv s k [] target written v p r w has e =
      ground (arith, append-nil written, ap (◌++◌ written) r)
  chunk-Inv s k (c ∷ rest) none written v p r w has e = ground arith
  chunk-Inv s k (c ∷ rest) (some x) written v p r w has e = record {
    progress = rw p (
      x ++ c ∷ take k rest,
      refl,
      append_assoc x (c ∷ take k rest) (drop k rest)
          ∙ ap (λ (u : Text). x ++ c ∷ u) (take-append-drop k rest)
          ∙ ground (arith),
    );
    never_cancelled = v.never_cancelled;
    sent = λ d. not_at_end (v.sent d);
    nil_returned = λ d. not_at_end (v.nil_returned d);
    source_kept = ground arith;
  }
    where
      apart : copying ≡ ended → ⊥
      apart q = cc

      not_at_end :
          {B : Type 0}
          → (s.pc ≡ ended) × B
          → (s.pc ≡ ended) × (some (x ++ c ∷ take k rest) ≡ some content)
      not_at_end (q, b) = absurd (apart (sym p ∙ q))

  reads-Inv :
      (s : Session) (k : ℕ) (done : Bool)
      → Inv content s
      → s.pc ≡ copying
      → Inv content (if done then record s { pc = copied true } else chunk s k s.rest s.target)
  reads-Inv s k true v p = ground arith
  reads-Inv s k false v p =
      let (written, has, rest) = rw p at v.progress in
      chunk-Inv s k s.rest s.target written v p refl refl has rest

  goroutine-Inv :
      (s t : Session) (pc : Pc) (e : Event)
      → s.pc ≡ pc
      → Inv content s
      → goroutine s pc e ≡ some t
      → Inv content t
  unfolding goroutine
  goroutine-Inv s t making_folder (makes_folder true) p v h = ground arith
  goroutine-Inv s t making_folder (makes_folder false) p v h = ground arith
  goroutine-Inv s t opening (opens true) p v h = ground arith
  goroutine-Inv s t opening (opens false) p v h = ground arith
  goroutine-Inv s t creating (creates true) p v h =
      subst (Inv content) (some-injective _ _ h) (record {
        progress = ([], refl, rw p at v.progress);
        never_cancelled = v.never_cancelled;
        sent = λ d. not_at_end (v.sent d);
        nil_returned = λ d. not_at_end (v.nil_returned d);
        source_kept = ground arith;
      })
    where
      apart : creating ≡ ended → ⊥
      apart q = cc

      not_at_end :
          {B : Type 0}
          → (s.pc ≡ ended) × B
          → (copying ≡ ended) × (◌≡◌ {A = Option Text} (some []) (some content))
      not_at_end (q, b) = absurd (apart (sym p ∙ q))
  goroutine-Inv s t creating (creates false) p v h = ground arith
  goroutine-Inv s t copying (reads k) p v h =
      subst (Inv content) (some-injective _ _ h) (reads-Inv s k s.ctx_done v p)
  goroutine-Inv s t (copied false) goes p v h = ground arith
  goroutine-Inv s t (copied true) goes p v h = ground arith
  goroutine-Inv s t pc e p v h = ground arith

  -- What the main thread changes leaves the copy alone.
  Copied_main :
      (s : Session) (pc : Pc) (exit source : Bool) (channel : Option Bool) (r : Option Ret)
      (ctx : Bool)
      → Copied content s pc
      → Copied content
          (record s { to_exit = exit; done = channel; ret = r; ctx_done = ctx; source = source })
          pc
  Copied_main s (copied false) exit source channel r ctx c = c
  Copied_main s (copied true) exit source channel r ctx c = c
  Copied_main s (reporting false) exit source channel r ctx c = c
  Copied_main s (reporting true) exit source channel r ctx c = c
  Copied_main s pc exit source channel r ctx c = c

  main-Inv :
      (s t : Session) (r : Option Ret) (e : Event)
      → s.ret ≡ r
      → Inv content s
      → main_thread s r e ≡ some t
      → Inv content t
  unfolding select after_return
  main-Inv s t none sees_timeout q v h =
      ground (arith, Copied_main s s.pc s.to_exit s.source s.done (some timed_out) true)
  main-Inv s t none sees_done q v h = ground (
    arith,
    Copied_main s s.pc s.to_exit s.source none (some succeeded) true,
    Copied_main s s.pc s.to_exit s.source none (some failed) true,
  )
  main-Inv s t none sees_stop q v h =
      ground (arith, Copied_main s s.pc true s.source s.done (some cancelled_by_stop) true)
  main-Inv s t none e q v h = cc
  main-Inv s t (some succeeded) (removes gone) q v h = ground (
    arith,
    Copied_main s s.pc s.to_exit false s.done s.ret s.ctx_done,
    Copied_main s s.pc s.to_exit s.source s.done s.ret s.ctx_done,
  )
  main-Inv s t (some r) e q v h = cc

  live-Inv : (s t : Session) (e : Event) → Inv content s → live s e ≡ some t → Inv content t
  live-Inv s t expires v h = ground (arith, Copied_main s s.pc s.to_exit s.source s.done s.ret true)
  live-Inv s t sees_timeout v h = main-Inv s t s.ret sees_timeout refl v h
  live-Inv s t sees_done v h = main-Inv s t s.ret sees_done refl v h
  live-Inv s t sees_stop v h = main-Inv s t s.ret sees_stop refl v h
  live-Inv s t (removes b) v h = main-Inv s t s.ret (removes b) refl v h
  live-Inv s t e v h = goroutine-Inv s t s.pc e refl v h

  pub step-Inv : (s t : Session) (e : Event) → Inv content s → step e s ≡ some t → Inv content t
  unfolding step
  step-Inv s t e v h = elim (Bool-cases (has_crashed s.pc)) [
    | inl dead ↦ cc (rw dead at h)
    | inr alive ↦ live-Inv s t e v (rw alive at h)
  ]

  run-Inv : (es : List Event) (s t : Session) → Inv content s → run es s ≡ some t → Inv content t
  unfolding run
  run-Inv [] s t v h = subst (Inv content) (some-injective _ _ h) v
  run-Inv (e ∷ es) s t v h = after (step e s) refl h (run-Inv es)
    where
      after :
          (r : Option Session)
          → step e s ≡ r
          → (elim r as (λ _. Option Session) [ none ↦ none | some u ↦ run es u ]) ≡ some t
          → ((u w : Session) → Inv content u → run es u ≡ some w → Inv content w)
          → Inv content t
      after none q g ih = cc
      after (some u) q g ih = ih u t (step-Inv s u e v q) g

  pub begin-Inv : (old : Option Text) → Inv content (begin content old)
  begin-Inv old = record {
    progress = refl;
    never_cancelled = refl;
    sent = λ x. cc;
    nil_returned = λ x. cc;
    source_kept = inl refl;
  }

  always :
      (old : Option Text) (es : List Event) (s : Session)
      → run es (begin content old) ≡ some s
      → Inv content s
  always old es s = run-Inv es (begin content old) s (begin-Inv old)

-- In every interleaving: if upload has returned nil, the remote file holds the whole content of the
-- local one.
pub upload_nil_complete :
    (content : Text) (old : Option Text) (es : List Event) (s : Session)
    → run es (begin content old) ≡ some s
    → s.ret ≡ some succeeded
    → s.target ≡ some content
upload_nil_complete content old es s r q = ((always content old es s r).nil_returned q).1

-- At every moment of every interleaving the local file is still there or the remote file is whole.
pub upload_no_loss :
    (content : Text) (old : Option Text) (es : List Event) (s : Session)
    → run es (begin content old) ≡ some s
    → (s.source ≡ true) ⊎ (s.target ≡ some content)
upload_no_loss content old es s r = kept (always content old es s r).source_kept
  where
    kept :
        (s.source ≡ true) ⊎ ((s.pc ≡ ended) × (s.target ≡ some content))
        → (s.source ≡ true) ⊎ (s.target ≡ some content)
    kept (inl a) = inl a
    kept (inr b) = inr b.1

-- Whenever the context of an upload is done while its goroutine copies, as after a timeout, the next
-- read ends the copy and the uploader is told to exit, since nothing has set `cancelled`.
pub upload_timeout_exits :
    (content : Text) (old : Option Text) (es : List Event) (s t : Session) (k : ℕ)
    → run es (begin content old) ≡ some s
    → s.pc ≡ copying
    → s.ctx_done ≡ true
    → run (reads k ∷ goes ∷ []) s ≡ some t
    → (t.to_exit ≡ true) × (t.pc ≡ reporting false) × (t.target ≡ s.target)
unfolding run step goroutine
upload_timeout_exits content old es s t k r p d h =
    let n = (always content old es s r).never_cancelled in ground arith
