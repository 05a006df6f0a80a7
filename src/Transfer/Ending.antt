-- ===== src/Transfer/Ending.antt =====
-- The steps of download of downloader/downloader.go, and its end.
use ugoku.Base.{
  ℕ, ◌+◌, ◌≤◌, ◌<◌, ◌≡◌, refl, ap, ◌≢◌, ◌⊎◌, inl, inr, Text, Bool, true, false, Option, none, some,
  List, [], ◌∷◌, length, length-drop, arith, Bool-cases, if◌then◌else◌,
}
use mathlib.Core.Path.{subst}
use mathlib.Core.Option.{some-injective}
use ugoku.Transfer.{
  Pc, opening, creating, copying, copied, checking, renaming, reporting, ended, Ret, succeeded,
  failed, Session, Event, opens, creates, renames, cleans, reads, goes, expires, sees_timeout,
  sees_done, sees_stop, removes, begin, chunk, goroutine, select, after_return, receive,
  main_thread, is_main, step, run,
}

-- The goroutine sends at most one value, at its end, and the value waits for the `select`.
abbrev Sends : Session → Pc → Type 0
Sends s ended = (s.done ≢ none) ⊎ (s.ret ≢ none)
Sends s pc = (s.done ≡ none) × (s.ret ≢ some succeeded) × (s.ret ≢ some failed)

abbrev rank : Pc → ℕ
rank opening = 8
rank creating = 7
rank copying = 6
rank (copied e) = 5
rank checking = 4
rank renaming = 3
rank (reporting r) = 2
rank ended = 0

-- The steps that are left to the goroutine, at most.
abbrev pub left : Session → ℕ
left s = rank s.pc + length s.rest

goroutine-Sends :
    (s t : Session) (pc : Pc) (e : Event)
    → s.pc ≡ pc
    → Sends s pc
    → goroutine s pc e ≡ some t
    → Sends t t.pc
unfolding goroutine
goroutine-Sends s t opening (opens true) p v h = ground arith
goroutine-Sends s t opening (opens false) p v h = ground arith
goroutine-Sends s t (reporting r) goes p v h = ground arith
goroutine-Sends s t copying (reads k) p v h = read s.rest s.temp refl (some-injective _ _ h)
  where
    read :
        (rest : Text) (temp : Option Text)
        → s.rest ≡ rest
        → (if s.ctx_done then record s { pc = copied true } else chunk s k rest temp) ≡ t
        → Sends t t.pc
    read [] temp r g = ground arith
    read (c ∷ rest) none r g = ground arith
    read (c ∷ rest) (some x) r g = ground arith
goroutine-Sends s t pc e p v h = ground arith

goroutine_descends :
    (s t : Session) (pc : Pc) (e : Event) → s.pc ≡ pc → goroutine s pc e ≡ some t → left t < left s
unfolding goroutine
goroutine_descends s t opening (opens true) p h = ground arith
goroutine_descends s t opening (opens false) p h = ground arith
goroutine_descends s t copying (reads k) p h = read s.rest s.temp refl (some-injective _ _ h)
  where
    read :
        (rest : Text) (temp : Option Text)
        → s.rest ≡ rest
        → (if s.ctx_done then record s { pc = copied true } else chunk s k rest temp) ≡ t
        → left t < left s
    read [] temp r g = ground (arith, ap length r)
    read (c ∷ rest) none r g = ground (arith, ap length r)
    read (c ∷ rest) (some x) r g = ground (arith, ap length r, length-drop k rest)
goroutine_descends s t pc e p h = ground arith

select-Sends :
    (stoppable : Bool) (s t : Session) (e : Event)
    → Sends s s.pc
    → select stoppable s e ≡ some t
    → Sends t t.pc
unfolding select
select-Sends stoppable s t sees_timeout v h = ground arith
select-Sends stoppable s t sees_done v h = ground arith
select-Sends stoppable s t sees_stop v h = ground arith
select-Sends stoppable s t e v h = cc

after_return-Sends :
    (s t : Session) (r : Ret) (e : Event)
    → Sends s s.pc
    → after_return s r e ≡ some t
    → Sends t t.pc
unfolding after_return
after_return-Sends s t succeeded (removes b) v h = ground arith
after_return-Sends s t r e v h = cc

main-Sends :
    (stoppable : Bool) (s t : Session) (r : Option Ret) (e : Event)
    → Sends s s.pc
    → main_thread stoppable s r e ≡ some t
    → Sends t t.pc
main-Sends stoppable s t none e v h = select-Sends stoppable s t e v h
main-Sends stoppable s t (some r) e v h = after_return-Sends s t r e v h

step-Sends :
    (stoppable : Bool) (s t : Session) (e : Event)
    → Sends s s.pc
    → step stoppable e s ≡ some t
    → Sends t t.pc
unfolding step
step-Sends stoppable s t expires v h = ground arith
step-Sends stoppable s t sees_timeout v h = main-Sends stoppable s t s.ret sees_timeout v h
step-Sends stoppable s t sees_done v h = main-Sends stoppable s t s.ret sees_done v h
step-Sends stoppable s t sees_stop v h = main-Sends stoppable s t s.ret sees_stop v h
step-Sends stoppable s t (removes b) v h = main-Sends stoppable s t s.ret (removes b) v h
step-Sends stoppable s t e v h = goroutine-Sends s t s.pc e refl v h

-- What `select` and the removals do leaves the goroutine where it is.
main_keeps :
    (stoppable : Bool) (s t : Session) (r : Option Ret) (e : Event)
    → main_thread stoppable s r e ≡ some t
    → left t ≡ left s
unfolding select after_return
main_keeps stoppable s t none sees_timeout h = ground arith
main_keeps stoppable s t none sees_done h = ground arith
main_keeps stoppable s t none sees_stop h = ground arith
main_keeps stoppable s t none e h = cc
main_keeps stoppable s t (some succeeded) (removes b) h = ground arith
main_keeps stoppable s t (some r) e h = cc

-- 1 for an event of the goroutine.
abbrev pub own : Event → ℕ
own expires = 0
own e = if is_main e then 0 else 1

abbrev pub own_steps : List Event → ℕ
own_steps [] = 0
own_steps (e ∷ es) = own e + own_steps es

step-left :
    (stoppable : Bool) (s t : Session) (e : Event)
    → step stoppable e s ≡ some t
    → own e + left t ≤ left s
unfolding step
step-left stoppable s t expires h = ground arith
step-left stoppable s t sees_timeout h =
    omega (arith, main_keeps stoppable s t s.ret sees_timeout h)
step-left stoppable s t sees_done h = omega (arith, main_keeps stoppable s t s.ret sees_done h)
step-left stoppable s t sees_stop h = omega (arith, main_keeps stoppable s t s.ret sees_stop h)
step-left stoppable s t (removes b) h = omega (arith, main_keeps stoppable s t s.ret (removes b) h)
step-left stoppable s t e h = omega (arith, goroutine_descends s t s.pc e refl h)

run_ends :
    (stoppable : Bool) (es : List Event) (s t : Session)
    → Sends s s.pc
    → run stoppable es s ≡ some t
    → Sends t t.pc × (own_steps es + left t ≤ left s)
unfolding run
run_ends stoppable [] s t v h =
    subst (λ (u : Session). Sends u u.pc × (0 + left u ≤ left s)) (some-injective _ _ h)
      (v, omega arith)
run_ends stoppable (e ∷ es) s t v h = after (step stoppable e s) refl h (run_ends stoppable es)
  where
    after :
        (r : Option Session)
        → step stoppable e s ≡ r
        → (elim r as (λ _. Option Session) [ none ↦ none | some u ↦ run stoppable es u ]) ≡ some t
        → ((u w : Session)
            → Sends u u.pc
            → run stoppable es u ≡ some w
            → Sends w w.pc × (own_steps es + left w ≤ left u))
        → Sends t t.pc × (own_steps (e ∷ es) + left t ≤ left s)
    after none q g ih = cc
    after (some u) q g ih =
        let (sends, bound) = ih u t (step-Sends stoppable s u e v q) g in
        (sends, omega (arith, step-left stoppable s u e q))

goroutine_moves :
    (s : Session) (pc : Pc)
    → s.pc ≡ pc
    → Sends s pc
    → pc ≢ ended
    → (e : Event) × (own e ≡ 1) × (goroutine s pc e ≢ none)
unfolding goroutine
goroutine_moves s opening p v n = (opens true, refl, ground arith)
goroutine_moves s creating p v n = (creates true, refl, ground arith)
goroutine_moves s copying p v n = (reads 0, refl, ground arith)
goroutine_moves s (copied x) p v n = (goes, refl, ground arith)
goroutine_moves s checking p v n = elim (Bool-cases s.cancelled) [
  | inl c ↦ (cleans true, refl, ground arith)
  | inr c ↦ (goes, refl, ground arith)
]
goroutine_moves s renaming p v n = (renames, refl, ground arith)
goroutine_moves s (reporting r) p v n = (goes, refl, ground arith)
goroutine_moves s ended p v n = absurd (n refl)

receives : (s : Session) (channel : Option Bool) → channel ≢ none → receive s channel ≢ none
receives s none n = absurd (n refl)
receives s (some true) n = λ x. cc
receives s (some false) n = λ x. cc

ended_or_not : (pc : Pc) → (pc ≡ ended) ⊎ (pc ≢ ended)
ended_or_not ended = inl refl
ended_or_not opening = inr (λ e. cc)
ended_or_not creating = inr (λ e. cc)
ended_or_not copying = inr (λ e. cc)
ended_or_not (copied b) = inr (λ e. cc)
ended_or_not checking = inr (λ e. cc)
ended_or_not renaming = inr (λ e. cc)
ended_or_not (reporting b) = inr (λ e. cc)

-- In every interleaving: the goroutine of a download takes at most 8 steps and one for each byte of
-- the source; and either one of its steps is possible, so that its send never blocks, also when
-- download has returned, or it has ended, and then download has returned or can return with the value
-- that it sent.
pub download_ends :
    (content : Text) (old : Option Text) (stoppable : Bool) (es : List Event) (s : Session)
    → run stoppable es (begin content old) ≡ some s
    → (own_steps es ≤ 8 + length content)
      × (((e : Event) × (own e ≡ 1) × (goroutine s s.pc e ≢ none))
          ⊎ ((s.pc ≡ ended) × ((s.ret ≢ none) ⊎ (select stoppable s sees_done ≢ none))))
unfolding select
download_ends content old stoppable es s r =
    let (sends, bound) = run_ends stoppable es (begin content old) s (refl, λ x. cc, λ x. cc) r in
    (
      omega arith,
      elim (ended_or_not s.pc) [
        | inl p ↦ inr (p, at_end (rw p at sends))
        | inr n ↦ inl (goroutine_moves s s.pc refl sends n)
      ],
    )
  where
    at_end : Sends s ended → (s.ret ≢ none) ⊎ (receive s s.done ≢ none)
    at_end (inl sent) = inr (receives s s.done sent)
    at_end (inr back) = inl back
