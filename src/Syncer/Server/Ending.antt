-- ===== src/Syncer/Server/Ending.antt =====
-- A round of the worker of syncer/server-syncer.go can always go on to its end.
use ugoku.Base.{
  ℤ, pos, ◌≡◌, ◌≢◌, refl, sym, ap, ◌∙◌, ◌⊎◌, inl, inr, Text, true, false, Option, none, some, List,
  ◌+◌, length, arith, Option-cases, ◌≤◌,
}
use ugoku.Services.{FileInfo}
use ugoku.Transfer.{
  Session, Ret, begin, is_main, removes, expires, sees_done, sees_timeout, sees_stop, opens,
  creates, rename_fails, cleans, reads, read_fails, write_fails, renames, goes, goroutine, select,
}
use ugoku.Transfer
use ugoku.Transfer.Ending.{own, own_steps, download_ends}
use ugoku.Syncer.Server.{
  Stage, deciding, downloading, updating, over, Round, Event, stats, transfers, returns, updates,
  begin_round, can_step, transferred, step, run,
}
use ugoku.Syncer.Server.Rounds.{parts, run-parts}

-- A step of the goroutine is one of the round while it is in `download`.
mine_allowed :
    (e : Transfer.Event) (s : Session)
    → own e ≡ 1
    → (can_step e downloading ≡ true) × (Transfer.step false e s ≡ goroutine s s.pc e)
unfolding Transfer.step
mine_allowed expires s h = absurd (ground arith)
mine_allowed sees_timeout s h = absurd (ground arith)
mine_allowed sees_done s h = absurd (ground arith)
mine_allowed sees_stop s h = absurd (ground arith)
mine_allowed (removes b) s h = absurd (ground arith)
mine_allowed e s h = (refl, refl)

transferred_some :
    (e : Transfer.Event) (t : ℤ) (r : Round) (s : Option Session)
    → s ≢ none
    → transferred e t r s ≢ none
transferred_some e t r none n = absurd (n refl)
transferred_some e t r (some s) n = λ x. cc

CanGo : FileInfo → Round → Type 0
CanGo stat r = (e : Event) × (step stat e r ≢ none)

transfer_goes :
    (stat : FileInfo) (r : Round) (e : Transfer.Event)
    → r.stage ≡ downloading
    → can_step e downloading ≡ true
    → Transfer.step false e r.session ≢ none
    → CanGo stat r
unfolding CanGo step
transfer_goes stat r e at can moves = (
  transfers e (pos 0),
  rw (ap (can_step e) at ∙ can)
      (transferred_some e (pos 0) r (Transfer.step false e r.session) moves),
)

-- While `download` has not returned.
download_goes :
    (stat : FileInfo) (r : Round)
    → r.stage ≡ downloading
    → r.session.ret ≡ none
    → ((e : Transfer.Event) × (own e ≡ 1) × (goroutine r.session r.session.pc e ≢ none))
      ⊎ ((r.session.pc ≡ Transfer.ended)
          × ((r.session.ret ≢ none) ⊎ (select false r.session sees_done ≢ none)))
    → CanGo stat r
unfolding Transfer.step
download_goes stat r at waits (inl (e, mine, moves)) =
    let (can, same) = mine_allowed e r.session mine in
    transfer_goes stat r e at can (λ x. moves (sym same ∙ x))
download_goes stat r at waits (inr (ends, inl back)) = absurd (back waits)
download_goes stat r at waits (inr (ends, inr moves)) =
    transfer_goes stat r sees_done at refl (λ x. moves (sym (rw waits refl) ∙ x))

-- In a round that has not come to its end, something can always happen next, whatever happened before;
-- and the goroutine of its download has taken at most 8 steps and one for each byte on the server.
pub server_round_goes_on :
    (content : Text) (old : Option Text) (modified : ℤ) (stat : FileInfo) (es : List Event)
    (r : Round)
    → run stat es (begin_round content old modified) ≡ some r
    → r.stage ≢ over
    → (own_steps (parts es) ≤ 8 + length content) × (e : Event) × (step stat e r ≢ none)
unfolding CanGo step
server_round_goes_on content old modified stat es r h n =
    let (few, moves) =
      download_ends content old false (parts es) r.session
        (run-parts stat es (begin_round content old modified) r h) in
    let (e, moved) = of_stage r.stage refl moves in (few, e, moved)
  where
    of_stage :
        (at : Stage)
        → r.stage ≡ at
        → ((e : Transfer.Event) × (own e ≡ 1) × (goroutine r.session r.session.pc e ≢ none))
          ⊎ ((r.session.pc ≡ Transfer.ended)
              × ((r.session.ret ≢ none) ⊎ (select false r.session sees_done ≢ none)))
        → (e : Event) × (step stat e r ≢ none)
    of_stage deciding at moves = (stats false, ground arith)
    of_stage updating at moves = (updates false, ground arith)
    of_stage over at moves = absurd (n at)
    of_stage downloading at moves = elim (Option-cases r.session.ret) [
      | inl waits ↦ download_goes stat r at waits moves
      | inr (ret, back) ↦ (returns, ground arith)
    ]
