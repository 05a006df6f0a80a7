-- ===== src/Tests/Sessions.antt =====
-- A download of three bytes.
use ugoku.Base.{◌≡◌, refl, ◌≢◌, ◌⊎◌, ◌+◌, ◌≤◌, Text, true, false, none, some, List, [], ◌∷◌, length}
use ugoku.Transfer.{
  Session, Event, ended, succeeded, opens, creates, reads, goes, renames, sees_done, removes, begin,
  goroutine, select, after_return, step, run,
}
use ugoku.Transfer.Safety.{download_no_loss}
use ugoku.Transfer.Ending.{own, own_steps, download_ends}

abbrev content : Text
content = 1 ∷ 2 ∷ 3 ∷ []

abbrev events : List Event
events =
    opens true
    ∷ creates true
    ∷ reads 1
    ∷ reads 5
    ∷ reads 0
    ∷ goes
    ∷ goes
    ∷ renames
    ∷ goes
    ∷ sees_done
    ∷ removes true
    ∷ []

abbrev final : Session
final = record {
  pc = ended;
  rest = [];
  temp = none;
  output = some content;
  ctx_done = true;
  cancelled = false;
  to_exit = false;
  done = none;
  ret = some succeeded;
  source = false;
}

reaches : run true events (begin content none) ≡ some final
unfolding run step goroutine select after_return
reaches = refl

download_no_loss_example :
    ((final.output ≡ none) ⊎ (final.output ≡ some content))
    × ((final.source ≡ true) ⊎ (final.output ≡ some content))
download_no_loss_example = download_no_loss content none true events final reaches

download_ends_example :
    (own_steps events ≤ 8 + length content)
    × (((e : Event) × (own e ≡ 1) × (goroutine final final.pc e ≢ none))
        ⊎ ((final.pc ≡ ended) × ((final.ret ≢ none) ⊎ (select true final sees_done ≢ none))))
download_ends_example = download_ends content none true events final reaches
