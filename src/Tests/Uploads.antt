-- ===== src/Tests/Uploads.antt =====
-- An upload of three bytes, and one that times out after the first byte.
use ugoku.Base.{◌≡◌, refl, ◌⊎◌, Text, true, false, none, some, List, [], ◌∷◌}
use ugoku.Upload.{
  Session, Event, ended, copying, reporting, succeeded, timed_out, makes_folder, opens, creates,
  reads, goes, expires, sees_timeout, sees_done, removes, begin, goroutine, select, after_return,
  step, run,
}
use ugoku.Upload.Safety.{upload_no_loss}

abbrev content : Text
content = 1 ∷ 2 ∷ 3 ∷ []

abbrev events : List Event
events =
    makes_folder true
    ∷ opens true
    ∷ creates true
    ∷ reads 5
    ∷ reads 0
    ∷ goes
    ∷ goes
    ∷ goes
    ∷ sees_done
    ∷ removes true
    ∷ []

abbrev final : Session
final = record {
  pc = ended;
  rest = [];
  target = some content;
  ctx_done = true;
  cancelled = false;
  to_exit = false;
  done = none;
  ret = some succeeded;
  source = false;
}

reaches : run events (begin content none) ≡ some final
unfolding run step goroutine select after_return
reaches = refl

upload_no_loss_example : (final.source ≡ true) ⊎ (final.target ≡ some content)
upload_no_loss_example = upload_no_loss content none events final reaches

abbrev late_events : List Event
late_events = makes_folder true ∷ opens true ∷ creates true ∷ reads 0 ∷ expires ∷ sees_timeout ∷ []

abbrev late : Session
late = record {
  pc = copying;
  rest = 2 ∷ 3 ∷ [];
  target = some (1 ∷ []);
  ctx_done = true;
  cancelled = false;
  to_exit = false;
  done = none;
  ret = some timed_out;
  source = true;
}

abbrev given_up : Session
given_up = record late { pc = reporting false; to_exit = true }

is_late : run late_events (begin content none) ≡ some late
unfolding run step goroutine select after_return
is_late = refl

gives_up : run (reads 4 ∷ goes ∷ []) late ≡ some given_up
unfolding run step goroutine select after_return
gives_up = refl
