-- ===== src/Scanner/Sleeps.antt =====
-- How long scan of downloader/sftp-scanner.go sleeps.
use ugoku.Base.{
  ℕ, ◌≤◌, ◌*◌, ◌≡◌, refl, ℤ, pos, negsuc, ◌≤ℤ◌, wrap64_pos, ltb, Bool, true, false, not, List, [],
  ◌∷◌, All, if◌then◌else◌, arith,
}
use ugoku.Scanner.{init_default, next_sleep_time, Round, scan, start}

-- A sleep is between one second and 30 seconds, or the default if that is more.
abbrev pub InRange : ℕ → ℤ → Type 0
InRange d t = (pos 1 ≤ℤ t) × (t ≤ℤ pos (if ltb d 30 then 30 else d))

abbrev Between : ℕ → ℕ → Type 0
Between d n = (1 ≤ n) × (n ≤ (if ltb d 30 then 30 else d))

next-Between :
    (d n : ℕ) (found : Bool)
    → 1 ≤ d
    → Between d n
    → (m : ℕ) × (next_sleep_time (pos d) found (pos n) ≡ pos m) × Between d m
unfolding next_sleep_time
next-Between d n true p h = (d, refl, (p, ground arith))
next-Between d n false p (lo, hi) = (
  if ltb n 16 then n * 2 else n,
  ground (arith, wrap64_pos (n * 2)),
  (ground arith, ground arith),
)

Between-InRange : (d m : ℕ) → Between d m → InRange d (pos m)
Between-InRange d m (lo, hi) = (omega arith, omega arith)

scan-InRange :
    (d n : ℕ) (one_time : Bool) (rounds : List Round)
    → 1 ≤ d
    → Between d n
    → All (InRange d) (scan (pos d) one_time rounds (pos n))
unfolding scan
scan-InRange d n one_time [] p h = tt
scan-InRange d n one_time (r ∷ rs) p h =
    let (m, e, b) = next-Between d n r.files_found p h in
    step _ _ r.started one_time r.still_started (rw e (Between-InRange d m b))
      (rw e (scan-InRange d m one_time rs p b))
  where
    step :
        (t : ℤ) (rest : List ℤ) (a b c : Bool)
        → InRange d t
        → All (InRange d) rest
        → All
            (InRange d)
            (if not a then [] else if b then pos 1 ∷ [] else if c then t ∷ rest else rest)
    step t rest false b c x xs = tt
    step t rest true true c x xs = ((omega arith, ground arith), tt)
    step t rest true false true x xs = (x, xs)
    step t rest true false false x xs = xs

-- A scanner whose default, with 1 for a default that is not positive, is d sleeps at least a second
-- and at most the larger of 30 seconds and d, whatever its scans find.
pub start-InRange :
    (default_sleep_time : ℤ) (one_time : Bool) (rounds : List Round) (d : ℕ)
    → init_default default_sleep_time ≡ pos d
    → All (InRange d) (start default_sleep_time one_time rounds)
unfolding start init_default
start-InRange default_sleep_time one_time rounds d e = rw e (
    scan-InRange d d one_time rounds (positive default_sleep_time d e)
      (positive default_sleep_time d e, ground arith))
  where
    positive : (t : ℤ) (d : ℕ) → init_default t ≡ pos d → 1 ≤ d
    positive (pos n) d e = ground arith
    positive (negsuc n) d e = ground arith
