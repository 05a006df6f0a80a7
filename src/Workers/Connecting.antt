-- ===== src/Workers/Connecting.antt =====
-- The connection loops of init in downloader/downloader.go and streamer/streamer.go.
use ugoku.Base.{
  ℕ, zero, suc, ◌+◌, ◌≡◌, refl, sym, ap, ◌∙◌, ℤ, pos, Text, true, false, some, Result, ok, err,
  panic, arith,
}
use ugoku.Sleepytime.{Sleepytime, reset, get_next_sleep}
use ugoku.Sleepytime.Backoff.{calls, sleep_at}
use ugoku.Config.{DownloaderConfig, StreamerConfig}
use ugoku.Workers.{
  Attempt, connected, refused, crashed, connect_loop, after_attempt, Worker, StreamWorker,
  init_streamer, init_downloader, connect_and_get_clients, with_clients, with_source, with_target,
  connect_both, stop_streamer, stop_and_sleep,
}

module _ {S : Type 0} (attempt : S → Attempt S) (failed : ℤ → S → S) (sleepy : Sleepytime) where
  -- The first n attempts fail, with the sleeps of `sleepy` between them, and lead from one state to
  -- the other.
  pub data Failures (s : S) : ℕ → S → Type 0 where
    no_failure : Failures s 0 s
    one_more :
        {n : ℕ} {t u : S}
        → Failures s n t
        → attempt t ≡ refused u
        → Failures s (suc n) (failed (sleep_at n sleepy) u)

  -- With n + k units of fuel, the loop is after n failures where it is with k units at the state they
  -- lead to.
  loop_after :
      {s t : S} {n : ℕ} (k : ℕ)
      → Failures s n t
      → connect_loop attempt failed (n + k) sleepy s
        ≡ connect_loop attempt failed k (calls n sleepy) t
  unfolding connect_loop calls
  loop_after {s} k no_failure = ap (λ m. connect_loop attempt failed m sleepy s) (omega arith)
  loop_after {s} k (one_more {n} {t} {u} before e) =
      ap (λ m. connect_loop attempt failed m sleepy s) (omega arith)
      ∙ loop_after (suc k) before
      ∙ rw (connect_loop, e) refl

  -- If n attempts fail, each but the last followed by the next after a round whose sleep is the next
  -- value of GetNextSleep, and the attempt after them succeeds, then with more than n units of fuel the
  -- loop ends with the state of that success.
  pub connect_loop-first_success :
      {s t u : S} (n k : ℕ)
      → Failures s n t
      → attempt t ≡ connected u
      → connect_loop attempt failed (n + suc k) sleepy s ≡ some (connected u)
  unfolding connect_loop
  connect_loop-first_success n k before e = loop_after (suc k) before ∙ rw (connect_loop, e) refl

module _ {S : Type 0} (attempt : S → Attempt S) (failed : ℤ → S → S) where
  -- What holds of the result of a loop of which each failed round establishes P.
  pub connect_loop-inv {ℓ} :
      (P : S → Type ℓ)
      → ((s u : S) → P s → attempt s ≡ refused u → (t : ℤ) → P (failed t u))
      → (fuel : ℕ) (z : Sleepytime) (s u : S) → P s
      → connect_loop attempt failed fuel z s ≡ some (connected u)
      → (v : S) × P v × (attempt v ≡ connected u)
  unfolding connect_loop
  connect_loop-inv P keep zero z s u h e = cc
  connect_loop-inv P keep (suc fuel) z s u h e =
      of_attempt (connect_loop-inv P keep fuel (get_next_sleep z).0) (attempt s) refl e
    where
      of_attempt :
          ((v w : S)
            → P v
            → connect_loop attempt failed fuel (get_next_sleep z).0 v ≡ some (connected w)
            → (x : S) × P x × (attempt x ≡ connected w))
          → (r : Attempt S) → attempt s ≡ r
          → after_attempt attempt failed
              (connect_loop attempt failed fuel (get_next_sleep z).0)
              (get_next_sleep z).1
              r
            ≡ some (connected u)
          → (v : S) × P v × (attempt v ≡ connected u)
      of_attempt ih (connected v) a x = (s, h, cc)
      of_attempt ih (refused v) a x = ih (failed (get_next_sleep z).1 v) u (keep s v h a _) x
      of_attempt ih crashed a x = cc

  connect_loop-retries :
      (fuel : ℕ) (z : Sleepytime) (s u : S)
      → attempt s ≡ refused u
      → connect_loop attempt failed (suc fuel) z s
        ≡ connect_loop attempt failed fuel (get_next_sleep z).0 (failed (get_next_sleep z).1 u)
  unfolding connect_loop
  connect_loop-retries fuel z s u e = rw (connect_loop, e) refl

module _ {W SshClient SftpClient : Type 0}
    (connect_sftp_server : Text
      → ℤ
      → Text
      → Text
      → Text
      → Text
      → W
      → Result (SshClient × SftpClient) × W)
    (close_ssh : SshClient → W → W) (close_sftp : SftpClient → W → W) (sleep : ℤ → W → W) where
  abbrev pub Ready : Worker SshClient SftpClient → Type 0
  Ready d =
      (d.started ≡ false)
      × (d.to_exit ≡ false)
      × ((c : SshClient) × (d.ssh_client ≡ some c))
      × ((c : SftpClient) × (d.sftp_client ≡ some c))

  pub refused_same :
      (d d' : Worker SshClient SftpClient) (w' : W) (r : Result (SshClient × SftpClient) × W)
      → with_clients connect_sftp_server close_ssh close_sftp sleep d r ≡ refused (d', w')
      → d' ≡ d
  refused_same d d' w' (ok (x, y), v) e = cc
  refused_same d d' w' (err x, v) e = cc
  refused_same d d' w' (panic, v) e = cc

  pub connected_Ready :
      (d d' : Worker SshClient SftpClient) (w' : W) (r : Result (SshClient × SftpClient) × W)
      → (d.started ≡ false) × (d.to_exit ≡ false)
      → with_clients connect_sftp_server close_ssh close_sftp sleep d r ≡ connected (d', w')
      → Ready d'
  connected_Ready d d' w' (ok (x, y), v) h e =
      let (a, b) = h in (ground arith, ground arith, (x, ground arith), (y, ground arith))
  connected_Ready d d' w' (err x, v) h e = cc
  connected_Ready d d' w' (panic, v) h e = cc

  -- If init of a downloader returns, however many attempts failed before, then the worker has both
  -- clients, `started` is false and `downloader_to_exit` is false.
  pub init_downloader-Ready :
      (c : DownloaderConfig) (fuel : ℕ) (d d' : Worker SshClient SftpClient) (w w' : W)
      → init_downloader connect_sftp_server close_ssh close_sftp sleep c fuel d w
        ≡ some (connected (d', w'))
      → Ready d'
  unfolding init_downloader connect_and_get_clients
  init_downloader-Ready c fuel d d' w w' e =
      let (v, h, a) =
        connect_loop-inv
          (connect_and_get_clients connect_sftp_server close_ssh close_sftp sleep c.source_server)
          (λ t s. (s.0, sleep t s.1)) (λ (s : Worker SshClient SftpClient × W). s.0 ≡ fresh)
          (λ s u h a t. refused_same s.0 u.0 u.1 _ a ∙ h) fuel (reset (pos 2) (pos 600)) (fresh, w)
          (d', w') refl e in
      connected_Ready v.0 d' w' _ (ap (λ x. x.started) h, ap (λ x. x.to_exit) h) a
    where
      fresh : Worker SshClient SftpClient
      fresh = record d { started = false; to_exit = false }

  target_keeps :
      (d d' : StreamWorker SshClient SftpClient) (w' : W) (r : Result (SshClient × SftpClient) × W)
      → with_target connect_sftp_server close_ssh close_sftp sleep d r ≡ connected (d', w')
      → d'.to_exit ≡ d.to_exit
  target_keeps d d' w' (ok (x, y), v) e = ground arith
  target_keeps d d' w' (err x, v) e = cc
  target_keeps d d' w' (panic, v) e = cc

  source_keeps :
      (c : StreamerConfig) (d d' : StreamWorker SshClient SftpClient) (w' : W)
      (r : Result (SshClient × SftpClient) × W)
      → with_source connect_sftp_server close_ssh close_sftp sleep c d r ≡ connected (d', w')
      → d'.to_exit ≡ d.to_exit
  source_keeps c d d' w' (ok (x, y), v) e = target_keeps _ d' w' _ e
  source_keeps c d d' w' (err x, v) e = cc
  source_keeps c d d' w' (panic, v) e = cc

  -- If the first attempt of a streamer's init to connect fails with an error and a later one
  -- succeeds, init returns with `streamer_to_exit` set.
  pub init_streamer_exits :
      (c : StreamerConfig) (fuel : ℕ) (d d1 d' : StreamWorker SshClient SftpClient) (w w1 w' : W)
      → connect_both connect_sftp_server close_ssh close_sftp sleep c
          (record d { started = false; to_exit = false }, w)
        ≡ refused (d1, w1)
      → init_streamer connect_sftp_server close_ssh close_sftp sleep c fuel d w
        ≡ some (connected (d', w'))
      → d'.to_exit ≡ true
  unfolding init_streamer connect_both stop_streamer connect_loop
  init_streamer_exits c zero d d1 d' w w1 w' first e = cc
  init_streamer_exits c (suc fuel) d d1 d' w w1 w' first e =
      let z = reset (pos 2) (pos 600) in
      let tries = connect_both connect_sftp_server close_ssh close_sftp sleep c in
      let pauses = stop_and_sleep connect_sftp_server close_ssh close_sftp sleep in
      let (v, h, a) =
        connect_loop-inv tries pauses
          (λ (s : StreamWorker SshClient SftpClient × W). s.0.to_exit ≡ true) (λ s u h a t. refl)
          fuel (get_next_sleep z).0 (pauses (get_next_sleep z).1 (d1, w1)) (d', w') refl
          (sym (connect_loop-retries tries pauses fuel z _ (d1, w1) first) ∙ e) in
      source_keeps c v.0 d' w' _ a ∙ h
