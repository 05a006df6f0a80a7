-- ===== src/Syncer/Server/Rounds.antt =====
-- The local copy over the rounds of the worker of syncer/server-syncer.go.
use mathlib.Core.Path.{subst}
use mathlib.Core.Option.{some-injective}
use ugoku.Base.{
  ℤ, pos, ◌≡◌, refl, sym, ap, ◌∙◌, ◌↔◌, ◌⊎◌, inl, inr, Text, true, false, Option, none, some, List,
  [], ◌∷◌, ◌++◌, length, arith, Bool-cases, bound,
}
use ugoku.Services.{FileInfo}
use ugoku.Syncer.{differs}
use ugoku.Syncer.Decision.{differs_iff}
use ugoku.Transfer.{Session, Ret, succeeded, begin, is_main, removes}
use ugoku.Transfer
use ugoku.Transfer.Safety.{download_no_loss, download_nil_complete}
use ugoku.Syncer.Server.{
  Round, Event, stats, transfers, returns, updates, begin_round, info_of, downloadable, can_step,
  transferred, updated, step, run,
}

-- The events of the download.
abbrev part : Event → List Transfer.Event
part (transfers e t) = e ∷ []
part e = []

transfer-part :
    (e : Transfer.Event) (t : ℤ) (r u : Round) (s : Option Session)
    → Transfer.step false e r.session ≡ s
    → transferred e t r s ≡ some u
    → Transfer.run false (e ∷ []) r.session ≡ some u.session
unfolding Transfer.run
transfer-part e t r u none g h = absurd (ground arith)
transfer-part e t r u (some v) g h = rw (Transfer.run, g) (ground arith)

step-part :
    (stat : FileInfo) (e : Event) (r u : Round)
    → step stat e r ≡ some u
    → Transfer.run false (part e) r.session ≡ some u.session
unfolding step Transfer.run
step-part stat (stats b) r u h = ground arith
step-part stat (transfers e t) r u h = elim (Bool-cases (can_step e r.stage)) [
  | inl can ↦ transfer-part e t r u (Transfer.step false e r.session) refl (sym (rw can refl) ∙ h)
  | inr cannot ↦ absurd (ground arith)
]
step-part stat returns r u h = ground arith
step-part stat (updates b) r u h = ground arith

pub parts : List Event → List Transfer.Event
parts [] = []
parts (e ∷ es) = part e ++ parts es

transfers_append :
    (es fs : List Transfer.Event) (s t u : Session)
    → Transfer.run false es s ≡ some t
    → Transfer.run false fs t ≡ some u
    → Transfer.run false (es ++ fs) s ≡ some u
unfolding Transfer.run
transfers_append [] fs s t u g h =
    subst (λ x. Transfer.run false fs x ≡ some u) (sym (some-injective s t g)) h
transfers_append (e ∷ es) fs s t u g h =
    let (v, first, rest) = bound (Transfer.step false e s) (Transfer.run false es) t g in
    rw (Transfer.run, first) (transfers_append es fs v t u rest h)

-- The session of a round has made the events of the download and no others.
pub run-parts :
    (stat : FileInfo) (es : List Event) (r u : Round)
    → run stat es r ≡ some u
    → Transfer.run false (parts es) r.session ≡ some u.session
unfolding run Transfer.run parts
run-parts stat [] r u h = ground arith
run-parts stat (e ∷ es) r u h =
    let (v, first, rest) = bound (step stat e r) (run stat es) u h in
    transfers_append (part e) (parts es) r.session v.session u.session (step-part stat e r v first)
      (run-parts stat es v u rest)

-- At every moment of every round, and of what its download still does after it, the local copy is
-- either as it was before or whole; and once `download` has returned nil it is whole.
pub round_no_loss :
    (content : Text) (old : Option Text) (modified : ℤ) (stat : FileInfo) (es : List Event)
    (r : Round)
    → run stat es (begin_round content old modified) ≡ some r
    → ((r.session.output ≡ old) ⊎ (r.session.output ≡ some content))
      × (r.session.ret ≡ some succeeded → r.session.output ≡ some content)
round_no_loss content old modified stat es r h =
    let runs = run-parts stat es (begin_round content old modified) r h in
    (
      (download_no_loss content old false (parts es) r.session runs).0,
      download_nil_complete content old false (parts es) r.session runs,
    )

-- Whatever became of the download of a round: if then Chtimes works, the next round for the file, with
-- the same stat and before anything else happens to the local copy, leaves it alone exactly when the
-- local copy has the size of the file on the server.
pub updated_round_settles :
    (stat : FileInfo) (r u : Round)
    → step stat (updates true) r ≡ some u
    → (downloadable stat true u ≡ false)
      ↔ ((x : Text) × (r.session.output ≡ some x) × (stat.size ≡ pos (length x)))
unfolding step downloadable
updated_round_settles stat r u h = of_output r.session.output refl h
  where
    of_output :
        (output : Option Text)
        → r.session.output ≡ output
        → updated stat true r r.stage output ≡ some u
        → (downloadable stat true u ≡ false)
          ↔ ((x : Text) × (output ≡ some x) × (stat.size ≡ pos (length x)))
    of_output none e h = absurd (ground arith)
    of_output (some x) e h =
        let marked : FileInfo = record {
          size = pos (length x);
          mod_time = stat.mod_time;
          is_dir = false;
        } in
        let known : downloadable stat true u ≡ differs stat (some marked) =
          ap (λ i. differs stat i) (seen x e h) in
        (
          λ skip.
              let (o, is_it, same_size, _) =
                (differs_iff stat (some marked)).0 (sym known ∙ skip) in
              (x, refl, same_size ∙ sym (ap (λ i. i.size) (some-injective marked o is_it))),
          λ p.
              let (y, is_it, same_size) = p in
              known
              ∙ (differs_iff stat (some marked)).1 (
                marked,
                refl,
                same_size ∙ ap (λ z. pos (length z)) (sym (some-injective x y is_it)),
                refl,
              ),
        )
      where
        seen :
            (x : Text)
            → r.session.output ≡ some x
            → updated stat true r r.stage (some x) ≡ some u
            → info_of u.session.output u.modified
              ≡ some (record { size = pos (length x); mod_time = stat.mod_time; is_dir = false })
        seen x e h = ground arith

-- Suppose the stat of a round has the size of the content on the server, and Chtimes works after the
-- download. If download returned nil, the content is in the local copy, and the next round for the file
-- leaves it alone.
pub server_round_settles :
    (content : Text) (old : Option Text) (modified : ℤ) (stat : FileInfo) (es : List Event)
    (r u : Round)
    → stat.size ≡ pos (length content)
    → run stat es (begin_round content old modified) ≡ some r
    → r.session.ret ≡ some succeeded
    → step stat (updates true) r ≡ some u
    → (r.session.output ≡ some content) × (downloadable stat true u ≡ false)
server_round_settles content old modified stat es r u size h nil marks =
    let there = (round_no_loss content old modified stat es r h).1 nil in
    (there, (updated_round_settles stat r u marks).1 (content, there, size))

-- Suppose the stat of a round has the size of the content on the server, and the local copy has another
-- content of that size. Whether or not the download of the round failed, once Chtimes works after it
-- the next round for the file leaves it alone.
pub same_size_masked :
    (content before : Text) (modified : ℤ) (stat : FileInfo) (es : List Event) (r u : Round)
    → stat.size ≡ pos (length content)
    → length before ≡ length content
    → run stat es (begin_round content (some before) modified) ≡ some r
    → step stat (updates true) r ≡ some u
    → downloadable stat true u ≡ false
same_size_masked content before modified stat es r u size same h marks =
    elim (round_no_loss content (some before) modified stat es r h).0 [
      | inl kept ↦ (updated_round_settles stat r u marks).1 (before, kept, size ∙ sym (ap pos same))
      | inr whole ↦ (updated_round_settles stat r u marks).1 (content, whole, size)
    ]
