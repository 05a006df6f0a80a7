-- ===== src/FolderScanner/Passes.antt =====
-- What a pass of the watcher of uploader/folder-scanner.go sends and remembers.
use ugoku.Base.{
  ℤ, ◌≡◌, refl, ap, ◌∙◌, inl, inr, Text, same, same_refl, same→eq, Bool, true, false, Option, none,
  some, List, [], ◌∷◌, ◌++◌, append-nil, if◌then◌else◌, arith, Bool-cases, eqb_ℤ, eqb_ℤ-refl,
}
use ugoku.Services.{FileInfo, unix}
use ugoku.FolderScanner.{
  FileObj, FileLookupObj, FolderMap, store, delete_others, Item, listed, stops, can_dispatch,
  Passed, noted, offered, walk_list, scan_pass, end_of_list, if_current,
}

-- Whether a walk comes to the file.
unfoldable pub lists : Text → List Item → Bool
lists q [] = false
lists q (stops ∷ items) = false
lists q (listed file ∷ items) = if same q file then true else lists q items

-- The stats of the objects of one name.
unfoldable pub sent_for : Text → List FileObj → List FileInfo
sent_for q [] = []
sent_for q (fo ∷ rest) = if same q fo.path then fo.stat ∷ sent_for q rest else sent_for q rest

-- What is known of a file after a walk that came to it, and what it sent.
abbrev pub seen : ℤ → Option FileInfo → Option FileLookupObj → Option FileLookupObj
seen pass none old = old
seen pass (some info) old = some (record { pass = pass; stat = info })

abbrev pub news : Option FileInfo → Option FileLookupObj → List FileInfo
news none old = []
news (some info) none = info ∷ []
news (some info) (some old) =
    if eqb_ℤ (unix old.stat.mod_time) (unix info.mod_time) then [] else info ∷ []

if_same {ℓ} : {A : Type ℓ} (b : Bool) (x : A) → (if b then x else x) ≡ x
if_same true x = refl
if_same false x = refl

module _ (pass : ℤ) (stat : Text → Option FileInfo) where
  noted_self :
      (f : Text) (r : Option FileInfo) (m : FolderMap)
      → noted true pass stat f r m f ≡ seen pass r (m f)
  unfolding store
  noted_self f none m = refl
  noted_self f (some i) m = rw (same_refl f)

  noted-other :
      (f q : Text) (r : Option FileInfo) (m : FolderMap)
      → same q f ≡ false
      → noted true pass stat f r m q ≡ m q
  unfolding store
  noted-other f q none m e = refl
  noted-other f q (some i) m e = rw e

  noted-named :
      (f q : Text) (m : FolderMap)
      → q ≡ f
      → noted true pass stat f (stat f) m q ≡ seen pass (stat q) (m q)
  noted-named f q m e = rw e (noted_self f (stat f) m)

  seen_idem :
      (r : Option FileInfo) (old : Option FileLookupObj)
      → seen pass r (seen pass r old) ≡ seen pass r old
  seen_idem none old = refl
  seen_idem (some i) old = refl

  news-seen : (r : Option FileInfo) (old : Option FileLookupObj) → news r (seen pass r old) ≡ []
  unfolding can_dispatch
  news-seen none old = refl
  news-seen (some i) old = rw (eqb_ℤ-refl (unix i.mod_time))

  walk-lookup :
      (items : List Item) (m : FolderMap) (q : Text)
      → (walk_list true pass stat items m).lookup q
        ≡ (if lists q items then seen pass (stat q) (m q) else m q)
  unfolding walk_list lists
  walk-lookup [] m q = refl
  walk-lookup (stops ∷ items) m q = refl
  walk-lookup (listed f ∷ items) m q = elim (Bool-cases (same q f)) [
    | inl e ↦
        walk-lookup items (noted true pass stat f (stat f) m) q
        ∙ rw (e, noted-named f q m (same→eq q f e), seen_idem (stat q) (m q))
            (if_same (lists q items) (seen pass (stat q) (m q)))
    | inr e ↦
        walk-lookup items (noted true pass stat f (stat f) m) q
        ∙ rw (e, noted-other f q (stat f) m e)
  ]

  news_sent :
      (f : Text) (i : FileInfo) (old : Option FileLookupObj) (rest : List FileObj)
      → sent_for f (if can_dispatch true old i then record { path = f; stat = i } ∷ rest else rest)
        ≡ news (some i) old ++ sent_for f rest
  unfolding sent_for can_dispatch
  news_sent f i none rest = rw (same_refl f) refl
  news_sent f i (some old) rest =
      elim (Bool-cases (eqb_ℤ (unix old.stat.mod_time) (unix i.mod_time))) [
        | inl e ↦ rw e refl
        | inr e ↦ rw (e, same_refl f) refl
      ]

  offered_self :
      (f : Text) (r : Option FileInfo) (m : FolderMap) (rest : List FileObj)
      → sent_for f (offered true pass stat f r m rest) ≡ news r (m f) ++ sent_for f rest
  offered_self f none m rest = refl
  offered_self f (some i) m rest = news_sent f i (m f) rest

  offered-named :
      (f q : Text) (m : FolderMap) (rest : List FileObj)
      → q ≡ f
      → sent_for q (offered true pass stat f (stat f) m rest)
        ≡ news (stat q) (m q) ++ sent_for q rest
  offered-named f q m rest e = rw e (offered_self f (stat f) m rest)

  offered-other :
      (f q : Text) (r : Option FileInfo) (m : FolderMap) (rest : List FileObj)
      → same q f ≡ false
      → sent_for q (offered true pass stat f r m rest) ≡ sent_for q rest
  unfolding sent_for
  offered-other f q none m rest ne = refl
  offered-other f q (some i) m rest ne = elim (Bool-cases (can_dispatch true (m f) i)) [
    | inl e ↦ rw (e, ne)
    | inr e ↦ rw e
  ]

  walk-sent :
      (items : List Item) (m : FolderMap) (q : Text)
      → sent_for q (walk_list true pass stat items m).sent
        ≡ (if lists q items then news (stat q) (m q) else [])
  unfolding walk_list lists sent_for
  walk-sent [] m q = refl
  walk-sent (stops ∷ items) m q = refl
  walk-sent (listed f ∷ items) m q = elim (Bool-cases (same q f)) [
    | inl e ↦
        offered-named f q m _ (same→eq q f e)
        ∙ ap (λ ys. news (stat q) (m q) ++ ys)
            (walk-sent items (noted true pass stat f (stat f) m) q)
        ∙ rw (e, noted-named f q m (same→eq q f e), news-seen (stat q) (m q))
            (ap (λ ys. news (stat q) (m q) ++ ys) (if_same (lists q items) [])
              ∙ append-nil (news (stat q) (m q)))
    | inr e ↦
        offered-other f q (stat f) m _ e
        ∙ walk-sent items (noted true pass stat f (stat f) m) q
        ∙ rw (e, noted-other f q (stat f) m e)
  ]

  -- In a watching pass, whether it comes to the end or is stopped: a file that the pass comes to and
  -- can stat is sent, once and with that stat, exactly when the map has no entry for it or one whose
  -- modification time differs in whole seconds; no other file is sent.
  pub pass_sends :
      (items : List Item) (m : FolderMap) (q : Text)
      → sent_for q (scan_pass true pass stat (some items) m).sent
        ≡ (if lists q items then news (stat q) (m q) else [])
  unfolding scan_pass
  pass_sends items m q = of_end (walk_list true pass stat items m) (walk-sent items m q)
    where
      of_end :
          (p : Passed) {x : List FileInfo}
          → sent_for q p.sent ≡ x
          → sent_for q (end_of_list pass p).sent ≡ x
      of_end p h = elim (Bool-cases p.finished) [ inl e ↦ rw e h | inr e ↦ rw e h ]

  ended-lookup :
      (p : Passed) (q : Text)
      → (end_of_list pass p).finished ≡ true
      → (end_of_list pass p).lookup q ≡ if_current pass (p.lookup q)
  unfolding delete_others
  ended-lookup p q h = elim (Bool-cases p.finished) [
    | inl e ↦ rw (e, delete_others)
    | inr e ↦ absurd (both e (unfinished e h))
  ]
    where
      unfinished : p.finished ≡ false → (end_of_list pass p).finished ≡ true → p.finished ≡ true
      unfinished e h = ground arith

      both : p.finished ≡ false → p.finished ≡ true → ⊥
      both e h = cc

  -- The entries of a map that earlier passes left.
  abbrev pub Earlier : FolderMap → Type 0
  Earlier m = (q : Text) → if_current pass (m q) ≡ none

  current-seen :
      (r : Option FileInfo) (old : Option FileLookupObj)
      → if_current pass old ≡ none
      → if_current pass (seen pass r old) ≡ seen pass r none
  current-seen none old h = h
  current-seen (some i) old h = rw (eqb_ℤ-refl pass)

  -- A watching pass that comes to the end of its listing, over a map with no entry of its own pass
  -- number, leaves in the map exactly the files that it listed and could stat, each with that stat and
  -- the pass number.
  pub pass_remembers :
      (items : List Item) (m : FolderMap)
      → Earlier m
      → (scan_pass true pass stat (some items) m).finished ≡ true
      → (q : Text)
      → (scan_pass true pass stat (some items) m).lookup q
        ≡ (if lists q items then seen pass (stat q) none else none)
  unfolding scan_pass
  pass_remembers items m old h q =
      ended-lookup (walk_list true pass stat items m) q h
      ∙ ap (if_current pass) (walk-lookup items m q)
      ∙ elim (Bool-cases (lists q items)) [
        | inl e ↦ rw e (current-seen (stat q) (m q) (old q))
        | inr e ↦ rw e (old q)
      ]

quiet :
    (pass : ℤ) (before after : FileInfo)
    → unix before.mod_time ≡ unix after.mod_time
    → news (some after) (seen pass (some before) none) ≡ []
unfolding can_dispatch
quiet pass before after e = rw (e, eqb_ℤ-refl (unix after.mod_time))

-- If a watching pass comes to the end of its listing, over a map with no entry of its own pass number,
-- then the next pass over the same listing sends no file that can be stat-ed to the same second as in
-- the first pass, whatever the number of the second pass.
pub unchanged_not_sent :
    (pass pass' : ℤ) (stat stat' : Text → Option FileInfo) (items : List Item) (m : FolderMap)
    → Earlier pass stat m
    → (scan_pass true pass stat (some items) m).finished ≡ true
    → (q : Text) (before after : FileInfo) → stat q ≡ some before
    → stat' q ≡ some after
    → unix before.mod_time ≡ unix after.mod_time
    → sent_for q
        (scan_pass true pass' stat'
          (some items)
          (scan_pass true pass stat (some items) m).lookup).sent
      ≡ []
unchanged_not_sent pass pass' stat stat' items m old h q before after has has' same_second =
    pass_sends pass' stat' items _ q ∙ elim (Bool-cases (lists q items)) [
      | inl e ↦
          rw (e, pass_remembers pass stat items m old h q, has, has')
            (rw e (quiet pass before after same_second))
      | inr e ↦ rw e
    ]
