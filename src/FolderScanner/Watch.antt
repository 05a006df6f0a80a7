-- ===== src/FolderScanner/Watch.antt =====
-- The watcher of uploader/folder-scanner.go over all its passes.
use ugoku.Base.{
  ℤ, pos, negsuc, ◌≡◌, refl, sym, ap, ◌∙◌, inl, inr, Text, true, false, Option, none, some, List,
  [], ◌∷◌, map, if◌then◌else◌, arith, Bool-cases, eqb_ℤ, incr, wrap64, All,
}
use mathlib.Core.Path.{ap₂, subst}
use ugoku.Services.{FileInfo, unix}
use ugoku.FolderScanner.{
  FolderMap, empty_map, Item, listed, stops, next_pass, scan_pass, if_current, View, scan,
  start_with_watcher, walk_list,
}
use ugoku.FolderScanner.Passes.{lists, sent_for, seen, news, pass_sends, pass_remembers, Earlier}

-- The stat of a file in a round, if the round lists it and can stat it.
abbrev pub observed : Text → View → Option FileInfo
observed q v = elim v.listing [
  | none ↦ none
  | some items ↦ if lists q items then v.stat q else none
]

abbrev NoStop : List Item → Type 0
NoStop [] = Unit {0}
NoStop (stops ∷ items) = ⊥
NoStop (listed f ∷ items) = NoStop items

-- The folder could be read, and no stop came.
abbrev pub IsComplete : View → Type 0
IsComplete v = (items : List Item) × (v.listing ≡ some items) × NoStop items

-- What a watcher is for: a file is news when it is there and was not, or has another time in seconds.
abbrev pub change : Option FileInfo → Option FileInfo → List FileInfo
change old none = []
change none (some info) = info ∷ []
change (some old) (some info) =
    if eqb_ℤ (unix old.mod_time) (unix info.mod_time) then [] else info ∷ []

abbrev pub changes : Option FileInfo → List (Option FileInfo) → List (List FileInfo)
changes old [] = []
changes old (new ∷ rest) = change old new ∷ changes new rest

pass_differs : (pass : ℤ) → eqb_ℤ pass (next_pass pass) ≡ false
unfolding wrap64 incr
pass_differs (pos n) = ground arith
pass_differs (negsuc n) = ground arith

-- The map after a pass, by what was last observed.
Remembers : ℤ → (Text → Option FileInfo) → FolderMap → Type 0
Remembers pass last m = (q : Text) → m q ≡ seen pass (last q) none

others_earlier :
    (pass next : ℤ) (old : Option FileInfo)
    → eqb_ℤ pass next ≡ false
    → if_current next (seen pass old none) ≡ none
others_earlier pass next none h = refl
others_earlier pass next (some i) h = rw h refl

news-change :
    (pass : ℤ) (new old : Option FileInfo) → news new (seen pass old none) ≡ change old new
news-change pass none old = refl
news-change pass (some i) none = refl
news-change pass (some i) (some o) = refl

no_news : (old : Option FileInfo) → change old none ≡ []
no_news none = refl
no_news (some o) = refl

walk_finishes :
    (pass : ℤ) (stat : Text → Option FileInfo) (items : List Item) (m : FolderMap)
    → NoStop items
    → (walk_list true pass stat items m).finished ≡ true
unfolding walk_list
walk_finishes pass stat [] m h = refl
walk_finishes pass stat (stops ∷ items) m h = elim h [ ]
walk_finishes pass stat (listed f ∷ items) m h = walk_finishes pass stat items _ h

pass_finishes :
    (pass : ℤ) (stat : Text → Option FileInfo) (items : List Item) (m : FolderMap)
    → NoStop items
    → (scan_pass true pass stat (some items) m).finished ≡ true
unfolding scan_pass
pass_finishes pass stat items m h = rw (walk_finishes pass stat items m h) refl

-- What a round is to do.
abbrev Sends : ℤ → (Text → Option FileInfo) → FolderMap → View → Type 0
Sends pass last m v =
    let p = scan_pass true (next_pass pass) v.stat v.listing m in
    (p.finished ≡ true)
    × ((q : Text) → sent_for q p.sent ≡ change (last q) (observed q v))
    × Remembers (next_pass pass) (λ q. observed q v) p.lookup

scan_pass-Sends :
    (pass : ℤ) (last : Text → Option FileInfo) (m : FolderMap) (v : View)
    → Remembers pass last m
    → IsComplete v
    → Sends pass last m v
unfolding Remembers
scan_pass-Sends pass last m v r (items, at, quiet) =
    subst (λ l. Sends pass last m (record v { listing = l })) (sym at) (ends, sends, remembers)
  where
    earlier : Earlier (next_pass pass) v.stat m
    earlier q =
        ap (if_current (next_pass pass)) (r q)
        ∙ others_earlier pass (next_pass pass) (last q) (pass_differs pass)

    ends : (scan_pass true (next_pass pass) v.stat (some items) m).finished ≡ true
    ends = pass_finishes (next_pass pass) v.stat items m quiet

    sends :
        (q : Text)
        → sent_for q (scan_pass true (next_pass pass) v.stat (some items) m).sent
          ≡ change (last q) (if lists q items then v.stat q else none)
    sends q = pass_sends (next_pass pass) v.stat items m q ∙ elim (Bool-cases (lists q items)) [
      | inl e ↦ rw e (ap (news (v.stat q)) (r q) ∙ news-change pass (v.stat q) (last q))
      | inr e ↦ rw e (sym (no_news (last q)))
    ]

    remembers :
        Remembers
          (next_pass pass)
          (λ q. if lists q items then v.stat q else none)
          (scan_pass true (next_pass pass) v.stat (some items) m).lookup
    remembers q =
        pass_remembers (next_pass pass) v.stat items m earlier ends q
        ∙ elim (Bool-cases (lists q items)) [ inl e ↦ rw e refl | inr e ↦ rw e refl ]

scan-changes :
    (views : List View) (pass : ℤ) (last : Text → Option FileInfo) (m : FolderMap)
    → Remembers pass last m
    → All IsComplete views
    → (q : Text)
    → map (sent_for q) (scan true false views pass m) ≡ changes (last q) (map (observed q) views)
unfolding scan
scan-changes [] pass last m r all q = refl
scan-changes (v ∷ views) pass last m r (first, all) q =
    let (ends, sends, remembers) = scan_pass-Sends pass last m v r first in
    rw ends (
      ap₂ ◌∷◌ (sends q) (scan-changes views (next_pass pass) (λ x. observed x v) _ remembers all q))

-- As long as the folder can be read and no stop comes, the watcher, over any number of passes, puts a
-- file on the channel in exactly those passes, and with that stat, in which it is observed and was not
-- observed in the pass before, or had another modification time in seconds then; before the first pass
-- nothing was.
pub start_with_watcher-changes :
    (views : List View)
    → All IsComplete views
    → (q : Text)
    → map (sent_for q) (start_with_watcher false views) ≡ changes none (map (observed q) views)
unfolding start_with_watcher empty_map Remembers
start_with_watcher-changes views all q =
    scan-changes views (pos 0) (λ x. none) empty_map (λ x. refl) all q
