-- ===== src/Syncer/Decision.antt =====
-- When the workers of syncer/ copy, and what syncer/syncer.go starts for a mode.
use ugoku.Base.{
  ◌≡◌, refl, ◌↔◌, inl, inr, eqb_ℤ, eqb_ℤ-refl, eqb_ℤ→eq, false, Option, none, some, Bool-cases,
  Text, List, same, same→eq, to_lower, arith, if◌then◌else◌,
}
use ugoku.Services.{FileInfo, unix}
use ugoku.Config.{
  SyncerConfig, fill_syncer, ServerConfig, mode_server, mode_local, mode_twoway, fill_mode,
}
use ugoku.Syncer.{Direction, differs, new_syncer, server_to_local, local_to_server}

-- A syncer leaves a file alone exactly when the other side has a file of the same size and, in whole
-- seconds, the same modification time.
pub differs_iff :
    (stat : FileInfo) (other : Option FileInfo)
    → (differs stat other ≡ false) ↔ (
        (o : FileInfo) × (other ≡ some o)
        × (stat.size ≡ o.size)
        × (unix stat.mod_time ≡ unix o.mod_time))
differs_iff stat other = (there stat other, back stat other)
  where
    there :
        (stat : FileInfo) (other : Option FileInfo)
        → differs stat other ≡ false
        → (o : FileInfo) × (other ≡ some o)
          × (stat.size ≡ o.size)
          × (unix stat.mod_time ≡ unix o.mod_time)
    there stat none h = cc
    there stat (some o) h = elim (Bool-cases (eqb_ℤ stat.size o.size)) [
      | inr a ↦ absurd (ground arith)
      | inl a ↦ elim (Bool-cases (eqb_ℤ (unix stat.mod_time) (unix o.mod_time))) [
        | inl b ↦ (o, refl, eqb_ℤ→eq _ _ a, eqb_ℤ→eq _ _ b)
        | inr b ↦ absurd (ground arith)
      ]
    ]

    back :
        (stat : FileInfo) (other : Option FileInfo)
        → ((o : FileInfo) × (other ≡ some o)
            × (stat.size ≡ o.size)
            × (unix stat.mod_time ≡ unix o.mod_time))
        → differs stat other ≡ false
    back stat other (o, e, s, t) =
        rw (e, s, t, eqb_ℤ-refl o.size, eqb_ℤ-refl (unix o.mod_time)) refl

abbrev direction : Text → Option Direction
direction mode =
    if same mode mode_server
    then some server_to_local
    else if same mode mode_local
    then some local_to_server
    else none

abbrev expected : Text → Option Direction
expected mode =
    if same mode mode_local
    then some local_to_server
    else if same mode mode_twoway
    then none
    else some server_to_local

direction-fill_mode : (m : Text) → direction (fill_mode m) ≡ expected m
unfolding fill_mode same
direction-fill_mode m = elim (Bool-cases (same m mode_local)) [
  | inl e ↦ rw (same→eq m mode_local e) refl
  | inr e ↦ elim (Bool-cases (same m mode_twoway)) [
    | inl t ↦ rw (same→eq m mode_twoway t) refl
    | inr t ↦ elim (Bool-cases (same m mode_server)) [
      | inl s ↦ rw (same→eq m mode_server s) refl
      | inr s ↦ rw (e, t, s) refl
    ]
  ]
]

-- After ReadConfig has filled in a syncer's mode, NewSyncer starts the local direction for "local", no
-- direction for "twoway", and the server direction for everything else, in any case of letters.
pub new_syncer-fill_syncer :
    (servers : List ServerConfig) (s : SyncerConfig)
    → new_syncer (fill_syncer servers s) ≡ (
        if same (to_lower s.mode) mode_local
        then some local_to_server
        else if same (to_lower s.mode) mode_twoway
        then none
        else some server_to_local)
unfolding new_syncer fill_syncer
new_syncer-fill_syncer servers s = direction-fill_mode (to_lower s.mode)
