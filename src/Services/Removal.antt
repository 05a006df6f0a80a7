-- ===== src/Services/Removal.antt =====
-- One try of the `removeSrc` loops, which the downloader, the uploader and the streamer share: remove
-- the file and, if that reports no error, break if the file can no longer be found.
use ugoku.Base.{
  ℕ, suc, ◌+◌, Bool-cases, ◌≡◌, refl, ◌∙◌, ◌≢◌, ◌⊎◌, inl, inr, Text, Error, Bool, true, false,
  Option, none, some, for_break, for_break_inv, arith,
}
use ugoku.Services.{FileInfo, FileTree, Contents, Keeps, Removes}

module _ {W : Type 0} (t : FileTree W) (p : Text) where
  abbrev not_found : Option FileInfo × W → Bool × W
  not_found (none, w) = (true, w)
  not_found (some info, w) = (false, w)

  abbrev checked : Option Error × W → Bool × W
  checked (some e, w) = (false, w)
  checked (none, w) = not_found (t.stat p w)

  unfoldable pub try_remove : W → Bool × W
  try_remove w = checked (t.remove p w)

-- What Remove and Stat keep, a try keeps.
pub try_remove_inv :
    {W : Type 0} (t : FileTree W) (p : Text) (P : W → Type 0)
    → ((w : W) → P w → P (t.remove p w).1)
    → ((w : W) → P w → P (t.stat p w).1)
    → (w : W) → P w
    → P (try_remove t p w).1
unfolding try_remove
try_remove_inv {W} t p P removes stats w h = of_remove (t.remove p w) (removes w h)
  where
    of_stat : (r : Option FileInfo × W) → P r.1 → P (not_found t p r).1
    of_stat (none, v) x = x
    of_stat (some i, v) x = x

    of_remove : (r : Option Error × W) → P r.1 → P (checked t p r).1
    of_remove (some e, v) x = x
    of_remove (none, v) x = of_stat (t.stat p v) (stats v x)

module _ {W : Type 0} (t : FileTree W) (files : Contents W) (law : Removes t files) (p : Text) where
  try_remove-world :
      (w : W)
      → ((e : Error) × ((t.remove p w).0 ≡ some e) × ((try_remove t p w).1 ≡ (t.remove p w).1))
        ⊎ (((t.remove p w).0 ≡ none) × ((try_remove t p w).1 ≡ (t.stat p (t.remove p w).1).1))
  unfolding try_remove
  try_remove-world w = ground arith

  -- Only the named file changes, and it is kept or gone.
  abbrev pub Trims : W → W → Type 0
  Trims w w' =
      ((q : Text) → q ≢ p → files w' q ≡ files w q)
      × ((files w' p ≡ none) ⊎ (files w' p ≡ files w p))

  try_remove-gone : (w : W) → (t.remove p w).0 ≡ none → files (try_remove t p w).1 p ≡ none
  try_remove-gone w e = elim (try_remove-world w) [
    | inl (x, ex, _) ↦ cc
    | inr (_, s) ↦ rw s (law.stat_keeps p (t.remove p w).1 p ∙ law.remove_ok p w e)
  ]

  try_remove-Trims : (w : W) → Trims w (try_remove t p w).1
  try_remove-Trims w = elim (try_remove-world w) [
    | inl (x, ex, s) ↦ rw s (λ q _. law.remove_err p w x ex q, inr (law.remove_err p w x ex p))
    | inr (e, s) ↦ (
      λ q ne. rw s (law.stat_keeps p (t.remove p w).1 q ∙ law.remove_other p q w ne),
      inl (try_remove-gone w e),
    )
  ]

  Trims-trans : (u v w : W) → Trims u v → Trims v w → Trims u w
  Trims-trans u v w (o, inl g) (o', inl g') = (λ q ne. o' q ne ∙ o q ne, inl g')
  Trims-trans u v w (o, inl g) (o', inr g') = (λ q ne. o' q ne ∙ o q ne, inl (g' ∙ g))
  Trims-trans u v w (o, inr g) (o', inl g') = (λ q ne. o' q ne ∙ o q ne, inl g')
  Trims-trans u v w (o, inr g) (o', inr g') = (λ q ne. o' q ne ∙ o q ne, inr (g' ∙ g))

  module _ (pause : ℕ → W → W) (still : (i : ℕ) → Keeps files (pause i)) where
    abbrev pub tries : ℕ → ℕ → W → W
    tries n i = for_break n i (λ j w. try_remove t p (pause j w))

    try-Trims : (i : ℕ) (w : W) → Trims w (try_remove t p (pause i w)).1
    try-Trims i w =
        Trims-trans w (pause i w) (try_remove t p (pause i w)).1
          (λ q _. still i w q, inr (still i w p)) (try_remove-Trims (pause i w))

    pub tries-Trims : (n i : ℕ) (w : W) → Trims w (tries n i w)
    tries-Trims n i w =
        for_break_inv (Trims w) _ (λ j v h. Trims-trans w v _ h (try-Trims j v)) n i w
          (λ q _. refl, inr refl)

    -- A removal that reports no error is never undone by the later tries.
    pub tries-gone :
        (n i : ℕ) (w : W) → (t.remove p (pause i w)).0 ≡ none → files (tries (suc n) i w) p ≡ none
    unfolding for_break
    tries-gone n i w e = elim (Bool-cases (try_remove t p (pause i w)).0) [
      | inl b ↦ rw (b, for_break) (try_remove-gone (pause i w) e)
      | inr b ↦
          rw (b, for_break)
            (for_break_inv (λ v. files v p ≡ none) _ (λ j v h. gone_stays v _ h (try-Trims j v)) n
              (i + 1) _ (try_remove-gone (pause i w) e))
    ]
      where
        gone_stays : (u v : W) → files u p ≡ none → Trims u v → files v p ≡ none
        gone_stays u v g (_, inl h) = h
        gone_stays u v g (_, inr h) = h ∙ g
