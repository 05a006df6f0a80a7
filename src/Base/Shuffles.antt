-- ===== src/Base/Shuffles.antt =====
-- Lists with the same items in another order, as data: the library's Perm is truncated, and a
-- derivation is needed here to find where an item stands.
use Prim.Native.Nat.{suc}
use mathlib.Core.Path.{◌≡◌, refl, ap, ◌∙◌}
use mathlib.Core.List.{List, [], ◌∷◌, ◌++◌}
use mathlib.Core.List.Perm
use mathlib.Core.List.{Perm}
use ugoku.Base.Lists.{length}

pub data Shuffled {ℓ} {A : Type ℓ} : List A → List A → Type ℓ where
  nothing : Shuffled [] []
  after : (x : A) {xs ys : List A} → Shuffled xs ys → Shuffled (x ∷ xs) (x ∷ ys)
  swapped : (x y : A) (xs : List A) → Shuffled (x ∷ y ∷ xs) (y ∷ x ∷ xs)
  both : {xs ys zs : List A} → Shuffled xs ys → Shuffled ys zs → Shuffled xs zs

-- The second list is the first without one place at which a stands.
pub data Without {ℓ} {A : Type ℓ} (a : A) : List A → List A → Type ℓ where
  here : {xs : List A} → Without a (a ∷ xs) xs
  there : (x : A) {xs ys : List A} → Without a xs ys → Without a (x ∷ xs) (x ∷ ys)

module _ {ℓ} {A : Type ℓ} where
  pub Shuffled_refl : (xs : List A) → Shuffled xs xs
  Shuffled_refl [] = nothing
  Shuffled_refl (x ∷ xs) = after x (Shuffled_refl xs)

  pub Shuffled_sym : {xs ys : List A} → Shuffled xs ys → Shuffled ys xs
  Shuffled_sym nothing = nothing
  Shuffled_sym (after x p) = after x (Shuffled_sym p)
  Shuffled_sym (swapped x y xs) = swapped y x xs
  Shuffled_sym (both p q) = both (Shuffled_sym q) (Shuffled_sym p)

  append_right : {xs ys : List A} (zs : List A) → Shuffled xs ys → Shuffled (xs ++ zs) (ys ++ zs)
  append_right zs nothing = Shuffled_refl zs
  append_right zs (after x p) = after x (append_right zs p)
  append_right zs (swapped x y xs) = swapped x y (xs ++ zs)
  append_right zs (both p q) = both (append_right zs p) (append_right zs q)

  pub Shuffled_append_left :
      (xs : List A) {ys zs : List A} → Shuffled ys zs → Shuffled (xs ++ ys) (xs ++ zs)
  Shuffled_append_left [] p = p
  Shuffled_append_left (x ∷ xs) p = after x (Shuffled_append_left xs p)

  middle : (a : A) (xs ys : List A) → Shuffled (xs ++ (a ∷ ys)) (a ∷ (xs ++ ys))
  middle a [] ys = Shuffled_refl (a ∷ ys)
  middle a (x ∷ xs) ys = both (after x (middle a xs ys)) (swapped x a (xs ++ ys))

  pub Shuffled_exchange : (xs ys zs : List A) → Shuffled (xs ++ (ys ++ zs)) (ys ++ (xs ++ zs))
  Shuffled_exchange [] ys zs = Shuffled_refl (ys ++ zs)
  Shuffled_exchange (x ∷ xs) ys zs =
      both (after x (Shuffled_exchange xs ys zs)) (Shuffled_sym (middle x ys (xs ++ zs)))

  pub Shuffled_length : {xs ys : List A} → Shuffled xs ys → length xs ≡ length ys
  Shuffled_length nothing = refl
  Shuffled_length (after x p) = ap suc (Shuffled_length p)
  Shuffled_length (swapped x y xs) = refl
  Shuffled_length (both p q) = Shuffled_length p ∙ Shuffled_length q

  pub Shuffled-Perm : {xs ys : List A} → Shuffled xs ys → Perm xs ys
  Shuffled-Perm nothing = Perm.nil
  Shuffled-Perm (after x p) = Perm.cons x (Shuffled-Perm p)
  Shuffled-Perm (swapped x y xs) = Perm.swap y x xs
  Shuffled-Perm (both p q) = Perm.trans (Shuffled-Perm p) (Shuffled-Perm q)

  -- What can be taken out of a list can be taken out of it in another order.
  pub Without-Shuffled :
      {a : A} {xs ys zs : List A}
      → Shuffled xs ys
      → Without a ys zs
      → (us : List A) × Without a xs us × Shuffled us zs
  Without-Shuffled nothing w = elim w [ ]
  Without-Shuffled (after x {xs} p) here = (xs, here, p)
  Without-Shuffled (after x p) (there _ w) =
      let (us, v, q) = Without-Shuffled p w in (x ∷ us, there x v, after x q)
  Without-Shuffled (swapped x y xs) here = (x ∷ xs, there x here, Shuffled_refl (x ∷ xs))
  Without-Shuffled (swapped x y xs) (there _ here) = (y ∷ xs, here, Shuffled_refl (y ∷ xs))
  Without-Shuffled (swapped x y xs) (there _ (there _ {ys = zs} w)) =
      (x ∷ y ∷ zs, there x (there y w), swapped x y zs)
  Without-Shuffled (both p q) w =
      let (us, v, r) = Without-Shuffled q w in
      let (ts, u, s) = Without-Shuffled p v in (ts, u, both s r)
