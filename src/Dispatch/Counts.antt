-- ===== src/Dispatch/Counts.antt =====
-- Weights of lists: how often something stands in a list, or how many items it has.
use ugoku.Base.{
  ℕ, zero, suc, ◌+◌, ◌≡◌, refl, Option, none, some, List, [], ◌∷◌, ◌++◌, length, arith,
}
use ugoku.Dispatch.{Entry, file, directory, fault, pick}

module _ {A : Type 0} (f : A → ℕ) where
  abbrev pub weight : List A → ℕ
  weight [] = 0
  weight (x ∷ xs) = f x + weight xs

  pub weight-append : (xs ys : List A) → weight (xs ++ ys) ≡ weight xs + weight ys
  weight-append [] ys = omega arith
  weight-append (x ∷ xs) ys = omega (arith, weight-append xs ys)

  abbrev Picked : List A → Option (A × List A) → Type 0
  Picked xs none = Unit {0}
  Picked xs (some (y, ys)) = (weight xs ≡ f y + weight ys) × (length xs ≡ suc (length ys))

  pub pick-Picked : (k : ℕ) (xs : List A) → Picked xs (pick k xs)
  unfolding pick
  pick-Picked k [] = tt
  pick-Picked zero (x ∷ xs) = (refl, refl)
  pick-Picked (suc k) (x ∷ xs) = behind (pick k xs) (pick-Picked k xs)
    where
      behind :
          (r : Option (A × List A))
          → Picked xs r
          → Picked (x ∷ xs) (elim r as (λ _. Option (A × List A)) [
            | none ↦ none
            | some (z, zs) ↦ some (z, x ∷ zs)
          ])
      behind none h = tt
      behind (some (z, zs)) h = (omega arith, omega arith)

-- The files that the rest of a walk gives.
abbrev pub files_of : {A : Type 0} → List (Entry A) → List A
files_of [] = []
files_of (file a ∷ es) = a ∷ files_of es
files_of (directory ∷ es) = files_of es
files_of (fault ∷ es) = files_of es
