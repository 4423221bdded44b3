-- ===== src/Analysis/Sorted.antt =====
-- `sorted(set(values))` of backend/app/analysis/engine.py, for numbers and for texts, which Python
-- orders by code points.
use aegisiq.Prelude.{
  ℕ, String, Bool, true, false, List, [], ◌∷◌, ltb, ◌==◌, if◌then◌else◌, str_eq, codes,
}

unfoldable pub codes_before : List ℕ → List ℕ → Bool
codes_before [] [] = false
codes_before [] (y ∷ ys) = true
codes_before (x ∷ xs) [] = false
codes_before (x ∷ xs) (y ∷ ys) =
    let rest = codes_before xs ys in if ltb x y then true else if x == y then rest else false

unfoldable pub text_before : String → String → Bool
unfolding codes_before
text_before s t = codes_before (codes s) (codes t)

module _ {A : Type 0} (precedes same : A → A → Bool) where
  unfoldable pub insert : A → List A → List A
  insert x [] = x ∷ []
  insert x (y ∷ ys) =
      let rest = insert x ys in
      if precedes x y then x ∷ y ∷ ys else if same x y then y ∷ ys else y ∷ rest

  unfoldable pub sorted_set : List A → List A
  unfolding insert
  sorted_set [] = []
  sorted_set (x ∷ xs) = insert x (sorted_set xs)

abbrev pub sorted_numbers : List ℕ → List ℕ
sorted_numbers = sorted_set ltb (λ m n. m == n)

abbrev pub sorted_texts : List String → List String
sorted_texts = sorted_set text_before str_eq
