-- ===== src/Realtime/Places.antt =====
-- Places of a list of what the hub of backend/app/realtime/hub.py has under way: handshakes and messages.
use aegisiq.Prelude.{ℕ, zero, suc, Option, none, some, List, [], ◌∷◌}

unfoldable pub at : {A : Type 0} → ℕ → List A → Option A
at n [] = none
at zero (x ∷ xs) = some x
at (suc n) (x ∷ xs) = at n xs

unfoldable pub remove_at : {A : Type 0} → ℕ → List A → List A
remove_at n [] = []
remove_at zero (x ∷ xs) = xs
remove_at (suc n) (x ∷ xs) = x ∷ remove_at n xs
