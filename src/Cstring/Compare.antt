-- ===== src/Cstring/Compare.antt =====
-- The comparison strcmp of Cstring.antt.
use demo_submodule.Prelude.{ℕ, ◌≡◌, refl, ◌↔◌, true, List, [], ◌∷◌, arith, ==_iff}
use demo_submodule.Cstring.{strcmp}

strcmp_inv : (a b : List ℕ) → strcmp a b ≡ true → a ≡ b
unfolding strcmp
strcmp_inv [] [] h = refl
strcmp_inv (x ∷ a) (y ∷ b) h = ground (arith, strcmp_inv a b)
strcmp_inv [] (y ∷ b) h = absurd (ground arith)
strcmp_inv (x ∷ a) [] h = absurd (ground arith)

strcmp_refl : (a : List ℕ) → strcmp a a ≡ true
unfolding strcmp
strcmp_refl [] = refl
strcmp_refl (x ∷ a) = rw ((==_iff x x).1 refl) (strcmp_refl a)

pub strcmp_iff : (a b : List ℕ) → (strcmp a b ≡ true) ↔ (a ≡ b)
strcmp_iff a b = (strcmp_inv a b, λ e. rw (← e) (strcmp_refl a))
