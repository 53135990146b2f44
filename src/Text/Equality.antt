-- ===== src/Text/Equality.antt =====
-- Equality of texts as a test.
use marginalis.Prelude.{◌≡◌, refl, true, [], ◌∷◌, arith}
use marginalis.Text.{Text, ◌=t=◌}

pub =t=-eq : (s t : Text) → (s =t= t) ≡ true → s ≡ t
=t=-eq [] [] e = refl
=t=-eq [] (y ∷ t) e = cc
=t=-eq (x ∷ s) [] e = cc
=t=-eq (x ∷ s) (y ∷ t) e = ground (arith, =t=-eq s t)

pub =t=-refl : (s : Text) → (s =t= s) ≡ true
=t=-refl [] = refl
=t=-refl (x ∷ s) = ground (arith, =t=-refl s)

pub =t=-sym : (s t : Text) → (s =t= t) ≡ (t =t= s)
=t=-sym [] [] = refl
=t=-sym [] (y ∷ t) = refl
=t=-sym (x ∷ s) [] = refl
=t=-sym (x ∷ s) (y ∷ t) = ground (arith, =t=-sym s t)
