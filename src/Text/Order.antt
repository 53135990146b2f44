-- ===== src/Text/Order.antt =====
-- The order of `str`: that of the bytes, which for UTF-8 is the order of the characters.
use marginalis.Prelude.{Bool, true, false, ◌&&◌, ◌||◌, List, [], ◌∷◌, ltb, ◌==◌, if◌then◌else◌}
use marginalis.Text.{Text, ◌=t=◌}

abbrev pub text_before : Text → Text → Bool
text_before s [] = false
text_before [] (d ∷ t) = true
text_before (c ∷ s) (d ∷ t) = ltb c d || (c == d && text_before s t)

abbrev insert_text : Text → List Text → List Text
insert_text s [] = s ∷ []
insert_text s (t ∷ ts) =
    let rest = insert_text s ts in if text_before t s then t ∷ rest else s ∷ t ∷ ts

-- `slice::sort`.
unfoldable pub sort_texts : List Text → List Text
sort_texts [] = []
sort_texts (s ∷ ts) = insert_text s (sort_texts ts)

-- Whether the first of the texts is the given one.
abbrev heads : Text → List Text → Bool
heads s [] = false
heads s (t ∷ ts) = s =t= t

-- `Vec::dedup`: one of each row of equal neighbours.
unfoldable pub dedup : List Text → List Text
dedup [] = []
dedup (s ∷ ts) = let rest = dedup ts in if heads s ts then rest else s ∷ rest
