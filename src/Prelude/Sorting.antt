-- ===== src/Prelude/Sorting.antt =====
-- std::sort on strings, as insertion into a sorted list.
use secretov.Prelude.{◌≡◌, refl, Bool, true, false, ◌||◌, List, [], ◌∷◌, arith, if◌then◌else◌}
use secretov.Prelude.Text.{Text, text_eq, text_lt}

insert_sorted : Text → List Text → List Text
insert_sorted k [] = k ∷ []
insert_sorted k (j ∷ l) =
    let later = j ∷ insert_sorted k l in if text_lt j k then later else k ∷ j ∷ l

unfoldable pub sort : List Text → List Text
unfolding insert_sorted
sort [] = []
sort (k ∷ l) = insert_sorted k (sort l)

abbrev pub mem_text : Text → List Text → Bool
mem_text k [] = false
mem_text k (j ∷ l) = text_eq j k || mem_text k l

-- No element is below the one before it.
abbrev pub IsSorted : List Text → Type 0
IsSorted [] = Unit
IsSorted (k ∷ []) = Unit
IsSorted (k ∷ j ∷ l) = (text_lt j k ≡ false) × IsSorted (j ∷ l)

text_lt_asymm : (a b : Text) → text_lt a b ≡ true → text_lt b a ≡ false
unfolding text_lt
text_lt_asymm (x ∷ a) (y ∷ b) h = ground (arith, text_lt_asymm a b)
text_lt_asymm _ _ h = ground arith

IsSorted-insert_sorted : (k : Text) (l : List Text) → IsSorted l → IsSorted (insert_sorted k l)
unfolding insert_sorted
IsSorted-insert_sorted k [] h = tt
IsSorted-insert_sorted k (j ∷ []) h = ground (arith, text_lt_asymm j k)
IsSorted-insert_sorted k (j ∷ i ∷ l) h =
    ground (arith, text_lt_asymm j k, IsSorted-insert_sorted k (i ∷ l) h.1)

pub sort-IsSorted : (l : List Text) → IsSorted (sort l)
unfolding sort
sort-IsSorted [] = tt
sort-IsSorted (k ∷ l) = IsSorted-insert_sorted k (sort l) (sort-IsSorted l)

mem_text-insert_sorted :
    (i k : Text) (l : List Text) → mem_text i (insert_sorted k l) ≡ mem_text i (k ∷ l)
unfolding insert_sorted
mem_text-insert_sorted i k [] = refl
mem_text-insert_sorted i k (j ∷ l) = ground (arith, mem_text-insert_sorted i k l)

-- Sorting keeps the elements.
pub mem_text-sort : (i : Text) (l : List Text) → mem_text i (sort l) ≡ mem_text i l
unfolding sort
mem_text-sort i [] = refl
mem_text-sort i (k ∷ l) = ground (arith, mem_text-insert_sorted i k (sort l), mem_text-sort i l)
