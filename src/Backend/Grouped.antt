-- ===== src/Backend/Grouped.antt =====
-- The groups that a batch of paths is sorted into.
use secretov.Prelude.{
  ◌≡◌, refl, ap, inl, inr, ℕ, zero, suc, Option, none, some, Bool, true, false, ◌||◌, ◌&&◌, List,
  [], ◌∷◌, ◌++◌, take, arith, Option-cases, Bool-cases,
}
use secretov.Prelude.Map.{Map, lookup, insert, lookup-insert}
use secretov.Prelude.Sorting.{mem_text}
use secretov.Prelude.Text.{
  Text, text_eq, text_eq_iff, text_eq→eq, text_eq_refl, starts_with, rfind_byte,
}
use secretov.Backend.{prefix_of, group_or_empty, add_to_group, add_path, group_from}

starts_with-take : (n : ℕ) (s : Text) → starts_with (take n s) s ≡ true
unfolding starts_with
starts_with-take zero s = refl
starts_with-take (suc n) [] = refl
starts_with-take (suc n) (c ∷ s) = ground (arith, starts_with-take n s)

pub starts_with-prefix_of : (path : Text) → starts_with (prefix_of path) path ≡ true
unfolding prefix_of starts_with
starts_with-prefix_of path = elim (Option-cases (rfind_byte b'/' path)) [
  | inl e ↦ rw (prefix_of, e) refl
  | inr (slash, e) ↦ rw (prefix_of, e) (starts_with-take (suc slash) path)
]

unfoldable pub of_prefix : Text → List Text → Bool
of_prefix prefix [] = true
of_prefix prefix (path ∷ group) = text_eq (prefix_of path) prefix && of_prefix prefix group

-- Each group holds paths of its prefix.
unfoldable pub is_grouped : Map (List Text) → Bool
is_grouped [] = true
is_grouped ((prefix, group) ∷ groups) = of_prefix prefix group && is_grouped groups

-- A path stands in the group of its prefix.
unfoldable pub is_in_group : Text → Option (List Text) → Bool
is_in_group path none = false
is_in_group path (some group) = mem_text path group

is_grouped-insert :
    (prefix : Text) (group : List Text) (groups : Map (List Text))
    → of_prefix prefix group ≡ true
    → is_grouped groups ≡ true
    → is_grouped (insert prefix group groups) ≡ true
unfolding is_grouped insert
is_grouped-insert prefix group [] a h = ground (arith, a)
is_grouped-insert prefix group ((j, g) ∷ groups) a h =
    ground (arith, a, h, is_grouped-insert prefix group groups)

of_prefix-append :
    (prefix path : Text) (group : List Text)
    → prefix_of path ≡ prefix
    → of_prefix prefix group ≡ true
    → of_prefix prefix (group ++ (path ∷ [])) ≡ true
unfolding of_prefix
of_prefix-append prefix path [] e h = ground (arith, e, text_eq_refl prefix)
of_prefix-append prefix path (p ∷ group) e h =
    ground (arith, h, of_prefix-append prefix path group e)

of_prefix-add_to_group :
    (prefix path : Text) (group : List Text)
    → prefix_of path ≡ prefix
    → of_prefix prefix group ≡ true
    → of_prefix prefix (add_to_group group path) ≡ true
unfolding add_to_group
of_prefix-add_to_group prefix path group e h =
    ground (arith, h, of_prefix-append prefix path group e h)

of_prefix-lookup :
    (prefix : Text) (groups : Map (List Text))
    → is_grouped groups ≡ true
    → of_prefix prefix (group_or_empty (lookup prefix groups)) ≡ true
unfolding is_grouped lookup group_or_empty of_prefix
of_prefix-lookup prefix [] h = refl
of_prefix-lookup prefix ((j, g) ∷ groups) h =
    ground (arith, h, text_eq_iff j prefix, of_prefix-lookup prefix groups)

mem_text-append_one :
    (p path : Text) (group : List Text)
    → mem_text p (group ++ (path ∷ [])) ≡ (text_eq path p || mem_text p group)
mem_text-append_one p path [] = refl
mem_text-append_one p path (j ∷ group) = ground (arith, mem_text-append_one p path group)

mem_text-add_to_group :
    (p path : Text) (group : List Text)
    → mem_text p (add_to_group group path) ≡ (text_eq path p || mem_text p group)
unfolding add_to_group
mem_text-add_to_group p path group =
    ground (arith, mem_text-append_one p path group, text_eq_iff path p)

is_in_group-or_empty :
    (p : Text) (group : Option (List Text))
    → is_in_group p group ≡ mem_text p (group_or_empty group)
unfolding is_in_group group_or_empty
is_in_group-or_empty p none = refl
is_in_group-or_empty p (some group) = refl

add_path-is_grouped :
    (groups : Map (List Text)) (path : Text)
    → is_grouped groups ≡ true
    → is_grouped (add_path groups path) ≡ true
unfolding add_path
add_path-is_grouped groups path h =
    is_grouped-insert (prefix_of path) _ groups
      (of_prefix-add_to_group (prefix_of path) path _ refl
        (of_prefix-lookup (prefix_of path) groups h))
      h

is_in_group-add_path :
    (p : Text) (groups : Map (List Text)) (path : Text)
    → is_in_group p (lookup (prefix_of p) (add_path groups path))
      ≡ (text_eq path p || is_in_group p (lookup (prefix_of p) groups))
unfolding add_path is_in_group group_or_empty
is_in_group-add_path p groups path =
    let old = group_or_empty (lookup (prefix_of path) groups) in
    let first = lookup-insert (prefix_of path) (prefix_of p) (add_to_group old path) groups in
    elim (Bool-cases (text_eq (prefix_of path) (prefix_of p))) [
      | inl same ↦ grind (
        arith,
        first,
        same,
        mem_text-add_to_group p path old,
        is_in_group-or_empty p (lookup (prefix_of path) groups),
        is_in_group-or_empty p (some (add_to_group old path)),
        ap (λ k. is_in_group p (lookup k groups)) (text_eq→eq _ _ same),
      )
      | inr other ↦ grind (arith, first, other, text_eq_iff path p, text_eq_refl (prefix_of p))
    ]

pub group_from-is_grouped :
    (paths : List Text) (groups : Map (List Text))
    → is_grouped groups ≡ true
    → is_grouped (group_from groups paths) ≡ true
unfolding group_from
group_from-is_grouped [] groups h = h
group_from-is_grouped (path ∷ paths) groups h =
    group_from-is_grouped paths (add_path groups path) (add_path-is_grouped groups path h)

-- A path is in its group if it is one of the paths, or was there before.
pub is_in_group-group_from :
    (p : Text) (paths : List Text) (groups : Map (List Text))
    → is_in_group p (lookup (prefix_of p) (group_from groups paths))
      ≡ (mem_text p paths || is_in_group p (lookup (prefix_of p) groups))
unfolding group_from
is_in_group-group_from p [] groups = refl
is_in_group-group_from p (path ∷ paths) groups = ground (
  arith,
  is_in_group-group_from p paths (add_path groups path),
  is_in_group-add_path p groups path,
)
