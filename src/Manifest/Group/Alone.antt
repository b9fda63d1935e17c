-- ===== src/Manifest/Group/Alone.antt =====
-- A group is ours alone exactly when no one else is in it.
use secretov.Prelude.{
  is_nil, ℕ, ◌≡◌, ◌↔◌, refl, subst, ◌∙◌, Bool, true, false, ◌&&◌, ◌==◌, List, [], ◌∷◌, arith,
  Bool-cases, inl, inr,
}
use secretov.Prelude.Text.{Text, text_eq, text_eq_iff}
use secretov.Manifest.Group.{
  GroupMembers, GroupEntry, AccountEntry, nobody, add_name, add_entry, add_groups,
  collect_group_members, ours_alone,
}
use secretov.Manifest.Group.Members.{
  AreOurs, AreMine, IsOnly, grown, add_accounts-AreMine, add_listed-keeps, add_listed-IsOnly,
}

abbrev is_lonely : GroupMembers → Bool
is_lonely m = is_nil m.supplementary && is_nil m.other_names

nil {ℓ} : {A : Type ℓ} (l : List A) → is_nil l ≡ true → l ≡ []
nil [] e = refl
nil (a ∷ l) e = cc

lonely_parts :
    (m : GroupMembers) → is_lonely m ≡ true → (m.supplementary ≡ []) × (m.other_names ≡ [])
lonely_parts m h = (nil _ (ground arith), nil _ (ground arith))

add_name-group : (entry : GroupEntry) (m : GroupMembers) → (add_name true entry m).group ≡ m.group
unfolding add_name
add_name-group entry m = ground arith

add_name-supplementary :
    (entry : GroupEntry) (m : GroupMembers)
    → (add_name true entry m).supplementary ≡ m.supplementary
unfolding add_name
add_name-supplementary entry m = ground arith

add_name-keeps :
    (entry : GroupEntry) (m : GroupMembers)
    → is_nil m.other_names ≡ false
    → is_nil (add_name true entry m).other_names ≡ false
unfolding add_name
add_name-keeps entry m h = ground (arith, grown m.other_names entry.name true h)

module _ (gid : ℕ) (my_name : Text) where
  add_entry_lem :
      (entry : GroupEntry) (m : GroupMembers)
      → is_lonely m ≡ true
      → (is_lonely (add_entry my_name true entry m) ≡ true)
        ↔ ((entry.name ≡ m.group) × IsOnly my_name entry.members)
  unfolding add_name
  add_entry_lem entry m h =
      let (s, o) = lonely_parts m h in
      elim (Bool-cases (text_eq entry.name m.group)) [
        | inl same ↦
            rw (same, s, o)
              (ground (
                arith,
                same,
                text_eq_iff entry.name m.group,
                add_listed-IsOnly my_name entry.name entry.members,
              ))
        | inr other ↦ rw (other, s, o) (ground (arith, other, text_eq_iff entry.name m.group))
      ]

  add_entry-keeps :
      (entry : GroupEntry) (m : GroupMembers)
      → is_lonely m ≡ false
      → is_lonely (add_entry my_name true entry m) ≡ false
  add_entry-keeps entry m h = ground (
    arith,
    add_listed-keeps my_name entry.name entry.members (add_name true entry m).supplementary,
    add_name-supplementary entry m,
    add_name-keeps entry m,
  )

  add_groups-keeps :
      (groups : List GroupEntry) (m : GroupMembers)
      → is_lonely m ≡ false
      → is_lonely (add_groups gid my_name groups true m) ≡ false
  unfolding add_groups
  add_groups-keeps [] m h = h
  add_groups-keeps (entry ∷ groups) m h = elim (Bool-cases (entry.gid == gid)) [
    | inl e ↦ rw (e, add_groups) (add_groups-keeps groups _ (add_entry-keeps entry m h))
    | inr e ↦ rw (e, add_groups) (add_groups-keeps groups m h)
  ]

  add_groups-AreOurs :
      (groups : List GroupEntry) (m : GroupMembers)
      → is_lonely m ≡ true
      → (is_lonely (add_groups gid my_name groups true m) ≡ true)
        ↔ AreOurs gid my_name m.group groups
  unfolding add_groups
  add_groups-AreOurs [] m h = (λ _. tt, λ _. h)
  add_groups-AreOurs (entry ∷ groups) m h =
      let m' = add_entry my_name true entry m in
      let step = add_entry_lem entry m h in
      elim (Bool-cases (entry.gid == gid)) [
        | inr e ↦ rw (e, add_groups) (ground (arith, e, add_groups-AreOurs groups m h))
        | inl e ↦ elim (Bool-cases (is_lonely m')) [
          | inl l ↦
              let rest =
                subst
                  (λ g.
                    (is_lonely (add_groups gid my_name groups true m') ≡ true)
                    ↔ AreOurs gid my_name g groups)
                  (add_name-group entry m) (add_groups-AreOurs groups m' l) in
              rw (e, add_groups) (ground (arith, e, l, step, rest))
          | inr l ↦ rw (e, add_groups) (ground (arith, e, l, step, add_groups-keeps groups m' l))
        ]
      ]

  add_groups-primary :
      (groups : List GroupEntry) (named : Bool) (m : GroupMembers)
      → (add_groups gid my_name groups named m).primary ≡ m.primary
  unfolding add_groups add_name
  add_groups-primary [] named m = refl
  add_groups-primary (entry ∷ groups) named m = add_groups-primary groups _ _ ∙ ground arith

  first_entry :
      (entry : GroupEntry) (groups : List GroupEntry)
      → entry.gid ≡ gid
      → (is_lonely (add_groups gid my_name (entry ∷ groups) false nobody) ≡ true)
        ↔ AreOurs gid my_name entry.name (entry ∷ groups)
  unfolding add_groups add_name
  first_entry entry groups h =
      let m' = add_entry my_name false entry nobody in
      let step = add_listed-IsOnly my_name entry.name entry.members in
      let e : (entry.gid == gid) ≡ true = ground arith in
      elim (Bool-cases (is_lonely m')) [
        | inl l ↦ rw (e, add_groups) (ground (arith, h, l, step, add_groups-AreOurs groups m' l))
        | inr l ↦ rw (e, add_groups) (ground (arith, h, l, step, add_groups-keeps groups m' l))
      ]

  add_groups-group :
      (groups : List GroupEntry) (m : GroupMembers)
      → (add_groups gid my_name groups true m).group ≡ m.group
  unfolding add_groups
  add_groups-group [] m = refl
  add_groups-group (entry ∷ groups) m = elim (Bool-cases (entry.gid == gid)) [
    | inl e ↦ rw (e, add_groups) (add_groups-group groups _ ∙ add_name-group entry m)
    | inr e ↦ rw (e, add_groups) (add_groups-group groups m)
  ]

-- The group is named by its first entry.
pub collect_group_members-group :
    (gid my_uid : ℕ) (my_name : Text) (entry : GroupEntry) (groups : List GroupEntry)
    (accounts : List AccountEntry)
    → entry.gid ≡ gid
    → (collect_group_members gid my_uid my_name (entry ∷ groups) accounts).group ≡ entry.name
unfolding collect_group_members add_groups add_name
collect_group_members-group gid my_uid my_name entry groups accounts h =
    let e : (entry.gid == gid) ≡ true = ground arith in
    rw (e, add_groups) (add_groups-group gid my_name groups (add_entry my_name false entry nobody))

-- Where the group's first entry is the one that was looked up by its gid: the group is found to be
-- ours alone exactly if every entry of the gid has that entry's name and lists no one but us, and
-- every account with the gid as its primary group is ours.
pub ours_alone_iff :
    (gid my_uid : ℕ) (my_name : Text) (entry : GroupEntry) (groups : List GroupEntry)
    (accounts : List AccountEntry)
    → entry.gid ≡ gid
    → (ours_alone (collect_group_members gid my_uid my_name (entry ∷ groups) accounts) ≡ true)
      ↔ (AreOurs gid my_name entry.name (entry ∷ groups) × AreMine gid my_uid accounts)
unfolding ours_alone collect_group_members
ours_alone_iff gid my_uid my_name entry groups accounts h = ground (
  arith,
  add_groups-primary gid my_name (entry ∷ groups) false nobody,
  first_entry gid my_name entry groups h,
  add_accounts-AreMine gid my_uid accounts,
)
