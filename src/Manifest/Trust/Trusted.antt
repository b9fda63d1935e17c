-- ===== src/Manifest/Trust/Trusted.antt =====
-- What passes the check can be written by no one else.
use secretov.Prelude.{
  ℕ, ◌≡◌, refl, sym, ap, subst, ◌∙◌, ◌⊎◌, inl, inr, Option, none, some, Bool, true, false, not,
  ◌&&◌, ◌==◌, List, [], ◌∷◌, arith, Bool-cases, Option-cases, if◌then◌else◌,
}
use secretov.Prelude.Result.{Result, ok, Result-cases, bind-eq-ok}
use secretov.Prelude.Text.{Text, text_eq_iff}
use secretov.Manifest.Group.{
  GroupMembers, GroupEntry, AccountEntry, collect_group_members, ours_alone,
}
use secretov.Manifest.Group.Members.{AreOurs, AreMine}
use secretov.Manifest.Group.Alone.{ours_alone_iff, collect_group_members-group}
use secretov.Manifest.Trust.{
  OwnEntry, absent, Accounts, Stat, group_writable, everyone_writable, groups_of, accounts_of,
  other_group_members, judged, foreign, shared_group_problem, acl_problem, modes, SharedGroup,
  acl_check, refusing, require_trusted,
}

AreOurs-groups_of :
    (gid : ℕ) (my_name group : Text) (groups : List GroupEntry)
    → AreOurs gid my_name group (groups_of gid groups)
    → AreOurs gid my_name group groups
AreOurs-groups_of gid my_name group [] h = tt
AreOurs-groups_of gid my_name group (entry ∷ groups) h =
    ground (arith, h, AreOurs-groups_of gid my_name group groups)

AreMine-accounts_of :
    (gid my_uid : ℕ) (accounts : List AccountEntry)
    → AreMine gid my_uid (accounts_of gid accounts)
    → AreMine gid my_uid accounts
AreMine-accounts_of gid my_uid [] h = tt
AreMine-accounts_of gid my_uid (account ∷ accounts) h =
    ground (arith, h, AreMine-accounts_of gid my_uid accounts)

module _ (a : Accounts) where
  -- The group is our own account's, bears its name in every entry, and holds no one else.
  pub record IsPrivate (gid : ℕ) : Type 0 where
    pub mine : OwnEntry
    pub entry : GroupEntry
    pub is_me : a.my_entry ≡ some mine
    pub is_group : a.group_of gid ≡ some entry
    pub own_gid : mine.gid ≡ gid
    pub own_name : entry.name ≡ mine.name
    pub ours : AreOurs gid mine.name mine.name (entry ∷ a.groups)
    pub alone : AreMine gid a.my_uid a.accounts

  -- getgrgid answers with an entry of the gid that was asked for.
  abbrev pub IsLookup : Type 0
  IsLookup = (gid : ℕ) (entry : GroupEntry) → a.group_of gid ≡ some entry → entry.gid ≡ gid

  found_as :
      {found : Option GroupMembers} {members : GroupMembers} (entry : GroupEntry)
      → ◌≡◌ {A = Result Text (Option GroupMembers)} (ok (some members)) (ok found)
      → found ≡ some members
  found_as entry h = ground (arith, h)

  -- What the members that were found come from.
  other_group_members_lem :
      (gid : ℕ) (mine : OwnEntry) (found : Option GroupMembers)
      → a.my_entry ≡ some mine
      → other_group_members a gid ≡ ok found
      → (found ≡ none)
        ⊎ ((entry : GroupEntry) × (a.group_of gid ≡ some entry)
            × (found
                ≡ some (
                    collect_group_members gid a.my_uid mine.name
                      (entry ∷ groups_of gid a.groups)
                      (accounts_of gid a.accounts))))
  unfolding other_group_members
  other_group_members_lem gid mine found me h = elim (Option-cases (a.group_of gid)) [
    | inl none' ↦ inl (ground (arith, (rw (none', other_group_members) at h)))
    | inr (entry, e) ↦ elim (Option-cases a.group_scan_error) [
      | inr (why, s) ↦ cc (rw (e, s, other_group_members) at h)
      | inl s ↦ elim (Option-cases a.account_scan_error) [
        | inr (why, s') ↦ cc (rw (e, s, s', other_group_members) at h)
        | inl s' ↦ inr (entry, e, found_as entry (rw (e, s, s', me, other_group_members) at h))
      ]
    ]
  ]

  judged_lem :
      (gid : ℕ) (my_name : Text) (found : Option GroupMembers)
      → judged a gid my_name found ≡ none
      → (members : GroupMembers) × (found ≡ some members)
        × (members.group ≡ my_name)
        × (ours_alone members ≡ true)
  unfolding judged
  judged_lem gid my_name none h = cc
  judged_lem gid my_name (some members) h =
      let (same, alone) : (members.group ≡ my_name) × (ours_alone members ≡ true) =
        ground (arith, h, text_eq_iff members.group my_name) in
      (members, refl, same, alone)

  judged-IsPrivate :
      (gid : ℕ) (mine : OwnEntry) (found : Option GroupMembers)
      → IsLookup
      → a.my_entry ≡ some mine
      → mine.gid ≡ gid
      → other_group_members a gid ≡ ok found
      → judged a gid mine.name found ≡ none
      → IsPrivate gid
  judged-IsPrivate gid mine found look me own h j =
      let (members, f, name, alone) = judged_lem gid mine.name found j in
      elim (other_group_members_lem gid mine found me h) [
        | inl n ↦ absurd (cc (n, f))
        | inr (entry, e, c) ↦
            let groups = groups_of gid a.groups in
            let accounts = accounts_of gid a.accounts in
            let gid' = look gid entry e in
            let same : members
                ≡ collect_group_members gid a.my_uid mine.name (entry ∷ groups) accounts =
              cc (c, f) in
            let named =
              sym (collect_group_members-group gid a.my_uid mine.name entry groups accounts gid')
              ∙ ap (λ m. m.group) (sym same)
              ∙ name in
            let (ours, alone') =
              (ours_alone_iff gid a.my_uid mine.name entry groups accounts gid').0
                (ap ours_alone (sym same) ∙ alone) in
            let (first, rest) = subst (λ g. AreOurs gid mine.name g (entry ∷ groups)) named ours in
            record {
              mine = mine;
              entry = entry;
              is_me = me;
              is_group = e;
              own_gid = own;
              own_name = named;
              ours = (first, AreOurs-groups_of gid mine.name mine.name a.groups rest);
              alone = AreMine-accounts_of gid a.my_uid a.accounts alone';
            }
      ]

  shared_group_problem-IsPrivate :
      (gid : ℕ) → IsLookup → shared_group_problem a gid ≡ ok none → IsPrivate gid
  unfolding shared_group_problem foreign
  shared_group_problem-IsPrivate gid look h = elim (Option-cases a.my_entry) [
    | inl e ↦ cc (rw (e, shared_group_problem) at h)
    | inr (mine, e) ↦ elim (Bool-cases (mine.gid == gid)) [
      | inr other ↦ cc (rw (e, other, shared_group_problem) at h)
      | inl own ↦ elim (Result-cases (other_group_members a gid)) [
        | inr (why, f) ↦ cc (rw (e, own, f, shared_group_problem) at h)
        | inl (found, f) ↦
            judged-IsPrivate gid mine found look e (ground arith) f
              (ground (arith, (rw (e, own, f, shared_group_problem) at h)))
      ]
    ]
  ]

  -- What passes is ours, or a directory of root's, and neither everyone nor another account of its
  -- group can write it.
  pub record IsTrusted (path : Text) (st : Stat) (directory : Bool) : Type 0 where
    pub owner : (st.uid ≡ a.my_uid) ⊎ ((directory ≡ true) × (st.uid ≡ 0))
    pub others : everyone_writable st ≡ false
    pub group : group_writable st ≡ true → IsPrivate st.gid × (a.acl path ≡ absent)

  modes_lem :
      (path : Text) (st : Stat) (prefix : Text) (problem : Option SharedGroup)
      → modes a path st prefix problem ≡ ok tt
      → (problem ≡ none)
        × (everyone_writable st ≡ false)
        × (group_writable st ≡ true → a.acl path ≡ absent)
  unfolding modes acl_check acl_problem
  modes_lem path st prefix none h = ground arith
  modes_lem path st prefix (some group) h = ground arith

  found_for :
      (st : Stat) {problem : Option SharedGroup}
      → group_writable st ≡ true
      → (if group_writable st then shared_group_problem a st.gid else ok none) ≡ ok problem
      → shared_group_problem a st.gid ≡ ok problem
  found_for st w h = ground arith

  -- What is read as a manifest can be written by no other account but root: it is ours, or a
  -- directory of root's; not everyone can write it; and where its group can, the group is our own
  -- account's, bears its name, has no other member in any of its entries and is no other account's
  -- primary group, and no access ACL widens it. `getgrgid` is taken to answer with an entry of its
  -- gid.
  pub require_trusted-IsTrusted :
      (path : Text) (st : Stat) (noun : Text) (directory : Bool)
      → IsLookup
      → require_trusted a path st noun directory ≡ ok tt
      → IsTrusted path st directory
  unfolding require_trusted
  require_trusted-IsTrusted path st noun directory look h =
      elim (Bool-cases (not (st.uid == a.my_uid) && not (directory && (st.uid == 0)))) [
        | inl theirs ↦ cc (rw (theirs, require_trusted) at h)
        | inr owned ↦
            let (problem, found, passes) =
              bind-eq-ok (if group_writable st then shared_group_problem a st.gid else ok none)
                (modes a path st (refusing a path noun directory))
                (rw (owned, require_trusted) at h) in
            let (none', others, acl) =
              modes_lem path st (refusing a path noun directory) problem passes in
            record {
              owner = ground (arith, owned);
              others = others;
              group = λ w. (
                shared_group_problem-IsPrivate st.gid look (found_for st w found ∙ ap ok none'),
                acl w,
              );
            }
      ]
