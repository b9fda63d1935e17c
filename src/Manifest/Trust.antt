-- ===== src/Manifest/Trust.antt =====
-- Which files and directories a manifest may be read from (src/manifest.cpp). What the account
-- database and the file system answer is a parameter.
pub mod Trusted
use secretov.Prelude.{
  ℕ, ◌/◌, ◌%◌, Option, none, some, Bool, true, false, not, ◌&&◌, ◌==◌, List, [], ◌∷◌, ◌++◌, map,
  is_some, if◌then◌else◌,
}
use secretov.Prelude.Result.{Result, ok, err, ◌>>=◌, throw_if}
use secretov.Prelude.Text.{Text, lit, text_eq, is_empty, to_string}
use secretov.Manifest.Group.{
  ListedMember, GroupMembers, GroupEntry, AccountEntry, collect_group_members, ours_alone,
}

join_onto : Text → List Text → Text → Text
join_onto joined [] separator = joined
join_onto joined (part ∷ parts) separator =
    join_onto ((if is_empty joined then [] else joined ++ separator) ++ part) parts separator

unfoldable pub join : List Text → Text → Text
unfolding join_onto
join parts separator = join_onto [] parts separator

pub record OwnEntry : Type 0 where
  pub name : Text
  pub gid : ℕ

-- The answers to the query for an access ACL: there is one, there is none, or the error. A path has
-- one answer, whether it is asked by its name or by an open descriptor.
pub data AclAnswer : Type 0 where
  present absent : AclAnswer
  unreadable : Text → AclAnswer

-- getuid, getpwuid of our own account, getgrgid, and the scans of all groups and accounts with the
-- error that ended them (other than the end).
pub record Accounts : Type 0 where
  pub my_uid : ℕ
  pub my_entry : Option OwnEntry
  pub group_of : ℕ → Option GroupEntry
  pub groups : List GroupEntry
  pub group_scan_error : Option Text
  pub accounts : List AccountEntry
  pub account_scan_error : Option Text
  pub acl : Text → AclAnswer

pub record SharedGroup : Type 0 where
  pub reason : Text
  pub regroup_fix : Text

-- The part of a struct stat that the checks read.
pub record Stat : Type 0 where
  pub uid : ℕ
  pub gid : ℕ
  pub mode : ℕ

-- S_IWGRP and S_IWOTH
abbrev pub group_writable : Stat → Bool
group_writable st = st.mode / 16 % 2 == 1

abbrev pub everyone_writable : Stat → Bool
everyone_writable st = st.mode / 2 % 2 == 1

abbrev pub groups_of : ℕ → List GroupEntry → List GroupEntry
groups_of gid [] = []
groups_of gid (entry ∷ groups) =
    let rest = groups_of gid groups in if entry.gid == gid then entry ∷ rest else rest

abbrev pub accounts_of : ℕ → List AccountEntry → List AccountEntry
accounts_of gid [] = []
accounts_of gid (account ∷ accounts) =
    let rest = accounts_of gid accounts in if account.gid == gid then account ∷ rest else rest

module _ (a : Accounts) where
  scan_error : Text → Text → Text → Text
  scan_error what group why =
      lit "cannot list "
      ++ what
      ++ lit " to check group "
      ++ group
      ++ lit ": "
      ++ why
      ++ lit "; fix with: chmod g-w on the manifest and its directory"

  unfoldable pub other_group_members : ℕ → Result Text (Option GroupMembers)
  unfolding scan_error
  other_group_members gid = elim (a.group_of gid) [
    | none ↦ ok none
    | some entry ↦ elim a.group_scan_error [
      | some why ↦ err (scan_error (lit "groups") entry.name why)
      | none ↦ elim a.account_scan_error [
        | some why ↦ err (scan_error (lit "accounts") entry.name why)
        | none ↦ ok (
            some (
              collect_group_members gid a.my_uid
                (elim a.my_entry [ none ↦ [] | some mine ↦ mine.name ])
                (entry ∷ groups_of gid a.groups) (accounts_of gid a.accounts)))
      ]
    ]
  ]

  abbrev who : GroupMembers → List Text
  who members =
      map (λ (user : Text). user ++ lit " (its primary group)") members.primary
      ++ (map
          (λ (listed : ListedMember).
            if text_eq listed.group members.group
            then listed.user
            else listed.user ++ lit " (via group '" ++ listed.group ++ lit "')")
          members.supplementary)

  abbrev names : ℕ → GroupMembers → List Text
  names gid members =
      map (λ (name : Text). lit "group '" ++ name ++ lit "', which shares gid " ++ to_string gid)
        members.other_names

  abbrev fixes : GroupMembers → List Text
  fixes members =
      map
        (λ (user : Text).
          lit "sudo userdel " ++ user ++ lit " or sudo usermod -g <another group> " ++ user)
        members.primary
      ++ (map
            (λ (listed : ListedMember).
              lit "sudo gpasswd -d " ++ listed.user ++ lit " " ++ listed.group)
            members.supplementary
          ++ map (λ (name : Text). lit "sudo groupmod -g <unused gid> " ++ name)
              members.other_names)

  shared : ℕ → GroupMembers → SharedGroup
  shared gid members = record {
    reason =
        lit "writable by group '"
        ++ members.group
        ++ lit "', which also includes "
        ++ join (who members ++ names gid members) (lit ", ");
    regroup_fix =
        lit "or make '"
        ++ members.group
        ++ lit "' yours alone: "
        ++ join (fixes members) (lit "; ")
        ++ lit " (and end any of their processes still running)";
  }

  only_chmod : Text → Option SharedGroup
  only_chmod reason = some (record { reason = reason; regroup_fix = [] })

  -- The cases behind the look-up of our own account.
  judged : ℕ → Text → Option GroupMembers → Option SharedGroup
  unfolding only_chmod shared
  judged gid my_name none = only_chmod (
      lit "writable by group "
      ++ to_string gid
      ++ lit ", which has no group entry, so its members are unknown")
  judged gid my_name (some members) =
      if not (text_eq members.group my_name)
      then only_chmod (
          lit "writable by group '"
          ++ members.group
          ++ lit "', which is not your private group (named "
          ++ my_name
          ++ lit ")")
      else if ours_alone members
      then none
      else some (shared gid members)

  foreign : ℕ → Option SharedGroup
  unfolding only_chmod
  foreign gid =
      only_chmod
        (lit "writable by group " ++ to_string gid ++ lit ", which is not your private group")

  unfoldable pub shared_group_problem : ℕ → Result Text (Option SharedGroup)
  unfolding judged foreign
  shared_group_problem gid = elim a.my_entry [
    | none ↦ ok (foreign gid)
    | some mine ↦
        if not (mine.gid == gid)
        then ok (foreign gid)
        else (do members ← other_group_members gid; ok (judged gid mine.name members))
  ]

  unfoldable pub acl_problem : Text → Option Text
  acl_problem path = elim (a.acl path) [
    | present ↦ some (
        lit "has an ACL, so its group write may extend to other accounts; fix with: setfacl -b '"
        ++ path
        ++ lit "', or chmod g-w '"
        ++ path
        ++ lit "'")
    | absent ↦ none
    | unreadable why ↦ some (
        lit "group-writable, and its ACL cannot be read ("
        ++ why
        ++ lit "); fix with: chmod g-w '"
        ++ path
        ++ lit "'")
  ]

  refusing : Text → Text → Bool → Text
  refusing path noun directory =
      lit "refusing "
      ++ noun
      ++ (if directory then lit " directory" else [])
      ++ lit " '"
      ++ path
      ++ lit "': "

  acl_check : Text → Text → Result Text (Unit {0})
  acl_check path prefix = elim (acl_problem path) [ none ↦ ok tt | some acl ↦ err (prefix ++ acl) ]

  -- The checks behind the owner's, with what was found of the group.
  modes : Text → Stat → Text → Option SharedGroup → Result Text (Unit {0})
  unfolding acl_check
  modes path st prefix problem =
      if everyone_writable st
      then err (
          prefix
          ++ lit "writable by everyone; fix with: chmod "
          ++ (if is_some problem then lit "g-w,o-w" else lit "o-w")
          ++ lit " '"
          ++ path
          ++ lit "'")
      else elim problem [
        | some group ↦ err (
            prefix
            ++ group.reason
            ++ lit "; fix with: chmod g-w '"
            ++ path
            ++ lit "'"
            ++ (if is_empty group.regroup_fix then [] else lit ", " ++ group.regroup_fix))
        | none ↦ if group_writable st then acl_check path prefix else ok tt
      ]

  unfoldable pub require_trusted : Text → Stat → Text → Bool → Result Text (Unit {0})
  unfolding refusing modes
  require_trusted path st noun directory =
      if not (st.uid == a.my_uid) && not (directory && (st.uid == 0))
      then err (
          refusing path noun directory
          ++ lit "owned by uid "
          ++ to_string st.uid
          ++ lit ", not you (uid "
          ++ to_string a.my_uid
          ++ lit "); remove it or chown it to yourself")
      else do
        problem ← if group_writable st then shared_group_problem st.gid else ok none
        modes path st (refusing path noun directory) problem
