-- ===== src/Manifest/Group.antt =====
-- Who else is in a group (src/manifest.cpp, src/manifest.hpp).
pub mod Members
pub mod Alone
use secretov.Prelude.{
  ℕ, Bool, true, false, not, ◌&&◌, ◌||◌, ◌==◌, List, [], ◌∷◌, ◌++◌, if◌then◌else◌, is_nil,
}
use secretov.Prelude.Sorting.{mem_text}
use secretov.Prelude.Text.{Text, text_eq}

pub record ListedMember : Type 0 where
  pub user : Text
  pub group : Text

pub record GroupMembers : Type 0 where
  pub group : Text
  pub primary : List Text
  pub supplementary : List ListedMember
  pub other_names : List Text

pub record GroupEntry : Type 0 where
  pub name : Text
  pub gid : ℕ
  pub members : List Text

pub record AccountEntry : Type 0 where
  pub name : Text
  pub uid : ℕ
  pub gid : ℕ

abbrev pub nobody : GroupMembers
nobody = record { group = []; primary = []; supplementary = []; other_names = [] }

is_listed : Text → Text → List ListedMember → Bool
is_listed user group [] = false
is_listed user group (listed ∷ rest) =
    (text_eq listed.user user && text_eq listed.group group) || is_listed user group rest

unfoldable pub add_listed : Text → Text → List Text → List ListedMember → List ListedMember
unfolding is_listed
add_listed my_name group [] supplementary = supplementary
add_listed my_name group (user ∷ users) supplementary =
    let seen = is_listed user group supplementary in
    add_listed my_name group users (
      if not (text_eq user my_name) && not seen
      then supplementary ++ record { user = user; group = group } ∷ []
      else supplementary)

unfoldable pub add_name : Bool → GroupEntry → GroupMembers → GroupMembers
add_name named entry members =
    if not named
    then record members { group = entry.name }
    else if not (text_eq entry.name members.group) && not (mem_text entry.name members.other_names)
    then record members { other_names = members.other_names ++ entry.name ∷ [] }
    else members

abbrev pub add_entry : Text → Bool → GroupEntry → GroupMembers → GroupMembers
add_entry my_name named entry members =
    let renamed = add_name named entry members in
    record renamed {
      supplementary = add_listed my_name entry.name entry.members renamed.supplementary;
    }

unfoldable pub add_groups : ℕ → Text → List GroupEntry → Bool → GroupMembers → GroupMembers
add_groups gid my_name [] named members = members
add_groups gid my_name (entry ∷ groups) named members =
    let other = not (entry.gid == gid) in
    add_groups gid my_name groups (if other then named else true)
      (if other then members else add_entry my_name named entry members)

unfoldable pub add_accounts : ℕ → ℕ → List AccountEntry → List Text → List Text
add_accounts gid my_uid [] primary = primary
add_accounts gid my_uid (account ∷ accounts) primary = add_accounts gid my_uid accounts (
    if account.gid == gid && (not (account.uid == my_uid) && not (mem_text account.name primary))
    then primary ++ account.name ∷ []
    else primary)

unfoldable pub collect_group_members :
    ℕ → ℕ → Text → List GroupEntry → List AccountEntry → GroupMembers
collect_group_members gid my_uid my_name groups accounts =
    let members = add_groups gid my_name groups false nobody in
    record members { primary = add_accounts gid my_uid accounts members.primary }

unfoldable pub ours_alone : GroupMembers → Bool
ours_alone members =
    is_nil members.primary && is_nil members.supplementary && is_nil members.other_names
