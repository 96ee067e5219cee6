-- ===== src/Deploy/Layout.antt =====
-- deploy.py: `validate_revision` and `ReleaseLayout`. A release is the content of its directory, as a
-- text; the pointer file is there with its text, or not. The faults of the file system are a
-- parameter of each operation.
use runner_observability.Base.{
  String, Bool, true, false, not, ◌&&◌, ◌||◌, Option, none, some, Result, ok, err, ◌>>=◌, string_eq,
  ◌==◌, nat_eq, if◌then◌else◌,
}
use Prim.Native.Char.{code}
use runner_observability.Base.Table.{Table, select, upsert}
use runner_observability.Python.{Python, Pattern}
use runner_observability.Outbox.State.{remove}

-- What an operation on files raises. An InvalidRevisionError is a ValueError.
pub data Raised : Type 0 where
  invalid_revision file_not_found os_error other_error : Raised

pub record ReleaseLayout : Type 0 where
  pub releases : Table String String
  pub current_pointer : Option String

-- A search for this pattern is the match of the source, since it is anchored. `$` also matches before
-- a line break at the end.
abbrev pub revision_pattern : Pattern
revision_pattern = record { source = "^[A-Za-z0-9][A-Za-z0-9._-]{0,63}$"; ignore_case = false }

-- ".." in revision, after a dot or not
abbrev pub has_two_dots : Bool → String → Bool
has_two_dots dot String.[] = false
has_two_dots dot (String.◌∷◌ c s) =
    let is_dot = nat_eq (code c) 46 in dot && is_dot || has_two_dots is_dot s

-- A release is deployed by these steps on the file system; each may raise. The copy leaves the old
-- directory alone; a removal that fails leaves what it has not removed.
pub record StageFaults : Type 0 where
  pub copy : Option Raised
  pub removal : Option (Raised × String)
  pub rename : Option Raised

-- The parts of the standard library besides `Python`: `str.strip`.
module _ (py : Python) (strip : String → String) where
  unfoldable pub validate_revision : String → Result Raised String
  validate_revision revision =
      if py.re_search revision_pattern revision && not (has_two_dots false revision)
      then ok revision
      else err invalid_revision

  unfoldable pub current_revision : ReleaseLayout → Option String
  current_revision layout = elim layout.current_pointer [
    | none ↦ none
    | some text ↦ if strip text == "" then none else some (strip text)
  ]

  unfoldable pub release_exists : ReleaseLayout → String → Result Raised Bool
  unfolding validate_revision
  release_exists layout revision = do
    name ← validate_revision revision
    ok (elim (select name layout.releases) [ none ↦ false | some _ ↦ true ])

  -- the removal of an old directory and the rename of the copy
  abbrev replace_release :
      StageFaults
      → ReleaseLayout
      → String
      → String
      → Option (Raised × String)
      → ReleaseLayout × Result Raised (Unit {0})
  replace_release faults layout revision source (some (e, left)) =
      (record layout { releases = upsert revision left layout.releases }, err e)
  replace_release faults layout revision source none = elim faults.rename [
    | some e ↦ (record layout { releases = remove revision layout.releases }, err e)
    | none ↦ (record layout { releases = upsert revision source layout.releases }, ok tt)
  ]

  -- a directory that is not there is not removed
  abbrev removal_fault : StageFaults → ReleaseLayout → String → Option (Raised × String)
  removal_fault faults layout revision = elim (select revision layout.releases) [
    | none ↦ none
    | some _ ↦ faults.removal
  ]

  -- `source` is the content of the source directory, if it is there.
  unfoldable pub stage_release :
      StageFaults
      → ReleaseLayout
      → String
      → Option String
      → ReleaseLayout × Result Raised (Unit {0})
  unfolding validate_revision
  stage_release faults layout revision source = elim (validate_revision revision) [
    | err e ↦ (layout, err e)
    | ok name ↦ elim faults.copy [
      | some e ↦ (layout, err e)
      | none ↦ elim source [
        | none ↦ (layout, err file_not_found)
        | some content ↦
            replace_release faults layout name content (removal_fault faults layout name)
      ]
    ]
  ]

  abbrev point_at :
      Option Raised → ReleaseLayout → String → Bool → ReleaseLayout × Result Raised (Unit {0})
  point_at fault layout revision false = (layout, err file_not_found)
  point_at (some e) layout revision true = (layout, err e)
  point_at none layout revision true = (record layout { current_pointer = some revision }, ok tt)

  -- The pointer is replaced as a whole: a fault leaves the old one.
  unfoldable pub activate :
      Option Raised → ReleaseLayout → String → ReleaseLayout × Result Raised (Unit {0})
  unfolding release_exists
  activate fault layout revision = elim (release_exists layout revision) [
    | err e ↦ (layout, err e)
    | ok staged ↦ point_at fault layout revision staged
  ]

  -- Only a missing pointer file is no error.
  unfoldable pub deactivate :
      Option Raised → ReleaseLayout → ReleaseLayout × Result Raised (Unit {0})
  deactivate (some e) layout = (layout, err e)
  deactivate none layout = (record layout { current_pointer = none }, ok tt)
