-- ===== src/Files/Access.antt =====
-- The tests of utils/file.go: what a path is, and what the user may do with it.
use gonit.Base.{String, Bool, false, not, ◌&&◌, none, some, List, [], ◌∷◌, if◌then◌else◌}
use gonit.Base.Table.{lookup}
use gonit.Files.{Disk, file_exists}

-- The system's part: what access(2) answers on a path that is there, and the directories above a
-- path, as `filepath.Split` of the cleaned path gives them one after the other, the next one first.
pub record Access : Type 0 where
  pub writable : String → Bool
  pub readable : String → Bool
  pub above : String → List String

module _ {B : Type 0} (d : Disk B) (a : Access) where
  unfoldable pub is_file : String → Bool
  is_file path = elim (lookup path d) [ none ↦ false | some n ↦ n.regular ]

  -- A path that is not there is as writable as the next one above it that is.
  unfoldable pub is_writable_from : String → List String → Bool
  is_writable_from path [] = file_exists d path && a.writable path
  is_writable_from path (dir ∷ dirs) =
      let above = is_writable_from dir dirs in if file_exists d path then a.writable path else above

  abbrev pub is_writable : String → Bool
  is_writable path = is_writable_from path (a.above path)

  unfoldable pub is_writable_file : String → Bool
  unfolding is_file
  is_writable_file path =
      if not (file_exists d path) then is_writable path else is_file path && is_writable path

  unfoldable pub is_readable : String → Bool
  is_readable path = file_exists d path && a.readable path

  unfoldable pub is_readable_file : String → Bool
  unfolding is_file
  is_readable_file path = is_readable path && is_file path
