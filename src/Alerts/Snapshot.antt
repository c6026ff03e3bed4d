-- ===== src/Alerts/Snapshot.antt =====
-- `AlertManager::persist` of src/alerts/alert_manager.cpp: the order of its file operations.
pub mod Kept
use skai_edge_native.Common.{
  ℕ, ◌*◌, ◌++◌, List, [], ◌∷◌, Option, none, some, Bool, true, false, not, ◌||◌, ltb, if◌then◌else◌,
  codes, ℤ, pos, pos_part, neg_part, ◌+◌, ltb_ℤ, leb_ℤ,
}

-- `Frame`, with the size of its pixels.
pub record Frame : Type 0 where
  pub width : ℤ
  pub height : ℤ
  pub stride : ℤ
  pub bgr_size : ℕ

-- What the filesystem, OpenCV and the repository answer, and the paths that the library makes;
-- `removes` is that a removal, of which there is at most one, succeeds.
pub record Files : Type 0 where
  pub final_path : List ℕ
  pub creates_directory : Bool
  pub encodes : Bool
  pub syncs_file : Bool
  pub renames : Bool
  pub syncs_directory : Bool
  pub inserts : Bool
  pub removes : Bool

pub data FileAction : Type 0 where
  writes_temporary removes_temporary publishes inserts_row removes_final : FileAction

-- `frame.stride < frame.width * 3`, and the comparison of the size with `stride * height`, for a
-- positive width and height.
unfoldable pub is_invalid : List ℕ → Frame → Bool
is_invalid [] frame = true
is_invalid (c ∷ directory) frame =
    leb_ℤ frame.width (pos 0)
    || (leb_ℤ frame.height (pos 0)
        || (ltb (pos_part frame.stride) (pos_part frame.width * 3)
            || ltb frame.bgr_size (pos_part frame.stride * pos_part frame.height)))

-- A removal that fails changes nothing.
abbrev pub remove : FileAction → Files → List FileAction → List FileAction
remove action files log = if files.removes then action ∷ log else log

-- The path of the snapshot when the alert is kept, and the file operations, the latest first.
unfoldable pub persist : List ℕ → Frame → Files → Option (List ℕ) × List FileAction
unfolding is_invalid
persist directory frame files =
    if is_invalid directory frame
    then (none, [])
    else if not files.creates_directory
    then (none, [])
    else if not files.encodes
    then (none, remove removes_temporary files (writes_temporary ∷ []))
    else if not files.syncs_file
    then (none, writes_temporary ∷ [])
    else if not files.renames
    then (none, remove removes_temporary files (writes_temporary ∷ []))
    else if not files.syncs_directory
    then (none, publishes ∷ writes_temporary ∷ [])
    else if files.inserts
    then (some files.final_path, inserts_row ∷ publishes ∷ writes_temporary ∷ [])
    else (none, remove removes_final files (publishes ∷ writes_temporary ∷ []))
