-- ===== src/Alerts/Snapshot/Kept.antt =====
-- What `persist` leaves behind.
use skai_edge_native.Common.{
  ℕ, ◌≡◌, arith, List, [], ◌∷◌, is_some, Bool, true, false, not, ◌&&◌, ◌||◌,
}
use skai_edge_native.Alerts.Snapshot.{
  Frame, Files, FileAction, writes_temporary, removes_temporary, publishes, inserts_row,
  removes_final, is_invalid, persist,
}

-- The snapshot, the temporary file and the row that there are after these actions.
pub record Storage : Type 0 where
  pub has_snapshot : Bool
  pub has_temporary : Bool
  pub has_row : Bool

abbrev pub replay : List FileAction → Storage
replay [] = record { has_snapshot = false; has_temporary = false; has_row = false }
replay (writes_temporary ∷ log) = record (replay log) { has_temporary = true }
replay (removes_temporary ∷ log) = record (replay log) { has_temporary = false }
replay (publishes ∷ log) = record (replay log) { has_snapshot = true; has_temporary = false }
replay (inserts_row ∷ log) = record (replay log) { has_row = true }
replay (removes_final ∷ log) = record (replay log) { has_snapshot = false }

-- Nothing stands in the way of cleaning up: no sync fails, and no removal.
abbrev pub is_clean : Files → Bool
is_clean files = files.syncs_file && (files.syncs_directory && files.removes)

-- Whatever the filesystem, the encoder and the repository answer: there is a row exactly when the
-- alert is kept; a kept alert has its snapshot, and one that is not kept leaves a snapshot, and any
-- alert a temporary file, only if a sync or a removal fails.
pub replay-persist :
    (directory : List ℕ) (frame : Frame) (files : Files)
    → let kept = is_some (persist directory frame files).0 in
      let storage = replay (persist directory frame files).1 in
      (storage.has_row ≡ kept)
      × ((kept || (storage.has_snapshot && not (is_clean files))) ≡ storage.has_snapshot)
      × ((storage.has_temporary && (kept || is_clean files)) ≡ false)
unfolding persist
replay-persist directory frame files = ground arith

-- A failed sync of the directory leaves the snapshot without its row.
replay-unsynced :
    (directory : List ℕ) (frame : Frame) (files : Files)
    → is_invalid directory frame ≡ false
    → files.creates_directory ≡ true
    → files.encodes ≡ true
    → files.syncs_file ≡ true
    → files.renames ≡ true
    → files.syncs_directory ≡ false
    → ((replay (persist directory frame files).1).has_snapshot ≡ true)
      × ((replay (persist directory frame files).1).has_row ≡ false)
unfolding persist
replay-unsynced directory frame files valid created encoded synced renamed unsynced = ground arith

-- A failed insertion and then a failed removal do so as well.
replay-unremoved :
    (directory : List ℕ) (frame : Frame) (files : Files)
    → is_invalid directory frame ≡ false
    → files.creates_directory ≡ true
    → files.encodes ≡ true
    → files.syncs_file ≡ true
    → files.renames ≡ true
    → files.syncs_directory ≡ true
    → files.inserts ≡ false
    → files.removes ≡ false
    → ((replay (persist directory frame files).1).has_snapshot ≡ true)
      × ((replay (persist directory frame files).1).has_row ≡ false)
unfolding persist
replay-unremoved directory frame files valid c e s r d i m = ground arith
