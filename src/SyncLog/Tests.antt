-- ===== src/SyncLog/Tests.antt =====
-- Runs of the retained log, and its theorems at concrete logs.
use iroh_drop.Prelude.{◌+◌, ◌≡◌, refl, true, some, [], ◌∷◌, arith, ◌==◌, if◌then◌else◌}
use iroh_drop.Text.{Bytes}
use iroh_drop.SyncLog.{
  SyncLog, retain_frame, retain_unknown_frame, sync_frames, retained_frames, export_history,
  evict_frames, sync_log_max_bytes,
}
use iroh_drop.SyncLog.Bounds.{IsValid}
use iroh_drop.SyncLog.Cursor.{end_of, frame_at, frame_at-retain_frame, IsPage, sync_frames-IsPage}
use iroh_drop.SyncLog.Export.{export_history_lem}

program : Unit {0}
unfolding retain_frame retain_unknown_frame sync_frames evict_frames frame_at
program = tt

-- Five frames have been evicted; two are retained.
abbrev two : SyncLog
two = record {
  sync_log = (1 ∷ 2 ∷ []) ∷ (3 ∷ []) ∷ [];
  sync_log_bytes = 3;
  sync_log_start = 5;
  unknown_frames = 1;
  unknown_frames_bytes = 1;
}

abbrev frame : Bytes
frame = 4 ∷ 4 ∷ []

two-IsValid : IsValid two
two-IsValid = omega arith

-- A cursor before the log starts at its first frame; one at its end is caught up.
first_page : (sync_frames 0 1 two).end_cursor ≡ 6
unfolding program
first_page = refl

last_page : (sync_frames 6 9 two).caught_up ≡ true
unfolding program
last_page = refl

-- A log at its byte budget drops the oldest frame for the new one.
abbrev full : SyncLog
full = record two { sync_log_bytes = sync_log_max_bytes }

drops_oldest : (retain_frame frame full).sync_log_start ≡ 6
unfolding program
drops_oldest = refl

frame_at-retain_frame_example :
    (end_of (retain_frame frame two) ≡ end_of two + 1)
    × (frame_at 7 (retain_frame frame two)
        ≡ (if 7 == end_of two then some frame else frame_at 7 two))
unfolding retain_frame evict_frames
frame_at-retain_frame_example = frame_at-retain_frame frame two 7 (omega arith)

sync_frames-IsPage_example : IsPage 6 9 two (sync_frames 6 9 two)
sync_frames-IsPage_example = sync_frames-IsPage 6 9 two

export_history_lem_example : export_history two ≡ retained_frames two
export_history_lem_example = export_history_lem two
