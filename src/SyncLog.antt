-- ===== src/SyncLog.antt =====
-- The retained frames of `DropState` (crates/iroh-drop/src/state.rs): the fields `sync_log`,
-- `sync_log_bytes`, `sync_log_start`, `unknown_frames` and `unknown_frames_bytes`, with the methods
-- that touch only them, and the paging loop of `export_history` (session.rs).
pub mod Bounds
pub mod Cursor
pub mod Export
mod Tests
use iroh_drop.Prelude.{
  ℕ, zero, suc, ◌+◌, ◌-◌, ◌*◌, Bool, true, false, ◌&&◌, ◌||◌, List, [], ◌∷◌, ◌++◌, length, take,
  drop, leb, ltb, min, ◌==◌, if◌then◌else◌,
}
use iroh_drop.Text.{Bytes}

abbrev pub sync_log_cap : ℕ
sync_log_cap = 4096

abbrev pub sync_log_max_bytes : ℕ
sync_log_max_bytes = 32 * 1024 * 1024

abbrev pub max_unknown_frames : ℕ
max_unknown_frames = 256

abbrev pub unknown_frames_max_bytes : ℕ
unknown_frames_max_bytes = 4 * 1024 * 1024

pub record SyncLog : Type 0 where
  pub sync_log : List Bytes
  pub sync_log_bytes : ℕ
  pub sync_log_start : ℕ
  pub unknown_frames : ℕ
  pub unknown_frames_bytes : ℕ

abbrev pub empty : SyncLog
empty = record {
  sync_log = [];
  sync_log_bytes = 0;
  sync_log_start = 0;
  unknown_frames = 0;
  unknown_frames_bytes = 0;
}

-- The `while` loop of `retain_frame`: whether it goes on, and one round for each frame that it drops.
abbrev pub must_evict : ℕ → List Bytes → ℕ → Bool
must_evict room log bytes = leb sync_log_cap (length log) || ltb sync_log_max_bytes (bytes + room)

unfoldable pub evict_frames : ℕ → List Bytes → ℕ → ℕ → List Bytes × ℕ × ℕ
evict_frames room [] bytes start = ([], bytes, start)
evict_frames room (evicted ∷ log) bytes start =
    let rest = evict_frames room log (bytes - length evicted) (start + 1) in
    if must_evict room (evicted ∷ log) bytes then rest else (evicted ∷ log, bytes, start)

unfoldable pub retain_frame : Bytes → SyncLog → SyncLog
unfolding evict_frames
retain_frame frame l =
    let (log, bytes, start) =
      evict_frames (length frame) l.sync_log l.sync_log_bytes l.sync_log_start in
    record l {
      sync_log = log ++ frame ∷ [];
      sync_log_bytes = bytes + length frame;
      sync_log_start = start;
    }

unfoldable pub retain_unknown_frame : Bytes → SyncLog → SyncLog
unfolding retain_frame
retain_unknown_frame frame l =
    if leb max_unknown_frames l.unknown_frames
      || ltb unknown_frames_max_bytes (l.unknown_frames_bytes + length frame)
    then l
    else retain_frame frame (record l {
      unknown_frames = l.unknown_frames + 1;
      unknown_frames_bytes = l.unknown_frames_bytes + length frame;
    })

unfoldable pub retained_frames : SyncLog → List Bytes
retained_frames l = l.sync_log

pub record SyncPage : Type 0 where
  pub frames : List Bytes
  pub end_cursor : ℕ
  pub caught_up : Bool
  pub oldest_cursor : ℕ

unfoldable pub sync_frames : ℕ → ℕ → SyncLog → SyncPage
sync_frames cursor max_frames l =
    let start = cursor - l.sync_log_start in
    let stop = min (start + max_frames) (length l.sync_log) in
    if leb (length l.sync_log) start
    then record {
      frames = [];
      end_cursor = l.sync_log_start + length l.sync_log;
      caught_up = true;
      oldest_cursor = l.sync_log_start;
    }
    else record {
      frames = take (stop - start) (drop start l.sync_log);
      end_cursor = l.sync_log_start + stop;
      caught_up = stop == length l.sync_log;
      oldest_cursor = l.sync_log_start;
    }

-- The loop of `export_history`, on fuel: `export_history` gives one more than there are frames.
unfoldable pub export_loop : ℕ → ℕ → SyncLog → List Bytes
export_loop zero cursor l = []
export_loop (suc fuel) cursor l =
    let page = sync_frames cursor 256 l in
    let rest = export_loop fuel page.end_cursor l in
    elim page.frames [
      | [] ↦ []
      | f ∷ fs ↦ if page.caught_up then page.frames else page.frames ++ rest
    ]

unfoldable pub export_history : SyncLog → List Bytes
export_history l = export_loop (length l.sync_log + 1) 0 l
