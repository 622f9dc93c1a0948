-- ===== src/SyncLog/Bounds.antt =====
-- What the log holds, and how much.
use iroh_drop.Prelude.{
  ℕ, ◌+◌, ◌-◌, ◌≤◌, ◌<◌, ◌≡◌, inl, inr, ◌||◌, List, [], ◌∷◌, ◌++◌, arith, length, length-append,
  leb, ltb, Bool-cases,
}
use iroh_drop.Text.{Bytes}
use iroh_drop.SyncLog.{
  SyncLog, empty, must_evict, evict_frames, retain_frame, retain_unknown_frame, sync_log_cap,
  sync_log_max_bytes, max_unknown_frames, unknown_frames_max_bytes,
}

abbrev pub total : List Bytes → ℕ
total [] = 0
total (f ∷ fs) = length f + total fs

pub total-append : (fs gs : List Bytes) → total (fs ++ gs) ≡ total fs + total gs
total-append [] gs = omega arith
total-append (f ∷ fs) gs = omega (arith, total-append fs gs)

-- The byte count is exact, and every budget holds.
pub record IsValid (l : SyncLog) : Type 0 where
  pub counted : l.sync_log_bytes ≡ total l.sync_log
  pub frames : length l.sync_log ≤ sync_log_cap
  pub bytes : l.sync_log_bytes ≤ sync_log_max_bytes
  pub unknown : l.unknown_frames ≤ max_unknown_frames
  pub unknown_bytes : l.unknown_frames_bytes ≤ unknown_frames_max_bytes

pub empty-IsValid : IsValid empty
empty-IsValid = omega arith

record HasRoom (room : ℕ) (r : List Bytes × ℕ × ℕ) : Type 0 where
  counted : r.1 ≡ total r.0
  frames : length r.0 < sync_log_cap
  bytes : r.1 + room ≤ sync_log_max_bytes

evict_frames-HasRoom :
    (room : ℕ) (log : List Bytes) (bytes start : ℕ)
    → bytes ≡ total log
    → room ≤ sync_log_max_bytes
    → HasRoom room (evict_frames room log bytes start)
unfolding evict_frames
evict_frames-HasRoom room [] bytes start h fits = omega arith
evict_frames-HasRoom room (f ∷ log) bytes start h fits =
    let ih = evict_frames-HasRoom room log (bytes - length f) (start + 1) (omega arith) fits in
    elim (Bool-cases (must_evict room (f ∷ log) bytes)) [
      | inl more ↦ rw more ih
      | inr stop ↦ rw stop (record { counted = h; frames = ground arith; bytes = ground arith })
    ]

-- A frame that fits the byte budget keeps the log valid.
pub retain_frame-IsValid :
    (f : Bytes) (l : SyncLog)
    → length f ≤ sync_log_max_bytes
    → IsValid l
    → IsValid (retain_frame f l)
unfolding retain_frame
retain_frame-IsValid f l fits v =
    let r = evict_frames (length f) l.sync_log l.sync_log_bytes l.sync_log_start in
    let h =
      evict_frames-HasRoom (length f) l.sync_log l.sync_log_bytes l.sync_log_start v.counted fits in
    record {
      counted = omega (arith, total-append r.0 (f ∷ []), h.counted);
      frames = omega (arith, length-append r.0 (f ∷ []), h.frames);
      bytes = h.bytes;
      unknown = v.unknown;
      unknown_bytes = v.unknown_bytes;
    }

-- A frame of an unknown kind keeps the log valid, whatever its size: its budget is checked first.
pub retain_unknown_frame-IsValid :
    (f : Bytes) (l : SyncLog) → IsValid l → IsValid (retain_unknown_frame f l)
unfolding retain_unknown_frame
retain_unknown_frame-IsValid f l v =
    let l' = record l {
      unknown_frames = l.unknown_frames + 1;
      unknown_frames_bytes = l.unknown_frames_bytes + length f;
    } in
    elim (Bool-cases (
      leb max_unknown_frames l.unknown_frames
      || ltb unknown_frames_max_bytes (l.unknown_frames_bytes + length f))) [
        | inl full ↦ rw (full, retain_unknown_frame) v
        | inr free ↦
            rw (free, retain_unknown_frame)
              (retain_frame-IsValid f l' (ground arith) (record {
                counted = v.counted;
                frames = v.frames;
                bytes = v.bytes;
                unknown = ground arith;
                unknown_bytes = ground arith;
              }))
      ]
