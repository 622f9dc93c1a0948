-- ===== src/SyncLog/Cursor.antt =====
-- Absolute cursors: what they point at, and what a page holds.
use iroh_drop.Prelude.{
  ℕ, suc, ◌+◌, ◌-◌, ◌≤◌, ◌<◌, ◌≡◌, ◌∙◌, refl, sym, ap, inl, inr, true, false, Option, none, some,
  List, [], ◌∷◌, ◌++◌, arith, length, length-append, length-take, length-drop, take, drop,
  drop-drop, take-append-drop, drop_of_length-le, get_elem?, get_elem?-drop, leb, le→leb, leb→le,
  ◌==◌, zero, ◌↔◌, if◌then◌else◌, Bool-cases, min, max,
}
use iroh_drop.Text.{Bytes}
use iroh_drop.SyncLog.{SyncLog, SyncPage, must_evict, evict_frames, retain_frame, sync_frames}

-- The cursor past the newest frame.
abbrev pub end_of : SyncLog → ℕ
end_of l = l.sync_log_start + length l.sync_log

-- The retained frame of an absolute cursor.
unfoldable pub frame_at : ℕ → SyncLog → Option Bytes
frame_at c l = if leb l.sync_log_start c then get_elem? l.sync_log (c - l.sync_log_start) else none

evict_frames_lem :
    (room : ℕ) (log : List Bytes) (bytes start : ℕ)
    → let r = evict_frames room log bytes start in
      (k : ℕ) × (k ≤ length log) × (r.0 ≡ drop k log) × (r.2 ≡ start + k)
unfolding evict_frames
evict_frames_lem room [] bytes start = (0, omega arith, refl, omega arith)
evict_frames_lem room (f ∷ log) bytes start = elim (Bool-cases (must_evict room (f ∷ log) bytes)) [
  | inl more ↦
      let (k, le, e, s) = evict_frames_lem room log (bytes - length f) (start + 1) in
      rw more (suc k, omega arith, e, omega arith)
  | inr stop ↦ rw stop (0, omega arith, refl, omega arith)
]

get_elem?_pushed :
    (xs : List Bytes) (y : Bytes) (i : ℕ)
    → get_elem? (xs ++ y ∷ []) i ≡ (if i == length xs then some y else get_elem? xs i)
get_elem?_pushed [] y zero = refl
get_elem?_pushed [] y (suc i) = ground arith
get_elem?_pushed (x ∷ xs) y zero = ground arith
get_elem?_pushed (x ∷ xs) y (suc i) = ground (arith, get_elem?_pushed xs y i)

-- A new frame takes the next cursor, and every frame that stays in the log keeps its own.
pub frame_at-retain_frame :
    (f : Bytes) (l : SyncLog) (c : ℕ)
    → (retain_frame f l).sync_log_start ≤ c
    → (end_of (retain_frame f l) ≡ end_of l + 1)
      × (frame_at c (retain_frame f l) ≡ (if c == end_of l then some f else frame_at c l))
unfolding retain_frame frame_at
frame_at-retain_frame f l c h =
    let r = evict_frames (length f) l.sync_log l.sync_log_bytes l.sync_log_start in
    let (k, le, e, s) = evict_frames_lem (length f) l.sync_log l.sync_log_bytes l.sync_log_start in
    let len : length r.0 ≡ length l.sync_log - k = ap length e ∙ length-drop k l.sync_log in
    (
      omega (arith, length-append r.0 (f ∷ [])),
      rw (frame_at, le→leb (r.2) c h, le→leb l.sync_log_start c (omega arith))
          (get_elem?_pushed r.0 f (c - r.2)
            ∙ rw e (
                let there : get_elem? (drop k l.sync_log) (c - r.2)
                    ≡ get_elem? l.sync_log (c - l.sync_log_start) =
                  get_elem?-drop k (c - r.2) l.sync_log ∙ ap (get_elem? l.sync_log) (omega arith) in
                ground arith)),
    )

-- What a page is, for the cursor and the number of frames that were asked for.
pub record IsPage (cursor max_frames : ℕ) (l : SyncLog) (p : SyncPage) : Type 0 where
  pub consecutive :
      p.frames ++ drop (p.end_cursor - l.sync_log_start) l.sync_log
      ≡ drop (cursor - l.sync_log_start) l.sync_log
  pub bounded : length p.frames ≤ max_frames
  pub oldest : p.oldest_cursor ≡ l.sync_log_start
  pub starting : l.sync_log_start ≤ p.end_cursor
  pub ending : p.end_cursor ≤ end_of l
  pub advances :
      cursor - l.sync_log_start < length l.sync_log
      → p.end_cursor ≡ max cursor l.sync_log_start + length p.frames
  pub progress :
      cursor - l.sync_log_start < length l.sync_log → 0 < max_frames → 0 < length p.frames
  pub full : p.caught_up ≡ false → length p.frames ≡ max_frames
  pub caught_up : (p.caught_up ≡ true) ↔ (p.end_cursor ≡ end_of l)

-- A page goes on from the cursor that it was asked for: its frames, with what stands behind its end
-- cursor, are what stands behind that cursor. They are at most as many as asked for, at least one while
-- there are more, and `caught_up` says exactly that the end cursor is the end of the log.
pub sync_frames-IsPage :
    (cursor max_frames : ℕ) (l : SyncLog)
    → IsPage cursor max_frames l (sync_frames cursor max_frames l)
unfolding sync_frames
sync_frames-IsPage cursor max_frames l =
    let log = l.sync_log in
    let start = cursor - l.sync_log_start in
    let stop = min (start + max_frames) (length log) in
    let frames = take (stop - start) (drop start log) in
    elim (Bool-cases (leb (length log) start)) [
      | inl out ↦
          rw (out, sync_frames)
            (record {
              consecutive =
                  drop_of_length-le ((l.sync_log_start + length log) - l.sync_log_start) log
                    (omega arith)
                  ∙ sym (drop_of_length-le start log (leb→le (length log) start out));
              bounded = omega arith;
              oldest = refl;
              starting = omega arith;
              ending = omega arith;
              advances = λ h. ground arith;
              progress = λ h g. ground arith;
              full = λ h. ground arith;
              caught_up = (λ h. refl, λ h. refl);
            })
      | inr more ↦
          let inside : start < length log = ground arith in
          let count : length frames ≡ stop - start =
            length-take (stop - start) (drop start log) ∙ omega (arith, length-drop start log) in
          rw (more, sync_frames)
            (record {
              consecutive =
                  ap (λ n. frames ++ drop n log) {x = (l.sync_log_start + stop) - l.sync_log_start}
                    {y = start + (stop - start)} (omega arith)
                  ∙ ap (λ (t : List Bytes). frames ++ t) (sym (drop-drop (stop - start) start log))
                  ∙ take-append-drop (stop - start) (drop start log);
              bounded = omega arith;
              oldest = refl;
              starting = omega arith;
              ending = omega arith;
              advances = λ h. omega arith;
              progress = λ h g. omega arith;
              full = λ h. ground arith;
              caught_up = ground arith;
            })
    ]
