-- ===== src/SyncLog/Export.antt =====
-- `export_history` pages through the whole log.
use iroh_drop.Prelude.{
  ℕ, zero, suc, ◌+◌, ◌-◌, ◌≤◌, ◌<◌, ◌≡◌, ◌∙◌, sym, ap, inl, inr, List, [], ◌∷◌, ◌++◌, arith, length,
  drop, drop_of_length-le, append-nil, Bool-cases, List-cases, ltb, ltb→lt, false→le, length-append,
}
use iroh_drop.Text.{Bytes}
use iroh_drop.SyncLog.{SyncLog, SyncPage, sync_frames, export_loop, export_history, retained_frames}
use iroh_drop.SyncLog.Cursor.{IsPage, sync_frames-IsPage}

no_more :
    (cursor : ℕ) (l : SyncLog) (page : SyncPage)
    → IsPage cursor 256 l page
    → page.frames ≡ []
    → length l.sync_log ≤ cursor - l.sync_log_start
no_more cursor l page p e =
    elim (Bool-cases (ltb (cursor - l.sync_log_start) (length l.sync_log))) [
      | inl inside ↦
          absurd (omega (arith, p.progress (ltb→lt _ _ inside) (omega arith), ap length e))
      | inr out ↦ false→le _ _ out
    ]

-- A page with a frame on it leaves less behind its end.
moved :
    (cursor : ℕ) (l : SyncLog) (page : SyncPage) (f : Bytes) (fs : List Bytes)
    → IsPage cursor 256 l page
    → page.frames ≡ f ∷ fs
    → length l.sync_log - (page.end_cursor - l.sync_log_start)
      < length l.sync_log - (cursor - l.sync_log_start)
moved cursor l page f fs p e =
    elim (Bool-cases (ltb (cursor - l.sync_log_start) (length l.sync_log))) [
      | inl inside ↦
          omega (arith, p.advances (ltb→lt _ _ inside), ap length e, p.ending, ltb→lt _ _ inside)
      | inr out ↦
          let nothing =
            drop_of_length-le (cursor - l.sync_log_start) l.sync_log (false→le _ _ out) in
          absurd (
            omega (
              arith,
              ap length (p.consecutive ∙ nothing),
              ap length e,
              length-append page.frames (drop (page.end_cursor - l.sync_log_start) l.sync_log),
            ))
    ]

-- From any cursor the loop gives what stands behind it.
export_loop_lem :
    (fuel cursor : ℕ) (l : SyncLog)
    → length l.sync_log - (cursor - l.sync_log_start) < fuel
    → export_loop fuel cursor l ≡ drop (cursor - l.sync_log_start) l.sync_log
unfolding export_loop
export_loop_lem zero cursor l h = absurd (omega arith)
export_loop_lem (suc fuel) cursor l h =
    let page = sync_frames cursor 256 l in
    let p = sync_frames-IsPage cursor 256 l in
    elim (List-cases page.frames) [
      | inl e ↦
          rw (e, export_loop)
            (sym (
              drop_of_length-le (cursor - l.sync_log_start) l.sync_log (no_more cursor l page p e)))
      | inr (f, fs, e) ↦ elim (Bool-cases page.caught_up) [
        | inl done ↦
            rw (e, done, export_loop)
              (sym (append-nil page.frames)
                ∙ ap (λ t. page.frames ++ t)
                    (sym (
                      drop_of_length-le (page.end_cursor - l.sync_log_start) l.sync_log
                        (omega (arith, p.caught_up.0 done))))
                ∙ p.consecutive)
        | inr more ↦
            rw (e, more, export_loop)
              (ap (λ t. page.frames ++ t)
                  (export_loop_lem fuel page.end_cursor l
                    (omega (arith, moved cursor l page f fs p e)))
                ∙ p.consecutive)
      ]
    ]

-- The history that is exported is the whole retained log, in order.
pub export_history_lem : (l : SyncLog) → export_history l ≡ retained_frames l
unfolding export_history retained_frames
export_history_lem l =
    export_loop_lem (length l.sync_log + 1) 0 l (omega arith)
    ∙ ap (λ n. drop n l.sync_log) {x = 0 - l.sync_log_start} {y = 0} (omega arith)
