-- ===== src/Sync/Budgets.antt =====
-- The budgets of a catch-up, against any answers.
use iroh_drop.Prelude.{
  ℕ, zero, suc, ◌+◌, ◌≤◌, ◌<◌, ◌≡◌, refl, ap, inl, inr, false, not, ◌||◌, Option, List, [], ◌∷◌,
  arith, length, length-append, ltb, ◌==◌, Bool-cases, Option-cases,
}
use iroh_drop.Text.{Bytes}
use iroh_drop.Message.{wire_version}
use iroh_drop.Seal.{Kdf}
use iroh_drop.SyncLog.Bounds.{total, total-append}
use iroh_drop.Sync.{
  read_answer, Codec, Pull, Requester, SyncRequestV1, pull_frames, pull_loop, pull, make_request,
  cursor_or_zero, max_total_frames, max_total_bytes_per_attempt, max_pages_per_attempt,
}

-- What a run from these totals may replay.
pub record IsWithin (count bytes : ℕ) (p : Pull) : Type 0 where
  pub frames : count + length p.replayed ≤ max_total_frames
  pub size : bytes + total p.replayed ≤ max_total_bytes_per_attempt
  pub counted :
      p.exceeded ≡ false
      → (p.total ≡ count + length p.replayed) × (p.total_bytes ≡ bytes + total p.replayed)

pub pull_frames-IsWithin :
    (fs : List Bytes) (count bytes : ℕ)
    → count ≤ max_total_frames
    → bytes ≤ max_total_bytes_per_attempt
    → IsWithin count bytes (pull_frames fs count bytes)
unfolding pull_frames
pull_frames-IsWithin [] count bytes h g = record {
  frames = omega arith;
  size = omega arith;
  counted = λ e. (omega arith, omega arith);
}
pull_frames-IsWithin (f ∷ fs) count bytes h g =
    elim (Bool-cases
      (ltb max_total_frames (count + 1) || ltb max_total_bytes_per_attempt (bytes + length f))) [
        | inl over ↦
            rw (over, pull_frames)
              (record { frames = omega arith; size = omega arith; counted = λ e. ground arith })
        | inr room ↦
            let ih =
              pull_frames-IsWithin fs (count + 1) (bytes + length f) (ground arith)
                (ground arith) in
            rw (room, pull_frames)
              (record {
                frames = omega (arith, ih.frames);
                size = omega (arith, ih.size);
                counted = λ e. (omega (arith, (ih.counted e).0), omega (arith, (ih.counted e).1));
              })
      ]

-- While the budgets last, a page is replayed as it is.
pub pull_frames_all :
    (fs : List Bytes) (count bytes : ℕ)
    → count + length fs ≤ max_total_frames
    → bytes + total fs ≤ max_total_bytes_per_attempt
    → ((pull_frames fs count bytes).replayed ≡ fs) × ((pull_frames fs count bytes).exceeded ≡ false)
unfolding pull_frames
pull_frames_all [] count bytes h g = (refl, refl)
pull_frames_all (f ∷ fs) count bytes h g =
    let ih = pull_frames_all fs (count + 1) (bytes + length f) (omega arith) (omega arith) in
    let room : (ltb max_total_frames (count + 1)
          || ltb max_total_bytes_per_attempt (bytes + length f))
        ≡ false =
      ground arith in
    rw (room, pull_frames) (ap (◌∷◌ f) ih.0, ih.1)

module _ (kdf : Kdf) (codec : Codec) (ask : ℕ → SyncRequestV1 → Option Bytes) (who : Requester)
    (page_size : ℕ) where
  pull_loop-IsWithin :
      (fuel pages cursor count bytes : ℕ)
      → count ≤ max_total_frames
      → bytes ≤ max_total_bytes_per_attempt
      → IsWithin count bytes (pull_loop kdf codec ask who page_size fuel pages cursor count bytes)
  unfolding pull_loop
  pull_loop-IsWithin zero pages cursor count bytes h g = pull_frames-IsWithin [] count bytes h g
  pull_loop-IsWithin (suc fuel) pages cursor count bytes h g =
      elim (Option-cases
        (read_answer codec (ask pages (make_request kdf codec who cursor page_size)))) [
          | inl e ↦ rw (e, pull_loop) (pull_frames-IsWithin [] count bytes h g)
          | inr (r, e) ↦
              let p = pull_frames r.frames count bytes in
              let w = pull_frames-IsWithin r.frames count bytes h g in
              let next = cursor_or_zero r.next_cursor in
              elim (Bool-cases
                (not (r.version == wire_version) || ltb max_pages_per_attempt (pages + 1))) [
                  | inl stop ↦ rw (e, stop, pull_loop) (pull_frames-IsWithin [] count bytes h g)
                  | inr go ↦ elim (Bool-cases p.exceeded) [
                    | inl over ↦ rw (e, go, over, pull_loop) w
                    | inr room ↦ elim (Bool-cases (ltb cursor next)) [
                      | inr last ↦ rw (e, go, room, last, pull_loop) w
                      | inl more ↦
                          let c = w.counted room in
                          let ih =
                            pull_loop-IsWithin fuel (pages + 1) next p.total p.total_bytes
                              (omega (arith, c.0, w.frames)) (omega (arith, c.1, w.size)) in
                          rw (e, go, room, more, pull_loop)
                            (record {
                              frames = omega (
                                arith,
                                ih.frames,
                                c.0,
                                length-append p.replayed
                                    (pull_loop kdf codec ask who page_size fuel (pages + 1) next
                                      p.total p.total_bytes).replayed,
                              );
                              size = omega (
                                arith,
                                ih.size,
                                c.1,
                                total-append p.replayed
                                    (pull_loop kdf codec ask who page_size fuel (pages + 1) next
                                      p.total p.total_bytes).replayed,
                              );
                              counted = λ d. (
                                omega (
                                  arith,
                                  (ih.counted d).0,
                                  c.0,
                                  length-append p.replayed
                                      (pull_loop kdf codec ask who page_size fuel (pages + 1) next
                                        p.total p.total_bytes).replayed,
                                ),
                                omega (
                                  arith,
                                  (ih.counted d).1,
                                  c.1,
                                  total-append p.replayed
                                      (pull_loop kdf codec ask who page_size fuel (pages + 1) next
                                        p.total p.total_bytes).replayed,
                                ),
                              );
                            })
                    ]
                  ]
                ]
        ]

  -- Whatever a peer answers, one catch-up replays no more frames and no more bytes than its budgets.
  pub pull-le :
      (length (pull kdf codec ask who page_size).replayed ≤ max_total_frames)
      × (total (pull kdf codec ask who page_size).replayed ≤ max_total_bytes_per_attempt)
  unfolding pull
  pull-le =
      let w = pull_loop-IsWithin (max_pages_per_attempt + 1) 0 0 0 0 (omega arith) (omega arith) in
      (omega (arith, w.frames), omega (arith, w.size))

  -- The fuel suffices whatever a peer answers: once it covers the page budget, more of it changes
  -- nothing.
  pub pull_loop_fuel :
      (fuel pages cursor count bytes : ℕ)
      → max_pages_per_attempt < fuel + pages
      → pull_loop kdf codec ask who page_size (suc fuel) pages cursor count bytes
        ≡ pull_loop kdf codec ask who page_size fuel pages cursor count bytes
  unfolding pull_loop
  pull_loop_fuel zero pages cursor count bytes h =
      elim (Option-cases
        (read_answer codec (ask pages (make_request kdf codec who cursor page_size)))) [
          | inl e ↦ rw (e, pull_loop) refl
          | inr (r, e) ↦ ground arith
        ]
  pull_loop_fuel (suc fuel) pages cursor count bytes h =
      elim (Option-cases
        (read_answer codec (ask pages (make_request kdf codec who cursor page_size)))) [
          | inl e ↦ rw (e, pull_loop) refl
          | inr (r, e) ↦
              let p = pull_frames r.frames count bytes in
              let ih =
                pull_loop_fuel fuel (pages + 1) (cursor_or_zero r.next_cursor) p.total p.total_bytes
                  (omega arith) in
              rw (e, ih, pull_loop) refl
        ]
