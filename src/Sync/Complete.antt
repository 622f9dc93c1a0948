-- ===== src/Sync/Complete.antt =====
-- A catch-up with a peer whose log stands still: the whole log arrives.
use iroh_drop.Prelude.{
  ℕ, zero, suc, ◌+◌, ◌-◌, ◌*◌, ◌≤◌, ◌<◌, ◌≡◌, ◌∙◌, refl, sym, ap, subst, ◌⊎◌, inl, inr, true, false,
  not, ◌||◌, Option, some, List, [], ◌∷◌, ◌++◌, arith, length, length-append, length-drop, drop,
  drop-drop, take-append-drop, drop_of_length-le, append-nil, All, ltb, lt→ltb, max, min, ◌==◌,
  Option-cases,
}
use iroh_drop.Text.{Bytes}
use iroh_drop.Message.{wire_version, max_message_size, TopicId}
use iroh_drop.Seal.{Kdf}
use iroh_drop.SyncLog.{SyncLog}
use iroh_drop.SyncLog.Bounds
use iroh_drop.SyncLog.Bounds.{total, total-append}
use iroh_drop.Sync.{
  read_answer, op_sync_page, ControlResponseV1, Codec, Pull, Requester, Session, SyncRequestV1,
  SyncResponseV1, pull_frames, pull_loop, pull, make_request, page_of, sync_page, cursor_or_zero,
  max_total_frames, max_total_bytes_per_attempt, max_pages_per_attempt, max_frames_per_page,
  max_response_bytes,
}
use iroh_drop.Sync.Serving.{
  IsSmall, Exceeds-small, All-drop, IsServed, IsMember, page_of-IsServed, sync_page_member,
  cursor_of_request, max_frames_of_request,
}
use iroh_drop.Sync.Budgets.{pull_frames-IsWithin, pull_frames_all}

-- A page that is not the last is full: it has as many frames as were asked for, or so many bytes that no
-- further frame fits.
abbrev pub full_page_bytes : ℕ
full_page_bytes = max_response_bytes - max_message_size

module _ (kdf : Kdf) (codec : Codec) (who : Requester) (l : SyncLog)
    (ask : ℕ → SyncRequestV1 → Option Bytes)
    (answers : (n cursor : ℕ)
      → (r : SyncResponseV1) × (read_answer codec
            (ask n (make_request kdf codec who cursor max_frames_per_page))
          ≡ some r)
        × IsServed cursor max_frames_per_page l r)
    (small : All IsSmall l.sync_log) where
  rest_of : ℕ → List Bytes
  rest_of cursor = drop (cursor - l.sync_log_start) l.sync_log

  -- One round of the loop, after a page that is replayed whole.
  module _ (fuel pages cursor count bytes : ℕ) (r : SyncResponseV1)
      (e : read_answer codec (ask pages (make_request kdf codec who cursor max_frames_per_page))
        ≡ some r)
      (go : (not (r.version == wire_version) || ltb max_pages_per_attempt (pages + 1)) ≡ false)
      (room : (pull_frames r.frames count bytes).exceeded ≡ false) where
    next_pull : Pull
    next_pull =
        let p = pull_frames r.frames count bytes in
        pull_loop kdf codec ask who max_frames_per_page fuel (pages + 1)
          (cursor_or_zero r.next_cursor) p.total p.total_bytes

    last_round :
        ltb cursor (cursor_or_zero r.next_cursor) ≡ false
        → (pull_loop kdf codec ask who max_frames_per_page
            (suc fuel)
            pages
            cursor
            count
            bytes).replayed
          ≡ (pull_frames r.frames count bytes).replayed
    unfolding pull_loop
    last_round last = rw (e, go, room, last, pull_loop) refl

    one_round :
        ltb cursor (cursor_or_zero r.next_cursor) ≡ true
        → (pull_loop kdf codec ask who max_frames_per_page
            (suc fuel)
            pages
            cursor
            count
            bytes).replayed
          ≡ (pull_frames r.frames count bytes).replayed ++ next_pull.replayed
    unfolding pull_loop next_pull
    one_round more = rw (e, go, room, more, pull_loop) refl

  nonempty : (fs : List Bytes) → 0 < total fs → 0 < length fs
  nonempty [] h = absurd (omega arith)
  nonempty (f ∷ fs) h = omega arith

  -- With room for `a` pages full of frames and `b` pages full of bytes, the loop takes all that stands
  -- behind the cursor.
  pull_loop_rest :
      (fuel pages cursor count bytes a b : ℕ)
      → length (rest_of cursor) ≤ a * max_frames_per_page
      → total (rest_of cursor) ≤ b * full_page_bytes
      → a + b < fuel
      → pages + a + b < max_pages_per_attempt
      → count + length (rest_of cursor) ≤ max_total_frames
      → bytes + total (rest_of cursor) ≤ max_total_bytes_per_attempt
      → (pull_loop kdf codec ask who max_frames_per_page fuel pages cursor count bytes).replayed
        ≡ rest_of cursor
  unfolding rest_of next_pull
  pull_loop_rest zero pages cursor count bytes a b ha hb hf hp hc hs = absurd (omega arith)
  pull_loop_rest (suc fuel) pages cursor count bytes a b ha hb hf hp hc hs =
      let (r, e, served) = answers pages cursor in
      let rest = rest_of cursor in
      let later = drop (length r.frames) rest in
      let split : r.frames ++ later ≡ rest =
        ap (λ (t : List Bytes). t ++ later) served.frames
        ∙ take-append-drop (length r.frames) rest in
      let lengths : length r.frames + length later ≡ length rest =
        sym (length-append r.frames later) ∙ ap length split in
      let sizes : total r.frames + total later ≡ total rest =
        sym (total-append r.frames later) ∙ ap total split in
      let p = pull_frames r.frames count bytes in
      let all =
        pull_frames_all r.frames count bytes (omega (arith, lengths)) (omega (arith, sizes)) in
      let w = pull_frames-IsWithin r.frames count bytes (omega arith) (omega arith) in
      let go : (not (r.version == wire_version) || ltb max_pages_per_attempt (pages + 1)) ≡ false =
        ground (arith, served.version) in
      let there : length rest ≡ length l.sync_log - (cursor - l.sync_log_start) =
        length-drop (cursor - l.sync_log_start) l.sync_log in
      elim (Option-cases r.next_cursor) [
        | inl done ↦
            let nothing : later ≡ [] =
              drop_of_length-le (length r.frames) rest
                (omega (arith, served.finished done, there)) in
            last_round fuel pages cursor count bytes r e go all.1 (rw done (ground arith))
            ∙ all.0
            ∙ sym (append-nil r.frames)
            ∙ ap (λ (t : List Bytes). r.frames ++ t) (sym nothing)
            ∙ split
        | inr (n, more) ↦
            let (at, next) = served.goes_on n more in
            let full : (max_frames_per_page ≤ length r.frames)
                ⊎ (max_response_bytes < total r.frames + max_message_size) =
              elim next [
                | inl by_count ↦ inl by_count
                | inr by_size ↦ inr (
                    Exceeds-small max_response_bytes (total r.frames)
                      (drop (n - l.sync_log_start) l.sync_log)
                      (All-drop (n - l.sync_log_start) l.sync_log small) by_size)
              ] in
            let some_frames : 0 < length r.frames = elim full [
              | inl by_count ↦ omega (arith, by_count)
              | inr by_size ↦ nonempty r.frames (omega (arith, by_size))
            ] in
            let moves : ltb cursor (cursor_or_zero r.next_cursor) ≡ true =
              ap (λ o. ltb cursor (cursor_or_zero o)) more
              ∙ lt→ltb cursor n (omega (arith, at, some_frames)) in
            let behind : rest_of (cursor_or_zero r.next_cursor) ≡ later =
              ap (λ o. rest_of (cursor_or_zero o)) more
              ∙ ap (λ k. drop k l.sync_log) {x = n - l.sync_log_start}
                  {y = (cursor - l.sync_log_start) + length r.frames} (omega (arith, at))
              ∙ sym (drop-drop (length r.frames) (cursor - l.sync_log_start) l.sync_log) in
            let fewer = ap length behind in
            let smaller = ap total behind in
            let counted = w.counted all.1 in
            let replayed = ap length all.0 in
            let weighed = ap total all.0 in
            let step = λ (a' b' : ℕ).
              pull_loop_rest fuel (pages + 1) (cursor_or_zero r.next_cursor) p.total p.total_bytes
                a' b' in
            let tail : (next_pull fuel pages cursor count bytes r e go all.1).replayed
                ≡ rest_of (cursor_or_zero r.next_cursor) =
              elim full [
                | inl by_count ↦
                    step (a - 1) b (omega (arith, fewer, lengths, by_count))
                      (omega (arith, smaller, sizes)) (omega (arith, by_count, lengths))
                      (omega (arith, by_count, lengths))
                      (omega (arith, counted.0, replayed, fewer, lengths))
                      (omega (arith, counted.1, weighed, smaller, sizes))
                | inr by_size ↦
                    step a (b - 1) (omega (arith, fewer, lengths))
                      (omega (arith, smaller, sizes, by_size)) (omega (arith, by_size, sizes))
                      (omega (arith, by_size, sizes))
                      (omega (arith, counted.0, replayed, fewer, lengths))
                      (omega (arith, counted.1, weighed, smaller, sizes))
              ] in
            one_round fuel pages cursor count bytes r e go all.1 moves
            ∙ ap
                (λ (t : List Bytes).
                  t ++ (next_pull fuel pages cursor count bytes r e go all.1).replayed)
                all.0
            ∙ ap (λ (t : List Bytes). r.frames ++ t) (tail ∙ behind)
            ∙ split
      ]

-- What the library says of the codec: a response is read back.
pub record IsCodec (codec : Codec) : Type 0 where
  pub take-encode_response :
      (r : ControlResponseV1) → codec.take_response (codec.encode_response r) ≡ some r
  pub take-encode_page : (p : SyncResponseV1) → codec.take_page (codec.encode_page p) ≡ some p

-- The bytes of an answer with a page.
abbrev pub page_bytes : Codec → SyncResponseV1 → Bytes
page_bytes codec p =
    codec.encode_response
      (record { version = wire_version; op = op_sync_page; payload = codec.encode_page p })

read_answer-page_bytes :
    (codec : Codec) (p : SyncResponseV1)
    → IsCodec codec
    → length (page_bytes codec p) ≤ max_response_bytes
    → read_answer codec (some (page_bytes codec p)) ≡ some p
unfolding read_answer
read_answer-page_bytes codec p laws fits =
    let envelope : ControlResponseV1 = record {
      version = wire_version;
      op = op_sync_page;
      payload = codec.encode_page p;
    } in
    let short : ltb max_response_bytes (length (page_bytes codec p)) ≡ false = ground arith in
    rw (short, laws.take-encode_response envelope, read_answer) (laws.take-encode_page p)

-- A member that catches up with a peer, while its log stands still, takes from it, for its replay,
-- exactly the retained log, in order: the budgets of frames, bytes and pages suffice for every log
-- within the limits of the log, if its frames are no larger than a message may be. The peer must answer
-- every request, so its limiter must allow every page, and each encoded page must be within what the
-- member reads of an answer.
pub pull-sync_page :
    (kdf : Kdf) (codec : Codec) (sessions : TopicId → Option Session) (s : Session)
    (who : Requester) (ask : ℕ → SyncRequestV1 → Option Bytes)
    → IsCodec codec
    → sessions who.topic_id ≡ some s
    → s.self_id ≡ who.peer_id
    → IsMember s who
    → All IsSmall s.log.sync_log
    → Bounds.IsValid s.log
    → ((n cursor : ℕ)
        → let request = make_request kdf codec who cursor max_frames_per_page in
          ask n request
          ≡ some (page_bytes codec (sync_page kdf codec sessions request who.self_id)))
    → ((cursor : ℕ)
        → length (
            page_bytes codec
              (page_of (make_request kdf codec who cursor max_frames_per_page) s.log))
          ≤ max_response_bytes)
    → (pull kdf codec ask who max_frames_per_page).replayed ≡ s.log.sync_log
unfolding pull rest_of
pull-sync_page kdf codec sessions s who ask laws there here member small v answered readable =
    pull_loop_rest kdf codec who s.log ask answers small (max_pages_per_attempt + 1) 0 0 0 0 16 74
      (omega (arith, whole, v.frames)) (omega (arith, sized, v.counted, v.bytes)) (omega arith)
      (omega arith) (omega (arith, whole, v.frames)) (omega (arith, sized, v.counted, v.bytes))
    ∙ log_of_0
  where
    log_of_0 : drop (0 - s.log.sync_log_start) s.log.sync_log ≡ s.log.sync_log
    log_of_0 = ap (λ n. drop n s.log.sync_log) {x = 0 - s.log.sync_log_start} {y = 0} (omega arith)

    whole : length (drop (0 - s.log.sync_log_start) s.log.sync_log) ≡ length s.log.sync_log
    whole = ap length log_of_0

    sized : total (drop (0 - s.log.sync_log_start) s.log.sync_log) ≡ total s.log.sync_log
    sized = ap total log_of_0

    answers :
        (n cursor : ℕ)
        → (r : SyncResponseV1) × (read_answer codec
              (ask n (make_request kdf codec who cursor max_frames_per_page))
            ≡ some r)
          × IsServed cursor max_frames_per_page s.log r
    answers n cursor =
        let request = make_request kdf codec who cursor max_frames_per_page in
        (
          page_of request s.log,
          ap (read_answer codec) (
                answered n cursor
                ∙ ap (λ p. some (page_bytes codec p))
                    (sync_page_member kdf codec sessions s who cursor max_frames_per_page there here
                      member))
              ∙ read_answer-page_bytes codec (page_of request s.log) laws (readable cursor),
          subst (λ c. IsServed c max_frames_per_page s.log (page_of request s.log))
              (cursor_of_request kdf codec who cursor max_frames_per_page)
              (subst
                (λ m.
                  IsServed request.cursor (min (max m 1) max_frames_per_page) s.log
                    (page_of request s.log))
                (max_frames_of_request kdf codec who cursor max_frames_per_page)
                (page_of-IsServed request s.log)),
        )
