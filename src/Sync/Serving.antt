-- ===== src/Sync/Serving.antt =====
-- What a page of a served log holds, and who is served.
use iroh_drop.Prelude.{
  ℕ, zero, suc, ◌+◌, ◌-◌, ◌≤◌, ◌<◌, ◌≡◌, ◌∙◌, ◌⊎◌, ◌↔◌, subst, length-drop, ltb→lt, refl, sym, ap,
  inl, inr, Bool, true, false, not, ◌&&◌, Option, none, some, List, [], ◌∷◌, ◌++◌, arith, length,
  take, drop, All, length-take, max, ltb, if◌then◌else◌, Bool-cases, Option-cases, false→le,
  length-append, drop-drop,
}
use iroh_drop.Text.{Bytes, text_eq_refl, eq_of_text_eq}
use iroh_drop.Message.{EndpointId, TopicId, wire_version, max_message_size}
use iroh_drop.Seal.{Kdf, DropKey, sync_proof, verify_sync_proof_lem}
use iroh_drop.SyncLog.{SyncLog, SyncPage, sync_frames}
use iroh_drop.SyncLog.Bounds.{total}
use iroh_drop.SyncLog.Cursor.{IsPage, sync_frames-IsPage}
use iroh_drop.Ticket.{public_drop, sealed_drop}
use iroh_drop.Sync.{
  Codec, SyncRequestV1, SyncResponseV1, Session, kept_frames, clamp, page_of, empty_page, proves,
  sync_page, is_sealed, max_response_bytes, max_frames_per_page, make_request, Requester,
}

abbrev pub IsSmall : Bytes → Type 0
IsSmall f = length f ≤ max_message_size

-- There is a first frame, and with it the bytes exceed the budget.
abbrev pub Exceeds : ℕ → ℕ → List Bytes → Type 0
Exceeds budget bytes [] = ⊥
Exceeds budget bytes (f ∷ fs) = budget < bytes + length f

pub Exceeds-small :
    (budget bytes : ℕ) (fs : List Bytes)
    → All IsSmall fs
    → Exceeds budget bytes fs
    → budget < bytes + max_message_size
Exceeds-small budget bytes [] a h = absurd h
Exceeds-small budget bytes (f ∷ fs) a h = omega (arith, a.0, h)

-- The frames that are kept fit the budget, and the first that is not kept would exceed it.
record IsKept (budget : ℕ) (fs : List Bytes) (k : ℕ) : Type 0 where
  few : k ≤ length fs
  fit : total (take k fs) ≤ budget
  full : k < length fs → Exceeds budget (total (take k fs)) (drop k fs)

Exceeds-shift :
    (budget n bytes : ℕ) (fs : List Bytes)
    → n ≤ budget
    → Exceeds (budget - n) bytes fs
    → Exceeds budget (n + bytes) fs
Exceeds-shift budget n bytes [] h e = e
Exceeds-shift budget n bytes (f ∷ fs) h e = omega (arith, h, e)

Exceeds-append :
    (budget bytes : ℕ) (xs ys : List Bytes)
    → Exceeds budget bytes xs
    → Exceeds budget bytes (xs ++ ys)
Exceeds-append budget bytes [] ys h = absurd h
Exceeds-append budget bytes (x ∷ xs) ys h = h

drop-append_left :
    (k : ℕ) (xs ys : List Bytes) → k ≤ length xs → drop k (xs ++ ys) ≡ drop k xs ++ ys
drop-append_left zero xs ys h = refl
drop-append_left (suc k) [] ys h = absurd (omega arith)
drop-append_left (suc k) (x ∷ xs) ys h = drop-append_left k xs ys (omega arith)

kept_frames-IsKept : (budget : ℕ) (fs : List Bytes) → IsKept budget fs (kept_frames budget fs)
unfolding kept_frames
kept_frames-IsKept budget [] = record {
  few = omega arith;
  fit = omega arith;
  full = λ h. absurd (omega arith);
}
kept_frames-IsKept budget (f ∷ fs) =
    let ih = kept_frames-IsKept (budget - length f) fs in
    elim (Bool-cases (ltb budget (length f))) [
      | inl over ↦
          rw (over, kept_frames)
            (record { few = omega arith; fit = omega arith; full = λ h. ground arith })
      | inr fits ↦
          rw (fits, kept_frames)
            (record {
              few = omega (arith, ih.few);
              fit = omega (arith, ih.fit, false→le _ _ fits);
              full = λ h.
                  Exceeds-shift budget (length f)
                    (total (take (kept_frames (budget - length f) fs) fs))
                    (drop (kept_frames (budget - length f) fs) fs) (false→le _ _ fits)
                    (ih.full (omega arith));
            })
    ]

take-append_left : (k : ℕ) (xs ys : List Bytes) → k ≤ length xs → take k (xs ++ ys) ≡ take k xs
take-append_left zero xs ys h = refl
take-append_left (suc k) [] ys h = absurd (omega arith)
take-append_left (suc k) (x ∷ xs) ys h = ap (◌∷◌ x) (take-append_left k xs ys (omega arith))

-- What a page is, of the log that is served: the frames that stand behind the cursor, as many as were
-- asked for or as fit the byte budget, and the cursor behind them.
pub record IsServed (cursor size : ℕ) (l : SyncLog) (r : SyncResponseV1) : Type 0 where
  pub version : r.version ≡ wire_version
  pub frames : r.frames ≡ take (length r.frames) (drop (cursor - l.sync_log_start) l.sync_log)
  pub bounded : length r.frames ≤ size
  pub fit : total r.frames ≤ max_response_bytes
  pub finished :
      r.next_cursor ≡ none → length l.sync_log - (cursor - l.sync_log_start) ≤ length r.frames
  pub goes_on :
      (n : ℕ)
      → r.next_cursor ≡ some n
      → (n ≡ max cursor l.sync_log_start + length r.frames)
        × ((size ≤ length r.frames)
            ⊎ Exceeds max_response_bytes (total r.frames) (drop (n - l.sync_log_start) l.sync_log))
  pub truncated : (r.truncated ≡ true) ↔ ((0 < cursor) × (cursor < l.sync_log_start))

-- The number of frames that a request asks for, within the cap.
abbrev pub size_of : SyncRequestV1 → ℕ
size_of request = clamp request.max_frames 1 max_frames_per_page

pub All-drop : (n : ℕ) (xs : List Bytes) → All IsSmall xs → All IsSmall (drop n xs)
All-drop zero xs a = a
All-drop (suc n) [] a = tt
All-drop (suc n) (x ∷ xs) a = All-drop n xs a.1

module _ (cursor size : ℕ) (l : SyncLog) (p : SyncPage) (i : IsPage cursor size l p) where
  length-frames :
      length p.frames + (length l.sync_log - (p.end_cursor - l.sync_log_start))
      ≡ length l.sync_log - (cursor - l.sync_log_start)
  length-frames = omega (
    arith,
    ap length i.consecutive,
    length-append p.frames (drop (p.end_cursor - l.sync_log_start) l.sync_log),
    length-drop (p.end_cursor - l.sync_log_start) l.sync_log,
    length-drop (cursor - l.sync_log_start) l.sync_log,
  )

  -- A page that is not the last starts inside the log.
  end_of_frames :
      p.caught_up ≡ false ⊎ (0 < length p.frames)
      → p.end_cursor ≡ max cursor l.sync_log_start + length p.frames
  end_of_frames h = elim (Bool-cases (ltb (cursor - l.sync_log_start) (length l.sync_log))) [
    | inl inside ↦ i.advances (ltb→lt _ _ inside)
    | inr out ↦
        absurd (ground (arith, length-frames, i.starting, i.ending, i.caught_up, false→le _ _ out))
  ]

-- A page that is served holds the frames behind the cursor, in order, within the size that was asked for and
-- the byte budget. It names no next cursor only if nothing is left, and otherwise the cursor behind its
-- frames, with as many frames as were asked for, or because the frame at that cursor would exceed the byte
-- budget. It says `truncated` exactly for a cursor above 0 before the oldest frame.
pub page_of-IsServed :
    (request : SyncRequestV1) (l : SyncLog)
    → IsServed request.cursor (size_of request) l (page_of request l)
unfolding page_of
page_of-IsServed request l =
    let size = size_of request in
    let p = sync_frames request.cursor size l in
    let i = sync_frames-IsPage request.cursor size l in
    let kept = kept_frames max_response_bytes p.frames in
    let k = kept_frames-IsKept max_response_bytes p.frames in
    let count : length (take kept p.frames) ≡ kept =
      omega (arith, length-take kept p.frames, k.few) in
    let rest = drop (p.end_cursor - l.sync_log_start) l.sync_log in
    -- The frame behind those that are kept, if some are dropped.
    let next_frame =
      λ (n : ℕ) (at : n ≡ max request.cursor l.sync_log_start + kept)
          (more : kept < length p.frames).
        subst (Exceeds max_response_bytes (total (take kept p.frames)))
          (sym (drop-append_left kept p.frames rest k.few)
            ∙ ap (drop kept) i.consecutive
            ∙ drop-drop kept (request.cursor - l.sync_log_start) l.sync_log
            ∙ ap (λ j. drop j l.sync_log) {x = (request.cursor - l.sync_log_start) + kept}
                {y = n - l.sync_log_start} (omega (arith, at)))
          (Exceeds-append max_response_bytes (total (take kept p.frames)) (drop kept p.frames) rest
            (k.full more)) in
    record {
      version = refl;
      frames =
          sym (take-append_left kept p.frames rest k.few)
          ∙ ap (take kept) i.consecutive
          ∙ ap (λ n. take n (drop (request.cursor - l.sync_log_start) l.sync_log)) (sym count);
      bounded = omega (arith, count, k.few, i.bounded);
      fit = k.fit;
      finished =
          λ h. ground (arith, count, k.few, i.caught_up, length-frames request.cursor size l p i);
      goes_on = λ n h. elim (Bool-cases p.caught_up) [
        | inl last ↦
            let some_dropped : kept < length p.frames = ground (arith, k.few) in
            let e = end_of_frames request.cursor size l p i (inr (omega (arith, some_dropped))) in
            let at : n ≡ max request.cursor l.sync_log_start + kept = ground (arith, e, k.few) in
            (omega (arith, at, count), inr (next_frame n at some_dropped))
        | inr more ↦
            let e = end_of_frames request.cursor size l p i (inl more) in
            let at : n ≡ max request.cursor l.sync_log_start + kept = ground (arith, e, k.few) in
            (
              omega (arith, at, count),
              elim (Bool-cases (ltb kept (length p.frames))) [
                | inl cut ↦ inr (next_frame n at (ltb→lt _ _ cut))
                | inr uncut ↦ inl (omega (arith, count, i.full more, false→le _ _ uncut))
              ],
            )
      ];
      truncated = rw i.oldest (ground arith);
    }

-- Who is served: everyone in a public drop, and in a sealed drop the holder of the key.
abbrev pub IsMember : Session → Requester → Type 0
IsMember s who =
    (s.mode ≡ public_drop) ⊎ ((key : DropKey) × (s.drop_key ≡ some key) × (who.drop_key ≡ some key))

module _ (kdf : Kdf) (codec : Codec) where
  -- A page, by whether the request is refused.
  sync_page_if :
      (sessions : TopicId → Option Session) (s : Session) (request : SyncRequestV1)
      (peer : EndpointId) (b : Bool)
      → sessions request.topic_id ≡ some s
      → (is_sealed s.mode && not (proves kdf codec s request peer)) ≡ b
      → sync_page kdf codec sessions request peer
        ≡ (if b then empty_page else page_of request s.log)
  unfolding sync_page
  sync_page_if sessions s request peer b there e = rw (there, e, sync_page) refl

  proves_key :
      (s : Session) (request : SyncRequestV1) (peer : EndpointId)
      → proves kdf codec s request peer ≡ true
      → (key : DropKey) × (s.drop_key ≡ some key)
        × (request.key_proof
            ≡ some (
                sync_proof kdf key request.topic_id peer s.self_id
                  (codec.encode_request (record request { key_proof = none }))))
  unfolding proves
  proves_key s request peer h = by_key s.drop_key request.key_proof refl refl
    where
      by_key :
          (k q : Option Bytes)
          → s.drop_key ≡ k
          → request.key_proof ≡ q
          → (key : DropKey) × (s.drop_key ≡ some key)
            × (request.key_proof
                ≡ some (
                    sync_proof kdf key request.topic_id peer s.self_id
                      (codec.encode_request (record request { key_proof = none }))))
      by_key none q e f = absurd (ground arith)
      by_key (some key) none e f = absurd (ground arith)
      by_key (some key) (some proof) e f = (
        key,
        e,
        f
            ∙ ap some (
                sym (
                  eq_of_text_eq _ proof (
                    sym (
                      verify_sync_proof_lem kdf key request.topic_id peer s.self_id
                        (codec.encode_request (record request { key_proof = none })) proof)
                    ∙ ground arith))),
      )

  proves_same_key :
      (s : Session) (who : Requester) (key : DropKey) (cursor size : ℕ)
      → proves kdf codec
          (record s { drop_key = some key; self_id = who.peer_id })
          (make_request kdf codec (record who { drop_key = some key }) cursor size)
          who.self_id
        ≡ true
  unfolding proves make_request
  proves_same_key s who key cursor size =
      let proven : SyncRequestV1 = record {
        version = wire_version;
        topic_id = who.topic_id;
        cursor = cursor;
        max_frames = size;
        key_proof = none;
      } in
      let bytes = codec.encode_request proven in
      let proof = sync_proof kdf key who.topic_id who.self_id who.peer_id bytes in
      verify_sync_proof_lem kdf key who.topic_id who.self_id who.peer_id bytes proof
      ∙ text_eq_refl proof

  proves_member :
      (s : Session) (who : Requester) (key : DropKey) (cursor size : ℕ)
      → s.self_id ≡ who.peer_id
      → s.drop_key ≡ some key
      → who.drop_key ≡ some key
      → proves kdf codec s (make_request kdf codec who cursor size) who.self_id ≡ true
  proves_member s who key cursor size here theirs ours =
      subst
        (λ k.
          proves kdf codec s (make_request kdf codec (record who { drop_key = k }) cursor size)
            who.self_id
          ≡ true)
        (sym ours)
        (subst
          (λ k.
            proves kdf codec (record s { drop_key = k })
              (make_request kdf codec (record who { drop_key = some key }) cursor size) who.self_id
            ≡ true)
          (sym theirs)
          (subst
            (λ i.
              proves kdf codec (record s { drop_key = some key; self_id = i })
                (make_request kdf codec (record who { drop_key = some key }) cursor size)
                who.self_id
              ≡ true)
            (sym here) (proves_same_key s who key cursor size)))

  topic_of_request :
      (who : Requester) (cursor size : ℕ)
      → (make_request kdf codec who cursor size).topic_id ≡ who.topic_id
  unfolding make_request
  topic_of_request who cursor size = elim (Option-cases who.drop_key) [
    | inl e ↦ rw (e, make_request) refl
    | inr (k, e) ↦ rw (e, make_request) refl
  ]

  pub cursor_of_request :
      (who : Requester) (cursor size : ℕ) → (make_request kdf codec who cursor size).cursor ≡ cursor
  unfolding make_request
  cursor_of_request who cursor size = elim (Option-cases who.drop_key) [
    | inl e ↦ rw (e, make_request) refl
    | inr (k, e) ↦ rw (e, make_request) refl
  ]

  pub max_frames_of_request :
      (who : Requester) (cursor size : ℕ)
      → (make_request kdf codec who cursor size).max_frames ≡ size
  unfolding make_request
  max_frames_of_request who cursor size = elim (Option-cases who.drop_key) [
    | inl e ↦ rw (e, make_request) refl
    | inr (k, e) ↦ rw (e, make_request) refl
  ]

  -- A member's request is answered with the page.
  pub sync_page_member :
      (sessions : TopicId → Option Session) (s : Session) (who : Requester) (cursor size : ℕ)
      → sessions who.topic_id ≡ some s
      → s.self_id ≡ who.peer_id
      → IsMember s who
      → sync_page kdf codec sessions (make_request kdf codec who cursor size) who.self_id
        ≡ page_of (make_request kdf codec who cursor size) s.log
  sync_page_member sessions s who cursor size there here m =
      sync_page_if sessions s (make_request kdf codec who cursor size) who.self_id false
        (ap sessions (topic_of_request who cursor size) ∙ there) (admitted m)
    where
      admitted :
          IsMember s who
          → (is_sealed s.mode
              && not (proves kdf codec s (make_request kdf codec who cursor size) who.self_id))
            ≡ false
      admitted (inl open_to_all) = rw open_to_all refl
      admitted (inr (key, theirs, ours)) =
          rw (proves_member s who key cursor size here theirs ours) (ground arith)

  -- In a sealed drop a frame is served only for the proof that the drop's key makes, over this request,
  -- by this peer, to this session.
  pub sync_page_sealed :
      (sessions : TopicId → Option Session) (s : Session) (request : SyncRequestV1)
      (peer : EndpointId)
      → sessions request.topic_id ≡ some s
      → s.mode ≡ sealed_drop
      → 0 < length (sync_page kdf codec sessions request peer).frames
      → (key : DropKey) × (s.drop_key ≡ some key)
        × (request.key_proof
            ≡ some (
                sync_proof kdf key request.topic_id peer s.self_id
                  (codec.encode_request (record request { key_proof = none }))))
  sync_page_sealed sessions s request peer there mode served =
      elim (Bool-cases (proves kdf codec s request peer)) [
        | inl proved ↦ proves_key s request peer proved
        | inr not_proved ↦
            let e = sync_page_if sessions s request peer true there (
              ap (λ d. is_sealed d && not (proves kdf codec s request peer)) mode
              ∙ ap not not_proved) in
            absurd (omega (arith, served, ap (λ (r : SyncResponseV1). length r.frames) e))
      ]
