-- ===== src/Sync/Tests.antt =====
-- A sealed drop of two peers, and the theorems there.
use iroh_drop.Prelude.{ℕ, ◌≤◌, ◌≡◌, refl, inr, Option, none, some, [], ◌∷◌, ◌++◌, arith, length}
use iroh_drop.Text.{Bytes}
use iroh_drop.Message.{TopicId}
use iroh_drop.Seal.{Kdf, DropKey, sync_proof, be_bytes, sync_key, sync_hkdf_info, verify_sync_proof}
use iroh_drop.SyncLog.{SyncLog, sync_frames}
use iroh_drop.SyncLog.Bounds
use iroh_drop.SyncLog.Bounds.{total}
use iroh_drop.Ticket.{sealed_drop}
use iroh_drop.Sync.{
  Session, Requester, SyncRequestV1, make_request, sync_page, page_of, proves, kept_frames, pull,
  pull_loop, pull_frames, negotiate, our_hello, max_frames_per_page, max_total_frames,
  max_total_bytes_per_attempt, max_response_bytes,
}
use iroh_drop.Sync.Serving.{IsServed, size_of, page_of-IsServed, sync_page_sealed}
use iroh_drop.Sync.Budgets.{pull-le, pull_loop_fuel}
use iroh_drop.Sync.Complete.{page_bytes, pull-sync_page}
use iroh_drop.Sync.Instance.{codec, codec-IsCodec, length-page_bytes}

abbrev kdf : Kdf
kdf = record { hkdf = λ salt ikm info. salt ++ ikm ++ info; hmac = λ key message. key ++ message }

-- Five frames have been evicted; three are retained.
abbrev log : SyncLog
log = record {
  sync_log = (1 ∷ 2 ∷ []) ∷ (3 ∷ []) ∷ (4 ∷ []) ∷ [];
  sync_log_bytes = 4;
  sync_log_start = 5;
  unknown_frames = 0;
  unknown_frames_bytes = 0;
}

log-IsValid : Bounds.IsValid log
log-IsValid = omega arith

abbrev server : Session
server = record { mode = sealed_drop; drop_key = some (9 ∷ []); self_id = 2; log = log }

abbrev sessions : TopicId → Option Session
sessions topic = some server

abbrev member : Requester
member = record { topic_id = 7 ∷ []; self_id = 1; peer_id = 2; drop_key = some (9 ∷ []) }

program : Unit {0}
unfolding codec make_request sync_page page_of proves kept_frames sync_frames sync_proof
    verify_sync_proof sync_key be_bytes sync_hkdf_info pull pull_loop pull_frames negotiate
program = tt

-- Another key's proof gets nothing.
stranger_gets_nothing :
    (sync_page kdf codec sessions
      (make_request kdf codec (record member { drop_key = some (8 ∷ []) }) 0 2)
      1).frames
    ≡ []
unfolding program
stranger_gets_nothing = refl

some_frames : length (sync_page kdf codec sessions (make_request kdf codec member 0 2) 1).frames ≡ 2
unfolding program
some_frames = refl

hello_is_understood : negotiate (some our_hello) ≡ some max_frames_per_page
unfolding program
hello_is_understood = refl

sync_page_sealed_example :
    (key : DropKey) × (server.drop_key ≡ some key)
    × ((make_request kdf codec member 0 2).key_proof
        ≡ some (
            sync_proof kdf key (make_request kdf codec member 0 2).topic_id 1 server.self_id (
              codec.encode_request
                (record (make_request kdf codec member 0 2) { key_proof = none }))))
sync_page_sealed_example =
    sync_page_sealed kdf codec sessions server (make_request kdf codec member 0 2) 1 refl refl
      (omega (arith, some_frames))

page_of-IsServed_example :
    IsServed
      (make_request kdf codec member 0 2).cursor
      (size_of (make_request kdf codec member 0 2))
      log
      (page_of (make_request kdf codec member 0 2) log)
page_of-IsServed_example = page_of-IsServed (make_request kdf codec member 0 2) log

abbrev answer : ℕ → SyncRequestV1 → Option Bytes
answer n request = some (page_bytes codec (sync_page kdf codec sessions request 1))

-- Every page of this log can be read.
readable :
    (cursor : ℕ)
    → length
        (page_bytes codec (page_of (make_request kdf codec member cursor max_frames_per_page) log))
      ≤ max_response_bytes
readable cursor =
    let request = make_request kdf codec member cursor max_frames_per_page in
    omega (
      arith,
      length-page_bytes request.cursor (size_of request) log (page_of request log)
          (page_of-IsServed request log),
    )

pull-sync_page_example : (pull kdf codec answer member max_frames_per_page).replayed ≡ log.sync_log
pull-sync_page_example =
    pull-sync_page kdf codec sessions server member answer codec-IsCodec refl refl
      (inr (9 ∷ [], refl, refl)) (omega arith) log-IsValid (λ n cursor. refl) readable

pull-le_example :
    (length (pull kdf codec answer member 2).replayed ≤ max_total_frames)
    × (total (pull kdf codec answer member 2).replayed ≤ max_total_bytes_per_attempt)
pull-le_example = pull-le kdf codec answer member 2

pull_loop_fuel_example :
    pull_loop kdf codec answer member 2 4 126 0 0 0
    ≡ pull_loop kdf codec answer member 2 3 126 0 0 0
pull_loop_fuel_example = pull_loop_fuel kdf codec answer member 2 3 126 0 0 0 (omega arith)
