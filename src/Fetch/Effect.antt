-- ===== src/Fetch/Effect.antt =====
-- The errors and events of a fetch, and its steps: each has the state, emits events, and returns or fails.
use iroh_drop.Prelude.{ℕ, ◌≡◌, sym, ap, Option, none, some, List, [], ◌∷◌, arith}
use iroh_drop.Text.{Text, text_key}
use iroh_drop.Map.{get, put}
use iroh_drop.Error.{Result, ok, err, ProtocolError}
use iroh_drop.Message.{MessageBodyV1, BlobHash, EndpointId}
use iroh_drop.Provider.{ProviderSet}
use iroh_drop.Run.{Run, modify}
use iroh_drop.State.{DropState, LocalBlobStatus}

-- The errors of `DropError` that a fetch returns; what the outside reports comes as a text.
pub data DropError : Type 0 where
  protocol : ProtocolError → DropError
  no_providers : BlobHash → DropError
  transfer : Text → DropError
  hash_mismatch : BlobHash → DropError
  incomplete_blob : DropError
  export_failed : Text → DropError
  bad_export_name : ProtocolError → DropError
  store_failed import_failed : Text → DropError
  invalid_path : ProtocolError → DropError

pub data FetchEvent : Type 0 where
  fetch_started : BlobHash → EndpointId → FetchEvent
  provider_failed : BlobHash → EndpointId → FetchEvent
  fetch_progress : BlobHash → ℕ → Option ℕ → FetchEvent
  fetch_completed : BlobHash → EndpointId → FetchEvent
  fetch_failed : BlobHash → DropError → FetchEvent
  sent : MessageBodyV1 → FetchEvent

-- The steps of a fetch.
abbrev pub M : Type 0 → Type 0
M A = Run DropState FetchEvent DropError A

-- A message is handed over: `broadcast`, which fails or does not.
abbrev pub sending :
    MessageBodyV1
    → DropState × Option DropError
    → DropState × List FetchEvent × Result DropError (Unit {0})
sending body (s, none) = (s, sent body ∷ [], ok tt)
sending body (s, some e) = (s, [], err e)

module _ (send : MessageBodyV1 → DropState → DropState × Option DropError) where
  unfoldable pub broadcast : MessageBodyV1 → M (Unit {0})
  broadcast body s = sending body (send body s)

  pub broadcast_ok :
      (body : MessageBodyV1) (s t : DropState) (es : List FetchEvent) (u : Unit {0})
      → broadcast body s ≡ (t, es, ok u)
      → ((send body s).0 ≡ t) × (es ≡ sent body ∷ [])
  unfolding broadcast
  broadcast_ok body s t es u h = by_result (send body s) h
    where
      by_result :
          (r : DropState × Option DropError)
          → sending body r ≡ (t, es, ok u)
          → (r.0 ≡ t) × (es ≡ sent body ∷ [])
      by_result (x, none) k = (
        ap (λ (p : DropState × List FetchEvent × Result DropError (Unit {0})). p.0) k,
        ap (λ (p : DropState × List FetchEvent × Result DropError (Unit {0})). p.1) (sym k),
      )
      by_result (x, some e) k = absurd (ground arith)

unfoldable pub put_status : BlobHash → LocalBlobStatus → DropState → DropState
put_status hash status s = elim (get hash s.inventory.offers) [
  | none ↦ s
  | some r ↦ record s {
    inventory = record s.inventory {
      offers = put hash (record r { local_status = status }) s.inventory.offers;
    };
  }
]

unfoldable pub set_status : BlobHash → LocalBlobStatus → M (Unit {0})
unfolding modify put_status
set_status hash status = modify (put_status hash status)

-- A change of the providers of a blob, if there is a set of them.
unfoldable pub change_providers : BlobHash → (ProviderSet → ProviderSet) → DropState → DropState
change_providers hash f s = elim (get hash s.inventory.providers) [
  | none ↦ s
  | some set ↦ record s {
    inventory = record s.inventory { providers = put hash (f set) s.inventory.providers };
  }
]
