-- ===== src/Fetch/Weights.antt =====
-- What the steps of a fetch weigh, but for the rounds.
use iroh_drop.Prelude.{ℕ, ◌≤◌, ◌≡◌, Option, none, some, List, [], ◌∷◌, arith}
use iroh_drop.Text.{Text, text_key}
use iroh_drop.Error.{Result, ok, err}
use iroh_drop.Message.{MessageBodyV1, provider, request, available, BlobHash, EndpointId}
use iroh_drop.Hash.{HexLower}
use iroh_drop.Name.{collision_safe_path}
use iroh_drop.State.{DropState, LocalBlobStatus, fetching}
use iroh_drop.Run.{◌>>=◌, ◌>>◌, return, emit, modify}
use iroh_drop.Fetch.Effect.{
  broadcast, sending, DropError, FetchEvent, fetch_started, provider_failed, fetch_progress,
  fetch_completed, sent, put_status, set_status, store_failed, export_failed, bad_export_name,
  incomplete_blob,
}
use iroh_drop.Fetch.Download.{
  DownloadItem, try_provider, provider_fails, progress, part_complete, download_error, error_item,
  report, reports, streamed, download_attempt, advertised,
}
use iroh_drop.Fetch.{
  FetchOutput, directory, exact, store_only, Outside, own_blob, mark_complete, export_path,
  export_file, export, size_or_fail, export_name, create_parent,
}
use iroh_drop.Run.Steps.{
  total, Costs, bind-Costs, then-Costs, return-Costs, fail-Costs, modify-Costs, read-Costs,
  fail_if-Costs, or_fail-Costs,
}

-- What is weighed: a request weighs at most `r`, and nothing else weighs, but a failure.
pub record IsWeight (weight : FetchEvent → ℕ) (r : ℕ) : Type 0 where
  pub started : (h : BlobHash) (p : EndpointId) → weight (fetch_started h p) ≡ 0
  pub lost : (h : BlobHash) (p : EndpointId) → weight (provider_failed h p) ≡ 0
  pub progressed : (h : BlobHash) (n : ℕ) (t : Option ℕ) → weight (fetch_progress h n t) ≡ 0
  pub completed : (h : BlobHash) (p : EndpointId) → weight (fetch_completed h p) ≡ 0
  pub announced :
      (h : BlobHash) (t : ℕ)
      → weight
          (sent (provider (record { blob_hash = h; state = available; announced_at_ms = some t })))
        ≡ 0
  pub asked : (h : BlobHash) → weight (sent (request (record { blob_hash = h }))) ≤ r

module _ (weight : FetchEvent → ℕ) (r : ℕ) (w : IsWeight weight r) where
  report-Costs :
      (hash : BlobHash) (size : Option ℕ) (item : DownloadItem)
      (acc : Option EndpointId × Option DropError)
      → Costs weight 0 (report hash size item acc)
  unfolding report ◌>>=◌ ◌>>◌ emit return modify set_status total
  report-Costs hash size (try_provider id) (current, outcome) s = omega (arith, w.started hash id)
  report-Costs hash size (provider_fails id now) (current, outcome) s =
      omega (arith, w.lost hash id)
  report-Costs hash size (progress n) (current, outcome) s = omega (arith, w.progressed hash n size)
  report-Costs hash size part_complete (current, outcome) s = omega arith
  report-Costs hash size download_error (current, outcome) s = omega arith
  report-Costs hash size (error_item text) (current, outcome) s = omega arith

  reports-Costs :
      (hash : BlobHash) (size : Option ℕ) (items : List ((DropState → DropState) × DownloadItem))
      (acc : Option EndpointId × Option DropError)
      → Costs weight 0 (reports hash size items acc)
  unfolding reports
  reports-Costs hash size [] acc = return-Costs DropError weight 0 acc
  reports-Costs hash size ((others, item) ∷ items) acc =
      then-Costs DropError weight 0 0 0 (modify others) _ (modify-Costs DropError weight 0 others)
        (bind-Costs DropError weight 0 0 0 (report hash size item acc) _
          (report-Costs hash size item acc) (λ acc'. reports-Costs hash size items acc')
          (omega arith))
        (omega arith)

  set_status-Costs :
      (hash : BlobHash) (status : LocalBlobStatus) → Costs weight 0 (set_status hash status)
  unfolding set_status
  set_status-Costs hash status = modify-Costs DropError weight 0 (put_status hash status)

  streamed-Costs :
      (hash : BlobHash) (size : Option ℕ)
      (stream : Result Text (List ((DropState → DropState) × DownloadItem)))
      (current : Option EndpointId)
      → Costs weight 0 (streamed hash size stream current)
  unfolding streamed
  streamed-Costs hash size (err text) current = return-Costs DropError weight 0 _
  streamed-Costs hash size (ok items) current = reports-Costs hash size items (current, none)

  pub download_attempt-Costs :
      (hash : BlobHash) (stream : Result Text (List ((DropState → DropState) × DownloadItem)))
      (current : Option EndpointId)
      → Costs weight 0 (download_attempt hash stream current)
  unfolding download_attempt
  download_attempt-Costs hash stream current =
      bind-Costs DropError weight 0 0 0 _ _ (read-Costs DropError weight 0 (advertised hash))
        (λ size.
          then-Costs DropError weight 0 0 0 _ _ (set_status-Costs hash (fetching 0 size))
            (streamed-Costs hash size stream current) (omega arith))
        (omega arith)

  module _ (hex : HexLower) (send : MessageBodyV1 → DropState → DropState × Option DropError)
      (outside : Outside) where
    pub broadcast-Costs :
        (n : ℕ) (body : MessageBodyV1)
        → weight (sent body) ≤ n
        → Costs weight n (broadcast send body)
    unfolding broadcast total
    broadcast-Costs n body le s = by_result (send body s)
      where
        by_result : (r : DropState × Option DropError) → total weight (sending body r).1 ≤ n
        by_result (t, none) = omega (arith, le)
        by_result (t, some e) = omega arith

    size_or_fail-Costs : (o : Option ℕ) → Costs weight 0 (size_or_fail o)
    size_or_fail-Costs none = fail-Costs DropError weight ℕ 0 incomplete_blob
    size_or_fail-Costs (some n) = return-Costs DropError weight 0 n

    pub mark_complete-Costs :
        (hash : BlobHash) (known : Option ℕ)
        → Costs weight 0 (mark_complete hex send outside hash known)
    unfolding mark_complete
    mark_complete-Costs hash known =
        bind-Costs DropError weight 0 0 0 _ _ (size_or_fail-Costs known)
          (λ size.
            then-Costs DropError weight 0 0 0 _ _
              (modify-Costs DropError weight 0 (own_blob hex outside.now hash size))
              (then-Costs DropError weight 0 0 0 _ _
                (fail_if-Costs DropError weight 0 outside.set_tag store_failed)
                (then-Costs DropError weight 0 0 0 _ _
                  (broadcast-Costs 0 _ (omega (arith, w.announced hash outside.now_ms)))
                  (return-Costs DropError weight 0 size) (omega arith))
                (omega arith))
              (omega arith))
          (omega arith)

    create_parent-Costs : (o : Option Text) → Costs weight 0 (create_parent hex send outside o)
    create_parent-Costs none = return-Costs DropError weight 0 tt
    create_parent-Costs (some dir) =
        fail_if-Costs DropError weight 0 (outside.create_dir_all dir) export_failed

    export_path-Costs :
        (hash : BlobHash) (output : FetchOutput)
        → Costs weight 0 (export_path hex send outside hash output)
    unfolding export_path
    export_path-Costs hash store_only = return-Costs DropError weight 0 none
    export_path-Costs hash (exact path) = return-Costs DropError weight 0 (some path)
    export_path-Costs hash (directory dir) =
        bind-Costs DropError weight 0 0 0 _ _
          (read-Costs DropError weight 0 (export_name hex send outside hash))
          (λ name.
            then-Costs DropError weight 0 0 0 _ _
              (fail_if-Costs DropError weight 0 (outside.create_dir_all dir) export_failed)
              (bind-Costs DropError weight 0 0 0 _ _
                (or_fail-Costs DropError weight 0
                  (collision_safe_path hex (outside.children dir) name hash) bad_export_name)
                (λ file. return-Costs DropError weight 0 (some (outside.join dir file)))
                (omega arith))
              (omega arith))
          (omega arith)

    export_file-Costs : (o : Option Text) → Costs weight 0 (export_file hex send outside o)
    unfolding export_file
    export_file-Costs none = return-Costs DropError weight 0 none
    export_file-Costs (some path) =
        then-Costs DropError weight 0 0 0 _ _ (create_parent-Costs (outside.parent path))
          (bind-Costs DropError weight 0 0 0 _ _
            (or_fail-Costs DropError weight 0 (outside.absolute path) export_failed)
            (λ absolute.
              then-Costs DropError weight 0 0 0 _ _
                (fail_if-Costs DropError weight 0 (outside.export_to absolute) export_failed)
                (return-Costs DropError weight 0 (some absolute)) (omega arith))
            (omega arith))
          (omega arith)

    pub export-Costs :
        (hash : BlobHash) (output : FetchOutput)
        → Costs weight 0 (export hex send outside hash output)
    unfolding export
    export-Costs hash output =
        bind-Costs DropError weight 0 0 0 _ _ (export_path-Costs hash output) export_file-Costs
          (omega arith)
