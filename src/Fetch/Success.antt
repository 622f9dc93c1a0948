-- ===== src/Fetch/Success.antt =====
-- What a fetch that succeeds has done, from the start to the end.
use iroh_drop.Prelude.{
  ℕ, ◌≡◌, ◌∙◌, refl, sym, ap, subst, Bool, true, false, Option, none, some, List, [], ◌∷◌, arith,
  if◌then◌else◌, All,
}
use iroh_drop.Text.{Text, text_key}
use iroh_drop.Map.{is_some}
use iroh_drop.Error.{Result, ok, err}
use iroh_drop.Message.{MessageBodyV1, BlobHash, EndpointId}
use iroh_drop.Hash.{HexLower}
use iroh_drop.State.{DropState}
use iroh_drop.Run.{return, emit, fail, read}
use iroh_drop.Fetch.Effect.{DropError, FetchEvent, fetch_completed}
use iroh_drop.Fetch.Download.{Round}
use iroh_drop.Fetch.{
  FetchOutput, FetchResult, Outside, attempts, fail_with, mark_winner, export, finish, unwrap_or,
  download, checked_size, fetch_local, fetch_inner_impl, closed, fetch_inner, fetch,
}
use iroh_drop.Run.Steps.{bind-Bound, then-Bound, return-ok}
use iroh_drop.State.Bookkeeping.{IsValid}
use iroh_drop.Fetch.Table.{IsOwned}
use iroh_drop.Fetch.Valid.{
  Preserved, IsCalmRound, attempts-Preserves, fail_with-Preserves, checked_size-Preserves,
  mark_winner-Preserves,
}
use iroh_drop.Fetch.Outcome.{
  Keeps, Keeps-ok, read-Keeps, export-Keeps, IsSending, Announces, Announces-left, Announces-right,
  mark_complete-IsMarked,
}

module _ (hex : HexLower) (send : MessageBodyV1 → DropState → DropState × Option DropError)
    (outside : Outside) (hash : BlobHash) where
  -- What stands behind the result of a fetch.
  pub record IsFetched (s' : DropState) (events : List FetchEvent) (result : FetchResult)
      : Type 0 where
    pub hash_lem : result.hash ≡ hash
    pub local : result.already_local ≡ is_some outside.size_before
    pub size :
        (if result.already_local then outside.size_again else outside.size_after) ≡ some result.size
    pub status : IsOwned hash s'
    pub announced : Announces hex send outside hash events

  -- A result with the size of the confirmed blob.
  record IsDone (local : Bool) (known : Option ℕ) (s' : DropState) (events : List FetchEvent)
      (result : FetchResult) : Type 0 where
    hash_lem : result.hash ≡ hash
    local_lem : result.already_local ≡ local
    size : known ≡ some result.size
    status : IsOwned hash s'
    announced : Announces hex send outside hash events

  emit-Keeps : (e : FetchEvent) → Keeps (emit e)
  unfolding emit
  emit-Keeps e s = refl

  finish-IsDone :
      IsSending hex send outside
      → (output : FetchOutput) (current : Option EndpointId) (size : ℕ) (s s' : DropState)
        (events : List FetchEvent) (result : FetchResult)
      → IsValid s.inventory
      → finish hex send outside hash output current size s ≡ (s', events, ok result)
      → IsDone false (some size) s' events result
  unfolding finish
  finish-IsDone quiet output current size s s' events result v h =
      let b1 = then-Bound _ _ s s' events result h in
      let b2 = then-Bound _ _ b1.between s' b1.after result b1.then_lem in
      let b3 = bind-Bound _ _ b2.between s' b2.after result b2.then_lem in
      let b4 = bind-Bound _ _ b3.between s' b3.after result b3.then_lem in
      let b5 = then-Bound _ _ b4.between s' b4.after result b4.then_lem in
      let (last, value, none_left) = return-ok _ result b5.between s' b5.after b5.then_lem in
      let won : IsValid b1.between.inventory =
        Preserved (mark_winner hex send outside hash current) s b1.between b1.before _
          (mark_winner-Preserves hex send outside quiet hash current) v b1.first in
      let marked =
        mark_complete-IsMarked hex send outside quiet hash (some size) b1.between b2.between
          b2.before b2.value won b2.first in
      let kept : s' ≡ b2.between =
        sym last
        ∙ Keeps-ok (emit (fetch_completed hash b4.value)) b4.between b5.between b5.before _
            (emit-Keeps (fetch_completed hash b4.value)) b5.first
        ∙ Keeps-ok (read (unwrap_or hex send outside current)) b3.between b4.between b4.before _
            (read-Keeps (unwrap_or hex send outside current)) b4.first
        ∙ Keeps-ok (export hex send outside hash output) b2.between b3.between b3.before _
            (export-Keeps hex send outside hash output) b3.first in
      record {
        hash_lem = ap (λ (r : FetchResult). r.hash) (sym value);
        local_lem = ap (λ (r : FetchResult). r.already_local) (sym value);
        size = ap (λ (r : FetchResult). some r.size) value;
        status = subst (IsOwned hash) (sym kept) marked.status;
        announced = Announces-right hex send outside hash b1.before b1.after events b1.joined (
            Announces-left hex send outside hash b2.before b2.after b1.after b2.joined
              marked.announced);
      }

  fetch_local-IsDone :
      IsSending hex send outside
      → (output : FetchOutput) (s s' : DropState) (events : List FetchEvent) (result : FetchResult)
      → IsValid s.inventory
      → fetch_local hex send outside hash output s ≡ (s', events, ok result)
      → IsDone true outside.size_again s' events result
  unfolding fetch_local
  fetch_local-IsDone quiet output s s' events result v h =
      let b1 = bind-Bound _ _ s s' events result h in
      let b2 = bind-Bound _ _ b1.between s' b1.after result b1.then_lem in
      let (last, value, none_left) = return-ok _ result b2.between s' b2.after b2.then_lem in
      let marked =
        mark_complete-IsMarked hex send outside quiet hash outside.size_again s b1.between b1.before
          b1.value v b1.first in
      let kept : s' ≡ b1.between =
        sym last
        ∙ Keeps-ok (export hex send outside hash output) b1.between b2.between b2.before _
            (export-Keeps hex send outside hash output) b2.first in
      record {
        hash_lem = ap (λ (r : FetchResult). r.hash) (sym value);
        local_lem = ap (λ (r : FetchResult). r.already_local) (sym value);
        size = marked.size ∙ ap (λ (r : FetchResult). some r.size) value;
        status = subst (IsOwned hash) (sym kept) marked.status;
        announced =
            Announces-left hex send outside hash b1.before b1.after events b1.joined
              marked.announced;
      }

  checked_size_ok :
      (o : Option ℕ) (s t : DropState) (es : List FetchEvent) (n : ℕ)
      → checked_size hex send outside hash o s ≡ (t, es, ok n)
      → o ≡ some n
  unfolding return fail
  checked_size_ok none s t es n h = absurd (ground arith)
  checked_size_ok (some k) s t es n h = ground arith

  download-IsDone :
      IsSending hex send outside
      → (output : FetchOutput) (rounds : List Round) (s s' : DropState) (events : List FetchEvent)
        (result : FetchResult)
      → All IsCalmRound rounds
      → IsValid s.inventory
      → download hex send outside hash output rounds s ≡ (s', events, ok result)
      → IsDone false outside.size_after s' events result
  unfolding download
  download-IsDone quiet output rounds s s' events result calm v h =
      let b1 = bind-Bound _ _ s s' events result h in
      let b2 = then-Bound _ _ b1.between s' b1.after result b1.then_lem in
      let b3 = bind-Bound _ _ b2.between s' b2.after result b2.then_lem in
      let tried =
        Preserved (attempts hex send outside hash rounds (none, none)) s b1.between b1.before _
          (attempts-Preserves hex send outside quiet hash rounds (none, none) calm) v b1.first in
      let passed =
        Preserved (fail_with hex send outside b1.value.1) b1.between b2.between b2.before _
          (fail_with-Preserves hex send outside quiet hash b1.value.1) tried b2.first in
      let measured =
        Preserved (checked_size hex send outside hash outside.size_after) b2.between b3.between
          b3.before _ (checked_size-Preserves hex send outside quiet hash outside.size_after) passed
          b3.first in
      let d =
        finish-IsDone quiet output b1.value.0 b3.value b3.between s' b3.after result measured
          b3.then_lem in
      record {
        hash_lem = d.hash_lem;
        local_lem = d.local_lem;
        size =
            checked_size_ok outside.size_after b2.between b3.between b3.before b3.value b3.first
            ∙ d.size;
        status = d.status;
        announced = Announces-right hex send outside hash b1.before b1.after events b1.joined (
            Announces-right hex send outside hash b2.before b2.after b1.after b2.joined (
              Announces-right hex send outside hash b3.before b3.after b2.after b3.joined
                d.announced));
      }

  IsDone-IsFetched :
      (local : Bool) (s' : DropState) (events : List FetchEvent) (result : FetchResult)
      → is_some outside.size_before ≡ local
      → IsDone local (if local then outside.size_again else outside.size_after) s' events result
      → IsFetched s' events result
  IsDone-IsFetched local s' events result e d = record {
    hash_lem = d.hash_lem;
    local = d.local_lem ∙ sym e;
    size = ap (λ b. if b then outside.size_again else outside.size_after) d.local_lem ∙ d.size;
    status = d.status;
    announced = d.announced;
  }

  impl-IsFetched :
      IsSending hex send outside
      → (output : FetchOutput) (rounds : List Round) (s s' : DropState) (events : List FetchEvent)
        (result : FetchResult)
      → All IsCalmRound rounds
      → IsValid s.inventory
      → fetch_inner_impl hex send outside hash output rounds s ≡ (s', events, ok result)
      → IsFetched s' events result
  unfolding fetch_inner_impl
  impl-IsFetched quiet output rounds s s' events result calm v h =
      by_case (is_some outside.size_before) refl h
    where
      by_case :
          (local : Bool)
          → is_some outside.size_before ≡ local
          → (if local
                then fetch_local hex send outside hash output
                else download hex send outside hash output rounds)
              s
            ≡ (s', events, ok result)
          → IsFetched s' events result
      by_case true e k =
          IsDone-IsFetched true s' events result e
            (fetch_local-IsDone quiet output s s' events result v k)
      by_case false e k =
          IsDone-IsFetched false s' events result e
            (download-IsDone quiet output rounds s s' events result calm v k)

  -- A fetch that succeeds reports the size of the complete blob in the store, as it is marked if it was there
  -- before the rounds and else as it is after them, and has announced the blob. Its table then has a record of the blob, which
  -- is complete, unless there is none and the quota of the session's own offers is used up. The table must be
  -- valid at the start, and what runs while the fetch waits must keep it so.
  pub fetch-IsFetched :
      IsSending hex send outside
      → (describe : DropError → Text) (output : FetchOutput) (first second third : Round)
        (s s' : DropState) (events : List FetchEvent) (result : FetchResult)
      → IsCalmRound first
      → IsCalmRound second
      → IsCalmRound third
      → IsValid s.inventory
      → fetch hex send outside describe hash output first second third s ≡ (s', events, ok result)
      → IsFetched s' events result
  unfolding fetch fetch_inner
  fetch-IsFetched quiet describe output first second third s s' events result c1 c2 c3 v h =
      by_result (fetch_inner_impl hex send outside hash output (first ∷ second ∷ third ∷ []) s) refl
        h
    where
      by_result :
          (r : DropState × List FetchEvent × Result DropError FetchResult)
          → fetch_inner_impl hex send outside hash output (first ∷ second ∷ third ∷ []) s ≡ r
          → closed hex send outside describe hash r ≡ (s', events, ok result)
          → IsFetched s' events result
      by_result (t, es, ok a) e k =
          impl-IsFetched quiet output (first ∷ second ∷ third ∷ []) s s' events result
            (c1, (c2, (c3, tt))) v (e ∙ k)
      by_result (t, es, err f) e k = absurd (ground arith)
