-- ===== src/Fetch/Outcome.antt =====
-- What a fetch that succeeds has done.
use iroh_drop.Prelude.{
  ℕ, ◌≡◌, ◌∙◌, refl, sym, ap, subst, Option, none, some, List, [], ◌∷◌, ◌++◌, arith, append_assoc,
}
use iroh_drop.Text.{Text, text_key}
use iroh_drop.Error.{Result, ok, err}
use iroh_drop.Message.{MessageBodyV1, provider, available, BlobHash}
use iroh_drop.Hash.{HexLower}
use iroh_drop.Name.{collision_safe_path}
use iroh_drop.State.{DropState}
use iroh_drop.Run.{fail_if, or_fail, bind_result, ◌>>=◌, ◌>>◌, return, fail, read}
use iroh_drop.Fetch.Effect.{
  broadcast_ok, DropError, FetchEvent, sent, M, store_failed, export_failed, bad_export_name,
}
use iroh_drop.Fetch.{
  FetchOutput, directory, exact, store_only, Outside, own_blob, size_or_fail, mark_complete,
  export_name, export_path, create_parent, export_file, export,
}
use iroh_drop.Run.Steps.{bind-Bound, then-Bound, return-ok, modify-ok}
use iroh_drop.State.Bookkeeping.{IsValid}
use iroh_drop.Fetch.Table.{IsOwned, IsOwned-same, own_blob-IsOwned}

-- A step that leaves the state alone.
abbrev pub Keeps : {A : Type 0} → M A → Type 0
Keeps m = (s : DropState) → (m s).0 ≡ s

bind-Keeps :
    {A B : Type 0} (m : M A) (f : A → M B) → Keeps m → ((a : A) → Keeps (f a)) → Keeps (m >>= f)
unfolding ◌>>=◌
bind-Keeps {A} m f k kf s = by_result (m s) (k s)
  where
    by_result :
        (r : DropState × List FetchEvent × Result DropError A) → r.0 ≡ s → (bind_result r f).0 ≡ s
    by_result (t, es, err e) h = h
    by_result (t, es, ok a) h = kf a t ∙ h

then-Keeps : {A B : Type 0} (m : M A) (k : M B) → Keeps m → Keeps k → Keeps (m >> k)
unfolding ◌>>◌
then-Keeps m k km kk = bind-Keeps m (λ x. k) km (λ x. kk)

pub Keeps-ok :
    {A : Type 0} (m : M A) (s t : DropState) (es : List FetchEvent) (r : Result DropError A)
    → Keeps m
    → m s ≡ (t, es, r)
    → t ≡ s
Keeps-ok {A} m s t es r k h =
    ap (λ (p : DropState × List FetchEvent × Result DropError A). p.0) (sym h) ∙ k s

pub return-Keeps : {A : Type 0} (a : A) → Keeps (return a)
unfolding return
return-Keeps a s = refl

pub read-Keeps : {A : Type 0} (f : DropState → A) → Keeps (read f)
unfolding read
read-Keeps f s = refl

pub fail_if-Keeps : (o : Option Text) (f : Text → DropError) → Keeps (fail_if o f)
unfolding return fail
fail_if-Keeps none f s = refl
fail_if-Keeps (some t) f s = refl

pub or_fail-Keeps : {E A : Type 0} (r : Result E A) (f : E → DropError) → Keeps (or_fail r f)
unfolding return fail
or_fail-Keeps (ok a) f s = refl
or_fail-Keeps (err e) f s = refl

module _ (hex : HexLower) (send : MessageBodyV1 → DropState → DropState × Option DropError)
    (outside : Outside) where
  create_parent-Keeps : (o : Option Text) → Keeps (create_parent hex send outside o)
  create_parent-Keeps none = return-Keeps tt
  create_parent-Keeps (some dir) = fail_if-Keeps (outside.create_dir_all dir) export_failed

  export_path-Keeps :
      (hash : BlobHash) (output : FetchOutput) → Keeps (export_path hex send outside hash output)
  unfolding export_path
  export_path-Keeps hash store_only = return-Keeps none
  export_path-Keeps hash (exact path) = return-Keeps (some path)
  export_path-Keeps hash (directory dir) =
      bind-Keeps _ _ (read-Keeps (export_name hex send outside hash)) (λ name.
        then-Keeps _ _ (fail_if-Keeps (outside.create_dir_all dir) export_failed) (
          bind-Keeps _ _
            (or_fail-Keeps (collision_safe_path hex (outside.children dir) name hash)
              bad_export_name)
            (λ file. return-Keeps (some (outside.join dir file)))))

  export_file-Keeps : (o : Option Text) → Keeps (export_file hex send outside o)
  unfolding export_file
  export_file-Keeps none = return-Keeps none
  export_file-Keeps (some path) = then-Keeps _ _ (create_parent-Keeps (outside.parent path)) (
      bind-Keeps _ _ (or_fail-Keeps (outside.absolute path) export_failed) (λ absolute.
        then-Keeps _ _ (fail_if-Keeps (outside.export_to absolute) export_failed)
          (return-Keeps (some absolute))))

  pub export-Keeps :
      (hash : BlobHash) (output : FetchOutput) → Keeps (export hex send outside hash output)
  unfolding export
  export-Keeps hash output = bind-Keeps _ _ (export_path-Keeps hash output) export_file-Keeps

  -- Sending a message changes neither the offers nor the providers, nor who the session is.
  pub record IsSending : Type 0 where
    pub inventory-send :
        (body : MessageBodyV1) (s : DropState) → (send body s).0.inventory ≡ s.inventory
    pub self-send :
        (body : MessageBodyV1) (s : DropState)
        → (send body s).0.self_endpoint_id ≡ s.self_endpoint_id

  -- The announcement of the blob is among the events.
  pub record Announces (hash : BlobHash) (events : List FetchEvent) : Type 0 where
    pub before : List FetchEvent
    pub after : List FetchEvent
    pub split :
        events
        ≡ before
          ++ sent (
              provider (record {
                blob_hash = hash;
                state = available;
                announced_at_ms = some outside.now_ms;
              }))
            ∷ after

  pub Announces-left :
      (hash : BlobHash) (es fs gs : List FetchEvent)
      → gs ≡ es ++ fs
      → Announces hash es
      → Announces hash gs
  Announces-left hash es fs gs e a = record {
    before = a.before;
    after = a.after ++ fs;
    split = e ∙ ap (λ x. x ++ fs) a.split ∙ append_assoc a.before _ fs;
  }

  pub Announces-right :
      (hash : BlobHash) (es fs gs : List FetchEvent)
      → gs ≡ es ++ fs
      → Announces hash fs
      → Announces hash gs
  Announces-right hash es fs gs e a = record {
    before = es ++ a.before;
    after = a.after;
    split = e ∙ ap (λ x. es ++ x) a.split ∙ sym (append_assoc es a.before _);
  }

  size_or_fail_ok :
      (o : Option ℕ) (s t : DropState) (es : List FetchEvent) (n : ℕ)
      → size_or_fail o s ≡ (t, es, ok n)
      → (o ≡ some n) × (s ≡ t)
  unfolding return fail
  size_or_fail_ok none s t es n h = absurd (ground arith)
  size_or_fail_ok (some k) s t es n h = (ground arith, ground arith)

  -- What a blob that is marked complete has behind it.
  pub record IsMarked (hash : BlobHash) (known : Option ℕ) (s' : DropState)
      (events : List FetchEvent) (n : ℕ) : Type 0 where
    pub size : known ≡ some n
    pub status : IsOwned hash s'
    pub announced : Announces hash events

  pub mark_complete-IsMarked :
      IsSending
      → (hash : BlobHash) (known : Option ℕ) (s s' : DropState) (events : List FetchEvent) (n : ℕ)
      → IsValid s.inventory
      → mark_complete hex send outside hash known s ≡ (s', events, ok n)
      → IsMarked hash known s' events n
  unfolding mark_complete
  mark_complete-IsMarked quiet hash known s s' events n v h =
      let b1 = bind-Bound _ _ s s' events n h in
      let b2 = then-Bound _ _ b1.between s' b1.after n b1.then_lem in
      let b3 = then-Bound _ _ b2.between s' b2.after n b2.then_lem in
      let b4 = then-Bound _ _ b3.between s' b3.after n b3.then_lem in
      let (same, sent_events) =
        broadcast_ok send _ b3.between b4.between b4.before b4.value b4.first in
      let (last, value, none_left) = return-ok b1.value n b4.between s' b4.after b4.then_lem in
      let (marked, none2) = modify-ok _ b1.between b2.between b2.before b2.value b2.first in
      let kept : b3.between ≡ b2.between =
        ap (λ (p : DropState × List FetchEvent × Result DropError (Unit {0})). p.0) (sym b3.first)
        ∙ fail_if-Keeps outside.set_tag store_failed b2.between in
      let (sized, here) = size_or_fail_ok known s b1.between b1.before b1.value b1.first in
      let owned = own_blob hex outside.now hash b1.value b1.between in
      let at_last : b3.between ≡ owned = kept ∙ sym marked in
      record {
        size = sized ∙ ap some value;
        status =
            IsOwned-same hash s' owned
              (ap (λ (t : DropState). t.inventory) (sym last ∙ sym same)
                ∙ quiet.inventory-send _ b3.between
                ∙ ap (λ (t : DropState). t.inventory) at_last)
              (ap (λ (t : DropState). t.self_endpoint_id) (sym last ∙ sym same)
                ∙ quiet.self-send _ b3.between
                ∙ ap (λ (t : DropState). t.self_endpoint_id) at_last)
              (own_blob-IsOwned hex outside.now hash b1.value b1.between
                (subst (λ (t : DropState). IsValid t.inventory) here v));
        announced = Announces-right hash b1.before b1.after events b1.joined (
            Announces-right hash b2.before b2.after b1.after b2.joined (
              Announces-right hash b3.before b3.after b2.after b3.joined (
                Announces-left hash b4.before b4.after b3.after b4.joined
                  (record { before = []; after = []; split = sent_events }))));
      }
