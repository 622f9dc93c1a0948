-- ===== src/Collection/Contained.antt =====
-- The fetching of a collection touches nothing outside its destination.
use iroh_drop.Prelude.{
  ℕ, ◌+◌, ◌≤◌, ◌≡◌, refl, Bool, true, false, Option, none, some, List, [], ◌∷◌, length, arith, ◌==◌,
  if◌then◌else◌,
}
use iroh_drop.Text.{Text}
use iroh_drop.Error.{Result, ok, err}
use iroh_drop.Message.{BlobHash}
use iroh_drop.Hash.{HexLower, from_hex}
use iroh_drop.Run.{return, fail}
use iroh_drop.Run.Steps.{
  total, Costs, bind-Costs, then-Costs, return-Costs, fail-Costs, read-Costs, emit-Costs,
  or_fail-Costs, or_fail-bind-Costs,
}
use iroh_drop.Collection.{
  SdkError, manifest_error, bad_member_hash, wrong_member_size, Manifest, ManifestEntry, Names,
  sanitize_component, sanitize_relative, Touch, made_dir, fetched_to_store, fetched_loose,
  fetched_exact, reported, Fetched, World, is_collection_type, parent_of, create_dir_all, fetched,
  fetch_store, fetch_loose, fetch_exact, check_size, fetch_member, fetch_members, checked_manifest,
  read_bytes, oversized, read_manifest, fetch_collection, fetch_plain, fetch_as,
  fetch_any_reporting,
}
use iroh_drop.Collection.Paths.{is_plain, all_plain, sanitize_component_ok, sanitize_relative_ok}

-- 1 for a touch of a path with a name in it that is not plain: an empty one, a dot or two, or a separator.
abbrev pub escapes : Touch → ℕ
escapes (made_dir names) = if all_plain names then 0 else 1
escapes (fetched_exact hash names) = if all_plain names then 0 else 1
escapes (fetched_to_store hash) = 0
escapes (fetched_loose hash) = 0
escapes (reported index n) = 0

parent_of-plain : (names : Names) → all_plain names ≡ true → all_plain (parent_of names) ≡ true
parent_of-plain [] h = refl
parent_of-plain (name ∷ []) h = refl
parent_of-plain (name ∷ other ∷ names) h = ground (arith, parent_of-plain (other ∷ names))

module _ {W : Type 0} (hex : HexLower) (world : World W) where
  create_dir_all-Costs :
      (names : Names) → all_plain names ≡ true → Costs escapes 0 (create_dir_all hex world names)
  unfolding create_dir_all total
  create_dir_all-Costs names h w = ground arith

  fetched-Costs :
      (touch : Touch) (r : W × Result Text Fetched)
      → escapes touch ≡ 0
      → total escapes (fetched hex world touch r).1 ≤ 0
  unfolding fetched total
  fetched-Costs touch (w, ok f) h = omega (arith, h)
  fetched-Costs touch (w, err e) h = omega (arith, h)

  fetch_exact-Costs :
      (hash : BlobHash) (target : Names)
      → all_plain target ≡ true
      → Costs escapes 0 (fetch_exact hex world hash target)
  unfolding fetch_exact
  fetch_exact-Costs hash target h w =
      fetched-Costs (fetched_exact hash target) (world.fetch_exact hash target w) (ground arith)

  check_size-Costs :
      (entry : ManifestEntry) (size : ℕ) → Costs escapes 0 (check_size hex world entry size)
  check_size-Costs entry size = by_test (size == entry.size)
    where
      by_test :
          (b : Bool)
          → Costs escapes 0 (
              if b
              then return {S = W} tt
              else fail (manifest_error (wrong_member_size entry.path size entry.size)))
      by_test true = return-Costs SdkError escapes 0 tt
      by_test false = fail-Costs SdkError escapes (Unit {0}) 0 _

  fetch_member-Costs :
      (root : Text)
      → is_plain root ≡ true
      → (index n : ℕ) (entry : ManifestEntry)
      → Costs escapes 0 (fetch_member hex world root index n entry)
  unfolding fetch_member
  fetch_member-Costs root plain index n entry =
      or_fail-bind-Costs SdkError escapes 0 (sanitize_relative entry.path) (λ e. e) _
        (λ rel e.
          let names = (sanitize_relative_ok entry.path rel e).1 in
          then-Costs SdkError escapes 0 0 0 _ _
            (create_dir_all-Costs (root ∷ parent_of rel) (ground (arith, parent_of-plain rel)))
            (bind-Costs SdkError escapes 0 0 0 _ _
              (or_fail-Costs SdkError escapes 0 (from_hex hex entry.hash)
                (λ f. manifest_error (bad_member_hash f)))
              (λ member.
                bind-Costs SdkError escapes 0 0 0 _ _
                  (fetch_exact-Costs member (root ∷ rel) (ground arith))
                  (λ got.
                    then-Costs SdkError escapes 0 0 0 _ _ (check_size-Costs entry got.size)
                      (then-Costs SdkError escapes 0 0 0 _ _
                        (emit-Costs SdkError escapes 0 (reported index n) (omega arith))
                        (return-Costs SdkError escapes 0 (root ∷ rel, got.path)) (omega arith))
                      (omega arith))
                  (omega arith))
              (omega arith))
            (omega arith))

  fetch_members-Costs :
      (root : Text)
      → is_plain root ≡ true
      → (index n : ℕ) (entries : List ManifestEntry)
      → Costs escapes 0 (fetch_members hex world root index n entries)
  unfolding fetch_members
  fetch_members-Costs root plain index n [] = return-Costs SdkError escapes 0 []
  fetch_members-Costs root plain index n (entry ∷ entries) =
      bind-Costs SdkError escapes 0 0 0 _ _ (fetch_member-Costs root plain (index + 1) n entry)
        (λ landed.
          bind-Costs SdkError escapes 0 0 0 _ _
            (fetch_members-Costs root plain (index + 1) n entries)
            (λ rest. return-Costs SdkError escapes 0 (landed ∷ rest)) (omega arith))
        (omega arith)

  fetch_collection-Costs : (m : Manifest) → Costs escapes 0 (fetch_collection hex world m)
  unfolding fetch_collection
  fetch_collection-Costs m =
      or_fail-bind-Costs SdkError escapes 0 (sanitize_component m.name) (λ e. e) _
        (λ root e.
          let (same, plain, short) = sanitize_component_ok m.name root e in
          then-Costs SdkError escapes 0 0 0 _ _
            (create_dir_all-Costs (root ∷ []) (rw same (ground arith)))
            (fetch_members-Costs root (rw same plain) 0 (length m.entries) m.entries) (omega arith))

  checked_manifest-Costs :
      (b : Bool) (r : Result Text Manifest) → Costs escapes 0 (checked_manifest hex world b r)
  unfolding checked_manifest return fail total
  checked_manifest-Costs b (err e) w = ground arith
  checked_manifest-Costs b (ok m) w = ground arith

  read_bytes-Costs : (hash : BlobHash) → Costs escapes 0 (read_bytes hex world hash)
  unfolding read_bytes total
  read_bytes-Costs hash w = omega arith

  oversized-Costs :
      (size : ℕ) (b : Bool) (rest : W → W × List Touch × Result SdkError (Option Manifest))
      → Costs escapes 0 rest
      → Costs escapes 0 (oversized hex world size b rest)
  unfolding return fail total
  oversized-Costs size b rest c w = ground (arith, c w)

  read_manifest-Costs :
      (hash : BlobHash) (size : ℕ) → Costs escapes 0 (read_manifest hex world hash size)
  unfolding read_manifest
  read_manifest-Costs hash size =
      bind-Costs SdkError escapes 0 0 0 _ _ (read-Costs SdkError escapes 0 (world.media_type hash))
        (λ media. oversized-Costs size (is_collection_type media) _ (
          bind-Costs SdkError escapes 0 0 0 _ _ (read_bytes-Costs hash)
            (λ b. checked_manifest-Costs (is_collection_type media) (world.from_json b))
            (omega arith)))
        (omega arith)

  fetch_as-Costs :
      (hash : BlobHash) (m : Option Manifest) → Costs escapes 0 (fetch_as hex world hash m)
  unfolding fetch_plain fetch_loose
  fetch_as-Costs hash none =
      bind-Costs SdkError escapes 0 0 0 (fetch_loose hex world hash) _
        (λ w. fetched-Costs (fetched_loose hash) (world.fetch_loose hash w) refl)
        (λ got. return-Costs SdkError escapes 0 _) (omega arith)
  fetch_as-Costs hash (some m) = fetch_collection-Costs m

  fetch_store-Costs : (hash : BlobHash) → Costs escapes 0 (fetch_store hex world hash)
  unfolding fetch_store
  fetch_store-Costs hash w = fetched-Costs (fetched_to_store hash) (world.fetch_store hash w) refl

  fetch_any_reporting-Costs :
      (hash : BlobHash) → Costs escapes 0 (fetch_any_reporting hex world hash)
  unfolding fetch_any_reporting
  fetch_any_reporting-Costs hash =
      then-Costs SdkError escapes 0 0 0 _ _ (create_dir_all-Costs [] refl)
        (bind-Costs SdkError escapes 0 0 0 _ _ (fetch_store-Costs hash)
          (λ result.
            bind-Costs SdkError escapes 0 0 0 _ _ (read_manifest-Costs hash result.size)
              (fetch_as-Costs hash) (omega arith))
          (omega arith))
        (omega arith)

  -- Whatever the manifest says and whatever the session and the disk answer, a fetch that succeeds or fails
  -- makes no directory and writes no file but at the destination or at plain names below it.
  pub fetch_any_reporting-Contained :
      (hash : BlobHash) (w : W) → total escapes (fetch_any_reporting hex world hash w).1 ≡ 0
  fetch_any_reporting-Contained hash w = omega (arith, fetch_any_reporting-Costs hash w)
