-- ===== src/Provider/Bounds.antt =====
-- How many providers a set holds.
use iroh_drop.Prelude.{
  ℕ, zero, suc, ◌+◌, ◌-◌, ◌≤◌, ◌≡◌, ◌∙◌, refl, inl, inr, Bool, true, false, none, some, List, [],
  ◌∷◌, arith, length, map, take, leb, length-take, min, if◌then◌else◌, Option-cases, Bool-cases,
  sym, ◌&&◌,
}
use iroh_drop.Map.{
  nat_key, get, put, contains, Distinct, get-remove, get-put, put-Distinct, remove-Distinct,
  length-remove, length-put,
}
use iroh_drop.Map.Queue.{mem, Nodup}
use iroh_drop.Sort.{sort_by, mem-sort_by, Nodup-sort_by, length-sort_by}
use iroh_drop.Message.{EndpointId, FrameId}
use iroh_drop.Provider.{
  ProviderInfo, ProviderSet, entry, add, remove_provider, remove_all, enforce_cap, worse_first,
  record_claim, pair_lt, is_original, max_providers_per_blob,
}

abbrev Entry : Type 0
Entry = EndpointId × ProviderInfo

abbrev id_of : Entry → EndpointId
id_of e = e.0

mem-ids : (q : EndpointId) (m : List Entry) → mem q (map id_of m) ≡ contains q m
unfolding mem get
mem-ids q [] = refl
mem-ids q (e ∷ m) = ground (arith, mem-ids q m)

ids-Nodup : (m : List Entry) → Distinct m → Nodup (map id_of m)
unfolding get
ids-Nodup [] d = tt
ids-Nodup (e ∷ m) d = (ground (arith, mem-ids e.0 m, d.0), ids-Nodup m d.1)

mem-take :
    (q : EndpointId) (n : ℕ) (m : List Entry)
    → mem q (map id_of (take n m)) ≡ true
    → mem q (map id_of m) ≡ true
unfolding mem
mem-take q zero m h = ground arith
mem-take q (suc n) [] h = ground arith
mem-take q (suc n) (e ∷ m) h = ground (arith, mem-take q n m)

take-Nodup : (n : ℕ) (m : List Entry) → Nodup (map id_of m) → Nodup (map id_of (take n m))
unfolding mem
take-Nodup zero m d = tt
take-Nodup (suc n) [] d = tt
take-Nodup (suc n) (e ∷ m) d = (ground (arith, mem-take e.0 n m, d.0), take-Nodup n m d.1)

length-ids : (m : List Entry) → length (map id_of m) ≡ length m
length-ids [] = refl
length-ids (e ∷ m) = omega (arith, length-ids m)

remove_all-Distinct :
    (ids : List EndpointId) (s : ProviderSet)
    → Distinct s.providers
    → Distinct (remove_all ids s).providers
unfolding remove_all
remove_all-Distinct [] s d = d
remove_all-Distinct (id ∷ ids) s d =
    remove_all-Distinct ids (remove_provider id s) (remove-Distinct id s.providers d)

length-remove_all :
    (ids : List EndpointId) (s : ProviderSet)
    → Distinct s.providers
    → Nodup ids
    → ((q : EndpointId) → mem q ids ≡ true → contains q s.providers ≡ true)
    → length (remove_all ids s).providers + length ids ≡ length s.providers
unfolding remove_all mem
length-remove_all [] s d n h = omega arith
length-remove_all (id ∷ ids) s d n h =
    let s' = remove_provider id s in
    let ih =
      length-remove_all ids s' (remove-Distinct id s.providers d) n.1
        (λ q e. ground (arith, get-remove id q s.providers, h q, n.0)) in
    elim (Option-cases (get id s.providers)) [
      | inl none_there ↦ absurd (ground (arith, h id))
      | inr (v, there) ↦ omega (arith, ih, length-remove id v s.providers d there)
    ]

-- What the removals leave was there before.
pub get-remove_all :
    (ids : List EndpointId) (s : ProviderSet) (q : EndpointId) (v : ProviderInfo)
    → get q (remove_all ids s).providers ≡ some v
    → get q s.providers ≡ some v
unfolding remove_all
get-remove_all [] s q v h = h
get-remove_all (id ∷ ids) s q v h =
    ground (arith, get-remove_all ids (remove_provider id s) q v h, get-remove id q s.providers)

-- The cap holds after the eviction, and a set within it is left alone.
pub enforce_cap-le :
    (s : ProviderSet)
    → Distinct s.providers
    → (length (enforce_cap s).providers ≤ max_providers_per_blob)
      × Distinct (enforce_cap s).providers
unfolding enforce_cap
enforce_cap-le s d =
    let ranked = sort_by worse_first s.providers in
    let over = length s.providers - max_providers_per_blob in
    let ids = map id_of (take over ranked) in
    let distinct =
      take-Nodup over ranked
        (Nodup-sort_by worse_first id_of s.providers (ids-Nodup s.providers d)) in
    let there : (q : EndpointId) → mem q ids ≡ true → contains q s.providers ≡ true = λ q h.
      sym (mem-ids q s.providers)
      ∙ sym (mem-sort_by worse_first id_of q s.providers)
      ∙ mem-take q over ranked h in
    let shorter = length-remove_all ids s d distinct there in
    let count : length ids ≡ min over (length ranked) =
      length-ids (take over ranked) ∙ length-take over ranked in
    elim (Bool-cases (leb (length s.providers) max_providers_per_blob)) [
      | inl fits ↦ rw fits (ground arith, d)
      | inr full ↦ rw full (
        omega (arith, shorter, count, length-sort_by worse_first s.providers),
        remove_all-Distinct ids s d,
      )
    ]

pub enforce_cap_fits :
    (s : ProviderSet) → length s.providers ≤ max_providers_per_blob → enforce_cap s ≡ s
unfolding enforce_cap
enforce_cap_fits s h = ground arith

-- An assertion that is not stale leaves at most the cap, however many providers there were.
pub record_claim-le :
    (id : EndpointId) (at : ℕ) (frame : FrameId) (withdrawn : Bool) (s : ProviderSet)
    → Distinct s.providers
    → pair_lt at frame (entry id s).announced_at_ms (entry id s).last_frame_id ≡ false
    → (length (record_claim id at frame withdrawn s).0.providers ≤ max_providers_per_blob)
      × Distinct (record_claim id at frame withdrawn s).0.providers
unfolding record_claim
record_claim-le id at frame withdrawn s d fresh =
    let new = record (entry id s) {
      announced = true;
      announced_at_ms = at;
      last_frame_id = frame;
      withdrawn = withdrawn;
    } in
    rw fresh (
      enforce_cap-le
        (record {
          original = if withdrawn && is_original id s then none else s.original;
          providers = put id new s.providers;
        })
        (put-Distinct id new s.providers d))

unfoldable pub add_all : List EndpointId → ProviderSet → ProviderSet
unfolding add
add_all [] s = s
add_all (id ∷ ids) s = add_all ids (add id true s)

-- Providers that are new to the set are all added.
pub length-add_all :
    (ids : List EndpointId) (s : ProviderSet)
    → Nodup ids
    → ((q : EndpointId) → mem q ids ≡ true → get q s.providers ≡ none)
    → length (add_all ids s).providers ≡ length s.providers + length ids
unfolding add_all mem
length-add_all [] s n h = omega arith
length-add_all (id ∷ ids) s n h =
    let v = entry id s in
    omega (
      arith,
      length-add_all ids (add id true s) n.1
          (λ q e. ground (arith, get-put id q v s.providers, h q, n.0)),
      length-put id v s.providers (h id (ground arith)),
    )
