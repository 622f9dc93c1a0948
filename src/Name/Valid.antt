-- ===== src/Name/Valid.antt =====
-- Which names and bodies pass.
use iroh_drop.Prelude.{◌≤◌, ◌≡◌, ◌↔◌, refl, false, ◌||◌, List, [], ◌∷◌, arith, length, All}
use iroh_drop.Text.{Text, byte_len, is_control, any, is_empty, text_eq, starts_with, last_is}
use iroh_drop.Error.{ok}
use iroh_drop.Message.{
  MessageBodyV1, offer, provider, request, extension, max_name_len, max_metadata_entries,
  max_metadata_key_len, max_metadata_value_len, max_body_size,
}
use iroh_drop.Name.{validate_name, validate_metadata, validate_body, is_separator, is_dot_or_space}

-- A name for one file: never a path, nor a hidden file, nor one that a file system alters.
pub record IsName (s : Text) : Type 0 where
  pub there : is_empty s ≡ false
  pub short : byte_len s ≤ max_name_len
  pub no_separator : any is_separator s ≡ false
  pub no_control : any is_control s ≡ false
  pub visible : starts_with s (46 ∷ []) ≡ false
  pub plain_end : last_is is_dot_or_space s ≡ false

dot_lem :
    (s : Text)
    → starts_with s (46 ∷ []) ≡ false
    → (text_eq s (46 ∷ []) || text_eq s (46 ∷ 46 ∷ [])) ≡ false
dot_lem [] h = refl
dot_lem (c ∷ s) h = ground arith

-- A name passes exactly when it is one.
pub validate_name_iff : (s : Text) → (validate_name s ≡ ok tt) ↔ IsName s
unfolding validate_name
validate_name_iff s = (
  forth,
  λ v. ground (
    arith,
    v.there,
    v.short,
    v.no_separator,
    v.no_control,
    v.visible,
    v.plain_end,
    dot_lem s v.visible,
  ),
)
  where
    forth : validate_name s ≡ ok tt → IsName s
    forth h = record {
      there = ground arith;
      short = ground arith;
      no_separator = ground arith;
      no_control = ground arith;
      visible = ground arith;
      plain_end = ground arith;
    }

-- The entries of the metadata that are within the limits.
abbrev pub IsEntry : Text × Text → Type 0
IsEntry e = (byte_len e.0 ≤ max_metadata_key_len) × (byte_len e.1 ≤ max_metadata_value_len)

validate_metadata_iff : (m : List (Text × Text)) → (validate_metadata m ≡ ok tt) ↔ All IsEntry m
unfolding validate_metadata
validate_metadata_iff [] = (λ h. tt, λ h. refl)
validate_metadata_iff ((k, v) ∷ m) =
    let ih = validate_metadata_iff m in
    (
      λ h. ((ground arith, ground arith), ih.0 (ground arith)),
      λ a. ground (arith, a.0.0, a.0.1, ih.1 a.1),
    )

-- What a body must satisfy.
abbrev pub IsBody : MessageBodyV1 → Type 0
IsBody (offer o) =
    IsName o.name × (length o.metadata ≤ max_metadata_entries) × All IsEntry o.metadata
IsBody (provider p) = Unit
IsBody (request r) = Unit
IsBody (extension e) = length e.payload ≤ max_body_size

-- A body passes exactly when its bounded fields are within their limits.
pub validate_body_iff : (b : MessageBodyV1) → (validate_body b ≡ ok tt) ↔ IsBody b
unfolding validate_body
validate_body_iff (offer o) =
    let n = validate_name_iff o.name in
    let m = validate_metadata_iff o.metadata in
    (
      λ h. (n.0 (ground arith), ground arith, m.0 (ground arith)),
      λ v. ground (arith, n.1 v.0, v.1, m.1 v.2),
    )
validate_body_iff (provider p) = (λ h. tt, λ h. refl)
validate_body_iff (request r) = (λ h. tt, λ h. refl)
validate_body_iff (extension e) = (λ h. ground arith, λ h. ground arith)
