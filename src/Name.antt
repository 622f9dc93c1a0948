-- ===== src/Name.antt =====
-- The validation of message bodies and names, and the choice of an output name, of
-- crates/iroh-drop/src/message.rs. The file system is a parameter.
pub mod Valid
pub mod Free
mod Tests
use iroh_drop.Prelude.{
  ℕ, zero, suc, ◌+◌, ◌/◌, ◌%◌, Bool, true, false, ◌&&◌, ◌||◌, List, [], ◌∷◌, ◌++◌, length, ltb,
  ◌==◌, if◌then◌else◌,
}
use iroh_drop.Text.{
  Text, Bytes, codes, byte_len, is_control, any, is_empty, text_eq, starts_with, last_is,
}
use iroh_drop.Error.{
  Result, ok, err, ◌>>=◌, ◌>>◌, refuse_if, ProtocolError, NameFault, invalid_name, empty_name,
  name_too_long, dot_component, path_separator, control_character, leading_dot,
  trailing_dot_or_space, escapes_output_directory, no_free_name, metadata_limit, too_many_entries,
  key_too_long, value_too_long, message_too_large,
}
use iroh_drop.Message.{
  OfferV1, MessageBodyV1, offer, provider, request, extension, BlobHash, max_name_len,
  max_metadata_entries, max_metadata_key_len, max_metadata_value_len, max_body_size,
}
use iroh_drop.Hash.{HexLower, fmt_short}

abbrev pub is_separator : ℕ → Bool
is_separator c = (c == 47) || (c == 92)

abbrev pub is_dot_or_space : ℕ → Bool
is_dot_or_space c = (c == 46) || (c == 32)

unfoldable pub validate_name : Text → Result ProtocolError (Unit {0})
validate_name name = do
  refuse_if (is_empty name) (invalid_name empty_name)
  refuse_if (ltb max_name_len (byte_len name)) (invalid_name (name_too_long (byte_len name)))
  refuse_if (text_eq name (46 ∷ []) || text_eq name (46 ∷ 46 ∷ [])) (invalid_name dot_component)
  refuse_if (any is_separator name) (invalid_name path_separator)
  refuse_if (any is_control name) (invalid_name control_character)
  refuse_if (starts_with name (46 ∷ [])) (invalid_name leading_dot)
  refuse_if (last_is is_dot_or_space name) (invalid_name trailing_dot_or_space)

-- The `for` loop over the metadata.
unfoldable pub validate_metadata : List (Text × Text) → Result ProtocolError (Unit {0})
validate_metadata [] = ok tt
validate_metadata ((k, v) ∷ entries) = do
  refuse_if (ltb max_metadata_key_len (byte_len k)) (metadata_limit (key_too_long (byte_len k)))
  refuse_if (ltb max_metadata_value_len (byte_len v)) (metadata_limit (value_too_long (byte_len v)))
  validate_metadata entries

unfoldable pub validate_body : MessageBodyV1 → Result ProtocolError (Unit {0})
unfolding validate_name validate_metadata
validate_body (offer o) = do
  validate_name o.name
  refuse_if (ltb max_metadata_entries (length o.metadata))
      (metadata_limit (too_many_entries (length o.metadata)))
  validate_metadata o.metadata
validate_body (provider p) = ok tt
validate_body (request r) = ok tt
validate_body (extension e) =
    refuse_if (ltb max_body_size (length e.payload)) (message_too_large (length e.payload))

-- The output directory: whether the joined path of a name is its direct child, and whether it exists.
pub record Directory : Type 0 where
  pub is_child : Text → Bool
  pub exists_there : Text → Bool

-- `rsplit_once('.')`, and the whole name where there is no dot or nothing before it. The extension keeps
-- its dot.
unfoldable pub rsplit_dot : Text → Text × Text
rsplit_dot [] = ([], [])
rsplit_dot (c ∷ s) =
    let rest = rsplit_dot s in
    if (c == 46) && is_empty rest.1 then ([], c ∷ s) else (c ∷ rest.0, rest.1)

unfoldable pub split_extension : Text → Text × Text
unfolding rsplit_dot
split_extension name = if is_empty (rsplit_dot name).0 then (name, []) else rsplit_dot name

-- A number in decimal, with at most `fuel` digits: three are enough for an attempt.
unfoldable pub decimal : ℕ → ℕ → Text
decimal zero n = []
decimal (suc fuel) n =
    let front = decimal fuel (n / 10) in (if ltb n 10 then [] else front) ++ (48 + n % 10) ∷ []

unfoldable pub candidate : Text → Text → Text → ℕ → Text
unfolding decimal
candidate stem short ext zero = stem ++ ext
candidate stem short ext (suc zero) = stem ++ 45 ∷ short ++ ext
candidate stem short ext (suc (suc n)) = stem ++ 45 ∷ short ++ 45 ∷ decimal 3 (suc (suc n)) ++ ext

-- The `for` loop over the attempts that are left.
unfoldable pub try_names : Directory → (ℕ → Text) → ℕ → ℕ → Result ProtocolError Text
try_names dir name zero attempt = err (invalid_name no_free_name)
try_names dir name (suc left) attempt =
    let rest = try_names dir name left (attempt + 1) in
    if dir.is_child (name attempt)
    then if dir.exists_there (name attempt) then rest else ok (name attempt)
    else err (invalid_name escapes_output_directory)

-- The name, in the directory, of the path that is returned.
unfoldable pub collision_safe_path :
    HexLower → Directory → Text → BlobHash → Result ProtocolError Text
collision_safe_path hex dir name hash = do
  validate_name name
  try_names dir (candidate (split_extension name).0 (fmt_short hex hash) (split_extension name).1)
      1000 0
