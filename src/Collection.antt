-- ===== src/Collection.antt =====
-- Directory trees in a drop, of crates/iroh-drop-sdk/src/collections.rs: the fetching of a collection by its
-- manifest. Paths are those of Unix, relative to the destination. The session and the disk are the world,
-- with the fetch of a blob, the reading of its bytes and of JSON, and the making of a directory as parameters.
pub mod Paths
pub mod Contained
mod Tests
use iroh_drop.Prelude.{
  ℕ, zero, suc, ◌+◌, ◌*◌, Bool, true, false, not, ◌&&◌, ◌||◌, Option, none, some, List, [], ◌∷◌,
  ◌++◌, length, ltb, ◌==◌, if◌then◌else◌,
}
use iroh_drop.Text.{Text, Bytes, codes, byte_len, any, is_empty, text_eq, starts_with}
use iroh_drop.Error.{Result, ok, err}
use iroh_drop.Message.{BlobHash}
use iroh_drop.Hash.{HexLower, HexFault, from_hex}
use iroh_drop.Name.{is_separator}
use iroh_drop.Run.{Run, ◌>>=◌, ◌>>◌, return, fail, emit, read, or_fail}

abbrev pub collection_media_type : Text
collection_media_type = codes "application/vnd.iroh-drop.collection+json"

abbrev pub max_manifest_bytes : ℕ
max_manifest_bytes = 8 * 1024 * 1024

abbrev pub max_members : ℕ
max_members = 20_000

pub record ManifestEntry : Type 0 where
  pub path : Text
  pub hash : Text
  pub size : ℕ

pub record Manifest : Type 0 where
  pub iroh_drop_collection : ℕ
  pub name : Text
  pub entries : List ManifestEntry

-- The texts of `SdkError::Manifest`.
pub data ManifestFault : Type 0 where
  unsafe_name unsafe_member_path : Text → ManifestFault
  member_path_too_long empty_member_path : ManifestFault
  manifest_too_large too_many_members unsupported_collection : ℕ → ManifestFault
  bad_member_hash : HexFault → ManifestFault
  wrong_member_size : Text → ℕ → ℕ → ManifestFault
  bad_json : Text → ManifestFault

pub data SdkError : Type 0 where
  drop_error io_error pick_error config_error : Text → SdkError
  manifest_error : ManifestFault → SdkError

-- `std::path::Component`, on Unix.
pub data Component : Type 0 where
  root_dir cur_dir parent_dir : Component
  normal : Text → Component

-- A character before the first piece.
abbrev pub grow : ℕ → List Text → List Text
grow c [] = (c ∷ []) ∷ []
grow c (piece ∷ pieces) = (c ∷ piece) ∷ pieces

-- The pieces between slashes.
unfoldable pub split_path : Text → List Text
split_path [] = [] ∷ []
split_path (c ∷ s) = let rest = split_path s in if c == 47 then [] ∷ rest else grow c rest

-- The components of the pieces behind the first: an empty piece and a dot are passed over.
unfoldable pub components_of : List Text → List Component
components_of [] = []
components_of (piece ∷ pieces) =
    let rest = components_of pieces in
    if is_empty piece || text_eq piece (codes ".")
    then rest
    else if text_eq piece (codes "..")
    then parent_dir ∷ rest
    else normal piece ∷ rest

-- A leading dot counts.
unfoldable pub first_components : List Text → List Component
unfolding components_of
first_components [] = []
first_components (piece ∷ pieces) =
    if text_eq piece (codes ".")
    then cur_dir ∷ components_of pieces
    else components_of (piece ∷ pieces)

unfoldable pub components : Text → List Component
unfolding split_path components_of first_components
components path =
    if starts_with path (codes "/")
    then root_dir ∷ components_of (split_path path)
    else first_components (split_path path)

unfoldable pub sanitize_component : Text → Result SdkError Text
sanitize_component name =
    if is_empty name || ltb 255 (byte_len name) || any is_separator name
    then err (manifest_error (unsafe_name name))
    else if text_eq name (codes ".") || text_eq name (codes "..")
    then err (manifest_error (unsafe_name name))
    else ok name

-- The path as a list of names, outermost first.
abbrev pub Names : Type 0
Names = List Text

abbrev pub push : Result SdkError Text → Result SdkError Names → Result SdkError Names
push (err e) rest = err e
push (ok name) (err e) = err e
push (ok name) (ok names) = ok (name ∷ names)

-- The `for` loop over the components.
unfoldable pub sanitize_components : Text → List Component → Result SdkError Names
unfolding sanitize_component
sanitize_components path [] = ok []
sanitize_components path (normal part ∷ rest) =
    push (sanitize_component part) (sanitize_components path rest)
sanitize_components path (root_dir ∷ rest) = err (manifest_error (unsafe_member_path path))
sanitize_components path (cur_dir ∷ rest) = err (manifest_error (unsafe_member_path path))
sanitize_components path (parent_dir ∷ rest) = err (manifest_error (unsafe_member_path path))

abbrev pub refuse_empty : Result SdkError Names → Result SdkError Names
refuse_empty (err e) = err e
refuse_empty (ok []) = err (manifest_error empty_member_path)
refuse_empty (ok (name ∷ names)) = ok (name ∷ names)

unfoldable pub sanitize_relative : Text → Result SdkError Names
unfolding components sanitize_components
sanitize_relative path =
    if ltb 1024 (byte_len path)
    then err (manifest_error member_path_too_long)
    else refuse_empty (sanitize_components path (components path))

-- What a fetch does: directories that are made, below the destination, and blobs that are fetched into the
-- store, to a path below the destination, or to a free name in it; and the members that are reported.
pub data Touch : Type 0 where
  made_dir : Names → Touch
  fetched_to_store fetched_loose : BlobHash → Touch
  fetched_exact : BlobHash → Names → Touch
  reported : ℕ → ℕ → Touch

-- What the fetch of a blob returns: its size and where it was put.
pub record Fetched : Type 0 where
  pub size : ℕ
  pub path : Option Text

-- A member's path below the destination, and the path that the session reports.
abbrev pub Landed : Type 0
Landed = Names × Option Text

pub record World (W : Type 0) : Type 0 where
  pub make_dir : Names → W → W × Option Text
  pub fetch_store : BlobHash → W → W × Result Text Fetched
  pub fetch_loose : BlobHash → W → W × Result Text Fetched
  pub fetch_exact : BlobHash → Names → W → W × Result Text Fetched
  pub read_bytes : BlobHash → W → W × Result Text Bytes
  pub media_type : BlobHash → W → Option Text
  pub from_json : Bytes → Result Text Manifest

abbrev pub is_collection_type : Option Text → Bool
is_collection_type none = false
is_collection_type (some t) = text_eq t collection_media_type

-- The directory of a path.
abbrev pub parent_of : Names → Names
parent_of [] = []
parent_of (name ∷ []) = []
parent_of (name ∷ other ∷ names) = name ∷ parent_of (other ∷ names)

module _ {W : Type 0} (hex : HexLower) (world : World W) where
  abbrev pub Step : Type 0 → Type 0
  Step A = Run W Touch SdkError A

  unfoldable pub create_dir_all : Names → Step (Unit {0})
  create_dir_all names w =
      let (w', fault) = world.make_dir names w in
      (w', made_dir names ∷ [], elim fault [ none ↦ ok tt | some e ↦ err (io_error e) ])

  unfoldable pub fetched :
      Touch → W × Result Text Fetched → W × List Touch × Result SdkError Fetched
  fetched touch (w, ok f) = (w, touch ∷ [], ok f)
  fetched touch (w, err e) = (w, touch ∷ [], err (drop_error e))

  unfoldable pub fetch_store : BlobHash → Step Fetched
  fetch_store hash w = fetched (fetched_to_store hash) (world.fetch_store hash w)

  unfoldable pub fetch_loose : BlobHash → Step Fetched
  fetch_loose hash w = fetched (fetched_loose hash) (world.fetch_loose hash w)

  unfoldable pub fetch_exact : BlobHash → Names → Step Fetched
  fetch_exact hash target w = fetched (fetched_exact hash target) (world.fetch_exact hash target w)

  abbrev pub check_size : ManifestEntry → ℕ → Step (Unit {0})
  check_size entry size =
      if size == entry.size
      then return tt
      else fail (manifest_error (wrong_member_size entry.path size entry.size))

  -- One round of the loop over the members.
  unfoldable pub fetch_member : Text → ℕ → ℕ → ManifestEntry → Step Landed
  fetch_member root index total entry = do
    rel ← or_fail (sanitize_relative entry.path) (λ e. e)
    create_dir_all (root ∷ parent_of rel)
    member ← or_fail (from_hex hex entry.hash) (λ f. manifest_error (bad_member_hash f))
    got ← fetch_exact member (root ∷ rel)
    check_size entry got.size
    emit (reported index total)
    return (root ∷ rel, got.path)

  unfoldable pub fetch_members : Text → ℕ → ℕ → List ManifestEntry → Step (List Landed)
  fetch_members root index total [] = return []
  fetch_members root index total (entry ∷ entries) =
      fetch_member root (index + 1) total entry >>= λ landed.
      fetch_members root (index + 1) total entries >>= λ rest. return (landed ∷ rest)

  -- The match on the parsed bytes.
  unfoldable pub checked_manifest : Bool → Result Text Manifest → Step (Option Manifest)
  checked_manifest is_collection (err e) =
      if is_collection then fail (manifest_error (bad_json e)) else return none
  checked_manifest is_collection (ok m) =
      if m.iroh_drop_collection == 1
      then if ltb max_members (length m.entries)
        then fail (manifest_error (too_many_members (length m.entries)))
        else return (some m)
      else fail (manifest_error (unsupported_collection m.iroh_drop_collection))

  unfoldable pub read_bytes : BlobHash → Step Bytes
  read_bytes hash w =
      let (w', r) = world.read_bytes hash w in
      (w', [], elim r [ ok b ↦ ok b | err e ↦ err (drop_error e) ])

  abbrev pub oversized : ℕ → Bool → Step (Option Manifest) → Step (Option Manifest)
  oversized size is_collection rest =
      if ltb max_manifest_bytes size
      then if is_collection then fail (manifest_error (manifest_too_large size)) else return none
      else rest

  unfoldable pub read_manifest : BlobHash → ℕ → Step (Option Manifest)
  read_manifest hash size = do
    media ← read (world.media_type hash)
    oversized size (is_collection_type media)
        (read_bytes hash >>= λ b. checked_manifest (is_collection_type media) (world.from_json b))

  unfoldable pub fetch_collection : Manifest → Step (List Landed)
  fetch_collection m = do
    root ← or_fail (sanitize_component m.name) (λ e. e)
    create_dir_all (root ∷ [])
    fetch_members root 0 (length m.entries) m.entries

  unfoldable pub fetch_plain : BlobHash → Step (List Landed)
  fetch_plain hash = do
    got ← fetch_loose hash
    return (elim got.path [ none ↦ [] | some p ↦ ([], some p) ∷ [] ])

  abbrev pub fetch_as : BlobHash → Option Manifest → Step (List Landed)
  fetch_as hash none = fetch_plain hash
  fetch_as hash (some m) = fetch_collection m

  unfoldable pub fetch_any_reporting : BlobHash → Step (List Landed)
  fetch_any_reporting hash = do
    create_dir_all []
    result ← fetch_store hash
    manifest ← read_manifest hash result.size
    fetch_as hash manifest
