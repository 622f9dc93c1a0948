-- ===== src/Collection/Tests.antt =====
-- A manifest with a member below a directory, one that reaches out, and paths.
use iroh_drop.Prelude.{◌≡◌, ◌≢◌, refl, true, none, [], ◌∷◌, length, arith}
use iroh_drop.Text.{Text, codes}
use iroh_drop.Error.{ok, err}
use iroh_drop.Message.{BlobHash}
use iroh_drop.Hash.{to_hex, from_hex}
use iroh_drop.Hash.Digits.{hex_digits}
use iroh_drop.Run.{◌>>=◌, ◌>>◌, return, fail, emit, read}
use iroh_drop.Run.Steps.{total}
use iroh_drop.Collection.{
  manifest_error, unsafe_member_path, Manifest, ManifestEntry, split_path, components_of,
  first_components, components, sanitize_component, sanitize_components, sanitize_relative, World,
  create_dir_all, fetched, fetch_store, fetch_loose, fetch_exact, fetch_member, fetch_members,
  checked_manifest, read_bytes, read_manifest, fetch_collection, fetch_plain, fetch_any_reporting,
}
use iroh_drop.Collection.Paths.{all_plain, join, sanitize_relative_ok, sanitize_relative-join}
use iroh_drop.Collection.Contained.{escapes, fetch_any_reporting-Contained}

program : Unit {0}
unfolding to_hex from_hex hex_digits ◌>>=◌ ◌>>◌ return fail emit read split_path components_of
    first_components components sanitize_component sanitize_components sanitize_relative
    create_dir_all fetched fetch_store fetch_loose fetch_exact fetch_member fetch_members
    checked_manifest read_bytes read_manifest fetch_collection fetch_plain fetch_any_reporting join
program = tt

abbrev zeros : Text
zeros = codes "0000000000000000000000000000000000000000000000000000000000000000"

abbrev good : ManifestEntry
good = record { path = codes "img/logo.png"; hash = zeros; size = 30 }

abbrev bad : ManifestEntry
bad = record { path = codes "a/../../etc/passwd"; hash = zeros; size = 30 }

abbrev manifest : Manifest
manifest = record { iroh_drop_collection = 1; name = codes "photos"; entries = good ∷ bad ∷ [] }

-- Every blob has 30 bytes and every call succeeds; the bytes are of the manifest.
unfoldable world : World (Unit {0})
world = record {
  make_dir = λ names w. (w, none);
  fetch_store = λ h w. (w, ok (record { size = 30; path = none }));
  fetch_loose = λ h w. (w, ok (record { size = 30; path = none }));
  fetch_exact = λ h names w. (w, ok (record { size = 30; path = none }));
  read_bytes = λ h w. (w, ok []);
  media_type = λ h w. none;
  from_json = λ b. ok manifest;
}

abbrev hash : BlobHash
hash = 6 ∷ []

-- The first member is fetched; at the second the fetch ends.
stops_at_the_escape :
    (fetch_any_reporting hex_digits world hash tt).2
    ≡ err (manifest_error (unsafe_member_path (codes "a/../../etc/passwd")))
unfolding program world
stops_at_the_escape = refl

touches : length (fetch_any_reporting hex_digits world hash tt).1 ≡ 6
unfolding program world
touches = refl

fetch_any_reporting-Contained_example :
    total escapes (fetch_any_reporting hex_digits world hash tt).1 ≡ 0
fetch_any_reporting-Contained_example = fetch_any_reporting-Contained hex_digits world hash tt

doubled_slashes_are_passed_over :
    sanitize_relative (codes "a//b/./c") ≡ ok (codes "a" ∷ codes "b" ∷ codes "c" ∷ [])
unfolding program
doubled_slashes_are_passed_over = refl

the_logo_is_plain :
    ((codes "img" ∷ codes "logo.png" ∷ []) ≢ [])
    × (all_plain (codes "img" ∷ codes "logo.png" ∷ []) ≡ true)
unfolding program
the_logo_is_plain =
    sanitize_relative_ok (codes "img/logo.png") (codes "img" ∷ codes "logo.png" ∷ []) refl

sanitize_relative-join_example :
    sanitize_relative (join (codes "img" ∷ codes "logo.png" ∷ []))
    ≡ ok (codes "img" ∷ codes "logo.png" ∷ [])
unfolding join
sanitize_relative-join_example =
    sanitize_relative-join (codes "img") (codes "logo.png" ∷ []) refl (omega arith) (omega arith)
