-- ===== src/Name/Tests.antt =====
-- Runs of the validation and of the choice of a name.
use iroh_drop.Prelude.{◌≡◌, ◌↔◌, refl, true, ◌||◌, none, [], ◌∷◌}
use iroh_drop.Text.{codes, text_eq}
use iroh_drop.Error.{ok, err, invalid_name, leading_dot, path_separator, trailing_dot_or_space}
use iroh_drop.Message.{OfferV1, offer, BlobHash}
use iroh_drop.Hash.{fmt_short}
use iroh_drop.Hash.Digits.{hex_digits, encode}
use iroh_drop.Name.{
  Directory, validate_name, validate_body, collision_safe_path, split_extension, rsplit_dot,
  candidate, decimal, try_names,
}
use iroh_drop.Name.Valid.{IsBody, validate_body_iff}
use iroh_drop.Name.Free.{Chooses, collision_safe_path-Chooses}

program : Unit {0}
unfolding validate_name validate_body collision_safe_path split_extension rsplit_dot candidate
    decimal try_names fmt_short hex_digits encode
program = tt

passes : validate_name (codes "slides.pdf") ≡ ok tt
unfolding program
passes = refl

hidden_is_refused : validate_name (codes ".bashrc") ≡ err (invalid_name leading_dot)
unfolding program
hidden_is_refused = refl

path_is_refused : validate_name (codes "a/b") ≡ err (invalid_name path_separator)
unfolding program
path_is_refused = refl

trailing_space_is_refused : validate_name (codes "a ") ≡ err (invalid_name trailing_dot_or_space)
unfolding program
trailing_space_is_refused = refl

abbrev slides : OfferV1
slides = record {
  blob_hash = [];
  name = codes "slides.pdf";
  size = 3;
  media_type = none;
  created_at_ms = none;
  metadata = (codes "k", codes "v") ∷ [];
}

slides_are_valid : (validate_body (offer slides) ≡ ok tt) ↔ IsBody (offer slides)
slides_are_valid = validate_body_iff (offer slides)

abbrev hash : BlobHash
hash = 0x91 ∷ 0xc8 ∷ 0xaa ∷ 0x02 ∷ 5 ∷ []

-- A directory with these two files.
abbrev dir : Directory
dir = record {
  is_child = λ s. true;
  exists_there = λ s. text_eq s (codes "slides.pdf") || text_eq s (codes "slides-91c8aa02.pdf");
}

third_choice :
    collision_safe_path hex_digits dir (codes "slides.pdf") hash
    ≡ ok (codes "slides-91c8aa02-2.pdf")
unfolding program
third_choice = refl

collision_safe_path-Chooses_example :
    Chooses dir
      (candidate
        (split_extension (codes "slides.pdf")).0
        (fmt_short hex_digits hash)
        (split_extension (codes "slides.pdf")).1)
      0
      1000
      (collision_safe_path hex_digits dir (codes "slides.pdf") hash)
collision_safe_path-Chooses_example =
    collision_safe_path-Chooses hex_digits dir (codes "slides.pdf") hash passes
