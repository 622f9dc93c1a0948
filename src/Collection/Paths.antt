-- ===== src/Collection/Paths.antt =====
-- Which member paths are accepted.
use iroh_drop.Prelude.{
  ◌≤◌, ◌≡◌, ◌≢◌, ◌∙◌, refl, ap, subst, Bool, true, false, not, ◌&&◌, List, [], ◌∷◌, ◌++◌, map,
  append-nil, arith, ltb-false, All,
}
use iroh_drop.Text.{Text, codes, byte_len, any, is_empty, text_eq, starts_with}
use iroh_drop.Error.{Result, ok, err}
use iroh_drop.Name.{is_separator}
use iroh_drop.Collection.{
  SdkError, Component, root_dir, cur_dir, parent_dir, normal, Names, split_path, components_of,
  first_components, components, sanitize_component, sanitize_components, sanitize_relative,
}

-- A name that stays where it is put: not empty, no separator, and neither of the dots.
abbrev pub is_plain : Text → Bool
is_plain name =
    not (is_empty name)
    && (not (any is_separator name)
        && (not (text_eq name (codes ".")) && not (text_eq name (codes ".."))))

abbrev pub all_plain : Names → Bool
all_plain [] = true
all_plain (name ∷ names) = is_plain name && all_plain names

pub sanitize_component_ok :
    (name other : Text)
    → sanitize_component name ≡ ok other
    → (other ≡ name) × (is_plain name ≡ true) × (byte_len name ≤ 255)
unfolding sanitize_component
sanitize_component_ok name other h = (ground arith, ground arith, ground arith)

sanitize_component_plain :
    (name : Text) → is_plain name ≡ true → byte_len name ≤ 255 → sanitize_component name ≡ ok name
unfolding sanitize_component
sanitize_component_plain name h small = ground arith

sanitize_components_ok :
    (path : Text) (cs : List Component) (names : Names)
    → sanitize_components path cs ≡ ok names
    → all_plain names ≡ true
unfolding sanitize_components
sanitize_components_ok path [] names h = ground arith
sanitize_components_ok path (root_dir ∷ cs) names h = absurd (ground arith)
sanitize_components_ok path (cur_dir ∷ cs) names h = absurd (ground arith)
sanitize_components_ok path (parent_dir ∷ cs) names h = absurd (ground arith)
sanitize_components_ok path (normal part ∷ cs) names h =
    by_results (sanitize_component part) refl (sanitize_components path cs) refl
      (λ ns e. sanitize_components_ok path cs ns e)
  where
    by_results :
        (r : Result SdkError Text)
        → sanitize_component part ≡ r
        → (rs : Result SdkError Names) → sanitize_components path cs ≡ rs
        → ((ns : Names) → sanitize_components path cs ≡ ok ns → all_plain ns ≡ true)
        → all_plain names ≡ true
    by_results (err e) p rs q ih = absurd (ground arith)
    by_results (ok n) p (err e) q ih = absurd (ground arith)
    by_results (ok n) p (ok ns) q ih =
        let (same, plain, short) = sanitize_component_ok part n p in
        let split : n ∷ ns ≡ names = ground arith in
        subst (λ x. all_plain x ≡ true) split (rw (same, plain) (ih ns q))

-- An accepted path has a name, and each of its names is plain: it stays below the directory that it is
-- joined to.
pub sanitize_relative_ok :
    (path : Text) (names : Names)
    → sanitize_relative path ≡ ok names
    → (names ≢ []) × (all_plain names ≡ true)
unfolding sanitize_relative
sanitize_relative_ok path names h = by_result (sanitize_components path (components path)) refl
  where
    by_result :
        (r : Result SdkError Names)
        → sanitize_components path (components path) ≡ r
        → (names ≢ []) × (all_plain names ≡ true)
    by_result (err e) p = absurd (ground arith)
    by_result (ok []) p = absurd (ground arith)
    by_result (ok (n ∷ ns)) p =
        let same : n ∷ ns ≡ names = ground arith in
        (
          λ e. ground arith,
          subst (λ x. all_plain x ≡ true) same
              (sanitize_components_ok path (components path) (n ∷ ns) p),
        )

-- Names with slashes between them: the path of a member in a manifest.
unfoldable pub join : Names → Text
join [] = []
join (name ∷ []) = name
join (name ∷ other ∷ names) = name ++ 47 ∷ join (other ∷ names)

split_path-slash :
    (name s : Text)
    → any is_separator name ≡ false
    → split_path (name ++ 47 ∷ s) ≡ name ∷ split_path s
unfolding split_path
split_path-slash [] s h = refl
split_path-slash (c ∷ name) s h = ground (arith, split_path-slash name s)

split_path-name : (name : Text) → any is_separator name ≡ false → split_path name ≡ name ∷ []
unfolding split_path
split_path-name [] h = refl
split_path-name (c ∷ name) h = ground (arith, split_path-name name)

-- Plain names of 255 bytes at most.
abbrev pub AllShort : Names → Type 0
AllShort names = All (λ name. byte_len name ≤ 255) names

split_path-join :
    (name : Text) (names : Names)
    → all_plain (name ∷ names) ≡ true
    → split_path (join (name ∷ names)) ≡ name ∷ names
unfolding join
split_path-join name [] h = split_path-name name (ground arith)
split_path-join name (other ∷ names) h =
    split_path-slash name (join (other ∷ names)) (ground arith)
    ∙ ap (λ x. name ∷ x) (split_path-join other names (ground arith))

components_of-plain :
    (names : Names) → all_plain names ≡ true → components_of names ≡ map normal names
unfolding components_of
components_of-plain [] h = refl
components_of-plain (name ∷ names) h = ground (arith, components_of-plain names)

first_components-plain :
    (name : Text) (names : Names)
    → all_plain (name ∷ names) ≡ true
    → first_components (name ∷ names) ≡ map normal (name ∷ names)
unfolding first_components
first_components-plain name names h = ground (arith, components_of-plain (name ∷ names))

starts_with-append :
    (name s : Text) → is_plain name ≡ true → starts_with (name ++ s) (codes "/") ≡ false
starts_with-append [] s h = absurd (ground arith)
starts_with-append (c ∷ name) s h = ground arith

starts_with-join :
    (name : Text) (names : Names)
    → all_plain (name ∷ names) ≡ true
    → starts_with (join (name ∷ names)) (codes "/") ≡ false
unfolding join
starts_with-join name [] h =
    subst (λ t. starts_with t (codes "/") ≡ false) (append-nil name)
      (starts_with-append name [] (ground arith))
starts_with-join name (other ∷ names) h =
    starts_with-append name (47 ∷ join (other ∷ names)) (ground arith)

components-join :
    (name : Text) (names : Names)
    → all_plain (name ∷ names) ≡ true
    → components (join (name ∷ names)) ≡ map normal (name ∷ names)
unfolding components
components-join name names h =
    rw (starts_with-join name names h, split_path-join name names h)
      (first_components-plain name names h)

sanitize_components-plain :
    (path : Text) (names : Names)
    → all_plain names ≡ true
    → AllShort names
    → sanitize_components path (map normal names) ≡ ok names
unfolding sanitize_components
sanitize_components-plain path [] h short = refl
sanitize_components-plain path (name ∷ names) h (s, short) = rw (
  sanitize_component_plain name (ground arith) s,
  sanitize_components-plain path names (ground arith) short,
)

-- The path that plain names spell, as a publisher writes it, is read back to these names, if each has at most
-- 255 bytes and the path at most 1024.
pub sanitize_relative-join :
    (name : Text) (names : Names)
    → all_plain (name ∷ names) ≡ true
    → AllShort (name ∷ names)
    → byte_len (join (name ∷ names)) ≤ 1024
    → sanitize_relative (join (name ∷ names)) ≡ ok (name ∷ names)
unfolding sanitize_relative
sanitize_relative-join name names h short fits = rw (
  ltb-false 1024 (byte_len (join (name ∷ names))) fits,
  components-join name names h,
  sanitize_components-plain (join (name ∷ names)) (name ∷ names) h short,
)
