-- ===== src/Adapter/Primitives/Containment.antt =====
-- Where a path handle of crates/flutterdec-adapter/src/primitives.rs leads, from the directory that
-- it is resolved against.

use mathlib.Core.List.{reverse, reverse-cons, reverse-reverse, append_assoc, append_cancel_right}
use flutterdec.Common.{
  All-map, ◌≡◌, refl, ◌↔◌, ◌≢◌, ap, sym, ◌∙◌, false, List, [], ◌∷◌, ◌++◌, arith, Text, chars, split,
  split-injective, is_empty, All, ok, for_each, for_each_iff, list_eq_iff, ◌||◌, if◌then◌else◌,
  ◌==◌, ℕ_eq, List_eq,
}
use flutterdec.Adapter.Primitives.{
  RelativePath, check_component, check_path, parse_path, starts_with_slash,
}

-- A directory as the names from it up to the root.
abbrev pub Location : Type 0
Location = List Text

-- One component of a path name resolution: nothing or `.` stays, `..` goes up, a name goes down.
pub enter : Location → Text → Location
enter here component =
    if is_empty component || component == chars "."
    then here
    else if component == chars ".."
    then up here
    else component ∷ here
  where
    up : Location → Location
    up [] = []
    up (name ∷ parent) = parent

pub walk : Location → List Text → Location
walk here [] = here
walk here (c ∷ cs) = walk (enter here c) cs

-- A leading separator starts from the root.
pub resolve : Location → Text → Location
resolve base path = walk (if starts_with_slash path then [] else base) (split b'/' path)

-- The names `cs`, each below the one before, under `base`.
abbrev pub below : Location → List Text → Location
below base [] = base
below base (c ∷ cs) = below (c ∷ base) cs

abbrev IsName : Text → Type 0
IsName c = (is_empty c ≡ false) × (c ≢ chars ".") × (c ≢ chars "..")

check_component_iff : (text c : Text) → (check_component text c ≡ ok tt) ↔ IsName c
unfolding check_component
check_component_iff text c = ground (arith, list_eq_iff c (chars "."), list_eq_iff c (chars ".."))

record IsPlain (path : Text) : Type 0 where
  relative : starts_with_slash path ≡ false
  names : All IsName (split b'/' path)

check_path-IsPlain : (path : Text) → check_path path ≡ ok tt → IsPlain path
unfolding check_path
check_path-IsPlain path h =
    let looped : for_each (check_component path) (split b'/' path) ≡ ok tt = ground arith in
    record {
      relative = ground arith;
      names =
          All-map (split b'/' path) (λ c. (check_component_iff path c).0)
            ((for_each_iff (check_component path) (split b'/' path)).0 looped);
    }

enter-name : (here : Location) (c : Text) → IsName c → enter here c ≡ c ∷ here
unfolding enter
enter-name here c n = ground (arith, list_eq_iff c (chars "."), list_eq_iff c (chars ".."))

walk-names : (base : Location) (cs : List Text) → All IsName cs → walk base cs ≡ below base cs
unfolding walk
walk-names base [] h = refl
walk-names base (c ∷ cs) h = rw (enter-name base c h.0) (walk-names (c ∷ base) cs h.1)

below-eq-append : (base : Location) (cs : List Text) → below base cs ≡ reverse cs ++ base
below-eq-append base [] = refl
below-eq-append base (c ∷ cs) = simp (below-eq-append (c ∷ base) cs, reverse-cons, append_assoc)

below-injective : (base : Location) (cs ds : List Text) → below base cs ≡ below base ds → cs ≡ ds
below-injective base cs ds e =
    let same : reverse cs ≡ reverse ds =
      append_cancel_right _ _ base (sym (below-eq-append base cs) ∙ e ∙ below-eq-append base ds) in
    sym (reverse-reverse cs) ∙ ap reverse same ∙ reverse-reverse ds

parse_path-eq-ok :
    (path : Text) {p : RelativePath} → parse_path path ≡ ok p → (p.text ≡ path) × IsPlain path
unfolding parse_path
parse_path-eq-ok path h = ground (arith, check_path-IsPlain path)

-- Whatever directory it is resolved against, an accepted path only goes down from it, by exactly
-- its components: it never climbs out, never stays put, and never starts from the root.
pub parse_path-contained :
    (path : Text) {p : RelativePath} (base : Location)
    → parse_path path ≡ ok p
    → (resolve base p.text ≡ below base (split b'/' path)) × (p.text ≡ path)
unfolding resolve
parse_path-contained path {p} base h =
    let (same, plain) = parse_path-eq-ok path h in
    (rw (same, plain.relative) (walk-names base _ plain.names), same)

-- Two accepted paths that lead to the same place are the same path: comparing handles as texts
-- compares the files.
pub resolve-injective :
    (s t : Text) {p q : RelativePath} (base : Location)
    → parse_path s ≡ ok p
    → parse_path t ≡ ok q
    → resolve base p.text ≡ resolve base q.text
    → p ≡ q
resolve-injective s t {p} {q} base h k e =
    let (ps, same_s) = parse_path-contained s base h in
    let (qt, same_t) = parse_path-contained t base k in
    let parts = below-injective base _ _ (sym ps ∙ e ∙ qt) in
    let texts = split-injective b'/' s t parts in ground arith
