-- ===== src/Adapter/Validate/Naming.antt =====
-- The contract of `check_strings` of crates/flutterdec-adapter/src/validate.rs.

use flutterdec.Common.{
  contains, contains_iff, All-of_mem, All-mem, then_iff, for_each_iff, Text, is_empty, trim,
  to_ascii_lowercase, Bool-cases, ok, String, ◌≡◌, refl, ◌↔◌, ◌⊎◌, inl, inr, true, some, ◌∷◌, Memᴰ,
  arith, [], ℕ_eq, List_eq, Option_eq, ℕ_order, Text_order,
}
use flutterdec.Adapter.Model.{
  CompatibilityBinding, PoolEntry, Library, Class, Function, Name, ProgramModel,
}
use flutterdec.Adapter.Validate.Names.{
  case_insensitive_placeholders, exact_lowercase_placeholders, is_placeholder, non_empty,
  not_placeholder, if_some, check_binding_strings, check_library_strings, check_function_strings,
  check_entry_strings, check_strings,
}
use flutterdec.Adapter.Validate.References.{if_some_iff}

empty_iff : (text : Text) → (is_empty text ≡ true) ↔ (text ≡ [])
empty_iff [] = (λ h. refl, λ h. refl)
empty_iff (c ∷ cs) = (λ h. cc, λ h. cc)

-- A text that stands for a value that is not known: between its blanks it is one of the listed
-- words, some of them in any case.
abbrev pub IsPlaceholder : Text → Type 0
IsPlaceholder text =
    Memᴰ (trim text) exact_lowercase_placeholders
    ⊎ Memᴰ (to_ascii_lowercase (trim text)) case_insensitive_placeholders

-- A name is accepted exactly when it is no placeholder; a blank one is a placeholder.
pub not_placeholder_iff :
    (text : Text) (field : String) → (not_placeholder text field ≡ ok tt) ↔ (¬ IsPlaceholder text)
unfolding not_placeholder is_placeholder non_empty
not_placeholder_iff text field =
    let exact = contains_iff exact_lowercase_placeholders (trim text) in
    let folded = contains_iff case_insensitive_placeholders (to_ascii_lowercase (trim text)) in
    (
      λ h p. elim p [
        | inl m ↦ let hit = exact.1 m in ground arith
        | inr m ↦ let hit = folded.1 m in ground arith
      ],
      λ no. elim (Bool-cases (is_placeholder text)) [
        | inl hit ↦ absurd (
            no (elim (Bool-cases (contains exact_lowercase_placeholders (trim text))) [
              | inl e ↦ inl (exact.0 e)
              | inr e ↦ inr (folded.0 (ground arith))
            ]))
        | inr off ↦ elim (Bool-cases (is_empty (trim text))) [
          | inl e ↦ absurd (no (inr (rw ((empty_iff (trim text)).0 e) (Memᴰ.head refl))))
          | inr e ↦ ground arith
        ]
      ],
    )

-- Names are names, and what identifies the producer and the profile is not blank.
pub record IsNamed {Extensions : Type 0} (m : ProgramModel Extensions) : Type 0 where
  pub producer_id : ¬ (trim m.producer.id ≡ [])
  pub producer_version : ¬ (trim m.producer.version ≡ [])
  pub binding :
      (c : CompatibilityBinding)
      → m.compatibility ≡ some c
      → (¬ (trim c.parser_family_id ≡ [])) × (¬ (trim c.profile_id ≡ []))
  pub libraries :
      (l : Library)
      → Memᴰ l m.libraries
      → (¬ IsPlaceholder l.uri) × ((t : Text) → l.display_name ≡ some t → ¬ IsPlaceholder t)
  pub classes : (c : Class) → Memᴰ c m.classes → ¬ IsPlaceholder c.name
  pub functions :
      (f : Function) → Memᴰ f m.functions → (n : Name) → f.name ≡ some n → ¬ IsPlaceholder n.text
  pub values :
      (e : PoolEntry)
      → Memᴰ e m.object_pool.entries
      → (t : Text) → e.value ≡ some t
      → ¬ IsPlaceholder t

blank_iff : (text : Text) (field : String) → (non_empty text field ≡ ok tt) ↔ (¬ (trim text ≡ []))
unfolding non_empty
blank_iff text field = (
  λ h e. let hit = (empty_iff (trim text)).1 e in ground arith,
  λ no. elim (Bool-cases (is_empty (trim text))) [
    | inl e ↦ absurd (no ((empty_iff (trim text)).0 e))
    | inr e ↦ ground arith
  ],
)

library_iff :
    (l : Library)
    → (check_library_strings l ≡ ok tt)
      ↔ ((¬ IsPlaceholder l.uri) × ((t : Text) → l.display_name ≡ some t → ¬ IsPlaceholder t))
unfolding check_library_strings
library_iff l =
    let display = λ (t : Text). not_placeholder t "library display name" in
    let both = then_iff (not_placeholder l.uri "library uri") (if_some l.display_name display) in
    let uri = not_placeholder_iff l.uri "library uri" in
    let each = if_some_iff l.display_name display in
    (
      λ h.
          let (a, b) = both.0 h in
          (uri.0 a, λ t e. (not_placeholder_iff t "library display name").0 (each.0 b t e)),
      λ (a, b).
          both.1 (uri.1 a, each.1 λ t e. (not_placeholder_iff t "library display name").1 (b t e)),
    )

binding_strings_iff :
    (c : CompatibilityBinding)
    → (check_binding_strings c ≡ ok tt)
      ↔ ((¬ (trim c.parser_family_id ≡ [])) × (¬ (trim c.profile_id ≡ [])))
unfolding check_binding_strings
binding_strings_iff c =
    let both =
      then_iff (non_empty c.parser_family_id "parser family id")
        (non_empty c.profile_id "profile id") in
    let first = blank_iff c.parser_family_id "parser family id" in
    let second = blank_iff c.profile_id "profile id" in
    (
      λ h. let (a, b) = both.0 h in (first.0 a, second.0 b),
      λ (a, b). both.1 (first.1 a, second.1 b),
    )

-- The strings are accepted exactly when no name is a placeholder and the identifiers of the
-- producer and of the compatibility binding are not blank.
pub check_strings_iff :
    {Extensions : Type 0} (m : ProgramModel Extensions) → (check_strings m ≡ ok tt) ↔ IsNamed m
unfolding check_strings check_function_strings check_entry_strings
check_strings_iff m =
    let pid = blank_iff m.producer.id "producer id" in
    let version = blank_iff m.producer.version "producer version" in
    let bound = if_some_iff m.compatibility check_binding_strings in
    let ls = for_each_iff check_library_strings m.libraries in
    let cs = for_each_iff (λ (c : Class). not_placeholder c.name "class name") m.classes in
    let fs = for_each_iff check_function_strings m.functions in
    let es = for_each_iff check_entry_strings m.object_pool.entries in
    (
      λ h. record {
        producer_id = pid.0 (ground arith);
        producer_version = version.0 (ground arith);
        binding = λ c e. (binding_strings_iff c).0 (bound.0 (ground arith) c e);
        libraries = λ l n.
            (library_iff l).0
              (All-mem (λ l. check_library_strings l ≡ ok tt) m.libraries (ls.0 (ground arith)) n);
        classes = λ c n. (not_placeholder_iff c.name "class name").0 (
            All-mem (λ (c : Class). not_placeholder c.name "class name" ≡ ok tt) m.classes
              (cs.0 (ground arith)) n);
        functions = λ f n name e. (not_placeholder_iff name.text "function name").0 (
            (if_some_iff f.name (λ (n : Name). not_placeholder n.text "function name")).0
              (All-mem (λ f. check_function_strings f ≡ ok tt) m.functions (fs.0 (ground arith)) n)
              name e);
        values = λ e n t q. (not_placeholder_iff t "object pool entry value").0 (
            (if_some_iff e.value (λ t. not_placeholder t "object pool entry value")).0
              (All-mem (λ e. check_entry_strings e ≡ ok tt) m.object_pool.entries
                (es.0 (ground arith)) n)
              t q);
      },
      λ i.
          let p1 = pid.1 i.producer_id in
          let p2 = version.1 i.producer_version in
          let p3 = bound.1 λ c e. (binding_strings_iff c).1 (i.binding c e) in
          let p4 = ls.1 (All-of_mem m.libraries λ l n. (library_iff l).1 (i.libraries l n)) in
          let p5 = cs.1 (
            All-of_mem m.classes
              λ c n. (not_placeholder_iff c.name "class name").1 (i.classes c n)) in
          let p6 = fs.1 (
            All-of_mem m.functions λ f n.
              (if_some_iff f.name (λ (n : Name). not_placeholder n.text "function name")).1
                λ name e.
                  (not_placeholder_iff name.text "function name").1 (i.functions f n name e)) in
          let p7 = es.1 (
            All-of_mem m.object_pool.entries λ e n.
              (if_some_iff e.value (λ t. not_placeholder t "object pool entry value")).1
                λ t q. (not_placeholder_iff t "object pool entry value").1 (i.values e n t q)) in
          ground arith,
    )
