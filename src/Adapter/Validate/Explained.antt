-- ===== src/Adapter/Validate/Explained.antt =====
-- A model's diagnostics, and the domains of which it claims nothing, in `check_capabilities` of
-- crates/flutterdec-adapter/src/validate.rs.

use flutterdec.Common.{
  ◌==◌, option_eq_iff, All, All-of_mem, any_iff, fail_if, for_each, for_each_iff, ok, ◌≡◌, ◌↔◌,
  Bool, true, not, ◌&&◌, some, List, Memᴰ, arith, ℕ_eq, List_eq, Option_eq, ℕ_order, Text_order,
}
use flutterdec.Adapter.Model.{
  unavailable, is_unavailable, Domain, libraries, classes, class_relationships, functions,
  function_names, object_pool, pool_index_space, all_domains, domain_name, Capabilities, level,
  Diagnostic,
}
use flutterdec.Adapter.Validate.Errors.{unavailable_domain_without_diagnostic}
use flutterdec.Adapter.Validate.Claims.{is_explained, check_explained}
use flutterdec.Adapter.Validate.Claimed.{unavailable_iff}

-- A domain of which nothing was recovered says so.
abbrev pub IsExplained : Capabilities → List Diagnostic → Type 0
IsExplained caps diagnostics =
    (d : Domain)
    → level caps d ≡ unavailable
    → (why : Diagnostic) × Memᴰ why diagnostics × (why.subject ≡ some (domain_name d))

each_domain : (P : Domain → Type 0) → All P all_domains → (d : Domain) → P d
each_domain P h libraries = h.0
each_domain P h classes = h.1.0
each_domain P h class_relationships = h.1.1.0
each_domain P h functions = h.1.1.1.0
each_domain P h function_names = h.1.1.1.1.0
each_domain P h object_pool = h.1.1.1.1.1.0
each_domain P h pool_index_space = h.1.1.1.1.1.1.0

unless_iff {ℓ} :
    {E : Type ℓ} (off why : Bool) (e : E)
    → (fail_if (off && not why) e ≡ ok tt) ↔ (off ≡ true → why ≡ true)
unless_iff off why e = ground arith

pub IsExplained-iff :
    (caps : Capabilities) (diagnostics : List Diagnostic)
    → (for_each (check_explained caps diagnostics) all_domains ≡ ok tt)
      ↔ IsExplained caps diagnostics
unfolding check_explained
IsExplained-iff caps diagnostics =
    let loop = for_each_iff (check_explained caps diagnostics) all_domains in
    let says =
      λ (d : Domain). any_iff (λ (w : Diagnostic). w.subject == some (domain_name d)) diagnostics in
    let named = λ (d : Domain) (w : Diagnostic). option_eq_iff w.subject (some (domain_name d)) in
    let step = λ (d : Domain).
      unless_iff (is_unavailable (level caps d)) (is_explained diagnostics d)
        (unavailable_domain_without_diagnostic d) in
    (
      λ h d off.
          let passed = each_domain (λ d. check_explained caps diagnostics d ≡ ok tt) (loop.0 h) d in
          let (w, n, q) = (says d).0 ((step d).0 passed ((unavailable_iff (level caps d)).1 off)) in
          (w, n, (named d w).0 q),
      λ h. loop.1 (
          All-of_mem all_domains λ d _. (step d).1 λ off.
            let (w, n, q) = h d ((unavailable_iff (level caps d)).0 off) in
            (says d).1 (w, n, (named d w).1 q)),
    )
