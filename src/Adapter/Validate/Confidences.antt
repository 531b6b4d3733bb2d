-- ===== src/Adapter/Validate/Confidences.antt =====
-- The contract of `check_confidence` of crates/flutterdec-adapter/src/validate.rs.

use flutterdec.Common.{
  is_finite, f64_le, f64_zero, f64_one, All-of_mem, All-mem, ◌>>◌, fail_if, then_iff, for_each,
  for_each_iff, ok, ℕ, String, ◌≡◌, refl, subst, ◌↔◌, Bool, true, not, ◌&&◌, ◌||◌, Option, none,
  some, Memᴰ, arith, ℕ_eq, List_eq, Option_eq, ℕ_order, Text_order,
}
use flutterdec.Adapter.Model.{
  Provenance, heuristic, admits_confidence, PoolEntry, Function, Name, ProgramModel,
}
use flutterdec.Adapter.Validate.Errors.{
  confidence_without_heuristic_provenance, confidence_out_of_range,
}
use flutterdec.Adapter.Validate.Names.{
  check_one_confidence, check_function_confidence, check_confidence,
}
use flutterdec.Adapter.Validate.References.{if_some_iff}

-- A confidence is given to guesses only, and it lies between zero and one.
abbrev pub IsConfidence : Option ℕ → Provenance → Type 0
IsConfidence o provenance =
    (v : ℕ)
    → o ≡ some v
    → (provenance ≡ heuristic) × (f64_le f64_zero v ≡ true) × (f64_le v f64_one ≡ true)

admits_iff : (p : Provenance) → (admits_confidence p ≡ true) ↔ (p ≡ heuristic)
admits_iff p = ground arith

below_one_finite : (v : ℕ) → f64_le f64_zero v ≡ true → f64_le v f64_one ≡ true → is_finite v ≡ true
below_one_finite v low high = ground arith

gate_iff {ℓ} :
    {E : Type ℓ} (guess finite low high : Bool) (e e' : E)
    → ((fail_if (not guess) e >> fail_if (not finite || not (low && high)) e') ≡ ok tt)
      ↔ ((guess ≡ true) × (finite ≡ true) × (low ≡ true) × (high ≡ true))
gate_iff guess finite low high e e' = ground arith

IsConfidence-iff :
    (o : Option ℕ) (p : Provenance) (field : String)
    → (check_one_confidence o p field ≡ ok tt) ↔ IsConfidence o p
unfolding check_one_confidence
IsConfidence-iff none p field = (λ h v e. cc, λ h. refl)
IsConfidence-iff (some w) p field =
    let gate =
      gate_iff (admits_confidence p) (is_finite w) (f64_le f64_zero w) (f64_le w f64_one)
        (confidence_without_heuristic_provenance field p) (confidence_out_of_range field w) in
    (
      λ h v e.
          let same : w ≡ v = cc in
          let (guess, finite, low, high) = gate.0 h in
          subst (λ x. (p ≡ heuristic) × (f64_le f64_zero x ≡ true) × (f64_le x f64_one ≡ true)) same
            ((admits_iff p).0 guess, low, high),
      λ h.
          let (guess, low, high) = h w refl in
          gate.1 ((admits_iff p).1 guess, below_one_finite w low high, low, high),
    )

-- Confidences are accepted exactly when every name and every pool entry that has one is a guess
-- and the number is between zero and one.
pub check_confidence_iff :
    {Extensions : Type 0} (m : ProgramModel Extensions)
    → (check_confidence m ≡ ok tt) ↔ (
        ((f : Function)
          → Memᴰ f m.functions
          → (n : Name) → f.name ≡ some n
          → IsConfidence n.confidence n.provenance)
        × ((e : PoolEntry) → Memᴰ e m.object_pool.entries → IsConfidence e.confidence e.provenance))
unfolding check_confidence check_function_confidence
check_confidence_iff m =
    let named = λ (n : Name). check_one_confidence n.confidence n.provenance "function name" in
    let entry =
      λ (e : PoolEntry). check_one_confidence e.confidence e.provenance "object pool entry" in
    let both =
      then_iff (for_each check_function_confidence m.functions)
        (for_each entry m.object_pool.entries) in
    let fs = for_each_iff check_function_confidence m.functions in
    let es = for_each_iff entry m.object_pool.entries in
    (
      λ h.
          let (first, second) = both.0 h in
          (
            λ f n name q. (IsConfidence-iff name.confidence name.provenance "function name").0 (
                (if_some_iff f.name named).0
                  (All-mem (λ f. check_function_confidence f ≡ ok tt) m.functions (fs.0 first) n)
                  name q),
            λ e n.
                (IsConfidence-iff e.confidence e.provenance "object pool entry").0
                  (All-mem (λ e. entry e ≡ ok tt) m.object_pool.entries (es.0 second) n),
          ),
      λ (names, entries). both.1 (
        fs.1 (
            All-of_mem m.functions λ f n. (if_some_iff f.name named).1 λ name q.
              (IsConfidence-iff name.confidence name.provenance "function name").1
                (names f n name q)),
        es.1 (
            All-of_mem m.object_pool.entries λ e n.
              (IsConfidence-iff e.confidence e.provenance "object pool entry").1 (entries e n)),
      ),
    )
