-- ===== src/Adapter/Validate/References.antt =====
-- The contract of `check_references` of crates/flutterdec-adapter/src/validate.rs.

use flutterdec.Common.{
  IsDistinct, All, All-of_mem, All-mem, Check, fail_if, then_iff, for_each_iff, is_none, ok, ℕ, ◌≡◌,
  refl, subst, ◌↔◌, Option, none, some, List, Memᴰ, arith, ℕ_eq, List_eq, Option_eq, ℕ_order,
  Text_order,
}
use flutterdec.Adapter.Model.{Library, Class, Function, ProgramModel, library_of, class_of}
use flutterdec.Adapter.Validate.Errors.{
  ValidationError, missing_library_reference, missing_super_class_reference,
  missing_owner_reference,
}
use flutterdec.Adapter.Validate.Names.{if_some}
use flutterdec.Adapter.Validate.Hierarchy.{
  check_class_references, check_owner, check_chain, check_references,
}
use flutterdec.Adapter.Validate.Acyclic.{
  IsAcyclic, class_ids, IsAcyclic-of_checked, checked-of_acyclic,
}

pub if_some_iff {ℓ} :
    {A : Type ℓ} (o : Option A) (check : A → Check ValidationError)
    → (if_some o check ≡ ok tt) ↔ ((a : A) → o ≡ some a → check a ≡ ok tt)
if_some_iff none check = (λ h a e. cc, λ h. refl)
if_some_iff (some a) check =
    (λ h b e. let same : a ≡ b = cc in subst (λ x. check x ≡ ok tt) same h, λ h. h a refl)

-- A lookup that has to succeed.
defined_iff {ℓ} :
    {A : Type ℓ} (o : Option A) (e : ValidationError)
    → (fail_if (is_none o) e ≡ ok tt) ↔ ((a : A) × (o ≡ some a))
defined_iff none e = (λ h. cc, λ h. cc h.1)
defined_iff (some a) e = (λ h. (a, refl), λ h. refl)

-- Every library, superclass and owner that is named is defined.
pub record IsResolved {Extensions : Type 0} (m : ProgramModel Extensions) : Type 0 where
  pub libraries :
      (c : Class) (l : ℕ)
      → Memᴰ c m.classes
      → c.library ≡ some l
      → (found : Library) × (library_of m.libraries l ≡ some found)
  pub supers :
      (c : Class) (s : ℕ)
      → Memᴰ c m.classes
      → c.super_class ≡ some s
      → (found : Class) × (class_of m.classes s ≡ some found)
  pub owners :
      (f : Function) (o : ℕ)
      → Memᴰ f m.functions
      → f.owner ≡ some o
      → (found : Class) × (class_of m.classes o ≡ some found)

class_resolved_iff :
    (ls : List Library) (cs : List Class) (c : Class)
    → (check_class_references ls cs c ≡ ok tt) ↔ (
        ((l : ℕ) → c.library ≡ some l → (found : Library) × (library_of ls l ≡ some found))
        × ((s : ℕ) → c.super_class ≡ some s → (found : Class) × (class_of cs s ≡ some found)))
unfolding check_class_references
class_resolved_iff ls cs c =
    let library =
      λ (l : ℕ). fail_if (is_none (library_of ls l)) (missing_library_reference c.id l) in
    let super =
      λ (s : ℕ). fail_if (is_none (class_of cs s)) (missing_super_class_reference c.id s) in
    let both = then_iff (if_some c.library library) (if_some c.super_class super) in
    let first = if_some_iff c.library library in
    let second = if_some_iff c.super_class super in
    (
      λ h.
          let (l_ok, s_ok) = both.0 h in
          (
            λ l e.
                (defined_iff (library_of ls l) (missing_library_reference c.id l)).0
                  (first.0 l_ok l e),
            λ s e.
                (defined_iff (class_of cs s) (missing_super_class_reference c.id s)).0
                  (second.0 s_ok s e),
          ),
      λ (ls_ok, ss_ok). both.1 (
        first.1
            λ l e. (defined_iff (library_of ls l) (missing_library_reference c.id l)).1 (ls_ok l e),
        second.1 λ s e.
            (defined_iff (class_of cs s) (missing_super_class_reference c.id s)).1 (ss_ok s e),
      ),
    )

owner_resolved_iff :
    (cs : List Class) (f : Function)
    → (check_owner cs f ≡ ok tt)
      ↔ ((o : ℕ) → f.owner ≡ some o → (found : Class) × (class_of cs o ≡ some found))
unfolding check_owner
owner_resolved_iff cs f =
    let owner = λ (o : ℕ). fail_if (is_none (class_of cs o)) (missing_owner_reference f.id o) in
    let each = if_some_iff f.owner owner in
    (
      λ h o e. (defined_iff (class_of cs o) (missing_owner_reference f.id o)).0 (each.0 h o e),
      λ h. each.1 λ o e. (defined_iff (class_of cs o) (missing_owner_reference f.id o)).1 (h o e),
    )

-- In a model whose class ids are distinct, which is checked before, the references are accepted
-- exactly when every library, superclass and owner that is named is defined and no class reaches
-- itself by superclass edges.
pub check_references_iff :
    {Extensions : Type 0} (m : ProgramModel Extensions)
    → IsDistinct (class_ids m.classes)
    → (check_references m ≡ ok tt) ↔ (IsResolved m × IsAcyclic m.classes)
unfolding check_references
check_references_iff m d =
    let cs = for_each_iff (check_class_references m.libraries m.classes) m.classes in
    let fs = for_each_iff (check_owner m.classes) m.functions in
    let chains = for_each_iff (check_chain m.classes) m.classes in
    (
      λ h.
          let refs = cs.0 (ground arith) in
          let owned = fs.0 (ground arith) in
          let at = λ (c : Class) (n : Memᴰ c m.classes).
            (class_resolved_iff m.libraries m.classes c).0 (
              All-mem (λ (k : Class). check_class_references m.libraries m.classes k ≡ ok tt)
                m.classes refs n) in
          (
            record {
              libraries = λ c l n e. (at c n).0 l e;
              supers = λ c s n e. (at c n).1 s e;
              owners = λ f o n e.
                  (owner_resolved_iff m.classes f).0
                    (All-mem (λ (k : Function). check_owner m.classes k ≡ ok tt) m.functions owned
                      n)
                    o e;
            },
            IsAcyclic-of_checked m.classes (chains.0 (ground arith)),
          ),
      λ (resolved, acyclic).
          let refs : All (λ (c : Class). check_class_references m.libraries m.classes c ≡ ok tt)
              m.classes =
            All-of_mem m.classes λ c n.
              (class_resolved_iff m.libraries m.classes c).1
                (λ l e. resolved.libraries c l n e, λ s e. resolved.supers c s n e) in
          let owned : All (λ (f : Function). check_owner m.classes f ≡ ok tt) m.functions =
            All-of_mem m.functions
              λ f n. (owner_resolved_iff m.classes f).1 (λ o e. resolved.owners f o n e) in
          ground (arith, cs.1 refs, fs.1 owned, chains.1 (checked-of_acyclic m.classes d acyclic)),
    )
