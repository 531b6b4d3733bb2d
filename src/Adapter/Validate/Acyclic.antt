-- ===== src/Adapter/Validate/Acyclic.antt =====
-- The walk up the superclasses in `check_references` of crates/flutterdec-adapter/src/validate.rs.
use mathlib.Core.List.Memᴰ
use flutterdec.Common.{
  ◌==◌, contains, contains_iff, IsDistinct, distinct-injective, length, All, All-of_mem,
  find?-eq-some, find?-is-some, All-mem, if◌then◌else◌, nat_eq_iff, Bool-cases, Option-cases, ok, ℕ,
  zero, suc, ◌+◌, ◌≤◌, ◌<◌, ◌≡◌, refl, sym, ap, ◌∙◌, subst, inl, inr, Bool, true, false, Option,
  none, some, List, ◌∷◌, map, Memᴰ, arith, [], ℕ_eq, List_eq, Option_eq, ℕ_order, Text_order,
}
use flutterdec.Adapter.Model.{ClassId, Class, class_of}
use flutterdec.Adapter.Validate.Hierarchy.{
  super_of, super_of_found, walks_back, walk_fuel, walk_verdict, check_chain,
}

module _ (classes : List Class) where
  -- `a` is a proper subclass of `b`, by one edge or several.
  pub data Above : ClassId → ClassId → Type 0 where
    edge : {a b : ClassId} → super_of classes a ≡ some b → Above a b
    up : {a b c : ClassId} → super_of classes a ≡ some b → Above b c → Above a c

  Above-snoc : {a b c : ClassId} → Above a b → super_of classes b ≡ some c → Above a c
  Above-snoc (edge e) f = up e (edge f)
  Above-snoc (up e p) f = up e (Above-snoc p f)

  -- The ids that a walk from the cursor meets.
  data From : Option ClassId → ClassId → Type 0 where
    here : {o : Option ClassId} {n : ClassId} → o ≡ some n → From o n
    next :
        {o : Option ClassId} {n x : ClassId} → o ≡ some n → From (super_of classes n) x → From o x

  From-of_above : {a x : ClassId} → Above a x → From (super_of classes a) x
  From-of_above (edge e) = here e
  From-of_above (up e p) = next e (From-of_above p)

  walk_free :
      (fuel : ℕ) (visited : List ClassId) (o : Option ClassId) {x : ClassId}
      → walks_back classes fuel visited o ≡ some false
      → From o x
      → ¬ Memᴰ x visited
  unfolding walks_back
  walk_free zero visited o h p m = cc
  walk_free (suc fuel) visited none h (here e) m = cc
  walk_free (suc fuel) visited none h (next e p) m = cc
  walk_free (suc fuel) visited (some n) {x} h (here e) m =
      let same : n ≡ x = cc in
      let hit = (contains_iff visited n).1 (subst (λ k. Memᴰ k visited) (sym same) m) in
      absurd (ground arith)
  walk_free (suc fuel) visited (some n) {x} h (next {n = k} e p) m =
      let same : k ≡ n = cc in
      let rest : walks_back classes fuel (n ∷ visited) (super_of classes n) ≡ some false =
        ground arith in
      walk_free fuel (n ∷ visited) (super_of classes n) rest
        (subst (λ j. From (super_of classes j) x) same p) (Memᴰ.tail m)

  walk_cycle :
      (fuel : ℕ) (visited : List ClassId) (o : Option ClassId)
      → walks_back classes fuel visited o ≡ some true
      → ((v x : ClassId) → Memᴰ v visited → o ≡ some x → Above v x)
      → (x : ClassId) × Above x x
  unfolding walks_back
  walk_cycle zero visited o h inv = absurd (cc)
  walk_cycle (suc fuel) visited none h inv = absurd (cc)
  walk_cycle (suc fuel) visited (some n) h inv = elim (Bool-cases (contains visited n)) [
    | inl seen ↦ (n, inv n n ((contains_iff visited n).0 seen) refl)
    | inr new ↦ walk_cycle fuel (n ∷ visited) (super_of classes n) (ground arith) λ v x m e.
        elim (Memᴰ.cases_cons m) [
          | inl same ↦ edge (subst (λ k. super_of classes k ≡ some x) (sym same) e)
          | inr old ↦ Above-snoc (inv v n old refl) e
        ]
  ]

-- The classes that a walk has still to visit.
unvisited : List Class → List ClassId → ℕ
unvisited [] visited = 0
unvisited (c ∷ cs) visited =
    let rest = unvisited cs visited in if contains visited c.id then rest else suc rest

unvisited-le :
    (cs : List Class) (n : ClassId) (v : List ClassId) → unvisited cs (n ∷ v) ≤ unvisited cs v
unfolding unvisited
unvisited-le [] n v = omega arith
unvisited-le (c ∷ cs) n v = ground (arith, unvisited-le cs n v)

unvisited-lt :
    (cs : List Class) (c : Class) (v : List ClassId)
    → Memᴰ c cs
    → contains v c.id ≡ false
    → unvisited cs (c.id ∷ v) < unvisited cs v
unfolding unvisited
unvisited-lt [] c v m h = absurd (Memᴰ.not-nil m)
unvisited-lt (k ∷ cs) c v m h = elim (Memᴰ.cases_cons m) [
  | inl e ↦ ground (arith, unvisited-le cs c.id v, ap (λ (x : Class). x.id) e)
  | inr later ↦ ground (arith, unvisited-lt cs c v later h)
]

unvisited-le_length : (cs : List Class) (v : List ClassId) → unvisited cs v ≤ length cs
unfolding unvisited
unvisited-le_length [] v = omega arith
unvisited-le_length (c ∷ cs) v = ground (arith, unvisited-le_length cs v)

unvisited-lt_of_found :
    (cs : List Class) (n : ClassId) (c : Class) (v : List ClassId)
    → class_of cs n ≡ some c
    → contains v n ≡ false
    → unvisited cs (n ∷ v) < unvisited cs v
unvisited-lt_of_found cs n c v found new =
    let (m, hit) = find?-eq-some (λ (k : Class). k.id == n) cs found in
    let same = (nat_eq_iff c.id n).0 hit in
    subst (λ k. unvisited cs (k ∷ v) < unvisited cs v) same (unvisited-lt cs c v m (rw same new))

walk_stops :
    (cs : List Class) (fuel : ℕ) (v : List ClassId)
    → 0 < fuel
    → walks_back cs fuel v none ≡ some false
unfolding walks_back
walk_stops cs zero v h = absurd (omega arith)
walk_stops cs (suc fuel) v h = refl

walk_ends :
    (cs : List Class) (fuel : ℕ) (visited : List ClassId) (o : Option ClassId)
    → unvisited cs visited + 2 ≤ fuel
    → (b : Bool) × (walks_back cs fuel visited o ≡ some b)
unfolding walks_back
walk_ends cs zero visited o h = absurd (omega arith)
walk_ends cs (suc fuel) visited none h = (false, refl)
walk_ends cs (suc fuel) visited (some n) h = elim (Bool-cases (contains visited n)) [
  | inl seen ↦ (true, rw seen)
  | inr new ↦ elim (Option-cases (class_of cs n)) [
    | inl unknown ↦
        let ends : super_of cs n ≡ none = ap super_of_found unknown in
        (false, rw (new, ends) (walk_stops cs fuel (n ∷ visited) (omega arith)))
    | inr (c, found) ↦
        let (b, ends) =
          walk_ends cs fuel (n ∷ visited) (super_of cs n)
            (omega (arith, unvisited-lt_of_found cs n c visited found new)) in
        (b, rw new ends)
  ]
]

-- The walk from a class ends, with an answer, whatever the superclass edges are: the fuel suffices.
pub walk_terminates :
    (classes : List Class) (start : ClassId) (o : Option ClassId)
    → (b : Bool) × (walks_back classes (walk_fuel classes) (start ∷ []) o ≡ some b)
walk_terminates classes start o =
    walk_ends classes (walk_fuel classes) (start ∷ []) o
      (omega (arith, unvisited-le_length classes (start ∷ [])))

abbrev pub IsAcyclic : List Class → Type 0
IsAcyclic classes = (id : ClassId) → ¬ Above classes id id

abbrev pub class_ids : List Class → List ClassId
class_ids classes = map (λ (c : Class). c.id) classes

super_of-member :
    (classes : List Class) (c : Class)
    → IsDistinct (class_ids classes)
    → Memᴰ c classes
    → super_of classes c.id ≡ c.super_class
super_of-member classes c d m =
    let (k, found) =
      find?-is-some (λ (k : Class). k.id == c.id) classes c m ((nat_eq_iff c.id c.id).1 refl) in
    let (n, hit) = find?-eq-some (λ (k : Class). k.id == c.id) classes found in
    let one =
      distinct-injective (λ (k : Class). k.id) classes d n m ((nat_eq_iff k.id c.id).0 hit) in
    ap super_of_found found ∙ ap (λ (x : Class). x.super_class) one

passed-of_verdict : (id : ClassId) (b : Bool) → walk_verdict id (some b) ≡ ok tt → b ≡ false
passed-of_verdict id true h = cc
passed-of_verdict id false h = refl

not-From-none :
    (classes : List Class) {o : Option ClassId} {x : ClassId} → o ≡ none → ¬ From classes o x
not-From-none classes e (here f) = cc
not-From-none classes e (next f p) = cc

chain_passed :
    (classes : List Class) (c : Class)
    → check_chain classes c ≡ ok tt
    → walks_back classes (walk_fuel classes) (c.id ∷ []) c.super_class ≡ some false
unfolding check_chain
chain_passed classes c h =
    let (b, ends) = walk_terminates classes c.id c.super_class in
    ends ∙ ap some (passed-of_verdict c.id b (sym (ap (walk_verdict c.id) ends) ∙ h))

pub IsAcyclic-of_checked :
    (classes : List Class) → All (λ c. check_chain classes c ≡ ok tt) classes → IsAcyclic classes
IsAcyclic-of_checked classes h id above = elim (Option-cases (class_of classes id)) [
  | inl unknown ↦ not-From-none classes (ap super_of_found unknown) (From-of_above classes above)
  | inr (c, found) ↦
      let (m, hit) = find?-eq-some (λ (k : Class). k.id == id) classes found in
      let same = (nat_eq_iff c.id id).0 hit in
      let passed = All-mem (λ k. check_chain classes k ≡ ok tt) classes h m in
      walk_free classes (walk_fuel classes) (c.id ∷ []) c.super_class
        (chain_passed classes c passed)
        (subst (λ o. From classes o id) (ap super_of_found found) (From-of_above classes above))
        (Memᴰ.head (sym same))
]

no_cycle_found :
    (classes : List Class) (c : Class)
    → IsDistinct (class_ids classes)
    → Memᴰ c classes
    → IsAcyclic classes
    → (b : Bool) → walks_back classes (walk_fuel classes) (c.id ∷ []) c.super_class ≡ some b
    → b ≡ false
no_cycle_found classes c d m acyclic false h = refl
no_cycle_found classes c d m acyclic true h =
    let (x, loop) = walk_cycle classes (walk_fuel classes) (c.id ∷ []) c.super_class h λ v x n e.
      edge (ap (super_of classes) (Memᴰ.eq_of_singleton n) ∙ super_of-member classes c d m ∙ e) in
    absurd (acyclic x loop)

pub checked-of_acyclic :
    (classes : List Class)
    → IsDistinct (class_ids classes)
    → IsAcyclic classes
    → All (λ c. check_chain classes c ≡ ok tt) classes
unfolding check_chain
checked-of_acyclic classes d acyclic = All-of_mem classes λ c m.
    let (b, ends) = walk_terminates classes c.id c.super_class in
    let free = no_cycle_found classes c d m acyclic b ends in rw (ends, free)
