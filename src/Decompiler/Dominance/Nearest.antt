-- ===== src/Decompiler/Dominance/Nearest.antt =====
-- The size of a set of blocks and the choice of the nearest one in `immediate_post_dominators`, in
-- crates/flutterdec-decompiler/src/control_flow/regions.rs.
use mathlib.Core.List.Memᴰ
use flutterdec.Common.{
  contains, nat_eq, if◌then◌else◌, nat_eq_iff, Bool-cases, Option-cases, ℕ, zero, suc, ◌≤◌, ◌<◌,
  ◌≡◌, refl, sym, inl, inr, true, false, none, some, List, ◌∷◌, Memᴰ, arith, [], ℕ_eq, List_eq,
  Option_eq, ℕ_order, Text_order,
}
use flutterdec.Decompiler.Regions.{Edges}
use flutterdec.Decompiler.Dominance.{size, is_nearer, nearest}
use flutterdec.Decompiler.Dominance.Iteration.{IsSubset}
use flutterdec.Decompiler.Dominance.Rounds.{marked, marked-lt}

marked-nil : (n : ℕ) → marked n [] ≡ 0
unfolding marked
marked-nil zero = refl
marked-nil (suc k) = ground (arith, marked-nil k)

marked-above : (n x : ℕ) (xs : List ℕ) → n ≤ x → marked n (x ∷ xs) ≡ marked n xs
unfolding marked
marked-above zero x xs h = refl
marked-above (suc k) x xs h = ground (arith, marked-above k x xs)

marked-cons :
    (n x : ℕ) (xs : List ℕ)
    → x < n
    → marked n (x ∷ xs) ≡ (if contains xs x then marked n xs else suc (marked n xs))
unfolding marked
marked-cons zero x xs h = absurd (omega arith)
marked-cons (suc k) x xs h = elim (Bool-cases (nat_eq x k)) [
  | inl e ↦
      let same = (nat_eq_iff x k).0 e in
      rw same (ground (arith, marked-above k k xs, nat_eq_iff k k))
  | inr e ↦ ground (arith, marked-cons k x xs)
]

size-eq-marked : (n : ℕ) (s : List ℕ) → ((x : ℕ) → Memᴰ x s → x < n) → size s ≡ marked n s
unfolding size
size-eq-marked n [] h = sym (marked-nil n)
size-eq-marked n (x ∷ xs) h =
    let ih = size-eq-marked n xs (λ y m. h y (Memᴰ.tail m)) in
    let here = h x (Memᴰ.head refl) in ground (arith, marked-cons n x xs)

pub size-lt :
    (n : ℕ) (a b : List ℕ) (x : ℕ)
    → ((y : ℕ) → Memᴰ y b → y < n)
    → IsSubset a b
    → Memᴰ x b
    → contains a x ≡ false
    → size a < size b
size-lt n a b x inside sub m off = omega (
  arith,
  size-eq-marked n a (λ y k. inside y (sub y k)),
  size-eq-marked n b inside,
  marked-lt n a b x sub (inside x m) m off,
)

is_nearer_trans :
    (pdom : Edges) (a b c : ℕ)
    → is_nearer pdom a b ≡ true
    → is_nearer pdom b c ≡ true
    → is_nearer pdom a c ≡ true
is_nearer_trans pdom a b c h k = ground arith

is_nearer_total : (pdom : Edges) (a b : ℕ) → is_nearer pdom a b ≡ false → is_nearer pdom b a ≡ true
is_nearer_total pdom a b h = ground arith

is_nearer_self : (pdom : Edges) (a : ℕ) → is_nearer pdom a a ≡ true
is_nearer_self pdom a = ground arith

pub nearest-none : (pdom : Edges) (ps : List ℕ) → nearest pdom ps ≡ none → ps ≡ []
unfolding nearest
nearest-none pdom [] h = refl
nearest-none pdom (p ∷ ps) h = absurd (cc)

pub nearest_nil : (pdom : Edges) → nearest pdom [] ≡ none
unfolding nearest
nearest_nil pdom = refl

pub empty_if : (xs : List ℕ) → ((x : ℕ) → Memᴰ x xs → ⊥) → xs ≡ []
empty_if [] h = refl
empty_if (x ∷ xs) h = absurd (h x (Memᴰ.head refl))

-- The chosen block is one of the list, and no other comes before it.
pub nearest-eq-some :
    (pdom : Edges) (ps : List ℕ) (f : ℕ)
    → nearest pdom ps ≡ some f
    → Memᴰ f ps × ((p : ℕ) → Memᴰ p ps → is_nearer pdom f p ≡ true)
unfolding nearest
nearest-eq-some pdom [] f h = absurd (cc)
nearest-eq-some pdom (p ∷ ps) f h = elim (Option-cases (nearest pdom ps)) [
  | inl n ↦
      let only : p ≡ f = cc (rw n at h) in
      rw (← only) (
        Memᴰ.head refl,
        λ q m. elim (Memᴰ.cases_cons m) [
          | inl e ↦ rw e (is_nearer_self pdom p)
          | inr t ↦ absurd (Memᴰ.not-nil (rw (nearest-none pdom ps n) at t))
        ],
      )
  | inr (q, found) ↦
      let (m, best) = nearest-eq-some pdom ps q found in
      elim (Bool-cases (is_nearer pdom p q)) [
        | inl closer ↦
            let only : p ≡ f = cc (rw (found, closer) at h) in
            rw (← only) (
              Memᴰ.head refl,
              λ r k. elim (Memᴰ.cases_cons k) [
                | inl e ↦ rw e (is_nearer_self pdom p)
                | inr t ↦ is_nearer_trans pdom p q r closer (best r t)
              ],
            )
        | inr farther ↦
            let only : q ≡ f = cc (rw (found, farther) at h) in
            rw (← only) (
              Memᴰ.tail m,
              λ r k. elim (Memᴰ.cases_cons k) [
                | inl e ↦ rw e (is_nearer_total pdom p q farther)
                | inr t ↦ best r t
              ],
            )
      ]
]
