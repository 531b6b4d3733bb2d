-- ===== src/Loader/Identity/Features.antt =====
-- `FeatureEvidence::parse` of crates/flutterdec-loader/src/identity.rs: the normal form of the
-- features string.

use flutterdec.Common.{
  All, All-of_mem, mem-keep, All-mem, text_lt, text_lt_irrefl, IsAscending, sort, mem-sort,
  sort-IsWeaklyAscending, ascending_unique, mem-dedup, dedup-IsAscending, Text, Bool-cases, ◌≡◌,
  refl, sym, subst, ◌↔◌, ◌⊎◌, inl, inr, Bool, true, List, ◌∷◌, Memᴰ, arith, [], ℕ_eq, List_eq,
  Option_eq, ℕ_order, Text_order,
}
use flutterdec.Loader.Identity.{tokens, parse_features, keep}

-- The normalized list is strictly ascending, so sorted without repeats, and holds exactly the
-- lowercased words of the raw string.
pub parse_features-normalized :
    (raw : Text)
    → IsAscending (parse_features raw).normalized
      × ((t : Text) → Memᴰ t (parse_features raw).normalized ↔ Memᴰ t (tokens raw))
unfolding parse_features
parse_features-normalized raw = (
  dedup-IsAscending (sort (tokens raw)) (sort-IsWeaklyAscending (tokens raw)),
  λ t.
      let d = mem-dedup t (sort (tokens raw)) in
      let s = mem-sort t (tokens raw) in (λ m. s.0 (d.0 m), λ m. d.1 (s.1 m)),
)

-- Two raw strings with the same lowercased words, in whatever order and number, have one normal
-- form, and strings with one normal form have the same words.
pub normalized_canonical :
    (a b : Text)
    → ((parse_features a).normalized ≡ (parse_features b).normalized)
      ↔ ((t : Text) → Memᴰ t (tokens a) ↔ Memᴰ t (tokens b))
normalized_canonical a b =
    let (asc_a, mem_a) = parse_features-normalized a in
    let (asc_b, mem_b) = parse_features-normalized b in
    (
      λ e t. (
        λ m. (mem_b t).0 (subst (Memᴰ t) e ((mem_a t).1 m)),
        λ m. (mem_a t).0 (subst (Memᴰ t) (sym e) ((mem_b t).1 m)),
      ),
      λ same. ascending_unique _ _ asc_a asc_b λ t. (
        λ m. (mem_b t).1 ((same t).0 ((mem_a t).0 m)),
        λ m. (mem_a t).1 ((same t).1 ((mem_b t).0 m)),
      ),
    )

pub All-keep {ℓ} :
    (P : Text → Type ℓ) (p : Text → Bool) (xs : List Text) → All P xs → All P (keep p xs)
All-keep P p xs h = All-of_mem (keep p xs) λ t m. All-mem P xs h ((mem-keep p t xs).0 m).0

pub keep-IsAscending : (p : Text → Bool) (xs : List Text) → IsAscending xs → IsAscending (keep p xs)
keep-IsAscending p [] h = tt
keep-IsAscending p (x ∷ xs) h = elim (Bool-cases (p x)) [
  | inl e ↦ rw e (All-keep (λ y. text_lt x y ≡ true) p xs h.0, keep-IsAscending p xs h.1)
  | inr e ↦ rw e (keep-IsAscending p xs h.1)
]

-- A strictly ascending list whose members are all one has at most that member.
pub ascending_single :
    (c : Text) (xs : List Text)
    → IsAscending xs
    → ((t : Text) → Memᴰ t xs → t ≡ c)
    → (xs ≡ []) ⊎ (xs ≡ c ∷ [])
ascending_single c [] h same = inl refl
ascending_single c (x ∷ []) h same = inr (ground (arith, same x (Memᴰ.head refl)))
ascending_single c (x ∷ y ∷ xs) h same = absurd (
    ground (
      arith,
      same x (Memᴰ.head refl),
      same y (Memᴰ.tail (Memᴰ.head refl)),
      h.0.0,
      text_lt_irrefl c,
    ))
