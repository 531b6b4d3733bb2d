-- ===== src/Decompiler/Loops/Exits.antt =====
-- `natural_loops` of crates/flutterdec-decompiler/src/control_flow/regions.rs: where control lands on
-- leaving a loop.
use mathlib.Core.List.Memᴰ
use flutterdec.Common.{
  contains, contains_iff, keep, mem-keep, sort, mem-sort, mem-dedup, Bool-cases, Option-cases, ℕ,
  ◌≡◌, refl, ap, ◌↔◌, ◌⊎◌, inl, inr, true, false, not, Option, none, some, List, ◌∷◌, Memᴰ, arith,
  [], ℕ_eq, List_eq, Option_eq, ℕ_order, Text_order,
}
use flutterdec.Decompiler.Regions.{Edges}
use flutterdec.Decompiler.Loops.{
  Bodies, all_succs, exit_targets, outside, chosen_exit, loop_follow, in_loop,
}

-- An edge from a block of the body leads to a block outside it.
pub IsExit : Edges → List ℕ → ℕ → Type 0
IsExit succs body t = ((b : ℕ) × Memᴰ b body × Memᴰ t (succs b)) × (contains body t ≡ false)

mem-all_succs :
    (succs : Edges) (body : List ℕ) (t : ℕ)
    → Memᴰ t (all_succs succs body) ↔ ((b : ℕ) × Memᴰ b body × Memᴰ t (succs b))
mem-all_succs succs [] t = (λ m. absurd (Memᴰ.not-nil m), λ (b, m, k). absurd (Memᴰ.not-nil m))
mem-all_succs succs (b ∷ bs) t = (
  λ m. elim (Memᴰ.append_cases (succs b) m) [
    | inl k ↦ (b, Memᴰ.head refl, k)
    | inr k ↦ let (c, l, j) = (mem-all_succs succs bs t).0 k in (c, Memᴰ.tail l, j)
  ],
  λ (c, m, k). elim (Memᴰ.cases_cons m) [
    | inl e ↦ Memᴰ.append_left (all_succs succs bs) (rw e at k)
    | inr l ↦ Memᴰ.append_right (succs b) ((mem-all_succs succs bs t).1 (c, l, k))
  ],
)

exit_targets_iff :
    (succs : Edges) (body : List ℕ) (t : ℕ) → Memᴰ t (exit_targets succs body) ↔ IsExit succs body t
unfolding IsExit
exit_targets_iff succs body t =
    let all_of = all_succs succs body in
    let kept = keep (λ t. not (contains body t)) all_of in
    let k = mem-keep (λ t. not (contains body t)) t all_of in
    let a = mem-all_succs succs body t in
    let d = mem-dedup t (sort kept) in
    let o = mem-sort t kept in
    (
      λ m. let (x, y) = k.0 (o.0 (d.0 m)) in (a.0 x, ground arith),
      λ (x, y). d.1 (o.1 (k.1 (a.1 x, rw y))),
    )

outside_leaves :
    (body : List ℕ) (o : Option ℕ) (f : ℕ)
    → outside body o ≡ some f
    → (contains body f ≡ false) × (o ≡ some f)
outside_leaves body none f e = absurd (cc)
outside_leaves body (some g) f e = elim (Bool-cases (contains body g)) [
  | inl on ↦ absurd (ground arith)
  | inr off ↦ let same : g ≡ f = ground arith in (rw same at off, ap some same)
]

-- The one target, or the header's follow node.
chosen_cases :
    (targets : List ℕ) (follow : Option ℕ) (body : List ℕ) (f : ℕ)
    → chosen_exit targets follow body ≡ some f
    → (targets ≡ f ∷ []) ⊎ (contains body f ≡ false) × (follow ≡ some f)
chosen_cases [] follow body f e = absurd (cc)
chosen_cases (t ∷ []) follow body f e = inl (let same : t ≡ f = cc in rw same refl)
chosen_cases (t ∷ s ∷ ss) follow body f e = inr (outside_leaves body follow f e)

leaves :
    (succs : Edges) (ipdom : ℕ → Option ℕ) (h f : ℕ) (body : List ℕ)
    → chosen_exit (exit_targets succs body) (ipdom h) body ≡ some f
    → (contains body f ≡ false)
      × ((IsExit succs body f × ((t : ℕ) → IsExit succs body t → t ≡ f)) ⊎ (ipdom h ≡ some f))
unfolding IsExit
leaves succs ipdom h f body e = elim (chosen_cases (exit_targets succs body) (ipdom h) body f e) [
  | inl only ↦
      let (there, off) = (exit_targets_iff succs body f).0 (rw only (Memᴰ.head refl)) in
      (
        off,
        inl (
          (there, off),
          λ t x. Memᴰ.eq_of_singleton (rw only at ((exit_targets_iff succs body t).1 x)),
        ),
      )
  | inr (off, e') ↦ (off, inr e')
]

-- An edge from a block of the header's loop leads to a block outside the loop.
abbrev pub LeavesLoop : Edges → Bodies → ℕ → ℕ → Type 0
LeavesLoop succs bodies h t =
    ((b : ℕ) × (in_loop bodies h b ≡ true) × Memᴰ t (succs b)) × (in_loop bodies h t ≡ false)

leaves_iff :
    (succs : Edges) (bodies : Bodies) (h t : ℕ) (body : List ℕ)
    → bodies h ≡ some body
    → LeavesLoop succs bodies h t ↔ IsExit succs body t
unfolding IsExit
leaves_iff succs bodies h t body e = rw e (
  λ ((b, m, k), off). ((b, (contains_iff body b).0 m, k), off),
  λ ((b, m, k), off). ((b, (contains_iff body b).1 m, k), off),
)

-- Where a loop is left to is outside the loop. It is the only block outside that an edge from the
-- loop leads to, or the follow node of the header.
pub loop_follow_leaves :
    (succs : Edges) (ipdom : ℕ → Option ℕ) (bodies : Bodies) (h f : ℕ)
    → loop_follow succs ipdom bodies h ≡ some (some f)
    → (in_loop bodies h f ≡ false)
      × ((LeavesLoop succs bodies h f × ((t : ℕ) → LeavesLoop succs bodies h t → t ≡ f))
          ⊎ (ipdom h ≡ some f))
loop_follow_leaves succs ipdom bodies h f e = elim (Option-cases (bodies h)) [
  | inl n ↦ absurd (cc (rw n at e))
  | inr (body, b) ↦
      let at_body = rw b at e in
      let chosen : chosen_exit (exit_targets succs body) (ipdom h) body ≡ some f = cc in
      let (off, why) = leaves succs ipdom h f body chosen in
      (
        rw b off,
        elim why [
          | inl (there, only) ↦ inl (
            (leaves_iff succs bodies h f body b).1 there,
            λ t m. only t ((leaves_iff succs bodies h t body b).0 m),
          )
          | inr q ↦ inr q
        ],
      )
]
