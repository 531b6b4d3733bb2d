-- ===== src/Ir/Numbering.antt =====
-- crates/flutterdec-ir/src/lib.rs: the ids, successors and predecessors of the blocks that
-- `build_function_ir` returns.
use mathlib.Core.List.Memᴰ
use flutterdec.Common.{
  length, get_elem?, keep, sort, mem-sort, dedup, mem-dedup, nat_eq, nat_eq_iff, Bool-cases,
  Option-cases, some_injective, ℕ, zero, suc, ◌+◌, ◌<◌, ◌≡◌, refl, sym, ap, ◌∙◌, subst, ◌↔◌, ◌⊎◌,
  inl, inr, Option, none, some, List, ◌∷◌, ◌++◌, map, Memᴰ, arith, [], ℕ_eq, List_eq, Option_eq,
  ℕ_order, Text_order,
}
use flutterdec.Ir.Splitting.{
  BasicBlock, to_list, position, positions, renumber, pushed_preds, fill_preds, finish,
}

-- A block's id is its position, its successors are blocks, and its predecessors are the edges the
-- other way round.
pub record IsNumbered (blocks : List BasicBlock) : Type 0 where
  pub ids : (i : ℕ) (b : BasicBlock) → get_elem? blocks i ≡ some b → b.id ≡ i
  pub closed :
      (i s : ℕ) (b : BasicBlock) → get_elem? blocks i ≡ some b → Memᴰ s b.succs → s < length blocks
  pub inverse :
      (i j : ℕ) (b c : BasicBlock)
      → get_elem? blocks i ≡ some b
      → get_elem? blocks j ≡ some c
      → Memᴰ j b.preds ↔ Memᴰ i c.succs

pub position-lt :
    (blocks : List BasicBlock) (s i : ℕ) → position blocks s ≡ some i → i < length blocks
unfolding position
position-lt [] s i e = absurd (cc)
position-lt (b ∷ bs) s i e = elim (Bool-cases (nat_eq b.id s)) [
  | inl here ↦ ground arith
  | inr there ↦ elim (Option-cases (position bs s)) [
    | inl n ↦ absurd (cc (rw (there, n) at e))
    | inr (k, found) ↦
        let same : suc k ≡ i = cc (rw (there, found) at e) in
        omega (arith, position-lt bs s k found)
  ]
]

pub mem-to_list : (o : Option ℕ) (x : ℕ) → Memᴰ x (to_list o) → o ≡ some x
mem-to_list none x m = absurd (Memᴰ.not-nil m)
mem-to_list (some y) x m = ap some (sym (Memᴰ.eq_of_singleton m))

pub positions-lt :
    (blocks : List BasicBlock) (ss : List ℕ) (x : ℕ)
    → Memᴰ x (positions blocks ss)
    → x < length blocks
unfolding positions
positions-lt blocks [] x m = absurd (Memᴰ.not-nil m)
positions-lt blocks (s ∷ ss) x m = elim (Memᴰ.append_cases (to_list (position blocks s)) m) [
  | inl k ↦ position-lt blocks s x (mem-to_list (position blocks s) x k)
  | inr k ↦ positions-lt blocks ss x k
]

pub length-renumber :
    (kept : List BasicBlock) (i : ℕ) (bs : List BasicBlock)
    → length (renumber kept i bs) ≡ length bs
unfolding renumber
length-renumber kept i [] = refl
length-renumber kept i (b ∷ bs) = ap suc (length-renumber kept (suc i) bs)

pub length-fill_preds : (blocks bs : List BasicBlock) → length (fill_preds blocks bs) ≡ length bs
unfolding fill_preds
length-fill_preds blocks [] = refl
length-fill_preds blocks (b ∷ bs) = ap suc (length-fill_preds blocks bs)

pub get-renumber :
    (kept : List BasicBlock) (k i : ℕ) (bs : List BasicBlock) (c : BasicBlock)
    → get_elem? (renumber kept k bs) i ≡ some c
    → (b : BasicBlock) × (get_elem? bs i ≡ some b)
      × (c.id ≡ k + i)
      × (c.start_va ≡ b.start_va)
      × (c.instrs ≡ b.instrs)
      × (c.succs ≡ positions kept b.succs)
      × (c.preds ≡ b.preds)
unfolding renumber
get-renumber kept k i [] c e = absurd (cc)
get-renumber kept k zero (b ∷ bs) c e =
    let same = some_injective e in
    (
      b,
      refl,
      ap (λ (x : BasicBlock). x.id) (sym same) ∙ omega arith,
      ap (λ (x : BasicBlock). x.start_va) (sym same),
      ap (λ (x : BasicBlock). x.instrs) (sym same),
      ap (λ (x : BasicBlock). x.succs) (sym same),
      ap (λ (x : BasicBlock). x.preds) (sym same),
    )
get-renumber kept k (suc i) (b ∷ bs) c e =
    let (d, at, id, va, ins, sc, pr) = get-renumber kept (suc k) i bs c e in
    (d, at, omega arith, va, ins, sc, pr)

pub get-fill_preds :
    (blocks : List BasicBlock) (i : ℕ) (bs : List BasicBlock) (c : BasicBlock)
    → get_elem? (fill_preds blocks bs) i ≡ some c
    → (b : BasicBlock) × (get_elem? bs i ≡ some b)
      × (c.id ≡ b.id)
      × (c.start_va ≡ b.start_va)
      × (c.instrs ≡ b.instrs)
      × (c.succs ≡ b.succs)
      × (c.preds ≡ dedup (sort (b.preds ++ pushed_preds b.id blocks)))
unfolding fill_preds
get-fill_preds blocks i [] c e = absurd (cc)
get-fill_preds blocks zero (b ∷ bs) c e =
    let same = some_injective e in
    (
      b,
      refl,
      ap (λ (x : BasicBlock). x.id) (sym same),
      ap (λ (x : BasicBlock). x.start_va) (sym same),
      ap (λ (x : BasicBlock). x.instrs) (sym same),
      ap (λ (x : BasicBlock). x.succs) (sym same),
      ap (λ (x : BasicBlock). x.preds) (sym same),
    )
get-fill_preds blocks (suc i) (b ∷ bs) c e = get-fill_preds blocks i bs c e

mem-repeat :
    (y p s : ℕ) (ts : List ℕ)
    → Memᴰ p (map (λ (t : ℕ). y) (keep (λ t. nat_eq t s) ts)) ↔ ((p ≡ y) × Memᴰ s ts)
mem-repeat y p s [] = (λ m. absurd (Memᴰ.not-nil m), λ (e, m). absurd (Memᴰ.not-nil m))
mem-repeat y p s (t ∷ ts) = elim (Bool-cases (nat_eq t s)) [
  | inl here ↦
      let same = (nat_eq_iff t s).0 here in
      rw here (
        λ m. elim (Memᴰ.cases_cons m) [
          | inl e ↦ (e, Memᴰ.head (sym same))
          | inr k ↦ let (e, l) = (mem-repeat y p s ts).0 k in (e, Memᴰ.tail l)
        ],
        λ (e, m). Memᴰ.head e,
      )
  | inr there ↦ rw there (
    λ m. let (e, l) = (mem-repeat y p s ts).0 m in (e, Memᴰ.tail l),
    λ (e, m). elim (Memᴰ.cases_cons m) [
      | inl q ↦ absurd (ground (arith, (nat_eq_iff t s).1 (sym q)))
      | inr k ↦ (mem-repeat y p s ts).1 (e, k)
    ],
  )
]

pub ℕ-cases : (j : ℕ) → (j ≡ 0) ⊎ ((k : ℕ) × (j ≡ suc k))
ℕ-cases zero = inl refl
ℕ-cases (suc k) = inr (k, refl)

mem-pushed_preds :
    (s p : ℕ) (blocks : List BasicBlock)
    → Memᴰ p (pushed_preds s blocks)
      ↔ ((j : ℕ) × (q : BasicBlock) × (get_elem? blocks j ≡ some q) × (p ≡ q.id) × Memᴰ s q.succs)
unfolding pushed_preds
mem-pushed_preds s p [] = (λ m. absurd (Memᴰ.not-nil m), λ (j, q, e, f, r). absurd (cc))
mem-pushed_preds s p (b ∷ bs) = (
  λ m. elim (Memᴰ.append_cases (map (λ (t : ℕ). b.id) (keep (λ t. nat_eq t s) b.succs)) m) [
    | inl k ↦ let (e, l) = (mem-repeat b.id p s b.succs).0 k in (0, b, refl, e, l)
    | inr k ↦ let (j, q, at, e, l) = (mem-pushed_preds s p bs).0 k in (suc j, q, at, e, l)
  ],
  λ (j, q, at, e, l). elim (ℕ-cases j) [
    | inl z ↦
        let same : b ≡ q = some_injective (rw z at at) in
        Memᴰ.append_left (pushed_preds s bs) (
          (mem-repeat b.id p s b.succs).1 (
            e ∙ ap (λ (x : BasicBlock). x.id) (sym same),
            subst (λ (x : BasicBlock). Memᴰ s x.succs) (sym same) l,
          ))
    | inr (k, z) ↦
        Memᴰ.append_right (map (λ (t : ℕ). b.id) (keep (λ t. nat_eq t s) b.succs))
          ((mem-pushed_preds s p bs).1 (k, q, rw z at at, e, l))
  ],
)

ids_apart :
    (blocks : List BasicBlock)
    → ((i : ℕ) (b : BasicBlock) → get_elem? blocks i ≡ some b → b.id ≡ i)
    → (i j : ℕ) (b c : BasicBlock) → get_elem? blocks i ≡ some b
    → get_elem? blocks j ≡ some c
    → b.id ≡ c.id
    → b ≡ c
ids_apart blocks ids i j b c at_b at_c e =
    let same : i ≡ j = omega (arith, ids i b at_b, ids j c at_c) in
    some_injective (sym at_b ∙ ap (get_elem? blocks) same ∙ at_c)

-- The blocks that are renumbered: none has a predecessor yet.
pub finish-IsNumbered :
    (kept : List BasicBlock)
    → ((i : ℕ) (b : BasicBlock) → get_elem? kept i ≡ some b → b.preds ≡ [])
    → IsNumbered (finish kept)
unfolding finish
finish-IsNumbered kept none_yet =
    let bs = renumber kept 0 kept in
    let count : length (fill_preds bs bs) ≡ length kept =
      length-fill_preds bs bs ∙ length-renumber kept 0 kept in
    let mid_id : (i : ℕ) (b : BasicBlock) → get_elem? bs i ≡ some b → b.id ≡ i =
      λ i b at. let (_, _, id, _, _, _, _) = get-renumber kept 0 i kept b at in omega arith in
    record {
      ids = λ i b at.
          let (c, mid, id, _, _, _, _) = get-fill_preds bs i bs b at in
          omega (arith, mid_id i c mid);
      closed = λ i s b at m.
          let (c, mid, _, _, _, succ, _) = get-fill_preds bs i bs b at in
          let (d, old, _, _, _, succ', _) = get-renumber kept 0 i kept c mid in
          let there : Memᴰ s (positions kept d.succs) = subst (Memᴰ s) (succ ∙ succ') m in
          omega (arith, count, positions-lt kept d.succs s there);
      inverse = λ i j b c at_b at_c.
          let (b', mid_b, b_id, _, _, b_succ, b_pred) = get-fill_preds bs i bs b at_b in
          let (c', mid_c, c_id, _, _, c_succ, _) = get-fill_preds bs j bs c at_c in
          let (b'', old_b, _, _, _, _, b'_pred) = get-renumber kept 0 i kept b' mid_b in
          let no_pred : b'.preds ≡ [] = b'_pred ∙ none_yet i b'' old_b in
          let pushed = mem-pushed_preds b'.id j bs in
          let whole = b'.preds ++ pushed_preds b'.id bs in
          let cleaned : Memᴰ j b.preds ↔ Memᴰ j (pushed_preds b'.id bs) = (
            λ m.
                let k = (mem-sort j whole).0 ((mem-dedup j (sort whole)).0 (rw b_pred at m)) in
                rw no_pred at k,
            λ m. rw b_pred (
                (mem-dedup j (sort whole)).1 ((mem-sort j whole).1 (Memᴰ.append_right b'.preds m))),
          ) in
          (
            λ m.
                let (k, q, at_q, e, l) = pushed.0 (cleaned.0 m) in
                let same : q ≡ c' =
                  ids_apart bs mid_id k j q c' at_q mid_c (omega (arith, mid_id j c' mid_c)) in
                let l' : Memᴰ b'.id c'.succs =
                  subst (λ (x : BasicBlock). Memᴰ b'.id x.succs) same l in
                rw c_succ (subst (λ x. Memᴰ x c'.succs) (mid_id i b' mid_b) l'),
            λ m. cleaned.1 (
                pushed.1 (
                  j,
                  c',
                  mid_c,
                  sym (mid_id j c' mid_c),
                  subst (λ x. Memᴰ x c'.succs) (sym (mid_id i b' mid_b)) (rw c_succ at m),
                )),
          );
    }
