-- ===== src/Ir/Partition.antt =====
-- crates/flutterdec-ir/src/lib.rs: how `build_function_ir` splits the instructions into blocks.
use mathlib.Core.List.Memᴰ
use flutterdec.Common.{
  All, keep, All-map, All-mem, IsAscending, sort, mem-sort, sort-IsWeaklyAscending, dedup,
  mem-dedup, dedup-IsAscending, ltb, leb, ltb→lt, Bool-cases, u64_mod, ℕ, suc, ◌-◌, ◌≤◌, ◌<◌, ◌≡◌,
  refl, ap, ◌∙◌, inl, inr, true, false, List, ◌∷◌, ◌++◌, Memᴰ, arith, [], ℕ_eq, List_eq, Option_eq,
  ℕ_order, Text_order,
}
use flutterdec.Ir.Instructions.{LlirInstr}
use flutterdec.Ir.Splitting.{
  BasicBlock, leaders_from, leader_vec, in_range, push_block, split_blocks, link, linked_blocks,
}

-- The instructions of the blocks, one block after the other.
abbrev pub collected : List BasicBlock → List LlirInstr
collected [] = []
collected (b ∷ bs) = b.instrs ++ collected bs

-- The addresses ascend, and `u64::MAX` is none of them.
abbrev pub Ascends : List LlirInstr → Type 0
Ascends [] = Unit
Ascends (i ∷ is) = All (λ (j : LlirInstr). i.va < j.va) is × Ascends is

abbrev pub IsBelow : ℕ → List LlirInstr → Type 0
IsBelow m is = All (λ (j : LlirInstr). j.va < m) is

pub keep_none :
    (s e : ℕ) (is : List LlirInstr)
    → All (λ (j : LlirInstr). e ≤ j.va) is
    → keep (in_range s e) is ≡ []
keep_none s e [] h = refl
keep_none s e (i ∷ is) h = ground (arith, keep_none s e is)

keep_all :
    (s m : ℕ) (is : List LlirInstr)
    → All (λ (j : LlirInstr). s ≤ j.va) is
    → IsBelow m is
    → keep (in_range s m) is ≡ is
keep_all s m [] h k = refl
keep_all s m (i ∷ is) h k = ground (arith, keep_all s m is)

keep_two :
    (s e m : ℕ) (is : List LlirInstr)
    → s ≤ e
    → Ascends is
    → IsBelow m is
    → keep (in_range s e) is ++ keep (in_range e m) is ≡ keep (in_range s m) is
keep_two s e m [] l h k = refl
keep_two s e m (i ∷ is) l h k =
    let ih = keep_two s e m is l h.1 k.1 in
    elim (Bool-cases (leb e i.va)) [
      | inl after ↦
          let all_after : All (λ (j : LlirInstr). e ≤ j.va) is =
            All-map {P = λ (j : LlirInstr). i.va < j.va} {Q = λ (j : LlirInstr). e ≤ j.va} is
              (λ j less. ground arith) h.0 in
          let nothing = keep_none s e is all_after in
          let a : in_range s e i ≡ false = ground arith in
          let b : in_range e m i ≡ true = ground arith in
          let c : in_range s m i ≡ true = ground arith in
          let rest : keep (in_range e m) is ≡ keep (in_range s m) is = rw nothing at ih in
          rw (a, b, c, nothing) (ap (λ (t : List LlirInstr). i ∷ t) rest)
      | inr before ↦
          let b : in_range e m i ≡ false = ground arith in
          elim (Bool-cases (leb s i.va)) [
            | inl from ↦
                let a : in_range s e i ≡ true = ground arith in
                let c : in_range s m i ≡ true = ground arith in
                rw (a, b, c) (ap (λ (t : List LlirInstr). i ∷ t) ih)
            | inr under ↦
                let a : in_range s e i ≡ false = ground arith in
                let c : in_range s m i ≡ false = ground arith in rw (a, b, c) ih
          ]
    ]

pub append_nil : (is : List LlirInstr) → is ++ [] ≡ is
append_nil [] = refl
append_nil (i ∷ is) = ap (λ (t : List LlirInstr). i ∷ t) (append_nil is)

collected-push :
    (id start : ℕ) (is rest_is : List LlirInstr) (rest : ℕ → List BasicBlock)
    → ((i : ℕ) → collected (rest i) ≡ rest_is)
    → collected (push_block id start is rest) ≡ is ++ rest_is
collected-push id start [] rest_is rest h = h id
collected-push id start (i ∷ is) rest_is rest h =
    ap (λ (t : List LlirInstr). (i ∷ is) ++ t) (h (suc id))

collected-link : (blocks bs : List BasicBlock) → collected (link blocks bs) ≡ collected bs
unfolding link
collected-link blocks [] = refl
collected-link blocks (b ∷ bs) =
    ap (λ (t : List LlirInstr). b.instrs ++ t) (collected-link blocks bs)

collected-split :
    (llir : List LlirInstr) (s : ℕ) (ls : List ℕ) (id : ℕ)
    → IsAscending (s ∷ ls)
    → Ascends llir
    → IsBelow (u64_mod - 1) llir
    → collected (split_blocks llir (s ∷ ls) id) ≡ keep (in_range s (u64_mod - 1)) llir
unfolding split_blocks
collected-split llir s [] id a h k =
    collected-push id s (keep (in_range s (u64_mod - 1)) llir) [] (λ i. []) (λ i. refl)
    ∙ append_nil (keep (in_range s (u64_mod - 1)) llir)
collected-split llir s (e ∷ ls) id a h k =
    collected-push id s (keep (in_range s e) llir) (keep (in_range e (u64_mod - 1)) llir)
      (λ i. split_blocks llir (e ∷ ls) i) (λ i. collected-split llir e ls i a.1 h k)
    ∙ keep_two s e (u64_mod - 1) llir (let less = ltb→lt s e a.0.0 in omega arith) h k

least :
    (xs : List ℕ) (x : ℕ)
    → IsAscending xs
    → Memᴰ x xs
    → (s : ℕ) × (ls : List ℕ) × (xs ≡ s ∷ ls) × IsAscending (s ∷ ls) × (s ≤ x)
least [] x a m = absurd (Memᴰ.not-nil m)
least (y ∷ ys) x a m = (
  y,
  ys,
  refl,
  a,
  elim (Memᴰ.cases_cons m) [
    | inl e ↦ omega arith
    | inr t ↦ let less = ltb→lt y x (All-mem (λ z. ltb y z ≡ true) ys a.0 t) in omega arith
  ],
)

-- The first leader is not behind the first instruction.
pub first_leader :
    (i : LlirInstr) (is : List LlirInstr)
    → (s : ℕ) × (ls : List ℕ) × (leader_vec (i ∷ is) ≡ s ∷ ls) × IsAscending (s ∷ ls) × (s ≤ i.va)
unfolding leader_vec
first_leader i is =
    let all_of = i.va ∷ leaders_from (i ∷ is) in
    let ascending = dedup-IsAscending (sort all_of) (sort-IsWeaklyAscending all_of) in
    let there : Memᴰ i.va (dedup (sort all_of)) =
      (mem-dedup i.va (sort all_of)).1 ((mem-sort i.va all_of).1 (Memᴰ.head refl)) in
    least (dedup (sort all_of)) i.va ascending there

-- The instructions of the blocks before the elided slow paths are dropped, in order, are the
-- instructions of the function: each is in exactly one of these blocks, when their addresses ascend
-- and stay below `u64::MAX`.
pub collected-linked_blocks :
    (llir : List LlirInstr)
    → Ascends llir
    → IsBelow (u64_mod - 1) llir
    → collected (linked_blocks llir) ≡ llir
unfolding linked_blocks
collected-linked_blocks [] h k = refl
collected-linked_blocks (i ∷ is) h k =
    let (s, ls, e, a, l) = first_leader i is in
    let blocks = split_blocks (i ∷ is) (leader_vec (i ∷ is)) 0 in
    let after : All (λ (j : LlirInstr). s ≤ j.va) is =
      All-map {P = λ (j : LlirInstr). i.va < j.va} {Q = λ (j : LlirInstr). s ≤ j.va} is
        (λ j less. omega arith) h.0 in
    collected-link blocks blocks
    ∙ ap (λ (v : List ℕ). collected (split_blocks (i ∷ is) v 0)) e
    ∙ collected-split (i ∷ is) s ls 0 a h k
    ∙ keep_all s (u64_mod - 1) (i ∷ is) (l, after) k
