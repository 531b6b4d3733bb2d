-- ===== src/Ir/Coverage.antt =====
-- crates/flutterdec-ir/src/lib.rs: which instructions of a function are in the blocks that
-- `build_function_ir` returns.

use flutterdec.Common.{
  get_elem?, All, if◌then◌else◌, Bool-cases, u64_mod, ℕ, suc, ◌-◌, ◌<◌, ◌≡◌, refl, sym, subst, ◌↔◌,
  inl, inr, true, false, ◌||◌, some, List, ◌∷◌, Memᴰ, [], ℕ_eq, List_eq, Option_eq, ℕ_order,
  Text_order,
}
use flutterdec.Ir.Instructions.{
  is_text, AsmInstruction, LlirInstr, is_branch, is_pool_load, is_runtime_check, lifted,
  marked_check, lift_from, llir_from_disasm,
}
use flutterdec.Ir.Splitting.{BasicBlock, reach, linked_blocks, build_blocks}
use flutterdec.Ir.Keeping.{IsDropped}
use flutterdec.Ir.Dropping.{Kept, Stays, build_blocks_iff}
use flutterdec.Ir.Partition.{Ascends, IsBelow, collected, collected-linked_blocks}
use flutterdec.Ir.Collecting.{mem-collected, one_block, Ascends-dropped}

-- The addresses of the instructions ascend, and `u64::MAX` is none of them.
abbrev pub IsInOrder : List AsmInstruction → Type 0
IsInOrder [] = Unit
IsInOrder (i ∷ is) =
    All (λ (j : AsmInstruction). i.va < j.va) is × (i.va < u64_mod - 1) × IsInOrder is

lifted-va : (i : AsmInstruction) → LlirInstr.va (lifted i) ≡ i.va
unfolding lifted
lifted-va i = elim (Bool-cases (is_text i.mnemonic "bl" || is_text i.mnemonic "blr")) [
  | inl e ↦ rw e refl
  | inr e ↦ rw e (elim (Bool-cases (is_branch i.mnemonic)) [
    | inl e ↦ rw e refl
    | inr e ↦ rw e (elim (Bool-cases (is_text i.mnemonic "b")) [
      | inl e ↦ rw e refl
      | inr e ↦ rw e (elim (Bool-cases (is_text i.mnemonic "ret")) [
        | inl e ↦ rw e refl
        | inr e ↦
            rw e (elim (Bool-cases (is_pool_load i)) [ inl e ↦ rw e refl | inr e ↦ rw e refl ])
      ])
    ])
  ])
]

-- An instruction keeps its address.
va-lift :
    (instrs : List AsmInstruction) (idx : ℕ) (i : AsmInstruction)
    → LlirInstr.va (if is_runtime_check instrs idx then marked_check i else lifted i) ≡ i.va
unfolding marked_check
va-lift instrs idx i = elim (Bool-cases (is_runtime_check instrs idx)) [
  | inl e ↦ rw e refl
  | inr e ↦ rw e (lifted-va i)
]

All-lift_from :
    (P : ℕ → Type 0) (instrs : List AsmInstruction) (idx : ℕ) (is : List AsmInstruction)
    → All (λ (i : AsmInstruction). P i.va) is
    → All (λ (i : LlirInstr). P i.va) (lift_from instrs idx is)
unfolding lift_from
All-lift_from P instrs idx [] h = tt
All-lift_from P instrs idx (i ∷ is) h =
    (subst P (sym (va-lift instrs idx i)) h.0, All-lift_from P instrs (suc idx) is h.1)

lift_from-Ascends :
    (instrs : List AsmInstruction) (idx : ℕ) (is : List AsmInstruction)
    → IsInOrder is
    → Ascends (lift_from instrs idx is) × IsBelow (u64_mod - 1) (lift_from instrs idx is)
unfolding lift_from
lift_from-Ascends instrs idx [] h = (tt, tt)
lift_from-Ascends instrs idx (i ∷ is) h =
    let (ascends, below) = lift_from-Ascends instrs (suc idx) is h.2 in
    let same = sym (va-lift instrs idx i) in
    let above = All-lift_from (λ n. i.va < n) instrs (suc idx) is h.0 in
    (
      (
        subst (λ n. All (λ (j : LlirInstr). n < j.va) (lift_from instrs (suc idx) is)) same above,
        ascends,
      ),
      (subst (λ n. n < u64_mod - 1) same h.1, below),
    )

-- The instruction is in a block that is dropped.
abbrev pub IsElided : List BasicBlock → LlirInstr → Type 0
IsElided blocks x =
    (i : ℕ) × (b : BasicBlock) × (get_elem? blocks i ≡ some b)
    × Memᴰ x b.instrs
    × IsDropped blocks i

-- The blocks that are kept.
remains_iff :
    (blocks out : List BasicBlock)
    → ((start : ℕ) (part : List LlirInstr) → Kept out start part ↔ Stays blocks start part)
    → Ascends (collected blocks)
    → (x : LlirInstr) → Memᴰ x (collected out) ↔ (Memᴰ x (collected blocks) × (¬ IsElided blocks x))
remains_iff blocks out parts h x =
    let before = mem-collected blocks x in
    let after = mem-collected out x in
    (
      λ m.
          let (i, c, at, here) = after.0 m in
          let (j, b, old, stays, _, same) = (parts c.start_va c.instrs).0 (i, c, at, refl, refl) in
          let there : Memᴰ x b.instrs = subst (λ (p : List LlirInstr). Memᴰ x p) (sym same) here in
          (
            before.1 (j, b, old, there),
            λ (k, d, at', m', gone).
                let e = one_block blocks x k j d b h at' m' old there in
                stays (subst (IsDropped blocks) e gone),
          ),
      λ (m, not_elided).
          let (i, b, at, here) = before.0 m in
          let stays : ¬ IsDropped blocks i = λ gone. not_elided (i, b, at, here, gone) in
          let (j, c, at', _, same) = (parts b.start_va b.instrs).1 (i, b, at, stays, refl, refl) in
          after.1 (j, c, at', subst (λ (p : List LlirInstr). Memᴰ x p) (sym same) here),
    )

-- When the addresses of a function's instructions ascend and stay below `u64::MAX`, the blocks that
-- the instructions are split into hold the instructions of the function, in order, each in exactly
-- one block. Of these blocks the elided slow paths are dropped, and the blocks that are returned
-- hold, with ascending addresses and so each in exactly one block, the instructions of the function
-- that are in no dropped block.
pub collected-build_blocks :
    (instrs : List AsmInstruction)
    → IsInOrder instrs
    → (out : List BasicBlock) × (build_blocks instrs ≡ some out)
      × (collected (linked_blocks (llir_from_disasm instrs)) ≡ llir_from_disasm instrs)
      × Ascends (collected out)
      × ((x : LlirInstr)
          → Memᴰ x (collected out) ↔ (
              Memᴰ x (llir_from_disasm instrs)
              × (¬ IsElided (linked_blocks (llir_from_disasm instrs)) x)))
unfolding build_blocks llir_from_disasm
collected-build_blocks instrs in_order =
    let llir = llir_from_disasm instrs in
    let blocks = linked_blocks llir in
    let (ascends, below) = lift_from-Ascends instrs 0 instrs in_order in
    let split = collected-linked_blocks llir ascends below in
    let h : Ascends (collected blocks) = subst Ascends (sym split) ascends in
    let (out, ends, _, parts) = build_blocks_iff instrs in
    (
      out,
      ends,
      split,
      Ascends-dropped blocks (reach blocks true) (reach blocks false) out ends h,
      λ x.
          subst
            (λ (is : List LlirInstr). Memᴰ x (collected out) ↔ (Memᴰ x is × (¬ IsElided blocks x)))
            split (remains_iff blocks out parts h x),
    )
