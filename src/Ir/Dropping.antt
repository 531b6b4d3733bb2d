-- ===== src/Ir/Dropping.antt =====
-- crates/flutterdec-ir/src/lib.rs: the end of `build_function_ir`, which drops the slow paths of the
-- elided checks and numbers what is left.
use mathlib.Core.Path.{ap₂}
use flutterdec.Common.{
  contains_iff, length, get_elem?, All-mem, some_injective, ℕ, ◌+◌, ◌≡◌, refl, sym, ap, ◌∙◌, ◌↔◌,
  true, false, some, List, ◌∷◌, Memᴰ, arith, [], ℕ_eq, List_eq, Option_eq, ℕ_order, Text_order,
}
use flutterdec.Decompiler.Regions.Reach.{Leads}
use flutterdec.Ir.Instructions.{AsmInstruction, LlirInstr, llir_from_disasm}
use flutterdec.Ir.Splitting.{
  BasicBlock, split_blocks, leader_vec, link, reach_edges, reach, kept_from, renumber, finish,
  linked_blocks, dropped, build_blocks,
}
use flutterdec.Ir.Numbering.{
  IsNumbered, length-renumber, length-fill_preds, get-renumber, get-fill_preds, finish-IsNumbered,
}
use flutterdec.Ir.Keeping.{
  get-lt, lt-get, mem-get, NoPreds, split-NoPreds, link-NoPreds, IsDropped, skips, mem-kept_from,
  reach_iff,
}

-- The final block at an index is the block at that index of the kept ones.
finished_from :
    (kept : List BasicBlock) (i : ℕ) (c : BasicBlock)
    → get_elem? (finish kept) i ≡ some c
    → (b : BasicBlock) × (get_elem? kept i ≡ some b)
      × (c.start_va ≡ b.start_va)
      × (c.instrs ≡ b.instrs)
unfolding finish
finished_from kept i c at =
    let bs = renumber kept 0 kept in
    let (d, mid, _, va, ins, _, _) = get-fill_preds bs i bs c at in
    let (b, old, _, va', ins', _, _) = get-renumber kept 0 i kept d mid in
    (b, old, va ∙ va', ins ∙ ins')

length-finish : (kept : List BasicBlock) → length (finish kept) ≡ length kept
unfolding finish
length-finish kept =
    length-fill_preds (renumber kept 0 kept) (renumber kept 0 kept) ∙ length-renumber kept 0 kept

abbrev pub Kept : List BasicBlock → ℕ → List LlirInstr → Type 0
Kept blocks start instrs =
    (i : ℕ) × (b : BasicBlock) × (get_elem? blocks i ≡ some b)
    × (b.start_va ≡ start)
    × (b.instrs ≡ instrs)

finish_iff :
    (kept : List BasicBlock) (start : ℕ) (instrs : List LlirInstr)
    → Kept (finish kept) start instrs ↔ Kept kept start instrs
finish_iff kept start instrs = (
  λ (i, c, at, va, ins).
      let (b, old, va', ins') = finished_from kept i c at in
      (i, b, old, sym va' ∙ va, sym ins' ∙ ins),
  λ (i, b, at, va, ins).
      let (l, _) = get-lt kept i b at in
      let (c, there) = lt-get (finish kept) i (omega (arith, length-finish kept)) in
      let (b', old, va', ins') = finished_from kept i c there in
      let same : b' ≡ b = some_injective (sym old ∙ at) in
      (
        i,
        c,
        there,
        va' ∙ ap (λ (x : BasicBlock). x.start_va) same ∙ va,
        ins' ∙ ap (λ (x : BasicBlock). x.instrs) same ∙ ins,
      ),
)

kept_iff :
    (a w : List ℕ) (blocks : List BasicBlock)
    → ((v : ℕ) → Memᴰ v a ↔ Leads (reach_edges blocks true) 0 v)
    → ((v : ℕ) → Memᴰ v w ↔ Leads (reach_edges blocks false) 0 v)
    → (i : ℕ) → (skips a w i ≡ false) ↔ (¬ IsDropped blocks i)
unfolding IsDropped
kept_iff a w blocks all_in without i =
    let on = contains_iff a i in
    let off = contains_iff w i in ground (arith, all_in i, without i, on, off)

-- `kept_from` from the first block on.
all_kept :
    (a w : List ℕ) (blocks : List BasicBlock)
    → ((v : ℕ) → Memᴰ v a ↔ Leads (reach_edges blocks true) 0 v)
    → ((v : ℕ) → Memᴰ v w ↔ Leads (reach_edges blocks false) 0 v)
    → (b : BasicBlock)
    → Memᴰ b (kept_from a w 0 blocks)
      ↔ ((i : ℕ) × (get_elem? blocks i ≡ some b) × (¬ IsDropped blocks i))
all_kept a w blocks in_a in_w b =
    let member = mem-kept_from a w 0 blocks b in
    let from_zero : (i : ℕ) → skips a w (0 + i) ≡ skips a w i = λ i. ap (skips a w) (omega arith) in
    (
      λ m.
          let (i, e, h) = member.0 m in
          (i, e, (kept_iff a w blocks in_a in_w i).0 (sym (from_zero i) ∙ h)),
      λ (i, e, h). member.1 (i, e, from_zero i ∙ (kept_iff a w blocks in_a in_w i).1 h),
    )

-- A block of the result is a block that is not dropped.
abbrev pub Stays : List BasicBlock → ℕ → List LlirInstr → Type 0
Stays blocks start part =
    (i : ℕ) × (b : BasicBlock) × (get_elem? blocks i ≡ some b)
    × (¬ IsDropped blocks i)
    × (b.start_va ≡ start)
    × (b.instrs ≡ part)

parts_iff :
    (a w : List ℕ) (blocks : List BasicBlock)
    → ((v : ℕ) → Memᴰ v a ↔ Leads (reach_edges blocks true) 0 v)
    → ((v : ℕ) → Memᴰ v w ↔ Leads (reach_edges blocks false) 0 v)
    → (start : ℕ) (part : List LlirInstr)
    → Kept (finish (kept_from a w 0 blocks)) start part ↔ Stays blocks start part
parts_iff a w blocks in_a in_w start part =
    let kept = kept_from a w 0 blocks in
    let f = finish_iff kept start part in
    (
      λ m.
          let (i, c, at, va, ins) = f.0 m in
          let (_, k) = get-lt kept i c at in
          let (j, old, stays) = (all_kept a w blocks in_a in_w c).0 k in
          (j, c, old, stays, va, ins),
      λ (j, c, old, stays, va, ins).
          let k = (all_kept a w blocks in_a in_w c).1 (j, old, stays) in
          let (i, at) = mem-get kept c k in f.1 (i, c, at, va, ins),
    )

kept-NoPreds :
    (a w : List ℕ) (blocks : List BasicBlock)
    → NoPreds blocks
    → (i : ℕ) (c : BasicBlock) → get_elem? (kept_from a w 0 blocks) i ≡ some c
    → c.preds ≡ []
kept-NoPreds a w blocks h i c at =
    let (_, m) = get-lt (kept_from a w 0 blocks) i c at in
    let (j, old, _) = (mem-kept_from a w 0 blocks c).0 m in
    let (_, m') = get-lt blocks j c old in All-mem (λ (x : BasicBlock). x.preds ≡ []) blocks h m'

dropped_iff :
    (blocks : List BasicBlock)
    → NoPreds blocks
    → (out : List BasicBlock) × (dropped blocks (reach blocks true) (reach blocks false) ≡ some out)
      × IsNumbered out
      × ((start : ℕ) (part : List LlirInstr) → Kept out start part ↔ Stays blocks start part)
unfolding reach
dropped_iff [] h = (
  finish (kept_from [] [] 0 []),
  refl,
  finish-IsNumbered (kept_from [] [] 0 []) (kept-NoPreds [] [] [] h),
  λ start part. (
    λ m.
        let (i, c, at, _, _) = (finish_iff (kept_from [] [] 0 []) start part).0 m in
        let (_, k) = get-lt (kept_from [] [] 0 []) i c at in
        let (j, none_there, _) = (mem-kept_from [] [] 0 [] c).0 k in absurd (cc),
    λ (i, b, at, _, _, _). absurd (cc),
  ),
)
dropped_iff (b ∷ bs) h =
    let (a, ends_a, in_a) = reach_iff b bs true in
    let (w, ends_w, in_w) = reach_iff b bs false in
    (
      finish (kept_from a w 0 (b ∷ bs)),
      ap₂ (dropped (b ∷ bs)) ends_a ends_w,
      finish-IsNumbered (kept_from a w 0 (b ∷ bs)) (kept-NoPreds a w (b ∷ bs) h),
      parts_iff a w (b ∷ bs) in_a in_w,
    )

-- Every function has its blocks: the searches end within their rounds. A block's id is its position,
-- its successors are blocks, and its predecessors are the edges the other way round. What is left
-- out of the blocks that the instructions are split into is exactly what the entry leads to through
-- an elided check only.
pub build_blocks_iff :
    (instrs : List AsmInstruction)
    → (out : List BasicBlock) × (build_blocks instrs ≡ some out)
      × IsNumbered out
      × ((start : ℕ) (part : List LlirInstr)
          → Kept out start part ↔ Stays (linked_blocks (llir_from_disasm instrs)) start part)
unfolding build_blocks linked_blocks
build_blocks_iff instrs =
    let llir = llir_from_disasm instrs in
    let split = split_blocks llir (leader_vec llir) 0 in
    let (out, ends, numbered, parts) =
      dropped_iff (link split split)
        (link-NoPreds split split (split-NoPreds llir (leader_vec llir) 0)) in
    (out, ends, numbered, parts)
