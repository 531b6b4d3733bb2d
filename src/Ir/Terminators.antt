-- ===== src/Ir/Terminators.antt =====
-- crates/flutterdec-ir/src/lib.rs: where the blocks of `build_function_ir` end.
use mathlib.Core.List.Memᴰ
use flutterdec.Common.{
  All, keep, All-map, All-mem, IsAscending, sort, mem-sort, mem-dedup, Text, ltb, ltb→lt,
  Bool-cases, u64_mod, ℕ, suc, ◌-◌, ◌≤◌, ◌<◌, ◌≡◌, refl, sym, subst, inl, inr, Bool, true, false,
  List, ◌∷◌, Memᴰ, arith, [], ℕ_eq, List_eq, Option_eq, ℕ_order, Text_order,
}
use flutterdec.Ir.Instructions.{
  IrOp, LlirInstr, branch, jump, return, call, load_pool, runtime_check, other,
}
use flutterdec.Ir.Splitting.{
  BasicBlock, to_list, leaders_of, leaders_from, leader_vec, in_range, push_block, split_blocks,
  link, linked_blocks,
}
use flutterdec.Ir.Partition.{Ascends, keep_none, first_leader}
use flutterdec.Ir.Targets.{parse_target_hex}

-- Control does not pass on to the next instruction, or not only.
abbrev pub ends_block : IrOp → Bool
ends_block branch = true
ends_block jump = true
ends_block return = true
ends_block call = false
ends_block load_pool = false
ends_block runtime_check = false
ends_block other = false

-- Only the last instruction ends the block.
abbrev pub IsStraight : List LlirInstr → Type 0
IsStraight [] = Unit
IsStraight (i ∷ []) = Unit
IsStraight (i ∷ j ∷ is) = (ends_block i.op ≡ false) × IsStraight (j ∷ is)

-- The instruction after one that ends a block is a leader.
next_is_leader :
    (op : IrOp) (target : Text) (j : LlirInstr) (is : List LlirInstr)
    → ends_block op ≡ true
    → Memᴰ j.va (leaders_of op target (j ∷ is))
unfolding leaders_of
next_is_leader branch target j is h =
    Memᴰ.append_right (to_list (parse_target_hex target)) (Memᴰ.head refl)
next_is_leader jump target j is h =
    Memᴰ.append_right (to_list (parse_target_hex target)) (Memᴰ.head refl)
next_is_leader return target j is h = Memᴰ.head refl
next_is_leader call target j is h = absurd (cc)
next_is_leader load_pool target j is h = absurd (cc)
next_is_leader runtime_check target j is h = absurd (cc)
next_is_leader other target j is h = absurd (cc)

-- Each instruction after one that ends a block is a leader.
abbrev IsLed : List ℕ → List LlirInstr → Type 0
IsLed leaders [] = Unit
IsLed leaders (i ∷ []) = Unit
IsLed leaders (i ∷ j ∷ is) = (ends_block i.op ≡ true → Memᴰ j.va leaders) × IsLed leaders (j ∷ is)

led :
    (leaders : List ℕ) (llir : List LlirInstr)
    → ((x : ℕ) → Memᴰ x (leaders_from llir) → Memᴰ x leaders)
    → IsLed leaders llir
unfolding leaders_from
led leaders [] h = tt
led leaders (i ∷ []) h = tt
led leaders (i ∷ j ∷ is) h = (
  λ e. h j.va (Memᴰ.append_left (leaders_from (j ∷ is)) (next_is_leader i.op i.target j is e)),
  led leaders (j ∷ is) (λ x m. h x (Memᴰ.append_right (leaders_of i.op i.target (j ∷ is)) m)),
)

IsStraight-cons :
    (i : LlirInstr) (is : List LlirInstr)
    → ends_block i.op ≡ false
    → IsStraight is
    → IsStraight (i ∷ is)
IsStraight-cons i [] e h = tt
IsStraight-cons i (j ∷ is) e h = (e, h)

-- A range without a leader inside it holds a straight run of instructions.
IsStraight-range :
    (s e : ℕ) (leaders : List ℕ) (llir : List LlirInstr)
    → ((x : ℕ) → Memᴰ x leaders → s < x → e ≤ x)
    → Ascends llir
    → IsLed leaders llir
    → IsStraight (keep (in_range s e) llir)
IsStraight-range s e leaders [] between a l = tt
IsStraight-range s e leaders (i ∷ []) between a l = elim (Bool-cases (in_range s e i)) [
  | inl on ↦ rw on tt
  | inr off ↦ rw off tt
]
IsStraight-range s e leaders (i ∷ j ∷ is) between a l =
    let ih = IsStraight-range s e leaders (j ∷ is) between a.1 l.1 in
    elim (Bool-cases (in_range s e i)) [
      | inr off ↦ rw off ih
      | inl on ↦ elim (Bool-cases (ends_block i.op)) [
        | inr plain ↦ rw on (IsStraight-cons i (keep (in_range s e) (j ∷ is)) plain ih)
        | inl ends ↦
            let less : i.va < j.va = a.0.0 in
            let after : e ≤ j.va = between j.va (l.0 ends) (ground arith) in
            let rest : All (λ (k : LlirInstr). e ≤ k.va) is =
              All-map {P = λ (k : LlirInstr). j.va < k.va} {Q = λ (k : LlirInstr). e ≤ k.va} is
                (λ k more. omega arith) a.1.0 in
            let nothing : keep (in_range s e) (j ∷ is) ≡ [] =
              keep_none s e (j ∷ is) (after, rest) in
            rw on (subst (λ (t : List LlirInstr). IsStraight (i ∷ t)) (sym nothing) tt)
      ]
    ]

abbrev AllStraight : List BasicBlock → Type 0
AllStraight bs = All (λ (b : BasicBlock). IsStraight b.instrs) bs

straight_push :
    (id start : ℕ) (is : List LlirInstr) (rest : ℕ → List BasicBlock)
    → IsStraight is
    → ((i : ℕ) → AllStraight (rest i))
    → AllStraight (push_block id start is rest)
straight_push id start [] rest h k = k id
straight_push id start (i ∷ is) rest h k = (h, k (suc id))

straight_split :
    (leaders : List ℕ) (llir : List LlirInstr) (s : ℕ) (ls : List ℕ) (id : ℕ)
    → ((x : ℕ) → Memᴰ x leaders → s < x → Memᴰ x ls)
    → IsAscending (s ∷ ls)
    → Ascends llir
    → IsLed leaders llir
    → AllStraight (split_blocks llir (s ∷ ls) id)
unfolding split_blocks
straight_split leaders llir s [] id later up a l =
    straight_push id s (keep (in_range s (u64_mod - 1)) llir) (λ i. [])
      (IsStraight-range s (u64_mod - 1) leaders llir
        (λ x m less. absurd (Memᴰ.not-nil (later x m less))) a l)
      (λ i. tt)
straight_split leaders llir s (e ∷ ls) id later up a l =
    let step = ltb→lt s e up.0.0 in
    straight_push id s (keep (in_range s e) llir) (λ i. split_blocks llir (e ∷ ls) i)
      (IsStraight-range s e leaders llir
        (λ x m less. elim (Memᴰ.cases_cons (later x m less)) [
          | inl q ↦ omega arith
          | inr t ↦
              let above = ltb→lt e x (All-mem (λ z. ltb e z ≡ true) ls up.1.0 t) in omega arith
        ])
        a l)
      (λ i.
        straight_split leaders llir e ls i
          (λ x m less. elim (Memᴰ.cases_cons (later x m (omega arith))) [
            | inl q ↦ absurd (omega arith)
            | inr t ↦ t
          ])
          up.1 a l)

straight_link : (blocks bs : List BasicBlock) → AllStraight bs → AllStraight (link blocks bs)
unfolding link
straight_link blocks [] h = tt
straight_link blocks (b ∷ bs) h = (h.0, straight_link blocks bs h.1)

-- A branch, a jump or a return is the last instruction of its block, when the addresses ascend.
pub linked_blocks-IsStraight :
    (llir : List LlirInstr) (b : BasicBlock)
    → Ascends llir
    → Memᴰ b (linked_blocks llir)
    → IsStraight b.instrs
unfolding linked_blocks leader_vec
linked_blocks-IsStraight [] b a m = absurd (Memᴰ.not-nil m)
linked_blocks-IsStraight (i ∷ is) b a m =
    let all_of = i.va ∷ leaders_from (i ∷ is) in
    let (s, ls, e, up, _) = first_leader i is in
    let blocks = split_blocks (i ∷ is) (leader_vec (i ∷ is)) 0 in
    let is_leader : (x : ℕ) → Memᴰ x (leaders_from (i ∷ is)) → Memᴰ x (leader_vec (i ∷ is)) =
      λ x k. (mem-dedup x (sort all_of)).1 ((mem-sort x all_of).1 (Memᴰ.tail k)) in
    let straight : AllStraight (split_blocks (i ∷ is) (s ∷ ls) 0) =
      straight_split (leader_vec (i ∷ is)) (i ∷ is) s ls 0
        (λ x k less. elim (Memᴰ.cases_cons (rw e at k)) [
          | inl q ↦ absurd (omega arith)
          | inr t ↦ t
        ])
        up a (led (leader_vec (i ∷ is)) (i ∷ is) is_leader) in
    let all_straight : AllStraight blocks =
      subst (λ (v : List ℕ). AllStraight (split_blocks (i ∷ is) v 0)) (sym e) straight in
    All-mem (λ (c : BasicBlock). IsStraight c.instrs) (link blocks blocks)
      (straight_link blocks blocks all_straight) m
