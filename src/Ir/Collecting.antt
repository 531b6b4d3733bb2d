-- ===== src/Ir/Collecting.antt =====
-- crates/flutterdec-ir/src/lib.rs: the instructions of the blocks of `build_function_ir`, one block
-- after the other, through each of its steps.
use mathlib.Core.List.Memᴰ
use flutterdec.Common.{
  get_elem?, All, All-map, All-mem, Bool-cases, some_injective, ℕ, zero, suc, ◌<◌, ◌≡◌, refl, sym,
  ap, ◌∙◌, subst, ◌↔◌, inl, inr, Option, none, some, List, ◌∷◌, ◌++◌, Memᴰ, arith, [], ℕ_eq,
  List_eq, Option_eq, ℕ_order, Text_order,
}
use flutterdec.Ir.Instructions.{LlirInstr}
use flutterdec.Ir.Splitting.{BasicBlock, kept_from, renumber, fill_preds, finish, dropped}
use flutterdec.Ir.Keeping.{skips}
use flutterdec.Ir.Partition.{Ascends, collected}

All-append :
    (P : LlirInstr → Type 0) (xs ys : List LlirInstr) → All P (xs ++ ys) ↔ (All P xs × All P ys)
All-append P [] ys = (λ h. (tt, h), λ h. h.1)
All-append P (x ∷ xs) ys = ground (arith, All-append P xs ys)

abbrev After : List LlirInstr → LlirInstr → Type 0
After ys x = All (λ (y : LlirInstr). x.va < y.va) ys

Ascends-append :
    (xs ys : List LlirInstr) → Ascends (xs ++ ys) ↔ (Ascends xs × Ascends ys × All (After ys) xs)
Ascends-append [] ys = (λ h. (tt, h, tt), λ h. h.1)
Ascends-append (x ∷ xs) ys =
    let ih = Ascends-append xs ys in
    let both = All-append (λ (y : LlirInstr). x.va < y.va) xs ys in ground (arith, ih, both)

pub mem-collected :
    (bs : List BasicBlock) (x : LlirInstr)
    → Memᴰ x (collected bs)
      ↔ ((i : ℕ) × (b : BasicBlock) × (get_elem? bs i ≡ some b) × Memᴰ x b.instrs)
mem-collected [] x = (λ m. absurd (Memᴰ.not-nil m), λ (i, b, at, m). absurd (cc))
mem-collected (b ∷ bs) x =
    let ih = mem-collected bs x in
    (
      λ m. elim (Memᴰ.append_cases b.instrs m) [
        | inl h ↦ (0, b, refl, h)
        | inr t ↦ let (i, c, at, h) = ih.0 t in (suc i, c, at, h)
      ],
      λ (i, c, at, h). in_collected b bs x i c at h ih.1,
    )
  where
    in_collected :
        (b : BasicBlock) (bs : List BasicBlock) (x : LlirInstr) (i : ℕ) (c : BasicBlock)
        → get_elem? (b ∷ bs) i ≡ some c
        → Memᴰ x c.instrs
        → (((j : ℕ) × (d : BasicBlock) × (get_elem? bs j ≡ some d) × Memᴰ x d.instrs)
            → Memᴰ x (collected bs))
        → Memᴰ x (collected (b ∷ bs))
    in_collected b bs x zero c at h later =
        Memᴰ.append_left (collected bs)
          (subst (λ (d : BasicBlock). Memᴰ x d.instrs) (sym (some_injective at)) h)
    in_collected b bs x (suc i) c at h later = Memᴰ.append_right b.instrs (later (i, c, at, h))

-- Where the instructions ascend, an instruction of the first block is in no later one.
first_apart :
    (d : BasicBlock) (ds : List BasicBlock) (x : LlirInstr) (j : ℕ) (b c : BasicBlock)
    → Ascends (collected (d ∷ ds))
    → some d ≡ some b
    → Memᴰ x b.instrs
    → get_elem? ds j ≡ some c
    → ¬ Memᴰ x c.instrs
first_apart d ds x j b c h at m at' m' =
    let (_, _, apart) = (Ascends-append d.instrs (collected ds)).0 h in
    let later = (mem-collected ds x).1 (j, c, at', m') in
    let here : Memᴰ x d.instrs =
      subst (λ (e : BasicBlock). Memᴰ x e.instrs) (sym (some_injective at)) m in
    let before = All-mem (After (collected ds)) d.instrs apart here in
    omega (arith, All-mem (λ (y : LlirInstr). x.va < y.va) (collected ds) before later)

-- An instruction is then in one block only.
pub one_block :
    (bs : List BasicBlock) (x : LlirInstr) (i j : ℕ) (b c : BasicBlock)
    → Ascends (collected bs)
    → get_elem? bs i ≡ some b
    → Memᴰ x b.instrs
    → get_elem? bs j ≡ some c
    → Memᴰ x c.instrs
    → i ≡ j
one_block [] x i j b c h at m at' m' = absurd (cc)
one_block (d ∷ ds) x zero zero b c h at m at' m' = refl
one_block (d ∷ ds) x zero (suc j) b c h at m at' m' =
    absurd (first_apart d ds x j b c h at m at' m')
one_block (d ∷ ds) x (suc i) zero b c h at m at' m' =
    absurd (first_apart d ds x i c b h at' m' at m)
one_block (d ∷ ds) x (suc i) (suc j) b c h at m at' m' =
    let (_, rest, _) = (Ascends-append d.instrs (collected ds)).0 h in
    ap suc (one_block ds x i j b c rest at m at' m')

collected-renumber :
    (kept : List BasicBlock) (i : ℕ) (bs : List BasicBlock)
    → collected (renumber kept i bs) ≡ collected bs
unfolding renumber
collected-renumber kept i [] = refl
collected-renumber kept i (b ∷ bs) =
    ap (λ (t : List LlirInstr). b.instrs ++ t) (collected-renumber kept (suc i) bs)

collected-fill_preds :
    (blocks bs : List BasicBlock) → collected (fill_preds blocks bs) ≡ collected bs
unfolding fill_preds
collected-fill_preds blocks [] = refl
collected-fill_preds blocks (b ∷ bs) =
    ap (λ (t : List LlirInstr). b.instrs ++ t) (collected-fill_preds blocks bs)

collected-finish : (kept : List BasicBlock) → collected (finish kept) ≡ collected kept
unfolding finish
collected-finish kept =
    collected-fill_preds (renumber kept 0 kept) (renumber kept 0 kept)
    ∙ collected-renumber kept 0 kept

-- What holds of all instructions holds of those of the kept blocks.
All-kept_from :
    (P : LlirInstr → Type 0) (a w : List ℕ) (k : ℕ) (bs : List BasicBlock)
    → All P (collected bs)
    → All P (collected (kept_from a w k bs))
unfolding kept_from
All-kept_from P a w k [] h = tt
All-kept_from P a w k (b ∷ bs) h =
    let (here, later) = (All-append P b.instrs (collected bs)).0 h in
    let ih = All-kept_from P a w (suc k) bs later in
    elim (Bool-cases (skips a w k)) [
      | inl skip ↦ rw skip ih
      | inr keep_it ↦
          rw keep_it ((All-append P b.instrs (collected (kept_from a w (suc k) bs))).1 (here, ih))
    ]

Ascends-kept_from :
    (a w : List ℕ) (k : ℕ) (bs : List BasicBlock)
    → Ascends (collected bs)
    → Ascends (collected (kept_from a w k bs))
unfolding kept_from
Ascends-kept_from a w k [] h = tt
Ascends-kept_from a w k (b ∷ bs) h =
    let (here, later, apart) = (Ascends-append b.instrs (collected bs)).0 h in
    let ih = Ascends-kept_from a w (suc k) bs later in
    let still : All (After (collected (kept_from a w (suc k) bs))) b.instrs =
      All-map b.instrs (λ x. All-kept_from (λ (y : LlirInstr). x.va < y.va) a w (suc k) bs) apart in
    elim (Bool-cases (skips a w k)) [
      | inl skip ↦ rw skip ih
      | inr keep_it ↦
          rw keep_it
            ((Ascends-append b.instrs (collected (kept_from a w (suc k) bs))).1 (here, ih, still))
    ]

pub Ascends-dropped :
    (blocks : List BasicBlock) (a w : Option (List ℕ)) (out : List BasicBlock)
    → dropped blocks a w ≡ some out
    → Ascends (collected blocks)
    → Ascends (collected out)
Ascends-dropped blocks none w out e h = absurd (cc)
Ascends-dropped blocks (some a) none out e h = absurd (cc)
Ascends-dropped blocks (some a) (some w) out e h =
    let kept = kept_from a w 0 blocks in
    subst (λ bs. Ascends (collected bs)) (some_injective e)
      (subst Ascends (sym (collected-finish kept)) (Ascends-kept_from a w 0 blocks h))
