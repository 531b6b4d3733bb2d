-- ===== src/Ir/Keeping.antt =====
-- crates/flutterdec-ir/src/lib.rs: which blocks `build_function_ir` keeps.
use mathlib.Core.List.Memᴰ
use flutterdec.Common.{
  contains, length, get_elem?, All, keep, if◌then◌else◌, Bool-cases, some_injective, ℕ, zero, suc,
  ◌+◌, ◌<◌, ◌≡◌, refl, sym, ap, ◌∙◌, ◌↔◌, inl, inr, Bool, true, false, not, ◌&&◌, Option, none,
  some, List, ◌∷◌, ◌++◌, Memᴰ, arith, [], ℕ_eq, List_eq, Option_eq, ℕ_order, Text_order,
}
use flutterdec.Decompiler.Regions.Reach.{Leads, reachable_iff}
use flutterdec.Ir.Instructions.{LlirInstr}
use flutterdec.Ir.Splitting.{
  BasicBlock, block_end, in_range, push_block, split_blocks, link, guard_targets, edges_of,
  reach_edges, reach, kept_from,
}
use flutterdec.Ir.Numbering.{positions-lt, ℕ-cases}

pub get-lt :
    {A : Type 0} (xs : List A) (i : ℕ) (x : A) → get_elem? xs i ≡ some x → i < length xs × Memᴰ x xs
get-lt [] i x e = absurd (cc)
get-lt (y ∷ ys) zero x e = (omega arith, Memᴰ.head (some_injective (sym e)))
get-lt (y ∷ ys) (suc i) x e = let (l, m) = get-lt ys i x e in (omega arith, Memᴰ.tail m)

pub lt-get :
    {A : Type 0} (xs : List A) (i : ℕ) → i < length xs → (x : A) × (get_elem? xs i ≡ some x)
lt-get [] i l = absurd (omega arith)
lt-get (y ∷ ys) zero l = (y, refl)
lt-get (y ∷ ys) (suc i) l = lt-get ys i (omega arith)

pub mem-get : {A : Type 0} (xs : List A) (x : A) → Memᴰ x xs → (i : ℕ) × (get_elem? xs i ≡ some x)
mem-get [] x m = absurd (Memᴰ.not-nil m)
mem-get (y ∷ ys) x m = elim (Memᴰ.cases_cons m) [
  | inl e ↦ (0, ap some (sym e))
  | inr t ↦ let (i, e) = mem-get ys x t in (suc i, e)
]

abbrev pub NoPreds : List BasicBlock → Type 0
NoPreds bs = All (λ (b : BasicBlock). b.preds ≡ []) bs

push-NoPreds :
    (id start : ℕ) (ins : List LlirInstr) (rest : ℕ → List BasicBlock)
    → ((i : ℕ) → NoPreds (rest i))
    → NoPreds (push_block id start ins rest)
push-NoPreds id start [] rest h = h id
push-NoPreds id start (x ∷ xs) rest h = (refl, h (suc id))

pub split-NoPreds :
    (llir : List LlirInstr) (ls : List ℕ) (id : ℕ) → NoPreds (split_blocks llir ls id)
unfolding split_blocks
split-NoPreds llir [] id = tt
split-NoPreds llir (start ∷ rest) id =
    push-NoPreds id start (keep (in_range start (block_end rest)) llir)
      (λ i. split_blocks llir rest i) λ i. split-NoPreds llir rest i

pub link-NoPreds : (blocks bs : List BasicBlock) → NoPreds bs → NoPreds (link blocks bs)
unfolding link
link-NoPreds blocks [] h = tt
link-NoPreds blocks (b ∷ bs) h = (h.0, link-NoPreds blocks bs h.1)

-- A block is dropped: the entry leads to it with the edges of the elided checks, and not without.
unfoldable pub IsDropped : List BasicBlock → ℕ → Type 0
IsDropped blocks i = Leads (reach_edges blocks true) 0 i × (¬ Leads (reach_edges blocks false) 0 i)

-- The test on the two vectors of flags.
abbrev pub skips : List ℕ → List ℕ → ℕ → Bool
skips a w i = contains a i && not (contains w i)

pub mem-kept_from :
    (a w : List ℕ) (k : ℕ) (bs : List BasicBlock) (b : BasicBlock)
    → Memᴰ b (kept_from a w k bs)
      ↔ ((i : ℕ) × (get_elem? bs i ≡ some b) × (skips a w (k + i) ≡ false))
unfolding kept_from
mem-kept_from a w k [] b = (λ m. absurd (Memᴰ.not-nil m), λ (i, e, h). absurd (cc))
mem-kept_from a w k (c ∷ cs) b =
    let ih = mem-kept_from a w (suc k) cs b in
    let later : (i : ℕ) → skips a w (suc k + i) ≡ skips a w (k + suc i) =
      λ i. ap (skips a w) (omega arith) in
    let now : skips a w (k + 0) ≡ skips a w k = ap (skips a w) (omega arith) in
    elim (Bool-cases (skips a w k)) [
      | inl skip ↦ rw skip (
        λ m. let (i, e, h) = ih.0 m in (suc i, e, sym (later i) ∙ h),
        λ (i, e, h). elim (ℕ-cases i) [
          | inl z ↦ absurd (let h0 = rw z at h in cc)
          | inr (j, z) ↦ ih.1 (j, rw z at e, later j ∙ rw z at h)
        ],
      )
      | inr take_it ↦ rw take_it (
        λ m. elim (Memᴰ.cases_cons m) [
          | inl e ↦ (0, ap some (sym e), now ∙ take_it)
          | inr t ↦ let (i, e, h) = ih.0 t in (suc i, e, sym (later i) ∙ h)
        ],
        λ (i, e, h). elim (ℕ-cases i) [
          | inl z ↦ Memᴰ.head (some_injective (sym (rw z at e)))
          | inr (j, z) ↦ Memᴰ.tail (ih.1 (j, rw z at e, later j ∙ rw z at h))
        ],
      )
    ]

edges_of-lt :
    (blocks : List BasicBlock) (extra : Bool) (o : Option BasicBlock) (v : ℕ)
    → Memᴰ v (edges_of blocks extra o)
    → v < length blocks
unfolding edges_of
edges_of-lt blocks extra none v m = absurd (Memᴰ.not-nil m)
edges_of-lt blocks extra (some b) v m =
    positions-lt blocks (b.succs ++ (if extra then guard_targets blocks b.instrs else [])) v m

pub reach_iff :
    (b : BasicBlock) (bs : List BasicBlock) (extra : Bool)
    → (out : List ℕ) × (reach (b ∷ bs) extra ≡ some out)
      × ((v : ℕ) → Memᴰ v out ↔ Leads (reach_edges (b ∷ bs) extra) 0 v)
unfolding reach
reach_iff b bs extra =
    reachable_iff (length (b ∷ bs)) (reach_edges (b ∷ bs) extra) (omega arith)
      (λ u v m. edges_of-lt (b ∷ bs) extra (get_elem? (b ∷ bs) u) v m)
