-- ===== src/Decompiler/Loops.antt =====
-- crates/flutterdec-decompiler/src/control_flow/regions.rs: `natural_loops`. The map from a header to
-- the body of its loop is a function of the header.
pub mod Collect
pub mod Sources
pub mod Bodies
pub mod Exits
use flutterdec.Common.{
  contains, length, keep, sort, dedup, nat_eq, if◌then◌else◌, is_some, ℕ, zero, suc, ◌+◌, Bool,
  false, not, Option, none, some, List, ◌∷◌, ◌++◌, map, [], ℕ_eq, List_eq, Option_eq, ℕ_order,
  Text_order, Eq,
}
use flutterdec.Decompiler.Regions.{Edges, BlockGraph}

-- `HashMap<usize, HashSet<usize>>`.
abbrev pub Bodies : Type 0
Bodies = ℕ → Option (List ℕ)

-- The loop over `preds[x]`.
unfoldable pub push_others : ℕ → List ℕ → List ℕ → List ℕ
push_others h [] stack = stack
push_others h (p ∷ ps) stack = push_others h ps (if nat_eq p h then stack else p ∷ stack)

-- The body of the `while` loop, for the block that is popped.
unfoldable pub take_block : Edges → ℕ → ℕ → List ℕ × List ℕ → List ℕ × List ℕ
unfolding push_others
take_block preds h x (body, stack) =
    if contains body x then (body, stack) else (x ∷ body, push_others h (preds x) stack)

-- `while let Some(x) = stack.pop()`; `none` when the fuel runs out.
unfoldable pub collect : ℕ → Edges → ℕ → List ℕ × List ℕ → Option (List ℕ)
unfolding take_block
collect zero preds h state = none
collect (suc fuel) preds h (body, []) = some body
collect (suc fuel) preds h (body, x ∷ stack) =
    collect fuel preds h (take_block preds h x (body, stack))

-- The number of edges into the blocks below `n` that are not in the body.
unfoldable pub pending : ℕ → Edges → List ℕ → ℕ
pending zero preds body = 0
pending (suc k) preds body =
    let rest = pending k preds body in if contains body k then rest else length (preds k) + rest

-- Each edge pushes one block at most, and the source of the back edge is pushed first.
abbrev pub collect_rounds : ℕ → Edges → ℕ
collect_rounds n preds = suc (suc (pending n preds []))

abbrev pub body_or : ℕ → Option (List ℕ) → List ℕ
body_or h none = h ∷ []
body_or h (some body) = body

abbrev pub put_body : Bodies → ℕ → Option (List ℕ) → Option Bodies
put_body bodies h none = none
put_body bodies h (some body) = some (λ j. if nat_eq j h then some body else bodies j)

-- The loop over `succs[u]`.
unfoldable pub add_loops : ℕ → Edges → Edges → ℕ → List ℕ → Option Bodies → Option Bodies
unfolding collect pending
add_loops n preds dom u [] bodies = bodies
add_loops n preds dom u (v ∷ vs) none = none
add_loops n preds dom u (v ∷ vs) (some bodies) = add_loops n preds dom u vs (
    if contains (dom u) v
    then put_body bodies v (collect (collect_rounds n preds) preds v (body_or v (bodies v), u ∷ []))
    else some bodies)

-- The loop `for u in 0..n`, on the blocks below `k`.
unfoldable pub loops_below : ℕ → ℕ → BlockGraph → Edges → Option Bodies
unfolding add_loops
loops_below n zero g dom = some (λ h. none)
loops_below n (suc u) g dom =
    let before = loops_below n u g dom in
    if contains g.reachable u then add_loops n g.preds dom u (g.succs u) before else before

-- `body.iter().flat_map(|&b| succs[b])`.
abbrev pub all_succs : Edges → List ℕ → List ℕ
all_succs succs [] = []
all_succs succs (b ∷ bs) = succs b ++ all_succs succs bs

abbrev pub exit_targets : Edges → List ℕ → List ℕ
exit_targets succs body = dedup (sort (keep (λ t. not (contains body t)) (all_succs succs body)))

-- `ipdom[h].filter(|f| !body.contains(f))`.
abbrev pub outside : List ℕ → Option ℕ → Option ℕ
outside body none = none
outside body (some f) = if contains body f then none else some f

-- The `match` on the targets.
abbrev pub chosen_exit : List ℕ → Option ℕ → List ℕ → Option ℕ
chosen_exit targets follow body = elim targets [
  | [] ↦ none
  | t ∷ ts ↦ elim ts [ [] ↦ some t | s ∷ ss ↦ outside body follow ]
]

abbrev pub follow_in : Edges → Option ℕ → Option (List ℕ) → Option (Option ℕ)
follow_in succs follow none = none
follow_in succs follow (some body) = some (chosen_exit (exit_targets succs body) follow body)

-- `follow.get(h)`.
abbrev pub loop_follow : Edges → (ℕ → Option ℕ) → Bodies → ℕ → Option (Option ℕ)
loop_follow succs ipdom bodies h = follow_in succs (ipdom h) (bodies h)

-- `Regions::is_loop_header` and `Regions::in_loop`.
abbrev pub is_loop_header : Bodies → ℕ → Bool
is_loop_header bodies h = is_some (bodies h)

abbrev pub in_body : Option (List ℕ) → ℕ → Bool
in_body none x = false
in_body (some body) x = contains body x

abbrev pub in_loop : Bodies → ℕ → ℕ → Bool
in_loop bodies h x = in_body (bodies h) x
