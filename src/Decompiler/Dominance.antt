-- ===== src/Decompiler/Dominance.antt =====
-- crates/flutterdec-decompiler/src/control_flow/regions.rs: `dominators` and
-- `immediate_post_dominators`. A set of blocks is the list of its members; two sets are compared by
-- what they contain. The two functions share their iteration: a list of blocks to refine, in order,
-- and the edges along which a block's set is met.
pub mod Iteration
pub mod Rounds
pub mod BlockLists
pub mod Dominators
pub mod PostDominators
pub mod Nearest
pub mod Escaping
pub mod FollowNodes
use flutterdec.Common.{
  ◌==◌, contains, all, keep, is_empty, ltb, leb, nat_eq, if◌then◌else◌, ℕ, zero, suc, ◌*◌, Bool,
  true, false, not, ◌&&◌, ◌||◌, Option, none, some, List, ◌∷◌, ◌++◌, [], ℕ_eq, List_eq, Option_eq,
  ℕ_order, Text_order, length, Eq,
}
use flutterdec.Decompiler.Regions.{Edges, put}

abbrev pub range : ℕ → List ℕ
range zero = []
range (suc k) = range k ++ k ∷ []

-- `a == b`, for sets.
abbrev pub same_set : List ℕ → List ℕ → Bool
same_set a b = all (contains b) a && all (contains a) b

-- `new.insert(u)`.
abbrev pub set_insert : ℕ → List ℕ → List ℕ
set_insert u s = if contains s u then s else u ∷ s

-- `acc.intersection(&b)`.
abbrev pub intersection : List ℕ → List ℕ → List ℕ
intersection acc b = keep (contains b) acc

-- The rounds of the loop over the neighbours after the first one.
unfoldable pub meet_from : List ℕ → List ℕ → Edges → List ℕ
meet_from acc [] dom = acc
meet_from acc (p ∷ ps) dom = meet_from (intersection acc (dom p)) ps dom

-- That loop, and `unwrap_or_default`.
unfoldable pub meet : List ℕ → Edges → List ℕ
unfolding meet_from
meet [] dom = []
meet (p ∷ ps) dom = meet_from (dom p) ps dom

unfoldable pub refined : Edges → Edges → ℕ → List ℕ
unfolding meet
refined neighbours dom u = set_insert u (meet (neighbours u) dom)

-- The body of the `for` loop for one block.
unfoldable pub refine_one : Edges → ℕ → Edges × Bool → Edges × Bool
unfolding refined
refine_one neighbours u (dom, changed) =
    if same_set (refined neighbours dom u) (dom u)
    then (dom, changed)
    else (put dom u (refined neighbours dom u), true)

-- One round of the `while changed` loop.
unfoldable pub pass : Edges → List ℕ → Edges × Bool → Edges × Bool
unfolding refine_one
pass neighbours [] state = state
pass neighbours (u ∷ us) state = pass neighbours us (refine_one neighbours u state)

-- The `while changed` loop; `none` when the fuel runs out.
unfoldable pub iterate : ℕ → Edges → List ℕ → Edges → Option Edges
unfolding pass
iterate zero neighbours order dom = none
iterate (suc fuel) neighbours order dom =
    let rest = iterate fuel neighbours order (pass neighbours order (dom, false)).0 in
    if (pass neighbours order (dom, false)).1
    then rest
    else some (pass neighbours order (dom, false)).0

-- `(0..n).filter(|i| reachable[*i])`.
abbrev pub all_blocks : ℕ → List ℕ → List ℕ
all_blocks n reachable = keep (contains reachable) (range n)

-- The set that every block starts with: all the blocks, or none if it is not reachable.
abbrev pub start_sets : ℕ → List ℕ → Edges
start_sets n reachable i = if contains reachable i then all_blocks n reachable else []

-- A round that changes anything takes a block out of a set.
abbrev pub rounds : ℕ → ℕ
rounds n = suc (n * n)

-- The blocks of `1..n` that are reachable are refined in ascending order.
unfoldable pub dominators : ℕ → Edges → List ℕ → Option Edges
unfolding iterate
dominators n preds reachable =
    iterate (rounds n) preds (keep (λ u. not (nat_eq u 0)) (all_blocks n reachable))
      (put (start_sets n reachable) 0 (0 ∷ []))

-- `xs.is_empty()`.
abbrev pub is_nil : List ℕ → Bool
is_nil [] = true
is_nil (x ∷ xs) = false

-- `for &e in &exits { pdom[e] = HashSet::from([e]) }`.
unfoldable pub put_exits : List ℕ → Edges → Edges
put_exits [] sets = sets
put_exits (e ∷ es) sets = put_exits es (put sets e (e ∷ []))

-- `(0..n).rev()`.
abbrev pub backwards : ℕ → List ℕ
backwards zero = []
backwards (suc k) = k ∷ backwards k

abbrev pub is_exit : Edges → ℕ → Bool
is_exit succs i = is_nil (succs i)

abbrev pub exits : ℕ → Edges → List ℕ → List ℕ
exits n succs reachable = keep (is_exit succs) (all_blocks n reachable)

-- The blocks that the `for` loop does not skip.
abbrev pub inner_blocks : ℕ → Edges → List ℕ → List ℕ
inner_blocks n succs reachable =
    keep (λ u. not (is_exit succs u)) (keep (contains reachable) (backwards n))

abbrev pub reachable_succs : Edges → List ℕ → Edges
reachable_succs succs reachable u = keep (contains reachable) (succs u)

unfoldable pub post_dominators : ℕ → Edges → List ℕ → Option Edges
unfolding iterate put_exits
post_dominators n succs reachable =
    iterate (rounds n) (reachable_succs succs reachable) (inner_blocks n succs reachable)
      (put_exits (exits n succs reachable) (start_sets n reachable))

-- `HashSet::len`: a member counts once.
unfoldable pub size : List ℕ → ℕ
size [] = 0
size (x ∷ xs) = let rest = size xs in if contains xs x then rest else suc rest

-- The key of `max_by_key`: a larger set first, then a smaller index.
abbrev pub is_nearer : Edges → ℕ → ℕ → Bool
is_nearer pdom p q =
    ltb (size (pdom q)) (size (pdom p)) || (nat_eq (size (pdom q)) (size (pdom p)) && leb p q)

abbrev pub nearest_of : Edges → ℕ → Option ℕ → ℕ
nearest_of pdom p none = p
nearest_of pdom p (some q) = if is_nearer pdom p q then p else q

-- `max_by_key`, from the end of the list.
unfoldable pub nearest : Edges → List ℕ → Option ℕ
nearest pdom [] = none
nearest pdom (p ∷ ps) = some (nearest_of pdom p (nearest pdom ps))

-- The closure of the last `map`.
abbrev pub follow_node : Edges → List ℕ → ℕ → Option ℕ
follow_node pdom reachable u =
    if contains reachable u then nearest pdom (keep (λ p. not (nat_eq p u)) (pdom u)) else none

abbrev pub follow_nodes : List ℕ → Option Edges → Option (ℕ → Option ℕ)
follow_nodes reachable none = none
follow_nodes reachable (some pdom) = some (follow_node pdom reachable)

unfoldable pub immediate_post_dominators : ℕ → Edges → List ℕ → Option (ℕ → Option ℕ)
unfolding post_dominators nearest
immediate_post_dominators n succs reachable =
    follow_nodes reachable (post_dominators n succs reachable)
