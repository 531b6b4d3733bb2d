-- ===== src/Decompiler/Irreducible.antt =====
-- crates/flutterdec-decompiler/src/control_flow/regions.rs: `is_irreducible`.
pub mod Forward
pub mod Stack
pub mod Search
use flutterdec.Common.{
  contains, get_elem?, keep, nat_eq, if◌then◌else◌, ℕ, zero, suc, Bool, true, false, not, Option,
  none, some, List, ◌∷◌, [], ℕ_eq, List_eq, Option_eq, ℕ_order, Text_order, Eq,
}
use flutterdec.Decompiler.Regions.{Edges, BlockGraph}
use flutterdec.Decompiler.Loops.{pending}

-- The variables of the search.
pub record SearchState : Type 0 where
  pub stack : List (ℕ × ℕ)
  pub seen : List ℕ
  pub on_stack : List ℕ

-- A round of the loop returns, or goes on.
pub data Round : Type 0 where
  returned : Bool → Round
  more : SearchState → Round

-- The branches for the edge from `u` to `v`, where `rest` is the stack with the next index of `u`.
unfoldable pub take_edge : BlockGraph → Edges → ℕ → ℕ → List (ℕ × ℕ) → SearchState → Round
take_edge g dom u v rest state =
    if not (contains g.reachable v)
    then more (record { stack = rest; seen = state.seen; on_stack = state.on_stack })
    else if contains state.on_stack v
    then if not (contains (dom u) v)
      then returned true
      else more (record { stack = rest; seen = state.seen; on_stack = state.on_stack })
    else if not (contains state.seen v)
    then more
        (record { stack = (v, 0) ∷ rest; seen = v ∷ state.seen; on_stack = v ∷ state.on_stack })
    else more (record { stack = rest; seen = state.seen; on_stack = state.on_stack })

-- `on_stack[u] = false`.
abbrev pub leave : ℕ → List ℕ → List ℕ
leave u on_stack = keep (λ w. not (nat_eq w u)) on_stack

-- One round for the entry that is popped, with its next successor.
unfoldable pub take_entry :
    BlockGraph → Edges → ℕ → ℕ → List (ℕ × ℕ) → SearchState → Option ℕ → Round
unfolding take_edge
take_entry g dom u idx rest state none =
    more (record { stack = rest; seen = state.seen; on_stack = leave u state.on_stack })
take_entry g dom u idx rest state (some v) = take_edge g dom u v ((u, suc idx) ∷ rest) state

unfoldable pub round : BlockGraph → Edges → List (ℕ × ℕ) → SearchState → Round
unfolding take_entry
round g dom [] state = returned false
round g dom ((u, idx) ∷ rest) state = take_entry g dom u idx rest state (get_elem? (g.succs u) idx)

abbrev pub after_round : Round → (SearchState → Option Bool) → Option Bool
after_round (returned b) go_on = some b
after_round (more next) go_on = go_on next

-- The loop; `none` when the fuel runs out.
unfoldable pub run : ℕ → BlockGraph → Edges → SearchState → Option Bool
unfolding round
run zero g dom state = none
run (suc fuel) g dom state =
    after_round (round g dom state.stack state) (λ next. run fuel g dom next)

-- Each block is entered once and left once, and each of its edges is taken once.
abbrev pub search_rounds : ℕ → Edges → ℕ
search_rounds n succs = suc (pending n (λ u. u ∷ succs u) [])

unfoldable pub is_irreducible : ℕ → BlockGraph → Edges → Option Bool
unfolding run pending
is_irreducible n g dom =
    run (search_rounds n g.succs) g dom
      (record { stack = (0, 0) ∷ []; seen = 0 ∷ []; on_stack = 0 ∷ [] })
