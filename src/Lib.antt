-- ===== src/Lib.antt =====
-- flutterdec reads a Flutter app for Android and writes Dart-like pseudocode. What it knows of a
-- snapshot's classes, functions and object pool comes from an adapter, a separate program that is
-- given a request and answers with a result and a program model. This library models the part of
-- flutterdec that decides what to believe: which snapshots may select an adapter exactly, what
-- crosses the boundary to the adapter, and which models the host accepts; and the first steps of
-- the decompiler proper, from the instructions of a function to its blocks and from the blocks to
-- the facts that structuring works from.
--
-- The parts, and where they are:
--   Loader/Identity models crates/flutterdec-loader/src/identity.rs. `parse_features` is
--     `FeatureEvidence::parse`, `exact_selection_key` the gate of the same name. Its children are
--     about the normal form of feature strings (Features) and the gate (Gate). Loader/Equality has the
--     derived equalities.
--   Loader/Registry models crates/flutterdec-loader/src/registry.rs: `validate_record` and
--     `validate_registry` are `validate` of the record and the registry, `select_key` the exact
--     selection. Its child Selection is about what is selected.
--   Adapter/Primitives models crates/flutterdec-adapter/src/primitives.rs: `parse_digest` and
--     `parse_path` are `Sha256Digest::parse` and `RelativePath::parse`. Primitives/Containment
--     resolves a path component by component, as a file system does, and compares.
--   Adapter/Model models the types, lookups and address arithmetic of
--     crates/flutterdec-adapter/src/model.rs. A type that is shared by the documents and the checks
--     is declared there once; Model/Geometry is about the arithmetic, and Model/Reading is
--     `ProgramModel::from_json`.
--   Adapter/Protocol models crates/flutterdec-adapter/src/protocol.rs: Documents has the types and
--     constructors, Validation the checks (`validate_request`, `validate_result`,
--     `validate_against`), Wire the reading of a document.
--   Adapter/Validate models crates/flutterdec-adapter/src/validate.rs. `validate` runs the checks
--     in order; each check is a function of the source's name, in Regions, HostFacts, Names,
--     Records, Hierarchy, Claims and Addresses. For each there is a module that says what an
--     accepted model satisfies (RegionTable, HostAgreement, Naming, Confidences, Identifiers,
--     References with Acyclic, Honesty with Claimed and Explained, PoolLayout, CodeSafety); Accepted puts them
--     together and Guarantees draws what a consumer relies on.
--   Ir models crates/flutterdec-ir/src/lib.rs: Targets is `parse_target_hex`, Instructions
--     `stack_overflow_check_at` and `llir_from_disasm`, Splitting the rest of `build_function_ir`
--     with a function for each of its loops, and Functions the records around it. Numbering,
--     Keeping and Dropping are about the blocks that are returned, Partition and Terminators about
--     how the instructions are split, Collecting and Coverage about which instructions are in the
--     blocks that are returned.
--   Decompiler models crates/flutterdec-decompiler/src/control_flow/regions.rs. Regions is the first
--     part of `Regions::build`: the successors, the search for what the entry leads to, and the
--     predecessors; its children are about the search (Reach), the predecessors
--     (Predecessors) and their order (Ascending), the edges of the blocks (BlockEdges) and the
--     graph (Graph). Dominance is `dominators` and `immediate_post_dominators`,
--     with the shared iteration (Iteration, Rounds), Loops is `natural_loops`, Irreducible is
--     `is_irreducible`, and Build puts them together. FromIr feeds the blocks of Ir to Build.
--   Common has the results (`Check` is a result without a value, `Result<(), E>`), texts as lists
--     of code points with their UTF-8 bytes, sets as lists in insertion order, sorting, and 64-bit
--     floats as their bits. Tests has concrete documents and the theorems applied to them.
--
-- How code becomes definitions. A function that returns early by `?` or `return Err` is a do block
-- of checks. A `BTreeSet` that is inserted into by a loop is the list of what was inserted, and the
-- loop is `insert_all`. Numbers are unbounded, and every addition or multiplication that the code
-- checks is checked against 2 ^ 64. `Unit` is the value `()`.
--
-- Fuel. The loops that are not over a list are given these rounds. The walk up the superclass edges
-- in `check_references`, `walks_back`, has two more than there are classes: each round but the last
-- two visits a class that was not visited before. The search for reachable blocks, `search`, has
-- one more than there are blocks: each round but the last takes a block from the stack, and a block
-- is pushed once. The refinement of dominators, `iterate`, has the square of the number of blocks
-- and one: each round but the last takes a block out of a set. The collection of a loop, `collect`,
-- has two more than there are edges, and the depth-first search `run` one more than there are edges
-- and blocks. So none runs out, whatever the edges are.
--
-- Parameters. The JSON library is the record `Json`, or `ModelJson` for a model: how bytes become
-- a value, how an integer field is read, how a value becomes a document. The type of a model's
-- extensions is a parameter, since no check reads them. The SHA-256 of bytes, in hexadecimal, is a
-- parameter of the registry.
--
-- Not modelled: the text of error messages, serde's derived impls, the JSON Schema of the model,
-- the SHA-256 of bytes, processes and the file system, and the parts of the program that read ELF
-- files, disassemble and write pseudocode.
pub mod Common
pub mod Loader
pub mod Adapter
pub mod Ir
pub mod Decompiler
mod Tests
