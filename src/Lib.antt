-- ===== src/Lib.antt =====
-- Multi-bit large-scale Boolean matching: two circuits, and a search for a matching of the inputs
-- and outputs of the second with those of the first under which the circuits compute the same.
--
-- The parts and how they interact. `Module` (src/Netlist.h) keeps each circuit as a heap of
-- nodes and simulates it: one pattern at a time in the `_signal` of its nodes, or 8192 patterns at a time
-- in `recordMap`. `miterOneOutputRandom` (src/miter.cpp) compares one output of circuit 2 with one of
-- circuit 1 under a matching of their inputs, by the word simulation.
-- The search (src/Matching.cpp) asks it for each output that it matches.
--
-- Base: helpers on Booleans, lists and results. A run of the code ends with a value, with the
-- message of `err` (which exits), in undefined behaviour, or out of fuel.
-- Gate: `Signal` and `Type` of src/Netlist.h, and the Boolean function that each gate type names.
-- Netlist: `Node` of src/Netlist.h, and the heap of nodes, where 0 is `NULL`.
-- Netlist.Registry: the constructor of `Module`, `AddNode`, `NameToNode` and `Connect` of src/Netlist.h, by which
-- src/Parser.cpp builds a netlist. Netlist.Bus: `setBus`. Netlist.Trace: `CollectPI`, `TraceInputs` and `Unique`.
-- Netlist.Simplify: `Simplification` and `Link` of src/Netlist.h, which `Parser` calls at the end of a module.
-- Netlist.Equation: `Operation` of src/Netlist.h, with `Term` and `TermCompare`.
-- Netlist.Signature: the end of `CountGate` of src/Netlist.h, which chooses the signature of each input.
-- Netlist.Meaning: the value of a node by the Boolean functions of its gates, and what a netlist
-- without a cycle is: its nodes in use have a positive rank, and the others are not read. It is no translation of code: the simulations are compared with it.
-- Netlist.Signals: `OutputValueBody`, `OutputValue`, `getSignal`, `InitInput`, `AssignBus` and
-- `AssignFlipValue` of src/Netlist.h.
-- Netlist.Words: `getResult`, `miterGetResult` and `miterRandomSimulate` of src/Netlist.h, with
-- `recordMap` as state that is passed on.
-- Miter: `miterOneOutputRandom` of src/miter.cpp.
-- Answer: `writePartialAns` of src/Matching.cpp, whose loops `main` (src/main.cpp) repeats, and
-- `writeOutput` of src/Output.h, with the answer file as a list of lines.
-- Matching.Filter: `filtLockedInput` of src/Matching.cpp, with ports as their indices and the vectors it
-- reads as functions from indices.
-- Matching.Next: `next_match` of src/Matching.cpp, which chooses the output that is matched next.
-- Matching.State: what the search of src/Matching.cpp reads, and the members of `Match` and the vectors that
-- it changes. Matching.Buses: the buses that it matches with each other.
-- Matching.Prepare: `assignFuncSupp`, `genPIinPO`, `genOutputMatch`, `genInputMatch`, `genInfo`,
-- `assign_output_to_inputBus` and `new_boolean_match` of src/Matching.cpp, with the sizes of buses read from the
-- lists of buses, where an index out of range is undefined behaviour.
-- Matching.BusMatch: `getBusSet`, `recur_match_bus` and `match_bus` of src/Matching.cpp, which fill
-- `bus_match_idx`, with `int` and `size_t` as numbers that wrap around.
-- Matching.Verify: `verifyResult` of src/Matching.cpp, with what it prints as a result.
-- Matching.Search: `match_output` and `match_input`, which call each other; the call of `match_output` for the
-- outputs that are left is an argument of the functions for `match_input`, and the comparison is a field of
-- what the search reads. Matching.Client: the comparison of Miter in its place.
-- Tests: small circuits, and the theorems at inputs that meet their hypotheses. Tests.Mapped builds a netlist and
-- simplifies it, as the parser does, for the word simulation.
--
-- Bounds and fuel. The simulations recurse along fan-ins, so the fuel bounds the depth: a bound above
-- the rank of each node of a netlist without a cycle is enough. A word is a function from
-- indices to bits, of which the indices below 8192 (`pnum`) are compared. The loops of the comparison
-- are structural in their number of rounds. The search is structural in the number of the outputs that are left.
--
-- Parameters. The results of `rand()` are a function from the number of the call, and the order in which
-- an `unordered_set` or an `unordered_map` is passed through is a function on lists that keeps the elements and their number.
-- So is `std::sort`, which may exchange equal elements; numbers that are in strict order it leaves as they are. What `abs` makes of an `int` less a `size_t` is a function of the two.
--
-- What is not modelled: the parser, the count of the gates on paths, how equations over buses are found and sorted, the
-- matching of initial answers, the miter that is written to a file for ABC and CaDiCaL, and printing.
mod Base
pub mod Gate
pub mod Netlist
pub mod Miter
pub mod Answer
pub mod Matching
mod Tests
