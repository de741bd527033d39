-- ===== src/Lib.antt =====
-- fastcopier: a deep-copy library for Go that works by reflection. A call chooses a plan for the
-- types of its destination and its source, keeps the plan in a cache, and runs it on the values.
-- This development models all of that: what a call reads of types, tags and options, how the plan
-- is chosen and built, the caches that it is kept in, its run over a memory, and the calls that
-- users make, over the state that calls share. It models the generator of copiers too, which writes
-- Go code for struct types, and what the code it writes does to memory.
--
-- The parts, and the code they stand for:
--   Base        shared names: equality by an instance, lists measured by native numbers,
--               dictionaries for Go's maps, and Outcome, the result of a Go function that returns
--               a value (ok) or an error (err), panics (panic), or runs past its fuel
--               (out_of_fuel).
--   GoTypes     package reflect as far as the library reads it. A type is a number, its identity;
--               the record Types says what each number describes, its name, its underlying type
--               and the interfaces it implements. It is a parameter of all that follows.
--   Errors      errors.go: sentinels, CopyError, the texts.
--   Fields      fields.go: applyTag (apply_tag), parseStructFields (parse_struct_fields),
--               parseNestedFields (parse_nested_fields). The pointers to fieldMeta that a field
--               shares with those promoted through it are the paths of their indices; `done` is
--               a set of paths (mark_done, is_done).
--   Flat        engine.go: scalarKinds, isFlatType, computeFlatType, with the memo as a state.
--   Cache       engine.go: planKey, shardedCache and simpleCache behind the interface planCache.
--               The address of the description of a type, which typeHash reads, is a parameter.
--   Context     fastcopier.go, and prepare and keyFor of engine.go: the options, the contexts that
--               the pools make and that reset puts back, the flags and keys.
--   Plan        the plans of plans.go and plan_*.go, as data.
--   Resolve     engine.go: resolvePlan (resolve_plan) with one function per helper, and the init
--               methods of plan_struct.go, plan_slice.go, plan_map.go, plan_map_to_struct.go,
--               plan_struct_to_map.go and plans.go. The state is the cache, behind its interface;
--               everything that is only read is in the record Env.
--   Store       Go's memory: values, places in blocks, and the heap.
--   Reflect     the values of package reflect over that memory, as far as plans use them: loading,
--               Set with its panics, Elem, Field, Index, maps; and the record Machine (below).
--   Execute     the Copy method of every plan: plans.go and plan_*.go (copy_plan, by copy_step),
--               with checkCircularRef (check_circular_ref), and fieldByIndexInit, fieldSetZero and
--               nilOnZeroValue of fields.go. The state is the memory, the cache and ctx.visited.
--   Entry       fastcopier.go and register.go: validateAndDeref, the pools, Copy, Merge, Clone, Map
--               (map_slice), Inspect (inspect_arguments), MustRegister, RegisterCopier, ClearCache,
--               over the record Process; with the proofs about them.
--   Resolution, Execution
--               the proofs about Resolve and about Execute; those about the other parts are
--               below each part.
--   Inspect     inspect.go: inspectPlan, inspectStructPlan, classifyPlan, fieldNameByIndex, and
--               InspectPlan.String (plan_text).
--   Generator   cmd/fastcopier-gen/main.go: the matching of fields (match_fields), the classes of
--               types (classify_type), the lines for a field (field_lines), the file (generate) and
--               the command (run_command). Package go/types is the record Universe; a type is a
--               number as in GoTypes. Code has the lines as statements with their text.
--   Generated   what the statements of generated copiers do to the memory of Store.
--   Gentest     internal/gentest: its types, and its copiers as such statements.
--   Tests       runs at concrete types, and the theorems applied to them.
--
-- How they interact: Resolve reads Fields and Flat, keeps plans by the keys of Context in any
-- PlanCache, and its theorems ask of that cache only the laws IsLawful, which both caches have.
-- What Generator prints for a field is the text of a statement (Generator.Code), Generated runs
-- the statement on the memory that Execute has, and a copier made of such statements is called by
-- Entry as a registered function.
--
-- Parameters: the order in which Go iterates over a map is a function on the entries (`range`,
-- `range_slims`); the theorems hold for every such function. The registry of custom copiers is a
-- function from two types to a copier. What a run takes from outside is the record Machine:
-- assignability, conversions, the number that a pointer is, the order of a map, and what a
-- registered function does to the memory; the record Runtime has the rest, with the choice that
-- sync.Pool makes. Execute takes the memory as Store has it: a value of a basic type other than
-- string is a number, and a map is iterated over the entries it has at the start.
--
-- Fuel: resolve_plan, is_flat_type and parse_nested_fields recurse on fuel, since types can refer
-- to themselves; match_fields and is_flat_go_type of the generator, and has_go_mod, do too. For
-- is_flat_type, is_flat_go_type, parse_nested_fields and match_fields there are theorems that fuel
-- above the rank of a type is enough, where ranks fall along the parts that the walk enters. That no
-- fuel is enough is stated for parse_nested_fields, on a struct that embeds a pointer to itself
-- behind plain fields of other names, for match_fields, on one whose first field embeds it, and for
-- resolve_plan on a slice type whose element type is itself; Go has no type on which is_flat_type
-- would run on, as it forbids types that contain themselves by value. `depth` of Env is the fuel of
-- the walks inside one resolution. The theorems on resolve_plan hold for each fuel and depth, and
-- treat out_of_fuel as a result, as do those on copy_plan, whose fuel bounds the depth of its calls;
-- where a copy is said to succeed, the fuel is above that depth, which is one for a value set as a
-- whole and two behind a pointer.
--
-- Not modelled: benchmarks, which measure, and scripts, one of which edits the readme. Of what the
-- generator calls, the parsing of flags, packages.Load, go/types, format.Source and the file system
-- are parameters or inputs. A generated statement on a promoted field is printed and not run. Locks
-- are not: each method of a cache takes the lock of one shard for all it does, so it is one step
-- here, and a call is one sequence of such steps, without those of other goroutines in between. A
-- registered function that calls the library itself changes only the memory here. A key of a map
-- that is a float and not a number counts as equal to itself.
pub mod Base
pub mod GoTypes
pub mod Errors
pub mod Fields
pub mod Flat
pub mod Cache
pub mod Context
pub mod Plan
pub mod Store
pub mod Resolve
pub mod Reflect
pub mod Resolution
pub mod Execute
pub mod Execution
pub mod Inspect
pub mod Entry
pub mod Generator
pub mod Generated
pub mod Gentest
mod Tests
