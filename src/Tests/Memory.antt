-- ===== src/Tests/Memory.antt =====
-- A memory with a list node that points to itself, and a machine over which plans run.
use fastcopier.Base.{ℕ, ◌*◌, ◌+◌, String, [], ◌==◌, nat_eq, none, if◌then◌else◌}
use fastcopier.Base.Dict.{Dict}
use fastcopier.Base.Outcome.{ok}
use fastcopier.Cache.{simple_cache}
use fastcopier.Context.{Context, CircularRefPolicy, new_context, prepare, reset}
use fastcopier.Plan.{Plan, SlimMeta}
use fastcopier.Reflect.Machine.{Machine, System, Ref, exported, at}
use fastcopier.Resolve.{Env}
use fastcopier.Store.{Place, word, null, address, items, no_values, value, Heap, write_place}
use fastcopier.Tests.Sample.{types, string_type, order}

abbrev pub slims_order : Dict String SlimMeta → Dict String SlimMeta
slims_order m = m

abbrev pub variable : ℕ → Place
variable b = record { block = b; path = [] }

-- Only a type itself is assignable to it; the registered copiers write their number.
abbrev pub machine : Machine
machine = record {
  assignable = λ d s. d == s;
  convert = λ d s v h. (v, h);
  address_of = λ p. 4096 + 64 * p.block;
  visit = λ es. es;
  registered = λ fn d s h. (ok tt, write_place d (word fn) h);
}

-- Block 0 is a node with a nil pointer, block 1 a node that points to itself, and block 2 a number.
abbrev pub heap : Heap
heap = record {
  next = 3;
  block = λ b.
      if b == 0
      then items (value null no_values)
      else if b == 1
      then items (value (address (variable 1)) no_values)
      else word 8;
}

abbrev pub context : CircularRefPolicy → Context
context c = prepare (record (reset new_context) { circular_ref = c })

abbrev pub env : CircularRefPolicy → Env
env c = record {
  T = types;
  registry = λ d s. none;
  ctx = context c;
  default_tag_name = "fastcopier";
  str_type = string_type;
  range = order;
  range_slims = slims_order;
  depth = 5;
}

abbrev pub system : CircularRefPolicy → System
system c = record { env = env c; cache = simple_cache Plan; machine = machine }

abbrev pub place : ℕ → ℕ → Ref
place t b = record { typ = t; spot = at (variable b); mark = exported }
