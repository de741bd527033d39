-- ===== src/Store.antt =====
-- The memory that the copier reads and writes through reflect: values, places in blocks, and the
-- heap. It stands for Go's memory, so no line of the repository is translated here.
use fastcopier.Base.{
  ℕ, zero, suc, String, Bool, true, false, ◌&&◌, List, [], ◌∷◌, ◌++◌, ◌==◌, nat_eq, string_eq,
  list_eq, Option, none, some, if◌then◌else◌,
}

-- A place is a path of fields and elements in a block.
pub record Place : Type 0 where
  pub block : ℕ
  pub path : List ℕ

abbrev pub below : Place → ℕ → Place
below p i = record p { path = p.path ++ (i ∷ []) }

mutual
  -- The contents of a variable. `word` holds a value of a basic type other than string, with 0 for
  -- its zero value, and `text` a string; `null` is the nil of every kind. A slice views `len` items
  -- of `cap`, from an offset in a place that holds items. A map is the number of the block that
  -- holds its entries. An interface holds a type and a value of it.
  pub data Value : Type 0 where
    word : ℕ → Value
    text : String → Value
    null : Value
    address : Place → Value
    channel : ℕ → Value
    view : Place → ℕ → ℕ → ℕ → Value
    table : ℕ → Value
    boxed : ℕ → Value → Value
    items : Values → Value
    entries : Entries → Value

  pub data Values : Type 0 where
    no_values : Values
    value : Value → Values → Values

  pub data Entries : Type 0 where
    no_entries : Entries
    entry : Value → Value → Entries → Entries

pub record Heap : Type 0 where
  pub next : ℕ
  pub block : ℕ → Value

unfoldable pub get_value : Values → ℕ → Option Value
get_value no_values i = none
get_value (value v vs) zero = some v
get_value (value v vs) (suc i) = get_value vs i

unfoldable pub set_value : Values → ℕ → Value → Values
set_value no_values i w = no_values
set_value (value v vs) zero w = value w vs
set_value (value v vs) (suc i) w = value v (set_value vs i w)

unfoldable pub count_values : Values → ℕ
count_values no_values = 0
count_values (value v vs) = suc (count_values vs)

unfoldable pub repeat_value : ℕ → Value → Values
repeat_value zero v = no_values
repeat_value (suc n) v = value v (repeat_value n v)

-- What a value holds under a path.
unfoldable pub read_at : Value → List ℕ → Option Value
unfolding get_value
read_at v [] = some v
read_at (items vs) (i ∷ is) = elim (get_value vs i) [ some v ↦ read_at v is | none ↦ none ]
read_at _ (i ∷ is) = none

-- Outside of the value nothing is written.
unfoldable pub write_at : Value → List ℕ → Value → Value
unfolding get_value set_value
write_at v [] w = w
write_at (items vs) (i ∷ is) w = elim (get_value vs i) [
  | some v ↦ items (set_value vs i (write_at v is w))
  | none ↦ items vs
]
write_at v (i ∷ is) w = v

unfoldable pub read_place : Heap → Place → Option Value
read_place h p = read_at (h.block p.block) p.path

unfoldable pub write_place : Place → Value → Heap → Heap
write_place p w h = record h {
  block = λ b. if b == p.block then write_at (h.block b) p.path w else h.block b;
}

-- A new block with a value in it.
unfoldable pub allocate : Value → Heap → Heap
allocate v h = record { next = suc h.next; block = λ b. if b == h.next then v else h.block b }

-- Keys of maps are compared by `==`; a float that is not a number counts as equal to itself.
unfoldable mutual
  pub same_value : Value → Value → Bool
  same_value (word m) (word n) = m == n
  same_value (text s) (text t) = s == t
  same_value null null = true
  same_value (address p) (address q) = p.block == q.block && p.path == q.path
  same_value (channel m) (channel n) = m == n
  same_value (boxed t v) (boxed u w) = t == u && same_value v w
  same_value (items vs) (items ws) = same_values vs ws
  same_value _ _ = false

  pub same_values : Values → Values → Bool
  same_values no_values no_values = true
  same_values (value v vs) (value w ws) = same_value v w && same_values vs ws
  same_values _ _ = false

-- Value.IsZero
unfoldable mutual
  pub is_zero : Value → Bool
  is_zero (word n) = n == 0
  is_zero (text s) = s == ""
  is_zero null = true
  is_zero (items vs) = are_zero vs
  is_zero _ = false

  pub are_zero : Values → Bool
  are_zero no_values = true
  are_zero (value v vs) = is_zero v && are_zero vs

unfoldable pub put_entry : Value → Value → Entries → Entries
put_entry k v no_entries = entry k v no_entries
put_entry k v (entry j w es) = if same_value k j then entry j v es else entry j w (put_entry k v es)

unfoldable pub count_entries : Entries → ℕ
count_entries no_entries = 0
count_entries (entry k v es) = suc (count_entries es)
