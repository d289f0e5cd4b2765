-- ===== src/Iggy/Lookup.antt =====
-- `supportedProtocolLookup`, the `std::map` of sdk/net/iggy.h, as an association list. The code
-- never iterates over it, so the order of its entries does not show.
use iggy_cpp_client.Prelude.{
  ℕ, ◌≡◌, refl, ◌∙◌, Option, none, some, List, [], ◌∷◌, arith, if◌then◌else◌, has_value,
}
use iggy_cpp_client.Prelude.Bytes.{Bytes, bytes_eq, bytes_eq_iff}
use iggy_cpp_client.Protocol.Definition.{ProtocolDefinition}

abbrev pub Lookup : Type 0
Lookup = List (Bytes × ProtocolDefinition)

-- `find`
unfoldable pub find : Bytes → Lookup → Option ProtocolDefinition
find k [] = none
find k ((j, d) ∷ m) = if bytes_eq j k then some d else find k m

-- `lookup[key] = definition`
unfoldable pub assign : Bytes → ProtocolDefinition → Lookup → Lookup
assign k d [] = (k, d) ∷ []
assign k d ((j, e) ∷ m) = if bytes_eq j k then (k, d) ∷ m else (j, e) ∷ assign k d m

-- `count`: the keys of a map are distinct.
unfoldable pub count : Bytes → Lookup → ℕ
count k m = if has_value (find k m) then 1 else 0

-- The loop of the constructor.
unfoldable pub fill : List ProtocolDefinition → Lookup → Lookup
fill [] m = m
fill (d ∷ ds) m = fill ds (assign d.name d m)

pub find-assign :
    (k j : Bytes) (d : ProtocolDefinition) (m : Lookup)
    → find j (assign k d m) ≡ (if bytes_eq k j then some d else find j m)
unfolding find assign
find-assign k j d [] = refl
find-assign k j d ((i, e) ∷ m) =
    ground (arith, bytes_eq_iff k j, bytes_eq_iff i k, bytes_eq_iff i j, find-assign k j d m)

-- The last definition of a list that has a given name.
unfoldable pub last_named : Bytes → List ProtocolDefinition → Option ProtocolDefinition
last_named k [] = none
last_named k (d ∷ ds) = elim (last_named k ds) [
  | some e ↦ some e
  | none ↦ if bytes_eq d.name k then some d else none
]

abbrev pub or_else {ℓ} : {A : Type ℓ} → Option A → Option A → Option A
or_else none o = o
or_else (some a) o = some a

find-fill_onto :
    (k : Bytes) (ds : List ProtocolDefinition) (m : Lookup)
    → find k (fill ds m) ≡ or_else (last_named k ds) (find k m)
unfolding fill last_named
find-fill_onto k [] m = refl
find-fill_onto k (d ∷ ds) m =
    ground (arith, find-fill_onto k ds (assign d.name d m), find-assign d.name k d m)

-- Looking a name up after the constructor's loop finds the last definition of that name.
pub find-fill : (k : Bytes) (ds : List ProtocolDefinition) → find k (fill ds []) ≡ last_named k ds
unfolding find
find-fill k ds = find-fill_onto k ds [] ∙ ground arith
