-- ===== src/Slashing/Penalties.antt =====
-- What a penalty leaves of a node.
use platarium_core.Base.{ℕ, Option, none, some}
use platarium_core.Data.Ord.{string_eq}
use platarium_core.Data.Map
use platarium_core.Data.Map.{HashMap, insert}
use platarium_core.Node.{Node, NodeId}
use platarium_core.Node.Registry.{NodeRegistry}

abbrev map_some : (Node → Node) → Option Node → Option Node
map_some f none = none
map_some f (some n) = some (f n)

-- The registry after the first write of a penalty: the node's stake is reduced.
abbrev pub with_stake : NodeRegistry → NodeId → Node → ℕ → NodeRegistry
with_stake nodes id n stake = insert nodes id (record n { stake = stake })
