-- ===== src/Data/Set.antt =====
-- `HashSet<String>`: collecting texts drops those that are there already. The order of iteration is
-- unknown, so the program must not depend on the order of this list.
use Prim.Native.String.{String}
use platarium_core.Base.{List, [], ◌∷◌, any, if◌then◌else◌}
use platarium_core.Data.Ord.{◌==◌, string_eq}

abbrev pub collect_set : List String → List String
collect_set [] = []
collect_set (s ∷ ss) =
    let others = collect_set ss in if any (λ t. t == s) others then others else s ∷ others
