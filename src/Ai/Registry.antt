-- ===== src/Ai/Registry.antt =====
-- internal/ai/registry.go. Go's maps are association lists; the lock of the registry makes each
-- operation one step.
pub mod Names
pub mod History
mod Tests
use agenthub_skill_runtime.Base.{
  List, [], ◌∷◌, ◌++◌, Option, none, some, Bytes, codes, lex_le, if◌then◌else◌,
}
use agenthub_skill_runtime.Base.Assoc.{Assoc, lookup, insert, keys}
use agenthub_skill_runtime.Executor.{Result, ok, err, leaf, quote}
use agenthub_skill_runtime.Ai.{ChatModel}

pub record ProviderRegistry : Type 0 where
  pub providers : Assoc ChatModel
  pub defaults : Assoc ChatModel

unfoldable pub new_provider_registry : ProviderRegistry
new_provider_registry = record { providers = []; defaults = [] }

-- if _, exists := m[k]; !exists { m[k] = v }
unfoldable pub insert_new : Bytes → ChatModel → Assoc ChatModel → Assoc ChatModel
insert_new k v m = elim (lookup k m) [ none ↦ insert k v m | some old ↦ m ]

unfoldable pub register_provider : Bytes → ChatModel → ProviderRegistry → ProviderRegistry
unfolding insert_new
register_provider name model r = record {
  providers = insert name model r.providers;
  defaults = insert_new model.provider_name model r.defaults;
}

unfoldable pub get_provider : ProviderRegistry → Bytes → Result ChatModel
get_provider r name = elim (lookup name r.providers) [
  | none ↦ err (leaf (codes "ai: provider " ++ (quote name ++ codes " not registered")))
  | some m ↦ ok m
]

unfoldable pub get_default : ProviderRegistry → Bytes → Result ChatModel
get_default r provider_type = elim (lookup provider_type r.defaults) [
  | none ↦ err (leaf (codes "ai: no default provider registered for type " ++ quote provider_type))
  | some m ↦ ok m
]

-- sort.Strings
unfoldable pub insert_name : Bytes → List Bytes → List Bytes
insert_name k [] = k ∷ []
insert_name k (j ∷ js) = if lex_le k j then k ∷ j ∷ js else j ∷ insert_name k js

unfoldable pub sort_names : List Bytes → List Bytes
unfolding insert_name
sort_names [] = []
sort_names (k ∷ ks) = insert_name k (sort_names ks)

unfoldable pub available : ProviderRegistry → List Bytes
unfolding sort_names
available r = sort_names (keys r.providers)
