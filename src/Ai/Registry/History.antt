-- ===== src/Ai/Registry/History.antt =====
-- internal/ai/registry.go: the registry against the history of its registrations.
use agenthub_skill_runtime.Base.{
  ◌≡◌, refl, ◌↔◌, true, List, [], ◌∷◌, Option, none, some, Bytes, eqb, eqb_iff, if◌then◌else◌,
  arith,
}
use agenthub_skill_runtime.Base.Assoc.{
  Assoc, lookup, keys, mem_key, distinct, lookup-insert, distinct-insert, mem_key_iff,
}
use agenthub_skill_runtime.Executor.{ok}
use agenthub_skill_runtime.Ai.{ChatModel}
use agenthub_skill_runtime.Ai.Registry.Names.{
  sorted, mem_key-sort_names, distinct-sort_names, sort_names-sorted,
}
use agenthub_skill_runtime.Ai.Registry.{
  ProviderRegistry, new_provider_registry, insert_new, register_provider, get_provider, get_default,
  available,
}

-- The registrations in their order.
abbrev pub Calls : Type 0
Calls = List (Bytes × ChatModel)

-- The specification: the last model under a name, and the first of a provider type.
abbrev pub last_under : Bytes → Calls → Option ChatModel → Option ChatModel
last_under name [] before = before
last_under name ((n, m) ∷ calls) before =
    last_under name calls (if eqb n name then some m else before)

abbrev pub first_of_type : Bytes → Calls → Option ChatModel
first_of_type t [] = none
first_of_type t ((n, m) ∷ calls) = if eqb m.provider_name t then some m else first_of_type t calls

abbrev pub replay : Calls → ProviderRegistry → ProviderRegistry
replay [] r = r
replay ((n, m) ∷ calls) r = replay calls (register_provider n m r)

abbrev pub or_else : Option ChatModel → Option ChatModel → Option ChatModel
or_else none other = other
or_else (some m) other = some m

replay-providers :
    (name : Bytes) (calls : Calls) (r : ProviderRegistry)
    → lookup name (replay calls r).providers ≡ last_under name calls (lookup name r.providers)
unfolding register_provider
replay-providers name [] r = refl
replay-providers name ((n, m) ∷ calls) r =
    rw (← lookup-insert n name m r.providers)
      (replay-providers name calls (register_provider n m r))

lookup-insert_new :
    (k j : Bytes) (v : ChatModel) (m : Assoc ChatModel)
    → lookup j (insert_new k v m) ≡ or_else (lookup j m) (if eqb k j then some v else none)
unfolding insert_new
lookup-insert_new k j v m = ground (arith, eqb_iff k j, lookup-insert k j v m)

replay-defaults :
    (t : Bytes) (calls : Calls) (r : ProviderRegistry)
    → lookup t (replay calls r).defaults ≡ or_else (lookup t r.defaults) (first_of_type t calls)
unfolding register_provider
replay-defaults t [] r = ground arith
replay-defaults t ((n, m) ∷ calls) r = ground (
  arith,
  replay-defaults t calls (register_provider n m r),
  lookup-insert_new m.provider_name t m r.defaults,
)

replay-distinct :
    (calls : Calls) (r : ProviderRegistry)
    → distinct (keys r.providers) ≡ true
    → distinct (keys (replay calls r).providers) ≡ true
unfolding register_provider
replay-distinct [] r h = h
replay-distinct ((n, m) ∷ calls) r h =
    replay-distinct calls (register_provider n m r) (distinct-insert n m r.providers h)

-- What the registry promises behind a history of registrations.
pub record Refines (r : ProviderRegistry) (calls : Calls) : Type 0 where
  pub get_iff :
      (name : Bytes) (m : ChatModel)
      → (get_provider r name ≡ ok m) ↔ (last_under name calls none ≡ some m)
  pub default_iff :
      (t : Bytes) (m : ChatModel) → (get_default r t ≡ ok m) ↔ (first_of_type t calls ≡ some m)
  pub in_order : sorted (available r) ≡ true
  pub no_twice : distinct (available r) ≡ true
  pub listed_iff :
      (name : Bytes)
      → (mem_key name (available r) ≡ true)
        ↔ ((m : ChatModel) × (last_under name calls none ≡ some m))

get_provider_iff :
    (r : ProviderRegistry) (name : Bytes) (m : ChatModel)
    → (get_provider r name ≡ ok m) ↔ (lookup name r.providers ≡ some m)
unfolding get_provider
get_provider_iff r name m = ground arith

get_default_iff :
    (r : ProviderRegistry) (t : Bytes) (m : ChatModel)
    → (get_default r t ≡ ok m) ↔ (lookup t r.defaults ≡ some m)
unfolding get_default
get_default_iff r t m = ground arith

-- Behind any sequence of registrations, Get gives the model that was registered last under the name,
-- GetDefault the one of the type that was registered first, also if its name was taken by another
-- since, and Available the registered names, each once and in order.
pub replay-Refines : (calls : Calls) → Refines (replay calls new_provider_registry) calls
unfolding new_provider_registry available lookup distinct keys
replay-Refines calls = record {
  get_iff = λ name m.
      rw (← replay-providers name calls new_provider_registry)
        (get_provider_iff (replay calls new_provider_registry) name m);
  default_iff = λ t m.
      rw (← replay-defaults t calls new_provider_registry)
        (get_default_iff (replay calls new_provider_registry) t m);
  in_order = sort_names-sorted (keys (replay calls new_provider_registry).providers);
  no_twice =
      rw (distinct-sort_names (keys (replay calls new_provider_registry).providers))
        (replay-distinct calls new_provider_registry refl);
  listed_iff = λ name.
      rw
        (
          mem_key-sort_names name (keys (replay calls new_provider_registry).providers),
          ← replay-providers name calls new_provider_registry,
        )
        (mem_key_iff name (replay calls new_provider_registry).providers);
}
