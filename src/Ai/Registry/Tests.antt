-- ===== src/Ai/Registry/Tests.antt =====
-- The registry at a concrete history.
use agenthub_skill_runtime.Base.{[], ◌∷◌, ◌≡◌, refl, Bytes, codes, eqb, lex_le}
use agenthub_skill_runtime.Base.Assoc.{lookup, insert, keys}
use agenthub_skill_runtime.Executor.{err, leaf, ok}
use agenthub_skill_runtime.Ai.{ChatModel}
use agenthub_skill_runtime.Ai.Registry.{
  new_provider_registry, register_provider, get_provider, available, insert_name,
}
use agenthub_skill_runtime.Ai.Registry.History.{Calls, replay, Refines, replay-Refines}

abbrev model_of : Bytes → ChatModel
model_of kind = record {
  provider_name = kind;
  chat = λ messages opts. err (leaf kind);
  chat_stream = λ messages opts. err (leaf kind);
}

-- The name main is taken over by a model of another type.
abbrev history : Calls
history =
    (codes "main", model_of (codes "openai"))
    ∷ (codes "alt", model_of (codes "openai"))
    ∷ (codes "main", model_of (codes "anthropic"))
    ∷ []

replay-Refines_example : Refines (replay history new_provider_registry) history
replay-Refines_example = replay-Refines history

sorted_names : available (replay history new_provider_registry) ≡ codes "alt" ∷ codes "main" ∷ []
unfolding available register_provider new_provider_registry insert keys eqb lookup lex_le
    insert_name
sorted_names = refl

taken_over :
    get_provider (replay history new_provider_registry) (codes "main")
    ≡ ok (model_of (codes "anthropic"))
unfolding get_provider register_provider new_provider_registry insert eqb lookup
taken_over = refl
