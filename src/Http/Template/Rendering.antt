-- ===== src/Http/Template/Rendering.antt =====
-- Rendering a template against its parts: literal text and placeholders.
use agenthub_skill_runtime.Base.{
  ℕ, ◌-◌, ◌≡◌, ◌≢◌, refl, ◌∙◌, ap, List, [], ◌∷◌, ◌++◌, Option, none, some, Bytes, codes, length,
  all, All, true, not, ◌==◌, arith, Option-cases, inl, inr,
}
use agenthub_skill_runtime.Executor.{Value, Object, field?}
use agenthub_skill_runtime.Http.Template.{
  Form, double, single, from_input, from_args, placeholder, pairs, match_at, replace_from, replace,
  render_template, render_template_url, query_escape,
}
use agenthub_skill_runtime.Http.Template.Matching.{
  IsPlain, HasPlainKeys, match_at-placeholder, match_at-other,
}

pub data Segment : Type 0 where
  text : Bytes → Segment
  hole : Form → Bytes → Segment

-- The template that a list of segments spells.
abbrev pub spell : List Segment → Bytes
spell [] = []
spell (text t ∷ more) = t ++ spell more
spell (hole f k ∷ more) = placeholder f k ++ spell more

abbrev pub given : (Value → Bytes) → Bytes → Option Value → Bytes
given encode missing none = missing
given encode missing (some v) = encode v

-- The segments with every placeholder replaced by the value of its key.
abbrev pub fill : (Value → Bytes) → Object → List Segment → Bytes
fill encode o [] = []
fill encode o (text t ∷ more) = t ++ fill encode o more
fill encode o (hole f k ∷ more) = given encode (placeholder f k) (field? o k) ++ fill encode o more

-- Literal text holds no opening brace, and a placeholder's key is plain and given by the input.
abbrev pub IsFor : Object → Segment → Type 0
IsFor o (text t) = all (λ c. not (c == b'{')) t ≡ true
IsFor o (hole f k) = IsPlain k × (field? o k ≢ none)

-- A placeholder behind its first brace.
abbrev inner : Form → Bytes → Bytes
inner double k = b'{' ∷ (k ++ b'}' ∷ b'}' ∷ [])
inner single k = k ++ b'}' ∷ []
inner from_input k = codes "{input." ++ (k ++ b'}' ∷ b'}' ∷ [])
inner from_args k = codes "{args." ++ (k ++ b'}' ∷ b'}' ∷ [])

module _ (ps : List (Bytes × Bytes)) where
  skip_all : (p rest : Bytes) → replace_from ps (length p) (p ++ rest) ≡ replace_from ps 0 rest
  unfolding replace_from
  skip_all [] rest = refl
  skip_all (c ∷ p) rest = skip_all p rest

  replaced :
      (c : ℕ) (p rest new : Bytes)
      → match_at ps (c ∷ (p ++ rest)) ≡ some (length p, new)
      → replace ps (c ∷ (p ++ rest)) ≡ new ++ replace ps rest
  unfolding replace_from
  replaced c p rest new h = rw (h, replace_from) (ap (λ s. new ++ s) (skip_all p rest))

  kept : (c : ℕ) (s : Bytes) → match_at ps (c ∷ s) ≡ none → replace ps (c ∷ s) ≡ c ∷ replace ps s
  unfolding replace_from
  kept c s h = rw (h, replace_from)

module _ (encode : Value → Bytes) (o : Object) (plain : HasPlainKeys o) where
  replace-text :
      (t rest : Bytes)
      → all (λ c. not (c == b'{')) t ≡ true
      → replace (pairs encode o) (t ++ rest) ≡ t ++ replace (pairs encode o) rest
  replace-text [] rest h = refl
  replace-text (c ∷ t) rest h =
      kept (pairs encode o) c (t ++ rest) (match_at-other encode o c _ (ground arith))
      ∙ ap (λ s. c ∷ s) (replace-text t rest (ground arith))

  replace-brace :
      (f : Form) (k rest : Bytes) (v : Value)
      → match_at (pairs encode o) (placeholder f k ++ rest)
        ≡ some (length (placeholder f k) - 1, encode v)
      → replace (pairs encode o) (placeholder f k ++ rest)
        ≡ encode v ++ replace (pairs encode o) rest
  replace-brace double k rest v m =
      replaced (pairs encode o) b'{' (inner double k) rest (encode v)
        (m ∙ ap (λ (n : ℕ). some (n, encode v)) {y = length (inner double k)} (omega arith))
  replace-brace f k rest v m =
      replaced (pairs encode o) b'{' (inner f k) rest (encode v)
        (m ∙ ap (λ (n : ℕ). some (n, encode v)) {y = length (inner f k)} (omega arith))

  replace-hole :
      (f : Form) (k rest : Bytes) (v : Value)
      → IsPlain k
      → field? o k ≡ some v
      → replace (pairs encode o) (placeholder f k ++ rest)
        ≡ encode v ++ replace (pairs encode o) rest
  replace-hole f k rest v hk h =
      replace-brace f k rest v (match_at-placeholder encode o f k rest plain hk ∙ rw h)

  replace-spell :
      (segments : List Segment)
      → All (IsFor o) segments
      → replace (pairs encode o) (spell segments) ≡ fill encode o segments
  replace-spell [] h = unfold replace_from in refl
  replace-spell (text t ∷ more) (h, hs) =
      replace-text t (spell more) h ∙ ap (λ s. t ++ s) (replace-spell more hs)
  replace-spell (hole f k ∷ more) ((hk, g), hs) = elim (Option-cases (field? o k)) [
    | inl missing ↦ absurd (g missing)
    | inr (v, found) ↦
        replace-hole f k (spell more) v hk found
        ∙ rw found (ap (λ s. encode v ++ s) (replace-spell more hs))
  ]

-- Every template that literal text without an opening brace and placeholders spell, of keys that
-- the input has and that hold no brace and no dot, as all keys of the input, is rendered by
-- putting, for each placeholder, the value of its key, in whichever of the four forms it is
-- written, and nothing else changes, also where a value holds a brace itself.
pub render_template-spell :
    (sprint : Value → Bytes) (o : Object) (segments : List Segment)
    → HasPlainKeys o
    → All (IsFor o) segments
    → (render_template sprint (spell segments) o ≡ fill sprint o segments)
      × (render_template_url sprint (spell segments) o
          ≡ fill (λ v. query_escape (sprint v)) o segments)
unfolding render_template render_template_url
render_template-spell sprint o segments plain h = (
  replace-spell sprint o plain segments h,
  replace-spell (λ v. query_escape (sprint v)) o plain segments h,
)
