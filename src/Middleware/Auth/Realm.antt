-- ===== src/Middleware/Auth/Realm.antt =====
-- The tenant of an issuer.
use mathlib.Core.Path.{subst}
use agenthub_skill_runtime.Base.{
  ℕ, ◌≡◌, ◌≢◌, refl, ap, ◌∙◌, ◌⊎◌, inl, inr, true, not, [], ◌∷◌, ◌++◌, some, Bytes, codes, all,
  cut_prefix, ◌==◌, arith, Bool-cases, Option-cases,
}
use agenthub_skill_runtime.Executor.{ok}
use agenthub_skill_runtime.Middleware.Auth.{segment, filled, find_realm, extract_tenant_id}

-- A slash, or nothing.
abbrev pub EndsSegment : Bytes → Type 0
EndsSegment s = (s ≡ []) ⊎ ((rest : Bytes) × (s ≡ b'/' ∷ rest))

segment-split :
    (s : Bytes)
    → (all (λ c. not (c == b'/')) (segment s) ≡ true)
      × ((rest : Bytes) × (s ≡ segment s ++ rest) × EndsSegment rest)
unfolding segment
segment-split [] = (refl, ([], refl, inl refl))
segment-split (c ∷ s) = elim (Bool-cases (c == b'/')) [
  | inl slash ↦ rw (slash, segment) (refl, (c ∷ s, refl, inr (s, ground arith)))
  | inr other ↦
      let (clean, (rest, e, end)) = segment-split s in
      rw (other, segment) (ground arith, (rest, ap (λ t. c ∷ t) e, end))
]

cut_prefix→append : (s p rest : Bytes) → cut_prefix s p ≡ some rest → s ≡ p ++ rest
unfolding cut_prefix
cut_prefix→append s [] rest h = ground arith
cut_prefix→append [] (b ∷ p) rest h = absurd (ground arith)
cut_prefix→append (a ∷ s) (b ∷ p) rest h = ground (arith, cut_prefix→append s p rest)

-- The issuer names the realm: behind /realms/, up to a slash or the end.
abbrev pub IsNamed : Bytes → Bytes → Type 0
IsNamed issuer realm =
    (realm ≢ [])
    × (all (λ c. not (c == b'/')) realm ≡ true)
    × ((before rest : Bytes) × (issuer ≡ before ++ (codes "/realms/" ++ (realm ++ rest)))
        × EndsSegment rest)

filled-some : (s realm : Bytes) → filled s ≡ some realm → (s ≡ realm) × (realm ≢ [])
filled-some [] realm h = absurd (ground arith)
filled-some (c ∷ s) realm h = (ground arith, ground arith)

named_here :
    (s rest realm : Bytes)
    → cut_prefix s (codes "/realms/") ≡ some rest
    → filled (segment rest) ≡ some realm
    → IsNamed s realm
named_here s rest realm found h =
    let (clean, (r, e, end)) = segment-split rest in
    let (same, full) = filled-some (segment rest) realm h in
    (
      full,
      subst (λ t. all (λ c. not (c == b'/')) t ≡ true) same clean,
      (
        [],
        r,
        cut_prefix→append s (codes "/realms/") rest found
            ∙ ap (λ t. codes "/realms/" ++ t) (e ∙ ap (λ t. t ++ r) same),
        end,
      ),
    )

later : (c : ℕ) (s realm : Bytes) → IsNamed s realm → IsNamed (c ∷ s) realm
later c s realm (full, clean, (before, rest, e, end)) =
    (full, clean, (c ∷ before, rest, ap (λ t. c ∷ t) e, end))

find_realm-IsNamed : (s realm : Bytes) → find_realm s ≡ some realm → IsNamed s realm
unfolding find_realm
find_realm-IsNamed [] realm h = absurd (ground arith)
find_realm-IsNamed (c ∷ s) realm h = elim (Option-cases (cut_prefix (c ∷ s) (codes "/realms/"))) [
  | inl none_here ↦ later c s realm (find_realm-IsNamed s realm (ground arith))
  | inr (rest, found) ↦ elim (Option-cases (filled (segment rest))) [
    | inl nothing ↦ later c s realm (find_realm-IsNamed s realm (ground arith))
    | inr (r, here) ↦ named_here (c ∷ s) rest realm found (ground arith)
  ]
]

-- The tenant that is taken from an issuer is a nonempty path segment of it, the one behind a
-- /realms/: it holds no slash.
pub extract_tenant_id-IsNamed :
    (issuer realm : Bytes) → extract_tenant_id issuer ≡ ok realm → IsNamed issuer realm
unfolding extract_tenant_id
extract_tenant_id-IsNamed issuer realm h = find_realm-IsNamed issuer realm (ground arith)
