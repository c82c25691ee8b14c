-- ===== src/Http/Ssrf/Urls.antt =====
-- Which URLs ValidateURL lets through.
use mathlib.Core.Path.{subst, sym}
use agenthub_skill_runtime.Base.{
  ◌≡◌, refl, ◌↔◌, ◌⊎◌, inl, inr, true, false, Bytes, codes, is_empty, eqb, eqb→eq, eqb_refl,
  Bool-cases, ◌++◌, [], ◌∷◌, has_suffix, to_lower, arith,
}
use agenthub_skill_runtime.Executor.{ok, Result-cases}
use agenthub_skill_runtime.Http.Ssrf.{Url, Syntax, private_host, validate_parsed, validate_url}

-- The URLs that the documentation of ValidateURL describes.
abbrev pub IsPublic : Syntax → Url → Type 0
IsPublic syn u =
    ((eqb (to_lower u.scheme) (codes "http") ≡ true)
      ⊎ (eqb (to_lower u.scheme) (codes "https") ≡ true))
    × (is_empty u.host ≡ false)
    × (has_suffix u.hostname (codes ".cluster.local") ≡ false)
    × (private_host (syn.parse_ip u.hostname) ≡ false)

has_suffix-append : (p s : Bytes) → has_suffix (p ++ s) s ≡ true
unfolding has_suffix
has_suffix-append [] [] = refl
has_suffix-append [] (c ∷ s) = ground (arith, eqb_refl (c ∷ s))
has_suffix-append (c ∷ p) s = ground (arith, has_suffix-append p s)

has_suffix_of_append :
    (s p suffix : Bytes) → has_suffix s (p ++ suffix) ≡ true → has_suffix s suffix ≡ true
unfolding has_suffix eqb
has_suffix_of_append [] [] suffix h = h
has_suffix_of_append [] (b ∷ p) suffix h = cc
has_suffix_of_append (c ∷ s) p suffix h = elim (Bool-cases (eqb (c ∷ s) (p ++ suffix))) [
  | inl whole ↦
      subst (λ t. has_suffix t suffix ≡ true) (sym (eqb→eq (c ∷ s) (p ++ suffix) whole))
        (has_suffix-append p suffix)
  | inr part ↦ ground (arith, has_suffix_of_append s p suffix)
]

accepted : (syn : Syntax) (u : Url) → validate_parsed syn.parse_ip u ≡ ok tt → IsPublic syn u
unfolding validate_parsed
accepted syn u h = ground arith

accept : (syn : Syntax) (u : Url) → IsPublic syn u → validate_parsed syn.parse_ip u ≡ ok tt
unfolding validate_parsed
accept syn u h =
    ground (arith, has_suffix_of_append u.hostname (codes ".svc") (codes ".cluster.local"))

-- ValidateURL accepts exactly the texts that parse as a URL with the scheme http or https in any
-- case, a host, a hostname that does not end in .cluster.local, and, where the hostname is an
-- address literal, an address outside the private ranges.
pub validate_url_iff :
    (syn : Syntax) (raw_url : Bytes)
    → (validate_url syn raw_url ≡ ok tt)
      ↔ ((u : Url) × (syn.parse_url raw_url ≡ ok u) × IsPublic syn u)
unfolding validate_url
validate_url_iff syn raw_url = (
  λ h. elim (Result-cases (syn.parse_url raw_url)) [
    | inl (u, e) ↦ (u, e, accepted syn u (ground (arith, e)))
    | inr (x, e) ↦ absurd (ground (arith, e))
  ],
  λ (u, e, public). rw e (accept syn u public),
)
