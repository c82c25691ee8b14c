-- ===== src/Http/Ssrf/Ranges.antt =====
-- The address ranges that the guard refuses, as intervals.
use agenthub_skill_runtime.Base.{
  ℕ, ◌*◌, ◌/◌, ◌%◌, ◌^◌, ◌<◌, ◌≤◌, ◌≡◌, ◌≢◌, refl, ◌∙◌, sym, ◌-◌, ◌==◌, ◌↔◌, ◌⊎◌, true, some, arith,
  Bool-cases, inl, inr,
}
use agenthub_skill_runtime.Http.Ssrf.{Ip, v4, v6, quad, is_private_ip, is_blocked_outbound_ip}

-- a lies in [lo, hi]
abbrev pub Within : ℕ → ℕ → ℕ → Type 0
Within lo hi a = (lo ≤ a) × (a ≤ hi)

abbrev pub IsPrivateV4 : ℕ → Type 0
IsPrivateV4 a =
    Within (quad 10 0 0 0) (quad 10 255 255 255) a
    ⊎ Within (quad 172 16 0 0) (quad 172 31 255 255) a
    ⊎ Within (quad 192 168 0 0) (quad 192 168 255 255) a
    ⊎ Within (quad 127 0 0 0) (quad 127 255 255 255) a
    ⊎ Within (quad 169 254 0 0) (quad 169 254 255 255) a
    ⊎ Within (quad 100 64 0 0) (quad 100 127 255 255) a

private_v4 : (a : ℕ) → (is_private_ip (v4 a) ≡ true) ↔ IsPrivateV4 a
unfolding is_private_ip
private_v4 a = ground arith

abbrev pub IsRefusedV4 : ℕ → Type 0
IsRefusedV4 a = IsPrivateV4 a ⊎ (a ≡ 0) ⊎ Within (quad 224 0 0 0) (quad 239 255 255 255) a

-- ::1, ::, a unique local address (fc00::/7) or multicast (ff00::/8)
abbrev pub IsRefusedV6 : ℕ → Type 0
IsRefusedV6 a =
    (a ≡ 1) ⊎ (a ≡ 0) ⊎ Within (0xfc * 2 ^ 120) (0xfe * 2 ^ 120 - 1) a ⊎ (0xff * 2 ^ 120 ≤ a)

-- By the IPv4 address that is embedded (::ffff:a.b.c.d), if one is.
abbrev pub IsRefused : Ip → Type 0
IsRefused (v4 a) = IsRefusedV4 a
IsRefused (v6 a) =
    ((a / 2 ^ 32 ≡ 0xffff) × IsRefusedV4 (a % 2 ^ 32)) ⊎ ((a / 2 ^ 32 ≢ 0xffff) × IsRefusedV6 a)

abbrev pub IsAddress : Ip → Type 0
IsAddress (v4 a) = a < 2 ^ 32
IsAddress (v6 a) = a < 2 ^ 128

blocked_v4_iff : (a : ℕ) → (is_blocked_outbound_ip (some (v4 a)) ≡ true) ↔ IsRefusedV4 a
unfolding is_blocked_outbound_ip
blocked_v4_iff a = ground arith

blocked_v6_iff :
    (a : ℕ)
    → a < 2 ^ 128
    → a / 2 ^ 32 ≢ 0xffff
    → (is_blocked_outbound_ip (some (v6 a)) ≡ true) ↔ IsRefusedV6 a
unfolding is_blocked_outbound_ip
blocked_v6_iff a h n = ground arith

-- An address that embeds an IPv4 address is refused exactly when that is.
blocked_mapped :
    (a : ℕ)
    → a / 2 ^ 32 ≡ 0xffff
    → is_blocked_outbound_ip (some (v6 a)) ≡ is_blocked_outbound_ip (some (v4 (a % 2 ^ 32)))
unfolding is_blocked_outbound_ip
blocked_mapped a e = let t : (a / 2 ^ 32 == 0xffff) ≡ true = ground arith in rw t refl

-- An address is refused as an outbound target exactly when it is, or embeds (::ffff:a.b.c.d), an IPv4
-- address that is in one of the six private or reserved ranges, 0.0.0.0 or multicast; or when it is
-- another IPv6 address that is ::1, ::, unique local (fc00::/7) or multicast (ff00::/8).
pub blocked_iff :
    (ip : Ip) → IsAddress ip → (is_blocked_outbound_ip (some ip) ≡ true) ↔ IsRefused ip
blocked_iff (v4 a) h = blocked_v4_iff a
blocked_iff (v6 a) h = elim (Bool-cases (a / 2 ^ 32 == 0xffff)) [
  | inl e ↦
      let mapped : a / 2 ^ 32 ≡ 0xffff = ground arith in
      let same = blocked_mapped a mapped in
      let (fwd, bwd) = blocked_v4_iff (a % 2 ^ 32) in
      (
        λ b. inl (mapped, fwd (sym same ∙ b)),
        λ r. same ∙ bwd (elim r [ inl q ↦ q.1 | inr q ↦ absurd (q.0 mapped) ]),
      )
  | inr e ↦
      let plain : a / 2 ^ 32 ≢ 0xffff = ground arith in
      let (fwd, bwd) = blocked_v6_iff a h plain in
      (λ b. inr (plain, fwd b), λ r. bwd (elim r [ inl q ↦ absurd (plain q.0) | inr q ↦ q.1 ]))
]
