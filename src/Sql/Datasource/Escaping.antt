-- ===== src/Sql/Datasource/Escaping.antt =====
-- Percent-encoding in a data source's URL, and its reading.
use agenthub_skill_runtime.Base.{
  ℕ, ◌+◌, ◌-◌, ◌*◌, ◌/◌, ◌%◌, ◌<◌, ◌≡◌, refl, ap, ◌∙◌, Bool, true, false, not, ◌&&◌, ◌||◌, [], ◌∷◌,
  Bytes, codes, contains_byte, all, All, ◌==◌, ==_iff, ltb, if◌then◌else◌, Bool-cases, inl, inr,
  arith,
}
use agenthub_skill_runtime.Http.Template.{is_unreserved, hex}
use agenthub_skill_runtime.Sql.Datasource.{percent, escape_but, userinfo_set, host_set, path_set}

-- The reading of percent-encoded text.
abbrev pub unhex : ℕ → ℕ
unhex d = if ltb d b'A' then d - b'0' else d - b'A' + 10

unfoldable pub unescape : Bytes → Bytes
unescape [] = []
unescape (c ∷ []) = c ∷ []
unescape (c ∷ d ∷ []) = c ∷ d ∷ []
unescape (c ∷ d ∷ e ∷ s) =
    let kept = unescape (d ∷ e ∷ s) in
    let read = unescape s in if c == b'%' then (unhex d * 16 + unhex e) ∷ read else c ∷ kept

abbrev pub AreBytes : Bytes → Type 0
AreBytes = All (λ c. c < 256)

unhex-hex : (n : ℕ) → n < 16 → unhex (hex n) ≡ n
unhex-hex n h = ground arith

unescape-percent : (c : ℕ) (rest : Bytes) → c < 256 → unescape (percent c rest) ≡ c ∷ unescape rest
unfolding unescape
unescape-percent c rest h = ground (arith, unhex-hex (c / 16), unhex-hex (c % 16))

-- A byte that is not a percent sign is read as it stands.
unescape-kept :
    (c : ℕ) (rest : Bytes) → (c == b'%') ≡ false → unescape (c ∷ rest) ≡ c ∷ unescape rest
unfolding unescape
unescape-kept c [] h = refl
unescape-kept c (d ∷ []) h = refl
unescape-kept c (d ∷ e ∷ s) h = rw h

-- The bytes of an escaped text.
abbrev pub is_escaped : Bytes → ℕ → Bool
is_escaped keep d = is_unreserved d || contains_byte keep d || d == b'%'

module _ (keep : Bytes) (no_percent : contains_byte keep b'%' ≡ false) where
  kept-not-percent :
      (c : ℕ) → (is_unreserved c || contains_byte keep c) ≡ true → (c == b'%') ≡ false
  kept-not-percent c h = elim (Bool-cases (c == b'%')) [
    | inr other ↦ other
    | inl same ↦ absurd (ground (arith, ap (contains_byte keep) ((==_iff c b'%').0 same)))
  ]

  pub unescape-escape_but : (s : Bytes) → AreBytes s → unescape (escape_but keep s) ≡ s
  unfolding escape_but unescape
  unescape-escape_but [] h = refl
  unescape-escape_but (c ∷ s) h =
      let ih = unescape-escape_but s h.1 in
      elim (Bool-cases (is_unreserved c || contains_byte keep c)) [
        | inl kept ↦
            rw (kept, if◌then◌else◌)
              (unescape-kept c (escape_but keep s) (kept-not-percent c kept) ∙ ap (◌∷◌ c) ih)
        | inr other ↦
            rw (other, if◌then◌else◌) (unescape-percent c (escape_but keep s) h.0 ∙ ap (◌∷◌ c) ih)
      ]

hex-is_unreserved : (n : ℕ) → n < 16 → is_unreserved (hex n) ≡ true
hex-is_unreserved n h = ground arith

or_left : (u k p : Bool) → (u || k) ≡ true → (u || k || p) ≡ true
or_left true k p h = refl
or_left false true p h = refl
or_left false false p h = absurd (cc)

or_last : (u k p : Bool) → p ≡ true → (u || k || p) ≡ true
or_last u k p h = ground arith

and_true : (a b : Bool) → a ≡ true → b ≡ true → (a && b) ≡ true
and_true a b ha hb = rw (ha, hb)

module _ (keep : Bytes) where
  unreserved-IsEscaped : (c : ℕ) → is_unreserved c ≡ true → is_escaped keep c ≡ true
  unreserved-IsEscaped c h =
      or_left (is_unreserved c) (contains_byte keep c) (c == b'%') (rw (h, ◌||◌))

  percent-IsEscaped :
      (c : ℕ) (rest : Bytes)
      → c < 256
      → all (is_escaped keep) rest ≡ true
      → all (is_escaped keep) (percent c rest) ≡ true
  percent-IsEscaped c rest h t =
      and_true (is_escaped keep b'%') _ (or_last false (contains_byte keep b'%') true refl) (
        and_true (is_escaped keep (hex (c / 16))) _
          (unreserved-IsEscaped (hex (c / 16)) (hex-is_unreserved (c / 16) (omega arith)))
          (and_true (is_escaped keep (hex (c % 16))) _
            (unreserved-IsEscaped (hex (c % 16)) (hex-is_unreserved (c % 16) (omega arith))) t))

  pub escape_but-IsEscaped :
      (s : Bytes) → AreBytes s → all (is_escaped keep) (escape_but keep s) ≡ true
  unfolding escape_but
  escape_but-IsEscaped [] h = refl
  escape_but-IsEscaped (c ∷ s) h =
      let ih = escape_but-IsEscaped s h.1 in
      elim (Bool-cases (is_unreserved c || contains_byte keep c)) [
        | inl kept ↦
            rw (kept, if◌then◌else◌)
              (and_true (is_escaped keep c) _
                (or_left (is_unreserved c) (contains_byte keep c) (c == b'%') kept) ih)
        | inr other ↦ rw (other, if◌then◌else◌) (percent-IsEscaped c (escape_but keep s) h.0 ih)
      ]

  pub escape_but-kept :
      (c : ℕ) (s : Bytes)
      → (is_unreserved c || contains_byte keep c) ≡ true
      → escape_but keep (c ∷ s) ≡ c ∷ escape_but keep s
  unfolding escape_but
  escape_but-kept c s h = rw (h, escape_but, if◌then◌else◌)

  pub escape_but-percent :
      (c : ℕ) (s : Bytes)
      → (is_unreserved c || contains_byte keep c) ≡ false
      → escape_but keep (c ∷ s) ≡ percent c (escape_but keep s)
  unfolding escape_but
  escape_but-percent c s h = rw (h, escape_but, if◌then◌else◌)

pub all-weaken :
    (p q : ℕ → Bool)
    → ((c : ℕ) → p c ≡ true → q c ≡ true)
    → (s : Bytes) → all p s ≡ true
    → all q s ≡ true
all-weaken p q w [] h = refl
all-weaken p q w (c ∷ s) h = ground (arith, w c, all-weaken p q w s)

-- No byte of a text is in a set.
abbrev pub avoids : Bytes → ℕ → Bool
avoids set c = not (contains_byte set c)

pub userinfo-avoids : (c : ℕ) → is_escaped userinfo_set c ≡ true → avoids (codes "@/:?#") c ≡ true
unfolding contains_byte
userinfo-avoids c h = ground arith

pub host-avoids : (c : ℕ) → is_escaped host_set c ≡ true → avoids (codes "@/?#") c ≡ true
unfolding contains_byte
host-avoids c h = ground arith

pub path-avoids : (c : ℕ) → is_escaped path_set c ≡ true → avoids (codes "?#") c ≡ true
unfolding contains_byte
path-avoids c h = ground arith
