-- ===== src/Config/Origins.antt =====
-- The configured list of origins, and which of them are granted access.
use agenthub_skill_runtime.Base.{
  ap, ◌≡◌, refl, ◌∙◌, not, ◌&&◌, ◌||◌, false, List, [], ◌∷◌, Bytes, codes, is_empty, eqb, any,
  trim_space, contains_byte, split_byte, All, arith,
}
use agenthub_skill_runtime.Ai.Events.Lines.{split_byte-line}
use agenthub_skill_runtime.Docsearch.{join_comma}
use agenthub_skill_runtime.Config.{Config, cors_origins}
use agenthub_skill_runtime.Middleware.Chain.{is_granted}
use agenthub_skill_runtime.Middleware.Chain.Reached.{is_granted_lem}

abbrev pub HasNoComma : Bytes → Type 0
HasNoComma s = contains_byte s b',' ≡ false

split_byte-plain : (s : Bytes) → HasNoComma s → split_byte s b',' ≡ s ∷ []
unfolding split_byte contains_byte
split_byte-plain [] h = refl
split_byte-plain (c ∷ s) h = ground (arith, split_byte-plain s)

split_byte-join :
    (o : Bytes) (os : List Bytes)
    → All HasNoComma (o ∷ os)
    → split_byte (join_comma (o ∷ os)) b',' ≡ o ∷ os
unfolding join_comma
split_byte-join o [] (h, hs) = split_byte-plain o h
split_byte-join o (p ∷ os) (h, hs) =
    split_byte-line o (join_comma (p ∷ os)) b',' h ∙ ap (λ r. o ∷ r) (split_byte-join p os hs)

-- If CORS_ORIGINS is written as origins without commas with commas between them, then a request's
-- origin is granted access exactly if it is not empty and one of them is "*", at any place, or equals
-- it but for blanks around the entry.
pub is_granted-cors_origins :
    (cfg : Config) (o : Bytes) (os : List Bytes) (origin : Bytes)
    → cfg.cors_allowed_origins ≡ join_comma (o ∷ os)
    → All HasNoComma (o ∷ os)
    → is_granted (cors_origins cfg) origin ≡ (
        not (is_empty origin)
        && (any (λ e. eqb e (codes "*")) (o ∷ os) || any (λ e. eqb (trim_space e) origin) (o ∷ os)))
unfolding cors_origins
is_granted-cors_origins cfg o os origin written plain =
    rw (written, split_byte-join o os plain) (is_granted_lem (o ∷ os) origin)
