-- ===== src/Op/Escape/Decode.antt =====
-- The escaped text read back: no two values are escaped to one text.
use ngx_sqlite_log.Base.{
  ℕ, ◌+◌, ◌-◌, ◌*◌, ◌<◌, ◌≡◌, refl, ap, ◌∙◌, Bool, true, false, ◌&&◌, not, List, [], ◌∷◌, ◌++◌,
  arith, ltb, ◌==◌, if◌then◌else◌, All, all_bytes, all_bytes_lem,
}
use ngx_sqlite_log.Op.Escape.{escape_byte, escape_copy}

-- Where a reader of escaped text stands: outside an escape, after \, after \x, after \xH.
pub data Mode : Type 0 where
  plain marker high : Mode
  low : ℕ → Mode

unhex : ℕ → ℕ
unhex d = if ltb d b'A' then d - b'0' else d - b'A' + 10

-- What a client of the database does to get the value back.
pub unescape_from : Mode → List ℕ → List ℕ
unescape_from m [] = []
unescape_from plain (c ∷ s) = elim (c == b'\\') [
  | true ↦ unescape_from marker s
  | false ↦ c ∷ unescape_from plain s
]
unescape_from marker (c ∷ s) = unescape_from high s
unescape_from high (c ∷ s) = unescape_from (low (unhex c)) s
unescape_from (low h) (c ∷ s) = (h * 16 + unhex c) ∷ unescape_from plain s

pub unescape : List ℕ → List ℕ
unfolding unescape_from
unescape s = unescape_from plain s

is_one_byte : ℕ → List ℕ → Bool
is_one_byte c [] = false
is_one_byte c (d ∷ []) = d == c && not (d == b'\\')
is_one_byte c (b ∷ x ∷ h ∷ l ∷ []) = b == b'\\' && unhex h * 16 + unhex l == c
is_one_byte c (_ ∷ _ ∷ _) = false

bytes_decode : all_bytes (λ c. is_one_byte c (escape_byte c)) ≡ true
unfolding all_bytes escape_byte is_one_byte unhex
bytes_decode = refl

unescape-one :
    (c : ℕ) (s rest : List ℕ)
    → is_one_byte c s ≡ true
    → unescape_from plain (s ++ rest) ≡ c ∷ unescape_from plain rest
unfolding is_one_byte unescape_from
unescape-one c [] rest h = cc
unescape-one c (d ∷ []) rest h = ground arith
unescape-one c (b ∷ x ∷ []) rest h = cc
unescape-one c (b ∷ x ∷ y ∷ []) rest h = cc
unescape-one c (b ∷ x ∷ y ∷ z ∷ []) rest h = ground arith
unescape-one c (b ∷ x ∷ y ∷ z ∷ w ∷ s) rest h = cc

-- Decoding gives back the value, for every value made of bytes.
pub unescape-escape_copy : (s : List ℕ) → All (λ c. c < 256) s → unescape (escape_copy s) ≡ s
unfolding unescape escape_copy
unescape-escape_copy [] h = refl
unescape-escape_copy (c ∷ s) h =
    unescape-one c (escape_byte c) (escape_copy s) (all_bytes_lem _ c bytes_decode h.0)
    ∙ ap (◌∷◌ c) (unescape-escape_copy s h.1)
