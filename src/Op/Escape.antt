-- ===== src/Op/Escape.antt =====
-- src/ngx_http_sqlitelog_op.c: ngx_http_sqlitelog_op_escape, which makes a variable's value
-- printable. A byte that the bitmap marks becomes \xHH; every other byte is copied.
-- `Size` measures what is written, `Decode` reads it back.
pub mod Size
pub mod Decode
use Prim.Native.Nat.{bit_and}
use ngx_sqlite_log.Base.{
  ℕ, ◌+◌, ◌-◌, ◌/◌, ◌%◌, ◌^◌, Bool, not, List, [], ◌∷◌, ◌++◌, ltb, ◌==◌, if◌then◌else◌,
}

-- The bitmap's words, from byte 0 on.
bitmap : ℕ → ℕ
bitmap word =
    if word == 0
    then 0xffffffff
    else if word == 1
    then 0x00000004
    else if word == 2
    then 0x10000000
    else if word == 3
    then 0x80000000
    else 0xffffffff

-- escape[*src >> 5] & (1U << (*src & 0x1f))
pub is_escaped : ℕ → Bool
unfolding bitmap
is_escaped c = not (bit_and (bitmap (c / 32)) (2 ^ (c % 32)) == 0)

-- "0123456789ABCDEF"[d]
hex : ℕ → ℕ
hex d = if ltb d 10 then b'0' + d else b'A' + (d - 10)

escape_byte : ℕ → List ℕ
unfolding is_escaped hex
escape_byte c = if is_escaped c then b'\\' ∷ b'x' ∷ hex (c / 16) ∷ hex (c % 16) ∷ [] else c ∷ []

-- The call with dst == NULL: how many bytes are to be escaped.
unfoldable pub escape_count : List ℕ → ℕ
unfolding is_escaped
escape_count [] = 0
escape_count (c ∷ src) = (if is_escaped c then 1 else 0) + escape_count src

-- The call with a buffer: the bytes that it writes there.
unfoldable pub escape_copy : List ℕ → List ℕ
unfolding escape_byte
escape_copy [] = []
escape_copy (c ∷ src) = escape_byte c ++ escape_copy src
