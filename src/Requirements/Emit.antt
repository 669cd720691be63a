-- ===== src/Requirements/Emit.antt =====
-- The canonical text of the captured requirements, in
-- packages/core/src/requirements-offering-quote.ts (`emitCapturedValue` and what it calls).
--
-- Every piece is counted in UTF-8 bytes as it is appended, and nothing is appended beyond 32768.
-- `String(value)` of a number is the host's: it is the parameter `number_text`.
use tool.Common.{
  ℕ, ◌+◌, ◌/◌, ◌%◌, Bool, true, false, ◌&&◌, ◌||◌, List, [], ◌∷◌, ◌++◌, length, ltb, leb, ◌==◌,
  if◌then◌else◌, Result, ok, err, ◌>>=◌,
}
use tool.Common.Text.{Text, codes}
use tool.Js.{Number}
use tool.Requirements.Captured.{Captured, Properties, Items, end, property, nil, cons}
use tool.Requirements.Keys.{
  max_canonical_bytes, malformed, over_limit, is_high_surrogate, is_low_surrogate,
}

-- The chunks that are complete, the latest first, the current one and the bytes of all.
pub record Emitter : Type 0 where
  pub chunks : List Text
  pub current_chunk : Text
  pub byte_length : ℕ

abbrev pub emitter_chunk_code_units : ℕ
emitter_chunk_code_units = 1024

abbrev pub new_emitter : Emitter
new_emitter = record { chunks = []; current_chunk = []; byte_length = 0 }

-- `byte_length` stays within the limit, so the test is written without the difference.
unfoldable pub append_bounded : Emitter → Text → ℕ → Result Emitter
append_bounded e value bytes =
    let chunk = e.current_chunk ++ value in
    if ltb max_canonical_bytes (e.byte_length + bytes)
    then err over_limit
    else if leb emitter_chunk_code_units (length chunk)
    then ok (record {
      chunks = chunk ∷ e.chunks;
      current_chunk = [];
      byte_length = e.byte_length + bytes;
    })
    else ok (record e { current_chunk = chunk; byte_length = e.byte_length + bytes })

unfoldable pub is_ascii : Text → Bool
is_ascii [] = true
is_ascii (c ∷ s) = leb c 0x7f && is_ascii s

unfoldable pub append_ascii : Emitter → Text → Result Emitter
unfolding append_bounded is_ascii
append_ascii e value =
    if is_ascii value then append_bounded e value (length value) else err malformed

unfoldable pub append_utf8 : Emitter → Text → ℕ → Result Emitter
unfolding append_bounded
append_utf8 e value bytes = append_bounded e value bytes

-- A digit of `hexadecimalDigits`.
abbrev pub hexadecimal_digit : ℕ → ℕ
hexadecimal_digit d = if ltb d 10 then d + b'0' else d + 87

-- The shifts and masks of the source, as quotients and remainders.
abbrev pub unicode_escape : ℕ → Text
unicode_escape c =
    b'\\'
    ∷ b'u'
    ∷ hexadecimal_digit (c / 4096 % 16)
    ∷ hexadecimal_digit (c / 256 % 16)
    ∷ hexadecimal_digit (c / 16 % 16)
    ∷ hexadecimal_digit (c % 16)
    ∷ []

unfoldable pub emit_unicode_escape : Emitter → ℕ → Result Emitter
unfolding append_ascii
emit_unicode_escape e c = append_ascii e (unicode_escape c)

-- A code unit outside a surrogate pair.
unfoldable pub emit_unit : Emitter → ℕ → Result Emitter
unfolding append_ascii append_utf8 emit_unicode_escape
emit_unit e c =
    if c == 0x22
    then append_ascii e (b'\\' ∷ 0x22 ∷ [])
    else if c == 0x5c
    then append_ascii e (b'\\' ∷ 0x5c ∷ [])
    else if c == 0x08
    then append_ascii e (b'\\' ∷ b'b' ∷ [])
    else if c == 0x0c
    then append_ascii e (b'\\' ∷ b'f' ∷ [])
    else if c == 0x0a
    then append_ascii e (b'\\' ∷ b'n' ∷ [])
    else if c == 0x0d
    then append_ascii e (b'\\' ∷ b'r' ∷ [])
    else if c == 0x09
    then append_ascii e (b'\\' ∷ b't' ∷ [])
    else if ltb c 0x20
    then emit_unicode_escape e c
    else if is_high_surrogate c || is_low_surrogate c
    then emit_unicode_escape e c
    else if leb c 0x7f
    then append_ascii e (c ∷ [])
    else append_utf8 e (c ∷ []) (if leb c 0x7ff then 2 else 3)

-- The loop of `emitJsonString`.
unfoldable pub emit_units : Emitter → Text → Result Emitter
unfolding emit_unit append_utf8
emit_units e [] = ok e
emit_units e (c ∷ []) = emit_unit e c
emit_units e (c ∷ d ∷ s) =
    let pair = append_utf8 e (c ∷ d ∷ []) 4 >>= λ e1. emit_units e1 s in
    let single = emit_unit e c >>= λ e1. emit_units e1 (d ∷ s) in
    if is_high_surrogate c && is_low_surrogate d then pair else single

unfoldable pub emit_json_string : Emitter → Text → Result Emitter
unfolding emit_units append_ascii
emit_json_string e value = do
  e1 ← append_ascii e (0x22 ∷ [])
  e2 ← emit_units e1 value
  append_ascii e2 (0x22 ∷ [])

abbrev pub comma : Bool → Text
comma true = b',' ∷ []
comma false = []

module _ (number_text : Number → Text) where
  unfoldable mutual
    unfolding append_ascii emit_json_string

    pub emit_captured_value : Captured → Emitter → Result Emitter
    emit_captured_value Captured.null e = append_ascii e (codes "null")
    emit_captured_value (Captured.boolean true) e = append_ascii e (codes "true")
    emit_captured_value (Captured.boolean false) e = append_ascii e (codes "false")
    emit_captured_value (Captured.string s) e = emit_json_string e s
    emit_captured_value (Captured.number n) e = append_ascii e (number_text n)
    emit_captured_value (Captured.object ps) e = do
      e1 ← append_ascii e (b'{' ∷ [])
      e2 ← emit_properties ps false e1
      append_ascii e2 (b'}' ∷ [])
    emit_captured_value (Captured.array vs) e = do
      e1 ← append_ascii e (b'[' ∷ [])
      e2 ← emit_items vs false e1
      append_ascii e2 (b']' ∷ [])

    pub emit_properties : Properties → Bool → Emitter → Result Emitter
    emit_properties end needs_comma e = ok e
    emit_properties (property k v ps) needs_comma e = do
      e1 ← if needs_comma then append_ascii e (b',' ∷ []) else ok e
      e2 ← emit_json_string e1 k
      e3 ← append_ascii e2 (b':' ∷ [])
      e4 ← emit_captured_value v e3
      emit_properties ps true e4

    pub emit_items : Items → Bool → Emitter → Result Emitter
    emit_items nil needs_comma e = ok e
    emit_items (cons v vs) needs_comma e = do
      e1 ← if needs_comma then append_ascii e (b',' ∷ []) else ok e
      e2 ← emit_captured_value v e1
      emit_items vs true e2

-- The chunks in order, the latest first in the list, before the current one.
unfoldable pub join_chunks : List Text → Text → Text
join_chunks [] rest = rest
join_chunks (c ∷ cs) rest = join_chunks cs (c ++ rest)

unfoldable pub finish_canonical_emitter : Emitter → Text
unfolding join_chunks
finish_canonical_emitter e = join_chunks e.chunks e.current_chunk
