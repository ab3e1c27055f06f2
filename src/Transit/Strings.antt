-- ===== src/Transit/Strings.antt =====
-- `DynString` of rust/transit/src/dyn_string.rs and `parse_string` of rust/transit/src/
-- parse_string.rs. A text is the list of its UTF-8 bytes.
use micromegas.Prelude.{
  ℕ, ◌+◌, ◌%◌, ◌^◌, ◌<◌, ◌≡◌, ◌⊎◌, true, List, [], ◌∷◌, ◌++◌, Option, some, Result, ok, err, bail,
  panic, out_of_bounds, or_fail, ◌>>=◌, ◌==◌, if◌then◌else◌, length, get_elem?, length-append,
  get_elem?-append, append_assoc, arith,
}
use micromegas.Transit.Bytes.{
  window, window-append, read_any, le_bytes, length-le_bytes, read_any-le_bytes,
}
use micromegas.Transit.Utf8.{is_utf8, from_utf8, from_utf8_lossy, from_utf8_lossy-is_utf8}

-- `DynString::get_value_size`: `len() as u32`
abbrev pub dyn_string_size : List ℕ → ℕ
dyn_string_size text = length text % 2 ^ 32

-- `DynString::write_value` appends the bytes themselves.
abbrev pub write_dyn_string : List ℕ → List ℕ
write_dyn_string text = text

-- `DynString::read_value`
unfoldable pub read_dyn_string : List ℕ → ℕ → Option ℕ → Result (List ℕ)
unfolding from_utf8
read_dyn_string buffer ptr value_size = do
  buffer_size ← or_fail value_size panic
  bytes ← or_fail (window buffer ptr buffer_size) out_of_bounds
  or_fail (from_utf8 bytes) panic

pub read_dyn_string_lem :
    (front text back : List ℕ)
    → is_utf8 text ≡ true
    → read_dyn_string (front ++ (text ++ back)) (length front) (some (length text)) ≡ ok text
unfolding read_dyn_string
read_dyn_string_lem front text back h = rw (window-append front text back, h)

-- The texts of the three codecs; the decoder of UTF-16 is an argument.
module _ (from_utf16_lossy : List ℕ → List ℕ) where
  unfoldable pub decode : ℕ → List ℕ → Result (List ℕ)
  decode codec_id bytes =
      if codec_id == 0
      then ok (from_utf8_lossy bytes)
      else if codec_id == 1
      then (if length bytes % 2 == 0 then ok (from_utf16_lossy bytes) else err bail)
      else if codec_id == 2
      then ok (from_utf8_lossy bytes)
      else err bail

  -- The text at the cursor, and the cursor behind it. The slice of the text panics where the
  -- buffer is too short for it.
  unfoldable pub parse_string : List ℕ → ℕ → Result (List ℕ × ℕ)
  unfolding decode
  parse_string buffer cursor = do
    codec_id ← or_fail (get_elem? buffer cursor) panic
    string_len_bytes ← read_any 4 buffer (cursor + 1)
    string_buffer ← or_fail (window buffer (cursor + 1 + 4) string_len_bytes) panic
    text ← decode codec_id string_buffer
    ok (text, cursor + 1 + 4 + string_len_bytes)

  decode-is_utf8 :
      (codec_id : ℕ) (text : List ℕ)
      → (codec_id == 0 ≡ true) ⊎ (codec_id == 2 ≡ true)
      → is_utf8 text ≡ true
      → decode codec_id text ≡ ok text
  unfolding decode
  decode-is_utf8 codec_id text codec valid = ground (arith, from_utf8_lossy-is_utf8 text valid)

  -- A text that a client wrote with the codec of ANSI or UTF-8 (0 or 2), its length in front, is read
  -- back whole if it is valid UTF-8, and the cursor stands behind it.
  pub parse_string_lem :
      (codec_id : ℕ) (front text back : List ℕ)
      → (codec_id == 0 ≡ true) ⊎ (codec_id == 2 ≡ true)
      → is_utf8 text ≡ true
      → length text < 256 ^ 4
      → parse_string
          (front ++ codec_id ∷ (le_bytes 4 (length text) ++ (text ++ back)))
          (length front)
        ≡ ok (text, length front + 1 + 4 + length text)
  unfolding parse_string
  parse_string_lem codec_id front text back codec valid fits =
      let le = le_bytes 4 (length text) in
      let at_size : read_any 4 (front ++ codec_id ∷ (le ++ (text ++ back))) (length front + 1)
          ≡ ok (length text) =
        rw (append_assoc, length-append) at
          (read_any-le_bytes 4 (length text) (front ++ codec_id ∷ []) (text ++ back) fits) in
      let at_text : window (front ++ codec_id ∷ (le ++ (text ++ back))) (length front + 1 + 4)
            (length text)
          ≡ some text =
        rw (length-append, length-append, length-le_bytes, append_assoc, append_assoc) at
          (window-append ((front ++ codec_id ∷ []) ++ le) text back) in
      rw (
        get_elem?-append front codec_id,
        at_size,
        at_text,
        decode-is_utf8 codec_id text codec valid,
      )
