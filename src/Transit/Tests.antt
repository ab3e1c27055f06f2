-- ===== src/Transit/Tests.antt =====
-- Concrete runs of the event queue and the strings, and the theorems at concrete inputs.
use micromegas.Prelude.{ℕ, ◌+◌, ◌≡◌, refl, true, List, [], ◌∷◌, ◌++◌, ok, length, arith, inr}
use micromegas.Transit.Bytes.{le_bytes}
use micromegas.Transit.Strings.{parse_string, parse_string_lem}
use micromegas.Transit.Utf8.{is_utf8}

-- "hé" in UTF-8
abbrev he : List ℕ
he = 0x68 ∷ 0xc3 ∷ 0xa9 ∷ []

he-is_utf8 : is_utf8 he ≡ true
unfolding is_utf8
he-is_utf8 = refl

-- What stands in front of the text.
abbrev seven : List ℕ
seven = 7 ∷ []

parse_string_lem_example :
    parse_string
      (λ bytes. bytes)
      (seven ++ 2 ∷ (le_bytes 4 (length he) ++ (he ++ 9 ∷ [])))
      (length seven)
    ≡ ok (he, length seven + 1 + 4 + length he)
parse_string_lem_example =
    parse_string_lem (λ bytes. bytes) 2 seven he (9 ∷ []) (inr refl) he-is_utf8 (omega arith)
