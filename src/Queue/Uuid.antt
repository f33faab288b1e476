-- ===== src/Queue/Uuid.antt =====
-- str(uuid): 32 hexadecimal digits in groups of 8, 4, 4, 4 and 12.
use Prim.Native.Char.{Char}
use Prim.Native.String.{String}
use Prim.Native.Nat.{ℕ, zero, suc, ◌/◌, ◌%◌, ◌^◌}
use mathlib.Core.List.{List, [], ◌∷◌}
use mathlib.Core.Path.{◌≡◌, refl}

digit_of : List Char → ℕ → Char
digit_of [] n = "0"
digit_of (c ∷ cs) zero = c
digit_of (c ∷ cs) (suc n) = digit_of cs n

hex_digits : List Char
hex_digits =
    "0" ∷ "1" ∷ "2" ∷ "3" ∷ "4" ∷ "5" ∷ "6" ∷ "7" ∷ "8" ∷ "9" ∷ "a" ∷ "b" ∷ "c" ∷ "d" ∷ "e" ∷ "f"
    ∷ []

-- The lowest digits of a number, before a text.
hex : ℕ → ℕ → String → String
unfolding digit_of hex_digits
hex zero n rest = rest
hex (suc k) n rest = hex k (n / 16) (String.◌∷◌ (digit_of hex_digits (n % 16)) rest)

unfoldable pub uuid_text : ℕ → String
unfolding hex
uuid_text n = hex 8 (n / 16 ^ 24) (
    String.◌∷◌ "-" (
      hex 4 (n / 16 ^ 20) (
        String.◌∷◌ "-" (
          hex 4 (n / 16 ^ 16)
            (String.◌∷◌ "-" (hex 4 (n / 16 ^ 12) (String.◌∷◌ "-" (hex 12 n String.[]))))))))

uuid_text_shape :
    uuid_text 0x00112233445566778899aabbccddeeff ≡ "00112233-4455-6677-8899-aabbccddeeff"
unfolding uuid_text
uuid_text_shape = refl
