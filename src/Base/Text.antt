-- ===== src/Base/Text.antt =====
-- Texts: decimal and hexadecimal numbers, and the pieces of an f-string.
use Prim.Native.Nat.{ℕ, zero, suc, ◌-◌, ◌/◌, ◌%◌}
use Prim.Native.Char.{code}
use Prim.Native.String.{String, compare, slice, ◌++◌ as append_text}
use mathlib.Core.Bool.{Bool, false, ◌||◌}
use package.text.Mathlib.Text.{◌==◌ as str_eq, is_le}
use mathlib.Core.List.{List, [], ◌∷◌, ◌++◌, map}
use zygisk_frida_packet_tcp.Base.Tests.{ltb, if◌then◌else◌}
use zygisk_frida_packet_tcp.Base.Lists.{length, get_or, replicate}
use zygisk_frida_packet_tcp.Base.Int.{ℤ, pos, negsuc}

-- An f-string is the list of its parts.
abbrev pub fstring : List String → String
fstring [] = ""
fstring (s ∷ parts) = append_text s (fstring parts)

-- `", ".join(parts)`.
unfoldable pub join_comma : List String → String
join_comma [] = ""
join_comma (s ∷ []) = s
join_comma (s ∷ t ∷ parts) = append_text s (append_text ", " (join_comma (t ∷ parts)))

abbrev digit_texts : List String
digit_texts =
    "0" ∷ "1" ∷ "2" ∷ "3" ∷ "4" ∷ "5" ∷ "6" ∷ "7" ∷ "8" ∷ "9" ∷ "a" ∷ "b" ∷ "c" ∷ "d" ∷ "e" ∷ "f"
    ∷ []

digit_text : ℕ → String
digit_text d = get_or digit_texts d "?"

-- The digits of `n` in base `b`, the highest first. Each round divides by `b`, so `n` rounds do.
digits : ℕ → ℕ → ℕ → List ℕ → List ℕ
digits b zero n out = n ∷ out
digits b (suc f) n out =
    let rest = digits b f (n / b) ((n % b) ∷ out) in if ltb n b then n ∷ out else rest

-- `str(n)` and `f"{n:x}"` of a number that is not negative.
unfoldable pub decimal : ℕ → String
unfolding digits digit_text
decimal n = fstring (map digit_text (digits 10 n n []))

unfoldable pub hex : ℕ → String
unfolding digits digit_text
hex n = fstring (map digit_text (digits 16 n n []))

-- `f"{n:012x}"`: zeros on the left up to twelve digits.
unfoldable pub hex12 : ℕ → String
unfolding digits digit_text
hex12 n =
    let ds = map digit_text (digits 16 n n []) in fstring (replicate (12 - length ds) "0" ++ ds)

-- `bytes.hex()`.
unfoldable pub hex_bytes : List ℕ → String
unfolding digit_text
hex_bytes [] = ""
hex_bytes (b ∷ bs) =
    append_text (digit_text (b / 16)) (append_text (digit_text (b % 16)) (hex_bytes bs))

-- The printable characters of ASCII, from the blank on.
abbrev printable : String
printable =
    " !\"#$%&'()*+,-./0123456789:;<=>?@ABCDEFGHIJKLMNOPQRSTUVWXYZ[\\]^_`abcdefghijklmnopqrstuvwxyz{|}~"

abbrev ascii_char : ℕ → String
ascii_char b =
    if ltb b 32 then "." else if ltb b 127 then slice printable (b - 32) (b - 31) else "."

-- `"".join(chr(b) if 32 <= b < 127 else "." for b in bs)`.
unfoldable pub ascii_text : List ℕ → String
ascii_text [] = ""
ascii_text (b ∷ bs) = append_text (ascii_char b) (ascii_text bs)

-- A literal `b"…"` of ASCII.
abbrev pub ascii_bytes : String → List ℕ
ascii_bytes String.[] = []
ascii_bytes (String.◌∷◌ c s) = code c ∷ ascii_bytes s

unfoldable pub decimal_ℤ : ℤ → String
unfolding decimal
decimal_ℤ (pos n) = decimal n
decimal_ℤ (negsuc n) = append_text "-" (decimal (suc n))

unfoldable pub hex_ℤ : ℤ → String
unfolding hex
hex_ℤ (pos n) = append_text "0x" (hex n)
hex_ℤ (negsuc n) = append_text "0x-" (hex (suc n))

-- `s in texts`.
unfoldable pub mem_text : String → List String → Bool
mem_text s [] = false
mem_text s (t ∷ ts) = str_eq t s || mem_text s ts

-- `[t for t in texts if test(t)]`.
unfoldable pub keep {ℓ} : {A : Type ℓ} → (A → Bool) → List A → List A
keep test [] = []
keep test (t ∷ ts) = if test t then t ∷ keep test ts else keep test ts

insert_sorted : String → List String → List String
insert_sorted s [] = s ∷ []
insert_sorted s (t ∷ ts) = if is_le (compare s t) then s ∷ t ∷ ts else t ∷ insert_sorted s ts

-- `sorted(texts)`, in the order of code points.
unfoldable pub sorted : List String → List String
unfolding insert_sorted
sorted [] = []
sorted (t ∷ ts) = insert_sorted t (sorted ts)
