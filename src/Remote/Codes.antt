-- ===== src/Remote/Codes.antt =====
-- The texts that runtime/rpc/ring_msg.h writes and reads, as codes of characters: numbers in
-- decimal by `std::to_string` and by streams, and bytes in hexadecimal by `sprintf` and `sscanf`.
-- Texts hold no white space and no signs but that of a negative number.
use Prim.Native.Char.{code}
use Prim.Native.String.{String}
use nfvactor.Prelude.{
  ℕ, zero, suc, ◌+◌, ◌-◌, ◌*◌, ◌/◌, ◌%◌, ◌^◌, ◌<◌, ◌≡◌, refl, Bool, true, false, ◌&&◌, Option, none,
  some, List, [], ◌∷◌, ◌++◌, ltb, leb, ◌==◌, if◌then◌else◌, arith,
}

abbrev pub Text : Type 0
Text = List ℕ

-- The characters of a text in the source.
abbrev pub codes : String → Text
codes String.[] = []
codes (String.◌∷◌ c s) = code c ∷ codes s

unfoldable pub same_text : Text → Text → Bool
same_text [] [] = true
same_text [] (b ∷ t) = false
same_text (a ∷ s) [] = false
same_text (a ∷ s) (b ∷ t) = a == b && same_text s t

pub same_text→eq : (s t : Text) → same_text s t ≡ true → s ≡ t
unfolding same_text
same_text→eq [] [] h = refl
same_text→eq [] (b ∷ t) h = cc
same_text→eq (a ∷ s) [] h = cc
same_text→eq (a ∷ s) (b ∷ t) h = ground (arith, same_text→eq s t)

pub same_text_refl : (s : Text) → same_text s s ≡ true
unfolding same_text
same_text_refl [] = refl
same_text_refl (a ∷ s) = ground (arith, same_text_refl s)

-- The digits of a number in front of a text; twenty suffice for 64 bits.
digits : ℕ → ℕ → Text → Text
digits zero n out = out
digits (suc f) n out =
    let rest = digits f (n / 10) ((b'0' + n % 10) ∷ out) in if n == 0 then out else rest

-- `std::to_string`, and `ss << n`
unfoldable pub decimal : ℕ → Text
unfolding digits
decimal n = if n == 0 then b'0' ∷ [] else digits 20 n []

-- The same for an `int32_t`, which is given by its bits.
unfoldable pub int_text : ℕ → Text
unfolding decimal
int_text n = if ltb n (2 ^ 31) then decimal n else b'-' ∷ decimal (2 ^ 32 - n)

unfoldable pub is_digit : ℕ → Bool
is_digit c = leb b'0' c && leb c b'9'

unfoldable pub read_digits : Text → ℕ → ℕ × Text
unfolding is_digit
read_digits [] n = (n, [])
read_digits (c ∷ s) n = if is_digit c then read_digits s (n * 10 + (c - b'0')) else (n, c ∷ s)

unfoldable pub starts_with_digit : Text → Bool
unfolding is_digit
starts_with_digit [] = false
starts_with_digit (c ∷ s) = is_digit c

-- `ss >> n` into a `uint32_t`; `none` stands for a stream that has failed.
unfoldable pub read_uint : Text → Option (ℕ × Text)
unfolding read_digits starts_with_digit
read_uint s =
    let (n, rest) = read_digits s 0 in
    if starts_with_digit s && ltb n (2 ^ 32) then some (n, rest) else none

-- `ss >> ch`
unfoldable pub read_char : Text → Option (ℕ × Text)
read_char [] = none
read_char (c ∷ s) = some (c, s)

read_digits-digits :
    (f n : ℕ) (out rest : Text)
    → n < 10 ^ f
    → read_digits (digits f n out ++ rest) 0 ≡ read_digits (out ++ rest) n
unfolding digits read_digits
read_digits-digits zero n out rest h = ground arith
read_digits-digits (suc f) n out rest h =
    ground (arith, read_digits-digits f (n / 10) ((b'0' + n % 10) ∷ out) rest)

read_digits-stop :
    (rest : Text) (n : ℕ) → starts_with_digit rest ≡ false → read_digits rest n ≡ (n, rest)
unfolding read_digits starts_with_digit
read_digits-stop [] n h = refl
read_digits-stop (c ∷ s) n h = rw h refl

digits-start :
    (f n : ℕ) (c : ℕ) (out rest : Text)
    → is_digit c ≡ true
    → starts_with_digit (digits f n (c ∷ out) ++ rest) ≡ true
unfolding digits starts_with_digit is_digit
digits-start zero n c out rest h = h
digits-start (suc f) n c out rest h =
    ground (arith, digits-start f (n / 10) (b'0' + n % 10) (c ∷ out) rest)

pub decimal-start : (n : ℕ) (rest : Text) → starts_with_digit (decimal n ++ rest) ≡ true
unfolding decimal starts_with_digit is_digit digits
decimal-start n rest = ground (arith, digits-start 19 (n / 10) (b'0' + n % 10) [] rest)

read_digits-decimal :
    (n : ℕ) (rest : Text)
    → n < 2 ^ 32
    → starts_with_digit rest ≡ false
    → read_digits (decimal n ++ rest) 0 ≡ (n, rest)
unfolding decimal read_digits is_digit
read_digits-decimal n rest h stop =
    ground (arith, read_digits-digits 20 n [] rest, read_digits-stop rest n)

-- A number of 32 bits that is written is read back, up to what follows it.
pub read_uint-decimal :
    (n : ℕ) (rest : Text)
    → n < 2 ^ 32
    → starts_with_digit rest ≡ false
    → read_uint (decimal n ++ rest) ≡ some (n, rest)
unfolding read_uint
read_uint-decimal n rest h stop =
    let value : read_digits (decimal n ++ rest) 0 ≡ (n, rest) = read_digits-decimal n rest h stop in
    rw (value, decimal-start n rest) (ground arith)
