-- ===== src/Remote/Keys.antt =====
-- The keys of the tables of runtimes: an IP address and a port (runtime/rpc/call_data_impl.h).
use mathlib.Core.List.{append_assoc, append-nil}
use nfvactor.Prelude.{
  ℕ, ◌-◌, ◌%◌, ◌^◌, ◌<◌, ◌≡◌, ◌≢◌, refl, sym, ap, ◌∙◌, true, some, [], ◌∷◌, ◌++◌, arith, drop,
  length, some_injective,
}
use nfvactor.Remote.Codes.{
  Text, decimal, int_text, read_uint, read_char, read_uint-decimal, starts_with_digit,
  decimal-start,
}
use nfvactor.Prelude.Bytes.{drop_front}
use native.Mathlib.Decide.{dec_lt}
use mathlib.Core.Path.{subst}
use nfvactor.Remote.RoundTrip.{read_octet, octets}
use nfvactor.Remote.{concat_with_colon}
use nfvactor.Remote.Config.{convert_uint32t_ip, convert_string_ip}

read_before_colon :
    (n : ℕ) (rest : Text)
    → read_uint (decimal (n % 256) ++ b':' ∷ rest) ≡ some (n % 256, b':' ∷ rest)
unfolding starts_with_digit
read_before_colon n rest = read_uint-decimal (n % 256) (b':' ∷ rest) (omega arith) refl

-- The address in front of a colon is read.
convert_string_ip-colon :
    (ip : ℕ) (rest : Text)
    → ip < 2 ^ 32
    → convert_string_ip (convert_uint32t_ip ip ++ b':' ∷ rest) ≡ some ip
unfolding convert_string_ip convert_uint32t_ip read_char
convert_string_ip-colon ip rest h =
    simp (append_assoc, read_octet, read_before_colon) (ap some (octets ip h))

decimal_injective : (a b : ℕ) → a < 2 ^ 32 → b < 2 ^ 32 → decimal a ≡ decimal b → a ≡ b
unfolding starts_with_digit
decimal_injective a b h k e =
    let read = λ (n : ℕ) (l : n < 2 ^ 32).
      let p : read_uint (decimal n) ≡ some (n, []) =
        ap read_uint (sym (append-nil (decimal n))) ∙ read_uint-decimal n [] l refl in
      p in
    let both : some (a, []) ≡ some (b, []) = sym (read a h) ∙ ap read_uint e ∙ read b k in
    sym (ap (λ p. p.0) (some_injective both))

int_text_cases :
    (a : ℕ)
    → (a < 2 ^ 31 → int_text a ≡ decimal a)
      × (¬ (a < 2 ^ 31) → int_text a ≡ b'-' ∷ decimal (2 ^ 32 - a))
unfolding int_text
int_text_cases a = (λ h. ground arith, λ h. ground arith)

-- A number that is not negative begins with a digit.
decimal-ne-negative : (a : ℕ) (s : Text) → decimal a ≢ b'-' ∷ s
unfolding starts_with_digit
decimal-ne-negative a s e =
    let start : starts_with_digit (decimal a) ≡ true =
      ap starts_with_digit (sym (append-nil (decimal a))) ∙ decimal-start a [] in
    absurd (cc (subst (λ t. starts_with_digit t ≡ true) e start))

int_text_injective : (a b : ℕ) → a < 2 ^ 32 → b < 2 ^ 32 → int_text a ≡ int_text b → a ≡ b
int_text_injective a b h k e =
    let (small_a, large_a) = int_text_cases a in
    let (small_b, large_b) = int_text_cases b in
    elim (dec_lt a (2 ^ 31)) [
      | yes p ↦ elim (dec_lt b (2 ^ 31)) [
        | yes q ↦ decimal_injective a b h k (sym (small_a p) ∙ e ∙ small_b q)
        | no q ↦ absurd (decimal-ne-negative a _ (sym (small_a p) ∙ e ∙ large_b q))
      ]
      | no p ↦ elim (dec_lt b (2 ^ 31)) [
        | yes q ↦ absurd (decimal-ne-negative b _ (sym (small_b q) ∙ sym e ∙ large_a p))
        | no q ↦
            let same =
              decimal_injective (2 ^ 32 - a) (2 ^ 32 - b) (omega arith) (omega arith)
                (ap (drop 1) (sym (large_a p) ∙ e ∙ large_b q)) in
            omega (arith, same)
      ]
    ]

-- Different runtimes have different keys: the key of an address tells the IP address of 32 bits
-- and the port, negative ones included.
pub concat_with_colon_injective :
    (ip ip' port port' : ℕ)
    → ip < 2 ^ 32
    → ip' < 2 ^ 32
    → port < 2 ^ 32
    → port' < 2 ^ 32
    → concat_with_colon (convert_uint32t_ip ip) port
      ≡ concat_with_colon (convert_uint32t_ip ip') port'
    → (ip ≡ ip') × (port ≡ port')
unfolding concat_with_colon
concat_with_colon_injective ip ip' port port' h h' k k' e =
    let read : some ip ≡ some ip' =
      sym (convert_string_ip-colon ip (int_text port) h)
      ∙ ap convert_string_ip e
      ∙ convert_string_ip-colon ip' (int_text port') h' in
    let same : ip ≡ ip' = sym (some_injective read) in
    let front = convert_uint32t_ip ip in
    let e' : front ++ b':' ∷ int_text port ≡ front ++ b':' ∷ int_text port' =
      e ∙ ap (λ i. convert_uint32t_ip i ++ b':' ∷ int_text port') (sym same) in
    let cut = λ (s : Text). drop_front (length front) front s refl in
    let tails : b':' ∷ int_text port ≡ b':' ∷ int_text port' =
      sym (cut (b':' ∷ int_text port))
      ∙ ap (drop (length front)) e'
      ∙ cut (b':' ∷ int_text port') in
    (same, int_text_injective port port' k k' (ap (drop 1) tails))
