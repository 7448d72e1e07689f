-- ===== src/Module/FlowHash.antt =====
-- runtime/actor/base/flow_hash.h: how the hash tables compare and hash the keys of flows and the ids
-- of actors, as words of eight bytes. The CRC instruction is a parameter.
use nfvactor.Prelude.{
  ℕ, zero, suc, ◌+◌, ◌*◌, ◌/◌, ◌<◌, ◌≡◌, ◌↔◌, refl, sym, ap, ◌∙◌, ◌&&◌, Option, none, take-drop,
  take_all, length-take, length-drop, some, List, [], ◌∷◌, ◌++◌, ◌==◌, ltb, leb, if◌then◌else◌,
  length, take, drop, arith,
}
use nfvactor.Prelude.Bytes.{le_value, field}

-- The switch, which falls through from word `n - 1` down to word 0.
unfoldable pub words_differ : (ℕ → ℕ) → (ℕ → ℕ) → ℕ → ℕ
words_differ a b zero = 0
words_differ a b (suc n) = if a n == b n then words_differ a b n else 1

-- `none` stands for the default case, which is said to be unreachable.
unfoldable pub flow_keycmp : (ℕ → ℕ) → (ℕ → ℕ) → ℕ → Option ℕ
unfolding words_differ
flow_keycmp a b key_len =
    let n = key_len / 8 in if ltb 0 n && leb n 8 then some (words_differ a b n) else none

unfoldable pub actorid_keycmp : (ℕ → ℕ) → (ℕ → ℕ) → ℕ → Option ℕ
unfolding words_differ
actorid_keycmp a b key_len =
    let n = key_len / 8 in if ltb 0 n && leb n 8 then some (words_differ a b n) else none

module _ (crc32c_sse42_u64 : ℕ → ℕ → ℕ) where
  -- `n` times `init_val = crc32c_sse42_u64(*a++, init_val)`, from word `i` on.
  unfoldable pub crc_words : (ℕ → ℕ) → ℕ → ℕ → ℕ → ℕ
  crc_words a i zero init_val = init_val
  crc_words a i (suc n) init_val = crc_words a (i + 1) n (crc32c_sse42_u64 (a i) init_val)

  unfoldable pub flow_hash : (ℕ → ℕ) → ℕ → ℕ → Option ℕ
  unfolding crc_words
  flow_hash a key_len init_val =
      let n = key_len / 8 in if ltb 0 n && leb n 8 then some (crc_words a 0 n init_val) else none

  unfoldable pub actorid_hash : (ℕ → ℕ) → ℕ → ℕ → Option ℕ
  unfolding crc_words
  actorid_hash a key_len init_val =
      let n = key_len / 8 in if ltb 0 n && leb n 8 then some (crc_words a 0 n init_val) else none

-- The words of a key that is given by its bytes.
abbrev pub word : List ℕ → ℕ → ℕ
word key i = field key (8 * i) 8

abbrev pub AllBytes : List ℕ → Type 0
AllBytes [] = Unit
AllBytes (b ∷ l) = (b < 256) × AllBytes l

le_value_injective :
    (l l' : List ℕ)
    → AllBytes l
    → AllBytes l'
    → length l ≡ length l'
    → le_value l ≡ le_value l'
    → l ≡ l'
unfolding le_value
le_value_injective [] [] a a' n e = refl
le_value_injective [] (b' ∷ l') a a' n e = absurd (omega arith)
le_value_injective (b ∷ l) [] a a' n e = absurd (omega arith)
le_value_injective (b ∷ l) (b' ∷ l') a a' n e =
    let same : b ≡ b' = omega (arith, a.0, a'.0) in
    let rest = le_value_injective l l' a.1 a'.1 (omega arith) (omega (arith, a.0, a'.0)) in
    λ i. same i ∷ rest i

AllBytes-take : (n : ℕ) (l : List ℕ) → AllBytes l → AllBytes (take n l)
AllBytes-take zero l a = tt
AllBytes-take (suc n) [] a = tt
AllBytes-take (suc n) (b ∷ l) a = (a.0, AllBytes-take n l a.1)

AllBytes-drop : (n : ℕ) (l : List ℕ) → AllBytes l → AllBytes (drop n l)
AllBytes-drop zero l a = a
AllBytes-drop (suc n) [] a = tt
AllBytes-drop (suc n) (b ∷ l) a = AllBytes-drop n l a.1

compared :
    (a b : ℕ → ℕ)
    → (flow_keycmp a b 16 ≡ some 0 → (a 0 ≡ b 0) × (a 1 ≡ b 1))
      × (a 0 ≡ b 0 → a 1 ≡ b 1 → flow_keycmp a b 16 ≡ some 0)
unfolding flow_keycmp
compared a b = (λ h. ground arith, λ h k. ground arith)

-- Two keys of flows, of sixteen bytes each, are the same for the hash tables exactly when all their
-- bytes are the same.
pub flow_keycmp_lem :
    (key key' : List ℕ)
    → AllBytes key
    → AllBytes key'
    → length key ≡ 16
    → length key' ≡ 16
    → (flow_keycmp (word key) (word key') 16 ≡ some 0) ↔ (key ≡ key')
unfolding field
flow_keycmp_lem key key' a a' n n' =
    let rest = drop 8 key in
    let rest' = drop 8 key' in
    let short : length rest ≡ 8 = omega (arith, length-drop 8 key) in
    let short' : length rest' ≡ 8 = omega (arith, length-drop 8 key') in
    let low = λ (h : le_value (take 8 key) ≡ le_value (take 8 key')).
      le_value_injective (take 8 key) (take 8 key') (AllBytes-take 8 key a)
        (AllBytes-take 8 key' a')
        (length-take 8 key (omega arith) ∙ sym (length-take 8 key' (omega arith))) h in
    let high = λ (h : le_value (take 8 rest) ≡ le_value (take 8 rest')).
      le_value_injective rest rest' (AllBytes-drop 8 key a) (AllBytes-drop 8 key' a')
        (short ∙ sym short')
        (ap le_value (sym (take_all 8 rest short)) ∙ h ∙ ap le_value (take_all 8 rest' short')) in
    (
      λ h.
          let (e, f) = (compared (word key) (word key')).0 h in
          sym (take-drop 8 key) ∙ (λ i. low e i ++ high f i) ∙ take-drop 8 key',
      λ e. (compared (word key) (word key')).1 (ap (λ k. word k 0) e) (ap (λ k. word k 1) e),
    )
