-- ===== src/Storage/Text.antt =====
-- What crates/kalpak-storage/src/manifest.rs uses of Rust's strings: the check that bytes are UTF-8,
-- which `read_line` makes, and `trim_end`.
use kalpakdb.Prelude.{
  ℕ, zero, suc, ◌-◌, ◌≡◌, refl, Bool, true, false, ◌&&◌, ◌||◌, [], ◌∷◌, ◌++◌, Bytes, eqb, leb, ltb,
  if◌then◌else◌, arith, ◌∙◌, ap, sym,
}
use mathlib.Core.List.{reverse, reverse-append, reverse-reverse}

abbrev between : ℕ → ℕ → ℕ → Bool
between low high b = leb low b && leb b high

-- What a first byte asks for: how many bytes follow, and the range of the next one.
lead : ℕ → ℕ × ℕ × ℕ
lead b =
    if leb b 127
    then (0, 0, 0)
    else if between 194 223 b
    then (1, 128, 191)
    else if eqb b 224
    then (2, 160, 191)
    else if eqb b 237
    then (2, 128, 159)
    else if between 225 239 b
    then (2, 128, 191)
    else if eqb b 240
    then (3, 144, 191)
    else if between 241 243 b
    then (3, 128, 191)
    else if eqb b 244
    then (3, 128, 143)
    else (4, 0, 0)

-- `more` bytes of a character are missing, the next of them between `low` and `high`.
unfoldable pub utf8_from : ℕ → ℕ → ℕ → Bytes → Bool
unfolding lead
utf8_from zero low high [] = true
utf8_from (suc more) low high [] = false
utf8_from zero low high (b ∷ bs) =
    let asks = lead b in ltb asks.0 4 && utf8_from asks.0 asks.1 asks.2 bs
utf8_from (suc more) low high (b ∷ bs) = between low high b && utf8_from more 128 191 bs

abbrev pub is_utf8 : Bytes → Bool
is_utf8 bytes = utf8_from 0 0 0 bytes

and_left : (p q : Bool) → (p && q) ≡ true → p ≡ true
and_left true q h = refl
and_left false q h = h

and_right : (p q : Bool) → (p && q) ≡ true → q ≡ true
and_right true q h = h
and_right false q h = absurd (ground arith)

and_true : (p q : Bool) → p ≡ true → (p && q) ≡ q
and_true true q h = refl
and_true false q h = absurd (ground arith)

pub utf8_from-append :
    (more low high : ℕ) (a b : Bytes)
    → utf8_from more low high a ≡ true
    → utf8_from more low high (a ++ b) ≡ is_utf8 b
unfolding utf8_from
utf8_from-append zero low high [] [] h = refl
utf8_from-append zero low high [] (b ∷ bs) h = refl
utf8_from-append (suc more) low high [] b h = absurd (ground arith)
utf8_from-append zero low high (x ∷ a) b h =
    let asks = lead x in
    and_true (ltb asks.0 4) _ (and_left (ltb asks.0 4) _ h)
    ∙ utf8_from-append asks.0 asks.1 asks.2 a b (and_right (ltb asks.0 4) _ h)
utf8_from-append (suc more) low high (x ∷ a) b h =
    and_true (between low high x) _ (and_left (between low high x) _ h)
    ∙ utf8_from-append more 128 191 a b (and_right (between low high x) _ h)

-- How many bytes the white space at the end of a reversed string takes, 0 if there is none.
abbrev space_3 : ℕ → ℕ → ℕ → Bool
space_3 a b c =
    eqb a 225 && eqb b 154 && eqb c 128
    || eqb a 226 && eqb b 128 && (between 128 138 c || eqb c 168 || eqb c 169 || eqb c 175)
    || eqb a 226 && eqb b 129 && eqb c 159
    || eqb a 227 && eqb b 128 && eqb c 128

abbrev wide_space : ℕ → Bytes → ℕ
wide_space c [] = 0
wide_space c (b ∷ []) = if eqb b 194 && (eqb c 133 || eqb c 160) then 2 else 0
wide_space c (b ∷ a ∷ rest) =
    if eqb b 194 && (eqb c 133 || eqb c 160) then 2 else if space_3 a b c then 3 else 0

abbrev space_length : Bytes → ℕ
space_length [] = 0
space_length (c ∷ rest) =
    if eqb c 32 || between 9 13 c then 1 else if leb c 127 then 0 else wide_space c rest

unfoldable pub trim_reversed : ℕ → Bytes → Bytes
trim_reversed skip [] = []
trim_reversed (suc skip) (b ∷ bs) = trim_reversed skip bs
trim_reversed zero (b ∷ bs) =
    let n = space_length (b ∷ bs) in
    let rest = trim_reversed (n - 1) bs in if eqb n 0 then b ∷ bs else rest

-- `str::trim_end`
unfoldable pub trim_end : Bytes → Bytes
unfolding trim_reversed
trim_end text = reverse (trim_reversed 0 (reverse text))

-- A JSON object ends in a brace, so that only the newline after it is trimmed.
pub trim_end-object : (text : Bytes) → trim_end ((text ++ 125 ∷ []) ++ 10 ∷ []) ≡ text ++ 125 ∷ []
unfolding trim_end trim_reversed
trim_end-object text =
    let turned : reverse ((text ++ 125 ∷ []) ++ 10 ∷ []) ≡ 10 ∷ reverse (text ++ 125 ∷ []) =
      reverse-append (text ++ 125 ∷ []) (10 ∷ []) in
    let brace : reverse (text ++ 125 ∷ []) ≡ 125 ∷ reverse text = reverse-append text (125 ∷ []) in
    ap (λ r. reverse (trim_reversed 0 r)) (turned ∙ ap (λ r. 10 ∷ r) brace)
    ∙ ap reverse (sym brace)
    ∙ reverse-reverse (text ++ 125 ∷ [])

pub trim_end-brace : (text : Bytes) → trim_end (text ++ 125 ∷ []) ≡ text ++ 125 ∷ []
unfolding trim_end trim_reversed
trim_end-brace text =
    let brace : reverse (text ++ 125 ∷ []) ≡ 125 ∷ reverse text = reverse-append text (125 ∷ []) in
    ap (λ r. reverse (trim_reversed 0 r)) brace
    ∙ ap reverse (sym brace)
    ∙ reverse-reverse (text ++ 125 ∷ [])
