-- ===== src/Prelude/Lines.antt =====
-- Files of lines as bytes: `split_inclusive(b'\n')` and `read_line`, which cut at the same places.
use kalpakdb.Prelude.{
  ℕ, zero, suc, ◌≡◌, refl, ap, Bool, true, false, not, ◌&&◌, List, [], ◌∷◌, ◌++◌, Bytes, eqb,
  if◌then◌else◌, length, take, arith, ◌<◌,
}

cons_first : ℕ → List Bytes → List Bytes
cons_first b [] = (b ∷ []) ∷ []
cons_first b (l ∷ ls) = (b ∷ l) ∷ ls

-- The lines of a file, each with its newline; the last one may lack it.
unfoldable pub lines : Bytes → List Bytes
unfolding cons_first
lines [] = []
lines (b ∷ bs) = let rest = lines bs in if eqb b 10 then (b ∷ []) ∷ rest else cons_first b rest

-- `line.ends_with(b"\n")`
unfoldable pub ends_line : Bytes → Bool
ends_line [] = false
ends_line (b ∷ []) = eqb b 10
ends_line (b ∷ c ∷ bs) = ends_line (c ∷ bs)

unfoldable pub no_newline : Bytes → Bool
no_newline [] = true
no_newline (b ∷ bs) = not (eqb b 10) && no_newline bs

abbrev pub line_of : Bytes → Bytes
line_of text = text ++ 10 ∷ []

pub lines-line :
    (text rest : Bytes)
    → no_newline text ≡ true
    → lines (line_of text ++ rest) ≡ line_of text ∷ lines rest
unfolding lines no_newline cons_first
lines-line [] rest h = refl
lines-line (b ∷ bs) rest h = ground (arith, lines-line bs rest)

-- A file without a newline is one line, or none.
pub lines-tail : (b : ℕ) (bs : Bytes) → no_newline (b ∷ bs) ≡ true → lines (b ∷ bs) ≡ (b ∷ bs) ∷ []
unfolding lines no_newline cons_first
lines-tail b [] h = ground arith
lines-tail b (c ∷ bs) h = ground (arith, lines-tail c bs)

pub ends_line-line : (text : Bytes) → ends_line (line_of text) ≡ true
unfolding ends_line
ends_line-line [] = refl
ends_line-line (b ∷ []) = refl
ends_line-line (b ∷ c ∷ bs) = ends_line-line (c ∷ bs)

pub ends_line-tail : (text : Bytes) → no_newline text ≡ true → ends_line text ≡ false
unfolding ends_line no_newline
ends_line-tail [] h = refl
ends_line-tail (b ∷ []) h = ground arith
ends_line-tail (b ∷ c ∷ bs) h = ends_line-tail (c ∷ bs) (ground arith)

pub no_newline-take :
    (n : ℕ) (text : Bytes) → no_newline text ≡ true → no_newline (take n text) ≡ true
unfolding no_newline
no_newline-take zero text h = refl
no_newline-take (suc n) [] h = refl
no_newline-take (suc n) (b ∷ bs) h = ground (arith, no_newline-take n bs)

pub no_newline-append :
    (a b : Bytes) → no_newline a ≡ true → no_newline b ≡ true → no_newline (a ++ b) ≡ true
unfolding no_newline
no_newline-append [] b h k = k
no_newline-append (x ∷ a) b h k = ground (arith, no_newline-append a b)

-- What is cut off a line before its newline is cut off its text.
pub take-line :
    (n : ℕ) (text : Bytes) → n < length (line_of text) → take n (line_of text) ≡ take n text
take-line zero text lt = refl
take-line (suc n) [] lt = absurd (omega arith)
take-line (suc n) (b ∷ bs) lt = ap (λ l. b ∷ l) (take-line n bs (omega arith))
