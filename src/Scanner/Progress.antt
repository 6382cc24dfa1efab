-- ===== src/Scanner/Progress.antt =====
-- mcproxy/src/parser/scanner.cpp: every token takes a character, so the scanner comes to an end.
use mcproxy.Base.{
  ℕ, zero, suc, ◌+◌, ◌≤◌, ◌≡◌, refl, ap, ◌⊎◌, inl, inr, false, some, List, [], ◌∷◌, arith,
  if◌then◌else◌, Bool-cases, Option-cases, length,
}
use mcproxy.Text.{Text}
use mcproxy.Ending.{◌>>=◌, Ending, failed_to_scan, returned, thrown}
use mcproxy.Token.{is_nil, Token}
use mcproxy.Scanner.{
  skip_spaces, read_word, read_quoted, read_arrow, read_string, read_token, read_next_token,
  fill_token_vec, scanner,
}

skip_spaces-length : (s : Text) → length (skip_spaces s) ≤ length s
unfolding skip_spaces
skip_spaces-length [] = omega arith
skip_spaces-length (c ∷ s) = ground (arith, skip_spaces-length s)

read_word-length : (s : Text) → length (read_word s).1 ≤ length s
unfolding read_word
read_word-length [] = omega arith
read_word-length (c ∷ s) = ground (arith, read_word-length s)

read_quoted-length : (s : Text) → length (read_quoted s).1 ≤ length s
unfolding read_quoted
read_quoted-length [] = omega arith
read_quoted-length (c ∷ s) = ground (arith, read_quoted-length s)

read_arrow-length : (s : Text) → length (read_arrow s).1 ≤ length s
unfolding read_arrow
read_arrow-length [] = omega arith
read_arrow-length (c ∷ []) = ground arith
read_arrow-length (c ∷ d ∷ s) = ground arith

read_token-length :
    (s : Text) (t : Token) (r : Text)
    → read_token s ≡ some (t, r)
    → is_nil t ≡ false
    → length r + 1 ≤ length s
unfolding read_token read_string
read_token-length [] t r e n = ground arith
read_token-length (c ∷ s) t r e n =
    ground (arith, read_word-length s, read_quoted-length s, read_arrow-length s)

pub read_next_token-length :
    (s : Text) (t : Token) (r : Text)
    → read_next_token s ≡ some (t, r)
    → is_nil t ≡ false
    → length r + 1 ≤ length s
unfolding read_next_token
read_next_token-length s t r e n =
    omega (arith, skip_spaces-length s, read_token-length (skip_spaces s) t r e n)

pub fill_token_vec-some :
    (fuel : ℕ) (s : Text) (t : Token) (r : Text)
    → read_next_token s ≡ some (t, r)
    → fill_token_vec (suc fuel) s
      ≡ (if is_nil t then returned [] else (fill_token_vec fuel r >>= λ l. returned (t ∷ l)))
unfolding fill_token_vec
fill_token_vec-some fuel s t r h = rw (fill_token_vec, h)

pub ScanEnds : Ending (List Token) → Type 0
ScanEnds m = ((l : List Token) × (m ≡ returned l)) ⊎ (m ≡ thrown failed_to_scan)

cons-ScanEnds :
    (t : Token) (m : Ending (List Token)) → ScanEnds m → ScanEnds (m >>= λ l. returned (t ∷ l))
unfolding ScanEnds
cons-ScanEnds t m (inl (l, e)) =
    inl (t ∷ l, ap (λ (k : Ending (List Token)). k >>= λ l. returned (t ∷ l)) e)
cons-ScanEnds t m (inr e) = inr (ap (λ (k : Ending (List Token)). k >>= λ l. returned (t ∷ l)) e)

fill_token_vec-ends : (fuel : ℕ) (s : Text) → length s + 1 ≤ fuel → ScanEnds (fill_token_vec fuel s)
unfolding fill_token_vec ScanEnds
fill_token_vec-ends zero s h = absurd (omega arith)
fill_token_vec-ends (suc fuel) s h = elim (Option-cases (read_next_token s)) [
  | inl e ↦ rw (fill_token_vec, e) (inr refl)
  | inr ((t, r), e) ↦ elim (Bool-cases (is_nil t)) [
    | inl n ↦ rw (fill_token_vec-some fuel s t r e, n) (inl ([], refl))
    | inr n ↦
        rw (fill_token_vec-some fuel s t r e, n)
          (cons-ScanEnds t _
            (fill_token_vec-ends fuel r (omega (arith, read_next_token-length s t r e n))))
  ]
]

-- The scanner comes to an end on every text: it returns tokens or throws.
pub scanner-ends :
    (s : Text) → ((l : List Token) × (scanner s ≡ returned l)) ⊎ (scanner s ≡ thrown failed_to_scan)
unfolding scanner ScanEnds
scanner-ends s = fill_token_vec-ends (suc (length s)) s (omega arith)
