-- ===== src/Configuration/Comments.antt =====
-- mcproxy/src/parser/configuration.cpp: what `delete_comments` leaves.
use mcproxy.Base.{◌≡◌, refl, ◌⊎◌, inl, inr, Bool, true, false, [], ◌∷◌, arith, Bool-cases}
use mcproxy.Text.{Text}
use mcproxy.Parser.Numbers.{has_char}
use mcproxy.Configuration.{delete_from, delete_comments, count_chars}

delete_from-has_char : (b : Bool) (s : Text) → has_char b'#' (delete_from b s) ≡ false
unfolding delete_from has_char
delete_from-has_char b [] = refl
delete_from-has_char true (c ∷ s) =
    ground (arith, delete_from-has_char true s, delete_from-has_char false s)
delete_from-has_char false (c ∷ s) =
    ground (arith, delete_from-has_char true s, delete_from-has_char false s)

delete_from-count_chars :
    (b : Bool) (s : Text) → count_chars (delete_from b s) 10 ≡ count_chars s 10
unfolding delete_from count_chars
delete_from-count_chars b [] = refl
delete_from-count_chars true (c ∷ s) =
    ground (arith, delete_from-count_chars true s, delete_from-count_chars false s)
delete_from-count_chars false (c ∷ s) =
    ground (arith, delete_from-count_chars true s, delete_from-count_chars false s)

delete_from-no_comment : (s : Text) → has_char b'#' s ≡ false → delete_from false s ≡ s
unfolding delete_from has_char
delete_from-no_comment [] h = refl
delete_from-no_comment (c ∷ s) h = ground (arith, delete_from-no_comment s)

-- Without its comments, a text has no `#` and as many line ends as before, and a text that has no
-- `#` stays as it is.
pub delete_comments-lines :
    (s : Text)
    → (has_char b'#' (delete_comments s) ≡ false)
      × (count_chars (delete_comments s) 10 ≡ count_chars s 10)
      × ((has_char b'#' s ≡ true) ⊎ (delete_comments s ≡ s))
unfolding delete_comments
delete_comments-lines s = (
  delete_from-has_char false s,
  delete_from-count_chars false s,
  elim (Bool-cases (has_char b'#' s)) [ inl e ↦ inl e | inr e ↦ inr (delete_from-no_comment s e) ],
)
