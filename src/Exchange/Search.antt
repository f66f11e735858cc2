-- ===== src/Exchange/Search.antt =====
-- `std::string::find`: whether a text occurs in another one.
use moboware.Base.{
  ℕ, Bool, true, false, [], ◌∷◌, ◌++◌, ◌≡◌, refl, Text, nat_beq, ◌||◌, ◌&&◌, arith, ◌≢◌, All,
}

unfoldable pub starts_with : Text → Text → Bool
starts_with s [] = true
starts_with [] (c ∷ pattern) = false
starts_with (d ∷ s) (c ∷ pattern) = nat_beq d c && starts_with s pattern

-- `s.find(pattern) != std::string::npos`.
unfoldable pub occurs_in : Text → Text → Bool
unfolding starts_with
occurs_in pattern [] = starts_with [] pattern
occurs_in pattern (c ∷ s) = starts_with (c ∷ s) pattern || occurs_in pattern s

-- A pattern is not found before its first byte is.
pub occurs_in-append :
    (c : ℕ) (pattern s t : Text)
    → All (λ d. d ≢ c) s
    → occurs_in (c ∷ pattern) (s ++ t) ≡ occurs_in (c ∷ pattern) t
unfolding occurs_in starts_with
occurs_in-append c pattern [] t h = refl
occurs_in-append c pattern (d ∷ s) t h = ground (arith, occurs_in-append c pattern s t)
