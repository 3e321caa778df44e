-- ===== src/Text/Trim.antt =====
-- White space is trimmed from the ends only.
use opentelemetry_go.Prelude.{ℕ, ◌≡◌, refl, Bool, true, false, not, [], ◌∷◌, arith, Bytes}
use opentelemetry_go.Text.{is_space, trim_left, trim_right}

pub trim_left_self : (c : ℕ) (cs : Bytes) → is_space c ≡ false → trim_left (c ∷ cs) ≡ c ∷ cs
unfolding trim_left
trim_left_self c cs h = rw h

-- The last byte passes a test, and there is one.
unfoldable pub ends_with : (ℕ → Bool) → Bytes → Bool
ends_with p [] = false
ends_with p (c ∷ []) = p c
ends_with p (c ∷ d ∷ ds) = ends_with p (d ∷ ds)

pub trim_right_self : (s : Bytes) → ends_with (λ c. not (is_space c)) s ≡ true → trim_right s ≡ s
unfolding trim_right ends_with
trim_right_self [] h = refl
trim_right_self (c ∷ []) h = ground arith
trim_right_self (c ∷ d ∷ ds) h = rw (trim_right_self (d ∷ ds) h)
