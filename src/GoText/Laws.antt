-- ===== src/GoText/Laws.antt =====
-- Laws of comparing, prefixes and trimming.
use mathlib.Core.List.{reverse, reverse-append, reverse-reverse, reverse-cons}
use rtz_server.Base.{ℕ, ◌≡◌, refl, ◌↔◌, Bool, true, false, [], ◌∷◌, ◌++◌, arith, All, All-append}
use rtz_server.GoText.{
  Str, str_eq, has_prefix, skip, trim_prefix, has_suffix, trim_suffix, trim_left, trim_right, trim,
}

str_eq_sound : (s t : Str) → str_eq s t ≡ true → s ≡ t
unfolding str_eq
str_eq_sound [] [] h = refl
str_eq_sound [] (d ∷ t) h = cc
str_eq_sound (c ∷ s) [] h = cc
str_eq_sound (c ∷ s) (d ∷ t) h = ground (arith, str_eq_sound s t)

pub str_eq_refl : (s : Str) → str_eq s s ≡ true
unfolding str_eq
str_eq_refl [] = refl
str_eq_refl (c ∷ s) = ground (arith, str_eq_refl s)

pub str_eq_iff : (s t : Str) → (str_eq s t ≡ true) ↔ (s ≡ t)
str_eq_iff s t = (str_eq_sound s t, λ e. rw e (str_eq_refl t))

pub has_prefix-append : (p s : Str) → has_prefix (p ++ s) p ≡ true
unfolding has_prefix
has_prefix-append [] s = refl
has_prefix-append (c ∷ p) s = ground (arith, has_prefix-append p s)

pub skip-append : (p s : Str) → skip (p ++ s) p ≡ s
unfolding skip
skip-append [] s = refl
skip-append (c ∷ p) s = skip-append p s

pub trim_prefix-append : (p s : Str) → trim_prefix (p ++ s) p ≡ s
unfolding trim_prefix
trim_prefix-append p s = rw (has_prefix-append p s) (skip-append p s)

-- A text has the prefix `p` exactly if it is `p` and what is left when `p` is cut.
pub append-skip : (s p : Str) → has_prefix s p ≡ true → p ++ skip s p ≡ s
unfolding has_prefix skip
append-skip s [] h = refl
append-skip [] (d ∷ p) h = cc
append-skip (c ∷ s) (d ∷ p) h = ground (arith, append-skip s p)

pub has_suffix-append : (s p : Str) → has_suffix (s ++ p) p ≡ true
unfolding has_suffix
has_suffix-append s p = rw reverse-append (has_prefix-append (reverse p) (reverse s))

pub trim_suffix-append : (s p : Str) → trim_suffix (s ++ p) p ≡ s
unfolding trim_suffix
trim_suffix-append s p = rw reverse-append (rw trim_prefix-append (reverse-reverse s))

pub trim_left_id :
    (cut : ℕ → Bool) (c : ℕ) (s : Str) → cut c ≡ false → trim_left cut (c ∷ s) ≡ c ∷ s
unfolding trim_left
trim_left_id cut c s h = rw h

pub trim_left-All : (cut : ℕ → Bool) (s : Str) → All (λ c. cut c ≡ false) s → trim_left cut s ≡ s
unfolding trim_left
trim_left-All cut [] h = refl
trim_left-All cut (c ∷ s) (h, _) = rw h

pub trim_right_id :
    (cut : ℕ → Bool) (s : Str) (c : ℕ) → cut c ≡ false → trim_right cut (s ++ c ∷ []) ≡ s ++ c ∷ []
unfolding trim_right
trim_right_id cut s c h =
    rw reverse-append
      (rw (trim_left_id cut c (reverse s) h) (rw reverse-cons (rw reverse-reverse refl)))

All-reverse : (P : ℕ → Type 0) (s : Str) → All P s → All P (reverse s)
All-reverse P [] h = tt
All-reverse P (c ∷ s) (hc, h) =
    rw reverse-cons (All-append P (reverse s) (c ∷ []) (All-reverse P s h) (hc, tt))

-- Nothing is trimmed from a text with no byte to cut.
pub trim-All : (cut : ℕ → Bool) (s : Str) → All (λ c. cut c ≡ false) s → trim cut s ≡ s
unfolding trim
trim-All cut s h =
    rw (trim_left-All cut s h) (
      rw (trim_left-All cut (reverse s) (All-reverse (λ c. cut c ≡ false) s h)) (reverse-reverse s))
