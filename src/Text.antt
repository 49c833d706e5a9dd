-- ===== src/Text.antt =====
-- Rust strings as the lists of their bytes, and what the code uses of them: equality,
-- `starts_with`, `split('/')` and `{}` of an unsigned integer.
pub mod Decimal
pub mod Split
use Prim.Native.Char.{code}
use ballista.Prelude.{
  ℕ, String, List, [], ◌∷◌, ◌++◌, Bool, true, false, ◌==◌, ==_iff, ◌&&◌, ◌≡◌, ◌↔◌, refl, ap, arith,
  length,
}

abbrev pub Text : Type 0
Text = List ℕ

abbrev pub Bytes : Type 0
Bytes = List ℕ

-- The bytes of an ASCII literal.
abbrev pub codes : String → Text
codes String.[] = []
codes (String.◌∷◌ c s) = code c ∷ codes s

unfoldable pub text_eq : Text → Text → Bool
text_eq [] [] = true
text_eq [] (d ∷ t) = false
text_eq (c ∷ s) [] = false
text_eq (c ∷ s) (d ∷ t) = (c == d) && text_eq s t

unfoldable pub starts_with : Text → Text → Bool
starts_with s [] = true
starts_with [] (d ∷ p) = false
starts_with (c ∷ s) (d ∷ p) = (c == d) && starts_with s p

pub text_eq_sound : (s t : Text) → text_eq s t ≡ true → s ≡ t
unfolding text_eq
text_eq_sound [] [] h = refl
text_eq_sound [] (d ∷ t) h = ground arith
text_eq_sound (c ∷ s) [] h = ground arith
text_eq_sound (c ∷ s) (d ∷ t) h = ground (arith, text_eq_sound s t)

pub text_eq_refl : (s : Text) → text_eq s s ≡ true
unfolding text_eq
text_eq_refl [] = refl
text_eq_refl (c ∷ s) = ground (arith, text_eq_refl s)

pub text_eq_iff : (s t : Text) → (text_eq s t ≡ true) ↔ (s ≡ t)
text_eq_iff s t = (text_eq_sound s t, λ e. rw e (text_eq_refl t))

pub starts_with-append : (p s : Text) → starts_with (p ++ s) p ≡ true
unfolding starts_with
starts_with-append [] s = refl
starts_with-append (c ∷ p) s = ground (arith, starts_with-append p s)

-- A common beginning does not count.
pub starts_with-append_both : (p s t : Text) → starts_with (p ++ s) (p ++ t) ≡ starts_with s t
unfolding starts_with
starts_with-append_both [] s t = refl
starts_with-append_both (c ∷ p) s t = ground (arith, starts_with-append_both p s t)

pub text_eq-append_both : (p s t : Text) → text_eq (p ++ s) (p ++ t) ≡ text_eq s t
unfolding text_eq
text_eq-append_both [] s t = refl
text_eq-append_both (c ∷ p) s t = ground (arith, text_eq-append_both p s t)

pub starts_with-same_length :
    (s p t : Text) → length s ≡ length p → starts_with (s ++ t) p ≡ text_eq s p
unfolding starts_with text_eq
starts_with-same_length [] [] [] h = refl
starts_with-same_length [] [] (c ∷ t) h = refl
starts_with-same_length [] (d ∷ p) t h = absurd (omega arith)
starts_with-same_length (c ∷ s) [] t h = absurd (omega arith)
starts_with-same_length (c ∷ s) (d ∷ p) t h = ground (arith, starts_with-same_length s p t)
