-- ===== src/Text/Laws.antt =====
-- What the functions on byte strings compute.
use dnscrypt_proxy_fork.Base.{
  ◌≡◌, refl, ap, sym, ◌∙◌, ◌↔◌, true, [], ◌∷◌, ◌++◌, append_assoc, some, inl, inr, Option-cases,
  arith,
}
use dnscrypt_proxy_fork.Text.{Bytes, bytes_eq, cut_prefix, has_prefix, reverse_onto, string_reverse}

pub bytes_eq_sound : (s t : Bytes) → bytes_eq s t ≡ true → s ≡ t
unfolding bytes_eq
bytes_eq_sound [] [] h = refl
bytes_eq_sound [] (y ∷ t) h = absurd (cc)
bytes_eq_sound (x ∷ s) [] h = absurd (cc)
bytes_eq_sound (x ∷ s) (y ∷ t) h = grind (arith, bytes_eq_sound s t)

pub bytes_eq_self : (s : Bytes) → bytes_eq s s ≡ true
unfolding bytes_eq
bytes_eq_self [] = refl
bytes_eq_self (x ∷ s) = ground (arith, bytes_eq_self s)

pub cut_prefix-append : (p t : Bytes) → cut_prefix p (p ++ t) ≡ some t
unfolding cut_prefix
cut_prefix-append [] t = refl
cut_prefix-append (c ∷ p) t = ground (arith, cut_prefix-append p t)

pub cut_prefix_sound : (p s : Bytes) {t : Bytes} → cut_prefix p s ≡ some t → s ≡ p ++ t
unfolding cut_prefix
cut_prefix_sound [] s h = ground arith
cut_prefix_sound (c ∷ p) [] h = absurd (ground arith)
cut_prefix_sound (c ∷ p) (d ∷ s) {t} h = grind (arith, cut_prefix_sound p s)

pub reverse_onto-append :
    (s t u : Bytes) → reverse_onto (s ++ t) u ≡ reverse_onto t (reverse_onto s u)
unfolding reverse_onto
reverse_onto-append [] t u = refl
reverse_onto-append (c ∷ s) t u = reverse_onto-append s t (c ∷ u)

pub reverse_onto_lem : (s u : Bytes) → reverse_onto s u ≡ string_reverse s ++ u
unfolding reverse_onto string_reverse
reverse_onto_lem [] u = refl
reverse_onto_lem (c ∷ s) u =
    reverse_onto_lem s (c ∷ u)
    ∙ sym (
        ap (λ w. w ++ u) (reverse_onto_lem s (c ∷ [])) ∙ append_assoc (string_reverse s) (c ∷ []) u)

pub string_reverse-append :
    (s t : Bytes) → string_reverse (s ++ t) ≡ string_reverse t ++ string_reverse s
unfolding string_reverse
string_reverse-append s t = reverse_onto-append s t [] ∙ reverse_onto_lem t (string_reverse s)

pub string_reverse_twice : (s : Bytes) → string_reverse (string_reverse s) ≡ s
unfolding string_reverse reverse_onto
string_reverse_twice [] = refl
string_reverse_twice (c ∷ s) =
    ap string_reverse (reverse_onto_lem s (c ∷ []))
    ∙ string_reverse-append (string_reverse s) (c ∷ [])
    ∙ ap (◌∷◌ c) (string_reverse_twice s)

-- `t` starts with `p` in the sense of `strings.HasPrefix` just if it continues it.
pub has_prefix_iff : (s p : Bytes) → (has_prefix s p ≡ true) ↔ ((t : Bytes) × (s ≡ p ++ t))
unfolding has_prefix
has_prefix_iff s p = (
  λ h. elim (Option-cases (cut_prefix p s)) [
    | inl e ↦ absurd (ground (arith, e))
    | inr (t, e) ↦ (t, cut_prefix_sound p s e)
  ],
  λ (t, e). ground (arith, cut_prefix-append p t),
)
