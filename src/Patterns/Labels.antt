-- ===== src/Patterns/Labels.antt =====
-- dnscrypt-proxy/pattern_matcher.go: the keys of suffix rules, and where a name has to end.
use dnscrypt_proxy_fork.Base.{
  ℕ, ◌≡◌, refl, sym, ap, ◌∙◌, ◌⊎◌, inl, inr, ◌↔◌, true, [], ◌∷◌, ◌++◌, append_assoc, append-nil,
}
use dnscrypt_proxy_fork.Text.{Bytes, has_prefix, drop_last, string_reverse, reverse_onto}
use dnscrypt_proxy_fork.Text.Laws.{has_prefix_iff, string_reverse-append, string_reverse_twice}
use dnscrypt_proxy_fork.Patterns.{dot, suffix_key}

drop_last-append : (s : Bytes) (c : ℕ) → drop_last (s ++ c ∷ []) ≡ s
unfolding drop_last
drop_last-append [] c = refl
drop_last-append (d ∷ []) c = refl
drop_last-append (d ∷ e ∷ s) c = ap (◌∷◌ d) (drop_last-append (e ∷ s) c)

last_cases : (s : Bytes) → (s ≡ []) ⊎ ((t : Bytes) × (c : ℕ) × (s ≡ t ++ c ∷ []))
last_cases [] = inl refl
last_cases (d ∷ s) = elim (last_cases s) [
  | inl e ↦ inr ([], d, ap (◌∷◌ d) e)
  | inr (t, c, e) ↦ inr (d ∷ t, c, ap (◌∷◌ d) e)
]

append-cancel : (s t : Bytes) (c d : ℕ) → s ++ c ∷ [] ≡ t ++ d ∷ [] → s ≡ t
append-cancel s t c d e = sym (drop_last-append s c) ∙ ap drop_last e ∙ drop_last-append t d

-- The name is the domain, or ends in a dot and the domain.
abbrev pub InDomain : Bytes → Bytes → Type 0
InDomain name domain = (name ≡ domain) ⊎ ((labels : Bytes) × (name ≡ labels ++ dot ++ domain))

suffix_key-append :
    (labels domain : Bytes)
    → suffix_key (labels ++ dot ++ domain) ≡ suffix_key domain ++ (string_reverse labels ++ dot)
unfolding string_reverse reverse_onto
suffix_key-append labels domain =
    ap (λ s. s ++ dot)
      (string_reverse-append (labels ++ dot) domain
        ∙ ap (λ s. string_reverse domain ++ s) (string_reverse-append labels dot))
    ∙ simp (append_assoc)

reversed : (s t : Bytes) → string_reverse s ≡ t → s ≡ string_reverse t
reversed s t e = sym (string_reverse_twice s) ∙ ap string_reverse e

-- The name of a key that has the key of a domain and more bytes in front of it.
key_longer :
    (name domain u : Bytes) (c : ℕ)
    → suffix_key name ≡ suffix_key domain ++ (u ++ c ∷ [])
    → name ≡ string_reverse u ++ dot ++ domain
unfolding string_reverse reverse_onto
key_longer name domain u c e =
    let cut =
      append-cancel (string_reverse name) (suffix_key domain ++ u) 46 c
        (e ∙ sym (append_assoc (suffix_key domain) u (c ∷ []))) in
    reversed name (suffix_key domain ++ u) cut
    ∙ string_reverse-append (suffix_key domain) u
    ∙ ap (λ s. string_reverse u ++ s)
        (string_reverse-append (string_reverse domain) dot
          ∙ ap (λ s. dot ++ s) (string_reverse_twice domain))
    ∙ sym (append_assoc (string_reverse u) dot domain)

-- The key of a name starts with the key of a domain just if the name is the domain or one of its
-- subdomains; that it only ends in the same letters is not enough.
pub suffix_key_iff :
    (name domain : Bytes)
    → (has_prefix (suffix_key name) (suffix_key domain) ≡ true) ↔ InDomain name domain
suffix_key_iff name domain = (
  λ h.
      let (t, e) = (has_prefix_iff (suffix_key name) (suffix_key domain)).0 h in
      elim (last_cases t) [
        | inl n ↦
            let same = e ∙ ap (λ s. suffix_key domain ++ s) n ∙ append-nil (suffix_key domain) in
            inl (
              reversed name (string_reverse domain)
                (append-cancel (string_reverse name) (string_reverse domain) 46 46 same)
              ∙ string_reverse_twice domain)
        | inr (u, c, n) ↦
            inr (
              string_reverse u,
              key_longer name domain u c (e ∙ ap (λ s. suffix_key domain ++ s) n),
            )
      ],
  λ d. (has_prefix_iff (suffix_key name) (suffix_key domain)).1 (elim d [
    | inl e ↦ ([], ap suffix_key e ∙ sym (append-nil (suffix_key domain)))
    | inr (labels, e) ↦
        (string_reverse labels ++ dot, ap suffix_key e ∙ suffix_key-append labels domain)
  ]),
)
