-- ===== src/Patterns/Rules.antt =====
-- dnscrypt-proxy/pattern_matcher.go: the matcher rejects just the names that one of its rules means.
use dnscrypt_proxy_fork.Base.{
  ℕ, zero, suc, ◌≤◌, ◌≡◌, refl, sym, ap, subst, ◌∙◌, ◌⊎◌, inl, inr, ◌↔◌, Bool, true, false, ◌||◌,
  List, [], ◌∷◌, ◌++◌, length, get_elem?, Option, none, some, is_some, Option-cases, Bool-cases,
  ltb, arith,
}
use dnscrypt_proxy_fork.Text.{Bytes, bytes_eq, has_prefix, contains, to_lower}
use dnscrypt_proxy_fork.Text.Laws.{bytes_eq_sound, bytes_eq_self, has_prefix_iff}
use dnscrypt_proxy_fork.Patterns.{
  Trie, find_text, put_text, PatternType, prefix, suffix, substring, pattern, exact, PatternMatcher,
  rule_type, new_pattern_matcher, suffix_key, add_rule, add, first_substring, matches_glob,
  first_pattern, eval_lists, eval, add_all,
}
use dnscrypt_proxy_fork.Patterns.Labels.{InDomain, suffix_key_iff}

-- What the matcher needs of a trie: after a key is inserted, a text has a longest prefix just if it had
-- one or starts with the key; the empty trie has none.
pub record TrieLaws {R V : Type 0} (trie : Trie R V) : Type 0 where
  pub empty_none : (s : Bytes) → trie.longest_prefix trie.empty s ≡ none
  pub insert_found :
      (t : R) (k : Bytes) (v : V) (s : Bytes)
      → is_some (trie.longest_prefix (trie.insert t k v) s)
        ≡ (is_some (trie.longest_prefix t s) || has_prefix s k)

-- What a rule of a type means.
abbrev pub Means : (Bytes → Bytes → Option Bool) → PatternType → Bytes → Bytes → Type 0
Means glob_match exact text name = name ≡ text
Means glob_match suffix text name = InDomain name text
Means glob_match prefix text name = (rest : Bytes) × (name ≡ text ++ rest)
Means glob_match substring text name = contains name text ≡ true
Means glob_match pattern text name = glob_match text name ≡ some true

find_text-put_text :
    {V : Type 0} (k j : Bytes) (v : V) (m : List (Bytes × V))
    → is_some (find_text j (put_text k v m)) ≡ (is_some (find_text j m) || bytes_eq k j)
unfolding find_text put_text
find_text-put_text k j v [] = ground arith
find_text-put_text k j v ((i, w) ∷ m) = elim (Bool-cases (bytes_eq i k)) [
  | inl e ↦ ground (arith, e, ap (λ x. bytes_eq x j) (bytes_eq_sound i k e))
  | inr e ↦ elim (Bool-cases (bytes_eq i j)) [
    | inl f ↦ ground (arith, e, f)
    | inr f ↦ ground (arith, e, f, find_text-put_text k j v m)
  ]
]

first_substring-append :
    (ss : List Bytes) (s q : Bytes)
    → is_some (first_substring (ss ++ s ∷ []) q) ≡ (is_some (first_substring ss q) || contains q s)
unfolding first_substring
first_substring-append [] s q = ground arith
first_substring-append (r ∷ ss) s q = ground (arith, first_substring-append ss s q)

or_true : (a : Bool) {b : Bool} → b ≡ true → (a || b) ≡ true
or_true a h = ground (arith, h)

module _ (glob_match : Bytes → Bytes → Option Bool) where
  first_pattern-append :
      (ps : List Bytes) (p q : Bytes)
      → is_some (first_pattern glob_match (ps ++ p ∷ []) q)
        ≡ (is_some (first_pattern glob_match ps q) || matches_glob (glob_match p q))
  unfolding first_pattern
  first_pattern-append [] p q = ground arith
  first_pattern-append (r ∷ ps) p q = ground (arith, first_pattern-append ps p q)

  -- The test that a rule adds.
  abbrev pub means : PatternType → Bytes → Bytes → Bool
  means exact text name = bytes_eq text name
  means suffix text name = has_prefix (suffix_key name) (suffix_key text)
  means prefix text name = has_prefix name text
  means substring text name = contains name text
  means pattern text name = matches_glob (glob_match text name)

  means_iff :
      (type : PatternType) (text name : Bytes)
      → (means type text name ≡ true) ↔ Means glob_match type text name
  means_iff exact text name = (
    λ h. sym (bytes_eq_sound text name h),
    λ e. subst (λ t. bytes_eq text t ≡ true) (sym e) (bytes_eq_self text),
  )
  means_iff suffix text name = suffix_key_iff name text
  means_iff prefix text name = has_prefix_iff name text
  means_iff substring text name = (λ h. h, λ h. h)
  means_iff pattern text name = elim (Option-cases (glob_match text name)) [
    | inl e ↦ ground (arith, e)
    | inr (b, e) ↦ ground (arith, e)
  ]

  abbrev rule_of : {V : Type 0} → Option (Bytes × V) → Bytes
  rule_of none = []
  rule_of (some (rule, v)) = rule

  -- The meaning of what a rule is read as.
  abbrev MeansAs : Bytes → Option (PatternType × Bytes) → Type 0
  MeansAs name none = Unit
  MeansAs name (some (type, text)) = Means glob_match type (to_lower text) name

  -- The rule, as it is written, applies to the name.
  abbrev pub Applies : Bytes → Bytes → Type 0
  Applies rule name =
      (type : PatternType) × (text : Bytes) × (rule_type glob_match rule ≡ some (type, text))
      × Means glob_match type (to_lower text) name

  -- One of the rules does.
  abbrev pub AnyApplies : {V : Type 0} → List (Bytes × V) → Bytes → Type 0
  AnyApplies {V} rules name =
      (i : ℕ) × (rule : Bytes) × (v : V) × (get_elem? rules i ≡ some (rule, v)) × Applies rule name

  module _ {R V : Type 0} (trie : Trie R V) where
    -- Whether one of the five structures has the name.
    abbrev pub hits : PatternMatcher R V → Bytes → Bool
    hits pm q =
        is_some (find_text q pm.exacts)
        || is_some (trie.longest_prefix pm.suffixes (suffix_key q))
        || is_some (trie.longest_prefix pm.prefixes q)
        || is_some (first_substring pm.substrings q)
        || is_some (first_pattern glob_match pm.patterns q)

    eval-hits :
        (pm : PatternMatcher R V) (q : Bytes)
        → ltb (length q) 2 ≡ false
        → is_some (eval glob_match trie pm q) ≡ hits pm q
    unfolding eval eval_lists
    eval-hits pm q h = ground (arith, h)

    module _ (laws : TrieLaws trie) where
      hits-add_rule :
          (pm : PatternMatcher R V) (type : PatternType) (text : Bytes) (v : V) (q : Bytes)
          → hits (add_rule glob_match trie pm type text v) q ≡ (hits pm q || means type text q)
      unfolding add_rule
      hits-add_rule pm exact text v q = ground (arith, find_text-put_text text q v pm.exacts)
      hits-add_rule pm suffix text v q =
          ground (arith, laws.insert_found pm.suffixes (suffix_key text) v (suffix_key q))
      hits-add_rule pm prefix text v q = ground (arith, laws.insert_found pm.prefixes text v q)
      hits-add_rule pm substring text v q =
          ground (arith, first_substring-append pm.substrings text q)
      hits-add_rule pm pattern text v q = ground (arith, first_pattern-append pm.patterns text q)

      hits-add :
          (pm pm' : PatternMatcher R V) (rule : Bytes) (v : V) (q : Bytes)
          → add glob_match trie pm rule v ≡ some pm'
          → (hits pm' q ≡ true) ↔ ((hits pm q ≡ true) ⊎ Applies rule q)
      unfolding add
      hits-add pm pm' rule v q h = elim (Option-cases (rule_type glob_match rule)) [
        | inl e ↦ absurd (ground (arith, e))
        | inr ((type, text), e) ↦
            let low = to_lower text in
            let added : add_rule glob_match trie pm type low v ≡ pm' = ground (arith, e) in
            let step = ap (λ m. hits m q) (sym added) ∙ hits-add_rule pm type low v q in
            let (to, from) = means_iff type low q in
            (
              λ y. elim (Bool-cases (hits pm q)) [
                | inl p ↦ inl p
                | inr p ↦ inr (type, text, e, to (ground (arith, step, y, p)))
              ],
              λ z. elim z [
                | inl p ↦ step ∙ rw p
                | inr (type', text', e', m) ↦
                    step ∙ or_true (hits pm q) (from (subst (MeansAs q) (sym e' ∙ e) m))
              ],
            )
      ]

      hits-add_all :
          (rules : List (Bytes × V)) (pm pm' : PatternMatcher R V) (q : Bytes)
          → add_all glob_match trie pm rules ≡ some pm'
          → (hits pm' q ≡ true) ↔ ((hits pm q ≡ true) ⊎ AnyApplies rules q)
      unfolding add_all
      hits-add_all [] pm pm' q h = (
        λ y. inl (ground (arith, y, h)),
        λ z. elim z [ inl p ↦ ground (arith, p, h) | inr (i, rule, v, g, a) ↦ absurd (cc) ],
      )
      hits-add_all ((rule, v) ∷ rules) pm pm' q h =
          elim (Option-cases (add glob_match trie pm rule v)) [
            | inl e ↦ absurd (ground (arith, e))
            | inr (pm1, e) ↦
                let (to, from) = hits-add_all rules pm1 pm' q (ground (arith, e)) in
                let (to1, from1) = hits-add pm pm1 rule v q e in
                (
                  λ y. elim (to y) [
                    | inl p1 ↦ elim (to1 p1) [ inl p ↦ inl p | inr a ↦ inr (0, rule, v, refl, a) ]
                    | inr (i, r, u, g, a) ↦ inr (suc i, r, u, g, a)
                  ],
                  λ z. elim z [
                    | inl p ↦ from (inl (from1 (inl p)))
                    | inr (zero, r, u, g, a) ↦
                        from (inl (from1 (inr (subst (λ o. Applies (rule_of o) q) (sym g) a))))
                    | inr (suc i, r, u, g, a) ↦ from (inr (i, r, u, g, a))
                  ],
                )
          ]

      -- After rules are added to a new matcher without an error, a name of at least two bytes is
      -- rejected just if one of them applies to it: it is the text of an exact rule, the domain of a
      -- suffix rule or below it, starts with a prefix, contains a substring, or matches a pattern. The
      -- trie keeps the laws.
      pub eval-add_all :
          (rules : List (Bytes × V)) (pm : PatternMatcher R V) (q : Bytes)
          → add_all glob_match trie (new_pattern_matcher glob_match trie) rules ≡ some pm
          → 2 ≤ length q
          → (is_some (eval glob_match trie pm q) ≡ true) ↔ AnyApplies rules q
      unfolding find_text first_substring first_pattern
      eval-add_all rules pm q h n =
          let (to, from) = hits-add_all rules (new_pattern_matcher glob_match trie) pm q h in
          let same = eval-hits pm q (ground (arith, n)) in
          let none_hit : hits (new_pattern_matcher glob_match trie) q ≡ false =
            rw (laws.empty_none (suffix_key q), laws.empty_none q) in
          (
            λ y. elim (to (sym same ∙ y)) [
              | inl p ↦ absurd (ground (arith, p, none_hit))
              | inr a ↦ a
            ],
            λ a. same ∙ from (inr a),
          )
