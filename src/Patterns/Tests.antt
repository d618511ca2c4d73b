-- ===== src/Patterns/Tests.antt =====
-- A blocked domain, and a name that only ends in the same letters; a trie that is a list of keys.
use dnscrypt_proxy_fork.Base.{
  ℕ, ◌≡◌, refl, ◌↔◌, Bool, true, false, List, [], ◌∷◌, Option, none, some, is_some, if◌then◌else◌,
  arith,
}
use dnscrypt_proxy_fork.Text.{
  Bytes, bytes_eq, has_prefix, cut_prefix, has_suffix, cut_suffix, trim_prefix, to_lower,
}
use dnscrypt_proxy_fork.Patterns.{
  Trie, PatternMatcher, suffix, new_pattern_matcher, rule_type, is_glob_candidate, is_glob_from,
  add_rule, add, add_all, eval,
}
use dnscrypt_proxy_fork.Patterns.Rules.{TrieLaws, AnyApplies, eval-add_all}

abbrev Keys : Type 0
Keys = List (Bytes × ℕ)

-- A key that the text starts with, the last one that was added.
abbrev find_prefix : Keys → Bytes → Option (Bytes × ℕ)
find_prefix [] s = none
find_prefix ((k, v) ∷ t) s = if has_prefix s k then some (k, v) else find_prefix t s

abbrev key_list : Trie Keys ℕ
key_list = record { empty = []; insert = λ t k v. (k, v) ∷ t; longest_prefix = find_prefix }

key_list-TrieLaws : TrieLaws key_list
key_list-TrieLaws = record { empty_none = λ s. refl; insert_found = λ t k v s. ground arith }

-- "a.bc"
abbrev blocked : Bytes
blocked = 97 ∷ 46 ∷ 98 ∷ 99 ∷ []

abbrev no_globs : Bytes → Bytes → Option Bool
no_globs glob name = some false

abbrev matcher : PatternMatcher Keys ℕ
matcher = add_rule no_globs key_list (new_pattern_matcher no_globs key_list) suffix blocked 5

abbrev rules : List (Bytes × ℕ)
rules = (blocked, 5) ∷ []

-- "x.a.bc"
abbrev subdomain : Bytes
subdomain = 120 ∷ 46 ∷ blocked

eval-add_all_example :
    (is_some (eval no_globs key_list matcher subdomain) ≡ true)
    ↔ AnyApplies no_globs rules subdomain
unfolding add_all add rule_type is_glob_candidate is_glob_from has_prefix cut_prefix has_suffix
    cut_suffix trim_prefix bytes_eq to_lower
eval-add_all_example =
    eval-add_all no_globs key_list key_list-TrieLaws rules matcher subdomain refl (omega arith)
