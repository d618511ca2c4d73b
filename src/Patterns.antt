-- ===== src/Patterns.antt =====
-- dnscrypt-proxy/pattern_matcher.go: rules on names. A star is 42, a dot 46, an equals sign 61, a
-- question mark 63 and an opening bracket 91.
use dnscrypt_proxy_fork.Base.{
  ℕ, Bool, true, false, not, ◌&&◌, ◌||◌, List, [], ◌∷◌, ◌++◌, length, drop, Option, none, some,
  is_some, ltb, ◌==◌, if◌then◌else◌,
}
use dnscrypt_proxy_fork.Text.{
  Bytes, bytes_eq, has_prefix, has_suffix, trim_prefix, contains, drop_last, string_reverse,
  to_lower,
}
pub mod Labels
pub mod Rules
mod Tests

-- The trie of github.com/k-sone/critbitgo: `insert` keeps a value that the key already has, and
-- `longest_prefix` finds the longest key that the text starts with.
pub record Trie (R V : Type 0) : Type 0 where
  pub empty : R
  pub insert : R → Bytes → V → R
  pub longest_prefix : R → Bytes → Option (Bytes × V)

-- The values of a Go map from texts.
unfoldable pub find_text : {V : Type 0} → Bytes → List (Bytes × V) → Option V
find_text k [] = none
find_text k ((j, v) ∷ m) = if bytes_eq j k then some v else find_text k m

unfoldable pub put_text : {V : Type 0} → Bytes → V → List (Bytes × V) → List (Bytes × V)
put_text k v [] = (k, v) ∷ []
put_text k v ((j, w) ∷ m) = if bytes_eq j k then (k, v) ∷ m else (j, w) ∷ put_text k v m

pub data PatternType : Type 0 where
  prefix suffix substring pattern exact : PatternType

pub record PatternMatcher (R V : Type 0) : Type 0 where
  pub prefixes : R
  pub suffixes : R
  pub substrings : List Bytes
  pub patterns : List Bytes
  pub exacts : List (Bytes × V)
  pub indirect_vals : List (Bytes × V)

-- The loop of `isGlobCandidate`; the first argument tells whether the index is not 0.
unfoldable pub is_glob_from : Bool → Bytes → Bool
is_glob_from later [] = false
is_glob_from later (c ∷ s) =
    (c == 63 || c == 91) || (c == 42 && later && ltb 0 (length s)) || is_glob_from true s

unfoldable pub is_glob_candidate : Bytes → Bool
is_glob_candidate str = is_glob_from false str

abbrev example_com : Bytes
example_com = 101 ∷ 120 ∷ 97 ∷ 109 ∷ 112 ∷ 108 ∷ 101 ∷ 46 ∷ 99 ∷ 111 ∷ 109 ∷ []

abbrev pub star : Bytes
star = 42 ∷ []

abbrev pub dot : Bytes
dot = 46 ∷ []

-- The key of a name in the trie of suffixes: it ends in a dot that marks the end of the label.
abbrev pub suffix_key : Bytes → Bytes
suffix_key name = string_reverse name ++ dot

unfoldable pub first_substring : List Bytes → Bytes → Option Bytes
first_substring [] qname = none
first_substring (s ∷ ss) qname = if contains qname s then some s else first_substring ss qname

abbrev pub matches_glob : Option Bool → Bool
matches_glob none = false
matches_glob (some b) = b

abbrev pub wrapped : Bytes → Bytes
wrapped s = star ++ s ++ star

abbrev pub suffix_reason : Bytes → Bytes
suffix_reason key = star ++ dot ++ string_reverse (drop_last key)

-- `filepath.Match`, with `none` for a pattern that is malformed, is a parameter.
module _ (glob_match : Bytes → Bytes → Option Bool) where
  -- A rule of a type whose text has at least a length.
  abbrev pub rule_if : Bool → PatternType → Bytes → Option (PatternType × Bytes)
  rule_if true type text = some (type, text)
  rule_if false type text = none

  -- The type of a rule and its text without the marks; `none` is a syntax error.
  unfoldable pub rule_type : Bytes → Option (PatternType × Bytes)
  rule_type rule =
      let leading_star = has_prefix rule star in
      let trailing_star = has_suffix rule star in
      if is_glob_candidate rule
      then rule_if (not (ltb (length rule) 2) && is_some (glob_match rule example_com)) pattern rule
      else if leading_star && trailing_star
      then rule_if (not (ltb (length rule) 3)) substring (drop_last (drop 1 rule))
      else if trailing_star
      then rule_if (not (ltb (length rule) 2)) prefix (drop_last rule)
      else if has_prefix rule (61 ∷ [])
      then rule_if (not (ltb (length rule) 2)) exact (drop 1 rule)
      else some (suffix, trim_prefix (if leading_star then drop 1 rule else rule) dot)

  -- The loop over the patterns.
  unfoldable pub first_pattern : List Bytes → Bytes → Option Bytes
  first_pattern [] qname = none
  first_pattern (p ∷ ps) qname =
      if matches_glob (glob_match p qname) then some p else first_pattern ps qname

  module _ {R V : Type 0} (trie : Trie R V) where
    abbrev pub new_pattern_matcher : PatternMatcher R V
    new_pattern_matcher = record {
      prefixes = trie.empty;
      suffixes = trie.empty;
      substrings = [];
      patterns = [];
      exacts = [];
      indirect_vals = [];
    }

    unfoldable pub add_rule : PatternMatcher R V → PatternType → Bytes → V → PatternMatcher R V
    add_rule pm substring text v = record pm {
      substrings = pm.substrings ++ text ∷ [];
      indirect_vals = put_text text v pm.indirect_vals;
    }
    add_rule pm pattern text v = record pm {
      patterns = pm.patterns ++ text ∷ [];
      indirect_vals = put_text text v pm.indirect_vals;
    }
    add_rule pm prefix text v = record pm { prefixes = trie.insert pm.prefixes text v }
    add_rule pm suffix text v = record pm { suffixes = trie.insert pm.suffixes (suffix_key text) v }
    add_rule pm exact text v = record pm { exacts = put_text text v pm.exacts }

    -- `Add`; `none` is the error.
    unfoldable pub add : PatternMatcher R V → Bytes → V → Option (PatternMatcher R V)
    add pm rule v = elim (rule_type rule) [
      | none ↦ none
      | some (type, text) ↦
          if length text == 0 then none else some (add_rule pm type (to_lower text) v)
    ]

    -- The loops over the substrings and the patterns, with the reason and the value.
    unfoldable pub eval_lists : PatternMatcher R V → Bytes → Option (Bytes × Option V)
    eval_lists pm qname = elim (first_substring pm.substrings qname) [
      | some s ↦ some (wrapped s, find_text s pm.indirect_vals)
      | none ↦ elim (first_pattern pm.patterns qname) [
        | some p ↦ some (p, find_text p pm.indirect_vals)
        | none ↦ none
      ]
    ]

    -- `Eval`: the reason and the value of a rejection, or `none`.
    unfoldable pub eval : PatternMatcher R V → Bytes → Option (Bytes × Option V)
    eval pm qname = if ltb (length qname) 2 then none else elim (find_text qname pm.exacts) [
      | some v ↦ some (qname, some v)
      | none ↦ elim (trie.longest_prefix pm.suffixes (suffix_key qname)) [
        | some (key, v) ↦ some (suffix_reason key, some v)
        | none ↦ elim (trie.longest_prefix pm.prefixes qname) [
          | some (key, v) ↦ some (key ++ star, some v)
          | none ↦ eval_lists pm qname
        ]
      ]
    ]

    -- Rules added one after the other, up to the first error.
    unfoldable pub add_all : PatternMatcher R V → List (Bytes × V) → Option (PatternMatcher R V)
    add_all pm [] = some pm
    add_all pm ((rule, v) ∷ rules) = elim (add pm rule v) [
      | none ↦ none
      | some pm' ↦ add_all pm' rules
    ]
