-- ===== src/Tools/Sql/Keywords.antt =====
-- No statement with a forbidden keyword passes the first check of app/tools/sql_query.py.
use ai_agent_task_assistant.Common.{
  ℕ, Text, text_eq, text_eq_iff, ◌≡◌, ◌∙◌, ap, inl, inr, refl, Bool, true, false, not, Bool-cases,
  Option, none, List, [], ◌∷◌, ◌++◌, append-nil, keep_if, all, arith,
}
use ai_agent_task_assistant.Tools.Sql.{
  is_member, forbidden_keywords, stripped, is_word_char, add_word, with_char, words_of, split_words,
  forbidden_in, is_nonempty, validate,
}

-- a text of letters and underscores, which is not empty
abbrev is_word : Text → Bool
is_word [] = false
is_word (c ∷ s) = all is_word_char (c ∷ s)

-- what stands before, and behind, does not go on into a word
abbrev pub ends_apart : Text → Bool
ends_apart [] = true
ends_apart (c ∷ []) = not (is_word_char c)
ends_apart (c ∷ d ∷ s) = ends_apart (d ∷ s)

abbrev pub begins_apart : Text → Bool
begins_apart [] = true
begins_apart (c ∷ s) = not (is_word_char c)

member-all :
    (p : Text → Bool) (k : Text) (ks : List Text)
    → all p ks ≡ true
    → is_member k ks ≡ true
    → p k ≡ true
member-all p k [] h e = absurd (cc e)
member-all p k (u ∷ ks) h e = elim (Bool-cases (text_eq u k)) [
  | inl same ↦ let at : p u ≡ p k = ap p ((text_eq_iff u k).0 same) in ground (arith, h, at)
  | inr other ↦ member-all p k ks (ground (arith, h)) (ground (arith, e, other))
]

keyword-is_word : (k : Text) → is_member k forbidden_keywords ≡ true → is_word k ≡ true
unfolding forbidden_keywords
keyword-is_word k e = member-all is_word k forbidden_keywords refl e

with_char-in :
    (c : ℕ) (p : Text × List Text) → is_word_char c ≡ true → with_char c p ≡ (c ∷ p.0, p.1)
with_char-in c (w, ws) e = rw (e, with_char) refl

with_char-out :
    (c : ℕ) (p : Text × List Text) → is_word_char c ≡ false → with_char c p ≡ ([], add_word p.0 p.1)
with_char-out c (w, ws) e = rw (e, with_char) refl

split_words-word :
    (k b : Text)
    → all is_word_char k ≡ true
    → split_words (k ++ b) ≡ (k ++ (split_words b).0, (split_words b).1)
unfolding split_words
split_words-word [] b h = refl
split_words-word (c ∷ k) b h =
    let rest = split_words-word k b (ground (arith, h)) in
    with_char-in c (split_words (k ++ b)) (ground (arith, h)) ∙ rw rest refl

split_words-apart : (b : Text) → begins_apart b ≡ true → (split_words b).0 ≡ []
unfolding split_words
split_words-apart [] h = refl
split_words-apart (c ∷ b) h = rw (with_char-out c (split_words b) (ground (arith, h))) refl

-- what is found stays found in front of it
member-add_word :
    (k w : Text) (ws : List Text) → is_member k ws ≡ true → is_member k (add_word w ws) ≡ true
member-add_word k [] ws h = h
member-add_word k (c ∷ w) ws h = ground (arith, h)

module _ (k b : Text) (h : is_word k ≡ true) (after : begins_apart b ≡ true) where
  first_word : (s : Text) → is_word s ≡ true → (ws : List Text) → is_member s (add_word s ws) ≡ true
  first_word [] e ws = absurd (cc e)
  first_word (c ∷ s) e ws = ground (arith, (text_eq_iff (c ∷ s) (c ∷ s)).1 refl)

  chars : (s : Text) → is_word s ≡ true → all is_word_char s ≡ true
  chars [] e = absurd (cc e)
  chars (c ∷ s) e = e

  split-keyword : split_words (k ++ b) ≡ (k ++ [], (split_words b).1)
  split-keyword = split_words-word k b (chars k h) ∙ rw (split_words-apart b after) refl

  found_behind :
      (a : Text) (c : ℕ)
      → ends_apart (c ∷ a) ≡ true
      → is_member k (split_words ((c ∷ a) ++ (k ++ b))).1 ≡ true
  unfolding split_words
  found_behind [] c e =
      rw (with_char-out c (split_words (k ++ b)) (ground (arith, e)), split-keyword, append-nil k)
        (first_word k h (split_words b).1)
  found_behind (d ∷ a) c e = elim (Bool-cases (is_word_char c)) [
    | inl word ↦ rw (with_char-in c (split_words ((d ∷ a) ++ (k ++ b))) word) (found_behind a d e)
    | inr other ↦
        rw (with_char-out c (split_words ((d ∷ a) ++ (k ++ b))) other)
          (member-add_word k (split_words ((d ∷ a) ++ (k ++ b))).0 _ (found_behind a d e))
  ]

  found : (a : Text) → ends_apart a ≡ true → is_member k (words_of (a ++ (k ++ b))) ≡ true
  unfolding words_of
  found [] e = rw (split-keyword, append-nil k) (first_word k h (split_words b).1)
  found (c ∷ a) e = member-add_word k _ _ (found_behind a c e)

kept_found :
    (p : Text → Bool) (k : Text) (words : List Text)
    → p k ≡ true
    → is_member k words ≡ true
    → is_nonempty (keep_if p words) ≡ true
kept_found p k [] h e = absurd (cc e)
kept_found p k (w ∷ words) h e = elim (Bool-cases (text_eq w k)) [
  | inl same ↦ let at : p w ≡ p k = ap p ((text_eq_iff w k).0 same) in ground (arith, at, h)
  | inr other ↦ let rest = kept_found p k words h (ground (arith, e, other)) in ground (arith, rest)
]

-- A statement that passes the first check, where writing is not allowed, has no forbidden keyword,
-- with whatever stands before it and behind it, where neither goes on with a letter or an underscore;
-- the statement is taken in upper case, without its surrounding spaces and its last semicolons.
pub validate-keyword_free :
    (lower upper : Text → Text) (stmt_type : Option Text) (sql before keyword behind : Text)
    → validate lower upper false stmt_type sql ≡ none
    → upper (stripped sql) ≡ before ++ (keyword ++ behind)
    → ends_apart before ≡ true
    → begins_apart behind ≡ true
    → is_member keyword forbidden_keywords ≡ false
unfolding validate forbidden_in
validate-keyword_free lower upper stmt_type sql before keyword behind passes reads apart apart' =
    elim (Bool-cases (is_member keyword forbidden_keywords)) [
      | inr fine ↦ fine
      | inl forbidden ↦
          let there =
            found keyword behind (keyword-is_word keyword forbidden) apart' before apart in
          let kept =
            kept_found (λ w. is_member w forbidden_keywords) keyword
              (words_of (before ++ (keyword ++ behind))) forbidden there in
          let kept' : is_nonempty (forbidden_in upper (stripped sql)) ≡ true = rw reads kept in
          ground (arith, passes, kept')
    ]
