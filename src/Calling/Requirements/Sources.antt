-- ===== src/Calling/Requirements/Sources.antt =====
-- Where the parameters that app/agent/requirements.py counts as available come from.
use ai_agent_task_assistant.Common.{
  String, Text, text_eq, strip, ◌≡◌, refl, ap, ◌⊎◌, inl, inr, Bool, true, false, not, ◌&&◌, ◌||◌,
  Bool-cases, Option-cases, Option, none, some, List, [], ◌∷◌, Dict, lookup, insert, lookup-insert,
  Value, any, ◌==◌, eq_iff, arith, codes, text_of,
}
use ai_agent_task_assistant.Calling.Requirements.{
  RequirementSlot, requirement_slots, is_valid_text, is_valid, has_key, first_value, extract_slots,
  extract_requirements, merge_into, merge_all, merge_requirements, is_free_text, extract_query,
  with_arguments, available_for,
}

-- an argument of that name with a value that counts
abbrev pub is_argument : (Value → String) → String → Dict Value → Bool
is_argument render key args =
    any (λ e. (e.0 == key) && (not (is_free_text e.0) && is_valid render e.1)) args

-- an entry of that name with a value that counts
abbrev pub is_entry : String → Dict Text → Bool
is_entry key d = any (λ e. (e.0 == key) && is_valid_text e.1) d

module _ (search : String → Text → Option Text) where
  -- the pattern is found, with a value that counts
  abbrev pub matches : Text → String → Bool
  matches text pattern = elim (search pattern text) [
    | none ↦ false
    | some group ↦ is_valid_text (strip group)
  ]

  -- some pattern of the slot of that name is found in the text
  abbrev pub is_found : String → Text → Bool
  is_found key text =
      not (text_eq text [])
      && any (λ slot. (slot.name == key) && any (matches text) slot.patterns) requirement_slots

has_key-insert :
    (k key : String) (v : Text) (d : Dict Text)
    → has_key key (insert k v d) ≡ ((k == key) || has_key key d)
has_key-insert k key v d =
    rw (lookup-insert k key v d)
      (elim (Bool-cases (k == key)) [ inl same ↦ rw same refl | inr other ↦ rw other refl ])

merge_into_lem :
    (key : String) (source merged : Dict Text)
    → has_key key (merge_into merged source) ≡ (has_key key merged || is_entry key source)
unfolding merge_into
merge_into_lem key [] merged = ground arith
merge_into_lem key ((k, v) ∷ source) merged = elim (Bool-cases (is_valid_text v)) [
  | inl valid ↦
      let rest = merge_into_lem key source (insert k (strip v) merged) in
      rw valid (ground (arith, rest, has_key-insert k key (strip v) merged))
  | inr void ↦ let rest = merge_into_lem key source merged in rw void (ground (arith, rest))
]

with_arguments_lem :
    (render : Value → String) (key : String) (args : Dict Value) (available : Dict Text)
    → has_key key (with_arguments render available args)
      ≡ (has_key key available || is_argument render key args)
unfolding with_arguments
with_arguments_lem render key [] available = ground arith
with_arguments_lem render key ((k, v) ∷ args) available =
    let passed = is_free_text k || not (is_valid render v) || has_key k available in
    let text = codes (text_of render "" (some v)) in
    elim (Bool-cases passed) [
      | inl skip ↦
          let rest = with_arguments_lem render key args available in
          let same =
            λ (e : (k == key) ≡ true). ap (λ i. has_key i available) ((eq_iff k key).0 e) in
          rw skip (ground (arith, rest, skip, same))
      | inr add ↦
          let rest = with_arguments_lem render key args (insert k text available) in
          rw add (ground (arith, rest, add, has_key-insert k key text available))
    ]

module _ (search : String → Text → Option Text) where
  first_value_lem :
      (patterns : List String) (text : Text)
      → ((first_value search patterns text ≡ none) × (any (matches search text) patterns ≡ false))
        ⊎ ((v : Text) × (first_value search patterns text ≡ some v)
            × (is_valid_text v ≡ true)
            × (any (matches search text) patterns ≡ true))
  unfolding first_value
  first_value_lem [] text = inl (refl, refl)
  first_value_lem (p ∷ patterns) text = elim (Option-cases (search p text)) [
    | inl missing ↦ rw (missing, first_value, any, matches) (first_value_lem patterns text)
    | inr (group, found) ↦ elim (Bool-cases (is_valid_text (strip group))) [
      | inl valid ↦ inr (
        strip group,
        rw (found, first_value, valid) refl,
        valid,
        rw (found, valid, any, matches) refl,
      )
      | inr void ↦ rw (found, first_value, void, any, matches) (first_value_lem patterns text)
    ]
  ]

  extract_slots_lem :
      (key : String) (slots : List RequirementSlot) (text : Text)
      → is_entry key (extract_slots search slots text)
        ≡ any (λ slot. (slot.name == key) && any (matches search text) slot.patterns) slots
  unfolding extract_slots
  extract_slots_lem key [] text = refl
  extract_slots_lem key (slot ∷ slots) text =
      let rest = extract_slots_lem key slots text in
      elim (first_value_lem slot.patterns text) [
        | inl (nothing, off) ↦ rw (nothing, extract_slots) (ground (arith, rest, off))
        | inr (v, found, valid, on) ↦ rw (found, extract_slots) (ground (arith, rest, valid, on))
      ]

  extract_requirements_lem :
      (key : String) (text : Text)
      → is_entry key (extract_requirements search text) ≡ is_found search key text
  unfolding extract_requirements text_eq
  extract_requirements_lem key [] = refl
  extract_requirements_lem key (c ∷ text) = extract_slots_lem key requirement_slots (c ∷ text)

  module _ (render : Value → String) where
    -- a value of that name is given: before, in the query, in the conversation, or as an argument
    abbrev pub is_given : Dict Value → Dict Text → Text → String → Bool
    is_given args extracted conversation key =
        is_entry key extracted
        || is_found search key (extract_query render args)
        || is_found search key conversation
        || is_argument render key args

    pub has_key-available_for :
        (args : Dict Value) (extracted : Dict Text) (conversation : Text) (key : String)
        → has_key key (available_for search render args extracted conversation)
          ≡ is_given args extracted conversation key
    unfolding available_for merge_requirements merge_all lookup
    has_key-available_for args extracted conversation key =
        let query = extract_query render args in
        let first = extract_requirements search query in
        let second = extract_requirements search conversation in
        let a = merge_into_lem key extracted [] in
        let b = merge_into_lem key first (merge_into [] extracted) in
        let c = merge_into_lem key second (merge_into (merge_into [] extracted) first) in
        let d =
          with_arguments_lem render key args
            (merge_into (merge_into (merge_into [] extracted) first) second) in
        ground (
          arith,
          a,
          b,
          c,
          d,
          extract_requirements_lem key query,
          extract_requirements_lem key conversation,
        )
