-- ===== src/CmdParser/Built.antt =====
-- The parsers that a program can make, and how their three maps hang together.
use di_store.Base.{
  ◌≡◌, refl, subst, Bool, true, false, not, inl, inr, Option, none, some, List, Bytes, ◌++◌,
  Bool-cases, Option-cases, if◌then◌else◌,
}
use di_store.Base.Maps.{
  IsMap, lookup_key, insert_new, is_set, insert_new-IsMap, insert_new-grows, insert_new_self,
  insert_new_only,
}
use di_store.CmdParser.{
  BasicValue, flag, other, Parser, no_options, add_switch, add_switch_default, add_option,
  add_option_default, insert_plain, get_plain, get_as_bool, get_as, parse, is_false, joined,
  true_text, false_text, regex_long_suffix, regex_short_suffix, match_option,
}
use di_store.CmdParser.Parse.{get_plain-parse, matched, match_option-matched}

module _ {ℓ} {T : Type ℓ} (regex_search : Bytes → Bytes → Option Bytes)
    (parse_value : Bytes → Option T) where
  -- What the operations make of a parser without options.
  pub data Built : Parser T → Type ℓ where
    fresh : Built no_options
    with_switch : {p : Parser T} (full shrt : Bytes) → Built p → Built (add_switch full shrt p).0
    with_switch_default :
        {p : Parser T} (full shrt : Bytes) (b : Bool)
        → Built p
        → Built (add_switch_default full shrt b p).0
    with_option : {p : Parser T} (full shrt : Bytes) → Built p → Built (add_option full shrt p).0
    with_option_default :
        {p : Parser T} (full shrt text : Bytes)
        → Built p
        → Built (add_option_default full shrt text p).0
    parsed : {p : Parser T} (argv : List Bytes) → Built p → Built (parse regex_search argv p)
    read_bool : {p : Parser T} (opt : Bytes) → Built p → Built (get_as_bool opt p).0
    read_as : {p : Parser T} (opt : Bytes) → Built p → Built (get_as parse_value opt p).0

-- Options are there once, what has a text is an option, and what has a value has a text.
pub record IsParser {ℓ} {T : Type ℓ} (p : Parser T) : Type ℓ where
  pub options : IsMap p.regex_map
  pub texts :
      (k : Bytes)
      → is_set (lookup_key k p.plain_map) ≡ true
      → is_set (lookup_key k p.regex_map) ≡ true
  pub values :
      (k : Bytes)
      → is_set (lookup_key k p.parsed_map) ≡ true
      → is_set (lookup_key k p.plain_map) ≡ true

matched-grows :
    (regex_search : Bytes → Bytes → Option Bytes) (text : Bytes) (reg : Option (Bytes × Bytes))
    (before : Option Bytes)
    → is_set before ≡ true
    → is_set (matched regex_search text reg before) ≡ true
matched-grows regex_search text none before h = h
matched-grows regex_search text (some reg) before h =
    elim (Option-cases (match_option regex_search text reg)) [
      | inl missed ↦
          subst (λ (o : Option Bytes). is_set o ≡ true)
            (match_option-matched regex_search text reg before) (rw missed h)
      | inr (v, found) ↦
          subst (λ (o : Option Bytes). is_set o ≡ true)
            (match_option-matched regex_search text reg before) (rw found refl)
    ]

module _ {ℓ} {T : Type ℓ} where
  add_switch-IsParser :
      (p : Parser T) (full shrt : Bytes) → IsParser p → IsParser (add_switch full shrt p).0
  unfolding add_switch
  add_switch-IsParser p full shrt h =
      let reg : Bytes × Bytes = (full ++ regex_long_suffix, shrt ++ regex_short_suffix) in
      record {
        options = insert_new-IsMap full reg p.regex_map h.options;
        texts = λ k t. insert_new-grows k full reg p.regex_map (h.texts k t);
        values = h.values;
      }

  add_switch_self :
      (p : Parser T) (full shrt : Bytes)
      → is_set (lookup_key full (add_switch full shrt p).0.regex_map) ≡ true
  unfolding add_switch
  add_switch_self p full shrt =
      insert_new_self full (full ++ regex_long_suffix, shrt ++ regex_short_suffix) p.regex_map

  insert_plain-IsParser :
      (p : Parser T) (full v : Bytes)
      → IsParser p
      → is_set (lookup_key full p.regex_map) ≡ true
      → IsParser (insert_plain full v p).0
  unfolding insert_plain
  insert_plain-IsParser p full v h there = record {
    options = h.options;
    texts = λ k t. elim (insert_new_only k full v p.plain_map t) [
      | inl same ↦ subst (λ j. is_set (lookup_key j p.regex_map) ≡ true) same there
      | inr before ↦ h.texts k before
    ];
    values = λ k t. insert_new-grows k full v p.plain_map (h.values k t);
  }

  -- A text goes to an option that has just been added.
  default-IsParser :
      (p : Parser T) (full shrt v : Bytes)
      → IsParser p
      → IsParser
          (let (p', added) = add_switch full shrt p in
            if not added then (p', false) else insert_plain full v p').0
  default-IsParser p full shrt v h =
      let p' = (add_switch full shrt p).0 in
      let h' = add_switch-IsParser p full shrt h in
      let there : is_set (lookup_key full p'.regex_map) ≡ true = add_switch_self p full shrt in
      elim (Bool-cases (add_switch full shrt p).1) [
        | inl new ↦ rw new (insert_plain-IsParser p' full v h' there)
        | inr old ↦ rw old h'
      ]

  parse-IsParser :
      (regex_search : Bytes → Bytes → Option Bytes) (argv : List Bytes) (p : Parser T)
      → IsParser p
      → IsParser (parse regex_search argv p)
  unfolding parse get_plain
  parse-IsParser regex_search argv p h = record {
    options = h.options;
    texts = λ k t.
        let e = get_plain-parse regex_search argv p k h.options in
        elim (Option-cases (lookup_key k p.regex_map)) [
          | inl gone ↦ h.texts k (rw (e, gone) at t)
          | inr (reg, here) ↦ rw here refl
        ];
    values = λ k t. rw (get_plain-parse regex_search argv p k h.options) (
        matched-grows regex_search (joined argv) (lookup_key k p.regex_map)
          (lookup_key k p.plain_map) (h.values k t));
  }

  parsed-IsParser :
      (p : Parser T) (opt : Bytes) (v : BasicValue T)
      → IsParser p
      → is_set (lookup_key opt p.plain_map) ≡ true
      → IsParser (record p { parsed_map = (insert_new opt v p.parsed_map).0 })
  parsed-IsParser p opt v h there = record {
    options = h.options;
    texts = h.texts;
    values = λ k t. elim (insert_new_only k opt v p.parsed_map t) [
      | inl same ↦ subst (λ j. is_set (lookup_key j p.plain_map) ≡ true) same there
      | inr before ↦ h.values k before
    ];
  }

  get_as_bool-IsParser : (p : Parser T) (opt : Bytes) → IsParser p → IsParser (get_as_bool opt p).0
  unfolding get_as_bool
  get_as_bool-IsParser p opt h = elim (Option-cases (lookup_key opt p.parsed_map)) [
    | inr (flag b, here) ↦ rw (here, get_as_bool) h
    | inr (other v, here) ↦ rw (here, get_as_bool) h
    | inl absent ↦ elim (Option-cases (lookup_key opt p.plain_map)) [
      | inl gone ↦ rw (absent, get_as_bool, gone) h
      | inr (s, there) ↦
          rw (absent, get_as_bool, there)
            (parsed-IsParser p opt (flag (not (is_false s))) h (rw there refl))
    ]
  ]

  get_as-IsParser :
      (parse_value : Bytes → Option T) (p : Parser T) (opt : Bytes)
      → IsParser p
      → IsParser (get_as parse_value opt p).0
  unfolding get_as
  get_as-IsParser parse_value p opt h = elim (Option-cases (lookup_key opt p.parsed_map)) [
    | inr (flag b, here) ↦ rw (here, get_as) h
    | inr (other v, here) ↦ rw (here, get_as) h
    | inl absent ↦ elim (Option-cases (lookup_key opt p.plain_map)) [
      | inl gone ↦ rw (absent, get_as, gone) h
      | inr (s, there) ↦ elim (Option-cases (parse_value s)) [
        | inl failed ↦ rw (absent, get_as, there, failed) h
        | inr (v, fine) ↦
            rw (absent, get_as, there, fine) (parsed-IsParser p opt (other v) h (rw there refl))
      ]
    ]
  ]

  -- In every parser that the operations make from the empty one, an option is there once, only options
  -- have texts, and only what has a text has a value.
  pub Built-IsParser :
      (regex_search : Bytes → Bytes → Option Bytes) (parse_value : Bytes → Option T) (p : Parser T)
      → Built regex_search parse_value p
      → IsParser p
  unfolding add_switch_default add_option add_option_default lookup_key
  Built-IsParser regex_search parse_value _ fresh = record {
    options = tt;
    texts = λ k t. t;
    values = λ k t. t;
  }
  Built-IsParser regex_search parse_value _ (with_switch {p = p} full shrt b) =
      add_switch-IsParser p full shrt (Built-IsParser regex_search parse_value p b)
  Built-IsParser regex_search parse_value _ (with_switch_default {p = p} full shrt d b) =
      default-IsParser p full shrt (if d then true_text else false_text)
        (Built-IsParser regex_search parse_value p b)
  Built-IsParser regex_search parse_value _ (with_option {p = p} full shrt b) =
      add_switch-IsParser p full shrt (Built-IsParser regex_search parse_value p b)
  Built-IsParser regex_search parse_value _ (with_option_default {p = p} full shrt text b) =
      default-IsParser p full shrt text (Built-IsParser regex_search parse_value p b)
  Built-IsParser regex_search parse_value _ (parsed {p = p} argv b) =
      parse-IsParser regex_search argv p (Built-IsParser regex_search parse_value p b)
  Built-IsParser regex_search parse_value _ (read_bool {p = p} opt b) =
      get_as_bool-IsParser p opt (Built-IsParser regex_search parse_value p b)
  Built-IsParser regex_search parse_value _ (read_as {p = p} opt b) =
      get_as-IsParser parse_value p opt (Built-IsParser regex_search parse_value p b)
