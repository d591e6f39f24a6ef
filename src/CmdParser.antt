-- ===== src/CmdParser.antt =====
-- src/components/cmd_parser: options of the command line.
--
-- An unordered_map is an association list, whose order nothing depends on. What std::regex_search finds for
-- a pattern in a text, the first group, is an argument, and so is what `operator>>` reads from a string.
-- `T` is the one type besides bool that values are read as.
pub mod Built
pub mod Parse
pub mod Values
use di_store.Base.{
  Bool, true, false, ◌||◌, not, Option, none, some, List, [], ◌∷◌, ◌++◌, Bytes, str_eq,
  if◌then◌else◌,
}
use di_store.Base.Maps.{Map, lookup_key, insert_new, replace, prefer}

-- The content of a `GenericValue` of bool, or of T, behind a `BasicValuePtr`.
pub data BasicValue {ℓ} (T : Type ℓ) : Type ℓ where
  flag : Bool → BasicValue T
  other : T → BasicValue T

pub record Parser {ℓ} (T : Type ℓ) : Type ℓ where
  pub plain_map : Map Bytes
  pub regex_map : Map (Bytes × Bytes)
  pub parsed_map : Map (BasicValue T)

-- `=*\s*(\S+)`
abbrev pub regex_long_suffix : Bytes
regex_long_suffix = b'=' ∷ b'*' ∷ 92 ∷ b's' ∷ b'*' ∷ b'(' ∷ 92 ∷ b'S' ∷ b'+' ∷ b')' ∷ []

-- `\s*(\S+)`
abbrev pub regex_short_suffix : Bytes
regex_short_suffix = 92 ∷ b's' ∷ b'*' ∷ b'(' ∷ 92 ∷ b'S' ∷ b'+' ∷ b')' ∷ []

-- What `get_as` returns, or the null pointer that `dynamic_pointer_cast` gives for another type is used.
pub data Got {ℓ} (A : Type ℓ) : Type ℓ where
  got : Option A → Got A
  null_dereference : Got A

abbrev pub true_text : Bytes
true_text = b't' ∷ b'r' ∷ b'u' ∷ b'e' ∷ []

abbrev pub false_text : Bytes
false_text = b'f' ∷ b'a' ∷ b'l' ∷ b's' ∷ b'e' ∷ []

abbrev pub upper_false : Bytes
upper_false = b'F' ∷ b'a' ∷ b'l' ∷ b's' ∷ b'e' ∷ []

-- A full match of `(f|F)(alse)?|0`.
unfoldable pub is_false : Bytes → Bool
is_false s =
    str_eq s (b'f' ∷ [])
    || str_eq s (b'F' ∷ [])
    || str_eq s false_text
    || str_eq s upper_false
    || str_eq s (b'0' ∷ [])

-- The arguments behind the first, each with a space behind it.
unfoldable pub joined : List Bytes → Bytes
joined [] = []
joined (a ∷ argv) = a ++ (b' ' ∷ joined argv)

module _ {ℓ} {T : Type ℓ} where
  abbrev pub no_options : Parser T
  no_options = record { plain_map = []; regex_map = []; parsed_map = [] }

  unfoldable pub add_switch : Bytes → Bytes → Parser T → Parser T × Bool
  add_switch full shrt p =
      let (m, added) =
        insert_new full (full ++ regex_long_suffix, shrt ++ regex_short_suffix) p.regex_map in
      (record p { regex_map = m }, added)

  unfoldable pub more_switch : Bytes → Bytes → Parser T → Parser T
  unfolding add_switch
  more_switch full shrt p = (add_switch full shrt p).0

  -- `plain_map.insert({full, v}).second`
  unfoldable pub insert_plain : Bytes → Bytes → Parser T → Parser T × Bool
  insert_plain full v p =
      let (m, added) = insert_new full v p.plain_map in (record p { plain_map = m }, added)

  -- `add_switch` with a default
  unfoldable pub add_switch_default : Bytes → Bytes → Bool → Parser T → Parser T × Bool
  unfolding add_switch insert_plain
  add_switch_default full shrt default_value p =
      let (p', added) = add_switch full shrt p in
      if not added
      then (p', false)
      else insert_plain full (if default_value then true_text else false_text) p'

  unfoldable pub more_switch_default : Bytes → Bytes → Bool → Parser T → Parser T
  unfolding add_switch_default
  more_switch_default full shrt default_value p = (add_switch_default full shrt default_value p).0

  unfoldable pub add_option : Bytes → Bytes → Parser T → Parser T × Bool
  add_option full shrt p =
      let (m, added) =
        insert_new full (full ++ regex_long_suffix, shrt ++ regex_short_suffix) p.regex_map in
      (record p { regex_map = m }, added)

  unfoldable pub more_option : Bytes → Bytes → Parser T → Parser T
  unfolding add_option
  more_option full shrt p = (add_option full shrt p).0

  -- `add_option` with a default, as the stream writes it
  unfoldable pub add_option_default : Bytes → Bytes → Bytes → Parser T → Parser T × Bool
  unfolding add_option insert_plain
  add_option_default full shrt default_value p =
      let (p', added) = add_option full shrt p in
      if not added then (p', false) else insert_plain full default_value p'

  unfoldable pub more_option_default : Bytes → Bytes → Bytes → Parser T → Parser T
  unfolding add_option_default
  more_option_default full shrt default_value p = (add_option_default full shrt default_value p).0

  unfoldable pub get_plain : Bytes → Parser T → Option Bytes
  get_plain opt p = lookup_key opt p.plain_map

  -- `get_as<bool>`, which keeps what it parsed
  unfoldable pub get_as_bool : Bytes → Parser T → Parser T × Got Bool
  get_as_bool opt p = elim (lookup_key opt p.parsed_map) [
    | some (flag b) ↦ (p, got (some b))
    | some (other v) ↦ (p, null_dereference)
    | none ↦ elim (lookup_key opt p.plain_map) [
      | none ↦ (p, got none)
      | some s ↦
          let b = not (is_false s) in
          (record p { parsed_map = (insert_new opt (flag b) p.parsed_map).0 }, got (some b))
    ]
  ]

  -- `get_as<Target>`
  unfoldable pub get_as : (Bytes → Option T) → Bytes → Parser T → Parser T × Got T
  get_as parse_value opt p = elim (lookup_key opt p.parsed_map) [
    | some (other v) ↦ (p, got (some v))
    | some (flag b) ↦ (p, null_dereference)
    | none ↦ elim (lookup_key opt p.plain_map) [
      | none ↦ (p, got none)
      | some s ↦ elim (parse_value s) [
        | none ↦ (p, got none)
        | some v ↦
            (record p { parsed_map = (insert_new opt (other v) p.parsed_map).0 }, got (some v))
      ]
    ]
  ]

  -- `get_as` with a convertor
  unfoldable pub get_as_with {κ} : {A : Type κ} → (Bytes → Option A) → Bytes → Parser T → Option A
  get_as_with convertor opt p = elim (lookup_key opt p.plain_map) [
    | none ↦ none
    | some s ↦ convertor s
  ]

-- `regex_search(text, pattern)`: the first group of the first match
module _ (regex_search : Bytes → Bytes → Option Bytes) where
  -- The match of the long pattern, and if there is none of the short one.
  abbrev pub match_option : Bytes → Bytes × Bytes → Option Bytes
  match_option text reg = prefer (regex_search text reg.0) (regex_search text reg.1)

  -- The body of the loop: what was matched is inserted, or replaces the old text.
  unfoldable pub parse_option : Bytes → Bytes → Bytes × Bytes → Map Bytes → Map Bytes
  parse_option text full reg plain = elim (match_option text reg) [
    | none ↦ plain
    | some v ↦ elim (lookup_key full plain) [
      | none ↦ (insert_new full v plain).0
      | some u ↦ replace full v plain
    ]
  ]

  unfoldable pub parse_options : Bytes → Map (Bytes × Bytes) → Map Bytes → Map Bytes
  parse_options text [] plain = plain
  parse_options text ((full, reg) ∷ regs) plain =
      parse_options text regs (parse_option text full reg plain)

  -- `parse`
  unfoldable pub parse {ℓ} : {T : Type ℓ} → List Bytes → Parser T → Parser T
  parse argv p = record p { plain_map = parse_options (joined argv) p.regex_map p.plain_map }
