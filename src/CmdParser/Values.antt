-- ===== src/CmdParser/Values.antt =====
-- The values of switches: defaults, and what is kept of a value that was read.
use di_store.Base.{
  ◌≡◌, refl, ◌∙◌, Bool, true, false, not, inl, inr, Option, none, some, List, Bytes, ◌++◌, str_eq,
  str_eq_refl, Option-cases, if◌then◌else◌,
}
use di_store.Base.Maps.{lookup_key, insert_new, is_set, lookup_key-insert_new, insert_new-is_set}
use di_store.CmdParser.{
  flag, other, Parser, got, null_dereference, add_switch, add_switch_default, insert_plain,
  get_as_bool, get_as, parse, is_false, true_text, false_text, regex_long_suffix,
  regex_short_suffix,
}
use di_store.CmdParser.Built.{IsParser}

is_false-default : (d : Bool) → not (is_false (if d then true_text else false_text)) ≡ d
unfolding is_false str_eq
is_false-default true = refl
is_false-default false = refl

module _ {ℓ} {T : Type ℓ} where
  -- Neither map has what is no option.
  absent-IsParser :
      (p : Parser T) (full : Bytes)
      → IsParser p
      → lookup_key full p.regex_map ≡ none
      → (lookup_key full p.plain_map ≡ none) × (lookup_key full p.parsed_map ≡ none)
  absent-IsParser p full h new = elim (Option-cases (lookup_key full p.plain_map)) [
    | inr (s, there) ↦
        let option : is_set (lookup_key full p.regex_map) ≡ true = h.texts full (rw there refl) in
        let clash : false ≡ true = rw new at option in absurd (cc)
    | inl gone ↦ elim (Option-cases (lookup_key full p.parsed_map)) [
      | inl absent ↦ (gone, absent)
      | inr (v, read) ↦
          let text : is_set (lookup_key full p.plain_map) ≡ true = h.values full (rw read refl) in
          let clash : false ≡ true = rw gone at text in absurd (cc)
    ]
  ]

  get_as_bool-unparsed :
      (p : Parser T) (opt s : Bytes)
      → lookup_key opt p.parsed_map ≡ none
      → lookup_key opt p.plain_map ≡ some s
      → (get_as_bool opt p).1 ≡ got (some (not (is_false s)))
  unfolding get_as_bool
  get_as_bool-unparsed p opt s absent there = rw (absent, get_as_bool, there) refl

  -- A new switch with a default has that default as its value.
  pub get_as_bool-add_switch_default :
      (p : Parser T) (full shrt : Bytes) (d : Bool)
      → IsParser p
      → lookup_key full p.regex_map ≡ none
      → (get_as_bool full (add_switch_default full shrt d p).0).1 ≡ got (some d)
  unfolding add_switch_default add_switch insert_plain
  get_as_bool-add_switch_default p full shrt d h new =
      let (gone, absent) = absent-IsParser p full h new in
      let text : Bytes = if d then true_text else false_text in
      let reg : Bytes × Bytes = (full ++ regex_long_suffix, shrt ++ regex_short_suffix) in
      let added : (insert_new full reg p.regex_map).1 ≡ true =
        insert_new-is_set full reg p.regex_map ∙ rw new refl in
      let p' : Parser T = record p {
        plain_map = (insert_new full text p.plain_map).0;
        regex_map = (insert_new full reg p.regex_map).0;
      } in
      let there : lookup_key full p'.plain_map ≡ some text =
        lookup_key-insert_new full full text p.plain_map ∙ rw (str_eq_refl full, gone) refl in
      rw added (get_as_bool-unparsed p' full text absent there ∙ rw (is_false-default d) refl)

  -- A value that is kept.
  get_as_bool-parsed :
      (p : Parser T) (opt : Bytes) (b : Bool)
      → (get_as_bool opt p).1 ≡ got (some b)
      → lookup_key opt (get_as_bool opt p).0.parsed_map ≡ some (flag b)
  unfolding get_as_bool
  get_as_bool-parsed p opt b h = elim (Option-cases (lookup_key opt p.parsed_map)) [
    | inr (flag c, here) ↦
        rw (here, get_as_bool)
          (let e = rw (here, get_as_bool) at h in let f : c ≡ b = cc in here ∙ rw f refl)
    | inr (other v, here) ↦ absurd (let e = rw (here, get_as_bool) at h in cc)
    | inl absent ↦ elim (Option-cases (lookup_key opt p.plain_map)) [
      | inl gone ↦ absurd (let e = rw (absent, get_as_bool, gone) at h in cc)
      | inr (s, there) ↦
          rw (absent, get_as_bool, there)
            (let e = rw (absent, get_as_bool, there) at h in
              let f : not (is_false s) ≡ b = cc in
              lookup_key-insert_new opt opt (flag (not (is_false s))) p.parsed_map
              ∙ rw (str_eq_refl opt, absent, f) refl)
    ]
  ]

  flag-kept :
      (parse_value : Bytes → Option T) (p : Parser T) (opt : Bytes) (b : Bool)
      → lookup_key opt p.parsed_map ≡ some (flag b)
      → ((get_as_bool opt p).1 ≡ got (some b)) × ((get_as parse_value opt p).1 ≡ null_dereference)
  unfolding get_as_bool get_as
  flag-kept parse_value p opt b here = (rw (here, get_as_bool) refl, rw (here, get_as) refl)

  -- The value of a switch that was read once stays what it was, whatever is parsed later, and reading it
  -- as another type afterwards uses a null pointer.
  pub get_as_bool_kept :
      (regex_search : Bytes → Bytes → Option Bytes) (parse_value : Bytes → Option T)
      (argv : List Bytes) (p : Parser T) (opt : Bytes) (b : Bool)
      → (get_as_bool opt p).1 ≡ got (some b)
      → ((get_as_bool opt (parse regex_search argv (get_as_bool opt p).0)).1 ≡ got (some b))
        × ((get_as parse_value opt (get_as_bool opt p).0).1 ≡ null_dereference)
  unfolding parse
  get_as_bool_kept regex_search parse_value argv p opt b h =
      let q = (get_as_bool opt p).0 in
      let kept = get_as_bool-parsed p opt b h in
      (
        (flag-kept parse_value (parse regex_search argv q) opt b kept).0,
        (flag-kept parse_value q opt b kept).1,
      )
