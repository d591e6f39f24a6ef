-- ===== src/CmdParser/Parse.antt =====
-- What `parse` makes of an option, in whatever order the map of options is walked.
use di_store.Base.{
  ◌≡◌, refl, sym, ◌∙◌, inl, inr, Option, none, some, List, [], ◌∷◌, Bytes, str_eq, str_eq→eq,
  Bool-cases, Option-cases, arith, if◌then◌else◌,
}
use di_store.Base.Maps.{Map, IsMap, lookup_key, prefer, lookup_key-insert_new, lookup_key-replace}
use di_store.CmdParser.{Parser, joined, get_plain, match_option, parse_option, parse_options, parse}

-- The first of the texts that is there.
abbrev pub first_of : List (Option Bytes) → Option Bytes
first_of [] = none
first_of (some v ∷ vs) = some v
first_of (none ∷ vs) = first_of vs

-- What an option's text is, given its patterns: the match of the long one, of the short one, or the text
-- before.
abbrev pub matched :
    (Bytes → Bytes → Option Bytes) → Bytes → Option (Bytes × Bytes) → Option Bytes → Option Bytes
matched regex_search text none before = before
matched regex_search text (some (long, short)) before =
    first_of (regex_search text long ∷ regex_search text short ∷ before ∷ [])

pub match_option-matched :
    (regex_search : Bytes → Bytes → Option Bytes) (text : Bytes) (reg : Bytes × Bytes)
    (before : Option Bytes)
    → prefer (match_option regex_search text reg) before
      ≡ matched regex_search text (some reg) before
match_option-matched regex_search text (long, short) none =
    elim (Option-cases (regex_search text long)) [
      | inr (v, found) ↦ rw found refl
      | inl missed ↦ elim (Option-cases (regex_search text short)) [
        | inr (v, found) ↦ rw (missed, found) refl
        | inl none_too ↦ rw (missed, none_too) refl
      ]
    ]
match_option-matched regex_search text (long, short) (some u) =
    elim (Option-cases (regex_search text long)) [
      | inr (v, found) ↦ rw found refl
      | inl missed ↦ elim (Option-cases (regex_search text short)) [
        | inr (v, found) ↦ rw (missed, found) refl
        | inl none_too ↦ rw (missed, none_too) refl
      ]
    ]

module _ (regex_search : Bytes → Bytes → Option Bytes) (text : Bytes) where
  lookup_key-parse_option :
      (k full : Bytes) (reg : Bytes × Bytes) (plain : Map Bytes)
      → lookup_key k (parse_option regex_search text full reg plain) ≡ (
          if str_eq full k
          then prefer (match_option regex_search text reg) (lookup_key k plain)
          else lookup_key k plain)
  unfolding parse_option
  lookup_key-parse_option k full reg plain =
      elim (Option-cases (match_option regex_search text reg)) [
        | inl missed ↦ rw (missed, parse_option) (ground arith)
        | inr (v, found) ↦ elim (Option-cases (lookup_key full plain)) [
          | inl absent ↦
              rw (found, parse_option, absent)
                (lookup_key-insert_new k full v plain ∙ rw absent refl)
          | inr (u, here) ↦
              rw (found, parse_option, here)
                (lookup_key-replace k full v plain ∙ rw here (ground arith))
        ]
      ]

  lookup_key-parse_options :
      (regs : Map (Bytes × Bytes)) (k : Bytes) (plain : Map Bytes)
      → IsMap regs
      → lookup_key k (parse_options regex_search text regs plain)
        ≡ matched regex_search text (lookup_key k regs) (lookup_key k plain)
  unfolding parse_options lookup_key
  lookup_key-parse_options [] k plain h = refl
  lookup_key-parse_options ((full, reg) ∷ regs) k plain (once, h) =
      let ih = lookup_key-parse_options regs k (parse_option regex_search text full reg plain) h in
      elim (Bool-cases (str_eq full k)) [
        | inl same ↦
            let e = str_eq→eq full k same in
            let gone : lookup_key k regs ≡ none = rw (sym e) once in
            rw same (
              ih
              ∙ rw gone (
                  lookup_key-parse_option k full reg plain
                  ∙ (rw same (match_option-matched regex_search text reg (lookup_key k plain)))))
        | inr apart ↦
            let kept : lookup_key k (parse_option regex_search text full reg plain)
                ≡ lookup_key k plain =
              lookup_key-parse_option k full reg plain ∙ rw apart refl in
            rw apart (ih ∙ rw kept refl)
      ]

-- After `parse` an option has the text that its long pattern matched, or else its short pattern, or else
-- the text that it had; what is not an option keeps its text.
pub get_plain-parse {ℓ} :
    {T : Type ℓ} (regex_search : Bytes → Bytes → Option Bytes) (argv : List Bytes) (p : Parser T)
    (opt : Bytes)
    → IsMap p.regex_map
    → get_plain opt (parse regex_search argv p)
      ≡ matched regex_search (joined argv) (lookup_key opt p.regex_map) (get_plain opt p)
unfolding get_plain parse
get_plain-parse regex_search argv p opt h =
    lookup_key-parse_options regex_search (joined argv) p.regex_map opt p.plain_map h
