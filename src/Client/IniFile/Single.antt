-- ===== src/Client/IniFile/Single.antt =====
-- A file of one section with one entry, as `write_profile_string` makes it.
use order_sync.Base.{
  Bool-cases, true-ne-false, inl, inr, ℕ, zero, suc, ◌+◌, ◌-◌, ◌≡◌, ◌≢◌, refl, sym, ap, ◌∙◌, List,
  [], ◌∷◌, ◌++◌, Option, none, some, true, false, ◌||◌, not, All, All-append, arith, length, drop,
  take, min, drop-drop, drop-append, ne→not_==, if◌then◌else◌, append_assoc, length-append,
}
use order_sync.Client.IniFile.{
  at, same_start, newline, end_of_string, left_brace, right_brace, is_space, Entry, Found, Turn, on,
  lines, line_entry, line_end, in_section, after_lines, turn, turns, parse_file, skip_space,
  find_right, read_found, section_text, entry_text,
}
use order_sync.Client.IniFile.Scans.{at-drop, drop_next, scan_lem, same_start_lem, find_key_lem}

-- A name of a section: no bracket ends it.
abbrev pub InBrackets : List ℕ → Type 0
InBrackets = All (λ c. (right_brace c || end_of_string c) ≡ false)

abbrev pub InLine : List ℕ → Type 0
InLine = All (λ c. (newline c || end_of_string c) ≡ false)

-- A key: it stands in one line, begins neither a comment nor a section nor with a space, and holds no
-- '='.
pub record IsKey (c : ℕ) (key : List ℕ) : Type 0 where
  pub no_space : is_space c ≡ false
  pub no_comment : c ≢ 59
  pub no_section : left_brace c ≡ false
  pub in_line : InLine (c ∷ key)
  pub plain : All (λ x. x ≢ 61) (c ∷ key)

take-min : (n : ℕ) (xs ys : List ℕ) → take (min n (length xs)) (xs ++ ys) ≡ take n xs
take-min zero xs ys = ap (λ m. take m (xs ++ ys)) {x = min 0 (length xs)} {y = 0} (omega arith)
take-min (suc n) [] ys = ap (λ m. take m ys) {x = min (suc n) 0} {y = 0} (omega arith)
take-min (suc n) (x ∷ xs) ys =
    ap (λ m. take m (x ∷ xs ++ ys)) {x = min (suc n) (suc (length xs))}
      {y = suc (min n (length xs))} (omega arith)
    ∙ ap (◌∷◌ x) (take-min n xs ys)

not_nul : (c : ℕ) → (newline c || end_of_string c) ≡ false → end_of_string c ≡ false
not_nul c e = elim (Bool-cases (newline c)) [
  | inl is ↦ absurd (true-ne-false (sym (ap (λ b. b || end_of_string c) is) ∙ e))
  | inr not_is ↦ sym (ap (λ b. b || end_of_string c) not_is) ∙ e
]

module _ (name more : List ℕ) (c : ℕ) (key others value : List ℕ) (in_brackets : InBrackets name)
    (is_key : IsKey c key) (in_line : InLine value) where
  abbrev pub text : List ℕ
  text = section_text name (c ∷ key) value

  -- Where the line of the entry begins.
  abbrev pub start : ℕ
  start = length name + 3

  name_text : drop 1 text ≡ name ++ (93 ∷ 10 ∷ entry_text (c ∷ key) value)
  name_text = refl

  bracket_text : drop (length name + 1) text ≡ 93 ∷ 10 ∷ entry_text (c ∷ key) value
  bracket_text =
      ap (λ n. drop n text) {x = length name + 1} {y = 1 + length name} (omega arith)
      ∙ sym (drop-drop (length name) 1 text)
      ∙ drop-append (length name) name (93 ∷ 10 ∷ entry_text (c ∷ key) value) refl

  space_text : drop (length name + 1 + 1) text ≡ 10 ∷ entry_text (c ∷ key) value
  space_text = drop_next (length name + 1) 93 text _ bracket_text

  line_text : drop start text ≡ entry_text (c ∷ key) value
  line_text =
      ap (λ n. drop n text) {x = length name + 3} {y = length name + 1 + 1 + 1} (omega arith)
      ∙ drop_next (length name + 1 + 1) 10 text _ space_text

  pub length-text : length text ≡ length name + length key + length value + 6
  length-text = omega (
    arith,
    length-append name (93 ∷ 10 ∷ entry_text (c ∷ key) value),
    length-append key (61 ∷ value ++ (10 ∷ [])),
    length-append value (10 ∷ []),
  )

  unfoldable pub section : List ℕ
  section = name ++ more

  unfoldable pub wanted : List ℕ
  wanted = (c ∷ key) ++ others

  find_right_lem : find_right section wanted text 0 ≡ 1 + length name
  find_right_lem =
      scan_lem (λ x. right_brace x || end_of_string x) (length text) 1 93 text name _ name_text
        in_brackets refl (omega (arith, length-text))

  skip_space_lem : skip_space section wanted text (length name + 1 + 1) ≡ start
  skip_space_lem =
      scan_lem (λ x. not (is_space x)) (length text) (length name + 1 + 1) c text (10 ∷ []) _
        space_text (refl, tt) (ap not is_key.no_space) (omega (arith, length-text))
      ∙ omega arith

  -- Where the line of the entry ends.
  abbrev pub finish : ℕ
  finish = start + (length key + length value + 2)

  All-line : InLine ((c ∷ key) ++ (61 ∷ value))
  All-line =
      All-append (λ x. (newline x || end_of_string x) ≡ false) (c ∷ key) (61 ∷ value) is_key.in_line
        (refl, in_line)

  line_end_lem : line_end section wanted text start ≡ finish
  line_end_lem =
      scan_lem (λ x. newline x || end_of_string x) (length text) start 10 text
        ((c ∷ key) ++ (61 ∷ value)) []
        (line_text ∙ ap (λ l. c ∷ l) (sym (append_assoc key (61 ∷ value) (10 ∷ [])))) All-line refl
        (omega (arith, length-text, length-append key (61 ∷ value)))
      ∙ omega (arith, length-append key (61 ∷ value))

  unfoldable pub found : Entry
  found = record {
    key_s = start;
    key_e = start + length key + 1 - 1;
    value_s = start + length key + 1 + 1;
    value_e = finish;
  }

  key_same : same_start (start + length key + 1 - start) text start wanted ≡ true
  unfolding wanted
  key_same =
      ap (λ n. same_start n text start wanted) {x = start + length key + 1 - start}
        {y = length (c ∷ key)} (omega arith)
      ∙ same_start_lem start text (c ∷ key) _ others line_text

  line_entry_lem : line_entry section wanted text start finish ≡ some found
  unfolding line_entry found
  line_entry_lem =
      rw
        (
          at-drop start c text _ line_text,
          ne→not_== c 59 is_key.no_comment,
          find_key_lem section wanted text start finish (length text) start c key
              (value ++ (10 ∷ [])) line_text is_key.plain key_same (omega arith)
              (omega (arith, length-text)),
        )
        refl

  first_line : (fuel : ℕ) → lines section wanted text (suc fuel) start ≡ (some found, finish)
  unfolding lines
  first_line fuel =
      let before : at text (start - 1) ≡ 10 =
        ap (at text) {x = start - 1} {y = length name + 1 + 1} (omega arith)
        ∙ at-drop (length name + 1 + 1) 10 text _ space_text in
      let here : at text start ≡ c = at-drop start c text _ line_text in
      rw (before, here, is_key.no_section, not_nul c is_key.in_line.0, line_end_lem, line_entry_lem)
        (ap (λ e. (some found, e)) line_end_lem)

  abbrev pub result : Found
  result = record { sec = some (1, start); entry = some found }

  in_section_lem : in_section section wanted text 1 start ≡ Turn.stop result
  unfolding in_section after_lines
  in_section_lem =
      ap (after_lines 1 start)
        (first_line (length (name ++ (93 ∷ 10 ∷ entry_text (c ∷ key) value))))

  -- What the turn does with the bracket at `j`.
  at_bracket : ℕ → Turn
  at_bracket j =
      if same_start (j - (0 + 1)) text (0 + 1) section
      then in_section section wanted text (0 + 1) (skip_space section wanted text (j + 1))
      else on j none

  name_same : same_start (1 + length name - (0 + 1)) text (0 + 1) section ≡ true
  unfolding section
  name_same =
      ap (λ n. same_start n text 1 section) {x = 1 + length name - (0 + 1)} {y = length name}
        (omega arith)
      ∙ same_start_lem 1 text name _ more name_text

  turn_lem : turn section wanted text 0 none ≡ Turn.stop result
  unfolding turn at_bracket
  turn_lem =
      ap at_bracket find_right_lem
      ∙ ap
          (λ b.
            if b
            then in_section section wanted text (0 + 1)
                (skip_space section wanted text (1 + length name + 1))
            else on (1 + length name) none)
          name_same
      ∙ ap (in_section section wanted text 1) (
          ap (skip_space section wanted text) {x = 1 + length name + 1} {y = length name + 1 + 1}
            (omega arith)
          ∙ skip_space_lem)
      ∙ in_section_lem

  turns_stop : (fuel n : ℕ) → n ≡ suc fuel → turns section wanted text n 0 none ≡ result
  unfolding turns
  turns_stop fuel n e =
      ap (λ m. turns section wanted text m 0 none) e
      ∙ ap (λ t. elim t [ Turn.stop f ↦ f | on j s ↦ turns section wanted text fuel j s ]) turn_lem

  -- A section's name that begins as the one wanted, and a key that begins so, are taken for these.
  pub parse_file-Single : parse_file section wanted text ≡ result
  unfolding parse_file
  parse_file-Single = turns_stop (length text) (length text + 1) (omega arith)

  pub value_text : drop (start + length key + 1 + 1) text ≡ value ++ (10 ∷ [])
  value_text = drop_next (start + length key + 1) 61 text _ (
      ap (λ n. drop n text) {x = start + length key + 1} {y = start + length (c ∷ key)}
        (omega arith)
      ∙ sym (drop-drop (length (c ∷ key)) start text)
      ∙ ap (drop (length (c ∷ key))) line_text
      ∙ drop-append (length (c ∷ key)) (c ∷ key) (61 ∷ value ++ (10 ∷ [])) refl)

  pub read_found_lem :
      (size : ℕ) (default : Option (List ℕ))
      → read_found size default text (some found) ≡ (true, some (take (size - 1) value))
  unfolding read_found found
  read_found_lem size default =
      ap (λ l. (true, some (take (min (size - 1) (finish - (start + length key + 1 + 1))) l)))
        value_text
      ∙ ap (λ n. (true, some (take (min (size - 1) n) (value ++ (10 ∷ [])))))
          {x = finish - (start + length key + 1 + 1)} {y = length value} (omega arith)
      ∙ ap (λ l. (true, some l)) (take-min (size - 1) value (10 ∷ []))
