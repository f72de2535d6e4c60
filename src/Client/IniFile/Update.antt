-- ===== src/Client/IniFile/Update.antt =====
-- An entry that is there gets another value.
use order_sync.Base.{
  ℕ, ◌+◌, ◌<◌, ◌≡◌, refl, sym, ap, ap₂, ◌∙◌, List, [], ◌∷◌, ◌++◌, none, some, arith, length, take,
  drop, take-append, drop-append, drop-drop, ◌>>=◌, bind_some, append-nil, append_assoc,
  length-append,
}
use order_sync.Client.IniFile.{
  names, write_profile_string, section_text, parse_file, written, Found,
}
use order_sync.Client.IniFile.Single.{
  InBrackets, InLine, IsKey, found, result, parse_file-Single, value_text, section, wanted,
}
use order_sync.Client.IniFile.Access.{IsKept, write_new, load_new, new_text, stored}

-- The text in front of the value.
before_value : List ℕ → List ℕ → List ℕ
before_value name key = 91 ∷ name ++ (93 ∷ 10 ∷ key ++ (61 ∷ []))

before_value-section_text :
    (name key value : List ℕ)
    → section_text name key value ≡ before_value name key ++ (value ++ (10 ∷ []))
unfolding before_value
before_value-section_text name key value =
    ap (λ l. 91 ∷ name ++ (93 ∷ 10 ∷ l)) (sym (append_assoc key (61 ∷ []) (value ++ (10 ∷ []))))
    ∙ ap (◌∷◌ 91) (sym (append_assoc name (93 ∷ 10 ∷ key ++ (61 ∷ [])) (value ++ (10 ∷ []))))

length-before_value :
    (name key : List ℕ) → length (before_value name key) ≡ length name + length key + 4
unfolding before_value
length-before_value name key =
    omega (arith, length-append name (93 ∷ 10 ∷ key ++ (61 ∷ [])), length-append key (61 ∷ []))

module _ (name : List ℕ) (c : ℕ) (key value other : List ℕ) (in_brackets : InBrackets name)
    (is_key : IsKey c key) (in_line : InLine value) where
  written_over :
      written name
        (c ∷ key)
        other
        (section_text name (c ∷ key) value)
        (result name [] c key [] value in_brackets is_key in_line)
      ≡ some (section_text name (c ∷ key) other)
  unfolding written found
  written_over =
      let p : List ℕ = section_text name (c ∷ key) value in
      let n : ℕ = length name + 3 + length key + 1 + 1 in
      let head : take n p ≡ before_value name (c ∷ key) =
        ap (take n) (before_value-section_text name (c ∷ key) value)
        ∙ take-append n (before_value name (c ∷ key)) (value ++ (10 ∷ []))
            (omega (arith, length-before_value name (c ∷ key))) in
      let tail : drop (length name + 3 + (length key + length value + 2)) p ≡ 10 ∷ [] =
        ap (λ m. drop m p) {x = length name + 3 + (length key + length value + 2)}
          {y = n + length value} (omega arith)
        ∙ sym (drop-drop (length value) n p)
        ∙ ap (drop (length value)) (value_text name [] c key [] value in_brackets is_key in_line)
        ∙ drop-append (length value) value (10 ∷ []) refl in
      ap some (
        ap₂ (λ a b. a ++ other ++ b) head tail
        ∙ append_assoc (before_value name (c ∷ key)) other (10 ∷ [])
        ∙ sym (before_value-section_text name (c ∷ key) other))

module _ (d : ℕ) (name : List ℕ) (c : ℕ) (key value other : List ℕ)
    (in_brackets : InBrackets (d ∷ name)) (is_key : IsKey c key) (in_line : InLine value)
    (other_in_line : InLine other) (name_kept : IsKept (d ∷ name)) (key_kept : IsKept (c ∷ key))
    (value_kept : IsKept value) (other_kept : IsKept other)
    (small : length name + length key + length value + 7 < 16384)
    (other_small : length name + length key + length other + 7 < 16384) where
  -- An entry of a section, the section's name without ']', the key in one line, without '=' and
  -- with a first byte that is no space, ';' or '[', gets a value in one line in a file that was not
  -- there, and then another, where none of these has a NUL or a byte 0xFF in it and both texts fit
  -- a file: the file is what it would be had only the second been written.
  pub write_profile_string_again :
      (write_profile_string (d ∷ name) (c ∷ key) value none >>= λ t.
      write_profile_string (d ∷ name) (c ∷ key) other (some t))
      ≡ write_profile_string (d ∷ name) (c ∷ key) other none
  unfolding write_profile_string names new_text section wanted
  write_profile_string_again =
      let p : List ℕ = section_text (d ∷ name) (c ∷ key) value in
      let places : Found = result (d ∷ name) [] c key [] value in_brackets is_key in_line in
      let parsed : parse_file (d ∷ name) (c ∷ key) p ≡ places =
        ap₂ (λ s k. parse_file s k p) (sym (append-nil (d ∷ name))) (sym (append-nil (c ∷ key)))
        ∙ parse_file-Single (d ∷ name) [] c key [] value in_brackets is_key in_line in
      bind_some _
        (write_new d name c key value in_brackets is_key in_line name_kept key_kept value_kept small
          1 (omega arith) none)
        (bind_some _
          (load_new d name c key value in_brackets is_key in_line name_kept key_kept value_kept
            small 1 (omega arith) none)
          (bind_some _
            (ap (written (d ∷ name) (c ∷ key) other p) parsed
              ∙ written_over (d ∷ name) c key value other in_brackets is_key in_line)
            (stored d name c key other in_brackets is_key other_in_line name_kept key_kept
              other_kept other_small 1 (omega arith) none)))
      ∙ sym (
          write_new d name c key other in_brackets is_key other_in_line name_kept key_kept
            other_kept other_small 1 (omega arith) none)
