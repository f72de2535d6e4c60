-- ===== src/Client/IniFile/Access.antt =====
-- An entry that `write_profile_string` puts into a new file, and what `read_profile_string` makes of it.
use order_sync.Base.{
  ℕ, ◌+◌, ◌-◌, ◌<◌, ◌≡◌, ◌≢◌, refl, sym, ap, ◌∙◌, List, [], ◌∷◌, ◌++◌, Option, none, some, true,
  All, All-append, arith, length, take, leb, lt→not_leb, ne→not_==, if◌then◌else◌, ◌>>=◌, bind_some,
  append-nil,
}
use order_sync.Client.IniFile.{
  before_eof, load_ini_file, until_nul, names, read_found, read_profile_string,
  write_profile_string, section_text, entry_text,
}
use order_sync.Client.IniFile.Single.{
  InBrackets, InLine, IsKey, parse_file-Single, read_found_lem, length-text, section, wanted,
}

before_eof_plain : (l : List ℕ) → All (λ x. x ≢ 255) l → before_eof l ≡ l
unfolding before_eof
before_eof_plain [] h = refl
before_eof_plain (x ∷ l) h = rw (ne→not_== x 255 h.0) (ap (◌∷◌ x) (before_eof_plain l h.1))

until_nul_plain : (l : List ℕ) → All (λ x. x ≢ 0) l → until_nul l ≡ l
unfolding until_nul
until_nul_plain [] h = refl
until_nul_plain (x ∷ l) h = rw (ne→not_== x 0 h.0) (ap (◌∷◌ x) (until_nul_plain l h.1))

All-text :
    (P : ℕ → Type 0) (name key value : List ℕ)
    → P 91
    → P 93
    → P 10
    → P 61
    → All P name
    → All P key
    → All P value
    → All P (section_text name key value)
All-text P name key value left right line equals hn hk hv = (
  left,
  All-append P name (93 ∷ 10 ∷ entry_text key value) hn (
    right,
    (
      line,
      All-append P key (61 ∷ value ++ (10 ∷ [])) hk
          (equals, All-append P value (10 ∷ []) hv (line, tt)),
    ),
  ),
)

-- Bytes that the file keeps: neither a NUL nor `(char)EOF`.
abbrev pub IsKept : List ℕ → Type 0
IsKept l = All (λ x. x ≢ 0) l × All (λ x. x ≢ 255) l

module _ (d : ℕ) (name : List ℕ) (c : ℕ) (key value : List ℕ) (in_brackets : InBrackets (d ∷ name))
    (is_key : IsKey c key) (in_line : InLine value) (name_kept : IsKept (d ∷ name))
    (key_kept : IsKept (c ∷ key)) (value_kept : IsKept value)
    (small : length name + length key + length value + 7 < 16384) (size : ℕ) (room : 0 < size)
    (default : Option (List ℕ)) where
  unfoldable pub new_text : List ℕ
  new_text = section_text (d ∷ name) (c ∷ key) value

  pub length-new_text : length new_text < 16384
  unfolding new_text
  length-new_text =
      omega (arith, small, length-text (d ∷ name) [] c key [] value in_brackets is_key in_line)

  -- The text goes to the file as it is.
  pub stored :
      (if leb 16384 (length new_text) then none else some (until_nul new_text)) ≡ some new_text
  unfolding new_text
  stored = rw (lt→not_leb 16384 (length new_text) length-new_text) (
      ap some (
        until_nul_plain new_text (
          All-text (λ x. x ≢ 0) (d ∷ name) (c ∷ key) value (λ e. omega (arith, e))
            (λ e. omega (arith, e)) (λ e. omega (arith, e)) (λ e. omega (arith, e)) name_kept.0
            key_kept.0 value_kept.0)))

  pub write_new : write_profile_string (d ∷ name) (c ∷ key) value none ≡ some new_text
  unfolding write_profile_string load_ini_file names new_text
  write_new = stored

  pub load_new : load_ini_file (some new_text) ≡ some (some new_text)
  unfolding load_ini_file new_text
  load_new =
      ap (λ t. if leb 16384 (length t) then none else some (some t))
        (before_eof_plain new_text (
          All-text (λ x. x ≢ 255) (d ∷ name) (c ∷ key) value (λ e. omega (arith, e))
            (λ e. omega (arith, e)) (λ e. omega (arith, e)) (λ e. omega (arith, e)) name_kept.1
            key_kept.1 value_kept.1))
      ∙ ap (λ b. if b then none else some (some new_text))
          (lt→not_leb 16384 (length new_text) length-new_text)

  read_new :
      (more others : List ℕ)
      → read_profile_string (d ∷ name ++ more) (c ∷ key ++ others) size default (some new_text)
        ≡ some (true, some (take (size - 1) value))
  unfolding read_profile_string names new_text section wanted
  read_new more others =
      bind_some _
        (ap (λ b. if b then none else some size) (ne→not_== size 0 (λ e. omega (arith, e))))
        (bind_some _ load_new (
          ap (λ f. some (read_found size default new_text f.entry))
            (parse_file-Single (d ∷ name) more c key others value in_brackets is_key in_line)
          ∙ ap some (
              read_found_lem (d ∷ name) more c key others value in_brackets is_key in_line size
                default)))

  -- An entry of a section, the section's name without ']', the key in one line, without '=' and
  -- with a first byte that is no space, ';' or '[', and the value in one line, none with a NUL or a
  -- byte 0xFF in it, whose text fits a file: written to a file that was not there, it is read back,
  -- as far as the reader's buffer, which is not empty, goes.
  pub write_profile_string-read :
      (write_profile_string (d ∷ name) (c ∷ key) value none >>= λ t.
      read_profile_string (d ∷ name) (c ∷ key) size default (some t))
      ≡ some (true, some (take (size - 1) value))
  write_profile_string-read = bind_some _ write_new (
      ap (λ s. read_profile_string s (c ∷ key) size default (some new_text))
        (sym (append-nil (d ∷ name)))
      ∙ ap (λ k. read_profile_string (d ∷ name ++ []) k size default (some new_text))
          (sym (append-nil (c ∷ key)))
      ∙ read_new [] [])

  -- An entry of a section, the section's name without ']', the key in one line, without '=' and
  -- with a first byte that is no space, ';' or '[', and the value in one line, none with a NUL or a
  -- byte 0xFF in it, whose text fits a file: written to a file that was not there, it is read, as
  -- far as the reader's buffer, which is not empty, goes, also for every longer key of every
  -- section with a longer name, neither of which the file has.
  pub read_profile_string_prefix :
      (more others : List ℕ)
      → (write_profile_string (d ∷ name) (c ∷ key) value none >>= λ t.
          read_profile_string (d ∷ name ++ more) (c ∷ key ++ others) size default (some t))
        ≡ some (true, some (take (size - 1) value))
  read_profile_string_prefix more others = bind_some _ write_new (read_new more others)
