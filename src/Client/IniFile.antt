-- ===== src/Client/IniFile.antt =====
-- The reader and writer of configuration files (OrderSyncClient/src/IniFile.cc). A file is its bytes,
-- or nothing if it cannot be opened; a buffer is the bytes in front of its zeros. `none` is a failed
-- `assert`, a write past a buffer's end, or a format that stands in the file.
pub mod Scans
pub mod Single
pub mod Access
pub mod Update
pub mod Ends
use order_sync.Base.{
  ℕ, zero, suc, ◌+◌, ◌-◌, min, List, [], ◌∷◌, ◌++◌, Option, none, some, Bool, true, false, ◌&&◌,
  ◌||◌, not, length, take, drop, get_or, leb, ◌==◌, if◌then◌else◌, ◌>>=◌,
}

abbrev pub max_file_size : ℕ
max_file_size = 16384

abbrev pub at : List ℕ → ℕ → ℕ
at p i = get_or p i 0

-- The bytes up to the first one that is `(char)EOF`.
unfoldable pub before_eof : List ℕ → List ℕ
before_eof [] = []
before_eof (c ∷ cs) = let rest = before_eof cs in if c == 255 then [] else c ∷ rest

-- What is loaded; nothing for the result 0.
unfoldable pub load_ini_file : Option (List ℕ) → Option (Option (List ℕ))
load_ini_file none = some none
load_ini_file (some bytes) =
    let text = before_eof bytes in
    if leb max_file_size (length text) then none else some (some text)

abbrev pub newline : ℕ → Bool
newline c = c == 10 || c == 13

abbrev pub end_of_string : ℕ → Bool
end_of_string c = c == 0

abbrev pub left_brace : ℕ → Bool
left_brace c = c == 91

abbrev pub right_brace : ℕ → Bool
right_brace c = c == 93

abbrev pub is_space : ℕ → Bool
is_space c = c == 32 || (leb 9 c && leb c 13)

-- A loop that goes on to the first place from `i` on where it is to stop.
unfoldable pub scan : (ℕ → Bool) → List ℕ → ℕ → ℕ → ℕ
scan stop p zero i = i
scan stop p (suc fuel) i = let rest = scan stop p fuel (i + 1) in if stop (at p i) then i else rest

-- Whether `strncmp` of a name and the text at `i` is 0.
unfoldable pub same_start : ℕ → List ℕ → ℕ → List ℕ → Bool
same_start zero p i name = true
same_start (suc n) p i [] = at p i == 0
same_start (suc n) p i (c ∷ name) = let rest = same_start n p (i + 1) name in at p i == c && rest

pub record Entry : Type 0 where
  pub key_s : ℕ
  pub key_e : ℕ
  pub value_s : ℕ
  pub value_e : ℕ

-- The places that `parse_file` finds; nothing for its -1.
pub record Found : Type 0 where
  pub sec : Option (ℕ × ℕ)
  pub entry : Option Entry

-- One turn of the outer loop: it is over, or goes on elsewhere.
pub data Turn : Type 0 where
  stop : Found → Turn
  on : ℕ → Option (ℕ × ℕ) → Turn

unfoldable pub after_lines : ℕ → ℕ → Option Entry × ℕ → Turn
after_lines s b (none, i) = on i (some (s, b))
after_lines s b (some f, i) = stop (record { sec = some (s, b); entry = some f })

module _ (section key p : List ℕ) where
  -- From `j` on, the first '=' before the end `e` of the line that begins at `i`, if the key is before
  -- it.
  unfoldable pub find_key : ℕ → ℕ → ℕ → ℕ → Option ℕ
  find_key i e zero j = none
  find_key i e (suc fuel) j =
      let rest = find_key i e fuel (j + 1) in
      if leb e j || at p j == 61
      then none
      else if at p (j + 1) == 61 && same_start (j + 1 - i) p i key
      then some (j + 1)
      else rest

  -- What a line that begins at `i` and ends at `e` has for the key.
  unfoldable pub line_entry : ℕ → ℕ → Option Entry
  line_entry i e = if at p i == 59 then none else elim (find_key i e (length p) i) [
    | none ↦ none
    | some j ↦ some (record { key_s = i; key_e = j - 1; value_s = j + 1; value_e = e })
  ]

  abbrev pub line_end : ℕ → ℕ
  line_end = scan (λ c. newline c || end_of_string c) p (length p)

  -- The lines of a section, from `i` on, and where they end.
  unfoldable pub lines : ℕ → ℕ → Option Entry × ℕ
  lines zero i = (none, i)
  lines (suc fuel) i =
      let e = line_end i in
      let rest = lines fuel (e + 1) in
      if (newline (at p (i - 1)) && left_brace (at p i)) || end_of_string (at p i)
      then (none, i)
      else elim (line_entry i e) [ none ↦ rest | some f ↦ (some f, e) ]

  abbrev pub find_right : ℕ → ℕ
  find_right i = scan (λ c. right_brace c || end_of_string c) p (length p) (i + 1)

  abbrev pub skip_space : ℕ → ℕ
  skip_space = scan (λ c. not (is_space c)) p (length p)

  -- The section whose name begins at `s`, and whose lines begin at `b`.
  unfoldable pub in_section : ℕ → ℕ → Turn
  in_section s b = after_lines s b (lines (length p) b)

  unfoldable pub turn : ℕ → Option (ℕ × ℕ) → Turn
  turn i sec =
      if end_of_string (at p i)
      then stop (record { sec = sec; entry = none })
      else if (i == 0 || newline (at p (i - 1))) && left_brace (at p i)
      then (let j = find_right i in
          if same_start (j - (i + 1)) p (i + 1) section
          then in_section (i + 1) (skip_space (j + 1))
          else on j sec)
      else on (i + 1) sec

  unfoldable pub turns : ℕ → ℕ → Option (ℕ × ℕ) → Found
  turns zero i sec = record { sec = sec; entry = none }
  turns (suc fuel) i sec = elim (turn i sec) [ stop f ↦ f | on j sec' ↦ turns fuel j sec' ]

  unfoldable pub parse_file : Found
  parse_file = turns (length p + 1) 0 none

-- The assertions that the names are not empty.
unfoldable pub names : List ℕ → List ℕ → Option (List ℕ)
names [] key = none
names (c ∷ section) [] = none
names (c ∷ section) (d ∷ key) = some (c ∷ section)

-- `read_profile_string` into `size` bytes: whether it returns 1, and what is in the buffer then, if
-- anything was put there. `strncpy` of the default may leave it without a NUL.
unfoldable pub read_found : ℕ → Option (List ℕ) → List ℕ → Option Entry → Bool × Option (List ℕ)
read_found size default p none = (false, default >>= λ d. some (take size d))
read_found size default p (some f) =
    (true, some (take (min (size - 1) (f.value_e - f.value_s)) (drop f.value_s p)))

unfoldable pub read_profile_string :
    List ℕ → List ℕ → ℕ → Option (List ℕ) → Option (List ℕ) → Option (Bool × Option (List ℕ))
read_profile_string section key size default file = do
  named ← names section key
  room ← if size == 0 then none else some size
  loaded ← load_ini_file file
  some (elim loaded [
    | none ↦ (false, default >>= λ d. some (take size d))
    | some p ↦ read_found size default p (parse_file section key p).entry
  ])

unfoldable pub until_nul : List ℕ → List ℕ
until_nul [] = []
until_nul (c ∷ cs) = let rest = until_nul cs in if c == 0 then [] else c ∷ rest

unfoldable pub has_percent : List ℕ → Bool
has_percent [] = false
has_percent (c ∷ cs) = let rest = has_percent cs in c == 37 || rest

abbrev pub entry_text : List ℕ → List ℕ → List ℕ
entry_text key value = key ++ (61 ∷ value ++ (10 ∷ []))

abbrev pub section_text : List ℕ → List ℕ → List ℕ → List ℕ
section_text section key value = 91 ∷ section ++ (93 ∷ 10 ∷ entry_text key value)

-- The bytes that `write_profile_string` puts together from the text and the places found in it.
unfoldable pub written : List ℕ → List ℕ → List ℕ → List ℕ → Found → Option (List ℕ)
written section key value p f = elim f.sec [
  | none ↦ some (
      if length p == 0
      then section_text section key value
      else p ++ (10 ∷ section_text section key value))
  | some s ↦ elim f.entry [
    | none ↦
        if has_percent (until_nul (drop s.1 p))
        then none
        else some (take s.1 p ++ entry_text key value ++ until_nul (drop s.1 p))
    | some e ↦ some (take e.value_s p ++ value ++ drop e.value_e p)
  ]
]

-- `write_profile_string` on a file that can be written: its new bytes.
unfoldable pub write_profile_string : List ℕ → List ℕ → List ℕ → Option (List ℕ) → Option (List ℕ)
write_profile_string section key value file = do
  named ← names section key
  loaded ← load_ini_file file
  text ← elim loaded [
    | none ↦ some (section_text section key value)
    | some p ↦ written section key value p (parse_file section key p)
  ]
  if leb max_file_size (length text) then none else some (until_nul text)
