-- ===== src/Client/IniFile/Ends.antt =====
-- The loops over a configuration file end: the fuel that they are given, its length, is enough.
use order_sync.Base.{
  ℕ, ◌+◌, ◌-◌, ◌<◌, ◌≡◌, List, Option, none, some, Bool, true, false, ◌&&◌, ◌||◌, leb, ◌==◌,
}
use order_sync.Client.IniFile.{
  at, same_start, newline, end_of_string, left_brace, Entry, Found, Turn, on, line_entry, line_end,
  turn,
}

module _ (section key p : List ℕ) where
  -- Where a turn goes on is behind where it began.
  Forward : ℕ → Turn → Type 0
  Forward i t = (j : ℕ) (sec : Option (ℕ × ℕ)) → t ≡ on j sec → i < j

  -- The outer loop as the source runs it, with no fuel: from a place it comes to an end, and finds this.
  pub data Ends : ℕ → Option (ℕ × ℕ) → Found → Type 0 where
    stops :
        {i : ℕ} {sec : Option (ℕ × ℕ)} {f : Found}
        → turn section key p i sec ≡ Turn.stop f
        → Ends i sec f
    goes_on :
        {i j : ℕ} {sec s : Option (ℕ × ℕ)} {f : Found}
        → turn section key p i sec ≡ on j s
        → Ends j s f
        → Ends i sec f

  -- Whether the loop over the lines stops at `i`.
  abbrev pub is_over : ℕ → Bool
  is_over i = (newline (at p (i - 1)) && left_brace (at p i)) || end_of_string (at p i)

  -- The same for the loop over the lines.
  pub data LinesEnd : ℕ → Option Entry × ℕ → Type 0 where
    over : {i : ℕ} → is_over i ≡ true → LinesEnd i (none, i)
    found :
        {i : ℕ} {f : Entry}
        → is_over i ≡ false
        → line_entry section key p i (line_end section key p i) ≡ some f
        → LinesEnd i (some f, line_end section key p i)
    next :
        {i : ℕ} {r : Option Entry × ℕ}
        → is_over i ≡ false
        → line_entry section key p i (line_end section key p i) ≡ none
        → LinesEnd (line_end section key p i + 1) r
        → LinesEnd i r

  -- The same for the loop over the line from `i` to `e`.
  pub data KeyEnd (i e : ℕ) : ℕ → Option ℕ → Type 0 where
    no_key : {j : ℕ} → (leb e j || at p j == 61) ≡ true → KeyEnd i e j none
    the_key :
        {j : ℕ}
        → (leb e j || at p j == 61) ≡ false
        → (at p (j + 1) == 61 && same_start (j + 1 - i) p i key) ≡ true
        → KeyEnd i e j (some (j + 1))
    next_byte :
        {j : ℕ} {r : Option ℕ}
        → (leb e j || at p j == 61) ≡ false
        → (at p (j + 1) == 61 && same_start (j + 1 - i) p i key) ≡ false
        → KeyEnd i e (j + 1) r
        → KeyEnd i e j r
