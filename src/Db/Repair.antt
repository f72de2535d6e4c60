-- ===== src/Db/Repair.antt =====
-- `__repair_sql` (OrderDbSync/src/SyncFunc.cc), which adds the column `pid` and its value to an
-- insert statement. A `string` is the list of its bytes.
use Prim.Native.Char.{code}
use Prim.Native.String.{String}
use order_sync.Base.{
  ℕ, zero, suc, ◌+◌, ◌/◌, ◌%◌, ◌≡◌, ◌≢◌, refl, sym, ap, ap₂, ◌∙◌, List, [], ◌∷◌, ◌++◌, Option, none,
  some, Bool, true, false, length, take, drop, All, All-append, arith, leb, ltb, ◌==◌,
  if◌then◌else◌, append_assoc, take-append, drop-append, length-append, ne→not_==, le→leb,
}

abbrev codes : String → List ℕ
codes String.[] = []
codes (String.◌∷◌ c s) = code c ∷ codes s

abbrev close : ℕ
close = 0x29

-- `sql.find (")", pos)` on the rest of the statement from `pos` on; `npos` is `none`.
find_in : ℕ → List ℕ → Option ℕ
find_in pos [] = none
find_in pos (c ∷ cs) = let rest = find_in (pos + 1) cs in if c == close then some pos else rest

find : ℕ → List ℕ → Option ℕ
unfolding find_in
find pos sql = if leb pos (length sql) then find_in pos (drop pos sql) else none

-- `sql.replace (pos, 1, text)`.
replace : ℕ → List ℕ → List ℕ → List ℕ
replace pos text sql = take pos sql ++ (text ++ drop (pos + 1) sql)

-- The decimal digits of a number; the first argument is the most digits that there are.
pub digits : ℕ → ℕ → List ℕ
digits zero n = []
digits (suc k) n =
    let rest = digits k (n / 10) in (if ltb n 10 then [] else rest) ++ ((0x30 + n % 10) ∷ [])

-- What `snprintf (temp, 64, ",%lu)", pid)` leaves.
abbrev pub value_text : ℕ → List ℕ
value_text pid = codes "," ++ digits 20 pid ++ codes ")"

abbrev pub column_text : List ℕ
column_text = codes ",pid)"

-- The value, in front of the first `)` behind that of the columns.
close_value : ℕ → List ℕ → ℕ → Bool × List ℕ
close_value pid once again = elim (find (again + 1) once) [
  | none ↦ (false, once)
  | some pos2 ↦ (true, replace pos2 (value_text pid) once)
]

add_value : ℕ → List ℕ → Bool × List ℕ
unfolding close_value
add_value pid once = elim (find 0 once) [
  | none ↦ (false, once)
  | some again ↦ close_value pid once again
]

-- The result is 0 or -1, true for 0, with the statement that is left.
pub repair_sql : List ℕ → ℕ → Bool × List ℕ
unfolding add_value replace
repair_sql sql pid = elim (find 0 sql) [
  | none ↦ (false, sql)
  | some pos ↦ add_value pid (replace pos column_text sql)
]

find_in-lem :
    (pos : ℕ) (before after : List ℕ)
    → All (λ c. c ≢ close) before
    → find_in pos (before ++ (close ∷ after)) ≡ some (pos + length before)
unfolding find_in
find_in-lem pos [] after h = ap some (omega arith)
find_in-lem pos (c ∷ before) after h =
    rw (ne→not_== c close h.0) (find_in-lem (pos + 1) before after h.1 ∙ ap some (omega arith))

find_in_missing : (pos : ℕ) (cs : List ℕ) → All (λ c. c ≢ close) cs → find_in pos cs ≡ none
unfolding find_in
find_in_missing pos [] h = refl
find_in_missing pos (c ∷ cs) h = rw (ne→not_== c close h.0) (find_in_missing (pos + 1) cs h.1)

-- A search that starts behind `head`.
find_lem :
    (head before after : List ℕ) (n : ℕ)
    → n ≡ length head
    → All (λ c. c ≢ close) before
    → find n (head ++ (before ++ (close ∷ after))) ≡ some (n + length before)
unfolding find
find_lem head before after n e h =
    rw
      (
        le→leb n (length (head ++ (before ++ (close ∷ after))))
            (omega (arith, e, length-append head (before ++ (close ∷ after)))),
        drop-append n head (before ++ (close ∷ after)) e,
      )
      (find_in-lem n before after h)

find_missing :
    (head cs : List ℕ) (n : ℕ)
    → n ≡ length head
    → All (λ c. c ≢ close) cs
    → find n (head ++ cs) ≡ none
unfolding find
find_missing head cs n e h =
    rw
      (
        le→leb n (length (head ++ cs)) (omega (arith, e, length-append head cs)),
        drop-append n head cs e,
      )
      (find_in_missing n cs h)

replace_lem :
    (head text after : List ℕ) (n : ℕ)
    → n ≡ length head
    → replace n text (head ++ (close ∷ after)) ≡ head ++ (text ++ after)
unfolding replace
replace_lem head text after n e =
    ap₂ (λ a b. a ++ (text ++ b)) (take-append n head (close ∷ after) e)
      (ap (drop (n + 1)) (sym (append_assoc head (close ∷ []) after))
        ∙ drop-append (n + 1) (head ++ (close ∷ [])) after
            (omega (arith, e, length-append head (close ∷ []))))

-- The statement once the column is in.
abbrev with_column : List ℕ → List ℕ → List ℕ
with_column pre rest = (pre ++ column_text) ++ rest

close_value_lem :
    (pre mid post : List ℕ) (pid : ℕ)
    → All (λ c. c ≢ close) mid
    → close_value pid (with_column pre (mid ++ (close ∷ post))) (length pre + 4)
      ≡ (true, pre ++ (column_text ++ (mid ++ (value_text pid ++ post))))
unfolding close_value
close_value_lem pre mid post pid h =
    let head : List ℕ = pre ++ column_text in
    rw
      (
        close_value,
        find_lem head mid post (length pre + 4 + 1) (omega (arith, length-append pre column_text))
            h,
      )
      (ap (λ s. (true, s))
        (ap (replace (length pre + 4 + 1 + length mid) (value_text pid))
            (sym (append_assoc head mid (close ∷ post)))
          ∙ replace_lem (head ++ mid) (value_text pid) post (length pre + 4 + 1 + length mid)
              (omega (arith, length-append head mid, length-append pre column_text))
          ∙ append_assoc head mid (value_text pid ++ post)
          ∙ append_assoc pre column_text (mid ++ (value_text pid ++ post))))

add_value_lem :
    (pre mid post : List ℕ) (pid : ℕ)
    → All (λ c. c ≢ close) pre
    → All (λ c. c ≢ close) mid
    → add_value pid (with_column pre (mid ++ (close ∷ post)))
      ≡ (true, pre ++ (column_text ++ (mid ++ (value_text pid ++ post))))
unfolding add_value
add_value_lem pre mid post pid h g =
    let rest : List ℕ = mid ++ (close ∷ post) in
    let name : List ℕ = codes ",pid" in
    let split : with_column pre rest ≡ (pre ++ name) ++ (close ∷ rest) =
      append_assoc pre column_text rest ∙ sym (append_assoc pre name (close ∷ rest)) in
    let found : find 0 (with_column pre rest) ≡ some (length pre + 4) =
      ap (find 0) split
      ∙ find_lem [] (pre ++ name) rest 0 refl (
          All-append (λ c. c ≢ close) pre name h
            (
              λ e. omega (arith, e),
              (λ e. omega (arith, e), (λ e. omega (arith, e), (λ e. omega (arith, e), tt))),
            ))
      ∙ ap some (omega (arith, length-append pre name)) in
    rw (add_value, found) (close_value_lem pre mid post pid g)

-- A statement whose first two closing brackets end the list of the columns and the list of the
-- values: the column is put at the end of the one and the number at the end of the other, and nothing
-- else is changed.
pub repair_sql_lem :
    (pre mid post : List ℕ) (pid : ℕ)
    → All (λ c. c ≢ 0x29) pre
    → All (λ c. c ≢ 0x29) mid
    → repair_sql (pre ++ (0x29 ∷ (mid ++ (0x29 ∷ post)))) pid
      ≡ (true, pre ++ (column_text ++ (mid ++ (value_text pid ++ post))))
unfolding repair_sql
repair_sql_lem pre mid post pid h g =
    let rest : List ℕ = mid ++ (close ∷ post) in
    rw (repair_sql, find_lem [] pre rest 0 refl h)
      (ap (add_value pid) (
          replace_lem pre column_text rest (0 + length pre) (omega arith)
          ∙ sym (append_assoc pre column_text rest))
        ∙ add_value_lem pre mid post pid h g)
