-- ===== src/Tests/IniFile.antt =====
-- Runs of the reader and writer of configuration files: "[ab]", "c=de".
use order_sync.Base.{ℕ, ◌≡◌, refl, List, [], ◌∷◌, none, some, true, arith, ◌>>=◌}
use order_sync.Client.IniFile.{read_profile_string, write_profile_string}
use order_sync.Client.IniFile.Ends.{Ends}
use order_sync.Client.IniFile.Single.{IsKey}
use order_sync.Client.IniFile.Update.{write_profile_string_again}
use order_sync.Client.IniFile.Access.{IsKept, write_profile_string-read, read_profile_string_prefix}

abbrev ab : List ℕ
ab = 97 ∷ 98 ∷ []

abbrev de : List ℕ
de = 100 ∷ 101 ∷ []

ab-IsKept : IsKept ab
ab-IsKept = (
  (λ e. omega (arith, e), (λ e. omega (arith, e), tt)),
  (λ e. omega (arith, e), (λ e. omega (arith, e), tt)),
)

c-IsKept : IsKept (99 ∷ [])
c-IsKept = ((λ e. omega (arith, e), tt), (λ e. omega (arith, e), tt))

de-IsKept : IsKept de
de-IsKept = (
  (λ e. omega (arith, e), (λ e. omega (arith, e), tt)),
  (λ e. omega (arith, e), (λ e. omega (arith, e), tt)),
)

c-IsKey : IsKey 99 []
c-IsKey = record {
  no_space = refl;
  no_comment = λ e. omega (arith, e);
  no_section = refl;
  in_line = (refl, tt);
  plain = (λ e. omega (arith, e), tt);
}

write_profile_string-read_example :
    (write_profile_string ab (99 ∷ []) de none >>= λ t.
    read_profile_string ab (99 ∷ []) 16 none (some t))
    ≡ some (true, some de)
write_profile_string-read_example =
    write_profile_string-read 97 (98 ∷ []) 99 [] de (refl, (refl, tt)) c-IsKey (refl, (refl, tt))
      ab-IsKept c-IsKept de-IsKept (omega arith) 16 (omega arith) none

read_profile_string_prefix_example :
    (write_profile_string ab (99 ∷ []) de none >>= λ t.
    read_profile_string (97 ∷ 98 ∷ 99 ∷ []) (99 ∷ 100 ∷ []) 16 none (some t))
    ≡ some (true, some de)
read_profile_string_prefix_example =
    read_profile_string_prefix 97 (98 ∷ []) 99 [] de (refl, (refl, tt)) c-IsKey (refl, (refl, tt))
      ab-IsKept c-IsKept de-IsKept (omega arith) 16 (omega arith) none (99 ∷ []) (100 ∷ [])

abbrev ab_text : List ℕ
ab_text = 91 ∷ 97 ∷ 98 ∷ 93 ∷ 10 ∷ 99 ∷ 61 ∷ 100 ∷ 101 ∷ 10 ∷ []

write_profile_string_again_example :
    (write_profile_string ab (99 ∷ []) de none >>= λ t.
    write_profile_string ab (99 ∷ []) ab (some t))
    ≡ write_profile_string ab (99 ∷ []) ab none
write_profile_string_again_example =
    write_profile_string_again 97 (98 ∷ []) 99 [] de ab (refl, (refl, tt)) c-IsKey
      (refl, (refl, tt)) (refl, (refl, tt)) ab-IsKept c-IsKept de-IsKept ab-IsKept (omega arith)
      (omega arith)
