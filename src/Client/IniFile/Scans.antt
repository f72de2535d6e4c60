-- ===== src/Client/IniFile/Scans.antt =====
-- What the loops over a configuration file find, where the text from a place on is known.
use order_sync.Base.{
  ℕ, zero, suc, ◌+◌, ◌-◌, ◌<◌, ◌≡◌, ◌≢◌, refl, sym, ap, ◌∙◌, List, [], ◌∷◌, ◌++◌, some, Bool, true,
  false, All, arith, length, drop, drop-drop, get_or, lt→not_leb, eq→==, ne→not_==, if◌then◌else◌,
}
use order_sync.Client.IniFile.{at, scan, same_start, find_key}

pub at-drop : (i c : ℕ) (p rest : List ℕ) → drop i p ≡ c ∷ rest → at p i ≡ c
at-drop zero c [] rest e = cc
at-drop zero c (x ∷ p) rest e = ap (λ l. get_or l 0 0) e
at-drop (suc i) c [] rest e = cc
at-drop (suc i) c (x ∷ p) rest e = at-drop i c p rest e

pub drop_next : (i c : ℕ) (p rest : List ℕ) → drop i p ≡ c ∷ rest → drop (i + 1) p ≡ rest
drop_next i c p rest e = sym (drop-drop 1 i p) ∙ ap (drop 1) e

pub scan_lem :
    (stop : ℕ → Bool) (fuel i c : ℕ) (p mid rest : List ℕ)
    → drop i p ≡ mid ++ (c ∷ rest)
    → All (λ x. stop x ≡ false) mid
    → stop c ≡ true
    → length mid < fuel
    → scan stop p fuel i ≡ i + length mid
unfolding scan
scan_lem stop zero i c p mid rest e goes ends enough = absurd (omega arith)
scan_lem stop (suc fuel) i c p [] rest e goes ends enough =
    ap (λ b. if b then i else scan stop p fuel (i + 1)) (ap stop (at-drop i c p rest e) ∙ ends)
    ∙ omega arith
scan_lem stop (suc fuel) i c p (x ∷ mid) rest e goes ends enough =
    ap (λ b. if b then i else scan stop p fuel (i + 1)) (ap stop (at-drop i x p _ e) ∙ goes.0)
    ∙ scan_lem stop fuel (i + 1) c p mid rest (drop_next i x p _ e) goes.1 ends (omega arith)
    ∙ omega arith

-- The start of a name is taken for the name.
pub same_start_lem :
    (i : ℕ) (p name rest more : List ℕ)
    → drop i p ≡ name ++ rest
    → same_start (length name) p i (name ++ more) ≡ true
unfolding same_start
same_start_lem i p [] rest more e = refl
same_start_lem i p (c ∷ name) rest more e =
    rw (eq→== (at p i) c (at-drop i c p _ e))
      (same_start_lem (i + 1) p name rest more (drop_next i c p _ e))

module _ (section key p : List ℕ) (i e : ℕ) where
  pub find_key_lem :
      (fuel j c : ℕ) (mid rest : List ℕ)
      → drop j p ≡ c ∷ mid ++ (61 ∷ rest)
      → All (λ x. x ≢ 61) (c ∷ mid)
      → same_start (j + length mid + 1 - i) p i key ≡ true
      → j + length mid < e
      → length mid < fuel
      → find_key section key p i e fuel j ≡ some (j + length mid + 1)
  unfolding find_key
  find_key_lem zero j c mid rest text plain same inside enough = absurd (omega arith)
  find_key_lem (suc fuel) j c [] rest text plain same inside enough =
      let same' : same_start (j + 1 - i) p i key ≡ true =
        ap (λ n. same_start n p i key) {x = j + 1 - i} {y = j + 0 + 1 - i} (omega arith) ∙ same in
      rw
        (
          lt→not_leb e j (omega (arith, inside)),
          at-drop j c p _ text,
          ne→not_== c 61 plain.0,
          at-drop (j + 1) 61 p rest (drop_next j c p _ text),
          same',
        )
        (ap some {x = j + 1} {y = j + 0 + 1} (omega arith))
  find_key_lem (suc fuel) j c (d ∷ mid) rest text plain same inside enough =
      let on : find_key section key p i e fuel (j + 1) ≡ some (j + 1 + length mid + 1) =
        find_key_lem fuel (j + 1) d mid rest (drop_next j c p _ text) plain.1
          (ap (λ n. same_start n p i key) {x = j + 1 + length mid + 1 - i}
              {y = j + suc (length mid) + 1 - i} (omega arith)
            ∙ same)
          (omega (arith, inside)) (omega arith) in
      rw
        (
          lt→not_leb e j (omega (arith, inside)),
          at-drop j c p _ text,
          ne→not_== c 61 plain.0,
          at-drop (j + 1) d p _ (drop_next j c p _ text),
          ne→not_== d 61 plain.1.0,
        )
        (on ∙ ap some {x = j + 1 + length mid + 1} {y = j + suc (length mid) + 1} (omega arith))
