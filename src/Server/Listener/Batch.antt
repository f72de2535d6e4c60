-- ===== src/Server/Listener/Batch.antt =====
-- The descriptors among some answers of `accept`, and the entries of `_fd_array`
-- (OrderSyncServer/src/proxy/listener.cpp).
use order_sync.Base.{
  ℕ, zero, suc, ◌≡◌, refl, ap, List, [], ◌∷◌, ◌++◌, Option, none, some, Bool, true, false, arith,
  length, leb,
}
use order_sync.Server.Listener.{Accept, accepted, interrupted, again, broken, set, entry}

-- An answer for which `proc_accept` counts an entry.
abbrev pub counts : Accept → Bool
counts (accepted fd) = true
counts interrupted = false
counts again = false
counts broken = true

abbrev pub entry_of : Accept → Option ℕ
entry_of (accepted fd) = some fd
entry_of interrupted = none
entry_of again = none
entry_of broken = none

-- The descriptors among some answers.
abbrev pub fds_of : List Accept → List ℕ
fds_of [] = []
fds_of (a ∷ later) = elim (entry_of a) [ none ↦ fds_of later | some fd ↦ fd ∷ fds_of later ]

pub set-append :
    (i : ℕ) (before : List (Option ℕ)) (x y : Option ℕ) (after : List (Option ℕ))
    → i ≡ length before
    → set i y (before ++ (x ∷ after)) ≡ (before ++ (y ∷ [])) ++ after
unfolding set
set-append zero [] x y after e = refl
set-append zero (b ∷ before) x y after e = absurd (omega arith)
set-append (suc i) [] x y after e = absurd (omega arith)
set-append (suc i) (b ∷ before) x y after e =
    ap (◌∷◌ b) (set-append i before x y after (omega arith))

pub entry-append :
    (i : ℕ) (before : List (Option ℕ)) (x : Option ℕ) (after : List (Option ℕ))
    → i ≡ length before
    → entry i (before ++ (x ∷ after)) ≡ x
unfolding entry
entry-append zero [] x after e = refl
entry-append zero (b ∷ before) x after e = absurd (omega arith)
entry-append (suc i) [] x after e = absurd (omega arith)
entry-append (suc i) (b ∷ before) x after e = entry-append i before x after (omega arith)

abbrev pub add_fd : Option ℕ → List ℕ → List ℕ
add_fd none fds = fds
add_fd (some fd) fds = fd ∷ fds

-- The open descriptors after some answers.
abbrev pub opened_by : List Accept → List ℕ → List ℕ
opened_by [] fds = fds
opened_by (a ∷ later) fds = opened_by later (add_fd (entry_of a) fds)

pub opened_by-append :
    (xs ys : List Accept) (fds : List ℕ)
    → opened_by (xs ++ ys) fds ≡ opened_by ys (opened_by xs fds)
opened_by-append [] ys fds = refl
opened_by-append (a ∷ xs) ys fds = opened_by-append xs ys (add_fd (entry_of a) fds)

pub leb-suc : (n k : ℕ) → leb n k ≡ leb (suc n) (suc k)
leb-suc n k = ground arith
