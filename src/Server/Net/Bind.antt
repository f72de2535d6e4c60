-- ===== src/Server/Net/Bind.antt =====
-- Which descriptors the functions of `CNet` that bind leave open.
use order_sync.Base.{ℕ, ◌≡◌, refl, List, ◌∷◌, Option, none, some, not, arith, if-either}
use order_sync.Server.Net.{Answers, close, listening, is_invalid, tcp_bind, unix_bind}

-- The descriptors that were open, and the one returned.
abbrev pub with_result : Option ℕ × List ℕ → List ℕ → List ℕ
with_result (none, _) fds = fds
with_result (some fd, _) fds = fd ∷ fds

-- All that is open is what was open and what the caller gets.
abbrev pub IsAccounted : Option ℕ × List ℕ → List ℕ → Type 0
IsAccounted r fds = r.1 ≡ with_result r fds

close_first : (fd : ℕ) (fds : List ℕ) → close fd (fd ∷ fds) ≡ fds
unfolding close
close_first fd fds = ground arith

listening-IsAccounted :
    (a : Answers) (s : Option ℕ) (fds : List ℕ) → IsAccounted (listening a s fds) fds
unfolding listening
listening-IsAccounted a none fds = refl
listening-IsAccounted a (some fd) fds =
    if-either (λ r. IsAccounted r fds) (not a.bind) _ _ (λ _. close_first fd fds)
      λ _. if-either (λ r. IsAccounted r fds) (not a.listen) _ _ (λ _. close_first fd fds) λ _. refl

-- Whatever the kernel answers, `tcp_bind` and `unix_bind` leave open what was open and the descriptor
-- that they return, if they return one.
pub tcp_bind-IsAccounted :
    (a : Answers) (addr fds : List ℕ)
    → IsAccounted (tcp_bind a addr fds) fds × IsAccounted (unix_bind a fds) fds
unfolding tcp_bind unix_bind
tcp_bind-IsAccounted a addr fds = (
  if-either (λ r. IsAccounted r fds) (is_invalid a addr) _ _ (λ _. refl)
      λ _. listening-IsAccounted a a.socket fds,
  listening-IsAccounted a a.socket fds,
)
