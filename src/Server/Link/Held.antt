-- ===== src/Server/Link/Held.antt =====
-- The descriptor that a connection to another server holds, and those that it leaves open.
use order_sync.Base.{
  ℕ, ◌≡◌, refl, sym, ap, ◌∙◌, List, [], ◌∷◌, Option, none, some, arith, ◌==◌, if◌then◌else◌,
}
use order_sync.Server.Net.{close}
use order_sync.Server.ClientUnit.{idle}
use order_sync.Server.Link.{Link, close_fd, reset_helper}

-- The descriptor that a link holds.
abbrev pub held : Option ℕ → List ℕ
held none = []
held (some fd) = if fd == 0 then [] else fd ∷ []

abbrev pub IsAccounted : Link → Type 0
IsAccounted l = l.opened ≡ held l.netfd

-- What is open is the link's descriptor, and there is none in the state CONN_IDLE.
pub record IsTidy (l : Link) : Type 0 where
  pub accounted : IsAccounted l
  pub fresh : l.stage ≡ idle → held l.netfd ≡ []

-- A link that is closed.
pub record IsClosed (l : Link) : Type 0 where
  pub no_fd : l.netfd ≡ none
  pub nothing_open : l.opened ≡ []

pub closed-IsTidy : (l : Link) → IsClosed l → IsTidy l
closed-IsTidy l h = record {
  accounted = h.nothing_open ∙ ap held (sym h.no_fd);
  fresh = λ _. ap held h.no_fd;
}

close_held : (fd : Option ℕ) → close_fd fd (held fd) ≡ []
unfolding close_fd close
close_held none = refl
close_held (some fd) = ground arith

pub reset_helper-IsClosed : (l : Link) → IsAccounted l → IsClosed (reset_helper l)
unfolding reset_helper
reset_helper-IsClosed l h = record {
  no_fd = refl;
  nothing_open = ap (close_fd l.netfd) h ∙ close_held l.netfd;
}

-- A change of the link that leaves its descriptor alone.
pub same-IsTidy :
    (l v : Link)
    → v.netfd ≡ l.netfd
    → v.opened ≡ l.opened
    → (v.stage ≡ idle → l.stage ≡ idle)
    → IsTidy l
    → IsTidy v
same-IsTidy l v fd fds still h = record {
  accounted = fds ∙ h.accounted ∙ ap held (sym fd);
  fresh = λ e. ap held fd ∙ h.fresh (still e);
}
