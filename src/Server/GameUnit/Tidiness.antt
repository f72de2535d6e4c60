-- ===== src/Server/GameUnit/Tidiness.antt =====
-- `CGameUnit::process_pkg` keeps the descriptors accounted for (OrderSyncServer/src/proxy/game_unit.cpp).
use order_sync.Base.{
  ℕ, zero, suc, ◌+◌, ◌≡◌, refl, subst, Option, some, Bool, true, false, ◌==◌, ltb, length,
  if-either, bind_inv, some-inj, drop,
}
use order_sync.Server.Packet
use order_sync.Server.Packet.{Packet}
use order_sync.Server.ClientUnit.{ClientUnit, SendOutcome, length_field, blank}
use order_sync.Server.Link.{Link}
use order_sync.Server.Link.Held.{
  IsAccounted, IsTidy, IsClosed, closed-IsTidy, reset_helper-IsClosed, same-IsTidy,
}
use order_sync.Server.GameUnit.{
  GameUnit, reset_link, forward, change, after_cmd, passed, pass, process_pkg, logout_success,
  change_gameserver,
}

pub reset_link-IsClosed : (l : Link) → IsAccounted l → IsClosed (reset_link l)
unfolding reset_link
reset_link-IsClosed l h =
    let shut = reset_helper-IsClosed l h in
    record { no_fd = shut.no_fd; nothing_open = shut.nothing_open }

module _ (kernel : ℕ → ℕ → SendOutcome) where
  change-IsTidy : (p : Packet) (l v : Link) → IsTidy l → change kernel p l ≡ some v → IsTidy v
  unfolding change
  change-IsTidy p l v h e =
      let (d, _, e₁) = bind_inv (Packet.decrypt_buffer p) _ _ e in
      let (uid, _, e₂) = bind_inv (Packet.read_int d.1) _ _ e₁ in
      let (ip, _, e₃) = bind_inv (Packet.read_string uid.1) _ _ e₂ in
      let (port, _, e₄) = bind_inv (Packet.read_int ip.1) _ _ e₃ in
      let shut = closed-IsTidy (reset_link l) (reset_link-IsClosed l h.accounted) in
      subst IsTidy (some-inj e₄) (
        same-IsTidy (reset_link l) (record (reset_link l) { addr = ip.0; port = port.0 }) refl refl
          (λ x. x) shut)

  after_cmd-IsTidy :
      (cmd : ℕ) (p : Packet) (l : Link) (s : Bool × Link)
      → IsTidy l
      → after_cmd kernel cmd p l ≡ some s
      → IsTidy s.1
  unfolding after_cmd
  after_cmd-IsTidy cmd p l s h =
      let Goal : Option (Bool × Link) → Type 0 = λ x. x ≡ some s → IsTidy s.1 in
      let shut = closed-IsTidy (reset_link l) (reset_link-IsClosed l h.accounted) in
      if-either Goal (cmd == logout_success) _ _
        (λ _ e. subst (λ (r : Bool × Link). IsTidy r.1) (some-inj e) shut)
        λ _.
          if-either Goal (cmd == change_gameserver) _ _
            (λ _ e.
              let (v, changed, e₁) = bind_inv (change kernel p l) _ _ e in
              subst (λ (r : Bool × Link). IsTidy r.1) (some-inj e₁) (change-IsTidy p l v h changed))
            λ _ e. subst (λ (r : Bool × Link). IsTidy r.1) (some-inj e) h

  passed-IsTidy :
      (n cmd : ℕ) (p : Packet) (g : GameUnit) (f : Bool × Option ClientUnit)
      (s : Bool × Bool × GameUnit)
      → IsTidy g.link
      → passed kernel n cmd p g f ≡ some s
      → IsTidy s.2.link
  unfolding passed
  passed-IsTidy n cmd p g (false, c) s h e =
      subst (λ (r : Bool × Bool × GameUnit). IsTidy r.2.link) (some-inj e) h
  passed-IsTidy n cmd p g (true, c) s h e =
      let l : Link = record g.link { r = drop n g.link.r } in
      let (a, after, e₁) = bind_inv (after_cmd kernel cmd p l) _ _ e in
      subst (λ (r : Bool × Bool × GameUnit). IsTidy r.2.link) (some-inj e₁)
        (after_cmd-IsTidy cmd p l a (same-IsTidy g.link l refl refl (λ x. x) h) after)

  pass-IsTidy :
      (n : ℕ) (g : GameUnit) (s : Bool × Bool × GameUnit)
      → IsTidy g.link
      → pass kernel n g ≡ some s
      → IsTidy s.2.link
  unfolding pass
  pass-IsTidy n g s h e =
      let (p, _, e₁) = bind_inv (Packet.copy g.link.r n blank) _ _ e in
      let (cmd, _, e₂) = bind_inv (Packet.get_cmd_type p.1) _ _ e₁ in
      let (f, _, e₃) = bind_inv (forward kernel p.1 g.client) _ _ e₂ in
      passed-IsTidy n cmd p.1 g f s h e₃

  pub process_pkg-IsTidy :
      (fuel : ℕ) (g : GameUnit) (s : Bool × GameUnit)
      → IsTidy g.link
      → process_pkg kernel fuel g ≡ some s
      → IsTidy s.1.link
  unfolding process_pkg
  process_pkg-IsTidy zero g s h =
      λ e. subst (λ (r : Bool × GameUnit). IsTidy r.1.link) (some-inj e) h
  process_pkg-IsTidy (suc fuel) g s h =
      let n : ℕ = 2 + length_field g.link.r in
      let Goal : Option (Bool × GameUnit) → Type 0 = λ x. x ≡ some s → IsTidy s.1.link in
      let stop : (ok : Bool) → some (ok, g) ≡ some s → IsTidy s.1.link =
        λ ok e. subst (λ (r : Bool × GameUnit). IsTidy r.1.link) (some-inj e) h in
      if-either Goal (ltb (length g.link.r) 9) _ _ (λ _. stop true)
        λ _.
          if-either Goal (ltb 10240 (length_field g.link.r)) _ _ (λ _. stop false)
            λ _.
              if-either Goal (ltb (length g.link.r) n) _ _ (λ _. stop true)
                λ _ e.
                  let (t, done, e₁) = bind_inv (pass kernel n g) _ _ e in
                  let h' : IsTidy t.2.link = pass-IsTidy n g t h done in
                  if-either Goal t.1 _ _
                    (λ _ e₂. subst (λ (r : Bool × GameUnit). IsTidy r.1.link) (some-inj e₂) h')
                    (λ _. process_pkg-IsTidy fuel t.2 s h') e₁
