-- ===== src/Server/GameUnit/Passing.antt =====
-- One packet of `CGameUnit::process_pkg` (OrderSyncServer/src/proxy/game_unit.cpp).
use order_sync.Base.{
  ℕ, ◌+◌, ◌≤◌, ◌<◌, ◌≡◌, ◌⊎◌, inl, inr, refl, sym, ap, ◌∙◌, List, [], ◌++◌, Option, none, some,
  Bool, true, false, arith, length, take, drop, load, ◌>>=◌, append_assoc, take-append-drop,
  length-take, load-append, bind_inv, bind_some, some-inj, none-ne-some, true-ne-false, le_or_lt,
  if-either, Option-cases, ◌==◌,
}
use order_sync.Server.Packet
use order_sync.Server.Packet.{Packet, zeros, copy, get_cmd_type}
use order_sync.Server.Packet.Receive.{copy_lem}
use order_sync.Server.ClientUnit.{ClientUnit, SendOutcome, send, length_field, blank}
use order_sync.Server.ClientUnit.Sending.{output, send_conserves}
use order_sync.Server.Link.{Link, reset_helper}
use order_sync.Server.GameUnit.{
  GameUnit, reset_link, forward, change, after_cmd, passed, pass, is_sent, logout_success,
  change_gameserver,
}

-- A packet larger than the buffer is not copied, and the buffer never set.
pub unread :
    (source : List ℕ) (n : ℕ) → 8192 < n → (copy source n blank >>= λ p. get_cmd_type p.1) ≡ none
unfolding copy get_cmd_type load
unread source n h = ground arith

-- Bytes that do not make up a packet.
abbrev pub IsPartial : List ℕ → Type 0
IsPartial bytes = (length bytes < 9) ⊎ (length bytes < 2 + length_field bytes)

module _ (kernel : ℕ → ℕ → SendOutcome) where
  -- What comes of a packet that the client has been given.
  pub record Given (n : ℕ) (c : ClientUnit) (g v : GameUnit) (stop : Bool) : Type 0 where
    pub client : ClientUnit
    pub is_client : v.client ≡ some client
    pub conserves : output client ≡ output c ++ take n g.link.r
    pub rest :
        ((stop ≡ false) × (v.link.r ≡ drop n g.link.r))
        ⊎ ((stop ≡ true) × (v.link.r ≡ []) × (v.link.netfd ≡ none))

  forward_conserves :
      (p : Packet) (c : ClientUnit) (bytes : List ℕ) (d : Option ClientUnit)
      → load p.buf 0 p.size ≡ some bytes
      → forward kernel p (some c) ≡ some (true, d)
      → (c' : ClientUnit) × (d ≡ some c') × (output c' ≡ output c ++ bytes)
  unfolding forward is_sent
  forward_conserves p c bytes d loaded e =
      let u : ClientUnit = record c { w = c.w ++ bytes } in
      let v : ClientUnit = (send kernel u).1 in
      elim (Option-cases (send kernel u).0) [
        | inl failed ↦ absurd (ground (arith, loaded, failed, e))
        | inr (n, done) ↦
            let kept = (send_conserves kernel u v n (ap (λ x. (x, v)) done)).0 in
            (v, ground (arith, loaded, done, e), kept ∙ sym (append_assoc c.sent c.w bytes))
      ]

  change_rest :
      (p : Packet) (l v : Link) → change kernel p l ≡ some v → (v.r ≡ []) × (v.netfd ≡ none)
  unfolding change reset_link reset_helper
  change_rest p l v e =
      let (d, _, e₁) = bind_inv (Packet.decrypt_buffer p) _ _ e in
      let (uid, _, e₂) = bind_inv (Packet.read_int d.1) _ _ e₁ in
      let (ip, _, e₃) = bind_inv (Packet.read_string uid.1) _ _ e₂ in
      let (port, _, e₄) = bind_inv (Packet.read_int ip.1) _ _ e₃ in
      (ap (λ x. x.r) (sym (some-inj e₄)), ap (λ x. x.netfd) (sym (some-inj e₄)))

  IsAfter : Link → Bool → Link → Type 0
  IsAfter l stop v =
      ((stop ≡ false) × (v.r ≡ l.r)) ⊎ ((stop ≡ true) × (v.r ≡ []) × (v.netfd ≡ none))

  after_cmd_rest :
      (cmd : ℕ) (p : Packet) (l v : Link) (stop : Bool)
      → after_cmd kernel cmd p l ≡ some (stop, v)
      → IsAfter l stop v
  unfolding after_cmd reset_link reset_helper IsAfter
  after_cmd_rest cmd p l v stop =
      if-either (λ x. x ≡ some (stop, v) → IsAfter l stop v) (cmd == logout_success) _ _
        (λ _ e. inr (
          ap (λ x. x.0) (sym (some-inj e)),
          ap (λ x. x.1.r) (sym (some-inj e)),
          ap (λ x. x.1.netfd) (sym (some-inj e)),
        ))
        λ _.
          if-either (λ x. x ≡ some (stop, v) → IsAfter l stop v) (cmd == change_gameserver) _ _
            (λ _ e.
              let (u, changed, e₁) = bind_inv (change kernel p l) _ _ e in
              let (no_bytes, no_fd) = change_rest p l u changed in
              inr (
                ap (λ x. x.0) (sym (some-inj e₁)),
                ap (λ x. x.1.r) (sym (some-inj e₁)) ∙ no_bytes,
                ap (λ x. x.1.netfd) (sym (some-inj e₁)) ∙ no_fd,
              ))
            λ _ e. inl (ap (λ x. x.0) (sym (some-inj e)), ap (λ x. x.1.r) (sym (some-inj e)))

  passed_conserves :
      (n cmd : ℕ) (p : Packet) (c : ClientUnit) (g v : GameUnit) (ok stop : Bool)
      (d : Option ClientUnit)
      → load p.buf 0 p.size ≡ some (take n g.link.r)
      → forward kernel p (some c) ≡ some (ok, d)
      → passed kernel n cmd p g (ok, d) ≡ some (true, stop, v)
      → Given n c g v stop
  unfolding passed IsAfter
  passed_conserves n cmd p c g v false stop d loaded given e =
      absurd (true-ne-false (ap (λ x. x.0) (sym (some-inj e))))
  passed_conserves n cmd p c g v true stop d loaded given e =
      let (s, after, e₁) =
        bind_inv (after_cmd kernel cmd p (record g.link { r = drop n g.link.r })) _ _ e in
      let (c', same, kept) = forward_conserves p c (take n g.link.r) d loaded given in
      let how = after_cmd_rest cmd p (record g.link { r = drop n g.link.r }) s.1 s.0 after in
      let stops : stop ≡ s.0 = ap (λ x. x.1) (sym (some-inj e₁)) in
      let is : v ≡ record { link = s.1; client = d } = ap (λ x. x.2) (sym (some-inj e₁)) in
      record {
        client = c';
        is_client = ap (λ x. x.client) is ∙ same;
        conserves = kept;
        rest = elim how [
          | inl (on, r) ↦ inl (stops ∙ on, ap (λ x. x.link.r) is ∙ r)
          | inr (off, r, fd) ↦
              inr (stops ∙ off, ap (λ x. x.link.r) is ∙ r, ap (λ x. x.link.netfd) is ∙ fd)
        ];
      }

  pub pass_conserves :
      (n : ℕ) (c : ClientUnit) (g v : GameUnit) (stop : Bool)
      → g.client ≡ some c
      → n ≤ length g.link.r
      → pass kernel n g ≡ some (true, stop, v)
      → Given n c g v stop
  unfolding pass
  pass_conserves n c g v stop is_c whole e =
      let (p, copied, e₁) = bind_inv (copy g.link.r n blank) _ _ e in
      let (cmd, told, e₂) = bind_inv (get_cmd_type p.1) _ _ e₁ in
      let (f, forwarded, e₃) = bind_inv (forward kernel p.1 g.client) _ _ e₂ in
      let given : forward kernel p.1 (some c) ≡ some (f.0, f.1) =
        ap (forward kernel p.1) (sym is_c) ∙ forwarded in
      elim (le_or_lt n 8192) [
        | inl fits ↦
            let size = length-take n g.link.r in
            let made =
              copy_lem blank g.link.r (take n g.link.r) (drop n g.link.r) n
                (sym (take-append-drop n g.link.r)) (omega arith) fits in
            let is_p = ap (λ x. x.1) (some-inj (sym copied ∙ made)) in
            let loaded : load p.1.buf 0 p.1.size ≡ some (take n g.link.r) =
              ap (λ q. load q.buf 0 q.size) is_p
              ∙ load-append _ [] (take n g.link.r) (drop (length (take n g.link.r)) zeros) 0 n refl
                  refl (omega arith) in
            passed_conserves n cmd p.1 c g v f.0 stop f.1 loaded given e₃
        | inr large ↦
            absurd (none-ne-some (sym (unread g.link.r n large) ∙ bind_some _ copied told))
      ]

  passed_fails :
      (n cmd : ℕ) (p : Packet) (g v : GameUnit) (f : Bool × Option ClientUnit) (stop : Bool)
      → passed kernel n cmd p g f ≡ some (false, stop, v)
      → stop ≡ true
  unfolding passed
  passed_fails n cmd p g v (false, d) stop e = ap (λ x. x.1) (sym (some-inj e))
  passed_fails n cmd p g v (true, d) stop e =
      let (s, _, e₁) =
        bind_inv (after_cmd kernel cmd p (record g.link { r = drop n g.link.r })) _ _ e in
      absurd (true-ne-false (ap (λ x. x.0) (some-inj e₁)))

  pub pass_fails :
      (n : ℕ) (g v : GameUnit) (stop : Bool) → pass kernel n g ≡ some (false, stop, v) → stop ≡ true
  unfolding pass
  pass_fails n g v stop e =
      let (p, _, e₁) = bind_inv (copy g.link.r n blank) _ _ e in
      let (cmd, _, e₂) = bind_inv (get_cmd_type p.1) _ _ e₁ in
      let (f, _, e₃) = bind_inv (forward kernel p.1 g.client) _ _ e₂ in
      passed_fails n cmd p.1 g v f stop e₃
