-- ===== src/Server/GameUnit/Forwarding.antt =====
-- `CGameUnit::process_pkg`: what the client gets of what the game server sent.
use order_sync.Base.{
  ℕ, zero, suc, ◌+◌, ◌≤◌, ◌≡◌, ◌⊎◌, inl, inr, refl, sym, ap, ◌∙◌, List, [], ◌++◌, Option, none,
  some, Bool, true, false, arith, length, take, drop, ltb, append_assoc, append-nil,
  take-append-drop, length-drop, bind_inv, some-inj, true-ne-false, if◌then◌else◌, if-either, subst,
  ltb→lt, not_ltb→le,
}
use order_sync.Server.ClientUnit.{ClientUnit, SendOutcome, length_field}
use order_sync.Server.ClientUnit.Sending.{output}
use order_sync.Server.GameUnit.{GameUnit, pass, process_pkg}
use order_sync.Server.GameUnit.Passing.{IsPartial, Given, pass_conserves, pass_fails}

module _ (kernel : ℕ → ℕ → SendOutcome) where
  -- What the client has been or will be sent, and then what is left of the game server's bytes, is
  -- what it was before, but for bytes lost with the connection to the game server.
  pub record Forwarded (c : ClientUnit) (g v : GameUnit) : Type 0 where
    pub client : ClientUnit
    pub is_client : v.client ≡ some client
    pub lost : List ℕ
    pub conserves : output client ++ (v.link.r ++ lost) ≡ output c ++ g.link.r
    pub partial : IsPartial v.link.r
    pub closed : (lost ≡ []) ⊎ (v.link.netfd ≡ none)

  waits-Forwarded :
      (c : ClientUnit) (g v : GameUnit)
      → g.client ≡ some c
      → IsPartial g.link.r
      → ◌≡◌ {A = Option (Bool × GameUnit)} (some (true, g)) (some (true, v))
      → Forwarded c g v
  waits-Forwarded c g v is_c partial e =
      subst (Forwarded c g) (ap (λ x. x.1) (some-inj e)) (record {
        client = c;
        is_client = is_c;
        lost = [];
        conserves = ap (λ b. output c ++ b) (append-nil g.link.r);
        partial = partial;
        closed = inl refl;
      })

  ends-Forwarded :
      (n : ℕ) (c : ClientUnit) (g v : GameUnit) → Given kernel n c g v true → Forwarded c g v
  ends-Forwarded n c g v given = elim given.rest [
    | inl (on, _) ↦ absurd (true-ne-false on)
    | inr (_, empty, fd) ↦ record {
      client = given.client;
      is_client = given.is_client;
      lost = drop n g.link.r;
      conserves =
          ap (λ b. output given.client ++ (b ++ drop n g.link.r)) empty
          ∙ ap (λ b. b ++ drop n g.link.r) given.conserves
          ∙ append_assoc (output c) (take n g.link.r) (drop n g.link.r)
          ∙ ap (λ b. output c ++ b) (take-append-drop n g.link.r);
      partial = inl (omega (arith, ap length empty));
      closed = inr fd;
    }
  ]

  goes_on-Forwarded :
      (n : ℕ) (c : ClientUnit) (g u v : GameUnit) (given : Given kernel n c g u false)
      → Forwarded given.client u v
      → Forwarded c g v
  goes_on-Forwarded n c g u v given h = elim given.rest [
    | inr (off, _, _) ↦ absurd (true-ne-false (sym off))
    | inl (_, rest) ↦ record {
      client = h.client;
      is_client = h.is_client;
      lost = h.lost;
      conserves =
          h.conserves
          ∙ ap (λ b. output given.client ++ b) rest
          ∙ ap (λ b. b ++ drop n g.link.r) given.conserves
          ∙ append_assoc (output c) (take n g.link.r) (drop n g.link.r)
          ∙ ap (λ b. output c ++ b) (take-append-drop n g.link.r);
      partial = h.partial;
      closed = h.closed;
    }
  ]

  left_over :
      (n : ℕ) (c : ClientUnit) (g u : GameUnit)
      → Given kernel n c g u false
      → u.link.r ≡ drop n g.link.r
  left_over n c g u given = elim given.rest [
    | inr (off, _, _) ↦ absurd (true-ne-false (sym off))
    | inl (_, rest) ↦ rest
  ]

  -- What comes of the rest, given what comes of a packet.
  turn-Forwarded :
      (fuel n : ℕ) (c : ClientUnit) (g v : GameUnit) (s : Bool × Bool × GameUnit)
      → g.client ≡ some c
      → n ≤ length g.link.r
      → pass kernel n g ≡ some s
      → ((c' : ClientUnit)
          → s.2.client ≡ some c'
          → s.2.link.r ≡ drop n g.link.r
          → process_pkg kernel fuel s.2 ≡ some (true, v)
          → Forwarded c' s.2 v)
      → (if s.1 then some (s.0, s.2) else process_pkg kernel fuel s.2) ≡ some (true, v)
      → Forwarded c g v
  turn-Forwarded fuel n c g v (true, true, u) is_c whole done later e = ends-Forwarded n c g v (
      pass_conserves kernel n c g v true is_c whole
        (done ∙ ap (λ x. some (true, true, x)) (ap (λ x. x.1) (some-inj e))))
  turn-Forwarded fuel n c g v (true, false, u) is_c whole done later e =
      let given : Given kernel n c g u false =
        pass_conserves kernel n c g u false is_c whole done in
      goes_on-Forwarded n c g u v given
        (later given.client given.is_client (left_over n c g u given) e)
  turn-Forwarded fuel n c g v (false, true, u) is_c whole done later e =
      absurd (true-ne-false (ap (λ x. x.0) (sym (some-inj e))))
  turn-Forwarded fuel n c g v (false, false, u) is_c whole done later e =
      absurd (true-ne-false (sym (pass_fails kernel n g u false done)))

  -- Whatever the kernel answers, where `process_pkg` returns 0 for a unit with a client, what the
  -- client has been or will be sent, and then what is left of the game server's bytes, is what it was
  -- before: the packets have gone over whole, as they are and in order, and what is left is not a
  -- whole packet. If bytes are lost, a packet has ended the connection to the game server.
  pub process_pkg-Forwarded :
      (fuel : ℕ) (c : ClientUnit) (g v : GameUnit)
      → g.client ≡ some c
      → length g.link.r ≤ fuel
      → process_pkg kernel fuel g ≡ some (true, v)
      → Forwarded c g v
  unfolding process_pkg
  process_pkg-Forwarded zero c g v is_c enough = waits-Forwarded c g v is_c (inl (omega arith))
  process_pkg-Forwarded (suc fuel) c g v is_c enough =
      let n : ℕ = 2 + length_field g.link.r in
      let Goal : Option (Bool × GameUnit) → Type 0 = λ x. x ≡ some (true, v) → Forwarded c g v in
      if-either Goal (ltb (length g.link.r) 9) _ _
        (λ short. waits-Forwarded c g v is_c (inl (ltb→lt (length g.link.r) 9 short)))
        λ _.
          if-either Goal (ltb 10240 (length_field g.link.r)) _ _
            (λ _ e. absurd (true-ne-false (ap (λ x. x.0) (sym (some-inj e)))))
            λ _.
              if-either Goal (ltb (length g.link.r) n) _ _
                (λ short. waits-Forwarded c g v is_c (inr (ltb→lt (length g.link.r) n short)))
                λ whole e.
                  let (s, done, e₁) = bind_inv (pass kernel n g) _ _ e in
                  turn-Forwarded fuel n c g v s is_c (not_ltb→le (length g.link.r) n whole) done
                    (λ c' is_c' left.
                      process_pkg-Forwarded fuel c' s.2 v is_c'
                        (omega (arith, ap length left, length-drop n g.link.r)))
                    e₁
