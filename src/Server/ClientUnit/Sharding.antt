-- ===== src/Server/ClientUnit/Sharding.antt =====
-- `__REDIS_ID` and `__data_flow`: which shard's queue an order goes to, and in which order.
use order_sync.Base.{
  ℕ, ◌%◌, ◌≤◌, ◌<◌, ◌≡◌, ◌≢◌, ◌⊎◌, All, inl, inr, refl, sym, ap, ◌∙◌, List, [], ◌∷◌, ◌++◌, Option,
  some, none, Bool, true, false, arith, length, ◌==◌, if◌then◌else◌, ◌>>=◌, append_assoc,
  append-nil, bind_some,
}
use order_sync.Server.ClientUnit.Requests.{Parsed, unread, thrown, read}
use order_sync.Server.ClientUnit.Defs.{Shards}
use order_sync.Server.ClientUnit.Requests.{redis_id, has_shard, enqueue, data_flow}

-- The queue of a shard, oldest first.
unfoldable pub queue : ℕ → Shards → List (List ℕ)
queue sid [] = []
queue sid ((k, q) ∷ m) = if k == sid then q else queue sid m

redis_id_bounds : (id sz sid : ℕ) → redis_id id sz ≡ some sid → (0 < sid) × (sid ≤ sz)
unfolding redis_id
redis_id_bounds id sz sid e = ground arith

queue-enqueue :
    (sid j : ℕ) (value : List ℕ) (m : Shards)
    → has_shard sid m ≡ true
    → queue j (enqueue sid value m) ≡ (if sid == j then queue j m ++ (value ∷ []) else queue j m)
unfolding queue enqueue has_shard
queue-enqueue sid j value [] h = cc
queue-enqueue sid j value ((k, q) ∷ m) h = ground (arith, queue-enqueue sid j value m)

has_shard-enqueue :
    (sid j : ℕ) (value : List ℕ) (m : Shards) → has_shard j (enqueue sid value m) ≡ has_shard j m
unfolding enqueue has_shard
has_shard-enqueue sid j value [] = refl
has_shard-enqueue sid j value ((k, q) ∷ m) = ground (arith, has_shard-enqueue sid j value m)

length-enqueue : (sid : ℕ) (value : List ℕ) (m : Shards) → length (enqueue sid value m) ≡ length m
unfolding enqueue
length-enqueue sid value [] = refl
length-enqueue sid value ((k, q) ∷ m) = ground (arith, length-enqueue sid value m)

-- The shards are numbered from 1 on, as the server's configuration has them.
pub record IsNumbered (m : Shards) : Type 0 where
  pub nonempty : 0 < length m
  pub complete : (sid : ℕ) → 0 < sid → sid ≤ length m → has_shard sid m ≡ true

join :
    (b : Bool) (q : List (List ℕ)) (t : List ℕ) (os : List (List ℕ))
    → (if b then q ++ (t ∷ []) else q) ++ os ≡ q ++ (if b then t ∷ os else os)
join true q t os = append_assoc q (t ∷ []) os
join false q t os = refl

Parsed-cases : (r : Parsed) → (r ≡ unread) ⊎ (r ≡ thrown) ⊎ ((oid : ℕ) × (r ≡ read oid))
Parsed-cases unread = inl refl
Parsed-cases thrown = inr (inl refl)
Parsed-cases (read oid) = inr (inr (oid, refl))

module _ (order_id : List ℕ → Parsed) where
  -- Whether an order belongs to the shard `j` of `n`.
  unfoldable pub goes_to : ℕ → ℕ → List ℕ → Bool
  goes_to n j text = elim (order_id text) [
    | unread ↦ false
    | thrown ↦ false
    | read oid ↦ elim (redis_id oid n) [ none ↦ false | some sid ↦ sid == j ]
  ]

  -- The orders of a shard, in the order in which they came.
  unfoldable pub orders_of : ℕ → ℕ → List (List ℕ) → List (List ℕ)
  orders_of n j [] = []
  orders_of n j (t ∷ ts) = if goes_to n j t then t ∷ orders_of n j ts else orders_of n j ts

  -- `__data_flow` for one order after the other.
  unfoldable pub flow_all : List (List ℕ) → Shards → Option Shards
  flow_all [] m = some m
  flow_all (t ∷ ts) m = do r ← data_flow order_id t m; flow_all ts r.1

  data_flow-unread :
      (t : List ℕ) (m : Shards)
      → order_id t ≡ unread
      → (data_flow order_id t m ≡ some (false, m)) × ((j : ℕ) → goes_to (length m) j t ≡ false)
  unfolding data_flow goes_to
  data_flow-unread t m e = (ground arith, λ j. ground arith)

  data_flow-read :
      (t : List ℕ) (m : Shards) (oid : ℕ)
      → order_id t ≡ read oid
      → IsNumbered m
      → (sid : ℕ) × (has_shard sid m ≡ true)
        × (data_flow order_id t m ≡ some (true, enqueue sid t m))
        × ((j : ℕ) → goes_to (length m) j t ≡ (sid == j))
  unfolding data_flow goes_to redis_id
  data_flow-read t m oid e h =
      let sid : ℕ = if oid % length m == 0 then length m else oid % length m in
      let there : has_shard sid m ≡ true =
        h.complete sid (ground (arith, h.nonempty)) (ground (arith, h.nonempty)) in
      (sid, there, ground (arith, h.nonempty, there), λ j. ground (arith, h.nonempty))

  -- What one call of `__data_flow` leaves.
  pub data_flow-IsNumbered :
      (t : List ℕ) (m : Shards)
      → IsNumbered m
      → order_id t ≢ thrown
      → (ok : Bool) × (m' : Shards) × (data_flow order_id t m ≡ some (ok, m'))
        × IsNumbered m'
        × (length m' ≡ length m)
        × ((j : ℕ)
            → queue j m' ≡ (if goes_to (length m) j t then queue j m ++ (t ∷ []) else queue j m))
  data_flow-IsNumbered t m h typed = elim (Parsed-cases (order_id t)) [
    | inl bad ↦
        let (done, nowhere) = data_flow-unread t m bad in
        (
          false,
          m,
          done,
          h,
          refl,
          λ j. ap (λ b. if b then queue j m ++ (t ∷ []) else queue j m) (sym (nowhere j)),
        )
    | inr (inl throws) ↦ absurd (typed throws)
    | inr (inr (oid, good)) ↦
        let (sid, there, done, where_to) = data_flow-read t m oid good h in
        let same : length (enqueue sid t m) ≡ length m = length-enqueue sid t m in
        (
          true,
          enqueue sid t m,
          done,
          record {
            nonempty = omega (arith, same, h.nonempty);
            complete =
                λ j low high. has_shard-enqueue sid j t m ∙ h.complete j low (omega (arith, same));
          },
          same,
          λ j.
              queue-enqueue sid j t m there
              ∙ ap (λ b. if b then queue j m ++ (t ∷ []) else queue j m) (sym (where_to j)),
        )
  ]

  -- With the shards numbered from 1 on, no order that comes in is a fault, where none makes the JSON library
  -- throw, and each queue grows by the
  -- orders of its shard, which are those whose number is read and falls to it, in the order in which
  -- they came: orders with one number stay in sequence.
  pub flow_all_lem :
      (ts : List (List ℕ)) (m : Shards)
      → IsNumbered m
      → All (λ t. order_id t ≢ thrown) ts
      → (m' : Shards) × (flow_all ts m ≡ some m')
        × ((j : ℕ) → queue j m' ≡ queue j m ++ orders_of (length m) j ts)
  unfolding flow_all orders_of
  flow_all_lem [] m h typed = (m, refl, λ j. sym (append-nil (queue j m)))
  flow_all_lem (t ∷ ts) m h typed =
      let (ok, m₁, done, h₁, same, step) = data_flow-IsNumbered t m h typed.0 in
      let (m', rest, queues) = flow_all_lem ts m₁ h₁ typed.1 in
      (
        m',
        bind_some _ done rest,
        λ j.
            queues j
            ∙ ap (λ n. queue j m₁ ++ orders_of n j ts) same
            ∙ ap (λ q. q ++ orders_of (length m) j ts) (step j)
            ∙ join (goes_to (length m) j t) (queue j m) t (orders_of (length m) j ts),
      )
