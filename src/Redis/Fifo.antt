-- ===== src/Redis/Fifo.antt =====
-- `Enqueue` and `Dequeue` of `redis_helper_t` as a queue.
use order_sync.Base.{
  ℕ, ◌+◌, ◌≡◌, ◌≢◌, refl, sym, ap, ◌∙◌, List, [], ◌∷◌, ◌++◌, Option, some, true, length, All,
  append_assoc, append-nil, bind_some, ◌>>=◌, arith, subst,
}
use order_sync.Redis.{
  rpush, lpop, nil, integer, text, Redis, RedisHelper, redis_command, enqueue, dequeue, integer_of,
  or_value, c_str,
}

-- What the redis documentation says of the commands `rpush` and `lpop`, for a server that is up.
pub record IsUp (redis : Redis) : Type 0 where
  pub rpush_reply :
      (q v : List ℕ) (s : redis.State)
      → (redis.command (rpush q v) s).0 ≡ integer (length (redis.list_at q s) + 1)
  pub rpush_list :
      (q v : List ℕ) (s : redis.State)
      → redis.list_at q (redis.command (rpush q v) s).1 ≡ redis.list_at q s ++ (v ∷ [])
  pub lpop_empty :
      (q : List ℕ) (s : redis.State)
      → redis.list_at q s ≡ []
      → ((redis.command (lpop q) s).0 ≡ nil) × (redis.list_at q (redis.command (lpop q) s).1 ≡ [])
  pub lpop_first :
      (q v : List ℕ) (vs : List (List ℕ)) (s : redis.State)
      → redis.list_at q s ≡ v ∷ vs
      → ((redis.command (lpop q) s).0 ≡ text v)
        × (redis.list_at q (redis.command (lpop q) s).1 ≡ vs)

-- What the programs do with a queue: the server enqueues, a worker dequeues into an empty string.
pub data Use : Type 0 where
  put : List ℕ → Use
  take : Use

-- The values put.
abbrev pub puts : List Use → List (List ℕ)
puts [] = []
puts (put v ∷ us) = v ∷ puts us
puts (take ∷ us) = puts us

-- The values that are not empty, as the programs tell them from an empty queue.
abbrev pub some_values : List (List ℕ) → List (List ℕ)
some_values [] = []
some_values ([] ∷ vs) = some_values vs
some_values ((b ∷ bs) ∷ vs) = (b ∷ bs) ∷ some_values vs

-- A value that a C string can hold, and that is told from an empty queue.
abbrev pub IsOrder : List ℕ → Type 0
IsOrder v = (v ≢ []) × All (λ b. b ≢ 0) v

c_str_plain : (s : List ℕ) → All (λ b. b ≢ 0) s → c_str s ≡ s
c_str_plain [] h = refl
c_str_plain (b ∷ bs) h = ground (arith, c_str_plain bs h.1)

All-middle :
    (P : List ℕ → Type 0) (l : List (List ℕ)) (v : List ℕ) (m : List (List ℕ))
    → All P (l ++ (v ∷ m))
    → P v
All-middle P [] v m h = h.0
All-middle P (x ∷ l) v m h = All-middle P l v m h.1

module _ (redis : Redis) (q : List ℕ) where
  -- The values taken, and the helper afterwards.
  unfoldable pub use_queue :
      List Use → RedisHelper redis → Option (List (List ℕ) × RedisHelper redis)
  use_queue [] h = some ([], h)
  use_queue (put v ∷ us) h = do r ← enqueue redis q v h; use_queue us r.1
  use_queue (take ∷ us) h = do r ← dequeue redis q [] h; s ← use_queue us r.1; some (r.0 ∷ s.0, s.1)

  abbrev at_queue : RedisHelper redis → List (List ℕ)
  at_queue h = redis.list_at (c_str q) h.server

  enqueue_lem :
      (v : List ℕ) (h : RedisHelper redis)
      → IsUp redis
      → h.context ≡ true
      → All (λ b. b ≢ 0) v
      → (h' : RedisHelper redis) × (enqueue redis q v h ≡ some (length (at_queue h) + 1, h'))
        × (h'.context ≡ true)
        × (at_queue h' ≡ at_queue h ++ (v ∷ []))
  unfolding enqueue redis_command integer_of
  enqueue_lem v h up ready plain =
      let same : c_str v ≡ v = c_str_plain v plain in
      (
        record h { server = (redis.command (rpush (c_str q) (c_str v)) h.server).1 },
        ground (arith, ready, up.rpush_reply (c_str q) (c_str v) h.server),
        ready,
        up.rpush_list (c_str q) (c_str v) h.server ∙ ap (λ w. at_queue h ++ (w ∷ [])) same,
      )

  dequeue_empty :
      (h : RedisHelper redis)
      → IsUp redis
      → h.context ≡ true
      → at_queue h ≡ []
      → (h' : RedisHelper redis) × (dequeue redis q [] h ≡ some ([], h'))
        × (h'.context ≡ true)
        × (at_queue h' ≡ [])
  unfolding dequeue redis_command or_value
  dequeue_empty h up ready empty =
      let (reply, left) = up.lpop_empty (c_str q) h.server empty in
      (
        record h { server = (redis.command (lpop (c_str q)) h.server).1 },
        ground (arith, ready, reply),
        ready,
        left,
      )

  dequeue_first :
      (v : List ℕ) (vs : List (List ℕ)) (h : RedisHelper redis)
      → IsUp redis
      → h.context ≡ true
      → All (λ b. b ≢ 0) v
      → at_queue h ≡ v ∷ vs
      → (h' : RedisHelper redis) × (dequeue redis q [] h ≡ some (v, h'))
        × (h'.context ≡ true)
        × (at_queue h' ≡ vs)
  unfolding dequeue redis_command or_value
  dequeue_first v vs h up ready plain held =
      let (reply, left) = up.lpop_first (c_str q) v vs h.server held in
      (
        record h { server = (redis.command (lpop (c_str q)) h.server).1 },
        ground (arith, ready, reply, c_str_plain v plain),
        ready,
        left,
      )

  -- With a context and a server that is up, whatever the order of the uses: none is a fault, and the values
  -- that are taken, empty ones aside, and then those that are left, are those that were there and then
  -- those put, each once and in order, where none of these is empty or has a NUL in it.
  pub use_queue_lem :
      (us : List Use) (h : RedisHelper redis) (vs : List (List ℕ))
      → IsUp redis
      → h.context ≡ true
      → at_queue h ≡ vs
      → All IsOrder (vs ++ puts us)
      → (taken : List (List ℕ)) × (h' : RedisHelper redis) × (use_queue us h ≡ some (taken, h'))
        × (some_values taken ++ at_queue h' ≡ vs ++ puts us)
  unfolding use_queue
  use_queue_lem [] h vs up ready held full = ([], h, refl, held ∙ sym (append-nil vs))
  use_queue_lem (put v ∷ us) h vs up ready held full =
      let put_plain : All (λ b. b ≢ 0) v = (All-middle IsOrder vs v (puts us) full).1 in
      let (h₁, done, ready₁, held₁) = enqueue_lem v h up ready put_plain in
      let same : (vs ++ (v ∷ [])) ++ puts us ≡ vs ++ (v ∷ puts us) =
        append_assoc vs (v ∷ []) (puts us) in
      let (taken, h', rest, conserved) =
        use_queue_lem us h₁ (vs ++ (v ∷ [])) up ready₁ (held₁ ∙ ap (λ l. l ++ (v ∷ [])) held)
          (subst (All IsOrder) (sym same) full) in
      (taken, h', bind_some _ done rest, conserved ∙ same)
  use_queue_lem (take ∷ us) h [] up ready held full =
      let (h₁, done, ready₁, held₁) = dequeue_empty h up ready held in
      let (taken, h', rest, conserved) = use_queue_lem us h₁ [] up ready₁ held₁ full in
      ([] ∷ taken, h', bind_some _ done (bind_some _ rest refl), conserved)
  use_queue_lem (take ∷ us) h ([] ∷ vs) up ready held full = absurd (full.0.0 refl)
  use_queue_lem (take ∷ us) h ((b ∷ bs) ∷ vs) up ready held full =
      let (h₁, done, ready₁, held₁) = dequeue_first (b ∷ bs) vs h up ready full.0.1 held in
      let (taken, h', rest, conserved) = use_queue_lem us h₁ vs up ready₁ held₁ full.1 in
      ((b ∷ bs) ∷ taken, h', bind_some _ done (bind_some _ rest refl), ap (◌∷◌ (b ∷ bs)) conserved)
