-- ===== src/Db/Worker/Order.antt =====
-- The order in which a worker's statements run.
use order_sync.Base.{
  ℕ, zero, suc, ◌≡◌, refl, sym, ap, ◌∙◌, subst, List, [], ◌∷◌, ◌++◌, Option, none, some, true,
  false, length, take, drop, map, map-append, if◌then◌else◌, append-nil, append_assoc,
}
use order_sync.Db.Worker.{
  OrderText, Worker, Servers, statement, execute, run_statement, run_order, run_data, dequeue,
  sync_order, sync_orders,
}

-- The statements that the database was given.
abbrev pub given : Worker → List (List ℕ)
given w = map (λ e. e.0) w.executed

dropped : (n : ℕ) (q : List (List ℕ)) → drop n (drop 1 q) ≡ drop (suc n) q
dropped zero [] = refl
dropped (suc n) [] = refl
dropped n (d ∷ q) = refl

module _ (parse : List ℕ → Option OrderText) (month_table : ℕ → List ℕ) (old_name : List ℕ)
    (now : ℕ) where
  of_statement : Option (List ℕ) → List (List ℕ)
  of_statement none = []
  of_statement (some sql) = sql ∷ []

  of_order : Option OrderText → List (List ℕ)
  unfolding of_statement
  of_order none = []
  of_order (some o) = of_statement (statement parse month_table old_name now o)

  -- The statement that an order stands for, if it is read and has a table.
  pub of_data : List ℕ → List (List ℕ)
  unfolding of_order
  of_data [] = []
  of_data (b ∷ bs) = of_order (parse (b ∷ bs))

  pub of_all : List (List ℕ) → List (List ℕ)
  unfolding of_data
  of_all [] = []
  of_all (data₁ ∷ rest) = of_data data₁ ++ of_all rest

  -- A turn with an order gives the database its statement, and leaves the queue and redis alone.
  record Ran (sqls : List (List ℕ)) (w v : Worker) : Type 0 where
    queue : v.queue ≡ w.queue
    active : v.redis_active ≡ w.redis_active
    gave : given v ≡ given w ++ sqls

  nothing-Ran : (w : Worker) → Ran [] w w
  nothing-Ran w = record { queue = refl; active = refl; gave = sym (append-nil (given w)) }

  run_statement-Ran :
      (a : Servers) (s : Option (List ℕ)) (w : Worker)
      → Ran (of_statement s) w (run_statement parse month_table old_name now a s w).1
  unfolding of_statement run_statement execute
  run_statement-Ran a none w = nothing-Ran w
  run_statement-Ran a (some sql) w = record {
    queue = refl;
    active = refl;
    gave = map-append (λ e. e.0) w.executed _;
  }

  run_order-Ran :
      (a : Servers) (o : Option OrderText) (w : Worker)
      → Ran (of_order o) w (run_order parse month_table old_name now a o w).1
  unfolding of_order run_order
  run_order-Ran a none w = nothing-Ran w
  run_order-Ran a (some o) w = run_statement-Ran a (statement parse month_table old_name now o) w

  run_data-Ran :
      (a : Servers) (d : List ℕ) (w : Worker)
      → Ran (of_data d) w (run_data parse month_table old_name now a d w).1
  unfolding of_data run_data
  run_data-Ran a [] w = nothing-Ran w
  run_data-Ran a (b ∷ bs) w = run_order-Ran a (parse (b ∷ bs)) w

  -- One turn on a queue.
  dequeue-Ran :
      (a : Servers) (q : List (List ℕ)) (w : Worker)
      → w.queue ≡ q
      → Ran
          (of_all (take 1 q))
          (record w { queue = drop 1 q })
          (dequeue parse month_table old_name now a q w).1
  unfolding of_all dequeue run_data
  dequeue-Ran a [] w e = record { queue = e; active = refl; gave = sym (append-nil (given w)) }
  dequeue-Ran a (d ∷ q) w e =
      subst
        (λ sqls.
          Ran sqls (record w { queue = q })
            (run_data parse month_table old_name now a d (record w { queue = q })).1)
        (sym (append-nil (of_data d))) (run_data-Ran a d (record w { queue = q }))

  of_all-take :
      (n : ℕ) (q : List (List ℕ))
      → of_all (take (suc n) q) ≡ of_all (take 1 q) ++ of_all (take n (drop 1 q))
  unfolding of_all
  of_all-take zero [] = refl
  of_all-take (suc n) [] = refl
  of_all-take n (d ∷ q) = ap (λ l. l ++ of_all (take n q)) (sym (append-nil (of_data d)))

  turn-Ran :
      (a : Servers) (w : Worker)
      → w.redis_active ≡ true
      → Ran
          (of_all (take 1 w.queue))
          (record w { queue = drop 1 w.queue })
          (sync_order parse month_table old_name now a w).1
  unfolding sync_order
  turn-Ran a w active =
      subst (λ r. Ran (of_all (take 1 w.queue)) (record w { queue = drop 1 w.queue }) r.1)
        (sym (
          ap
            (λ b.
              if b
              then dequeue parse month_table old_name now a w.queue w
              else (if a.redis_connects
                  then run_data parse month_table old_name now a []
                      (record w { redis_active = true })
                  else (false, w)))
            active))
        (dequeue-Ran a w.queue w refl)

  -- With redis connected, whatever the servers answer: in some turns a worker takes as many orders off
  -- the queue, and gives the database the statements of those that are read and have a table, each
  -- once and in the queue's order.
  pub sync_orders_lem :
      (answers : List Servers) (w : Worker)
      → w.redis_active ≡ true
      → let v = sync_orders parse month_table old_name now answers w in
        (given v ≡ given w ++ of_all (take (length answers) w.queue))
        × (v.queue ≡ drop (length answers) w.queue)
  unfolding sync_orders of_all
  sync_orders_lem [] w active = (sym (append-nil (given w)), refl)
  sync_orders_lem (a ∷ answers) w active =
      let v : Worker = (sync_order parse month_table old_name now a w).1 in
      let r = turn-Ran a w active in
      let n : ℕ = length answers in
      let (gave, left) = sync_orders_lem answers v (r.active ∙ active) in
      (
        gave
            ∙ ap (λ l. l ++ of_all (take n v.queue)) r.gave
            ∙ append_assoc (given w) (of_all (take 1 w.queue)) (of_all (take n v.queue))
            ∙ ap (λ q. given w ++ (of_all (take 1 w.queue) ++ of_all (take n q))) r.queue
            ∙ ap (λ l. given w ++ l) (sym (of_all-take n w.queue)),
        left ∙ ap (drop n) r.queue ∙ dropped n w.queue,
      )
