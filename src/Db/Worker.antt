-- ===== src/Db/Worker.antt =====
-- `sync_order` (OrderDbSync/src/SyncFunc.cc), built without __PARTITION__: one turn of a worker. What
-- the JSON library reads in a text, what localtime_r and snprintf make of a time, and whether the
-- servers answer, are parameters. A number below 0 in the field "type" is a natural number other
-- than 0.
pub mod Order
use order_sync.Base.{
  ℕ, zero, suc, ◌+◌, ◌≤◌, ◌≡◌, ◌≢◌, refl, sym, ap, ◌∙◌, List, [], ◌∷◌, ◌++◌, Option, none, some,
  Bool, true, false, ◌&&◌, length, take, drop, All, arith, ◌==◌, if◌then◌else◌, append-nil,
  append_assoc, eq→==, ne→not_==,
}
use order_sync.Db.Repair.{repair_sql}

-- The fields that are read of an order.
pub record OrderText : Type 0 where
  pub sql : List ℕ
  pub order_type : ℕ
  pub stime : ℕ
  pub mtime : ℕ
  pub id : ℕ

pub record Worker : Type 0 where
  pub redis_active : Bool
  -- the list ORDER_Q, from the end that Dequeue takes from
  pub queue : List (List ℕ)
  pub mysql_connected : Bool
  -- the statements that the database was given, and what came of each
  pub executed : List (List ℕ × Bool)

-- What the servers answer in one turn.
pub record Servers : Type 0 where
  pub redis_connects : Bool
  pub mysql_connects : Bool
  pub succeeds : Bool

-- The text at the head begins with another.
starts : List ℕ → List ℕ → Bool
starts [] text = true
starts (c ∷ cs) [] = false
starts (c ∷ cs) (d ∷ text) = let rest = starts cs text in c == d && rest

-- `sql.find (name)`, and `sql.replace (pos, strlen (name), table)` at the place that it finds.
pub replace_first : List ℕ → List ℕ → List ℕ → List ℕ
unfolding starts
replace_first name table [] = if starts name [] then table else []
replace_first name table (c ∷ text) =
    let rest = replace_first name table text in
    if starts name (c ∷ text) then table ++ drop (length name) (c ∷ text) else c ∷ rest

module _ (parse : List ℕ → Option OrderText) (month_table : ℕ → List ℕ) (old_name : List ℕ)
    (now : ℕ) where
  -- `sync_get_table_name`.
  pub get_table_name : ℕ → List ℕ
  get_table_name mtime = if mtime == 0 then month_table now else month_table mtime

  -- The statement for an order; nothing if there is no table for it.
  unfoldable pub statement : OrderText → Option (List ℕ)
  unfolding get_table_name replace_first
  statement o =
      let table = get_table_name (if o.order_type == 0 then o.stime else o.mtime) in
      let sql = replace_first old_name table o.sql in
      if length table == 0
      then none
      else some (if o.order_type == 0 then (repair_sql sql o.id).1 else sql)

  -- `ExecuteNonQuery`, on a connection that is made if there is none.
  unfoldable pub execute : Servers → List ℕ → Worker → Worker
  execute answers sql w = record w {
    mysql_connected = if w.mysql_connected then true else answers.mysql_connects;
    executed =
        w.executed
        ++ ((sql, (if w.mysql_connected then true else answers.mysql_connects) && answers.succeeds)
            ∷ []);
  }

  unfoldable pub run_statement : Servers → Option (List ℕ) → Worker → Bool × Worker
  run_statement answers none w = (false, w)
  run_statement answers (some sql) w = (true, execute answers sql w)

  unfoldable pub run_order : Servers → Option OrderText → Worker → Bool × Worker
  run_order answers none w = (false, w)
  run_order answers (some o) w = run_statement answers (statement o) w

  unfoldable pub run_data : Servers → List ℕ → Worker → Bool × Worker
  run_data answers [] w = (true, w)
  run_data answers (b ∷ bs) w = run_order answers (parse (b ∷ bs)) w

  unfoldable pub dequeue : Servers → List (List ℕ) → Worker → Bool × Worker
  dequeue answers [] w = run_data answers [] w
  dequeue answers (data₁ ∷ rest) w = run_data answers data₁ (record w { queue = rest })

  -- The result is 0 or -1, true for 0.
  unfoldable pub sync_order : Servers → Worker → Bool × Worker
  sync_order answers w =
      if w.redis_active
      then dequeue answers w.queue w
      else (if answers.redis_connects
          then run_data answers [] (record w { redis_active = true })
          else (false, w))

  -- A worker's turns, one after the other.
  unfoldable pub sync_orders : List Servers → Worker → Worker
  sync_orders [] w = w
  sync_orders (a ∷ answers) w = sync_orders answers (sync_order a w).1
