-- ===== src/Server/RawCache/Refine.antt =====
-- The cache against the list of the bytes that it holds.
use order_sync.Base.{
  ℕ, ◌+◌, ◌-◌, ◌<◌, ◌^◌, ◌≡◌, inl, inr, refl, sym, ap, subst, ne→not_==, le_or_lt, ◌∙◌, List, [],
  ◌∷◌, ◌++◌, Option, some, length, le→leb, lt→not_leb, lt→ltb, ◌>>=◌, store, load, bind_some,
  store-append, length-store, load-append, take, drop, take-append-drop, length-append, length-drop,
  length-take, append_assoc, arith, drop_all, u32,
}
use order_sync.Server.MemPool.{MemPool}
use order_sync.Server.RawCache.{
  Cache, Called, thrown, stopped, not_recycled, kept, new, data_at, append_first, append, skip,
}
use order_sync.Server.RawCache.Append.{
  Keeps, Outcome, length-block, give_back-Outcome, with_block-Outcome, append_room, append_moved,
  append_grown, without, within,
}

skip-Keeps :
    (address : ℕ → ℕ) (c : Cache) (m : MemPool) (held : List ℕ) (n : ℕ)
    → Keeps c held
    → Outcome address (some (skip n c m)) (drop n held)
unfolding skip
skip-Keeps address c m held n (without fresh empty) = inr (
  new,
  m,
  ap (λ d. some (skip n d m)) fresh,
  without refl (drop_all n held (omega (arith, ap length empty))),
)
skip-Keeps address c m held n (within h) = elim (le_or_lt (length held) n) [
  | inl all ↦
      rw (h.mem, le→leb c.data_len n (omega (arith, h.len)))
        (give_back-Outcome address h.at c.block_size new m (drop n held)
          (without refl (drop_all n held all)))
  | inr some_left ↦
      let size = length-block h in
      inr (
        record c { data_head = u32 (c.data_head + n); data_len = c.data_len - n },
        m,
        rw (h.mem, lt→not_leb c.data_len n (omega (arith, h.len))) refl,
        within (record {
          at = h.at;
          block = h.block;
          before = h.before ++ take n held;
          slack = h.slack;
          mem = h.mem;
          split =
              h.split
              ∙ ap (λ b. h.before ++ (b ++ h.slack)) (sym (take-append-drop n held))
              ∙ ap (◌++◌ h.before) (append_assoc (take n held) (drop n held) h.slack)
              ∙ sym (append_assoc h.before (take n held) (drop n held ++ h.slack));
          head =
              omega
                (arith, h.head, h.small, length-append h.before (take n held), length-take n held);
          len = omega (arith, h.len, length-drop n held);
          size = h.size;
          small = h.small;
        }),
      )
]

-- Where the cache holds any bytes, `data` and `data_len` give exactly these.
pub data-Keeps :
    (c : Cache) (held : List ℕ)
    → Keeps c held
    → 0 < length held
    → (at : ℕ) × (block : List ℕ) × (off : ℕ) × (c.mem ≡ some (at, block))
      × (data_at c ≡ some (some off))
      × (load block off c.data_len ≡ some held)
unfolding data_at
data-Keeps c held (without fresh empty) more = absurd (omega (arith, ap length empty))
data-Keeps c held (within h) more =
    let size = length-block h in
    (
      h.at,
      h.block,
      c.data_head,
      h.mem,
      rw
          (
            ne→not_== c.data_len 0 (λ e. omega (arith, e, h.len)),
            lt→ltb c.data_head c.block_size (omega (arith, h.head, h.size)),
          )
          refl,
      load-append h.block h.before held h.slack c.data_head c.data_len h.split h.head h.len,
    )

-- What the owner of a cache does with it.
pub data Op : Type 0 where
  push : List ℕ → Op
  take_off : ℕ → Op

-- The same on the list of the bytes.
pub run_list : List Op → List ℕ → List ℕ
run_list [] held = held
run_list (push bytes ∷ ops) held = run_list ops (held ++ bytes)
run_list (take_off n ∷ ops) held = run_list ops (drop n held)

-- How many bytes are appended in all.
abbrev pub pushed : List Op → ℕ
pushed [] = 0
pushed (push bytes ∷ ops) = length bytes + pushed ops
pushed (take_off n ∷ ops) = pushed ops

-- A refusal of the pool's ends the operations.
abbrev next : (Cache → MemPool → Option Called) → Called → Option Called
next rest (kept c m) = rest c m
next rest (thrown n m) = some (thrown n m)
next rest (stopped n m) = some (stopped n m)
next rest (not_recycled at size m) = some (not_recycled at size m)

next-Outcome :
    (address : ℕ → ℕ) (r : Option Called) (rest : Cache → MemPool → Option Called)
    (held after : List ℕ)
    → Outcome address r held
    → ((c : Cache) (m : MemPool) → Keeps c held → Outcome address (rest c m) after)
    → Outcome address (r >>= next rest) after
next-Outcome address r rest held after (inl (kept c m, e, never)) more = absurd never
next-Outcome address r rest held after (inl (thrown n m, e, refused)) more =
    inl (thrown n m, bind_some _ e refl, refused)
next-Outcome address r rest held after (inl (stopped n m, e, refused)) more =
    inl (stopped n m, bind_some _ e refl, refused)
next-Outcome address r rest held after (inl (not_recycled at size m, e, refused)) more =
    inl (not_recycled at size m, bind_some _ e refl, refused)
next-Outcome address r rest held after (inr (c, m, e, keeps)) more =
    subst (λ s. Outcome address s after) (sym (bind_some (next rest) e refl)) (more c m keeps)

module _ (address : ℕ → ℕ) (contents : ℕ → ℕ → List ℕ) where
  append_fresh :
      (m : MemPool) (bytes : List ℕ)
      → ((p s : ℕ) → length (contents p s) ≡ s)
      → length bytes < 2 ^ 30
      → Outcome address (append address contents bytes new m) bytes
  unfolding append append_first
  append_fresh m bytes sized few =
      with_block-Outcome address contents (length bytes) m (append_first address contents bytes new)
        bytes few
        (λ at size m' enough below.
          let new_block : List ℕ = contents at size in
          let whole : length new_block ≡ size = sized at size in
          let first : store new_block 0 bytes ≡ some (bytes ++ drop (length bytes) new_block) =
            store-append new_block [] new_block bytes 0 refl refl (omega (arith, whole, enough)) in
          inr (
            record {
              mem = some (at, bytes ++ drop (length bytes) new_block);
              block_size = size;
              data_head = 0;
              data_len = length bytes;
            },
            m',
            bind_some _ first refl,
            within (record {
              at = at;
              block = bytes ++ drop (length bytes) new_block;
              before = [];
              slack = drop (length bytes) new_block;
              mem = refl;
              split = refl;
              head = refl;
              len = refl;
              size = sym (length-store _ _ _ _ first ∙ whole);
              small = omega (arith, below, whole, length-store _ _ _ _ first);
            }),
          ))

  -- `append` to a cache that holds `held`: it holds the bytes behind them in whichever of its ways it
  -- made room, unless the pool refuses.
  append-Keeps :
      (c : Cache) (m : MemPool) (held bytes : List ℕ)
      → ((p s : ℕ) → length (contents p s) ≡ s)
      → Keeps c held
      → length held + length bytes < 2 ^ 30
      → Outcome address (append address contents bytes c m) (held ++ bytes)
  append-Keeps c m held bytes sized (without fresh empty) few =
      subst (λ d. Outcome address (append address contents bytes d m) (held ++ bytes)) (sym fresh)
        (subst (λ b. Outcome address (append address contents bytes new m) (b ++ bytes)) (sym empty)
          (append_fresh m bytes sized (omega (arith, few))))
  append-Keeps c m held bytes sized (within h) few =
      elim (le_or_lt (length bytes) (length h.slack)) [
        | inl room ↦ append_room address contents c m held bytes h room
        | inr less ↦ elim (le_or_lt (length bytes + length held) (length h.block)) [
          | inl room ↦ append_moved address contents c m held bytes h less room
          | inr more ↦ append_grown address contents c m held bytes h sized few more
        ]
      ]

  -- The operations, one after the other, on the cache and its pool.
  pub run : List Op → Cache → MemPool → Option Called
  run [] c m = some (kept c m)
  run (push bytes ∷ ops) c m = do
    r ← append address contents bytes c m
    next (λ d m'. run ops d m') r
  run (take_off n ∷ ops) c m = next (λ d m'. run ops d m') (skip n c m)

  -- Where a block of a size has as many bytes: on a cache that holds some bytes, or none, any appends and
  -- skips, whose bytes with those held are fewer than 2 ^ 30 in all, never leave its block, and do to the
  -- bytes that it holds what they do to a list, unless the pool has no block of the size asked for, or an
  -- assertion of the pool's own fails.
  pub run-Keeps :
      (ops : List Op) (c : Cache) (m : MemPool) (held : List ℕ)
      → ((p s : ℕ) → length (contents p s) ≡ s)
      → Keeps c held
      → length held + pushed ops < 2 ^ 30
      → Outcome address (run ops c m) (run_list ops held)
  unfolding run run_list
  run-Keeps [] c m held sized h few = inr (c, m, refl, h)
  run-Keeps (push bytes ∷ ops) c m held sized h few =
      next-Outcome address (append address contents bytes c m) (λ d m'. run ops d m')
        (held ++ bytes) (run_list ops (held ++ bytes))
        (append-Keeps c m held bytes sized h (omega (arith, few)))
        (λ d m' h'.
          run-Keeps ops d m' (held ++ bytes) sized h'
            (omega (arith, few, length-append held bytes)))
  run-Keeps (take_off n ∷ ops) c m held sized h few =
      next-Outcome address (some (skip n c m)) (λ d m'. run ops d m') (drop n held)
        (run_list ops (drop n held)) (skip-Keeps address c m held n h)
        (λ d m' h'.
          run-Keeps ops d m' (drop n held) sized h' (omega (arith, few, length-drop n held)))
