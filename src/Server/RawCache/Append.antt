-- ===== src/Server/RawCache/Append.antt =====
-- What `CRawCache::append` does to the bytes that the cache holds (OrderSyncServer/src/proxy/cache.cpp).
use order_sync.Base.{
  ℕ, ◌+◌, ◌≤◌, ◌<◌, ◌^◌, ◌≡◌, ◌⊎◌, inl, inr, refl, sym, ap, ◌∙◌, List, [], ◌++◌, Option, none, some,
  length, u32, le→leb, lt→not_leb, lt→ltb, le→not_ltb, store, load, bind_some, store-append,
  length-store, load-append, drop, length-append, length-drop, append_assoc, arith, Option-cases,
  subst,
}
use order_sync.Server.MemPool.{MemPool, allocate, recycle}
use order_sync.Server.MemPool.Sizes.{allocate_fits}
use order_sync.Server.RawCache.{
  Cache, Called, thrown, stopped, not_recycled, kept, new, give_back, with_block, append_first,
  append_larger, append_to, append,
}

-- The block `before ++ held ++ slack`, with the cache on `held`.
pub record Holds (c : Cache) (held : List ℕ) : Type 0 where
  pub at : ℕ
  pub block : List ℕ
  pub before : List ℕ
  pub slack : List ℕ
  pub mem : c.mem ≡ some (at, block)
  pub split : block ≡ before ++ (held ++ slack)
  pub head : c.data_head ≡ length before
  pub len : c.data_len ≡ length held
  pub size : c.block_size ≡ length block
  pub small : length block < 2 ^ 31

-- The cache holds the bytes `held`: in a block, or with none.
pub data Keeps (c : Cache) (held : List ℕ) : Type 0 where
  without : c ≡ new → held ≡ [] → Keeps c held
  within : Holds c held → Keeps c held

-- The call of the pool that ended a call: it gave no block, or an assertion of its own failed.
abbrev pub IsRefused : (ℕ → ℕ) → Called → Type 0
IsRefused address (kept c m) = ⊥
IsRefused address (thrown n m) = (m' : MemPool) × (allocate address n m ≡ some (none, m'))
IsRefused address (stopped n m) = allocate address n m ≡ none
IsRefused address (not_recycled at size m) = recycle at size m ≡ none

-- A call went well and left these bytes, or the pool refused what it was asked for.
abbrev pub Outcome : (ℕ → ℕ) → Option Called → List ℕ → Type 0
Outcome address r held =
    ((d : Called) × (r ≡ some d) × IsRefused address d)
    ⊎ ((c : Cache) × (m : MemPool) × (r ≡ some (kept c m)) × Keeps c held)

pub length-block :
    {c : Cache} {held : List ℕ} (h : Holds c held)
    → length h.block ≡ length h.before + length held + length h.slack
length-block {held = held} h =
    omega (
      arith,
      ap length h.split,
      length-append h.before (held ++ h.slack),
      length-append held h.slack,
    )

-- The old block goes back to the pool.
pub give_back-Outcome :
    (address : ℕ → ℕ) (at size : ℕ) (c : Cache) (m : MemPool) (held : List ℕ)
    → Keeps c held
    → Outcome address (some (give_back at size c m)) held
unfolding give_back
give_back-Outcome address at size c m held keeps = elim (Option-cases (recycle at size m)) [
  | inl fails ↦ inl (not_recycled at size m, rw (give_back, fails) refl, fails)
  | inr ((b, m'), done) ↦ inr (c, m', rw (give_back, done) refl, keeps)
]

module _ (address : ℕ → ℕ) (contents : ℕ → ℕ → List ℕ) where
  -- What the pool's block, if it gives one, is used for.
  pub with_block-Outcome :
      (n : ℕ) (m : MemPool) (fill : ℕ → ℕ → MemPool → Option Called) (held : List ℕ)
      → n < 2 ^ 30
      → ((at size : ℕ) (m' : MemPool)
          → n ≤ size
          → size < 2 ^ 31
          → Outcome address (fill at size m') held)
      → Outcome address (with_block address contents n m fill) held
  unfolding with_block
  with_block-Outcome n m fill held few use_block = elim (Option-cases (allocate address n m)) [
    | inl fails ↦ inl (stopped n m, rw (with_block, fails) refl, fails)
    | inr ((none, m'), refuses) ↦ inl (thrown n m, rw (with_block, refuses) refl, (m', refuses))
    | inr ((some (at, size), m'), given) ↦
        let (enough, below) = allocate_fits address n at size m m' few given in
        subst (λ r. Outcome address r held) (sym (rw (with_block, given) refl))
          (use_block at size m' enough below)
  ]

  append_larger-Outcome :
      (c : Cache) (held bytes : List ℕ) (h : Holds c held) (at size : ℕ) (m : MemPool)
      → ((p s : ℕ) → length (contents p s) ≡ s)
      → length bytes + length held ≤ size
      → size < 2 ^ 31
      → Outcome address
          (append_larger address contents h.at h.block bytes c at size m)
          (held ++ bytes)
  unfolding append_larger
  append_larger-Outcome c held bytes h at size m sized enough below =
      let new_block : List ℕ = contents at size in
      let whole : length new_block ≡ size = sized at size in
      let moved : List ℕ = held ++ drop (length held) new_block in
      let slack : List ℕ = drop (length bytes) (drop (length held) new_block) in
      let block : List ℕ = (held ++ bytes) ++ slack in
      let read : load h.block c.data_head c.data_len ≡ some held =
        load-append h.block h.before held h.slack c.data_head c.data_len h.split h.head h.len in
      let first : store new_block 0 held ≡ some moved =
        store-append new_block [] new_block held 0 refl refl (omega (arith, whole, enough)) in
      let second : store moved c.data_len bytes ≡ some block =
        store-append moved held (drop (length held) new_block) bytes c.data_len refl h.len
          (omega (arith, length-drop (length held) new_block, whole, enough)) in
      let d : Cache = record {
        mem = some (at, block);
        block_size = size;
        data_head = 0;
        data_len = u32 (c.data_len + length bytes);
      } in
      subst (λ r. Outcome address r (held ++ bytes))
        (sym (bind_some _ read (bind_some _ first (bind_some _ second refl))))
        (give_back-Outcome address h.at c.block_size d m (held ++ bytes) (
          within (record {
            at = at;
            block = block;
            before = [];
            slack = slack;
            mem = refl;
            split = refl;
            head = refl;
            len = omega (arith, h.len, enough, below, length-append held bytes);
            size = sym (length-store _ _ _ _ second ∙ length-store _ _ _ _ first ∙ whole);
            small =
                omega
                  (arith, below, whole, length-store _ _ _ _ second, length-store _ _ _ _ first);
          })))

  pub append_room :
      (c : Cache) (m : MemPool) (held bytes : List ℕ) (h : Holds c held)
      → length bytes ≤ length h.slack
      → Outcome address (append address contents bytes c m) (held ++ bytes)
  unfolding append append_to
  append_room c m held bytes h room =
      let size = length-block h in
      let slack : List ℕ = drop (length bytes) h.slack in
      let block : List ℕ = ((h.before ++ held) ++ bytes) ++ slack in
      let wrote : store h.block (c.data_head + c.data_len) bytes ≡ some block =
        store-append h.block (h.before ++ held) h.slack bytes (c.data_head + c.data_len)
          (h.split ∙ sym (append_assoc h.before held h.slack))
          (omega (arith, h.head, h.len, length-append h.before held)) room in
      let fits =
        le→leb (u32 (length bytes + c.data_head + c.data_len)) c.block_size
          (omega (arith, h.head, h.len, h.size, h.small)) in
      inr (
        record c { mem = some (h.at, block); data_len = u32 (c.data_len + length bytes) },
        m,
        rw (h.mem, fits) (bind_some _ wrote refl),
        within (record {
          at = h.at;
          block = block;
          before = h.before;
          slack = slack;
          mem = refl;
          split =
              append_assoc (h.before ++ held) bytes slack
              ∙ append_assoc h.before held (bytes ++ slack)
              ∙ ap (◌++◌ h.before) (sym (append_assoc held bytes slack));
          head = h.head;
          len = omega (arith, h.len, h.small, length-append held bytes);
          size = h.size ∙ sym (length-store _ _ _ _ wrote);
          small = omega (arith, h.small, length-store _ _ _ _ wrote);
        }),
      )

  pub append_moved :
      (c : Cache) (m : MemPool) (held bytes : List ℕ) (h : Holds c held)
      → length h.slack < length bytes
      → length bytes + length held ≤ length h.block
      → Outcome address (append address contents bytes c m) (held ++ bytes)
  unfolding append append_to
  append_moved c m held bytes h none_left room =
      let size = length-block h in
      let moved : List ℕ = held ++ drop (length held) h.block in
      let slack : List ℕ = drop (length bytes) (drop (length held) h.block) in
      let block : List ℕ = (held ++ bytes) ++ slack in
      let read : load h.block c.data_head c.data_len ≡ some held =
        load-append h.block h.before held h.slack c.data_head c.data_len h.split h.head h.len in
      let first : store h.block 0 held ≡ some moved =
        store-append h.block [] h.block held 0 refl refl (omega arith) in
      let second : store moved c.data_len bytes ≡ some block =
        store-append moved held (drop (length held) h.block) bytes c.data_len refl h.len
          (omega (arith, length-drop (length held) h.block)) in
      let full =
        lt→not_leb (u32 (length bytes + c.data_head + c.data_len)) c.block_size
          (omega (arith, h.head, h.len, h.size, h.small)) in
      let fits =
        le→not_ltb c.block_size (u32 (length bytes + c.data_len))
          (omega (arith, h.len, h.size, h.small)) in
      inr (
        record c {
          mem = some (h.at, block);
          data_head = 0;
          data_len = u32 (c.data_len + length bytes);
        },
        m,
        rw (h.mem, full, fits) (bind_some _ read (bind_some _ first (bind_some _ second refl))),
        within (record {
          at = h.at;
          block = block;
          before = [];
          slack = slack;
          mem = refl;
          split = refl;
          head = refl;
          len = omega (arith, h.len, h.small, length-append held bytes);
          size = h.size ∙ sym (length-store _ _ _ _ second ∙ length-store _ _ _ _ first);
          small = omega (arith, h.small, length-store _ _ _ _ second, length-store _ _ _ _ first);
        }),
      )

  append-eq-append_to :
      (c : Cache) (m : MemPool) (bytes : List ℕ) (at : ℕ) (old : List ℕ)
      → c.mem ≡ some (at, old)
      → append address contents bytes c m ≡ append_to address contents at old bytes c m
  unfolding append
  append-eq-append_to c m bytes at old e =
      ap
        (λ (x : Option (ℕ × List ℕ)). elim x [
          | none ↦
              with_block address contents (length bytes) m (append_first address contents bytes c)
          | some b ↦ append_to address contents b.0 b.1 bytes c m
        ])
        e

  pub append_grown :
      (c : Cache) (m : MemPool) (held bytes : List ℕ) (h : Holds c held)
      → ((p s : ℕ) → length (contents p s) ≡ s)
      → length held + length bytes < 2 ^ 30
      → length h.block < length bytes + length held
      → Outcome address (append address contents bytes c m) (held ++ bytes)
  unfolding append_to
  append_grown c m held bytes h sized few room =
      let n : ℕ = u32 (length bytes + c.data_len) in
      let total : n ≡ length bytes + length held = omega (arith, h.len, h.small, few) in
      let size = length-block h in
      let full =
        lt→not_leb (u32 (length bytes + c.data_head + c.data_len)) c.block_size
          (omega (arith, h.head, h.len, h.size, h.small)) in
      let short = lt→ltb c.block_size n (omega (arith, total, h.size, room)) in
      subst (λ r. Outcome address r (held ++ bytes))
        (sym (append-eq-append_to c m bytes h.at h.block h.mem ∙ rw (full, short) refl))
        (with_block-Outcome n m (append_larger address contents h.at h.block bytes c)
          (held ++ bytes) (omega (arith, total, few))
          (λ at size m' enough below.
            append_larger-Outcome c held bytes h at size m' sized (omega (arith, total, enough))
              below))
