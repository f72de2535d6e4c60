-- ===== src/Server/Poller/Sound.antt =====
-- What the poller's unit keeps: its list of free slots, the slots of its objects, and what the kernel
-- has been told; and that the parts of its operations keep it.
use order_sync.Base.{
  ℕ, ◌+◌, ◌^◌, ◌≤◌, ◌<◌, ◌≡◌, ◌⊎◌, refl, sym, ap, ◌∙◌, subst, List, [], ◌∷◌, Option, none, some,
  Bool, true, false, length, All, arith, u32, if◌then◌else◌,
}
use order_sync.Server.Poller.{
  Slot, PollerObject, Told, PollerUnit, write, put_object, tell, event_data,
}
use order_sync.Server.Poller.Table.{
  Chain, Distinct, Apart, IsFree, IsKnown, write_same, write_all, Chain-write, IsFree-write,
  held-Apart, IsKnown-raise, IsKnown-event_data,
}

abbrev pub slot_of : Option PollerObject → Option ℕ
slot_of none = none
slot_of (some x) = x.epslot

-- An object with a slot has its unit.
abbrev pub IsOwned : Option PollerObject → Type 0
IsOwned x = (slot_of x ≡ none) ⊎ ((y : PollerObject) × (x ≡ some y) × (y.owned ≡ true))

-- Sound, and no slot's number has gone past `n`.
pub record IsSound (n : ℕ) (u : PollerUnit) : Type 0 where
  pub free : List ℕ
  pub chain : Chain u.table u.free_slot_list free
  pub distinct : Distinct free
  pub unused : All (IsFree u.max_pollers u.table) free
  pub counted : u.used_pollers + length free ≡ u.max_pollers
  pub small : u.max_pollers ≤ 2 ^ 31
  pub low : (i : ℕ) → (u.table i).seq ≤ n
  pub of_object :
      (o i : ℕ)
      → slot_of (u.objects o) ≡ some i
      → ((u.table i).poller ≡ some o) × (i < u.max_pollers)
  pub of_slot : (o i : ℕ) → (u.table i).poller ≡ some o → slot_of (u.objects o) ≡ some i
  pub owned : (o : ℕ) → IsOwned (u.objects o)
  pub known : All (IsKnown u.max_pollers u.table) u.told

-- The unit is sound, and knows what it knew.
pub record Keeps (n : ℕ) (u v : PollerUnit) : Type 0 where
  pub sound : IsSound n v
  pub knows : (d : Told) → IsKnown u.max_pollers u.table d → IsKnown v.max_pollers v.table d

pub All-imp {ℓ κ} :
    {A : Type ℓ} (P Q : A → Type κ) (xs : List A) → ((x : A) → P x → Q x) → All P xs → All Q xs
All-imp P Q [] f h = tt
All-imp P Q (x ∷ xs) f h = (f x h.0, All-imp P Q xs f h.1)

All-if {ℓ κ} :
    {A : Type ℓ} (b : Bool) (P : A → Type κ) (x : A) (xs : List A)
    → P x
    → All P xs
    → All P (if b then x ∷ xs else xs)
All-if true P x xs hx h = (hx, h)
All-if false P x xs hx h = h

pub IsSound_later : (n m : ℕ) (u : PollerUnit) → n ≤ m → IsSound n u → IsSound m u
IsSound_later n m u le h = record {
  free = h.free;
  chain = h.chain;
  distinct = h.distinct;
  unused = h.unused;
  counted = h.counted;
  small = h.small;
  low = λ i. omega (arith, le, h.low i);
  of_object = h.of_object;
  of_slot = h.of_slot;
  owned = h.owned;
  known = h.known;
}

-- An object that is there, or not, as before as far as its slot goes.
pub put_object-Keeps :
    (n o : ℕ) (x : Option PollerObject) (u : PollerUnit)
    → slot_of x ≡ slot_of (u.objects o)
    → IsOwned x
    → IsSound n u
    → Keeps n u (put_object o x u)
unfolding put_object
put_object-Keeps n o x u same ok h =
    let slots : (p : ℕ) → slot_of (write u.objects o x p) ≡ slot_of (u.objects p) =
      λ p. write_all (λ q y. slot_of y ≡ slot_of (u.objects q)) u.objects o x p same (λ d. refl) in
    record {
      sound = record {
        free = h.free;
        chain = h.chain;
        distinct = h.distinct;
        unused = h.unused;
        counted = h.counted;
        small = h.small;
        low = h.low;
        known = h.known;
        of_object = λ p i e. h.of_object p i (sym (slots p) ∙ e);
        of_slot = λ p i e. slots p ∙ h.of_slot p i e;
        owned = λ p. write_all (λ q y. IsOwned y) u.objects o x p ok (λ d. h.owned p);
      };
      knows = λ d k. k;
    }

-- An object tells the kernel of its slot.
pub tell-Keeps :
    (n o i : ℕ) (taken : Bool) (u : PollerUnit)
    → slot_of (u.objects o) ≡ some i
    → n + 1 < 2 ^ 32
    → IsSound n u
    → Keeps (n + 1) u (tell taken o i u)
unfolding tell
tell-Keeps n o i taken u at few h =
    let (held, inside) = h.of_object o i at in
    let seq : ℕ = u32 ((u.table i).seq + 1) in
    let up : seq ≡ (u.table i).seq + 1 = omega (arith, few, h.low i) in
    let s : Slot = record (u.table i) { seq = seq } in
    let t : ℕ → Slot = write u.table i s in
    let apart : Apart i h.free = held-Apart u.max_pollers u.table i o h.free held h.unused in
    let new : t i ≡ s = write_same u.table i s in
    let pollers : (j : ℕ) → (t j).poller ≡ (u.table j).poller =
      λ j. write_all (λ k y. y.poller ≡ (u.table k).poller) u.table i s j refl (λ d. refl) in
    let knows : (d : Told) → IsKnown u.max_pollers u.table d → IsKnown u.max_pollers t d =
      λ d. IsKnown-raise u.max_pollers u.table i s d up in
    let old : All (IsKnown u.max_pollers t) u.told = All-imp _ _ u.told knows h.known in
    record {
      sound = record {
        free = h.free;
        chain = Chain-write u.table i s u.free_slot_list h.free apart h.chain;
        distinct = h.distinct;
        unused = IsFree-write u.max_pollers u.table i s h.free apart h.unused;
        counted = h.counted;
        small = h.small;
        low = λ j.
            write_all (λ k y. y.seq ≤ n + 1) u.table i s j (omega (arith, up, h.low i))
              (λ d. omega (arith, h.low j));
        of_object = λ p j e. (pollers j ∙ (h.of_object p j e).0, (h.of_object p j e).1);
        of_slot = λ p j e. h.of_slot p j (sym (pollers j) ∙ e);
        owned = h.owned;
        known =
            All-if taken (IsKnown u.max_pollers t) _ u.told
              (subst
                (λ (y : Slot).
                  IsKnown u.max_pollers t (record { event_id = event_data y.seq i; object = o }))
                new
                (IsKnown-event_data u.max_pollers t i o inside h.small
                  (omega (arith, ap (λ y. y.seq) new, up, few, h.low i)) (pollers i ∙ held)))
              old;
      };
      knows = knows;
    }
