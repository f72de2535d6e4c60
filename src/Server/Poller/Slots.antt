-- ===== src/Server/Poller/Slots.antt =====
-- A slot is taken from the free ones, and given back.
use order_sync.Base.{
  some-inj, none-ne-some, ℕ, ◌+◌, ◌^◌, ◌≤◌, ◌<◌, ◌≡◌, inl, inr, refl, sym, ap, ◌∙◌, subst, List, [],
  ◌∷◌, Option, none, some, true, length, All, arith, u32,
}
use order_sync.Server.Poller.{
  Slot, PollerObject, Told, PollerUnit, write, put_object, alloc_slot, free_slot,
}
use order_sync.Server.Poller.Table.{
  Chain, Distinct, Apart, IsFree, IsKnown, write_same, write_all, Chain-write, IsFree-write,
  held-Apart, IsKnown-raise, IsKnown-take,
}
use order_sync.Server.Poller.Distinct.{length-Distinct}
use order_sync.Server.Poller.Sound.{IsSound, Keeps, slot_of, IsOwned, All-imp}

first_free :
    (t : ℕ → Slot) (p : Option ℕ) (i : ℕ) (fr : List ℕ)
    → p ≡ some i
    → Chain t p fr
    → (js : List ℕ) × (fr ≡ i ∷ js)
first_free t p i [] at c = cc
first_free t p i (j ∷ js) at c = (js, ap (λ k. k ∷ js) (some-inj (sym c.0 ∙ at)))

-- The slot at the head of the list, no longer in it and not yet an object's.
pub record Taken (n i : ℕ) (u v : PollerUnit) : Type 0 where
  pub keeps : Keeps n u v
  pub apart : Apart i keeps.sound.free
  pub unused : (v.table i).poller ≡ none
  pub inside : i < v.max_pollers

pub alloc_slot-Taken :
    (n i : ℕ) (u : PollerUnit)
    → u.free_slot_list ≡ some i
    → IsSound n u
    → Taken n i u (alloc_slot (some i) u).1
unfolding alloc_slot
alloc_slot-Taken n i u at h =
    let (js, e) = first_free u.table u.free_slot_list i h.free at h.chain in
    let chain : Chain u.table u.free_slot_list (i ∷ js) =
      subst (Chain u.table u.free_slot_list) e h.chain in
    let distinct : Distinct (i ∷ js) = subst Distinct e h.distinct in
    let unused : All (IsFree u.max_pollers u.table) (i ∷ js) =
      subst (All (IsFree u.max_pollers u.table)) e h.unused in
    let s : Slot = record (u.table i) { free_list = none } in
    let t : ℕ → Slot = write u.table i s in
    let pollers : (j : ℕ) → (t j).poller ≡ (u.table j).poller =
      λ j. write_all (λ k y. y.poller ≡ (u.table k).poller) u.table i s j refl (λ d. refl) in
    let knows : (d : Told) → IsKnown u.max_pollers u.table d → IsKnown u.max_pollers t d =
      λ d. IsKnown-take u.max_pollers u.table i s d refl unused.0.1 in
    record {
      keeps = record {
        sound = record {
          free = js;
          chain = Chain-write u.table i s (u.table i).free_list js distinct.0 chain.1;
          distinct = distinct.1;
          unused = IsFree-write u.max_pollers u.table i s js distinct.0 unused.1;
          counted = omega (arith, h.counted, ap length e, h.small);
          small = h.small;
          low = λ j. write_all (λ k y. y.seq ≤ n) u.table i s j (h.low i) (λ d. h.low j);
          of_object = λ p j f. (pollers j ∙ (h.of_object p j f).0, (h.of_object p j f).1);
          of_slot = λ p j f. h.of_slot p j (sym (pollers j) ∙ f);
          owned = h.owned;
          known = All-imp _ _ u.told knows h.known;
        };
        knows = knows;
      };
      apart = distinct.0;
      unused = pollers i ∙ unused.0.1;
      inside = unused.0.0;
    }

-- The slots of the objects are the objects of the slots.
IsMatched : ℕ → (ℕ → Slot) → (ℕ → Option PollerObject) → Type 0
IsMatched max t f =
    ((o i : ℕ) → slot_of (f o) ≡ some i → ((t i).poller ≡ some o) × (i < max))
    × ((o i : ℕ) → (t i).poller ≡ some o → slot_of (f o) ≡ some i)

-- One slot and one object change, and neither is matched to any other.
IsMatched-write :
    (max : ℕ) (t : ℕ → Slot) (f : ℕ → Option PollerObject) (i o : ℕ) (s : Slot)
    (x : Option PollerObject)
    → i < max
    → ((j : ℕ) → slot_of x ≡ some j → (i ≡ j) × (s.poller ≡ some o))
    → ((p : ℕ) → s.poller ≡ some p → (o ≡ p) × (slot_of x ≡ some i))
    → ((p : ℕ) → slot_of (f p) ≡ some i → p ≡ o)
    → ((j : ℕ) → slot_of (f o) ≡ some j → j ≡ i)
    → IsMatched max t f
    → IsMatched max (write t i s) (write f o x)
unfolding IsMatched
IsMatched-write max t f i o s x inside there back only own h = (
  λ p j.
      write_all (λ q b. slot_of b ≡ some j → ((write t i s j).poller ≡ some q) × (j < max)) f o x p
        (λ e.
          let (same, held) = there j e in
          subst (λ a. ((write t i s a).poller ≡ some o) × (a < max)) same
            (ap (λ b. b.poller) (write_same t i s) ∙ held, inside))
        (λ d e. (
          write_all (λ a b. a ≡ j → b.poller ≡ some p) t i s j
              (λ same. absurd (d (only p (e ∙ ap some (sym same))))) (λ _ _. (h.0 p j e).0) refl,
          (h.0 p j e).1,
        )),
  λ p j.
      write_all (λ a b. b.poller ≡ some p → slot_of (write f o x p) ≡ some a) t i s j
        (λ e.
          let (same, at) = back p e in
          subst (λ a. slot_of (write f o x a) ≡ some i) same (ap slot_of (write_same f o x) ∙ at))
        (λ d e.
          write_all (λ q b. q ≡ p → slot_of b ≡ some j) f o x p
            (λ same. absurd (d (own j (ap (λ q. slot_of (f q)) same ∙ h.1 p j e))))
            (λ _ _. h.1 p j e) refl),
)

-- It becomes the slot of an object without one.
unfoldable pub linked : ℕ → ℕ → PollerObject → PollerUnit → PollerUnit
linked i o y u =
    put_object o (some y)
      (record u { table = write u.table i (record (u.table i) { poller = some o }) })

pub linked-Keeps :
    (n i o : ℕ) (y : PollerObject) (u v : PollerUnit)
    → slot_of (v.objects o) ≡ none
    → y.epslot ≡ some i
    → y.owned ≡ true
    → Taken n i u v
    → Keeps n u (linked i o y v)
unfolding linked put_object IsMatched
linked-Keeps n i o y u v without at ok h =
    let k = h.keeps.sound in
    let s : Slot = record (v.table i) { poller = some o } in
    let t : ℕ → Slot = write v.table i s in
    let matched =
      IsMatched-write v.max_pollers v.table v.objects i o s (some y) h.inside
        (λ j e. (some-inj (sym at ∙ e), refl)) (λ p e. (some-inj e, at))
        (λ p e. absurd (none-ne-some (sym h.unused ∙ (k.of_object p i e).0)))
        (λ j e. absurd (none-ne-some (sym without ∙ e))) (k.of_object, k.of_slot) in
    let knows : (d : Told) → IsKnown v.max_pollers v.table d → IsKnown v.max_pollers t d =
      λ d. IsKnown-take v.max_pollers v.table i s d refl h.unused in
    record {
      sound = record {
        free = k.free;
        chain = Chain-write v.table i s v.free_slot_list k.free h.apart k.chain;
        distinct = k.distinct;
        unused = IsFree-write v.max_pollers v.table i s k.free h.apart k.unused;
        counted = k.counted;
        small = k.small;
        low = λ j. write_all (λ a b. b.seq ≤ n) v.table i s j (k.low i) (λ d. k.low j);
        of_object = matched.0;
        of_slot = matched.1;
        owned = λ p.
            write_all (λ a b. IsOwned b) v.objects o (some y) p (inr (y, refl, ok))
              (λ d. k.owned p);
        known = All-imp _ _ v.told knows k.known;
      };
      knows = λ d e. knows d (h.keeps.knows d e);
    }

free_below : (max : ℕ) (t : ℕ → Slot) (is : List ℕ) → All (IsFree max t) is → All (λ j. j < max) is
free_below max t is = All-imp (IsFree max t) (λ j. j < max) is (λ j h. h.0)

-- An object's slot is given back, and the object has none any more, or is not there.
pub free_slot-Keeps :
    (n i o : ℕ) (x : Option PollerObject) (u : PollerUnit)
    → slot_of (u.objects o) ≡ some i
    → slot_of x ≡ none
    → n + 1 < 2 ^ 32
    → IsSound n u
    → Keeps (n + 1) u (put_object o x (free_slot i u))
unfolding free_slot put_object IsMatched
free_slot-Keeps n i o x u at without few h =
    let (held, inside) = h.of_object o i at in
    let seq : ℕ = u32 ((u.table i).seq + 1) in
    let up : seq ≡ (u.table i).seq + 1 = omega (arith, few, h.low i) in
    let s : Slot = record { seq = seq; poller = none; free_list = u.free_slot_list } in
    let t : ℕ → Slot = write u.table i s in
    let new : t i ≡ s = write_same u.table i s in
    let apart : Apart i h.free = held-Apart u.max_pollers u.table i o h.free held h.unused in
    let knows : (d : Told) → IsKnown u.max_pollers u.table d → IsKnown u.max_pollers t d =
      λ d. IsKnown-raise u.max_pollers u.table i s d up in
    let room : length (i ∷ h.free) ≤ u.max_pollers =
      length-Distinct u.max_pollers (i ∷ h.free) (apart, h.distinct)
        (inside, free_below u.max_pollers u.table h.free h.unused) in
    let matched =
      IsMatched-write u.max_pollers u.table u.objects i o s x inside
        (λ j e. absurd (none-ne-some (sym without ∙ e))) (λ p e. absurd (none-ne-some e))
        (λ p e. some-inj (sym (h.of_object p i e).0 ∙ held)) (λ j e. some-inj (sym e ∙ at))
        (h.of_object, h.of_slot) in
    record {
      sound = record {
        free = i ∷ h.free;
        chain = (
          refl,
          subst (λ p. Chain t p h.free) (sym (ap (λ y. y.free_list) new))
              (Chain-write u.table i s u.free_slot_list h.free apart h.chain),
        );
        distinct = (apart, h.distinct);
        unused = (
          (inside, ap (λ y. y.poller) new),
          IsFree-write u.max_pollers u.table i s h.free apart h.unused,
        );
        counted = omega (arith, h.counted, room, h.small);
        small = h.small;
        low = λ j.
            write_all (λ k y. y.seq ≤ n + 1) u.table i s j (omega (arith, up, h.low i))
              (λ d. omega (arith, h.low j));
        of_object = matched.0;
        of_slot = matched.1;
        owned = λ p. write_all (λ a b. IsOwned b) u.objects o x p (inl without) (λ d. h.owned p);
        known = All-imp _ _ u.told knows h.known;
      };
      knows = knows;
    }
