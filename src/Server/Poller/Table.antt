-- ===== src/Server/Poller/Table.antt =====
-- A change of one slot in the poller's table: its list of free slots, and what the kernel has been
-- told of the others.
use order_sync.Base.{
  ℕ, ◌+◌, ◌^◌, ◌≤◌, ◌<◌, ◌≡◌, ◌≢◌, inl, inr, refl, sym, ap, ◌∙◌, subst, List, [], ◌∷◌, Option, none,
  some, All, arith, eq→==, ne→not_==, eq_or_ne,
}
use order_sync.Server.Poller.{Slot, Told, write, event_data, data_slot, data_seq}

pub write_same {ℓ} : {A : Type ℓ} (f : ℕ → A) (i : ℕ) (a : A) → write f i a i ≡ a
unfolding write
write_same f i a = rw (eq→== i i refl) refl

pub write_other {ℓ} : {A : Type ℓ} (f : ℕ → A) (i : ℕ) (a : A) (j : ℕ) → j ≢ i → write f i a j ≡ f j
unfolding write
write_other f i a j h = rw (ne→not_== j i h) refl

-- What holds of every value before and of the new one holds after.
pub write_all {ℓ κ} :
    {A : Type ℓ} (P : ℕ → A → Type κ) (f : ℕ → A) (i : ℕ) (a : A) (j : ℕ)
    → P i a
    → (j ≢ i → P j (f j))
    → P j (write f i a j)
write_all P f i a j new old = elim (eq_or_ne j i) [
  | inl e ↦ subst (λ k. P k (write f i a k)) (sym e) (subst (P i) (sym (write_same f i a)) new)
  | inr d ↦ subst (P j) (sym (write_other f i a j d)) (old d)
]

some-ne-none : {A : Type 0} {a : A} → some a ≢ none
some-ne-none e = cc

-- The slots of a list that is linked from a pointer on.
abbrev pub Chain : (ℕ → Slot) → Option ℕ → List ℕ → Type 0
Chain t p [] = p ≡ none
Chain t p (i ∷ is) = (p ≡ some i) × Chain t (t i).free_list is

abbrev pub Apart : ℕ → List ℕ → Type 0
Apart i = All (λ j. j ≢ i)

abbrev pub Distinct : List ℕ → Type 0
Distinct [] = Unit
Distinct (i ∷ is) = Apart i is × Distinct is

pub Chain-write :
    (t : ℕ → Slot) (i : ℕ) (s : Slot) (p : Option ℕ) (is : List ℕ)
    → Apart i is
    → Chain t p is
    → Chain (write t i s) p is
Chain-write t i s p [] apart c = c
Chain-write t i s p (j ∷ is) apart c = (
  c.0,
  subst (λ x. Chain (write t i s) x.free_list is) (sym (write_other t i s j apart.0))
      (Chain-write t i s (t j).free_list is apart.1 c.1),
)

-- The slots in a list are no object's.
abbrev pub IsFree : ℕ → (ℕ → Slot) → ℕ → Type 0
IsFree max t i = (i < max) × ((t i).poller ≡ none)

pub IsFree-write :
    (max : ℕ) (t : ℕ → Slot) (i : ℕ) (s : Slot) (is : List ℕ)
    → Apart i is
    → All (IsFree max t) is
    → All (IsFree max (write t i s)) is
IsFree-write max t i s [] apart h = tt
IsFree-write max t i s (j ∷ is) apart h = (
  (h.0.0, ap (λ x. x.poller) (write_other t i s j apart.0) ∙ h.0.1),
  IsFree-write max t i s is apart.1 h.1,
)

pub held-Apart :
    (max : ℕ) (t : ℕ → Slot) (i o : ℕ) (is : List ℕ)
    → (t i).poller ≡ some o
    → All (IsFree max t) is
    → Apart i is
held-Apart max t i o [] held h = tt
held-Apart max t i o (j ∷ is) held h = (
  λ e. some-ne-none (sym held ∙ ap (λ k. (t k).poller) (sym e) ∙ h.0.1),
  held-Apart max t i o is held h.1,
)

-- What the kernel has been told is of a slot of the table, and is not of its future; if it is of its
-- present, the slot belongs to the object that told it.
pub record IsKnown (max : ℕ) (t : ℕ → Slot) (d : Told) : Type 0 where
  pub inside : data_slot d.event_id < max
  pub past : data_seq d.event_id ≤ (t (data_slot d.event_id)).seq
  pub present :
      data_seq d.event_id ≡ (t (data_slot d.event_id)).seq
      → (t (data_slot d.event_id)).poller ≡ some d.object

IsKnown-other :
    (max : ℕ) (t t' : ℕ → Slot) (d : Told)
    → t' (data_slot d.event_id) ≡ t (data_slot d.event_id)
    → IsKnown max t d
    → IsKnown max t' d
IsKnown-other max t t' d same h = record {
  inside = h.inside;
  past = omega (arith, ap (λ x. x.seq) same, h.past);
  present = λ now. ap (λ x. x.poller) same ∙ h.present (now ∙ ap (λ x. x.seq) same);
}

-- A slot whose number goes up.
pub IsKnown-raise :
    (max : ℕ) (t : ℕ → Slot) (i : ℕ) (s : Slot) (d : Told)
    → s.seq ≡ (t i).seq + 1
    → IsKnown max t d
    → IsKnown max (write t i s) d
IsKnown-raise max t i s d up h =
    let j : ℕ = data_slot d.event_id in
    elim (eq_or_ne j i) [
      | inl e ↦
          let same : write t i s j ≡ s = ap (write t i s) e ∙ write_same t i s in
          let was : (t j).seq ≡ (t i).seq = ap (λ k. (t k).seq) e in
          record {
            inside = h.inside;
            past = omega (arith, ap (λ x. x.seq) same, was, up, h.past);
            present = λ now. absurd (omega (arith, now, ap (λ x. x.seq) same, was, up, h.past));
          }
      | inr n ↦ IsKnown-other max t (write t i s) d (write_other t i s j n) h
    ]

-- A free slot that is taken keeps its number.
pub IsKnown-take :
    (max : ℕ) (t : ℕ → Slot) (i : ℕ) (s : Slot) (d : Told)
    → s.seq ≡ (t i).seq
    → (t i).poller ≡ none
    → IsKnown max t d
    → IsKnown max (write t i s) d
IsKnown-take max t i s d kept was_free h =
    let j : ℕ = data_slot d.event_id in
    elim (eq_or_ne j i) [
      | inl e ↦
          let same : write t i s j ≡ s = ap (write t i s) e ∙ write_same t i s in
          let was : (t j).seq ≡ (t i).seq = ap (λ k. (t k).seq) e in
          record {
            inside = h.inside;
            past = omega (arith, ap (λ x. x.seq) same, was, kept, h.past);
            present = λ now. absurd (
                some-ne-none (
                  sym (h.present (now ∙ ap (λ x. x.seq) same ∙ kept ∙ sym was))
                  ∙ ap (λ k. (t k).poller) e
                  ∙ was_free));
          }
      | inr n ↦ IsKnown-other max t (write t i s) d (write_other t i s j n) h
    ]

-- What an object tells of its slot under the slot's number.
pub IsKnown-event_data :
    (max : ℕ) (t : ℕ → Slot) (i o : ℕ)
    → i < max
    → max ≤ 2 ^ 31
    → (t i).seq < 2 ^ 32
    → (t i).poller ≡ some o
    → IsKnown max t (record { event_id = event_data (t i).seq i; object = o })
IsKnown-event_data max t i o inside small low held =
    let slot : data_slot (event_data (t i).seq i) ≡ i = omega arith in
    let seq : data_seq (event_data (t i).seq i) ≡ (t i).seq = omega arith in
    record {
      inside = omega arith;
      past = omega (arith, seq, ap (λ k. (t k).seq) slot);
      present = λ now. ap (λ k. (t k).poller) slot ∙ held;
    }
