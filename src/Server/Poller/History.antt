-- ===== src/Server/Poller/History.antt =====
-- What objects do to the poller's unit, one operation after the other.
use order_sync.Base.{
  some-inj, none-ne-some, true-ne-false, ℕ, suc, ◌+◌, ◌^◌, ◌≤◌, ◌<◌, ◌≡◌, inl, inr, refl, sym, ap,
  ◌∙◌, subst, Option, none, some, Bool, true, false, arith, if◌then◌else◌, Bool-cases, bind_inv,
}
use order_sync.Server.Poller.{
  PollerObject, PollerUnit, put_object, tell, same_mask, applied, apply_at, apply_events,
  alloc_slot, link, attach_at, attach_fd, attach_poller, detach_at, detach_poller, destroy_at,
  destroy, new, enable_input, enable_output, with_object, free_slot,
}
use order_sync.Server.Poller.Table.{write_same}
use order_sync.Server.Poller.Sound.{
  IsSound, IsSound_later, Keeps, slot_of, put_object-Keeps, tell-Keeps,
}
use order_sync.Server.Poller.Slots.{alloc_slot-Taken, linked, linked-Keeps, free_slot-Keeps}

pub Keeps_trans : (n m : ℕ) (u v w : PollerUnit) → Keeps n u v → Keeps m v w → Keeps m u w
Keeps_trans n m u v w h k = record { sound = k.sound; knows = λ d e. k.knows d (h.knows d e) }

pub Keeps_later : (n m : ℕ) (u v : PollerUnit) → n ≤ m → Keeps n u v → Keeps m u v
Keeps_later n m u v le h = record { sound = IsSound_later n m v le h.sound; knows = h.knows }

pub Keeps_refl : (n : ℕ) (u : PollerUnit) → IsSound n u → Keeps n u u
Keeps_refl n u h = record { sound = h; knows = λ d e. e }

module _ (n : ℕ) (u : PollerUnit) where
  -- Where an operation is no fault, it keeps the unit sound.
  IsGood : Option (Bool × PollerUnit) → Type 0
  IsGood r = (b : Bool) (v : PollerUnit) → r ≡ some (b, v) → Keeps (n + 1) u v

  IsGood-none : IsGood none
  unfolding IsGood
  IsGood-none b v e = cc

  IsGood-some : (b : Bool) (v : PollerUnit) → Keeps (n + 1) u v → IsGood (some (b, v))
  unfolding IsGood
  IsGood-some b v k b' v' e = subst (Keeps (n + 1) u) (ap (λ r. r.1) (some-inj e)) k

  IsGood-if :
      (b : Bool) (r s : Option (Bool × PollerUnit))
      → (b ≡ true → IsGood r)
      → (b ≡ false → IsGood s)
      → IsGood (if b then r else s)
  IsGood-if true r s h k = h refl
  IsGood-if false r s h k = k refl

  module _ (few : n + 1 < 2 ^ 32) where
    stays : IsSound n u → Keeps (n + 1) u u
    stays h = Keeps_refl (n + 1) u (IsSound_later n (n + 1) u (omega arith) h)

    apply_at-Good :
        (p : Option ℕ) (taken : Bool) (o : ℕ) (x : PollerObject)
        → u.objects o ≡ some x
        → x.epslot ≡ p
        → IsSound n u
        → IsGood (apply_at p taken o x u)
    unfolding apply_at tell
    apply_at-Good none taken o x there at h = IsGood-some true u (stays h)
    apply_at-Good (some i) taken o x there at h =
        let slot : slot_of (u.objects o) ≡ some i = ap slot_of there ∙ at in
        IsGood-if (same_mask x.old_events x.new_events) _ _ (λ _. IsGood-some true u (stays h))
          (λ _.
            IsGood-if x.owned _ _
              (λ owned.
                IsGood-if taken _ _
                  (λ _.
                    let k : Keeps (n + 1) u (tell true o i u) =
                      tell-Keeps n o i true u slot few h in
                    IsGood-some true _ (
                      Keeps_trans (n + 1) (n + 1) u (tell true o i u) _ k (
                        put_object-Keeps (n + 1) o (some (applied x)) (tell true o i u)
                          (sym (ap slot_of there)) (inr (applied x, refl, owned)) k.sound)))
                  (λ _. IsGood-some false _ (tell-Keeps n o i false u slot few h)))
              (λ _. IsGood-none))

    linked_told :
        (i o : ℕ) (y : PollerObject) (taken : Bool)
        → u.free_slot_list ≡ some i
        → slot_of (u.objects o) ≡ none
        → y.epslot ≡ some i
        → y.owned ≡ true
        → IsSound n u
        → Keeps (n + 1) u (tell taken o i (linked i o y (alloc_slot (some i) u).1))
    unfolding linked alloc_slot put_object
    linked_told i o y taken free without at owned h =
        let v : PollerUnit = (alloc_slot (some i) u).1 in
        let k : Keeps n u (linked i o y v) =
          linked-Keeps n i o y u v without at owned (alloc_slot-Taken n i u free h) in
        Keeps_trans n (n + 1) u (linked i o y v) (tell taken o i (linked i o y v)) k (
          tell-Keeps n o i taken (linked i o y v)
            (ap slot_of (write_same u.objects o (some y)) ∙ at) few k.sound)

    link-Good :
        (p : Option ℕ) (taken : Bool) (o : ℕ) (x : PollerObject)
        → u.objects o ≡ some x
        → x.epslot ≡ none
        → x.owned ≡ true
        → u.free_slot_list ≡ p
        → IsSound n u
        → IsGood (some (link taken o x (alloc_slot p u)))
    unfolding alloc_slot link linked
    link-Good none taken o x there at owned free h = IsGood-some false u (stays h)
    link-Good (some i) true o x there at owned free h = IsGood-some true _ (
        linked_told i o (applied (record x { epslot = some i })) true free (ap slot_of there ∙ at)
          refl owned h)
    link-Good (some i) false o x there at owned free h = IsGood-some false _ (
        linked_told i o (record x { epslot = some i }) false free (ap slot_of there ∙ at) refl owned
          h)

    attach_at-Good :
        (p : Option ℕ) (taken : Bool) (o : ℕ) (x : PollerObject)
        → u.objects o ≡ some x
        → x.epslot ≡ p
        → IsSound n u
        → IsGood (attach_at p taken o x u)
    unfolding attach_at
    attach_at-Good (some i) taken o x there at h = apply_at-Good (some i) taken o x there at h
    attach_at-Good none taken o x there at h =
        IsGood-if x.owned _ _ (λ owned. link-Good u.free_slot_list taken o x there at owned refl h)
          (λ _. IsGood-none)

    attach_fd-Good :
        (fd : Option ℕ) (taken : Bool) (o : ℕ) (x : PollerObject)
        → u.objects o ≡ some x
        → IsSound n u
        → IsGood (attach_fd fd taken o x u)
    unfolding attach_fd
    attach_fd-Good none taken o x there h = IsGood-some false u (stays h)
    attach_fd-Good (some fd) taken o x there h = attach_at-Good x.epslot taken o x there refl h

module _ (n : ℕ) (few : n + 1 < 2 ^ 32) (u : PollerUnit) (h : IsSound n u) where
  -- A new object, and one whose mask changes, at the place of one with the same slot.
  put_object-same :
      (o : ℕ) (x y : PollerObject)
      → u.objects o ≡ some x
      → y.epslot ≡ x.epslot
      → y.owned ≡ x.owned
      → Keeps n u (put_object o (some y) u)
  put_object-same o x y there slot own =
      put_object-Keeps n o (some y) u (slot ∙ sym (ap slot_of there))
        (elim (h.owned o) [
          | inl free ↦ inl (slot ∙ ap slot_of (sym there) ∙ free)
          | inr (z, at, owned) ↦
              inr (y, refl, own ∙ ap (λ a. a.owned) (some-inj (sym there ∙ at)) ∙ owned)
        ])
        h

  attach_poller-Good : (given taken : Bool) (o : ℕ) → IsGood n u (attach_poller given taken o u)
  unfolding attach_poller with_object IsGood put_object
  attach_poller-Good given taken o b v e =
      let (x, there, e₁) = bind_inv (u.objects o) _ _ e in
      let y : PollerObject = record x { owned = true } in
      let w : PollerUnit = put_object o (some y) u in
      let k : Keeps n u w =
        put_object-Keeps n o (some y) u (sym (ap slot_of there)) (inr (y, refl, refl)) h in
      IsGood-if n u given _ _
        (λ _.
          IsGood-if n u x.owned _ _ (λ _. IsGood-some n u false u (stays n u few h))
            (λ _ b' v' e'. Keeps_trans n (n + 1) u w v' k (
              attach_fd-Good n w few y.netfd taken o y (write_same u.objects o (some y)) k.sound b'
                v' e')))
        (λ _. attach_fd-Good n u few x.netfd taken o x there h) b v e₁

  pub apply_events-Keeps :
      (taken : Bool) (o : ℕ) (b : Bool) (v : PollerUnit)
      → apply_events taken o u ≡ some (b, v)
      → Keeps (n + 1) u v
  unfolding apply_events with_object IsGood
  apply_events-Keeps taken o b v e =
      let (x, there, e₁) = bind_inv (u.objects o) _ _ e in
      apply_at-Good n u few x.epslot taken o x there refl h b v e₁

  detach_at-Keeps :
      (p : Option ℕ) (taken : Bool) (o : ℕ) (x : PollerObject) (v : PollerUnit)
      → u.objects o ≡ some x
      → x.epslot ≡ p
      → detach_at p taken o x u ≡ some v
      → Keeps (n + 1) u v
  unfolding detach_at
  detach_at-Keeps none taken o x v there at e =
      subst (Keeps (n + 1) u) (some-inj e) (stays n u few h)
  detach_at-Keeps (some i) taken o x v there at e = elim (Bool-cases x.owned) [
    | inl owned ↦
        let y : PollerObject = record (if taken then applied x else x) { epslot = none } in
        let same : some (put_object o (some y) (free_slot i u)) ≡ some v =
          subst (λ a. (if a then some (put_object o (some y) (free_slot i u)) else none) ≡ some v)
            owned e in
        subst (Keeps (n + 1) u) (some-inj same)
          (free_slot-Keeps n i o (some y) u (ap slot_of there ∙ at) refl few h)
    | inr lost ↦
        let y : PollerObject = record (if taken then applied x else x) { epslot = none } in
        absurd (
          none-ne-some (
            subst (λ a. (if a then some (put_object o (some y) (free_slot i u)) else none) ≡ some v)
              lost e))
  ]

  detach_poller-Keeps :
      (taken : Bool) (o : ℕ) (v : PollerUnit) → detach_poller taken o u ≡ some v → Keeps (n + 1) u v
  unfolding detach_poller with_object
  detach_poller-Keeps taken o v e =
      let (x, there, e₁) = bind_inv (u.objects o) _ _ e in
      detach_at-Keeps x.epslot taken o x v there refl e₁

  destroy_at-Keeps :
      (p : Option ℕ) (owned : Bool) (o : ℕ) (x : PollerObject)
      → u.objects o ≡ some x
      → x.epslot ≡ p
      → x.owned ≡ owned
      → Keeps (n + 1) u (destroy_at p owned o u)
  unfolding destroy_at
  destroy_at-Keeps (some i) true o x there at own =
      free_slot-Keeps n i o none u (ap slot_of there ∙ at) refl few h
  destroy_at-Keeps (some i) false o x there at own = elim (h.owned o) [
    | inl free ↦ absurd (none-ne-some (sym free ∙ ap slot_of there ∙ at))
    | inr (y, is, owned) ↦
        absurd (true-ne-false (sym owned ∙ ap (λ a. a.owned) (some-inj (sym is ∙ there)) ∙ own))
  ]
  destroy_at-Keeps none owned o x there at own =
      Keeps_later n (n + 1) u _ (omega arith)
        (put_object-Keeps n o none u (sym (ap slot_of there ∙ at)) (inl refl) h)

  destroy-Keeps : (o : ℕ) (v : PollerUnit) → destroy o u ≡ some v → Keeps (n + 1) u v
  unfolding destroy with_object
  destroy-Keeps o v e =
      let (x, there, e₁) = bind_inv (u.objects o) _ _ e in
      subst (Keeps (n + 1) u) (some-inj e₁) (destroy_at-Keeps x.epslot x.owned o x there refl refl)

-- One operation of an object: it is made, changes its mask, or calls the poller. The kernel may
-- refuse each call.
pub data Step : PollerUnit → PollerUnit → Type 0 where
  made :
      {u : PollerUnit} (o : ℕ) (owned : Bool) (fd : Option ℕ)
      → u.objects o ≡ none
      → Step u (put_object o (some (new owned fd)) u)
  input_set :
      {u : PollerUnit} (o : ℕ) (x : PollerObject) (b : Bool)
      → u.objects o ≡ some x
      → Step u (put_object o (some (enable_input b x)) u)
  output_set :
      {u : PollerUnit} (o : ℕ) (x : PollerObject) (b : Bool)
      → u.objects o ≡ some x
      → Step u (put_object o (some (enable_output b x)) u)
  attached :
      {u v : PollerUnit} (given taken : Bool) (o : ℕ) (r : Bool)
      → attach_poller given taken o u ≡ some (r, v)
      → Step u v
  asked :
      {u v : PollerUnit} (taken : Bool) (o : ℕ) (r : Bool)
      → apply_events taken o u ≡ some (r, v)
      → Step u v
  detached : {u v : PollerUnit} (taken : Bool) (o : ℕ) → detach_poller taken o u ≡ some v → Step u v
  destroyed : {u v : PollerUnit} (o : ℕ) → destroy o u ≡ some v → Step u v

pub data Steps : ℕ → PollerUnit → PollerUnit → Type 0 where
  stay : {u : PollerUnit} → Steps 0 u u
  next : {n : ℕ} {u v w : PollerUnit} → Step u v → Steps n v w → Steps (suc n) u w

step-Keeps :
    (n : ℕ) (u v : PollerUnit) → n + 1 < 2 ^ 32 → IsSound n u → Step u v → Keeps (n + 1) u v
unfolding new IsGood
step-Keeps n u v few h (made o owned fd free) =
    Keeps_later n (n + 1) u _ (omega arith)
      (put_object-Keeps n o (some (new owned fd)) u (sym (ap slot_of free)) (inl refl) h)
step-Keeps n u v few h (input_set o x b there) =
    Keeps_later n (n + 1) u _ (omega arith)
      (put_object-same n few u h o x (enable_input b x) there refl refl)
step-Keeps n u v few h (output_set o x b there) =
    Keeps_later n (n + 1) u _ (omega arith)
      (put_object-same n few u h o x (enable_output b x) there refl refl)
step-Keeps n u v few h (attached given taken o r e) =
    attach_poller-Good n few u h given taken o r v e
step-Keeps n u v few h (asked taken o r e) = apply_events-Keeps n few u h taken o r v e
step-Keeps n u v few h (detached taken o e) = detach_poller-Keeps n few u h taken o v e
step-Keeps n u v few h (destroyed o e) = destroy-Keeps n few u h o v e

pub steps-Keeps :
    (n m : ℕ) (u v : PollerUnit) → n + m < 2 ^ 32 → IsSound n u → Steps m u v → Keeps (n + m) u v
steps-Keeps n m u v few h stay = Keeps_later n (n + m) u v (omega arith) (Keeps_refl n u h)
steps-Keeps n m u v few h (next {n = k} {v = w} s more) =
    let first : Keeps (n + 1) u w = step-Keeps n u w (omega (arith, few)) h s in
    Keeps_later (n + 1 + k) (n + m) u v (omega arith) (
      Keeps_trans (n + 1) (n + 1 + k) u w v first
        (steps-Keeps (n + 1) k w v (omega (arith, few)) first.sound more))
