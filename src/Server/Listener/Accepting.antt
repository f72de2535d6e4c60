-- ===== src/Server/Listener/Accepting.antt =====
-- Every connection that `accept` gives gets its `CDecoderUnit`, if no call is interrupted.
use order_sync.Base.{
  ℕ, zero, suc, ◌+◌, ◌<◌, ◌≡◌, refl, sym, ap, ◌∙◌, List, [], ◌∷◌, ◌++◌, Option, none, some, Bool,
  true, arith, length, take, drop, replicate, map, All, leb, if◌then◌else◌, bind_some, append_assoc,
  append-nil, length-append, length-take, length-drop, take-append-drop, take_all, le_or_lt, le→leb,
  lt→not_leb, inl, inr, true-ne-false,
}
use order_sync.Server.Listener.{
  Accept, accepted, interrupted, again, broken, Made, attached, Listener, set, entry, accept_from,
  proc_accept, next, accept_one, store_fd, serve_made, serve_entry, requests_from, proc_request,
  input_notify,
}
use order_sync.Server.Listener.Batch.{
  counts, entry_of, fds_of, set-append, entry-append, add_fd, opened_by, opened_by-append, leb-suc,
}

-- One answer that counts.
one :
    (a : Accept) (later : List Accept) (i : ℕ) (before rest : List (Option ℕ)) (l : Listener)
    → counts a ≡ true
    → l.answers ≡ a ∷ later
    → i ≡ length before
    → l.fd_array ≡ before ++ (none ∷ rest)
    → (v : Listener) × ((n : ℕ) → accept_from (suc n) i l ≡ accept_from n (i + 1) v)
      × (v.fd_array ≡ (before ++ (entry_of a ∷ [])) ++ rest)
      × (v.newfd_cnt ≡ l.newfd_cnt + 1)
      × (v.opened ≡ add_fd (entry_of a) l.opened)
      × (v.connections ≡ l.connections)
      × (v.answers ≡ later)
      × (v.always ≡ l.always)
unfolding accept_from accept_one next store_fd
one (accepted fd) later i before rest l c e o held = (
  record l {
    answers = later;
    opened = fd ∷ l.opened;
    fd_array = set i (some fd) l.fd_array;
    newfd_cnt = l.newfd_cnt + 1;
  },
  λ n. ground (arith, e),
  ap (set i (some fd)) held ∙ set-append i before none (some fd) rest o,
  refl,
  refl,
  refl,
  refl,
  refl,
)
one broken later i before rest l c e o held = (
  record l { answers = later; fd_array = set i none l.fd_array; newfd_cnt = l.newfd_cnt + 1 },
  λ n. ground (arith, e),
  ap (set i none) held ∙ set-append i before none none rest o,
  refl,
  refl,
  refl,
  refl,
  refl,
)
one interrupted later i before rest l c e o held = absurd (true-ne-false (sym c))
one again later i before rest l c e o held = absurd (true-ne-false (sym c))

-- A batch: it is full exactly if there are as many answers.
pub batch :
    (n i : ℕ) (answers : List Accept) (before : List (Option ℕ)) (l : Listener)
    → All (λ a. counts a ≡ true) answers
    → l.answers ≡ answers
    → l.always ≡ again
    → i ≡ length before
    → l.fd_array ≡ before ++ replicate n none
    → (v : Listener) × (accept_from n i l ≡ (leb n (length answers), v))
      × ((rest : List (Option ℕ)) × (v.fd_array
            ≡ (before ++ map entry_of (take n answers)) ++ rest))
      × (v.newfd_cnt ≡ l.newfd_cnt + length (take n answers))
      × (v.opened ≡ opened_by (take n answers) l.opened)
      × (v.connections ≡ l.connections)
      × (v.answers ≡ drop n answers)
      × (v.always ≡ again)
unfolding accept_from accept_one next
batch zero i answers before l cs e last o held = (
  l,
  ground arith,
  ([], held ∙ ap (λ b. b ++ []) (sym (append-nil before))),
  omega arith,
  refl,
  refl,
  e,
  last,
)
batch (suc n) i [] before l cs e last o held = (
  record l { answers = [] },
  ground (arith, e, last),
  (replicate (suc n) none, held ∙ ap (λ b. b ++ replicate (suc n) none) (sym (append-nil before))),
  omega arith,
  refl,
  refl,
  refl,
  last,
)
batch (suc n) i (a ∷ later) before l cs e last o held =
    let (v, step, array, count, opened, connections, answers, always) =
      one a later i before (replicate n none) l cs.0 e o held in
    let (v', done, (rest, array'), count', opened', connections', answers', always') =
      batch n (i + 1) later (before ++ (entry_of a ∷ [])) v cs.1 answers (always ∙ last)
        (omega (arith, length-append before (entry_of a ∷ []))) array in
    (
      v',
      step n ∙ done ∙ ap (λ b. (b, v')) (leb-suc n (length later)),
      (
        rest,
        array'
            ∙ ap (λ b. b ++ rest)
                (append_assoc before (entry_of a ∷ []) (map entry_of (take n later))),
      ),
      omega arith,
      opened' ∙ ap (opened_by (take n later)) opened,
      connections' ∙ connections,
      answers',
      always',
    )

fds_of-append : (xs ys : List Accept) → fds_of (xs ++ ys) ≡ fds_of xs ++ fds_of ys
fds_of-append [] ys = refl
fds_of-append (accepted fd ∷ xs) ys = ap (◌∷◌ fd) (fds_of-append xs ys)
fds_of-append (interrupted ∷ xs) ys = fds_of-append xs ys
fds_of-append (again ∷ xs) ys = fds_of-append xs ys
fds_of-append (broken ∷ xs) ys = fds_of-append xs ys

All-drop :
    (n : ℕ) (xs : List Accept)
    → All (λ a. counts a ≡ true) xs
    → All (λ a. counts a ≡ true) (drop n xs)
All-drop zero xs h = h
All-drop (suc n) [] h = tt
All-drop (suc n) (x ∷ xs) h = All-drop n xs h.1

module _ (made_of : ℕ → Made) where
  served :
      (a : Accept) (i : ℕ) (l : Listener)
      → ((fd : ℕ) → made_of fd ≡ attached)
      → serve_entry made_of (entry_of a) i l
        ≡ some (record l { connections = l.connections ++ fds_of (a ∷ []) })
  unfolding serve_entry serve_made
  served (accepted fd) i l good = ground (arith, good fd)
  served interrupted i l good =
      ap (λ c. some (record l { connections = c })) (sym (append-nil l.connections))
  served again i l good =
      ap (λ c. some (record l { connections = c })) (sym (append-nil l.connections))
  served broken i l good =
      ap (λ c. some (record l { connections = c })) (sym (append-nil l.connections))

  -- The entries of a batch are served.
  pub requests :
      (batch₁ : List Accept) (i : ℕ) (before rest : List (Option ℕ)) (l : Listener)
      → ((fd : ℕ) → made_of fd ≡ attached)
      → i ≡ length before
      → l.fd_array ≡ (before ++ map entry_of batch₁) ++ rest
      → requests_from made_of (length batch₁) i l
        ≡ some (record l { connections = l.connections ++ fds_of batch₁ })
  unfolding requests_from
  requests [] i before rest l good o held =
      ap (λ c. some (record l { connections = c })) (sym (append-nil l.connections))
  requests (a ∷ later) i before rest l good o held =
      let split : l.fd_array ≡ before ++ (entry_of a ∷ (map entry_of later ++ rest)) =
        held ∙ append_assoc before (map entry_of (a ∷ later)) rest in
      let found : entry i l.fd_array ≡ entry_of a =
        ap (entry i) split ∙ entry-append i before (entry_of a) (map entry_of later ++ rest) o in
      let held' : l.fd_array ≡ ((before ++ (entry_of a ∷ [])) ++ map entry_of later) ++ rest =
        held
        ∙ ap (λ b. b ++ rest) (sym (append_assoc before (entry_of a ∷ []) (map entry_of later))) in
      let tail = fds_of-append (a ∷ []) later in
      bind_some _ (ap (λ x. serve_entry made_of x i l) found ∙ served a i l good) (
        requests later (i + 1) (before ++ (entry_of a ∷ [])) rest
          (record l { connections = l.connections ++ fds_of (a ∷ []) }) good
          (omega (arith, length-append before (entry_of a ∷ []))) held'
        ∙ ap (λ c. some (record l { connections = c }))
            (append_assoc l.connections (fds_of (a ∷ [])) (fds_of later)
              ∙ ap (λ c. l.connections ++ c) (sym tail)))

  -- A turn of `InputNotify` whose batch is not empty.
  pub turn :
      (accept_cnt fuel : ℕ) (more : Bool) (l v u : Listener)
      → proc_accept accept_cnt l ≡ (more, v)
      → 0 < v.newfd_cnt
      → proc_request made_of v ≡ some u
      → input_notify made_of accept_cnt (suc fuel) l
        ≡ (if more then input_notify made_of accept_cnt fuel u else some (true, u))
  unfolding input_notify
  turn accept_cnt fuel more l v u batched counted served₁ = ground (arith, batched, served₁)

  empty_turn :
      (accept_cnt fuel : ℕ) (more : Bool) (l v : Listener)
      → proc_accept accept_cnt l ≡ (more, v)
      → v.newfd_cnt ≡ 0
      → input_notify made_of accept_cnt (suc fuel) l ≡ some (true, v)
  unfolding input_notify
  empty_turn accept_cnt fuel more l v batched none_yet = ground (arith, batched)

  -- Where `accept` gives descriptors, or errors other than EINTR and EAGAIN, in any number and then
  -- EAGAIN, and the decoders are made and attached, `InputNotify` comes to its end, with one turn more
  -- than there are answers for fuel: each descriptor has become a connection, in the order of the
  -- answers, and is open, and no other has been opened or closed.
  pub input_notify_accepts :
      (accept_cnt fuel : ℕ) (answers : List Accept) (l : Listener)
      → ((fd : ℕ) → made_of fd ≡ attached)
      → All (λ a. counts a ≡ true) answers
      → l.answers ≡ answers
      → l.always ≡ again
      → 0 < accept_cnt
      → length answers < fuel
      → (v : Listener) × (input_notify made_of accept_cnt fuel l ≡ some (true, v))
        × (v.connections ≡ l.connections ++ fds_of answers)
        × (v.opened ≡ opened_by answers l.opened)
  unfolding proc_accept proc_request
  input_notify_accepts accept_cnt zero answers l good cs e last some_room enough =
      absurd (omega arith)
  input_notify_accepts accept_cnt (suc fuel) [] l good cs e last some_room enough =
      let (v, done, array, count, opened, connections, left, always) =
        batch accept_cnt 0 [] [] (record l { fd_array = replicate accept_cnt none; newfd_cnt = 0 })
          cs e last refl refl in
      (
        v,
        empty_turn accept_cnt fuel _ l v done
            (omega (arith, count, length-take accept_cnt (let n : List Accept = [] in n))),
        connections ∙ sym (append-nil l.connections),
        opened ∙ ap (λ c. opened_by c l.opened) (take_all accept_cnt [] (omega arith)),
      )
  input_notify_accepts accept_cnt (suc fuel) (a ∷ later) l good cs e last some_room enough =
      let answers : List Accept = a ∷ later in
      let (v, done, (rest, array), count, opened, connections, left, always) =
        batch accept_cnt 0 answers []
          (record l { fd_array = replicate accept_cnt none; newfd_cnt = 0 }) cs e last refl refl in
      let first : List Accept = take accept_cnt answers in
      let u : Listener = record v { connections = v.connections ++ fds_of first } in
      let size = length-take accept_cnt answers in
      let served₁ : proc_request made_of v ≡ some u =
        ap (λ n. requests_from made_of n 0 v) (count ∙ omega arith)
        ∙ requests first 0 [] rest v good refl array in
      let step =
        turn accept_cnt fuel (leb accept_cnt (length answers)) l v u done
          (omega (arith, count, size, some_room)) served₁ in
      elim (le_or_lt accept_cnt (length answers)) [
        | inl full ↦
            let (w, ended, conns, fds) =
              input_notify_accepts accept_cnt fuel (drop accept_cnt answers) u good
                (All-drop accept_cnt answers cs) left always some_room
                (omega (arith, length-drop accept_cnt answers, some_room)) in
            (
              w,
              step
                  ∙ ap (λ b. if b then input_notify made_of accept_cnt fuel u else some (true, u))
                      (le→leb accept_cnt (length answers) full)
                  ∙ ended,
              conns
                  ∙ ap (λ c. (c ++ fds_of first) ++ fds_of (drop accept_cnt answers)) connections
                  ∙ append_assoc l.connections (fds_of first) (fds_of (drop accept_cnt answers))
                  ∙ ap (λ c. l.connections ++ c)
                      (sym (fds_of-append first (drop accept_cnt answers))
                        ∙ ap fds_of (take-append-drop accept_cnt answers)),
              fds
                  ∙ ap (opened_by (drop accept_cnt answers)) opened
                  ∙ sym (opened_by-append first (drop accept_cnt answers) l.opened)
                  ∙ ap (λ c. opened_by c l.opened) (take-append-drop accept_cnt answers),
            )
        | inr short ↦ (
          u,
          step
              ∙ ap (λ b. if b then input_notify made_of accept_cnt fuel u else some (true, u))
                  (lt→not_leb accept_cnt (length answers) short),
          ap (λ c. c ++ fds_of first) connections
              ∙ ap (λ c. l.connections ++ fds_of c) (take_all accept_cnt answers (omega arith)),
          opened ∙ ap (λ c. opened_by c l.opened) (take_all accept_cnt answers (omega arith)),
        )
      ]
