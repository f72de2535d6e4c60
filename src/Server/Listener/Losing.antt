-- ===== src/Server/Listener/Losing.antt =====
-- What becomes of `CListener::InputNotify` when `accept` is interrupted, or fails for good.
use order_sync.Base.{
  ℕ, zero, suc, ◌+◌, ◌<◌, ◌≡◌, refl, ap, ◌∙◌, List, [], ◌∷◌, ◌++◌, none, some, true, arith, length,
  replicate, map, All, leb, lt→not_leb, take_all, append_assoc, length-append, map-append, drop_all,
  if◌then◌else◌,
}
use order_sync.Server.Listener.{
  Accept, interrupted, again, Made, attached, Listener, accept_from, accept_one, next, proc_accept,
  proc_request, requests_from, input_notify,
}
use order_sync.Server.Listener.Batch.{counts, entry_of, fds_of, opened_by}
use order_sync.Server.Listener.Accepting.{batch, requests, turn}

-- An interrupted call fills no entry, and counts none.
skipped :
    (n : ℕ) (answers : List Accept) (l : Listener)
    → l.answers ≡ interrupted ∷ answers
    → accept_from (suc n) 0 l ≡ accept_from n 1 (record l { answers = answers })
unfolding accept_from accept_one next
skipped n answers l e = ground (arith, e)

module _ (made_of : ℕ → Made) where
  -- Where the first `accept` is interrupted, and those after it, fewer than the rest of the batch, all
  -- give descriptors or count as failed before EAGAIN, and the decoders are made and attached:
  -- `InputNotify` ends, all descriptors are open, but the last of these answers is passed over, and the
  -- connection of its descriptor is never made.
  pub input_notify_loses :
      (accept_cnt fuel : ℕ) (answers : List Accept) (a : Accept) (l : Listener)
      → ((fd : ℕ) → made_of fd ≡ attached)
      → All (λ x. counts x ≡ true) (answers ++ (a ∷ []))
      → l.answers ≡ interrupted ∷ (answers ++ (a ∷ []))
      → l.always ≡ again
      → length answers + 2 < accept_cnt
      → (v : Listener) × (input_notify made_of accept_cnt (suc fuel) l ≡ some (true, v))
        × (v.connections ≡ l.connections ++ fds_of answers)
        × (v.opened ≡ opened_by (answers ++ (a ∷ [])) l.opened)
        × (v.answers ≡ [])
  unfolding proc_accept proc_request
  input_notify_loses zero fuel answers a l good cs e last room = absurd (omega arith)
  input_notify_loses (suc n) fuel answers a l good cs e last room =
      let all : List Accept = answers ++ (a ∷ []) in
      let start : Listener = record l { fd_array = replicate (suc n) none; newfd_cnt = 0 } in
      let size : length all ≡ length answers + 1 = length-append answers (a ∷ []) in
      let (v, done, (rest, array), count, opened, connections, left, always) =
        batch n 1 all (none ∷ []) (record start { answers = all }) cs refl last refl refl in
      let fits = take_all n all (omega arith) in
      let u : Listener = record v {
        connections = v.connections ++ fds_of (interrupted ∷ answers);
      } in
      let array' : v.fd_array
          ≡ ([] ++ map entry_of (interrupted ∷ answers)) ++ (entry_of a ∷ rest) =
        array
        ∙ ap (λ c. ((none ∷ []) ++ map entry_of c) ++ rest) fits
        ∙ ap (λ c. (none ∷ c) ++ rest) (map-append entry_of answers (a ∷ []))
        ∙ ap (◌∷◌ none) (append_assoc (map entry_of answers) (entry_of a ∷ []) rest) in
      let counted : v.newfd_cnt ≡ length (interrupted ∷ answers) =
        omega (arith, count, ap length fits, size) in
      let served : proc_request made_of v ≡ some u =
        ap (λ k. requests_from made_of k 0 v) counted
        ∙ requests made_of (interrupted ∷ answers) 0 [] (entry_of a ∷ rest) v good refl array' in
      (
        u,
        turn made_of (suc n) fuel (leb n (length all)) l v u (skipped n all start e ∙ done)
              (omega (arith, counted)) served
            ∙ ap (λ b. if b then input_notify made_of (suc n) fuel u else some (true, u))
                (lt→not_leb n (length all) (omega (arith, size))),
        ap (λ c. c ++ fds_of answers) connections,
        opened ∙ ap (λ c. opened_by c l.opened) fits,
        left ∙ drop_all n all (omega (arith, size)),
      )
