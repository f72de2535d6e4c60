-- ===== src/Server/Listener.antt =====
-- `CListener` (OrderSyncServer/src/proxy/listener.cpp): it accepts connections in batches, and makes
-- a `CDecoderUnit` of each. What `accept` answers is a list, and one answer for ever after it; what
-- comes of the new objects is a function of the descriptor. `none` is an access through NULL.
pub mod Batch
pub mod Accepting
pub mod Losing
use order_sync.Base.{
  ℕ, zero, suc, ◌+◌, List, [], ◌∷◌, ◌++◌, Option, none, some, Bool, true, false, replicate, ◌==◌,
  if◌then◌else◌, ◌>>=◌,
}
use order_sync.Server.Net.{close}

-- The answers of `accept`: a descriptor, or EINTR, EAGAIN or another error.
pub data Accept : Type 0 where
  accepted : ℕ → Accept
  interrupted again broken : Accept

-- `create_decoderunit` gives no object; `listener_input` fails; or all is well.
pub data Made : Type 0 where
  no_object not_attached attached : Made

pub record Listener : Type 0 where
  -- `_fd_array`, where nothing stands for -1, and `_newfd_cnt`
  pub fd_array : List (Option ℕ)
  pub newfd_cnt : ℕ
  -- the connections made, and all descriptors that are open
  pub connections : List ℕ
  pub opened : List ℕ
  -- what `accept` will answer
  pub answers : List Accept
  pub always : Accept

unfoldable pub set : ℕ → Option ℕ → List (Option ℕ) → List (Option ℕ)
set i fd [] = []
set zero fd (x ∷ xs) = fd ∷ xs
set (suc i) fd (x ∷ xs) = x ∷ set i fd xs

unfoldable pub entry : ℕ → List (Option ℕ) → Option ℕ
entry i [] = none
entry zero (x ∷ xs) = x
entry (suc i) (x ∷ xs) = entry i xs

-- The next answer, and what is left of the answers.
next : List Accept → Accept → Accept × List Accept
next [] always = (always, [])
next (a ∷ later) always = (a, later)

unfoldable pub store_fd : ℕ → Option ℕ → Listener → Listener
unfolding set
store_fd i fd l = record l { fd_array = set i fd l.fd_array; newfd_cnt = l.newfd_cnt + 1 }

-- One turn of the loop of `proc_accept`; false if it returns -1.
accept_one : Accept → ℕ → Listener → Bool × Listener
unfolding store_fd
accept_one (accepted fd) i l = (true, store_fd i (some fd) (record l { opened = fd ∷ l.opened }))
accept_one interrupted i l = (true, l)
accept_one again i l = (false, l)
accept_one broken i l = (true, store_fd i none l)

unfoldable pub accept_from : ℕ → ℕ → Listener → Bool × Listener
unfolding next accept_one
accept_from zero i l = (true, l)
accept_from (suc n) i l =
    let (a, rest) = next l.answers l.always in
    let (more, v) = accept_one a i (record l { answers = rest }) in
    let on = accept_from n (i + 1) v in if more then on else (false, v)

unfoldable pub proc_accept : ℕ → Listener → Bool × Listener
proc_accept accept_cnt l =
    accept_from accept_cnt 0 (record l { fd_array = replicate accept_cnt none; newfd_cnt = 0 })

module _ (made_of : ℕ → Made) where
  -- What `proc_request` does with a descriptor. Where `listener_input` fails the decoder is deleted,
  -- and then asked for its web unit.
  serve_made : Made → ℕ → ℕ → Listener → Option Listener
  serve_made no_object i fd l =
      some (record l { opened = close fd l.opened; fd_array = set i none l.fd_array })
  serve_made not_attached i fd l = none
  serve_made attached i fd l = some (record l { connections = l.connections ++ (fd ∷ []) })

  serve_entry : Option ℕ → ℕ → Listener → Option Listener
  unfolding serve_made
  serve_entry none i l = some l
  serve_entry (some fd) i l = serve_made (made_of fd) i fd l

  unfoldable pub requests_from : ℕ → ℕ → Listener → Option Listener
  unfolding serve_entry entry
  requests_from zero i l = some l
  requests_from (suc n) i l = do v ← serve_entry (entry i l.fd_array) i l; requests_from n (i + 1) v

  unfoldable pub proc_request : Listener → Option Listener
  proc_request l = requests_from l.newfd_cnt 0 l

  -- The loop of `InputNotify`; false if it has not come to its end in so many turns.
  unfoldable pub input_notify : ℕ → ℕ → Listener → Option (Bool × Listener)
  unfolding proc_accept proc_request
  input_notify accept_cnt zero l = some (false, l)
  input_notify accept_cnt (suc fuel) l =
      let (more, v) = proc_accept accept_cnt l in
      if v.newfd_cnt == 0
      then some (true, v)
      else do u ← proc_request v; if more then input_notify accept_cnt fuel u else some (true, u)
