-- ===== src/Executor/Relay.antt =====
-- The output of the shells: the calls that the read loop of porpulsion/k8s/executor.py makes, and the
-- queues of porpulsion/channel_handlers.py that browsers wait on. Between the two, a push that fails is
-- lost, and the pool of the channel handles pushes in any order: what arrives is any list.
use porpulsion.Prelude.{
  String, Bool, true, false, not, ◌&&◌, ◌≡◌, refl, sym, ap, ◌∙◌, Option, none, some, List, [], ◌∷◌,
  ◌++◌, keep, map, ◌==◌, if◌then◌else◌, Bool-cases, inl, inr,
}
use porpulsion.Prelude.Text.{is_empty}
use mathlib.Core.List.{append-nil, append_assoc}

-- `_exec_stdout_queues`: the queue of one browser, with what was put into it; `none` is the end
pub record Queue : Type 0 where
  pub app_id : String
  pub session_id : String
  pub items : List (Option String)

abbrev pub is_for : (app_id session_id : String) → Queue → Bool
is_for app_id session_id q = q.app_id == app_id && q.session_id == session_id

unfoldable pub unregister_exec_stdout_queue : (app_id session_id : String) → List Queue → List Queue
unregister_exec_stdout_queue app_id session_id qs = keep (λ q. not (is_for app_id session_id q)) qs

unfoldable pub register_exec_stdout_queue : (app_id session_id : String) → List Queue → List Queue
unfolding unregister_exec_stdout_queue
register_exec_stdout_queue app_id session_id qs =
    record { app_id = app_id; session_id = session_id; items = [] }
    ∷ unregister_exec_stdout_queue app_id session_id qs

abbrev pub extend : Bool → List (Option String) → Queue → Queue
extend true xs q = record q { items = q.items ++ xs }
extend false xs q = q

-- keys are unique, so at most one queue takes the item
unfoldable pub handle_remoteapp_exec_stdout :
    (app_id session_id : String) → Option String → List Queue → List Queue
handle_remoteapp_exec_stdout app_id session_id item qs =
    map (λ q. extend (is_for app_id session_id q) (item ∷ []) q) qs

-- a round of `_read_loop`: what the channels 1 and 2 gave
pub record Chunk : Type 0 where
  pub out : String
  pub errors : String

abbrev pub non_empty : String → List (Option String) → List (Option String)
non_empty s rest = if is_empty s then rest else some s ∷ rest

-- the calls of `on_stdout` over the rounds until the loop ends, the last with `None`; an exception of a
-- call is swallowed, and its text is lost
unfoldable pub read_loop : List Chunk → List (Option String)
read_loop [] = none ∷ []
read_loop (c ∷ cs) = non_empty c.out (non_empty c.errors (read_loop cs))

-- a push as the pool takes it up
pub record Arrival : Type 0 where
  pub app_id : String
  pub session_id : String
  pub data_item : Option String

-- the handler takes the lock, so that the pushes come one after the other, in some order
unfoldable pub arrive : List Arrival → List Queue → List Queue
unfolding handle_remoteapp_exec_stdout
arrive [] qs = qs
arrive (a ∷ as_they_come) qs =
    arrive as_they_come (handle_remoteapp_exec_stdout a.app_id a.session_id a.data_item qs)

-- the items that arrive for one browser
abbrev pub items_for : (app_id session_id : String) → List Arrival → List (Option String)
items_for app_id session_id arrivals =
    map (λ a. a.data_item) (keep (λ a. app_id == a.app_id && session_id == a.session_id) arrivals)

abbrev pub with_items : List Arrival → Queue → Queue
with_items arrivals q = record q { items = q.items ++ items_for q.app_id q.session_id arrivals }

map-fuse {ℓ} :
    {A : Type ℓ} (f g h : A → A)
    → ((a : A) → f (g a) ≡ h a)
    → (xs : List A) → map f (map g xs) ≡ map h xs
map-fuse f g h e [] = refl
map-fuse f g h e (x ∷ xs) = cc (e x, map-fuse f g h e xs)

one_more :
    (a : Arrival) (rest : List Arrival) (q : Queue)
    → with_items rest (extend (is_for a.app_id a.session_id q) (a.data_item ∷ []) q)
      ≡ with_items (a ∷ rest) q
one_more a rest q = elim (Bool-cases (is_for a.app_id a.session_id q)) [
  | inl own ↦ rw own (
      ap (λ l. record q { items = l })
        (append_assoc q.items (a.data_item ∷ []) (items_for q.app_id q.session_id rest)))
  | inr other ↦ rw other refl
]

nothing_yet : (qs : List Queue) → map (with_items []) qs ≡ qs
nothing_yet [] = refl
nothing_yet (q ∷ qs) = cc (ap (λ l. record q { items = l }) (append-nil q.items), nothing_yet qs)

-- Whatever pushes arrive, of whichever sessions and in whichever order: the queue of each browser
-- gets those of its own app and session, in the order in which they are handled, none twice, and no
-- others.
pub queues_take_their_own :
    (arrivals : List Arrival) (qs : List Queue) → arrive arrivals qs ≡ map (with_items arrivals) qs
unfolding arrive
queues_take_their_own [] qs = sym (nothing_yet qs)
queues_take_their_own (a ∷ rest) qs =
    queues_take_their_own rest (handle_remoteapp_exec_stdout a.app_id a.session_id a.data_item qs)
    ∙ map-fuse (with_items rest) (λ q. extend (is_for a.app_id a.session_id q) (a.data_item ∷ []) q)
        (with_items (a ∷ rest)) (one_more a rest) qs

-- the output of the rounds, in order, the error channel after the other
abbrev pub texts : List Chunk → List String
texts [] = []
texts (c ∷ cs) = c.out ∷ c.errors ∷ texts cs

kept_one :
    (s : String) (rest : List String)
    → non_empty s (map some rest ++ none ∷ [])
      ≡ map some (if not (is_empty s) then s ∷ rest else rest) ++ none ∷ []
kept_one s rest = elim (Bool-cases (is_empty s)) [ inl empty ↦ rw empty | inr full ↦ rw full ]

kept :
    (s t : String) (rest : List String)
    → non_empty s (non_empty t (map some rest ++ none ∷ []))
      ≡ map some (
          if not (is_empty s)
          then s ∷ (if not (is_empty t) then t ∷ rest else rest)
          else if not (is_empty t)
          then t ∷ rest
          else rest)
        ++ none ∷ []
kept s t rest =
    ap (non_empty s) (kept_one t rest) ∙ kept_one s (if not (is_empty t) then t ∷ rest else rest)

-- the loop calls with everything that is not empty, in order, and then with the end
read_loop_lem :
    (cs : List Chunk)
    → read_loop cs ≡ map some (keep (λ s. not (is_empty s)) (texts cs)) ++ none ∷ []
unfolding read_loop
read_loop_lem [] = refl
read_loop_lem (c ∷ cs) =
    ap (λ l. non_empty c.out (non_empty c.errors l)) (read_loop_lem cs)
    ∙ kept c.out c.errors (keep (λ s. not (is_empty s)) (texts cs))
