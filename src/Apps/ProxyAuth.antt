-- ===== src/Apps/ProxyAuth.antt =====
-- The apps whose proxy asks for no login: `set_proxy_auth` and `delete_remoteapp` of
-- porpulsion/routes/workloads.py over the set `proxy_auth_disabled` of porpulsion/state.py, what
-- `save_state_configmap` writes of it, and its restoration in porpulsion/agent.py.
use porpulsion.Prelude.{
  ℕ, String, Bool, true, false, not, ◌≡◌, refl, sym, ap, ◌∙◌, ◌||◌, Option, none, some, List, [],
  ◌∷◌, erase, any, keep, ◌==◌, eq_iff, inl, inr, if◌then◌else◌, Bool-cases,
}
use porpulsion.Apps.{AppCr, Desk, Side, submitted_side, executing_side, get_cr_by_app_id}

-- `saved` is the key of the ConfigMap once the last write is done; a set is a list
pub record Gate : Type 0 where
  pub desk : Desk
  pub disabled : List String
  pub saved : List String

-- `x in s`, `s.add(x)` and `s.discard(x)`
abbrev pub in_set : String → List String → Bool
in_set x s = any (λ y. y == x) s

abbrev pub add_to : String → List String → List String
add_to x s = if in_set x s then s else x ∷ s

abbrev pub discard : String → List String → List String
discard x s = keep (λ y. not (y == x)) s

abbrev pub toggled : (app_id : String) (require_auth : Bool) → List String → List String
toggled app_id require_auth s = if require_auth then discard app_id s else add_to app_id s

abbrev saved_with : List String → Gate → Gate
saved_with s g = record g { disabled = s; saved = s }

abbrev set_at :
    (app_id : String) (require_auth : Bool) → Gate → Option (Side × String × AppCr) → ℕ × Gate
set_at app_id require_auth g none = (404, g)
set_at app_id require_auth g (some (executing_side, cr_name, cr)) = (404, g)
set_at app_id require_auth g (some (submitted_side, cr_name, cr)) =
    (200, saved_with (toggled app_id require_auth g.disabled) g)

-- with the code of the reply
unfoldable pub set_proxy_auth : (app_id : String) (require_auth : Bool) → Gate → ℕ × Gate
set_proxy_auth app_id require_auth g = set_at app_id require_auth g (get_cr_by_app_id app_id g.desk)

-- `answers` is whether the API deletes the resource
abbrev delete_at :
    (answers : Bool) (app_id : String) → Gate → Option (Side × String × AppCr) → ℕ × Gate
delete_at answers app_id g none = (404, g)
delete_at answers app_id g (some (submitted_side, cr_name, cr)) = (
  200,
  record g {
    desk = record (g.desk) {
      submitted = if answers then erase cr_name g.desk.submitted else g.desk.submitted;
    };
    disabled = discard app_id g.disabled;
  },
)
delete_at answers app_id g (some (executing_side, cr_name, cr)) = (
  200,
  record g {
    desk = record (g.desk) {
      executing = if answers then erase cr_name g.desk.executing else g.desk.executing;
    };
  },
)

unfoldable pub delete_remoteapp : (answers : Bool) (app_id : String) → Gate → ℕ × Gate
delete_remoteapp answers app_id g = delete_at answers app_id g (get_cr_by_app_id app_id g.desk)

abbrev pub add_all : List String → List String → List String
add_all [] s = s
add_all (x ∷ xs) s = add_to x (add_all xs s)

-- the set of a new process
unfoldable pub restore_proxy_auth : Gate → Gate
restore_proxy_auth g = record g { disabled = add_all g.saved [] }

-- other writers of the ConfigMap leave the key as it is; resources may change at any time
pub data Event : Type 0 where
  sets : (app_id : String) (require_auth : Bool) → Event
  deletes : (answers : Bool) (app_id : String) → Event
  resources : Desk → Event
  restarts : Event

unfoldable pub happen : Event → Gate → Gate
unfolding set_proxy_auth delete_remoteapp restore_proxy_auth
happen (sets app_id require_auth) g = (set_proxy_auth app_id require_auth g).1
happen (deletes answers app_id) g = (delete_remoteapp answers app_id g).1
happen (resources desk) g = record g { desk = desk }
happen restarts g = restore_proxy_auth g

abbrev pub history : List Event → Gate → Gate
history [] g = g
history (e ∷ es) g = history es (happen e g)

-- the app was asked to be deleted
abbrev pub is_deletion : (app_id : String) → Event → Bool
is_deletion app_id (deletes answers j) = j == app_id
is_deletion app_id (sets j require_auth) = false
is_deletion app_id (resources desk) = false
is_deletion app_id restarts = false

or-false : (a b : Bool) → a ≡ false → (a || b) ≡ b
or-false true b h = cc
or-false false b h = refl

in_set-discard :
    (x j : String) (s : List String) → (j == x) ≡ false → in_set x (discard j s) ≡ in_set x s
in_set-discard x j [] other = refl
in_set-discard x j (y ∷ s) other = elim (Bool-cases (y == j)) [
  | inl same ↦ rw same (
      in_set-discard x j s other
      ∙ sym (or-false (y == x) (in_set x s) (ap (λ k. k == x) ((eq_iff y j).0 same) ∙ other)))
  | inr apart ↦ rw apart (ap (λ b. (y == x) || b) (in_set-discard x j s other))
]

there-or :
    (x y : String) (s : List String) → in_set y s ≡ true → ((y == x) || in_set x s) ≡ in_set x s
there-or x y s there = elim (Bool-cases (y == x)) [
  | inl same ↦ rw same (sym (ap (λ k. in_set k s) (sym ((eq_iff y x).0 same)) ∙ there))
  | inr apart ↦ or-false (y == x) (in_set x s) apart
]

in_set-add_to : (x y : String) (s : List String) → in_set x (add_to y s) ≡ ((y == x) || in_set x s)
in_set-add_to x y s = elim (Bool-cases (in_set y s)) [
  | inl there ↦ rw there (sym (there-or x y s there))
  | inr new ↦ rw new refl
]

in_set-add_all : (x : String) (ys : List String) → in_set x (add_all ys []) ≡ in_set x ys
in_set-add_all x [] = refl
in_set-add_all x (y ∷ ys) =
    in_set-add_to x y (add_all ys []) ∙ ap (λ b. (y == x) || b) (in_set-add_all x ys)

abbrev Agrees : String → Gate → Type 0
Agrees x g = in_set x g.disabled ≡ in_set x g.saved

set_at-Agrees :
    (x j : String) (require_auth : Bool) (g : Gate) (r : Option (Side × String × AppCr))
    → Agrees x g
    → Agrees x (set_at j require_auth g r).1
set_at-Agrees x j require_auth g none agrees = agrees
set_at-Agrees x j require_auth g (some (submitted_side, cr_name, cr)) agrees = refl
set_at-Agrees x j require_auth g (some (executing_side, cr_name, cr)) agrees = agrees

delete_at-Agrees :
    (x j : String) (answers : Bool) (g : Gate) (r : Option (Side × String × AppCr))
    → (j == x) ≡ false
    → Agrees x g
    → Agrees x (delete_at answers j g r).1
delete_at-Agrees x j answers g none other agrees = agrees
delete_at-Agrees x j answers g (some (submitted_side, cr_name, cr)) other agrees =
    in_set-discard x j g.disabled other ∙ agrees
delete_at-Agrees x j answers g (some (executing_side, cr_name, cr)) other agrees = agrees

happen-Agrees :
    (x : String) (e : Event) (g : Gate)
    → is_deletion x e ≡ false
    → Agrees x g
    → Agrees x (happen e g)
unfolding happen
happen-Agrees x (sets j require_auth) g other agrees =
    set_at-Agrees x j require_auth g (get_cr_by_app_id j g.desk) agrees
happen-Agrees x (deletes answers j) g other agrees =
    delete_at-Agrees x j answers g (get_cr_by_app_id j g.desk) other agrees
happen-Agrees x (resources desk) g other agrees = agrees
happen-Agrees x restarts g other agrees = in_set-add_all x g.saved

-- no event asks to delete the app
abbrev pub NoDeletion : (app_id : String) → List Event → Type 0
NoDeletion x [] = Unit
NoDeletion x (e ∷ es) = (is_deletion x e ≡ false) × NoDeletion x es

history-Agrees :
    (x : String) (es : List Event) (g : Gate)
    → NoDeletion x es
    → Agrees x g
    → Agrees x (history es g)
history-Agrees x [] g none_deletes agrees = agrees
history-Agrees x (e ∷ es) g (other, none_deletes) agrees =
    history-Agrees x es (happen e g) none_deletes (happen-Agrees x e g other agrees)

abbrev pub fresh_gate : Desk → Gate
fresh_gate desk = record { desk = desk; disabled = []; saved = [] }

-- Whatever apps are given a login at their proxy or relieved of it, deleted and created, and however often
-- the agent restarts: another restart leaves an app open or guarded as it was, unless that app was asked
-- to be deleted.
pub restart_keeps_proxy_auth :
    (app_id : String) (es : List Event) (desk : Desk)
    → NoDeletion app_id es
    → let g = history es (fresh_gate desk) in
      in_set app_id (restore_proxy_auth g).disabled ≡ in_set app_id g.disabled
unfolding restore_proxy_auth
restart_keeps_proxy_auth app_id es desk none_deletes =
    let g = history es (fresh_gate desk) in
    in_set-add_all app_id g.saved
    ∙ sym (history-Agrees app_id es (fresh_gate desk) none_deletes refl)
