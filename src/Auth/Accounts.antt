-- ===== src/Auth/Accounts.antt =====
-- What requests to the account routes can do.
use porpulsion.Prelude.{
  ◌+◌, ◌≤◌, ◌<◌, String, Bool, true, false, not, ◌&&◌, ◌||◌, ◌≡◌, refl, sym, Option, none, some,
  List, [], ◌∷◌, Dict, lookup, insert, erase, is_some, ◌==◌, eq_iff, length, leb, if◌then◌else◌,
  arith, IsDistinct, insert-IsDistinct, erase-IsDistinct, lookup-insert, lookup-erase, Bool-cases,
  inl, inr,
}
use porpulsion.Prelude.Text.{is_empty, strip}
use porpulsion.Auth.{Passwords, Session, Site}
use porpulsion.Auth.Users.{
  NewUser, EditUser, has_users, signup_error, add_error, edit_error, Done, signed_up, signup, added,
  users_add, edited, edit_found, users_edit, users_remove, Request, sign_up, add, edit, remove,
  handle,
}

module _ (passwords : Passwords) (readable writable : Bool) where
  -- Once there is an account, a visitor without a session changes no account and gets no session, by any
  -- of the routes.
  pub anonymous_changes_nothing :
      (req : Request) (session : Session) (site : Site)
      → has_users site.users ≡ true
      → is_empty session.user ≡ true
      → let (reply, session', site') = handle passwords readable writable req session site in
        (session' ≡ session) × (site' ≡ site)
  unfolding handle signup users_add users_edit users_remove
  anonymous_changes_nothing (sign_up form) session site some_user nobody =
      rw (some_user, nobody)
        (elim (Bool-cases readable) [ inl r ↦ rw r (refl, refl) | inr r ↦ rw r (refl, refl) ])
  anonymous_changes_nothing (add form) session site some_user nobody = rw nobody (refl, refl)
  anonymous_changes_nothing (edit form) session site some_user nobody = rw nobody (refl, refl)
  anonymous_changes_nothing (remove name) session site some_user nobody = rw nobody (refl, refl)

-- the accounts can still be told apart, and there is one at least
abbrev pub Kept : Dict String → Type 0
Kept users = IsDistinct users × (1 ≤ length users)

length-insert : (k v : String) (d : Dict String) → (1 ≤ length (insert k v d))
unfolding insert
length-insert k v [] = omega arith
length-insert k v ((j, w) ∷ d) = ground arith

length-insert-le : (k v : String) (d : Dict String) → length d ≤ length (insert k v d)
unfolding insert
length-insert-le k v [] = omega arith
length-insert-le k v ((j, w) ∷ d) = ground (arith, length-insert-le k v d)

erase-absent : (k : String) (d : Dict String) → is_some (lookup k d) ≡ false → erase k d ≡ d
unfolding lookup erase
erase-absent k [] h = refl
erase-absent k ((j, w) ∷ d) h = ground (arith, erase-absent k d)

length-erase : (k : String) (d : Dict String) → IsDistinct d → length d ≤ length (erase k d) + 1
unfolding erase
length-erase k [] u = omega arith
length-erase k ((j, w) ∷ d) (u, us) = elim (Bool-cases (j == k)) [
  | inl same ↦ rw (same, erase-absent k d (rw (sym ((eq_iff j k).0 same)) u)) (omega arith)
  | inr other ↦ rw other (omega (arith, length-erase k d us))
]

-- the change that a request may make has the property
abbrev pub Effect : (Dict String → Type 0) → Request → Dict String → Type 0
Effect P (sign_up form) users = (hash : String) → P (insert (strip form.username) hash users)
Effect P (add form) users = (hash : String) → P (insert (strip form.username) hash users)
Effect P (edit form) users =
    (hash : String)
    → P (insert (strip form.username) hash (erase (strip form.original_username) users))
Effect P (remove name) users = 1 < length users → P (erase (strip name) users)

-- what a request leaves of the accounts, by a property of them
module _ (P : Dict String → Type 0) (passwords : Passwords) (readable writable : Bool) where
  abbrev Leaves : Done → Type 0
  Leaves d = P d.2.users

  if-Leaves : (b : Bool) (x y : Done) → Leaves x → Leaves y → Leaves (if b then x else y)
  if-Leaves true x y hx hy = hx
  if-Leaves false x y hx hy = hy

  written-users :
      (site : Site) (users : Dict String)
      → P site.users
      → P users
      → P (if writable then record site { users = users } else site).users
  written-users site users h h' = elim (Bool-cases writable) [ inl w ↦ rw w h' | inr w ↦ rw w h ]

  signed_up-Leaves :
      (adding : Bool) (form : NewUser) (e : Option String) (session : Session) (site : Site)
      → Effect P (sign_up form) site.users
      → P site.users
      → Leaves
          (signed_up passwords readable writable adding (strip form.username) form e session site)
  signed_up-Leaves adding form (some e) session site f h = h
  signed_up-Leaves adding form none session site f h = elim (Bool-cases writable) [
    | inl w ↦ rw w (if-Leaves adding _ _ (f _) (f _))
    | inr w ↦ rw w h
  ]

  added-Leaves :
      (form : NewUser) (e : Option String) (session : Session) (site : Site)
      → Effect P (add form) site.users
      → P site.users
      → Leaves (added passwords readable writable (strip form.username) form e session site)
  added-Leaves form (some e) session site f h = h
  added-Leaves form none session site f h = written-users site _ h (f _)

  edit_found-Leaves :
      (form : EditUser) (o : Option String) (session : Session) (site : Site)
      → Effect P (edit form) site.users
      → P site.users
      → Leaves (
          edit_found passwords readable writable
            (strip form.original_username)
            (strip form.username)
            form
            o
            session
            site)
  edit_found-Leaves form none session site f h = h
  edit_found-Leaves form (some hash) session site f h =
      checked (edit_error (strip form.original_username) (strip form.username) form site.users)
    where
      checked :
          (e : Option String)
          → Leaves (
              edited passwords readable writable
                (strip form.original_username)
                (strip form.username)
                hash
                form
                e
                session
                site)
      checked (some e) = h
      checked none = if-Leaves writable _ _ (f _) h

  abbrev stays_put : String → Session → Site → Bool
  stays_put target session site =
      not readable || is_empty target || target == session.user || leb (length site.users) 1

  -- a request keeps a property that its change of the accounts has
  handle-Leaves :
      (req : Request) (session : Session) (site : Site)
      → Effect P req site.users
      → P site.users
      → Leaves (handle passwords readable writable req session site)
  unfolding handle signup users_add users_edit users_remove
  handle-Leaves (sign_up form) session site f h = if-Leaves (not readable) _ _ h (
      if-Leaves (has_users site.users && is_empty session.user) _ _ h (
        signed_up-Leaves (has_users site.users) form
          (signup_error (strip form.username) form site.users) session site f h))
  handle-Leaves (add form) session site f h = if-Leaves (is_empty session.user) _ _ h (
      if-Leaves (not readable) _ _ h
        (added-Leaves form (add_error (strip form.username) form site.users) session site f h))
  handle-Leaves (edit form) session site f h = if-Leaves (is_empty session.user) _ _ h (
      if-Leaves (not readable || is_empty (strip form.original_username)) _ _ h (
        edit_found-Leaves form (lookup (strip form.original_username) site.users) session site f h))
  handle-Leaves (remove name) session site f h =
      if-Leaves (is_empty session.user) _ _ h
        (elim (Bool-cases (stays_put (strip name) session site)) [
          | inl stop ↦ rw stop h
          | inr go ↦ rw go (written-users site _ h (f (more go)))
        ])
    where
      more : stays_put (strip name) session site ≡ false → 1 < length site.users
      more go = ground arith

-- a request to an account route, with its session and whether the Secret can be read and written
pub record Visit : Type 0 where
  pub readable : Bool
  pub writable : Bool
  pub request : Request
  pub session : Session

unfoldable pub visits : Passwords → List Visit → Site → Site
visits passwords [] site = site
visits passwords (v ∷ vs) site =
    visits passwords vs (handle passwords v.readable v.writable v.request v.session site).2

insert-Kept : (k v : String) (d : Dict String) → IsDistinct d → Kept (insert k v d)
insert-Kept k v d u = (insert-IsDistinct k v d u, length-insert k v d)

Kept-Effect : (req : Request) (users : Dict String) → Kept users → Effect Kept req users
Kept-Effect (sign_up form) users (u, n) = λ hash. insert-Kept _ hash users u
Kept-Effect (add form) users (u, n) = λ hash. insert-Kept _ hash users u
Kept-Effect (edit form) users (u, n) =
    λ hash. insert-Kept _ hash _ (erase-IsDistinct (strip form.original_username) users u)
Kept-Effect (remove name) users (u, n) = λ more.
    (erase-IsDistinct (strip name) users u, omega (arith, length-erase (strip name) users u))

-- Whatever is asked of the account routes, by whomever and in whatever order, an account is left once
-- there is one, so that signing up without a session does not open again; and no name stands twice.
pub visits-Kept :
    (passwords : Passwords) (vs : List Visit) (site : Site)
    → Kept site.users
    → Kept (visits passwords vs site).users
unfolding visits
visits-Kept passwords [] site k = k
visits-Kept passwords (v ∷ vs) site k =
    visits-Kept passwords vs (handle passwords v.readable v.writable v.request v.session site).2 (
      handle-Leaves Kept passwords v.readable v.writable v.request v.session site
        (Kept-Effect v.request site.users k) k)

-- the names that a request may change
abbrev pub touches : Request → String → Bool
touches (sign_up form) j = strip form.username == j
touches (add form) j = strip form.username == j
touches (edit form) j = strip form.original_username == j || strip form.username == j
touches (remove name) j = strip name == j

Same-Effect :
    (j : String) (req : Request) (users : Dict String)
    → touches req j ≡ false
    → Effect (λ d. lookup j d ≡ lookup j users) req users
Same-Effect j (sign_up form) users t = λ hash. rw (lookup-insert, t) refl
Same-Effect j (add form) users t = λ hash. rw (lookup-insert, t) refl
Same-Effect j (edit form) users t = λ hash. rw (lookup-insert, lookup-erase) (ground arith)
Same-Effect j (remove name) users t = λ more. rw (lookup-erase, t) refl

-- A request changes no account but those that it names: every other keeps its password.
pub others_keep_password :
    (passwords : Passwords) (readable writable : Bool) (req : Request) (session : Session)
    (site : Site) (j : String)
    → touches req j ≡ false
    → lookup j (handle passwords readable writable req session site).2.users ≡ lookup j site.users
others_keep_password passwords readable writable req session site j t =
    handle-Leaves (λ d. lookup j d ≡ lookup j site.users) passwords readable writable req session
      site (Same-Effect j req site.users t) refl
