-- ===== src/Auth/Users.antt =====
-- The account routes of porpulsion/routes/auth.py: signup, users_add, users_edit and users_remove. The
-- CSRF guard has passed before. `readable` is whether the Secret of the accounts can be read, `writable`
-- whether it can be written.
use porpulsion.Prelude.{
  String, Bool, true, false, not, ◌&&◌, ◌||◌, Option, none, some, [], ◌∷◌, Dict, lookup, contains,
  insert, erase, ◌==◌, length, ltb, leb, if◌then◌else◌,
}
use porpulsion.Prelude.Text.{is_empty, strip, text_length}
use porpulsion.Auth.{Passwords, Session, Site, Reply, page, to_endpoint, cluster_unreachable}

-- the form of a new account
pub record NewUser : Type 0 where
  pub username : String
  pub password : String
  pub confirm : String
  pub salt : String

pub record EditUser : Type 0 where
  pub original_username : String
  pub username : String
  pub password : String
  pub confirm : String
  pub salt : String

abbrev pub has_users : Dict String → Bool
has_users [] = false
has_users (u ∷ us) = true

abbrev pub exists_already : Option String
exists_already = some "Username already exists."

-- the checks of `signup`, in its order; the name is stripped
unfoldable pub signup_error : (name : String) → NewUser → Dict String → Option String
signup_error name form users =
    if is_empty name
    then some "Username is required."
    else if is_empty form.password
    then some "Password is required."
    else if not (form.password == form.confirm)
    then some "Passwords do not match."
    else if ltb (text_length form.password) 8
    then some "Password must be at least 8 characters."
    else if contains name users
    then exists_already
    else none

-- the checks of `users_add`
unfoldable pub add_error : (name : String) → NewUser → Dict String → Option String
add_error name form users =
    if is_empty name
    then some "Username is required."
    else if ltb (text_length form.password) 8
    then some "Password must be at least 8 characters."
    else if not (form.password == form.confirm)
    then some "Passwords do not match."
    else if contains name users
    then exists_already
    else none

-- the checks of `users_edit`
unfoldable pub edit_error : (original name : String) → EditUser → Dict String → Option String
edit_error original name form users =
    if is_empty name
    then some "Username is required."
    else if not (name == original) && contains name users
    then exists_already
    else if not (is_empty form.password) && ltb (text_length form.password) 8
    then some "Password must be at least 8 characters."
    else if not (is_empty form.password) && not (form.password == form.confirm)
    then some "Passwords do not match."
    else none

-- what a request leaves: its reply, its session and the site
abbrev pub Done : Type 0
Done = Reply × Session × Site

module _ (passwords : Passwords) (readable writable : Bool) where
  abbrev pub store_signup : (adding : Bool) (name : String) → NewUser → Session → Site → Done
  store_signup adding name form session site =
      let users = insert name (passwords.hash_password form.salt form.password) site.users in
      if not writable
      then (page (some "Could not save user - check cluster permissions."), session, site)
      else if adding
      then (to_endpoint "auth.users", session, record site { users = users })
      else (to_endpoint "ui.index", record session { user = name }, record site { users = users })

  abbrev pub signed_up :
      (adding : Bool) (name : String) → NewUser → Option String → Session → Site → Done
  signed_up adding name form (some error) session site = (page (some error), session, site)
  signed_up adding name form none session site = store_signup adding name form session site

  -- a POST to `signup`
  unfoldable pub signup : NewUser → Session → Site → Done
  signup form session site =
      let name = strip form.username in
      if not readable
      then (cluster_unreachable, session, site)
      else if has_users site.users && is_empty session.user
      then (to_endpoint "auth.login", session, site)
      else signed_up (has_users site.users) name form (signup_error name form site.users) session
          site

  -- a failed write is logged and no more
  abbrev pub added : (name : String) → NewUser → Option String → Session → Site → Done
  added name form (some error) session site = (page (some error), session, site)
  added name form none session site =
      let users = insert name (passwords.hash_password form.salt form.password) site.users in
      (to_endpoint "auth.users", session, if writable then record site { users = users } else site)

  unfoldable pub users_add : NewUser → Session → Site → Done
  users_add form session site =
      let name = strip form.username in
      if is_empty session.user
      then (to_endpoint "auth.login", session, site)
      else if not readable
      then (to_endpoint "auth.users", session, site)
      else added name form (add_error name form site.users) session site

  -- the entry moves to the end under its new name
  abbrev pub new_hash : EditUser → String → String
  new_hash form hash =
      if is_empty form.password then hash else passwords.hash_password form.salt form.password

  abbrev pub renamed : (original name : String) → Session → Session
  renamed original name session =
      if original == session.user && not (name == original)
      then record session { user = name }
      else session

  abbrev pub edited :
      (original name hash : String) → EditUser → Option String → Session → Site → Done
  edited original name hash form (some error) session site = (page (some error), session, site)
  edited original name hash form none session site =
      let users = insert name (new_hash form hash) (erase original site.users) in
      if writable
      then (to_endpoint "auth.users", renamed original name session, record site { users = users })
      else (page (some "Could not save - check cluster permissions."), session, site)

  abbrev pub edit_found :
      (original name : String) → EditUser → Option String → Session → Site → Done
  edit_found original name form none session site = (to_endpoint "auth.users", session, site)
  edit_found original name form (some hash) session site =
      edited original name hash form (edit_error original name form site.users) session site

  unfoldable pub users_edit : EditUser → Session → Site → Done
  users_edit form session site =
      let original = strip form.original_username in
      if is_empty session.user
      then (to_endpoint "auth.login", session, site)
      else if not readable || is_empty original
      then (to_endpoint "auth.users", session, site)
      else edit_found original (strip form.username) form (lookup original site.users) session site

  unfoldable pub users_remove : (username : String) → Session → Site → Done
  users_remove username session site =
      let target = strip username in
      if is_empty session.user
      then (to_endpoint "auth.login", session, site)
      else if not readable || is_empty target || target == session.user || leb (length site.users) 1
      then (to_endpoint "auth.users", session, site)
      else (
        to_endpoint "auth.users",
        session,
        if writable then record site { users = erase target site.users } else site,
      )

-- a request to one of these routes
pub data Request : Type 0 where
  sign_up add : NewUser → Request
  edit : EditUser → Request
  remove : String → Request

unfoldable pub handle : Passwords → (readable writable : Bool) → Request → Session → Site → Done
handle passwords readable writable (sign_up form) = signup passwords readable writable form
handle passwords readable writable (add form) = users_add passwords readable writable form
handle passwords readable writable (edit form) = users_edit passwords readable writable form
handle passwords readable writable (remove name) = users_remove passwords readable writable name
