-- ===== src/Kopf/Retries.antt =====
-- The attempts of kopf at a new RemoteApp: `on_remoteapp_created` of
-- porpulsion/k8s/kopf_handlers.py, called again after each `TemporaryError`.
use porpulsion.Prelude.{
  and-eq_true, String, Bool, true, false, not, ◌&&◌, ◌≡◌, refl, ap, subst, ◌∙◌, sym, Option, none,
  some, List, [], ◌∷◌, ◌++◌, lookup, lookup-insert_self, or_default, All, if◌then◌else◌,
  if-holds_by,
}
use porpulsion.Prelude.Text.{is_empty}
use porpulsion.Prelude.Exec.{Result, ok, err}
use porpulsion.Peers.{Peer, can_deploy}
use porpulsion.Kopf.{
  Outcome, finished, temporary, permanent, Sent, receive, spec_update, delete, Cr, Attempt,
  status_at, bootstrap_cr_status, log_call, is_rejection, answered, forwarded, with_id,
  on_remoteapp_created,
}

abbrev pub again : Outcome → Cr → Option Outcome × Cr → Option Outcome × Cr
again finished cr rest = (some finished, cr)
again (permanent m) cr rest = (some (permanent m), cr)
again (temporary m d) cr rest = rest

-- `none` while every attempt so far asked for another
unfoldable pub attempts : List Attempt → Cr → Option Outcome × Cr
attempts [] cr = (none, cr)
attempts (a ∷ rest) cr = let (o, cr') = on_remoteapp_created a cr in again o cr' (attempts rest cr')

abbrev pub app_of : Sent → String
app_of (receive peer app_id) = app_id
app_of (spec_update peer app_id) = app_id
app_of (delete peer app_id) = app_id

abbrev pub IsFor : String → Sent → Type 0
IsFor app_id s = app_of s ≡ app_id

-- an attempt that finds no peer, or one whose call fails otherwise than by a refusal
abbrev pub delayed_by : Option Peer → Result Unit → Bool
delayed_by none reply = true
delayed_by (some p) (ok _) = false
delayed_by (some p) (err e) = can_deploy p && not (is_rejection e)

abbrev pub IsDelayed : String → Attempt → Type 0
IsDelayed target a = delayed_by (lookup target a.peers) a.reply ≡ true

-- the resource has the id, and every call so far was made under it
pub record IsUnder (app_id target : String) (cr : Cr) : Type 0 where
  pub own_id : status_at "appId" cr ≡ app_id
  pub own_target : cr.target_peer ≡ target
  pub own_calls : All (IsFor app_id) cr.sent

abbrev IsTemporary : Outcome → Type 0
IsTemporary finished = ⊥
IsTemporary (permanent m) = ⊥
IsTemporary (temporary m d) = Unit

delayed-can_deploy :
    (p : Peer) (r : Result Unit) → delayed_by (some p) r ≡ true → can_deploy p ≡ true
delayed-can_deploy p (ok _) h = cc
delayed-can_deploy p (err e) h = (and-eq_true (can_deploy p) (not (is_rejection e)) h).0

not-both : (b : Bool) → b ≡ true → not b ≡ true → ⊥
not-both true h k = cc
not-both false h k = cc

module _ (app_id target : String) where
  abbrev Stays : Outcome × Cr → Type 0
  Stays (o, cr) = IsTemporary o × IsUnder app_id target cr

  answered-Stays :
      (a : Attempt) (p : Peer) (r : Result Unit) (cr : Cr)
      → delayed_by (some p) r ≡ true
      → IsUnder app_id target cr
      → Stays (answered a app_id r cr)
  answered-Stays a p (ok _) cr h u = cc
  answered-Stays a p (err e) cr h u =
      let refused = (and-eq_true (can_deploy p) (not (is_rejection e)) h).1 in
      if-holds_by (λ (x : Outcome × Cr). Stays x) (is_rejection e) _ _
        (λ listed. absurd (not-both (is_rejection e) listed refused)) (λ other. (tt, u))

  forwarded-Stays :
      (a : Attempt) (o : Option Peer) (cr : Cr)
      → delayed_by o a.reply ≡ true
      → IsUnder app_id target cr
      → Stays (forwarded a app_id o cr)
  forwarded-Stays a none cr h u = (tt, u)
  forwarded-Stays a (some p) cr h u = rw (delayed-can_deploy p a.reply h) (
      answered-Stays a p a.reply (log_call (receive p.name app_id) cr) h
        (record { own_id = u.own_id; own_target = u.own_target; own_calls = (refl, u.own_calls) }))

  with_id-Stays :
      (a : Attempt) (cr : Cr)
      → is_empty app_id ≡ false
      → is_empty target ≡ false
      → IsDelayed target a
      → IsUnder app_id target cr
      → Stays (with_id a app_id cr)
  with_id-Stays a cr named aimed d u =
      rw (named, ap is_empty u.own_target ∙ aimed)
        (forwarded-Stays a (lookup cr.target_peer a.peers) cr
          (ap (λ t. delayed_by (lookup t a.peers) a.reply) u.own_target ∙ d) u)

  created-known :
      (a : Attempt) (cr : Cr)
      → is_empty app_id ≡ false
      → IsUnder app_id target cr
      → on_remoteapp_created a cr ≡ with_id a app_id cr
  unfolding on_remoteapp_created
  created-known a cr named u =
      ap
        (λ i.
          if is_empty i
          then with_id a a.fresh (bootstrap_cr_status a.answers a.fresh cr)
          else with_id a i cr)
        u.own_id
      ∙ rw named

  -- an attempt that finds the peer, which takes the workload
  abbrev pub IsGood : Attempt → Type 0
  IsGood a =
      (p : Peer) × (lookup target a.peers ≡ some p) × (can_deploy p ≡ true) × (a.reply ≡ ok tt)

  abbrev pub Forwarded : Option Outcome × Cr → Type 0
  Forwarded (o, cr) = (o ≡ some finished) × IsUnder app_id target cr

  answered-ok :
      (a : Attempt) (r : Result Unit) (cr : Cr)
      → r ≡ ok tt
      → answered a app_id r cr ≡ (finished, cr)
  answered-ok a (ok _) cr h = refl
  answered-ok a (err e) cr h = cc

  with_id-IsGood :
      (a : Attempt) (cr : Cr)
      → is_empty app_id ≡ false
      → is_empty target ≡ false
      → (g : IsGood a) → IsUnder app_id target cr
      → with_id a app_id cr ≡ (finished, log_call (receive (g.0).name app_id) cr)
  with_id-IsGood a cr named aimed (p, known, deploys, taken) u =
      rw
        (
          named,
          ap is_empty u.own_target ∙ aimed,
          ap (λ t. lookup t a.peers) u.own_target ∙ known,
          deploys,
        )
        (answered-ok a a.reply _ taken)

  again-temporary :
      (o : Outcome) (cr : Cr) (rest : Option Outcome × Cr) → IsTemporary o → again o cr rest ≡ rest
  again-temporary finished cr rest h = absurd h
  again-temporary (permanent m) cr rest h = absurd h
  again-temporary (temporary m d) cr rest h = refl

  attempts-Forwarded :
      (before : List Attempt) (good : Attempt) (after : List Attempt) (cr : Cr)
      → is_empty app_id ≡ false
      → is_empty target ≡ false
      → All (IsDelayed target) before
      → IsGood good
      → IsUnder app_id target cr
      → Forwarded (attempts (before ++ good ∷ after) cr)
  unfolding attempts
  attempts-Forwarded [] good after cr named aimed d g u =
      rw (created-known good cr named u, with_id-IsGood good cr named aimed g u)
        (
          refl,
          record { own_id = u.own_id; own_target = u.own_target; own_calls = (refl, u.own_calls) },
        )
  attempts-Forwarded (a ∷ before) good after cr named aimed (d, ds) g u =
      let (again_asked, under) =
        subst (λ x. Stays x) (sym (created-known a cr named u))
          (with_id-Stays a cr named aimed d u) in
      let r = on_remoteapp_created a cr in
      subst (λ x. Forwarded x)
        (sym (again-temporary r.0 r.1 (attempts (before ++ good ∷ after) r.1) again_asked))
        (attempts-Forwarded before good after r.1 named aimed ds g under)

bootstrapped-IsUnder :
    (fresh : String) (cr : Cr)
    → cr.sent ≡ []
    → IsUnder fresh cr.target_peer (bootstrap_cr_status true fresh cr)
unfolding bootstrap_cr_status
bootstrapped-IsUnder fresh cr none_sent = record {
  own_id = ap (or_default "") (lookup-insert_self "appId" fresh _);
  own_target = refl;
  own_calls = subst (All (IsFor fresh)) (sym none_sent) tt;
}

created-new :
    (a : Attempt) (cr : Cr)
    → is_empty (status_at "appId" cr) ≡ true
    → a.answers ≡ true
    → on_remoteapp_created a cr ≡ with_id a a.fresh (bootstrap_cr_status true a.fresh cr)
unfolding on_remoteapp_created
created-new a cr new takes =
    rw new (ap (λ b. with_id a a.fresh (bootstrap_cr_status b a.fresh cr)) takes)

-- A new RemoteApp gets to its peer: while the peer is not known, or its call fails otherwise than by
-- a refusal, kopf is asked for another attempt, and the first attempt that finds the peer, which
-- takes the workload, ends the matter. All calls carry the one id that the first attempt wrote into
-- the status, provided that this write succeeds.
pub eventually_reached :
    (first : Attempt) (before : List Attempt) (good : Attempt) (after : List Attempt) (cr : Cr)
    → is_empty (status_at "appId" cr) ≡ true
    → cr.sent ≡ []
    → is_empty cr.target_peer ≡ false
    → first.answers ≡ true
    → is_empty first.fresh ≡ false
    → All (IsDelayed cr.target_peer) (first ∷ before)
    → IsGood first.fresh cr.target_peer good
    → Forwarded first.fresh cr.target_peer (attempts (first ∷ before ++ good ∷ after) cr)
unfolding attempts
eventually_reached first before good after cr new none_sent aimed takes named ds g =
    let cr' = bootstrap_cr_status true first.fresh cr in
    let under = bootstrapped-IsUnder first.fresh cr none_sent in
    let same : on_remoteapp_created first cr ≡ on_remoteapp_created first cr' =
      created-new first cr new takes
      ∙ sym (created-known first.fresh cr.target_peer first cr' named under) in
    subst
      (λ (x : Outcome × Cr).
        Forwarded first.fresh cr.target_peer
          (again x.0 x.1 (attempts (before ++ good ∷ after) x.1)))
      (sym same)
      (attempts-Forwarded first.fresh cr.target_peer (first ∷ before) good after cr' named aimed ds
        g under)
