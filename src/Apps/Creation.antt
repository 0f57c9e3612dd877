-- ===== src/Apps/Creation.antt =====
-- What submitting an app can do to the RemoteApp resources (porpulsion/routes/workloads.py).
use porpulsion.Prelude.{
  String, true, false, not, ◌≡◌, refl, Option, none, some, List, Dict, lookup, contains, insert,
  find_first, find_first-fits, values, ◌⊎◌, inl, inr, if-holds_by, not-eq_false, arith,
}
use porpulsion.Prelude.Text.{is_empty}
use porpulsion.Prelude.Json.{Json, str}
use porpulsion.Peers.{Peer, can_deploy}
use porpulsion.Workloads.Naming.{Unicode, cr_name}
use porpulsion.Apps.{Base64}
use porpulsion.Apps.Submission.{
  Remotes, NewApp, Api, CreateEnd, created, no_outgoing_peers, peer_or, outgoing_or, target_of,
  check_crd_compatibility, encode_spec_secrets, is_none_left, remoteapp_name_exists,
  create_remoteapp_cr, create_at, create_for, submit, create_remoteapp,
}

-- where the peer comes from
abbrev pub IsTarget : (target_peer : String) → Dict Peer → Peer → Type 0
IsTarget target_peer peers p =
    (lookup target_peer peers ≡ some p)
    ⊎ ((is_empty target_peer ≡ true) × (find_first can_deploy (values peers) ≡ some p))

module _ (base64 : Base64) (unicode : Unicode) where
  -- one resource more, under the name that was free, for a peer that takes workloads and knows the
  -- fields that are used
  abbrev pub IsAdded : Dict Peer → NewApp → (before after : Remotes) → Type 0
  IsAdded peers req before after =
      (p : Peer) × (spec : Dict Json) × (encode_spec_secrets base64 req.spec ≡ some spec)
      × IsTarget req.target_peer peers p
      × (can_deploy p ≡ true)
      × (check_crd_compatibility p spec ≡ none)
      × (contains (cr_name unicode req.name) before.remote ≡ false)
      × (after ≡ record before {
        remote =
            insert (cr_name unicode req.name)
              (insert "targetPeer" (str p.name) (insert "targetPeer" (str p.name) spec))
              before.remote;
      })

  abbrev pub IsOrderly : Dict Peer → NewApp → Remotes → CreateEnd × Remotes → Type 0
  IsOrderly peers req before (outcome, after) =
      (after ≡ before) ⊎ ((outcome ≡ created) × IsAdded peers req before after)

  abbrev IsChosen : Dict Peer → NewApp → CreateEnd ⊎ Peer → Type 0
  IsChosen peers req (inl outcome) = Unit
  IsChosen peers req (inr p) = IsTarget req.target_peer peers p × (can_deploy p ≡ true)

  outgoing-IsChosen :
      (peers : Dict Peer) (req : NewApp) (p : Option Peer)
      → lookup req.target_peer peers ≡ p
      → IsChosen peers req (outgoing_or p)
  outgoing-IsChosen peers req none at = tt
  outgoing-IsChosen peers req (some p) at =
      if-holds_by (IsChosen peers req) (can_deploy p) (inr p) _ (λ takes. (inl at, takes)) (λ h. tt)

  first-IsChosen :
      (peers : Dict Peer) (req : NewApp) (outcome : CreateEnd) (p : Option Peer)
      → is_empty req.target_peer ≡ true
      → find_first can_deploy (values peers) ≡ p
      → IsChosen peers req (peer_or outcome p)
  first-IsChosen peers req outcome none unnamed at = tt
  first-IsChosen peers req outcome (some p) unnamed at =
      (inr (unnamed, at), find_first-fits can_deploy (values peers) p at)

  target-IsChosen :
      (peers : Dict Peer) (req : NewApp) → IsChosen peers req (target_of req.target_peer peers)
  target-IsChosen peers req =
      if-holds_by (IsChosen peers req) (not (is_empty req.target_peer)) _ _
        (λ h. outgoing-IsChosen peers req _ refl)
        (λ h. first-IsChosen peers req no_outgoing_peers _ (not-eq_false _ h) refl)

  module _ (api : Api) (peers : Dict Peer) (req : NewApp) (before : Remotes) where
    abbrev IsMade : Option String × Remotes → Type 0
    IsMade (name, after) = IsOrderly peers req before (created, after)

    abbrev IsFree : Type 0
    IsFree = before.available ≡ true → contains (cr_name unicode req.name) before.remote ≡ false

    create_at-IsOrderly :
        (spec : Dict Json) (p : Peer) (used : Option (List String))
        → encode_spec_secrets base64 req.spec ≡ some spec
        → IsTarget req.target_peer peers p
        → can_deploy p ≡ true
        → IsFree
        → check_crd_compatibility p spec ≡ used
        → IsOrderly peers req before (create_at base64 unicode api req.name spec before p used)
    unfolding create_remoteapp_cr
    create_at-IsOrderly spec p (some used) encoded target takes free known = inl refl
    create_at-IsOrderly spec p none encoded target takes free known =
        if-holds_by IsMade before.available _ _
          (λ there.
            if-holds_by IsMade api.answers _ _
              (λ h. inr (refl, (p, spec, encoded, target, takes, known, free there, refl)))
              (λ h. inl refl))
          (λ h. inl refl)

    create_for-IsOrderly :
        (spec : Dict Json) (t : CreateEnd ⊎ Peer)
        → encode_spec_secrets base64 req.spec ≡ some spec
        → IsChosen peers req t
        → IsFree
        → IsOrderly peers req before (create_for base64 unicode api req.name spec before t)
    create_for-IsOrderly spec (inl outcome) encoded chosen free = inl refl
    create_for-IsOrderly spec (inr p) encoded (target, takes) free =
        create_at-IsOrderly spec p _ encoded target takes free refl

    asked-IsFree :
        api.names_known ≡ true
        → remoteapp_name_exists base64 unicode api.names_known req.name before ≡ false
        → IsFree
    unfolding remoteapp_name_exists
    asked-IsFree known absent there = ground arith

    submit-IsOrderly :
        (spec : Option (Dict Json))
        → api.names_known ≡ true
        → encode_spec_secrets base64 req.spec ≡ spec
        → IsOrderly peers req before (submit base64 unicode api peers req before spec)
    submit-IsOrderly none known encoded = inl refl
    submit-IsOrderly (some spec) known encoded =
        if-holds_by (IsOrderly peers req before) (is_none_left peers) _ _ (λ h. inl refl)
          (λ h.
            if-holds_by (IsOrderly peers req before)
              (remoteapp_name_exists base64 unicode api.names_known req.name before) _ _
              (λ h. inl refl)
              (λ absent.
                create_for-IsOrderly spec _ encoded (target-IsChosen peers req)
                  (asked-IsFree known absent)))

    -- Submitting an app, while the API tells which names are taken, either changes no resource or
    -- is answered with success and adds one whose name was free: with the spec whose Secrets are
    -- encoded, for the peer that was asked for or, where none was, the first that takes workloads,
    -- which may be deployed to and whose CRD lacks no field that the spec uses.
    pub create_remoteapp-IsOrderly :
        api.names_known ≡ true
        → IsOrderly peers req before (create_remoteapp base64 unicode api peers req before)
    unfolding create_remoteapp
    create_remoteapp-IsOrderly known =
        if-holds_by (IsOrderly peers req before) (is_empty req.name) _ _ (λ h. inl refl)
          (λ h. submit-IsOrderly _ known refl)
