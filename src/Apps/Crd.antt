-- ===== src/Apps/Crd.antt =====
-- `_check_crd_available` and `_check_ea_crd_available` of porpulsion/k8s/store.py: whether the CRD
-- of a kind of resource is installed is asked until the API tells, and remembered.
use porpulsion.Prelude.{Bool, true, false, ◌≡◌, refl, Option, none, some, List, [], ◌∷◌, ◌++◌}

-- what the API says to a request for one resource of the kind
pub data Probe : Type 0 where
  listed missing unclear : Probe

-- the answer, and what is remembered
unfoldable pub check_crd_available : Probe → Option Bool → Bool × Option Bool
check_crd_available p (some b) = (b, some b)
check_crd_available listed none = (true, some true)
check_crd_available missing none = (false, some false)
check_crd_available unclear none = (false, none)

-- what is remembered after a process has asked, oldest first
abbrev pub remembered : List Probe → Option Bool → Option Bool
remembered [] latch = latch
remembered (p ∷ ps) latch = remembered ps (check_crd_available p latch).1

-- what the first clear word of the API was
abbrev pub first_word : List Probe → Bool
first_word [] = false
first_word (listed ∷ ps) = true
first_word (missing ∷ ps) = false
first_word (unclear ∷ ps) = first_word ps

stays :
    (b : Bool) (p : Probe) (ps : List Probe)
    → (check_crd_available p (remembered ps (some b))).0 ≡ b
unfolding check_crd_available
stays b p [] = refl
stays b p (q ∷ ps) = stays b p ps

-- However often it was asked before, a process answers by the first word of the API that was clear: the
-- CRD is there if that word listed it, and is not if it said so or if no word was clear yet.
pub latch_is_first_word :
    (past : List Probe) (p : Probe)
    → (check_crd_available p (remembered past none)).0 ≡ first_word (past ++ p ∷ [])
unfolding check_crd_available
latch_is_first_word [] listed = refl
latch_is_first_word [] missing = refl
latch_is_first_word [] unclear = refl
latch_is_first_word (listed ∷ past) p = stays true p past
latch_is_first_word (missing ∷ past) p = stays false p past
latch_is_first_word (unclear ∷ past) p = latch_is_first_word past p
