-- ===== src/Channel/Loss.antt =====
-- How a channel is left when its socket is lost.
use porpulsion.Prelude.{
  ℕ, String, Bool, true, false, ◌≡◌, refl, none, some, List, [], ◌∷◌, lookup, Dict, All, map,
  lookup-insert_self, arith, if◌then◌else◌,
}
use porpulsion.Prelude.Exec.{Result, ok, err}
use porpulsion.Channel.{Payload, Pending, PeerChannel, request, not_connected, push, call_begin}
use porpulsion.Channel.Dispatch.{
  dispatch, dispatch_push, recv_loop, leave_loop, wake, continue, ended, Received, broken, nothing,
  blank, bad_json, message, LoopEnd, left, crashed,
}

-- nobody waits for a reply, and no socket is held
pub record IsLeft (ch : PeerChannel) : Type 0 where
  pub no_socket : ch.ws ≡ none
  pub offline : ch.connected ≡ false
  pub woken : All (λ (e : String × Pending). e.1.event ≡ true) ch.pending

woken-map :
    (d : Dict Pending)
    → All (λ (e : String × Pending). e.1.event ≡ true) (map (λ e. (e.0, wake e.1)) d)
woken-map [] = tt
woken-map (e ∷ d) = (refl, woken-map d)

leave_loop-IsLeft : (ch : PeerChannel) → IsLeft (leave_loop ch)
unfolding leave_loop
leave_loop-IsLeft ch = record { no_socket = refl; offline = refl; woken = woken-map ch.pending }

-- how a receive loop may stand
abbrev IsTidy : LoopEnd × PeerChannel → Type 0
IsTidy p = p.0 ≡ left → IsLeft p.1

ended-IsTidy : (ch : PeerChannel) → IsTidy (ended ch)
ended-IsTidy ch = λ h. leave_loop-IsLeft ch

if-IsTidy :
    (b : Bool) (p q : LoopEnd × PeerChannel) → IsTidy p → IsTidy q → IsTidy (if b then p else q)
if-IsTidy true p q hp hq = hp
if-IsTidy false p q hp hq = hq

continue-IsTidy :
    (rest : PeerChannel → LoopEnd × PeerChannel) (m : Result Unit × PeerChannel)
    → ((ch : PeerChannel) → IsTidy (rest ch))
    → IsTidy (continue rest m)
continue-IsTidy rest (ok _, ch) h = h ch
continue-IsTidy rest (err e, ch) h = λ same. cc

-- Whatever is received, a receive loop that ends without an exception leaves no socket, is not
-- connected, and has woken every blocked caller.
pub recv_loop-IsLeft :
    (version : String) (rs : List Received) (ch : PeerChannel)
    → (recv_loop version rs ch).0 ≡ left
    → IsLeft (recv_loop version rs ch).1
unfolding recv_loop
recv_loop-IsLeft version [] ch = λ h. cc
recv_loop-IsLeft version (broken ∷ rs) ch =
    if-IsTidy _ (ended ch) (ended ch) (ended-IsTidy ch) (ended-IsTidy ch)
recv_loop-IsLeft version (nothing ∷ rs) ch =
    if-IsTidy _ (ended ch) (recv_loop version rs ch) (ended-IsTidy ch)
      (recv_loop-IsLeft version rs ch)
recv_loop-IsLeft version (blank ∷ rs) ch =
    if-IsTidy _ (ended ch) (ended ch) (ended-IsTidy ch) (ended-IsTidy ch)
recv_loop-IsLeft version (bad_json ∷ rs) ch =
    if-IsTidy _ (ended ch) (recv_loop version rs ch) (ended-IsTidy ch)
      (recv_loop-IsLeft version rs ch)
recv_loop-IsLeft version (message up now frame ∷ rs) ch =
    let m = dispatch up version now frame ch in
    if-IsTidy _ (ended ch) (continue (recv_loop version rs) m) (ended-IsTidy ch)
      (continue-IsTidy (recv_loop version rs) m (recv_loop-IsLeft version rs))

-- A ping that comes in while the socket no longer takes what is sent ends the receive loop by an
-- exception: the channel still counts as connected, without a socket, and no caller is woken.
pub ping_crashes :
    (version : String) (now socket : ℕ) (payload : Payload) (rs : List Received) (ch : PeerChannel)
    → ch.running ≡ true
    → ch.ws ≡ some socket
    → let (end, ch') = recv_loop version (message false now (request "" "ping" payload) ∷ rs) ch in
      (end ≡ crashed "channel send failed")
      × (ch'.connected ≡ ch.connected)
      × (ch'.ws ≡ none)
      × (ch'.pending ≡ ch.pending)
unfolding recv_loop dispatch dispatch_push push
ping_crashes version now socket payload rs ch r w = ground arith

-- A call that finds no socket raises and leaves its entry in `pending`, which nothing takes out.
pub failed_call_stays_pending :
    (up : Bool) (id type : String) (payload : Payload) (ch : PeerChannel)
    → ch.ws ≡ none
    → let (r, ch') = call_begin up id type payload ch in
      (r ≡ err (not_connected ch))
      × (lookup id ch'.pending ≡ some (record { event = false; result = none }))
unfolding call_begin
failed_call_stays_pending up id type payload ch w =
    ground (arith, lookup-insert_self id (record { event = false; result = none }) ch.pending)
