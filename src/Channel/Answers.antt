-- ===== src/Channel/Answers.antt =====
-- That every request is answered once: `_dispatch` of porpulsion/channel.py with the jobs of its pool,
-- which end in any order.
use porpulsion.Prelude.{
  ℕ, zero, suc, ◌+◌, String, Bool, true, false, ◌&&◌, ◌≡◌, refl, sym, ap, ◌∙◌, Option, none, some,
  List, [], ◌∷◌, ◌++◌, Dict, lookup, contains, is_some, lookup-insert, ◌==◌, eq_iff, if◌then◌else◌,
  Bool-cases, inl, inr, arith,
}
use porpulsion.Prelude.Text.{is_empty, text}
use porpulsion.Prelude.Exec.{Result, ok, err}
use porpulsion.Channel.{
  Frame, Payload, PeerChannel, Output, send, run_request, run_push, version_mismatch,
  compare_schema, reply_ok, reply_error, send_raw, push,
}
use porpulsion.Channel.Pool.{Job, jobs_of, Pool, Event, arrives, finishes, taken, take_job}
use porpulsion.Channel.Dispatch.{dispatch, dispatch_push, dispatch_request, finish_request}

-- two texts that a test tells apart
told_apart : (f : String → Bool) (a b : String) → f a ≡ true → f b ≡ false → (a == b) ≡ false
told_apart f a b holds fails = elim (Bool-cases (a == b)) [
  | inl same ↦ let e : f a ≡ f b = ap f ((eq_iff a b).0 same) in cc
  | inr other ↦ other
]

-- `handle` is what the handler of a name gives for a frame; the socket takes what is sent
module _ (version : String) (handle : String → Frame → Result Payload) where
  abbrev pub with_outbox : List Output → PeerChannel → PeerChannel
  with_outbox os ch = record ch { outbox = os }

  abbrev pub take_in : Pool → Result Unit × PeerChannel → Pool
  take_in p (r, ch) = record {
    channel = with_outbox (p.channel.outbox ++ ch.outbox) ch;
    jobs = p.jobs ++ jobs_of ch.outbox;
  }

  abbrev pub end_job : Pool → Option (Job × List Job) → Pool
  end_job p none = p
  end_job p (some ((h, frame), rest)) = record {
    channel = (finish_request true true frame.id (handle h frame) p.channel).1;
    jobs = rest;
  }

  unfoldable pub happen : Event → Pool → Pool
  happen (arrives now frame) p =
      take_in p (dispatch true version now frame (with_outbox [] p.channel))
  happen (finishes place) p = end_job p (take_job place p.jobs)

  abbrev pub history : List Event → Pool → Pool
  history [] p = p
  history (e ∷ es) p = history es (happen e p)

  -- what answers a request: the payload or the error of its handler, or an error where its type has none
  abbrev pub answer_to : Result Payload → Frame → Frame
  answer_to (ok payload) frame = reply_ok frame.id payload
  answer_to (err e) frame = reply_error frame.id e

  abbrev pub due_answer : Option String → Frame → Frame
  due_answer (some h) frame = answer_to (handle h frame) frame
  due_answer none frame = reply_error frame.id (text ("unknown type: " ∷ frame.type ∷ []))

  -- the frames with an id that are of some kind
  module _ (id : String) (is_kind : Frame → Bool) where
    abbrev pub one : Frame → ℕ
    one frame = if frame.id == id && is_kind frame then 1 else 0

    abbrev pub sent : List Output → ℕ
    sent [] = 0
    sent (send socket frame ∷ os) = one frame + sent os
    sent (run_request h frame ∷ os) = sent os
    sent (run_push h frame ∷ os) = sent os
    sent (version_mismatch a b ∷ os) = sent os
    sent (compare_schema a b ∷ os) = sent os

    -- of the answers that the jobs will send
    abbrev pub due : List Job → ℕ
    due [] = 0
    due ((h, frame) ∷ js) = one (answer_to (handle h frame) frame) + due js

    -- of the answers to the frames that came in
    abbrev pub asked : Dict String → List Event → ℕ
    asked handlers [] = 0
    asked handlers (arrives now frame ∷ es) =
        one (due_answer (lookup frame.type handlers) frame) + asked handlers es
    asked handlers (finishes place ∷ es) = asked handlers es

    sent-append : (xs ys : List Output) → sent (xs ++ ys) ≡ sent xs + sent ys
    sent-append [] ys = omega arith
    sent-append (send socket frame ∷ xs) ys = omega (arith, sent-append xs ys)
    sent-append (run_request h frame ∷ xs) ys = sent-append xs ys
    sent-append (run_push h frame ∷ xs) ys = sent-append xs ys
    sent-append (version_mismatch a b ∷ xs) ys = sent-append xs ys
    sent-append (compare_schema a b ∷ xs) ys = sent-append xs ys

    due-append : (xs ys : List Job) → due (xs ++ ys) ≡ due xs + due ys
    due-append [] ys = omega arith
    due-append ((h, frame) ∷ xs) ys = omega (arith, due-append xs ys)

    -- of a job that is taken out, and of those that are left
    abbrev due_taken : (none_left : ℕ) → Option (Job × List Job) → ℕ
    due_taken none_left none = none_left
    due_taken none_left (some ((h, frame), rest)) =
        one (answer_to (handle h frame) frame) + due rest

    due-taken :
        (h : String) (frame : Frame) (js : List Job) (o : Option (Job × List Job))
        → due_taken (due js) o ≡ due js
        → due_taken (due ((h, frame) ∷ js)) (taken (h, frame) o) ≡ due ((h, frame) ∷ js)
    due-taken h frame js none same = refl
    due-taken h frame js (some ((k, g), others)) same = omega (arith, same)

    due-take : (place : ℕ) (js : List Job) → due_taken (due js) (take_job place js) ≡ due js
    due-take place [] = refl
    due-take zero ((h, frame) ∷ js) = refl
    due-take (suc place) ((h, frame) ∷ js) =
        due-taken h frame js (take_job place js) (due-take place js)

    -- the socket is there, the table of handlers is the same, and no caller here waits under the id
    abbrev pub IsReady : (socket : ℕ) → Dict String → PeerChannel → Type 0
    IsReady socket handlers ch =
        (ch.ws ≡ some socket) × (ch.handlers ≡ handlers) × (contains id ch.pending ≡ false)

    -- what one frame leads to
    abbrev Leads : (socket : ℕ) → Dict String → Frame → PeerChannel → Type 0
    Leads socket handlers frame ch =
        IsReady socket handlers ch
        × (sent ch.outbox + due (jobs_of ch.outbox)
            ≡ one (due_answer (lookup frame.type handlers) frame))

    one-other : (frame : Frame) → (frame.id == id) ≡ false → one frame ≡ 0
    one-other frame other = rw other refl

    one-due_other :
        (h : Option String) (frame : Frame)
        → (frame.id == id) ≡ false
        → one (due_answer h frame) ≡ 0
    one-due_other none frame other = one-other (due_answer none frame) other
    one-due_other (some h) frame other = one-answer_other (handle h frame) frame other
      where
        one-answer_other :
            (r : Result Payload) (frame : Frame)
            → (frame.id == id) ≡ false
            → one (answer_to r frame) ≡ 0
        one-answer_other (ok payload) frame other = rw other refl
        one-answer_other (err e) frame other = rw other refl

    empty_other : is_empty id ≡ false → ("" == id) ≡ false
    empty_other full = told_apart is_empty "" id refl full

    pushes :
        (socket : ℕ) (now : ℕ) (frame : Frame) (ch : PeerChannel)
        → ("" == id) ≡ false
        → ch.ws ≡ some socket
        → ch.outbox ≡ []
        → let after = (dispatch_push true version now frame ch).1 in
          (after.ws ≡ ch.ws)
          × (after.handlers ≡ ch.handlers)
          × (after.pending ≡ ch.pending)
          × (sent after.outbox + due (jobs_of after.outbox) ≡ 0)
    unfolding dispatch_push push send_raw
    pushes socket now frame ch other ws empty = ground arith

    requests :
        (h : Option String) (socket : ℕ) (now : ℕ) (frame : Frame) (ch : PeerChannel)
        → ch.ws ≡ some socket
        → ch.outbox ≡ []
        → let after = (dispatch_request true version now frame h ch).1 in
          (after.ws ≡ ch.ws)
          × (after.handlers ≡ ch.handlers)
          × (after.pending ≡ ch.pending)
          × (sent after.outbox + due (jobs_of after.outbox) ≡ one (due_answer h frame))
    unfolding dispatch_request send_raw
    requests none socket now frame ch ws empty = ground arith
    requests (some h) socket now frame ch ws empty = rw empty (refl, refl, refl, omega arith)

    dispatch-Leads :
        (socket : ℕ) (handlers : Dict String) (now : ℕ) (frame : Frame) (ch : PeerChannel)
        → is_empty id ≡ false
        → IsReady socket handlers ch
        → ch.outbox ≡ []
        → Leads socket handlers frame (dispatch true version now frame ch).1
    unfolding dispatch
    dispatch-Leads socket handlers now frame ch full (ws, hs, free) empty =
        elim (Bool-cases (is_empty frame.id)) [
          | inl push_frame ↦
              let (w, h, p, none_due) = pushes socket now frame ch (empty_other full) ws empty in
              rw push_frame (
                (w ∙ ws, h ∙ hs, ap (λ d. contains id d) p ∙ free),
                none_due
                    ∙ sym (
                        one-due_other (lookup frame.type handlers) frame
                          (told_apart is_empty frame.id id push_frame full)),
              )
          | inr with_id ↦ elim (Bool-cases (contains frame.id ch.pending)) [
            | inl reply ↦
                let other = told_apart (λ i. contains i ch.pending) frame.id id reply free in
                rw (with_id, reply)
                  (
                    (ws, hs, ap is_some (lookup-insert frame.id id _ ch.pending) ∙ rw other free),
                    rw empty (sym (one-due_other (lookup frame.type handlers) frame other)),
                  )
            | inr request ↦
                let (w, h, p, answers) =
                  requests (lookup frame.type ch.handlers) socket now frame ch ws empty in
                rw (with_id, request)
                  (
                    (w ∙ ws, h ∙ hs, ap (λ d. contains id d) p ∙ free),
                    answers ∙ ap (λ d. one (due_answer (lookup frame.type d) frame)) hs,
                  )
          ]
        ]

    finish-sent :
        (socket : ℕ) (r : Result Payload) (frame : Frame) (ch : PeerChannel)
        → ch.ws ≡ some socket
        → let after = (finish_request true true frame.id r ch).1 in
          (after.ws ≡ ch.ws)
          × (after.handlers ≡ ch.handlers)
          × (after.pending ≡ ch.pending)
          × (sent after.outbox ≡ sent ch.outbox + one (answer_to r frame))
    unfolding finish_request send_raw
    finish-sent socket (ok payload) frame ch ws =
        ground (arith, sent-append ch.outbox (send socket (reply_ok frame.id payload) ∷ []))
    finish-sent socket (err e) frame ch ws =
        ground (arith, sent-append ch.outbox (send socket (reply_error frame.id e) ∷ []))

    -- what was sent, and what the jobs will send
    abbrev pub answers : Pool → ℕ
    answers p = sent p.channel.outbox + due p.jobs

    end_job-answers :
        (socket : ℕ) (handlers : Dict String) (p : Pool) (o : Option (Job × List Job))
        → IsReady socket handlers p.channel
        → due_taken (due p.jobs) o ≡ due p.jobs
        → IsReady socket handlers (end_job p o).channel × (answers (end_job p o) ≡ answers p)
    end_job-answers socket handlers p none ready split = (ready, refl)
    end_job-answers socket handlers p (some ((h, frame), rest)) (ws, hs, free) split =
        let (w, k, d, more) = finish-sent socket (handle h frame) frame p.channel ws in
        ((w ∙ ws, k ∙ hs, ap (λ d. contains id d) d ∙ free), omega (arith, split, more))

    -- While the socket takes what is sent, whatever frames come in and in whatever order the jobs of
    -- the pool end: of the answers to an id that is no call of this agent, those that were sent
    -- since and those that running jobs will send are together as many as that id was asked for, and
    -- this of every kind of frame: each request gets its own answer, once, the payload or the error
    -- of its handler, or an error where its type has none.
    pub answered_once :
        (socket : ℕ) (handlers : Dict String) (es : List Event) (p : Pool)
        → is_empty id ≡ false
        → IsReady socket handlers p.channel
        → answers (history es p) ≡ answers p + asked handlers es
    unfolding happen
    answered_once socket handlers [] p full ready = omega arith
    answered_once socket handlers (arrives now frame ∷ es) p full ready =
        let (still, leads) =
          dispatch-Leads socket handlers now frame (with_outbox [] p.channel) full ready refl in
        let ch = (dispatch true version now frame (with_outbox [] p.channel)).1 in
        let rest = answered_once socket handlers es (happen (arrives now frame) p) full still in
        omega (
          arith,
          rest,
          leads,
          sent-append p.channel.outbox ch.outbox,
          due-append p.jobs (jobs_of ch.outbox),
        )
    answered_once socket handlers (finishes place ∷ es) p full ready =
        let (still, equal) =
          end_job-answers socket handlers p (take_job place p.jobs) ready (due-take place p.jobs) in
        answered_once socket handlers es (happen (finishes place) p) full still
        ∙ ap (λ n. n + asked handlers es) equal
