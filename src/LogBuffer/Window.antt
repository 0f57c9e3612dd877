-- ===== src/LogBuffer/Window.antt =====
-- The buffer refines an unbounded log: it holds the last entries of it.
use mathlib.Core.List.{append_assoc, append-nil}
use porpulsion.Prelude.{
  ℕ, ◌+◌, ◌-◌, ◌≤◌, ◌≡◌, ap, sym, ◌∙◌, Option, none, some, List, [], ◌∷◌, ◌++◌, arith, length, drop,
  last_of, length-append, length-drop, drop-nil, drop-append, drop-drop, drop_all, ltb, ltb→lt,
  not-ltb→le, Bool-cases, inl, inr,
}
use porpulsion.Prelude.Int.{ℤ}
use porpulsion.LogBuffer.{
  LogEntry, Buffer, emit, emit_all, install_log_handler, get_recent_logs, get_logs, clamp_tail,
}

abbrev window : ℕ → List LogEntry → Buffer
window capacity log = record { maxlen = capacity; entries = last_of capacity log }

-- the slice after one more entry, by whether the deque was full
module _ (e : LogEntry) (capacity : ℕ) (log : List LogEntry) where
  abbrev gone : ℕ
  gone = length log - capacity

  abbrev grown : List LogEntry
  grown = drop gone log ++ e ∷ []

  length-grown : length grown ≡ length log - gone + 1
  length-grown = length-append (drop gone log) (e ∷ []) ∙ omega (arith, length-drop gone log)

  grown-eq-drop : grown ≡ drop gone (log ++ e ∷ [])
  grown-eq-drop = sym (drop-append gone log (e ∷ []) (omega arith))

  grown_full : capacity + 1 ≤ length grown → drop 1 grown ≡ last_of capacity (log ++ e ∷ [])
  grown_full h =
      ap (drop 1) grown-eq-drop
      ∙ drop-drop 1 gone (log ++ e ∷ [])
      ∙ ap (λ k. drop k (log ++ e ∷ [])) (omega (arith, length-grown, length-append log (e ∷ [])))

  grown_room : length grown ≤ capacity → grown ≡ last_of capacity (log ++ e ∷ [])
  grown_room h =
      grown-eq-drop
      ∙ ap (λ k. drop k (log ++ e ∷ [])) (omega (arith, length-grown, length-append log (e ∷ [])))

  emit-window : emit e (window capacity log) ≡ window capacity (log ++ e ∷ [])
  unfolding emit
  emit-window =
      ap (λ l. record { maxlen = capacity; entries = l })
        (elim (Bool-cases (ltb capacity (length grown))) [
          | inl full ↦ rw full (grown_full (omega (arith, ltb→lt _ _ full)))
          | inr room ↦ rw room (grown_room (not-ltb→le _ _ room))
        ])

emit_all-window :
    (es : List LogEntry) (capacity : ℕ) (log : List LogEntry)
    → emit_all es (window capacity log) ≡ window capacity (log ++ es)
unfolding emit_all
emit_all-window [] capacity log = rw append-nil
emit_all-window (e ∷ es) capacity log =
    ap (emit_all es) (emit-window e capacity log)
    ∙ emit_all-window es capacity (log ++ e ∷ [])
    ∙ ap (window capacity) (append_assoc log (e ∷ []) es)

recent-eq-last_of :
    (limit : ℕ) (b : Buffer) → get_recent_logs limit (some b) ≡ last_of limit b.entries
unfolding get_recent_logs
recent-eq-last_of limit b = ground (arith, drop_all (length b.entries) b.entries)

-- the buffer after installation and any logging
abbrev pub logged : ℕ → List LogEntry → Option Buffer
logged capacity es = log_to es (install_log_handler capacity none)
  where
    log_to : List LogEntry → Option Buffer → Option Buffer
    log_to es none = none
    log_to es (some b) = some (emit_all es b)

logged-eq-window :
    (capacity : ℕ) (es : List LogEntry) → logged capacity es ≡ some (window capacity es)
unfolding install_log_handler
logged-eq-window capacity es =
    ap (λ l. some (emit_all es (record { maxlen = capacity; entries = l })))
      (sym (drop-nil (0 - capacity)))
    ∙ ap some (emit_all-window es capacity [])

-- Once installed, whatever was logged, `get_logs` returns the last lines of the last `capacity`
-- entries, as many as the clamped `tail` asks for, oldest first.
pub logs_window :
    (tail : Option ℤ) (capacity : ℕ) (es : List LogEntry)
    → get_logs tail (logged capacity es) ≡ last_of (clamp_tail tail) (last_of capacity es)
unfolding get_logs
logs_window tail capacity es =
    ap (get_recent_logs (clamp_tail tail)) (logged-eq-window capacity es)
    ∙ recent-eq-last_of (clamp_tail tail) (window capacity es)
