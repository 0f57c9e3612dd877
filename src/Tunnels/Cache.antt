-- ===== src/Tunnels/Cache.antt =====
-- How old a cached answer of porpulsion/routes/tunnels.py or porpulsion/k8s/tunnel.py can be.
use porpulsion.Prelude.{
  ℕ, ◌+◌, ◌<◌, String, ◌≡◌, refl, Option, none, some, List, [], ◌∷◌, Dict, lookup, Each,
  insert-Each, lookup-Each, All, ltb, ltb→lt, if-holds_by, arith,
}
use porpulsion.Tunnels.{Cached, fetched, fresh_or, through_cache}

module _ {V : Type 0} (source : ℕ → String → Option V) (ttl : ℕ) where
  -- the answers to requests at their times, through one cache; `source` is what the API has at a time
  unfoldable pub answers : List (ℕ × String) → Dict (Cached V) → List (ℕ × String × Option V)
  unfolding through_cache
  answers [] cache = []
  answers ((now, key) ∷ rest) cache =
      let (answer, cache') = through_cache now ttl key (source now key) cache in
      (now, key, answer) ∷ answers rest cache'

  -- an entry is what the API had when it was made
  abbrev IsFrom : String → Cached V → Type 0
  IsFrom key e = (t : ℕ) × (source t key ≡ some e.value) × (e.expiry ≡ t + ttl)

  -- the answer is what the API had less than `ttl` before
  abbrev pub IsRecent : ℕ × String × Option V → Type 0
  IsRecent (now, key, answer) = (t : ℕ) × (now < t + ttl) × (source t key ≡ answer)

  abbrev Recent : ℕ → String → Option V × Dict (Cached V) → Type 0
  Recent now key (answer, cache) = IsRecent (now, key, answer) × Each IsFrom cache

  fetched-Recent :
      (now : ℕ) (key : String) (o : Option V) (cache : Dict (Cached V))
      → 0 < ttl
      → source now key ≡ o
      → Each IsFrom cache
      → Recent now key (fetched now ttl key o cache)
  fetched-Recent now key none cache pos same fits = ((now, omega arith, same), fits)
  fetched-Recent now key (some v) cache pos same fits = (
    (now, omega arith, same),
    insert-Each IsFrom key (record { value = v; expiry = now + ttl }) cache (now, same, refl) fits,
  )

  fresh_or-Recent :
      (now : ℕ) (key : String) (o : Option (Cached V)) (cache : Dict (Cached V))
      → 0 < ttl
      → lookup key cache ≡ o
      → Each IsFrom cache
      → Recent now key (fresh_or now ttl key o (source now key) cache)
  fresh_or-Recent now key none cache pos found fits =
      fetched-Recent now key (source now key) cache pos refl fits
  fresh_or-Recent now key (some e) cache pos found fits =
      let (t, had, until) = lookup-Each IsFrom key e cache fits found in
      if-holds_by (λ (r : Option V × Dict (Cached V)). Recent now key r) (ltb now e.expiry) _ _
        (λ early. let before = ltb→lt now e.expiry early in ((t, omega arith, had), fits))
        (λ _. fetched-Recent now key (source now key) cache pos refl fits)

  answers-fit :
      (requests : List (ℕ × String)) (cache : Dict (Cached V))
      → 0 < ttl
      → Each IsFrom cache
      → All IsRecent (answers requests cache)
  unfolding answers
  answers-fit [] cache pos fits = tt
  answers-fit ((now, key) ∷ rest) cache pos fits =
      let (recent, fits') = fresh_or-Recent now key (lookup key cache) cache pos refl fits in
      (recent, answers-fit rest _ pos fits')

-- Whatever changes at the API meanwhile, a request through the cache is answered with what the API
-- had for it less than the cache's time before.
pub answers-Recent :
    {V : Type 0} (source : ℕ → String → Option V) (ttl : ℕ) (requests : List (ℕ × String))
    → 0 < ttl
    → All (IsRecent source ttl) (answers source ttl requests [])
answers-Recent source ttl requests pos = answers-fit source ttl requests [] pos tt
