-- ===== src/Channels/Single.antt =====
-- A peer has one live channel, the registered one (porpulsion/channel.py).
use porpulsion.Prelude.{
  ℕ, String, true, false, ◌≡◌, refl, sym, ap, ◌∙◌, Option, none, some, or_default, List, [], ◌∷◌,
  Dict, lookup, erase, lookup-insert, lookup-insert_self, lookup-erase, nat_eq, ◌==◌, eq_iff, inl,
  inr, Bool-cases, arith,
}
use porpulsion.Channels.{
  Channels, close, close_old, put_new, pop_if, Event, opens, removes, attaches, ends, happen,
  history, no_channels,
}

abbrev IsSingle : Channels → Type 0
IsSingle c =
    (r : ℕ) → (c.object r).live ≡ true → lookup (c.object r).peer_name c.peer_channels ≡ some r

-- once the channel under the name is closed, no live one has the name
abbrev IsFreed : String → Channels → Type 0
IsFreed name c =
    (r : ℕ)
    → (c.object r).live ≡ true
    → ((c.object r).peer_name == name) ≡ false
      × (lookup (c.object r).peer_name c.peer_channels ≡ some r)

other-name :
    (name n : String) (d : Dict ℕ) (o : Option ℕ) (r : ℕ)
    → lookup name d ≡ o
    → lookup n d ≡ some r
    → (o ≡ some r → ⊥)
    → (n == name) ≡ false
other-name name n d o r at held apart = elim (Bool-cases (n == name)) [
  | inl same ↦ absurd (apart (sym at ∙ ap (λ k. lookup k d) (sym ((eq_iff n name).0 same)) ∙ held))
  | inr other ↦ other
]

apart_refs : (q r : ℕ) → nat_eq r q ≡ false → some q ≡ some r → ⊥
apart_refs q r other same = let equal : q ≡ r = ap (or_default 0) same in ground arith

equal_refs : (r q : ℕ) → nat_eq r q ≡ true → q ≡ r
equal_refs r q h = ground arith

swapped : (a b : String) → (a == b) ≡ false → (b == a) ≡ false
swapped a b h = ground (arith, eq_iff a b, eq_iff b a)

close_old-IsFreed :
    (name : String) (c : Channels) (o : Option ℕ)
    → lookup name c.peer_channels ≡ o
    → IsSingle c
    → IsFreed name (close_old o c)
close_old-IsFreed name c none at single r = λ live.
    let held = single r live in
    (other-name name (c.object r).peer_name c.peer_channels none r at held (λ h. cc), held)
close_old-IsFreed name c (some q) at single r = elim (Bool-cases (nat_eq r q)) [
  | inl closed ↦ rw closed (λ live. cc)
  | inr other ↦ rw other (λ live.
      let held = single r live in
      (
        other-name name (c.object r).peer_name c.peer_channels (some q) r at held
            (apart_refs q r other),
        held,
      ))
]

put_new-IsSingle :
    (name addr : String) (c : Channels) → IsFreed name c → IsSingle (put_new name addr c)
put_new-IsSingle name addr c freed r = elim (Bool-cases (nat_eq r c.next)) [
  | inl new ↦
      rw new
        (λ live. lookup-insert_self name c.next c.peer_channels ∙ ap some (equal_refs r c.next new))
  | inr old ↦ rw old (λ live.
      let (other, held) = freed r live in
      lookup-insert name (c.object r).peer_name c.next c.peer_channels
      ∙ rw (swapped (c.object r).peer_name name other) held)
]

-- taking the name off the dict, or leaving it
erased :
    (name : String) (c : Channels)
    → IsFreed name c
    → IsSingle (record c { peer_channels = erase name c.peer_channels })
erased name c freed r live =
    let (other, held) = freed r live in
    lookup-erase name (c.object r).peer_name c.peer_channels
    ∙ rw (swapped (c.object r).peer_name name other) held

close-IsSingle : (q : ℕ) (c : Channels) → IsSingle c → IsSingle (close q c)
close-IsSingle q c single r = elim (Bool-cases (nat_eq r q)) [
  | inl closed ↦ rw closed (λ live. cc)
  | inr other ↦ rw other (single r)
]

remove-IsSingle :
    (name : String) (c : Channels) (o : Option ℕ)
    → lookup name c.peer_channels ≡ o
    → IsSingle c
    → IsSingle (close_old o (record c { peer_channels = erase name c.peer_channels }))
remove-IsSingle name c none at single = erased name c (close_old-IsFreed name c none at single)
remove-IsSingle name c (some q) at single =
    erased name (close q c) (close_old-IsFreed name c (some q) at single)

ended-IsSingle :
    (r : ℕ) (name : String) (c : Channels) (o : Option ℕ)
    → lookup name c.peer_channels ≡ o
    → IsSingle c
    → IsSingle (pop_if r name (close r c) o)
ended-IsSingle r name c none at single = close-IsSingle r c single
ended-IsSingle r name c (some q) at single = elim (Bool-cases (nat_eq q r)) [
  | inl same ↦ rw same (
      erased name (close r c)
        (close_old-IsFreed name c (some r) (at ∙ ap some (sym (equal_refs q r same))) single))
  | inr other ↦ rw other (close-IsSingle r c single)
]

happen-IsSingle : (e : Event) (c : Channels) → IsSingle c → IsSingle (happen e c)
unfolding happen
happen-IsSingle (opens name) c single =
    put_new-IsSingle name _ _ (close_old-IsFreed name c (lookup name c.peer_channels) refl single)
happen-IsSingle (removes name) c single =
    remove-IsSingle name c (lookup name c.peer_channels) refl single
happen-IsSingle (attaches name addr) c single =
    put_new-IsSingle name addr _
      (close_old-IsFreed name c (lookup name c.peer_channels) refl single)
happen-IsSingle (ends r) c single =
    ended-IsSingle r (c.object r).peer_name c (lookup (c.object r).peer_name c.peer_channels) refl
      single

history-IsSingle : (es : List Event) (c : Channels) → IsSingle c → IsSingle (history es c)
history-IsSingle [] c single = single
history-IsSingle (e ∷ es) c single = history-IsSingle es (happen e c) (happen-IsSingle e c single)

-- Whatever channels are opened, accepted, ended and removed: a channel that lives is the one that is
-- registered for its peer, so that two that live have different peers.
pub live_is_registered :
    (es : List Event) (r : ℕ)
    → ((history es no_channels).object r).live ≡ true
    → lookup ((history es no_channels).object r).peer_name (history es no_channels).peer_channels
      ≡ some r
live_is_registered es = history-IsSingle es no_channels (λ r live. cc)
