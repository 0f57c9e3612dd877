-- ===== src/Workloads/Names.antt =====
-- What the names of resources look like.
use Prim.Native.String
use Prim.Native.String.{[], ◌∷◌}
use Prim.Native.String.append
use porpulsion.Prelude.{
  ℕ, zero, suc, ◌≤◌, ◌≡◌, refl, sym, subst, String, Char, Bool, true, false, ◌&&◌, List, arith,
  Bool-cases, inl, inr, if◌then◌else◌,
}
use porpulsion.Prelude.Text.{is_empty, text_length, lstrip, rstrip, take_text, map_text, text}
use porpulsion.Workloads.Naming.{
  Unicode, is_dash, is_name_char, safe_char, safe_name, cr_name, ea_cr_name, safe_resource_name,
}

-- every character passes the test
abbrev pub AllChars : (Char → Bool) → String → Type 0
AllChars p [] = Unit
AllChars p (c ∷ s) = (p c ≡ true) × AllChars p s

-- the last character passes the test
abbrev pub ends_in : (Char → Bool) → String → Bool
ends_in p [] = false
ends_in p (c ∷ s) = let rest = ends_in p s in if is_empty s then p c else rest

length-rstrip-le : (p : Char → Bool) (s : String) → text_length (rstrip p s) ≤ text_length s
unfolding rstrip text_length
length-rstrip-le p [] = omega arith
length-rstrip-le p (c ∷ s) = ground (arith, length-rstrip-le p s)

length-take_text-le : (n : ℕ) (s : String) → text_length (take_text n s) ≤ n
unfolding take_text text_length
length-take_text-le zero s = omega arith
length-take_text-le (suc n) [] = omega arith
length-take_text-le (suc n) (c ∷ s) = omega (arith, length-take_text-le n s)

ends_in-rstrip : (p : Char → Bool) (s : String) → ends_in p (rstrip p s) ≡ false
unfolding rstrip
ends_in-rstrip p [] = refl
ends_in-rstrip p (c ∷ s) = elim (Bool-cases (is_empty (rstrip p s) && p c)) [
  | inl cut ↦ rw cut refl
  | inr kept ↦ rw kept (ground (arith, ends_in-rstrip p s))
]

module _ (p : Char → Bool) where
  lstrip-AllChars : (q : Char → Bool) (s : String) → AllChars p s → AllChars p (lstrip q s)
  unfolding lstrip
  lstrip-AllChars q [] h = tt
  lstrip-AllChars q (c ∷ s) (h, hs) = elim (Bool-cases (q c)) [
    | inl cut ↦ rw cut (lstrip-AllChars q s hs)
    | inr kept ↦ rw kept (h, hs)
  ]

  rstrip-AllChars : (q : Char → Bool) (s : String) → AllChars p s → AllChars p (rstrip q s)
  unfolding rstrip
  rstrip-AllChars q [] h = tt
  rstrip-AllChars q (c ∷ s) (h, hs) = elim (Bool-cases (is_empty (rstrip q s) && q c)) [
    | inl cut ↦ rw cut tt
    | inr kept ↦ rw kept (h, rstrip-AllChars q s hs)
  ]

  take_text-AllChars : (n : ℕ) (s : String) → AllChars p s → AllChars p (take_text n s)
  unfolding take_text
  take_text-AllChars zero s h = tt
  take_text-AllChars (suc n) [] h = tt
  take_text-AllChars (suc n) (c ∷ s) (h, hs) = (h, take_text-AllChars n s hs)

  append-AllChars : (s t : String) → AllChars p s → AllChars p t → AllChars p (String.◌++◌ s t)
  append-AllChars [] t h g = subst (AllChars p) (sym (λ i. append.nil t i)) g
  append-AllChars (c ∷ s) t (h, hs) g =
      subst (AllChars p) (sym (λ i. append.cons c s t i)) (h, append-AllChars s t hs g)

module _ (unicode : Unicode) where
  safe_char-IsName : (c : Char) → is_name_char unicode (safe_char unicode c) ≡ true
  safe_char-IsName c = elim (Bool-cases (is_name_char unicode c)) [
    | inl kept ↦ rw (kept, kept) refl
    | inr other ↦ rw other (ground arith)
  ]

  map_text-AllChars :
      (s : String) → AllChars (is_name_char unicode) (map_text (safe_char unicode) s)
  unfolding map_text
  map_text-AllChars [] = tt
  map_text-AllChars (c ∷ s) = (safe_char-IsName c, map_text-AllChars s)

  safe_name-AllChars : (name : String) → AllChars (is_name_char unicode) (safe_name unicode name)
  unfolding safe_name
  safe_name-AllChars name =
      rstrip-AllChars _ is_dash _
        (lstrip-AllChars _ is_dash _ (map_text-AllChars (unicode.lower name)))

  -- at most 63 characters, all of them letters, digits or dashes, and no dash at the end
  abbrev pub IsName : String → Type 0
  IsName s = (text_length s ≤ 63) × AllChars (is_name_char unicode) s × (ends_in is_dash s ≡ false)

  cut-IsName :
      (s : String) → AllChars (is_name_char unicode) s → IsName (rstrip is_dash (take_text 63 s))
  cut-IsName s h = (
    omega (arith, length-rstrip-le is_dash (take_text 63 s), length-take_text-le 63 s),
    rstrip-AllChars _ is_dash _ (take_text-AllChars _ 63 s h),
    ends_in-rstrip is_dash (take_text 63 s),
  )

  -- Whatever a workload is called, the name of its RemoteApp has at most 63 characters, which are letters,
  -- digits or dashes, and does not end in a dash. The same holds of the names of its ExecutingApp and of
  -- its resources, if its id has such characters only, as a hexadecimal one has.
  pub names-IsName :
      (app_id name : String)
      → AllChars (is_name_char unicode) app_id
      → (unicode.isalnum "e" ≡ true) × (unicode.isalnum "a" ≡ true)
      → IsName (cr_name unicode name)
        × IsName (ea_cr_name unicode app_id name)
        × IsName (safe_resource_name unicode app_id name)
  unfolding cr_name ea_cr_name safe_resource_name text
  names-IsName app_id name id_fine (e, a) =
      (cut-IsName _ (safe_name-AllChars name), cut-IsName _ long, cut-IsName _ long)
    where
      long : AllChars (is_name_char unicode) (
          text (
            List.◌∷◌ "ea-"
              (List.◌∷◌ app_id (List.◌∷◌ "-" (List.◌∷◌ (safe_name unicode name) List.[])))))
      long =
          append-AllChars _ "ea-" _ (rw e refl, (rw a refl, (ground arith, tt)))
            (append-AllChars _ app_id _ id_fine (
              append-AllChars _ "-" _ (ground arith, tt)
                (append-AllChars _ (safe_name unicode name) "" (safe_name-AllChars name) tt)))
