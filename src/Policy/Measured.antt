-- ===== src/Policy/Measured.antt =====
-- The comparisons of `_check_resource_quota` of porpulsion/routes/workloads.py, by what quantities mean.
use porpulsion.Prelude.{
  ◌≡◌, refl, String, Bool, true, false, Option, none, some, List, [], ◌∷◌, if◌then◌else◌, ap, sym,
}
use porpulsion.Prelude.Text.{is_empty}
use porpulsion.Policy.Reading.{Means, parse_quantity-reads}
use porpulsion.Policy.{ExecutingApp, Floats, fine, Reason}
use porpulsion.Policy.Quantity.{parse_quantity}
use porpulsion.Policy.Quota.{
  text_of_key, refuse_if, parses, over, pod_limit, add_option, used_total, total_limit,
}

refuse_if-fine : (b : Bool) (r : Reason) → refuse_if b r ≡ fine → b ≡ false
refuse_if-fine true r h = cc
refuse_if-fine false r h = refl

module _ (floats : Floats) where
  -- both quantities parse, and the first does not exceed the second
  abbrev pub Fits : Option floats.Float → Option floats.Float → Type 0
  Fits asked limit =
      (a : floats.Float) × (l : floats.Float) × (asked ≡ some a)
      × (limit ≡ some l)
      × (floats.exceeds a l ≡ false)

  over-Fits :
      (r : Reason) (asked limit : Option floats.Float)
      → over floats r asked limit ≡ fine
      → Fits asked limit
  over-Fits r none limit h = cc
  over-Fits r (some a) none h = cc
  over-Fits r (some a) (some l) h = (a, l, refl, refl, refuse_if-fine _ r h)

  pod_limit-Fits :
      (asked limit : String) (r : Reason)
      → pod_limit floats asked limit r ≡ fine
      → is_empty limit ≡ false
      → Fits (parse_quantity floats asked) (parse_quantity floats limit)
  unfolding pod_limit
  pod_limit-Fits asked limit r = if-over (is_empty limit)
    where
      if-over :
          (b : Bool)
          → (if b
              then fine
              else over floats r (parse_quantity floats asked) (parse_quantity floats limit))
            ≡ fine
          → b ≡ false
          → Fits (parse_quantity floats asked) (parse_quantity floats limit)
      if-over true h e = cc
      if-over false h e = over-Fits r _ _ h

  total_limit-Fits :
      (key asked limit : String) (crs : List ExecutingApp) (r : Reason)
      → total_limit floats key asked limit crs r ≡ fine
      → is_empty limit ≡ false
      → Fits
          (add_option floats
            (used_total floats key crs (some floats.zero))
            (parse_quantity floats asked))
          (parse_quantity floats limit)
  unfolding total_limit
  total_limit-Fits key asked limit crs r = if-over (is_empty limit)
    where
      total : Option floats.Float
      total =
          add_option floats (used_total floats key crs (some floats.zero))
            (parse_quantity floats asked)

      if-over :
          (b : Bool)
          → (if b then fine else over floats r total (parse_quantity floats limit)) ≡ fine
          → b ≡ false
          → Fits total (parse_quantity floats limit)
      if-over true h e = cc
      if-over false h e = over-Fits r _ _ h

module _ (floats : Floats) where
  abbrev pub Parses : String → Type 0
  Parses q = (x : floats.Float) × (parse_quantity floats q ≡ some x)

  -- whatever the quantity and the limit mean, the one is not above the other
  abbrev pub Within : (asked limit : String) → Type 0
  Within asked limit =
      (a l : floats.Float)
      → Means floats asked a
      → Means floats limit l
      → floats.exceeds a l ≡ false

  -- what the resources ask for, in the sense of the quantities, on top of a sum
  abbrev pub Sums : (key : String) → List ExecutingApp → (sum total : floats.Float) → Type 0
  Sums key [] sum total = total ≡ sum
  Sums key (cr ∷ crs) sum total =
      (x : floats.Float) × Means floats (text_of_key key cr.requests) x
      × Sums key crs (floats.plus sum x) total

  abbrev pub TotalWithin : (key asked limit : String) → List ExecutingApp → Type 0
  TotalWithin key asked limit crs =
      (used a l : floats.Float)
      → Sums key crs floats.zero used
      → Means floats asked a
      → Means floats limit l
      → floats.exceeds (floats.plus used a) l ≡ false

  Fits-Within :
      (asked limit : Option floats.Float) (a l : floats.Float)
      → Fits floats asked limit
      → asked ≡ some a
      → limit ≡ some l
      → floats.exceeds a l ≡ false
  Fits-Within asked limit a l (b, m, asked_b, limit_m, below) asked_a limit_l = cc

  pub pod_limit-Within :
      (asked limit : String) (r : Reason)
      → pod_limit floats asked limit r ≡ fine
      → is_empty limit ≡ false
      → Within asked limit
  pod_limit-Within asked limit r h set a l means_a means_l =
      Fits-Within _ _ a l (pod_limit-Fits floats asked limit r h set)
        (parse_quantity-reads floats asked a means_a) (parse_quantity-reads floats limit l means_l)

  used_total-Sums :
      (key : String) (crs : List ExecutingApp) (sum total : floats.Float)
      → Sums key crs sum total
      → used_total floats key crs (some sum) ≡ some total
  unfolding used_total
  used_total-Sums key [] sum total is = ap some (sym is)
  used_total-Sums key (cr ∷ crs) sum total (x, means, sums) =
      rw (parse_quantity-reads floats (text_of_key key cr.requests) x means)
        (used_total-Sums key crs (floats.plus sum x) total sums)

  pub total_limit-Within :
      (key asked limit : String) (crs : List ExecutingApp) (r : Reason)
      → total_limit floats key asked limit crs r ≡ fine
      → is_empty limit ≡ false
      → TotalWithin key asked limit crs
  total_limit-Within key asked limit crs r h set used a l sums means_a means_l =
      Fits-Within _ _ (floats.plus used a) l (total_limit-Fits floats key asked limit crs r h set)
        (rw
          (
            used_total-Sums key crs floats.zero used sums,
            parse_quantity-reads floats asked a means_a,
          )
          refl)
        (parse_quantity-reads floats limit l means_l)

  pub parses-Parses : (q : String) → parses floats (parse_quantity floats q) ≡ fine → Parses q
  parses-Parses q = of_result (parse_quantity floats q)
    where
      of_result :
          (o : Option floats.Float) → parses floats o ≡ fine → (x : floats.Float) × (o ≡ some x)
      of_result none h = cc
      of_result (some x) h = (x, refl)
