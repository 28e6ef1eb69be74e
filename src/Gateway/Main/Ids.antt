-- ===== src/Gateway/Main/Ids.antt =====
-- The sensors that `main` registers: as many as configured, each with an id of its own.
use comp2432_project.Prelude.{
  ℕ, zero, suc, ◌+◌, ◌≤◌, ◌<◌, ◌≡◌, ◌≢◌, refl, sym, ap, ap₂, ◌∙◌, max, Option, none, some, List, [],
  ◌∷◌, ◌++◌, length, length-append, if◌then◌else◌, ltb, arith,
}
use comp2432_project.Prelude.Sort.{All, All-append, All-map, AllPairs}
use comp2432_project.Prelude.Decimal.{print_nat, print_nat-inj}
use comp2432_project.Gateway.Rates.{parse_rates, rates_choose}
use comp2432_project.Gateway.Main.{
  Text, codes, SensorsConfig, Family, thermometers, accelerometers, force_sensors, Registered,
  register_from, register_all, total_sensors, clamp, aggregation_workers,
}

abbrev pub HasOtherId : Registered → Registered → Type 0
HasOtherId a b = a.id ≢ b.id

-- The id of a sensor whose number in its family is at least `i`.
abbrev IsNumbered : Text → ℕ → Registered → Type 0
IsNumbered prefix i r = (k : ℕ) × (i ≤ k) × (r.id ≡ prefix ++ print_nat k)

append-cancel : (xs : Text) {ys zs : Text} → xs ++ ys ≡ xs ++ zs → ys ≡ zs
append-cancel [] e = e
append-cancel (x ∷ xs) e = append-cancel xs (ap tail e)
  where
    tail : Text → Text
    tail [] = []
    tail (y ∷ ys) = ys

register_from-All :
    (family : Family) (prefix : Text) (rates : List ℕ) (i left : ℕ)
    → All (IsNumbered prefix (i + 1)) (register_from family prefix rates i left)
unfolding register_from
register_from-All family prefix rates i zero = tt
register_from-All family prefix rates i (suc left) = (
  (i + 1, omega arith, refl),
  All-map (λ r (k, h, e). (k, omega arith, e)) (register_from family prefix rates (i + 1) left)
      (register_from-All family prefix rates (i + 1) left),
)

register_from-AllPairs :
    (family : Family) (prefix : Text) (rates : List ℕ) (i left : ℕ)
    → AllPairs HasOtherId (register_from family prefix rates i left)
unfolding register_from
register_from-AllPairs family prefix rates i zero = tt
register_from-AllPairs family prefix rates i (suc left) = (
  All-map
      (λ r (k, h, e) same.
        let numbers : i + 1 ≡ k = print_nat-inj (i + 1) k (append-cancel prefix (same ∙ e)) in
        omega arith)
      (register_from family prefix rates (i + 1) left)
      (register_from-All family prefix rates (i + 1) left),
  register_from-AllPairs family prefix rates (i + 1) left,
)

AllPairs-append {ℓ κ} :
    {A : Type ℓ} (R : A → A → Type κ) (xs ys : List A)
    → AllPairs R xs
    → AllPairs R ys
    → All (λ x. All (R x) ys) xs
    → AllPairs R (xs ++ ys)
AllPairs-append R [] ys h k c = k
AllPairs-append R (x ∷ xs) ys h k c =
    (All-append (R x) xs ys h.0 c.0, AllPairs-append R xs ys h.1 k c.1)

abbrev first : Text → ℕ
first [] = 0
first (c ∷ cs) = c

-- The families' prefixes start with different letters.
apart :
    (p q : Text) (xs ys : List Registered) (i j : ℕ)
    → ((s t : Text) → first (p ++ s) ≢ first (q ++ t))
    → All (IsNumbered p i) xs
    → All (IsNumbered q j) ys
    → All (λ x. All (HasOtherId x) ys) xs
apart p q xs ys i j differ h k =
    All-map
      (λ x (m, _, e).
        All-map
          (λ y (n, _, e') same. differ (print_nat m) (print_nat n) (ap first (sym e ∙ same ∙ e')))
          ys k)
      xs h

length-register_from :
    (family : Family) (prefix : Text) (rates : List ℕ) (i left : ℕ)
    → length (register_from family prefix rates i left) ≡ left
unfolding register_from
length-register_from family prefix rates i zero = refl
length-register_from family prefix rates i (suc left) =
    ap suc (length-register_from family prefix rates (i + 1) left)

register_from-rates :
    (family : Family) (prefix spec : Text) (default_rate i left : ℕ)
    → 0 < default_rate
    → All (λ r. 0 < r.rate) (register_from family prefix (parse_rates spec default_rate) i left)
unfolding register_from
register_from-rates family prefix spec default_rate i zero h = tt
register_from-rates family prefix spec default_rate i (suc left) h = (
  (rates_choose spec default_rate i h).0,
  register_from-rates family prefix spec default_rate (i + 1) left h,
)

both {ℓ κ ι} :
    {A : Type ℓ} (P : A → Type κ) (Q : A → Type ι) (xs : List A)
    → All P xs
    → All Q xs
    → All (λ x. P x × Q x) xs
both P Q [] h k = tt
both P Q (x ∷ xs) h k = ((h.0, k.0), both P Q xs h.1 k.1)

-- What the loop over one family registers.
record IsFamily (prefix : Text) (rs : List Registered) : Type 0 where
  numbered : All (IsNumbered prefix 1) rs
  distinct : AllPairs HasOtherId rs
  driven : All (λ r. 0 < r.rate) rs

register_from-IsFamily :
    (family : Family) (prefix spec : Text) (default_rate count : ℕ)
    → 0 < default_rate
    → IsFamily prefix (register_from family prefix (parse_rates spec default_rate) 0 count)
register_from-IsFamily family prefix spec default_rate count h =
    let rates = parse_rates spec default_rate in
    record {
      numbered = register_from-All family prefix rates 0 count;
      distinct = register_from-AllPairs family prefix rates 0 count;
      driven = register_from-rates family prefix spec default_rate 0 count h;
    }

families-AllPairs :
    (xs ys zs : List Registered)
    → IsFamily (codes "thermo-") xs
    → IsFamily (codes "accel-") ys
    → IsFamily (codes "force-") zs
    → AllPairs HasOtherId (xs ++ (ys ++ zs))
families-AllPairs xs ys zs t a f =
    AllPairs-append HasOtherId xs (ys ++ zs) t.distinct
      (AllPairs-append HasOtherId ys zs a.distinct f.distinct (
        apart (codes "accel-") (codes "force-") ys zs 1 1 (λ s u. omega arith) a.numbered
          f.numbered))
      (All-map (λ x (h, k). All-append (HasOtherId x) ys zs h k) xs
        (both _ _ xs
          (apart (codes "thermo-") (codes "accel-") xs ys 1 1 (λ s u. omega arith) t.numbered
            a.numbered)
          (apart (codes "thermo-") (codes "force-") xs zs 1 1 (λ s u. omega arith) t.numbered
            f.numbered)))

length-register_all :
    (sensors : SensorsConfig)
    → length (register_all sensors)
      ≡ sensors.thermo_count + (sensors.accel_count + sensors.force_count)
unfolding register_all
length-register_all sensors =
    length-append thermos (accels ++ forces)
    ∙ ap₂ ◌+◌ (length-register_from thermometers (codes "thermo-") _ 0 sensors.thermo_count) (
        length-append accels forces
        ∙ ap₂ ◌+◌ (length-register_from accelerometers (codes "accel-") _ 0 sensors.accel_count)
            (length-register_from force_sensors (codes "force-") _ 0 sensors.force_count))
  where
    thermos : List Registered
    thermos =
        register_from thermometers (codes "thermo-") (parse_rates sensors.thermo_rates_per_sec 50) 0
          sensors.thermo_count

    accels : List Registered
    accels =
        register_from accelerometers (codes "accel-") (parse_rates sensors.accel_rates_per_sec 100)
          0 sensors.accel_count

    forces : List Registered
    forces =
        register_from force_sensors (codes "force-") (parse_rates sensors.force_rates_per_sec 75) 0
          sensors.force_count

-- For every configuration `main` registers as many sensors as the three counts say, no two of them
-- have the same id, and each has a positive rate.
pub registered_apart :
    (sensors : SensorsConfig)
    → (length (register_all sensors)
        ≡ sensors.thermo_count + (sensors.accel_count + sensors.force_count))
      × AllPairs HasOtherId (register_all sensors)
      × All (λ r. 0 < r.rate) (register_all sensors)
unfolding register_all
registered_apart sensors =
    let t =
      register_from-IsFamily thermometers (codes "thermo-") sensors.thermo_rates_per_sec 50
        sensors.thermo_count (omega arith) in
    let a =
      register_from-IsFamily accelerometers (codes "accel-") sensors.accel_rates_per_sec 100
        sensors.accel_count (omega arith) in
    let f =
      register_from-IsFamily force_sensors (codes "force-") sensors.force_rates_per_sec 75
        sensors.force_count (omega arith) in
    (
      length-register_all sensors,
      families-AllPairs _ _ _ t a f,
      All-append (λ r. 0 < r.rate) _ _ t.driven
          (All-append (λ r. 0 < r.rate) _ _ a.driven f.driven),
    )

clamp_bounds :
    (n low high : ℕ)
    → low ≤ high
    → (m : ℕ) × (clamp n low high ≡ some m) × (low ≤ m) × (m ≤ max n low) × (m ≤ high)
unfolding clamp
clamp_bounds n low high h = (
  if ltb n low then low else if ltb high n then high else n,
  ground arith,
  ground arith,
  ground arith,
  ground arith,
)

-- The engine gets at least one worker, and no more than there are sensors or processors, where each
-- of these counts as one at least; the bounds of the clamp are never the wrong way round.
pub workers_bounded :
    (sensors : SensorsConfig) (parallelism : Option ℕ)
    → (n : ℕ) × (aggregation_workers sensors parallelism ≡ some n)
      × (1 ≤ n)
      × (n ≤ max (total_sensors sensors) 1)
      × (n ≤ max (elim parallelism [ none ↦ 4 | some k ↦ k ]) 1)
unfolding aggregation_workers
workers_bounded sensors none = clamp_bounds (total_sensors sensors) 1 4 (omega arith)
workers_bounded sensors (some k) = clamp_bounds (total_sensors sensors) 1 (max k 1) (omega arith)
