-- ===== src/Gateway/Rates.antt =====
-- gateway/src/rates.rs: the rates of the sensors, from a text of the configuration. A text is the
-- list of its characters' numbers.
use comp2432_project.Prelude.{
  ℕ, zero, suc, ◌+◌, ◌-◌, ◌*◌, ◌<◌, ◌≤◌, ◌^◌, ◌≡◌, refl, ap, ◌⊎◌, inl, inr, Bool, ◌&&◌, ◌||◌,
  Option, none, some, List, [], ◌∷◌, ◌++◌, if◌then◌else◌, ◌==◌, ltb, leb, length, get_elem?, arith,
  Bool-cases,
}
use comp2432_project.Prelude.Sort.{All}

-- `char::is_whitespace`
abbrev pub is_whitespace : ℕ → Bool
is_whitespace c =
    leb 9 c && leb c 13
    || c == 32
    || c == 133
    || c == 160
    || c == 5_760
    || leb 8_192 c && leb c 8_202
    || c == 8_232
    || c == 8_233
    || c == 8_239
    || c == 8_287
    || c == 12_288

-- `word` is what has been read of the token.
unfoldable pub split_words : List ℕ → List ℕ → List (List ℕ)
split_words word [] = if length word == 0 then [] else word ∷ []
split_words word (c ∷ cs) =
    let after_space = split_words [] cs in
    let longer = split_words (word ++ c ∷ []) cs in
    if is_whitespace c then if length word == 0 then after_space else word ∷ after_space else longer

unfoldable pub split_whitespace : List ℕ → List (List ℕ)
unfolding split_words
split_whitespace text = split_words [] text

-- The digits of `str::parse::<u32>`, with `n` read so far.
unfoldable pub scan_digits : ℕ → List ℕ → Option ℕ
scan_digits n [] = some n
scan_digits n (c ∷ cs) =
    let m = n * 10 + (c - 48) in
    let rest = scan_digits m cs in if leb 48 c && leb c 57 && ltb m (2 ^ 32) then rest else none

-- One `+` may stand before the digits, and there must be one digit.
unfoldable pub parse_u32 : List ℕ → Option ℕ
unfolding scan_digits
parse_u32 [] = none
parse_u32 (c ∷ []) = scan_digits 0 (c ∷ [])
parse_u32 (c ∷ d ∷ ds) = if c == 43 then scan_digits 0 (d ∷ ds) else scan_digits 0 (c ∷ d ∷ ds)

-- `.filter_map(|token| token.parse::<u32>().ok()).filter(|rate| *rate > 0)`
unfoldable pub positive_rates : List (List ℕ) → List ℕ
unfolding parse_u32
positive_rates [] = []
positive_rates (token ∷ tokens) = elim (parse_u32 token) [
  | none ↦ positive_rates tokens
  | some rate ↦ if ltb 0 rate then rate ∷ positive_rates tokens else positive_rates tokens
]

unfoldable pub parse_rates : List ℕ → ℕ → List ℕ
unfolding split_whitespace positive_rates
parse_rates spec default_rate =
    let parsed = positive_rates (split_whitespace spec) in
    if length parsed == 0 then default_rate ∷ [] else parsed

-- `*rates.last().unwrap_or(&1)`
pub last_or_one : List ℕ → ℕ
last_or_one [] = 1
last_or_one (rate ∷ []) = rate
last_or_one (rate ∷ next ∷ rates) = last_or_one (next ∷ rates)

unfoldable pub rate_for_index : List ℕ → ℕ → ℕ
unfolding last_or_one
rate_for_index rates idx = elim (get_elem? rates idx) [
  | some rate ↦ rate
  | none ↦ last_or_one rates
]

positive_rates-All : (tokens : List (List ℕ)) → All (λ rate. 0 < rate) (positive_rates tokens)
unfolding positive_rates
positive_rates-All [] = tt
positive_rates-All (token ∷ tokens) = kept (positive_rates-All tokens) (parse_u32 token)
  where
    kept :
        All (λ rate. 0 < rate) (positive_rates tokens)
        → (o : Option ℕ)
        → All
            (λ rate. 0 < rate)
            (elim o [
              | none ↦ positive_rates tokens
              | some rate ↦
                  if ltb 0 rate then rate ∷ positive_rates tokens else positive_rates tokens
            ])
    kept h none = h
    kept h (some rate) = elim (Bool-cases (ltb 0 rate)) [
      | inl e ↦ rw e (ground arith, h)
      | inr e ↦ rw e h
    ]

-- The entry at the index, or the last entry when the index is past the end.
abbrev pub IsChoice : List ℕ → ℕ → ℕ → Type 0
IsChoice rates idx rate =
    (get_elem? rates idx ≡ some rate)
    ⊎ (length rates ≤ idx × (front : List ℕ) × rates ≡ front ++ rate ∷ [])

rate_for_index-IsChoice :
    (rate : ℕ) (rates : List ℕ) (idx : ℕ)
    → IsChoice (rate ∷ rates) idx (rate_for_index (rate ∷ rates) idx)
unfolding rate_for_index last_or_one
rate_for_index-IsChoice rate rates zero = inl refl
rate_for_index-IsChoice rate [] (suc idx) = inr (omega arith, [], refl)
rate_for_index-IsChoice rate (next ∷ rates) (suc idx) =
    elim (rate_for_index-IsChoice next rates idx) [
      | inl e ↦ inl e
      | inr (l, front, e) ↦ inr (omega (arith, l), rate ∷ front, ap (λ xs. rate ∷ xs) e)
    ]

rate_for_index-pos :
    (rate : ℕ) (rates : List ℕ) (idx : ℕ)
    → All (λ r. 0 < r) (rate ∷ rates)
    → 0 < rate_for_index (rate ∷ rates) idx
unfolding rate_for_index last_or_one
rate_for_index-pos rate rates zero h = h.0
rate_for_index-pos rate [] (suc idx) h = h.0
rate_for_index-pos rate (next ∷ rates) (suc idx) h = rate_for_index-pos next rates idx h.1

chosen :
    (rates : List ℕ) (idx : ℕ)
    → 0 < length rates
    → All (λ r. 0 < r) rates
    → 0 < rate_for_index rates idx × IsChoice rates idx (rate_for_index rates idx)
chosen [] idx l h = ground (arith, l)
chosen (rate ∷ rates) idx l h =
    (rate_for_index-pos rate rates idx h, rate_for_index-IsChoice rate rates idx)

parse_rates_sound :
    (spec : List ℕ) (default_rate : ℕ)
    → 0 < default_rate
    → 0 < length (parse_rates spec default_rate) × All (λ r. 0 < r) (parse_rates spec default_rate)
unfolding parse_rates
parse_rates_sound spec default_rate d = elim (Bool-cases (length parsed == 0)) [
  | inl e ↦ rw e (omega arith, (d, tt))
  | inr e ↦ rw e (ground arith, positive_rates-All (split_whitespace spec))
]
  where
    parsed : List ℕ
    parsed = positive_rates (split_whitespace spec)

-- Whatever the text of the configuration, with a positive default every sensor gets a positive rate:
-- the entry of the parsed rates at its index, or their last entry when there are fewer rates.
pub rates_choose :
    (spec : List ℕ) (default_rate idx : ℕ)
    → 0 < default_rate
    → 0 < rate_for_index (parse_rates spec default_rate) idx
      × IsChoice
          (parse_rates spec default_rate)
          idx
          (rate_for_index (parse_rates spec default_rate) idx)
rates_choose spec default_rate idx d =
    let (l, h) = parse_rates_sound spec default_rate d in
    chosen (parse_rates spec default_rate) idx l h
