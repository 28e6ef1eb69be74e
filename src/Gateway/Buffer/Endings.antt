-- ===== src/Gateway/Buffer/Endings.antt =====
-- How each pass of an operation on the shared buffer ends, and what it found.
use comp2432_project.Prelude.{
  ◌≡◌, refl, Bool, true, false, ◌&&◌, none, some, List, [], ◌∷◌, ◌++◌, if◌then◌else◌, length,
}
use comp2432_project.Gateway.Readings.{SensorReading}
use comp2432_project.Gateway.Buffer.{
  SharedBuffer, PushPass, pushed, waits_not_full, push_panics, PopPass, returned, waits_not_empty,
  pop_panics, fetch_add, is_full, push_pass, push_start, pop_pass, len,
}

module _ {F : Type 0} where
  abbrev pub waited : SharedBuffer F → SharedBuffer F
  waited b = record b { full_waits_total = fetch_add b.full_waits_total 1 }

  abbrev pub put : SensorReading F → SharedBuffer F → SharedBuffer F
  put reading b = record b {
    queue = b.queue ++ reading ∷ [];
    pushed_total = fetch_add b.pushed_total 1;
  }

  -- The endings of a pass of `push`, and what the pass found.
  pub data PushEnding (reading : SensorReading F) (b : SharedBuffer F)
      : SharedBuffer F × PushPass → Type 0 where
    after_poison : b.poisoned ≡ true → PushEnding reading b (b, push_panics)
    while_full :
        b.poisoned ≡ false → is_full b ≡ true → PushEnding reading b (waited b, waits_not_full)
    with_room :
        b.poisoned ≡ false → is_full b ≡ false → PushEnding reading b (put reading b, pushed)

  pub push_pass-Ending :
      (reading : SensorReading F) (b : SharedBuffer F) → PushEnding reading b (push_pass reading b)
  unfolding push_pass
  push_pass-Ending reading b = ending reading b b.poisoned (is_full b) refl refl
    where
      ending :
          (reading : SensorReading F) (b : SharedBuffer F) (p f : Bool)
          → b.poisoned ≡ p
          → is_full b ≡ f
          → PushEnding reading b (
              if p
              then (b, push_panics)
              else if f
              then (waited b, waits_not_full)
              else (put reading b, pushed))
      ending reading b true f e k = after_poison e
      ending reading b false true e k = while_full e k
      ending reading b false false e k = with_room e k

  abbrev pub poison : SharedBuffer F → SharedBuffer F
  poison b = record b { poisoned = true }

  -- The endings of a call of `push` up to its first wait.
  pub data StartEnding (reading : SensorReading F) (b : SharedBuffer F)
      : SharedBuffer F × PushPass → Type 0 where
    overflows :
        b.poisoned ≡ false
        → b.fail_on_full ≡ true
        → is_full b ≡ true
        → StartEnding reading b (poison b, push_panics)
    passes :
        {passed : SharedBuffer F × PushPass}
        → PushEnding reading b passed
        → StartEnding reading b passed

  pub push_start-Ending :
      (reading : SensorReading F) (b : SharedBuffer F)
      → StartEnding reading b (push_start reading b)
  unfolding push_start
  push_start-Ending reading b =
      ending reading b b.poisoned b.fail_on_full (is_full b) refl refl refl
    where
      ending :
          (reading : SensorReading F) (b : SharedBuffer F) (p o f : Bool)
          → b.poisoned ≡ p
          → b.fail_on_full ≡ o
          → is_full b ≡ f
          → StartEnding reading b (
              if p
              then (b, push_panics)
              else if o && f
              then (poison b, push_panics)
              else push_pass reading b)
      ending reading b true o f e h k = passes (after_poison e)
      ending reading b false true true e h k = overflows e h k
      ending reading b false true false e h k = passes (push_pass-Ending reading b)
      ending reading b false false f e h k = passes (push_pass-Ending reading b)

  abbrev pub rest_of : List (SensorReading F) → SharedBuffer F → SharedBuffer F
  rest_of rest b = record b { queue = rest; popped_total = fetch_add b.popped_total 1 }

  -- The endings of a pass of `pop_timeout`.
  pub data PopEnding (expired : Bool) (b : SharedBuffer F)
      : SharedBuffer F × PopPass F → Type 0 where
    pop_after_poison : b.poisoned ≡ true → PopEnding expired b (b, pop_panics)
    timed_out :
        b.poisoned ≡ false → b.queue ≡ [] → expired ≡ true → PopEnding expired b (b, returned none)
    on_empty :
        b.poisoned ≡ false
        → b.queue ≡ []
        → expired ≡ false
        → PopEnding expired b (b, waits_not_empty)
    popped :
        (val : SensorReading F) (rest : List (SensorReading F))
        → b.poisoned ≡ false
        → b.queue ≡ val ∷ rest
        → PopEnding expired b (rest_of rest b, returned (some val))

  pub pop_pass-Ending :
      (expired : Bool) (b : SharedBuffer F) → PopEnding expired b (pop_pass expired b)
  unfolding pop_pass
  pop_pass-Ending expired b = ending expired b b.poisoned b.queue refl refl
    where
      ending :
          (expired : Bool) (b : SharedBuffer F) (p : Bool) (q : List (SensorReading F))
          → b.poisoned ≡ p
          → b.queue ≡ q
          → PopEnding expired b (
              if p then (b, pop_panics) else elim q [
                | [] ↦ (b, if expired then returned none else waits_not_empty)
                | val ∷ rest ↦ (rest_of rest b, returned (some val))
              ])
      ending expired b true q e k = pop_after_poison e
      ending true b false [] e k = timed_out e k refl
      ending false b false [] e k = on_empty e k refl
      ending expired b false (val ∷ rest) e k = popped val rest e k

  pub len_sound : (b : SharedBuffer F) → b.poisoned ≡ false → len b ≡ some (length b.queue)
  unfolding len
  len_sound b h = rw h refl
