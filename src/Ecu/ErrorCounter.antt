-- ===== src/Ecu/ErrorCounter.antt =====
-- `ErrorCounter` of error_counter.hpp: how many of the last `buffer_size` results were errors.
use hsrb_drivers.Prelude.{
  ℕ, zero, suc, ◌+◌, ◌-◌, ◌%◌, ◌^◌, ◌≤◌, ◌<◌, ◌≡◌, refl, sym, ◌∙◌, Bool, true, false, not, List, [],
  ◌∷◌, ◌++◌, length, arith, ◌==◌, if◌then◌else◌, length-append, append-nil, drop, drop_shifted,
}

pub record ErrorCounter : Type 0 where
  pub buffer : List Bool
  pub error_count : ℕ
  pub buffer_size : ℕ

abbrev repeat : ℕ → Bool → List Bool
repeat zero b = []
repeat (suc n) b = b ∷ repeat n b

-- The constructor: `buffer_.resize(buffer_size, true)`.
unfoldable pub new : ℕ → ErrorCounter
new buffer_size = record {
  buffer = repeat buffer_size true;
  error_count = 0;
  buffer_size = buffer_size;
}

-- `++` and `--` of a `uint32_t`.
abbrev increment : ℕ → ℕ
increment n = (n + 1) % 2 ^ 32

abbrev decrement : ℕ → ℕ
decrement n = (n + 2 ^ 32 - 1) % 2 ^ 32

-- `front()` and `pop_front()`; the front of an empty deque is not read, since `buffer_size` is not 0.
abbrev pop_oldest : ℕ → List Bool → ℕ × List Bool
pop_oldest count [] = (count, [])
pop_oldest count (oldest ∷ rest) = (if not oldest then decrement count else count, rest)

unfoldable pub register : Bool → ErrorCounter → ErrorCounter
register result c =
    let count = if not result then increment c.error_count else c.error_count in
    let (count', buffer) =
      if length c.buffer == c.buffer_size then pop_oldest count c.buffer else (count, c.buffer) in
    record c { buffer = buffer ++ result ∷ []; error_count = count' }

-- The number of errors among `results`.
abbrev pub errors : List Bool → ℕ
errors [] = 0
errors (true ∷ results) = errors results
errors (false ∷ results) = errors results + 1

pub record IsConsistent (c : ErrorCounter) : Type 0 where
  pub full : length c.buffer ≡ c.buffer_size
  pub counted : c.error_count ≡ errors c.buffer
  pub not_empty : 0 < c.buffer_size
  pub narrow : c.buffer_size < 2 ^ 32

errors-le : (xs : List Bool) → errors xs ≤ length xs
errors-le [] = omega arith
errors-le (true ∷ xs) = omega (arith, errors-le xs)
errors-le (false ∷ xs) = omega (arith, errors-le xs)

errors-append : (xs ys : List Bool) → errors (xs ++ ys) ≡ errors xs + errors ys
errors-append [] ys = omega arith
errors-append (true ∷ xs) ys = errors-append xs ys
errors-append (false ∷ xs) ys = omega (arith, errors-append xs ys)

repeat_lem : (n : ℕ) → (length (repeat n true) ≡ n) × (errors (repeat n true) ≡ 0)
repeat_lem zero = (refl, refl)
repeat_lem (suc n) = omega (arith, repeat_lem n)

pub new-IsConsistent : (n : ℕ) → 0 < n → n < 2 ^ 32 → IsConsistent (new n)
unfolding new
new-IsConsistent n h w = omega (arith, repeat_lem n)

-- A new result displaces the oldest one, and the count of the errors follows.
pub register-IsConsistent :
    (result : Bool) (c : ErrorCounter) → IsConsistent c → IsConsistent (register result c)
register-IsConsistent result c h = go result c.buffer c.error_count c.buffer_size h
  where
    go :
        (result : Bool) (buffer : List Bool) (count size : ℕ)
        → IsConsistent (record { buffer = buffer; error_count = count; buffer_size = size })
        → IsConsistent
            (register result (record { buffer = buffer; error_count = count; buffer_size = size }))
    go result [] count size h = absurd (omega (arith, h.full, h.not_empty))
    go true (oldest ∷ rest) count size h =
        unfold register in
        ground
          (arith, length-append rest (true ∷ []), errors-append rest (true ∷ []), errors-le rest)
    go false (oldest ∷ rest) count size h =
        unfold register in
        ground
          (arith, length-append rest (false ∷ []), errors-append rest (false ∷ []), errors-le rest)

register_shifts :
    (result : Bool) (c : ErrorCounter)
    → IsConsistent c
    → (register result c).buffer ≡ drop 1 (c.buffer ++ result ∷ [])
register_shifts result c h = go result c.buffer c.error_count c.buffer_size h.full h.not_empty
  where
    go :
        (result : Bool) (buffer : List Bool) (count size : ℕ)
        → length buffer ≡ size
        → 0 < size
        → (register result
            (record { buffer = buffer; error_count = count; buffer_size = size })).buffer
          ≡ drop 1 (buffer ++ result ∷ [])
    go result [] count size f p = absurd (omega arith)
    go result (oldest ∷ rest) count size f p = unfold register in ground arith

pub register_all : List Bool → ErrorCounter → ErrorCounter
register_all [] c = c
register_all (result ∷ results) c = register_all results (register result c)

register_all-IsConsistent :
    (results : List Bool) (c : ErrorCounter)
    → IsConsistent c
    → IsConsistent (register_all results c)
unfolding register_all
register_all-IsConsistent [] c h = h
register_all-IsConsistent (r ∷ results) c h =
    register_all-IsConsistent results (register r c) (register-IsConsistent r c h)

buffer_size-register_all :
    (results : List Bool) (c : ErrorCounter) → (register_all results c).buffer_size ≡ c.buffer_size
unfolding register_all register
buffer_size-register_all [] c = refl
buffer_size-register_all (r ∷ results) c = buffer_size-register_all results (register r c)

window :
    (results : List Bool) (c : ErrorCounter)
    → IsConsistent c
    → (register_all results c).buffer ≡ drop (length results) (c.buffer ++ results)
unfolding register_all
window [] c h = sym (append-nil c.buffer)
window (r ∷ results) c h =
    window results (register r c) (register-IsConsistent r c h)
    ∙ rw (register_shifts r c h)
        (drop_shifted (length results) c.buffer results r (omega (arith, h.full, h.not_empty)))

-- A counter that agrees with its buffer holds, after any results, the last `buffer_size` results of its history,
-- which begins with the buffer it starts from, and `error_count` is the number of errors among them.
pub register_all_window :
    (results : List Bool) (c : ErrorCounter)
    → IsConsistent c
    → ((register_all results c).buffer ≡ drop (length results) (c.buffer ++ results))
      × ((register_all results c).error_count
          ≡ errors (drop (length results) (c.buffer ++ results)))
      × (length (drop (length results) (c.buffer ++ results)) ≡ c.buffer_size)
register_all_window results c h =
    let same = window results c h in
    let kept = register_all-IsConsistent results c h in
    (same, rw (← same) kept.counted, rw (← same) (kept.full ∙ buffer_size-register_all results c))
