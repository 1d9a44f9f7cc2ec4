-- ===== src/Servo/Reprograming/Blocks.antt =====
-- The data parts of the blocks of `SendFlushBlockData` in exxx_reprograming.cpp.
use hsrb_drivers.Prelude.{
  ℕ, zero, suc, ◌+◌, ◌-◌, ◌*◌, ◌≤◌, ◌<◌, ◌≡◌, refl, sym, ap, ◌∙◌, inl, inr, true, false, List, [],
  ◌∷◌, ◌++◌, ltb, length, take, drop, arith, Bool-cases, ltb→lt, ltb→le, length-drop, append_assoc,
  append-nil, take-append-drop,
}
use hsrb_drivers.Posix.{}
use hsrb_drivers.Servo.Reprograming.Xmodem.{replicate, data_part, xmodem_eof, xmodem_data_size}

-- The data parts of `n` blocks, from block `k` on.
abbrev pub data_parts : List ℕ → ℕ → ℕ → List ℕ
data_parts flush_data zero k = []
data_parts flush_data (suc n) k =
    data_part flush_data (xmodem_data_size * k) ++ data_parts flush_data n (k + 1)

replicate_add {ℓ} :
    {A : Type ℓ} (m n : ℕ) (x : A) → replicate m x ++ replicate n x ≡ replicate (m + n) x
replicate_add zero n x = ap (λ k. replicate k x) (omega arith)
replicate_add (suc m) n x =
    let e : suc (m + n) ≡ suc m + n = omega arith in
    ap (λ l. x ∷ l) (replicate_add m n x) ∙ ap (λ k. replicate k x) e

length-replicate {ℓ} : {A : Type ℓ} (n : ℕ) (x : A) → length (replicate n x) ≡ n
length-replicate zero x = refl
length-replicate (suc n) x = omega (arith, length-replicate n x)

drop_nil : (n : ℕ) → drop {A = ℕ} n [] ≡ []
drop_nil zero = refl
drop_nil (suc n) = refl

drop-drop : (m n : ℕ) (xs : List ℕ) → drop n (drop m xs) ≡ drop (m + n) xs
drop-drop zero n xs = ap (λ k. drop k xs) (omega arith)
drop-drop (suc m) n [] = drop_nil n ∙ sym (drop_nil (suc m + n))
drop-drop (suc m) n (x ∷ xs) =
    let e : suc (m + n) ≡ suc m + n = omega arith in drop-drop m n xs ∙ ap (λ k. drop k (x ∷ xs)) e

take_all : (n : ℕ) (xs : List ℕ) → length xs ≤ n → take n xs ≡ xs
take_all zero [] h = refl
take_all zero (x ∷ xs) h = absurd (omega arith)
take_all (suc n) [] h = refl
take_all (suc n) (x ∷ xs) h = ap (λ l. x ∷ l) (take_all n xs (omega arith))

drop_all : (n : ℕ) (xs : List ℕ) → length xs ≤ n → drop n xs ≡ []
drop_all zero [] h = refl
drop_all zero (x ∷ xs) h = absurd (omega arith)
drop_all (suc n) [] h = refl
drop_all (suc n) (x ∷ xs) h = drop_all n xs (omega arith)

-- The rest of the firmware, filled up to `n` blocks.
abbrev filled : ℕ → List ℕ → List ℕ
filled n xs = xs ++ replicate (xmodem_data_size * n - length xs) xmodem_eof

data_part-whole :
    (flush_data : List ℕ) (pos : ℕ)
    → xmodem_data_size ≤ length flush_data - pos
    → data_part flush_data pos ≡ take xmodem_data_size (drop pos flush_data)
data_part-whole flush_data pos h =
    let e : ltb (length flush_data - pos) xmodem_data_size ≡ false = ground arith in
    rw e (append-nil _)

data_part-last :
    (flush_data : List ℕ) (pos : ℕ)
    → length flush_data - pos < xmodem_data_size
    → data_part flush_data pos ≡ filled 1 (drop pos flush_data)
data_part-last flush_data pos h =
    let e : ltb (length flush_data - pos) xmodem_data_size ≡ true = ground arith in
    let n : length (drop pos flush_data) ≡ length flush_data - pos = length-drop pos flush_data in
    rw (e, take_all (length flush_data - pos) (drop pos flush_data) (omega arith), n) refl

fill_last :
    (xs : List ℕ) (n : ℕ)
    → length xs ≤ xmodem_data_size
    → filled 1 xs ++ filled n [] ≡ filled (suc n) xs
fill_last xs n h =
    let e : (xmodem_data_size * 1 - length xs) + (xmodem_data_size * n - 0)
        ≡ xmodem_data_size * suc n - length xs =
      omega arith in
    append_assoc xs _ _
    ∙ ap (λ l. xs ++ l) (replicate_add _ _ xmodem_eof ∙ ap (λ m. replicate m xmodem_eof) e)

fill_whole :
    (xs : List ℕ) (n : ℕ)
    → xmodem_data_size ≤ length xs
    → take xmodem_data_size xs ++ filled n (drop xmodem_data_size xs) ≡ filled (suc n) xs
fill_whole xs n h =
    let e : xmodem_data_size * n - length (drop xmodem_data_size xs)
        ≡ xmodem_data_size * suc n - length xs =
      omega (arith, length-drop xmodem_data_size xs) in
    sym (append_assoc (take xmodem_data_size xs) (drop xmodem_data_size xs) _)
    ∙ ap (λ l. l ++ replicate (xmodem_data_size * n - length (drop xmodem_data_size xs)) xmodem_eof)
        (take-append-drop xmodem_data_size xs)
    ∙ ap (λ m. xs ++ replicate m xmodem_eof) e

data_parts-filled :
    (flush_data : List ℕ) (n k : ℕ)
    → length flush_data ≤ xmodem_data_size * (k + n)
    → data_parts flush_data n k ≡ filled n (drop (xmodem_data_size * k) flush_data)
data_parts-filled flush_data zero k h =
    let e : drop (xmodem_data_size * k) flush_data ≡ [] =
      drop_all (xmodem_data_size * k) flush_data (omega arith) in
    let z : xmodem_data_size * 0 - length {A = ℕ} [] ≡ 0 = omega arith in
    rw e (ap (λ m. replicate m xmodem_eof) (sym z))
data_parts-filled flush_data (suc n) k h =
    elim (Bool-cases (ltb (length flush_data - xmodem_data_size * k) xmodem_data_size)) [
      | inl e ↦
          let small : length flush_data - xmodem_data_size * k < xmodem_data_size = ltb→lt _ _ e in
          rw
            (
              data_part-last flush_data (xmodem_data_size * k) small,
              data_parts-filled flush_data n (k + 1) (omega arith),
              drop_all (xmodem_data_size * (k + 1)) flush_data (omega arith),
            )
            (fill_last (drop (xmodem_data_size * k) flush_data) n
              (omega (arith, length-drop (xmodem_data_size * k) flush_data)))
      | inr e ↦
          let large : xmodem_data_size ≤ length flush_data - xmodem_data_size * k = ltb→le _ _ e in
          let d : xmodem_data_size * (k + 1) ≡ xmodem_data_size * k + xmodem_data_size =
            omega arith in
          rw
            (
              data_part-whole flush_data (xmodem_data_size * k) large,
              data_parts-filled flush_data n (k + 1) (omega arith),
              d,
              ← drop-drop (xmodem_data_size * k) xmodem_data_size flush_data,
            )
            (fill_whole (drop (xmodem_data_size * k) flush_data) n
              (omega (arith, length-drop (xmodem_data_size * k) flush_data)))
    ]

-- The data parts of the blocks, joined, are the firmware filled up with the byte 0xFF.
pub data_parts-join :
    (flush_data : List ℕ) (n : ℕ)
    → length flush_data ≤ xmodem_data_size * n
    → data_parts flush_data n 0
      ≡ flush_data ++ replicate (xmodem_data_size * n - length flush_data) xmodem_eof
data_parts-join flush_data n h = data_parts-filled flush_data n 0 (omega arith)
