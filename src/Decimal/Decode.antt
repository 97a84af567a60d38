-- ===== src/Decimal/Decode.antt =====
-- `decode_decimal` accepts exactly the canonical prints.
use argon.Base.{
  ℕ, zero, suc, ◌+◌, ◌-◌, ◌*◌, ◌/◌, ◌%◌, ◌≤◌, ◌<◌, ◌≡◌, ◌≢◌, ◌∙◌, ◌↔◌, ◌⊎◌, sym, refl, ap, arith,
}
use argon.Base.{
  some, [], ◌∷◌, ◌++◌, append_assoc, Bytes, length, ltb, Bool-cases, Option-cases, inl, inr,
}
use argon.Base.{u64, ulong_max}
use native.Mathlib.Decide.{dec_lt}
use native.Mathlib.Nat.{zero-add}
use argon.Decimal.{print_loop, print_ulong, decimal_loop, decimal_finish, decode_decimal}
use argon.Decimal.Print.{
  print_loop_step, print_ulong_digit, print_one_digit, print_loop_head, print_ulong-append,
}

-- What follows does not go on with the number.
abbrev pub NoDigit : Bytes → Type 0
NoDigit [] = Unit
NoDigit (c ∷ rest) = (c < b'0') ⊎ (b'9' < c)

decimal_loop_stop :
    (rest : Bytes) (acc : ℕ) → NoDigit rest → decimal_loop rest acc ≡ some (acc, rest)
unfolding decimal_loop
decimal_loop_stop [] acc h = refl
decimal_loop_stop (c ∷ rest) acc h = ground arith

decimal_loop_digit :
    (d : ℕ) (str : Bytes) (acc : ℕ)
    → d < 10
    → acc * 10 + d ≤ ulong_max
    → decimal_loop ((b'0' + d) ∷ str) acc ≡ decimal_loop str (acc * 10 + d)
unfolding decimal_loop
decimal_loop_digit d str acc h fits =
    let e : u64 (u64 (acc * 10) + (b'0' + d - b'0')) ≡ acc * 10 + d = omega arith in
    rw e (ground arith)

-- Reading a print arrives at the number.
decimal_loop-print_loop :
    (f n : ℕ) (out : Bytes)
    → n < f
    → n ≤ ulong_max
    → decimal_loop (print_loop f n out) 0 ≡ decimal_loop out n
unfolding print_loop
decimal_loop-print_loop zero n out p fits = absurd (omega arith)
decimal_loop-print_loop (suc f) n out p fits = elim (Bool-cases (ltb n 10)) [
  | inl one ↦ rw one (decimal_loop_digit n out 0 (ground arith) (ground arith) ∙ rw (zero-add n))
  | inr more ↦ rw (print_loop_step f n out (ground arith)) (
      decimal_loop-print_loop f (n / 10) ((b'0' + n % 10) ∷ out) (ground arith) (omega arith)
      ∙ (decimal_loop_digit (n % 10) out (n / 10) (omega arith) (omega arith)
          ∙ ap (decimal_loop out) (omega arith)))
]

-- A round of `decimal_loop` that does not fail stops at a character that is no digit, or goes on with
-- the exact value.
decimal_loop_round :
    (c : ℕ) (str : Bytes) (acc v : ℕ) (rest : Bytes)
    → acc ≤ ulong_max
    → decimal_loop (c ∷ str) acc ≡ some (v, rest)
    → (NoDigit (c ∷ str) × (v ≡ acc) × (rest ≡ c ∷ str))
      ⊎ ((b'0' ≤ c)
          × (c ≤ b'9')
          × (acc * 10 + (c - b'0') ≤ ulong_max)
          × (decimal_loop str (acc * 10 + (c - b'0')) ≡ some (v, rest)))
unfolding decimal_loop
decimal_loop_round c str acc v rest fits e = ground arith

decimal_loop_nil :
    (acc v : ℕ) (rest : Bytes) → decimal_loop [] acc ≡ some (v, rest) → (v ≡ acc) × (rest ≡ [])
unfolding decimal_loop
decimal_loop_nil acc v rest e = ground arith

decimal_loop_sound :
    (str : Bytes) (acc v : ℕ) (rest : Bytes)
    → acc ≤ ulong_max
    → decimal_loop str acc ≡ some (v, rest)
    → (v ≤ ulong_max) × NoDigit rest × (length rest ≤ length str)
decimal_loop_sound [] acc v rest fits e =
    let (p, q) = decimal_loop_nil acc v rest e in rw (p, q) (fits, tt, omega arith)
decimal_loop_sound (c ∷ str) acc v rest fits e = elim (decimal_loop_round c str acc v rest fits e) [
  | inl (stop, p, q) ↦ rw (p, q) (fits, stop, omega arith)
  | inr (lo, hi, fits', e') ↦
      let (a, b, l) = decimal_loop_sound str (acc * 10 + (c - b'0')) v rest fits' e' in
      (a, b, omega arith)
]

-- The print of the value so far, and the text before it, are the print of the result and the rest.
decimal_loop_prints :
    (str : Bytes) (acc v : ℕ) (rest : Bytes)
    → 0 < acc
    → acc ≤ ulong_max
    → decimal_loop str acc ≡ some (v, rest)
    → print_ulong acc ++ str ≡ print_ulong v ++ rest
decimal_loop_prints [] acc v rest pos fits e =
    let (p, q) = decimal_loop_nil acc v rest e in rw (p, q)
decimal_loop_prints (c ∷ str) acc v rest pos fits e =
    elim (decimal_loop_round c str acc v rest fits e) [
      | inl (stop, p, q) ↦ rw (p, q)
      | inr (lo, hi, fits', e') ↦
          let d = c - b'0' in
          let same : b'0' + d ≡ c = omega arith in
          sym (append_assoc (print_ulong acc) (c ∷ []) str)
          ∙ (ap (λ (l : Bytes). l ++ str)
                (sym (print_ulong_digit acc d pos (omega arith) ∙ rw same))
              ∙ decimal_loop_prints str (acc * 10 + d) v rest (omega arith) fits' e')
    ]

-- The first round stands at 0.
decode_head :
    (c : ℕ) (str : Bytes) (v : ℕ) (rest : Bytes)
    → decode_decimal (c ∷ str) ≡ some (v, rest)
    → (decimal_loop (c ∷ str) 0 ≡ some (v, rest))
      × (length rest ≢ suc (length str))
      × ((c ≢ b'0') ⊎ (length rest ≡ length str))
unfolding decode_decimal decimal_finish
decode_head c str v rest e = elim (Option-cases (decimal_loop (c ∷ str) 0)) [
  | inl failed ↦ absurd (cc (rw failed at e))
  | inr ((w, s), done) ↦
      let e' : decimal_finish (c ∷ str) w s ≡ some (v, rest) = rw done at e in ground arith
]

-- The other way round.
decode_finish :
    (c : ℕ) (str : Bytes) (v : ℕ) (rest : Bytes)
    → decimal_loop (c ∷ str) 0 ≡ some (v, rest)
    → length rest ≢ suc (length str)
    → (c ≢ b'0') ⊎ (length rest ≡ length str)
    → decode_decimal (c ∷ str) ≡ some (v, rest)
unfolding decode_decimal decimal_finish
decode_finish c str v rest e ne alt = rw e (ground arith)

-- A loop that consumed nothing changed nothing.
decimal_loop_still :
    (str : Bytes) (acc v : ℕ) (rest : Bytes)
    → acc ≤ ulong_max
    → decimal_loop str acc ≡ some (v, rest)
    → length rest ≡ length str
    → (v ≡ acc) × (rest ≡ str)
decimal_loop_still [] acc v rest fits e same = decimal_loop_nil acc v rest e
decimal_loop_still (c ∷ str) acc v rest fits e same =
    elim (decimal_loop_round c str acc v rest fits e) [
      | inl (stop, p, q) ↦ (p, q)
      | inr (lo, hi, fits', e') ↦
          absurd (omega (arith, (decimal_loop_sound str (acc * 10 + (c - b'0')) v rest fits' e').2))
    ]

first_digit :
    (c : ℕ) (str : Bytes) (v : ℕ) (rest : Bytes)
    → b'0' ≤ c
    → c ≤ b'9'
    → decimal_loop str (c - b'0') ≡ some (v, rest)
    → (c ≢ b'0') ⊎ (length rest ≡ length str)
    → c ∷ str ≡ print_ulong v ++ rest
first_digit c str v rest lo hi e alt = elim (dec_lt b'0' c) [
  | yes pos ↦
      let d = c - b'0' in
      let same : b'0' + d ≡ c = omega arith in
      let printed : print_ulong d ≡ c ∷ [] = print_one_digit d (omega arith) ∙ rw same in
      ap (λ (l : Bytes). l ++ str) (sym printed)
      ∙ decimal_loop_prints str d v rest (omega arith) (omega arith) e
  | no zero_first ↦
      let is_zero : c ≡ b'0' = omega arith in
      let all_left : length rest ≡ length str = ground arith in
      let (p, q) = decimal_loop_still str (c - b'0') v rest (omega arith) e all_left in
      rw (p, q, is_zero) (sym (ap (λ (l : Bytes). l ++ str) (print_one_digit 0 (omega arith))))
]

decode_decimal_sound :
    (str : Bytes) (v : ℕ) (rest : Bytes)
    → decode_decimal str ≡ some (v, rest)
    → (str ≡ print_ulong v ++ rest) × (v ≤ ulong_max) × NoDigit rest
decode_decimal_sound [] v rest e = unfold decode_decimal decimal_loop decimal_finish in cc
decode_decimal_sound (c ∷ str) v rest e =
    let (looped, moved, alt) = decode_head c str v rest e in
    let (fits, stop, _) = decimal_loop_sound (c ∷ str) 0 v rest (omega arith) looped in
    elim (decimal_loop_round c str 0 v rest (omega arith) looped) [
      | inl (_, _, q) ↦ absurd (moved (ap length q))
      | inr (lo, hi, _, e') ↦
          (first_digit c str v rest lo hi (rw (zero-add (c - b'0')) at e') alt, fits, stop)
    ]

decode_complete_at :
    (c : ℕ) (str : Bytes) (v : ℕ) (rest : Bytes)
    → b'1' ≤ c
    → c ≤ b'9'
    → decimal_loop (c ∷ str) 0 ≡ some (v, rest)
    → decode_decimal (c ∷ str) ≡ some (v, rest)
decode_complete_at c str v rest lo hi e = elim (decimal_loop_round c str 0 v rest (omega arith) e) [
  | inl (stop, _, _) ↦ absurd (omega arith)
  | inr (_, _, fits, e') ↦
      let (_, _, shorter) = decimal_loop_sound str (0 * 10 + (c - b'0')) v rest fits e' in
      decode_finish c str v rest e (omega arith) (inl (omega arith))
]

-- Every number that fits `unsigned long` is read back from its print.
pub decode_decimal-print_ulong :
    (v : ℕ) (rest : Bytes)
    → v ≤ ulong_max
    → NoDigit rest
    → decode_decimal (print_ulong v ++ rest) ≡ some (v, rest)
decode_decimal-print_ulong zero rest fits stop = rw (print_one_digit 0 (omega arith)) (
    decode_finish b'0' rest 0 rest
      (decimal_loop_digit 0 rest 0 (omega arith) (omega arith) ∙ decimal_loop_stop rest 0 stop)
      (omega arith) (inr refl))
decode_decimal-print_ulong (suc n) rest fits stop =
    let (c, s, e, lo, hi) =
      print_loop_head (suc (suc n)) (suc n) rest (omega arith) (omega arith) in
    let loop = decimal_loop-print_loop (suc (suc n)) (suc n) rest (omega arith) fits in
    rw (print_ulong-append, e)
      (decode_complete_at c s (suc n) rest lo hi
        ((rw e at loop) ∙ decimal_loop_stop rest (suc n) stop))

-- `decode_decimal` returns `v` and the rest exactly when the text is the canonical decimal print of
-- `v`, which fits `unsigned long`, and then the rest, which begins with no digit. So no sign, no
-- leading zero, no empty number and no overflow is accepted.
pub decode_decimal-eq_iff :
    (str : Bytes) (v : ℕ) (rest : Bytes)
    → (decode_decimal str ≡ some (v, rest))
      ↔ ((str ≡ print_ulong v ++ rest) × (v ≤ ulong_max) × NoDigit rest)
decode_decimal-eq_iff str v rest =
    (decode_decimal_sound str v rest, λ h. rw (h.0) (decode_decimal-print_ulong v rest h.1 h.2))
