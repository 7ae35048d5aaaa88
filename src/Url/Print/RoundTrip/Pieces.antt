-- ===== src/Url/Print/RoundTrip/Pieces.antt =====
-- c/url_parser.c: the parser on the pieces of a canonical URL.
use browserhistory.Prelude.{
  lt→ltb, ℕ, zero, suc, ◌+◌, ◌-◌, ◌*◌, ◌/◌, ◌%◌, ◌^◌, ◌≤◌, ◌<◌, ◌≡◌, refl, ◌∙◌, inl, inr, Bool,
  true, false, not, some, [], ◌∷◌, ◌++◌, append-nil, append_assoc, arith, ltb, ◌==◌, if◌then◌else◌,
  Bool-cases, length, length-append, take-eq_self, drop-eq_nil,
}
use browserhistory.Prelude.Int.{ℤ, pos, negsuc, is_positive, pos_part}
use browserhistory.Prelude.Text.{Bytes, is_nonempty, span}
use browserhistory.Url.Chars.{is_digit, is_scheme_char}
use browserhistory.Url.Host.{decimal, decimal_from, starts_with_byte}
use native.Mathlib.Nat.{pow-suc}
use browserhistory.Url.Parse.{
  split_at_sign, lowercase, extract_scheme, skip_slashes, split_userinfo, split_host, split_port,
}
use browserhistory.Url.Print.RoundTrip.{
  Every, Stops, span-append, is_user_char, is_host_char, is_lower_scheme, IsPort, starts_alpha,
}
use browserhistory.Url.Print.{print_decimal}

pub Every-append :
    (test : ℕ → Bool) (s t : Bytes) → Every test s → Every test t → Every test (s ++ t)
Every-append test [] t h k = k
Every-append test (c ∷ s) t h k = (h.0, Every-append test s t h.1 k)

pub Every-weaken :
    (a b : ℕ → Bool) (s : Bytes) → ((c : ℕ) → a c ≡ true → b c ≡ true) → Every a s → Every b s
Every-weaken a b [] w h = tt
Every-weaken a b (c ∷ s) w h = (w c h.0, Every-weaken a b s w h.1)

lowercase-lower : (s : Bytes) → Every is_lower_scheme s → lowercase s ≡ s
lowercase-lower [] h = refl
lowercase-lower (c ∷ s) h = ground (arith, h.0, lowercase-lower s h.1)

pub extract_scheme-print :
    (scheme rest : Bytes)
    → Every is_lower_scheme scheme
    → starts_alpha scheme ≡ true
    → length scheme ≤ 30
    → extract_scheme (scheme ++ b':' ∷ b'/' ∷ b'/' ∷ rest) ≡ some (scheme, rest)
unfolding extract_scheme skip_slashes
extract_scheme-print [] rest h a f = cc
extract_scheme-print (c ∷ s) rest h a f =
    let more =
      span-append (is_scheme_char false) s (b':' ∷ b'/' ∷ b'/' ∷ rest)
        (Every-weaken is_lower_scheme (is_scheme_char false) s (λ d e. ground arith) h.1)
        (unfold is_scheme_char in refl) in
    let first : is_scheme_char true c ≡ true = unfold is_scheme_char in a in
    rw (more, first, lt→ltb (length (c ∷ s)) 31 (omega arith), lowercase-lower (c ∷ s) h)

-- The user information and its `@`, or nothing.
abbrev pub user_text : Bytes → Bytes
user_text s = if is_nonempty s then s ++ b'@' ∷ [] else []

span-Every : (test P : ℕ → Bool) (s : Bytes) → Every P s → Every P (span test s).1
unfolding span
span-Every test P [] h = tt
span-Every test P (c ∷ s) h = elim (Bool-cases (test c)) [
  | inl e ↦ rw e (span-Every test P s h.1)
  | inr e ↦ rw e h
]

no_at_sign :
    (front back auth : Bytes)
    → Every (λ c. not (c == b'@')) back
    → split_at_sign front back auth ≡ ([], auth)
no_at_sign front [] auth h = refl
no_at_sign front (c ∷ s) auth h = ground (arith, h.0)

no_userinfo : (rest : Bytes) → Every (λ c. not (c == b'@')) rest → split_userinfo rest ≡ ([], rest)
unfolding split_userinfo
no_userinfo rest k =
    no_at_sign (span is_user_char rest).0 (span is_user_char rest).1 rest
      (span-Every is_user_char (λ c. not (c == b'@')) rest k)

pub split_userinfo-print :
    (user rest : Bytes)
    → Every is_user_char user
    → Every (λ c. not (c == b'@')) rest
    → split_userinfo (user_text user ++ rest) ≡ (user, rest)
unfolding split_userinfo
split_userinfo-print [] rest h k = no_userinfo rest k
split_userinfo-print (c ∷ user) rest h k =
    let text = append_assoc (c ∷ user) (b'@' ∷ []) rest in
    let front = span-append is_user_char (c ∷ user) (b'@' ∷ rest) h refl in rw text (rw front)

abbrev pub port_text : ℤ → Bytes
port_text n = if is_positive n then b':' ∷ print_decimal 10 (pos_part n) else []

pub split_host-print :
    (host behind : Bytes)
    → Every is_host_char host
    → starts_with_byte b'[' host ≡ false
    → is_nonempty host ≡ true
    → Stops is_host_char behind
    → split_host (host ++ behind) ≡ (host, behind)
unfolding split_host
split_host-print [] behind h b n k = cc
split_host-print (c ∷ host) behind h b n k = rw b (span-append is_host_char (c ∷ host) behind h k)

decimal_from-append :
    (acc : ℕ) (s : Bytes) (c : ℕ)
    → decimal_from acc (s ++ c ∷ []) ≡ decimal_from acc s * 10 + (c - b'0')
unfolding decimal_from
decimal_from-append acc [] c = refl
decimal_from-append acc (x ∷ s) c = decimal_from-append (acc * 10 + (x - b'0')) s c

pub decimal-print : (fuel n : ℕ) → n < 10 ^ fuel → decimal (print_decimal fuel n) ≡ n
unfolding print_decimal decimal_from
decimal-print zero n h = omega arith
decimal-print (suc fuel) n h = elim (Bool-cases (ltb n 10)) [
  | inl e ↦ rw e (omega arith)
  | inr e ↦
      let high = decimal-print fuel (n / 10) (omega (arith, pow-suc 10 fuel)) in
      rw e (
        decimal_from-append 0 (print_decimal fuel (n / 10)) (b'0' + n % 10) ∙ rw high (omega arith))
]

pub print_decimal-digits : (fuel n : ℕ) → Every is_digit (print_decimal fuel n)
unfolding print_decimal
print_decimal-digits zero n = tt
print_decimal-digits (suc fuel) n = elim (Bool-cases (ltb n 10)) [
  | inl e ↦ rw e (ground arith, tt)
  | inr e ↦ rw e (
      Every-append is_digit (print_decimal fuel (n / 10)) _ (print_decimal-digits fuel (n / 10))
        (ground arith, tt))
]

pub length-print_decimal : (fuel k n : ℕ) → n < 10 ^ suc k → length (print_decimal fuel n) ≤ suc k
unfolding print_decimal
length-print_decimal zero k n h = omega arith
length-print_decimal (suc fuel) zero n h = ground arith
length-print_decimal (suc fuel) (suc k) n h = ground (
  arith,
  length-print_decimal fuel k (n / 10),
  pow-suc 10 (suc k),
  length-append (print_decimal fuel (n / 10)) ((b'0' + n % 10) ∷ []),
)

nonempty-append : (s : Bytes) (c : ℕ) → is_nonempty (s ++ c ∷ []) ≡ true
nonempty-append [] c = refl
nonempty-append (x ∷ s) c = refl

pub nonempty-print_decimal : (fuel n : ℕ) → is_nonempty (print_decimal (suc fuel) n) ≡ true
unfolding print_decimal
nonempty-print_decimal fuel n = elim (Bool-cases (ltb n 10)) [
  | inl e ↦ rw e
  | inr e ↦ rw e (nonempty-append (print_decimal fuel (n / 10)) (b'0' + n % 10))
]

pub span_all : (test : ℕ → Bool) (s : Bytes) → Every test s → span test s ≡ (s, [])
span_all test s h = rw append-nil at (span-append test s [] h tt)

pub split_port-print : (port : ℤ) → IsPort port → split_port (port_text port) ≡ (port, [])
unfolding split_port
split_port-print (negsuc n) h = rw h
split_port-print (pos n) h =
    let digits = print_decimal 10 n in
    let short = length-print_decimal 10 4 n (omega arith) in
    let whole = take-eq_self 7 digits (omega (arith, short)) in
    let read = span_all is_digit digits (print_decimal-digits 10 n) in
    let value = decimal-print 10 n (omega arith) in
    rw (lt→ltb 0 n (omega arith)) (
      rw
        (
          whole,
          read,
          nonempty-print_decimal 9 n,
          value,
          drop-eq_nil (length digits) digits (omega arith),
        )
        (ground arith))
