-- ===== src/Json/RoundTrip/Chars.antt =====
-- One character of a text, written by `dump_char` and read by `scan`.
use Prim.Native.Nat.{◌/◌, ◌%◌}
use Prim.Native.String.{◌∷◌}
use mts_true_tech_hack.Base.{
  ℕ, ◌+◌, ◌-◌, ◌*◌, ◌<◌, Char, code, String, Bool, true, false, ◌&&◌, ◌≡◌, refl, ap, ◌∙◌, ◌⊎◌, inl,
  inr, eqb, ltb, leb, if◌then◌else◌, if_true, if_false, Bool-cases, arith,
}
use mts_true_tech_hack.Text.{chr}
use mts_true_tech_hack.Text.Codes.{chr-code, code-chr, code_range}
use mts_true_tech_hack.Json.Show.{hex_digit}
use mts_true_tech_hack.Json.Dumps.{dump_hex, dump_wide, dump_char}
use mts_true_tech_hack.Json.Loads.{
  Parse, refused, surrogate, push, hex_value, plain, digits, paired, low_digits, scan,
}

hex_digit_code : (n : ℕ) → n < 16 → code (hex_digit n) ≡ (if ltb n 10 then 48 + n else 87 + n)
hex_digit_code n h = elim (Bool-cases (ltb n 10)) [
  | inl e ↦ rw e (code-chr (48 + n) (omega arith))
  | inr e ↦ rw e (code-chr (87 + n) (omega arith))
]

-- The reader gives back the number of a digit that the writer has written.
hex_value-hex_digit : (n : ℕ) → n < 16 → hex_value (code (hex_digit n)) ≡ n
hex_value-hex_digit n h = rw (hex_digit_code n h) (ground arith)

-- What the reader does behind the last of four digits.
abbrev after_digits : ℕ → String → Parse String
after_digits n s =
    if leb 55296 n && leb n 56319
    then scan (paired n) s
    else if leb 56320 n && leb n 57343
    then refused surrogate
    else push (chr n) (scan plain s)

digit_step :
    (left acc d : ℕ) (s : String)
    → d < 16
    → scan (digits left acc) (hex_digit d ∷ s) ≡ (
        if ltb 1 left
        then scan (digits (left - 1) (acc * 16 + d)) s
        else after_digits (acc * 16 + d) s)
unfolding scan
digit_step left acc d s h = rw (hex_value-hex_digit d h) (if_false (eqb d 16) _ _ (ground arith))

digits_read :
    (a b c d n : ℕ) (s : String)
    → a < 16
    → b < 16
    → c < 16
    → d < 16
    → (((0 * 16 + a) * 16 + b) * 16 + c) * 16 + d ≡ n
    → scan (digits 4 0) (hex_digit a ∷ hex_digit b ∷ hex_digit c ∷ hex_digit d ∷ s)
      ≡ after_digits n s
digits_read a b c d n s ha hb hc hd e =
    digit_step 4 0 a _ ha
    ∙ digit_step 3 _ b _ hb
    ∙ digit_step 2 _ c _ hc
    ∙ digit_step 1 _ d s hd
    ∙ ap (λ m. after_digits m s) e

hex_read : (n : ℕ) (s : String) → n < 65536 → scan plain (dump_hex n s) ≡ after_digits n s
unfolding scan dump_hex
hex_read n s h =
    digits_read (n / 4096) (n / 256 % 16) (n / 16 % 16) (n % 16) n s (omega arith) (omega arith)
      (omega arith) (omega arith) (omega arith)

-- A number that is no surrogate.
after_plain :
    (n : ℕ) (s : String)
    → (n < 55296) ⊎ (57343 < n)
    → after_digits n s ≡ push (chr n) (scan plain s)
after_plain n s h =
    if_false (leb 55296 n && leb n 56319) _ _ (ground arith)
    ∙ if_false (leb 56320 n && leb n 57343) _ _ (ground arith)

low_step :
    (high left acc d : ℕ) (s : String)
    → d < 16
    → ltb 1 left ≡ true
    → scan (low_digits high left acc) (hex_digit d ∷ s)
      ≡ scan (low_digits high (left - 1) (acc * 16 + d)) s
unfolding scan
low_step high left acc d s h more =
    rw (hex_value-hex_digit d h)
      (if_false (eqb d 16) _ _ (ground arith) ∙ if_true (ltb 1 left) _ _ more)

low_last :
    (high acc d : ℕ) (s : String)
    → d < 16
    → leb 56320 (acc * 16 + d) && leb (acc * 16 + d) 57343 ≡ true
    → scan (low_digits high 1 acc) (hex_digit d ∷ s)
      ≡ push (chr (65536 + (high - 55296) * 1024 + (acc * 16 + d - 56320))) (scan plain s)
unfolding scan
low_last high acc d s h low =
    rw (hex_value-hex_digit d h) (if_false (eqb d 16) _ _ (ground arith) ∙ if_true _ _ _ low)

low_digits_read :
    (high a b c d n : ℕ) (s : String)
    → a < 16
    → b < 16
    → c < 16
    → d < 16
    → (((0 * 16 + a) * 16 + b) * 16 + c) * 16 + d ≡ n
    → leb 56320 n && leb n 57343 ≡ true
    → scan (low_digits high 4 0) (hex_digit a ∷ hex_digit b ∷ hex_digit c ∷ hex_digit d ∷ s)
      ≡ push (chr (65536 + (high - 55296) * 1024 + (n - 56320))) (scan plain s)
low_digits_read high a b c d n s ha hb hc hd e low =
    low_step high 4 0 a _ ha refl
    ∙ low_step high 3 _ b _ hb refl
    ∙ low_step high 2 _ c _ hc refl
    ∙ low_last high _ d s hd (rw e low)
    ∙ ap (λ m. push (chr (65536 + (high - 55296) * 1024 + (m - 56320))) (scan plain s)) e

low_read :
    (high n : ℕ) (s : String)
    → leb 56320 n && leb n 57343 ≡ true
    → scan (paired high) (dump_hex n s)
      ≡ push (chr (65536 + (high - 55296) * 1024 + (n - 56320))) (scan plain s)
unfolding scan dump_hex
low_read high n s low =
    low_digits_read high (n / 4096) (n / 256 % 16) (n / 16 % 16) (n % 16) n s (ground arith)
      (omega arith) (omega arith) (omega arith) (omega arith) low

wide_pair :
    (n : ℕ) (s : String)
    → 65535 < n
    → n < 1114112
    → scan plain (dump_hex (55296 + (n - 65536) / 1024) (dump_hex (56320 + (n - 65536) % 1024) s))
      ≡ push (chr n) (scan plain s)
wide_pair n s lo hi =
    let high = 55296 + (n - 65536) / 1024 in
    let low = 56320 + (n - 65536) % 1024 in
    let whole : 65536 + (high - 55296) * 1024 + (low - 56320) ≡ n = omega arith in
    hex_read high _ (omega arith)
    ∙ if_true (leb 55296 high && leb high 56319) _ _ (ground arith)
    ∙ low_read high low s (ground arith)
    ∙ ap (λ m. push (chr m) (scan plain s)) whole

no_surrogate : {n : ℕ} → (n < 55296) ⊎ ((57343 < n) × (n < 1114112)) → (n < 55296) ⊎ (57343 < n)
no_surrogate (inl h) = inl h
no_surrogate (inr (h, k)) = inr h

wide_read :
    (n : ℕ) (s : String)
    → (n < 55296) ⊎ ((57343 < n) × (n < 1114112))
    → scan plain (dump_wide n s) ≡ push (chr n) (scan plain s)
wide_read n s range = elim (Bool-cases (ltb n 65536)) [
  | inl e ↦
      ap (scan plain) (if_true (ltb n 65536) _ _ e)
      ∙ hex_read n s (ground arith)
      ∙ after_plain n s (no_surrogate range)
  | inr e ↦
      ap (scan plain) (if_false (ltb n 65536) _ _ e) ∙ wide_pair n s (ground arith) (ground arith)
]

split :
    (b : Bool) (x y : String) {z : Parse String}
    → (b ≡ true → scan plain x ≡ z)
    → (b ≡ false → scan plain y ≡ z)
    → scan plain (if b then x else y) ≡ z
split true x y f g = f refl
split false x y f g = g refl

named : (n : ℕ) (c : Char) (p : Parse String) → eqb (code c) n ≡ true → push (chr n) p ≡ push c p
named n c p h = let e : n ≡ code c = ground arith in ap (λ d. push d p) (ap chr e ∙ chr-code c)

itself : (c : Char) (p : Parse String) → push (chr (code c)) p ≡ push c p
itself c p = ap (λ d. push d p) (chr-code c)

plain_read :
    (c : Char) (s : String)
    → eqb (code c) 34 ≡ false
    → eqb (code c) 92 ≡ false
    → ltb (code c) 32 ≡ false
    → scan plain (c ∷ s) ≡ push c (scan plain s)
unfolding scan
plain_read c s p q r =
    if_false (eqb (code c) 34) _ _ p
    ∙ if_false (eqb (code c) 92) _ _ q
    ∙ if_false (ltb (code c) 32) _ _ r

-- The reader takes what `dump_char` has written for one character, and goes on behind it.
pub scan-dump_char :
    (ascii : Bool) (c : Char) (s : String)
    → scan plain (dump_char ascii c s) ≡ push c (scan plain s)
unfolding scan dump_char
scan-dump_char ascii c s =
    let n = code c in
    split (eqb n 34) _ _ (named 34 c (scan plain s)) (λ p.
      split (eqb n 92) _ _ (named 92 c (scan plain s)) (λ q.
        split (eqb n 10) _ _ (named 10 c (scan plain s)) (λ r.
          split (eqb n 13) _ _ (named 13 c (scan plain s)) (λ r.
            split (eqb n 9) _ _ (named 9 c (scan plain s)) (λ r.
              split (eqb n 12) _ _ (named 12 c (scan plain s)) (λ r.
                split (eqb n 8) _ _ (named 8 c (scan plain s)) (λ r.
                  split (ltb n 32) _ _
                    (λ low.
                      hex_read n s (ground arith)
                      ∙ after_plain n s (inl (ground arith))
                      ∙ itself c (scan plain s))
                    (λ high.
                      split (ascii && leb 127 n) _ _
                        (λ wide. wide_read n s (code_range c) ∙ itself c (scan plain s))
                        (λ r. plain_read c s p q high)))))))))
