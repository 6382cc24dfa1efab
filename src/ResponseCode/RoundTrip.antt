-- ===== src/ResponseCode/RoundTrip.antt =====
-- Round trips of the codes of mcproxy/src/proxy/timers_values.cpp.
use mcproxy.Base.{
  ℕ, ◌+◌, ◌-◌, ◌*◌, ◌≤◌, ◌<◌, ◌≡◌, refl, subst, ◌≢◌, inl, inr, Bool, true, false, ◌&&◌, arith, ltb,
  leb, ◌==◌, ==_iff, Bool-cases,
}
use mcproxy.TimersValues.{sec}
use mcproxy.ResponseCode.{
  qqic_to_qqi, encode_qqic, qqic_loop, qqi_to_qqic, maxrespc_mldv2_to_maxrespi, int_bit,
  encode_mldv2, mldv2_loop, maxrespi_to_maxrespc_mldv2,
}
use mcproxy.ResponseCode.Enumeration.{all_below, all_below_sound}

abbrev survives : ℕ → Bool
survives c = qqi_to_qqic (qqic_to_qqi c) == c

bytes : all_below 256 survives ≡ true
unfolding qqi_to_qqic qqic_to_qqi qqic_loop encode_qqic all_below
bytes = refl

-- Every byte is the code of the seconds that it stands for.
pub qqi_to_qqic-qqic_to_qqi : (c : ℕ) → c < 256 → qqi_to_qqic (qqic_to_qqi c) ≡ c
qqi_to_qqic-qqic_to_qqi c l = (==_iff _ c).0 (all_below_sound 256 survives bytes c l)

-- The code stands for `sec` or less, and what is lost is at most a sixteenth.
abbrev is_close : ℕ → Bool
is_close sec = let t = qqic_to_qqi (qqi_to_qqic sec) in leb t sec && leb (16 * (sec - t)) sec

short_intervals : all_below 32768 is_close ≡ true
unfolding qqi_to_qqic qqic_to_qqi qqic_loop encode_qqic all_below
short_intervals = refl

abbrev survives_mldv2 : ℕ → Bool
survives_mldv2 c = maxrespi_to_maxrespc_mldv2 (maxrespc_mldv2_to_maxrespi c) == c

low_codes : all_below 32767 survives_mldv2 ≡ true
unfolding maxrespi_to_maxrespc_mldv2 maxrespc_mldv2_to_maxrespi mldv2_loop encode_mldv2 int_bit
    all_below
low_codes = refl

high_codes : all_below 32768 (λ c. survives_mldv2 (32768 + c)) ≡ true
unfolding maxrespi_to_maxrespc_mldv2 maxrespc_mldv2_to_maxrespi mldv2_loop encode_mldv2 int_bit
    all_below
high_codes = refl

close_parts :
    (sec t : ℕ)
    → (leb t sec && leb (16 * (sec - t)) sec) ≡ true
    → (t ≤ sec) × (16 * (sec - t) ≤ sec)
close_parts sec t h = ground (arith, h)

ltb_lt : (c n : ℕ) → ltb c n ≡ true → c < n
ltb_lt c n h = ground (arith, h)

above : (c : ℕ) → ltb c 32767 ≡ false → c ≢ 32767 → 32768 + (c - 32768) ≡ c
above c h n = ground (arith, h, n)

below : (c : ℕ) → c < 65536 → c - 32768 < 32768
below c l = omega (arith, l)

-- For an interval below 32768 seconds `qqi_to_qqic` gives the code of an interval that is no longer,
-- and shorter by a sixteenth at most.
pub qqi_to_qqic_close :
    (sec : ℕ)
    → sec < 32768
    → (qqic_to_qqi (qqi_to_qqic sec) ≤ sec) × (16 * (sec - qqic_to_qqi (qqi_to_qqic sec)) ≤ sec)
qqi_to_qqic_close sec l =
    close_parts sec (qqic_to_qqi (qqi_to_qqic sec))
      (all_below_sound 32768 is_close short_intervals sec l)

-- Every 16-bit maximum response code but 32767 is the code of the milliseconds that it stands for.
pub maxrespi_to_maxrespc_mldv2-maxrespc_mldv2_to_maxrespi :
    (c : ℕ) → c < 65536 → c ≢ 32767 → maxrespi_to_maxrespc_mldv2 (maxrespc_mldv2_to_maxrespi c) ≡ c
maxrespi_to_maxrespc_mldv2-maxrespc_mldv2_to_maxrespi c l n =
    (==_iff _ c).0 (elim (Bool-cases (ltb c 32767)) [
      | inl e ↦ all_below_sound 32767 survives_mldv2 low_codes c (ltb_lt c 32767 e)
      | inr e ↦
          subst (λ k. survives_mldv2 k ≡ true) (above c e n)
            (all_below_sound 32768 (λ k. survives_mldv2 (32768 + k)) high_codes (c - 32768)
              (below c l))
    ])
